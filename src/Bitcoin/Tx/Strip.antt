-- ===== src/Bitcoin/Tx/Strip.antt =====
-- `stripWitness` on serialized transactions.
use writz.Prelude.{
  ℕ, ◌+◌, ◌<◌, ◌≡◌, refl, inl, inr, sym, List, [], ◌∷◌, ◌++◌, true, false, some, arith, length,
  length-append, append_assoc, append-nil, subst, lt→ltb, All,
}
use writz.Bitcoin.Bytes.{Bytes, At, At-zero, At-head, At-get}
use writz.Bitcoin.Tx.Format.{
  compact_size, limit, with_length, TxIn, TxOut, Tx, le64, encode_inputs, encode_outputs,
  encode_items, encode_witness, encode_body, encode_legacy, encode_segwit, IsTxIn, IsTxOut, IsStack,
  IsTx,
}
use writz.Bitcoin.Tx.Reads.{
  compact_size_cases, slice_exact-At, read_var_int-At, At-next, At-regroup,
}
use writz.Bitcoin.Tx.{
  slice_exact, read_var_int, is_segwit, copy_inputs, copy_outputs, skip_items, skip_witness,
  strip_segwit, strip_witness,
}

-- A script behind its length, read as `readVarInt` and one slice over both.
pub script-At :
    (buf : Bytes) (i : ℕ) (s t : Bytes)
    → length s < limit
    → At buf i (with_length s ++ t)
    → (read_var_int buf i ≡ some (length s, length (compact_size (length s))))
      × (slice_exact buf i (length (compact_size (length s)) + length s) ≡ some (with_length s))
      × At buf (i + (length (compact_size (length s)) + length s)) t
unfolding with_length
script-At buf i s t h a =
    let e = length-append (compact_size (length s)) s in
    (
      read_var_int-At buf i (length s) (s ++ t) h
          (At-regroup buf i (compact_size (length s)) s t a),
      slice_exact-At buf i _ (with_length s) t e a,
      At-next buf i _ (with_length s) t e a,
    )

copy_inputs-At :
    (xs : List TxIn) (buf : Bytes) (i : ℕ) (out t : Bytes)
    → All IsTxIn xs
    → At buf i (encode_inputs xs ++ t)
    → (end : ℕ) × (copy_inputs (length xs) buf i out ≡ some (out ++ encode_inputs xs, end))
      × At buf end t
unfolding copy_inputs encode_inputs
copy_inputs-At [] buf i out t h a = (i, rw (append-nil out), a)
copy_inputs-At (x ∷ xs) buf i out t (hx, h) a =
    let a0 = At-regroup buf i x.prevout _ t a in
    let a1 = At-next buf i 36 x.prevout _ hx.prevout_size a0 in
    let a2 = At-regroup buf (i + 36) (with_length x.script) _ t a1 in
    let (e1, e2, a3) = script-At buf (i + 36) x.script _ hx.script_size a2 in
    let a4 = At-regroup buf _ x.sequence _ t a3 in
    let a5 = At-next buf _ 4 x.sequence _ hx.sequence_size a4 in
    let (end, e, a6) =
      copy_inputs-At xs buf _ (out ++ (x.prevout ++ (with_length x.script ++ x.sequence))) t h a5 in
    (
      end,
      rw
          (
            slice_exact-At buf i 36 x.prevout _ hx.prevout_size a0,
            e1,
            e2,
            slice_exact-At buf _ 4 x.sequence _ hx.sequence_size a4,
            e,
          )
          (simp append_assoc),
      a6,
    )

pub length-le64 : (n : ℕ) → length (le64 n) ≡ 8
unfolding le64
length-le64 n = refl

copy_outputs-At :
    (xs : List TxOut) (buf : Bytes) (i : ℕ) (out t : Bytes)
    → All IsTxOut xs
    → At buf i (encode_outputs xs ++ t)
    → (end : ℕ) × (copy_outputs (length xs) buf i out ≡ some (out ++ encode_outputs xs, end))
      × At buf end t
unfolding copy_outputs encode_outputs
copy_outputs-At [] buf i out t h a = (i, rw (append-nil out), a)
copy_outputs-At (x ∷ xs) buf i out t (hx, h) a =
    let a0 = At-regroup buf i (le64 x.value) _ t a in
    let a1 = At-next buf i 8 (le64 x.value) _ (length-le64 x.value) a0 in
    let a2 = At-regroup buf (i + 8) (with_length x.script) _ t a1 in
    let (e1, e2, a3) = script-At buf (i + 8) x.script _ hx.script_size a2 in
    let (end, e, a4) =
      copy_outputs-At xs buf _ (out ++ (le64 x.value ++ with_length x.script)) t h a3 in
    (
      end,
      rw (slice_exact-At buf i 8 (le64 x.value) _ (length-le64 x.value) a0, e1, e2, e)
          (simp append_assoc),
      a4,
    )

skip_items-At :
    (xs : List Bytes) (buf : Bytes) (i : ℕ) (t : Bytes)
    → All (λ (x : Bytes). length x < limit) xs
    → At buf i (encode_items xs ++ t)
    → (end : ℕ) × (skip_items (length xs) buf i ≡ some end) × At buf end t
unfolding skip_items encode_items
skip_items-At [] buf i t h a = (i, refl, a)
skip_items-At (x ∷ xs) buf i t (hx, h) a =
    let a0 = At-regroup buf i (with_length x) _ t a in
    let (e1, e2, a1) = script-At buf i x _ hx a0 in
    let (end, e, a2) = skip_items-At xs buf _ t h a1 in (end, rw (e1, e), a2)

skip_witness-At :
    (ss : List (List Bytes)) (buf : Bytes) (i : ℕ) (t : Bytes)
    → All IsStack ss
    → At buf i (encode_witness ss ++ t)
    → (end : ℕ) × (skip_witness (length ss) buf i ≡ some end) × At buf end t
unfolding skip_witness encode_witness
skip_witness-At [] buf i t h a = (i, refl, a)
skip_witness-At (s ∷ ss) buf i t (hs, h) a =
    let a0 = At-regroup buf i (compact_size (length s)) _ t a in
    let a1 = At-next buf i _ (compact_size (length s)) _ refl a0 in
    let a2 = At-regroup buf _ (encode_items s) _ t a1 in
    let (i', e1, a3) = skip_items-At s buf _ _ hs.1 a2 in
    let (end, e2, a4) = skip_witness-At ss buf i' t h a3 in
    (end, rw (read_var_int-At buf i (length s) _ hs.0 a0, e1, e2), a4)

strip_segwit-At :
    (buf : Bytes) (tx : Tx)
    → IsTx tx
    → At buf 0 (encode_segwit tx)
    → strip_segwit buf ≡ some (encode_legacy tx)
unfolding strip_segwit encode_segwit encode_legacy encode_body
strip_segwit-At buf tx v a0 =
    let ins = compact_size (length tx.inputs) in
    let outs = compact_size (length tx.outputs) in
    let a1 = At-next buf 0 4 tx.version _ v.version_size a0 in
    let a2 = At-next buf 4 2 (0x00 ∷ 0x01 ∷ []) _ refl a1 in
    let a3 = At-next buf 6 _ ins _ refl a2 in
    let (i, e1, a4) = copy_inputs-At tx.inputs buf _ (tx.version ++ ins) _ v.are_inputs a3 in
    let a5 = At-next buf i _ outs _ refl a4 in
    let (i', e2, a6) =
      copy_outputs-At tx.outputs buf _ (((tx.version ++ ins) ++ encode_inputs tx.inputs) ++ outs) _
        v.are_outputs a5 in
    let (end, e3, a7) = skip_witness-At tx.witness buf i' tx.locktime v.are_stacks a6 in
    let e4 = subst (λ k. skip_witness k buf i' ≡ some end) v.stack_count e3 in
    let a8 = subst (At buf end) (sym (append-nil tx.locktime)) a7 in
    rw
      (
        slice_exact-At buf 0 4 tx.version _ v.version_size a0,
        read_var_int-At buf 6 _ _ v.input_count a2,
        slice_exact-At buf 6 _ ins _ refl a2,
        e1,
        read_var_int-At buf i _ _ v.output_count a4,
        slice_exact-At buf i _ outs _ refl a4,
        e2,
        e4,
        slice_exact-At buf end 4 tx.locktime [] v.locktime_size a8,
      )
      (simp append_assoc)

-- A marker and flag behind the version are found, if a byte follows them.
is_segwit-At :
    (buf rest : Bytes) → At buf 4 (0x00 ∷ 0x01 ∷ rest) → 0 < length rest → is_segwit buf ≡ true
unfolding is_segwit
is_segwit-At buf rest a h =
    rw (lt→ltb 6 (length buf) (omega (arith, a.fits)), At-head buf 4 0x00 _ a, At-get buf 4 1 _ a)

is_segwit_of_pos : (buf rest : Bytes) (m : ℕ) → At buf 4 (m ∷ rest) → 0 < m → is_segwit buf ≡ false
unfolding is_segwit
is_segwit_of_pos buf rest m a h = ground (arith, At-head buf 4 m rest a)

pub compact_size_pos : (n : ℕ) → 0 < n → (m : ℕ) × (r : Bytes) × (compact_size n ≡ m ∷ r) × (0 < m)
compact_size_pos n h = elim (compact_size_cases n) [
  | inl (e, _) ↦ (n, [], e, h)
  | inr (inl (e, _, _)) ↦ (0xfd, _, e, omega arith)
  | inr (inr (e, _)) ↦ (0xfe, _, e, omega arith)
]

body_pos : (tx : Tx) (rest : Bytes) → 0 < length rest → 0 < length (encode_body tx rest)
unfolding encode_body
body_pos tx rest h = omega (
  arith,
  length-append (compact_size (length tx.inputs)) (
      encode_inputs tx.inputs
      ++ (compact_size (length tx.outputs) ++ (encode_outputs tx.outputs ++ rest))),
  length-append (encode_inputs tx.inputs)
      (compact_size (length tx.outputs) ++ (encode_outputs tx.outputs ++ rest)),
  length-append (compact_size (length tx.outputs)) (encode_outputs tx.outputs ++ rest),
  length-append (encode_outputs tx.outputs) rest,
)

pub strip_witness-encode_segwit :
    (tx : Tx) → IsTx tx → strip_witness (encode_segwit tx) ≡ some (encode_legacy tx)
unfolding strip_witness encode_segwit
strip_witness-encode_segwit tx v =
    let a0 = At-zero (encode_segwit tx) in
    let a1 = At-next _ 0 4 tx.version _ v.version_size a0 in
    rw
      (is_segwit-At (encode_segwit tx) _ a1 (
        body_pos tx (encode_witness tx.witness ++ tx.locktime)
          (omega (arith, length-append (encode_witness tx.witness) tx.locktime, v.locktime_size))))
      (strip_segwit-At (encode_segwit tx) tx v a0)

pub strip_witness-encode_legacy :
    (tx : Tx)
    → IsTx tx
    → 0 < length tx.inputs
    → strip_witness (encode_legacy tx) ≡ some (encode_legacy tx)
unfolding strip_witness encode_legacy encode_body
strip_witness-encode_legacy tx v h =
    let after_count =
      encode_inputs tx.inputs
      ++ (compact_size (length tx.outputs) ++ (encode_outputs tx.outputs ++ tx.locktime)) in
    let a1 =
      At-next (encode_legacy tx) 0 4 tx.version _ v.version_size (At-zero (encode_legacy tx)) in
    let (m, r, e, pos) = compact_size_pos (length tx.inputs) h in
    let a2 = subst (λ (c : Bytes). At (encode_legacy tx) 4 (c ++ after_count)) e a1 in
    rw (is_segwit_of_pos (encode_legacy tx) _ m a2 pos)
