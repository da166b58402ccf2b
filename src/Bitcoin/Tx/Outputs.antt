-- ===== src/Bitcoin/Tx/Outputs.antt =====
-- `parseOutput` on serialized transactions.
use writz.Prelude.{
  ℕ, zero, suc, ◌+◌, ◌<◌, ◌≤◌, ◌≡◌, ◌*◌, ◌/◌, ◌%◌, refl, ap, List, [], ◌∷◌, ◌++◌, none, some, arith,
  if◌then◌else◌, length, get_elem?, subst, Option-cases, inl, inr, le→ltb, le→leb, lt→leb, All,
}
use mathlib.Core.Option
use writz.Bitcoin.Bytes.{Bytes, At, At-zero, At-head, At-get, le32, read_u32-At_mod}
use writz.Bitcoin.Tx.Format.{
  compact_size, limit, with_length, TxIn, TxOut, Tx, le64, encode_inputs, encode_outputs,
  encode_witness, encode_body, encode_legacy, encode_segwit, IsTxIn, IsTxOut, IsTx,
}
use writz.Bitcoin.Tx.Reads.{slice_exact-At, read_var_int-At, At-next, At-regroup}
use writz.Bitcoin.Tx.Strip.{script-At, length-le64, compact_size_pos}
use writz.Bitcoin.Tx.{
  read_u64, skip_inputs, output_at, parse_output, to_safe_number, max_safe_integer, ParsedOutput,
  has_marker,
}

read_u64-At :
    (buf : Bytes) (i n : ℕ) (t : Bytes)
    → n < limit * limit
    → At buf i (le64 n ++ t)
    → read_u64 buf i ≡ some n
unfolding read_u64 le64
read_u64-At buf i n t h a =
    let a' = At-next buf i 4 (le32 n) (le32 (n / limit) ++ t) refl a in
    let high : n / limit % limit ≡ n / limit = ground arith in
    rw (read_u32-At_mod buf i n _ a, read_u32-At_mod buf (i + 4) (n / limit) t a', high)
      (ap some (omega arith))

skip_inputs-At :
    (xs : List TxIn) (buf : Bytes) (i : ℕ) (t : Bytes)
    → All IsTxIn xs
    → At buf i (encode_inputs xs ++ t)
    → (end : ℕ) × (skip_inputs (length xs) buf i ≡ some end) × At buf end t
unfolding skip_inputs encode_inputs
skip_inputs-At [] buf i t h a = (i, refl, a)
skip_inputs-At (x ∷ xs) buf i t (hx, h) a =
    let a0 = At-regroup buf i x.prevout _ t a in
    let a1 = At-next buf i 36 x.prevout _ hx.prevout_size a0 in
    let a2 = At-regroup buf (i + 36) (with_length x.script) _ t a1 in
    let (e1, e2, a3) = script-At buf (i + 36) x.script _ hx.script_size a2 in
    let a4 = At-regroup buf _ x.sequence _ t a3 in
    let a5 = At-next buf _ 4 x.sequence _ hx.sequence_size a4 in
    let size = length (compact_size (length x.script)) in
    let a6 = subst (λ k. At buf k (encode_inputs xs ++ t)) (omega arith) a5 in
    let (end, e, a7) = skip_inputs-At xs buf (i + 36 + (size + length x.script + 4)) t h a6 in
    (end, rw (e1, e), a7)

-- An output whose value a JavaScript number holds.
abbrev pub IsSafeValue : TxOut → Type 0
IsSafeValue o = o.value ≤ max_safe_integer

-- What `parseOutput` returns for an output.
abbrev pub parsed : TxOut → ParsedOutput
parsed o = record { value_sat = o.value; script_pub_key = o.script }

output_at-At :
    (xs : List TxOut) (k : ℕ) (o : TxOut) (buf : Bytes) (i : ℕ) (t : Bytes)
    → All IsTxOut xs
    → All IsSafeValue xs
    → get_elem? xs k ≡ some o
    → At buf i (encode_outputs xs ++ t)
    → output_at k buf i ≡ some (parsed o)
unfolding output_at encode_outputs to_safe_number with_length
output_at-At [] k o buf i t h safe e a = cc
output_at-At (x ∷ xs) zero o buf i t (hx, h) (safe, later) e a =
    let a0 = At-regroup buf i (le64 x.value) _ t a in
    let a1 = At-next buf i 8 (le64 x.value) _ (length-le64 x.value) a0 in
    let a2 = At-regroup buf (i + 8) (with_length x.script) _ t a1 in
    let a3 = At-regroup buf (i + 8) (compact_size (length x.script)) x.script _ a2 in
    let a4 = At-next buf (i + 8) _ (compact_size (length x.script)) _ refl a3 in
    let same : x ≡ o = cc in
    rw (
      read_u64-At buf i x.value _ hx.value_size a0,
      le→ltb max_safe_integer x.value safe,
      read_var_int-At buf (i + 8) (length x.script) _ hx.script_size a3,
      slice_exact-At buf _ (length x.script) x.script _ refl a4,
      same,
    )
output_at-At (x ∷ xs) (suc k) o buf i t (hx, h) (safe, later) e a =
    let a0 = At-regroup buf i (le64 x.value) _ t a in
    let a1 = At-next buf i 8 (le64 x.value) _ (length-le64 x.value) a0 in
    let a2 = At-regroup buf (i + 8) (with_length x.script) _ t a1 in
    let a3 = At-regroup buf (i + 8) (compact_size (length x.script)) x.script _ a2 in
    let a4 = At-next buf (i + 8) _ (compact_size (length x.script)) _ refl a3 in
    let (e1, e2, a5) = script-At buf (i + 8) x.script _ hx.script_size a2 in
    rw
      (
        read_u64-At buf i x.value _ hx.value_size a0,
        le→ltb max_safe_integer x.value safe,
        read_var_int-At buf (i + 8) (length x.script) _ hx.script_size a3,
        slice_exact-At buf _ (length x.script) x.script _ refl a4,
      )
      (output_at-At xs k o buf _ t h later e a5)

get_elem?-none {ℓ} : {A : Type ℓ} (xs : List A) (k : ℕ) → get_elem? xs k ≡ none → length xs ≤ k
get_elem?-none [] k e = omega arith
get_elem?-none (x ∷ xs) zero e = cc
get_elem?-none (x ∷ xs) (suc k) e = omega (arith, get_elem?-none xs k e)

get_elem?-some {ℓ} :
    {A : Type ℓ} (xs : List A) (k : ℕ) {a : A} → get_elem? xs k ≡ some a → k < length xs
get_elem?-some [] k e = cc
get_elem?-some (x ∷ xs) zero e = omega arith
get_elem?-some (x ∷ xs) (suc k) e = omega (arith, get_elem?-some xs k e)

-- From the offset that the marker test picks.
abbrev start_of : Bytes → ℕ
start_of buf = if has_marker buf then 6 else 4

no_marker : (buf rest : Bytes) (m : ℕ) → At buf 4 (m ∷ rest) → 0 < m → 4 ≡ start_of buf
no_marker buf rest m a h = ground (arith, At-head buf 4 m rest a)

marker : (buf rest : Bytes) → At buf 4 (0x00 ∷ 0x01 ∷ rest) → 6 ≡ start_of buf
marker buf rest a = ground (arith, At-head buf 4 0x00 _ a, At-get buf 4 1 _ a)

legacy_start : (tx : Tx) → IsTx tx → 0 < length tx.inputs → 4 ≡ start_of (encode_legacy tx)
unfolding encode_legacy encode_body
legacy_start tx v h =
    let after_count =
      encode_inputs tx.inputs
      ++ (compact_size (length tx.outputs) ++ (encode_outputs tx.outputs ++ tx.locktime)) in
    let a1 =
      At-next (encode_legacy tx) 0 4 tx.version _ v.version_size (At-zero (encode_legacy tx)) in
    let (m, r, e, pos) = compact_size_pos (length tx.inputs) h in
    let a2 = subst (λ (c : Bytes). At (encode_legacy tx) 4 (c ++ after_count)) e a1 in
    no_marker (encode_legacy tx) (r ++ after_count) m a2 pos

parse_output-At :
    (buf : Bytes) (tx : Tx) (rest : Bytes) (k : ℕ)
    → IsTx tx
    → All IsSafeValue tx.outputs
    → At buf (start_of buf) (encode_body tx rest)
    → parse_output buf k ≡ Option.map parsed (get_elem? tx.outputs k)
unfolding parse_output encode_body
parse_output-At buf tx rest k v safe a0 =
    let ins = compact_size (length tx.inputs) in
    let outs = compact_size (length tx.outputs) in
    let a1 = At-next buf _ _ ins _ refl a0 in
    let (i, e1, a2) = skip_inputs-At tx.inputs buf _ _ v.are_inputs a1 in
    let a3 = At-next buf i _ outs _ refl a2 in
    elim (Option-cases (get_elem? tx.outputs k)) [
      | inl e ↦ rw (
        read_var_int-At buf (start_of buf) _ _ v.input_count a0,
        e1,
        read_var_int-At buf i _ _ v.output_count a2,
        e,
        le→leb (length tx.outputs) k (get_elem?-none tx.outputs k e),
      )
      | inr (o, e) ↦
          rw
            (
              read_var_int-At buf (start_of buf) _ _ v.input_count a0,
              e1,
              read_var_int-At buf i _ _ v.output_count a2,
              e,
              lt→leb (length tx.outputs) k (get_elem?-some tx.outputs k e),
            )
            (output_at-At tx.outputs k o buf _ rest v.are_outputs safe e a3)
    ]

pub parse_output-encode_segwit :
    (tx : Tx) (k : ℕ)
    → IsTx tx
    → All IsSafeValue tx.outputs
    → parse_output (encode_segwit tx) k ≡ Option.map parsed (get_elem? tx.outputs k)
unfolding encode_segwit
parse_output-encode_segwit tx k v safe =
    let buf = encode_segwit tx in
    let a1 = At-next buf 0 4 tx.version _ v.version_size (At-zero buf) in
    let a2 = At-next buf 4 2 (0x00 ∷ 0x01 ∷ []) _ refl a1 in
    let rest = encode_witness tx.witness ++ tx.locktime in
    parse_output-At buf tx rest k v safe
      (subst (λ n. At buf n (encode_body tx rest)) (marker buf _ a1) a2)

pub parse_output-encode_legacy :
    (tx : Tx) (k : ℕ)
    → IsTx tx
    → All IsSafeValue tx.outputs
    → 0 < length tx.inputs
    → parse_output (encode_legacy tx) k ≡ Option.map parsed (get_elem? tx.outputs k)
unfolding encode_legacy
parse_output-encode_legacy tx k v safe h =
    let buf = encode_legacy tx in
    let a1 = At-next buf 0 4 tx.version _ v.version_size (At-zero buf) in
    parse_output-At buf tx tx.locktime k v safe
      (subst (λ n. At buf n (encode_body tx tx.locktime)) (legacy_start tx v h) a1)
