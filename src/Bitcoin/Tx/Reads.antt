-- ===== src/Bitcoin/Tx/Reads.antt =====
-- Each reader of `tx.ts` at an offset where the wanted bytes stand.
use writz.Prelude.{
  ℕ, ◌+◌, ◌<◌, ◌≤◌, ◌≡◌, refl, sym, ap, ◌∙◌, [], ◌∷◌, ◌++◌, ◌⊎◌, some, arith, ltb, inl, inr, length,
  Bool-cases, length-append, append_assoc, subst, lt→ltb, le→ltb,
}
use writz.Bitcoin.Bytes.{
  Bytes, le16, le32, subarray, At, At-append, At-head, At-subarray, read_u16-At, read_u32-At,
}
use writz.Bitcoin.Tx.Format.{compact_size, limit}
use writz.Bitcoin.Tx.{slice_exact, read_var_int}

pub slice_exact-At :
    (buf : Bytes) (i n : ℕ) (s t : Bytes)
    → length s ≡ n
    → At buf i (s ++ t)
    → slice_exact buf i n ≡ some s
unfolding slice_exact
slice_exact-At buf i n s t e a =
    let fits : i + n ≤ length buf = omega (arith, a.fits, length-append s t) in
    rw (le→ltb (length buf) (i + n) fits)
      (ap some (ap (subarray buf i) (sym e) ∙ At-subarray buf i s t a))

-- The next read starts `n` bytes on.
pub At-next :
    (buf : Bytes) (i n : ℕ) (s t : Bytes) → length s ≡ n → At buf i (s ++ t) → At buf (i + n) t
At-next buf i n s t e a = subst (λ k. At buf (i + k) t) e (At-append buf i s t a)

pub At-regroup :
    (buf : Bytes) (i : ℕ) (s t u : Bytes) → At buf i ((s ++ t) ++ u) → At buf i (s ++ (t ++ u))
At-regroup buf i s t u a = subst (At buf i) (append_assoc s t u) a

-- The three forms of a compact size.
pub compact_size_cases :
    (n : ℕ)
    → ((compact_size n ≡ n ∷ []) × (n < 0xfd))
      ⊎ (((compact_size n ≡ 0xfd ∷ le16 n) × (0xfd ≤ n) × (n < 65536))
          ⊎ ((compact_size n ≡ 0xfe ∷ le32 n) × (65536 ≤ n)))
unfolding compact_size
compact_size_cases n = elim (Bool-cases (ltb n 0xfd)) [
  | inl small ↦ inl (rw small, ground arith)
  | inr big ↦ elim (Bool-cases (ltb n 65536)) [
    | inl small ↦ inr (inl (rw (big, small), ground arith, ground arith))
    | inr bigger ↦ inr (inr (rw (big, bigger), ground arith))
  ]
]

pub read_var_int-At :
    (buf : Bytes) (i n : ℕ) (t : Bytes)
    → n < limit
    → At buf i (compact_size n ++ t)
    → read_var_int buf i ≡ some (n, length (compact_size n))
unfolding read_var_int
read_var_int-At buf i n t h a = elim (compact_size_cases n) [
  | inl (e, small) ↦
      let a' : At buf i (n ∷ t) = rw e at a in rw (e, At-head buf i n t a', lt→ltb n 0xfd small)
  | inr (inl (e, big, small)) ↦
      let a' : At buf i (0xfd ∷ (le16 n ++ t)) = rw e at a in
      rw (
        e,
        At-head buf i 0xfd _ a',
        read_u16-At buf (i + 1) n t small (At-next buf i 1 (0xfd ∷ []) _ refl a'),
      )
  | inr (inr (e, big)) ↦
      let a' : At buf i (0xfe ∷ (le32 n ++ t)) = rw e at a in
      rw (
        e,
        At-head buf i 0xfe _ a',
        read_u32-At buf (i + 1) n t h (At-next buf i 1 (0xfe ∷ []) _ refl a'),
      )
]
