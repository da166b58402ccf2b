-- ===== src/Keys/Der.antt =====
-- The signer reads back what a DER encoder writes, and the signature it hands on has a low s.
use writz.Prelude.{
  ltb, inl, inr, Bool-cases, ◌⊎◌, ℕ, zero, suc, ◌+◌, ◌-◌, ◌^◌, ◌≤◌, ◌<◌, ◌≡◌, refl, sym, ap, subst,
  ◌∙◌, true, false, [], ◌∷◌, ◌++◌, some, leb, ◌==◌, length, length-append, length-replicate,
  replicate, drop, arith,
}
use writz.Bitcoin.Bytes.{Bytes, At, At-zero, At-append, At-head, At-subarray}
use writz.Keys.{
  secp256k1_n, secp256k1_n_half, big_endian, to_bytes, unpad, read_integer, left_pad32, low_s,
  der_to_compact_low_s,
}
use writz.Keys.Numbers.{
  length-to_bytes, big_endian-to_bytes, to_bytes-suc, shorten, spared, shorten_lem,
  length-shorten-pos, big_endian-zeros,
}

-- A DER INTEGER's value: the shortest two's complement of a number below 2 ^ 256.
pub der_value : ℕ → Bytes
der_value n = shorten (to_bytes 33 n)

-- `ECDSA-Sig-Value`.
pub encode_der : ℕ → ℕ → Bytes
encode_der r s =
    let body =
      0x02
      ∷ length (der_value r)
      ∷ (der_value r ++ 0x02 ∷ length (der_value s) ∷ (der_value s ++ [])) in
    0x30 ∷ length body ∷ body

-- What the reader makes of the value.
record IsRead (n : ℕ) (v : Bytes) : Type 0 where
  padded : left_pad32 v ≡ some (to_bytes 32 n)
  number : big_endian 0 v ≡ n
  nonempty : 0 < length v

unpad-short : (v : Bytes) → length v ≤ 32 → unpad v ≡ v
unfolding unpad
unpad-short [] h = refl
unpad-short (b ∷ v) h = ground arith

unpad-long : (v : Bytes) → length v ≡ 32 → unpad (0 ∷ v) ≡ v
unfolding unpad
unpad-long v h = ground arith

left_pad32-short :
    (v : Bytes) (j : ℕ) → j + length v ≡ 32 → left_pad32 v ≡ some (replicate j 0 ++ v)
unfolding left_pad32
left_pad32-short v j h =
    let e : 32 - length v ≡ j = omega arith in
    let fits : leb (length v) 32 ≡ true = ground arith in
    rw (left_pad32, fits) (ap (λ k. some (replicate k 0 ++ v)) e)

IsRead-to_bytes : (n : ℕ) → n < 256 ^ 32 → IsRead n (to_bytes 32 n)
IsRead-to_bytes n h = record {
  padded = left_pad32-short (to_bytes 32 n) 0 (omega (arith, length-to_bytes 32 n));
  number = big_endian-to_bytes 32 n h;
  nonempty = omega (arith, length-to_bytes 32 n);
}

-- The value has the padding byte and 32 others, or it has at most 32 and is as it was.
unpad-IsRead :
    (n j : ℕ) (v : Bytes)
    → n < 256 ^ 32
    → 0 < length v
    → replicate j 0 ++ v ≡ 0 ∷ to_bytes 32 n
    → IsRead n (unpad v)
unpad-IsRead n zero v h pos e =
    subst (IsRead n) (sym (ap unpad e ∙ unpad-long (to_bytes 32 n) (length-to_bytes 32 n)))
      (IsRead-to_bytes n h)
unpad-IsRead n (suc j) v h pos e =
    let e' : replicate j 0 ++ v ≡ to_bytes 32 n = ap (drop 1) e in
    let size : j + length v ≡ 32 = omega (
      arith,
      ap (λ (xs : Bytes). length xs) e',
      length-append (replicate j 0) v,
      length-replicate j (zero),
      length-to_bytes 32 n,
    ) in
    subst (IsRead n) (sym (unpad-short v (omega arith))) (record {
      padded = left_pad32-short v j size ∙ ap some e';
      number = sym (big_endian-zeros j v) ∙ ap (big_endian 0) e' ∙ big_endian-to_bytes 32 n h;
      nonempty = pos;
    })

der_value-IsRead : (n : ℕ) → n < 256 ^ 32 → IsRead n (unpad (der_value n))
unfolding der_value
der_value-IsRead n h =
    let bytes = to_bytes 33 n in
    unpad-IsRead n (spared bytes) (der_value n) h
      (length-shorten-pos bytes (omega (arith, length-to_bytes 33 n)))
      (shorten_lem bytes ∙ to_bytes-suc 32 n h)

read_integer-At :
    (buf : Bytes) (i : ℕ) (v rest : Bytes)
    → At buf i (0x02 ∷ length v ∷ (v ++ rest))
    → read_integer buf i ≡ some (unpad v, i + 2 + length v)
unfolding read_integer
read_integer-At buf i v rest a =
    let a1 = At-append buf i (0x02 ∷ []) (length v ∷ (v ++ rest)) a in
    let a2 = At-append buf i (0x02 ∷ length v ∷ []) (v ++ rest) a in
    rw
      (
        read_integer,
        At-head buf i 0x02 _ a,
        At-head buf (i + 1) (length v) _ a1,
        At-subarray buf (i + 2) v rest a2,
      )
      refl

encode_der-read :
    (r s : ℕ)
    → r < 256 ^ 32
    → s < 256 ^ 32
    → der_to_compact_low_s (encode_der r s) ≡ some (to_bytes 32 r ++ to_bytes 32 (low_s s))
unfolding der_to_compact_low_s encode_der
encode_der-read r s hr hs =
    let buf = encode_der r s in
    let vr = der_value r in
    let vs = der_value s in
    let tail = 0x02 ∷ length vs ∷ (vs ++ []) in
    let total = length (0x02 ∷ length vr ∷ (vr ++ tail)) in
    let a = At-append buf 0 (0x30 ∷ total ∷ []) (0x02 ∷ length vr ∷ (vr ++ tail)) (At-zero buf) in
    let b = At-append buf 2 (0x02 ∷ length vr ∷ vr) tail a in
    let e : 2 + suc (suc (length vr)) ≡ 2 + 2 + length vr = omega arith in
    let b' = subst (λ i. At buf i tail) e b in
    let kr = der_value-IsRead r hr in
    let ks = der_value-IsRead s hs in
    let nonempty : (length (unpad vs) == 0) ≡ false = ground (arith, ks.nonempty) in
    let written : left_pad32 (to_bytes 32 (low_s s)) ≡ some (to_bytes 32 (low_s s)) =
      left_pad32-short (to_bytes 32 (low_s s)) 0 (omega (arith, length-to_bytes 32 (low_s s))) in
    rw
      (
        read_integer-At buf 2 vr tail a,
        read_integer-At buf (2 + 2 + length vr) vs ([]) b',
        nonempty,
        kr.padded,
        ks.number,
        written,
      )
      refl

low_s_cases : (s : ℕ) → s ≤ secp256k1_n → (low_s s ≡ s) ⊎ (low_s s + s ≡ secp256k1_n)
unfolding low_s
low_s_cases s h = elim (Bool-cases (ltb secp256k1_n_half s)) [
  | inl high ↦ rw (low_s, high) (inr (omega arith))
  | inr low ↦ rw (low_s, low) (inl refl)
]

low_s-le : (s : ℕ) → low_s s + low_s s ≤ secp256k1_n
unfolding low_s
low_s-le s = ground arith

-- A signature that is written in DER, its r below 2 ^ 256 and its s no more than the order of the
-- curve, is read as two numbers of 32 bytes. The first is r. The second is s, or what s leaves of the
-- order, and it is at most half the order.
pub der_to_compact_low_s-encode_der :
    (r s : ℕ)
    → r < 256 ^ 32
    → s ≤ secp256k1_n
    → (low : ℕ) × (der_to_compact_low_s (encode_der r s) ≡ some (to_bytes 32 r ++ to_bytes 32 low))
      × ((low ≡ s) ⊎ (low + s ≡ secp256k1_n))
      × (low + low ≤ secp256k1_n)
unfolding low_s
der_to_compact_low_s-encode_der r s hr hs =
    (low_s s, encode_der-read r s hr (omega arith), low_s_cases s hs, low_s-le s)
