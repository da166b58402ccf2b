-- ===== src/Keys/Numbers.antt =====
-- Numbers as bytes, and the bytes of a DER INTEGER.
use writz.Prelude.{
  ℕ, zero, suc, ◌+◌, ◌*◌, ◌/◌, ◌%◌, ◌^◌, ◌<◌, ◌≡◌, refl, ap, ◌∙◌, [], ◌∷◌, ◌++◌, ltb, ◌==◌, ◌&&◌,
  if◌then◌else◌, length, length-append, replicate, arith, Bool-cases, inl, inr,
}
use writz.Bitcoin.Bytes.{Bytes}
use writz.Keys.{big_endian, to_bytes}

big_endian-append :
    (acc : ℕ) (xs ys : Bytes) → big_endian acc (xs ++ ys) ≡ big_endian (big_endian acc xs) ys
unfolding big_endian
big_endian-append acc [] ys = refl
big_endian-append acc (x ∷ xs) ys = big_endian-append (acc * 256 + x) xs ys

pub length-to_bytes : (k n : ℕ) → length (to_bytes k n) ≡ k
unfolding to_bytes
length-to_bytes zero n = refl
length-to_bytes (suc k) n =
    omega (arith, length-append (to_bytes k (n / 256)) (n % 256 ∷ []), length-to_bytes k (n / 256))

pub big_endian-to_bytes : (k n : ℕ) → n < 256 ^ k → big_endian 0 (to_bytes k n) ≡ n
unfolding big_endian to_bytes
big_endian-to_bytes zero n h = omega arith
big_endian-to_bytes (suc k) n h =
    let ih = big_endian-to_bytes k (n / 256) (omega arith) in
    big_endian-append 0 (to_bytes k (n / 256)) (n % 256 ∷ [])
    ∙ ap (λ (m : ℕ). m * 256 + n % 256) ih
    ∙ omega arith

pub to_bytes-suc : (k n : ℕ) → n < 256 ^ k → to_bytes (suc k) n ≡ 0 ∷ to_bytes k n
unfolding to_bytes
to_bytes-suc zero n h = let e : n % 256 ≡ 0 = omega arith in ap (λ (m : ℕ). m ∷ []) e
to_bytes-suc (suc k) n h =
    ap (λ (xs : Bytes). xs ++ n % 256 ∷ []) (to_bytes-suc k (n / 256) (omega arith))

-- The shortest bytes that start with no superfluous zero: one that the next byte does not need, its
-- highest bit being 0.
pub shorten : Bytes → Bytes
shorten [] = []
shorten (b ∷ []) = b ∷ []
shorten (b ∷ c ∷ bytes) =
    let rest = shorten (c ∷ bytes) in if b == 0 && ltb c 128 then rest else b ∷ c ∷ bytes

-- How many zeros are taken away.
pub spared : Bytes → ℕ
spared [] = 0
spared (b ∷ []) = 0
spared (b ∷ c ∷ bytes) =
    let rest = spared (c ∷ bytes) in if b == 0 && ltb c 128 then suc rest else 0

pub shorten_lem : (bytes : Bytes) → replicate (spared bytes) 0 ++ shorten bytes ≡ bytes
unfolding shorten spared
shorten_lem [] = refl
shorten_lem (b ∷ []) = refl
shorten_lem (b ∷ c ∷ bytes) = elim (Bool-cases (b == 0 && ltb c 128)) [
  | inl spare ↦
      let zero_head : 0 ≡ b = ground arith in
      rw (shorten, spared, spare)
        (ap (◌∷◌ 0) (shorten_lem (c ∷ bytes)) ∙ ap (λ (d : ℕ). d ∷ c ∷ bytes) zero_head)
  | inr needed ↦ rw (shorten, spared, needed) refl
]

pub length-shorten-pos : (bytes : Bytes) → 0 < length bytes → 0 < length (shorten bytes)
unfolding shorten
length-shorten-pos [] h = h
length-shorten-pos (b ∷ []) h = h
length-shorten-pos (b ∷ c ∷ bytes) h = ground (arith, length-shorten-pos (c ∷ bytes))

pub big_endian-zeros :
    (n : ℕ) (bytes : Bytes) → big_endian 0 (replicate n 0 ++ bytes) ≡ big_endian 0 bytes
unfolding big_endian
big_endian-zeros zero bytes = refl
big_endian-zeros (suc n) bytes = big_endian-zeros n bytes
