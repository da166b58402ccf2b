-- ===== src/Script/Witness.antt =====
-- The witness serialization and its reading.
use writz.Prelude.{
  ℕ, ◌+◌, ◌≤◌, ◌<◌, ◌≡◌, refl, sym, ap, ◌∙◌, subst, ◌⊎◌, inl, inr, List, [], ◌∷◌, ◌++◌, some,
  some_injective, ltb, length, All, arith, Bool-cases, lt→ltb, le→ltb, >>=-eq-some, append_assoc,
  append-nil,
}
use writz.Bitcoin.Bytes.{Bytes, le16, At, At-zero, At-append, At-head, At-subarray, read_u16-At}
use writz.Script.{
  encode_var_int, serialize_items, serialize_witness, read_var_int, deserialize_items,
  deserialize_witness,
}

-- The two forms of a length.
encode_cases :
    (n : ℕ) (e : Bytes)
    → encode_var_int n ≡ some e
    → ((e ≡ n ∷ []) × (n < 0xfd)) ⊎ ((e ≡ 0xfd ∷ le16 n) × (0xfd ≤ n) × (n < 65536))
unfolding encode_var_int
encode_cases n e h = elim (Bool-cases (ltb n 0xfd)) [
  | inl small ↦ inl (ground arith, ground arith)
  | inr big ↦ elim (Bool-cases (ltb 0xffff n)) [
    | inl bigger ↦ absurd (ground arith)
    | inr fits ↦ inr (ground arith, ground arith, ground arith)
  ]
]

read_var_int-At :
    (buf : Bytes) (i n : ℕ) (e t : Bytes)
    → encode_var_int n ≡ some e
    → At buf i (e ++ t)
    → read_var_int buf i ≡ some (n, length e)
unfolding read_var_int
read_var_int-At buf i n e t h a = elim (encode_cases n e h) [
  | inl (form, small) ↦
      let a' : At buf i (n ∷ t) = subst (λ e. At buf i (e ++ t)) form a in
      rw (form, At-head buf i n t a', lt→ltb n 0xfd small)
  | inr (form, big, small) ↦
      let a' : At buf i (0xfd ∷ (le16 n ++ t)) = subst (λ e. At buf i (e ++ t)) form a in
      rw (
        form,
        At-head buf i 0xfd _ a',
        read_u16-At buf (i + 1) n t small (At-append buf i (0xfd ∷ []) _ a'),
      )
]

deserialize_items-At :
    (items : List Bytes) (buf : Bytes) (i : ℕ) (body t : Bytes)
    → serialize_items items ≡ some body
    → At buf i (body ++ t)
    → deserialize_items (length items) buf i ≡ some items
unfolding serialize_items deserialize_items
deserialize_items-At [] buf i body t h a = refl
deserialize_items-At (item ∷ items) buf i body t h a =
    let (len, e, h1) = >>=-eq-some (encode_var_int (length item)) _ h in
    let (rest, e', h2) = >>=-eq-some (serialize_items items) _ h1 in
    let shape : body ≡ len ++ (item ++ rest) = some_injective (sym h2) in
    let a' : At buf i (len ++ (item ++ (rest ++ t))) =
      subst (At buf i)
        (ap (λ b. b ++ t) shape
          ∙ append_assoc len (item ++ rest) t
          ∙ ap (λ b. len ++ b) (append_assoc item rest t))
        a in
    let first = read_var_int-At buf i (length item) len _ e a' in
    let at_item = At-append buf i len _ a' in
    let at_rest = At-append buf (i + length len) item _ at_item in
    let read = At-subarray buf (i + length len) item _ at_item in
    let later = deserialize_items-At items buf (i + length len + length item) rest t e' at_rest in
    rw (first, later, read) refl

deserialize_serialized :
    (items : List Bytes) (buf : Bytes)
    → serialize_witness items ≡ some buf
    → deserialize_witness buf ≡ some items
unfolding serialize_witness deserialize_witness
deserialize_serialized items buf h =
    let (count, e, h1) = >>=-eq-some (encode_var_int (length items)) _ h in
    let (body, e', h2) = >>=-eq-some (serialize_items items) _ h1 in
    let shape : buf ≡ count ++ body = some_injective (sym h2) in
    let a : At buf 0 (count ++ (body ++ [])) =
      subst (At buf 0) (shape ∙ ap (λ b. count ++ b) (sym (append-nil body))) (At-zero buf) in
    let first = read_var_int-At buf 0 (length items) count _ e a in
    let start : 0 + length count ≡ length count = omega arith in
    let a' = subst (λ k. At buf k (body ++ [])) start (At-append buf 0 count _ a) in
    let later = deserialize_items-At items buf (length count) body ([]) e' a' in
    rw (first, later) refl

encode_var_int-fits : (n : ℕ) → n ≤ 0xffff → (e : Bytes) × (encode_var_int n ≡ some e)
unfolding encode_var_int
encode_var_int-fits n h = elim (Bool-cases (ltb n 0xfd)) [
  | inl small ↦ (n ∷ [], rw small refl)
  | inr big ↦ (0xfd ∷ le16 n, rw (big, le→ltb 0xffff n h) refl)
]

serialize_items-fits :
    (items : List Bytes)
    → All (λ (item : Bytes). length item ≤ 0xffff) items
    → (body : Bytes) × (serialize_items items ≡ some body)
unfolding serialize_items
serialize_items-fits [] h = ([], refl)
serialize_items-fits (item ∷ items) (h, hs) =
    let (len, e) = encode_var_int-fits (length item) h in
    let (rest, e') = serialize_items-fits items hs in (len ++ (item ++ rest), rw (e, e') refl)

-- A witness of at most 65535 items, none longer than that, is serialized, and `deserializeWitness`
-- reads the same items back.
pub deserialize_witness-serialize_witness :
    (items : List Bytes)
    → length items ≤ 0xffff
    → All (λ (item : Bytes). length item ≤ 0xffff) items
    → (buf : Bytes) × (serialize_witness items ≡ some buf) × (deserialize_witness buf ≡ some items)
unfolding serialize_witness
deserialize_witness-serialize_witness items few short =
    let (count, e) = encode_var_int-fits (length items) few in
    let (body, e') = serialize_items-fits items short in
    let written : serialize_witness items ≡ some (count ++ body) = rw (e, e') refl in
    (count ++ body, written, deserialize_serialized items (count ++ body) written)
