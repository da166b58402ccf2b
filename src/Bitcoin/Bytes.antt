-- ===== src/Bitcoin/Bytes.antt =====
-- `Buffer` reads at an offset. A byte is a number below 256, a buffer a list of them; a read out of
-- range throws a RangeError in Node, which is `none` here.
use writz.Prelude.{
  ℕ, ◌+◌, ◌*◌, ◌/◌, ◌%◌, ◌<◌, ◌≡◌, refl, sym, ap, ◌∙◌, List, [], ◌∷◌, ◌++◌, Option, some, arith,
  ◌>>=◌, length, get_elem?, take, drop, length-append, take-length-append, drop-length-append,
  drop-drop, get_elem?-drop,
}

abbrev pub Bytes : Type 0
Bytes = List ℕ

-- `Buffer.from([n])` and `writeUIntLE`: the low byte first.
abbrev pub le16 : ℕ → Bytes
le16 n = n % 256 ∷ n / 256 % 256 ∷ []

abbrev pub le32 : ℕ → Bytes
le32 n = n % 256 ∷ n / 256 % 256 ∷ n / 65536 % 256 ∷ n / 16777216 % 256 ∷ []

-- `buf.readUInt16LE(i)`.
unfoldable pub read_u16 : Bytes → ℕ → Option ℕ
read_u16 buf i = do b0 ← get_elem? buf i; b1 ← get_elem? buf (i + 1); some (b0 + 256 * b1)

-- `buf.readUInt32LE(i)`.
unfoldable pub read_u32 : Bytes → ℕ → Option ℕ
read_u32 buf i = do
  b0 ← get_elem? buf i
  b1 ← get_elem? buf (i + 1)
  b2 ← get_elem? buf (i + 2)
  b3 ← get_elem? buf (i + 3)
  some (b0 + 256 * b1 + 65536 * b2 + 16777216 * b3)

-- `buf.subarray(start, end)`: clipped to the buffer.
abbrev pub subarray : Bytes → ℕ → ℕ → Bytes
subarray buf start len = take len (drop start buf)

-- What stands at an offset: the bytes from there to the end.
pub record At (buf : Bytes) (i : ℕ) (s : Bytes) : Type 0 where
  pub rest : drop i buf ≡ s
  pub fits : i + length s ≡ length buf

pub At-zero : (buf : Bytes) → At buf 0 buf
At-zero buf = record { rest = refl; fits = omega arith }

pub At-append : (buf : Bytes) (i : ℕ) (s t : Bytes) → At buf i (s ++ t) → At buf (i + length s) t
At-append buf i s t a = record {
  rest = sym (drop-drop i (length s) buf) ∙ ap (drop (length s)) a.rest ∙ drop-length-append s t;
  fits = omega (arith, a.fits, length-append s t);
}

pub At-get :
    (buf : Bytes) (i k : ℕ) (s : Bytes) → At buf i s → get_elem? buf (i + k) ≡ get_elem? s k
At-get buf i k s a = sym (get_elem?-drop i k buf) ∙ ap (λ (r : Bytes). get_elem? r k) a.rest

pub At-head : (buf : Bytes) (i b : ℕ) (s : Bytes) → At buf i (b ∷ s) → get_elem? buf i ≡ some b
At-head buf i b s a =
    let e : i + 0 ≡ i = omega arith in sym (ap (get_elem? buf) e) ∙ At-get buf i 0 (b ∷ s) a

pub At-subarray :
    (buf : Bytes) (i : ℕ) (s t : Bytes) → At buf i (s ++ t) → subarray buf i (length s) ≡ s
At-subarray buf i s t a = ap (take (length s)) a.rest ∙ take-length-append s t

pub read_u16-At :
    (buf : Bytes) (i n : ℕ) (t : Bytes)
    → n < 65536
    → At buf i (le16 n ++ t)
    → read_u16 buf i ≡ some n
unfolding read_u16
read_u16-At buf i n t h a = ground (arith, At-head buf i _ _ a, At-get buf i 1 _ a)

pub read_u32-At :
    (buf : Bytes) (i n : ℕ) (t : Bytes)
    → n < 4294967296
    → At buf i (le32 n ++ t)
    → read_u32 buf i ≡ some n
unfolding read_u32
read_u32-At buf i n t h a =
    ground (arith, At-head buf i _ _ a, At-get buf i 1 _ a, At-get buf i 2 _ a, At-get buf i 3 _ a)

-- The four bytes of a wider number hold its low word.
pub read_u32-At_mod :
    (buf : Bytes) (i n : ℕ) (t : Bytes)
    → At buf i (le32 n ++ t)
    → read_u32 buf i ≡ some (n % 4294967296)
unfolding read_u32
read_u32-At_mod buf i n t a =
    ground (arith, At-head buf i _ _ a, At-get buf i 1 _ a, At-get buf i 2 _ a, At-get buf i 3 _ a)
