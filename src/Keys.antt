-- ===== src/Keys.antt =====
-- bitcoin-script/src/keys.ts: what the protocol's signer makes of the answers of AWS KMS. A thrown
-- error is `none`.
pub mod Numbers
pub mod Der
mod Tests
use writz.Prelude.{
  ℕ, zero, suc, ◌+◌, ◌-◌, ◌*◌, ◌/◌, ◌%◌, Bool, true, false, ◌&&◌, ◌||◌, List, [], ◌∷◌, ◌++◌, Option,
  none, some, leb, ltb, ◌==◌, not, if◌then◌else◌, ◌>>=◌, ◌>>◌, require, length, get_elem?, take,
  drop, replicate,
}
use writz.Bitcoin.Bytes.{Bytes, subarray}

abbrev pub secp256k1_n : ℕ
secp256k1_n = 0xFFFFFFFFFFFFFFFFFFFFFFFFFFFFFFFEBAAEDCE6AF48A03BBFD25E8CD0364141

abbrev pub secp256k1_n_half : ℕ
secp256k1_n_half = secp256k1_n / 2

-- `BigInt('0x' + value.toString('hex'))`.
unfoldable pub big_endian : ℕ → Bytes → ℕ
big_endian acc [] = acc
big_endian acc (b ∷ bytes) = big_endian (acc * 256 + b) bytes

-- The lowest `k` bytes of a number, the highest first.
unfoldable pub to_bytes : ℕ → ℕ → Bytes
to_bytes zero n = []
to_bytes (suc k) n = to_bytes k (n / 256) ++ n % 256 ∷ []

-- `spkiToCompressedPubkey`; `subarray` counts from the end where the buffer is shorter.
unfoldable pub spki_to_compressed_pubkey : Bytes → Option Bytes
spki_to_compressed_pubkey spki = do
  let point = drop (length spki - 65) spki
  require (length point == 65)
  first ← get_elem? point 0
  require (first == 0x04)
  last ← get_elem? point 64
  some ((if last % 2 == 0 then 0x02 else 0x03) ∷ subarray point 1 32)

-- The value of a DER INTEGER without its padding byte.
unfoldable pub unpad : Bytes → Bytes
unpad [] = []
unpad (b ∷ bytes) = if ltb 32 (length (b ∷ bytes)) && b == 0x00 then bytes else b ∷ bytes

-- `readInteger`. Without a length byte the offsets are no numbers, and the code throws further on.
unfoldable pub read_integer : Bytes → ℕ → Option (Bytes × ℕ)
read_integer buf offset = do
  tag ← get_elem? buf offset
  require (tag == 0x02)
  len ← get_elem? buf (offset + 1)
  some (unpad (subarray buf (offset + 2) len), offset + 2 + len)

unfoldable pub left_pad32 : Bytes → Option Bytes
left_pad32 buf = if leb (length buf) 32 then some (replicate (32 - length buf) 0 ++ buf) else none

-- `n - s` is below 0 only for an `s` above the order; its text then has no digits but zeros before
-- the sign, where the decoding stops, and it is padded to zero bytes.
unfoldable pub low_s : ℕ → ℕ
low_s s = if ltb secp256k1_n_half s then secp256k1_n - s else s

-- `derEcdsaSignatureToCompactLowS`. An empty `s` is no number.
unfoldable pub der_to_compact_low_s : Bytes → Option Bytes
der_to_compact_low_s der = do
  first ← get_elem? der 0
  require (first == 0x30)
  (r, at) ← read_integer der 2
  (s, end) ← read_integer der at
  require (not (length s == 0))
  r32 ← left_pad32 r
  s32 ← left_pad32 (to_bytes 32 (low_s (big_endian 0 s)))
  some (r32 ++ s32)
