-- ===== src/Keys/Tests.antt =====
-- A concrete signature with a high s.
use writz.Prelude.{◌⊎◌, ◌+◌, ℕ, ◌-◌, ◌≤◌, ◌≡◌, ◌++◌, some, arith}
use writz.Keys.{secp256k1_n, to_bytes, der_to_compact_low_s}
use writz.Keys.Der.{encode_der, der_to_compact_low_s-encode_der}

abbrev high_s : ℕ
high_s = secp256k1_n - 1

der_to_compact_low_s-encode_der_example :
    (low : ℕ) × (der_to_compact_low_s (encode_der 200 high_s)
      ≡ some (to_bytes 32 200 ++ to_bytes 32 low))
    × ((low ≡ high_s) ⊎ (low + high_s ≡ secp256k1_n))
    × (low + low ≤ secp256k1_n)
der_to_compact_low_s-encode_der_example =
    der_to_compact_low_s-encode_der 200 high_s (omega arith) (omega arith)
