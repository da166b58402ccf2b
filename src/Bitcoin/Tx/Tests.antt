-- ===== src/Bitcoin/Tx/Tests.antt =====
-- A transaction with one input, two outputs and a witness of two items.
use writz.Prelude.{◌≡◌, refl, [], ◌∷◌, none, some, arith, replicate}
use writz.Bitcoin.Bytes.{Bytes}
use writz.Bitcoin.Tx.Format.{Tx, encode_legacy, IsTx}
use writz.Bitcoin.Tx.Forms.{segwit, legacy, encode, strip_witness-encode, parse_output-encode}
use writz.Bitcoin.Tx.Outputs.{parsed}
use writz.Bitcoin.Tx.{strip_witness, parse_output, read_var_int, is_segwit}

abbrev payment : Tx
payment = record {
  version = 2 ∷ 0 ∷ 0 ∷ 0 ∷ [];
  inputs = record { prevout = replicate 36 7; script = []; sequence = replicate 4 255 } ∷ [];
  outputs = record { value = 50000; script = 0x51 ∷ [] } ∷ record { value = 7; script = [] } ∷ [];
  witness = ((1 ∷ 2 ∷ 3 ∷ []) ∷ (9 ∷ []) ∷ []) ∷ [];
  locktime = replicate 4 0;
}

payment-IsTx : IsTx payment
payment-IsTx = omega arith

-- Truncated by a byte, the same transaction is an error.
truncated : Bytes
truncated = 2 ∷ 0 ∷ 0 ∷ 0 ∷ 0 ∷ 1 ∷ 1 ∷ replicate 36 7

strip_truncated : strip_witness truncated ≡ none
unfolding strip_witness is_segwit truncated writz.Bitcoin.Tx.strip_segwit read_var_int
    writz.Bitcoin.Tx.copy_inputs writz.Bitcoin.Tx.slice_exact
strip_truncated = refl

strip_witness-encode_example : strip_witness (encode segwit payment) ≡ some (encode_legacy payment)
strip_witness-encode_example = strip_witness-encode segwit payment payment-IsTx tt

parse_output-encode_example :
    parse_output (encode legacy payment) 1 ≡ some (parsed (record { value = 7; script = [] }))
parse_output-encode_example =
    parse_output-encode legacy payment 1 payment-IsTx (omega arith) (omega arith)
