-- ===== src/Bitcoin/Tx/Forms.antt =====
-- relayer/src/bitcoin/tx.ts on both forms of a transaction.
use mathlib.Core.Option
use writz.Prelude.{ℕ, ◌<◌, ◌≡◌, some, length, get_elem?, All}
use writz.Bitcoin.Bytes.{Bytes}
use writz.Bitcoin.Tx.{strip_witness, parse_output}
use writz.Bitcoin.Tx.Format.{Tx, IsTx, encode_segwit, encode_legacy}
use writz.Bitcoin.Tx.Strip.{strip_witness-encode_segwit, strip_witness-encode_legacy}
use writz.Bitcoin.Tx.Outputs.{
  parsed, IsSafeValue, parse_output-encode_segwit, parse_output-encode_legacy,
}

pub data Form : Type 0 where
  segwit : Form
  legacy : Form

pub encode : Form → Tx → Bytes
encode segwit tx = encode_segwit tx
encode legacy tx = encode_legacy tx

-- Without witness data, no input would read as the marker.
abbrev pub HasInput : Form → Tx → Type 0
HasInput segwit tx = Unit
HasInput legacy tx = 0 < length tx.inputs

-- Stripping a transaction, with witness data or, if it has an input, without, gives exactly its
-- serialization without: version, inputs, outputs and locktime are kept, marker, flag and witness
-- stacks dropped.
pub strip_witness-encode :
    (form : Form) (tx : Tx)
    → IsTx tx
    → HasInput form tx
    → strip_witness (encode form tx) ≡ some (encode_legacy tx)
unfolding encode
strip_witness-encode segwit tx v h = strip_witness-encode_segwit tx v
strip_witness-encode legacy tx v h = strip_witness-encode_legacy tx v h

-- The k-th output of a transaction, with witness data or, if it has an input, without: its value and
-- script, and an error exactly when there is no such output. Every value is one that a JavaScript
-- number holds.
pub parse_output-encode :
    (form : Form) (tx : Tx) (k : ℕ)
    → IsTx tx
    → All IsSafeValue tx.outputs
    → HasInput form tx
    → parse_output (encode form tx) k ≡ Option.map parsed (get_elem? tx.outputs k)
unfolding encode
parse_output-encode segwit tx k v safe h = parse_output-encode_segwit tx k v safe
parse_output-encode legacy tx k v safe h = parse_output-encode_legacy tx k v safe h
