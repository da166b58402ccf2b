-- ===== src/Bitcoin/Tx/Format.antt =====
-- The serialization of a Bitcoin transaction (BIP-141), which the readers of `tx.ts` are held to.
use writz.Prelude.{ℕ, ◌/◌, ◌<◌, ◌*◌, ◌≡◌, List, [], ◌∷◌, ◌++◌, ltb, if◌then◌else◌, length, All}
use writz.Bitcoin.Bytes.{Bytes, le16, le32}

-- A compact size in its shortest form, up to 32 bits.
unfoldable pub compact_size : ℕ → Bytes
compact_size n = if ltb n 0xfd then n ∷ [] else if ltb n 65536 then 0xfd ∷ le16 n else 0xfe ∷ le32 n

abbrev pub limit : ℕ
limit = 4294967296

-- A script or witness item behind its length.
unfoldable pub with_length : Bytes → Bytes
with_length s = compact_size (length s) ++ s

pub record TxIn : Type 0 where
  pub prevout : Bytes
  pub script : Bytes
  pub sequence : Bytes

pub record TxOut : Type 0 where
  pub value : ℕ
  pub script : Bytes

pub record Tx : Type 0 where
  pub version : Bytes
  pub inputs : List TxIn
  pub outputs : List TxOut
  pub witness : List (List Bytes)
  pub locktime : Bytes

unfoldable pub le64 : ℕ → Bytes
le64 n = le32 n ++ le32 (n / limit)

unfoldable pub encode_inputs : List TxIn → Bytes
encode_inputs [] = []
encode_inputs (x ∷ xs) = x.prevout ++ (with_length x.script ++ (x.sequence ++ encode_inputs xs))

unfoldable pub encode_outputs : List TxOut → Bytes
encode_outputs [] = []
encode_outputs (x ∷ xs) = le64 x.value ++ (with_length x.script ++ encode_outputs xs)

unfoldable pub encode_items : List Bytes → Bytes
encode_items [] = []
encode_items (x ∷ xs) = with_length x ++ encode_items xs

unfoldable pub encode_witness : List (List Bytes) → Bytes
encode_witness [] = []
encode_witness (s ∷ ss) = compact_size (length s) ++ (encode_items s ++ encode_witness ss)

-- The inputs and outputs, each behind its count, and what follows them.
unfoldable pub encode_body : Tx → Bytes → Bytes
encode_body tx rest =
    compact_size (length tx.inputs)
    ++ (encode_inputs tx.inputs
        ++ (compact_size (length tx.outputs) ++ (encode_outputs tx.outputs ++ rest)))

-- Without witness data: what the txid is the hash of.
unfoldable pub encode_legacy : Tx → Bytes
encode_legacy tx = tx.version ++ encode_body tx tx.locktime

-- With marker, flag and one witness stack for each input.
unfoldable pub encode_segwit : Tx → Bytes
encode_segwit tx =
    tx.version ++ (0x00 ∷ 0x01 ∷ encode_body tx (encode_witness tx.witness ++ tx.locktime))

pub record IsTxIn (x : TxIn) : Type 0 where
  pub prevout_size : length x.prevout ≡ 36
  pub script_size : length x.script < limit
  pub sequence_size : length x.sequence ≡ 4

pub record IsTxOut (x : TxOut) : Type 0 where
  pub value_size : x.value < limit * limit
  pub script_size : length x.script < limit

abbrev pub IsStack : List Bytes → Type 0
IsStack s = (length s < limit) × All (λ (x : Bytes). length x < limit) s

-- What a transaction on the network satisfies: fields of fixed size, counts of at most 32 bits, and
-- as many witness stacks as inputs.
pub record IsTx (tx : Tx) : Type 0 where
  pub version_size : length tx.version ≡ 4
  pub locktime_size : length tx.locktime ≡ 4
  pub input_count : length tx.inputs < limit
  pub output_count : length tx.outputs < limit
  pub are_inputs : All IsTxIn tx.inputs
  pub are_outputs : All IsTxOut tx.outputs
  pub are_stacks : All IsStack tx.witness
  pub stack_count : length tx.witness ≡ length tx.inputs
