-- ===== src/Script.antt =====
-- bitcoin-script/src/script.ts and spend.ts: the redeem script of a lock, the two ways to spend it,
-- and the witness serialization. The elements of a script are what `bitcoin.script.compile` is
-- handed; the number encoding of bitcoinjs-lib is a parameter, and a PSBT is what is put in it.
pub mod Machine
pub mod Paths
pub mod Witness
mod Tests
use Prim.Native.String.{String}
use writz.Prelude.{
  ℕ, zero, suc, ◌+◌, ◌-◌, Bool, true, false, not, ◌&&◌, List, [], ◌∷◌, ◌++◌, Option, none, some,
  ltb, ◌==◌, if◌then◌else◌, length, ◌>>=◌, get_elem?,
}
use writz.Bitcoin.Bytes.{Bytes, le16, read_u16, subarray}

pub data Op : Type 0 where
  op_if : Op
  op_else : Op
  op_endif : Op
  op_checksig : Op
  op_checksigverify : Op
  op_checklocktimeverify : Op
  op_drop : Op

pub data Element : Type 0 where
  op : Op → Element
  push : Bytes → Element

abbrev pub min_timelock_height : ℕ
min_timelock_height = 100000

-- `buildRedeemScript`, up to the compilation.
unfoldable pub build_redeem_script : (ℕ → Bytes) → Bytes → Bytes → ℕ → Option (List Element)
build_redeem_script encode_number protocol_pubkey user_pubkey timelock_height =
    if not (length protocol_pubkey == 33)
    then none
    else if not (length user_pubkey == 33)
    then none
    else if ltb timelock_height min_timelock_height
    then none
    else some (
        op op_if
        ∷ push protocol_pubkey
        ∷ op op_checksigverify
        ∷ push user_pubkey
        ∷ op op_checksig
        ∷ op op_else
        ∷ push (encode_number timelock_height)
        ∷ op op_checklocktimeverify
        ∷ op op_drop
        ∷ push user_pubkey
        ∷ op op_checksig
        ∷ op op_endif
        ∷ [])

unfoldable pub compute_timelock : ℕ → ℕ → ℕ → ℕ
compute_timelock deposit_block_height loan_duration_blocks safety_buffer_blocks =
    deposit_block_height + loan_duration_blocks + safety_buffer_blocks

pub record SpendParams : Type 0 where
  pub txid_hex : String
  pub vout : ℕ
  pub amount_sat : ℕ
  pub script_pub_key : Bytes
  pub redeem_script : Bytes
  pub recipient_address : String
  pub fee_sat : ℕ

-- The transaction of a PSBT with one input and one output.
pub record Psbt : Type 0 where
  pub locktime : ℕ
  pub hash : String
  pub index : ℕ
  pub witness_utxo : Bytes × ℕ
  pub witness_script : Bytes
  pub sequence : ℕ
  pub output : String × ℕ

-- bitcoinjs-lib refuses an output of a negative value.
unfoldable pub build_with : ℕ → ℕ → SpendParams → Option Psbt
build_with locktime sequence params =
    if ltb params.amount_sat params.fee_sat
    then none
    else some (record {
      locktime = locktime;
      hash = params.txid_hex;
      index = params.vout;
      witness_utxo = (params.script_pub_key, params.amount_sat);
      witness_script = params.redeem_script;
      sequence = sequence;
      output = (params.recipient_address, params.amount_sat - params.fee_sat);
    })

unfoldable pub build_release_transaction : SpendParams → Option Psbt
build_release_transaction params = build_with 0 0xfffffffe params

unfoldable pub build_emergency_transaction : SpendParams → ℕ → Option Psbt
build_emergency_transaction params timelock_height = build_with timelock_height 0xfffffffe params

pub record PartialSig : Type 0 where
  pub pubkey : Bytes
  pub signature : Bytes

pub record PsbtInput : Type 0 where
  pub partial_sig : List PartialSig
  pub witness_script : Option Bytes

-- `Buffer.equals`.
unfoldable pub equals : Bytes → Bytes → Bool
equals [] [] = true
equals (a ∷ xs) (b ∷ ys) = (a == b) && equals xs ys
equals [] (b ∷ ys) = false
equals (a ∷ xs) [] = false

-- The signature of the first entry of a key.
unfoldable pub find_signature : Bytes → List PartialSig → Option Bytes
find_signature pubkey [] = none
find_signature pubkey (ps ∷ entries) =
    let rest = find_signature pubkey entries in
    if equals ps.pubkey pubkey then some ps.signature else rest

-- The witness of `_finalizeA`, and of `_finalizeB`.
unfoldable pub witness_a : PsbtInput → Bytes → Bytes → Option (List Bytes)
witness_a input user_pubkey protocol_pubkey = do
  script ← input.witness_script
  user ← find_signature user_pubkey input.partial_sig
  protocol ← find_signature protocol_pubkey input.partial_sig
  some (user ∷ protocol ∷ (1 ∷ []) ∷ script ∷ [])

unfoldable pub witness_b : PsbtInput → Bytes → Option (List Bytes)
witness_b input user_pubkey = do
  script ← input.witness_script
  user ← find_signature user_pubkey input.partial_sig
  some (user ∷ [] ∷ script ∷ [])

-- `encodeVarInt`: `writeUInt16LE` throws above 0xffff.
unfoldable pub encode_var_int : ℕ → Option Bytes
encode_var_int n =
    if ltb n 0xfd then some (n ∷ []) else if ltb 0xffff n then none else some (0xfd ∷ le16 n)

unfoldable pub serialize_items : List Bytes → Option Bytes
serialize_items [] = some ([])
serialize_items (item ∷ items) = do
  len ← encode_var_int (length item)
  rest ← serialize_items items
  some (len ++ (item ++ rest))

unfoldable pub serialize_witness : List Bytes → Option Bytes
serialize_witness items = do
  count ← encode_var_int (length items)
  rest ← serialize_items items
  some (count ++ rest)

unfoldable pub read_var_int : Bytes → ℕ → Option (ℕ × ℕ)
read_var_int buf offset = do
  first ← get_elem? buf offset
  if ltb first 0xfd
      then some (first, 1)
      else if first == 0xfd
      then (do v ← read_u16 buf (offset + 1); some (v, 3))
      else none

unfoldable pub deserialize_items : ℕ → Bytes → ℕ → Option (List Bytes)
deserialize_items zero buf offset = some ([])
deserialize_items (suc count) buf offset = do
  (len, size) ← read_var_int buf offset
  rest ← deserialize_items count buf (offset + size + len)
  some (subarray buf (offset + size) len ∷ rest)

unfoldable pub deserialize_witness : Bytes → Option (List Bytes)
deserialize_witness buf = do (count, size) ← read_var_int buf 0; deserialize_items count buf size
