-- ===== src/Bitcoin/Tx.antt =====
-- relayer/src/bitcoin/tx.ts: the non-witness serialization of a raw transaction, and its outputs.
-- A hex string is modelled by the bytes that it encodes; a thrown RangeError is `none`.
pub mod Format
mod Reads
pub mod Strip
pub mod Outputs
pub mod Forms
mod Tests
use writz.Prelude.{
  ℕ, zero, suc, ◌+◌, ◌*◌, ◌^◌, ◌-◌, ◌<◌, ◌≡◌, Bool, true, false, ◌&&◌, List, [], ◌∷◌, ◌++◌, Option,
  none, some, ltb, ◌==◌, if◌then◌else◌, leb, ◌>>=◌, length, get_elem?,
}
use writz.Bitcoin.Bytes.{Bytes, subarray, read_u16, read_u32}

-- `sliceExact`: a slice past the end throws instead of being cut short.
pub slice_exact : Bytes → ℕ → ℕ → Option Bytes
slice_exact buf start len =
    if ltb (length buf) (start + len) then none else some (subarray buf start len)

-- `readVarInt`: the value and the number of bytes that it takes.
pub read_var_int : Bytes → ℕ → Option (ℕ × ℕ)
read_var_int buf offset = do
  first ← get_elem? buf offset
  if ltb first 0xfd
      then some (first, 1)
      else if first == 0xfd
      then (do v ← read_u16 buf (offset + 1); some (v, 3))
      else if first == 0xfe
      then (do v ← read_u32 buf (offset + 1); some (v, 5))
      else (do
        lo ← read_u32 buf (offset + 1)
        hi ← read_u32 buf (offset + 5)
        if ltb 0 hi then none else some (lo, 9))

-- `buf[i] === b`: false past the end.
abbrev pub byte_is : Option ℕ → ℕ → Bool
byte_is none b = false
byte_is (some a) b = a == b

-- The marker and flag of BIP-141 behind the version.
abbrev pub has_marker : Bytes → Bool
has_marker buf = byte_is (get_elem? buf 4) 0x00 && byte_is (get_elem? buf 5) 0x01

pub is_segwit : Bytes → Bool
is_segwit buf = ltb 6 (length buf) && has_marker buf

-- The input loop of `stripWitness`, over the inputs left: what it pushes, and the offset behind.
pub copy_inputs : ℕ → Bytes → ℕ → Bytes → Option (Bytes × ℕ)
copy_inputs zero buf i out = some (out, i)
copy_inputs (suc k) buf i out = do
  prevout ← slice_exact buf i 36
  (script_len, size) ← read_var_int buf (i + 36)
  script ← slice_exact buf (i + 36) (size + script_len)
  sequence ← slice_exact buf (i + 36 + (size + script_len)) 4
  copy_inputs k buf (i + 36 + (size + script_len) + 4) (out ++ (prevout ++ (script ++ sequence)))

-- The output loop.
pub copy_outputs : ℕ → Bytes → ℕ → Bytes → Option (Bytes × ℕ)
copy_outputs zero buf i out = some (out, i)
copy_outputs (suc k) buf i out = do
  value ← slice_exact buf i 8
  (script_len, size) ← read_var_int buf (i + 8)
  script ← slice_exact buf (i + 8) (size + script_len)
  copy_outputs k buf (i + 8 + (size + script_len)) (out ++ (value ++ script))

-- The inner witness loop: the items of one stack are skipped, with no check of their length.
pub skip_items : ℕ → Bytes → ℕ → Option ℕ
skip_items zero buf i = some i
skip_items (suc j) buf i = do
  (item_len, size) ← read_var_int buf i
  skip_items j buf (i + (size + item_len))

-- The witness loop, one stack for each input.
pub skip_witness : ℕ → Bytes → ℕ → Option ℕ
skip_witness zero buf i = some i
skip_witness (suc k) buf i = do
  (items, size) ← read_var_int buf i
  i' ← skip_items items buf (i + size)
  skip_witness k buf i'

-- `stripWitness` on a transaction with a marker.
pub strip_segwit : Bytes → Option Bytes
strip_segwit buf = do
  version ← slice_exact buf 0 4
  (input_count, input_size) ← read_var_int buf 6
  inputs ← slice_exact buf 6 input_size
  (out, i) ← copy_inputs input_count buf (6 + input_size) (version ++ inputs)
  (output_count, output_size) ← read_var_int buf i
  outputs ← slice_exact buf i output_size
  (out', i') ← copy_outputs output_count buf (i + output_size) (out ++ outputs)
  end ← skip_witness input_count buf i'
  locktime ← slice_exact buf end 4
  some (out' ++ locktime)

pub strip_witness : Bytes → Option Bytes
strip_witness raw = if is_segwit raw then strip_segwit raw else some raw

-- `Number.MAX_SAFE_INTEGER`.
abbrev pub max_safe_integer : ℕ
max_safe_integer = 2 ^ 53 - 1

-- `bigUInt64ToSafeNumber`.
pub to_safe_number : ℕ → Option ℕ
to_safe_number value = if ltb max_safe_integer value then none else some value

-- `buf.readBigUInt64LE(i)`.
pub read_u64 : Bytes → ℕ → Option ℕ
read_u64 buf i = do lo ← read_u32 buf i; hi ← read_u32 buf (i + 4); some (lo + 2 ^ 32 * hi)

-- The loop of `parseOutput` over the inputs: the offset behind them.
pub skip_inputs : ℕ → Bytes → ℕ → Option ℕ
skip_inputs zero buf i = some i
skip_inputs (suc k) buf i = do
  (script_len, size) ← read_var_int buf (i + 36)
  skip_inputs k buf (i + 36 + (size + script_len + 4))

pub record ParsedOutput : Type 0 where
  pub value_sat : ℕ
  pub script_pub_key : Bytes

-- The loop over the outputs, `k` of them before the one that is wanted.
pub output_at : ℕ → Bytes → ℕ → Option ParsedOutput
output_at zero buf i = do
  raw_value ← read_u64 buf i
  value_sat ← to_safe_number raw_value
  (script_len, size) ← read_var_int buf (i + 8)
  script ← slice_exact buf (i + 8 + size) script_len
  some (record { value_sat = value_sat; script_pub_key = script })
output_at (suc k) buf i = do
  raw_value ← read_u64 buf i
  value_sat ← to_safe_number raw_value
  (script_len, size) ← read_var_int buf (i + 8)
  script ← slice_exact buf (i + 8 + size) script_len
  output_at k buf (i + 8 + (size + script_len))

-- `parseOutput`.
pub parse_output : Bytes → ℕ → Option ParsedOutput
parse_output buf output_index = do
  let start = if has_marker buf then 6 else 4
  (input_count, input_size) ← read_var_int buf start
  i ← skip_inputs input_count buf (start + input_size)
  (output_count, output_size) ← read_var_int buf i
  if leb output_count output_index then none else output_at output_index buf (i + output_size)
