-- ===== src/Cctp/Message.antt =====
-- relayer/src/cctp/message.ts: decoding a CCTP V2 burn message, and which ones the relay accepts. A
-- hex text is the bytes it writes, or not one at all; a bytes32 and an address are their bytes, a
-- number written as a decimal text is the number.
use Prim.Native.String.{String}
use writz.Prelude.{
  ℕ, ◌+◌, ◌*◌, Bool, true, false, not, ◌&&◌, ◌||◌, List, [], ◌∷◌, ◌++◌, Option, none, some, ltb,
  ◌==◌, if◌then◌else◌, length, take, drop, replicate,
}

abbrev pub Bytes : Type 0
Bytes = List ℕ

-- A text that should be hex.
pub data HexText : Type 0 where
  hex : Bytes → HexText
  not_hex : HexText

pub record BurnBody : Type 0 where
  pub version : ℕ
  pub burn_token : Bytes
  pub mint_recipient : Bytes
  pub amount : ℕ
  pub message_sender : Bytes
  pub max_fee : ℕ
  pub fee_executed : ℕ
  pub expiration_block : ℕ
  pub hook_data : Bytes

pub record CctpBurnMessage : Type 0 where
  pub version : ℕ
  pub source_domain : ℕ
  pub destination_domain : ℕ
  pub nonce : Bytes
  pub sender : Bytes
  pub recipient : Bytes
  pub destination_caller : Bytes
  pub min_finality_threshold : ℕ
  pub finality_threshold_executed : ℕ
  pub body : BurnBody

-- The reasons of a `MessageRefusedError`.
pub data Refusal : Type 0 where
  bad_hex : Refusal
  too_short : Refusal
  not_v2 : Refusal
  not_from_stellar : Refusal
  not_to_base : Refusal
  not_messenger : Refusal
  names_caller : Refusal
  has_hook : Refusal
  bad_recipient : Refusal
  zero_amount : Refusal

-- The message of the error.
unfoldable pub refusal_text : Refusal → String
refusal_text bad_hex = "the transfer message is not valid hex"
refusal_text too_short = "the transfer message is too short to be a CCTP V2 burn"
refusal_text not_v2 = "the transfer is not a CCTP V2 burn"
refusal_text not_from_stellar = "the transfer was not sent from Stellar"
refusal_text not_to_base = "the transfer is not addressed to Base Sepolia"
refusal_text not_messenger = "the transfer is not a USDC mint through Circle's TokenMessenger"
refusal_text names_caller =
    "the transfer names its own caller on Base Sepolia, so the relay cannot complete it"
refusal_text has_hook = "the transfer carries a hook, which the relay does not run"
refusal_text bad_recipient = "the transfer's recipient is not a Base Sepolia address"
refusal_text zero_amount = "the transfer's amount is zero"

-- What a function returns, or the error it throws.
pub data Checked {ℓ} (A : Type ℓ) : Type ℓ where
  refused : Refusal → Checked A
  accepted : A → Checked A

unfoldable pub hex_to_bytes : HexText → Checked Bytes
hex_to_bytes (hex bytes) = accepted bytes
hex_to_bytes not_hex = refused bad_hex

-- A big-endian number.
unfoldable pub big_endian : ℕ → Bytes → ℕ
big_endian acc [] = acc
big_endian acc (b ∷ bytes) = big_endian (acc * 256 + b) bytes

unfoldable pub read_uint32_be : Bytes → ℕ → ℕ
read_uint32_be m at = big_endian 0 (take 4 (drop at m))

unfoldable pub b32 : Bytes → ℕ → Bytes
b32 m at = take 32 (drop at m)

unfoldable pub u256 : Bytes → ℕ → ℕ
u256 m at = big_endian 0 (b32 m at)

-- The fields, behind the test of the length.
unfoldable pub read_message : Bytes → CctpBurnMessage
read_message m =
    let body = drop 148 m in
    record {
      version = read_uint32_be m 0;
      source_domain = read_uint32_be m 4;
      destination_domain = read_uint32_be m 8;
      nonce = b32 m 12;
      sender = b32 m 44;
      recipient = b32 m 76;
      destination_caller = b32 m 108;
      min_finality_threshold = read_uint32_be m 140;
      finality_threshold_executed = read_uint32_be m 144;
      body = record {
        version = read_uint32_be body 0;
        burn_token = b32 body 4;
        mint_recipient = b32 body 36;
        amount = u256 body 68;
        message_sender = b32 body 100;
        max_fee = u256 body 132;
        fee_executed = u256 body 164;
        expiration_block = u256 body 196;
        hook_data = drop 228 body;
      };
    }

unfoldable pub decode_burn_message : HexText → Checked CctpBurnMessage
decode_burn_message message_hex = elim (hex_to_bytes message_hex) [
  | refused reason ↦ refused reason
  | accepted m ↦ if ltb (length m) (148 + 228) then refused too_short else accepted (read_message m)
]

unfoldable pub bytes_eq : Bytes → Bytes → Bool
bytes_eq [] [] = true
bytes_eq (a ∷ xs) (b ∷ ys) = (a == b) && bytes_eq xs ys
bytes_eq [] (b ∷ ys) = false
bytes_eq (a ∷ xs) [] = false

unfoldable pub address_to_bytes32 : Bytes → Bytes
address_to_bytes32 address = replicate 12 0 ++ address

unfoldable pub bytes32_to_address : Bytes → Option Bytes
bytes32_to_address value =
    if not (length value == 32) || not (bytes_eq (take 12 value) (replicate 12 0))
    then none
    else some (drop 12 value)

-- 0x8FE6B999Dc680CcFDD5Bf7EB0974218be2542DAA.
abbrev pub base_sepolia_token_messenger : Bytes
base_sepolia_token_messenger =
    0x8F ∷ 0xE6 ∷ 0xB9 ∷ 0x99 ∷ 0xDC ∷ 0x68 ∷ 0x0C ∷ 0xCF ∷ 0xDD ∷ 0x5B ∷ 0xF7 ∷ 0xEB ∷ 0x09 ∷ 0x74
    ∷ 0x21 ∷ 0x8B ∷ 0xE2 ∷ 0x54 ∷ 0x2D ∷ 0xAA ∷ []

pub record RelayableBurn : Type 0 where
  pub message : CctpBurnMessage
  pub mint_recipient : Bytes

-- The tests on the recipient of the mint and the amount.
unfoldable pub check_recipient : CctpBurnMessage → Checked RelayableBurn
check_recipient message = elim (bytes32_to_address message.body.mint_recipient) [
  | none ↦ refused bad_recipient
  | some mint_recipient ↦
      if bytes_eq mint_recipient (replicate 20 0)
      then refused bad_recipient
      else if message.body.amount == 0
      then refused zero_amount
      else accepted (record { message = message; mint_recipient = mint_recipient })
]

-- The tests on a decoded message.
unfoldable pub check_message : CctpBurnMessage → Checked RelayableBurn
check_message message =
    if not (message.version == 1) || not (message.body.version == 1)
    then refused not_v2
    else if not (message.source_domain == 27)
    then refused not_from_stellar
    else if not (message.destination_domain == 6)
    then refused not_to_base
    else if not (bytes_eq message.recipient (address_to_bytes32 base_sepolia_token_messenger))
    then refused not_messenger
    else if not (bytes_eq message.destination_caller (replicate 32 0))
    then refused names_caller
    else if not (bytes_eq message.body.hook_data ([]))
    then refused has_hook
    else check_recipient message

unfoldable pub assert_relayable : HexText → Checked RelayableBurn
assert_relayable message_hex = elim (decode_burn_message message_hex) [
  | refused reason ↦ refused reason
  | accepted message ↦ check_message message
]
