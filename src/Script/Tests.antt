-- ===== src/Script/Tests.antt =====
-- Concrete locks, spends and witnesses.
use writz.Prelude.{
  ℕ, ◌≡◌, refl, ◌&&◌, List, [], ◌∷◌, none, some, if◌then◌else◌, replicate, length, arith, ◌==◌,
}
use writz.Bitcoin.Bytes.{Bytes}
use writz.Script.{
  Element, build_redeem_script, PsbtInput, find_signature, equals, witness_a, witness_b,
  serialize_witness, deserialize_witness,
}
use writz.Script.Machine.{Spender, spends, locktime_passed}
use writz.Script.Paths.{
  lock_script, IsAuthorised, witness_a-spends, witness_b-spends, build_redeem_script-IsAuthorised,
}
use writz.Script.Witness.{deserialize_witness-serialize_witness}

abbrev protocol_key : Bytes
protocol_key = replicate 33 2

abbrev user_key : Bytes
user_key = replicate 33 3

abbrev script : List Element
script = lock_script protocol_key user_key (1 ∷ [])

-- A signature is valid when it has one byte, a number is 100000, and the hash of a script is itself.
abbrev spender : Spender
spender = record {
  sha256 = λ bytes. bytes;
  parse = λ bytes. if equals bytes (7 ∷ []) then some script else none;
  check_sig = λ sig pubkey. length sig == 1;
  decode_number = λ n. 100000;
  locktime = 200000;
  sequence = 0xfffffffe;
}

abbrev encode_number : ℕ → Bytes
encode_number n = 1 ∷ []

abbrev input : PsbtInput
input = record {
  partial_sig =
      record { pubkey = protocol_key; signature = 8 ∷ [] }
      ∷ record { pubkey = user_key; signature = 9 ∷ [] }
      ∷ [];
  witness_script = some (7 ∷ []);
}

witness_a-spends_example :
    (user_sig : Bytes) × (protocol_sig : Bytes) × (find_signature user_key input.partial_sig
      ≡ some user_sig)
    × (find_signature protocol_key input.partial_sig ≡ some protocol_sig)
    × (spends spender (7 ∷ []) ((9 ∷ []) ∷ (8 ∷ []) ∷ (1 ∷ []) ∷ (7 ∷ []) ∷ [])
        ≡ (spender.check_sig protocol_sig protocol_key && spender.check_sig user_sig user_key))
unfolding build_redeem_script witness_a find_signature equals
witness_a-spends_example =
    witness_a-spends encode_number spender protocol_key user_key 100000 script (7 ∷ []) input
      ((9 ∷ []) ∷ (8 ∷ []) ∷ (1 ∷ []) ∷ (7 ∷ []) ∷ []) refl refl refl refl

witness_b-spends_example :
    (user_sig : Bytes) × (find_signature user_key input.partial_sig ≡ some user_sig)
    × (spends spender (7 ∷ []) ((9 ∷ []) ∷ [] ∷ (7 ∷ []) ∷ [])
        ≡ (locktime_passed spender (1 ∷ []) && spender.check_sig user_sig user_key))
unfolding build_redeem_script witness_b find_signature equals
witness_b-spends_example =
    witness_b-spends encode_number spender protocol_key user_key 100000 script (7 ∷ []) input
      ((9 ∷ []) ∷ [] ∷ (7 ∷ []) ∷ []) refl refl refl refl

build_redeem_script-IsAuthorised_example : IsAuthorised spender protocol_key user_key (1 ∷ [])
unfolding build_redeem_script
build_redeem_script-IsAuthorised_example =
    build_redeem_script-IsAuthorised encode_number spender protocol_key user_key 100000 script
      ((1 ∷ []) ∷ (8 ∷ []) ∷ (9 ∷ []) ∷ []) refl refl

deserialize_witness-serialize_witness_example :
    (buf : Bytes) × (serialize_witness ((9 ∷ []) ∷ [] ∷ []) ≡ some buf)
    × (deserialize_witness buf ≡ some ((9 ∷ []) ∷ [] ∷ []))
deserialize_witness-serialize_witness_example =
    deserialize_witness-serialize_witness ((9 ∷ []) ∷ [] ∷ []) (omega arith)
      (omega arith, (omega arith, tt))
