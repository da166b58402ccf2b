-- ===== src/Script/Machine.antt =====
-- The part of Bitcoin's script machine that a lock's script uses: the specification that the spending
-- paths are held against. The stack's top comes first.
use writz.Prelude.{
  ℕ, Bool, true, false, not, ◌&&◌, List, [], ◌∷◌, Option, none, some, leb, ltb, ◌==◌, if◌then◌else◌,
}
use writz.Bitcoin.Bytes.{Bytes}
use writz.Script.{
  Op, op_if, op_else, op_endif, op_checksig, op_checksigverify, op_checklocktimeverify, op_drop,
  Element, op, push, equals,
}

-- The spending transaction, as far as a script sees it: which signatures are valid for it, and its
-- locktime and the input's sequence; with SHA-256 and the reading of a script's bytes.
pub record Spender : Type 0 where
  pub sha256 : Bytes → Bytes
  pub parse : Bytes → Option (List Element)
  pub check_sig : Bytes → Bytes → Bool
  pub decode_number : Bytes → ℕ
  pub locktime : ℕ
  pub sequence : ℕ

-- An item counts as false when all its bytes are 0, but for a sign in the last one.
abbrev pub is_true : Bytes → Bool
is_true [] = false
is_true (b ∷ []) = not (b == 0) && not (b == 0x80)
is_true (b ∷ c ∷ bytes) = let rest = is_true (c ∷ bytes) in if b == 0 then rest else true

-- A locktime is a height below this, and a time from it on.
abbrev pub is_height : ℕ → Bool
is_height n = ltb n 500000000

abbrev pub same_type : Bool → Bool → Bool
same_type true b = b
same_type false b = not b

-- BIP-65, for a number that is not negative.
abbrev pub locktime_passed : Spender → Bytes → Bool
locktime_passed s n =
    same_type (is_height (s.decode_number n)) (is_height s.locktime)
    && leb (s.decode_number n) s.locktime
    && not (s.sequence == 0xffffffff)

abbrev pub when {ℓ} : {A : Type ℓ} → Bool → A → Option A
when true a = some a
when false a = none

-- One operation on the stack; `none` when the script fails.
abbrev pub execute_op : Spender → Op → List Bytes → Option (List Bytes)
execute_op s op_checksig (pubkey ∷ sig ∷ stack) =
    some ((if s.check_sig sig pubkey then 1 ∷ [] else []) ∷ stack)
execute_op s op_checksigverify (pubkey ∷ sig ∷ stack) = when (s.check_sig sig pubkey) stack
execute_op s op_checklocktimeverify (n ∷ stack) = when (locktime_passed s n) (n ∷ stack)
execute_op s op_drop (item ∷ stack) = some stack
execute_op s _ _ = none

abbrev pub all_true : List Bool → Bool
all_true [] = true
all_true (b ∷ branches) = b && all_true branches

-- A script from a stack on, inside the branches taken or not taken.
abbrev pub execute : Spender → List Element → List Bool → List Bytes → Option (List Bytes)
execute s [] branches stack = some stack
execute s (push bytes ∷ script) branches stack =
    if all_true branches
    then execute s script branches (bytes ∷ stack)
    else execute s script branches stack
execute s (op op_if ∷ script) branches [] =
    if all_true branches then none else execute s script (false ∷ branches) []
execute s (op op_if ∷ script) branches (item ∷ stack) =
    if all_true branches
    then execute s script (is_true item ∷ branches) stack
    else execute s script (false ∷ branches) (item ∷ stack)
execute s (op op_else ∷ script) (b ∷ branches) stack = execute s script (not b ∷ branches) stack
execute s (op op_else ∷ script) [] stack = none
execute s (op op_endif ∷ script) (b ∷ branches) stack = execute s script branches stack
execute s (op op_endif ∷ script) [] stack = none
execute s (op o ∷ script) branches stack =
    if all_true branches
    then elim (execute_op s o stack) [
      | none ↦ none
      | some stack' ↦ execute s script branches stack'
    ]
    else execute s script branches stack

-- BIP-141: exactly one item is left, and it is true.
abbrev pub is_spent : Option (List Bytes) → Bool
is_spent (some (item ∷ [])) = is_true item
is_spent _ = false

-- BIP-141: the last item of a witness is the script.
abbrev pub script_of : List Bytes → Option Bytes
script_of [] = none
script_of (script ∷ []) = some script
script_of (item ∷ next ∷ items) = script_of (next ∷ items)

-- The items before it are the stack, the first at the bottom.
abbrev pub stack_of : List Bytes → List Bytes → List Bytes
stack_of [] stack = stack
stack_of (script ∷ []) stack = stack
stack_of (item ∷ next ∷ items) stack = stack_of (next ∷ items) (item ∷ stack)

-- The script's hash is the output's, and its elements accept the stack.
abbrev pub accepts : Spender → Bytes → List Bytes → Option Bytes → Bool
accepts s program stack none = false
accepts s program stack (some script) = equals (s.sha256 script) program && (elim (s.parse script) [
  | none ↦ false
  | some elements ↦ is_spent (execute s elements ([]) stack)
])

-- A witness spends an output whose program is the hash of a script.
abbrev pub spends : Spender → Bytes → List Bytes → Bool
spends s program witness = accepts s program (stack_of witness ([])) (script_of witness)
