-- ===== src/Script/Paths.antt =====
-- The two ways to spend a lock, and that there is no other.
use writz.Prelude.{
  ℕ, ◌≡◌, refl, sym, ap, ◌∙◌, ◌⊎◌, inl, inr, true, false, ◌&&◌, List, [], ◌∷◌, none, some,
  if◌then◌else◌, arith, Bool-cases, subst, drop, some_injective, >>=-eq-some,
}
use writz.Bitcoin.Bytes.{Bytes}
use writz.Script.{
  Element, op, push, op_if, op_else, op_endif, op_checksig, op_checksigverify,
  op_checklocktimeverify, op_drop, build_redeem_script, PsbtInput, find_signature, witness_a,
  witness_b, equals,
}
use writz.Script.Machine.{Spender, execute, is_spent, is_true, accepts, spends, locktime_passed}

-- The elements of a lock's script.
abbrev pub lock_script : Bytes → Bytes → Bytes → List Element
lock_script protocol_pubkey user_pubkey height =
    op op_if
    ∷ push protocol_pubkey
    ∷ op op_checksigverify
    ∷ push user_pubkey
    ∷ op op_checksig
    ∷ op op_else
    ∷ push height
    ∷ op op_checklocktimeverify
    ∷ op op_drop
    ∷ push user_pubkey
    ∷ op op_checksig
    ∷ op op_endif
    ∷ []

build_redeem_script-eq :
    (encode_number : ℕ → Bytes) (protocol user : Bytes) (height : ℕ) (script : List Element)
    → build_redeem_script encode_number protocol user height ≡ some script
    → script ≡ lock_script protocol user (encode_number height)
unfolding build_redeem_script
build_redeem_script-eq encode_number protocol user height script h = ground arith

equals_refl : (bytes : Bytes) → equals bytes bytes ≡ true
unfolding equals
equals_refl [] = refl
equals_refl (b ∷ bytes) = ground (arith, equals_refl bytes)

executes_a :
    (s : Spender) (protocol user height user_sig protocol_sig : Bytes)
    → is_spent (
        execute s (lock_script protocol user height) ([]) ((1 ∷ []) ∷ protocol_sig ∷ user_sig ∷ []))
      ≡ (s.check_sig protocol_sig protocol && s.check_sig user_sig user)
executes_a s protocol user height user_sig protocol_sig =
    elim (Bool-cases (s.check_sig protocol_sig protocol)) [
      | inl signed ↦ elim (Bool-cases (s.check_sig user_sig user)) [
        | inl signed' ↦ rw (signed, signed') refl
        | inr unsigned' ↦ rw (signed, unsigned') refl
      ]
      | inr unsigned ↦ rw unsigned refl
    ]

executes_b :
    (s : Spender) (protocol user height user_sig : Bytes)
    → is_spent (execute s (lock_script protocol user height) ([]) ([] ∷ user_sig ∷ []))
      ≡ (locktime_passed s height && s.check_sig user_sig user)
executes_b s protocol user height user_sig = elim (Bool-cases (locktime_passed s height)) [
  | inl passed ↦ elim (Bool-cases (s.check_sig user_sig user)) [
    | inl signed' ↦ rw (passed, signed') refl
    | inr unsigned' ↦ rw (passed, unsigned') refl
  ]
  | inr early ↦ rw early refl
]

-- The script of the output, revealed.
accepts_revealed :
    (s : Spender) (ws : Bytes) (elements : List Element) (stack : List Bytes)
    → s.parse ws ≡ some elements
    → accepts s (s.sha256 ws) stack (some ws) ≡ is_spent (execute s elements ([]) stack)
accepts_revealed s ws elements stack parsed =
    ap
      (λ b. b && (elim (s.parse ws) [
        | none ↦ false
        | some elements' ↦ is_spent (execute s elements' ([]) stack)
      ]))
      (equals_refl (s.sha256 ws))
    ∙ ap (λ o. elim o [ none ↦ false | some elements' ↦ is_spent (execute s elements' ([]) stack) ])
        parsed

-- Let a lock's output commit to the bytes of its script, and the PSBT carry them. A witness that
-- `finalizePathA` assembles holds the signatures found for the two keys, and it spends the output
-- exactly when both are valid.
pub witness_a-spends :
    (encode_number : ℕ → Bytes) (s : Spender) (protocol user : Bytes) (height : ℕ)
    (script : List Element) (ws : Bytes) (input : PsbtInput) (witness : List Bytes)
    → build_redeem_script encode_number protocol user height ≡ some script
    → s.parse ws ≡ some script
    → input.witness_script ≡ some ws
    → witness_a input user protocol ≡ some witness
    → (user_sig : Bytes) × (protocol_sig : Bytes) × (find_signature user input.partial_sig
        ≡ some user_sig)
      × (find_signature protocol input.partial_sig ≡ some protocol_sig)
      × (spends s (s.sha256 ws) witness
          ≡ (s.check_sig protocol_sig protocol && s.check_sig user_sig user))
unfolding witness_a
witness_a-spends encode_number s protocol user height script ws input witness built parsed carried
      h =
    let (ws', e, h1) = >>=-eq-some input.witness_script _ h in
    let (us, e1, h2) = >>=-eq-some (find_signature user input.partial_sig) _ h1 in
    let (ps, e2, h3) = >>=-eq-some (find_signature protocol input.partial_sig) _ h2 in
    let same : ws' ≡ ws = some_injective (sym e ∙ carried) in
    let shape : witness ≡ us ∷ ps ∷ (1 ∷ []) ∷ ws ∷ [] =
      some_injective (sym h3) ∙ ap (λ b. us ∷ ps ∷ (1 ∷ []) ∷ b ∷ []) same in
    let lock = build_redeem_script-eq encode_number protocol user height script built in
    (
      us,
      ps,
      e1,
      e2,
      ap (spends s (s.sha256 ws)) shape
          ∙ accepts_revealed s ws (lock_script protocol user (encode_number height))
              ((1 ∷ []) ∷ ps ∷ us ∷ []) (parsed ∙ ap some lock)
          ∙ executes_a s protocol user (encode_number height) us ps,
    )

-- Let a lock's output commit to the bytes of its script, and the PSBT carry them. A witness that
-- `finalizePathB` assembles holds the signature found for the user's key, and it spends the output
-- exactly when the signature is valid and the spending transaction has a locktime at or past the
-- lock's, of the same kind, a height or a time, and a sequence that is not final.
pub witness_b-spends :
    (encode_number : ℕ → Bytes) (s : Spender) (protocol user : Bytes) (height : ℕ)
    (script : List Element) (ws : Bytes) (input : PsbtInput) (witness : List Bytes)
    → build_redeem_script encode_number protocol user height ≡ some script
    → s.parse ws ≡ some script
    → input.witness_script ≡ some ws
    → witness_b input user ≡ some witness
    → (user_sig : Bytes) × (find_signature user input.partial_sig ≡ some user_sig)
      × (spends s (s.sha256 ws) witness
          ≡ (locktime_passed s (encode_number height) && s.check_sig user_sig user))
unfolding witness_b
witness_b-spends encode_number s protocol user height script ws input witness built parsed carried
      h =
    let (ws', e, h1) = >>=-eq-some input.witness_script _ h in
    let (us, e1, h2) = >>=-eq-some (find_signature user input.partial_sig) _ h1 in
    let same : ws' ≡ ws = some_injective (sym e ∙ carried) in
    let shape : witness ≡ us ∷ [] ∷ ws ∷ [] =
      some_injective (sym h2) ∙ ap (λ b. us ∷ [] ∷ b ∷ []) same in
    let lock = build_redeem_script-eq encode_number protocol user height script built in
    (
      us,
      e1,
      ap (spends s (s.sha256 ws)) shape
          ∙ accepts_revealed s ws (lock_script protocol user (encode_number height)) ([] ∷ us ∷ [])
              (parsed ∙ ap some lock)
          ∙ executes_b s protocol user (encode_number height) us,
    )

-- What a stack that spends a lock shows.
abbrev pub IsAuthorised : Spender → Bytes → Bytes → Bytes → Type 0
IsAuthorised s protocol user height =
    ((sig : Bytes) × (s.check_sig sig user ≡ true))
    × (((sig : Bytes) × (s.check_sig sig protocol ≡ true)) ⊎ (locktime_passed s height ≡ true))

-- An OP_CHECKSIG for the user at the end.
unsigned_end : (stack : List Bytes) → is_spent (some ([] ∷ stack)) ≡ true → ⊥
unsigned_end [] h = cc
unsigned_end (item ∷ stack) h = cc

signed_at_end :
    (s : Spender) (user : Bytes) (stack : List Bytes)
    → is_spent (execute s (push user ∷ op op_checksig ∷ op op_endif ∷ []) (true ∷ []) stack) ≡ true
    → (sig : Bytes) × (s.check_sig sig user ≡ true)
signed_at_end s user [] h = absurd cc
signed_at_end s user (sig ∷ stack) h = elim (Bool-cases (s.check_sig sig user)) [
  | inl signed ↦ (sig, signed)
  | inr unsigned ↦ absurd (
      unsigned_end stack
        (subst (λ b. is_spent (some ((if b then 1 ∷ [] else []) ∷ stack)) ≡ true) unsigned h))
]

co_signed :
    (s : Spender) (protocol user height : Bytes) (stack : List Bytes)
    → is_spent (execute s (drop 1 (lock_script protocol user height)) (true ∷ []) stack) ≡ true
    → IsAuthorised s protocol user height
co_signed s protocol user height [] h = absurd cc
co_signed s protocol user height (protocol_sig ∷ stack) h =
    elim (Bool-cases (s.check_sig protocol_sig protocol)) [
      | inr unsigned ↦ let h' = rw unsigned at h in absurd cc
      | inl signed ↦ ((signed_at_end s user stack (rw signed at h)), inl (protocol_sig, signed))
    ]

recovered :
    (s : Spender) (protocol user height : Bytes) (stack : List Bytes)
    → is_spent (execute s (drop 1 (lock_script protocol user height)) (false ∷ []) stack) ≡ true
    → IsAuthorised s protocol user height
recovered s protocol user height stack h = elim (Bool-cases (locktime_passed s height)) [
  | inr early ↦ let h' = rw early at h in absurd cc
  | inl passed ↦ ((signed_at_end s user stack (rw passed at h)), inr passed)
]

lock_script-IsAuthorised :
    (s : Spender) (protocol user height : Bytes) (stack : List Bytes)
    → is_spent (execute s (lock_script protocol user height) ([]) stack) ≡ true
    → IsAuthorised s protocol user height
lock_script-IsAuthorised s protocol user height [] h = absurd cc
lock_script-IsAuthorised s protocol user height (item ∷ stack) h =
    elim (Bool-cases (is_true item)) [
      | inl co_sign ↦ co_signed s protocol user height stack (
          subst
            (λ b.
              is_spent (execute s (drop 1 (lock_script protocol user height)) (b ∷ []) stack)
              ≡ true)
            co_sign h)
      | inr recover ↦ recovered s protocol user height stack (
          subst
            (λ b.
              is_spent (execute s (drop 1 (lock_script protocol user height)) (b ∷ []) stack)
              ≡ true)
            recover h)
    ]

-- No stack at all spends a lock without a valid signature of the user, and one of the protocol or a
-- locktime at or past the lock's, of the same kind.
pub build_redeem_script-IsAuthorised :
    (encode_number : ℕ → Bytes) (s : Spender) (protocol user : Bytes) (height : ℕ)
    (script : List Element) (stack : List Bytes)
    → build_redeem_script encode_number protocol user height ≡ some script
    → is_spent (execute s script ([]) stack) ≡ true
    → IsAuthorised s protocol user (encode_number height)
build_redeem_script-IsAuthorised encode_number s protocol user height script stack built h =
    let lock = build_redeem_script-eq encode_number protocol user height script built in
    lock_script-IsAuthorised s protocol user (encode_number height) stack
      (subst (λ sc. is_spent (execute s sc ([]) stack) ≡ true) lock h)
