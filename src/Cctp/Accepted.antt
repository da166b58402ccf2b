-- ===== src/Cctp/Accepted.antt =====
-- Which messages the relay pays for.
use writz.Prelude.{
  ℕ, zero, suc, ◌+◌, ◌≤◌, ◌≡◌, ◌≢◌, refl, ap, ◌↔◌, inl, inr, true, [], ◌∷◌, ◌++◌, some, ltb, length,
  take, drop, replicate, length-drop, length-append, arith, ltb→lt, Bool-cases,
}
use writz.Cctp.Message.{
  Bytes, hex, CctpBurnMessage, accepted, hex_to_bytes, read_message, decode_burn_message, bytes_eq,
  address_to_bytes32, bytes32_to_address, base_sepolia_token_messenger, RelayableBurn,
  check_recipient, check_message, assert_relayable,
}

bytes_eq_iff : (xs ys : Bytes) → (bytes_eq xs ys ≡ true) ↔ (xs ≡ ys)
unfolding bytes_eq
bytes_eq_iff [] [] = (λ h. refl, λ h. refl)
bytes_eq_iff [] (y ∷ ys) = (λ h. cc, λ h. cc)
bytes_eq_iff (x ∷ xs) [] = (λ h. cc, λ h. cc)
bytes_eq_iff (x ∷ xs) (y ∷ ys) = let ih = bytes_eq_iff xs ys in ground arith

-- What the relay pays for: a V2 burn on Stellar, minted on Base Sepolia through Circle's
-- TokenMessenger, that anyone may complete, with no hook, to an address other than 0 and of an
-- amount other than 0.
abbrev pub IsRelayable : CctpBurnMessage → Bytes → Type 0
IsRelayable message address =
    (message.version ≡ 1)
    × (message.body.version ≡ 1)
    × (message.source_domain ≡ 27)
    × (message.destination_domain ≡ 6)
    × (message.recipient ≡ address_to_bytes32 base_sepolia_token_messenger)
    × (message.destination_caller ≡ replicate 32 0)
    × (message.body.hook_data ≡ ([]))
    × (message.body.mint_recipient ≡ address_to_bytes32 address)
    × (length address ≡ 20)
    × (address ≢ replicate 20 0)
    × (message.body.amount ≢ 0)

take-drop : (n : ℕ) (xs : Bytes) → take n xs ++ drop n xs ≡ xs
take-drop zero xs = refl
take-drop (suc n) [] = refl
take-drop (suc n) (x ∷ xs) = ap (◌∷◌ x) (take-drop n xs)

bytes32_to_address_iff :
    (value address : Bytes)
    → (bytes32_to_address value ≡ some address)
      ↔ ((value ≡ address_to_bytes32 address) × (length address ≡ 20))
unfolding bytes32_to_address address_to_bytes32
bytes32_to_address_iff value address =
    let front = bytes_eq_iff (take 12 value) (replicate 12 0) in
    let parts = take-drop 12 value in
    let size = length-drop 12 value in
    let size' = length-append (replicate 12 0) address in
    (λ h. ground arith, λ (e, l). ground arith)

check_message_iff :
    (message : CctpBurnMessage) (address : Bytes)
    → (check_message message ≡ accepted (record { message = message; mint_recipient = address }))
      ↔ IsRelayable message address
unfolding check_message check_recipient
check_message_iff message address =
    let messenger =
      bytes_eq_iff message.recipient (address_to_bytes32 base_sepolia_token_messenger) in
    let caller = bytes_eq_iff message.destination_caller (replicate 32 0) in
    let hook = bytes_eq_iff message.body.hook_data ([]) in
    let zero_address = bytes_eq_iff address (replicate 20 0) in
    let recipient = bytes32_to_address_iff message.body.mint_recipient address in
    (λ h. ground arith, λ h. ground arith)

check_message_keeps :
    (message : CctpBurnMessage) (burn : RelayableBurn)
    → check_message message ≡ accepted burn
    → burn.message ≡ message
unfolding check_message check_recipient
check_message_keeps message burn h = ground arith

-- The relay accepts the bytes of a message exactly when they are long enough and the message that
-- they are read as is one the relay pays for; it then mints to the address of the message.
pub assert_relayable_iff :
    (m : Bytes) (burn : RelayableBurn)
    → (assert_relayable (hex m) ≡ accepted burn) ↔ (
        (376 ≤ length m)
        × (burn.message ≡ read_message m)
        × IsRelayable (read_message m) burn.mint_recipient)
unfolding assert_relayable decode_burn_message hex_to_bytes
assert_relayable_iff m burn = elim (Bool-cases (ltb (length m) (148 + 228))) [
  | inl short ↦ (
    λ h. absurd (ground arith),
    λ (enough, e, h). absurd (omega (arith, ltb→lt (length m) 376 short)),
  )
  | inr long ↦
      let checks = check_message_iff (read_message m) burn.mint_recipient in
      let kept = check_message_keeps (read_message m) burn in
      (λ h. ground (arith, kept, checks), λ (l, e, h). ground (arith, checks))
]
