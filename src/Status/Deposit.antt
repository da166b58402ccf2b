-- ===== src/Status/Deposit.antt =====
-- Deposits on their way: when the app offers to register one, and what a missing read shows as.
use writz.Prelude.{ℕ, ◌≤◌, ◌<◌, ◌≡◌, ◌⊎◌, false, ◌||◌, [], ◌∷◌, Option, none, some, arith, inl, inr}
use writz.Status.{
  StatusInputs, Position, PendingDeposit, position, checking, core_status, position_status,
  open_status, is_own_release, esplora_confirmations, or_default, or_else, relayer_field, truthy,
  is_submitted,
}

-- The confirmations that count: Esplora's, or the relayer's where Esplora gives none.
abbrev pub confirmations_seen : StatusInputs → Option ℕ
confirmations_seen i =
    or_else (esplora_confirmations i.chain.deposit_tx i.chain.btc_tip_height)
      (relayer_field i.relayer (λ r. r.confirmations))

abbrev pub required : StatusInputs → ℕ
required i = or_default (relayer_field i.relayer (λ r. r.min_confirmations)) i.min_confirmations

-- A deposit that may be registered.
pub record IsRegistrable (i : StatusInputs) (pd : PendingDeposit) (n : ℕ) : Type 0 where
  pub unregistered : i.chain.position ≡ some none
  pub unsubmitted : (truthy pd.stellar_tx_hash || is_submitted pd.step) ≡ false
  pub counted : confirmations_seen i ≡ some n
  pub deep : required i ≤ n
  pub mined : 0 < n

-- With a local position and no chain position read, or none found, the status is `checking` and
-- never a guess, unless Bitcoin shows the spend that this device's own release made.
core_status-checking :
    (i : StatusInputs) (p : Position)
    → i.position ≡ some p
    → is_own_release i.chain.lock_outspend p.release_txid ≡ false
    → (i.chain.position ≡ none) ⊎ (i.chain.position ≡ some none)
    → core_status i ≡ checking (position ∷ [])
unfolding core_status open_status position_status
core_status-checking i p q own (inl e) = ground arith
core_status-checking i p q own (inr e) = ground arith
