-- ===== src/Status/Tests.antt =====
-- A loan of 1,000 USDC against 0.02 BTC, and a deposit with two confirmations.
use writz.Prelude.{◌↔◌, ℕ, ◌≡◌, refl, ap, true, none, some}
use writz.Status.{
  StatusInputs, Position, ChainPosition, ChainReads, PendingDeposit, spent, unspent, seen, sent,
  liquidatable, chain_active, core_status, derive_position_status, health_status,
  release_from_outspend, open_status, position_status, unspent_status, debt_status,
  collateral_ratio_bp, is_own_release, timelock_of,
}
use writz.Status.Release.{core_status-released}
use writz.Status.Health.{core_status-IsPriced, status_ratio, IsPriced, InBand}
use writz.Status.Reclaim.{IsReclaimable, derive_position_status-reclaimable_iff}

abbrev loan : Position
loan = record {
  txid = "aa";
  vout = some 0;
  btc_pubkey = some "02";
  timelock_height = some 300;
  release_txid = none;
}

abbrev reads : ChainReads
reads = record {
  position = some (
      some
        (record { status = chain_active; collateral_sats = 2000000; debt_stroops = 10000000000 }));
  release_psbt_ready = none;
  oracle_price_stroops = some 550000000000;
  btc_tip_height = some 310;
  deposit_tx = none;
  lock_outspend = some unspent;
}

abbrev open_loan : StatusInputs
open_loan = record {
  position = some loan;
  pending_deposit = none;
  chain = reads;
  relayer = none;
  min_confirmations = 1;
  now = 0;
}

abbrev healthy_loan : StatusInputs
healthy_loan = record open_loan {
  chain = record reads { oracle_price_stroops = some 800000000000 };
}

abbrev released_loan : StatusInputs
released_loan = record open_loan { chain = record reads { lock_outspend = some (spent "bb" true) } }

abbrev deposit : PendingDeposit
deposit = record { step = sent; timelock_height = 300; stellar_tx_hash = none; created_at = 0 }

abbrev deposit_in_progress : StatusInputs
deposit_in_progress = record open_loan {
  position = none;
  pending_deposit = some deposit;
  chain = record reads {
    position = some none;
    deposit_tx = some (seen (some 309));
    btc_tip_height = some 310;
  };
}

open_loan_test : core_status open_loan ≡ liquidatable 11000
unfolding core_status open_status position_status unspent_status debt_status collateral_ratio_bp
    health_status is_own_release release_from_outspend
open_loan_test = refl

core_status-released_example : released_loan.chain.lock_outspend ≡ some (spent "bb" true)
unfolding core_status open_status position_status unspent_status is_own_release
    release_from_outspend
core_status-released_example = core_status-released released_loan "bb" refl

core_status-IsPriced_example :
    (c : ChainPosition) × (price : ℕ) × IsPriced open_loan c price 11000
    × (release_from_outspend open_loan.chain.lock_outspend ≡ none)
    × (core_status open_loan ≡ health_status 11000)
    × InBand (core_status open_loan)
core_status-IsPriced_example = core_status-IsPriced open_loan 11000 (ap status_ratio open_loan_test)

derive_position_status-reclaimable_iff_example :
    ((derive_position_status healthy_loan).reclaimable ≡ true) ↔ IsReclaimable healthy_loan
derive_position_status-reclaimable_iff_example = derive_position_status-reclaimable_iff healthy_loan

-- The loan is one that can be reclaimed.
reclaimable_test : (derive_position_status healthy_loan).reclaimable ≡ true
unfolding derive_position_status timelock_of core_status open_status position_status unspent_status
    debt_status collateral_ratio_bp health_status is_own_release release_from_outspend
reclaimable_test = refl
