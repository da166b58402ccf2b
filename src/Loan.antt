-- ===== src/Loan.antt =====
-- frontend/app/src/lib/loan/model.ts: the amounts of a loan, and the actions that its page offers.
pub mod Amounts
pub mod Tabs
pub mod Panel
mod Tests
use writz.Prelude.{
  ℕ, ◌+◌, ◌-◌, ◌*◌, ◌/◌, Bool, true, false, not, ◌&&◌, ◌||◌, List, [], ◌∷◌, Option, none, some, leb,
  ltb, ◌==◌, if◌then◌else◌,
}
use writz.Status.Types.{
  PositionStatus, checking, active, at_risk, liquidatable, repaid_locked, releasing, released,
  liquidated, HealthBand, healthy, below_limit, borrow_limit_bp, at_risk_bp, liquidation_bp, sat,
}
use writz.Status.{collateral_ratio_bp}

abbrev pub stroop : ℕ
stroop = 10000000

unfoldable pub ratio_limit_stroops : ℕ → ℕ → ℕ
ratio_limit_stroops collateral_sats price = collateral_sats * price * 10000 / sat / borrow_limit_bp

pub record Available : Type 0 where
  pub stroops : ℕ
  pub limited_by_pool : Bool

-- The smaller of the headroom and what the pool has, where that is known.
unfoldable pub cap_by_pool : ℕ → Option ℕ → Available
cap_by_pool headroom none = record { stroops = headroom; limited_by_pool = false }
cap_by_pool headroom (some pool) =
    if leb headroom pool
    then record { stroops = headroom; limited_by_pool = false }
    else record { stroops = pool; limited_by_pool = true }

unfoldable pub available_to_borrow : ℕ → ℕ → ℕ → Option ℕ → Available
available_to_borrow collateral_sats debt price pool =
    let limit = ratio_limit_stroops collateral_sats price in
    cap_by_pool (if ltb debt limit then limit - debt else 0) pool

abbrev pub cent : ℕ
cent = stroop / 100

unfoldable pub repay_to_safe_stroops : ℕ → ℕ → ℕ → ℕ
repay_to_safe_stroops collateral_sats debt price =
    let limit = ratio_limit_stroops collateral_sats price in
    if leb debt limit then 0 else (debt - limit + cent - 1) / cent * cent

unfoldable pub liquidation_price_for : ℕ → ℕ → Option ℕ
liquidation_price_for collateral_sats debt =
    if debt == 0 || collateral_sats == 0
    then none
    else some (debt * liquidation_bp * sat / 10000 / collateral_sats)

pub data AfterState : Type 0 where
  repaid : AfterState
  left : Option ℕ → Option ℕ → AfterState

unfoldable pub after_state : ℕ → ℕ → ℕ → AfterState
after_state collateral_sats new_debt price =
    if new_debt == 0
    then repaid
    else left (collateral_ratio_bp collateral_sats new_debt price)
        (liquidation_price_for collateral_sats new_debt)
