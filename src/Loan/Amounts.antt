-- ===== src/Loan/Amounts.antt =====
-- What a borrower may take and has to give back, in terms of the collateral ratio.
use native.Mathlib.Nat.{le-div_iff_mul-le}
use writz.Prelude.{
  ℕ, zero, suc, ◌+◌, ◌-◌, ◌*◌, ◌/◌, ◌≤◌, ◌<◌, ◌≡◌, sym, subst, ◌%◌, ◌↔◌, Option, none, some, ltb,
  if◌then◌else◌, arith,
}
use writz.Status.{collateral_ratio_bp}
use writz.Status.Types.{borrow_limit_bp, sat}
use writz.Loan.{ratio_limit_stroops, cap_by_pool, available_to_borrow, repay_to_safe_stroops, cent}

-- A ratio is 150% or more, or there is no debt.
abbrev pub IsSafe : Option ℕ → Type 0
IsSafe none = Unit
IsSafe (some ratio) = borrow_limit_bp ≤ ratio

abbrev pub IsCovered : ℕ → ℕ → ℕ → Type 0
IsCovered collateral_sats debt price = IsSafe (collateral_ratio_bp collateral_sats debt price)

-- The limit is where the ratio is 150%.
le-ratio_limit_stroops_iff :
    (collateral_sats debt price : ℕ)
    → (debt ≤ ratio_limit_stroops collateral_sats price) ↔ IsCovered collateral_sats debt price
unfolding ratio_limit_stroops collateral_ratio_bp
le-ratio_limit_stroops_iff collateral_sats zero price = (λ h. tt, λ h. omega arith)
le-ratio_limit_stroops_iff collateral_sats (suc d) price =
    let x = collateral_sats * price * 10000 / sat in
    let by_limit = le-div_iff_mul-le {k = borrow_limit_bp} {x = suc d} {y = x} (omega arith) in
    let by_debt = le-div_iff_mul-le {k = suc d} {x = borrow_limit_bp} {y = x} (omega arith) in
    let ratio : collateral_ratio_bp collateral_sats (suc d) price ≡ some (x / suc d) =
      ground arith in
    (
      λ h. subst IsSafe (sym ratio) (by_debt.1 (grind (arith, by_limit.0 h))),
      λ h. by_limit.1 (grind (arith, by_debt.0 (subst IsSafe ratio h))),
    )

-- The pool has the amount, where its liquidity is known.
abbrev pub InPool : Option ℕ → ℕ → Type 0
InPool none amount = Unit
InPool (some pool) amount = amount ≤ pool

cap_by_pool_iff :
    (headroom : ℕ) (pool : Option ℕ) (amount : ℕ)
    → (amount ≤ (cap_by_pool headroom pool).stroops) ↔ ((amount ≤ headroom) × InPool pool amount)
unfolding cap_by_pool
cap_by_pool_iff headroom none amount = (λ h. (h, tt), λ h. h.0)
cap_by_pool_iff headroom (some pool) amount = ground arith

-- A positive amount is within what the app offers to borrow exactly when the collateral ratio after
-- it is at least 150% and the pool has it.
pub available_to_borrow_iff :
    (collateral_sats debt price : ℕ) (pool : Option ℕ) (amount : ℕ)
    → 0 < amount
    → (amount ≤ (available_to_borrow collateral_sats debt price pool).stroops)
      ↔ (IsCovered collateral_sats (debt + amount) price × InPool pool amount)
unfolding available_to_borrow
available_to_borrow_iff collateral_sats debt price pool amount h =
    let limit = ratio_limit_stroops collateral_sats price in
    let headroom = if ltb debt limit then limit - debt else 0 in
    let capped = cap_by_pool_iff headroom pool amount in
    let covered = le-ratio_limit_stroops_iff collateral_sats (debt + amount) price in
    let room : (amount ≤ headroom) ↔ (debt + amount ≤ limit) = ground arith in
    (
      λ k. (covered.0 (room.0 (capped.0 k).0), (capped.0 k).1),
      λ k. capped.1 (room.1 (covered.1 k.0), k.1),
    )

-- The app asks to repay the least whole number of cents that brings the ratio back to 150%: so many
-- cents, or more, are enough, and fewer are not. A debt that is paid off is covered.
pub repay_to_safe_stroops_iff :
    (collateral_sats debt price n : ℕ)
    → (repay_to_safe_stroops collateral_sats debt price % cent ≡ 0)
      × (IsCovered collateral_sats (debt - n * cent) price
          ↔ (repay_to_safe_stroops collateral_sats debt price ≤ n * cent))
unfolding repay_to_safe_stroops
repay_to_safe_stroops_iff collateral_sats debt price n =
    let limit = ratio_limit_stroops collateral_sats price in
    let covered = le-ratio_limit_stroops_iff collateral_sats (debt - n * cent) price in
    (ground arith, (λ h. ground (arith, covered.1 h), λ h. covered.0 (ground arith)))
