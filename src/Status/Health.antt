-- ===== src/Status/Health.antt =====
-- When the app shows a collateral ratio, and which.
use writz.Prelude.{
  ℕ, ◌≤◌, ◌<◌, ◌*◌, ◌/◌, ◌≡◌, ◌≢◌, refl, subst, sym, ◌∙◌, ap, inl, inr, false, Option, none, some,
  arith, Option-cases,
}
use writz.Status.{
  StatusInputs, PositionStatus, Position, ChainPosition, PendingDeposit, active, at_risk,
  liquidatable, healthy, below_limit, core_status, position_status, open_status, deposit_status,
  unspent_status, debt_status, release_from_outspend, is_own_release, health_status,
  unregistered_status, confirmation_status, collateral_ratio_bp, sat, is_chain_closed, chain_active,
  chain_liquidated, borrow_limit_bp, at_risk_bp, liquidation_bp,
}

-- The ratio that a status shows.
abbrev pub status_ratio : PositionStatus → Option ℕ
status_ratio (active ratio band) = some ratio
status_ratio (at_risk ratio) = some ratio
status_ratio (liquidatable ratio) = some ratio
status_ratio _ = none

-- The line that a ratio is on the right side of, for each status that shows one.
abbrev pub InBand : PositionStatus → Type 0
InBand (active ratio healthy) = borrow_limit_bp ≤ ratio
InBand (active ratio below_limit) = (at_risk_bp ≤ ratio) × (ratio < borrow_limit_bp)
InBand (at_risk ratio) = (liquidation_bp ≤ ratio) × (ratio < at_risk_bp)
InBand (liquidatable ratio) = ratio < liquidation_bp
InBand _ = Unit

health_status-InBand : (ratio : ℕ) → InBand (health_status ratio)
unfolding health_status
health_status-InBand ratio = ground arith

status_ratio-health_status : (ratio : ℕ) → status_ratio (health_status ratio) ≡ some ratio
unfolding health_status
status_ratio-health_status ratio = ground arith

-- The reads behind a ratio: an open position with debt on chain, and a price.
pub record IsPriced (i : StatusInputs) (c : ChainPosition) (price ratio : ℕ) : Type 0 where
  pub held : i.chain.position ≡ some (some c)
  pub still_active : c.status ≡ chain_active
  pub in_debt : 0 < c.debt_stroops
  pub priced : i.chain.oracle_price_stroops ≡ some price
  pub exact : ratio ≡ c.collateral_sats * price * 10000 / sat / c.debt_stroops

debt_status-ratio :
    (i : StatusInputs) (p : Position) (c : ChainPosition) (ratio : ℕ)
    → status_ratio (debt_status i p c) ≡ some ratio
    → (price : ℕ) × (is_chain_closed c.status ≡ false)
      × (0 < c.debt_stroops)
      × (i.chain.oracle_price_stroops ≡ some price)
      × (ratio ≡ c.collateral_sats * price * 10000 / sat / c.debt_stroops)
      × (debt_status i p c ≡ health_status ratio)
unfolding debt_status collateral_ratio_bp
debt_status-ratio i p c ratio e = elim (Option-cases i.chain.oracle_price_stroops) [
  | inl unread ↦ absurd (ground arith)
  | inr (price, read) ↦
      let shown =
        status_ratio-health_status (c.collateral_sats * price * 10000 / sat / c.debt_stroops) in
      (price, ground arith, ground arith, read, ground (arith, shown), ground (arith, shown))
]

unregistered_status-ratio :
    (i : StatusInputs) (pd : PendingDeposit) → status_ratio (unregistered_status i pd) ≡ none
unfolding unregistered_status confirmation_status
unregistered_status-ratio i pd = ground arith

deposit_status-ratio :
    (i : StatusInputs) (pd : PendingDeposit) → status_ratio (deposit_status i pd) ≡ none
unfolding deposit_status
deposit_status-ratio i pd = ground (arith, unregistered_status-ratio i pd)

-- A spend or a release sent hides the ratio.
unspent_status-ratio :
    (i : StatusInputs) (p : Position) (c : ChainPosition) (ratio : ℕ)
    → status_ratio (unspent_status i p c) ≡ some ratio
    → (unspent_status i p c ≡ debt_status i p c)
      × (release_from_outspend i.chain.lock_outspend ≡ none)
unfolding unspent_status release_from_outspend
unspent_status-ratio i p c ratio e = (ground arith, ground arith)

position_status-ratio :
    (i : StatusInputs) (p : Position) (r : Option (Option ChainPosition)) (ratio : ℕ)
    → status_ratio (position_status i p r) ≡ some ratio
    → (c : ChainPosition) × (r ≡ some (some c))
      × (c.status ≢ chain_liquidated)
      × (position_status i p r ≡ debt_status i p c)
      × (release_from_outspend i.chain.lock_outspend ≡ none)
unfolding position_status
position_status-ratio i p (some (some c)) ratio e = (
  c,
  refl,
  ground arith,
  ground (arith, unspent_status-ratio i p c ratio),
  ground (arith, unspent_status-ratio i p c ratio),
)
position_status-ratio i p _ ratio e = cc

open_status-ratio :
    (i : StatusInputs) (p : Position) (ratio : ℕ)
    → status_ratio (open_status i p) ≡ some ratio
    → open_status i p ≡ position_status i p i.chain.position
unfolding open_status is_own_release release_from_outspend
open_status-ratio i p ratio e = ground arith

core_status-open :
    (i : StatusInputs) (ratio : ℕ)
    → status_ratio (core_status i) ≡ some ratio
    → (p : Position) × (core_status i ≡ open_status i p)
unfolding core_status
core_status-open i ratio e = elim (Option-cases i.position) [
  | inr (p, q) ↦ (p, ground arith)
  | inl q ↦ elim (Option-cases i.pending_deposit) [
    | inl q' ↦ absurd (ground arith)
    | inr (pd, q') ↦ absurd (ground (arith, deposit_status-ratio i pd))
  ]
]

-- Whenever a collateral ratio is shown, the chain holds the position, active and in debt, the oracle
-- price has been read, the lock output is not seen spent, the ratio is collateral value over debt in
-- basis points, and the status is the one that the ratio's band calls for.
pub core_status-IsPriced :
    (i : StatusInputs) (ratio : ℕ)
    → status_ratio (core_status i) ≡ some ratio
    → (c : ChainPosition) × (price : ℕ) × IsPriced i c price ratio
      × (release_from_outspend i.chain.lock_outspend ≡ none)
      × (core_status i ≡ health_status ratio)
      × InBand (core_status i)
core_status-IsPriced i ratio e =
    let (p, opened) = core_status-open i ratio e in
    let e1 = ap status_ratio (sym opened) ∙ e in
    let by_chain = open_status-ratio i p ratio e1 in
    let e2 = ap status_ratio (sym by_chain) ∙ e1 in
    let (c, held, live, owed, seen) = position_status-ratio i p i.chain.position ratio e2 in
    let e3 = ap status_ratio (sym owed) ∙ e2 in
    let (price, unclosed, debt, read, exact, health) = debt_status-ratio i p c ratio e3 in
    let same = opened ∙ by_chain ∙ owed ∙ health in
    (
      c,
      price,
      record {
        held = held;
        still_active = ground arith;
        in_debt = debt;
        priced = read;
        exact = exact;
      },
      seen,
      same,
      subst InBand (sym same) (health_status-InBand ratio),
    )
