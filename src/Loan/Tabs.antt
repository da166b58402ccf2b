-- ===== src/Loan/Tabs.antt =====
-- frontend/app/src/lib/loan/model.ts: which actions the page of a loan offers.
use writz.Prelude.{
  ℕ, Bool, true, false, not, ◌&&◌, ◌||◌, List, [], ◌∷◌, Option, none, some, leb, ltb, ◌==◌,
  if◌then◌else◌,
}
use writz.Status.Types.{
  PositionStatus, checking, active, at_risk, liquidatable, repaid_locked, releasing, released,
  liquidated, HealthBand, healthy, below_limit, borrow_limit_bp, at_risk_bp, liquidation_bp,
}
use writz.Loan.{Available}

pub data LoanTab : Type 0 where
  borrow : LoanTab
  repay : LoanTab
  release : LoanTab

pub data Read : Type 0 where
  reading : Read
  read_failed : Read
  read_ok : ℕ → Read

pub data Health : Type 0 where
  no_debt : Health
  is_healthy : Health
  under_limit : Health
  risky : Health
  liquid : Health

unfoldable pub health_of_band : HealthBand → Health
health_of_band healthy = is_healthy
health_of_band below_limit = under_limit

unfoldable pub health_of : PositionStatus → Option Health
health_of (active ratio band) = some (health_of_band band)
health_of (at_risk ratio) = some risky
health_of (liquidatable ratio) = some liquid
health_of (repaid_locked never_borrowed missing) = if never_borrowed then some no_debt else none
health_of _ = none

unfoldable pub health_of_ratio : Option ℕ → Health
health_of_ratio none = no_debt
health_of_ratio (some ratio) =
    if leb borrow_limit_bp ratio
    then is_healthy
    else if leb at_risk_bp ratio
    then under_limit
    else if leb liquidation_bp ratio
    then risky
    else liquid

unfoldable pub is_repaid_locked : PositionStatus → Bool
is_repaid_locked (repaid_locked never_borrowed missing) = true
is_repaid_locked _ = false

unfoldable pub is_checking : PositionStatus → Bool
is_checking (checking missing) = true
is_checking _ = false

unfoldable pub has_health : Option Health → Bool
has_health none = false
has_health (some health) = true

unfoldable pub shows_risk : PositionStatus → Bool
shows_risk status = has_health (health_of status) || is_checking status

unfoldable pub is_open : PositionStatus → Bool
is_open status = has_health (health_of status) || is_repaid_locked status

unfoldable pub is_closed : PositionStatus → Bool
is_closed (releasing txid) = true
is_closed (released txid) = true
is_closed (liquidated hash) = true
is_closed _ = false

-- The reasons, by their names.
pub data Reason : Type 0 where
  still_checking : Reason
  busy_here : Reason
  other_tx : Reason
  catching_up : Reason
  price_unavailable : Reason
  price_checking : Reason
  at_limit : Reason
  pool_empty : Reason
  repaid_closed : Reason
  nothing_to_repay : Reason
  repay_first : Reason
  missing_details : Reason
  loan_closed : Reason

pub data TabState : Type 0 where
  enabled : TabState
  off : Reason → TabState

pub record Tabs : Type 0 where
  pub borrow_tab : TabState
  pub repay_tab : TabState
  pub release_tab : TabState

pub record TabFacts : Type 0 where
  pub status : PositionStatus
  pub debt_stroops : ℕ
  pub price : Read
  pub available : Option Available
  pub busy : Option LoanTab
  pub other_tx : Bool
  pub catching_up : Bool

unfoldable pub same_tab : LoanTab → LoanTab → Bool
same_tab borrow borrow = true
same_tab repay repay = true
same_tab release release = true
same_tab _ _ = false

unfoldable pub blocker_of : Bool → Bool → Option Reason
blocker_of is_other is_behind =
    if is_other then some other_tx else if is_behind then some catching_up else none

-- `gate`.
unfoldable pub gate : Option LoanTab → Option Reason → LoanTab → TabState → TabState
gate (some tab') blocker tab own = if same_tab tab' tab then enabled else off busy_here
gate none (some reason) tab own = off reason
gate none none tab own = own

unfoldable pub is_below : Option Health → Bool
is_below (some under_limit) = true
is_below (some risky) = true
is_below (some liquid) = true
is_below _ = false

unfoldable pub borrow_by_available : Option Available → TabState
borrow_by_available none = enabled
borrow_by_available (some a) =
    if a.stroops == 0 then off (if a.limited_by_pool then pool_empty else at_limit) else enabled

unfoldable pub borrow_by_price : Read → Option Available → TabState
borrow_by_price read_failed available = off price_unavailable
borrow_by_price reading available = off price_checking
borrow_by_price (read_ok price) available = borrow_by_available available

unfoldable pub is_repaid_closed : PositionStatus → Bool
is_repaid_closed (repaid_locked never_borrowed missing) = not never_borrowed
is_repaid_closed _ = false

unfoldable pub borrow_of : TabFacts → TabState
borrow_of f =
    if is_repaid_closed f.status
    then off repaid_closed
    else if is_below (health_of f.status)
    then off at_limit
    else borrow_by_price f.price f.available

unfoldable pub release_of : PositionStatus → TabState
release_of (repaid_locked never_borrowed missing) = if missing then off missing_details else enabled
release_of _ = off repay_first

unfoldable pub loan_tabs : TabFacts → Tabs
loan_tabs f =
    if is_checking f.status
    then record {
      borrow_tab = off still_checking;
      repay_tab = off still_checking;
      release_tab = off still_checking;
    }
    else if not (is_open f.status)
    then record {
      borrow_tab = off loan_closed;
      repay_tab = off loan_closed;
      release_tab = off loan_closed;
    }
    else let blocker = blocker_of f.other_tx f.catching_up in
      record {
        borrow_tab = gate f.busy blocker borrow (borrow_of f);
        repay_tab =
            gate f.busy blocker repay
              (if ltb 0 f.debt_stroops then enabled else off nothing_to_repay);
        release_tab = gate f.busy blocker release (release_of f.status);
      }

unfoldable pub state_of : Tabs → LoanTab → TabState
state_of tabs borrow = tabs.borrow_tab
state_of tabs repay = tabs.repay_tab
state_of tabs release = tabs.release_tab

unfoldable pub is_enabled : TabState → Bool
is_enabled enabled = true
is_enabled (off reason) = false

unfoldable pub enabled_at : Tabs → LoanTab → Bool
enabled_at tabs tab = is_enabled (state_of tabs tab)

unfoldable pub find_enabled : Tabs → List LoanTab → Option LoanTab
find_enabled tabs [] = none
find_enabled tabs (tab ∷ rest) =
    let found = find_enabled tabs rest in if enabled_at tabs tab then some tab else found

abbrev pub loan_tabs_list : List LoanTab
loan_tabs_list = borrow ∷ repay ∷ release ∷ []

unfoldable pub needs_repay : PositionStatus → Bool
needs_repay (at_risk ratio) = true
needs_repay (liquidatable ratio) = true
needs_repay _ = false

unfoldable pub by_state : Tabs → PositionStatus → Option LoanTab
by_state tabs status =
    if needs_repay status && enabled_at tabs repay
    then some repay
    else if is_repaid_closed status && enabled_at tabs release
    then some release
    else find_enabled tabs loan_tabs_list

unfoldable pub default_tab :
    Tabs → PositionStatus → Option LoanTab → Option LoanTab → Option LoanTab
default_tab tabs status requested (some busy) = some busy
default_tab tabs status (some requested) none =
    if enabled_at tabs requested then some requested else by_state tabs status
default_tab tabs status none none = by_state tabs status
