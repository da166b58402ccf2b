-- ===== src/Loan/Panel.antt =====
-- The panel that the page of a loan opens first.
use writz.Prelude.{◌≡◌, refl, true, false, ◌&&◌, Option, none, some, Bool-cases, inl, inr, arith}
use writz.Status.Types.{PositionStatus}
use writz.Loan.Tabs.{
  LoanTab, borrow, repay, release, Reason, TabState, enabled, Tabs, TabFacts, same_tab, gate,
  loan_tabs, state_of, is_enabled, enabled_at, find_enabled, loan_tabs_list, needs_repay,
  is_repaid_closed, by_state, default_tab, is_checking, is_open,
}

-- A panel is one that can be used, or there is none to use.
abbrev pub IsUsable : Tabs → Option LoanTab → Type 0
IsUsable tabs (some tab) = enabled_at tabs tab ≡ true
IsUsable tabs none = (tab : LoanTab) → enabled_at tabs tab ≡ false

all_off :
    (tabs : Tabs)
    → enabled_at tabs borrow ≡ false
    → enabled_at tabs repay ≡ false
    → enabled_at tabs release ≡ false
    → IsUsable tabs none
all_off tabs e e' e'' borrow = e
all_off tabs e e' e'' repay = e'
all_off tabs e e' e'' release = e''

find_enabled-IsUsable : (tabs : Tabs) → IsUsable tabs (find_enabled tabs loan_tabs_list)
unfolding find_enabled
find_enabled-IsUsable tabs = elim (Bool-cases (enabled_at tabs borrow)) [
  | inl e ↦ rw (e) e
  | inr e ↦ elim (Bool-cases (enabled_at tabs repay)) [
    | inl e' ↦ rw (e, e') e'
    | inr e' ↦ elim (Bool-cases (enabled_at tabs release)) [
      | inl e'' ↦ rw (e, e', e'') e''
      | inr e'' ↦ rw (e, e', e'') (all_off tabs e e' e'')
    ]
  ]
]

by_state-IsUsable : (tabs : Tabs) (status : PositionStatus) → IsUsable tabs (by_state tabs status)
unfolding by_state
by_state-IsUsable tabs status = elim (Bool-cases (needs_repay status && enabled_at tabs repay)) [
  | inl e ↦ rw (e) (ground arith)
  | inr e ↦ elim (Bool-cases (is_repaid_closed status && enabled_at tabs release)) [
    | inl e' ↦ rw (e, e') (ground arith)
    | inr e' ↦ rw (e, e') (find_enabled-IsUsable tabs)
  ]
]

same_tab_refl : (tab : LoanTab) → same_tab tab tab ≡ true
unfolding same_tab
same_tab_refl borrow = refl
same_tab_refl repay = refl
same_tab_refl release = refl

gate-busy :
    (blocker : Option Reason) (tab : LoanTab) (own : TabState)
    → gate (some tab) blocker tab own ≡ enabled
unfolding gate
gate-busy blocker tab own = rw (gate, same_tab_refl tab) refl

loan_tabs-busy :
    (f : TabFacts) (tab : LoanTab)
    → is_checking f.status ≡ false
    → is_open f.status ≡ true
    → f.busy ≡ some tab
    → enabled_at (loan_tabs f) tab ≡ true
unfolding loan_tabs state_of enabled_at is_enabled
loan_tabs-busy f borrow h o b = rw (h, o, b, gate-busy) refl
loan_tabs-busy f repay h o b = rw (h, o, b, gate-busy) refl
loan_tabs-busy f release h o b = rw (h, o, b, gate-busy) refl

idle-IsUsable :
    (tabs : Tabs) (status : PositionStatus) (requested : Option LoanTab)
    → IsUsable tabs (default_tab tabs status requested none)
unfolding default_tab
idle-IsUsable tabs status none = by_state-IsUsable tabs status
idle-IsUsable tabs status (some tab) = elim (Bool-cases (enabled_at tabs tab)) [
  | inl e ↦ rw (e) e
  | inr e ↦ rw (e) (by_state-IsUsable tabs status)
]

busy-IsUsable :
    (tabs : Tabs) (status : PositionStatus) (requested busy : Option LoanTab)
    → ((tab : LoanTab) → busy ≡ some tab → enabled_at tabs tab ≡ true)
    → IsUsable tabs (default_tab tabs status requested busy)
unfolding default_tab
busy-IsUsable tabs status requested none h = idle-IsUsable tabs status requested
busy-IsUsable tabs status requested (some tab) h = h tab refl

-- For a loan that is open and has been checked, the panel that opens first can be used, whatever was
-- requested and whichever transaction is running, and no panel opens only when none can be used.
pub default_tab-IsUsable :
    (f : TabFacts) (requested : Option LoanTab)
    → is_checking f.status ≡ false
    → is_open f.status ≡ true
    → IsUsable (loan_tabs f) (default_tab (loan_tabs f) f.status requested f.busy)
default_tab-IsUsable f requested h o =
    busy-IsUsable (loan_tabs f) f.status requested f.busy (λ tab. loan_tabs-busy f tab h o)
