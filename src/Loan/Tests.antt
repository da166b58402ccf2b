-- ===== src/Loan/Tests.antt =====
-- A loan of half a bitcoin at 100,000 dollars with 40,000 dollars of debt.
use writz.Prelude.{ℕ, ◌*◌, ◌+◌, ◌-◌, ◌≤◌, ◌≡◌, refl, ◌%◌, ◌↔◌, none, some, false, arith}
use writz.Status.Types.{active, below_limit}
use writz.Loan.{stroop, available_to_borrow, repay_to_safe_stroops, cent}
use writz.Loan.Amounts.{IsCovered, InPool, available_to_borrow_iff, repay_to_safe_stroops_iff}
use writz.Loan.Tabs.{
  TabFacts, read_ok, borrow, loan_tabs, default_tab, is_checking, is_open, has_health, health_of,
}
use writz.Loan.Panel.{IsUsable, default_tab-IsUsable}

abbrev sats : ℕ
sats = 50000000

abbrev debt : ℕ
debt = 40000 * stroop

abbrev price : ℕ
price = 100000 * stroop

available_to_borrow_iff_example :
    (5 ≤ (available_to_borrow sats 100 price (some 7)).stroops)
    ↔ (IsCovered sats (100 + 5) price × InPool (some 7) 5)
available_to_borrow_iff_example = available_to_borrow_iff sats 100 price (some 7) 5 (omega arith)

repay_to_safe_stroops_iff_example :
    (repay_to_safe_stroops sats debt price % cent ≡ 0)
    × (IsCovered sats (debt - 700000 * cent) price
        ↔ (repay_to_safe_stroops sats debt price ≤ 700000 * cent))
repay_to_safe_stroops_iff_example = repay_to_safe_stroops_iff sats debt price 700000

abbrev facts : TabFacts
facts = record {
  status = active 12500 below_limit;
  debt_stroops = debt;
  price = read_ok price;
  available = none;
  busy = none;
  other_tx = false;
  catching_up = false;
}

default_tab-IsUsable_example :
    IsUsable (loan_tabs facts) (default_tab (loan_tabs facts) facts.status (some borrow) facts.busy)
unfolding is_checking is_open has_health health_of
default_tab-IsUsable_example = default_tab-IsUsable facts (some borrow) refl refl
