-- ===== src/Lend/Account.antt =====
-- What the replay comes to, in terms of the list of events.
use Prim.Native.String.{String}
use text.Mathlib.Text.{◌==◌ as str_eq}
use mathlib.Core.Int.{ℤ, ◌+ℤ◌, ◌-ℤ◌, +ℤ_assoc, +ℤ_idl}
use writz.Prelude.{
  ◌≡◌, refl, sym, ap, ◌∙◌, subst, Bool, true, false, List, [], ◌∷◌, ◌++◌, append_assoc, append-nil,
  Option, none, some, ◌>>=◌, if◌then◌else◌, arith, some_injective, Bool-cases, inl, inr, All,
}
use writz.Prelude.OrderedMap
use writz.Lend.Archive.{LendEventRow}
use writz.Lend.Changes.{status_after, change, closed_by, apply_kind-IsStep}
use writz.Lend.Growth.{>>=-some}
use writz.Lend.Replay.{
  zero_ℤ, or_zero, ExpectedStatus, ReplayedState, no_events, balance_of, add_scaled, EventKind,
  deposit, repay_full, liquidate, supply, withdraw, other, kind_of, apply_kind, apply_event,
  apply_events, sum_scaled, replay,
}

-- The status that the last of the events gives a position.
pub last_status : String → Option ExpectedStatus → List LendEventRow → Option ExpectedStatus
last_status txid before [] = before
last_status txid before (r ∷ rows) =
    last_status txid (status_after txid (kind_of r.name) r before) rows

-- All that was supplied, less all that was withdrawn.
pub net_scaled : List LendEventRow → ℤ
net_scaled [] = zero_ℤ
net_scaled (r ∷ rows) = change r +ℤ net_scaled rows

pub rows_of_subject : String → List LendEventRow → List LendEventRow
rows_of_subject subject [] = []
rows_of_subject subject (r ∷ rows) =
    let rest = rows_of_subject subject rows in if str_eq r.subject subject then r ∷ rest else rest

pub closed_positions : List LendEventRow → List String
closed_positions [] = []
closed_positions (r ∷ rows) = closed_by (kind_of r.name) r.subject ++ closed_positions rows

-- The state behind the events, from a state on.
record IsSum (rows : List LendEventRow) (s s' : ReplayedState) : Type 0 where
  status :
      (txid : String)
      → OrderedMap.get txid s'.positions ≡ last_status txid (OrderedMap.get txid s.positions) rows
  balance :
      (supplier : String)
      → balance_of supplier s'.scaled_by_supplier
        ≡ balance_of supplier s.scaled_by_supplier +ℤ net_scaled (rows_of_subject supplier rows)
  total : sum_scaled s'.scaled_by_supplier ≡ sum_scaled s.scaled_by_supplier +ℤ net_scaled rows
  closed : s'.repaid_in_full ≡ s.repaid_in_full ++ closed_positions rows

net_scaled-rows_of_subject :
    (supplier : String) (r : LendEventRow) (rows : List LendEventRow)
    → net_scaled (rows_of_subject supplier (r ∷ rows))
      ≡ (if str_eq r.subject supplier then change r else zero_ℤ)
        +ℤ net_scaled (rows_of_subject supplier rows)
unfolding net_scaled rows_of_subject
net_scaled-rows_of_subject supplier r rows = elim (Bool-cases (str_eq r.subject supplier)) [
  | inl same ↦ rw (rows_of_subject, same) refl
  | inr apart ↦ rw (rows_of_subject, apart) (sym (+ℤ_idl _))
]

apply_events-IsSum :
    (rows : List LendEventRow) (s s' : ReplayedState)
    → apply_events rows s ≡ some s'
    → IsSum rows s s'
unfolding apply_events apply_event last_status net_scaled closed_positions rows_of_subject
apply_events-IsSum [] s s' h = subst (IsSum [] s) (some_injective h) (record {
  status = λ txid. refl;
  balance = λ supplier. refl;
  total = refl;
  closed = sym (append-nil s.repaid_in_full);
})
apply_events-IsSum (r ∷ rows) s s' h =
    let (s1, e, h1) = >>=-some (apply_event r s) _ s' h in
    let k = kind_of r.name in
    let first = apply_kind-IsStep k r s s1 e in
    let later = apply_events-IsSum rows s1 s' h1 in
    record {
      status = λ txid.
          later.status txid ∙ ap (λ before. last_status txid before rows) (first.status txid);
      balance = λ supplier.
          later.balance supplier
          ∙ ap (λ x. x +ℤ net_scaled (rows_of_subject supplier rows)) (first.balance supplier)
          ∙ +ℤ_assoc (balance_of supplier s.scaled_by_supplier)
              (if str_eq r.subject supplier then change r else zero_ℤ)
              (net_scaled (rows_of_subject supplier rows))
          ∙ ap (λ x. balance_of supplier s.scaled_by_supplier +ℤ x)
              (sym (net_scaled-rows_of_subject supplier r rows));
      total =
          later.total
          ∙ ap (λ x. x +ℤ net_scaled rows) first.total
          ∙ +ℤ_assoc (sum_scaled s.scaled_by_supplier) (change r) (net_scaled rows);
      closed =
          later.closed
          ∙ ap (λ xs. xs ++ closed_positions rows) first.closed
          ∙ append_assoc s.repaid_in_full (closed_by k r.subject) (closed_positions rows);
    }

-- An event that changes the supply has its amount.
unfoldable pub has_amount : EventKind → Option ℤ → Bool
has_amount supply none = false
has_amount withdraw none = false
has_amount _ scaled = true

abbrev pub HaveAmounts : List LendEventRow → Type 0
HaveAmounts rows = All (λ r. has_amount (kind_of r.name) r.scaled_amount ≡ true) rows

add_scaled_returns :
    (r : LendEventRow) (op : ℤ → ℤ → ℤ) (s : ReplayedState) (scaled : ℤ)
    → r.scaled_amount ≡ some scaled
    → (s' : ReplayedState) × (add_scaled r op s ≡ some s')
unfolding add_scaled
add_scaled_returns r op s scaled e =
    let after : ReplayedState = record s {
      scaled_by_supplier =
          OrderedMap.set r.subject (op (balance_of r.subject s.scaled_by_supplier) scaled)
            s.scaled_by_supplier;
    } in
    let e' : add_scaled r op s ≡ some after = rw (add_scaled, e) refl in (after, e')

apply_kind_returns :
    (k : EventKind) (r : LendEventRow) (s : ReplayedState) (scaled : Option ℤ)
    → r.scaled_amount ≡ scaled
    → has_amount k scaled ≡ true
    → (s' : ReplayedState) × (apply_kind k r s ≡ some s')
unfolding apply_kind has_amount
apply_kind_returns deposit r s scaled e h = (_, refl)
apply_kind_returns repay_full r s scaled e h = (_, refl)
apply_kind_returns liquidate r s scaled e h = (_, refl)
apply_kind_returns other r s scaled e h = (_, refl)
apply_kind_returns supply r s none e h = absurd (ground arith)
apply_kind_returns withdraw r s none e h = absurd (ground arith)
apply_kind_returns supply r s (some scaled) e h = add_scaled_returns r (λ a b. a +ℤ b) s scaled e
apply_kind_returns withdraw r s (some scaled) e h = add_scaled_returns r (λ a b. a -ℤ b) s scaled e

apply_events_returns :
    (rows : List LendEventRow) (s : ReplayedState)
    → HaveAmounts rows
    → (s' : ReplayedState) × (apply_events rows s ≡ some s')
unfolding apply_events apply_event
apply_events_returns [] s h = (s, refl)
apply_events_returns (r ∷ rows) s (h, hs) =
    let (s1, e) = apply_kind_returns (kind_of r.name) r s r.scaled_amount refl h in
    let (s', e') = apply_events_returns rows s1 hs in (s', ap (λ o. o >>= apply_events rows) e ∙ e')

-- Where each event that changes the supply has its amount, the replay succeeds. It has for each
-- position the status that the last of its events that gives one gives, for each supplier what their
-- events supplied less what they withdrew, in total the same of all events, and the positions repaid
-- in full, in their order.
pub replay_lem :
    (rows : List LendEventRow)
    → HaveAmounts rows
    → (s : ReplayedState) × (replay rows ≡ some s)
      × ((txid : String) → OrderedMap.get txid s.positions ≡ last_status txid none rows)
      × ((supplier : String)
          → balance_of supplier s.scaled_by_supplier ≡ net_scaled (rows_of_subject supplier rows))
      × (s.total_scaled ≡ net_scaled rows)
      × (s.repaid_in_full ≡ closed_positions rows)
unfolding replay OrderedMap.get balance_of net_scaled or_zero sum_scaled
replay_lem rows h =
    let (s, e) = apply_events_returns rows no_events h in
    let sum = apply_events-IsSum rows no_events s e in
    (
      record s { total_scaled = sum_scaled s.scaled_by_supplier },
      rw (e) refl,
      sum.status,
      λ supplier. sum.balance supplier ∙ +ℤ_idl (net_scaled (rows_of_subject supplier rows)),
      sum.total ∙ +ℤ_idl (net_scaled rows),
      sum.closed,
    )
