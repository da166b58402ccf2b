-- ===== src/Lend/Changes.antt =====
-- What one event changes, in terms of its kind.
use Prim.Native.String.{String}
use text.Mathlib.Text.{◌==◌ as str_eq}
use text.Mathlib.TextEquality.{eq_iff}
use mathlib.Core.Int.{ℤ, neg_ℤ, ◌+ℤ◌, +ℤ_assoc, +ℤ_comm}
use writz.Prelude.{
  ◌≡◌, refl, sym, ap, ◌∙◌, subst, Bool, true, false, List, [], ◌∷◌, ◌++◌, append-nil, Option, none,
  some, if◌then◌else◌, some_injective, Bool-cases, inl, inr,
}
use writz.Prelude.OrderedMap
use writz.Lend.Archive.{LendEventRow}
use writz.Lend.Growth.{>>=-some}
use writz.Lend.Replay.{
  zero_ℤ, or_zero, ExpectedStatus, is_active, is_closed, is_liquidated, ReplayedState, set_status,
  close, balance_of, add_scaled, EventKind, deposit, repay_full, liquidate, supply, withdraw, other,
  kind_of, apply_kind, sum_scaled,
}

-- The status that an event gives its position.
pub status_given : EventKind → Option ExpectedStatus
status_given deposit = some is_active
status_given repay_full = some is_closed
status_given liquidate = some is_liquidated
status_given _ = none

pub or_before : Option ExpectedStatus → Option ExpectedStatus → Option ExpectedStatus
or_before none before = before
or_before (some status) before = some status

pub status_after : String → EventKind → LendEventRow → Option ExpectedStatus → Option ExpectedStatus
status_after txid k r before =
    if str_eq r.subject txid then or_before (status_given k) before else before

-- What an event adds to the supply.
pub change_of : EventKind → Option ℤ → ℤ
change_of supply scaled = or_zero scaled
change_of withdraw scaled = neg_ℤ (or_zero scaled)
change_of _ scaled = zero_ℤ

abbrev pub change : LendEventRow → ℤ
change r = change_of (kind_of r.name) r.scaled_amount

pub closed_by : EventKind → String → List String
closed_by repay_full subject = subject ∷ []
closed_by _ subject = []

swap_right : (a b c : ℤ) → (a +ℤ b) +ℤ c ≡ (a +ℤ c) +ℤ b
swap_right a b c = +ℤ_assoc a b c ∙ ap (λ x. a +ℤ x) (+ℤ_comm b c) ∙ sym (+ℤ_assoc a c b)

balance_of_here :
    (supplier k : String) (w : ℤ) (m : List (String × ℤ))
    → str_eq k supplier ≡ true
    → balance_of supplier ((k, w) ∷ m) ≡ w
unfolding balance_of OrderedMap.get or_zero
balance_of_here supplier k w m here = rw (balance_of, OrderedMap.get, or_zero, here) refl

balance_of_there :
    (supplier k : String) (w : ℤ) (m : List (String × ℤ))
    → str_eq k supplier ≡ false
    → balance_of supplier ((k, w) ∷ m) ≡ balance_of supplier m
unfolding balance_of OrderedMap.get or_zero
balance_of_there supplier k w m there = rw (balance_of, OrderedMap.get, or_zero, there) refl

sum_scaled-set :
    (supplier : String) (b d : ℤ) (m : List (String × ℤ))
    → balance_of supplier m ≡ b
    → sum_scaled (OrderedMap.set supplier (b +ℤ d) m) ≡ sum_scaled m +ℤ d
unfolding sum_scaled OrderedMap.set balance_of OrderedMap.get or_zero
sum_scaled-set supplier b d [] h = ap (λ x. x +ℤ d) (sym h)
sum_scaled-set supplier b d ((k, w) ∷ m) h = elim (Bool-cases (str_eq k supplier)) [
  | inl here ↦
      let old : w ≡ b = sym (balance_of_here supplier k w m here) ∙ h in
      rw (OrderedMap.set, here)
        (swap_right b d (sum_scaled m) ∙ ap (λ x. (x +ℤ sum_scaled m) +ℤ d) (sym old))
  | inr there ↦
      rw (OrderedMap.set, there)
        (ap (λ x. w +ℤ x)
            (sum_scaled-set supplier b d m (sym (balance_of_there supplier k w m there) ∙ h))
          ∙ sym (+ℤ_assoc w (sum_scaled m) d))
]

or_zero_if :
    (b : Bool) (value : ℤ) (o : Option ℤ)
    → or_zero (if b then some value else o) ≡ (if b then value else or_zero o)
unfolding or_zero
or_zero_if true value o = refl
or_zero_if false value o = refl

balance_of-set :
    (supplier asked : String) (value : ℤ) (m : List (String × ℤ))
    → balance_of asked (OrderedMap.set supplier value m)
      ≡ (if str_eq supplier asked then value else balance_of asked m)
unfolding balance_of
balance_of-set supplier asked value m =
    ap or_zero (OrderedMap.get-set supplier asked value m)
    ∙ or_zero_if (str_eq supplier asked) value (OrderedMap.get asked m)

-- The state behind an event of a kind.
pub record IsStep (k : EventKind) (r : LendEventRow) (s s' : ReplayedState) : Type 0 where
  pub status :
      (txid : String)
      → OrderedMap.get txid s'.positions ≡ status_after txid k r (OrderedMap.get txid s.positions)
  pub balance :
      (supplier : String)
      → balance_of supplier s'.scaled_by_supplier
        ≡ balance_of supplier s.scaled_by_supplier
          +ℤ (if str_eq r.subject supplier then change_of k r.scaled_amount else zero_ℤ)
  pub total :
      sum_scaled s'.scaled_by_supplier
      ≡ sum_scaled s.scaled_by_supplier +ℤ change_of k r.scaled_amount
  pub closed : s'.repaid_in_full ≡ s.repaid_in_full ++ closed_by k r.subject

add_if_zero : (b : Bool) (x : ℤ) → x ≡ x +ℤ (if b then zero_ℤ else zero_ℤ)
add_if_zero true x = refl
add_if_zero false x = refl

same_before : (b : Bool) (o : Option ExpectedStatus) → o ≡ (if b then or_before none o else o)
unfolding or_before
same_before true o = refl
same_before false o = refl

set_status-IsStep :
    (k : EventKind) (r : LendEventRow) (status : ExpectedStatus) (s : ReplayedState)
    → status_given k ≡ some status
    → change_of k r.scaled_amount ≡ zero_ℤ
    → (txid : String)
    → OrderedMap.get txid (set_status r status s).positions
      ≡ status_after txid k r (OrderedMap.get txid s.positions)
unfolding set_status status_after or_before
set_status-IsStep k r status s given c txid =
    OrderedMap.get-set r.subject txid status s.positions ∙ rw (given) refl

add_scaled_balance :
    (k : EventKind) (r : LendEventRow) (d : ℤ) (s : ReplayedState)
    → change_of k r.scaled_amount ≡ d
    → (supplier : String)
    → balance_of supplier (
        OrderedMap.set r.subject
          (balance_of r.subject s.scaled_by_supplier +ℤ d)
          s.scaled_by_supplier)
      ≡ balance_of supplier s.scaled_by_supplier
        +ℤ (if str_eq r.subject supplier then change_of k r.scaled_amount else zero_ℤ)
add_scaled_balance k r d s c supplier =
    let m = s.scaled_by_supplier in
    balance_of-set r.subject supplier (balance_of r.subject m +ℤ d) m
    ∙ (elim (Bool-cases (str_eq r.subject supplier)) [
      | inl same ↦
          let e : r.subject ≡ supplier = (eq_iff r.subject supplier).0 same in
          rw (same) (ap (λ x. balance_of x m +ℤ d) e ∙ ap (λ x. balance_of supplier m +ℤ x) (sym c))
      | inr apart ↦ rw (apart) refl
    ])

add_scaled-IsStep :
    (k : EventKind) (r : LendEventRow) (d : ℤ) (s : ReplayedState)
    → status_given k ≡ none
    → change_of k r.scaled_amount ≡ d
    → closed_by k r.subject ≡ []
    → IsStep k r s (record s {
      scaled_by_supplier =
          OrderedMap.set r.subject
            (balance_of r.subject s.scaled_by_supplier +ℤ d)
            s.scaled_by_supplier;
    })
unfolding status_after
add_scaled-IsStep k r d s given c closed = record {
  status =
      λ txid. rw (given) (same_before (str_eq r.subject txid) (OrderedMap.get txid s.positions));
  balance = add_scaled_balance k r d s c;
  total =
      sum_scaled-set r.subject (balance_of r.subject s.scaled_by_supplier) d s.scaled_by_supplier
        refl
      ∙ ap (λ x. sum_scaled s.scaled_by_supplier +ℤ x) (sym c);
  closed = sym (ap (λ xs. s.repaid_in_full ++ xs) closed ∙ append-nil s.repaid_in_full);
}

pub apply_kind-IsStep :
    (k : EventKind) (r : LendEventRow) (s s' : ReplayedState)
    → apply_kind k r s ≡ some s'
    → IsStep k r s s'
unfolding apply_kind set_status close status_after status_given or_before change_of closed_by
    add_scaled or_zero
apply_kind-IsStep deposit r s s' h = subst (IsStep deposit r s) (some_injective h) (record {
  status = set_status-IsStep deposit r is_active s refl refl;
  balance = λ supplier. add_if_zero (str_eq r.subject supplier) _;
  total = refl;
  closed = sym (append-nil s.repaid_in_full);
})
apply_kind-IsStep repay_full r s s' h = subst (IsStep repay_full r s) (some_injective h) (record {
  status = set_status-IsStep repay_full r is_closed s refl refl;
  balance = λ supplier. add_if_zero (str_eq r.subject supplier) _;
  total = refl;
  closed = refl;
})
apply_kind-IsStep liquidate r s s' h = subst (IsStep liquidate r s) (some_injective h) (record {
  status = set_status-IsStep liquidate r is_liquidated s refl refl;
  balance = λ supplier. add_if_zero (str_eq r.subject supplier) _;
  total = refl;
  closed = sym (append-nil s.repaid_in_full);
})
apply_kind-IsStep supply r s s' h =
    let (scaled, e, h1) = >>=-some r.scaled_amount _ s' h in
    subst (IsStep supply r s) (some_injective h1)
      (add_scaled-IsStep supply r scaled s refl (ap or_zero e) refl)
apply_kind-IsStep withdraw r s s' h =
    let (scaled, e, h1) = >>=-some r.scaled_amount _ s' h in
    subst (IsStep withdraw r s) (some_injective h1)
      (add_scaled-IsStep withdraw r (neg_ℤ scaled) s refl (ap (λ x. neg_ℤ (or_zero x)) e) refl)
apply_kind-IsStep other r s s' h = subst (IsStep other r s) (some_injective h) (record {
  status = λ txid. same_before (str_eq r.subject txid) _;
  balance = λ supplier. add_if_zero (str_eq r.subject supplier) _;
  total = refl;
  closed = sym (append-nil s.repaid_in_full);
})
