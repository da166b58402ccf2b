-- ===== src/Lend/Replay.antt =====
-- relayer/src/lend-rebuild/replay.ts and verify.ts: what the events say of the contract's state, and
-- its comparison with the contract. The contract's views are parameters, which answer the n-th call as
-- they like.
use Prim.Native.String.{String}
use text.Mathlib.Text.{◌==◌ as str_eq}
use mathlib.Core.Nat
use mathlib.Core.Int.{ℤ, pos, negsuc, ◌+ℤ◌, ◌-ℤ◌}
use writz.Prelude.{
  ℕ, suc, Bool, true, false, List, [], ◌∷◌, ◌++◌, Option, none, some, ◌>>=◌, if◌then◌else◌, ◌+◌,
  length,
}
use writz.Prelude.OrderedMap
use writz.Lend.Archive.{LendEventRow}

abbrev pub zero_ℤ : ℤ
zero_ℤ = pos Nat.zero

pub data ExpectedStatus : Type 0 where
  is_active : ExpectedStatus
  is_closed : ExpectedStatus
  is_liquidated : ExpectedStatus

pub record ReplayedState : Type 0 where
  pub positions : List (String × ExpectedStatus)
  pub scaled_by_supplier : List (String × ℤ)
  pub total_scaled : ℤ
  pub repaid_in_full : List String

abbrev pub no_events : ReplayedState
no_events = record {
  positions = [];
  scaled_by_supplier = [];
  total_scaled = zero_ℤ;
  repaid_in_full = [];
}

unfoldable pub set_status : LendEventRow → ExpectedStatus → ReplayedState → ReplayedState
set_status r status s = record s { positions = OrderedMap.set r.subject status s.positions }

unfoldable pub close : LendEventRow → ReplayedState → ReplayedState
close r s = record (set_status r is_closed s) {
  repaid_in_full = s.repaid_in_full ++ r.subject ∷ [];
}

-- `?? 0n`.
unfoldable pub or_zero : Option ℤ → ℤ
or_zero none = zero_ℤ
or_zero (some scaled) = scaled

unfoldable pub balance_of : String → List (String × ℤ) → ℤ
balance_of supplier balances = or_zero (OrderedMap.get supplier balances)

-- `none` is an event without an amount, which throws.
unfoldable pub add_scaled : LendEventRow → (ℤ → ℤ → ℤ) → ReplayedState → Option ReplayedState
add_scaled r op s = do
  scaled ← r.scaled_amount
  some (record s {
    scaled_by_supplier =
        OrderedMap.set r.subject (op (balance_of r.subject s.scaled_by_supplier) scaled)
          s.scaled_by_supplier;
  })

-- The cases of the switch.
pub data EventKind : Type 0 where
  deposit : EventKind
  repay_full : EventKind
  liquidate : EventKind
  supply : EventKind
  withdraw : EventKind
  other : EventKind

unfoldable pub kind_of : String → EventKind
kind_of name =
    if str_eq name "deposit"
    then deposit
    else if str_eq name "repay_full"
    then repay_full
    else if str_eq name "liquidate"
    then liquidate
    else if str_eq name "supply"
    then supply
    else if str_eq name "withdraw"
    then withdraw
    else other

unfoldable pub apply_kind : EventKind → LendEventRow → ReplayedState → Option ReplayedState
apply_kind deposit r s = some (set_status r is_active s)
apply_kind repay_full r s = some (close r s)
apply_kind liquidate r s = some (set_status r is_liquidated s)
apply_kind supply r s = add_scaled r (λ a b. a +ℤ b) s
apply_kind withdraw r s = add_scaled r (λ a b. a -ℤ b) s
apply_kind other r s = some s

-- The body of the loop.
unfoldable pub apply_event : LendEventRow → ReplayedState → Option ReplayedState
apply_event r s = apply_kind (kind_of r.name) r s

unfoldable pub apply_events : List LendEventRow → ReplayedState → Option ReplayedState
apply_events [] s = some s
apply_events (r ∷ rows) s = apply_event r s >>= apply_events rows

unfoldable pub sum_scaled : List (String × ℤ) → ℤ
sum_scaled [] = zero_ℤ
sum_scaled ((supplier, scaled) ∷ balances) = scaled +ℤ sum_scaled balances

unfoldable pub replay : List LendEventRow → Option ReplayedState
replay rows = do
  s ← apply_events rows no_events
  some (record s { total_scaled = sum_scaled s.scaled_by_supplier })

-- `none` is a call that rejects.
pub record LendChainReader : Type 0 where
  pub position_status : ℕ → String → Option (Option String)
  pub scaled_supply : ℕ → String → Option ℤ
  pub total_scaled_supply : ℕ → Option ℤ
  pub has_release : ℕ → String → Option Bool

unfoldable pub status_text : ExpectedStatus → String
status_text is_active = "Active"
status_text is_closed = "Closed"
status_text is_liquidated = "Liquidated"

unfoldable pub same_status : Option String → ExpectedStatus → Bool
same_status none expected = false
same_status (some status) expected = str_eq status (status_text expected)

unfoldable pub same_natural : Nat.ℕ → Nat.ℕ → Bool
same_natural Nat.zero Nat.zero = true
same_natural (Nat.suc a) (Nat.suc b) = same_natural a b
same_natural _ _ = false

unfoldable pub same_scaled : ℤ → ℤ → Bool
same_scaled (pos a) (pos b) = same_natural a b
same_scaled (negsuc a) (negsuc b) = same_natural a b
same_scaled _ _ = false

-- What a check finds: agreement, a difference or an error.
pub data Check : Type 0 where
  agrees : Check
  differs : Check
  rejects : Check

pub data VerifyResult : Type 0 where
  mismatch : VerifyResult
  missing_releases : List String → VerifyResult
  unread : VerifyResult

-- An answer against what is expected.
unfoldable pub judge {ℓ} : {V : Type ℓ} → (V → Bool) → Option V → Check
judge test none = rejects
judge test (some value) = if test value then agrees else differs

-- A loop stops where it does not agree, with the number of the next call.
unfoldable pub and_check : Check → ℕ → Check × ℕ → Check × ℕ
and_check agrees n rest = rest
and_check differs n rest = (differs, n)
and_check rejects n rest = (rejects, n)

-- The loop over a map.
unfoldable pub check_all {ℓ} :
    {V : Type ℓ} → (ℕ → String → V → Check) → ℕ → List (String × V) → Check × ℕ
check_all check n [] = (agrees, n)
check_all check n ((key, value) ∷ entries) =
    and_check (check n key value) (suc n) (check_all check (suc n) entries)

unfoldable pub and_verify : Check → ℕ → VerifyResult × ℕ → VerifyResult × ℕ
and_verify agrees n rest = rest
and_verify differs n rest = (mismatch, n)
and_verify rejects n rest = (unread, n)

module _ (chain : LendChainReader) where
  unfoldable pub check_position : ℕ → String → ExpectedStatus → Check
  check_position n txid expected =
      judge (λ status. same_status status expected) (chain.position_status n txid)

  unfoldable pub check_supplier : ℕ → String → ℤ → Check
  check_supplier n supplier expected =
      judge (λ scaled. same_scaled scaled expected) (chain.scaled_supply n supplier)

  unfoldable pub check_total : ℕ → ℤ → Check
  check_total n expected = judge (λ total. same_scaled total expected) (chain.total_scaled_supply n)

  unfoldable pub find_missing : ℕ → List String → Option (List String)
  find_missing n [] = some []
  find_missing n (txid ∷ txids) = do
    has ← chain.has_release n txid
    missing ← find_missing (suc n) txids
    some (if has then missing else txid ∷ missing)

  unfoldable pub verify_releases : ℕ → ReplayedState → VerifyResult × ℕ
  verify_releases n s = elim (find_missing n s.repaid_in_full) [
    | none ↦ (unread, n)
    | some missing ↦ (missing_releases missing, n + length s.repaid_in_full)
  ]

  unfoldable pub verify_balances : ℕ → ReplayedState → VerifyResult × ℕ
  verify_balances n s =
      let (check, n') = check_all check_supplier n s.scaled_by_supplier in
      and_verify check n'
        (and_verify (check_total n' s.total_scaled) (suc n') (verify_releases (suc n') s))

  -- `verifyAgainstChain` from the n-th call on, with the number of the next call. The text that names
  -- the difference is left out.
  unfoldable pub verify_against_chain : ℕ → ReplayedState → VerifyResult × ℕ
  verify_against_chain n s =
      let (check, n') = check_all check_position n s.positions in
      and_verify check n' (verify_balances n' s)
