-- ===== src/HeaderSync/Tests.antt =====
-- Runs of the header sync on small ranges.
use writz.Prelude.{
  ℕ, ◌≡◌, refl, Bool, true, List, [], ◌∷◌, Option, none, some, arith, ltb, length, if◌then◌else◌,
}
use writz.HeaderSync.{
  HeaderBatch, Attempt, success, failure, returned, rejected, plan_header_batches, plan_from,
  sync_headers, sync_batches, fetch_headers, with_backoff, backoff_from,
}
use writz.HeaderSync.Plan.{IsPlan, plan_header_batches-IsPlan}
use writz.HeaderSync.Sync.{Progress, sync_headers-Progress}
use writz.HeaderSync.Backoff.{Settled, with_backoff-Settled}

-- Every height has a header, its number.
abbrev header_at : ℕ → Option ℕ
header_at h = some h

-- The contract takes two batches and refuses the next.
abbrev two_batches : List (List ℕ) → List ℕ → Bool
two_batches log headers = ltb (length log) 2

sync_test :
    sync_headers header_at two_batches 10 13 2 []
    ≡ ((10 ∷ 11 ∷ []) ∷ (12 ∷ 13 ∷ []) ∷ [], returned (some 13))
unfolding sync_headers sync_batches fetch_headers plan_header_batches plan_from
sync_test = refl

sync_refused_test :
    sync_headers header_at two_batches 10 14 2 [] ≡ ((10 ∷ 11 ∷ []) ∷ (12 ∷ 13 ∷ []) ∷ [], rejected)
unfolding sync_headers sync_batches fetch_headers plan_header_batches plan_from
sync_refused_test = refl

plan_header_batches-IsPlan_example :
    (bs : List HeaderBatch) × (plan_header_batches 10 14 2 ≡ some bs) × IsPlan 10 14 2 bs
plan_header_batches-IsPlan_example = plan_header_batches-IsPlan 10 14 2 (omega arith)

sync_headers-Progress_example :
    Progress header_at 10 14 none [] (sync_headers header_at two_batches 10 14 2 [])
sync_headers-Progress_example = sync_headers-Progress header_at two_batches 10 14 2 [] (omega arith)

-- Two failures, then a result.
abbrev third_call : ℕ → Attempt ℕ ℕ
third_call k = if ltb k 2 then failure 429 else success k

abbrev any_error : ℕ → Bool
any_error e = true

backoff_test : with_backoff third_call any_error 5 1000 ≡ some (success 2, 1000 ∷ 2000 ∷ [])
unfolding with_backoff backoff_from
backoff_test = refl

with_backoff-Settled_example :
    (r : Attempt ℕ ℕ × List ℕ) × (with_backoff third_call any_error 5 1000 ≡ some r)
    × Settled third_call any_error 5 1000 0 [] r
with_backoff-Settled_example = with_backoff-Settled third_call any_error 5 1000
