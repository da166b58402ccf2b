-- ===== src/Cctp/Retry.antt =====
-- The schedule of the relay's retries, and what the API reports of it.
use Prim.Native.String.{String}
use writz.Prelude.{
  ℕ, zero, suc, ◌+◌, ◌-◌, ◌*◌, ◌^◌, ◌≤◌, ◌<◌, min, max, ◌≡◌, ◌↔◌, true, none, some, arith,
}
use writz.Cctp.Store.{
  RelayRecord, arrived, failed, FailureCode, gave_up, is_some, is_failed, is_retrying, state_kind,
  view_kind, arrived_kind, failed_kind,
}
use writz.Cctp.Job.{World, RelayOptions}
use writz.Cctp.Service.{
  retry_delay_ms, retry_initial_ms, retry_max_ms, day_ms, since_of, attempts_of,
}

one_le_two_pow : (n : ℕ) → 1 ≤ 2 ^ n
one_le_two_pow zero = omega arith
one_le_two_pow (suc n) = omega (arith, one_le_two_pow n)

-- Every delay is between 30 seconds and 15 minutes, and the next is twice it, up to the 15 minutes.
pub retry_delay_ms-le :
    (n : ℕ)
    → (retry_initial_ms ≤ retry_delay_ms n)
      × (retry_delay_ms n ≤ retry_max_ms)
      × (retry_delay_ms (suc (suc n)) ≡ min (2 * retry_delay_ms (suc n)) retry_max_ms)
unfolding retry_delay_ms
retry_delay_ms-le n =
    let pos : 1 ≤ 2 ^ max 0 (n - 1) = one_le_two_pow (max 0 (n - 1)) in
    let e : max 0 (suc (suc n) - 1) ≡ suc n = omega arith in
    let e' : max 0 (suc n - 1) ≡ n = omega arith in
    (omega arith, omega arith, rw (e, e') (omega arith))

module _ (opts : RelayOptions) (key : String) where
  -- A record that is tried again: at a time to come, within a day.
  abbrev pub IsScheduled : FailureCode → RelayRecord → World → RelayRecord → Type 0
  IsScheduled code r w next =
      (next.state ≡ failed)
      × (next.failure_code ≡ some code)
      × (next.retryable ≡ true)
      × (next.attempts ≡ some (attempts_of (some r) + 1))
      × (next.retrying_since ≡ some (since_of w.time (some r)))
      × ((at : ℕ) × (next.retry_at ≡ some at) × (w.time < at) × (at ≤ w.time + day_ms))

  -- A record that the relay has given up on.
  abbrev pub IsGivenUp : RelayRecord → Type 0
  IsGivenUp next =
      (next.state ≡ failed)
      × (next.failure_code ≡ some gave_up)
      × (next.retryable ≡ true)
      × (next.retry_at ≡ none)

-- The answer says `failed` exactly for a record that failed with no retry due, and `arrived`
-- exactly for one that arrived.
pub view_kind_iff :
    (r : RelayRecord)
    → ((view_kind r ≡ failed_kind) ↔ ((r.state ≡ failed) × (r.retry_at ≡ none)))
      × ((view_kind r ≡ arrived_kind) ↔ (r.state ≡ arrived))
unfolding view_kind is_retrying is_failed state_kind is_some
view_kind_iff r = ground arith
