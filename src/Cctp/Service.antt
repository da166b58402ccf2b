-- ===== src/Cctp/Service.antt =====
-- relayer/src/cctp/service.ts: the relay's handling of one record, its retries and its mint.
use Prim.Native.String.{String, ◌++◌ as str_append}
use text.Mathlib.Text.{◌==◌ as str_eq}
use writz.Prelude.{
  ℕ, zero, suc, ◌+◌, ◌-◌, ◌*◌, ◌%◌, ◌^◌, min, max, Bool, true, false, ◌&&◌, Option, none, some, ltb,
  leb, if◌then◌else◌,
}
use writz.Prelude.OrderedMap
use writz.Cctp.Message.{Bytes}
use writz.Cctp.Store.{
  RelayRecord, arrived, failed, FailureCode, daily_cap, refused, mint_refused, gave_up, MintedBy,
  relay, other, is_some, truthy, put, or_else,
}
use writz.Cctp.Job.{
  Job, return, throw, ◌>>=◌, ◌>>◌, attempt, call, now, RelayOptions, ReceiptOutcome, success,
  revert, pending, MintLog,
}

abbrev pub day_ms : ℕ
day_ms = 24 * 60 * 60000

abbrev pub retry_initial_ms : ℕ
retry_initial_ms = 30000

abbrev pub retry_max_ms : ℕ
retry_max_ms = 15 * 60000

abbrev pub retry_give_up_ms : ℕ
retry_give_up_ms = 24 * 60 * 60000

-- UTC days all have `day_ms`.
unfoldable pub start_of_utc_day : ℕ → ℕ
start_of_utc_day t = t - t % day_ms

unfoldable pub retry_delay_ms : ℕ → ℕ
retry_delay_ms n = min (retry_initial_ms * 2 ^ max 0 (n - 1)) retry_max_ms

unfoldable pub is_daily_cap : FailureCode → Bool
is_daily_cap daily_cap = true
is_daily_cap _ = false

-- `code !== "refused" && code !== "mint_refused"`.
unfoldable pub starts_over : FailureCode → Bool
starts_over refused = false
starts_over mint_refused = false
starts_over _ = true

unfoldable pub failing : FailureCode → String → RelayRecord → RelayRecord
failing code reason r = record r {
  state = failed;
  retryable = starts_over code;
  failure = some reason;
  failure_code = some code;
  retry_at = none;
}

unfoldable pub counting : ℕ → ℕ → RelayRecord → RelayRecord
counting attempts since r = record r { attempts = some attempts; retrying_since = some since }

unfoldable pub scheduling : FailureCode → String → ℕ → ℕ → ℕ → RelayRecord → RelayRecord
scheduling code reason retry_at attempts since r = record r {
  state = failed;
  retryable = true;
  failure = some reason;
  failure_code = some code;
  retry_at = some retry_at;
  attempts = some attempts;
  retrying_since = some since;
}

-- When the next attempt is due.
unfoldable pub next_retry_at : FailureCode → ℕ → ℕ → ℕ
next_retry_at code t attempts =
    if is_daily_cap code then start_of_utc_day t + day_ms else t + retry_delay_ms attempts

unfoldable pub attempts_of : Option RelayRecord → ℕ
attempts_of none = 0
attempts_of (some r) = or_else r.attempts 0

unfoldable pub since_of : ℕ → Option RelayRecord → ℕ
since_of t none = t
since_of t (some r) = or_else r.retrying_since t

unfoldable pub arriving : Option String → MintedBy → Option ℕ → RelayRecord → RelayRecord
arriving mint_hash minted_by retry_at r = record r {
  state = arrived;
  mint_hash = mint_hash;
  minted_by = some minted_by;
  failure = none;
  failure_code = none;
  retryable = false;
  retry_at = retry_at;
  attempts = none;
  retrying_since = none;
}

unfoldable pub hash_of : Option MintLog → Option String
hash_of none = none
hash_of (some found) = some found.tx_hash

unfoldable pub searching : ℕ → Option ℕ → RelayRecord → RelayRecord
searching attempts retry_at r = record r { attempts = some attempts; retry_at = retry_at }

unfoldable pub lookup_record : String → Job (Option RelayRecord)
lookup_record burn_hash w = (some (OrderedMap.get burn_hash w.records), w)

unfoldable pub put_record : RelayRecord → Job (Unit {0})
put_record r w = (some tt, record w { records = put r w.records })

abbrev pub gave_up_reason : String → String
gave_up_reason reason =
    str_append "the relay stopped after 24 hours of retrying ("
      (str_append reason "); ask again to start over")

module _ (opts : RelayOptions) where
  unfoldable pub update_found : (RelayRecord → RelayRecord) → Option RelayRecord → Job RelayRecord
  update_found patch none = throw
  update_found patch (some r) = now opts >>= λ t.
      let next : RelayRecord = record (patch r) { updated_at = t } in put_record next >> return next

  unfoldable pub update : String → (RelayRecord → RelayRecord) → Job RelayRecord
  update burn_hash patch = lookup_record burn_hash >>= update_found patch

  unfoldable pub fail : String → FailureCode → String → Job (Unit {0})
  fail burn_hash code reason = update burn_hash (failing code reason) >> return tt

  -- `transient` of a record at a time.
  unfoldable pub transient_at :
      String → FailureCode → String → Option RelayRecord → ℕ → Job (Unit {0})
  transient_at burn_hash code reason current t =
      let since = since_of t current in
      let attempts = attempts_of current + 1 in
      if leb retry_give_up_ms (t - since)
      then (update burn_hash (counting attempts since)
          >> fail burn_hash gave_up (gave_up_reason reason))
      else (update burn_hash (scheduling code reason (next_retry_at code t attempts) attempts since)
          >> return tt)

  unfoldable pub transient : String → FailureCode → String → Job (Unit {0})
  transient burn_hash code reason =
      lookup_record burn_hash >>= λ current. now opts >>= transient_at burn_hash code reason current

  -- `arrived`.
  unfoldable pub set_arrived : String → Option String → MintedBy → Job (Unit {0})
  set_arrived burn_hash mint_hash minted_by =
      if truthy mint_hash
      then update burn_hash (arriving mint_hash minted_by none) >> return tt
      else (now opts >>= λ t.
          update burn_hash (arriving mint_hash minted_by (some (t + retry_initial_ms)))
          >> return tt)

  unfoldable pub is_nonce_used : Bytes → Job Bool
  is_nonce_used nonce = call opts (λ n. opts.chain.is_nonce_used n nonce)

  -- The `for` loop of `awaitReceipt`, with `waits` left.
  unfoldable pub await_receipt : ℕ → String → Job ReceiptOutcome
  await_receipt zero tx_hash = return pending
  await_receipt (suc waits) tx_hash =
      call opts (λ n. opts.chain.wait_for_receipt n tx_hash) >>= λ outcome. elim outcome [
        | success ↦ return success
        | revert ↦ return revert
        | pending ↦ await_receipt waits tx_hash
      ]

  unfoldable pub minted_by_of : Option MintLog → MintedBy
  minted_by_of none = other
  minted_by_of (some found) =
      if str_eq (opts.to_lower_case found.caller) (opts.to_lower_case opts.chain.address)
      then relay
      else other

  -- The second half of `findMintTx`.
  unfoldable pub find_on_indexer : Bytes → Job (Option MintLog)
  find_on_indexer nonce = elim opts.find_mint_on_indexer [
    | none ↦ return none
    | some search ↦
        attempt (call opts (λ n. search n nonce)) >>= λ answer. return (or_else answer none)
  ]

  unfoldable pub find_mint_tx : Bytes → Job (Option MintLog)
  find_mint_tx nonce = attempt (call opts (λ n. opts.chain.find_mint n nonce)) >>= λ answer.
      elim (or_else answer none) [ some found ↦ return (some found) | none ↦ find_on_indexer nonce ]

  unfoldable pub minted_elsewhere : String → Bytes → Job (Unit {0})
  minted_elsewhere burn_hash nonce =
      find_mint_tx nonce >>= λ found. set_arrived burn_hash (hash_of found) (minted_by_of found)

  unfoldable pub finding : MintLog → RelayRecord → RelayRecord
  finding found r = record r {
    mint_hash = some found.tx_hash;
    minted_by = some (minted_by_of (some found));
    retry_at = none;
    attempts = none;
  }

  -- No mint was found: another search, up to `MINT_LOOKUP_ATTEMPTS`.
  unfoldable pub search_later : RelayRecord → Job (Unit {0})
  search_later r =
      let attempts = or_else r.attempts 0 + 1 in
      if is_some r.nonce && ltb attempts 8
      then (now opts >>= λ t.
          update r.burn_hash (searching attempts (some (t + retry_delay_ms (attempts + 1))))
          >> return tt)
      else (update r.burn_hash (searching attempts none) >> return tt)

  unfoldable pub lookup_mint_again : RelayRecord → Job (Unit {0})
  lookup_mint_again r =
      elim r.nonce [ none ↦ return none | some nonce ↦ find_mint_tx nonce ] >>= λ answer.
      elim answer [
        | some found ↦ update r.burn_hash (finding found) >> return tt
        | none ↦ search_later r
      ]
