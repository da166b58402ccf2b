-- ===== src/Repay/Poller.antt =====
-- relayer/src/repay-watcher/poller.ts: reading the repayments and publishing what is owed. The RPC,
-- the publishing and the check of the contract are parameters, which answer the n-th call as they
-- like; an event is what its topics decode to. A crash leaves the store.
use Prim.Native.String.{String}
use text.Mathlib.Text.{◌==◌ as str_eq}
use writz.Prelude.{
  ℕ, suc, ◌+◌, ◌&&◌, Bool, true, false, List, [], ◌∷◌, ◌++◌, Option, none, some, if◌then◌else◌,
  take,
}
use writz.HeaderSync.{Attempt, success, failure, with_backoff}
use writz.Repay.Store.{Row, ReleaseStore, record_batch, due, mark_failed, remove}

-- `decodeRepayFullEvent` of an event, which may throw.
pub record RepayEvent : Type 0 where
  pub decodes : Bool
  pub topic0 : Option String
  pub txid : Option String

pub data Request : Type 0 where
  from_cursor : String → Request
  from_ledger : ℕ → Request

pub record Response : Type 0 where
  pub events : List RepayEvent
  pub cursor : String

-- `none` is a call that rejects.
pub record PollCycleDeps : Type 0 where
  pub contract_id : String
  pub deploy_ledger : Option ℕ
  pub elapsed : ℕ → ℕ
  pub get_events : ℕ → Request → Option Response
  -- One attempt of `handleRepayFull`: the error's first line, or nothing.
  pub handle : ℕ → String → ℕ → Attempt (Unit {0}) String
  pub is_published : ℕ → String → Attempt Bool String

-- The watcher, with the releases that it has removed because the contract showed them.
pub record Watcher : Type 0 where
  pub calls : ℕ
  pub time : ℕ
  pub store : ReleaseStore
  pub published : List String

abbrev pub repay_full_topic : String
repay_full_topic = "repay_full"

-- The loop over an answer's events.
unfoldable pub repaid_of : RepayEvent → List String
repaid_of event = elim event.topic0 [
  | none ↦ []
  | some topic0 ↦ elim event.txid [
    | none ↦ []
    | some txid ↦ if str_eq topic0 repay_full_topic then txid ∷ [] else []
  ]
]

unfoldable pub repaid : List RepayEvent → List String
repaid [] = []
repaid (event ∷ events) = repaid_of event ++ repaid events

unfoldable pub all_decode : List RepayEvent → Bool
all_decode [] = true
all_decode (event ∷ events) = event.decodes && all_decode events

-- A watcher whose database is new.
unfoldable pub opened : ℕ → Watcher
opened t = record {
  calls = 0;
  time = t;
  store = record { cursor = none; rows = [] };
  published = [];
}

abbrev pub publish_retries : ℕ
publish_retries = 2

abbrev pub publish_retry_base_delay_ms : ℕ
publish_retry_base_delay_ms = 2000

-- What a row's publishing comes to: published, or the message of an error.
pub data Outcome : Type 0 where
  shown : Outcome
  failed : String → Outcome

unfoldable pub on_check : Attempt Bool String → Outcome
on_check (success true) = shown
on_check (success false) = failed "published, but the release is not visible on chain yet"
on_check (failure e) = failed e

module _ (deps : PollCycleDeps) where
  unfoldable pub tick : Watcher → Watcher
  tick w = record w { calls = suc w.calls; time = w.time + deps.elapsed w.calls }

  -- What is asked, or nothing where the cycle throws at once.
  unfoldable pub request_of : Option String → Option Request
  request_of (some cursor) = some (from_cursor cursor)
  request_of none = elim deps.deploy_ledger [
    | none ↦ none
    | some ledger ↦ some (from_ledger ledger)
  ]

  unfoldable pub on_response : Option Response → Watcher → Bool × Watcher
  on_response none w = (false, w)
  on_response (some response) w =
      if all_decode response.events
      then elim (record_batch deps.contract_id (repaid response.events) response.cursor w.time
          w.store) [ none ↦ (false, w) | some store ↦ (true, record w { store = store }) ]
      else (false, w)

  -- `runPollCycle`, and whether it ends without an error.
  unfoldable pub run_poll_cycle : Watcher → Bool × Watcher
  run_poll_cycle w = elim (request_of w.store.cursor) [
    | none ↦ (false, w)
    | some request ↦ on_response (deps.get_events w.calls request) (tick w)
  ]

  -- `withPromptRetry` of the handler: every error is retried.
  unfoldable pub prompt_retry : ℕ → String → Option (Attempt (Unit {0}) String × List ℕ)
  prompt_retry n txid =
      with_backoff (deps.handle n txid) (λ e. true) publish_retries publish_retry_base_delay_ms

  -- The `try` block up to `remove`. Backoff ends, so that its missing case does not arise.
  unfoldable pub on_publish : ℕ → String → Option (Attempt (Unit {0}) String × List ℕ) → Outcome
  on_publish n txid none = failed ""
  on_publish n txid (some (failure e, slept)) = failed e
  on_publish n txid (some (success done, slept)) = on_check (deps.is_published n txid)

  unfoldable pub settle_row : String → Outcome → Watcher → Watcher
  settle_row txid shown w = record w {
    store = remove deps.contract_id txid w.store;
    published = txid ∷ w.published;
  }
  settle_row txid (failed message) w = record w {
    store = mark_failed deps.contract_id txid message w.time w.store;
  }

  unfoldable pub publish_row : String → Watcher → Watcher
  publish_row txid w =
      let w' = tick w in
      settle_row txid (on_publish w'.calls txid (prompt_retry w.calls txid)) (tick w')

  unfoldable pub publish_rows : List Row → Watcher → Watcher
  publish_rows [] w = w
  publish_rows (r ∷ rows) w = publish_rows rows (publish_row r.txid w)

  -- `runReleaseSweep`, cut off after `n` rows by a crash, or not at all.
  unfoldable pub run_release_sweep : ℕ → Watcher → Watcher
  run_release_sweep n w = publish_rows (take n (due deps.contract_id w.time w.store)) w

  -- A turn of the loop, which may crash behind `n` rows.
  unfoldable pub turn : ℕ → Watcher → Watcher
  turn n w =
      let (went_well, w') = run_poll_cycle w in if went_well then run_release_sweep n w' else w'

  unfoldable pub run : List ℕ → Watcher → Watcher
  run [] w = w
  run (n ∷ turns) w = run turns (tick (turn n w))
