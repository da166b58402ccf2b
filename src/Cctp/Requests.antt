-- ===== src/Cctp/Requests.antt =====
-- relayer/src/cctp/service.ts: the requests to the relay and the map of its jobs. A burn hash is one
-- that `normalizeBurnHash` has returned. What a job does before its first call happens when it is
-- launched, the rest when it ends.
use Prim.Native.String.{String}
use text.Mathlib.Text.{◌==◌ as str_eq}
use writz.Prelude.{
  ℕ, Bool, true, false, not, ◌&&◌, ◌||◌, List, [], ◌∷◌, none, some, leb, if◌then◌else◌, length,
}
use writz.Prelude.OrderedMap
use writz.Cctp.Store.{
  RelayRecord, sent, is_some, is_settled, is_retrying, is_failed, is_arrived, is_due, put,
  CctpRelayView, to_relay_view,
}
use writz.Cctp.Job.{World, ◌>>◌, return, RelayOptions}
use writz.Cctp.Service.{update, lookup_mint_again}
use writz.Cctp.Relay.{is_out_of_gas, reached, resuming, run, resume_failed, job}

-- What a job has left to do behind what it did when it was launched.
pub data Work : Type 0 where
  run_work : Work
  refill_work : RelayRecord → Work
  search_work : RelayRecord → Work

-- The relay's map of jobs, and beside it the jobs that do run, each with its burn: what the map is to
-- keep track of.
pub record Relay : Type 0 where
  pub world : World
  pub jobs : List (String × Work)
  pub running : List (String × Work)

-- What a request answers.
pub data Reply : Type 0 where
  view : CctpRelayView → Reply
  relay_busy : Reply
  not_found : Reply

-- What happens to the relay: requests, status calls, and jobs that end.
pub data Call : Type 0 where
  requested : String → Call
  asked : String → Call
  finished : String → Call

unfoldable pub reset_record : RelayRecord → ℕ → RelayRecord
reset_record r t = record r {
  state = reached r;
  failure = none;
  failure_code = none;
  retryable = false;
  retry_at = none;
  attempts = none;
  retrying_since = none;
  updated_at = t;
}

unfoldable pub new_record : String → ℕ → RelayRecord
new_record burn_hash t = record {
  burn_hash = burn_hash;
  state = sent;
  nonce = none;
  recipient = none;
  amount = none;
  fee_executed = none;
  message = none;
  attestation = none;
  mint_hash = none;
  minted_by = none;
  failure = none;
  failure_code = none;
  retryable = false;
  retry_at = none;
  attempts = none;
  retrying_since = none;
  created_at = t;
  updated_at = t;
  submitted_at = none;
}

-- `existing && (isRetrying(existing) || !(existing.state === "failed" && existing.retryable))`.
unfoldable pub is_kept : RelayRecord → Bool
is_kept r = is_retrying r || not (is_failed r.state && r.retryable)

unfoldable pub has_job : String → Relay → Bool
has_job key s = is_some (OrderedMap.get key s.jobs)

-- `launch`: no second job for a burn.
unfoldable pub launch : String → Work → Relay → Relay
launch key work s =
    if has_job key s
    then s
    else record s { jobs = OrderedMap.set key work s.jobs; running = (key, work) ∷ s.running }

-- The first of the jobs of a burn is over, and others of it go on.
unfoldable pub end_job : String → List (String × Work) → List (String × Work)
end_job key [] = []
end_job key ((k, work) ∷ running) =
    let rest = end_job key running in if str_eq k key then running else (k, work) ∷ rest

unfoldable pub answer_of : String → Relay → Reply
answer_of key s = elim (OrderedMap.get key s.world.records) [
  | none ↦ not_found
  | some r ↦ view (to_relay_view r)
]

module _ (opts : RelayOptions) where
  -- `resumeFailed` up to its first call: without the balance to ask for, the record is reset.
  unfoldable pub launch_resume : String → RelayRecord → Relay → Relay
  launch_resume key r s =
      if is_out_of_gas r.failure_code
      then launch key (refill_work r) s
      else let s' = launch key run_work s in
        record s' { world = (update opts r.burn_hash (resuming r) s.world).1 }

  -- `retry` of a record that is due.
  unfoldable pub retry_record : String → RelayRecord → Relay → Relay
  retry_record key r s =
      if has_job key s || leb opts.settings.max_open (length s.jobs)
      then s
      else if is_arrived r.state
      then launch key (search_work r) s
      else if is_retrying r
      then launch_resume key r s
      else s

  unfoldable pub retry : String → Relay → Relay
  retry key s = elim (OrderedMap.get key s.world.records) [
    | none ↦ s
    | some r ↦ if is_due s.world.time r then retry_record key r s else s
  ]

  -- `request` of a record that it keeps.
  unfoldable pub request_kept : String → RelayRecord → Relay → Reply × Relay
  request_kept key r s =
      let s' = if is_settled r then retry key s else launch key run_work s in (answer_of key s', s')

  -- `request` that starts a record, or starts it over.
  unfoldable pub request_new : String → RelayRecord → Relay → Reply × Relay
  request_new key r s = if leb opts.settings.max_open (length s.jobs) then (relay_busy, s) else (
    view (to_relay_view r),
    launch key run_work (record s { world = record s.world { records = put r s.world.records } }),
  )

  unfoldable pub request : String → Relay → Reply × Relay
  request key s = elim (OrderedMap.get key s.world.records) [
    | none ↦ request_new key (new_record key s.world.time) s
    | some r ↦
        if is_kept r then request_kept key r s else request_new key (reset_record r s.world.time) s
  ]

  unfoldable pub status : String → Relay → Reply × Relay
  status key s = elim (OrderedMap.get key s.world.records) [
    | none ↦ (not_found, s)
    | some r ↦ let s' = retry key s in (answer_of key s', s')
  ]

  unfoldable pub work_job : ℕ → String → Work → World → World
  work_job fuel key run_work w = (job opts key (run opts fuel key) w).1
  work_job fuel key (refill_work r) w = (job opts key (resume_failed opts fuel r) w).1
  work_job fuel key (search_work r) w = (job opts key (lookup_mint_again opts r >> return true) w).1

  -- A job runs to its end, and its burn leaves the map.
  unfoldable pub finish : ℕ → String → Relay → Relay
  finish fuel key s = elim (OrderedMap.get key s.running) [
    | none ↦ s
    | some work ↦ record {
      world = work_job fuel key work s.world;
      jobs = OrderedMap.delete key s.jobs;
      running = end_job key s.running;
    }
  ]

  unfoldable pub serve_one : ℕ → Call → Relay → Relay
  serve_one fuel (requested key) s = (request key s).1
  serve_one fuel (asked key) s = (status key s).1
  serve_one fuel (finished key) s = finish fuel key s

  unfoldable pub serve : ℕ → List Call → Relay → Relay
  serve fuel [] s = s
  serve fuel (call ∷ calls) s = serve fuel calls (serve_one fuel call s)
