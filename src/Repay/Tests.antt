-- ===== src/Repay/Tests.antt =====
-- A concrete run of the watcher.
use Prim.Native.String.{String}
use text.Mathlib.Text.{◌==◌ as str_eq}
use writz.Prelude.{ℕ, true, List, [], ◌∷◌, Option, none, some, if◌then◌else◌}
use writz.HeaderSync.{success}
use writz.Repay.Poller.{
  RepayEvent, Request, from_cursor, from_ledger, Response, PollCycleDeps, opened, run,
}
use writz.Repay.Attempts.{AreRetried, run-AreRetried}

abbrev chain : List RepayEvent
chain =
    (record { decodes = true; topic0 = some "repay_full"; txid = some "aa" })
    ∷ (record { decodes = true; topic0 = some "borrow"; txid = some "bb" })
    ∷ []

abbrev end_cursor : String
end_cursor = "0019652868403363840-0000000000"

-- The RPC of the example knows one cursor, which stands behind both events.
abbrev get_events : ℕ → Request → Option Response
get_events n (from_cursor c) =
    if str_eq c end_cursor then some (record { events = []; cursor = c }) else none
get_events n (from_ledger l) = some (record { events = chain; cursor = end_cursor })

abbrev position : String → ℕ
position c = 2

abbrev deps : PollCycleDeps
deps = record {
  contract_id = "lend";
  deploy_ledger = some 100;
  elapsed = λ n. 10;
  get_events = get_events;
  handle = λ n txid k. success tt;
  is_published = λ n txid. success true;
}

run-AreRetried_example : AreRetried deps (run deps (0 ∷ 10 ∷ []) (opened 1000))
run-AreRetried_example = run-AreRetried deps 1000 (0 ∷ 10 ∷ [])
