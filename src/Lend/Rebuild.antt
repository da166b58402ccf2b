-- ===== src/Lend/Rebuild.antt =====
-- relayer/src/lend-rebuild/rebuild.ts: the replay into a temporary store, its check and the swap. The
-- file operations succeed; the database of the releases may fail to open.
use Prim.Native.String.{String}
use mathlib.Core.Int.{ℤ}
use writz.Prelude.{
  ℕ, zero, suc, ◌+◌, ◌*◌, ◌/◌, ◌-◌, ◌^◌, Bool, true, false, not, ◌&&◌, List, [], ◌∷◌, Option, none,
  some, leb, ◌==◌, if◌then◌else◌, length, ◌>>=◌, ◌>>◌, require,
}
use writz.Repay.Poller.{Request}
use writz.Repay.Store.{ReleaseStore, record_batch, codes, all_digits}
use writz.Lend.Archive.{LendEventRow, LendEventStore, opened, commit, list_events}
use writz.Lend.Poller.{
  Response, LendEventsCycleDeps, CycleEnd, at_tip, at_limit, failed, Reader, run_lend_events_cycle,
}
use writz.Lend.Replay.{
  ReplayedState, replay, LendChainReader, VerifyResult, mismatch, missing_releases, unread,
  verify_against_chain,
}

abbrev pub max_verify_rounds : ℕ
max_verify_rounds = 5

abbrev pub max_cycles : ℕ
max_cycles = 1000

pub record ArchiveSource : Type 0 where
  pub rows : List LendEventRow
  pub cursor : String

pub record RebuildDeps : Type 0 where
  pub get_events : ℕ → Request → Option Response
  pub ledger_range : Option (ℕ × ℕ)
  pub chain : LendChainReader
  pub contract_id : String
  pub deploy_ledger : ℕ
  pub opens_releases : Bool
  pub archive : Option ArchiveSource
  pub dry_run : Bool
  pub now : ℕ

pub record RebuildReport : Type 0 where
  pub events : ℕ
  pub positions : ℕ
  pub suppliers : ℕ
  pub total_scaled : ℤ
  pub repaid_in_full : ℕ
  pub missing : List String
  pub swapped : Bool

-- The live data: the archive and the pending releases.
pub record Live : Type 0 where
  pub archive : LendEventStore
  pub releases : ReleaseStore

-- A report, a `RebuildMismatch` or another error.
pub data Result : Type 0 where
  done : RebuildReport → Result
  disagreed : Result
  threw : Result

-- What the rounds come to.
pub data Quiet : Type 0 where
  quiet : LendEventStore → ReplayedState → List String → Quiet
  differing : Quiet
  gave_up : Quiet

unfoldable pub before_dash : List ℕ → List ℕ
before_dash [] = []
before_dash (c ∷ cs) = let rest = before_dash cs in if c == b'-' then [] else c ∷ rest

unfoldable pub read_decimal : ℕ → List ℕ → ℕ
read_decimal acc [] = acc
read_decimal acc (c ∷ cs) = read_decimal (acc * 10 + (c - b'0')) cs

-- `ledgerOfCursor`; what else `BigInt` reads, a commit of the cursor would refuse.
unfoldable pub ledger_of_cursor : String → Option ℕ
ledger_of_cursor cursor =
    let digits = before_dash (codes cursor) in
    if all_digits digits then some (read_decimal 0 digits / 2 ^ 32) else none

-- How a cycle's end goes on: at the page limit there is another cycle.
unfoldable pub after_cycle : CycleEnd → Reader → Option Reader → Option Reader
after_cycle at_tip r rest = some r
after_cycle at_limit r rest = rest
after_cycle failed r rest = none

unfoldable pub settle : LendEventStore → ReplayedState → VerifyResult → Quiet
settle store state mismatch = differing
settle store state unread = gave_up
settle store state (missing_releases missing) = quiet store state missing

unfoldable pub is_read : VerifyResult → Bool
is_read unread = false
is_read _ = true

unfoldable pub can_resume : ℕ → ℕ → Option ℕ → Bool
can_resume oldest latest none = false
can_resume oldest latest (some resume) = leb oldest resume && leb resume latest

-- RPC can serve all from the deployment on, or what is behind the file.
unfoldable pub is_served : ℕ → Option ArchiveSource → ℕ → ℕ → Bool
is_served deploy_ledger none oldest latest = leb oldest deploy_ledger
is_served deploy_ledger (some source) oldest latest =
    can_resume oldest latest (ledger_of_cursor source.cursor)

unfoldable pub start_store : Option ArchiveSource → Option LendEventStore
start_store none = some opened
start_store (some source) = commit source.rows source.cursor opened

module _ (deps : RebuildDeps) where
  abbrev pub cycle_deps : LendEventsCycleDeps
  cycle_deps = record {
    contract_id = deps.contract_id;
    deploy_ledger = some deps.deploy_ledger;
    get_events = deps.get_events;
  }

  -- The loop, with the cycles that are left.
  unfoldable pub catch_up_from : ℕ → Reader → Option Reader
  catch_up_from zero r = none
  catch_up_from (suc cycles) r =
      let (end, r') = run_lend_events_cycle cycle_deps r in
      after_cycle end r' (catch_up_from cycles r')

  unfoldable pub catch_up : Reader → Option Reader
  catch_up r = catch_up_from max_cycles r

  abbrev pub listed : LendEventStore → List LendEventRow
  listed s = list_events deps.contract_id s

  -- The views and the second replay of a round: an error, or what the views said and the store then.
  unfoldable pub view_round : Reader → ReplayedState → Option (VerifyResult × Reader)
  view_round r state = do
    let (result, calls) = verify_against_chain deps.chain r.calls state
    require (is_read result)
    r' ← catch_up (record r { calls = calls })
    some (result, r')

  unfoldable pub verify_round : Reader → Option (ReplayedState × VerifyResult × Reader)
  verify_round r = do
    state ← replay (listed r.store)
    (result, r') ← view_round r state
    some (state, result, r')

  -- The rounds that are left.
  unfoldable pub verify_rounds : ℕ → Reader → Quiet
  verify_rounds zero r = gave_up
  verify_rounds (suc rounds) r = elim (verify_round r) [
    | none ↦ gave_up
    | some (state, result, r') ↦
        let again = verify_rounds rounds r' in
        if length (listed r'.store) == length (listed r.store)
        then settle r'.store state result
        else again
  ]

  unfoldable pub report_of : LendEventStore → ReplayedState → List String → RebuildReport
  report_of store state missing = record {
    events = length (listed store);
    positions = length state.positions;
    suppliers = length state.scaled_by_supplier;
    total_scaled = state.total_scaled;
    repaid_in_full = length state.repaid_in_full;
    missing = missing;
    swapped = not deps.dry_run;
  }

  -- The releases are recorded behind the renaming of the archive.
  unfoldable pub record_releases : RebuildReport → String → Live → Result × Live
  record_releases report cursor live =
      if deps.opens_releases
      then elim (record_batch deps.contract_id report.missing cursor deps.now live.releases) [
        | none ↦ (threw, live)
        | some releases ↦ (done report, record live { releases = releases })
      ]
      else (threw, live)

  unfoldable pub replace : Option String → LendEventStore → RebuildReport → Live → Result × Live
  replace none store report live = (threw, live)
  replace (some cursor) store report live =
      record_releases report cursor (record live { archive = store })

  unfoldable pub swap : LendEventStore → RebuildReport → Live → Result × Live
  swap store report live =
      if deps.dry_run then (done report, live) else replace store.cursor store report live

  unfoldable pub on_quiet : Quiet → Live → Result × Live
  on_quiet gave_up live = (threw, live)
  on_quiet differing live = (disagreed, live)
  on_quiet (quiet store state missing) live = swap store (report_of store state missing) live

  unfoldable pub rebuild_from : LendEventStore → Live → Result × Live
  rebuild_from store live = elim (catch_up (record { calls = 0; store = store })) [
    | none ↦ (threw, live)
    | some r ↦ on_quiet (verify_rounds max_verify_rounds r) live
  ]

  unfoldable pub on_start : Option LendEventStore → Live → Result × Live
  on_start none live = (threw, live)
  on_start (some store) live = rebuild_from store live

  unfoldable pub on_range : Option (ℕ × ℕ) → Live → Result × Live
  on_range none live = (threw, live)
  on_range (some (oldest, latest)) live =
      if is_served deps.deploy_ledger deps.archive oldest latest
      then on_start (start_store deps.archive) live
      else (threw, live)

  unfoldable pub rebuild_lend_state : Live → Result × Live
  rebuild_lend_state live = on_range deps.ledger_range live
