-- ===== src/Lend/Safe.antt =====
-- A rebuild changes the live data only where the contract agreed with all of the replay.
use Prim.Native.String.{String}
use writz.Prelude.{
  ℕ, ◌≤◌, ◌≡◌, refl, sym, subst, Bool, true, false, ◌||◌, List, Option, none, some, ◌⊎◌,
  if◌then◌else◌, arith, Bool-cases, Option-cases, some_injective, inl, inr,
}
use writz.Repay.Rows.{member, has_row-insert_rows}
use writz.Repay.Store.{has_row, insert_rows, record_batch, write_cursor, is_valid_cursor}
use writz.Lend.Archive.{LendEventStore, opened}
use writz.Lend.Poller.{Reader}
use writz.Lend.Replay.{ReplayedState}
use writz.Lend.Rebuild.{
  ArchiveSource, RebuildDeps, RebuildReport, Live, Result, done, disagreed, threw, Quiet, quiet,
  differing, gave_up, ledger_of_cursor, can_resume, is_served, start_store, catch_up_from, catch_up,
  verify_rounds, report_of, record_releases, swap, on_quiet, rebuild_from, rebuild_lend_state,
  on_range, on_start, replace, max_cycles, max_verify_rounds,
}
use writz.Lend.Growth.{HasValid, commit-Follows}
use writz.Lend.Quiet.{IsChecked, catch_up_from-Follows, verify_rounds-IsChecked}

-- RPC serves all that is behind the deployment, or behind the archive file.
abbrev pub IsServed : ℕ → Option ArchiveSource → ℕ → ℕ → Type 0
IsServed deploy_ledger none oldest latest = oldest ≤ deploy_ledger
IsServed deploy_ledger (some source) oldest latest =
    (resume : ℕ) × (ledger_of_cursor source.cursor ≡ some resume)
    × (oldest ≤ resume)
    × (resume ≤ latest)

-- What a report rests on: RPC served every event, the contract agreed with their replay, and the
-- report counts what was replayed.
pub record IsRebuilt (deps : RebuildDeps) (store : LendEventStore) (report : RebuildReport)
    : Type 0 where
  pub range : ℕ × ℕ
  pub range_eq : deps.ledger_range ≡ some range
  pub served : IsServed deps.deploy_ledger deps.archive range.0 range.1
  pub state : ReplayedState
  pub checked : IsChecked deps store state report.missing
  pub reported : report ≡ report_of deps store state report.missing

-- The live data behind a swap: the archive is the rebuilt one, the repay watcher goes on from its
-- cursor, each missing release is pending, and so is what was pending before.
pub record IsSwapped (deps : RebuildDeps) (store : LendEventStore) (report : RebuildReport)
    (live live' : Live) : Type 0 where
  pub archive_eq : live'.archive ≡ store
  pub cursor_eq : live'.releases.cursor ≡ store.cursor
  pub pending :
      (t : String)
      → has_row deps.contract_id t live'.releases.rows
        ≡ (has_row deps.contract_id t live.releases.rows || member t report.missing)

abbrev pub IsSafe : RebuildDeps → Live → Result × Live → Type 0
IsSafe deps live (done report, live') =
    (store : LendEventStore) × IsRebuilt deps store report
    × (((deps.dry_run ≡ true) × (live' ≡ live)) ⊎ IsSwapped deps store report live live')
IsSafe deps live (disagreed, live') = live' ≡ live
IsSafe deps live (threw, live') =
    (live'.releases ≡ live.releases)
    × ((live'.archive ≡ live.archive) ⊎ (deps.opens_releases ≡ false))

can_resume_lem :
    (oldest latest : ℕ) (ledger : Option ℕ)
    → can_resume oldest latest ledger ≡ true
    → (resume : ℕ) × (ledger ≡ some resume) × (oldest ≤ resume) × (resume ≤ latest)
unfolding can_resume
can_resume_lem oldest latest none h = absurd (ground arith)
can_resume_lem oldest latest (some resume) h = (resume, refl, ground arith, ground arith)

is_served-IsServed :
    (deploy_ledger : ℕ) (archive : Option ArchiveSource) (oldest latest : ℕ)
    → is_served deploy_ledger archive oldest latest ≡ true
    → IsServed deploy_ledger archive oldest latest
unfolding is_served
is_served-IsServed deploy_ledger none oldest latest h = ground arith
is_served-IsServed deploy_ledger (some source) oldest latest h =
    can_resume_lem oldest latest (ledger_of_cursor source.cursor) h

start_store-HasValid :
    (archive : Option ArchiveSource) (store : LendEventStore)
    → start_store archive ≡ some store
    → HasValid store.cursor
unfolding start_store
start_store-HasValid none store h =
    subst (λ (s : LendEventStore). HasValid s.cursor) (some_injective h) tt
start_store-HasValid (some source) store h =
    (commit-Follows source.rows source.cursor opened store h).keeps_valid tt

module _ (deps : RebuildDeps) (live : Live) where
  record_releases-IsSafe :
      (store : LendEventStore) (report : RebuildReport) (cursor : String)
      → IsRebuilt deps store report
      → is_valid_cursor cursor ≡ true
      → store.cursor ≡ some cursor
      → IsSafe deps live (record_releases deps report cursor (record live { archive = store }))
  unfolding record_releases record_batch write_cursor
  record_releases-IsSafe store report cursor b v c =
      let replaced : Live = record live { archive = store } in
      let rows = insert_rows deps.contract_id deps.now report.missing live.releases.rows in
      let recorded : Live = record replaced {
        releases = record { cursor = some cursor; rows = rows };
      } in
      elim (Bool-cases deps.opens_releases) [
        | inl opens ↦
            let e : record_releases deps report cursor replaced ≡ (done report, recorded) =
              rw (record_releases, opens, v) refl in
            subst (IsSafe deps live) (sym e) (
              store,
              b,
              inr (record {
                archive_eq = refl;
                cursor_eq = sym c;
                pending = λ t.
                    has_row-insert_rows deps.contract_id t deps.now report.missing
                      live.releases.rows;
              }),
            )
        | inr fails ↦
            let e : record_releases deps report cursor replaced ≡ (threw, replaced) =
              rw (record_releases, fails) refl in
            subst (IsSafe deps live) (sym e) (refl, inr fails)
      ]

  replace-IsSafe :
      (cursor : Option String) (store : LendEventStore) (report : RebuildReport)
      → IsRebuilt deps store report
      → HasValid cursor
      → store.cursor ≡ cursor
      → IsSafe deps live (replace deps cursor store report live)
  unfolding replace
  replace-IsSafe none store report b v c = (refl, inl refl)
  replace-IsSafe (some cursor) store report b v c = record_releases-IsSafe store report cursor b v c

  swap-IsSafe :
      (store : LendEventStore) (report : RebuildReport)
      → IsRebuilt deps store report
      → HasValid store.cursor
      → IsSafe deps live (swap deps store report live)
  unfolding swap
  swap-IsSafe store report b v =
      let choose : Bool → Result × Live =
        λ dry. if dry then (done report, live) else replace deps store.cursor store report live in
      elim (Bool-cases deps.dry_run) [
        | inl dry ↦ subst (λ d. IsSafe deps live (choose d)) (sym dry) (store, b, inl (dry, refl))
        | inr wet ↦
            subst (λ d. IsSafe deps live (choose d)) (sym wet)
              (replace-IsSafe store.cursor store report b v refl)
      ]

  on_quiet-IsSafe :
      (range : ℕ × ℕ) (q : Quiet)
      → deps.ledger_range ≡ some range
      → IsServed deps.deploy_ledger deps.archive range.0 range.1
      → ((store : LendEventStore) (state : ReplayedState) (missing : List String)
          → q ≡ quiet store state missing
          → IsChecked deps store state missing)
      → IsSafe deps live (on_quiet deps q live)
  unfolding on_quiet report_of
  on_quiet-IsSafe range gave_up e s f = (refl, inl refl)
  on_quiet-IsSafe range differing e s f = refl
  on_quiet-IsSafe range (quiet store state missing) e s f =
      let checked = f store state missing refl in
      swap-IsSafe store (report_of deps store state missing)
        (record {
          range = range;
          range_eq = e;
          served = s;
          state = state;
          checked = checked;
          reported = refl;
        })
        checked.valid

  rebuild_from-IsSafe :
      (range : ℕ × ℕ) (store : LendEventStore)
      → deps.ledger_range ≡ some range
      → IsServed deps.deploy_ledger deps.archive range.0 range.1
      → HasValid store.cursor
      → IsSafe deps live (rebuild_from deps store live)
  unfolding rebuild_from catch_up
  rebuild_from-IsSafe range store e s v =
      let start : Reader = record { calls = 0; store = store } in
      elim (Option-cases (catch_up_from deps max_cycles start)) [
        | inl stuck ↦ rw (rebuild_from, catch_up, stuck) (refl, inl refl)
        | inr (r, caught) ↦
            let later = catch_up_from-Follows deps max_cycles start r caught in
            rw (rebuild_from, catch_up, caught)
              (on_quiet-IsSafe range (verify_rounds deps max_verify_rounds r) e s
                (λ store' state missing.
                  verify_rounds-IsChecked deps max_verify_rounds r store' state missing
                    (later.keeps_valid v)))
      ]

  on_start-IsSafe :
      (range : ℕ × ℕ) (start : Option LendEventStore)
      → deps.ledger_range ≡ some range
      → IsServed deps.deploy_ledger deps.archive range.0 range.1
      → start_store deps.archive ≡ start
      → IsSafe deps live (on_start deps start live)
  unfolding on_start
  on_start-IsSafe range none e s h = (refl, inl refl)
  on_start-IsSafe range (some store) e s h =
      rebuild_from-IsSafe range store e s (start_store-HasValid deps.archive store h)

  on_range-IsSafe :
      (range : Option (ℕ × ℕ))
      → deps.ledger_range ≡ range
      → IsSafe deps live (on_range deps range live)
  unfolding on_range
  on_range-IsSafe none e = (refl, inl refl)
  on_range-IsSafe (some (oldest, latest)) e =
      let choose : Bool → Result × Live =
        λ served. if served then on_start deps (start_store deps.archive) live else (threw, live) in
      elim (Bool-cases (is_served deps.deploy_ledger deps.archive oldest latest)) [
        | inl served ↦
            subst (λ b. IsSafe deps live (choose b)) (sym served)
              (on_start-IsSafe (oldest, latest) (start_store deps.archive) e
                (is_served-IsServed deps.deploy_ledger deps.archive oldest latest served) refl)
        | inr lost ↦ subst (λ b. IsSafe deps live (choose b)) (sym lost) (refl, inl refl)
      ]

  -- A rebuild reports only what the contract has confirmed: RPC or the archive file had every event,
  -- and every position, every supplier's balance, the total and every repayment of the replay agreed,
  -- with no event in between. A dry run, a difference or an error changes nothing, but for one error:
  -- where the database of the releases does not open, the archive may have been replaced. A swap
  -- replaces the archive by the confirmed one, keeps the pending releases and adds those that the
  -- contract lacks.
  pub rebuild_lend_state-IsSafe : IsSafe deps live (rebuild_lend_state deps live)
  unfolding rebuild_lend_state
  rebuild_lend_state-IsSafe = on_range-IsSafe deps.ledger_range refl
