-- ===== src/Lend/Poller.antt =====
-- relayer/src/lend-events/poller.ts: a cycle of the archive. The RPC is a parameter, which answers the
-- n-th call as it likes.
use Prim.Native.String.{String}
use writz.Prelude.{ℕ, zero, suc, List, [], ◌∷◌, Option, none, some, ◌>>=◌}
use writz.Repay.Poller.{Request, from_cursor, from_ledger}
use writz.Lend.Archive.{
  LendEventRow, LendEventStore, RawLendEvent, Decoded, row, not_archived, throws, decode_lend_event,
  commit,
}

pub record Response : Type 0 where
  pub events : List RawLendEvent
  pub cursor : String

-- `none` is a call that rejects.
pub record LendEventsCycleDeps : Type 0 where
  pub contract_id : String
  pub deploy_ledger : Option ℕ
  pub get_events : ℕ → Request → Option Response

abbrev pub max_pages_per_poll : ℕ
max_pages_per_poll = 20

-- How a cycle ends: at the tip, at the page limit or by an error.
pub data CycleEnd : Type 0 where
  at_tip : CycleEnd
  at_limit : CycleEnd
  failed : CycleEnd

-- The store and the number of the next call.
pub record Reader : Type 0 where
  pub calls : ℕ
  pub store : LendEventStore

unfoldable pub keep_row : Decoded → Option (List LendEventRow) → Option (List LendEventRow)
keep_row throws rows = none
keep_row not_archived rows = rows
keep_row (row r) rows = do rest ← rows; some (r ∷ rest)

unfoldable pub decode_events : String → List RawLendEvent → Option (List LendEventRow)
decode_events contract_id [] = some []
decode_events contract_id (event ∷ events) =
    keep_row (decode_lend_event contract_id event) (decode_events contract_id events)

module _ (deps : LendEventsCycleDeps) where
  -- What is asked, or nothing where the cycle throws at once.
  unfoldable pub request_of : Option String → Option Request
  request_of (some cursor) = some (from_cursor cursor)
  request_of none = do ledger ← deps.deploy_ledger; some (from_ledger ledger)

  -- The store behind an answer.
  unfoldable pub store_page : Response → LendEventStore → Option LendEventStore
  store_page response s = do
    rows ← decode_events deps.contract_id response.events
    commit rows response.cursor s

  unfoldable pub read_page : Reader → Option (Response × Reader)
  read_page r = do
    request ← request_of r.store.cursor
    response ← deps.get_events r.calls request
    store ← store_page response r.store
    some (response, record { calls = suc r.calls; store = store })

  -- A page without events is the last.
  unfoldable pub after_page : List RawLendEvent → Reader → CycleEnd × Reader → CycleEnd × Reader
  after_page [] r rest = (at_tip, r)
  after_page (event ∷ events) r rest = rest

  -- The loop over the pages. A page that fails is counted, too.
  unfoldable pub read_pages : ℕ → Reader → CycleEnd × Reader
  read_pages zero r = (at_limit, r)
  read_pages (suc pages) r = elim (read_page r) [
    | none ↦ (failed, record r { calls = suc r.calls })
    | some (response, r') ↦ let rest = read_pages pages r' in after_page response.events r' rest
  ]

  unfoldable pub run_lend_events_cycle : Reader → CycleEnd × Reader
  run_lend_events_cycle r = read_pages max_pages_per_poll r
