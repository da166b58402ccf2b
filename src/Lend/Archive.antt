-- ===== src/Lend/Archive.antt =====
-- relayer/src/lend-events/store.ts and decode.ts: the archive, a table with its cursor, and the rows
-- that events decode to. The values of an event are read by the SDK of Stellar, and stand here as they
-- are read.
use Prim.Native.Nat.{Ordering}
use Prim.Native.String.{String, compare}
use text.Mathlib.Text.{◌==◌ as str_eq}
use mathlib.Core.Int.{ℤ}
use writz.Prelude.{
  ℕ, max, Bool, false, ◌||◌, List, [], ◌∷◌, ◌++◌, Option, none, some, if◌then◌else◌,
}
use writz.Repay.Store.{is_valid_cursor}

-- Of the fields in `data`, the amount that the replay reads.
pub record LendEventRow : Type 0 where
  pub id : String
  pub contract_id : String
  pub ledger : ℕ
  pub tx_hash : String
  pub name : String
  pub subject : String
  pub scaled_amount : Option ℤ
  pub raw_xdr : String

pub record LendEventStore : Type 0 where
  pub cursor : Option String
  pub rows : List LendEventRow

-- A store whose database is new.
abbrev pub opened : LendEventStore
opened = record { cursor = none; rows = [] }

-- A topic: the text that it is, if it is one, and the text that `plain` makes of it.
pub record Topic : Type 0 where
  pub native : Option String
  pub plain : Option String

pub record RawLendEvent : Type 0 where
  pub id : String
  pub ledger : ℕ
  pub tx_hash : String
  pub topic : List Topic
  pub scaled_amount : Option ℤ
  pub raw_xdr : String

pub data Decoded : Type 0 where
  row : LendEventRow → Decoded
  not_archived : Decoded
  throws : Decoded

unfoldable pub is_archived : String → Bool
is_archived name =
    str_eq name "deposit"
    || str_eq name "borrow"
    || str_eq name "repay"
    || str_eq name "repay_full"
    || str_eq name "liquidate"
    || str_eq name "supply"
    || str_eq name "withdraw"

unfoldable pub decode_columns : String → RawLendEvent → String → List Topic → Decoded
decode_columns contract_id event name [] = throws
decode_columns contract_id event name (topic ∷ topics) = elim topic.plain [
  | none ↦ throws
  | some subject ↦ row (record {
    id = event.id;
    contract_id = contract_id;
    ledger = event.ledger;
    tx_hash = event.tx_hash;
    name = name;
    subject = subject;
    scaled_amount = event.scaled_amount;
    raw_xdr = event.raw_xdr;
  })
]

unfoldable pub decode_topics : String → RawLendEvent → List Topic → Decoded
decode_topics contract_id event [] = throws
decode_topics contract_id event (first ∷ topics) = elim first.native [
  | none ↦ not_archived
  | some name ↦
      if is_archived name then decode_columns contract_id event name topics else not_archived
]

unfoldable pub decode_lend_event : String → RawLendEvent → Decoded
decode_lend_event contract_id event = decode_topics contract_id event event.topic

unfoldable pub has_id : String → List LendEventRow → Bool
has_id id [] = false
has_id id (r ∷ rows) = str_eq r.id id || has_id id rows

-- `INSERT OR IGNORE`.
unfoldable pub insert_event : List LendEventRow → LendEventRow → List LendEventRow
insert_event rows r = if has_id r.id rows then rows else rows ++ r ∷ []

unfoldable pub insert_events : List LendEventRow → List LendEventRow → List LendEventRow
insert_events [] rows = rows
insert_events (r ∷ news) rows = insert_events news (insert_event rows r)

-- `none` is the thrown error, and the transaction is undone.
unfoldable pub commit : List LendEventRow → String → LendEventStore → Option LendEventStore
commit news cursor s =
    if is_valid_cursor cursor
    then some (record { cursor = some cursor; rows = insert_events news s.rows })
    else none

unfoldable pub events_of : String → List LendEventRow → List LendEventRow
events_of contract_id [] = []
events_of contract_id (r ∷ rows) =
    let rest = events_of contract_id rows in
    if str_eq r.contract_id contract_id then r ∷ rest else rest

-- `ORDER BY id`.
unfoldable pub insert_by_id : LendEventRow → List LendEventRow → List LendEventRow
insert_by_id r [] = r ∷ []
insert_by_id r (q ∷ qs) =
    let rest = insert_by_id r qs in
    elim (compare r.id q.id) [ Ordering.gt ↦ q ∷ rest | _ ↦ r ∷ q ∷ qs ]

unfoldable pub sort_by_id : List LendEventRow → List LendEventRow
sort_by_id [] = []
sort_by_id (r ∷ rows) = insert_by_id r (sort_by_id rows)

unfoldable pub list_events : String → LendEventStore → List LendEventRow
list_events contract_id s = sort_by_id (events_of contract_id s.rows)

unfoldable pub snapshot : String → LendEventStore → List LendEventRow × Option String
snapshot contract_id s = (list_events contract_id s, s.cursor)

unfoldable pub max_ledger : List LendEventRow → Option ℕ
max_ledger [] = none
max_ledger (r ∷ rows) = elim (max_ledger rows) [
  | none ↦ some r.ledger
  | some ledger ↦ some (max r.ledger ledger)
]

unfoldable pub last_ledger : String → LendEventStore → Option ℕ
last_ledger contract_id s = max_ledger (events_of contract_id s.rows)
