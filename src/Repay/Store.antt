-- ===== src/Repay/Store.antt =====
-- relayer/src/repay-watcher/release-store.ts with relayer/src/rpc-cursor.ts: the cursor and the pending
-- releases. A table is the list of its rows; SQLite compares texts by their bytes, in the order of
-- `compare`.
use Prim.Native.Nat.{Ordering}
use Prim.Native.String.{String, compare}
use Prim.Native.Char.{code}
use text.Mathlib.Text.{◌==◌ as str_eq}
use writz.Prelude.{
  ℕ, ◌+◌, ◌-◌, ◌*◌, ◌^◌, min, Bool, true, false, ◌&&◌, ◌||◌, List, [], ◌∷◌, ◌++◌, Option, none,
  some, leb, ltb, ◌==◌, if◌then◌else◌, length, take, drop,
}

abbrev pub base_retry_delay_ms : ℕ
base_retry_delay_ms = 30000

abbrev pub max_retry_delay_ms : ℕ
max_retry_delay_ms = 60 * 60000

abbrev pub max_release_attempts : ℕ
max_release_attempts = 24

unfoldable pub release_retry_delay_ms : ℕ → ℕ
release_retry_delay_ms attempts =
    min (base_retry_delay_ms * 2 ^ min (attempts - 1) 20) max_retry_delay_ms

-- A row of `pending_releases`.
pub record Row : Type 0 where
  pub contract_id : String
  pub txid : String
  pub first_seen_at : ℕ
  pub attempts : ℕ
  pub next_attempt : ℕ
  pub last_error : Option String

pub record ReleaseStore : Type 0 where
  pub cursor : Option String
  pub rows : List Row

pub record ReleaseSummary : Type 0 where
  pub pending : ℕ
  pub oldest_pending_at : Option ℕ
  pub stuck : ℕ

abbrev pub codes : String → List ℕ
codes String.[] = []
codes (String.◌∷◌ c s) = code c ∷ codes s

unfoldable pub all_digits : List ℕ → Bool
all_digits [] = true
all_digits (c ∷ cs) = leb b'0' c && leb c b'9' && all_digits cs

-- `/^\d{19}-\d{10}$/`.
unfoldable pub is_dashed : List ℕ → Bool
is_dashed [] = false
is_dashed (c ∷ cs) = c == b'-' && length cs == 10 && all_digits cs

unfoldable pub is_valid_cursor : String → Bool
is_valid_cursor cursor =
    let cs = codes cursor in
    length (take 19 cs) == 19 && all_digits (take 19 cs) && is_dashed (drop 19 cs)

-- The primary key.
unfoldable pub is_row : String → String → Row → Bool
is_row contract_id txid r = str_eq r.contract_id contract_id && str_eq r.txid txid

unfoldable pub has_row : String → String → List Row → Bool
has_row contract_id txid [] = false
has_row contract_id txid (r ∷ rows) = is_row contract_id txid r || has_row contract_id txid rows

abbrev pub new_row : String → String → ℕ → Row
new_row contract_id txid now = record {
  contract_id = contract_id;
  txid = txid;
  first_seen_at = now;
  attempts = 0;
  next_attempt = now;
  last_error = none;
}

-- `INSERT OR IGNORE`.
unfoldable pub insert_row : String → ℕ → List Row → String → List Row
insert_row contract_id now rows txid =
    if has_row contract_id txid rows then rows else rows ++ new_row contract_id txid now ∷ []

unfoldable pub insert_rows : String → ℕ → List String → List Row → List Row
insert_rows contract_id now [] rows = rows
insert_rows contract_id now (txid ∷ txids) rows =
    insert_rows contract_id now txids (insert_row contract_id now rows txid)

-- `none` is the thrown error, and the transaction is undone.
unfoldable pub write_cursor : String → ReleaseStore → Option ReleaseStore
write_cursor cursor s =
    if is_valid_cursor cursor then some (record s { cursor = some cursor }) else none

unfoldable pub record_batch : String → List String → String → ℕ → ReleaseStore → Option ReleaseStore
record_batch contract_id txids cursor now s =
    write_cursor cursor (record s { rows = insert_rows contract_id now txids s.rows })

unfoldable pub is_due : String → ℕ → Row → Bool
is_due contract_id now r =
    str_eq r.contract_id contract_id
    && leb r.next_attempt now
    && ltb r.attempts max_release_attempts

-- `ORDER BY first_seen_at, txid`.
unfoldable pub is_before : Row → Row → Bool
is_before r q =
    ltb r.first_seen_at q.first_seen_at
    || (r.first_seen_at == q.first_seen_at
        && (elim (compare r.txid q.txid) [ Ordering.gt ↦ false | _ ↦ true ]))

unfoldable pub insert_ordered : Row → List Row → List Row
insert_ordered r [] = r ∷ []
insert_ordered r (q ∷ qs) =
    let rest = insert_ordered r qs in if is_before r q then r ∷ q ∷ qs else q ∷ rest

unfoldable pub due_rows : String → ℕ → List Row → List Row
due_rows contract_id now [] = []
due_rows contract_id now (r ∷ rows) =
    let rest = due_rows contract_id now rows in
    if is_due contract_id now r then insert_ordered r rest else rest

-- `due`, with its default limit.
unfoldable pub due : String → ℕ → ReleaseStore → List Row
due contract_id now s = take 10 (due_rows contract_id now s.rows)

unfoldable pub attempts_of : String → String → List Row → ℕ
attempts_of contract_id txid [] = 0
attempts_of contract_id txid (r ∷ rows) =
    if is_row contract_id txid r then r.attempts else attempts_of contract_id txid rows

-- The `UPDATE`.
unfoldable pub fail_rows : String → String → String → ℕ → List Row → List Row
fail_rows contract_id txid error next [] = []
fail_rows contract_id txid error next (r ∷ rows) =
    (if is_row contract_id txid r
      then record r { attempts = r.attempts + 1; last_error = some error; next_attempt = next }
      else r)
    ∷ fail_rows contract_id txid error next rows

unfoldable pub mark_failed : String → String → String → ℕ → ReleaseStore → ReleaseStore
mark_failed contract_id txid error now s = record s {
  rows =
      fail_rows contract_id txid error
        (now + release_retry_delay_ms (attempts_of contract_id txid s.rows + 1)) s.rows;
}

unfoldable pub delete_rows : String → String → List Row → List Row
delete_rows contract_id txid [] = []
delete_rows contract_id txid (r ∷ rows) =
    let rest = delete_rows contract_id txid rows in
    if is_row contract_id txid r then rest else r ∷ rest

unfoldable pub remove : String → String → ReleaseStore → ReleaseStore
remove contract_id txid s = record s { rows = delete_rows contract_id txid s.rows }

unfoldable pub rows_of : String → List Row → List Row
rows_of contract_id [] = []
rows_of contract_id (r ∷ rows) =
    let rest = rows_of contract_id rows in
    if str_eq r.contract_id contract_id then r ∷ rest else rest

unfoldable pub oldest : List Row → Option ℕ
oldest [] = none
oldest (r ∷ rows) = elim (oldest rows) [
  | none ↦ some r.first_seen_at
  | some t ↦ some (min r.first_seen_at t)
]

unfoldable pub count_stuck : List Row → ℕ
count_stuck [] = 0
count_stuck (r ∷ rows) = (if leb max_release_attempts r.attempts then 1 else 0) + count_stuck rows

unfoldable pub summary : String → ReleaseStore → ReleaseSummary
summary contract_id s =
    let rows = rows_of contract_id s.rows in
    record { pending = length rows; oldest_pending_at = oldest rows; stuck = count_stuck rows }
