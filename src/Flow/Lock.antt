-- ===== src/Flow/Lock.antt =====
-- frontend/app/src/lib/flow/lock.ts: the lock of a tab where the browser has no Web Locks, and the
-- reservation of position indices. A request is its number.
use Prim.Native.String.{String}
use text.Mathlib.Text.{◌==◌ as str_eq}
use writz.Prelude.{
  ℕ, suc, max, Bool, false, ◌&&◌, ◌||◌, not, List, [], ◌∷◌, ◌++◌, Option, none, some, ◌==◌,
  if◌then◌else◌,
}
use writz.Prelude.OrderedMap

-- The registry, with the requests that hold a lock: they have a release function that has not run.
pub record LockRegistry : Type 0 where
  pub local_held : List String
  pub local_waiters : List (String × List ℕ)
  pub holders : List (String × ℕ)

abbrev pub new_registry : LockRegistry
new_registry = record { local_held = []; local_waiters = []; holders = [] }

unfoldable pub has_name : String → List String → Bool
has_name name [] = false
has_name name (n ∷ names) = str_eq n name || has_name name names

-- `Set.add`.
unfoldable pub add_name : String → List String → List String
add_name name names = if has_name name names then names else names ++ name ∷ []

-- `Set.delete`.
unfoldable pub delete_name : String → List String → List String
delete_name name [] = []
delete_name name (n ∷ names) =
    let rest = delete_name name names in if str_eq n name then rest else n ∷ rest

unfoldable pub or_empty : Option (List ℕ) → List ℕ
or_empty none = []
or_empty (some queue) = queue

unfoldable pub queue_of : String → LockRegistry → List ℕ
queue_of name s = or_empty (OrderedMap.get name s.local_waiters)

-- `localHeld.add` with the resolving of the request.
unfoldable pub grant : String → ℕ → LockRegistry → LockRegistry
grant name id s = record s {
  local_held = add_name name s.local_held;
  holders = (name, id) ∷ s.holders;
}

unfoldable pub set_queue : String → List ℕ → LockRegistry → LockRegistry
set_queue name queue s = record s { local_waiters = OrderedMap.set name queue s.local_waiters }

-- `holdLock`.
unfoldable pub hold_lock : String → Bool → ℕ → LockRegistry → LockRegistry
hold_lock name if_available id s =
    if not (has_name name s.local_held)
    then grant name id s
    else if if_available
    then s
    else set_queue name (queue_of name s ++ id ∷ []) s

unfoldable pub is_holder : String → ℕ → String × ℕ → Bool
is_holder name id (n, i) = str_eq n name && i == id

unfoldable pub holds : String → ℕ → List (String × ℕ) → Bool
holds name id [] = false
holds name id (h ∷ holders) = is_holder name id h || holds name id holders

unfoldable pub drop_holder : String → ℕ → List (String × ℕ) → List (String × ℕ)
drop_holder name id [] = []
drop_holder name id (h ∷ holders) =
    let rest = drop_holder name id holders in if is_holder name id h then holders else h ∷ rest

-- `shift` and the call of what it gives.
unfoldable pub wake_next : String → List ℕ → LockRegistry → LockRegistry
wake_next name [] s = s
wake_next name (id ∷ queue) s = grant name id (set_queue name queue s)

-- The release function of a request, which its holder calls once.
unfoldable pub release_lock : String → ℕ → LockRegistry → LockRegistry
release_lock name id s =
    if holds name id s.holders
    then wake_next name (queue_of name s) (record s {
      local_held = delete_name name s.local_held;
      holders = drop_holder name id s.holders;
    })
    else s

unfoldable pub without : ℕ → List ℕ → List ℕ
without id [] = []
without id (i ∷ ids) = let rest = without id ids in if i == id then rest else i ∷ rest

-- The listener of the abort signal.
unfoldable pub abort_wait : String → ℕ → LockRegistry → LockRegistry
abort_wait name id s = elim (OrderedMap.get name s.local_waiters) [
  | none ↦ s
  | some queue ↦ set_queue name (without id queue) s
]

pub data LockEvent : Type 0 where
  request : String → Bool → ℕ → LockEvent
  release : String → ℕ → LockEvent
  abort : String → ℕ → LockEvent

unfoldable pub step : LockEvent → LockRegistry → LockRegistry
step (request name if_available id) s = hold_lock name if_available id s
step (release name id) s = release_lock name id s
step (abort name id) s = abort_wait name id s

unfoldable pub run_events : List LockEvent → LockRegistry → LockRegistry
run_events [] s = s
run_events (event ∷ events) s = run_events events (step event s)

-- `nextPositionIndex`, where the largest index so far starts at 0 for -1.
unfoldable pub next_position_index : List ℕ → ℕ
next_position_index [] = 0
next_position_index (i ∷ used) = max (suc i) (next_position_index used)

-- `reservePositionIndex`: the index and what is reserved then, where the browser's storage can be
-- read and written.
unfoldable pub reserve_position_index : List ℕ → List ℕ → ℕ × List ℕ
reserve_position_index used reserved =
    let index = next_position_index (used ++ reserved) in (index, reserved ++ index ∷ [])

-- `releasePositionIndex`.
unfoldable pub release_position_index : ℕ → List ℕ → List ℕ
release_position_index index reserved = without index reserved

-- What the tabs do with an owner's reservations, one behind the other under the lock of the indices.
pub data ReservationEvent : Type 0 where
  reserve : List ℕ → ReservationEvent
  free : ℕ → ReservationEvent

unfoldable pub run_reservations : List ReservationEvent → List ℕ → List ℕ
run_reservations [] reserved = reserved
run_reservations (reserve used ∷ events) reserved =
    run_reservations events (reserve_position_index used reserved).1
run_reservations (free index ∷ events) reserved =
    run_reservations events (release_position_index index reserved)
