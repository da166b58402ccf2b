-- ===== src/Repay/Owed.antt =====
-- The watcher loses no repayment, whatever fails and wherever it crashes.
use Prim.Native.String.{String}
use writz.Prelude.{ℕ, ◌+◌, ◌≡◌, ◌||◌, List, [], Option, none, some, length, take, drop}
use writz.Repay.Store.{has_row}
use writz.Repay.Poller.{
  RepayEvent, Request, from_cursor, from_ledger, Response, PollCycleDeps, Watcher, repaid,
}
use writz.Repay.Rows.{member}

-- How far a request asks from, in the list of all events of the contract.
abbrev pub place : (String → ℕ) → Request → ℕ
place position (from_cursor cursor) = position cursor
place position (from_ledger ledger) = 0

-- The RPC answers with the events right behind a cursor, in their order, and with the cursor behind
-- them. The ledger of the deployment has the contract's first event, or is before it.
pub record IsFaithful (deps : PollCycleDeps) (chain : List RepayEvent) (position : String → ℕ)
    : Type 0 where
  pub answers :
      (n : ℕ) (request : Request) (response : Response)
      → deps.get_events n request ≡ some response
      → response.events ≡ take (length response.events) (drop (place position request) chain)
  pub moves :
      (n : ℕ) (request : Request) (response : Response)
      → deps.get_events n request ≡ some response
      → position response.cursor ≡ place position request + length response.events

-- The repayments that the store's cursor has passed.
pub passed : List RepayEvent → (String → ℕ) → Option String → List String
passed chain position cursor = elim cursor [ none ↦ [] | some c ↦ repaid (take (position c) chain) ]

-- The passed repayments are the pending releases, and those that the contract was seen to hold.
abbrev pub IsOwed : PollCycleDeps → List RepayEvent → (String → ℕ) → Watcher → Type 0
IsOwed deps chain position w =
    (t : String)
    → member t (passed chain position w.store.cursor)
      ≡ (has_row deps.contract_id t w.store.rows || member t w.published)
