-- ===== src/Lend/Tests.antt =====
-- A rebuild of two events, of which the contract confirms both and lacks the release.
use Prim.Native.String.{String}
use mathlib.Core.Int.{pos}
use mathlib.Core.Nat
use writz.Prelude.{
  ℕ, ◌==◌, ◌≡◌, refl, true, false, List, [], ◌∷◌, Option, none, some, if◌then◌else◌,
}
use writz.Prelude.OrderedMap
use writz.Repay.Poller.{Request}
use writz.Lend.Archive.{LendEventRow, RawLendEvent, Topic, opened}
use writz.Lend.Poller.{Response}
use writz.Lend.Replay.{kind_of, ReplayedState, replay, zero_ℤ, balance_of}
use writz.Lend.Rebuild.{RebuildDeps, Live, Result, rebuild_lend_state}
use writz.Lend.Safe.{IsSafe, rebuild_lend_state-IsSafe}
use writz.Lend.Account.{
  has_amount, last_status, net_scaled, rows_of_subject, closed_positions, replay_lem,
}

abbrev text_topic : String → Topic
text_topic t = record { native = some t; plain = some t }

abbrev event : String → String → RawLendEvent
event id name = record {
  id = id;
  ledger = 100;
  tx_hash = "cc";
  topic = text_topic name ∷ text_topic "aa" ∷ [];
  scaled_amount = none;
  raw_xdr = "";
}

abbrev end_cursor : String
end_cursor = "0019652868403363840-0000000000"

-- The RPC of the example has both events on its first page, and no others.
abbrev get_events : ℕ → Request → Option Response
get_events n request = some (record {
  events = if n == 0 then event "1" "deposit" ∷ event "2" "repay_full" ∷ [] else [];
  cursor = end_cursor;
})

abbrev deps : RebuildDeps
deps = record {
  get_events = get_events;
  ledger_range = some (50, 200);
  chain = record {
    position_status = λ n txid. some (some "Closed");
    scaled_supply = λ n supplier. some zero_ℤ;
    total_scaled_supply = λ n. some zero_ℤ;
    has_release = λ n txid. some false;
  };
  contract_id = "lend";
  deploy_ledger = 60;
  opens_releases = true;
  archive = none;
  dry_run = false;
  now = 1000;
}

abbrev live : Live
live = record { archive = opened; releases = record { cursor = none; rows = [] } }

abbrev rebuilt : Result × Live
rebuilt = rebuild_lend_state deps live

rebuild_lend_state-IsSafe_example : IsSafe deps live (rebuild_lend_state deps live)
rebuild_lend_state-IsSafe_example = rebuild_lend_state-IsSafe deps live

abbrev supply_row : String → LendEventRow
supply_row id = record {
  id = id;
  contract_id = "lend";
  ledger = 100;
  tx_hash = "cc";
  name = "supply";
  subject = "GA";
  scaled_amount = some (pos Nat.one);
  raw_xdr = "";
}

abbrev supplies : List LendEventRow
supplies = supply_row "1" ∷ supply_row "2" ∷ []

replay_lem_example :
    (s : ReplayedState) × (replay supplies ≡ some s)
    × ((txid : String) → OrderedMap.get txid s.positions ≡ last_status txid none supplies)
    × ((supplier : String)
        → balance_of supplier s.scaled_by_supplier ≡ net_scaled (rows_of_subject supplier supplies))
    × (s.total_scaled ≡ net_scaled supplies)
    × (s.repaid_in_full ≡ closed_positions supplies)
unfolding has_amount kind_of
replay_lem_example = replay_lem supplies (refl, (refl, tt))
