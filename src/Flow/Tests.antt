-- ===== src/Flow/Tests.antt =====
-- A borrow that times out and settles, and one whose signature is declined.
use writz.Prelude.{false, ◌≡◌, refl, true, List, [], ◌∷◌, none, some}
use writz.Flow.{
  FlowState, FlowEvent, Thrown, stellar, idle, start, settled, settled_event, timed_out_event,
  awaiting_signature, awaiting_signature_event, submitted_event, signature_rejected_error, run_flow,
  reduce_flow, is_terminal, hash_of, proving_event,
}
use writz.Flow.Late.{run_flow_outcome}
use writz.Flow.Lock.{
  LockEvent, request, release, new_registry, run_events, ReservationEvent, reserve, free,
  reserve_position_index, run_reservations,
}
use writz.Flow.Exclusion.{IsExclusive, run_events-IsExclusive}
use writz.Flow.Indices.{has_index, AreDistinct, reserve_position_index-AreDistinct}

abbrev late_events : List FlowEvent
late_events = settled_event none ∷ proving_event ∷ []

run_flow_outcome_example : run_flow (settled (some "aa")) late_events ≡ settled (some "aa")
run_flow_outcome_example = run_flow_outcome (settled (some "aa")) late_events tt (tt, (tt, tt))

borrow_test :
    run_flow idle (
      start
      ∷ awaiting_signature_event stellar
      ∷ submitted_event "aa"
      ∷ timed_out_event "aa"
      ∷ settled_event none
      ∷ [])
    ≡ settled (some "aa")
unfolding run_flow reduce_flow is_terminal hash_of
borrow_test = refl

abbrev signing : FlowState
signing = awaiting_signature stellar none

abbrev declined : Thrown
declined = signature_rejected_error stellar (some "Freighter")

abbrev two_tabs : List LockEvent
two_tabs = request "a" false 1 ∷ request "a" false 2 ∷ release "a" 1 ∷ request "a" true 3 ∷ []

run_events-IsExclusive_example : IsExclusive "a" (run_events two_tabs new_registry)
run_events-IsExclusive_example = run_events-IsExclusive "a" two_tabs

abbrev reservations : List ReservationEvent
reservations = reserve [] ∷ reserve (4 ∷ []) ∷ free 0 ∷ []

reserve_position_index-AreDistinct_example :
    (has_index (reserve_position_index (1 ∷ []) (run_reservations reservations [])).0 (1 ∷ [])
      ≡ false)
    × AreDistinct (reserve_position_index (1 ∷ []) (run_reservations reservations [])).1
reserve_position_index-AreDistinct_example =
    reserve_position_index-AreDistinct reservations (1 ∷ [])
