-- ===== src/Relayer/ProofCache/Tests.antt =====
-- Concrete runs of the proof cache.
use Prim.Native.String.{String}
use writz.Prelude.{ℕ, ◌≡◌, refl, List, [], ◌∷◌, none, some, All}
use writz.Prelude.OrderedMap.{get, IsMap}
use writz.Relayer.ProofCache.{Event, requested, settled, run, empty, set}
use writz.Relayer.ProofCache
use writz.Relayer.ProofCache.Runs.{new_service}
use writz.Relayer.ProofCache.Coalescing.{run-running-IsMap}

-- Two proofs, the first asked for again while it is computed, then one that fails.
abbrev events : List (Event ℕ)
events =
    requested "a" 0
    ∷ requested "a" 1
    ∷ requested "b" 2
    ∷ settled 0 (some (7, 1000)) 3
    ∷ settled 1 none 4
    ∷ requested "b" 5
    ∷ []

running_now : (run events (new_service 1)).running ≡ ((("b", 2)) ∷ [])
unfolding run ProofCache.step ProofCache.note_start ProofCache.get_or_compute ProofCache.get get
    ProofCache.take_job empty ProofCache.join_or_start ProofCache.OrderedMap.set ProofCache.settle
    ProofCache.forget set ProofCache.evict ProofCache.OrderedMap.delete
running_now = refl

run-running-IsMap_example :
    IsMap (run events (new_service 1)).running
    × All
        (λ (r : String × ℕ). get r.0 (run events (new_service 1)).cache.inflight ≡ some r.1)
        (run events (new_service 1)).running
run-running-IsMap_example = run-running-IsMap 1 events (tt, (tt, (tt, (tt, (tt, (tt, tt))))))
