-- ===== src/Relayer/ProofCache/Coalescing.antt =====
-- The proof cache computes nothing twice at once.
use Prim.Native.String.{String}
use text.Mathlib.Text.{◌==◌ as str_eq}
use text.Mathlib.TextEquality.{eq_iff}
use text.Mathlib.TextPositions.{eq_refl}
use writz.Prelude.{
  ℕ, ◌≡◌, refl, subst, false, List, [], ◌∷◌, Option, none, some, arith, Bool-cases, Option-cases,
  inl, inr, All, ◌==◌,
}
use writz.Prelude.OrderedMap.{get, set, delete, get-delete, get-set, IsMap}
use writz.Relayer.ProofCache.{
  Entry, TtlCache, evict, join_or_start, get_or_compute, settle, forget, clear, Answer, hit, joined,
  started, Event, requested, settled, cleared, Service, step, run, take_job, note_start, empty,
}
use writz.Relayer.ProofCache
use writz.Relayer.ProofCache.Runs.{new_service}

joinable_set :
    (key : String) (job : ℕ) (m : List (String × ℕ)) (running : List (String × ℕ))
    → All (λ (r : String × ℕ). get r.0 m ≡ some r.1) running
    → get key running ≡ none
    → All (λ (r : String × ℕ). get r.0 (set key job m) ≡ some r.1) running
unfolding get
joinable_set key job m [] h idle = tt
joinable_set key job m ((k, j) ∷ running) (joinable, h) idle =
    let e = get-set key k job m in
    ground (arith, eq_iff k key, eq_iff key k, joinable_set key job m running h)

joinable_delete :
    (key : String) (m : List (String × ℕ)) (running : List (String × ℕ))
    → All (λ (r : String × ℕ). get r.0 m ≡ some r.1) running
    → get key running ≡ none
    → All (λ (r : String × ℕ). get r.0 (delete key m) ≡ some r.1) running
unfolding get
joinable_delete key m [] h idle = tt
joinable_delete key m ((k, j) ∷ running) (joinable, h) idle =
    let e = get-delete key k m in
    ground (arith, eq_iff k key, eq_iff key k, joinable_delete key m running h)

-- A key without a computation is not the one that is taken, and stays without.
take_job_absent :
    (job : ℕ) (key : String) (running : List (String × ℕ))
    → get key running ≡ none
    → ((k : String) → (take_job job running).0 ≡ some k → str_eq key k ≡ false)
      × (get key (take_job job running).1 ≡ none)
unfolding take_job get
take_job_absent job key [] h = (λ k taken. cc, refl)
take_job_absent job key ((k, j) ∷ running) h =
    let (apart, absent) = take_job_absent job key running (ground arith) in
    (λ i taken. ground (arith, apart i, eq_iff key i, eq_iff k key), ground arith)

-- Taking a computation that runs leaves the others, of which none has its key.
take_job_lem :
    (job : ℕ) (key : String) (running m : List (String × ℕ))
    → (take_job job running).0 ≡ some key
    → IsMap running
    → All (λ (r : String × ℕ). get r.0 m ≡ some r.1) running
    → (get key (take_job job running).1 ≡ none)
      × IsMap (take_job job running).1
      × All (λ (r : String × ℕ). get r.0 m ≡ some r.1) (take_job job running).1
unfolding take_job get
take_job_lem job key [] m taken one joinable = cc
take_job_lem job key ((k, j) ∷ running) m taken (new, one) (joinable, rest) =
    elim (Bool-cases (j == job)) [
      | inl this ↦
          let same : k ≡ key = ground arith in
          rw this (subst (λ i. get i running ≡ none) same new, one, rest)
      | inr other ↦
          let later : (take_job job running).0 ≡ some key = ground arith in
          let (absent, one', rest') = take_job_lem job key running m later one rest in
          let (apart, new') = take_job_absent job k running new in
          let ne = apart key later in rw (other, get, ne) (absent, (new', one'), (joinable, rest'))
    ]

module _ {ℓ} {V : Type ℓ} where
  -- Every computation that runs is the promise its key waits on.
  abbrev pub Joinable : TtlCache V → List (String × ℕ) → Type 0
  Joinable c running = All (λ (r : String × ℕ). get r.0 c.inflight ≡ some r.1) running

  abbrev pub Coalesced : Service V → Type 0
  Coalesced s = IsMap s.running × Joinable s.cache s.running

  get-inflight :
      (key : String) (t : ℕ) (c : TtlCache V) → (ProofCache.get key t c).1.inflight ≡ c.inflight
  unfolding ProofCache.get
  get-inflight key t c = ground arith

  settle-inflight :
      (key : String) (result : Option (V × ℕ)) (t : ℕ) (c : TtlCache V)
      → (settle key result t c).inflight ≡ delete key c.inflight
  unfolding settle forget ProofCache.set
  settle-inflight key (some (value, ttl)) t c = ground arith
  settle-inflight key none t c = refl

  -- A key that waits on nothing is computed by nobody.
  idle_key :
      (key : String) (c : TtlCache V) (running : List (String × ℕ))
      → Joinable c running
      → get key c.inflight ≡ none
      → get key running ≡ none
  unfolding get
  idle_key key c [] h idle = refl
  idle_key key c ((k, j) ∷ running) (joinable, h) idle =
      ground (arith, eq_iff k key, idle_key key c running h idle)

  get-Coalesced :
      (key : String) (t : ℕ) (s : Service V)
      → Coalesced s
      → Joinable (ProofCache.get key t s.cache).1 s.running
  get-Coalesced key t s (one, joinable) = rw (get-inflight key t s.cache) joinable

  join_or_start-Coalesced :
      (key : String) (c : TtlCache V) (running : List (String × ℕ))
      → IsMap running
      → Joinable c running
      → Coalesced (record {
        cache = (join_or_start key c).1;
        running = note_start key (join_or_start key c).0 running;
      })
  unfolding join_or_start note_start
  join_or_start-Coalesced key c running one joinable = elim (Option-cases (get key c.inflight)) [
    | inr (job, present) ↦ rw (join_or_start, note_start, present) (one, joinable)
    | inl absent ↦
        let idle = idle_key key c running joinable absent in
        let found : get key (set key c.next_job c.inflight) ≡ some c.next_job =
          simp (get-set, eq_refl) in
        rw (join_or_start, note_start, absent)
          ((idle, one), (found, joinable_set key c.next_job c.inflight running joinable idle))
  ]

  requested-Coalesced :
      (key : String) (t : ℕ) (s : Service V) → Coalesced s → Coalesced (step (requested key t) s)
  unfolding step get_or_compute note_start
  requested-Coalesced key t s (one, joinable) =
      let kept = get-Coalesced key t s (one, joinable) in
      elim (Option-cases (ProofCache.get key t s.cache).0) [
        | inl absent ↦
            rw (step, get_or_compute, absent)
              (join_or_start-Coalesced key (ProofCache.get key t s.cache).1 s.running one kept)
        | inr (v, present) ↦ rw (step, get_or_compute, present) (one, kept)
      ]

  settled-Coalesced :
      (job : ℕ) (result : Option (V × ℕ)) (t : ℕ) (s : Service V)
      → Coalesced s
      → Coalesced (step (settled job result t) s)
  unfolding step
  settled-Coalesced job result t s (one, joinable) =
      elim (Option-cases (take_job job s.running).0) [
        | inl absent ↦ rw (step, absent) (one, joinable)
        | inr (key, present) ↦
            let (absent, one', rest) =
              take_job_lem job key s.running s.cache.inflight present one joinable in
            let e = settle-inflight key result t s.cache in
            rw (step, present) (one', rw e (joinable_delete key s.cache.inflight _ rest absent))
      ]

  abbrev pub NotCleared : Event V → Type 0
  NotCleared (requested key t) = Unit
  NotCleared (settled job result t) = Unit
  NotCleared cleared = ⊥

  run-Coalesced :
      (events : List (Event V)) (s : Service V)
      → All NotCleared events
      → Coalesced s
      → Coalesced (run events s)
  unfolding run
  run-Coalesced [] s quiet h = h
  run-Coalesced (requested key t ∷ events) s (q, quiet) h =
      run-Coalesced events _ quiet (requested-Coalesced key t s h)
  run-Coalesced (settled job result t ∷ events) s (q, quiet) h =
      run-Coalesced events _ quiet (settled-Coalesced job result t s h)
  run-Coalesced (cleared ∷ events) s (q, quiet) h = absurd q

  -- Over any sequence of requests and settlings of a new cache, without a reset, no two
  -- computations for one key run at once, and each that runs is the one its key's requests join.
  pub run-running-IsMap :
      (max_entries : ℕ) (events : List (Event V))
      → All NotCleared events
      → IsMap (run events (new_service max_entries)).running
        × All
            (λ (r : String × ℕ).
              get r.0 (run events (new_service max_entries)).cache.inflight ≡ some r.1)
            (run events (new_service max_entries)).running
  run-running-IsMap max_entries events quiet =
      run-Coalesced events (new_service max_entries) quiet (tt, tt)
