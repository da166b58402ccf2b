-- ===== src/Relayer/ProofCache/Runs.antt =====
-- How many entries the proof cache holds.
use Prim.Native.String.{String}
use writz.Prelude.{
  ℕ, ◌+◌, ◌≤◌, ◌<◌, ◌≡◌, List, [], ◌∷◌, Option, none, some, length, arith, Option-cases, inl, inr,
}
use writz.Prelude.OrderedMap.{get, set, delete, length-delete-le, length-set-le}
use writz.Relayer.ProofCache.{
  Entry, TtlCache, evict, join_or_start, get_or_compute, settle, forget, clear, Answer, hit, joined,
  started, Event, requested, settled, cleared, Service, step, run, take_job, note_start, empty,
}
use writz.Relayer.ProofCache

module _ {ℓ} {V : Type ℓ} where
  abbrev pub Bounded : TtlCache V → Type 0
  Bounded c = length c.entries ≤ c.max_entries

  length-evict-le : (n : ℕ) (m : List (String × Entry V)) → length (evict n m) ≤ n
  unfolding evict
  length-evict-le n [] = omega arith
  length-evict-le n (e ∷ m) = ground (arith, length-evict-le n m)

  length-delete-lt :
      (key : String) (e : Entry V) (m : List (String × Entry V))
      → get key m ≡ some e
      → length (delete key m) < length m
  unfolding get delete
  length-delete-lt key e [] h = cc
  length-delete-lt key e ((k, w) ∷ m) h =
      ground (arith, length-delete-lt key e m, length-delete-le key m)

  get-Bounded :
      (key : String) (t : ℕ) (c : TtlCache V) → Bounded c → Bounded (ProofCache.get key t c).1
  unfolding ProofCache.get
  get-Bounded key t c h = elim (Option-cases (get key c.entries)) [
    | inl absent ↦ rw (ProofCache.get, absent) h
    | inr (e, present) ↦
        let less = length-delete-lt key e c.entries present in
        let more = length-set-le key e (delete key c.entries) in ground arith
  ]

  join_or_start-Bounded :
      (key : String) (c : TtlCache V) → Bounded c → Bounded (join_or_start key c).1
  unfolding join_or_start
  join_or_start-Bounded key c h = ground arith

  get_or_compute-Bounded :
      (key : String) (t : ℕ) (c : TtlCache V) → Bounded c → Bounded (get_or_compute key t c).1
  unfolding get_or_compute
  get_or_compute-Bounded key t c h =
      let h' = get-Bounded key t c h in
      elim (Option-cases (ProofCache.get key t c).0) [
        | inl absent ↦ rw (get_or_compute, absent) (join_or_start-Bounded key _ h')
        | inr (v, present) ↦ rw (get_or_compute, present) h'
      ]

  set-Bounded :
      (key : String) (value : V) (ttl t : ℕ) (c : TtlCache V)
      → Bounded c
      → Bounded (ProofCache.set key value ttl t c)
  unfolding ProofCache.set
  set-Bounded key value ttl t c h =
      let small =
        length-evict-le c.max_entries
          (set key (record { value = value; expires_at = t + ttl }) (delete key c.entries)) in
      ground arith

  settle-Bounded :
      (key : String) (result : Option (V × ℕ)) (t : ℕ) (c : TtlCache V)
      → Bounded c
      → Bounded (settle key result t c)
  unfolding settle forget
  settle-Bounded key (some (value, ttl)) t c h = set-Bounded key value ttl t c h
  settle-Bounded key none t c h = h

  step-Bounded : (e : Event V) (s : Service V) → Bounded s.cache → Bounded (step e s).cache
  unfolding step clear
  step-Bounded (requested key t) s h = get_or_compute-Bounded key t s.cache h
  step-Bounded (settled job result t) s h = elim (Option-cases (take_job job s.running).0) [
    | inl absent ↦ rw (step, absent) h
    | inr (key, present) ↦ rw (step, present) (settle-Bounded key result t s.cache h)
  ]
  step-Bounded cleared s h = omega arith

  run-Bounded :
      (events : List (Event V)) (s : Service V) → Bounded s.cache → Bounded (run events s).cache
  unfolding run
  run-Bounded [] s h = h
  run-Bounded (e ∷ events) s h = run-Bounded events (step e s) (step-Bounded e s h)

  abbrev pub new_service : ℕ → Service V
  new_service max_entries = record { cache = empty max_entries; running = [] }

  -- Over any sequence of requests, settlings and resets of a new cache, it holds at most as many
  -- entries as its limit.
  run-entries-le :
      (max_entries : ℕ) (events : List (Event V))
      → length (run events (new_service max_entries)).cache.entries
        ≤ (run events (new_service max_entries)).cache.max_entries
  unfolding empty
  run-entries-le max_entries events = run-Bounded events (new_service max_entries) (omega arith)
