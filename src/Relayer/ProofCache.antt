-- ===== src/Relayer/ProofCache.antt =====
-- relayer/src/proof-cache.ts: the cache of the SPV proof route, with its request coalescing. Each
-- call takes the time that `now()` returns. A promise is known by the number of the computation
-- behind it, and its settling is an event of its own.
pub mod Freshness
pub mod Runs
pub mod Coalescing
mod Tests
use Prim.Native.String.{String}
use writz.Prelude.{
  ℕ, suc, ◌+◌, ◌≤◌, ◌<◌, Bool, true, false, ◌||◌, List, [], ◌∷◌, ◌++◌, Option, none, some, ltb, leb,
  ◌==◌, if◌then◌else◌, length,
}
use writz.Prelude.OrderedMap

pub record Entry {ℓ} (V : Type ℓ) : Type ℓ where
  pub value : V
  pub expires_at : ℕ

pub record TtlCache {ℓ} (V : Type ℓ) : Type ℓ where
  pub max_entries : ℕ
  pub entries : List (String × Entry V)
  pub inflight : List (String × ℕ)
  -- The number of the next computation.
  pub next_job : ℕ

-- How `getOrCompute` answers: a cached value, the promise of a computation that runs, or that of
-- a new one.
pub data Answer {ℓ} (V : Type ℓ) : Type ℓ where
  hit : V → Answer V
  joined : ℕ → Answer V
  started : ℕ → Answer V

module _ {ℓ} {V : Type ℓ} where
  -- `new TtlCache(maxEntries)`.
  unfoldable pub empty : ℕ → TtlCache V
  empty max_entries = record {
    max_entries = max_entries;
    entries = [];
    inflight = [];
    next_job = 0;
  }

  unfoldable pub get : String → ℕ → TtlCache V → Option V × TtlCache V
  get key t c = elim (OrderedMap.get key c.entries) [
    | none ↦ (none, c)
    | some e ↦
        if leb e.expires_at t
        then (none, record c { entries = OrderedMap.delete key c.entries })
        else (
          some e.value,
          record c { entries = OrderedMap.set key e (OrderedMap.delete key c.entries) },
        )
  ]

  -- The `while` loop of `set`: the entry inserted first goes, until the size fits.
  unfoldable pub evict : ℕ → List (String × Entry V) → List (String × Entry V)
  evict max_entries [] = []
  evict max_entries (oldest ∷ m) =
      if ltb max_entries (length (oldest ∷ m)) then evict max_entries m else oldest ∷ m

  unfoldable pub set : String → V → ℕ → ℕ → TtlCache V → TtlCache V
  set key value ttl t c = if ttl == 0 || c.max_entries == 0 then c else record c {
    entries = evict c.max_entries (
        OrderedMap.set key (record { value = value; expires_at = t + ttl })
          (OrderedMap.delete key c.entries));
  }

  -- Behind the lookup of `getOrCompute`.
  unfoldable pub join_or_start : String → TtlCache V → Answer V × TtlCache V
  join_or_start key c = elim (OrderedMap.get key c.inflight) [
    | some job ↦ (joined job, c)
    | none ↦ (
      started c.next_job,
      record c { inflight = OrderedMap.set key c.next_job c.inflight; next_job = suc c.next_job },
    )
  ]

  unfoldable pub get_or_compute : String → ℕ → TtlCache V → Answer V × TtlCache V
  get_or_compute key t c =
      let (found, c') = get key t c in
      elim found [ some v ↦ (hit v, c') | none ↦ join_or_start key c' ]

  unfoldable pub forget : String → TtlCache V → TtlCache V
  forget key c = record c { inflight = OrderedMap.delete key c.inflight }

  -- `.then(…).finally(…)` of a computation for `key` that returns a value, or throws (`none`).
  unfoldable pub settle : String → Option (V × ℕ) → ℕ → TtlCache V → TtlCache V
  settle key (some (value, ttl)) t c = forget key (set key value ttl t c)
  settle key none t c = forget key c

  unfoldable pub clear : TtlCache V → TtlCache V
  clear c = record c { entries = []; inflight = [] }

-- What happens to the cache: a request, the settling of a computation with what it returned or
-- `none`, a reset.
pub data Event {ℓ} (V : Type ℓ) : Type ℓ where
  requested : String → ℕ → Event V
  settled : ℕ → Option (V × ℕ) → ℕ → Event V
  cleared : Event V

-- The cache beside the computations that run, each with its key.
pub record Service {ℓ} (V : Type ℓ) : Type ℓ where
  pub cache : TtlCache V
  pub running : List (String × ℕ)

-- The key of a computation, and the others.
unfoldable pub take_job : ℕ → List (String × ℕ) → Option String × List (String × ℕ)
take_job job [] = (none, [])
take_job job ((key, j) ∷ running) =
    let (found, others) = take_job job running in
    if j == job then (some key, running) else (found, (key, j) ∷ others)

module _ {ℓ} {V : Type ℓ} where
  unfoldable pub note_start : String → Answer V → List (String × ℕ) → List (String × ℕ)
  note_start key (started job) running = (key, job) ∷ running
  note_start key _ running = running

  unfoldable pub step : Event V → Service V → Service V
  step (requested key t) s =
      let (answer, cache') = get_or_compute key t s.cache in
      record { cache = cache'; running = note_start key answer s.running }
  step (settled job result t) s =
      let (found, others) = take_job job s.running in
      elim found [
        | some key ↦ record { cache = settle key result t s.cache; running = others }
        | none ↦ s
      ]
  step cleared s = record s { cache = clear s.cache }

  unfoldable pub run : List (Event V) → Service V → Service V
  run [] s = s
  run (e ∷ events) s = run events (step e s)
