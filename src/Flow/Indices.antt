-- ===== src/Flow/Indices.antt =====
-- A reserved position index is a new one.
use writz.Prelude.{
  ℕ, ◌≤◌, ◌≡◌, refl, Bool, false, ◌||◌, ◌&&◌, not, List, [], ◌∷◌, ◌++◌, ◌==◌, arith, Bool-cases,
  inl, inr,
}
use writz.Flow.Lock.{
  next_position_index, reserve_position_index, release_position_index, without, ReservationEvent,
  reserve, free, run_reservations,
}

pub has_index : ℕ → List ℕ → Bool
has_index i [] = false
has_index i (j ∷ js) = j == i || has_index i js

-- No index stands twice.
abbrev pub AreDistinct : List ℕ → Type 0
AreDistinct [] = Unit
AreDistinct (i ∷ is) = (has_index i is ≡ false) × AreDistinct is

has_index-append :
    (i : ℕ) (xs ys : List ℕ) → has_index i (xs ++ ys) ≡ (has_index i xs || has_index i ys)
unfolding has_index
has_index-append i [] ys = refl
has_index-append i (x ∷ xs) ys = ground (arith, has_index-append i xs ys)

next_position_index-new :
    (n : ℕ) (xs : List ℕ) → next_position_index xs ≤ n → has_index n xs ≡ false
unfolding has_index next_position_index
next_position_index-new n [] h = refl
next_position_index-new n (x ∷ xs) h = ground (arith, next_position_index-new n xs (omega arith))

push-AreDistinct :
    (i : ℕ) (xs : List ℕ) → has_index i xs ≡ false → AreDistinct xs → AreDistinct (xs ++ i ∷ [])
unfolding has_index
push-AreDistinct i [] h k = (refl, tt)
push-AreDistinct i (x ∷ xs) h (k, ks) =
    (ground (arith, has_index-append x xs (i ∷ [])), push-AreDistinct i xs (ground arith) ks)

has_index-without :
    (i j : ℕ) (xs : List ℕ) → has_index i (without j xs) ≡ (has_index i xs && not (j == i))
unfolding has_index without
has_index-without i j [] = refl
has_index-without i j (x ∷ xs) = ground (arith, has_index-without i j xs)

without-AreDistinct : (i : ℕ) (xs : List ℕ) → AreDistinct xs → AreDistinct (without i xs)
unfolding without
without-AreDistinct i [] h = tt
without-AreDistinct i (x ∷ xs) (h, hs) = elim (Bool-cases (x == i)) [
  | inl same ↦ rw (without, same) (without-AreDistinct i xs hs)
  | inr apart ↦
      rw (without, apart) (ground (arith, has_index-without x i xs), without-AreDistinct i xs hs)
]

reserve-AreDistinct :
    (used reserved : List ℕ)
    → AreDistinct reserved
    → (has_index (reserve_position_index used reserved).0 used ≡ false)
      × AreDistinct (reserve_position_index used reserved).1
unfolding reserve_position_index
reserve-AreDistinct used reserved h =
    let index = next_position_index (used ++ reserved) in
    let new : has_index index (used ++ reserved) ≡ false =
      next_position_index-new index (used ++ reserved) (omega arith) in
    let apart = has_index-append index used reserved in
    (ground (arith, new, apart), push-AreDistinct index reserved (ground (arith, new, apart)) h)

run_reservations-AreDistinct :
    (events : List ReservationEvent) (reserved : List ℕ)
    → AreDistinct reserved
    → AreDistinct (run_reservations events reserved)
unfolding run_reservations release_position_index
run_reservations-AreDistinct [] reserved h = h
run_reservations-AreDistinct (reserve used ∷ events) reserved h =
    run_reservations-AreDistinct events (reserve_position_index used reserved).1
      (reserve-AreDistinct used reserved h).1
run_reservations-AreDistinct (free index ∷ events) reserved h =
    run_reservations-AreDistinct events (without index reserved)
      (without-AreDistinct index reserved h)

-- Where the browser's storage can be read and written, and whatever was reserved and freed before, an
-- index that is reserved is none of those in use, and no two reservations that stand have the same
-- index.
pub reserve_position_index-AreDistinct :
    (events : List ReservationEvent) (used : List ℕ)
    → (has_index (reserve_position_index used (run_reservations events [])).0 used ≡ false)
      × AreDistinct (reserve_position_index used (run_reservations events [])).1
reserve_position_index-AreDistinct events used =
    reserve-AreDistinct used (run_reservations events [])
      (run_reservations-AreDistinct events [] tt)
