-- ===== src/Flow/Exclusion.antt =====
-- A lock of a tab has one holder at most, and nobody waits for a free one.
use Prim.Native.String.{String}
use text.Mathlib.Text.{◌==◌ as str_eq}
use text.Mathlib.TextEquality.{eq_iff}
use writz.Prelude.{
  ℕ, ◌+◌, ◌≡◌, refl, sym, ap, ◌∙◌, ◌⊎◌, Bool, true, false, ◌&&◌, ◌||◌, not, List, [], ◌∷◌, ◌++◌,
  Option, some, if◌then◌else◌, arith, Bool-cases, Option-cases, inl, inr, subst,
}
use writz.Prelude.OrderedMap
use writz.Flow.Lock.{
  LockRegistry, new_registry, has_name, add_name, delete_name, or_empty, queue_of, grant, set_queue,
  hold_lock, is_holder, holds, drop_holder, wake_next, release_lock, without, abort_wait, LockEvent,
  request, release, abort, step, run_events,
}

-- How many requests hold a lock.
pub count_holders : String → List (String × ℕ) → ℕ
count_holders name [] = 0
count_holders name ((n, i) ∷ holders) =
    (if str_eq n name then 1 else 0) + count_holders name holders

-- A lock is held, by one request, or it is free, and none holds it or waits for it.
abbrev pub IsExclusive : String → LockRegistry → Type 0
IsExclusive name s =
    ((has_name name s.local_held ≡ true) × (count_holders name s.holders ≡ 1))
    ⊎ ((has_name name s.local_held ≡ false)
        × (count_holders name s.holders ≡ 0)
        × (queue_of name s ≡ []))

has_name-push :
    (name n : String) (names : List String)
    → has_name name (names ++ n ∷ []) ≡ (has_name name names || str_eq n name)
unfolding has_name
has_name-push name n [] = ground arith
has_name-push name n (m ∷ names) = ground (arith, has_name-push name n names)

has_name-add_name :
    (name n : String) (names : List String)
    → has_name name (add_name n names) ≡ (has_name name names || str_eq n name)
unfolding add_name
has_name-add_name name n names = ground (arith, has_name-push name n names, eq_iff n name)

has_name-delete_name :
    (name n : String) (names : List String)
    → has_name name (delete_name n names) ≡ (has_name name names && not (str_eq n name))
unfolding has_name delete_name
has_name-delete_name name n [] = refl
has_name-delete_name name n (m ∷ names) =
    ground (arith, has_name-delete_name name n names, eq_iff m n, eq_iff m name, eq_iff n name)

count_holders-drop_holder :
    (name n : String) (id : ℕ) (holders : List (String × ℕ))
    → holds n id holders ≡ true
    → count_holders name holders
      ≡ (if str_eq n name then 1 else 0) + count_holders name (drop_holder n id holders)
unfolding holds drop_holder is_holder count_holders
count_holders-drop_holder name n id [] h = absurd (ground arith)
count_holders-drop_holder name n id ((m, i) ∷ holders) h =
    ground
      (arith, count_holders-drop_holder name n id holders, eq_iff m n, eq_iff m name, eq_iff n name)

or_empty_if :
    (b : Bool) (queue : List ℕ) (o : Option (List ℕ))
    → or_empty (if b then some queue else o) ≡ (if b then queue else or_empty o)
unfolding or_empty
or_empty_if true queue o = refl
or_empty_if false queue o = refl

queue_of-set_queue :
    (name n : String) (queue : List ℕ) (s : LockRegistry)
    → queue_of name (set_queue n queue s) ≡ (if str_eq n name then queue else queue_of name s)
unfolding queue_of set_queue
queue_of-set_queue name n queue s =
    ap or_empty (OrderedMap.get-set n name queue s.local_waiters)
    ∙ or_empty_if (str_eq n name) queue (OrderedMap.get name s.local_waiters)

module _ (name n : String) where
  grant_same :
      (id : ℕ) (s : LockRegistry)
      → str_eq n name ≡ true
      → count_holders name s.holders ≡ 0
      → IsExclusive name (grant n id s)
  unfolding grant count_holders
  grant_same id s same none_holds =
      inl (ground (arith, has_name-add_name name n s.local_held), ground arith)

  grant_apart :
      (id : ℕ) (s : LockRegistry)
      → str_eq n name ≡ false
      → IsExclusive name s
      → IsExclusive name (grant n id s)
  unfolding grant count_holders queue_of
  grant_apart id s apart (inl (held, one)) =
      inl (ground (arith, has_name-add_name name n s.local_held), ground arith)
  grant_apart id s apart (inr (free, zero_held, queue)) =
      inr (ground (arith, has_name-add_name name n s.local_held), ground arith, queue)

  set_queue_apart :
      (queue : List ℕ) (s : LockRegistry)
      → str_eq n name ≡ false
      → IsExclusive name s
      → IsExclusive name (set_queue n queue s)
  unfolding set_queue
  set_queue_apart queue s apart (inl h) = inl h
  set_queue_apart queue s apart (inr (free, zero_held, empty)) = inr (
    free,
    zero_held,
    queue_of-set_queue name n queue s
        ∙ ap (λ b. if b then queue else queue_of name s) apart
        ∙ empty,
  )

  same_name : str_eq n name ≡ true → n ≡ name
  same_name same = (eq_iff n name).0 same

  free_count :
      (s : LockRegistry)
      → IsExclusive name s
      → has_name name s.local_held ≡ false
      → count_holders name s.holders ≡ 0
  free_count s (inl (held, one)) free = absurd (ground arith)
  free_count s (inr (f, zero_held, queue)) free = zero_held

  wait-IsExclusive :
      (queue : List ℕ) (s : LockRegistry)
      → has_name n s.local_held ≡ true
      → IsExclusive name s
      → IsExclusive name (set_queue n queue s)
  unfolding set_queue
  wait-IsExclusive queue s held h = elim (Bool-cases (str_eq n name)) [
    | inr apart ↦ set_queue_apart queue s apart h
    | inl same ↦ elim h [
      | inl busy ↦ inl busy
      | inr (free, zero_held, empty) ↦
          let held' : has_name name s.local_held ≡ true =
            subst (λ m. has_name m s.local_held ≡ true) (same_name same) held in
          ground arith
    ]
  ]

  hold_lock-IsExclusive :
      (if_available : Bool) (id : ℕ) (s : LockRegistry)
      → IsExclusive name s
      → IsExclusive name (hold_lock n if_available id s)
  unfolding hold_lock
  hold_lock-IsExclusive if_available id s h = elim (Bool-cases (has_name n s.local_held)) [
    | inl held ↦ elim (Bool-cases if_available) [
      | inl now ↦ rw (hold_lock, held, now) h
      | inr later ↦
          rw (hold_lock, held, later) (wait-IsExclusive (queue_of n s ++ id ∷ []) s held h)
    ]
    | inr free ↦ elim (Bool-cases (str_eq n name)) [
      | inr apart ↦ rw (hold_lock, free) (grant_apart id s apart h)
      | inl same ↦
          rw (hold_lock, free)
            (grant_same id s same
              (free_count s h (subst (λ m. has_name m s.local_held ≡ false) (same_name same) free)))
    ]
  ]

  wake_apart :
      (queue : List ℕ) (s : LockRegistry)
      → str_eq n name ≡ false
      → IsExclusive name s
      → IsExclusive name (wake_next n queue s)
  unfolding wake_next
  wake_apart [] s apart h = h
  wake_apart (id ∷ queue) s apart h =
      grant_apart id (set_queue n queue s) apart (set_queue_apart queue s apart h)

  wake_same :
      (queue : List ℕ) (s : LockRegistry)
      → str_eq n name ≡ true
      → has_name name s.local_held ≡ false
      → count_holders name s.holders ≡ 0
      → queue_of name s ≡ queue
      → IsExclusive name (wake_next n queue s)
  unfolding wake_next set_queue
  wake_same [] s same free zero_held q = inr (free, zero_held, q)
  wake_same (id ∷ queue) s same free zero_held q =
      grant_same id (set_queue n queue s) same zero_held

  drop_apart :
      (id : ℕ) (s : LockRegistry)
      → str_eq n name ≡ false
      → holds n id s.holders ≡ true
      → IsExclusive name s
      → IsExclusive name (record s {
        local_held = delete_name n s.local_held;
        holders = drop_holder n id s.holders;
      })
  unfolding queue_of
  drop_apart id s apart held (inl (locked, one)) = inl (
    ground (arith, has_name-delete_name name n s.local_held),
    ground (arith, count_holders-drop_holder name n id s.holders held),
  )
  drop_apart id s apart held (inr (free, zero_held, queue)) = inr (
    ground (arith, has_name-delete_name name n s.local_held),
    ground (arith, count_holders-drop_holder name n id s.holders held),
    queue,
  )

  drop_same :
      (id : ℕ) (s : LockRegistry)
      → str_eq n name ≡ true
      → holds n id s.holders ≡ true
      → IsExclusive name s
      → count_holders name (drop_holder n id s.holders) ≡ 0
  drop_same id s same held (inl (locked, one)) =
      ground (arith, count_holders-drop_holder name n id s.holders held)
  drop_same id s same held (inr (free, zero_held, queue)) =
      ground (arith, count_holders-drop_holder name n id s.holders held)

  release_lock-IsExclusive :
      (id : ℕ) (s : LockRegistry) → IsExclusive name s → IsExclusive name (release_lock n id s)
  unfolding release_lock queue_of
  release_lock-IsExclusive id s h = elim (Bool-cases (holds n id s.holders)) [
    | inr not_held ↦ rw (release_lock, not_held) h
    | inl held ↦
        let s1 : LockRegistry = record s {
          local_held = delete_name n s.local_held;
          holders = drop_holder n id s.holders;
        } in
        let counted = count_holders-drop_holder name n id s.holders held in
        let named = has_name-delete_name name n s.local_held in
        elim (Bool-cases (str_eq n name)) [
          | inr apart ↦
              rw (release_lock, held)
                (wake_apart (queue_of n s) s1 apart (drop_apart id s apart held h))
          | inl same ↦
              rw (release_lock, held)
                (wake_same (queue_of n s) s1 same (ground (arith, named, same))
                  (drop_same id s same held h) (ap (λ m. queue_of m s) (sym (same_name same))))
        ]
  ]

  shorten_queue :
      (id : ℕ) (queue : List ℕ) (s : LockRegistry)
      → OrderedMap.get n s.local_waiters ≡ some queue
      → IsExclusive name s
      → IsExclusive name (set_queue n (without id queue) s)
  unfolding set_queue queue_of or_empty without
  shorten_queue id queue s waiting (inl busy) = inl busy
  shorten_queue id queue s waiting (inr (free, zero_held, empty)) =
      elim (Bool-cases (str_eq n name)) [
        | inr apart ↦ set_queue_apart (without id queue) s apart (inr (free, zero_held, empty))
        | inl same ↦
            let own : queue ≡ [] =
              ap or_empty (sym waiting) ∙ ap (λ m. queue_of m s) (same_name same) ∙ empty in
            inr (
              free,
              zero_held,
              queue_of-set_queue name n (without id queue) s
                  ∙ ap (λ b. if b then without id queue else queue_of name s) same
                  ∙ ap (without id) own,
            )
      ]

  abort_wait-IsExclusive :
      (id : ℕ) (s : LockRegistry) → IsExclusive name s → IsExclusive name (abort_wait n id s)
  unfolding abort_wait
  abort_wait-IsExclusive id s h = elim (Option-cases (OrderedMap.get n s.local_waiters)) [
    | inl e ↦ rw (abort_wait, e) h
    | inr (queue, e) ↦ rw (abort_wait, e) (shorten_queue id queue s e h)
  ]

step-IsExclusive :
    (name : String) (event : LockEvent) (s : LockRegistry)
    → IsExclusive name s
    → IsExclusive name (step event s)
unfolding step
step-IsExclusive name (request n if_available id) s h =
    hold_lock-IsExclusive name n if_available id s h
step-IsExclusive name (release n id) s h = release_lock-IsExclusive name n id s h
step-IsExclusive name (abort n id) s h = abort_wait-IsExclusive name n id s h

run_from-IsExclusive :
    (name : String) (events : List LockEvent) (s : LockRegistry)
    → IsExclusive name s
    → IsExclusive name (run_events events s)
unfolding run_events
run_from-IsExclusive name [] s h = h
run_from-IsExclusive name (event ∷ events) s h =
    run_from-IsExclusive name events (step event s) (step-IsExclusive name event s h)

-- Whatever is requested, released and aborted, in any order, each lock of a tab is held by one request,
-- or it is free and nobody holds it or waits for it.
pub run_events-IsExclusive :
    (name : String) (events : List LockEvent) → IsExclusive name (run_events events new_registry)
unfolding has_name count_holders queue_of or_empty OrderedMap.get
run_events-IsExclusive name events =
    run_from-IsExclusive name events new_registry (inr (refl, refl, refl))
