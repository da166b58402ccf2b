-- ===== src/Repay/Attempts.antt =====
-- How often and how late a release is tried again.
use Prim.Native.String.{String}
use text.Mathlib.Text.{◌==◌ as str_eq}
use text.Mathlib.TextPositions.{eq_refl}
use writz.Prelude.{
  ℕ, ◌+◌, ◌≤◌, ◌≡◌, ◌⊎◌, ltb, true, false, List, [], ◌∷◌, take, All, All-map, All-append, arith,
  Bool-cases, Option-cases, inl, inr,
}
use writz.Repay.Store.{
  Row, max_retry_delay_ms, release_retry_delay_ms, is_due, is_row, has_row, new_row, insert_row,
  insert_rows, is_valid_cursor, write_cursor, record_batch, due, attempts_of, fail_rows,
  mark_failed, delete_rows, remove,
}
use writz.Repay.Poller.{
  PollCycleDeps, Watcher, Outcome, shown, failed, opened, repaid, all_decode, tick, request_of,
  on_response, run_poll_cycle, settle_row, publish_row, publish_rows, run_release_sweep, turn, run,
}

release_retry_delay_ms-le : (n : ℕ) → release_retry_delay_ms n ≤ max_retry_delay_ms
unfolding release_retry_delay_ms
release_retry_delay_ms-le n = omega arith

-- A row of the contract whose next attempt is no more than an hour ahead.
abbrev IsSoon : String → ℕ → Row → Type 0
IsSoon c t r = (r.next_attempt ≤ t + max_retry_delay_ms) × (str_eq r.contract_id c ≡ true)

AreSoon-later :
    (c : String) (t u : ℕ) (rows : List Row) → t ≤ u → All (IsSoon c t) rows → All (IsSoon c u) rows
AreSoon-later c t u rows later h =
    All-map {P = IsSoon c t} rows (λ r k. (omega (arith, k.0), k.1)) h

AreSoon-insert_row :
    (c u : String) (t : ℕ) (rows : List Row)
    → All (IsSoon c t) rows
    → All (IsSoon c t) (insert_row c t rows u)
unfolding insert_row
AreSoon-insert_row c u t rows h = elim (Bool-cases (has_row c u rows)) [
  | inl present ↦ rw (insert_row, present) h
  | inr absent ↦
      rw (insert_row, absent)
        (All-append (IsSoon c t) rows (new_row c u t ∷ []) h ((omega arith, eq_refl c), tt))
]

AreSoon-insert_rows :
    (c : String) (t : ℕ) (us : List String) (rows : List Row)
    → All (IsSoon c t) rows
    → All (IsSoon c t) (insert_rows c t us rows)
unfolding insert_rows
AreSoon-insert_rows c t [] rows h = h
AreSoon-insert_rows c t (u ∷ us) rows h =
    AreSoon-insert_rows c t us (insert_row c t rows u) (AreSoon-insert_row c u t rows h)

AreSoon-fail_rows :
    (c u error : String) (t next : ℕ) (rows : List Row)
    → next ≤ t + max_retry_delay_ms
    → All (IsSoon c t) rows
    → All (IsSoon c t) (fail_rows c u error next rows)
unfolding fail_rows
AreSoon-fail_rows c u error t next [] soon h = tt
AreSoon-fail_rows c u error t next (r ∷ rows) soon h =
    let rest = AreSoon-fail_rows c u error t next rows soon h.1 in
    elim (Bool-cases (is_row c u r)) [
      | inl this ↦ rw (fail_rows, this) ((soon, h.0.1), rest)
      | inr other ↦ rw (fail_rows, other) (h.0, rest)
    ]

AreSoon-delete_rows :
    (c u : String) (t : ℕ) (rows : List Row)
    → All (IsSoon c t) rows
    → All (IsSoon c t) (delete_rows c u rows)
unfolding delete_rows
AreSoon-delete_rows c u t [] h = tt
AreSoon-delete_rows c u t (r ∷ rows) h = elim (Bool-cases (is_row c u r)) [
  | inl gone ↦ rw (delete_rows, gone) (AreSoon-delete_rows c u t rows h.1)
  | inr kept ↦ rw (delete_rows, kept) (h.0, AreSoon-delete_rows c u t rows h.1)
]

-- A row is stuck with its 24 attempts, or is due within the hour.
abbrev pub IsRetried : String → ℕ → Row → Type 0
IsRetried c t r =
    ((24 ≤ r.attempts) × ((now : ℕ) → is_due c now r ≡ false)) ⊎ (is_due c (t + 3600000) r ≡ true)

IsSoon-IsRetried : (c : String) (t : ℕ) (r : Row) → IsSoon c t r → IsRetried c t r
unfolding is_due
IsSoon-IsRetried c t r (soon, own) = elim (Bool-cases (ltb r.attempts 24)) [
  | inl left ↦ inr (grind (arith, own, soon, left))
  | inr spent ↦ inl (grind (arith, spent), λ now. grind (arith, own, spent))
]

module _ (deps : PollCycleDeps) where
  abbrev AreSoon : Watcher → Type 0
  AreSoon w = All (IsSoon deps.contract_id w.time) w.store.rows

  abbrev pub AreRetried : Watcher → Type 0
  AreRetried w = All (IsRetried deps.contract_id w.time) w.store.rows

  tick-AreSoon : (w : Watcher) → AreSoon w → AreSoon (tick deps w)
  unfolding tick
  tick-AreSoon w h =
      AreSoon-later deps.contract_id w.time (w.time + deps.elapsed w.calls) w.store.rows
        (omega arith) h

  run_poll_cycle-AreSoon : (w : Watcher) → AreSoon w → AreSoon (run_poll_cycle deps w).1
  unfolding run_poll_cycle on_response record_batch write_cursor
  run_poll_cycle-AreSoon w h = elim (Option-cases (request_of deps w.store.cursor)) [
    | inl none_asked ↦ rw (run_poll_cycle, none_asked) h
    | inr (request, asked) ↦
        let h' = tick-AreSoon w h in
        elim (Option-cases (deps.get_events w.calls request)) [
          | inl rejected ↦ rw (run_poll_cycle, asked, rejected) h'
          | inr (response, answered) ↦ elim (Bool-cases (all_decode response.events)) [
            | inr garbled ↦ rw (run_poll_cycle, asked, answered, on_response, garbled) h'
            | inl read ↦ elim (Bool-cases (is_valid_cursor response.cursor)) [
              | inl good ↦
                  rw (run_poll_cycle, asked, answered, on_response, read, good)
                    (AreSoon-insert_rows deps.contract_id (tick deps w).time
                      (repaid response.events) (tick deps w).store.rows h')
              | inr bad ↦ rw (run_poll_cycle, asked, answered, on_response, read, bad) h'
            ]
          ]
        ]
  ]

  settle_row-AreSoon :
      (u : String) (outcome : Outcome) (w : Watcher)
      → AreSoon w
      → AreSoon (settle_row deps u outcome w)
  unfolding settle_row remove mark_failed
  settle_row-AreSoon u shown w h = AreSoon-delete_rows deps.contract_id u w.time w.store.rows h
  settle_row-AreSoon u (failed message) w h =
      let n = attempts_of deps.contract_id u w.store.rows + 1 in
      AreSoon-fail_rows deps.contract_id u message w.time (w.time + release_retry_delay_ms n)
        w.store.rows (omega (arith, release_retry_delay_ms-le n)) h

  publish_rows-AreSoon :
      (rows : List Row) (w : Watcher) → AreSoon w → AreSoon (publish_rows deps rows w)
  unfolding publish_rows publish_row
  publish_rows-AreSoon [] w h = h
  publish_rows-AreSoon (r ∷ rows) w h = publish_rows-AreSoon rows (publish_row deps r.txid w) (
      settle_row-AreSoon r.txid _ (tick deps (tick deps w))
        (tick-AreSoon (tick deps w) (tick-AreSoon w h)))

  turn-AreSoon : (n : ℕ) (w : Watcher) → AreSoon w → AreSoon (turn deps n w)
  unfolding turn run_release_sweep
  turn-AreSoon n w h =
      let w' = (run_poll_cycle deps w).1 in
      let h' = run_poll_cycle-AreSoon w h in
      elim (Bool-cases (run_poll_cycle deps w).0) [
        | inl well ↦
            rw (turn, well)
              (publish_rows-AreSoon (take n (due deps.contract_id w'.time w'.store)) w' h')
        | inr badly ↦ rw (turn, badly) h'
      ]

  run-AreSoon : (turns : List ℕ) (w : Watcher) → AreSoon w → AreSoon (run deps turns w)
  unfolding run
  run-AreSoon [] w h = h
  run-AreSoon (n ∷ turns) w h =
      run-AreSoon turns (tick deps (turn deps n w))
        (tick-AreSoon (turn deps n w) (turn-AreSoon n w h))

  -- Over any turns of the loop from a new database on, each pending release is due within the hour,
  -- or has had 24 attempts or more. The latter is stuck: it is due at no time.
  pub run-AreRetried : (t : ℕ) (turns : List ℕ) → AreRetried (run deps turns (opened t))
  unfolding opened
  run-AreRetried t turns =
      let w = run deps turns (opened t) in
      All-map {P = IsSoon deps.contract_id w.time} w.store.rows
        (IsSoon-IsRetried deps.contract_id w.time) (run-AreSoon turns (opened t) tt)
