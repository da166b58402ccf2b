-- ===== src/Cctp/Answers.antt =====
-- What a request does to a transfer.
use Prim.Native.String.{String}
use text.Mathlib.Text.{◌==◌ as str_eq}
use text.Mathlib.TextEquality.{eq_iff}
use writz.Prelude.{
  ℕ, ◌≡◌, refl, sym, ap, ◌∙◌, inl, inr, Bool, true, false, ◌||◌, List, [], ◌∷◌, Option, none, some,
  leb, if◌then◌else◌, length, arith, Bool-cases, Option-cases,
}
use writz.Prelude.OrderedMap.{get, IsMap, set, get-set, get-delete, delete}
use writz.Cctp.Store.{
  RelayRecord, failed, is_some, is_settled, is_retrying, is_failed, is_arrived, is_due,
  to_relay_view,
}
use writz.Cctp.Job.{RelayOptions}
use writz.Cctp.Relay.{is_out_of_gas}
use writz.Cctp.Requests.{
  Work, run_work, Relay, view, is_kept, has_job, launch, end_job, answer_of, launch_resume,
  retry_record, retry, request_kept, request_new, request, status, finish, Call, requested, asked,
  finished, serve, serve_one,
}

-- No burn has two running jobs, and the map has an entry for those burns that have one.
abbrev pub IsOne : Relay → Type 0
IsOne s =
    IsMap s.running × ((key : String) → is_some (get key s.jobs) ≡ is_some (get key s.running))

none_of : (o : Option Work) → is_some o ≡ false → o ≡ none
unfolding is_some
none_of none h = refl
none_of (some work) h = absurd (ground arith)

launched_tracked :
    (key j : String) (work : Work) (s : Relay)
    → is_some (get j s.jobs) ≡ is_some (get j s.running)
    → is_some (get j (set key work s.jobs)) ≡ is_some (get j ((key, work) ∷ s.running))
unfolding get
launched_tracked key j work s tracked =
    ap is_some (get-set key j work s.jobs) ∙ (elim (Bool-cases (str_eq key j)) [
      | inl same ↦ rw (same) refl
      | inr apart ↦ rw (apart) tracked
    ])

launch-IsOne : (key : String) (work : Work) (s : Relay) → IsOne s → IsOne (launch key work s)
unfolding launch has_job get
launch-IsOne key work s (one, tracked) = elim (Bool-cases (has_job key s)) [
  | inl busy ↦ rw (launch, busy) (one, tracked)
  | inr idle ↦
      rw (launch, idle)
        (
          (none_of (get key s.running) (sym (tracked key) ∙ idle), one),
          λ j. launched_tracked key j work s (tracked j),
        )
]

if-IsOne : (b : Bool) (s t : Relay) → IsOne s → IsOne t → IsOne (if b then s else t)
if-IsOne true s t h h' = h
if-IsOne false s t h h' = h'

end_job-absent :
    (key : String) (running : List (String × Work))
    → get key running ≡ none
    → end_job key running ≡ running
unfolding end_job get
end_job-absent key [] h = refl
end_job-absent key ((k, work) ∷ running) h = ground (arith, end_job-absent key running)

-- Without a second job of the burn, none is left.
get-end_job :
    (key j : String) (running : List (String × Work))
    → IsMap running
    → get j (end_job key running) ≡ (if str_eq key j then none else get j running)
unfolding end_job get
get-end_job key j [] h = ground arith
get-end_job key j ((k, work) ∷ running) (new, h) =
    ground (arith, get-end_job key j running h, eq_iff k key, eq_iff k j, eq_iff key j, new)

end_job-IsMap :
    (key : String) (running : List (String × Work)) → IsMap running → IsMap (end_job key running)
unfolding end_job get
end_job-IsMap key [] h = tt
end_job-IsMap key ((k, work) ∷ running) (new, h) =
    ground
      (arith, end_job-IsMap key running h, get-end_job key k running h, eq_iff k key, eq_iff key k)

finish_tracked :
    (key j : String) (s : Relay)
    → IsMap s.running
    → is_some (get j s.jobs) ≡ is_some (get j s.running)
    → is_some (get j (delete key s.jobs)) ≡ is_some (get j (end_job key s.running))
finish_tracked key j s one tracked =
    ap is_some (get-delete key j s.jobs) ∙ (elim (Bool-cases (str_eq key j)) [
      | inl same ↦ rw (get-end_job key j s.running one, same) refl
      | inr apart ↦ rw (get-end_job key j s.running one, apart) tracked
    ])

module _ (opts : RelayOptions) where
  -- A failure that is final is kept, and nothing of it is due.
  final_facts :
      (t : ℕ) (r : RelayRecord)
      → r.state ≡ failed
      → r.retryable ≡ false
      → r.retry_at ≡ none
      → (is_kept r ≡ true) × (is_settled r ≡ true) × (is_due t r ≡ false)
  unfolding is_kept is_retrying is_failed is_settled is_arrived is_due is_some
  final_facts t r state final no_retry = ground arith

  retry_idle :
      (key : String) (s : Relay) (r : RelayRecord)
      → get key s.world.records ≡ some r
      → is_due s.world.time r ≡ false
      → retry opts key s ≡ s
  unfolding retry
  retry_idle key s r present idle = ground arith

  answer_present :
      (key : String) (s : Relay) (r : RelayRecord)
      → get key s.world.records ≡ some r
      → answer_of key s ≡ view (to_relay_view r)
  unfolding answer_of
  answer_present key s r present = ground arith

  request_kept_idle :
      (key : String) (s : Relay) (r : RelayRecord)
      → is_settled r ≡ true
      → retry opts key s ≡ s
      → request_kept opts key r s ≡ (answer_of key s, s)
  unfolding request_kept
  request_kept_idle key s r settled same =
      rw (request_kept, settled) (ap (λ s'. (answer_of key s', s')) same)

  -- A transfer that failed for good stays so: a request for it, or for its status, reports it and
  -- changes nothing.
  pub request_final :
      (key : String) (s : Relay) (r : RelayRecord)
      → get key s.world.records ≡ some r
      → r.state ≡ failed
      → r.retryable ≡ false
      → r.retry_at ≡ none
      → (request opts key s ≡ (view (to_relay_view r), s))
        × (status opts key s ≡ (view (to_relay_view r), s))
  unfolding request status
  request_final key s r present state final no_retry =
      let (kept, settled, idle) = final_facts s.world.time r state final no_retry in
      let same = retry_idle key s r present idle in
      let answer = ap (λ a. (a, s)) (answer_present key s r present) in
      (
        rw (request, present, kept) (request_kept_idle key s r settled same ∙ answer),
        rw (status, present) (ap (λ s'. (answer_of key s', s')) same ∙ answer),
      )

  launch_resume-IsOne :
      (key : String) (r : RelayRecord) (s : Relay) → IsOne s → IsOne (launch_resume opts key r s)
  unfolding launch_resume
  launch_resume-IsOne key r s h = elim (Bool-cases (is_out_of_gas r.failure_code)) [
    | inl gas ↦ rw (launch_resume, gas) (launch-IsOne key _ s h)
    | inr other ↦ rw (launch_resume, other) (launch-IsOne key _ s h)
  ]

  retry_record-IsOne :
      (key : String) (r : RelayRecord) (s : Relay) → IsOne s → IsOne (retry_record opts key r s)
  unfolding retry_record
  retry_record-IsOne key r s h =
      if-IsOne (has_job key s || leb opts.settings.max_open (length s.jobs)) s _ h (
        if-IsOne (is_arrived r.state) _ _ (launch-IsOne key _ s h)
          (if-IsOne (is_retrying r) _ _ (launch_resume-IsOne key r s h) h))

  retry-IsOne : (key : String) (s : Relay) → IsOne s → IsOne (retry opts key s)
  unfolding retry
  retry-IsOne key s h = elim (Option-cases (get key s.world.records)) [
    | inl absent ↦ rw (retry, absent) h
    | inr (r, present) ↦
        rw (retry, present) (if-IsOne (is_due s.world.time r) _ s (retry_record-IsOne key r s h) h)
  ]

  request_new-IsOne :
      (key : String) (r : RelayRecord) (s : Relay) → IsOne s → IsOne (request_new opts key r s).1
  unfolding request_new
  request_new-IsOne key r s h = elim (Bool-cases (leb opts.settings.max_open (length s.jobs))) [
    | inl full ↦ rw (request_new, full) h
    | inr room ↦ rw (request_new, room) (launch-IsOne key run_work _ h)
  ]

  request_kept-IsOne :
      (key : String) (r : RelayRecord) (s : Relay) → IsOne s → IsOne (request_kept opts key r s).1
  unfolding request_kept
  request_kept-IsOne key r s h =
      if-IsOne (is_settled r) _ _ (retry-IsOne key s h) (launch-IsOne key run_work s h)

  request-IsOne : (key : String) (s : Relay) → IsOne s → IsOne (request opts key s).1
  unfolding request
  request-IsOne key s h = elim (Option-cases (get key s.world.records)) [
    | inl absent ↦ rw (request, absent) (request_new-IsOne key _ s h)
    | inr (r, present) ↦ elim (Bool-cases (is_kept r)) [
      | inl kept ↦ rw (request, present, kept) (request_kept-IsOne key r s h)
      | inr over ↦ rw (request, present, over) (request_new-IsOne key _ s h)
    ]
  ]

  status-IsOne : (key : String) (s : Relay) → IsOne s → IsOne (status opts key s).1
  unfolding status
  status-IsOne key s h = elim (Option-cases (get key s.world.records)) [
    | inl absent ↦ rw (status, absent) h
    | inr (r, present) ↦ rw (status, present) (retry-IsOne key s h)
  ]

  finish-IsOne : (fuel : ℕ) (key : String) (s : Relay) → IsOne s → IsOne (finish opts fuel key s)
  unfolding finish
  finish-IsOne fuel key s (one, tracked) = elim (Option-cases (get key s.running)) [
    | inl absent ↦ rw (finish, absent) (one, tracked)
    | inr (work, present) ↦
        rw (finish, present)
          (end_job-IsMap key s.running one, λ j. finish_tracked key j s one (tracked j))
  ]

  -- Whatever requests and status calls come, and whichever jobs end between them: if no burn has two
  -- running jobs at the start, and the map has an entry for those burns that have one, this stays so.
  pub serve-IsOne :
      (fuel : ℕ) (calls : List Call) (s : Relay) → IsOne s → IsOne (serve opts fuel calls s)
  unfolding serve serve_one
  serve-IsOne fuel [] s h = h
  serve-IsOne fuel (requested key ∷ calls) s h =
      serve-IsOne fuel calls (request opts key s).1 (request-IsOne key s h)
  serve-IsOne fuel (asked key ∷ calls) s h =
      serve-IsOne fuel calls (status opts key s).1 (status-IsOne key s h)
  serve-IsOne fuel (finished key ∷ calls) s h =
      serve-IsOne fuel calls (finish opts fuel key s) (finish-IsOne fuel key s h)
