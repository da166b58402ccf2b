-- ===== src/HeaderSync/Sync.antt =====
-- What reaches the contract when a sync runs, whether or not it gets to the end.
use writz.Prelude.{
  ℕ, zero, suc, ◌+◌, ◌-◌, ◌<◌, ◌≤◌, ◌≡◌, refl, sym, ap, ◌∙◌, max, Bool, List, [], ◌∷◌, ◌++◌, map,
  Option, none, some, arith, Bool-cases, Option-cases, inl, inr, append_assoc, append-nil,
  map-append, subst, >>=-eq-some, range_from, range_from-append,
}
use native.Mathlib.Decide.{dec_lt}
use writz.HeaderSync.{
  HeaderBatch, Outcome, returned, rejected, fetch_headers, sync_batches, sync_headers,
}
use writz.HeaderSync.Plan.{IsPlan, plan_header_batches-IsPlan}

-- How far a sync that starts at `start` got with `n` headers, by its outcome: all the way when it
-- returns, with the last height as `submittedThrough`, and not to the end when it rejects.
abbrev pub Reached : ℕ → ℕ → Option ℕ → ℕ → Outcome → Type 0
Reached start to_height through n (returned t) =
    (start + n ≡ max start (to_height + 1))
    × (start ≤ to_height → t ≡ some to_height)
    × (to_height < start → t ≡ through)
Reached start to_height through n rejected = start + n ≤ to_height

-- One more batch in front.
Reached_step :
    (start last to_height n : ℕ) (through : Option ℕ) (o : Outcome)
    → start ≤ last
    → last ≤ to_height
    → Reached (last + 1) to_height (some last) n o
    → Reached start to_height through (last + 1 - start + n) o
Reached_step start last to_height n through (returned t) h k (e, more, done) = (
  omega arith,
  λ _. elim (dec_lt last to_height) [
    | yes before ↦ more (omega arith)
    | no over ↦ let same : last ≡ to_height = omega arith in done (omega arith) ∙ ap some same
  ],
  λ past. absurd (omega arith),
)
Reached_step start last to_height n through rejected h k e = omega arith

module _ {ℓ} {A : Type ℓ} where
  -- The headers of every accepted batch in turn.
  abbrev pub delivered : List (List A) → List (Option A)
  delivered [] = []
  delivered (headers ∷ log) = map some headers ++ delivered log

  delivered-append :
      (log : List (List A)) (headers : List A)
      → delivered (log ++ headers ∷ []) ≡ delivered log ++ map some headers
  delivered-append [] headers = append-nil _
  delivered-append (h ∷ log) headers =
      rw (delivered-append log headers) (sym (append_assoc (map some h) (delivered log) _))

  fetch_headers_lem :
      (get_header : ℕ → Option A) (h count : ℕ) (headers : List A)
      → fetch_headers get_header h count ≡ some headers
      → map some headers ≡ map get_header (range_from h count)
  unfolding fetch_headers
  fetch_headers_lem get_header h zero headers e =
      let q : [] ≡ headers = cc in subst (λ (l : List A). map some l ≡ []) q refl
  fetch_headers_lem get_header h (suc count) headers e =
      let (header, e1, e2) = >>=-eq-some (get_header h) _ e in
      let (more, e3, e4) = >>=-eq-some (fetch_headers get_header (h + 1) count) _ e2 in
      let q : header ∷ more ≡ headers = cc in
      subst (λ (l : List A). map some l ≡ map get_header (range_from h (suc count))) q
        (cc (e1, fetch_headers_lem get_header (h + 1) count more e3))

  -- The contract has received a gapless run of headers from `start` on, in order.
  pub record Progress (get_header : ℕ → Option A) (start to_height : ℕ) (through : Option ℕ)
      (log : List (List A)) (r : List (List A) × Outcome) : Type ℓ where
    pub count : ℕ
    pub contiguous : delivered r.0 ≡ delivered log ++ map get_header (range_from start count)
    pub reached : Reached start to_height through count r.1

  stopped :
      (get_header : ℕ → Option A) (start to_height : ℕ) (through : Option ℕ) (log : List (List A))
      → start ≤ to_height
      → Progress get_header start to_height through log (log, rejected)
  stopped get_header start to_height through log h = record {
    count = 0;
    contiguous = sym (append-nil _);
    reached = omega arith;
  }

  advance :
      (get_header : ℕ → Option A) (start last to_height : ℕ) (through : Option ℕ)
      (log : List (List A)) (headers : List A) (r : List (List A) × Outcome)
      → start ≤ last
      → last ≤ to_height
      → map some headers ≡ map get_header (range_from start (last + 1 - start))
      → Progress get_header (last + 1) to_height (some last) (log ++ headers ∷ []) r
      → Progress get_header start to_height through log r
  advance get_header start last to_height through log headers r h k fetched p =
      let size = last + 1 - start in
      let e : last + 1 ≡ start + size = omega arith in
      let run =
        range_from-append start size p.count
        ∙ ap (λ s. range_from start size ++ range_from s p.count) (sym e) in
      record {
        count = size + p.count;
        contiguous =
            p.contiguous
            ∙ ap (λ (l : List (Option A)). l ++ map get_header (range_from (last + 1) p.count))
                (delivered-append log headers ∙ ap (◌++◌ (delivered log)) fetched)
            ∙ append_assoc (delivered log) _ _
            ∙ ap (◌++◌ (delivered log))
                (sym (ap (map get_header) run ∙ map-append get_header (range_from start size) _));
        reached = Reached_step start last to_height p.count through r.1 h k p.reached;
      }

  sync_batches-Progress :
      (get_header : ℕ → Option A) (submit : List (List A) → List A → Bool)
      (start to_height per_submit : ℕ) (bs : List HeaderBatch) (through : Option ℕ)
      (log : List (List A))
      → IsPlan start to_height per_submit bs
      → Progress get_header start to_height through log
          (sync_batches get_header submit bs through log)
  unfolding sync_batches
  sync_batches-Progress get_header submit start to_height per_submit [] through log p = record {
    count = 0;
    contiguous = sym (append-nil _);
    reached = (omega arith, λ h. absurd (omega arith), λ _. refl);
  }
  sync_batches-Progress get_header submit start to_height per_submit (b ∷ bs) through log
        (e, p, q, r, more) =
      elim (Option-cases
        (fetch_headers get_header b.from_height (b.to_height + 1 - b.from_height))) [
          | inl failed ↦
              rw (failed, sync_batches)
                (stopped get_header start to_height through log (omega arith))
          | inr (headers, fetched) ↦ elim (Bool-cases (submit log headers)) [
            | inl accepted ↦
                rw (fetched, sync_batches, accepted)
                  (advance get_header start b.to_height to_height through log headers _ p q
                    (subst
                      (λ s. map some headers ≡ map get_header (range_from s (b.to_height + 1 - s)))
                      e (fetch_headers_lem get_header b.from_height _ headers fetched))
                    (sync_batches-Progress get_header submit (b.to_height + 1) to_height per_submit
                      bs (some b.to_height) (log ++ headers ∷ []) more))
            | inr refused ↦
                rw (fetched, sync_batches, refused)
                  (stopped get_header start to_height through log (omega arith))
          ]
        ]

  -- Whatever the contract refuses and whichever header cannot be read, what a sync delivers is a
  -- gapless run of headers from `from_height` on, in order and without repetition, behind what was
  -- delivered before; when it returns, the run goes to `to_height`, which is `submittedThrough`
  -- unless the range is empty (then null), and when it rejects the run stops short of the end. The
  -- batch size is positive.
  pub sync_headers-Progress :
      (get_header : ℕ → Option A) (submit : List (List A) → List A → Bool)
      (from_height to_height per_submit : ℕ) (log : List (List A))
      → 1 ≤ per_submit
      → Progress get_header from_height to_height none log
          (sync_headers get_header submit from_height to_height per_submit log)
  unfolding sync_headers
  sync_headers-Progress get_header submit from_height to_height per_submit log one =
      let (bs, e, p) = plan_header_batches-IsPlan from_height to_height per_submit one in
      rw (e, sync_headers)
        (sync_batches-Progress get_header submit from_height to_height per_submit bs none log p)
