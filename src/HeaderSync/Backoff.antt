-- ===== src/HeaderSync/Backoff.antt =====
-- Which call `withBackoff` stops at, and how long it sleeps before.
use writz.Prelude.{
  ℕ, zero, suc, ◌+◌, ◌*◌, ◌^◌, ◌<◌, ◌≤◌, ◌≡◌, refl, sym, ap, ◌∙◌, Bool, true, false, List, [], ◌∷◌,
  ◌++◌, map, some, arith, le→leb, lt→leb, Bool-cases, inl, inr, ◌⊎◌, append_assoc, append-nil,
  subst, range_from,
}
use native.Mathlib.Decide.{dec_le}
use writz.HeaderSync.{Attempt, success, failure, backoff_from, with_backoff}

module _ {ℓ} {T E : Type ℓ} (run : ℕ → Attempt T E) (is_retryable : E → Bool)
    (retries base_delay : ℕ) where
  -- A failure that is tried again.
  abbrev pub Retried : Attempt T E → Type 0
  Retried (success t) = ⊥
  Retried (failure e) = is_retryable e ≡ true

  -- A call that the loop ends with: a success, the last one allowed, or an error not to be retried.
  abbrev pub Final : ℕ → Attempt T E → Type 0
  Final k (success t) = Unit
  Final k (failure e) = (retries ≤ k) ⊎ (is_retryable e ≡ false)

  -- The loop entered at call `first`, with `slept` behind it, ends with a later call `last`.
  pub record Settled (first : ℕ) (slept : List ℕ) (r : Attempt T E × List ℕ) : Type ℓ where
    pub more : ℕ
    pub bounded : first + more ≤ retries
    pub result : r.0 ≡ run (first + more)
    pub final : Final (first + more) (run (first + more))
    pub retried : (k : ℕ) → first ≤ k → k < first + more → Retried (run k)
    pub delays : r.1 ≡ slept ++ map (λ k. base_delay * 2 ^ k) (range_from first more)

  Settled-here :
      (first : ℕ) (slept : List ℕ) (a : Attempt T E)
      → first ≤ retries
      → run first ≡ a
      → Final first a
      → Settled first slept (a, slept)
  Settled-here first slept a h e f =
      let same : first ≡ first + 0 = omega arith in
      record {
        more = 0;
        bounded = omega arith;
        result = sym e ∙ ap run same;
        final = subst (λ k. Final k (run k)) same (subst (Final first) (sym e) f);
        retried = λ k p q. absurd (omega arith);
        delays = sym (append-nil slept);
      }

  Settled-later :
      (first : ℕ) (slept : List ℕ) (r : Attempt T E × List ℕ)
      → Retried (run first)
      → Settled (first + 1) (slept ++ base_delay * 2 ^ first ∷ []) r
      → Settled first slept r
  Settled-later first slept r h s =
      let e : first + 1 + s.more ≡ first + suc s.more = omega arith in
      record {
        more = suc s.more;
        bounded = omega (arith, s.bounded);
        result = s.result ∙ ap run e;
        final = subst (λ k. Final k (run k)) e s.final;
        retried = λ k p q. elim (dec_le (first + 1) k) [
          | yes later ↦ s.retried k later (omega arith)
          | no now ↦ let same : first ≡ k = omega arith in subst (λ n. Retried (run n)) same h
        ];
        delays = s.delays ∙ append_assoc slept _ _;
      }

  backoff_from-Settled :
      (fuel first : ℕ) (slept : List ℕ)
      → retries < first + fuel
      → first ≤ retries
      → (r : Attempt T E × List ℕ) × (backoff_from run is_retryable retries base_delay fuel first
            slept
          ≡ some r)
        × Settled first slept r
  unfolding backoff_from
  backoff_from-Settled zero first slept enough h = absurd (omega arith)
  backoff_from-Settled (suc fuel) first slept enough h =
      go (run first) refl (λ p. backoff_from-Settled fuel (first + 1) _ (omega arith) p)
    where
      go :
          (a : Attempt T E)
          → run first ≡ a
          → (first + 1 ≤ retries
              → (r : Attempt T E × List ℕ) × (backoff_from run is_retryable retries base_delay fuel
                    (first + 1)
                    (slept ++ base_delay * 2 ^ first ∷ [])
                  ≡ some r)
                × Settled (first + 1) (slept ++ base_delay * 2 ^ first ∷ []) r)
          → (r : Attempt T E × List ℕ) × (backoff_from run is_retryable retries base_delay
                (suc fuel)
                first
                slept
              ≡ some r)
            × Settled first slept r
      go (success t) e again =
          ((success t, slept), rw (e, backoff_from), Settled-here first slept (success t) h e tt)
      go (failure x) e again = elim (dec_le retries first) [
        | yes last ↦ (
          (failure x, slept),
          rw (e, backoff_from, le→leb retries first last),
          Settled-here first slept (failure x) h e (inl last),
        )
        | no earlier ↦ elim (Bool-cases (is_retryable x)) [
          | inl retry ↦
              let (r, q, s) = again (omega arith) in
              (
                r,
                rw (e, backoff_from, lt→leb retries first (omega arith), retry, q),
                Settled-later first slept r (rw e retry) s,
              )
          | inr fatal ↦ (
            (failure x, slept),
            rw (e, backoff_from, lt→leb retries first (omega arith), fatal),
            Settled-here first slept (failure x) h e (inr fatal),
          )
        ]
      ]

  -- `withBackoff` always ends: with the outcome of the first call that succeeds, that fails for
  -- good, or that is the last of the retries allowed; every call before failed with an error to be
  -- retried, and the delays between the calls double from the base delay.
  pub with_backoff-Settled :
      (r : Attempt T E × List ℕ) × (with_backoff run is_retryable retries base_delay ≡ some r)
      × Settled 0 [] r
  unfolding with_backoff
  with_backoff-Settled = backoff_from-Settled (retries + 1) 0 [] (omega arith) (omega arith)
