-- ===== src/Faucet/Limits.antt =====
-- The limits of the faucet hold however its requests are ordered.
use writz.Prelude.{
  ℕ, suc, ◌≡◌, refl, subst, List, [], ◌∷◌, ◌++◌, some, length, get_elem?, take, drop, All,
  All-append, arith, Option-cases, inl, inr,
}
use writz.Faucet.Store.{filter_claims}
use writz.Faucet.Service.{
  Login, verified, refused, FaucetOptions, Claimant, Waiting, SignetFaucet, tick,
}
use writz.Faucet.Claim.{limits_at, claim, on_login, status}
use writz.Faucet.Events.{
  Event, nonce_asked, claimed, logged_in, lock_freed, status_asked, started, new_faucet,
  issue_nonce, log_in, pay_next, step, run,
}
use writz.Faucet.Counts.{count_claims}
use writz.Faucet.Fair.{IsFair}
use writz.Faucet.Quiet.{Quiet-Same, claim-Quiet, status_lem}
use writz.Faucet.Ledger.{
  IsSound, HasKey, Same-IsSound, tick-Same, pay_checked-IsSound, count_answered,
}

module _ (opts : FaucetOptions) where
  on_login-IsSound :
      (w : Waiting) (login : Login) (s : SignetFaucet)
      → IsSound opts s
      → IsSound opts (on_login opts w login s).1
  unfolding on_login
  on_login-IsSound w (refused code) s h = h
  on_login-IsSound w (verified stellar_address user_key) s h =
      let claimant : Claimant = record {
        address = w.claimant.address;
        stellar_address = stellar_address;
        user_key = some user_key;
      } in
      let h' = Same-IsSound opts s (tick opts s) (tick-Same opts s) h in
      elim (Option-cases (limits_at opts claimant w.ip_hash s)) [
        | inr (failure, refusal) ↦ rw (on_login, refusal) h'
        | inl passes ↦
            rw (on_login, passes)
              (record {
                fair = h'.fair;
                before = h'.before;
                keyed = All-append HasKey s.queue _ h.keyed ((user_key, refl), tt);
                matched = h'.matched;
              })
      ]

  log_in-IsSound : (k : ℕ) (s : SignetFaucet) → IsSound opts s → IsSound opts (log_in opts k s)
  unfolding log_in tick
  log_in-IsSound k s h = elim (Option-cases (get_elem? s.verifying k)) [
    | inl absent ↦ rw (log_in, absent) h
    | inr (w, present) ↦
        let s' : SignetFaucet = record (tick opts s) {
          verifying = take k s.verifying ++ drop (suc k) s.verifying;
        } in
        rw (log_in, present)
          (on_login-IsSound w _ s' (Same-IsSound opts s s' (refl, refl, refl, omega arith) h))
  ]

  pay_next-IsSound :
      (queue : List Waiting) (s : SignetFaucet)
      → s.queue ≡ queue
      → IsSound opts s
      → IsSound opts (pay_next opts queue s)
  unfolding pay_next
  pay_next-IsSound [] s e h = h
  pay_next-IsSound (w ∷ queue) s e h =
      let keyed : All HasKey (w ∷ queue) = subst (All HasKey) e h.keyed in
      pay_checked-IsSound opts w.claimant w.ip_hash keyed.0.0 (record s { queue = queue }) keyed.0.1
        (record { fair = h.fair; before = h.before; keyed = keyed.1; matched = h.matched })

  pub step-IsSound :
      (event : Event) (s : SignetFaucet) → IsSound opts s → IsSound opts (step opts event s)
  unfolding step issue_nonce tick
  step-IsSound nonce_asked s h =
      Same-IsSound opts s (issue_nonce opts s) (refl, refl, refl, omega arith) h
  step-IsSound (claimed body ip) s h =
      Same-IsSound opts s (claim opts body ip s).1
        (Quiet-Same s (claim opts body ip s).1 (claim-Quiet opts body ip s)) h
  step-IsSound (logged_in k) s h = log_in-IsSound k s h
  step-IsSound lock_freed s h = pay_next-IsSound s.queue s refl h
  step-IsSound status_asked s h = Same-IsSound opts s (status opts s).1 (status_lem opts s).0 h

  run-IsSound :
      (events : List Event) (s : SignetFaucet) → IsSound opts s → IsSound opts (run opts events s)
  unfolding run
  run-IsSound [] s h = h
  run-IsSound (event ∷ events) s h = run-IsSound events (step opts event s) (step-IsSound event s h)

  pub new_faucet-eq-some :
      (t : ℕ) (s : SignetFaucet) → new_faucet opts.settings t ≡ some s → started t ≡ s
  unfolding new_faucet
  new_faucet-eq-some t s h = ground arith

  started-IsSound : (t : ℕ) → IsSound opts (started t)
  unfolding started count_claims count_answered filter_claims
  started-IsSound t = record {
    fair = (
      λ k. omega arith,
      λ k. omega arith,
      λ k. omega arith,
      λ d. omega arith,
      λ ip f. omega arith,
    );
    before = tt;
    keyed = tt;
    matched = refl;
  }

  -- Whatever requests, logins and payments come in whichever order, from an empty store on: no
  -- account, no Stellar address and no Signet address has two claims, no UTC day has more than the
  -- daily cap, no client has more than its allowance in any stretch as long as the window, and there
  -- are as many claims as broadcasts that the node has confirmed; one of unknown outcome has none.
  pub run-IsFair :
      (t : ℕ) (s : SignetFaucet) (events : List Event)
      → new_faucet opts.settings t ≡ some s
      → IsFair opts.settings (run opts events s).claims
        × (count_answered (run opts events s).sends ≡ length (run opts events s).claims)
  run-IsFair t s events new =
      let h =
        run-IsSound events s
          (subst (IsSound opts) (new_faucet-eq-some t s new) (started-IsSound t)) in
      (h.fair, h.matched)
