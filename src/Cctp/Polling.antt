-- ===== src/Cctp/Polling.antt =====
-- The polling of Iris ends, with the record of the burn settled or signed.
use Prim.Native.String.{String}
use writz.Prelude.{
  ℕ, zero, suc, ◌+◌, ◌-◌, ◌*◌, ◌≤◌, ◌<◌, min, ◌≡◌, refl, sym, subst, true, Option, none, some, leb,
  arith, Bool-cases, inl, inr, Option-cases,
}
use writz.Prelude.OrderedMap.{get}
use writz.Cctp.Message.{Bytes, HexText, RelayableBurn, Checked, accepted, assert_relayable}
use writz.Cctp.Message
use writz.Cctp.Store.{RelayRecord, RelayState, confirming, FailureCode, truthy, or_else, is_sent}
use writz.Cctp.Job.{
  World, Job, return, and_then, ◌>>=◌, call, now, tick, sleep, RelayOptions, IrisLookup, unknown,
  pending_message, complete, read_response, read_message, IrisResponse, IrisMessage, answered,
  not_found, not_ok,
}
use writz.Cctp.Service.{lookup_record, put_record, update_found, update, fail, transient}
use writz.Cctp.Relay.{
  Verdict, stop, again, Polled, polled, out_of_fuel, confirming_message, with_state, reread,
  on_checked, on_complete, poll_limit, on_timeout, check_window, check, poll, await_message,
}
use writz.Cctp.Held.{
  Holds, Held, Anything, Settled, Ok, Ensures, bind-Ensures, if-Ensures, return-Ensures,
}
use writz.Cctp.Upkeep.{update-Ensures, fail-Ensures, transient-Ensures}
use writz.Cctp.Settles.{Signed}

-- A complete answer carries a signature.
unfoldable pub HasSignature : Option IrisLookup → Type 0
HasSignature (some (complete message attestation)) = truthy (some attestation) ≡ true
HasSignature _ = Unit

read_message-HasSignature : (m : IrisMessage) → HasSignature (some (read_message m))
unfolding read_message HasSignature truthy
read_message-HasSignature m = elim (Option-cases m.message) [
  | inl no_message ↦ ground arith
  | inr (message, e) ↦ ground arith
]

read_response-HasSignature : (o : Option IrisResponse) → HasSignature (read_response o)
unfolding read_response HasSignature
read_response-HasSignature none = tt
read_response-HasSignature (some not_found) = tt
read_response-HasSignature (some not_ok) = tt
read_response-HasSignature (some (answered none)) = tt
read_response-HasSignature (some (answered (some m))) = read_message-HasSignature m

module _ (opts : RelayOptions) (key : String) where
  -- The record that a job goes on with is the one in the store.
  abbrev pub Kept : RelayRecord → World → Type 0
  Kept r w = Holds key r w × Signed r

  -- The record's own burn hash is the key.
  fail_for :
      (burn_hash : String) (code : FailureCode) (reason : String)
      → burn_hash ≡ key
      → Ensures key (Held key Anything) (fail opts burn_hash code reason) (λ _. Held key Settled)
  fail_for burn_hash code reason e =
      subst (λ k. Ensures key (Held key Anything) (fail opts k code reason) (λ _. Held key Settled))
        (sym e) (fail-Ensures opts key code reason)

  pub transient_for :
      (burn_hash : String) (code : FailureCode) (reason : String)
      → burn_hash ≡ key
      → Ensures key
          (Held key Anything)
          (transient opts burn_hash code reason)
          (λ _. Held key Settled)
  transient_for burn_hash code reason e =
      subst
        (λ k.
          Ensures key (Held key Anything) (transient opts k code reason) (λ _. Held key Settled))
        (sym e) (transient-Ensures opts key code reason)

  -- `reread` finds the settled record.
  reread-Ensures :
      (r : RelayRecord) → r.burn_hash ≡ key → Ensures key (Held key Settled) (reread r) Kept
  unfolding reread lookup_record ◌>>=◌ or_else
  reread-Ensures r e = record {
    runs = λ w (s, (present, same, ready), settled).
        let found : get r.burn_hash w.records ≡ some s =
          subst (λ k. get k w.records ≡ some s) (sym e) present in
        subst (λ o. Kept (or_else o r) w) (sym found) ((present, same, ready), inl settled);
  }

  on_checked-Ensures :
      (r : RelayRecord) (message : HexText) (attestation : String) (checked : Checked RelayableBurn)
      → r.burn_hash ≡ key
      → truthy (some attestation) ≡ true
      → Ensures key (Held key Anything) (on_checked opts r message attestation checked) Kept
  unfolding on_checked confirming_message
  on_checked-Ensures r message attestation (Message.refused reason) e signed =
      bind-Ensures key (fail opts r.burn_hash _ _) _ (λ _. Held key Settled) _
        (fail_for r.burn_hash _ _ e) (λ _. reread-Ensures r e)
  on_checked-Ensures r message attestation (accepted burn) e signed =
      subst
        (λ k.
          Ensures key (Held key Anything)
            (update opts k (confirming_message message attestation burn)) Kept)
        (sym e)
        (update-Ensures opts key (confirming_message message attestation burn) Signed
          (λ r'. (refl, λ _. inr (burn.message.nonce, message, refl, refl))) (λ r' t. inr signed))

  on_timeout-Ensures :
      (r : RelayRecord)
      → r.burn_hash ≡ key
      → Ensures key (Held key Anything) (on_timeout opts r) Kept
  unfolding on_timeout
  on_timeout-Ensures r e =
      bind-Ensures key _ _ (λ _. Held key Settled) _
        (if-Ensures key (is_sent r.state) _ _ (fail_for r.burn_hash _ _ e)
          (transient_for r.burn_hash _ _ e))
        (λ _. reread-Ensures r e)

  -- The loop waits on: the time is at least `t`, and `t` is within the window.
  abbrev pub Within : ℕ → ℕ → Verdict → World → Type 0
  Within begun t (stop last) w = Kept last w
  Within begun t (again next) w =
      Holds key next w × (t ≤ w.time) × (t - begun < opts.settings.confirm_timeout_ms)

  poll_limit-le : (r : RelayRecord) → poll_limit opts r ≤ opts.settings.confirm_timeout_ms
  unfolding poll_limit
  poll_limit-le r = ground arith

  check_window-Within :
      (begun t : ℕ) (r : RelayRecord) (w : World)
      → Holds key r w
      → t ≤ w.time
      → Ok key (Within begun t) (check_window opts begun r w)
  unfolding check_window now tick ◌>>=◌
  check_window-Within begun t r w h later =
      elim (Bool-cases (leb (poll_limit opts r) (w.time - begun))) [
        | inl over ↦
            rw (check_window, over)
              ((bind-Ensures key (on_timeout opts r) (λ last. return (stop last)) Kept
                  (Within begun t) (on_timeout-Ensures r h.1)
                  (λ last. return-Ensures key (stop last) (λ w h. h))).runs
                (tick opts w) (r, h, tt))
        | inr goes ↦
            let below = poll_limit-le r in rw (check_window, goes) (h, omega arith, ground arith)
      ]

  window_after :
      (begun t : ℕ) (p : Option RelayRecord × World)
      → Ok key (λ r w. Holds key r w × Anything r) p
      → t ≤ p.1.time
      → Ok key (Within begun t) (and_then p (check_window opts begun))
  window_after begun t (none, w) h later = h
  window_after begun t (some r, w) (h, p) later = check_window-Within begun t r w h later

  update_found-time :
      (patch : RelayRecord → RelayRecord) (current : Option RelayRecord) (w : World)
      → w.time ≤ (update_found opts patch current w).1.time
  unfolding update_found put_record now tick ◌>>=◌
  update_found-time patch none w = omega arith
  update_found-time patch (some r) w = omega arith

  update-time :
      (burn_hash : String) (patch : RelayRecord → RelayRecord) (w : World)
      → w.time ≤ (update opts burn_hash patch w).1.time
  unfolding update lookup_record ◌>>=◌
  update-time burn_hash patch w = update_found-time patch (get burn_hash w.records) w

  update_state :
      (s : RelayState) (burn_hash : String)
      → burn_hash ≡ key
      → Ensures key
          (Held key Anything)
          (update opts burn_hash (with_state s))
          (λ r w. Holds key r w × Anything r)
  unfolding with_state
  update_state s burn_hash e =
      subst
        (λ k.
          Ensures key (Held key Anything) (update opts k (with_state s))
            (λ r w. Holds key r w × Anything r))
        (sym e) (update-Ensures opts key (with_state s) Anything (λ r. (refl, λ h. h)) (λ r t. tt))

  check-Within :
      (begun t : ℕ) (r : RelayRecord) (lookup : Option IrisLookup) (w : World)
      → HasSignature lookup
      → Holds key r w
      → t ≤ w.time
      → Ok key (Within begun t) (check opts begun r lookup w)
  unfolding check on_complete HasSignature ◌>>=◌
  check-Within begun t r none w signed h later = check_window-Within begun t r w h later
  check-Within begun t r (some unknown) w signed h later = check_window-Within begun t r w h later
  check-Within begun t r (some (complete message attestation)) w signed h later =
      (bind-Ensures key (on_complete opts r message attestation) (λ last. return (stop last)) Kept
          (Within begun t) (on_checked-Ensures r message attestation _ h.1 signed)
          (λ last. return-Ensures key (stop last) (λ w h. h))).runs
        w (r, h, tt)
  check-Within begun t r (some pending_message) w signed h later =
      elim (Bool-cases (is_sent r.state)) [
        | inr known ↦ rw (check, known, ◌>>=◌) (check_window-Within begun t r w h later)
        | inl new ↦
            let up = (update_state confirming r.burn_hash h.1).runs w (r, h, tt) in
            let after : t ≤ (update opts r.burn_hash (with_state confirming) w).1.time =
              omega (arith, update-time r.burn_hash (with_state confirming) w) in
            rw (check, new, ◌>>=◌) (window_after begun t _ up after)
      ]

  -- What the polling ends with: the record of the burn, settled or signed, and never out of fuel.
  abbrev pub Ends : Polled → World → Type 0
  Ends (polled r) w = Kept r w
  Ends out_of_fuel w = ⊥

  verdict-Ends :
      (begun t : ℕ) (k : RelayRecord → Job Polled) (p : Option Verdict × World)
      → ((next : RelayRecord) (w : World) → Within begun t (again next) w → Ok key Ends (k next w))
      → Ok key (Within begun t) p
      → Ok key Ends (
          and_then p (λ verdict. elim verdict as (λ _. Job Polled) [
            | stop last ↦ return (polled last)
            | again next ↦ k next
          ]))
  verdict-Ends begun t k (none, w) on h = h
  verdict-Ends begun t k (some (stop last), w) on h = h
  verdict-Ends begun t k (some (again next), w) on h = on next w h

  poll-Ends :
      (fuel begun : ℕ) (r : RelayRecord) (delay : ℕ) (w : World)
      → 0 < opts.settings.poll_max_ms
      → Holds key r w
      → 0 < delay
      → 0 < fuel
      → begun ≤ w.time
      → opts.settings.confirm_timeout_ms < fuel + (w.time - begun)
      → Ok key Ends (poll opts fuel begun r delay w)
  unfolding poll call sleep tick ◌>>=◌
  poll-Ends zero begun r delay w room h waits pos begins enough = absurd (omega arith)
  poll-Ends (suc fuel) begun r delay w room h waits pos begins enough =
      let later : w.time ≤ w.time + opts.elapsed w.calls = omega arith in
      verdict-Ends begun w.time _ (check opts begun r _ (tick opts w))
        (λ next w' (h', after, below).
          let fuel_left : 0 < fuel = omega arith in
          poll-Ends fuel begun next (min (delay * 2) opts.settings.poll_max_ms) _ room h'
            (omega arith) fuel_left (omega arith) (omega arith))
        (check-Within begun w.time r _ (tick opts w) (read_response-HasSignature _) h later)

  pub await_message-Ends :
      (fuel : ℕ) (r : RelayRecord) (w : World)
      → 0 < opts.settings.poll_initial_ms
      → 0 < opts.settings.poll_max_ms
      → opts.settings.confirm_timeout_ms < fuel
      → Holds key r w
      → Ok key Ends (await_message opts fuel r w)
  unfolding await_message now tick ◌>>=◌
  await_message-Ends fuel r w first room enough h =
      poll-Ends fuel w.time r opts.settings.poll_initial_ms (tick opts w) room h first (omega arith)
        (omega arith) (omega arith)
