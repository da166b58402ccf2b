-- ===== src/Cctp/Launch.antt =====
-- A launched job always ends with the record of its burn settled, whatever it throws.
use Prim.Native.String.{String}
use text.Mathlib.TextPositions.{eq_refl}
use writz.Prelude.{
  ℕ, ◌≡◌, refl, sym, ap, ◌∙◌, subst, Bool, true, false, Option, none, some, leb, if◌then◌else◌,
}
use writz.Prelude.OrderedMap.{get, set, get-set}
use writz.Cctp.Store.{RelayRecord, FailureCode, gave_up, put, is_arrived}
use writz.Cctp.Job.{
  World, Job, return, and_then, ◌>>=◌, ◌>>◌, attempt, call, now, tick, RelayOptions,
}
use writz.Cctp.Service.{
  lookup_record, put_record, update, update_found, fail, failing, transient, transient_at,
  scheduling, counting, retry_give_up_ms,
}
use writz.Cctp.Mint.{note_balance}
use writz.Cctp.Relay.{
  resuming, run, can_pay_for_mint, resume_now, resume_failed, on_error_found, on_error, caught, job,
  is_out_of_gas,
}
use writz.Cctp.Held.{
  Holds, Held, Anything, Settled, Ok, Ensures, bind-Ensures, if-Ensures, return-Ensures,
  weaken-Ensures, option-Ensures, attempt-call-Ensures, now-Ensures,
}
use writz.Cctp.Upkeep.{update-Ensures, IsPatch}
use writz.Cctp.Polling.{transient_for}
use writz.Cctp.Jobs.{IsEnough, Finished, run-Finished, on_error-Finished}

-- A job that does not throw, and keeps the record.
pub record IsTotal {ℓ} {A : Type ℓ} (key : String) (m : Job A) : Type ℓ where
  pub runs :
      (w : World)
      → Held key Anything w
      → (a : A) × (w' : World) × (m w ≡ (some a, w')) × Held key Anything w'

module _ (opts : RelayOptions) (key : String) where
  bind-IsTotal {ℓ κ} :
      {A : Type ℓ} {B : Type κ} (m : Job A) (k : A → Job B)
      → IsTotal key m
      → ((a : A) → IsTotal key (k a))
      → IsTotal key (m >>= k)
  unfolding ◌>>=◌
  bind-IsTotal m k h h' = record {
    runs = λ w held.
        let (a, w', e, held') = h.runs w held in
        let (b, w'', e', held'') = (h' a).runs w' held' in
        (b, w'', ap (λ p. and_then p k) e ∙ e', held'');
  }

  if-IsTotal {ℓ} :
      {A : Type ℓ} (b : Bool) (m n : Job A)
      → IsTotal key m
      → IsTotal key n
      → IsTotal key (if b then m else n)
  if-IsTotal true m n h h' = h
  if-IsTotal false m n h h' = h'

  return-IsTotal {ℓ} : {A : Type ℓ} (a : A) → IsTotal key (return a)
  return-IsTotal a = record { runs = λ w held. (a, w, refl, held) }

  now-IsTotal : IsTotal key (now opts)
  unfolding now tick
  now-IsTotal = record { runs = λ w held. (w.time, tick opts w, refl, held) }

  lookup-IsTotal : IsTotal key (lookup_record key)
  unfolding lookup_record
  lookup-IsTotal = record { runs = λ w held. (get key w.records, w, refl, held) }

  update-IsTotal :
      (patch : RelayRecord → RelayRecord) → IsPatch patch → IsTotal key (update opts key patch)
  unfolding update update_found lookup_record put_record now tick put ◌>>=◌
  update-IsTotal patch is_patch = record {
    runs = λ w (r, (present, same, ready), p).
        let next : RelayRecord = record (patch r) { updated_at = w.time } in
        let (kept, stays) = is_patch r in
        let e : (patch r).burn_hash ≡ key = kept ∙ same in
        let found : get key (set (patch r).burn_hash next w.records) ≡ some next =
          subst (λ k. get key (set k next w.records) ≡ some next) (sym e)
            (simp (get-set, eq_refl)) in
        (
          next,
          record (tick opts w) { records = set (patch r).burn_hash next w.records },
          ap (λ o. update_found opts patch o w) present,
          (next, (found, e, stays ready), tt),
        );
  }

  transient-IsTotal :
      (code : FailureCode) (reason : String) → IsTotal key (transient opts key code reason)
  unfolding transient transient_at scheduling counting fail failing
  transient-IsTotal code reason = bind-IsTotal (lookup_record key) _ lookup-IsTotal (λ current.
      bind-IsTotal (now opts) _ now-IsTotal (λ t.
        if-IsTotal (leb retry_give_up_ms _) _ _
          (bind-IsTotal (update opts key (counting _ _)) _
            (update-IsTotal (counting _ _) (λ r. (refl, λ h. h)))
            (λ r.
              bind-IsTotal (update opts key (failing gave_up _)) _
                (update-IsTotal (failing gave_up _) (λ r. (refl, λ h. h)))
                (λ r. return-IsTotal tt)))
          (bind-IsTotal (update opts key (scheduling _ _ _ _ _)) _
            (update-IsTotal (scheduling _ _ _ _ _) (λ r. (refl, λ h. h)))
            (λ r. return-IsTotal tt))))

  on_error_found-IsTotal :
      (current : Option RelayRecord) → IsTotal key (on_error_found opts key current)
  unfolding on_error_found
  on_error_found-IsTotal none = return-IsTotal true
  on_error_found-IsTotal (some r) =
      if-IsTotal (is_arrived r.state) _ _ (return-IsTotal true)
        (bind-IsTotal (transient opts key _ _) _ (transient-IsTotal _ _) (λ _. return-IsTotal true))

  on_error-IsTotal : IsTotal key (on_error opts key)
  unfolding on_error
  on_error-IsTotal = bind-IsTotal (lookup_record key) _ lookup-IsTotal on_error_found-IsTotal

  abbrev pub EndsSettled : Option Bool × World → Type 0
  EndsSettled p = (p.0 ≡ some true) × Held key Settled p.1

  Finished-settled :
      (p : Option Bool × World) (b : Bool) (w : World)
      → p ≡ (some b, w)
      → Ok key (Finished opts key) p
      → EndsSettled p
  Finished-settled p b w e h =
      let (done, held) : Ok key (Finished opts key) (some b, w) =
        subst (λ p. Ok key (Finished opts key) p) e h in
      subst EndsSettled (sym e) (ap some done, held)

  caught-EndsSettled :
      (p : Option Bool × World) → Ok key (Finished opts key) p → EndsSettled (caught opts key p)
  unfolding caught
  caught-EndsSettled (some b, w) h = Finished-settled (some b, w) b w refl h
  caught-EndsSettled (none, w) h =
      let (b, w', e, held) = on_error-IsTotal.runs w h in
      Finished-settled (on_error opts key w) b w' e (on_error-Finished opts key w h)

  -- A launched `run` of a burn with a record of its own hash, which has its nonce and message where
  -- it has a signature, ends, with the record arrived or failed, if the fuel
  -- exceeds the confirmation window and the poll intervals are positive: whatever the chain,
  -- Iris and the indexer answer or throw, and however long their calls take.
  pub job-run-EndsSettled :
      (fuel : ℕ) (w : World)
      → IsEnough opts key fuel
      → Held key Anything w
      → EndsSettled (job opts key (run opts fuel key) w)
  unfolding job
  job-run-EndsSettled fuel w enough h =
      caught-EndsSettled (run opts fuel key w) ((run-Finished opts key fuel enough).runs w h)

  can_pay_for_mint-Ensures :
      Ensures key (Held key Anything) (can_pay_for_mint opts) (λ _. Held key Anything)
  unfolding can_pay_for_mint note_balance
  can_pay_for_mint-Ensures =
      bind-Ensures key (attempt (call opts _)) _ (λ _. Held key Anything) _
        (attempt-call-Ensures opts key Anything _)
        (λ answer. option-Ensures key answer _ _ (return-Ensures key false (λ w h. h)) (λ wei.
          bind-Ensures key _ _ (λ _. Held key Anything) _
            (bind-Ensures key (now opts) _ (λ _. Held key Anything) _
              (now-Ensures opts key Anything) (λ t. record { runs = λ w h. h }))
            (λ _. return-Ensures key _ (λ w h. h))))

  resume_now-Finished :
      (fuel : ℕ) (r : RelayRecord)
      → IsEnough opts key fuel
      → r.burn_hash ≡ key
      → Ensures key (Held key Anything) (resume_now opts fuel r) (Finished opts key)
  unfolding resume_now resuming
  resume_now-Finished fuel r enough e =
      subst
        (λ k.
          Ensures key (Held key Anything) (update opts k (resuming r) >> run opts fuel k)
            (Finished opts key))
        (sym e)
        (bind-Ensures key (update opts key (resuming r)) _ (λ r w. Holds key r w × Anything r) _
          (update-Ensures opts key (resuming r) Anything (λ r. (refl, λ h. h)) (λ r t. tt))
          (λ r.
            weaken-Ensures key (run opts fuel key) (λ w (h, p). (r, h, p))
              (run-Finished opts key fuel enough)))

  resume_failed-Finished :
      (fuel : ℕ) (r : RelayRecord)
      → IsEnough opts key fuel
      → r.burn_hash ≡ key
      → Ensures key (Held key Anything) (resume_failed opts fuel r) (Finished opts key)
  unfolding resume_failed
  resume_failed-Finished fuel r enough e =
      if-Ensures key (is_out_of_gas r.failure_code) _ _
        (bind-Ensures key (can_pay_for_mint opts) _ (λ _. Held key Anything) _
          can_pay_for_mint-Ensures
          (λ pays. if-Ensures key pays _ _ (resume_now-Finished fuel r enough e) (
            bind-Ensures key (transient opts r.burn_hash _ _) _ (λ _. Held key Settled) _
              (transient_for opts key r.burn_hash _ _ e)
              (λ _. return-Ensures key true (λ w h. (refl, h))))))
        (resume_now-Finished fuel r enough e)

  -- So does a launched retry of a record, `r` being what it was when the retry came due.
  pub job-resume_failed-EndsSettled :
      (fuel : ℕ) (r : RelayRecord) (w : World)
      → IsEnough opts key fuel
      → r.burn_hash ≡ key
      → Held key Anything w
      → EndsSettled (job opts key (resume_failed opts fuel r) w)
  unfolding job
  job-resume_failed-EndsSettled fuel r w enough e h =
      caught-EndsSettled (resume_failed opts fuel r w)
        ((resume_failed-Finished fuel r enough e).runs w h)
