-- ===== src/Cctp/Jobs.antt =====
-- Every job of the relay ends, with the record of its burn settled.
use Prim.Native.String.{String}
use writz.Prelude.{
  ℕ, ◌<◌, ◌≡◌, refl, subst, Bool, true, Option, none, some, arith, Bool-cases, inl, inr,
}
use writz.Prelude.OrderedMap.{get}
use writz.Cctp.Store.{RelayRecord, truthy, is_settled, is_arrived}
use writz.Cctp.Job.{World, return, ◌>>=◌, ◌>>◌, RelayOptions}
use writz.Cctp.Service.{lookup_record, transient}
use writz.Cctp.Mint.{mint}
use writz.Cctp.Relay.{
  Polled, polled, out_of_fuel, await_message, mint_polled, run_record, run_found, run,
  on_error_found, on_error,
}
use writz.Cctp.Held.{
  Holds, Held, Anything, Settled, Ok, Ensures, bind-Ensures, and_then-Ok, return-Ensures,
}
use writz.Cctp.Upkeep.{transient-Ensures}
use writz.Cctp.Settles.{Signed, mint-Settles}
use writz.Cctp.Polling.{Ends, await_message-Ends}

arrived_settled : (r : RelayRecord) → is_arrived r.state ≡ true → is_settled r ≡ true
unfolding is_settled
arrived_settled r h = ground arith

module _ (opts : RelayOptions) (key : String) where
  -- The parameters of the relay's polling are positive, and the fuel outlasts its window.
  abbrev pub IsEnough : ℕ → Type 0
  IsEnough fuel =
      (0 < opts.settings.poll_initial_ms)
      × (0 < opts.settings.poll_max_ms)
      × (opts.settings.confirm_timeout_ms < fuel)

  -- A job's value is `true`, and the record of its burn is settled.
  abbrev pub Finished : Bool → World → Type 0
  Finished done w = (done ≡ true) × Held key Settled w

  mint-Finished : Ensures key (Held key Signed) (mint opts key >> return true) Finished
  mint-Finished =
      bind-Ensures key (mint opts key) (λ _. return true) (λ _. Held key Settled) Finished
        (mint-Settles opts key) (λ _. return-Ensures key true (λ w h. (refl, h)))

  mint_polled-Finished :
      (p : Polled) → Ensures key (Ends opts key p) (mint_polled opts key p) Finished
  unfolding mint_polled
  mint_polled-Finished out_of_fuel = record { runs = λ w h. absurd h }
  mint_polled-Finished (polled r) = record {
    runs = λ w (h, signed). elim (Bool-cases (is_settled r)) [
      | inl settled ↦ rw (mint_polled, settled) (refl, (r, h, settled))
      | inr unsettled ↦ rw (mint_polled, unsettled) (mint-Finished.runs w (r, h, signed))
    ];
  }

  run_record-Finished :
      (fuel : ℕ) (r : RelayRecord) (w : World)
      → IsEnough fuel
      → Holds key r w
      → Ok key Finished (run_record opts fuel key r w)
  unfolding run_record ◌>>=◌
  run_record-Finished fuel r w (first, room, enough) h = elim (Bool-cases (is_settled r)) [
    | inl settled ↦ rw (run_record, settled) (refl, (r, h, settled))
    | inr unsettled ↦ elim (Bool-cases (truthy r.attestation)) [
      | inl signed ↦ rw (run_record, unsettled, signed) (mint-Finished.runs w (r, h, inr signed))
      | inr unsigned ↦
          rw (run_record, unsettled, unsigned)
            (and_then-Ok key (await_message opts fuel r w) (mint_polled opts key) (Ends opts key)
              Finished (await_message-Ends opts key fuel r w first room enough h)
              mint_polled-Finished)
    ]
  ]

  run_found-Finished :
      (fuel : ℕ) (current : Option RelayRecord) (w : World)
      → IsEnough fuel
      → get key w.records ≡ current
      → Held key Anything w
      → Ok key Finished (run_found opts fuel key current w)
  unfolding run_found
  run_found-Finished fuel none w enough e (r, (present, same, ready), p) = absurd cc
  run_found-Finished fuel (some r') w enough e (r, (present, same, ready), p) =
      let one : r ≡ r' = cc in
      subst (λ r'. Ok key Finished (run_record opts fuel key r' w)) one
        (run_record-Finished fuel r w enough (present, same, ready))

  pub run-Finished :
      (fuel : ℕ) → IsEnough fuel → Ensures key (Held key Anything) (run opts fuel key) Finished
  unfolding run lookup_record ◌>>=◌
  run-Finished fuel enough = record {
    runs = λ w h. run_found-Finished fuel (get key w.records) w enough refl h;
  }

  -- What a thrown error leaves is settled behind the `catch`.
  on_error_found-Finished :
      (current : Option RelayRecord) (w : World)
      → get key w.records ≡ current
      → Held key Anything w
      → Ok key Finished (on_error_found opts key current w)
  unfolding on_error_found
  on_error_found-Finished none w e (r, (present, same, ready), p) = absurd cc
  on_error_found-Finished (some r') w e (r, (present, same, ready), p) =
      let one : r ≡ r' = cc in
      subst (λ r'. Ok key Finished (on_error_found opts key (some r') w)) one
        (elim (Bool-cases (is_arrived r.state)) [
          | inl there ↦
              let settled : is_settled r ≡ true = arrived_settled r there in
              rw (on_error_found, there) (refl, (r, (present, same, ready), settled))
          | inr elsewhere ↦
              rw (on_error_found, elsewhere)
                ((bind-Ensures key (transient opts key _ _) (λ _. return true)
                    (λ _. Held key Settled) Finished (transient-Ensures opts key _ _)
                    (λ _. return-Ensures key true (λ w h. (refl, h)))).runs
                  w (r, (present, same, ready), p))
        ])

  pub on_error-Finished : (w : World) → Held key Anything w → Ok key Finished (on_error opts key w)
  unfolding on_error lookup_record ◌>>=◌
  on_error-Finished w h = on_error_found-Finished (get key w.records) w refl h
