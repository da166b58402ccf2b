-- ===== src/Cctp/Sends.antt =====
-- When the relay sends a mint.
use Prim.Native.String.{String}
use writz.Prelude.{suc, ◌≤◌, ◌<◌, ◌≡◌, true, false, ◌∷◌, some, ◌⊎◌}
use writz.Prelude.OrderedMap
use writz.Cctp.Message.{Bytes, HexText}
use writz.Cctp.Store.{RelayRecord, truthy, or_else, is_settled, count_submitted_since}
use writz.Cctp.Job.{World, tick, RelayOptions, simulated}
use writz.Cctp.Service.{is_nonce_used, start_of_utc_day}

module _ (opts : RelayOptions) where
  -- A mint of the nonce is sent from `w1` on: the nonce was not used, the daily cap not reached,
  -- and the simulation passed.
  abbrev pub PassesChecks : Bytes → HexText → String → World → Type 0
  PassesChecks nonce message attestation w1 =
      (opts.chain.is_nonce_used w1.calls nonce ≡ some false)
      × (count_submitted_since (start_of_utc_day (tick opts w1).time) w1.records
          < opts.settings.daily_cap)
      × (opts.chain.simulate_receive (suc (suc w1.calls)) message attestation ≡ some simulated)

  -- What came before a mint changed nothing of the store.
  abbrev pub IsLater : World → World → Type 0
  IsLater w w1 = (w1.records ≡ w.records) × (w.calls ≤ w1.calls) × (w.time ≤ w1.time)

  -- The records, the clock and the log are as they were at a later state.
  abbrev pub IsSent : Bytes → HexText → String → World → World → Type 0
  IsSent nonce message attestation w w' =
      (w'.sends ≡ nonce ∷ w.sends)
      × ((w1 : World) × IsLater w w1 × PassesChecks nonce message attestation w1)

  -- What a mint needs of the record.
  abbrev pub IsMintable : String → World → RelayRecord → Bytes → HexText → Type 0
  IsMintable burn_hash w r nonce message =
      (OrderedMap.get burn_hash w.records ≡ some r)
      × (r.nonce ≡ some nonce)
      × (r.message ≡ some message)
      × (truthy r.attestation ≡ true)
      × (is_settled r ≡ false)

  -- From one state to the other no mint is sent, or one that was checked.
  abbrev pub SendsAtMostOne : String → World → World → Type 0
  SendsAtMostOne burn_hash w w' =
      (w'.sends ≡ w.sends)
      ⊎ ((r : RelayRecord) × (nonce : Bytes) × (message : HexText) × IsMintable burn_hash w r nonce
            message
          × IsSent nonce message (or_else r.attestation "") w w')
