-- ===== src/Cctp/Settles.antt =====
-- The mint settles the record of its burn.
use Prim.Native.String.{String}
use writz.Prelude.{
  ◌≡◌, refl, subst, Bool, true, not, ◌&&◌, ◌||◌, Option, none, some, leb, arith, Bool-cases, ◌⊎◌,
  inl, inr,
}
use writz.Prelude.OrderedMap.{get}
use writz.Cctp.Message.{Bytes, HexText}
use writz.Cctp.Store.{RelayRecord, truthy, is_settled}
use writz.Cctp.Job.{
  World, Job, ◌>>=◌, attempt, call, now, tick, RelayOptions, ReceiptOutcome, success, revert,
  pending, SimulateOutcome, simulated, not_simulated, SendOutcome, broadcast, insufficient_funds,
  send_error,
}
use writz.Cctp.Service.{lookup_record, update, set_arrived, is_nonce_used, await_receipt}
use writz.Cctp.Mint.{
  warn_if_low, note_balance, forget_balance, minted_since, after_receipt, after_send, send_receive,
  send_mint, on_sent, not_ok, on_simulated, on_earlier, simulate_mint, capped_mint, new_mint,
  earlier_mint, mint_ready, mint_with, mint_found, mint, by_relay, submitting,
}
use writz.Cctp.Held.{
  IsReady, Holds, Held, Anything, Settled, Ok, Ensures, bind-Ensures, if-Ensures, return-Ensures,
  option-Ensures, receipt-Ensures, call-Ensures, attempt-call-Ensures, now-Ensures,
}
use writz.Cctp.Upkeep.{
  update-Ensures, fail-Ensures, transient-Ensures, set_arrived-Ensures, minted_elsewhere-Ensures,
  await_receipt-Ensures,
}

-- What the mint settles: a record that is settled, or has Circle's signature.
abbrev pub Signed : RelayRecord → Type 0
Signed r = (is_settled r ≡ true) ⊎ (truthy r.attestation ≡ true)

module _ (opts : RelayOptions) (key : String) where
  -- The job settles the record, from any state of it.
  abbrev pub Settles : Job (Unit {0}) → Type 0
  Settles m = Ensures key (Held key Anything) m (λ _. Held key Settled)

  nonce-Ensures :
      (nonce : Bytes)
      → Ensures key (Held key Anything) (is_nonce_used opts nonce) (λ _. Held key Anything)
  unfolding is_nonce_used
  nonce-Ensures nonce = call-Ensures opts key Anything _

  after_receipt-Settles :
      (nonce : Bytes) (outcome : ReceiptOutcome) → Settles (after_receipt opts key nonce outcome)
  unfolding after_receipt
  after_receipt-Settles nonce outcome =
      bind-Ensures key (is_nonce_used opts nonce) _ (λ _. Held key Anything) _ (nonce-Ensures nonce)
        (λ used. if-Ensures key used _ _ (minted_elsewhere-Ensures opts key nonce) (
          receipt-Ensures key outcome _ _ _ (transient-Ensures opts key _ _)
            (transient-Ensures opts key _ _) (transient-Ensures opts key _ _)))

  warn_if_low-Ensures : Ensures key (Held key Settled) (warn_if_low opts) (λ _. Held key Settled)
  unfolding warn_if_low note_balance
  warn_if_low-Ensures =
      bind-Ensures key (attempt (call opts _)) _ (λ _. Held key Settled) _
        (attempt-call-Ensures opts key Settled _)
        (λ answer. option-Ensures key answer _ _ (return-Ensures key tt (λ w h. h)) (λ wei.
          bind-Ensures key (now opts) _ (λ _. Held key Settled) _ (now-Ensures opts key Settled)
            (λ t. record { runs = λ w h. h })))

  after_send-Settles :
      (nonce : Bytes) (mint_hash : String) → Settles (after_send opts key nonce mint_hash)
  unfolding after_send forget_balance submitting
  after_send-Settles nonce mint_hash =
      bind-Ensures key (now opts) _ (λ _. Held key Anything) _ (now-Ensures opts key Anything)
        (λ t.
          bind-Ensures key _ _ (λ _. Held key Anything) _
            (bind-Ensures key (update opts key (submitting mint_hash t)) _
              (λ r w. Holds key r w × Anything r) _
              (update-Ensures opts key (submitting mint_hash t) Anything (λ r. (refl, λ h. h))
                (λ r t. tt))
              (λ r. record { runs = λ w (h, p). (r, h, p) }))
            (λ _.
              bind-Ensures key (await_receipt opts 4 mint_hash) _ (λ _. Held key Anything) _
                (await_receipt-Ensures opts key 4 mint_hash)
                (λ outcome.
                  receipt-Ensures key outcome _ _ _
                    (bind-Ensures key (set_arrived opts key _ _) _ (λ _. Held key Settled) _
                      (set_arrived-Ensures opts key _ _) (λ _. warn_if_low-Ensures))
                    (after_receipt-Settles nonce revert) (after_receipt-Settles nonce pending))))

  on_sent-Settles :
      (nonce : Bytes) (outcome : SendOutcome) → Settles (on_sent opts key nonce outcome)
  unfolding on_sent
  on_sent-Settles nonce (broadcast mint_hash) = after_send-Settles nonce mint_hash
  on_sent-Settles nonce insufficient_funds = transient-Ensures opts key _ _
  on_sent-Settles nonce send_error = transient-Ensures opts key _ _

  send_mint-Settles :
      (nonce : Bytes) (message : HexText) (attestation : String)
      → Settles (send_mint opts key nonce message attestation)
  unfolding send_mint send_receive tick
  send_mint-Settles nonce message attestation =
      bind-Ensures key (send_receive opts nonce message attestation) _ (λ _. Held key Anything) _
        (record { runs = λ w h. h }) (on_sent-Settles nonce)

  not_ok-Settles :
      (nonce : Bytes) (is_transient : Bool) (reason : Option String)
      → Settles (not_ok opts key nonce is_transient reason)
  unfolding not_ok
  not_ok-Settles nonce is_transient reason =
      bind-Ensures key (is_nonce_used opts nonce) _ (λ _. Held key Anything) _ (nonce-Ensures nonce)
        (λ used. if-Ensures key used _ _ (minted_elsewhere-Ensures opts key nonce) (
          if-Ensures key is_transient _ _ (transient-Ensures opts key _ _)
            (fail-Ensures opts key _ _)))

  on_simulated-Settles :
      (nonce : Bytes) (message : HexText) (attestation : String) (sim : SimulateOutcome)
      → Settles (on_simulated opts key nonce message attestation sim)
  unfolding on_simulated
  on_simulated-Settles nonce message attestation simulated =
      send_mint-Settles nonce message attestation
  on_simulated-Settles nonce message attestation (not_simulated is_transient reason) =
      not_ok-Settles nonce is_transient reason

  capped_mint-Settles :
      (nonce : Bytes) (message : HexText) (attestation : String)
      → Settles (capped_mint opts key nonce message attestation)
  unfolding capped_mint minted_since simulate_mint
  capped_mint-Settles nonce message attestation =
      bind-Ensures key (now opts) _ (λ _. Held key Anything) _ (now-Ensures opts key Anything)
        (λ t.
          bind-Ensures key (minted_since _) _ (λ _. Held key Anything) _
            (record { runs = λ w h. h })
            (λ minted.
              if-Ensures key (leb opts.settings.daily_cap minted) _ _
                (transient-Ensures opts key _ _)
                (bind-Ensures key (call opts _) _ (λ _. Held key Anything) _
                  (call-Ensures opts key Anything _)
                  (on_simulated-Settles nonce message attestation))))

  new_mint-Settles :
      (nonce : Bytes) (message : HexText) (attestation : String)
      → Settles (new_mint opts key nonce message attestation)
  unfolding new_mint
  new_mint-Settles nonce message attestation =
      bind-Ensures key (is_nonce_used opts nonce) _ (λ _. Held key Anything) _ (nonce-Ensures nonce)
        (λ used.
          if-Ensures key used _ _ (minted_elsewhere-Ensures opts key nonce)
            (capped_mint-Settles nonce message attestation))

  on_earlier-Settles :
      (nonce : Bytes) (message : HexText) (attestation mint_hash : String)
      (outcome : ReceiptOutcome)
      → Settles (on_earlier opts key nonce message attestation mint_hash outcome)
  unfolding on_earlier
  on_earlier-Settles nonce message attestation mint_hash success = set_arrived-Ensures opts key _ _
  on_earlier-Settles nonce message attestation mint_hash revert =
      new_mint-Settles nonce message attestation
  on_earlier-Settles nonce message attestation mint_hash pending =
      bind-Ensures key (is_nonce_used opts nonce) _ (λ _. Held key Anything) _ (nonce-Ensures nonce)
        (λ used.
          if-Ensures key used _ _ (new_mint-Settles nonce message attestation)
            (transient-Ensures opts key _ _))

  mint_ready-Settles :
      (r : RelayRecord) (nonce : Bytes) (message : HexText) (attestation : String)
      → Settles (mint_ready opts key r nonce message attestation)
  unfolding mint_ready earlier_mint
  mint_ready-Settles r nonce message attestation =
      if-Ensures key (truthy r.mint_hash && by_relay r.minted_by) _ _
        (bind-Ensures key (await_receipt opts 4 _) _ (λ _. Held key Anything) _
          (await_receipt-Ensures opts key 4 _) (on_earlier-Settles nonce message attestation _))
        (new_mint-Settles nonce message attestation)

  lacking_nonce : (r : RelayRecord) → IsReady r → Signed r → r.nonce ≡ none → is_settled r ≡ true
  lacking_nonce r ready (inl settled) e = settled
  lacking_nonce r (inl unsigned) (inr signed) e = absurd cc
  lacking_nonce r (inr (n, m, f, f')) (inr signed) e = absurd cc

  lacking_message :
      (r : RelayRecord) → IsReady r → Signed r → r.message ≡ none → is_settled r ≡ true
  lacking_message r ready (inl settled) e = settled
  lacking_message r (inl unsigned) (inr signed) e = absurd cc
  lacking_message r (inr (n, m, f, f')) (inr signed) e = absurd cc

  mint_with-Settles :
      (r : RelayRecord) (nonce : Option Bytes) (message : Option HexText) (w : World)
      → Holds key r w
      → Signed r
      → r.nonce ≡ nonce
      → r.message ≡ message
      → Ok key (λ (_ : Unit {0}). Held key Settled) (mint_with opts key r nonce message w)
  unfolding mint_with
  mint_with-Settles r none message w (present, same, ready) signed e e' =
      (r, (present, same, ready), lacking_nonce r ready signed e)
  mint_with-Settles r (some nonce) none w (present, same, ready) signed e e' =
      (r, (present, same, ready), lacking_message r ready signed e')
  mint_with-Settles r (some nonce) (some message) w (present, same, ready) signed e e' =
      elim (Bool-cases (is_settled r || not (truthy r.attestation))) [
        | inl stops ↦
            let settled : is_settled r ≡ true = ground arith in
            rw (mint_with, stops) (r, (present, same, ready), settled)
        | inr goes ↦
            rw (mint_with, goes)
              ((mint_ready-Settles r nonce message _).runs w (r, (present, same, ready), tt))
      ]

  mint_found-Settles :
      (current : Option RelayRecord) (w : World)
      → get key w.records ≡ current
      → Held key Signed w
      → Ok key (λ (_ : Unit {0}). Held key Settled) (mint_found opts key current w)
  unfolding mint_found
  mint_found-Settles none w e (r, (present, same, ready), signed) = absurd cc
  mint_found-Settles (some r') w e (r, (present, same, ready), signed) =
      let one : r ≡ r' = cc in
      subst
        (λ r'.
          Ok key (λ (_ : Unit {0}). Held key Settled) (mint_with opts key r' r'.nonce r'.message w))
        one (mint_with-Settles r r.nonce r.message w (present, same, ready) signed refl refl)

  pub mint-Settles : Ensures key (Held key Signed) (mint opts key) (λ _. Held key Settled)
  unfolding mint lookup_record ◌>>=◌
  mint-Settles = record { runs = λ w h. mint_found-Settles (get key w.records) w refl h }
