-- ===== src/Cctp/SendSteps.antt =====
-- The steps of a mint that send one, and what was checked before.
use Prim.Native.String.{String}
use writz.Prelude.{
  suc, ◌<◌, ◌≡◌, refl, Bool, ◌∷◌, Option, none, some, leb, arith, Bool-cases, ◌⊎◌, inl, inr,
}
use writz.Cctp.Message.{Bytes, HexText}
use writz.Cctp.Store.{count_submitted_since}
use writz.Cctp.Job.{
  World, Job, and_then, ◌>>=◌, call, now, tick, RelayOptions, ReceiptOutcome, success, revert,
  pending, SimulateOutcome, simulated, not_simulated, SendOutcome, broadcast, insufficient_funds,
  send_error,
}
use writz.Cctp.Service.{update, set_arrived, is_nonce_used, await_receipt, start_of_utc_day}
use writz.Cctp.Mint.{
  forget_balance, minted_since, after_receipt, after_send, send_receive, send_mint, on_sent, not_ok,
  on_simulated, simulate_mint, capped_mint,
}
use writz.Cctp.Quiet.{
  IsQuiet, receipt-IsQuiet, bind-IsQuiet, if-IsQuiet, now-IsQuiet, update-IsQuiet, fail-IsQuiet,
  transient-IsQuiet, set_arrived-IsQuiet, is_nonce_used-IsQuiet, await_receipt-IsQuiet,
  minted_elsewhere-IsQuiet, warn_if_low-IsQuiet,
}

-- A call that answers, or throws.
pub and_then-cases {ℓ κ} :
    {A : Type ℓ} {B : Type κ} (o : Option A) (w : World) (k : A → Job B) (P : World → Type 0)
    → P w
    → ((a : A) → o ≡ some a → P (k a w).1)
    → P (and_then (o, w) k).1
and_then-cases none w k P h h' = h
and_then-cases (some a) w k P h h' = h' a refl

pub receipt-cases {κ} :
    {B : Type κ} (o : ReceiptOutcome) (a b c : Job B) (w : World) (P : World → Type 0)
    → P (a w).1
    → P (b w).1
    → P (c w).1
    → P ((elim o as (λ _. Job B) [ success ↦ a | revert ↦ b | pending ↦ c ]) w).1
receipt-cases success a b c w P h h' h'' = h
receipt-cases revert a b c w P h h' h'' = h'
receipt-cases pending a b c w P h h' h'' = h''

module _ (opts : RelayOptions) where
  after_receipt-IsQuiet :
      (burn_hash : String) (nonce : Bytes) (outcome : ReceiptOutcome)
      → IsQuiet (after_receipt opts burn_hash nonce outcome)
  unfolding after_receipt
  after_receipt-IsQuiet burn_hash nonce outcome =
      bind-IsQuiet (is_nonce_used opts nonce) _ (is_nonce_used-IsQuiet opts nonce) (λ used.
        if-IsQuiet used _ _ (minted_elsewhere-IsQuiet opts burn_hash nonce) (
          receipt-IsQuiet outcome _ _ _ (transient-IsQuiet opts burn_hash _ _)
            (transient-IsQuiet opts burn_hash _ _) (transient-IsQuiet opts burn_hash _ _)))

  after_send-IsQuiet :
      (burn_hash : String) (nonce : Bytes) (mint_hash : String)
      → IsQuiet (after_send opts burn_hash nonce mint_hash)
  unfolding after_send forget_balance
  after_send-IsQuiet burn_hash nonce mint_hash = bind-IsQuiet (now opts) _ (now-IsQuiet opts) (λ t.
      bind-IsQuiet _ _
        (bind-IsQuiet (update opts burn_hash _) _ (update-IsQuiet opts burn_hash _)
          (λ _. record { keeps = λ w. refl }))
        (λ _.
          bind-IsQuiet (await_receipt opts 4 mint_hash) _ (await_receipt-IsQuiet opts 4 mint_hash)
            (λ outcome.
              receipt-IsQuiet outcome _ _ _
                (bind-IsQuiet (set_arrived opts burn_hash _ _) _
                  (set_arrived-IsQuiet opts burn_hash _ _) (λ _. warn_if_low-IsQuiet opts))
                (after_receipt-IsQuiet burn_hash nonce revert)
                (after_receipt-IsQuiet burn_hash nonce pending))))

  not_ok-IsQuiet :
      (burn_hash : String) (nonce : Bytes) (is_transient : Bool) (reason : Option String)
      → IsQuiet (not_ok opts burn_hash nonce is_transient reason)
  unfolding not_ok
  not_ok-IsQuiet burn_hash nonce is_transient reason =
      bind-IsQuiet (is_nonce_used opts nonce) _ (is_nonce_used-IsQuiet opts nonce) (λ used.
        if-IsQuiet used _ _ (minted_elsewhere-IsQuiet opts burn_hash nonce) (
          if-IsQuiet is_transient _ _ (transient-IsQuiet opts burn_hash _ _)
            (fail-IsQuiet opts burn_hash _ _)))

  on_sent-IsQuiet :
      (burn_hash : String) (nonce : Bytes) (outcome : SendOutcome)
      → IsQuiet (on_sent opts burn_hash nonce outcome)
  unfolding on_sent
  on_sent-IsQuiet burn_hash nonce (broadcast mint_hash) =
      after_send-IsQuiet burn_hash nonce mint_hash
  on_sent-IsQuiet burn_hash nonce insufficient_funds = transient-IsQuiet opts burn_hash _ _
  on_sent-IsQuiet burn_hash nonce send_error = transient-IsQuiet opts burn_hash _ _

  send_mint_sends :
      (burn_hash : String) (nonce : Bytes) (message : HexText) (attestation : String) (w : World)
      → (send_mint opts burn_hash nonce message attestation w).1.sends ≡ nonce ∷ w.sends
  unfolding send_mint send_receive tick ◌>>=◌
  send_mint_sends burn_hash nonce message attestation w =
      (on_sent-IsQuiet burn_hash nonce _).keeps _

  on_simulated_sends :
      (burn_hash : String) (nonce : Bytes) (message : HexText) (attestation : String)
      (sim : SimulateOutcome) (w : World) (answer : Option SimulateOutcome)
      → answer ≡ some sim
      → ((on_simulated opts burn_hash nonce message attestation sim w).1.sends ≡ w.sends)
        ⊎ (((on_simulated opts burn_hash nonce message attestation sim w).1.sends ≡ nonce ∷ w.sends)
            × (answer ≡ some simulated))
  unfolding on_simulated
  on_simulated_sends burn_hash nonce message attestation simulated w answer e =
      inr (send_mint_sends burn_hash nonce message attestation w, e)
  on_simulated_sends burn_hash nonce message attestation (not_simulated is_transient reason) w
        answer e =
      inl ((not_ok-IsQuiet burn_hash nonce is_transient reason).keeps w)

  -- A mint is sent after a simulation that passed.
  simulate_mint_sends :
      (burn_hash : String) (nonce : Bytes) (message : HexText) (attestation : String) (w : World)
      → ((simulate_mint opts burn_hash nonce message attestation w).1.sends ≡ w.sends)
        ⊎ (((simulate_mint opts burn_hash nonce message attestation w).1.sends ≡ nonce ∷ w.sends)
            × (opts.chain.simulate_receive w.calls message attestation ≡ some simulated))
  unfolding simulate_mint call tick ◌>>=◌
  simulate_mint_sends burn_hash nonce message attestation w =
      and_then-cases (opts.chain.simulate_receive w.calls message attestation) (tick opts w) _
        (λ w'.
          (w'.sends ≡ w.sends)
          ⊎ ((w'.sends ≡ nonce ∷ w.sends)
              × (opts.chain.simulate_receive w.calls message attestation ≡ some simulated)))
        (inl refl)
        (λ sim e. on_simulated_sends burn_hash nonce message attestation sim (tick opts w) _ e)

  -- It is one of less than the daily cap.
  pub capped_mint_sends :
      (burn_hash : String) (nonce : Bytes) (message : HexText) (attestation : String) (w : World)
      → ((capped_mint opts burn_hash nonce message attestation w).1.sends ≡ w.sends)
        ⊎ (((capped_mint opts burn_hash nonce message attestation w).1.sends ≡ nonce ∷ w.sends)
            × (count_submitted_since (start_of_utc_day w.time) w.records < opts.settings.daily_cap)
            × (opts.chain.simulate_receive (suc w.calls) message attestation ≡ some simulated))
  unfolding capped_mint minted_since now tick ◌>>=◌
  capped_mint_sends burn_hash nonce message attestation w =
      elim (Bool-cases
        (leb opts.settings.daily_cap (count_submitted_since (start_of_utc_day w.time) w.records))) [
          | inl full ↦ rw (capped_mint, full) (inl ((transient-IsQuiet opts burn_hash _ _).keeps _))
          | inr room ↦
              let below : count_submitted_since (start_of_utc_day w.time) w.records
                  < opts.settings.daily_cap =
                ground arith in
              rw (capped_mint, room)
                (elim (simulate_mint_sends burn_hash nonce message attestation (tick opts w)) [
                  | inl same ↦ inl same
                  | inr (one, sim) ↦ inr (one, below, sim)
                ])
        ]
