-- ===== src/Faucet/Claim.antt =====
-- relayer/src/faucet/service.ts: a claim, from the request to the payment, and the status. A claim
-- runs up to its call of Pollar, then up to the lock, and then, when it is first in the queue,
-- through the lock: a payment is one step. What else runs while one is made reads the claims as
-- they were before it.
use Prim.Native.String.{String}
use text.Mathlib.Text.{◌==◌ as str_eq}
use writz.Prelude.{
  ℕ, ◌+◌, ◌-◌, Bool, true, false, not, ◌&&◌, List, [], ◌∷◌, ◌++◌, replicate, Option, none, some,
  leb, ltb, ◌==◌, if◌then◌else◌,
}
use writz.Payment.{
  P2wpkhUtxo, P2wpkhPayment, Built, built, insufficient_funds, bad_amount, bad_fee_rate,
  bad_address, build_p2wpkh_payment, sum_values, estimate_p2wpkh_vsize, fee_of,
}
use writz.Faucet.Store.{record_claim, count_since}
use writz.Faucet.Nonce.{consume, faucet_claim_message}
use writz.Faucet.Request.{
  faucet_address, nonce_invalid, address_key_mismatch, bad_signature, faucet_empty,
  upstream_unavailable, broadcast_rejected, Failure, faucet_error, thrown, Result, ok, err, ◌>>=◌,
  ◌>>◌, check, ClaimRequest, Body, parse_claim_request, normalize_signet_address,
}
use writz.Faucet.Service.{
  Broadcast, answered, esplora_error, no_answer, Login, verified, refused, FaucetOptions, Claimant,
  Waiting, SignetFaucet, tick, start_of_utc_day, check_limits, spendable, fee_rate, reserve,
  reservation_ttl_ms, balance_cache_ms, day_ms,
}

pub record ClaimResult : Type 0 where
  pub txid : String
  pub address : String
  pub amount_sats : ℕ
  pub fee_sats : ℕ

pub record FaucetStatus : Type 0 where
  pub remaining_today : ℕ
  pub resets_at : ℕ
  pub funded : Option Bool

abbrev upstream : Failure
upstream = faucet_error upstream_unavailable (some 30)

-- A claimant in the lock has a hashed account.
unfoldable pub key_of : Option String → String
key_of none = ""
key_of (some user_key) = user_key

module _ (opts : FaucetOptions) where
  -- `createdAt` on.
  unfoldable pub record_payment : Claimant → String → String → SignetFaucet → SignetFaucet
  record_payment claimant ip_hash txid s =
      let s' = tick opts s in
      elim (record_claim
        (record {
          address = claimant.address;
          ip_hash = ip_hash;
          user_key = key_of claimant.user_key;
          stellar_address = claimant.stellar_address;
          txid = txid;
          amount_sat = opts.settings.amount_sat;
          created_at = s.time;
        })
        s.claims) [ none ↦ s' | some claims ↦ record s' { claims = claims } ]

  unfoldable pub push_change : P2wpkhPayment → SignetFaucet → SignetFaucet
  push_change payment s =
      if ltb 0 payment.change_sat
      then record (tick opts s) {
        pending_change =
            s.pending_change
            ++ (record {
              utxo = record { txid = opts.txid_of payment; vout = 1; value = payment.change_sat };
              expires_at = s.time + reservation_ttl_ms;
            })
              ∷ [];
      }
      else s

  -- The broadcast is noted as its inputs are reserved.
  unfoldable pub note_send : Bool → P2wpkhPayment → SignetFaucet → SignetFaucet
  note_send is_answered payment s = record (reserve opts payment.inputs s) {
    sends =
        (record { is_answered = is_answered; reserved_at = s.time; inputs = payment.inputs })
        ∷ s.sends;
  }

  unfoldable pub paid :
      Claimant → String → P2wpkhPayment → SignetFaucet → Result ClaimResult × SignetFaucet
  paid claimant ip_hash payment s = (
    ok (record {
      txid = opts.txid_of payment;
      address = claimant.address;
      amount_sats = opts.settings.amount_sat;
      fee_sats = payment.fee_sat;
    }),
    record_payment claimant ip_hash (opts.txid_of payment)
        (record (push_change payment (note_send true payment s)) { balance_cache = none }),
  )

  -- A status from 400 to 499 but 429 is a refusal; after any other error the outcome is unknown.
  unfoldable pub is_refusal : ℕ → Bool
  is_refusal status = leb 400 status && ltb status 500 && not (status == 429)

  unfoldable pub on_broadcast :
      Claimant
      → String
      → P2wpkhPayment
      → Broadcast
      → SignetFaucet
      → Result ClaimResult × SignetFaucet
  on_broadcast claimant ip_hash payment (answered txid) s = paid claimant ip_hash payment s
  on_broadcast claimant ip_hash payment (esplora_error status) s =
      if is_refusal status
      then (err (faucet_error broadcast_rejected none), s)
      else (err upstream, note_send false payment s)
  on_broadcast claimant ip_hash payment no_answer s = (err upstream, note_send false payment s)

  unfoldable pub pay : Claimant → String → Built → SignetFaucet → Result ClaimResult × SignetFaucet
  pay claimant ip_hash (built payment) s =
      on_broadcast claimant ip_hash payment (opts.broadcast_tx s.calls payment) (tick opts s)
  pay claimant ip_hash (insufficient_funds available required) s =
      (err (faucet_error faucet_empty none), s)
  pay claimant ip_hash bad_amount s = (err thrown, s)
  pay claimant ip_hash bad_fee_rate s = (err thrown, s)
  pay claimant ip_hash bad_address s = (err thrown, s)

  unfoldable pub pay_from :
      Claimant
      → String
      → Option (List P2wpkhUtxo)
      → SignetFaucet
      → Result ClaimResult × SignetFaucet
  pay_from claimant ip_hash none s = (err upstream, s)
  pay_from claimant ip_hash (some utxos) s =
      let (rate, s') = fee_rate opts s in
      pay claimant ip_hash
        (build_p2wpkh_payment opts.address_to_output_script opts.change_script (record {
          utxos = utxos;
          to = claimant.address;
          amount_sat = opts.settings.amount_sat;
          fee_rate = rate;
        }))
        s'

  unfoldable pub send : Claimant → String → SignetFaucet → Result ClaimResult × SignetFaucet
  send claimant ip_hash s = let (utxos, s') = spendable opts s in pay_from claimant ip_hash utxos s'

  unfoldable pub limits_at : Claimant → String → SignetFaucet → Option Failure
  limits_at claimant ip_hash s = check_limits opts.settings s.time s.claims claimant ip_hash

  -- What the lock runs.
  unfoldable pub pay_checked : Claimant → String → SignetFaucet → Result ClaimResult × SignetFaucet
  pay_checked claimant ip_hash s = elim (limits_at claimant ip_hash s) [
    | some failure ↦ (err failure, tick opts s)
    | none ↦ send claimant ip_hash (tick opts s)
  ]

  -- Between the nonce and the limits: who a request pays.
  unfoldable pub check_request : ClaimRequest → Result Claimant
  check_request req = do
    address ← normalize_signet_address opts.js opts.address_to_output_script req.signet_address
    check (not (str_eq address opts.address)) faucet_address
    elim (opts.pubkey_to_p2wpkh_address req.signet_pubkey) [
      | none ↦ err (faucet_error address_key_mismatch none)
      | some derived ↦ check (str_eq derived address) address_key_mismatch
    ]
    check
        (opts.verify_bitcoin_message (faucet_claim_message req.nonce req.stellar_address address)
          req.key_sig req.signet_pubkey)
        bad_signature
    ok (record { address = address; stellar_address = req.stellar_address; user_key = none })

  unfoldable pub wait_for_login :
      ClaimRequest → String → Result Claimant → SignetFaucet → Result (Unit {0}) × SignetFaucet
  wait_for_login req ip_hash (err failure) s = (err failure, s)
  wait_for_login req ip_hash (ok claimant) s = elim (limits_at claimant ip_hash s) [
    | some failure ↦ (err failure, tick opts s)
    | none ↦ (
      ok tt,
      record (tick opts s) {
        verifying =
            s.verifying
            ++ (record {
              access_token = req.pollar_access_token;
              claimant = claimant;
              ip_hash = ip_hash;
            })
              ∷ [];
      },
    )
  ]

  unfoldable pub spend_nonce :
      ClaimRequest → String → Bool → SignetFaucet → Result (Unit {0}) × SignetFaucet
  spend_nonce req ip_hash false s = (err (faucet_error nonce_invalid none), s)
  spend_nonce req ip_hash true s = wait_for_login req ip_hash (check_request req) s

  unfoldable pub claim_parsed :
      String → Result ClaimRequest → SignetFaucet → Result (Unit {0}) × SignetFaucet
  claim_parsed ip (err failure) s = (err failure, s)
  claim_parsed ip (ok req) s =
      let (is_fresh, nonces) = consume s.time req.nonce s.nonces in
      spend_nonce req (opts.hash_ip ip) is_fresh (record (tick opts s) { nonces = nonces })

  -- `claim` up to its call of Pollar.
  unfoldable pub claim : Body → String → SignetFaucet → Result (Unit {0}) × SignetFaucet
  claim body ip s = claim_parsed ip (parse_claim_request opts.js body) s

  -- `claim` from Pollar's answer to the lock.
  unfoldable pub on_login : Waiting → Login → SignetFaucet → Result (Unit {0}) × SignetFaucet
  on_login waiting (refused code) s = (err (faucet_error code none), s)
  on_login waiting (verified stellar_address user_key) s =
      let claimant : Claimant = record {
        address = waiting.claimant.address;
        stellar_address = stellar_address;
        user_key = some user_key;
      } in
      elim (limits_at claimant waiting.ip_hash s) [
        | some failure ↦ (err failure, tick opts s)
        | none ↦ (
          ok tt,
          record (tick opts s) { queue = s.queue ++ (record waiting { claimant = claimant }) ∷ [] },
        )
      ]

  -- Balance of `status`.
  unfoldable pub read_balance : ℕ → SignetFaucet → Option ℕ × SignetFaucet
  read_balance t s =
      let (utxos, s') = spendable opts s in
      elim utxos [
        | none ↦ (none, s')
        | some us ↦ (some (sum_values us), record s' { balance_cache = some (t, sum_values us) })
      ]

  unfoldable pub balance_at : ℕ → Option (ℕ × ℕ) → SignetFaucet → Option ℕ × SignetFaucet
  balance_at t none s = read_balance t s
  balance_at t (some (at, sats)) s =
      if ltb (t - at) balance_cache_ms then (some sats, s) else read_balance t s

  -- The cost of a claim at the fee floor.
  unfoldable pub per_claim : ℕ
  per_claim =
      opts.settings.amount_sat
      + fee_of opts.settings.min_fee_rate
          (estimate_p2wpkh_vsize 1 (replicate 34 0 ∷ replicate 22 0 ∷ []))

  unfoldable pub status : SignetFaucet → FaucetStatus × SignetFaucet
  status s =
      let day_start = start_of_utc_day s.time in
      let (balance, s') = balance_at s.time s.balance_cache (tick opts s) in
      (
        record {
          remaining_today = opts.settings.daily_cap - count_since day_start s.claims;
          resets_at = day_start + day_ms;
          funded = elim balance [ none ↦ none | some sats ↦ some (leb per_claim sats) ];
        },
        s',
      )
