-- ===== src/Faucet/Quiet.antt =====
-- What a request does up to its payment, and a call for the status.
use Prim.Native.String.{String}
use writz.Prelude.{
  ℕ, ◌≤◌, ◌≡◌, refl, ◌∙◌, Bool, true, false, Option, none, some, arith, Option-cases, Bool-cases,
  ltb, ◌-◌, inl, inr,
}
use writz.Faucet.Nonce.{consume}
use writz.Faucet.Request.{Result, ok, err, ClaimRequest, Body, parse_claim_request}
use writz.Faucet.Service.{FaucetOptions, Claimant, SignetFaucet, tick, spendable, balance_cache_ms}
use writz.Faucet.Claim.{
  check_request, wait_for_login, spend_nonce, claim_parsed, claim, read_balance, balance_at, status,
}
use writz.Faucet.Ledger.{Same, Same-trans, tick-Same, spendable-Same}
use writz.Faucet.Spends.{Retains, Retains-eq, Retains-trans, tick-Retains, spendable_lem}

-- Claims, sends, queue and reservations stay, and time passes.
abbrev pub Quiet : SignetFaucet → SignetFaucet → Type 0
Quiet s s' =
    (s'.claims ≡ s.claims)
    × (s'.sends ≡ s.sends)
    × (s'.queue ≡ s.queue)
    × (s'.reserved ≡ s.reserved)
    × (s.time ≤ s'.time)

pub Quiet-Same : (s s' : SignetFaucet) → Quiet s s' → Same s s'
Quiet-Same s s' (claims, sends, queue, reserved, later) = (claims, sends, queue, later)

Quiet-trans : (s t u : SignetFaucet) → Quiet s t → Quiet t u → Quiet s u
Quiet-trans s t u h k = (k.0 ∙ h.0, k.1 ∙ h.1, k.2 ∙ h.2, k.3 ∙ h.3, omega arith)

module _ (opts : FaucetOptions) where
  wait_for_login-Quiet :
      (req : ClaimRequest) (ip : String) (r : Result Claimant) (s : SignetFaucet)
      → Quiet s (wait_for_login opts req ip r s).1
  unfolding wait_for_login tick
  wait_for_login-Quiet req ip (err failure) s = (refl, refl, refl, refl, omega arith)
  wait_for_login-Quiet req ip (ok claimant) s = ground arith

  spend_nonce-Quiet :
      (req : ClaimRequest) (ip : String) (is_fresh : Bool) (s : SignetFaucet)
      → Quiet s (spend_nonce opts req ip is_fresh s).1
  unfolding spend_nonce
  spend_nonce-Quiet req ip false s = (refl, refl, refl, refl, omega arith)
  spend_nonce-Quiet req ip true s = wait_for_login-Quiet req ip (check_request opts req) s

  claim_parsed-Quiet :
      (ip : String) (r : Result ClaimRequest) (s : SignetFaucet)
      → Quiet s (claim_parsed opts ip r s).1
  unfolding claim_parsed tick
  claim_parsed-Quiet ip (err failure) s = (refl, refl, refl, refl, omega arith)
  claim_parsed-Quiet ip (ok req) s =
      let s' : SignetFaucet = record (tick opts s) {
        nonces = (consume s.time req.nonce s.nonces).1;
      } in
      let is_fresh = (consume s.time req.nonce s.nonces).0 in
      let s'' = (spend_nonce opts req (opts.hash_ip ip) is_fresh s').1 in
      Quiet-trans s s' s'' (refl, refl, refl, refl, omega arith)
        (spend_nonce-Quiet req (opts.hash_ip ip) is_fresh s')

  pub claim-Quiet :
      (body : Body) (ip : String) (s : SignetFaucet) → Quiet s (claim opts body ip s).1
  unfolding claim
  claim-Quiet body ip s = claim_parsed-Quiet ip (parse_claim_request opts.js body) s

  read_balance_lem :
      (t : ℕ) (s : SignetFaucet)
      → Same s (read_balance opts t s).1 × Retains s (read_balance opts t s).1
  unfolding read_balance
  read_balance_lem t s =
      let s1 = (spendable opts s).1 in
      let same = spendable-Same opts s in
      let kept = (spendable_lem opts s).0 in
      elim (Option-cases (spendable opts s).0) [
        | inl failed ↦ rw (read_balance, failed) (same, kept)
        | inr (utxos, answered) ↦ rw (read_balance, answered) (same, kept)
      ]

  balance_at_lem :
      (t : ℕ) (cache : Option (ℕ × ℕ)) (s : SignetFaucet)
      → Same s (balance_at opts t cache s).1 × Retains s (balance_at opts t cache s).1
  unfolding balance_at
  balance_at_lem t none s = read_balance_lem t s
  balance_at_lem t (some (at, sats)) s = elim (Bool-cases (ltb (t - at) balance_cache_ms)) [
    | inl fresh ↦
        rw (balance_at, fresh)
          ((refl, refl, refl, omega arith), Retains-eq opts s s refl (omega arith) refl)
    | inr stale ↦ rw (balance_at, stale) (read_balance_lem t s)
  ]

  pub status_lem : (s : SignetFaucet) → Same s (status opts s).1 × Retains s (status opts s).1
  unfolding status
  status_lem s =
      let s1 = tick opts s in
      let (same, kept) = balance_at_lem s.time s.balance_cache s1 in
      (
        Same-trans opts s s1 (status opts s).1 (tick-Same opts s) same,
        Retains-trans opts s s1 (status opts s).1 (tick-Retains opts s) kept,
      )
