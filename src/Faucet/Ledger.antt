-- ===== src/Faucet/Ledger.antt =====
-- What a payment of the faucet does to its claims.
use Prim.Native.String.{String}
use writz.Prelude.{
  ℕ, suc, ◌+◌, ◌≤◌, ◌≡◌, refl, ap, ◌∙◌, Bool, true, false, List, [], ◌∷◌, Option, none, some,
  if◌then◌else◌, length, length-append, All, All-map, All-append, arith, Bool-cases, Option-cases,
  inl, inr,
}
use writz.Payment.{
  P2wpkhUtxo, P2wpkhPayment, Built, built, insufficient_funds, bad_amount, bad_fee_rate,
  bad_address,
}
use writz.Faucet.Store.{ClaimRecord, Claims}
use writz.Faucet.Service.{
  Broadcast, answered, esplora_error, no_answer, FaucetOptions, Claimant, Waiting, Send,
  SignetFaucet, tick, spendable, spendable_of, forget_expired, fee_rate, reserve,
}
use writz.Faucet.Claim.{
  key_of, record_payment, push_change, note_send, paid, is_refusal, on_broadcast, pay, pay_from,
  send, limits_at, pay_checked,
}
use writz.Faucet.Fair.{IsFair, Passes, check_limits-Passes, IsFair-push, record_claim-Passes}

unfoldable pub count_answered : List Send → ℕ
count_answered [] = 0
count_answered (b ∷ sends) = (if b.is_answered then 1 else 0) + count_answered sends

abbrev pub HasKey : Waiting → Type 0
HasKey w = (k : String) × (w.claimant.user_key ≡ some k)

-- No limit is broken, and as many payments as claims were made.
pub record IsSound (opts : FaucetOptions) (s : SignetFaucet) : Type 0 where
  pub fair : IsFair opts.settings s.claims
  pub before : All (λ c. c.created_at ≤ s.time) s.claims
  pub keyed : All HasKey s.queue
  pub matched : count_answered s.sends ≡ length s.claims

-- Nothing of it happens but that time passes.
abbrev pub Same : SignetFaucet → SignetFaucet → Type 0
Same s s' =
    (s'.claims ≡ s.claims) × (s'.sends ≡ s.sends) × (s'.queue ≡ s.queue) × (s.time ≤ s'.time)

module _ (opts : FaucetOptions) where
  pub Same-IsSound : (s s' : SignetFaucet) → Same s s' → IsSound opts s → IsSound opts s'
  Same-IsSound s s' (claims, sends, queue, later) h = record {
    fair = rw claims h.fair;
    before =
        rw claims (All-map {P = λ c. c.created_at ≤ s.time} s.claims (λ c e. omega arith) h.before);
    keyed = rw queue h.keyed;
    matched = rw (claims, sends) h.matched;
  }

  pub tick-Same : (s : SignetFaucet) → Same s (tick opts s)
  unfolding tick
  tick-Same s = (refl, refl, refl, omega arith)

  pub spendable-Same : (s : SignetFaucet) → Same s (spendable opts s).1
  unfolding spendable spendable_of forget_expired tick
  spendable-Same s = ground arith

  pub fee_rate-Same : (s : SignetFaucet) → Same s (fee_rate opts s).1
  unfolding fee_rate tick
  fee_rate-Same s = (refl, refl, refl, omega arith)

  pub Same-trans : (s t u : SignetFaucet) → Same s t → Same t u → Same s u
  Same-trans s t u h k = (k.0 ∙ h.0, k.1 ∙ h.1, k.2 ∙ h.2, omega arith)

  note_send_lem :
      (is_answered : Bool) (payment : P2wpkhPayment) (s : SignetFaucet)
      → let s' = note_send opts is_answered payment s in
        (s'.claims ≡ s.claims)
        × (s'.queue ≡ s.queue)
        × (s.time ≤ s'.time)
        × (count_answered s'.sends ≡ (if is_answered then 1 else 0) + count_answered s.sends)
  unfolding note_send reserve tick count_answered
  note_send_lem is_answered payment s = (refl, refl, omega arith, refl)

  push_change-Same :
      (payment : P2wpkhPayment) (s : SignetFaucet) → Same s (push_change opts payment s)
  unfolding push_change tick
  push_change-Same payment s = ground arith

  -- A broadcast of unknown outcome.
  unknown-IsSound :
      (payment : P2wpkhPayment) (s : SignetFaucet)
      → IsSound opts s
      → IsSound opts (note_send opts false payment s)
  unknown-IsSound payment s h =
      let (claims, queue, later, count) = note_send_lem false payment s in
      record {
        fair = rw claims h.fair;
        before =
            rw claims
              (All-map {P = λ c. c.created_at ≤ s.time} s.claims (λ c e. omega arith) h.before);
        keyed = rw queue h.keyed;
        matched = omega (arith, ap (λ (cs : Claims). length cs) claims, h.matched);
      }

  record_payment_lem :
      (claimant : Claimant) (ip txid : String) (s : SignetFaucet) (t : ℕ)
      → t ≤ s.time
      → All (λ c. c.created_at ≤ t) s.claims
      → IsFair opts.settings s.claims
      → Passes opts.settings t s.claims
          (key_of claimant.user_key)
          claimant.stellar_address
          claimant.address
          ip
      → let s' = record_payment opts claimant ip txid s in
        IsFair opts.settings s'.claims
        × All (λ c. c.created_at ≤ s'.time) s'.claims
        × (length s'.claims ≡ suc (length s.claims))
        × (s'.queue ≡ s.queue)
        × (s'.sends ≡ s.sends)
  unfolding record_payment tick
  record_payment_lem claimant ip txid s t later before fair passes =
      let c : ClaimRecord = record {
        address = claimant.address;
        ip_hash = ip;
        user_key = key_of claimant.user_key;
        stellar_address = claimant.stellar_address;
        txid = txid;
        amount_sat = opts.settings.amount_sat;
        created_at = s.time;
      } in
      rw (record_payment, record_claim-Passes opts.settings t s.claims c passes)
        (
          IsFair-push opts.settings t s.claims c before later passes fair,
          All-append _ s.claims (c ∷ [])
              (All-map {P = λ d. d.created_at ≤ t} s.claims (λ d e. omega arith) before)
              (omega arith, tt),
          omega (arith, length-append s.claims (c ∷ [])),
          refl,
          refl,
        )

  -- The claimant passed at `t`, and nothing has been entered since.
  abbrev pub Passed : ℕ → Claimant → String → SignetFaucet → Type 0
  Passed t claimant ip s =
      (t ≤ s.time)
      × All (λ c. c.created_at ≤ t) s.claims
      × Passes opts.settings t s.claims (key_of claimant.user_key) claimant.stellar_address
          claimant.address ip

  Same-Passed :
      (t : ℕ) (claimant : Claimant) (ip : String) (s s' : SignetFaucet)
      → Same s s'
      → Passed t claimant ip s
      → Passed t claimant ip s'
  Same-Passed t claimant ip s s' (claims, _, _, later) (before, all, passes) =
      (omega arith, rw claims all, rw claims passes)

  paid-IsSound :
      (claimant : Claimant) (ip : String) (payment : P2wpkhPayment) (t : ℕ) (s : SignetFaucet)
      → Passed t claimant ip s
      → IsSound opts s
      → IsSound opts (paid opts claimant ip payment s).1
  unfolding paid
  paid-IsSound claimant ip payment t s (later, all, passes) h =
      let (claims, queue, noted, count) = note_send_lem true payment s in
      let s1 = note_send opts true payment s in
      let (claims', sends', queue', pushed) = push_change-Same payment s1 in
      let s2 : SignetFaucet = record (push_change opts payment s1) { balance_cache = none } in
      let same : s2.claims ≡ s.claims = claims' ∙ claims in
      let (fair, before, more, queue'', sends'') =
        record_payment_lem claimant ip (opts.txid_of payment) s2 t (omega arith) (rw same all)
          (rw same h.fair) (rw same passes) in
      record {
        fair = fair;
        before = before;
        keyed = rw (queue'' ∙ queue' ∙ queue) h.keyed;
        matched =
            ap count_answered (sends'' ∙ sends')
            ∙ omega (arith, count, more, h.matched, ap (λ (cs : Claims). length cs) same);
      }

  on_broadcast-IsSound :
      (claimant : Claimant) (ip : String) (payment : P2wpkhPayment) (b : Broadcast) (t : ℕ)
      (s : SignetFaucet)
      → Passed t claimant ip s
      → IsSound opts s
      → IsSound opts (on_broadcast opts claimant ip payment b s).1
  unfolding on_broadcast
  on_broadcast-IsSound claimant ip payment (answered txid) t s passed h =
      paid-IsSound claimant ip payment t s passed h
  on_broadcast-IsSound claimant ip payment (esplora_error status) t s passed h =
      elim (Bool-cases (is_refusal opts status)) [
        | inl refusal ↦ rw (on_broadcast, refusal) h
        | inr unknown ↦ rw (on_broadcast, unknown) (unknown-IsSound payment s h)
      ]
  on_broadcast-IsSound claimant ip payment no_answer t s passed h = unknown-IsSound payment s h

  pay-IsSound :
      (claimant : Claimant) (ip : String) (b : Built) (t : ℕ) (s : SignetFaucet)
      → Passed t claimant ip s
      → IsSound opts s
      → IsSound opts (pay opts claimant ip b s).1
  unfolding pay
  pay-IsSound claimant ip (built payment) t s passed h =
      let same = tick-Same s in
      on_broadcast-IsSound claimant ip payment (opts.broadcast_tx s.calls payment) t (tick opts s)
        (Same-Passed t claimant ip s (tick opts s) same passed)
        (Same-IsSound s (tick opts s) same h)
  pay-IsSound claimant ip (insufficient_funds available required) t s passed h = h
  pay-IsSound claimant ip bad_amount t s passed h = h
  pay-IsSound claimant ip bad_fee_rate t s passed h = h
  pay-IsSound claimant ip bad_address t s passed h = h

  pay_from-IsSound :
      (claimant : Claimant) (ip : String) (utxos : Option (List P2wpkhUtxo)) (t : ℕ)
      (s : SignetFaucet)
      → Passed t claimant ip s
      → IsSound opts s
      → IsSound opts (pay_from opts claimant ip utxos s).1
  unfolding pay_from
  pay_from-IsSound claimant ip none t s passed h = h
  pay_from-IsSound claimant ip (some utxos) t s passed h =
      let same = fee_rate-Same s in
      let s' = (fee_rate opts s).1 in
      pay-IsSound claimant ip _ t s' (Same-Passed t claimant ip s s' same passed)
        (Same-IsSound s s' same h)

  pub pay_checked-IsSound :
      (claimant : Claimant) (ip user_key : String) (s : SignetFaucet)
      → claimant.user_key ≡ some user_key
      → IsSound opts s
      → IsSound opts (pay_checked opts claimant ip s).1
  unfolding pay_checked send limits_at key_of
  pay_checked-IsSound claimant ip user_key s keyed h =
      let s1 = tick opts s in
      let s2 = (spendable opts s1).1 in
      let same = Same-trans s s1 s2 (tick-Same s) (spendable-Same s1) in
      elim (Option-cases (limits_at opts claimant ip s)) [
        | inr (failure, refused) ↦ rw (pay_checked, refused) (Same-IsSound s s1 (tick-Same s) h)
        | inl passes ↦
            let passed : Passed s.time claimant ip s = (
              omega arith,
              h.before,
              rw keyed (
                  check_limits-Passes opts.settings s.time s.claims claimant user_key ip keyed
                    passes),
            ) in
            rw (pay_checked, passes)
              (pay_from-IsSound claimant ip (spendable opts s1).0 s.time s2
                (Same-Passed s.time claimant ip s s2 same passed) (Same-IsSound s s2 same h))
      ]
