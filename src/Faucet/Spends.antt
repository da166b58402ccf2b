-- ===== src/Faucet/Spends.antt =====
-- The faucet never spends an output twice while its reservation lasts: what one payment does.
use Prim.Native.String.{String}
use writz.Prelude.{
  ℕ, suc, ◌+◌, ◌≤◌, ◌<◌, ◌≡◌, refl, ◌∙◌, Bool, true, false, List, [], ◌∷◌, Option, none, some, All,
  All-map, arith, Bool-cases, Option-cases, inl, inr,
}
use writz.Payment.{
  P2wpkhUtxo, P2wpkhPayment, Built, built, insufficient_funds, bad_amount, bad_fee_rate,
  bad_address,
}
use writz.Faucet.Service.{
  Broadcast, answered, esplora_error, no_answer, FaucetOptions, Claimant, Send, SignetFaucet, tick,
  spendable, spendable_of, forget_expired, fee_rate, reserve, reservation_ttl_ms, has_outpoint,
}
use writz.Faucet.Claim.{
  record_payment, push_change, note_send, paid, is_refusal, on_broadcast, pay, pay_from, send,
  limits_at, pay_checked,
}
use writz.Faucet.Reserves.{
  expiry_of, expiry_of-drop_expired, expiry_of-reserve_all, expiry_of-reserve_all_own, AreFree,
  AreFree-expiry_of, AreFree-spendable_of, AllInputs, build_p2wpkh_payment-AllInputs,
}

-- `b` is made before the reservation of `a` ends, and yet shares no input with it.
abbrev pub IsDisjoint : Send → Send → Type 0
IsDisjoint b a =
    b.reserved_at < a.reserved_at + reservation_ttl_ms
    → (o : P2wpkhUtxo) → has_outpoint o b.inputs ≡ true
    → has_outpoint o a.inputs ≡ false

-- Of the sends, the last one first.
abbrev pub AreDisjoint : List Send → Type 0
AreDisjoint [] = Unit
AreDisjoint (b ∷ sends) = All (IsDisjoint b) sends × AreDisjoint sends

-- What a send has spent stays reserved for the half hour.
abbrev pub IsHeld : SignetFaucet → Send → Type 0
IsHeld s b =
    (b.reserved_at ≤ s.time)
    × ((o : P2wpkhUtxo)
        → has_outpoint o b.inputs ≡ true
        → s.time < b.reserved_at + reservation_ttl_ms
        → b.reserved_at + reservation_ttl_ms ≤ expiry_of o s.reserved)

pub record IsGuarded (s : SignetFaucet) : Type 0 where
  pub held : All (IsHeld s) s.sends
  pub disjoint : AreDisjoint s.sends

-- Time passes, and no reservation goes that has not ended.
abbrev pub Retains : SignetFaucet → SignetFaucet → Type 0
Retains s s' =
    (s'.sends ≡ s.sends)
    × (s.time ≤ s'.time)
    × ((o : P2wpkhUtxo) (x : ℕ)
        → s'.time < x
        → x ≤ expiry_of o s.reserved
        → x ≤ expiry_of o s'.reserved)

module _ (opts : FaucetOptions) where
  pub Retains-IsGuarded : (s s' : SignetFaucet) → Retains s s' → IsGuarded s → IsGuarded s'
  Retains-IsGuarded s s' (sends, later, kept) h = record {
    held = rw sends (
        All-map {P = IsHeld s} s.sends
          (λ b old. (
            omega arith,
            λ o mine early.
                kept o (b.reserved_at + reservation_ttl_ms) early (old.1 o mine (omega arith)),
          ))
          h.held);
    disjoint = rw sends h.disjoint;
  }

  pub Retains-trans : (s t u : SignetFaucet) → Retains s t → Retains t u → Retains s u
  Retains-trans s t u h k =
      (k.0 ∙ h.0, omega arith, λ o x early old. k.2 o x early (h.2 o x (omega arith) old))

  -- Where the reservations stay as they are.
  pub Retains-eq :
      (s s' : SignetFaucet)
      → s'.sends ≡ s.sends
      → s.time ≤ s'.time
      → s'.reserved ≡ s.reserved
      → Retains s s'
  Retains-eq s s' sends later same = (sends, later, λ o x early old. rw same old)

  pub tick-Retains : (s : SignetFaucet) → Retains s (tick opts s)
  unfolding tick
  tick-Retains s = Retains-eq s (tick opts s) refl (omega arith) refl

  forget_expired-Retains : (t : ℕ) (s : SignetFaucet) → t ≤ s.time → Retains s (forget_expired t s)
  unfolding forget_expired
  forget_expired-Retains t s h = (
    refl,
    omega arith,
    λ o x early old. expiry_of-drop_expired o s.reserved t x (omega arith) old,
  )

  -- What `spendable` gives is free.
  abbrev pub IsFree : SignetFaucet → Option (List P2wpkhUtxo) → Type 0
  IsFree s none = Unit
  IsFree s (some us) = AreFree s.reserved us

  pub spendable_lem :
      (s : SignetFaucet)
      → Retains s (spendable opts s).1 × IsFree (spendable opts s).1 (spendable opts s).0
  unfolding spendable spendable_of tick
  spendable_lem s =
      let s1 = tick opts s in
      let s2 = forget_expired s.time s1 in
      let s3 = tick opts s2 in
      let kept : Retains s s3 = Retains-trans s s1 s3 (tick-Retains s) (
        Retains-trans s1 s2 s3 (forget_expired-Retains s.time s1 (omega arith))
          (tick-Retains s2)) in
      elim (Option-cases (opts.get_address_utxos (suc s.calls))) [
        | inl failed ↦ rw (spendable, failed) (kept, tt)
        | inr (listed, known) ↦
            rw (spendable, known)
              (
                Retains-trans s s3 (spendable_of listed s3).1 kept
                    (Retains-eq s3 (spendable_of listed s3).1 refl (omega arith) refl),
                AreFree-spendable_of listed s3,
              )
      ]

  -- A broadcast whose inputs were free keeps the sends apart.
  note_send-IsGuarded :
      (is_answered : Bool) (payment : P2wpkhPayment) (s : SignetFaucet)
      → AreFree s.reserved payment.inputs
      → IsGuarded s
      → IsGuarded (note_send opts is_answered payment s)
  unfolding note_send reserve tick
  note_send-IsGuarded is_answered payment s free h =
      let exp = s.time + reservation_ttl_ms in
      record {
        held = (
          (
            omega arith,
            λ o mine early. expiry_of-reserve_all_own o exp payment.inputs s.reserved mine,
          ),
          All-map {P = IsHeld s} s.sends
              (λ a old. (
                omega arith,
                λ o theirs early.
                    expiry_of-reserve_all o exp (a.reserved_at + reservation_ttl_ms) payment.inputs
                      s.reserved (omega arith) (old.1 o theirs (omega arith)),
              ))
              h.held,
        );
        disjoint = (
          All-map {P = IsHeld s} s.sends
              (λ a old early o mine. elim (Bool-cases (has_outpoint o a.inputs)) [
                | inr other ↦ other
                | inl theirs ↦ absurd (
                    omega (
                      arith,
                      old.1 o theirs early,
                      AreFree-expiry_of o s.reserved payment.inputs free mine,
                    ))
              ])
              h.held,
          h.disjoint,
        );
      }

  push_change-Retains :
      (payment : P2wpkhPayment) (s : SignetFaucet) → Retains s (push_change opts payment s)
  unfolding push_change tick
  push_change-Retains payment s =
      Retains-eq s (push_change opts payment s) (ground arith) (ground arith) (ground arith)

  record_payment-Retains :
      (claimant : Claimant) (ip txid : String) (s : SignetFaucet)
      → Retains s (record_payment opts claimant ip txid s)
  unfolding record_payment tick
  record_payment-Retains claimant ip txid s =
      Retains-eq s (record_payment opts claimant ip txid s) (ground arith) (ground arith)
        (ground arith)

  on_broadcast-IsGuarded :
      (claimant : Claimant) (ip : String) (payment : P2wpkhPayment) (b : Broadcast)
      (s : SignetFaucet)
      → AreFree s.reserved payment.inputs
      → IsGuarded s
      → IsGuarded (on_broadcast opts claimant ip payment b s).1
  unfolding on_broadcast paid
  on_broadcast-IsGuarded claimant ip payment (answered txid) s free h =
      let s1 = note_send opts true payment s in
      let s2 = push_change opts payment s1 in
      let s3 : SignetFaucet = record s2 { balance_cache = none } in
      let s4 = record_payment opts claimant ip (opts.txid_of payment) s3 in
      Retains-IsGuarded s1 s4
        (Retains-trans s1 s2 s4 (push_change-Retains payment s1) (
          Retains-trans s2 s3 s4 (Retains-eq s2 s3 refl (omega arith) refl)
            (record_payment-Retains claimant ip (opts.txid_of payment) s3)))
        (note_send-IsGuarded true payment s free h)
  on_broadcast-IsGuarded claimant ip payment (esplora_error status) s free h =
      elim (Bool-cases (is_refusal opts status)) [
        | inl refusal ↦ rw (on_broadcast, refusal) h
        | inr unknown ↦ rw (on_broadcast, unknown) (note_send-IsGuarded false payment s free h)
      ]
  on_broadcast-IsGuarded claimant ip payment no_answer s free h =
      note_send-IsGuarded false payment s free h

  pay-IsGuarded :
      (claimant : Claimant) (ip : String) (b : Built) (s : SignetFaucet)
      → AllInputs (λ u. expiry_of u s.reserved ≡ 0) b
      → IsGuarded s
      → IsGuarded (pay opts claimant ip b s).1
  unfolding pay tick
  pay-IsGuarded claimant ip (built payment) s free h =
      on_broadcast-IsGuarded claimant ip payment (opts.broadcast_tx s.calls payment) (tick opts s)
        free (Retains-IsGuarded s (tick opts s) (tick-Retains s) h)
  pay-IsGuarded claimant ip (insufficient_funds available required) s free h = h
  pay-IsGuarded claimant ip bad_amount s free h = h
  pay-IsGuarded claimant ip bad_fee_rate s free h = h
  pay-IsGuarded claimant ip bad_address s free h = h

  pay_from-IsGuarded :
      (claimant : Claimant) (ip : String) (utxos : Option (List P2wpkhUtxo)) (s : SignetFaucet)
      → IsFree s utxos
      → IsGuarded s
      → IsGuarded (pay_from opts claimant ip utxos s).1
  unfolding pay_from fee_rate tick
  pay_from-IsGuarded claimant ip none s free h = h
  pay_from-IsGuarded claimant ip (some us) s free h =
      let s' = (fee_rate opts s).1 in
      pay-IsGuarded claimant ip _ s'
        (build_p2wpkh_payment-AllInputs (λ u. expiry_of u s.reserved ≡ 0)
          opts.address_to_output_script opts.change_script
          (record {
            utxos = us;
            to = claimant.address;
            amount_sat = opts.settings.amount_sat;
            fee_rate = (fee_rate opts s).0;
          })
          free)
        (Retains-IsGuarded s s' (Retains-eq s s' refl (omega arith) refl) h)

  pub pay_checked-IsGuarded :
      (claimant : Claimant) (ip : String) (s : SignetFaucet)
      → IsGuarded s
      → IsGuarded (pay_checked opts claimant ip s).1
  unfolding pay_checked send
  pay_checked-IsGuarded claimant ip s h =
      let s1 = tick opts s in
      let h1 = Retains-IsGuarded s s1 (tick-Retains s) h in
      let (kept, free) = spendable_lem s1 in
      elim (Option-cases (limits_at opts claimant ip s)) [
        | inr (failure, refused) ↦ rw (pay_checked, refused) h1
        | inl passes ↦
            rw (pay_checked, passes)
              (pay_from-IsGuarded claimant ip (spendable opts s1).0 (spendable opts s1).1 free
                (Retains-IsGuarded s1 (spendable opts s1).1 kept h1))
      ]
