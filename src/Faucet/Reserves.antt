-- ===== src/Faucet/Reserves.antt =====
-- Until when an outpoint of the faucet is reserved, and what a payment takes.
use Prim.Native.String.{String}
use text.Mathlib.TextEquality.{eq_iff}
use writz.Prelude.{
  ℕ, ◌+◌, ◌≤◌, ◌<◌, ◌≡◌, refl, true, false, not, ◌||◌, List, [], ◌∷◌, ◌++◌, Option, none, some, leb,
  ltb, ◌==◌, if◌then◌else◌, length, All, All-append, arith, Bool-cases, Option-cases, inl, inr,
}
use writz.Payment.{
  P2wpkhUtxo, FeeRate, Script, Selection, select, build_selected, Built, built, P2wpkhPaymentParams,
  build_p2wpkh_payment, fee_with_change, fee_no_change, p2wpkh_dust_limit_sat,
}
use writz.Faucet.Service.{
  AddressUtxo, Reserved, PendingChange, SignetFaucet, same_outpoint, has_outpoint, is_reserved,
  set_reserved, reserve_all, drop_expired, keep_change, utxos_of, changes_of, free_utxos,
  insert_utxo, sort_utxos, is_before, spendable_of,
}

pub expiry_of : P2wpkhUtxo → Reserved → ℕ
expiry_of o [] = 0
expiry_of o ((u, exp) ∷ reserved) = if same_outpoint u o then exp else expiry_of o reserved

pub expiry_of-free :
    (o : P2wpkhUtxo) (reserved : Reserved)
    → is_reserved o reserved ≡ false
    → expiry_of o reserved ≡ 0
unfolding expiry_of is_reserved
expiry_of-free o [] h = refl
expiry_of-free o ((u, exp) ∷ reserved) h = ground (arith, expiry_of-free o reserved)

pub expiry_of-same :
    (o p : P2wpkhUtxo) (reserved : Reserved)
    → same_outpoint o p ≡ true
    → expiry_of o reserved ≡ expiry_of p reserved
unfolding expiry_of same_outpoint
expiry_of-same o p [] h = refl
expiry_of-same o p ((u, exp) ∷ reserved) h = ground (
  arith,
  expiry_of-same o p reserved,
  eq_iff o.txid p.txid,
  eq_iff u.txid o.txid,
  eq_iff u.txid p.txid,
)

pub expiry_of-drop_expired :
    (o : P2wpkhUtxo) (reserved : Reserved) (t x : ℕ)
    → t < x
    → x ≤ expiry_of o reserved
    → x ≤ expiry_of o (drop_expired t reserved)
unfolding expiry_of drop_expired
expiry_of-drop_expired o [] t x h k = k
expiry_of-drop_expired o ((u, exp) ∷ reserved) t x h k =
    ground (arith, expiry_of-drop_expired o reserved t x)

expiry_of-set_reserved :
    (o u : P2wpkhUtxo) (exp : ℕ) (reserved : Reserved)
    → expiry_of o (set_reserved u exp reserved)
      ≡ (if same_outpoint u o then exp else expiry_of o reserved)
unfolding expiry_of set_reserved same_outpoint
expiry_of-set_reserved o u exp [] = refl
expiry_of-set_reserved o u exp ((v, old) ∷ reserved) = ground (
  arith,
  expiry_of-set_reserved o u exp reserved,
  eq_iff v.txid u.txid,
  eq_iff v.txid o.txid,
  eq_iff u.txid o.txid,
)

pub expiry_of-reserve_all :
    (o : P2wpkhUtxo) (exp x : ℕ) (us : List P2wpkhUtxo) (reserved : Reserved)
    → x ≤ exp
    → x ≤ expiry_of o reserved
    → x ≤ expiry_of o (reserve_all exp us reserved)
unfolding reserve_all
expiry_of-reserve_all o exp x [] reserved h k = k
expiry_of-reserve_all o exp x (u ∷ us) reserved h k =
    expiry_of-reserve_all o exp x us (set_reserved u exp reserved) h
      (ground (arith, expiry_of-set_reserved o u exp reserved))

pub expiry_of-reserve_all_own :
    (o : P2wpkhUtxo) (exp : ℕ) (us : List P2wpkhUtxo) (reserved : Reserved)
    → has_outpoint o us ≡ true
    → exp ≤ expiry_of o (reserve_all exp us reserved)
unfolding reserve_all has_outpoint
expiry_of-reserve_all_own o exp [] reserved h = absurd (ground arith)
expiry_of-reserve_all_own o exp (u ∷ us) reserved h = elim (Bool-cases (same_outpoint u o)) [
  | inl same ↦
      expiry_of-reserve_all o exp exp us (set_reserved u exp reserved) (omega arith)
        (ground (arith, expiry_of-set_reserved o u exp reserved))
  | inr other ↦ expiry_of-reserve_all_own o exp us (set_reserved u exp reserved) (ground arith)
]

-- Nothing of a list is reserved.
abbrev pub AreFree : Reserved → List P2wpkhUtxo → Type 0
AreFree reserved us = All (λ u. expiry_of u reserved ≡ 0) us

pub AreFree-expiry_of :
    (o : P2wpkhUtxo) (reserved : Reserved) (us : List P2wpkhUtxo)
    → AreFree reserved us
    → has_outpoint o us ≡ true
    → expiry_of o reserved ≡ 0
unfolding has_outpoint
AreFree-expiry_of o reserved [] h k = absurd (ground arith)
AreFree-expiry_of o reserved (u ∷ us) h k =
    ground (arith, h.0, expiry_of-same u o reserved, AreFree-expiry_of o reserved us h.1)

AreFree-insert_utxo :
    (reserved : Reserved) (u : AddressUtxo) (us : List AddressUtxo)
    → expiry_of u.utxo reserved ≡ 0
    → AreFree reserved (utxos_of us)
    → AreFree reserved (utxos_of (insert_utxo u us))
unfolding insert_utxo utxos_of
AreFree-insert_utxo reserved u [] h k = (h, tt)
AreFree-insert_utxo reserved u (v ∷ us) h k = elim (Bool-cases (is_before u v)) [
  | inl first ↦ rw (insert_utxo, first) (h, k)
  | inr later ↦ rw (insert_utxo, later) (k.0, AreFree-insert_utxo reserved u us h k.1)
]

AreFree-sort_utxos :
    (reserved : Reserved) (us : List AddressUtxo)
    → AreFree reserved (utxos_of us)
    → AreFree reserved (utxos_of (sort_utxos us))
unfolding sort_utxos utxos_of
AreFree-sort_utxos reserved [] h = tt
AreFree-sort_utxos reserved (u ∷ us) h =
    AreFree-insert_utxo reserved u (sort_utxos us) h.0 (AreFree-sort_utxos reserved us h.1)

AreFree-free_utxos :
    (reserved : Reserved) (us : List AddressUtxo)
    → AreFree reserved (utxos_of (free_utxos reserved us))
unfolding free_utxos utxos_of
AreFree-free_utxos reserved [] = tt
AreFree-free_utxos reserved (u ∷ us) = elim (Bool-cases (is_reserved u.utxo reserved)) [
  | inl taken ↦ rw (free_utxos, taken) (AreFree-free_utxos reserved us)
  | inr free ↦
      rw (free_utxos, free) (expiry_of-free u.utxo reserved free, AreFree-free_utxos reserved us)
]

AreFree-keep_change :
    (reserved : Reserved) (cs : List PendingChange)
    → AreFree reserved (changes_of (keep_change (λ c. not (is_reserved c.utxo reserved)) cs))
unfolding keep_change changes_of
AreFree-keep_change reserved [] = tt
AreFree-keep_change reserved (c ∷ cs) = elim (Bool-cases (is_reserved c.utxo reserved)) [
  | inl taken ↦ rw (keep_change, taken) (AreFree-keep_change reserved cs)
  | inr free ↦
      rw (keep_change, free) (expiry_of-free c.utxo reserved free, AreFree-keep_change reserved cs)
]

pub AreFree-spendable_of :
    (listed : List AddressUtxo) (s : SignetFaucet) → AreFree s.reserved (spendable_of listed s).0
unfolding spendable_of
AreFree-spendable_of listed s =
    All-append _ (utxos_of (sort_utxos (free_utxos s.reserved listed))) _
      (AreFree-sort_utxos s.reserved (free_utxos s.reserved listed)
        (AreFree-free_utxos s.reserved listed))
      (AreFree-keep_change s.reserved _)

-- A payment takes nothing but what it is given.
module _ (P : P2wpkhUtxo → Type 0) where
  abbrev AllSelected : Option Selection → Type 0
  AllSelected none = Unit
  AllSelected (some s) = All P s.selected

  abbrev pub AllInputs : Built → Type 0
  AllInputs (built payment) = All P payment.inputs
  AllInputs _ = Unit

  select-AllSelected :
      (rate : FeeRate) (amount : ℕ) (to from : Script) (selected : List P2wpkhUtxo) (total : ℕ)
      (us : List P2wpkhUtxo)
      → All P selected
      → All P us
      → AllSelected (select rate amount to from selected total us)
  unfolding select
  select-AllSelected rate amount to from selected total [] h k = tt
  select-AllSelected rate amount to from selected total (u ∷ us) h k =
      let h' = All-append P selected (u ∷ []) h (k.0, tt) in
      let rest =
        select-AllSelected rate amount to from (selected ++ u ∷ []) (total + u.value) us h' k.1 in
      let n = length (selected ++ u ∷ []) in
      let with_change =
        leb (amount + fee_with_change rate amount to from n + p2wpkh_dust_limit_sat)
          (total + u.value) in
      let no_change = leb (amount + fee_no_change rate amount to from n) (total + u.value) in
      elim (Bool-cases with_change) [
        | inl change ↦ rw (select, change) h'
        | inr less ↦ elim (Bool-cases no_change) [
          | inl covered ↦ rw (select, less, covered) h'
          | inr short ↦ rw (select, less, short) rest
        ]
      ]

  build_selected-AllInputs :
      (rate : FeeRate) (amount : ℕ) (to from : Script) (us : List P2wpkhUtxo) (s : Option Selection)
      → AllSelected s
      → AllInputs (build_selected rate amount to from us s)
  unfolding build_selected
  build_selected-AllInputs rate amount to from us none h = tt
  build_selected-AllInputs rate amount to from us (some s) h = h

  pub build_p2wpkh_payment-AllInputs :
      (decode : String → Option Script) (from : Script) (params : P2wpkhPaymentParams)
      → All P params.utxos
      → AllInputs (build_p2wpkh_payment decode from params)
  unfolding build_p2wpkh_payment
  build_p2wpkh_payment-AllInputs decode from params h =
      elim (Bool-cases (params.amount_sat == 0 || ltb 9007199254740991 params.amount_sat)) [
        | inl bad ↦ rw (build_p2wpkh_payment, bad) tt
        | inr good ↦ elim (Bool-cases (params.fee_rate.num == 0)) [
          | inl free ↦ rw (build_p2wpkh_payment, good, free) tt
          | inr rate ↦ elim (Option-cases (decode params.to)) [
            | inl unknown ↦ rw (build_p2wpkh_payment, good, rate, unknown) tt
            | inr (to, known) ↦
                rw (build_p2wpkh_payment, good, rate, known)
                  (build_selected-AllInputs params.fee_rate params.amount_sat to from params.utxos _
                    (select-AllSelected params.fee_rate params.amount_sat to from ([]) 0
                      params.utxos tt h))
          ]
        ]
      ]
