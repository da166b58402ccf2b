-- ===== src/Payment.antt =====
-- bitcoin-script/src/payment.ts: a payment from the P2WPKH outputs of one key. A fee rate is a
-- fraction of two natural numbers, and the comparisons of differences are written as sums. The
-- address decoding and the signing of bitcoinjs-lib are parameters.
pub mod Balance
mod Tests
use Prim.Native.String.{String}
use writz.Prelude.{
  ℕ, ◌+◌, ◌-◌, ◌*◌, ◌/◌, max, Bool, List, [], ◌∷◌, ◌++◌, Option, none, some, leb, ltb, ◌==◌,
  if◌then◌else◌, length, ◌||◌,
}

abbrev pub Script : Type 0
Script = List ℕ

pub record P2wpkhUtxo : Type 0 where
  pub txid : String
  pub vout : ℕ
  pub value : ℕ

-- `num / den` satoshis per virtual byte.
pub record FeeRate : Type 0 where
  pub num : ℕ
  pub den : ℕ

pub record P2wpkhPaymentParams : Type 0 where
  pub utxos : List P2wpkhUtxo
  pub to : String
  pub amount_sat : ℕ
  pub fee_rate : FeeRate

-- The payment without the bytes that the signing makes.
pub record P2wpkhPayment : Type 0 where
  pub fee_sat : ℕ
  pub change_sat : ℕ
  pub inputs : List P2wpkhUtxo
  pub outputs : List (Script × ℕ)

pub data Built : Type 0 where
  built : P2wpkhPayment → Built
  insufficient_funds : ℕ → ℕ → Built
  bad_amount : Built
  bad_fee_rate : Built
  bad_address : Built

abbrev pub p2wpkh_dust_limit_sat : ℕ
p2wpkh_dust_limit_sat = 294

unfoldable pub output_vbytes : Script → ℕ
output_vbytes script = 8 + 1 + length script

unfoldable pub outputs_vbytes : List Script → ℕ
outputs_vbytes [] = 0
outputs_vbytes (script ∷ scripts) = output_vbytes script + outputs_vbytes scripts

unfoldable pub estimate_p2wpkh_vsize : ℕ → List Script → ℕ
estimate_p2wpkh_vsize inputs scripts = 11 + inputs * 68 + outputs_vbytes scripts

-- `Math.ceil(vsize * feeRate)`.
unfoldable pub fee_of : FeeRate → ℕ → ℕ
fee_of rate vsize = (vsize * rate.num + (rate.den - 1)) / rate.den

unfoldable pub sum_values : List P2wpkhUtxo → ℕ
sum_values [] = 0
sum_values (u ∷ utxos) = u.value + sum_values utxos

-- What the loop leaves when it has covered the amount.
pub record Selection : Type 0 where
  pub selected : List P2wpkhUtxo
  pub fee_sat : ℕ
  pub change_sat : ℕ

module _ (rate : FeeRate) (amount : ℕ) (recipient change_script : Script) where
  unfoldable pub fee_with_change : ℕ → ℕ
  fee_with_change n = fee_of rate (estimate_p2wpkh_vsize n (recipient ∷ change_script ∷ []))

  unfoldable pub fee_no_change : ℕ → ℕ
  fee_no_change n = fee_of rate (estimate_p2wpkh_vsize n (recipient ∷ []))

  -- The `for` loop over the candidates.
  unfoldable pub select : List P2wpkhUtxo → ℕ → List P2wpkhUtxo → Option Selection
  select selected total [] = none
  select selected total (utxo ∷ utxos) =
      let selected' = selected ++ utxo ∷ [] in
      let total' = total + utxo.value in
      let with_change = fee_with_change (length selected') in
      let no_change = fee_no_change (length selected') in
      let rest = select selected' total' utxos in
      if leb (amount + with_change + p2wpkh_dust_limit_sat) total'
      then some (record {
        selected = selected';
        fee_sat = with_change;
        change_sat = total' - amount - with_change;
      })
      else if leb (amount + no_change) total'
      then some (record { selected = selected'; fee_sat = total' - amount; change_sat = 0 })
      else rest

  unfoldable pub payment_outputs : ℕ → List (Script × ℕ)
  payment_outputs change_sat =
      if ltb 0 change_sat
      then ((recipient, amount)) ∷ ((change_script, change_sat)) ∷ []
      else ((recipient, amount)) ∷ []

  -- Behind the loop.
  unfoldable pub build_selected : List P2wpkhUtxo → Option Selection → Built
  build_selected utxos none =
      insufficient_funds (sum_values utxos) (amount + fee_no_change (max 1 (length utxos)))
  build_selected utxos (some s) = built (record {
    fee_sat = s.fee_sat;
    change_sat = s.change_sat;
    inputs = s.selected;
    outputs = payment_outputs s.change_sat;
  })

-- `buildP2wpkhPayment`, with the script of an address and that of the payer.
unfoldable pub build_p2wpkh_payment :
    (String → Option Script) → Script → P2wpkhPaymentParams → Built
build_p2wpkh_payment address_to_output_script change_script params =
    if params.amount_sat == 0 || ltb 9007199254740991 params.amount_sat
    then bad_amount
    else if params.fee_rate.num == 0
    then bad_fee_rate
    else elim (address_to_output_script params.to) [
      | none ↦ bad_address
      | some recipient ↦
          build_selected params.fee_rate params.amount_sat recipient change_script params.utxos
            (select params.fee_rate params.amount_sat recipient change_script ([]) 0 params.utxos)
    ]
