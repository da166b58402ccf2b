-- ===== src/Payment/Tests.antt =====
-- Concrete payments.
use writz.Prelude.{ℕ, ◌≡◌, refl, [], ◌∷◌, some, replicate}
use writz.Payment.{
  Script, P2wpkhUtxo, P2wpkhPaymentParams, built, build_p2wpkh_payment, select, build_selected,
  sum_values, output_vbytes, outputs_vbytes, estimate_p2wpkh_vsize, fee_of, fee_with_change,
  fee_no_change, payment_outputs,
}

abbrev script : Script
script = replicate 22 0

abbrev coin : ℕ → P2wpkhUtxo
coin value = record { txid = "t"; vout = 0; value = value }

abbrev params : P2wpkhPaymentParams
params = record {
  utxos = coin 600 ∷ coin 1000 ∷ coin 5000 ∷ [];
  to = "tb1q";
  amount_sat = 1000;
  fee_rate = record { num = 3; den = 2 };
}

-- Two inputs of 1600 pay 1000: of the 600 left, 314 would be the fee with change, and the other 286
-- are dust, so all of it is the fee.
two_inputs :
    build_p2wpkh_payment (λ to. some script) script params
    ≡ built (record {
      fee_sat = 600;
      change_sat = 0;
      inputs = coin 600 ∷ coin 1000 ∷ [];
      outputs = ((script, 1000)) ∷ [];
    })
unfolding build_p2wpkh_payment select build_selected sum_values output_vbytes outputs_vbytes
    estimate_p2wpkh_vsize fee_of fee_with_change fee_no_change payment_outputs
two_inputs = refl
