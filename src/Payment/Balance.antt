-- ===== src/Payment/Balance.antt =====
-- What a payment spends and pays.
use Prim.Native.String.{String}
use writz.Prelude.{ℕ, ◌+◌, ◌≤◌, ◌<◌, ◌≡◌, ◌⊎◌, List, [], ◌∷◌, ◌++◌, Option, none, some, length}
use writz.Payment.{
  Script, P2wpkhUtxo, FeeRate, Built, built, insufficient_funds, sum_values, Selection,
  fee_with_change, fee_no_change,
}

module _ (rate : FeeRate) (amount : ℕ) (recipient change_script : Script) where
  -- Behind `selected`, none of the candidates brings the amount and the fee of a payment without
  -- change together.
  abbrev pub NoneCovers : List P2wpkhUtxo → List P2wpkhUtxo → Type 0
  NoneCovers selected [] = Unit
  NoneCovers selected (u ∷ utxos) =
      (sum_values (selected ++ u ∷ [])
        < amount + fee_no_change rate amount recipient change_script (length (selected ++ u ∷ [])))
      × NoneCovers (selected ++ u ∷ []) utxos

  -- The inputs cover the outputs and a fee for the size; the change is no dust.
  abbrev pub IsBalanced : List P2wpkhUtxo → ℕ → ℕ → Type 0
  IsBalanced inputs fee change =
      (sum_values inputs ≡ amount + fee + change)
      × (((change ≡ 0) × (fee_no_change rate amount recipient change_script (length inputs) ≤ fee))
          ⊎ ((294 ≤ change)
              × (fee ≡ fee_with_change rate amount recipient change_script (length inputs))))

  -- The selection from the candidates behind `selected`: it ends at the first that covers.
  abbrev pub Selects : List P2wpkhUtxo → List P2wpkhUtxo → Selection → Type 0
  Selects selected utxos s =
      (before : List P2wpkhUtxo) × (last : P2wpkhUtxo) × (rest : List P2wpkhUtxo) × (utxos
        ≡ before ++ last ∷ rest)
      × (s.selected ≡ selected ++ before ++ last ∷ [])
      × NoneCovers selected before
      × IsBalanced s.selected s.fee_sat s.change_sat

  abbrev pub Selected : List P2wpkhUtxo → List P2wpkhUtxo → Option Selection → Type 0
  Selected selected utxos none = NoneCovers selected utxos
  Selected selected utxos (some s) = Selects selected utxos s

  -- The outputs are the amount to the recipient and the change, if there is any, to the payer.
  abbrev pub IsOutputs : ℕ → List (Script × ℕ) → Type 0
  IsOutputs change outputs =
      ((change ≡ 0) × (outputs ≡ (((recipient, amount)) ∷ [])))
      ⊎ ((0 < change) × (outputs ≡ (((recipient, amount)) ∷ ((change_script, change)) ∷ [])))

  -- The result of a payment from the candidates.
  abbrev pub IsBuilt : List P2wpkhUtxo → Built → Type 0
  IsBuilt utxos (built p) =
      (before : List P2wpkhUtxo) × (last : P2wpkhUtxo) × (rest : List P2wpkhUtxo) × (utxos
        ≡ before ++ last ∷ rest)
      × (p.inputs ≡ before ++ last ∷ [])
      × NoneCovers ([]) before
      × IsBalanced p.inputs p.fee_sat p.change_sat
      × IsOutputs p.change_sat p.outputs
  IsBuilt utxos (insufficient_funds available required) =
      (available ≡ sum_values utxos) × NoneCovers ([]) utxos
  IsBuilt utxos _ = ⊥
