-- ===== src/HeaderSync/Tips.antt =====
-- When a sync pass is skipped.
use writz.Prelude.{ℕ, ◌<◌, ◌≡◌, ◌↔◌, ◌⊎◌, refl, true, false, List, [], ◌∷◌, map, some, arith}
use writz.HeaderSync.{ChainTip, to_lower, same_text, has_new_headers}

same_text_iff : (s t : List ℕ) → (same_text s t ≡ true) ↔ (s ≡ t)
unfolding same_text
same_text_iff [] [] = (λ _. refl, λ _. refl)
same_text_iff [] (b ∷ t) = (λ e. cc, λ e. cc)
same_text_iff (a ∷ s) [] = (λ e. cc, λ e. cc)
same_text_iff (a ∷ s) (b ∷ t) = ground (arith, same_text_iff s t)

-- A hash read in any letter case.
abbrev pub folded : ChainTip → List ℕ
folded tip = map to_lower tip.hash

-- A pass is skipped exactly when the contract has a tip and the Bitcoin source is behind it, or at
-- its height on the same block; the case of the hex digits does not matter.
has_new_headers-eq-false_iff :
    (bitcoin_tip contract_tip : ChainTip)
    → (has_new_headers bitcoin_tip (some contract_tip) ≡ false) ↔ (
        (bitcoin_tip.height < contract_tip.height)
        ⊎ ((bitcoin_tip.height ≡ contract_tip.height) × (folded bitcoin_tip ≡ folded contract_tip)))
unfolding has_new_headers
has_new_headers-eq-false_iff bitcoin_tip contract_tip =
    ground (arith, same_text_iff (folded bitcoin_tip) (folded contract_tip))
