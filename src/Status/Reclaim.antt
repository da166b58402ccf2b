-- ===== src/Status/Reclaim.antt =====
-- When the app says that a user can take the BTC back alone.
use writz.Prelude.{
  ℕ, ◌≤◌, ◌<◌, ◌≡◌, refl, ap, ◌⊎◌, ◌↔◌, inl, inr, Bool, true, some, arith, Option-cases,
}
use writz.Status.Types.{
  PositionStatus, HealthBand, checking, btc_sent, btc_unseen, ready_to_register, registering,
  confirming, active, at_risk, liquidatable, repaid_locked, releasing, released, liquidated,
}
use writz.Status.{
  StatusInputs, unspent, core_status, derive_position_status, timelock_of, timelock_height_of,
  in_reclaim_overlay, has_matured,
}

-- The collateral is locked and the loan is not about to be liquidated.
abbrev pub IsLocked : PositionStatus → Type 0
IsLocked status =
    ((ratio : ℕ) × (band : HealthBand) × (status ≡ active ratio band))
    ⊎ ((ratio : ℕ) × (status ≡ at_risk ratio))
    ⊎ ((never : Bool) × (missing : Bool) × (status ≡ repaid_locked never missing))

in_reclaim_overlay-IsLocked :
    (status : PositionStatus) → in_reclaim_overlay status ≡ true → IsLocked status
in_reclaim_overlay-IsLocked (active ratio band) h = inl (ratio, band, refl)
in_reclaim_overlay-IsLocked (at_risk ratio) h = inr (inl (ratio, refl))
in_reclaim_overlay-IsLocked (repaid_locked never missing) h = inr (inr (never, missing, refl))
in_reclaim_overlay-IsLocked (checking missing) h = absurd cc
in_reclaim_overlay-IsLocked btc_sent h = absurd cc
in_reclaim_overlay-IsLocked btc_unseen h = absurd cc
in_reclaim_overlay-IsLocked ready_to_register h = absurd cc
in_reclaim_overlay-IsLocked registering h = absurd cc
in_reclaim_overlay-IsLocked (confirming n m late) h = absurd cc
in_reclaim_overlay-IsLocked (liquidatable ratio) h = absurd cc
in_reclaim_overlay-IsLocked (releasing txid) h = absurd cc
in_reclaim_overlay-IsLocked (released txid) h = absurd cc
in_reclaim_overlay-IsLocked (liquidated hash) h = absurd cc

IsLocked-in_reclaim_overlay :
    (status : PositionStatus) → IsLocked status → in_reclaim_overlay status ≡ true
IsLocked-in_reclaim_overlay status (inl (ratio, band, e)) = ap in_reclaim_overlay e
IsLocked-in_reclaim_overlay status (inr (inl (ratio, e))) = ap in_reclaim_overlay e
IsLocked-in_reclaim_overlay status (inr (inr (never, missing, e))) = ap in_reclaim_overlay e

timelock_of-matured :
    (i : StatusInputs)
    → has_matured (timelock_of i) ≡ true
    → (height : ℕ) × (tip : ℕ) × (timelock_height_of i ≡ some height)
      × (i.chain.btc_tip_height ≡ some tip)
      × (0 < height)
      × (height ≤ tip)
unfolding timelock_of
timelock_of-matured i h = elim (Option-cases (timelock_height_of i)) [
  | inl no_height ↦ absurd (ground arith)
  | inr (height, e) ↦ elim (Option-cases i.chain.btc_tip_height) [
    | inl no_tip ↦ absurd (ground arith)
    | inr (tip, e') ↦ (height, tip, e, e', ground arith, ground arith)
  ]
]

timelock_of_matures :
    (i : StatusInputs) (height tip : ℕ)
    → timelock_height_of i ≡ some height
    → i.chain.btc_tip_height ≡ some tip
    → 0 < height
    → height ≤ tip
    → has_matured (timelock_of i) ≡ true
unfolding timelock_of
timelock_of_matures i height tip e e' pos le = rw (timelock_of, e) (rw (e') (ground arith))

-- The Bitcoin tip has been read at or past the timelock, the lock output has been read as unspent, and
-- the loan has one of the statuses.
abbrev pub IsReclaimable : StatusInputs → Type 0
IsReclaimable i =
    (height : ℕ) × (tip : ℕ) × (timelock_height_of i ≡ some height)
    × (i.chain.btc_tip_height ≡ some tip)
    × (0 < height)
    × (height ≤ tip)
    × (i.chain.lock_outspend ≡ some unspent)
    × IsLocked (core_status i)

-- A loan is shown as reclaimable exactly when the Bitcoin tip has been read at or past its timelock,
-- which is not 0, the lock output has been read as unspent, and its status is active, at risk or
-- repaid.
pub derive_position_status-reclaimable_iff :
    (i : StatusInputs) → ((derive_position_status i).reclaimable ≡ true) ↔ IsReclaimable i
unfolding derive_position_status
derive_position_status-reclaimable_iff i = (
  λ h.
      let (height, tip, e, e', pos, le) = timelock_of-matured i (ground arith) in
      (
        height,
        tip,
        e,
        e',
        pos,
        le,
        ground arith,
        in_reclaim_overlay-IsLocked (core_status i) (ground arith),
      ),
  λ (height, tip, e, e', pos, le, free, locked).
      let matured = timelock_of_matures i height tip e e' pos le in
      let overlay = IsLocked-in_reclaim_overlay (core_status i) locked in
      ground (arith, matured, overlay, free),
)
