-- ===== src/Status/Release.antt =====
-- What the app may say of a release, from the reads alone.
use Prim.Native.String.{String}
use writz.Prelude.{ℕ, ◌≡◌, ◌≢◌, true, Option, some, arith}
use writz.Status.{
  StatusInputs, Position, ChainPosition, PendingDeposit, spent, released, core_status,
  position_status, open_status, deposit_status, chain_status, unspent_status, debt_status,
  release_from_outspend, is_own_release, health_status, unregistered_status, confirmation_status,
  collateral_ratio_bp,
}

health_status-ne-released : (ratio : ℕ) (t : String) → health_status ratio ≢ released t
unfolding health_status
health_status-ne-released ratio t e = ground arith

debt_status-ne-released :
    (i : StatusInputs) (p : Position) (c : ChainPosition) (t : String)
    → debt_status i p c ≢ released t
unfolding debt_status collateral_ratio_bp health_status
debt_status-ne-released i p c t e = ground arith

unregistered_status-ne-released :
    (i : StatusInputs) (pd : PendingDeposit) (t : String) → unregistered_status i pd ≢ released t
unfolding unregistered_status confirmation_status
unregistered_status-ne-released i pd t e = ground arith

deposit_status-ne-released :
    (i : StatusInputs) (pd : PendingDeposit) (t : String) → deposit_status i pd ≢ released t
unfolding deposit_status
deposit_status-ne-released i pd t e = ground (arith, unregistered_status-ne-released i pd t)

unspent_status-released :
    (i : StatusInputs) (p : Position) (c : ChainPosition) (t : String)
    → unspent_status i p c ≡ released t
    → i.chain.lock_outspend ≡ some (spent t true)
unfolding unspent_status release_from_outspend
unspent_status-released i p c t e = ground (arith, debt_status-ne-released i p c t)

chain_status-released :
    (i : StatusInputs) (p : Position) (c : ChainPosition) (t : String)
    → chain_status i p c c.status ≡ released t
    → i.chain.lock_outspend ≡ some (spent t true)
chain_status-released i p c t e = ground (arith, unspent_status-released i p c t)

position_status-released :
    (i : StatusInputs) (p : Position) (r : Option (Option ChainPosition)) (t : String)
    → position_status i p r ≡ released t
    → i.chain.lock_outspend ≡ some (spent t true)
unfolding position_status
position_status-released i p (some (some c)) t e = chain_status-released i p c t e
position_status-released i p _ t e = cc

open_status-released :
    (i : StatusInputs) (p : Position) (t : String)
    → open_status i p ≡ released t
    → i.chain.lock_outspend ≡ some (spent t true)
unfolding open_status is_own_release release_from_outspend
open_status-released i p t e = ground (arith, position_status-released i p i.chain.position t)

-- The app says that a loan's BTC is released only when Bitcoin shows the lock output spent by that
-- transaction, confirmed.
pub core_status-released :
    (i : StatusInputs) (t : String)
    → core_status i ≡ released t
    → i.chain.lock_outspend ≡ some (spent t true)
unfolding core_status
core_status-released i t e = grind (arith, open_status-released, deposit_status-ne-released)
