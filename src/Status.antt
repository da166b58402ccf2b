-- ===== src/Status.antt =====
-- frontend/app/src/lib/status/derive.ts (types in status/types.ts): the status of a position from
-- the local record, the chain reads and the relayer's index. Amounts, heights and times are natural
-- numbers; `undefined` and `null` are `none`, a read that may be either is an option of an option,
-- and an empty text or a height of 0 counts as absent where the code tests for truth.
pub mod Types
pub mod Release
pub mod Health
pub mod Deposit
pub mod Reclaim
mod Tests
pub use Types.*
use Prim.Native.String.{String}
use text.Mathlib.Text.{◌==◌ as str_eq}
use writz.Prelude.{
  ℕ, ◌+◌, ◌-◌, ◌*◌, ◌/◌, Bool, true, false, not, ◌&&◌, ◌||◌, List, [], ◌∷◌, Option, none, some, ltb,
  leb, ◌==◌, if◌then◌else◌,
}

unfoldable pub collateral_ratio_bp : ℕ → ℕ → ℕ → Option ℕ
collateral_ratio_bp collateral_sats debt_stroops price =
    if debt_stroops == 0 then none else some (collateral_sats * price * 10000 / sat / debt_stroops)

pub health_status : ℕ → PositionStatus
health_status ratio =
    if ltb ratio liquidation_bp
    then liquidatable ratio
    else if ltb ratio at_risk_bp
    then at_risk ratio
    else active ratio (if leb borrow_limit_bp ratio then healthy else below_limit)

-- `Boolean(text)` and `Boolean(height)`.
abbrev pub truthy : Option String → Bool
truthy none = false
truthy (some s) = not (str_eq s "")

abbrev pub nonzero : Option ℕ → Bool
nonzero none = false
nonzero (some n) = not (n == 0)

abbrev pub is_some {ℓ} : {A : Type ℓ} → Option A → Bool
is_some none = false
is_some (some a) = true

pub has_btc_details : Position → Bool
has_btc_details p =
    not (str_eq p.txid "") && is_some p.vout && truthy p.btc_pubkey && nonzero p.timelock_height

abbrev pub or_default {ℓ} : {A : Type ℓ} → Option A → A → A
or_default none d = d
or_default (some a) d = a

abbrev pub or_else {ℓ} : {A : Type ℓ} → Option A → Option A → Option A
or_else none b = b
or_else (some a) b = some a

abbrev pub is_submitted : DepositStep → Bool
is_submitted submitted = true
is_submitted _ = false

-- `relayer?.field`.
abbrev pub relayer_field {ℓ} :
    {A : Type ℓ} → Option RelayerIndex → (RelayerIndex → Option A) → Option A
relayer_field none f = none
relayer_field (some r) f = f r

-- Confirmations by Esplora: 0 in the mempool, unknown without a tip height.
pub esplora_confirmations : Option BtcTxView → Option ℕ → Option ℕ
esplora_confirmations (some (seen none)) tip = some 0
esplora_confirmations (some (seen (some height))) (some tip) = some (tip + 1 - height)
esplora_confirmations _ tip = none

-- `relayerN !== undefined && esploraN !== undefined && relayerN < m && esploraN >= m`.
abbrev pub relayer_behind : Option ℕ → Option ℕ → ℕ → Bool
relayer_behind (some r) (some e) m = ltb r m && leb m e
relayer_behind _ _ m = false

-- `depositStatus` from the count of confirmations on.
pub confirmation_status :
    Option ℕ → Option ℕ → ℕ → Option BtcTxView → Option (Option ChainPosition) → PositionStatus
confirmation_status esplora_n relayer_n m tx chain_position = elim (or_else esplora_n relayer_n) [
  | none ↦ checking ((if is_some tx then btc_tip else deposit_tx) ∷ [])
  | some n ↦
      if n == 0
      then btc_sent
      else if relayer_behind relayer_n esplora_n m
      then confirming m m true
      else if ltb n m
      then confirming n m false
      else if is_some chain_position
      then ready_to_register
      else checking (position ∷ [])
]

abbrev pub is_unseen : Option BtcTxView → Bool
is_unseen (some unseen) = true
is_unseen _ = false

-- `depositStatus` when the chain shows no position.
pub unregistered_status : StatusInputs → PendingDeposit → PositionStatus
unregistered_status i pd =
    let m = or_default (relayer_field i.relayer (λ r. r.min_confirmations)) i.min_confirmations in
    if truthy pd.stellar_tx_hash || is_submitted pd.step
    then (if is_some i.chain.position then registering else checking (position ∷ []))
    else if is_unseen i.chain.deposit_tx
    then (if leb btc_unseen_after_ms (i.now - pd.created_at) then btc_unseen else btc_sent)
    else confirmation_status (esplora_confirmations i.chain.deposit_tx i.chain.btc_tip_height)
        (relayer_field i.relayer (λ r. r.confirmations)) m i.chain.deposit_tx i.chain.position

-- `depositStatus`.
pub deposit_status : StatusInputs → PendingDeposit → PositionStatus
deposit_status i pd = elim i.chain.position [
  | some (some c) ↦ registering
  | _ ↦ unregistered_status i pd
]

-- `releaseFromOutspend`.
pub release_from_outspend : Option Outspend → Option PositionStatus
release_from_outspend (some (spent txid confirmed)) =
    some (if confirmed then released txid else releasing txid)
release_from_outspend _ = none

-- `outspend?.spent && p.releaseTxid && outspend.txid === p.releaseTxid`.
pub is_own_release : Option Outspend → Option String → Bool
is_own_release (some (spent txid confirmed)) (some release) =
    not (str_eq release "") && str_eq txid release
is_own_release _ _ = false

abbrev pub is_chain_closed : ChainStatus → Bool
is_chain_closed chain_closed = true
is_chain_closed _ = false

abbrev pub is_chain_active : ChainStatus → Bool
is_chain_active chain_active = true
is_chain_active _ = false

abbrev pub liquidation_hash : Option LiquidationLookup → Option String
liquidation_hash (some (found tx_hash)) = some tx_hash
liquidation_hash _ = none

-- The end of `openStatus`: repaid, or at the oracle's price.
pub debt_status : StatusInputs → Position → ChainPosition → PositionStatus
debt_status i p c =
    if is_chain_closed c.status || c.debt_stroops == 0
    then (if has_btc_details p && not (is_some i.chain.lock_outspend)
        then checking (outspend ∷ [])
        else repaid_locked (is_chain_active c.status) (not (has_btc_details p)))
    else elim i.chain.oracle_price_stroops [
      | none ↦ checking (oracle_price ∷ [])
      | some price ↦ elim (collateral_ratio_bp c.collateral_sats c.debt_stroops price) [
        | none ↦ checking (oracle_price ∷ [])
        | some ratio ↦ health_status ratio
      ]
    ]

-- `openStatus` on a position that the chain holds and that is not liquidated.
pub unspent_status : StatusInputs → Position → ChainPosition → PositionStatus
unspent_status i p c = elim (release_from_outspend i.chain.lock_outspend) [
  | some s ↦ s
  | none ↦ elim p.release_txid [
    | none ↦ debt_status i p c
    | some release ↦
        if str_eq release ""
        then debt_status i p c
        else if is_some i.chain.lock_outspend
        then releasing release
        else checking (outspend ∷ [])
  ]
]

abbrev pub chain_status : StatusInputs → Position → ChainPosition → ChainStatus → PositionStatus
chain_status i p c chain_liquidated =
    liquidated (liquidation_hash (relayer_field i.relayer (λ r. r.liquidation)))
chain_status i p c _ = unspent_status i p c

-- `openStatus` from the read of the chain position on.
pub position_status : StatusInputs → Position → Option (Option ChainPosition) → PositionStatus
position_status i p (some (some c)) = chain_status i p c c.status
position_status i p _ = checking (position ∷ [])

-- `openStatus`: a spend by the release that this device sent comes before the chain's position.
pub open_status : StatusInputs → Position → PositionStatus
open_status i p =
    if is_own_release i.chain.lock_outspend p.release_txid
    then or_default (release_from_outspend i.chain.lock_outspend)
        (position_status i p i.chain.position)
    else position_status i p i.chain.position

pub core_status : StatusInputs → PositionStatus
core_status i = elim i.position [
  | some p ↦ open_status i p
  | none ↦ elim i.pending_deposit [
    | some pd ↦ deposit_status i pd
    | none ↦ checking (position ∷ [])
  ]
]

-- `RECLAIM_OVERLAY.has(status.kind)`.
abbrev pub in_reclaim_overlay : PositionStatus → Bool
in_reclaim_overlay (active ratio band) = true
in_reclaim_overlay (at_risk ratio) = true
in_reclaim_overlay (repaid_locked never missing) = true
in_reclaim_overlay _ = false

abbrev pub timelock_height_of : StatusInputs → Option ℕ
timelock_height_of i =
    or_else (elim i.position [ none ↦ none | some p ↦ p.timelock_height ])
      (elim i.pending_deposit [ none ↦ none | some pd ↦ some pd.timelock_height ])

pub timelock_of : StatusInputs → Option Timelock
timelock_of i = elim (timelock_height_of i) [
  | none ↦ none
  | some height ↦
      if height == 0
      then none
      else some (record {
        height = height;
        blocks_left = elim i.chain.btc_tip_height [ none ↦ none | some tip ↦ some (height - tip) ];
      })
]

abbrev pub has_matured : Option Timelock → Bool
has_matured none = false
has_matured (some t) = elim t.blocks_left [ none ↦ false | some left ↦ left == 0 ]

abbrev pub is_unspent : Option Outspend → Bool
is_unspent (some unspent) = true
is_unspent _ = false

abbrev pub is_repaid_locked : PositionStatus → Bool
is_repaid_locked (repaid_locked never missing) = true
is_repaid_locked _ = false

abbrev pub is_closed_read : Option (Option ChainPosition) → Bool
is_closed_read (some (some c)) = is_chain_closed c.status
is_closed_read _ = false

abbrev pub is_false : Option Bool → Bool
is_false (some b) = not b
is_false none = false

abbrev pub on_chain_of : Option (Option ChainPosition) → Option Position → Option OnChain
on_chain_of (some (some c)) (some p) =
    some (record { collateral_sats = c.collateral_sats; debt_stroops = c.debt_stroops })
on_chain_of _ _ = none

pub derive_position_status : StatusInputs → DerivedStatus
derive_position_status i =
    let status = core_status i in
    let timelock = timelock_of i in
    record {
      status = status;
      reclaimable =
          in_reclaim_overlay status && has_matured timelock && is_unspent i.chain.lock_outspend;
      timelock = timelock;
      syncing =
          is_repaid_locked status
          && is_closed_read i.chain.position
          && is_false i.chain.release_psbt_ready;
      on_chain = on_chain_of i.chain.position i.position;
    }
