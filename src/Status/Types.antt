-- ===== src/Status/Types.antt =====
-- The inputs and outputs of frontend/app/src/lib/status/derive.ts: status/types.ts, and the fields
-- that it reads of lib/position/types.ts, lib/flow/pendingDeposit.ts and lib/contracts/writzLend.ts.
use Prim.Native.String.{String}
use writz.Prelude.{ℕ, Bool, List, Option}

abbrev pub borrow_limit_bp : ℕ
borrow_limit_bp = 15000

abbrev pub at_risk_bp : ℕ
at_risk_bp = 13000

abbrev pub liquidation_bp : ℕ
liquidation_bp = 12000

abbrev pub btc_unseen_after_ms : ℕ
btc_unseen_after_ms = 600000

abbrev pub sat : ℕ
sat = 100000000

pub data StatusInput : Type 0 where
  position release_psbt oracle_price btc_tip deposit_tx outspend liquidation local_tx : StatusInput

pub data HealthBand : Type 0 where
  healthy below_limit : HealthBand

pub data PositionStatus : Type 0 where
  checking : List StatusInput → PositionStatus
  btc_sent btc_unseen ready_to_register registering : PositionStatus
  confirming : ℕ → ℕ → Bool → PositionStatus
  active : ℕ → HealthBand → PositionStatus
  at_risk liquidatable : ℕ → PositionStatus
  repaid_locked : Bool → Bool → PositionStatus
  releasing released : String → PositionStatus
  liquidated : Option String → PositionStatus

-- The fields of a local `Position` that the derivation reads.
pub record Position : Type 0 where
  pub txid : String
  pub vout : Option ℕ
  pub btc_pubkey : Option String
  pub timelock_height : Option ℕ
  pub release_txid : Option String

pub data DepositStep : Type 0 where
  sent confirming_step ready submitted : DepositStep

pub record PendingDeposit : Type 0 where
  pub step : DepositStep
  pub timelock_height : ℕ
  pub stellar_tx_hash : Option String
  pub created_at : ℕ

pub data ChainStatus : Type 0 where
  chain_active chain_closed chain_liquidated : ChainStatus

pub record ChainPosition : Type 0 where
  pub status : ChainStatus
  pub collateral_sats : ℕ
  pub debt_stroops : ℕ

pub data BtcTxView : Type 0 where
  unseen : BtcTxView
  seen : Option ℕ → BtcTxView

pub data Outspend : Type 0 where
  unspent : Outspend
  spent : String → Bool → Outspend

pub data LiquidationLookup : Type 0 where
  found : String → LiquidationLookup
  not_found : Bool → LiquidationLookup

pub record RelayerIndex : Type 0 where
  pub min_confirmations : Option ℕ
  pub confirmations : Option ℕ
  pub liquidation : Option LiquidationLookup

-- Every read is `none` until it has succeeded.
pub record ChainReads : Type 0 where
  pub position : Option (Option ChainPosition)
  pub release_psbt_ready : Option Bool
  pub oracle_price_stroops : Option ℕ
  pub btc_tip_height : Option ℕ
  pub deposit_tx : Option BtcTxView
  pub lock_outspend : Option Outspend

pub record StatusInputs : Type 0 where
  pub position : Option Position
  pub pending_deposit : Option PendingDeposit
  pub chain : ChainReads
  pub relayer : Option RelayerIndex
  pub min_confirmations : ℕ
  pub now : ℕ

pub record Timelock : Type 0 where
  pub height : ℕ
  pub blocks_left : Option ℕ

pub record OnChain : Type 0 where
  pub collateral_sats : ℕ
  pub debt_stroops : ℕ

pub record DerivedStatus : Type 0 where
  pub status : PositionStatus
  pub reclaimable : Bool
  pub timelock : Option Timelock
  pub syncing : Bool
  pub on_chain : Option OnChain
