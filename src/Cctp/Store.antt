-- ===== src/Cctp/Store.antt =====
-- relayer/src/cctp/store.ts: the relay's records, one per burn, and what the API answers for one.
-- The store is a map from burn hashes to records, times are milliseconds, and a time in an answer
-- is the number itself instead of its ISO text.
use Prim.Native.String.{String, ◌++◌ as str_append}
use text.Mathlib.Text.{◌==◌ as str_eq}
use writz.Prelude.{
  ℕ, suc, Bool, true, false, not, ◌&&◌, ◌||◌, List, [], ◌∷◌, Option, none, some, leb, if◌then◌else◌,
}
use writz.Prelude.OrderedMap
use writz.Cctp.Message.{Bytes, HexText}

pub data RelayState : Type 0 where
  sent : RelayState
  confirming : RelayState
  confirmed : RelayState
  submitted : RelayState
  arrived : RelayState
  failed : RelayState

pub data FailureCode : Type 0 where
  confirm_timeout : FailureCode
  rpc : FailureCode
  out_of_gas : FailureCode
  daily_cap : FailureCode
  send_failed : FailureCode
  not_mined : FailureCode
  reverted : FailureCode
  unexpected : FailureCode
  refused : FailureCode
  mint_refused : FailureCode
  unseen : FailureCode
  gave_up : FailureCode

pub data MintedBy : Type 0 where
  relay : MintedBy
  other : MintedBy

pub record RelayRecord : Type 0 where
  pub burn_hash : String
  pub state : RelayState
  pub nonce : Option Bytes
  pub recipient : Option Bytes
  pub amount : Option ℕ
  pub fee_executed : Option ℕ
  pub message : Option HexText
  pub attestation : Option String
  pub mint_hash : Option String
  pub minted_by : Option MintedBy
  pub failure : Option String
  pub failure_code : Option FailureCode
  pub retryable : Bool
  pub retry_at : Option ℕ
  pub attempts : Option ℕ
  pub retrying_since : Option ℕ
  pub created_at : ℕ
  pub updated_at : ℕ
  pub submitted_at : Option ℕ

abbrev pub Records : Type 0
Records = List (String × RelayRecord)

-- `x !== undefined`.
unfoldable pub is_some {ℓ} : {A : Type ℓ} → Option A → Bool
is_some none = false
is_some (some a) = true

-- A text that is there and not empty, as a JavaScript condition asks for it.
unfoldable pub truthy : Option String → Bool
truthy none = false
truthy (some s) = not (str_eq s "")

unfoldable pub is_arrived : RelayState → Bool
is_arrived arrived = true
is_arrived _ = false

unfoldable pub is_failed : RelayState → Bool
is_failed failed = true
is_failed _ = false

unfoldable pub is_sent : RelayState → Bool
is_sent sent = true
is_sent _ = false

unfoldable pub is_settled : RelayRecord → Bool
is_settled r = is_arrived r.state || is_failed r.state

unfoldable pub is_retrying : RelayRecord → Bool
is_retrying r = is_failed r.state && is_some r.retry_at

unfoldable pub put : RelayRecord → Records → Records
put record_ records = OrderedMap.set record_.burn_hash record_ records

-- `r.submittedAt !== undefined && r.submittedAt >= since`.
unfoldable pub submitted_since : ℕ → RelayRecord → Bool
submitted_since since r = elim r.submitted_at [ none ↦ false | some t ↦ leb since t ]

unfoldable pub count_submitted_since : ℕ → Records → ℕ
count_submitted_since since [] = 0
count_submitted_since since ((_, r) ∷ records) =
    let rest = count_submitted_since since records in
    if submitted_since since r then suc rest else rest

-- `r.retryAt !== undefined && r.retryAt <= now`.
unfoldable pub is_due : ℕ → RelayRecord → Bool
is_due now r = elim r.retry_at [ none ↦ false | some t ↦ leb t now ]

-- The `kind` of an answer.
pub data Kind : Type 0 where
  sent_kind : Kind
  confirming_kind : Kind
  confirmed_kind : Kind
  arrived_kind : Kind
  failed_kind : Kind

unfoldable pub state_kind : RelayState → Kind
state_kind sent = sent_kind
state_kind confirming = confirming_kind
state_kind confirmed = confirmed_kind
state_kind submitted = confirmed_kind
state_kind arrived = arrived_kind
state_kind failed = failed_kind

pub record CctpRelayView : Type 0 where
  pub burn_hash : String
  pub kind : Kind
  -- `none` when the field is absent, `some none` when it is null.
  pub mint_hash : Option (Option String)
  pub explorer_url : Option String
  pub reason : Option String
  pub retryable : Option Bool
  pub retrying : Bool
  pub next_retry_at : Option ℕ
  pub recipient : Option Bytes
  pub amount : Option ℕ
  pub fee_executed : Option ℕ
  pub minted_by : Option MintedBy
  pub created_at : ℕ
  pub updated_at : ℕ

unfoldable pub view_kind : RelayRecord → Kind
view_kind r =
    if is_retrying r
    then (if truthy r.attestation then confirmed_kind else confirming_kind)
    else state_kind r.state

unfoldable pub is_arrived_kind : Kind → Bool
is_arrived_kind arrived_kind = true
is_arrived_kind _ = false

unfoldable pub is_failed_kind : Kind → Bool
is_failed_kind failed_kind = true
is_failed_kind _ = false

-- `o ?? d`.
unfoldable pub or_else {ℓ} : {A : Type ℓ} → Option A → A → A
or_else none d = d
or_else (some a) d = a

unfoldable pub to_relay_view : RelayRecord → CctpRelayView
to_relay_view r =
    let kind = view_kind r in
    record {
      burn_hash = r.burn_hash;
      kind = kind;
      mint_hash = if is_arrived_kind kind then some r.mint_hash else none;
      explorer_url =
          if is_arrived_kind kind && truthy r.mint_hash
          then some (str_append "https://sepolia.basescan.org/tx/" (or_else r.mint_hash ""))
          else none;
      reason =
          if is_retrying r
          then some (or_else r.failure "the relay is retrying")
          else if is_failed_kind kind
          then some (or_else r.failure "the relay stopped")
          else none;
      retryable = if is_failed_kind kind then some r.retryable else none;
      retrying = is_retrying r;
      next_retry_at = if is_retrying r then r.retry_at else none;
      recipient = r.recipient;
      amount = r.amount;
      fee_executed = r.fee_executed;
      minted_by = r.minted_by;
      created_at = r.created_at;
      updated_at = r.updated_at;
    }
