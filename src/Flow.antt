-- ===== src/Flow.antt =====
-- frontend/app/src/lib/flow/engine.ts: the transaction lifecycle that every flow of the app reports
-- its progress through, and the test for a declined signature of lib/wallet/rejection.ts.
pub mod Late
pub mod Rejection
pub mod Lock
pub mod Exclusion
pub mod Indices
mod Tests
use Prim.Native.String.{String}
use text.Mathlib.Text.{◌==◌}
use writz.Prelude.{
  ℕ, Bool, true, false, not, ◌&&◌, ◌||◌, List, [], ◌∷◌, Option, none, some, if◌then◌else◌,
}

pub data Wallet : Type 0 where
  stellar bitcoin : Wallet

pub data PrepareStep : Type 0 where
  locating_output reading building cosign broadcasting : PrepareStep

pub data AttentionAction : Type 0 where
  finish_deposit : AttentionAction

-- A thrown value: a SignatureRejectedError with its wallet and wallet name, or anything else, by
-- what `errorMessage` reads from it.
pub data Thrown : Type 0 where
  signature_rejected_error : Wallet → Option String → Thrown
  other_error : String → Thrown

abbrev pub signature_rejected : String
signature_rejected = "SignatureRejected"

pub error_message : Thrown → String
error_message (signature_rejected_error wallet name) = signature_rejected
error_message (other_error message) = message

abbrev pub is_rejection_error : Thrown → Bool
is_rejection_error (signature_rejected_error wallet name) = true
is_rejection_error (other_error message) = false

pub is_signature_rejected : Thrown → Bool
is_signature_rejected e = is_rejection_error e || error_message e == signature_rejected

-- `e.walletName` of a SignatureRejectedError.
pub wallet_name_of : Thrown → Option String
wallet_name_of (signature_rejected_error wallet name) = name
wallet_name_of (other_error message) = none

-- A phase with its fields; `post_processing` has the one step `finalize`.
pub data FlowState : Type 0 where
  idle : FlowState
  preparing : Option PrepareStep → Option String → FlowState
  waiting_btc : ℕ → ℕ → Bool → FlowState
  ready : FlowState
  proving : FlowState
  awaiting_signature : Wallet → Option String → FlowState
  submitted : String → FlowState
  post_processing : Option String → FlowState
  settled : Option String → FlowState
  signature_cancelled : Wallet → Option String → Option String → FlowState
  timed_out : String → FlowState
  failed : Thrown → Option String → FlowState
  needs_attention : AttentionAction → Option Thrown → Option String → FlowState

pub data FlowEvent : Type 0 where
  start reset ready_event proving_event post_processing_event : FlowEvent
  preparing_event : Option PrepareStep → FlowEvent
  btc_confirmations : ℕ → ℕ → FlowEvent
  relayer_unreachable : ℕ → FlowEvent
  awaiting_signature_event : Wallet → FlowEvent
  signature_cancelled_event : Option String → FlowEvent
  submitted_event : String → FlowEvent
  settled_event : Option String → FlowEvent
  timed_out_event : String → FlowEvent
  failed_event : Thrown → FlowEvent
  needs_attention_event : AttentionAction → Option Thrown → Option String → FlowEvent

pub is_terminal : FlowState → Bool
is_terminal idle = true
is_terminal ready = true
is_terminal (settled hash) = true
is_terminal (signature_cancelled wallet name hash) = true
is_terminal (timed_out hash) = true
is_terminal (failed e hash) = true
is_terminal (needs_attention action e hash) = true
is_terminal _ = false

-- `hashOf`: the phases without a hash field have none.
pub hash_of : FlowState → Option String
hash_of (preparing step hash) = hash
hash_of (awaiting_signature wallet hash) = hash
hash_of (submitted hash) = some hash
hash_of (post_processing hash) = hash
hash_of (settled hash) = hash
hash_of (signature_cancelled wallet name hash) = hash
hash_of (timed_out hash) = some hash
hash_of (failed e hash) = hash
hash_of (needs_attention action e hash) = hash
hash_of _ = none

-- `reconciled`: the outcome of a transaction that had timed out.
abbrev pub reconciled : FlowState → FlowEvent → Bool
reconciled (timed_out hash) (settled_event h) = true
reconciled (timed_out hash) (failed_event e) = true
reconciled _ _ = false

abbrev pub is_cancel : FlowEvent → Bool
is_cancel (signature_cancelled_event name) = true
is_cancel _ = false

-- `resumed`: an event of a run that reports into an idle or ready state.
abbrev pub resumed : FlowState → FlowEvent → Bool
resumed idle event = not (is_cancel event)
resumed ready event = not (is_cancel event)
resumed _ event = false

abbrev pub confirmations_of : FlowState → ℕ
confirmations_of (waiting_btc confirmations required reachable) = confirmations
confirmations_of _ = 0

-- `a ?? b`.
abbrev pub or_else {ℓ} : {A : Type ℓ} → Option A → Option A → Option A
or_else (some a) b = some a
or_else none b = b

pub cancel_in : FlowState → Option String → FlowState
cancel_in (awaiting_signature wallet hash) name = signature_cancelled wallet name hash
cancel_in state name = state

pub fail_in : FlowState → Thrown → FlowState
fail_in (awaiting_signature wallet hash) e =
    if is_signature_rejected e
    then signature_cancelled wallet (wallet_name_of e) hash
    else failed e hash
fail_in state e = failed e (hash_of state)

-- The `switch` of `reduceFlow`.
pub transition : FlowState → FlowEvent → FlowState
unfolding cancel_in fail_in
transition state start = preparing none none
transition state reset = idle
transition state (preparing_event step) = preparing step (hash_of state)
transition state (btc_confirmations confirmations required) =
    waiting_btc confirmations required true
transition state (relayer_unreachable required) =
    waiting_btc (confirmations_of state) required false
transition state ready_event = ready
transition state proving_event = proving
transition state (awaiting_signature_event wallet) = awaiting_signature wallet (hash_of state)
transition state (signature_cancelled_event name) = cancel_in state name
transition state (submitted_event hash) = submitted hash
transition state post_processing_event = post_processing (hash_of state)
transition state (settled_event hash) = settled (or_else hash (hash_of state))
transition state (timed_out_event hash) = timed_out hash
transition state (failed_event e) = fail_in state e
transition state (needs_attention_event action e hash) =
    needs_attention action e (or_else hash (hash_of state))

-- The guard of a terminal state.
pub guarded : FlowState → FlowEvent → FlowState
unfolding transition
guarded state event =
    if is_terminal state && not (reconciled state event) && not (resumed state event)
    then state
    else transition state event

pub reduce_flow : FlowState → FlowEvent → FlowState
unfolding guarded
reduce_flow state reset = idle
reduce_flow state start = preparing none none
reduce_flow state event = guarded state event

pub run_flow : FlowState → List FlowEvent → FlowState
run_flow state [] = state
run_flow state (event ∷ events) = run_flow (reduce_flow state event) events

pub is_in_flight : FlowState → Bool
is_in_flight state = not (is_terminal state)

pub guards_unload : FlowState → Bool
guards_unload (awaiting_signature wallet hash) = true
guards_unload (submitted hash) = true
guards_unload (post_processing hash) = true
guards_unload _ = false
