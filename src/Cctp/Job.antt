-- ===== src/Cctp/Job.antt =====
-- The relay's background work as explicit state passing. A `Job` runs from one state of the relay
-- to the next and returns a value or throws (`none`); what it changed before it threw stays.
-- The chain, Iris and the indexer are parameters: each answers the n-th call as it likes, so what
-- one of them says may change between two calls. The clock does not go back: the n-th call takes
-- `elapsed n`, reading the clock and the waits of `sleep` included.
use Prim.Native.String.{String}
use text.Mathlib.Text.{◌==◌ as str_eq}
use writz.Prelude.{ℕ, suc, ◌+◌, Bool, false, not, ◌||◌, if◌then◌else◌, List, Option, none, some}
use writz.Cctp.Message.{Bytes, HexText}
use writz.Cctp.Store.{Records}

pub data SimulateOutcome : Type 0 where
  simulated : SimulateOutcome
  -- Whether the RPC itself failed, and the contract's reason.
  not_simulated : Bool → Option String → SimulateOutcome

pub data ReceiptOutcome : Type 0 where
  success : ReceiptOutcome
  revert : ReceiptOutcome
  pending : ReceiptOutcome

pub record MintLog : Type 0 where
  pub tx_hash : String
  pub caller : String

-- What `sendReceive` returns or throws.
pub data SendOutcome : Type 0 where
  broadcast : String → SendOutcome
  insufficient_funds : SendOutcome
  send_error : SendOutcome

pub data IrisLookup : Type 0 where
  unknown : IrisLookup
  pending_message : IrisLookup
  complete : HexText → String → IrisLookup

-- relayer/src/cctp/iris.ts: an entry of Iris's answer. A field is `none` when it is missing or empty.
pub record IrisMessage : Type 0 where
  pub status : Option String
  pub message : Option HexText
  pub attestation : Option String

-- An HTTP answer: not found, another error, or the first of the messages.
pub data IrisResponse : Type 0 where
  not_found : IrisResponse
  not_ok : IrisResponse
  answered : Option IrisMessage → IrisResponse

unfoldable pub is_text : String → Option String → Bool
is_text t none = false
is_text t (some s) = str_eq s t

-- A status, a message and an attestation that are all there.
unfoldable pub read_message : IrisMessage → IrisLookup
read_message m = elim m.message [
  | none ↦ pending_message
  | some message ↦ elim m.attestation [
    | none ↦ pending_message
    | some attestation ↦
        if not (is_text "complete" m.status)
          || str_eq attestation ""
          || str_eq attestation "PENDING"
        then pending_message
        else complete message attestation
  ]
]

-- `fetchIrisMessage` of an answer; `none` is a thrown error.
unfoldable pub read_response : Option IrisResponse → Option IrisLookup
read_response none = none
read_response (some not_found) = some unknown
read_response (some not_ok) = none
read_response (some (answered none)) = some unknown
read_response (some (answered (some m))) = some (read_message m)

-- `RelayChain`: `none` is a call that rejects.
pub record RelayChain : Type 0 where
  pub address : String
  pub balance_wei : ℕ → Option ℕ
  pub is_nonce_used : ℕ → Bytes → Option Bool
  pub find_mint : ℕ → Bytes → Option (Option MintLog)
  pub simulate_receive : ℕ → HexText → String → Option SimulateOutcome
  pub send_receive : ℕ → HexText → String → SendOutcome
  pub wait_for_receipt : ℕ → String → Option ReceiptOutcome

pub record RelaySettings : Type 0 where
  pub confirm_timeout_ms : ℕ
  pub daily_cap : ℕ
  pub max_open : ℕ
  pub poll_initial_ms : ℕ
  pub poll_max_ms : ℕ

pub record RelayOptions : Type 0 where
  pub chain : RelayChain
  pub settings : RelaySettings
  pub elapsed : ℕ → ℕ
  -- `none` when the request fails or its body is no JSON.
  pub fetch_iris : ℕ → String → Option IrisResponse
  -- `none` without an indexer.
  pub find_mint_on_indexer : Option (ℕ → Bytes → Option (Option MintLog))
  -- `toLowerCase`.
  pub to_lower_case : String → String

-- What the relay keeps, and the nonces of the mints it has sent, the last one first.
pub record World : Type 0 where
  pub calls : ℕ
  pub time : ℕ
  pub records : Records
  pub sends : List Bytes
  -- When the balance was read, and the balance.
  pub balance_cache : Option (ℕ × ℕ)

abbrev pub Job {ℓ} : Type ℓ → Type ℓ
Job A = World → Option A × World

abbrev pub return {ℓ} : {A : Type ℓ} → A → Job A
return a w = (some a, w)

abbrev pub throw {ℓ} : {A : Type ℓ} → Job A
throw w = (none, w)

abbrev pub and_then {ℓ κ} :
    {A : Type ℓ} {B : Type κ} → Option A × World → (A → Job B) → Option B × World
and_then (none, w) k = (none, w)
and_then (some a, w) k = k a w

infixl 5 ◌>>=◌ ◌>>◌
unfoldable pub ◌>>=◌ {ℓ κ} : {A : Type ℓ} {B : Type κ} → Job A → (A → Job B) → Job B
(m >>= k) w = and_then (m w) k

abbrev pub ◌>>◌ {ℓ κ} : {A : Type ℓ} {B : Type κ} → Job A → Job B → Job B
m >> k = m >>= λ _. k

-- `try { … } catch`: the value, or `none` if it throws.
abbrev pub attempt {ℓ} : {A : Type ℓ} → Job A → Job (Option A)
attempt m w = let (a, w') = m w in (some a, w')

-- One call more.
unfoldable pub tick : RelayOptions → World → World
tick opts w = record w { calls = suc w.calls; time = w.time + opts.elapsed w.calls }

-- A call that may reject.
unfoldable pub call {ℓ} : {A : Type ℓ} → RelayOptions → (ℕ → Option A) → Job A
call opts f w = (f w.calls, tick opts w)

-- `await this.sleep(ms)`.
unfoldable pub sleep : RelayOptions → ℕ → Job (Unit {0})
sleep opts ms w = (some tt, tick opts (record w { time = w.time + ms }))

-- `this.now()`.
unfoldable pub now : RelayOptions → Job ℕ
now opts w = (some w.time, tick opts w)
