-- ===== src/Cctp/Quiet.antt =====
-- The parts of the relay that send no mint.
use Prim.Native.String.{String}
use writz.Prelude.{
  ℕ, zero, suc, ◌≡◌, refl, ◌∙◌, Bool, true, false, Option, none, some, leb, if◌then◌else◌, arith,
}
use writz.Cctp.Message.{Bytes}
use writz.Cctp.Store.{RelayRecord, FailureCode, MintedBy, truthy, or_else}
use writz.Cctp.Job.{
  World, Job, return, and_then, ◌>>=◌, ◌>>◌, attempt, call, now, tick, RelayOptions, ReceiptOutcome,
  success, revert, pending,
}
use writz.Cctp.Service.{
  lookup_record, put_record, update_found, update, fail, transient, transient_at, set_arrived,
  is_nonce_used, await_receipt, find_on_indexer, find_mint_tx, minted_elsewhere, retry_give_up_ms,
}
use writz.Cctp.Mint.{warn_if_low, note_balance}

-- A job that keeps the log of the mints.
pub record IsQuiet {ℓ} {A : Type ℓ} (m : Job A) : Type 0 where
  pub keeps : (w : World) → (m w).1.sends ≡ w.sends

and_then_sends {ℓ κ} :
    {A : Type ℓ} {B : Type κ} (p : Option A × World) (k : A → Job B)
    → ((a : A) → IsQuiet (k a))
    → (and_then p k).1.sends ≡ p.1.sends
and_then_sends (none, w) k h = refl
and_then_sends (some a, w) k h = (h a).keeps w

pub bind-IsQuiet {ℓ κ} :
    {A : Type ℓ} {B : Type κ} (m : Job A) (k : A → Job B)
    → IsQuiet m
    → ((a : A) → IsQuiet (k a))
    → IsQuiet (m >>= k)
unfolding ◌>>=◌
bind-IsQuiet m k h h' = record { keeps = λ w. and_then_sends (m w) k h' ∙ h.keeps w }

pub if-IsQuiet {ℓ} :
    {A : Type ℓ} (b : Bool) (m n : Job A) → IsQuiet m → IsQuiet n → IsQuiet (if b then m else n)
if-IsQuiet true m n h h' = h
if-IsQuiet false m n h h' = h'

pub return-IsQuiet {ℓ} : {A : Type ℓ} (a : A) → IsQuiet (return a)
return-IsQuiet a = record { keeps = λ w. refl }

pub option-IsQuiet {ℓ κ} :
    {A : Type ℓ} {B : Type κ} (o : Option B) (n : Job A) (f : B → Job A)
    → IsQuiet n
    → ((b : B) → IsQuiet (f b))
    → IsQuiet (elim o as (λ _. Job A) [ none ↦ n | some b ↦ f b ])
option-IsQuiet none n f h h' = h
option-IsQuiet (some b) n f h h' = h' b

pub receipt-IsQuiet {ℓ} :
    {A : Type ℓ} (o : ReceiptOutcome) (a b c : Job A)
    → IsQuiet a
    → IsQuiet b
    → IsQuiet c
    → IsQuiet (elim o as (λ _. Job A) [ success ↦ a | revert ↦ b | pending ↦ c ])
receipt-IsQuiet success a b c h h' h'' = h
receipt-IsQuiet revert a b c h h' h'' = h'
receipt-IsQuiet pending a b c h h' h'' = h''

pub lookup_record-IsQuiet : (burn_hash : String) → IsQuiet (lookup_record burn_hash)
unfolding lookup_record
lookup_record-IsQuiet burn_hash = record { keeps = λ w. refl }

module _ (opts : RelayOptions) where
  pub now-IsQuiet : IsQuiet (now opts)
  unfolding now tick
  now-IsQuiet = record { keeps = λ w. refl }

  pub call-IsQuiet {ℓ} : {A : Type ℓ} (f : ℕ → Option A) → IsQuiet (call opts f)
  unfolding call tick
  call-IsQuiet f = record { keeps = λ w. refl }

  pub attempt-call-IsQuiet {ℓ} : {A : Type ℓ} (f : ℕ → Option A) → IsQuiet (attempt (call opts f))
  unfolding call tick
  attempt-call-IsQuiet f = record { keeps = λ w. refl }

  update_found-IsQuiet :
      (patch : RelayRecord → RelayRecord) (current : Option RelayRecord)
      → IsQuiet (update_found opts patch current)
  unfolding update_found put_record now tick ◌>>=◌
  update_found-IsQuiet patch none = record { keeps = λ w. refl }
  update_found-IsQuiet patch (some r) = record { keeps = λ w. refl }

  pub update-IsQuiet :
      (burn_hash : String) (patch : RelayRecord → RelayRecord)
      → IsQuiet (update opts burn_hash patch)
  unfolding update
  update-IsQuiet burn_hash patch =
      bind-IsQuiet (lookup_record burn_hash) _ (lookup_record-IsQuiet burn_hash)
        (update_found-IsQuiet patch)

  update_only :
      (burn_hash : String) (patch : RelayRecord → RelayRecord)
      → IsQuiet (update opts burn_hash patch >> return {A = Unit {0}} tt)
  update_only burn_hash patch =
      bind-IsQuiet (update opts burn_hash patch) (λ _. return tt) (update-IsQuiet burn_hash patch)
        (λ _. return-IsQuiet tt)

  pub fail-IsQuiet :
      (burn_hash : String) (code : FailureCode) (reason : String)
      → IsQuiet (fail opts burn_hash code reason)
  unfolding fail
  fail-IsQuiet burn_hash code reason = update_only burn_hash _

  pub transient-IsQuiet :
      (burn_hash : String) (code : FailureCode) (reason : String)
      → IsQuiet (transient opts burn_hash code reason)
  unfolding transient transient_at
  transient-IsQuiet burn_hash code reason =
      bind-IsQuiet (lookup_record burn_hash) _ (lookup_record-IsQuiet burn_hash) (λ current.
        bind-IsQuiet (now opts) _ now-IsQuiet (λ t.
          if-IsQuiet (leb retry_give_up_ms _) _ _
            (bind-IsQuiet (update opts burn_hash _) _ (update-IsQuiet burn_hash _)
              (λ _. fail-IsQuiet burn_hash _ _))
            (update_only burn_hash _)))

  pub set_arrived-IsQuiet :
      (burn_hash : String) (mint_hash : Option String) (minted_by : MintedBy)
      → IsQuiet (set_arrived opts burn_hash mint_hash minted_by)
  unfolding set_arrived
  set_arrived-IsQuiet burn_hash mint_hash minted_by =
      if-IsQuiet (truthy mint_hash) _ _ (update_only burn_hash _)
        (bind-IsQuiet (now opts) _ now-IsQuiet (λ t. update_only burn_hash _))

  pub is_nonce_used-IsQuiet : (nonce : Bytes) → IsQuiet (is_nonce_used opts nonce)
  unfolding is_nonce_used
  is_nonce_used-IsQuiet nonce = call-IsQuiet _

  pub await_receipt-IsQuiet :
      (waits : ℕ) (tx_hash : String) → IsQuiet (await_receipt opts waits tx_hash)
  unfolding await_receipt
  await_receipt-IsQuiet zero tx_hash = return-IsQuiet pending
  await_receipt-IsQuiet (suc waits) tx_hash =
      bind-IsQuiet (call opts _) _ (call-IsQuiet _) (λ outcome.
        receipt-IsQuiet outcome _ _ _ (return-IsQuiet success) (return-IsQuiet revert)
          (await_receipt-IsQuiet waits tx_hash))

  find_on_indexer-IsQuiet : (nonce : Bytes) → IsQuiet (find_on_indexer opts nonce)
  unfolding find_on_indexer call tick ◌>>=◌
  find_on_indexer-IsQuiet nonce = record { keeps = λ w. ground arith }

  find_mint_tx-IsQuiet : (nonce : Bytes) → IsQuiet (find_mint_tx opts nonce)
  unfolding find_mint_tx
  find_mint_tx-IsQuiet nonce =
      bind-IsQuiet (attempt (call opts _)) _ (attempt-call-IsQuiet _) (λ answer.
        option-IsQuiet (or_else answer none) _ _ (find_on_indexer-IsQuiet nonce)
          (λ found. return-IsQuiet (some found)))

  pub minted_elsewhere-IsQuiet :
      (burn_hash : String) (nonce : Bytes) → IsQuiet (minted_elsewhere opts burn_hash nonce)
  unfolding minted_elsewhere
  minted_elsewhere-IsQuiet burn_hash nonce =
      bind-IsQuiet (find_mint_tx opts nonce) _ (find_mint_tx-IsQuiet nonce)
        (λ found. set_arrived-IsQuiet burn_hash _ _)

  pub warn_if_low-IsQuiet : IsQuiet (warn_if_low opts)
  unfolding warn_if_low note_balance now call tick ◌>>=◌
  warn_if_low-IsQuiet = record { keeps = λ w. ground arith }
