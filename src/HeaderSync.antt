-- ===== src/HeaderSync.antt =====
-- relayer/src/bitcoin/header-sync.ts: how the relayer feeds Bitcoin headers to the bitcoin-spv
-- contract. Heights and amounts are natural numbers; the Esplora read and the contract call that
-- `HeaderSyncDeps` holds are parameters, and a promise that rejects is an error value.
pub mod Plan
pub mod Sync
pub mod Backoff
pub mod Tips
mod Tests
use writz.Prelude.{
  ℕ, zero, suc, ◌+◌, ◌*◌, ◌^◌, ◌-◌, min, max, Bool, true, false, not, ◌||◌, ◌&&◌, List, [], ◌∷◌,
  ◌++◌, map, Option, none, some, ltb, leb, ◌==◌, if◌then◌else◌, ◌>>=◌,
}

pub record HeaderBatch : Type 0 where
  pub from_height : ℕ
  pub to_height : ℕ

-- The loop of `planHeaderBatches`; `none` when the fuel runs out.
pub plan_from : ℕ → ℕ → ℕ → ℕ → Option (List HeaderBatch)
plan_from zero start to_height per_submit = none
plan_from (suc fuel) start to_height per_submit =
    let batch : HeaderBatch = record {
      from_height = start;
      to_height = min (start + per_submit - 1) to_height;
    } in
    let more = (do
      batches ← plan_from fuel (start + per_submit) to_height per_submit
      some (batch ∷ batches)) in
    if leb start to_height then more else some []

-- `none` stands for the RangeError of a batch size that is not positive. The fuel is one more than
-- the number of heights, for the test that ends the loop.
pub plan_header_batches : ℕ → ℕ → ℕ → Option (List HeaderBatch)
plan_header_batches from_height to_height per_submit =
    if ltb per_submit 1
    then none
    else plan_from (suc (to_height + 1 - from_height)) from_height to_height per_submit

-- `syncStartHeight`, with `REORG_RESUBMIT_DEPTH`.
abbrev pub reorg_resubmit_depth : ℕ
reorg_resubmit_depth = 6

pub sync_start_height : ℕ → Option ℕ → ℕ
sync_start_height configured_from none = configured_from
sync_start_height configured_from (some tip) = max configured_from (tip - reorg_resubmit_depth)

-- How a sync ends: the `submittedThrough` that it returns, or a rejected promise.
pub data Outcome : Type 0 where
  returned : Option ℕ → Outcome
  rejected : Outcome

-- The inner loop of `syncHeaders`: `count` headers from `h` on.
pub fetch_headers {ℓ} : {A : Type ℓ} → (ℕ → Option A) → ℕ → ℕ → Option (List A)
fetch_headers get_header h zero = some []
fetch_headers get_header h (suc count) = do
  header ← get_header h
  headers ← fetch_headers get_header (h + 1) count
  some (header ∷ headers)

-- The outer loop. The state is what the contract has accepted so far, batch by batch; `submit`
-- says whether a call with these headers goes through.
pub sync_batches {ℓ} :
    {A : Type ℓ}
    → (ℕ → Option A)
    → (List (List A) → List A → Bool)
    → List HeaderBatch
    → Option ℕ
    → List (List A)
    → List (List A) × Outcome
sync_batches get_header submit [] through log = (log, returned through)
sync_batches get_header submit (batch ∷ batches) through log =
    elim (fetch_headers get_header batch.from_height (batch.to_height + 1 - batch.from_height)) [
      | none ↦ (log, rejected)
      | some headers ↦
          let rest =
            sync_batches get_header submit batches (some batch.to_height) (log ++ headers ∷ []) in
          if submit log headers then rest else (log, rejected)
    ]

pub sync_headers {ℓ} :
    {A : Type ℓ}
    → (ℕ → Option A)
    → (List (List A) → List A → Bool)
    → ℕ
    → ℕ
    → ℕ
    → List (List A)
    → List (List A) × Outcome
sync_headers get_header submit from_height to_height per_submit log =
    elim (plan_header_batches from_height to_height per_submit) [
      | none ↦ (log, rejected)
      | some batches ↦ sync_batches get_header submit batches none log
    ]

-- One call of the function that `withBackoff` retries.
pub data Attempt {ℓ} (T E : Type ℓ) : Type ℓ where
  success : T → Attempt T E
  failure : E → Attempt T E

-- `withBackoff`: the result and the delays slept, in milliseconds; `run k` is the k-th call of
-- `fn`. `none` when the fuel runs out.
pub backoff_from {ℓ} :
    {T E : Type ℓ}
    → (ℕ → Attempt T E)
    → (E → Bool)
    → ℕ
    → ℕ
    → ℕ
    → ℕ
    → List ℕ
    → Option (Attempt T E × List ℕ)
backoff_from run is_retryable retries base_delay zero attempt slept = none
backoff_from run is_retryable retries base_delay (suc fuel) attempt slept = elim (run attempt) [
  | success t ↦ some (success t, slept)
  | failure e ↦
      let again =
        backoff_from run is_retryable retries base_delay fuel (attempt + 1)
          (slept ++ base_delay * 2 ^ attempt ∷ []) in
      if leb retries attempt || not (is_retryable e) then some (failure e, slept) else again
]

pub with_backoff {ℓ} :
    {T E : Type ℓ} → (ℕ → Attempt T E) → (E → Bool) → ℕ → ℕ → Option (Attempt T E × List ℕ)
with_backoff run is_retryable retries base_delay =
    backoff_from run is_retryable retries base_delay (retries + 1) 0 []

-- A tip's hash is its hex text, as character codes.
pub record ChainTip : Type 0 where
  pub height : ℕ
  pub hash : List ℕ

-- `toLowerCase` on the letters of a hex text.
pub to_lower : ℕ → ℕ
to_lower c = if leb b'A' c && leb c b'Z' then c + 32 else c

pub same_text : List ℕ → List ℕ → Bool
same_text [] [] = true
same_text (a ∷ s) (b ∷ t) = a == b && same_text s t
same_text _ _ = false

pub has_new_headers : ChainTip → Option ChainTip → Bool
has_new_headers bitcoin_tip none = true
has_new_headers bitcoin_tip (some contract_tip) =
    if ltb contract_tip.height bitcoin_tip.height
    then true
    else if ltb bitcoin_tip.height contract_tip.height
    then false
    else not (same_text (map to_lower bitcoin_tip.hash) (map to_lower contract_tip.hash))

-- `assertWithinFeeCeiling`: the fees of the FeeCeilingExceededError that it throws.
pub assert_within_fee_ceiling : ℕ → ℕ → Option (ℕ × ℕ)
assert_within_fee_ceiling fee max_fee = if ltb max_fee fee then some (fee, max_fee) else none
