-- ===== src/Faucet/Store.antt =====
-- relayer/src/faucet/store.ts: the claims that were paid, in memory.
use Prim.Native.String.{String}
use text.Mathlib.Text.{◌==◌ as str_eq}
use writz.Prelude.{
  ℕ, Bool, false, ◌&&◌, ◌||◌, List, [], ◌∷◌, ◌++◌, map, Option, none, some, leb, if◌then◌else◌,
  length,
}

pub record ClaimRecord : Type 0 where
  pub address : String
  pub ip_hash : String
  pub user_key : String
  pub stellar_address : String
  pub txid : String
  pub amount_sat : ℕ
  pub created_at : ℕ

abbrev pub Claims : Type 0
Claims = List ClaimRecord

unfoldable pub some_claim : (ClaimRecord → Bool) → Claims → Bool
some_claim test [] = false
some_claim test (c ∷ claims) = test c || some_claim test claims

unfoldable pub filter_claims : (ClaimRecord → Bool) → Claims → Claims
filter_claims test [] = []
filter_claims test (c ∷ claims) =
    let rest = filter_claims test claims in if test c then c ∷ rest else rest

unfoldable pub insert : ℕ → List ℕ → List ℕ
insert t [] = t ∷ []
insert t (u ∷ us) = let rest = insert t us in if leb t u then t ∷ u ∷ us else u ∷ rest

-- `sort((a, b) => a - b)`.
unfoldable pub sort : List ℕ → List ℕ
sort [] = []
sort (t ∷ ts) = insert t (sort ts)

unfoldable pub has_claim_for_address : String → Claims → Bool
has_claim_for_address address claims = some_claim (λ c. str_eq c.address address) claims

unfoldable pub has_claim_for_user : String → Claims → Bool
has_claim_for_user user_key claims = some_claim (λ c. str_eq c.user_key user_key) claims

unfoldable pub has_claim_for_stellar_address : String → Claims → Bool
has_claim_for_stellar_address stellar_address claims =
    some_claim (λ c. str_eq c.stellar_address stellar_address) claims

unfoldable pub ip_claims_since : String → ℕ → Claims → List ℕ
ip_claims_since ip_hash since claims = sort (
    map (λ (c : ClaimRecord). c.created_at)
      (filter_claims (λ c. str_eq c.ip_hash ip_hash && leb since c.created_at) claims))

unfoldable pub count_since : ℕ → Claims → ℕ
count_since since claims = length (filter_claims (λ c. leb since c.created_at) claims)

-- `record`; `none` is the thrown error.
unfoldable pub record_claim : ClaimRecord → Claims → Option Claims
record_claim claim claims =
    if has_claim_for_user claim.user_key claims
      || has_claim_for_stellar_address claim.stellar_address claims
      || has_claim_for_address claim.address claims
    then none
    else some (claims ++ claim ∷ [])
