-- ===== src/Faucet/Counts.antt =====
-- Counts of the faucet's claims, and what its limits say of them.
use Prim.Native.String.{String}
use text.Mathlib.Text.{◌==◌ as str_eq}
use writz.Prelude.{
  ℕ, suc, ◌+◌, ◌≤◌, ◌≡◌, refl, ap, ◌∙◌, Bool, true, false, ◌&&◌, List, [], ◌∷◌, ◌++◌, map, leb, ltb,
  ◌==◌, if◌then◌else◌, length, All, arith,
}
use writz.Faucet.Store.{
  ClaimRecord, Claims, some_claim, filter_claims, insert, sort, ip_claims_since, count_since,
}
use writz.Faucet.Service.{start_of_utc_day}

unfoldable pub count_claims : (ClaimRecord → Bool) → Claims → ℕ
count_claims test claims = length (filter_claims test claims)

-- The tests that the limits are about.
abbrev pub of_user : String → ClaimRecord → Bool
of_user k c = str_eq c.user_key k

abbrev pub of_stellar_address : String → ClaimRecord → Bool
of_stellar_address k c = str_eq c.stellar_address k

abbrev pub of_address : String → ClaimRecord → Bool
of_address k c = str_eq c.address k

abbrev pub on_day : ℕ → ClaimRecord → Bool
on_day day c = start_of_utc_day c.created_at == day

abbrev pub in_window : ℕ → String → ℕ → ClaimRecord → Bool
in_window ms ip from c =
    str_eq c.ip_hash ip && (leb from c.created_at && ltb c.created_at (from + ms))

pub count_claims-push :
    (test : ClaimRecord → Bool) (c : ClaimRecord) (claims : Claims)
    → count_claims test (claims ++ c ∷ []) ≡ count_claims test claims + (if test c then 1 else 0)
unfolding count_claims filter_claims
count_claims-push test c [] = ground arith
count_claims-push test c (d ∷ claims) = ground (arith, count_claims-push test c claims)

pub count_claims_mono :
    (p q : ClaimRecord → Bool) (claims : Claims)
    → All (λ c. p c ≡ true → q c ≡ true) claims
    → count_claims p claims ≤ count_claims q claims
unfolding count_claims filter_claims
count_claims_mono p q [] h = omega arith
count_claims_mono p q (c ∷ claims) h = ground (arith, h.0, count_claims_mono p q claims h.1)

pub count_claims_none :
    (test : ClaimRecord → Bool) (claims : Claims)
    → some_claim test claims ≡ false
    → count_claims test claims ≡ 0
unfolding count_claims filter_claims some_claim
count_claims_none test [] h = refl
count_claims_none test (c ∷ claims) h = ground (arith, count_claims_none test claims)

pub count_claims_zero :
    (test : ClaimRecord → Bool) (claims : Claims)
    → All (λ c. test c ≡ false) claims
    → count_claims test claims ≡ 0
unfolding count_claims filter_claims
count_claims_zero test [] h = refl
count_claims_zero test (c ∷ claims) h = ground (arith, h.0, count_claims_zero test claims h.1)

length-insert : (t : ℕ) (ts : List ℕ) → length (insert t ts) ≡ suc (length ts)
unfolding insert
length-insert t [] = refl
length-insert t (u ∷ us) = ground (arith, length-insert t us)

length-sort : (ts : List ℕ) → length (sort ts) ≡ length ts
unfolding sort
length-sort [] = refl
length-sort (t ∷ ts) = omega (arith, length-insert t (sort ts), length-sort ts)

length-created_at :
    (claims : Claims) → length (map (λ (c : ClaimRecord). c.created_at) claims) ≡ length claims
length-created_at [] = refl
length-created_at (c ∷ claims) = ap suc (length-created_at claims)

pub length-ip_claims_since :
    (ip : String) (since : ℕ) (claims : Claims)
    → length (ip_claims_since ip since claims)
      ≡ count_claims (λ c. str_eq c.ip_hash ip && leb since c.created_at) claims
unfolding ip_claims_since count_claims
length-ip_claims_since ip since claims = length-sort _ ∙ length-created_at _

pub count_since-eq-count_claims :
    (since : ℕ) (claims : Claims)
    → count_since since claims ≡ count_claims (λ c. leb since c.created_at) claims
unfolding count_since count_claims
count_since-eq-count_claims since claims = refl
