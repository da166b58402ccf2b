-- ===== src/Faucet/Fair.antt =====
-- What the limits of the faucet keep of its claims.
use Prim.Native.String.{String}
use text.Mathlib.Text.{◌==◌ as str_eq}
use text.Mathlib.TextEquality.{eq_iff}
use writz.Prelude.{
  ℕ, ◌+◌, ◌-◌, ◌≤◌, ◌<◌, ◌≡◌, refl, subst, Bool, false, ◌&&◌, List, [], ◌∷◌, ◌++◌, Option, none,
  some, leb, ◌==◌, length, All, All-map, arith, Bool-cases, inl, inr,
}
use writz.Faucet.Store.{
  ClaimRecord, Claims, has_claim_for_user, has_claim_for_stellar_address, has_claim_for_address,
  ip_claims_since, count_since, record_claim,
}
use writz.Faucet.Request.{Failure}
use writz.Faucet.Service.{
  FaucetSettings, Claimant, start_of_utc_day, check_limits, has_claimed_user, ip_limit, daily_limit,
  or_limit,
}
use writz.Faucet.Counts.{
  count_claims, of_user, of_stellar_address, of_address, on_day, in_window, count_claims-push,
  count_claims_mono, count_claims_none, count_claims_zero, length-ip_claims_since,
  count_since-eq-count_claims,
}

abbrev pub IsOnce : (String → ClaimRecord → Bool) → Claims → Type 0
IsOnce of claims = (k : String) → count_claims (of k) claims ≤ 1

-- No account, Stellar address or Signet address twice, no day above the cap, and no client above its
-- allowance in any stretch of time as long as the window.
abbrev pub IsFair : FaucetSettings → Claims → Type 0
IsFair settings claims =
    IsOnce of_user claims
    × IsOnce of_stellar_address claims
    × IsOnce of_address claims
    × ((day : ℕ) → count_claims (on_day day) claims ≤ settings.daily_cap)
    × ((ip : String) (from : ℕ)
        → count_claims (in_window settings.ip_window_ms ip from) claims
          ≤ settings.ip_claims_per_window)

IsOnce-push :
    (test : ClaimRecord → String) (claims : Claims) (c : ClaimRecord)
    → IsOnce (λ k d. str_eq (test d) k) claims
    → count_claims (λ d. str_eq (test d) (test c)) claims ≡ 0
    → IsOnce (λ k d. str_eq (test d) k) (claims ++ c ∷ [])
IsOnce-push test claims c once new k = elim (Bool-cases (str_eq (test c) k)) [
  | inl same ↦
      let e = (eq_iff (test c) k).0 same in
      let none_before = subst (λ j. count_claims (λ d. str_eq (test d) j) claims ≡ 0) e new in
      ground (arith, count_claims-push (λ d. str_eq (test d) k) c claims, none_before)
  | inr other ↦ ground (arith, count_claims-push (λ d. str_eq (test d) k) c claims, once k)
]

module _ (settings : FaucetSettings) (t : ℕ) (claims : Claims)
    (before : All (λ c. c.created_at ≤ t) claims) where
  -- A claim of a later time `u` leaves every day within the cap, if the limit of its day allows it.
  day-push :
      (c : ClaimRecord)
      → t ≤ c.created_at
      → count_since (start_of_utc_day t) claims < settings.daily_cap
      → ((day : ℕ) → count_claims (on_day day) claims ≤ settings.daily_cap)
      → (day : ℕ) → count_claims (on_day day) (claims ++ c ∷ []) ≤ settings.daily_cap
  unfolding start_of_utc_day
  day-push c later room fair day = elim (Bool-cases (on_day day c)) [
    | inr other ↦ ground (arith, count_claims-push (on_day day) c claims, fair day)
    | inl today ↦ elim (Bool-cases (start_of_utc_day t == day)) [
      | inl same ↦ ground (
        arith,
        count_claims-push (on_day day) c claims,
        count_since-eq-count_claims (start_of_utc_day t) claims,
        count_claims_mono (on_day day) (λ d. leb (start_of_utc_day t) d.created_at) claims
            (All-map {P = λ d. d.created_at ≤ t} claims (λ d h e. ground arith) before),
      )
      | inr past ↦ ground (
        arith,
        count_claims-push (on_day day) c claims,
        count_claims_zero (on_day day) claims
            (All-map {P = λ d. d.created_at ≤ t} claims (λ d h. ground arith) before),
      )
    ]
  ]

  window-push :
      (c : ClaimRecord)
      → t ≤ c.created_at
      → length (ip_claims_since c.ip_hash (t + 1 - settings.ip_window_ms) claims)
        < settings.ip_claims_per_window
      → ((ip : String) (from : ℕ)
          → count_claims (in_window settings.ip_window_ms ip from) claims
            ≤ settings.ip_claims_per_window)
      → (ip : String) (from : ℕ)
      → count_claims (in_window settings.ip_window_ms ip from) (claims ++ c ∷ [])
        ≤ settings.ip_claims_per_window
  window-push c later room fair ip from =
      let ms = settings.ip_window_ms in
      elim (Bool-cases (in_window ms ip from c)) [
        | inr other ↦
            ground (arith, count_claims-push (in_window ms ip from) c claims, fair ip from)
        | inl inside ↦ ground (
          arith,
          eq_iff c.ip_hash ip,
          count_claims-push (in_window ms ip from) c claims,
          length-ip_claims_since c.ip_hash (t + 1 - ms) claims,
          count_claims_mono (in_window ms ip from)
              (λ d. str_eq d.ip_hash c.ip_hash && leb (t + 1 - ms) d.created_at) claims
              (All-map {P = λ d. d.created_at ≤ t} claims
                (λ d h e. ground (arith, eq_iff c.ip_hash ip)) before),
        )
      ]

-- What it takes to pass.
abbrev pub Passes : FaucetSettings → ℕ → Claims → String → String → String → String → Type 0
Passes settings t claims user_key stellar_address address ip_hash =
    (has_claim_for_user user_key claims ≡ false)
    × (has_claim_for_stellar_address stellar_address claims ≡ false)
    × (has_claim_for_address address claims ≡ false)
    × (length (ip_claims_since ip_hash (t + 1 - settings.ip_window_ms) claims)
        < settings.ip_claims_per_window)
    × (count_since (start_of_utc_day t) claims < settings.daily_cap)

ip_limit-eq-none :
    (settings : FaucetSettings) (t : ℕ) (ip_claims : List ℕ)
    → ip_limit settings t ip_claims ≡ none
    → length ip_claims < settings.ip_claims_per_window
unfolding ip_limit
ip_limit-eq-none settings t ip_claims h = ground arith

daily_limit-eq-none :
    (settings : FaucetSettings) (t : ℕ) (claims : Claims)
    → daily_limit settings t claims ≡ none
    → count_since (start_of_utc_day t) claims < settings.daily_cap
unfolding daily_limit
daily_limit-eq-none settings t claims h = ground arith

or_limit-eq-none : (a b : Option Failure) → or_limit a b ≡ none → (a ≡ none) × (b ≡ none)
unfolding or_limit
or_limit-eq-none none b h = (refl, h)
or_limit-eq-none (some f) b h = cc

pub check_limits-Passes :
    (settings : FaucetSettings) (t : ℕ) (claims : Claims) (claimant : Claimant)
    (user_key ip : String)
    → claimant.user_key ≡ some user_key
    → check_limits settings t claims claimant ip ≡ none
    → Passes settings t claims user_key claimant.stellar_address claimant.address ip
unfolding check_limits has_claimed_user
check_limits-Passes settings t claims claimant user_key ip keyed h =
    let ip_none =
      ip_limit-eq-none settings t (ip_claims_since ip (t + 1 - settings.ip_window_ms) claims) in
    let day_none = daily_limit-eq-none settings t claims in
    let both =
      or_limit-eq-none
        (ip_limit settings t (ip_claims_since ip (t + 1 - settings.ip_window_ms) claims))
        (daily_limit settings t claims) in
    (
      ground arith,
      ground arith,
      ground arith,
      ground (arith, ip_none, both),
      ground (arith, day_none, both),
    )

-- A claim that passed at `t` and is entered later keeps the claims fair.
pub IsFair-push :
    (settings : FaucetSettings) (t : ℕ) (claims : Claims) (c : ClaimRecord)
    → All (λ d. d.created_at ≤ t) claims
    → t ≤ c.created_at
    → Passes settings t claims c.user_key c.stellar_address c.address c.ip_hash
    → IsFair settings claims
    → IsFair settings (claims ++ c ∷ [])
unfolding has_claim_for_user has_claim_for_stellar_address has_claim_for_address
IsFair-push settings t claims c before later (user, stellar, address, ip, day) (u, s, a, d, w) = (
  IsOnce-push (λ r. r.user_key) claims c u (count_claims_none _ claims user),
  IsOnce-push (λ r. r.stellar_address) claims c s (count_claims_none _ claims stellar),
  IsOnce-push (λ r. r.address) claims c a (count_claims_none _ claims address),
  day-push settings t claims before c later day d,
  window-push settings t claims before c later ip w,
)

-- It is entered.
pub record_claim-Passes :
    (settings : FaucetSettings) (t : ℕ) (claims : Claims) (c : ClaimRecord)
    → Passes settings t claims c.user_key c.stellar_address c.address c.ip_hash
    → record_claim c claims ≡ some (claims ++ c ∷ [])
unfolding record_claim
record_claim-Passes settings t claims c (user, stellar, address, ip, day) =
    rw (user, stellar, address)
