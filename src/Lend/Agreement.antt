-- ===== src/Lend/Agreement.antt =====
-- What the views of the contract have said where the check of a replay passes.
use Prim.Native.String.{String}
use text.Mathlib.TextEquality.{eq_iff}
use text.Mathlib.TextPositions.{eq_refl}
use mathlib.Core.Nat
use mathlib.Core.Int.{ℤ, pos, negsuc}
use writz.Prelude.{
  ℕ, suc, ◌+◌, ◌≡◌, refl, sym, ap, ◌∙◌, subst, Bool, true, false, List, [], ◌∷◌, Option, none, some,
  ◌⊎◌, if◌then◌else◌, length, arith, Option-cases, some_injective, inl, inr,
}
use writz.Repay.Rows.{member}
use writz.Lend.Growth.{>>=-some}
use writz.Lend.Replay.{
  ReplayedState, ExpectedStatus, LendChainReader, status_text, same_status, same_natural,
  same_scaled, Check, agrees, differs, rejects, check_position, check_supplier, check_total,
  check_all, find_missing, judge, and_check, and_verify, verify_releases, VerifyResult,
  missing_releases, verify_balances, verify_against_chain,
}

-- A property of every entry, each with the number of a call, from `n` on.
abbrev pub AllFrom {ℓ κ} : {V : Type ℓ} → (ℕ → String → V → Type κ) → ℕ → List (String × V) → Type κ
AllFrom P n [] = Unit
AllFrom P n ((key, value) ∷ entries) = P n key value × AllFrom P (suc n) entries

-- Each position repaid in full has a release on the contract, or it is one of the missing.
abbrev pub AreReleased : LendChainReader → ℕ → List String → List String → Type 0
AreReleased chain n missing [] = Unit
AreReleased chain n missing (txid ∷ txids) =
    ((chain.has_release n txid ≡ some true) ⊎ (member txid missing ≡ true))
    × AreReleased chain (suc n) missing txids

-- From the n-th call on, every view says what the replay does.
pub record Agrees (chain : LendChainReader) (n : ℕ) (s : ReplayedState) (missing : List String)
    : Type 0 where
  pub positions :
      AllFrom
        (λ k txid status. chain.position_status k txid ≡ some (some (status_text status)))
        n
        s.positions
  pub suppliers :
      AllFrom
        (λ k supplier scaled. chain.scaled_supply k supplier ≡ some scaled)
        (n + length s.positions)
        s.scaled_by_supplier
  pub total :
      chain.total_scaled_supply (n + length s.positions + length s.scaled_by_supplier)
      ≡ some s.total_scaled
  pub releases :
      AreReleased chain
        (suc (n + length s.positions + length s.scaled_by_supplier))
        missing
        s.repaid_in_full

AllFrom-map {ℓ κ κ'} :
    {V : Type ℓ} {P : ℕ → String → V → Type κ} {Q : ℕ → String → V → Type κ'} (n : ℕ)
    (entries : List (String × V))
    → ((k : ℕ) (key : String) (value : V) → P k key value → Q k key value)
    → AllFrom P n entries
    → AllFrom Q n entries
AllFrom-map n [] f h = tt
AllFrom-map n ((key, value) ∷ entries) f h = (f n key value h.0, AllFrom-map (suc n) entries f h.1)

same_status_eq :
    (status : Option String) (expected : ExpectedStatus)
    → same_status status expected ≡ true
    → status ≡ some (status_text expected)
unfolding same_status
same_status_eq none expected h = absurd (ground arith)
same_status_eq (some status) expected h =
    ap some (ground (arith, eq_iff status (status_text expected)))

same_natural_eq : (a b : Nat.ℕ) → same_natural a b ≡ true → a ≡ b
unfolding same_natural
same_natural_eq Nat.zero Nat.zero h = refl
same_natural_eq (Nat.suc a) (Nat.suc b) h = ap Nat.suc (same_natural_eq a b h)
same_natural_eq Nat.zero (Nat.suc b) h = absurd (ground arith)
same_natural_eq (Nat.suc a) Nat.zero h = absurd (ground arith)

same_scaled_eq : (a b : ℤ) → same_scaled a b ≡ true → a ≡ b
unfolding same_scaled
same_scaled_eq (pos a) (pos b) h = ap pos (same_natural_eq a b h)
same_scaled_eq (negsuc a) (negsuc b) h = ap negsuc (same_natural_eq a b h)
same_scaled_eq (pos a) (negsuc b) h = absurd (ground arith)
same_scaled_eq (negsuc a) (pos b) h = absurd (ground arith)

judge-agrees {ℓ} :
    {V : Type ℓ} (test : V → Bool) (answer : Option V)
    → judge test answer ≡ agrees
    → (value : V) × (answer ≡ some value) × (test value ≡ true)
unfolding judge
judge-agrees test none h = absurd (ground arith)
judge-agrees test (some value) h = (value, refl, ground arith)

and_check-agrees :
    (c : Check) (n : ℕ) (rest : Check × ℕ)
    → (and_check c n rest).0 ≡ agrees
    → (c ≡ agrees) × (and_check c n rest ≡ rest)
unfolding and_check
and_check-agrees agrees n rest h = (refl, refl)
and_check-agrees differs n rest h = absurd (ground arith)
and_check-agrees rejects n rest h = absurd (ground arith)

check_all-agrees {ℓ} :
    {V : Type ℓ} (check : ℕ → String → V → Check) (n : ℕ) (entries : List (String × V))
    → (check_all check n entries).0 ≡ agrees
    → AllFrom (λ k key value. check k key value ≡ agrees) n entries
      × ((check_all check n entries).1 ≡ n + length entries)
unfolding check_all
check_all-agrees check n [] h = (tt, omega arith)
check_all-agrees check n ((key, value) ∷ entries) h =
    let (first, e) =
      and_check-agrees (check n key value) (suc n) (check_all check (suc n) entries) h in
    let (rest, e') = check_all-agrees check (suc n) entries (sym (ap (λ p. p.0) e) ∙ h) in
    ((first, rest), ap (λ p. p.1) e ∙ e' ∙ omega arith)

and_verify-missing :
    (c : Check) (n : ℕ) (rest : VerifyResult × ℕ) (missing : List String)
    → (and_verify c n rest).0 ≡ missing_releases missing
    → (c ≡ agrees) × (rest.0 ≡ missing_releases missing)
unfolding and_verify
and_verify-missing agrees n rest missing h = (refl, h)
and_verify-missing differs n rest missing h = absurd (ground arith)
and_verify-missing rejects n rest missing h = absurd (ground arith)

module _ (chain : LendChainReader) where
  check_position-agrees :
      (n : ℕ) (txid : String) (expected : ExpectedStatus)
      → check_position chain n txid expected ≡ agrees
      → chain.position_status n txid ≡ some (some (status_text expected))
  unfolding check_position
  check_position-agrees n txid expected h =
      let (status, e, same) =
        judge-agrees (λ s. same_status s expected) (chain.position_status n txid) h in
      e ∙ ap some (same_status_eq status expected same)

  check_supplier-agrees :
      (n : ℕ) (supplier : String) (expected : ℤ)
      → check_supplier chain n supplier expected ≡ agrees
      → chain.scaled_supply n supplier ≡ some expected
  unfolding check_supplier
  check_supplier-agrees n supplier expected h =
      let (scaled, e, same) =
        judge-agrees (λ a. same_scaled a expected) (chain.scaled_supply n supplier) h in
      e ∙ ap some (same_scaled_eq scaled expected same)

  check_total-agrees :
      (n : ℕ) (expected : ℤ)
      → check_total chain n expected ≡ agrees
      → chain.total_scaled_supply n ≡ some expected
  unfolding check_total
  check_total-agrees n expected h =
      let (total, e, same) =
        judge-agrees (λ a. same_scaled a expected) (chain.total_scaled_supply n) h in
      e ∙ ap some (same_scaled_eq total expected same)

  -- A list of missing ones that has more than are found serves as well.
  AreReleased-more :
      (n : ℕ) (txids missing more : List String)
      → ((t : String) → member t missing ≡ true → member t more ≡ true)
      → AreReleased chain n missing txids
      → AreReleased chain n more txids
  AreReleased-more n [] missing more f h = tt
  AreReleased-more n (txid ∷ txids) missing more f (h, k) = (
    elim h [ inl released ↦ inl released | inr lacks ↦ inr (f txid lacks) ],
    AreReleased-more (suc n) txids missing more f k,
  )

  AreReleased-found :
      (n : ℕ) (has : Bool) (txid : String) (txids rest : List String)
      → chain.has_release n txid ≡ some has
      → AreReleased chain (suc n) rest txids
      → AreReleased chain n (if has then rest else txid ∷ rest) (txid ∷ txids)
  unfolding member
  AreReleased-found n true txid txids rest e h = (inl e, h)
  AreReleased-found n false txid txids rest e h = (
    inr (ground (arith, eq_refl txid)),
    AreReleased-more (suc n) txids rest (txid ∷ rest) (λ t k. ground (arith, k)) h,
  )

  find_missing-AreReleased :
      (n : ℕ) (txids missing : List String)
      → find_missing chain n txids ≡ some missing
      → AreReleased chain n missing txids
  unfolding find_missing
  find_missing-AreReleased n [] missing h = tt
  find_missing-AreReleased n (txid ∷ txids) missing h =
      let (has, e, h1) = >>=-some (chain.has_release n txid) _ missing h in
      let (rest, e', h2) = >>=-some (find_missing chain (suc n) txids) _ missing h1 in
      subst (λ missing'. AreReleased chain n missing' (txid ∷ txids)) (some_injective h2)
        (AreReleased-found n has txid txids rest e (find_missing-AreReleased (suc n) txids rest e'))

  verify_releases-missing :
      (n : ℕ) (s : ReplayedState) (missing : List String)
      → (verify_releases chain n s).0 ≡ missing_releases missing
      → find_missing chain n s.repaid_in_full ≡ some missing
  unfolding verify_releases
  verify_releases-missing n s missing h =
      elim (Option-cases (find_missing chain n s.repaid_in_full)) [
        | inl e ↦ ground arith
        | inr (m, e) ↦ ground arith
      ]

  verify_balances-Agrees :
      (n : ℕ) (s : ReplayedState) (missing : List String)
      → (verify_balances chain n s).0 ≡ missing_releases missing
      → AllFrom
          (λ k supplier scaled. chain.scaled_supply k supplier ≡ some scaled)
          n
          s.scaled_by_supplier
        × (chain.total_scaled_supply (n + length s.scaled_by_supplier) ≡ some s.total_scaled)
        × AreReleased chain (suc (n + length s.scaled_by_supplier)) missing s.repaid_in_full
  unfolding verify_balances
  verify_balances-Agrees n s missing h =
      let c = check_all (check_supplier chain) n s.scaled_by_supplier in
      let (passed, h1) =
        and_verify-missing c.0 c.1
          (and_verify (check_total chain c.1 s.total_scaled) (suc c.1)
            (verify_releases chain (suc c.1) s))
          missing h in
      let (total, h2) =
        and_verify-missing (check_total chain c.1 s.total_scaled) (suc c.1)
          (verify_releases chain (suc c.1) s) missing h1 in
      let (all, e) = check_all-agrees (check_supplier chain) n s.scaled_by_supplier passed in
      let released =
        find_missing-AreReleased (suc c.1) s.repaid_in_full missing
          (verify_releases-missing (suc c.1) s missing h2) in
      (
        AllFrom-map n s.scaled_by_supplier check_supplier-agrees all,
        subst (λ k. chain.total_scaled_supply k ≡ some s.total_scaled) e
            (check_total-agrees c.1 s.total_scaled total),
        subst (λ k. AreReleased chain (suc k) missing s.repaid_in_full) e released,
      )

  pub verify_against_chain-Agrees :
      (n : ℕ) (s : ReplayedState) (missing : List String)
      → (verify_against_chain chain n s).0 ≡ missing_releases missing
      → Agrees chain n s missing
  unfolding verify_against_chain
  verify_against_chain-Agrees n s missing h =
      let c = check_all (check_position chain) n s.positions in
      let (passed, h1) = and_verify-missing c.0 c.1 (verify_balances chain c.1 s) missing h in
      let (all, e) = check_all-agrees (check_position chain) n s.positions passed in
      let below =
        verify_balances-Agrees (n + length s.positions) s missing
          (subst (λ k. (verify_balances chain k s).0 ≡ missing_releases missing) e h1) in
      record {
        positions = AllFrom-map n s.positions check_position-agrees all;
        suppliers = below.0;
        total = below.1;
        releases = below.2;
      }
