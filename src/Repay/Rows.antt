-- ===== src/Repay/Rows.antt =====
-- Which releases stand in the table after each operation of the store.
use Prim.Native.String.{String}
use text.Mathlib.Text.{◌==◌ as str_eq}
use text.Mathlib.TextEquality.{eq_iff}
use text.Mathlib.TextPositions.{eq_refl}
use writz.Prelude.{
  ℕ, zero, suc, ◌≡◌, refl, Bool, true, false, not, ◌&&◌, ◌||◌, List, [], ◌∷◌, ◌++◌, take, All,
  arith, Bool-cases, inl, inr,
}
use writz.Repay.Store.{
  Row, is_row, has_row, insert_row, insert_rows, new_row, fail_rows, delete_rows, is_due, due,
  ReleaseStore, is_before, insert_ordered, due_rows,
}

unfoldable pub member : String → List String → Bool
member t [] = false
member t (u ∷ us) = str_eq u t || member t us

pub member-append :
    (t : String) (us vs : List String) → member t (us ++ vs) ≡ (member t us || member t vs)
unfolding member
member-append t [] vs = refl
member-append t (u ∷ us) vs = ground (arith, member-append t us vs)

has_row-push :
    (c t : String) (rows : List Row) (r : Row)
    → has_row c t (rows ++ r ∷ []) ≡ (has_row c t rows || is_row c t r)
unfolding has_row
has_row-push c t [] r = ground arith
has_row-push c t (q ∷ rows) r = ground (arith, has_row-push c t rows r)

has_row-insert_row :
    (c t u : String) (now : ℕ) (rows : List Row)
    → has_row c t (insert_row c now rows u) ≡ (has_row c t rows || str_eq u t)
unfolding insert_row is_row
has_row-insert_row c t u now rows =
    ground (arith, has_row-push c t rows (new_row c u now), eq_refl c, eq_iff u t)

pub has_row-insert_rows :
    (c t : String) (now : ℕ) (us : List String) (rows : List Row)
    → has_row c t (insert_rows c now us rows) ≡ (has_row c t rows || member t us)
unfolding insert_rows member
has_row-insert_rows c t now [] rows = ground arith
has_row-insert_rows c t now (u ∷ us) rows = ground (
  arith,
  has_row-insert_rows c t now us (insert_row c now rows u),
  has_row-insert_row c t u now rows,
)

pub has_row-fail_rows :
    (c t u error : String) (next : ℕ) (rows : List Row)
    → has_row c t (fail_rows c u error next rows) ≡ has_row c t rows
unfolding has_row fail_rows is_row
has_row-fail_rows c t u error next [] = refl
has_row-fail_rows c t u error next (r ∷ rows) =
    ground (arith, has_row-fail_rows c t u error next rows)

pub has_row-delete_rows :
    (c t u : String) (rows : List Row)
    → has_row c t (delete_rows c u rows) ≡ (has_row c t rows && not (str_eq u t))
unfolding has_row delete_rows is_row
has_row-delete_rows c t u [] = ground arith
has_row-delete_rows c t u (r ∷ rows) = ground (
  arith,
  has_row-delete_rows c t u rows,
  eq_iff r.txid u,
  eq_iff r.txid t,
  eq_iff u t,
  eq_iff r.contract_id c,
)

All-take {ℓ κ} : {A : Type ℓ} (P : A → Type κ) (n : ℕ) (xs : List A) → All P xs → All P (take n xs)
All-take P zero xs h = tt
All-take P (suc n) [] h = tt
All-take P (suc n) (x ∷ xs) h = (h.0, All-take P n xs h.1)

module _ (P : Row → Type 0) where
  All-insert_ordered :
      (r : Row) (rows : List Row) → P r → All P rows → All P (insert_ordered r rows)
  unfolding insert_ordered
  All-insert_ordered r [] h k = (h, tt)
  All-insert_ordered r (q ∷ rows) h k = elim (Bool-cases (is_before r q)) [
    | inl first ↦ rw (insert_ordered, first) (h, k)
    | inr later ↦ rw (insert_ordered, later) (k.0, All-insert_ordered r rows h k.1)
  ]

  pub All-due_rows :
      (c : String) (now : ℕ) (rows : List Row)
      → All (λ r. is_due c now r ≡ true → P r) rows
      → All P (due_rows c now rows)
  unfolding due_rows
  All-due_rows c now [] h = tt
  All-due_rows c now (r ∷ rows) h = elim (Bool-cases (is_due c now r)) [
    | inl ready ↦
        rw (due_rows, ready)
          (All-insert_ordered r (due_rows c now rows) (h.0 ready) (All-due_rows c now rows h.1))
    | inr waiting ↦ rw (due_rows, waiting) (All-due_rows c now rows h.1)
  ]

due-has_row_from :
    (c : String) (now : ℕ) (rows all : List Row)
    → ((t : String) → has_row c t rows ≡ true → has_row c t all ≡ true)
    → All (λ r. is_due c now r ≡ true → has_row c r.txid all ≡ true) rows
unfolding has_row is_row is_due
due-has_row_from c now [] all h = tt
due-has_row_from c now (r ∷ rows) all h = (
  λ ready. h r.txid (ground (arith, eq_refl r.txid)),
  due-has_row_from c now rows all (λ t k. h t (ground (arith, k))),
)

-- Every row that is due stands in the table.
pub due-has_row :
    (c : String) (now n : ℕ) (s : ReleaseStore)
    → All (λ r. has_row c r.txid s.rows ≡ true) (take n (due c now s))
unfolding due
due-has_row c now n s =
    let P : Row → Type 0 = λ r. has_row c r.txid s.rows ≡ true in
    All-take P n _ (
      All-take P 10 (due_rows c now s.rows)
        (All-due_rows P c now s.rows (due-has_row_from c now s.rows s.rows (λ t k. k))))
