-- ===== src/Lend/Growth.antt =====
-- The archive's rows only grow, whatever the RPC answers, and its cursor is a valid one.
use Prim.Native.String.{String}
use writz.Prelude.{
  ℕ, zero, suc, ◌≡◌, refl, sym, ap, ◌∙◌, subst, true, List, [], ◌∷◌, ◌++◌, append_assoc, append-nil,
  Option, none, some, ◌>>=◌, length, length-append, arith, Bool-cases, Option-cases, some_injective,
  inl, inr,
}
use writz.Repay.Store.{is_valid_cursor}
use writz.Lend.Archive.{
  LendEventRow, LendEventStore, RawLendEvent, has_id, insert_event, insert_events, commit,
  events_of, insert_by_id, sort_by_id, list_events,
}
use writz.Lend.Poller.{
  Response, LendEventsCycleDeps, CycleEnd, Reader, decode_events, request_of, store_page, read_page,
  after_page, max_pages_per_poll, read_pages, run_lend_events_cycle,
}

abbrev pub HasValid : Option String → Type 0
HasValid none = Unit
HasValid (some cursor) = is_valid_cursor cursor ≡ true

-- A later store: it has more rows, if any, and a valid cursor where it had one or none.
pub record Follows (s s' : LendEventStore) : Type 0 where
  pub extra : List LendEventRow
  pub rows_eq : s'.rows ≡ s.rows ++ extra
  pub keeps_valid : HasValid s.cursor → HasValid s'.cursor

pub Follows-refl : (s : LendEventStore) → Follows s s
Follows-refl s = record { extra = []; rows_eq = sym (append-nil s.rows); keeps_valid = λ h. h }

pub Follows-trans : (a b c : LendEventStore) → Follows a b → Follows b c → Follows a c
Follows-trans a b c f g = record {
  extra = f.extra ++ g.extra;
  rows_eq =
      g.rows_eq ∙ ap (λ rows. rows ++ g.extra) f.rows_eq ∙ append_assoc a.rows f.extra g.extra;
  keeps_valid = λ h. g.keeps_valid (f.keeps_valid h);
}

insert_events-append :
    (news rows : List LendEventRow)
    → (extra : List LendEventRow) × (insert_events news rows ≡ rows ++ extra)
unfolding insert_events insert_event
insert_events-append [] rows = ([], sym (append-nil rows))
insert_events-append (r ∷ news) rows = elim (Bool-cases (has_id r.id rows)) [
  | inl known ↦ rw (insert_event, known) (insert_events-append news rows)
  | inr new ↦
      let (extra, e) = insert_events-append news (rows ++ r ∷ []) in
      rw (insert_event, new) (r ∷ extra, e ∙ append_assoc rows (r ∷ []) extra)
]

pub commit-Follows :
    (news : List LendEventRow) (cursor : String) (s s' : LendEventStore)
    → commit news cursor s ≡ some s'
    → Follows s s'
unfolding commit
commit-Follows news cursor s s' h = elim (Bool-cases (is_valid_cursor cursor)) [
  | inl valid ↦
      let (extra, e) = insert_events-append news s.rows in
      let new_store : LendEventStore = record {
        cursor = some cursor;
        rows = insert_events news s.rows;
      } in
      let e' : commit news cursor s ≡ some new_store = rw (commit, valid) refl in
      let stored : new_store ≡ s' = some_injective (sym e' ∙ h) in
      subst (Follows s) stored (record { extra = extra; rows_eq = e; keeps_valid = λ k. valid })
  | inr bad ↦ ground arith
]

pub >>=-some {ℓ κ} :
    {A : Type ℓ} {B : Type κ} (o : Option A) (k : A → Option B) (b : B)
    → (o >>= k) ≡ some b
    → (a : A) × (o ≡ some a) × (k a ≡ some b)
>>=-some none k b h = absurd (ground arith)
>>=-some (some a) k b h = (a, refl, h)

module _ (deps : LendEventsCycleDeps) where
  read_page-Follows :
      (r : Reader) (p : Response × Reader) → read_page deps r ≡ some p → Follows r.store p.1.store
  unfolding read_page store_page
  read_page-Follows r p h =
      let (request, asked, h1) = >>=-some (request_of deps r.store.cursor) _ p h in
      let (response, answered, h2) = >>=-some (deps.get_events r.calls request) _ p h1 in
      let (store, stored, h3) = >>=-some (store_page deps response r.store) _ p h2 in
      let (rows, decoded, h4) =
        >>=-some (decode_events deps.contract_id response.events) _ store stored in
      subst (λ (q : Response × Reader). Follows r.store q.1.store) (some_injective h3)
        (commit-Follows rows response.cursor r.store store h4)

  after_page-Follows :
      (s : LendEventStore) (events : List RawLendEvent) (r : Reader) (rest : CycleEnd × Reader)
      → Follows s r.store
      → Follows s rest.1.store
      → Follows s (after_page deps events r rest).1.store
  unfolding after_page
  after_page-Follows s [] r rest h k = h
  after_page-Follows s (event ∷ events) r rest h k = k

  read_pages-Follows : (n : ℕ) (r : Reader) → Follows r.store (read_pages deps n r).1.store
  unfolding read_pages
  read_pages-Follows zero r = Follows-refl r.store
  read_pages-Follows (suc n) r = elim (Option-cases (read_page deps r)) [
    | inl e ↦ rw (read_pages, e) (Follows-refl r.store)
    | inr (p, e) ↦
        let first = read_page-Follows r p e in
        rw (read_pages, e)
          (after_page-Follows r.store p.0.events p.1 (read_pages deps n p.1) first
            (Follows-trans r.store p.1.store _ first (read_pages-Follows n p.1)))
  ]

  pub cycle-Follows : (r : Reader) → Follows r.store (run_lend_events_cycle deps r).1.store
  unfolding run_lend_events_cycle
  cycle-Follows r = read_pages-Follows max_pages_per_poll r

events_of-append :
    (c : String) (xs ys : List LendEventRow)
    → events_of c (xs ++ ys) ≡ events_of c xs ++ events_of c ys
unfolding events_of
events_of-append c [] ys = refl
events_of-append c (x ∷ xs) ys = ground (arith, events_of-append c xs ys)

length-insert_by_id :
    (r : LendEventRow) (rows : List LendEventRow) → length (insert_by_id r rows) ≡ suc (length rows)
unfolding insert_by_id
length-insert_by_id r [] = refl
length-insert_by_id r (q ∷ rows) = ground (arith, length-insert_by_id r rows)

length-sort_by_id : (rows : List LendEventRow) → length (sort_by_id rows) ≡ length rows
unfolding sort_by_id
length-sort_by_id [] = refl
length-sort_by_id (r ∷ rows) =
    length-insert_by_id r (sort_by_id rows) ∙ ap suc (length-sort_by_id rows)

nil_of_length {ℓ} : {A : Type ℓ} (xs : List A) → length xs ≡ 0 → xs ≡ []
nil_of_length [] h = refl
nil_of_length (x ∷ xs) h = absurd (omega (arith, h))

-- A later store that lists as many events lists the same.
pub list_events-Follows :
    (c : String) (s s' : LendEventStore)
    → Follows s s'
    → length (list_events c s') ≡ length (list_events c s)
    → list_events c s' ≡ list_events c s
unfolding list_events
list_events-Follows c s s' f h =
    let split : events_of c s'.rows ≡ events_of c s.rows ++ events_of c f.extra =
      ap (events_of c) f.rows_eq ∙ events_of-append c s.rows f.extra in
    let none_new : events_of c f.extra ≡ [] = nil_of_length (events_of c f.extra) (
      omega (
        arith,
        h,
        length-sort_by_id (events_of c s'.rows),
        length-sort_by_id (events_of c s.rows),
        ap (λ (rows : List LendEventRow). length rows) split,
        length-append (events_of c s.rows) (events_of c f.extra),
      )) in
    ap sort_by_id
      (split ∙ ap (λ rows. events_of c s.rows ++ rows) none_new ∙ append-nil (events_of c s.rows))
