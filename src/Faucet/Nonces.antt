-- ===== src/Faucet/Nonces.antt =====
-- The challenges of the faucet are good once each.
use Prim.Native.String.{String}
use text.Mathlib.Text.{◌==◌ as str_eq}
use text.Mathlib.TextEquality.{eq_iff}
use writz.Prelude.{
  ℕ, ◌+◌, ◌≤◌, ◌<◌, ◌≡◌, refl, Bool, false, List, [], ◌∷◌, none, some, ltb, if◌then◌else◌, length,
  arith,
}
use writz.Prelude.OrderedMap.{
  get, keep, get-set, get-delete, get-keep-none, length-set-le, length-delete-le,
}
use writz.Faucet.Nonce.{Issued, max_outstanding, nonce_ttl_ms, prune, drop_oldest, issue, consume}

-- What happens to the challenges: one is issued, or one is presented, at times that the clock tells.
pub data NonceEvent : Type 0 where
  issued : ℕ → ℕ → String → NonceEvent
  presented : ℕ → String → NonceEvent

pub next_book : NonceEvent → Issued → Issued
next_book (issued t t' nonce) book = issue t t' nonce book
next_book (presented t nonce) book = (consume t nonce book).1

pub book_after : List NonceEvent → Issued → Issued
book_after [] book = book
book_after (event ∷ events) book = book_after events (next_book event book)

is_issue : String → NonceEvent → Bool
is_issue n (issued t t' nonce) = str_eq nonce n
is_issue n (presented t nonce) = false

is_accepted : String → NonceEvent → Issued → Bool
is_accepted n (issued t t' nonce) book = false
is_accepted n (presented t nonce) book = if str_eq nonce n then (consume t nonce book).0 else false

-- How often a challenge is issued, and how often it is accepted.
pub times_issued : String → List NonceEvent → ℕ
times_issued n [] = 0
times_issued n (event ∷ events) = (if is_issue n event then 1 else 0) + times_issued n events

pub times_accepted : String → List NonceEvent → Issued → ℕ
times_accepted n [] book = 0
times_accepted n (event ∷ events) book =
    (if is_accepted n event book then 1 else 0) + times_accepted n events (next_book event book)

outstanding : String → Issued → ℕ
outstanding n book = elim (get n book) [ none ↦ 0 | some t ↦ 1 ]

get-drop_oldest-none :
    (n : String) (book : Issued) → get n book ≡ none → get n (drop_oldest book) ≡ none
unfolding get drop_oldest
get-drop_oldest-none n [] h = refl
get-drop_oldest-none n ((k, t) ∷ book) h = ground (arith, get-drop_oldest-none n book)

length-drop_oldest : (book : Issued) → length (drop_oldest book) < max_outstanding
unfolding drop_oldest
length-drop_oldest [] = omega arith
length-drop_oldest (e ∷ book) = ground (arith, length-drop_oldest book)

outstanding-next_book :
    (n : String) (event : NonceEvent) (book : Issued)
    → (if is_accepted n event book then 1 else 0) + outstanding n (next_book event book)
      ≤ (if is_issue n event then 1 else 0) + outstanding n book
unfolding outstanding next_book is_accepted is_issue issue consume prune
outstanding-next_book n (issued t t' nonce) book =
    let pruned = keep (λ exp. ltb t exp) book in
    ground (
      arith,
      get-set nonce n (t' + nonce_ttl_ms) (drop_oldest pruned),
      get-drop_oldest-none n pruned,
      get-keep-none (λ exp. ltb t exp) n book,
    )
outstanding-next_book n (presented t nonce) book =
    ground (arith, eq_iff nonce n, get-delete nonce n book)

accepted-le :
    (n : String) (events : List NonceEvent) (book : Issued)
    → times_accepted n events book ≤ times_issued n events + outstanding n book
unfolding times_accepted times_issued
accepted-le n [] book = omega arith
accepted-le n (event ∷ events) book =
    omega (arith, accepted-le n events (next_book event book), outstanding-next_book n event book)

bounded-next_book :
    (event : NonceEvent) (book : Issued)
    → length book ≤ max_outstanding
    → length (next_book event book) ≤ max_outstanding
unfolding next_book issue consume
bounded-next_book (issued t t' nonce) book h = omega (
  arith,
  length-set-le nonce (t' + nonce_ttl_ms) (drop_oldest (prune t book)),
  length-drop_oldest (prune t book),
)
bounded-next_book (presented t nonce) book h = ground (arith, length-delete-le nonce book)

bounded :
    (events : List NonceEvent) (book : Issued)
    → length book ≤ max_outstanding
    → length (book_after events book) ≤ max_outstanding
unfolding book_after
bounded [] book h = h
bounded (event ∷ events) book h =
    bounded events (next_book event book) (bounded-next_book event book h)

-- Over any sequence of challenges issued and presented, from an empty book on, a challenge is
-- accepted at most as often as it was issued, so once if it was drawn once, and no more than 10000
-- stand in the book.
pub times_accepted-le :
    (n : String) (events : List NonceEvent)
    → (times_accepted n events ([]) ≤ times_issued n events)
      × (length (book_after events ([])) ≤ max_outstanding)
unfolding outstanding get
times_accepted-le n events =
    (omega (arith, accepted-le n events ([])), bounded events ([]) (omega arith))
