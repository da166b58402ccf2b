-- ===== src/Cctp/Held.antt =====
-- What a job of one burn keeps of its record.
use Prim.Native.String.{String}
use writz.Prelude.{ℕ, ◌≡◌, Bool, true, false, Option, none, some, if◌then◌else◌, ◌⊎◌}
use writz.Prelude.OrderedMap.{get}
use writz.Cctp.Message.{Bytes, HexText}
use writz.Cctp.Store.{RelayRecord, truthy, is_settled}
use writz.Cctp.Job.{
  World, Job, return, and_then, ◌>>=◌, attempt, call, now, tick, RelayOptions, ReceiptOutcome,
  success, revert, pending,
}
use writz.Cctp.Service.{lookup_record}

-- A record with Circle's signature has what a mint needs.
abbrev pub IsReady : RelayRecord → Type 0
IsReady r =
    (truthy r.attestation ≡ false)
    ⊎ ((nonce : Bytes) × (message : HexText) × (r.nonce ≡ some nonce) × (r.message ≡ some message))

-- The record of the burn, which has a property.
abbrev pub Holds : String → RelayRecord → World → Type 0
Holds key r w = (get key w.records ≡ some r) × (r.burn_hash ≡ key) × IsReady r

abbrev pub Held : String → (RelayRecord → Type 0) → World → Type 0
Held key P w = (r : RelayRecord) × Holds key r w × P r

abbrev pub Anything : RelayRecord → Type 0
Anything r = Unit

abbrev pub Settled : RelayRecord → Type 0
Settled r = is_settled r ≡ true

-- What holds of a result: of a value and the state behind it, or that a thrown error leaves the
-- record of the burn.
abbrev pub Ok {ℓ} : {A : Type ℓ} → String → (A → World → Type 0) → Option A × World → Type 0
Ok key Q (none, w) = Held key Anything w
Ok key Q (some a, w) = Q a w

-- Run from a state with `P`, a job ends as `Ok` says.
pub record Ensures {ℓ} {A : Type ℓ} (key : String) (P : World → Type 0) (m : Job A)
    (Q : A → World → Type 0) : Type ℓ where
  pub runs : (w : World) → P w → Ok key Q (m w)

module _ {ℓ κ} {A : Type ℓ} {B : Type κ} (key : String) where
  pub and_then-Ok :
      (p : Option A × World) (k : A → Job B) (Q : A → World → Type 0) (R : B → World → Type 0)
      → Ok key Q p
      → ((a : A) → Ensures key (Q a) (k a) R)
      → Ok key R (and_then p k)
  and_then-Ok (none, w) k Q R h h' = h
  and_then-Ok (some a, w) k Q R h h' = (h' a).runs w h

  pub bind-Ensures :
      {P : World → Type 0} (m : Job A) (k : A → Job B) (Q : A → World → Type 0)
      (R : B → World → Type 0)
      → Ensures key P m Q
      → ((a : A) → Ensures key (Q a) (k a) R)
      → Ensures key P (m >>= k) R
  unfolding ◌>>=◌
  bind-Ensures m k Q R h h' = record { runs = λ w p. and_then-Ok (m w) k Q R (h.runs w p) h' }

module _ {ℓ} {A : Type ℓ} (key : String) where
  pub if-Ensures :
      {P : World → Type 0} {Q : A → World → Type 0} (b : Bool) (m n : Job A)
      → Ensures key P m Q
      → Ensures key P n Q
      → Ensures key P (if b then m else n) Q
  if-Ensures true m n h h' = h
  if-Ensures false m n h h' = h'

  pub return-Ensures :
      {P : World → Type 0} {Q : A → World → Type 0} (a : A)
      → ((w : World) → P w → Q a w)
      → Ensures key P (return a) Q
  return-Ensures a h = record { runs = h }

  pub weaken-Ensures :
      {P P' : World → Type 0} {Q : A → World → Type 0} (m : Job A)
      → ((w : World) → P' w → P w)
      → Ensures key P m Q
      → Ensures key P' m Q
  weaken-Ensures m h h' = record { runs = λ w p. h'.runs w (h w p) }

  pub option-Ensures {κ} :
      {B : Type κ} {P : World → Type 0} {Q : A → World → Type 0} (o : Option B) (n : Job A)
      (f : B → Job A)
      → Ensures key P n Q
      → ((b : B) → Ensures key P (f b) Q)
      → Ensures key P (elim o as (λ _. Job A) [ none ↦ n | some b ↦ f b ]) Q
  option-Ensures none n f h h' = h
  option-Ensures (some b) n f h h' = h' b

  pub receipt-Ensures :
      {P : World → Type 0} {Q : A → World → Type 0} (o : ReceiptOutcome) (a b c : Job A)
      → Ensures key P a Q
      → Ensures key P b Q
      → Ensures key P c Q
      → Ensures key P (elim o as (λ _. Job A) [ success ↦ a | revert ↦ b | pending ↦ c ]) Q
  receipt-Ensures success a b c h h' h'' = h
  receipt-Ensures revert a b c h h' h'' = h'
  receipt-Ensures pending a b c h h' h'' = h''

-- A call changes no record.
module _ (opts : RelayOptions) (key : String) (P : RelayRecord → Type 0) where
  Held-Anything : (w : World) → Held key P w → Held key Anything w
  Held-Anything w (r, h, p) = (r, h, tt)

  pub call-Ensures {ℓ} :
      {A : Type ℓ} (f : ℕ → Option A) → Ensures key (Held key P) (call opts f) (λ _. Held key P)
  unfolding call tick
  call-Ensures f = record {
    runs = λ w (r, (present, same, ready), p).
        elim (f w.calls) as (λ o. Ok key (λ _. Held key P) (o, tick opts w)) [
          | none ↦ (r, (present, same, ready), tt)
          | some a ↦ (r, (present, same, ready), p)
        ];
  }

  pub attempt-call-Ensures {ℓ} :
      {A : Type ℓ} (f : ℕ → Option A)
      → Ensures key (Held key P) (attempt (call opts f)) (λ _. Held key P)
  unfolding call tick
  attempt-call-Ensures f = record { runs = λ w h. h }

  pub now-Ensures : Ensures key (Held key P) (now opts) (λ _. Held key P)
  unfolding now tick
  now-Ensures = record { runs = λ w h. h }

  pub lookup-Ensures : Ensures key (Held key P) (lookup_record key) (λ _. Held key P)
  unfolding lookup_record
  lookup-Ensures = record { runs = λ w h. h }

  pub lookup_record-Ensures :
      Ensures key
        (Held key P)
        (lookup_record key)
        (λ current w. (r : RelayRecord) × (current ≡ some r) × Holds key r w × P r)
  unfolding lookup_record
  lookup_record-Ensures = record {
    runs = λ w (r, (present, same, ready), p). (r, present, (present, same, ready), p);
  }
