-- ===== src/Relayer/ProofCache/Freshness.antt =====
-- How long the proof cache answers with a value.
use Prim.Native.String.{String}
use text.Mathlib.TextPositions.{eq_refl}
use writz.Prelude.{
  ℕ, suc, ◌+◌, ◌-◌, ◌<◌, ◌≡◌, refl, List, [], ◌∷◌, ◌++◌, none, some, ltb, if◌then◌else◌, length,
  arith, Bool-cases, inl, inr, drop,
}
use writz.Prelude.OrderedMap.{get, set, delete, get-delete}
use writz.Relayer.ProofCache.{Entry, TtlCache, evict}
use writz.Relayer.ProofCache

module _ {ℓ} {V : Type ℓ} where
  -- A key that is not there goes to the end.
  set_new :
      (key : String) (v : V) (m : List (String × V))
      → get key m ≡ none
      → set key v m ≡ m ++ ((key, v) ∷ [])
  unfolding set get
  set_new key v [] h = refl
  set_new key v ((k, w) ∷ m) h = ground (arith, set_new key v m)

  pub set-delete :
      (key : String) (v : V) (m : List (String × V))
      → set key v (delete key m) ≡ delete key m ++ ((key, v) ∷ [])
  set-delete key v m = set_new key v (delete key m) (simp (get-delete, eq_refl))

  get-append_new :
      (key : String) (v : V) (m : List (String × V))
      → get key m ≡ none
      → get key (m ++ ((key, v) ∷ [])) ≡ some v
  unfolding get
  get-append_new key v [] h = simp eq_refl
  get-append_new key v ((k, w) ∷ m) h = ground (arith, get-append_new key v m)

  -- What is gone stays gone when more of the front goes.
  get-delete_tail :
      (key : String) (p : String × V) (m : List (String × V))
      → get key (p ∷ m) ≡ none
      → get key m ≡ none
  unfolding get
  get-delete_tail key (k, w) m h = ground arith

module _ {ℓ} {V : Type ℓ} where
  -- Eviction drops the front.
  pub evict-eq-drop : (n : ℕ) (m : List (String × Entry V)) → evict n m ≡ drop (length m - n) m
  unfolding evict
  evict-eq-drop n [] = ground arith
  evict-eq-drop n (e ∷ m) = elim (Bool-cases (ltb n (length (e ∷ m)))) [
    | inl more ↦
        let d : length (e ∷ m) - n ≡ suc (length m - n) = ground arith in
        rw (more, d) (evict-eq-drop n m)
    | inr fits ↦ let d : length (e ∷ m) - n ≡ 0 = ground arith in rw (fits, d) refl
  ]

  get-evict_last :
      (key : String) (e : Entry V) (n : ℕ) (m : List (String × Entry V))
      → get key m ≡ none
      → 0 < n
      → get key (evict n (m ++ ((key, e) ∷ []))) ≡ some e
  unfolding evict get
  get-evict_last key e n [] h pos = ground (arith, eq_refl key)
  get-evict_last key e n (p ∷ m) h pos =
      elim (Bool-cases (ltb n (length ((p ∷ m) ++ ((key, e) ∷ []))))) [
        | inl more ↦ rw more (get-evict_last key e n m (get-delete_tail key p m h) pos)
        | inr fits ↦ rw fits (get-append_new key e (p ∷ m) h)
      ]

  entries-set :
      (key : String) (value : V) (ttl t : ℕ) (c : TtlCache V)
      → 0 < ttl
      → 0 < c.max_entries
      → (ProofCache.set key value ttl t c).entries
        ≡ evict c.max_entries
            (delete key c.entries ++ ((key, record { value = value; expires_at = t + ttl }) ∷ []))
  unfolding ProofCache.set
  entries-set key value ttl t c alive room =
      let e = set-delete key (record { value = value; expires_at = t + ttl }) c.entries in
      ground (arith, e)

  -- A value that is set for `ttl` is answered with exactly until `ttl` is over, however full the
  -- cache is, if the ttl and the limit on the entries are not 0.
  get-set_fresh :
      (key : String) (value : V) (ttl t t' : ℕ) (c : TtlCache V)
      → 0 < ttl
      → 0 < c.max_entries
      → (ProofCache.get key t' (ProofCache.set key value ttl t c)).0
        ≡ (if ltb t' (t + ttl) then some value else none)
  unfolding ProofCache.get
  get-set_fresh key value ttl t t' c alive room =
      let e : Entry V = record { value = value; expires_at = t + ttl } in
      let absent : get key (delete key c.entries) ≡ none = simp (get-delete, eq_refl) in
      let found = get-evict_last key e c.max_entries (delete key c.entries) absent room in
      rw (entries-set key value ttl t c alive room, ProofCache.get, found) (ground arith)
