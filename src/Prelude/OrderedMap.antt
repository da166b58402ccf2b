-- ===== src/Prelude/OrderedMap.antt =====
-- A JavaScript `Map` with text keys: the entries in insertion order. Setting a key that is there
-- keeps its place; deleting it and setting it again moves it to the end.
use Prim.Native.Nat.{suc, ◌≤◌}
use Prim.Native.String.{String}
use text.Mathlib.Text.{◌==◌}
use text.Mathlib.TextEquality.{eq_iff}
use mathlib.Core.Path.{◌≡◌, refl}
use mathlib.Core.Bool.{Bool, true, false}
use mathlib.Core.Option.{Option, none, some}
use mathlib.Core.List.{List, [], ◌∷◌}
use native.Mathlib.Omega.{arith}
use writz.Prelude.Tests.{if◌then◌else◌}
use writz.Prelude.Lists.{length}

module _ {ℓ} {V : Type ℓ} where
  unfoldable pub get : String → List (String × V) → Option V
  get key [] = none
  get key ((k, v) ∷ m) = if k == key then some v else get key m

  unfoldable pub delete : String → List (String × V) → List (String × V)
  delete key [] = []
  delete key ((k, v) ∷ m) = if k == key then delete key m else (k, v) ∷ delete key m

  unfoldable pub set : String → V → List (String × V) → List (String × V)
  set key v [] = (key, v) ∷ []
  set key v ((k, w) ∷ m) = if k == key then (key, v) ∷ m else (k, w) ∷ set key v m

  -- The entries that pass a test.
  unfoldable pub keep : (V → Bool) → List (String × V) → List (String × V)
  keep test [] = []
  keep test ((k, v) ∷ m) = if test v then (k, v) ∷ keep test m else keep test m

  pub get-set :
      (key j : String) (v : V) (m : List (String × V))
      → get j (set key v m) ≡ (if key == j then some v else get j m)
  unfolding get set
  get-set key j v [] = refl
  get-set key j v ((k, w) ∷ m) =
      ground (arith, eq_iff key j, eq_iff k key, eq_iff k j, get-set key j v m)

  pub get-delete :
      (key j : String) (m : List (String × V))
      → get j (delete key m) ≡ (if key == j then none else get j m)
  unfolding get delete
  get-delete key j [] = ground arith
  get-delete key j ((k, w) ∷ m) =
      ground (arith, eq_iff key j, eq_iff k key, eq_iff k j, get-delete key j m)

  pub length-delete-le : (key : String) (m : List (String × V)) → length (delete key m) ≤ length m
  unfolding delete
  length-delete-le key [] = omega arith
  length-delete-le key ((k, w) ∷ m) = ground (arith, length-delete-le key m)

  pub length-set-le :
      (key : String) (v : V) (m : List (String × V)) → length (set key v m) ≤ suc (length m)
  unfolding set
  length-set-le key v [] = omega arith
  length-set-le key v ((k, w) ∷ m) = ground (arith, length-set-le key v m)

  -- No key stands twice.
  abbrev pub IsMap : List (String × V) → Type ℓ
  IsMap [] = Unit
  IsMap ((k, v) ∷ m) = (get k m ≡ none) × IsMap m

  pub delete-IsMap : (key : String) (m : List (String × V)) → IsMap m → IsMap (delete key m)
  unfolding delete
  delete-IsMap key [] h = tt
  delete-IsMap key ((k, v) ∷ m) (new, h) = ground (arith, delete-IsMap key m h, get-delete key k m)

  pub set-IsMap : (key : String) (v : V) (m : List (String × V)) → IsMap m → IsMap (set key v m)
  unfolding set get
  set-IsMap key v [] h = (refl, tt)
  set-IsMap key v ((k, w) ∷ m) (new, h) =
      ground (arith, set-IsMap key v m h, get-set key k v m, eq_iff k key, eq_iff key k)

  pub get-keep-none :
      (test : V → Bool) (key : String) (m : List (String × V))
      → get key m ≡ none
      → get key (keep test m) ≡ none
  unfolding get keep
  get-keep-none test key [] h = refl
  get-keep-none test key ((k, w) ∷ m) h = ground (arith, get-keep-none test key m)

  -- An entry that passes is found as before.
  pub get-keep :
      (test : V → Bool) (key : String) (v : V) (m : List (String × V))
      → get key m ≡ some v
      → test v ≡ true
      → get key (keep test m) ≡ some v
  unfolding get keep
  get-keep test key v [] h t = h
  get-keep test key v ((k, w) ∷ m) h t = ground (arith, get-keep test key v m)

  pub keep-IsMap : (test : V → Bool) (m : List (String × V)) → IsMap m → IsMap (keep test m)
  unfolding keep
  keep-IsMap test [] h = tt
  keep-IsMap test ((k, w) ∷ m) (new, h) =
      ground (arith, keep-IsMap test m h, get-keep-none test k m)

  -- One that fails is gone.
  pub get-keep_fail :
      (test : V → Bool) (key : String) (v : V) (m : List (String × V))
      → IsMap m
      → get key m ≡ some v
      → test v ≡ false
      → get key (keep test m) ≡ none
  unfolding get keep
  get-keep_fail test key v [] p h t = refl
  get-keep_fail test key v ((k, w) ∷ m) (new, p) h t =
      ground (arith, get-keep_fail test key v m p, get-keep-none test key m, eq_iff k key)
