-- ===== src/Relayer/RateLimit/Admission.antt =====
-- What the limiter lets through.
use Prim.Native.String.{String}
use text.Mathlib.Text.{◌==◌ as str_eq}
use text.Mathlib.TextEquality.{eq_iff}
use text.Mathlib.TextPositions.{eq_refl}
use writz.Prelude.{
  ℕ, ◌+◌, ◌-◌, ◌*◌, ◌≤◌, ◌<◌, ◌≡◌, refl, sym, ◌∙◌, subst, max, false, List, [], ◌∷◌, none, some,
  ltb, if◌then◌else◌, length, arith, ltb→lt, Bool-cases, Option-cases, ◌⊎◌, inl, inr, All,
}
use writz.Prelude.OrderedMap.{
  get, set, get-set, get-keep, IsMap, get-keep-none, get-keep_fail, keep-IsMap,
}
use writz.Relayer.RateLimit.{
  Window, Options, Windows, next, too_many_requests, is_live, sweep, admit, handler, opened,
  retry_after_seconds, admitted, is_next,
}

-- A live window outlasts the sweep.
get-sweep :
    (key : String) (w : Window) (t : ℕ) (windows : Windows)
    → get key windows ≡ some w
    → t < w.reset_at
    → get key (sweep t windows) ≡ some w
unfolding sweep
get-sweep key w t windows h live = ground (arith, get-keep (is_live t) key w windows h)

-- What a request of any key does to a live window: one request more if it is let through, which
-- only happens below the limit.
abbrev pub bumped : Window → ℕ → Window
bumped w n = record { count = w.count + n; reset_at = w.reset_at }

abbrev pub fresh : Options → ℕ → Window
fresh o t = record { count = 1; reset_at = t + o.window_ms }

-- The key has no window, or one that has run out.
abbrev pub NoWindow : String → ℕ → Windows → Type 0
NoWindow key t windows =
    (get key windows ≡ none) ⊎ ((w : Window) × (get key windows ≡ some w) × (w.reset_at ≤ t))

admit_same :
    (o : Options) (key : String) (w : Window) (t : ℕ) (windows : Windows)
    → get key windows ≡ some w
    → t < w.reset_at
    → (get key (admit o key t windows).0
        ≡ some (bumped w (if is_next (admit o key t windows).1 then 1 else 0)))
      × (is_next (admit o key t windows).1 ≡ ltb w.count o.limit)
unfolding admit
admit_same o key w t windows h live =
    let found = get-set key key (bumped w 1) windows in ground (arith, found, eq_refl key)

admit_other :
    (o : Options) (key k : String) (t : ℕ) (windows : Windows)
    → str_eq k key ≡ false
    → get key (admit o k t windows).0 ≡ get key windows
unfolding admit
admit_other o key k t windows ne = elim (Option-cases (get k windows)) [
  | inl absent ↦ ground (arith, get-set k key (fresh o t) windows)
  | inr (w, present) ↦
      ground (arith, get-set k key (fresh o t) windows, get-set k key (bumped w 1) windows)
]

-- What a request of any key does to a live window.
handler_live :
    (o : Options) (key k : String) (w : Window) (t : ℕ) (windows : Windows)
    → get key windows ≡ some w
    → t < w.reset_at
    → (if str_eq k key
        then (get key (handler o k t windows).0
            ≡ some (bumped w (if is_next (handler o k t windows).1 then 1 else 0)))
          × (is_next (handler o k t windows).1 ≡ ltb w.count o.limit)
        else (get key (handler o k t windows).0 ≡ some w))
unfolding handler
handler_live o key k w t windows h live = elim (Bool-cases (str_eq k key)) [
  | inl same ↦
      let e : k ≡ key = (eq_iff k key).0 same in
      rw same (
        subst
          (λ j.
            (get key (admit o j t (sweep t windows)).0
              ≡ some (bumped w (if is_next (admit o j t (sweep t windows)).1 then 1 else 0)))
            × (is_next (admit o j t (sweep t windows)).1 ≡ ltb w.count o.limit))
          (sym e) (admit_same o key w t (sweep t windows) (get-sweep key w t windows h live) live))
  | inr other ↦
      rw other (admit_other o key k t (sweep t windows) other ∙ get-sweep key w t windows h live)
]

-- No more get through a live window than its count leaves.
admitted-le :
    (o : Options) (key : String) (w : Window) (requests : List (String × ℕ)) (windows : Windows)
    → get key windows ≡ some w
    → All (λ (r : String × ℕ). r.1 < w.reset_at) requests
    → (admitted o key requests windows).0 ≤ o.limit - w.count
unfolding admitted
admitted-le o key w [] windows h times = omega arith
admitted-le o key w ((k, t) ∷ requests) windows h (live, later) = elim (Bool-cases (str_eq k key)) [
  | inr other ↦
      let kept : get key (handler o k t windows).0 ≡ some w =
        rw other at (handler_live o key k w t windows h live) in
      rw other (admitted-le o key w requests _ kept later)
  | inl same ↦
      let (found, passed) : (get key (handler o k t windows).0
            ≡ some (bumped w (if is_next (handler o k t windows).1 then 1 else 0)))
          × (is_next (handler o k t windows).1 ≡ ltb w.count o.limit) =
        rw same at (handler_live o key k w t windows h live) in
      elim (Bool-cases (is_next (handler o k t windows).1)) [
        | inl through ↦
            let bump : get key (handler o k t windows).0 ≡ some (bumped w 1) =
              rw through at found in
            let below : w.count < o.limit = ltb→lt w.count o.limit (sym passed ∙ through) in
            rw (same, through) (omega (arith, admitted-le o key (bumped w 1) requests _ bump later))
        | inr refused ↦
            let bump : get key (handler o k t windows).0 ≡ some (bumped w 0) =
              rw refused at found in
            rw (same, refused) (omega (arith, admitted-le o key (bumped w 0) requests _ bump later))
      ]
]

sweep_idle :
    (key : String) (t : ℕ) (windows : Windows)
    → IsMap windows
    → NoWindow key t windows
    → NoWindow key t (sweep t windows)
unfolding sweep
sweep_idle key t windows p (inl absent) =
    inl (ground (arith, get-keep-none (is_live t) key windows absent))
sweep_idle key t windows p (inr (w, present, over)) =
    elim (Bool-cases (ltb 10000 (length windows))) [
      | inl large ↦
          rw large (inl (get-keep_fail (is_live t) key w windows p present (ground arith)))
      | inr small ↦ rw small (inr (w, present, over))
    ]

admit_idle :
    (o : Options) (key : String) (t : ℕ) (windows : Windows)
    → NoWindow key t windows
    → admit o key t windows ≡ opened o key t windows
unfolding admit
admit_idle o key t windows idle = ground arith

-- In the window that a request of a key opens, the key gets at most `limit` requests through, that
-- one included (or the one alone, if the limit is 0), whatever the requests of other keys are.
pub handler-admitted :
    (o : Options) (key : String) (t : ℕ) (requests : List (String × ℕ)) (windows : Windows)
    → IsMap windows
    → NoWindow key t windows
    → All (λ (r : String × ℕ). r.1 < t + o.window_ms) requests
    → ((handler o key t windows).1 ≡ next)
      × (1 + (admitted o key requests (handler o key t windows).0).0 ≤ max o.limit 1)
unfolding handler
handler-admitted o key t requests windows p idle times =
    let e = admit_idle o key t (sweep t windows) (sweep_idle key t windows p idle) in
    let found : get key (set key (fresh o t) (sweep t windows)) ≡ some (fresh o t) =
      simp (get-set, eq_refl) in
    rw e (
      refl,
      omega (
        arith,
        admitted-le o key (fresh o t) requests (set key (fresh o t) (sweep t windows)) found times,
      ),
    )

admit_refused :
    (o : Options) (key : String) (t s : ℕ) (windows : Windows)
    → (admit o key t windows).1 ≡ too_many_requests s
    → (w : Window) × (get key windows ≡ some w)
      × ((admit o key t windows).0 ≡ windows)
      × (w.reset_at ≤ t + s * 1000)
unfolding admit retry_after_seconds
admit_refused o key t s windows refused = elim (Option-cases (get key windows)) [
  | inl absent ↦ absurd (ground arith)
  | inr (w, present) ↦ (w, present, ground arith, ground arith)
]

sweep-IsMap : (t : ℕ) (windows : Windows) → IsMap windows → IsMap (sweep t windows)
unfolding sweep
sweep-IsMap t windows p = ground (arith, keep-IsMap (is_live t) windows p)

-- A refused key that waits for the Retry-After of its refusal is let through, if no other request
-- comes between.
handler_retry_after :
    (o : Options) (key : String) (t t' s : ℕ) (windows : Windows)
    → IsMap windows
    → (handler o key t windows).1 ≡ too_many_requests s
    → t + s * 1000 ≤ t'
    → (handler o key t' (handler o key t windows).0).1 ≡ next
unfolding handler
handler_retry_after o key t t' s windows p refused waited =
    let (w, present, same, over) = admit_refused o key t s (sweep t windows) refused in
    let idle : NoWindow key t' (sweep t windows) = inr (w, present, omega arith) in
    let e =
      admit_idle o key t' (sweep t' (sweep t windows))
        (sweep_idle key t' (sweep t windows) (sweep-IsMap t windows p) idle) in
    rw (same, e)
