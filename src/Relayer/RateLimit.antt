-- ===== src/Relayer/RateLimit.antt =====
-- relayer/src/rate-limit.ts: a fixed-window limiter. Times are milliseconds as natural numbers; the
-- 429 response is its Retry-After in seconds.
pub mod Admission
mod Tests
use Prim.Native.String.{String}
use Prim.Native.String
use text.Mathlib.Text.{◌==◌ as str_eq}
use writz.Prelude.{
  ℕ, ◌+◌, ◌-◌, ◌/◌, max, Bool, true, false, not, ◌&&◌, List, [], ◌∷◌, Option, none, some, ltb, leb,
  if◌then◌else◌, length,
}
use writz.Prelude.OrderedMap

pub record Window : Type 0 where
  pub count : ℕ
  pub reset_at : ℕ

pub record Options : Type 0 where
  pub limit : ℕ
  pub window_ms : ℕ

abbrev pub Windows : Type 0
Windows = List (String × Window)

-- `req.ip || req.socket?.remoteAddress || "unknown"`, an empty text counting as absent.
pub client_key : Option String → Option String → String
client_key (some (String.◌∷◌ c s)) address = String.◌∷◌ c s
client_key _ (some (String.◌∷◌ c s)) = String.◌∷◌ c s
client_key _ _ = "unknown"

-- `next()`, or a 429 with its Retry-After.
pub data Reply : Type 0 where
  next : Reply
  too_many_requests : ℕ → Reply

abbrev pub is_live : ℕ → Window → Bool
is_live t w = not (leb w.reset_at t)

-- Above 10,000 windows the expired ones are dropped.
pub sweep : ℕ → Windows → Windows
sweep t windows =
    if ltb 10000 (length windows) then OrderedMap.keep (is_live t) windows else windows

abbrev pub opened : Options → String → ℕ → Windows → Windows × Reply
opened o key t windows =
    (OrderedMap.set key (record { count = 1; reset_at = t + o.window_ms }) windows, next)

-- `Math.ceil((resetAt - t) / 1000)`, at least 1.
pub retry_after_seconds : ℕ → ℕ → ℕ
retry_after_seconds reset_at t = max 1 ((reset_at - t + 999) / 1000)

-- The limiter behind the sweep.
pub admit : Options → String → ℕ → Windows → Windows × Reply
admit o key t windows = elim (OrderedMap.get key windows) [
  | none ↦ opened o key t windows
  | some w ↦
      if leb w.reset_at t
      then opened o key t windows
      else if leb o.limit w.count
      then (windows, too_many_requests (retry_after_seconds w.reset_at t))
      else (OrderedMap.set key (record w { count = w.count + 1 }) windows, next)
]

pub handler : Options → String → ℕ → Windows → Windows × Reply
handler o key t windows = admit o key t (sweep t windows)

abbrev pub is_next : Reply → Bool
is_next next = true
is_next (too_many_requests s) = false

-- The requests of one key that a sequence of requests gets through, and the windows behind it.
pub admitted : Options → String → List (String × ℕ) → Windows → ℕ × Windows
admitted o key [] windows = (0, windows)
admitted o key ((k, t) ∷ requests) windows =
    let (after, reply) = handler o k t windows in
    let (n, end) = admitted o key requests after in
    (if str_eq k key && is_next reply then n + 1 else n, end)

pub reset : Windows → Windows
reset windows = []
