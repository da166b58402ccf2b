-- ===== src/Relayer/RateLimit/Tests.antt =====
-- A limit of two requests a minute.
use Prim.Native.String.{String}
use writz.Prelude.{ℕ, ◌+◌, ◌≤◌, ◌≡◌, refl, inl, max, List, [], ◌∷◌, arith}
use writz.Prelude.OrderedMap
use writz.Relayer.RateLimit.{
  Options, Windows, next, too_many_requests, handler, admitted, sweep, admit, retry_after_seconds,
}
use writz.Relayer.RateLimit.Admission.{handler-admitted}

abbrev two_a_minute : Options
two_a_minute = record { limit = 2; window_ms = 60000 }

abbrev requests : List (String × ℕ)
requests = ("a", 10) ∷ ("b", 20) ∷ ("a", 30) ∷ ("a", 59999) ∷ []

handler-admitted_example :
    ((handler two_a_minute "a" 0 []).1 ≡ next)
    × (1 + (admitted two_a_minute "a" requests (handler two_a_minute "a" 0 []).0).0 ≤ max 2 1)
unfolding OrderedMap.get
handler-admitted_example =
    handler-admitted two_a_minute "a" 0 requests [] tt (inl refl) (omega arith)

-- Two requests in the window, which ends at 60000.
abbrev used_up : Windows
used_up = ("a", record { count = 2; reset_at = 60000 }) ∷ []

refusal_test : (handler two_a_minute "a" 1500 used_up).1 ≡ too_many_requests 59
unfolding handler sweep admit OrderedMap.get retry_after_seconds
refusal_test = refl
