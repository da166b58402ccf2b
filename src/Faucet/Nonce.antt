-- ===== src/Faucet/Nonce.antt =====
-- relayer/src/faucet/nonce.ts: the challenges of the faucet. The random text is a parameter.
use Prim.Native.String.{String, ◌++◌}
use writz.Prelude.{
  ℕ, ◌+◌, ◌*◌, Bool, false, List, [], ◌∷◌, none, some, leb, ltb, if◌then◌else◌, length,
}
use writz.Prelude.OrderedMap.{get, set, delete, keep}

-- When each challenge expires.
abbrev pub Issued : Type 0
Issued = List (String × ℕ)

abbrev pub nonce_ttl_ms : ℕ
nonce_ttl_ms = 5 * 60000

abbrev pub max_outstanding : ℕ
max_outstanding = 10000

unfoldable pub prune : ℕ → Issued → Issued
prune t issued = keep (λ expires_at. ltb t expires_at) issued

-- The `while` loop. The keys of a map are all different, so that what `delete` leaves of it without
-- its oldest key is the rest.
unfoldable pub drop_oldest : Issued → Issued
drop_oldest [] = []
drop_oldest (oldest ∷ issued) =
    let rest = drop_oldest issued in
    if leb max_outstanding (length (oldest ∷ issued)) then rest else oldest ∷ issued

-- `issue`, with the text that it draws, and the times of its two readings of the clock.
unfoldable pub issue : ℕ → ℕ → String → Issued → Issued
issue t t' nonce issued = set nonce (t' + nonce_ttl_ms) (drop_oldest (prune t issued))

unfoldable pub consume : ℕ → String → Issued → Bool × Issued
consume t nonce issued = elim (get nonce issued) [
  | none ↦ (false, issued)
  | some expires_at ↦ (ltb t expires_at, delete nonce issued)
]

unfoldable pub faucet_claim_message : String → String → String → String
faucet_claim_message nonce stellar_address signet_address =
    "Writz Signet faucet\nnonce:"
    ++ (nonce ++ ("\nstellar:" ++ (stellar_address ++ ("\nsignet:" ++ signet_address))))
