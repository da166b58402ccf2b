-- ===== src/Faucet/Request.antt =====
-- relayer/src/faucet/service.ts: the errors of the faucet, the request for coins, and the address it
-- names. JavaScript's `trim`, `toUpperCase` and `toLowerCase` and the address decoding of
-- bitcoinjs-lib are parameters.
use Prim.Native.String.{String}
use Prim.Native.Char.{code}
use text.Mathlib.Text.{◌==◌ as str_eq}
use writz.Prelude.{
  ℕ, ◌+◌, Bool, true, false, ◌&&◌, ◌||◌, List, [], ◌∷◌, Option, none, some, leb, ltb, ◌==◌,
  if◌then◌else◌, length,
}

pub data FaucetErrorCode : Type 0 where
  invalid_request : FaucetErrorCode
  invalid_address : FaucetErrorCode
  faucet_address : FaucetErrorCode
  nonce_invalid : FaucetErrorCode
  address_key_mismatch : FaucetErrorCode
  bad_signature : FaucetErrorCode
  login_expired : FaucetErrorCode
  login_invalid : FaucetErrorCode
  login_wrong_app : FaucetErrorCode
  login_wrong_network : FaucetErrorCode
  login_not_social : FaucetErrorCode
  login_address_mismatch : FaucetErrorCode
  login_provider_not_allowed : FaucetErrorCode
  login_check_unavailable : FaucetErrorCode
  account_already_claimed : FaucetErrorCode
  stellar_address_already_claimed : FaucetErrorCode
  signet_address_already_claimed : FaucetErrorCode
  ip_cooldown : FaucetErrorCode
  daily_cap_reached : FaucetErrorCode
  faucet_empty : FaucetErrorCode
  upstream_unavailable : FaucetErrorCode
  broadcast_rejected : FaucetErrorCode

-- A `FaucetError` with its `retryAfterSeconds`, or another error.
pub data Failure : Type 0 where
  faucet_error : FaucetErrorCode → Option ℕ → Failure
  thrown : Failure

pub data Result {ℓ} (A : Type ℓ) : Type ℓ where
  ok : A → Result A
  err : Failure → Result A

infixl 5 ◌>>=◌ ◌>>◌
abbrev pub ◌>>=◌ {ℓ κ} : {A : Type ℓ} {B : Type κ} → Result A → (A → Result B) → Result B
ok a >>= k = k a
err e >>= k = err e

abbrev pub ◌>>◌ {ℓ} : {B : Type ℓ} → Result (Unit {0}) → Result B → Result B
m >> k = m >>= λ _. k

-- `if (!passes) throw new FaucetError(code, …)`.
abbrev pub check : Bool → FaucetErrorCode → Result (Unit {0})
check true e = ok tt
check false e = err (faucet_error e none)

pub record Js : Type 0 where
  pub trim : String → String
  pub to_upper_case : String → String
  pub to_lower_case : String → String

abbrev pub codes : String → List ℕ
codes String.[] = []
codes (String.◌∷◌ c s) = code c ∷ codes s

-- The `length` of a text, in UTF-16 units.
unfoldable pub units : List ℕ → ℕ
units [] = 0
units (c ∷ cs) = (if ltb c 65536 then 1 else 2) + units cs

unfoldable pub all_in : (ℕ → Bool) → List ℕ → Bool
all_in test [] = true
all_in test (c ∷ cs) = test c && all_in test cs

unfoldable pub between : ℕ → ℕ → ℕ → Bool
between a b c = leb a c && leb c b

unfoldable pub is_digit : ℕ → Bool
is_digit c = between b'0' b'9' c

unfoldable pub is_lower_hex : ℕ → Bool
is_lower_hex c = is_digit c || between b'a' b'f' c

unfoldable pub is_hex : ℕ → Bool
is_hex c = is_lower_hex c || between b'A' b'F' c

unfoldable pub is_base64 : ℕ → Bool
is_base64 c = between b'A' b'Z' c || between b'a' b'z' c || is_digit c || c == b'+' || c == b'/'

-- `/^G[A-Z2-7]{55}$/`.
unfoldable pub stellar_account : List ℕ → Bool
stellar_account [] = false
stellar_account (c ∷ cs) =
    c == b'G' && length cs == 55 && all_in (λ d. between b'A' b'Z' d || between b'2' b'7' d) cs

-- `/^[0-9a-f]{32}$/`.
unfoldable pub nonce_format : List ℕ → Bool
nonce_format cs = length cs == 32 && all_in is_lower_hex cs

-- `/^0[23][0-9a-fA-F]{64}$/`.
unfoldable pub pubkey_hex : List ℕ → Bool
pubkey_hex [] = false
pubkey_hex (c ∷ []) = false
pubkey_hex (c ∷ d ∷ cs) =
    c == b'0' && (d == b'2' || d == b'3') && length cs == 64 && all_in is_hex cs

-- `/^[A-Za-z0-9+/]{86}[A-Za-z0-9+/=]{2}$/`.
unfoldable pub base64_from : ℕ → List ℕ → Bool
base64_from n [] = true
base64_from n (c ∷ cs) = (is_base64 c || (leb 86 n && c == b'=')) && base64_from (n + 1) cs

unfoldable pub base64 : List ℕ → Bool
base64 cs = length cs == 88 && base64_from 0 cs

-- `[02-9ac-hj-np-z]`.
unfoldable pub is_bech32 : ℕ → Bool
is_bech32 c =
    c == b'0'
    || between b'2' b'9' c
    || c == b'a'
    || between b'c' b'h' c
    || between b'j' b'n' c
    || between b'p' b'z' c

-- `/^tb1[02-9ac-hj-np-z]{8,87}$/`.
unfoldable pub bech32_chars : List ℕ → Bool
bech32_chars (t ∷ b ∷ one ∷ cs) =
    t == b't' && b == b'b' && one == b'1' && between 8 87 (length cs) && all_in is_bech32 cs
bech32_chars _ = false

pub record ClaimRequest : Type 0 where
  pub pollar_access_token : String
  pub stellar_address : String
  pub signet_address : String
  pub signet_pubkey : String
  pub nonce : String
  pub key_sig : String

-- A request body: the text of each key that has one.
abbrev pub Body : Type 0
Body = String → Option String

abbrev pub max_token_length : ℕ
max_token_length = 8192

-- Whether a script is of SegWit v0, or of Taproot.
unfoldable pub is_segwit_script : List ℕ → Bool
is_segwit_script [] = false
is_segwit_script (op ∷ rest) =
    let n = length (op ∷ rest) in (op == 0x00 && (n == 22 || n == 34)) || (op == 0x51 && n == 34)

module _ (js : Js) where
  -- `str`.
  unfoldable pub field_text : String → Body → Result String
  field_text key body = elim (body key) [
    | none ↦ err (faucet_error invalid_request none)
    | some v ↦
        let text = js.trim v in
        if str_eq text "" then err (faucet_error invalid_request none) else ok text
  ]

  unfoldable pub parse_claim_request : Body → Result ClaimRequest
  parse_claim_request body = do
    pollar_access_token ← field_text "pollarAccessToken" body
    check (leb (units (codes pollar_access_token)) max_token_length) invalid_request
    stellar_address ← field_text "stellarAddress" body
    check (stellar_account (codes stellar_address)) invalid_request
    signet_address ← field_text "signetAddress" body
    signet_pubkey ← field_text "signetPubkey" body
    check (pubkey_hex (codes signet_pubkey)) invalid_request
    nonce ← field_text "nonce" body
    check (nonce_format (codes nonce)) invalid_request
    key_sig ← field_text "keySig" body
    check (base64 (codes key_sig)) invalid_request
    ok (record {
      pollar_access_token = pollar_access_token;
      stellar_address = stellar_address;
      signet_address = signet_address;
      signet_pubkey = js.to_lower_case signet_pubkey;
      nonce = nonce;
      key_sig = key_sig;
    })

  unfoldable pub normalize_signet_address : (String → Option (List ℕ)) → String → Result String
  normalize_signet_address address_to_output_script raw =
      let trimmed = js.trim raw in
      let address =
        if str_eq trimmed (js.to_upper_case trimmed) then js.to_lower_case trimmed else trimmed in
      do
        check (bech32_chars (codes address)) invalid_address
        elim (address_to_output_script address) [
          | none ↦ err (faucet_error invalid_address none)
          | some script ↦
              if is_segwit_script script
              then ok address
              else err (faucet_error invalid_address none)
        ]
