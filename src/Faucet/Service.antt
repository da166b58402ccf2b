-- ===== src/Faucet/Service.antt =====
-- relayer/src/faucet/service.ts: the state of the faucet, its limits and what it can spend. Pollar,
-- Esplora, the signing, the check of a signature, the address of a key and the hash of a client's
-- address are parameters, which answer the n-th
-- call as they like; a call takes any time and the clock does not go back.
use Prim.Native.String.{String}
use text.Mathlib.Text.{◌==◌ as str_eq}
use writz.Prelude.{
  ℕ, suc, ◌+◌, ◌-◌, ◌*◌, ◌/◌, ◌%◌, max, Bool, false, not, ◌&&◌, ◌||◌, List, [], ◌∷◌, ◌++◌, Option,
  none, some, leb, ltb, ◌==◌, if◌then◌else◌, length, get_elem?,
}
use writz.Payment.{P2wpkhUtxo, P2wpkhPayment, FeeRate, Script}
use writz.Faucet.Store.{
  Claims, has_claim_for_user, has_claim_for_stellar_address, has_claim_for_address, ip_claims_since,
  count_since,
}
use writz.Faucet.Nonce.{Issued}
use writz.Faucet.Request.{
  Js, FaucetErrorCode, account_already_claimed, stellar_address_already_claimed,
  signet_address_already_claimed, ip_cooldown, daily_cap_reached, Failure, faucet_error,
}

abbrev pub reservation_ttl_ms : ℕ
reservation_ttl_ms = 30 * 60000

abbrev pub balance_cache_ms : ℕ
balance_cache_ms = 15000

abbrev pub day_ms : ℕ
day_ms = 86400000

pub record AddressUtxo : Type 0 where
  pub utxo : P2wpkhUtxo
  pub confirmed : Bool

-- What a broadcast comes to: the node's answer, an `EsploraError` with its status, or another error.
pub data Broadcast : Type 0 where
  answered : String → Broadcast
  esplora_error : ℕ → Broadcast
  no_answer : Broadcast

-- `VerifiedLogin`, or the code of the refusal.
pub data Login : Type 0 where
  verified : String → String → Login
  refused : FaucetErrorCode → Login

pub record FaucetSettings : Type 0 where
  pub amount_sat : ℕ
  pub daily_cap : ℕ
  pub ip_claims_per_window : ℕ
  pub ip_window_ms : ℕ
  pub min_fee_rate : FeeRate
  pub max_fee_rate : FeeRate
  pub fee_target_blocks : ℕ

-- `none` is a call that rejects, or an address or key that does not decode.
pub record FaucetOptions : Type 0 where
  pub settings : FaucetSettings
  pub js : Js
  pub elapsed : ℕ → ℕ
  -- The faucet's own address, and its script.
  pub address : String
  pub change_script : Script
  pub get_address_utxos : ℕ → Option (List AddressUtxo)
  -- The estimate for each target that has one.
  pub get_fee_estimates : ℕ → Option (ℕ → Option FeeRate)
  pub broadcast_tx : ℕ → P2wpkhPayment → Broadcast
  pub txid_of : P2wpkhPayment → String
  pub address_to_output_script : String → Option Script
  pub pubkey_to_p2wpkh_address : String → Option String
  -- By message, signature and key.
  pub verify_bitcoin_message : String → String → String → Bool
  pub hash_ip : String → String
  pub random_nonce : ℕ → String
  pub verify_login : ℕ → String → String → Login

pub record Claimant : Type 0 where
  pub address : String
  pub stellar_address : String
  pub user_key : Option String

-- A claim that waits for Pollar, or for the lock.
pub record Waiting : Type 0 where
  pub access_token : String
  pub claimant : Claimant
  pub ip_hash : String

pub record PendingChange : Type 0 where
  pub utxo : P2wpkhUtxo
  pub expires_at : ℕ

-- A broadcast that was not refused: whether it was answered, when its inputs were reserved, and the
-- inputs.
pub record Send : Type 0 where
  pub is_answered : Bool
  pub reserved_at : ℕ
  pub inputs : List P2wpkhUtxo

-- The key of an outpoint is the pair that its text holds.
abbrev pub Reserved : Type 0
Reserved = List (P2wpkhUtxo × ℕ)

-- The faucet, with its broadcasts, the last one first.
pub record SignetFaucet : Type 0 where
  pub calls : ℕ
  pub time : ℕ
  pub nonces : Issued
  pub reserved : Reserved
  pub pending_change : List PendingChange
  pub balance_cache : Option (ℕ × ℕ)
  pub claims : Claims
  pub verifying : List Waiting
  pub queue : List Waiting
  pub sends : List Send

unfoldable pub tick : FaucetOptions → SignetFaucet → SignetFaucet
tick opts s = record s { calls = suc s.calls; time = s.time + opts.elapsed s.calls }

unfoldable pub start_of_utc_day : ℕ → ℕ
start_of_utc_day t = t - t % day_ms

unfoldable pub or_limit : Option Failure → Option Failure → Option Failure
or_limit none next = next
or_limit (some failure) next = some failure

-- `checkLimits`; `none` is a claimant who passes.
module _ (settings : FaucetSettings) where
  unfoldable pub has_claimed_user : Option String → Claims → Bool
  has_claimed_user none claims = false
  has_claimed_user (some user_key) claims = has_claim_for_user user_key claims

  -- The window's claims are from `t - ipWindowMs + 1` on.
  unfoldable pub ip_limit : ℕ → List ℕ → Option Failure
  ip_limit t ip_claims =
      if leb settings.ip_claims_per_window (length ip_claims)
      then (elim (get_elem? ip_claims (length ip_claims - settings.ip_claims_per_window)) [
        | none ↦ some (faucet_error ip_cooldown none)
        | some oldest ↦ some (
            faucet_error ip_cooldown
              (some (max 1 ((oldest + settings.ip_window_ms - t + 999) / 1000))))
      ])
      else none

  unfoldable pub daily_limit : ℕ → Claims → Option Failure
  daily_limit t claims =
      if leb settings.daily_cap (count_since (start_of_utc_day t) claims)
      then some
          (faucet_error daily_cap_reached (some ((start_of_utc_day t + day_ms - t + 999) / 1000)))
      else none

  unfoldable pub check_limits : ℕ → Claims → Claimant → String → Option Failure
  check_limits t claims claimant ip_hash =
      if has_claimed_user claimant.user_key claims
      then some (faucet_error account_already_claimed none)
      else if has_claim_for_stellar_address claimant.stellar_address claims
      then some (faucet_error stellar_address_already_claimed none)
      else if has_claim_for_address claimant.address claims
      then some (faucet_error signet_address_already_claimed none)
      else or_limit (ip_limit t (ip_claims_since ip_hash (t + 1 - settings.ip_window_ms) claims))
          (daily_limit t claims)

unfoldable pub same_outpoint : P2wpkhUtxo → P2wpkhUtxo → Bool
same_outpoint u v = str_eq u.txid v.txid && u.vout == v.vout

unfoldable pub has_outpoint : P2wpkhUtxo → List P2wpkhUtxo → Bool
has_outpoint u [] = false
has_outpoint u (v ∷ vs) = same_outpoint v u || has_outpoint u vs

unfoldable pub is_reserved : P2wpkhUtxo → Reserved → Bool
is_reserved u [] = false
is_reserved u ((v, exp) ∷ reserved) = same_outpoint v u || is_reserved u reserved

-- `reserved.set`.
unfoldable pub set_reserved : P2wpkhUtxo → ℕ → Reserved → Reserved
set_reserved u exp [] = ((u, exp)) ∷ []
set_reserved u exp ((v, old) ∷ reserved) =
    if same_outpoint v u then ((v, exp)) ∷ reserved else ((v, old)) ∷ set_reserved u exp reserved

unfoldable pub reserve_all : ℕ → List P2wpkhUtxo → Reserved → Reserved
reserve_all exp [] reserved = reserved
reserve_all exp (u ∷ us) reserved = reserve_all exp us (set_reserved u exp reserved)

unfoldable pub drop_expired : ℕ → Reserved → Reserved
drop_expired t [] = []
drop_expired t ((u, exp) ∷ reserved) =
    let rest = drop_expired t reserved in if leb exp t then rest else ((u, exp)) ∷ rest

unfoldable pub keep_change : (PendingChange → Bool) → List PendingChange → List PendingChange
keep_change test [] = []
keep_change test (c ∷ cs) = let rest = keep_change test cs in if test c then c ∷ rest else rest

unfoldable pub utxos_of : List AddressUtxo → List P2wpkhUtxo
utxos_of [] = []
utxos_of (u ∷ us) = u.utxo ∷ utxos_of us

unfoldable pub changes_of : List PendingChange → List P2wpkhUtxo
changes_of [] = []
changes_of (c ∷ cs) = c.utxo ∷ changes_of cs

unfoldable pub free_utxos : Reserved → List AddressUtxo → List AddressUtxo
free_utxos reserved [] = []
free_utxos reserved (u ∷ us) =
    let rest = free_utxos reserved us in
    if not (is_reserved u.utxo reserved) then u ∷ rest else rest

-- Whether the comparison of the sort leaves `a` before `b`: confirmed first, then by value.
unfoldable pub is_before : AddressUtxo → AddressUtxo → Bool
is_before a b =
    (a.confirmed && not b.confirmed)
    || (not (b.confirmed && not a.confirmed) && leb b.utxo.value a.utxo.value)

unfoldable pub insert_utxo : AddressUtxo → List AddressUtxo → List AddressUtxo
insert_utxo u [] = u ∷ []
insert_utxo u (v ∷ vs) =
    let rest = insert_utxo u vs in if is_before u v then u ∷ v ∷ vs else v ∷ rest

unfoldable pub sort_utxos : List AddressUtxo → List AddressUtxo
sort_utxos [] = []
sort_utxos (u ∷ us) = insert_utxo u (sort_utxos us)

-- `spendable` up to its call of Esplora.
unfoldable pub forget_expired : ℕ → SignetFaucet → SignetFaucet
forget_expired t s = record s {
  reserved = drop_expired t s.reserved;
  pending_change = keep_change (λ c. ltb t c.expires_at) s.pending_change;
}

-- `spendable` behind it.
unfoldable pub spendable_of : List AddressUtxo → SignetFaucet → List P2wpkhUtxo × SignetFaucet
spendable_of listed s =
    let unlisted =
      keep_change (λ c. not (has_outpoint c.utxo (utxos_of listed))) s.pending_change in
    (
      utxos_of (sort_utxos (free_utxos s.reserved listed))
          ++ changes_of (keep_change (λ c. not (is_reserved c.utxo s.reserved)) unlisted),
      record s { pending_change = unlisted },
    )

unfoldable pub rate_le : FeeRate → FeeRate → Bool
rate_le a b = leb (a.num * b.den) (b.num * a.den)

unfoldable pub max_rate : FeeRate → FeeRate → FeeRate
max_rate a b = if rate_le a b then b else a

unfoldable pub min_rate : FeeRate → FeeRate → FeeRate
min_rate a b = if rate_le a b then a else b

module _ (opts : FaucetOptions) where
  unfoldable pub spendable : SignetFaucet → Option (List P2wpkhUtxo) × SignetFaucet
  spendable s =
      let s' = tick opts (forget_expired s.time (tick opts s)) in
      elim (opts.get_address_utxos (suc s.calls)) [
        | none ↦ (none, s')
        | some listed ↦ let (utxos, s'') = spendable_of listed s' in (some utxos, s'')
      ]

  unfoldable pub estimate_of : Option (ℕ → Option FeeRate) → FeeRate
  estimate_of none = opts.settings.min_fee_rate
  estimate_of (some estimates) = elim (estimates opts.settings.fee_target_blocks) [
    | none ↦ opts.settings.min_fee_rate
    | some value ↦ value
  ]

  unfoldable pub fee_rate : SignetFaucet → FeeRate × SignetFaucet
  fee_rate s = (
    min_rate opts.settings.max_fee_rate
        (max_rate opts.settings.min_fee_rate (estimate_of (opts.get_fee_estimates s.calls))),
    tick opts s,
  )

  -- `reserve`.
  unfoldable pub reserve : List P2wpkhUtxo → SignetFaucet → SignetFaucet
  reserve inputs s = record (tick opts s) {
    reserved = reserve_all (s.time + reservation_ttl_ms) inputs s.reserved;
    pending_change = keep_change (λ c. not (has_outpoint c.utxo inputs)) s.pending_change;
  }
