-- ===== src/Faucet/Tests.antt =====
-- Concrete runs of the faucet.
use Prim.Native.String.{String}
use text.Mathlib.Text.{◌==◌ as str_eq}
use writz.Prelude.{
  ◌≤◌, ◌≡◌, refl, true, false, List, [], ◌∷◌, none, some, if◌then◌else◌, length, replicate,
}
use writz.Faucet.Request.{Body}
use writz.Faucet.Service.{FaucetOptions, FaucetSettings, AddressUtxo, verified, answered}
use writz.Faucet.Events.{
  Event, nonce_asked, claimed, logged_in, lock_freed, status_asked, started, new_faucet, run,
}
use writz.Faucet.Fair.{IsFair}
use writz.Faucet.Ledger.{count_answered}
use writz.Faucet.Limits.{run-IsFair}
use writz.Faucet.Nonce.{max_outstanding}
use writz.Faucet.Nonces.{
  issued, presented, times_accepted, times_issued, book_after, times_accepted-le,
}

abbrev settings : FaucetSettings
settings = record {
  amount_sat = 5000;
  daily_cap = 10;
  ip_claims_per_window = 2;
  ip_window_ms = 3600000;
  min_fee_rate = record { num = 1; den = 1 };
  max_fee_rate = record { num = 20; den = 1 };
  fee_target_blocks = 6;
}

abbrev listed : List AddressUtxo
listed =
    (record { utxo = record { txid = "a"; vout = 0; value = 20000 }; confirmed = true })
    ∷ (record { utxo = record { txid = "b"; vout = 1; value = 90000 }; confirmed = false })
    ∷ []

abbrev nonce_text : String
nonce_text = "0123456789abcdef0123456789abcdef"

abbrev opts : FaucetOptions
opts = record {
  settings = settings;
  js = record { trim = λ s. s; to_upper_case = λ s. s; to_lower_case = λ s. s };
  elapsed = λ n. 1000;
  address = "tb1qfaucet";
  change_script = replicate 22 0;
  get_address_utxos = λ n. some listed;
  get_fee_estimates = λ n. none;
  broadcast_tx = λ n p. answered "t";
  txid_of = λ p. "t";
  address_to_output_script = λ s. some (0 ∷ replicate 21 7);
  pubkey_to_p2wpkh_address = λ key. some "tb1qqqqqqqqqq";
  verify_bitcoin_message = λ message sig key. true;
  hash_ip = λ ip. ip;
  random_nonce = λ n. nonce_text;
  verify_login = λ n token stellar. verified stellar "user";
}

abbrev body : Body
body key =
    if str_eq key "pollarAccessToken"
    then some "token"
    else if str_eq key "stellarAddress"
    then some "GAAAAAAAAAAAAAAAAAAAAAAAAAAAAAAAAAAAAAAAAAAAAAAAAAAAAAAA"
    else if str_eq key "signetAddress"
    then some "tb1qqqqqqqqqq"
    else if str_eq key "signetPubkey"
    then some "020000000000000000000000000000000000000000000000000000000000000000"
    else if str_eq key "nonce"
    then some nonce_text
    else if str_eq key "keySig"
    then some
        "AAAAAAAAAAAAAAAAAAAAAAAAAAAAAAAAAAAAAAAAAAAAAAAAAAAAAAAAAAAAAAAAAAAAAAAAAAAAAAAAAAAAAAA="
    else none

abbrev day : List Event
day = nonce_asked ∷ claimed body "ip" ∷ logged_in 0 ∷ lock_freed ∷ status_asked ∷ []

run-IsFair_example :
    IsFair settings (run opts day (started 1700000000000)).claims
    × (count_answered (run opts day (started 1700000000000)).sends
        ≡ length (run opts day (started 1700000000000)).claims)
unfolding new_faucet
run-IsFair_example = run-IsFair opts 1700000000000 (started 1700000000000) day refl

times_accepted-le_example :
    (times_accepted nonce_text
        (issued 1 1 nonce_text ∷ presented 2 nonce_text ∷ presented 3 nonce_text ∷ [])
        ([])
      ≤ times_issued nonce_text
          (issued 1 1 nonce_text ∷ presented 2 nonce_text ∷ presented 3 nonce_text ∷ []))
    × (length (
          book_after
            (issued 1 1 nonce_text ∷ presented 2 nonce_text ∷ presented 3 nonce_text ∷ [])
            ([]))
        ≤ max_outstanding)
times_accepted-le_example =
    times_accepted-le nonce_text
      (issued 1 1 nonce_text ∷ presented 2 nonce_text ∷ presented 3 nonce_text ∷ [])
