-- ===== src/Faucet/Events.antt =====
-- relayer/src/faucet/service.ts: the faucet from its start on, over the requests that reach it.
use Prim.Native.String.{String}
use writz.Prelude.{
  ℕ, suc, ◌||◌, List, [], ◌∷◌, ◌++◌, Option, none, some, ltb, ◌==◌, if◌then◌else◌, get_elem?, take,
  drop,
}
use writz.Faucet.Nonce.{issue}
use writz.Faucet.Request.{Body}
use writz.Faucet.Service.{FaucetSettings, FaucetOptions, Waiting, SignetFaucet, tick}
use writz.Faucet.Claim.{claim, on_login, pay_checked, status}

abbrev pub min_faucet_amount_sat : ℕ
min_faucet_amount_sat = 1000

abbrev pub max_faucet_amount_sat : ℕ
max_faucet_amount_sat = 50000

-- A claim whose login is checked is named by its place among those that wait for Pollar.
pub data Event : Type 0 where
  nonce_asked : Event
  claimed : Body → String → Event
  logged_in : ℕ → Event
  lock_freed : Event
  status_asked : Event

unfoldable pub started : ℕ → SignetFaucet
started t = record {
  calls = 0;
  time = t;
  nonces = [];
  reserved = [];
  pending_change = [];
  balance_cache = none;
  claims = [];
  verifying = [];
  queue = [];
  sends = [];
}

-- The constructor with its checks.
unfoldable pub new_faucet : FaucetSettings → ℕ → Option SignetFaucet
new_faucet settings t =
    if ltb settings.amount_sat min_faucet_amount_sat
      || ltb max_faucet_amount_sat settings.amount_sat
      || settings.ip_claims_per_window == 0
      || settings.ip_window_ms == 0
    then none
    else some (started t)

module _ (opts : FaucetOptions) where
  unfoldable pub issue_nonce : SignetFaucet → SignetFaucet
  issue_nonce s =
      let s' = tick opts s in
      record (tick opts s') { nonces = issue s.time s'.time (opts.random_nonce s.calls) s.nonces }

  unfoldable pub log_in : ℕ → SignetFaucet → SignetFaucet
  log_in k s = elim (get_elem? s.verifying k) [
    | none ↦ s
    | some waiting ↦
        (on_login opts waiting
          (opts.verify_login s.calls waiting.access_token waiting.claimant.stellar_address)
          (record (tick opts s) { verifying = take k s.verifying ++ drop (suc k) s.verifying })).1
  ]

  unfoldable pub pay_next : List Waiting → SignetFaucet → SignetFaucet
  pay_next [] s = s
  pay_next (waiting ∷ queue) s =
      (pay_checked opts waiting.claimant waiting.ip_hash (record s { queue = queue })).1

  unfoldable pub step : Event → SignetFaucet → SignetFaucet
  step nonce_asked s = issue_nonce s
  step (claimed body ip) s = (claim opts body ip s).1
  step (logged_in k) s = log_in k s
  step lock_freed s = pay_next s.queue s
  step status_asked s = (status opts s).1

  unfoldable pub run : List Event → SignetFaucet → SignetFaucet
  run [] s = s
  run (event ∷ events) s = run events (step event s)
