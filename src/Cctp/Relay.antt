-- ===== src/Cctp/Relay.antt =====
-- relayer/src/cctp/service.ts: the jobs of the relay and the requests that start them. A job runs in
-- two steps: what it does before its first call, when it is launched, and the rest. The rest of
-- one job is not interleaved with that of another, as for the mints behind the lock.
use Prim.Native.String.{String, ◌++◌ as str_append}
use writz.Prelude.{
  ℕ, zero, suc, ◌-◌, ◌*◌, min, Bool, true, false, Option, none, some, leb, if◌then◌else◌,
}
use writz.Cctp.Message.{
  Bytes, HexText, RelayableBurn, Checked, accepted, refusal_text, assert_relayable,
}
use writz.Cctp.Message
use writz.Cctp.Store.{
  RelayRecord, RelayState, sent, confirming, confirmed, FailureCode, confirm_timeout, out_of_gas,
  unexpected, refused, unseen, truthy, is_arrived, is_sent, is_settled, or_else,
}
use writz.Cctp.Job.{
  World, Job, return, ◌>>=◌, ◌>>◌, attempt, call, now, sleep, RelayOptions, IrisLookup, unknown,
  pending_message, complete, read_response,
}
use writz.Cctp.Service.{lookup_record, update, fail, transient}
use writz.Cctp.Mint.{mint, note_balance}

-- Whether the loop ends with a record, or waits and goes on with one.
pub data Verdict : Type 0 where
  stop : RelayRecord → Verdict
  again : RelayRecord → Verdict

-- Whether the polling ended, or the fuel.
pub data Polled : Type 0 where
  polled : RelayRecord → Polled
  out_of_fuel : Polled

unfoldable pub confirming_message : HexText → String → RelayableBurn → RelayRecord → RelayRecord
confirming_message message attestation burn r = record r {
  state = confirmed;
  nonce = some burn.message.nonce;
  recipient = some burn.mint_recipient;
  amount = some burn.message.body.amount;
  fee_executed = some burn.message.body.fee_executed;
  message = some message;
  attestation = some attestation;
}

unfoldable pub with_state : RelayState → RelayRecord → RelayRecord
with_state s r = record r { state = s }

unfoldable pub is_out_of_gas : Option FailureCode → Bool
is_out_of_gas (some out_of_gas) = true
is_out_of_gas _ = false

-- The state a record goes on from.
unfoldable pub reached : RelayRecord → RelayState
reached r = if truthy r.attestation then confirmed else sent

unfoldable pub resuming : RelayRecord → RelayRecord → RelayRecord
resuming r current = record current {
  state = reached r;
  failure = none;
  failure_code = none;
  retry_at = none;
  retryable = false;
}

-- The record as the store has it, `this.opts.store.get(…)!`.
unfoldable pub reread : RelayRecord → Job RelayRecord
reread r = lookup_record r.burn_hash >>= λ current. return (or_else current r)

module _ (opts : RelayOptions) where
  -- Circle has signed the burn.
  unfoldable pub on_checked :
      RelayRecord → HexText → String → Checked RelayableBurn → Job RelayRecord
  on_checked r message attestation (Message.refused reason) =
      fail opts r.burn_hash refused
        (str_append "the relay does not complete this transfer: " (refusal_text reason))
      >> reread r
  on_checked r message attestation (accepted burn) =
      update opts r.burn_hash (confirming_message message attestation burn)

  unfoldable pub on_complete : RelayRecord → HexText → String → Job RelayRecord
  on_complete r message attestation = on_checked r message attestation (assert_relayable message)

  unfoldable pub poll_limit : RelayRecord → ℕ
  poll_limit r =
      if is_sent r.state
      then min (10 * 60000) opts.settings.confirm_timeout_ms
      else opts.settings.confirm_timeout_ms

  -- The window has closed.
  unfoldable pub on_timeout : RelayRecord → Job RelayRecord
  on_timeout r =
      (if is_sent r.state
        then fail opts r.burn_hash unseen
            "Circle has no record of this burn; check that it is a CCTP transfer sent from Stellar"
        else transient opts r.burn_hash confirm_timeout "Circle has not confirmed the transfer yet")
      >> reread r

  -- The record that an answer of Iris leaves, unless the burn is signed.
  unfoldable pub check_window : ℕ → RelayRecord → Job Verdict
  check_window begun r = now opts >>= λ t.
      if leb (poll_limit r) (t - begun)
      then (on_timeout r >>= λ last. return (stop last))
      else return (again r)

  -- The body of the loop of `awaitMessage`, up to the wait.
  unfoldable pub check : ℕ → RelayRecord → Option IrisLookup → Job Verdict
  check begun r (some (complete message attestation)) =
      on_complete r message attestation >>= λ last. return (stop last)
  check begun r (some unknown) = check_window begun r
  check begun r (some pending_message) =
      (if is_sent r.state then update opts r.burn_hash (with_state confirming) else return r)
      >>= check_window begun
  check begun r none = check_window begun r

  -- The loop of `awaitMessage`.
  unfoldable pub poll : ℕ → ℕ → RelayRecord → ℕ → Job Polled
  poll zero begun r delay = return out_of_fuel
  poll (suc fuel) begun r delay =
      attempt (call opts (λ n. read_response (opts.fetch_iris n r.burn_hash))) >>= λ lookup.
      check begun r lookup >>= λ verdict. elim verdict [
        | stop last ↦ return (polled last)
        | again next ↦
            sleep opts delay >> poll fuel begun next (min (delay * 2) opts.settings.poll_max_ms)
      ]

  unfoldable pub await_message : ℕ → RelayRecord → Job Polled
  await_message fuel start =
      now opts >>= λ begun. poll fuel begun start opts.settings.poll_initial_ms

  unfoldable pub mint_polled : String → Polled → Job Bool
  mint_polled burn_hash (polled r) =
      if is_settled r then return true else (mint opts burn_hash >> return true)
  mint_polled burn_hash out_of_fuel = return false

  -- `run` of a record: `false` when the fuel runs out.
  unfoldable pub run_record : ℕ → String → RelayRecord → Job Bool
  run_record fuel burn_hash r =
      if is_settled r
      then return true
      else if truthy r.attestation
      then (mint opts burn_hash >> return true)
      else (await_message fuel r >>= mint_polled burn_hash)

  unfoldable pub run_found : ℕ → String → Option RelayRecord → Job Bool
  run_found fuel burn_hash none = return true
  run_found fuel burn_hash (some r) = run_record fuel burn_hash r

  unfoldable pub run : ℕ → String → Job Bool
  run fuel burn_hash = lookup_record burn_hash >>= run_found fuel burn_hash

  unfoldable pub can_pay_for_mint : Job Bool
  can_pay_for_mint = attempt (call opts opts.chain.balance_wei) >>= λ answer. elim answer [
    | none ↦ return false
    | some wei ↦ now opts >>= note_balance wei >> return (leb 100000000000000 wei)
  ]

  -- The rest of `resumeFailed`, behind the balance.
  unfoldable pub resume_now : ℕ → RelayRecord → Job Bool
  resume_now fuel r = update opts r.burn_hash (resuming r) >> run fuel r.burn_hash

  unfoldable pub resume_failed : ℕ → RelayRecord → Job Bool
  resume_failed fuel r =
      if is_out_of_gas r.failure_code
      then (can_pay_for_mint >>= λ pays.
          if pays
          then resume_now fuel r
          else (transient opts r.burn_hash out_of_gas
                (or_else r.failure "the relay is out of Base Sepolia gas")
              >> return true))
      else resume_now fuel r

  -- The `catch` of `launch`.
  unfoldable pub on_error_found : String → Option RelayRecord → Job Bool
  on_error_found burn_hash none = return true
  on_error_found burn_hash (some r) =
      if is_arrived r.state
      then return true
      else (transient opts burn_hash unexpected "the relay hit an unexpected error" >> return true)

  unfoldable pub on_error : String → Job Bool
  on_error burn_hash = lookup_record burn_hash >>= on_error_found burn_hash

  unfoldable pub caught : String → Option Bool × World → Option Bool × World
  caught burn_hash (none, w) = on_error burn_hash w
  caught burn_hash (some done, w) = (some done, w)

  -- A job to its end.
  unfoldable pub job : String → Job Bool → Job Bool
  job burn_hash work w = caught burn_hash (work w)
