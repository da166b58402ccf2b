-- ===== src/Cctp/Tests.antt =====
-- Concrete runs of the relay.
use writz.Prelude.{
  ℕ, ◌≤◌, ◌≡◌, refl, ◌↔◌, inr, true, false, [], ◌∷◌, ◌++◌, none, some, replicate, length, arith,
}
use writz.Prelude.OrderedMap.{get}
use writz.Cctp.Message.{
  Bytes, hex, assert_relayable, base_sepolia_token_messenger, accepted, read_message,
}
use writz.Cctp.Store.{
  RelayRecord, sent, confirmed, failed, rpc, truthy, is_settled, is_arrived, is_failed,
  to_relay_view,
}
use writz.Cctp.Job.{World, RelayChain, RelayOptions, simulated, broadcast, success, not_found}
use writz.Cctp.Mint.{decimal, decimal_before}
use writz.Cctp.Relay.{run, job, resume_failed}
use writz.Cctp.Accepted.{IsRelayable, assert_relayable_iff}
use writz.Cctp.Launch.{EndsSettled, job-run-EndsSettled, job-resume_failed-EndsSettled}
use writz.Cctp.Requests.{Relay, has_job, request, status, view, requested, finished, serve}
use writz.Cctp.Answers.{IsOne, request_final, serve-IsOne}
use writz.Cctp.Resume.{resume, resume-has_job}

-- Zero bytes, and a number of four bytes.
abbrev zeros : ℕ → Bytes
zeros n = replicate n 0

abbrev word : ℕ → Bytes
word n = zeros 3 ++ n ∷ []

-- A burn of 5 units for the address 1.
abbrev burn_bytes : Bytes
burn_bytes =
    word 1
    ++ word 27
    ++ word 6
    ++ zeros 64
    ++ zeros 12
    ++ base_sepolia_token_messenger
    ++ zeros 32
    ++ word 0
    ++ word 0
    ++ word 1
    ++ zeros 32
    ++ zeros 31
    ++ 1 ∷ zeros 31
    ++ 5 ∷ zeros 128

-- The chain takes every mint at once; a call takes a millisecond.
abbrev chain : RelayChain
chain = record {
  address = "0x1";
  balance_wei = λ n. some 0;
  is_nonce_used = λ n nonce. some false;
  find_mint = λ n nonce. some none;
  simulate_receive = λ n message attestation. some simulated;
  send_receive = λ n message attestation. broadcast "0x2";
  wait_for_receipt = λ n tx_hash. some success;
}

abbrev opts : RelayOptions
opts = record {
  chain = chain;
  settings = record {
    confirm_timeout_ms = 20;
    daily_cap = 3;
    max_open = 3;
    poll_initial_ms = 10;
    poll_max_ms = 10;
  };
  elapsed = λ n. 1;
  fetch_iris = λ n burn_hash. some not_found;
  find_mint_on_indexer = none;
  to_lower_case = λ s. s;
}

abbrev new_record : RelayRecord
new_record = record {
  burn_hash = "b";
  state = sent;
  nonce = none;
  recipient = none;
  amount = none;
  fee_executed = none;
  message = none;
  attestation = none;
  mint_hash = none;
  minted_by = none;
  failure = none;
  failure_code = none;
  retryable = false;
  retry_at = none;
  attempts = none;
  retrying_since = none;
  created_at = 0;
  updated_at = 0;
  submitted_at = none;
}

-- Circle has signed the burn.
abbrev signed_record : RelayRecord
signed_record = record new_record {
  state = confirmed;
  nonce = some (zeros 32);
  message = some (hex burn_bytes);
  attestation = some "0x3";
}

abbrev world_of : RelayRecord → World
world_of r = record {
  calls = 0;
  time = 1000;
  records = (("b", r)) ∷ [];
  sends = [];
  balance_cache = none;
}

job-run-EndsSettled_example :
    EndsSettled opts "b" (job opts "b" (run opts 21 "b") (world_of signed_record))
unfolding get truthy
job-run-EndsSettled_example =
    job-run-EndsSettled opts "b" 21 (world_of signed_record) (omega arith, omega arith, omega arith)
      (signed_record, (refl, refl, inr (_, _, refl, refl)), tt)

abbrev failed_record : RelayRecord
failed_record = record signed_record {
  state = failed;
  failure_code = some rpc;
  retryable = true;
  retry_at = some 900;
  attempts = some 1;
  retrying_since = some 500;
}

job-resume_failed-EndsSettled_example :
    EndsSettled opts "b"
      (job opts "b" (resume_failed opts 21 failed_record) (world_of failed_record))
unfolding get truthy
job-resume_failed-EndsSettled_example =
    job-resume_failed-EndsSettled opts "b" 21 failed_record (world_of failed_record)
      (omega arith, omega arith, omega arith) refl
      (failed_record, (refl, refl, inr (_, _, refl, refl)), tt)

assert_relayable_iff_example :
    (assert_relayable (hex burn_bytes)
      ≡ accepted
          (record { message = read_message burn_bytes; mint_recipient = zeros 19 ++ 1 ∷ [] }))
    ↔ ((376 ≤ length burn_bytes)
        × (read_message burn_bytes ≡ read_message burn_bytes)
        × IsRelayable (read_message burn_bytes) (zeros 19 ++ 1 ∷ []))
assert_relayable_iff_example =
    assert_relayable_iff burn_bytes
      (record { message = read_message burn_bytes; mint_recipient = zeros 19 ++ 1 ∷ [] })

-- A burn that the relay will not pay for.
abbrev refused_record : RelayRecord
refused_record = record new_record { state = failed }

abbrev idle_relay : RelayRecord → Relay
idle_relay r = record { world = world_of r; jobs = []; running = [] }

request_final_example :
    (request opts "b" (idle_relay refused_record)
      ≡ (view (to_relay_view refused_record), idle_relay refused_record))
    × (status opts "b" (idle_relay refused_record)
        ≡ (view (to_relay_view refused_record), idle_relay refused_record))
unfolding get
request_final_example =
    request_final opts "b" (idle_relay refused_record) refused_record refl refl refl refl

serve-IsOne_example :
    IsOne (serve opts 21 (requested "b" ∷ finished "b" ∷ []) (idle_relay failed_record))
serve-IsOne_example =
    serve-IsOne opts 21 (requested "b" ∷ finished "b" ∷ []) (idle_relay failed_record)
      (tt, λ key. refl)

resume-has_job_example : has_job "b" (resume (idle_relay signed_record)) ≡ true
unfolding get is_settled is_arrived is_failed
resume-has_job_example = resume-has_job (idle_relay signed_record) "b" signed_record refl refl refl

decimal_test : (decimal 0 ≡ "0") × (decimal 1205 ≡ "1205")
unfolding decimal_before
decimal_test = (refl, refl)
