-- ===== src/Cctp/Mint.antt =====
-- relayer/src/cctp/service.ts: the mint, which runs inside the relay's lock.
use Prim.Native.String.{String, ◌++◌ as str_append, slice}
use writz.Prelude.{
  ℕ, zero, suc, ◌+◌, ◌/◌, ◌%◌, ltb, Bool, true, false, not, ◌&&◌, ◌||◌, ◌∷◌, Option, none, some,
  leb, if◌then◌else◌,
}
use writz.Cctp.Message.{Bytes, HexText}
use writz.Cctp.Store.{
  RelayRecord, submitted, rpc, out_of_gas, daily_cap, send_failed, not_mined, reverted,
  mint_refused, MintedBy, relay, truthy, is_settled, count_submitted_since, or_else,
}
use writz.Cctp.Job.{
  Job, return, ◌>>=◌, ◌>>◌, attempt, call, now, tick, RelayOptions, SimulateOutcome, simulated,
  not_simulated, ReceiptOutcome, success, revert, pending, SendOutcome, broadcast,
  insufficient_funds, send_error,
}
use writz.Cctp.Service.{
  lookup_record, update, fail, transient, set_arrived, is_nonce_used, await_receipt,
  minted_elsewhere, start_of_utc_day,
}

abbrev digit : ℕ → String
digit n = slice "0123456789" n (n + 1)

-- The digits of a number before those of `rest`; a number has fewer digits than the next one counts.
unfoldable pub decimal_before : ℕ → ℕ → String → String
decimal_before zero n rest = rest
decimal_before (suc fuel) n rest =
    let text = str_append (digit (n % 10)) rest in
    let longer = decimal_before fuel (n / 10) text in if ltb n 10 then text else longer

abbrev pub decimal : ℕ → String
decimal n = decimal_before (suc n) n ""

-- The mint that is broadcast.
unfoldable pub submitting : String → ℕ → RelayRecord → RelayRecord
submitting mint_hash t r = record r {
  state = submitted;
  mint_hash = some mint_hash;
  minted_by = some relay;
  submitted_at = some t;
}

-- `record.mintedBy === "relay"`.
unfoldable pub by_relay : Option MintedBy → Bool
by_relay (some relay) = true
by_relay _ = false

unfoldable pub forget_balance : Job (Unit {0})
forget_balance w = (some tt, record w { balance_cache = none })

unfoldable pub note_balance : ℕ → ℕ → Job (Unit {0})
note_balance wei t w = (some tt, record w { balance_cache = some (t, wei) })

-- `sendReceive`: the call is noted in `sends`, whatever it answers.
unfoldable pub send_receive : RelayOptions → Bytes → HexText → String → Job SendOutcome
send_receive opts nonce message attestation w = (
  some (opts.chain.send_receive w.calls message attestation),
  tick opts (record w { sends = nonce ∷ w.sends }),
)

unfoldable pub minted_since : ℕ → Job ℕ
minted_since since w = (some (count_submitted_since since w.records), w)

module _ (opts : RelayOptions) where
  -- `warnIfLow`: the balance it reads is kept, a read that fails is ignored.
  unfoldable pub warn_if_low : Job (Unit {0})
  warn_if_low = attempt (call opts opts.chain.balance_wei) >>= λ answer. elim answer [
    | none ↦ return tt
    | some wei ↦ now opts >>= note_balance wei
  ]

  -- Behind a receipt that is not a success.
  unfoldable pub after_receipt : String → Bytes → ReceiptOutcome → Job (Unit {0})
  after_receipt burn_hash nonce outcome = is_nonce_used opts nonce >>= λ used.
      if used then minted_elsewhere opts burn_hash nonce else elim outcome [
        | revert ↦ transient opts burn_hash reverted "the mint transaction reverted on Base Sepolia"
        | _ ↦
            transient opts burn_hash not_mined
              "the mint transaction on Base Sepolia is not mined yet"
      ]

  -- Behind the broadcast.
  unfoldable pub after_send : String → Bytes → String → Job (Unit {0})
  after_send burn_hash nonce mint_hash = now opts >>= λ t.
      update opts burn_hash (submitting mint_hash t)
      >> forget_balance
      >> (await_receipt opts 4 mint_hash >>= λ outcome. elim outcome [
        | success ↦ set_arrived opts burn_hash (some mint_hash) relay >> warn_if_low
        | revert ↦ after_receipt burn_hash nonce revert
        | pending ↦ after_receipt burn_hash nonce pending
      ])

  -- Behind `sendReceive`.
  unfoldable pub on_sent : String → Bytes → SendOutcome → Job (Unit {0})
  on_sent burn_hash nonce (broadcast mint_hash) = after_send burn_hash nonce mint_hash
  on_sent burn_hash nonce insufficient_funds =
      transient opts burn_hash out_of_gas
        "the relay is out of Base Sepolia gas; it retries once the account is refilled"
  on_sent burn_hash nonce send_error =
      transient opts burn_hash send_failed "the mint could not be sent to Base Sepolia"

  unfoldable pub send_mint : String → Bytes → HexText → String → Job (Unit {0})
  send_mint burn_hash nonce message attestation =
      send_receive opts nonce message attestation >>= on_sent burn_hash nonce

  -- A simulation that failed.
  unfoldable pub not_ok : String → Bytes → Bool → Option String → Job (Unit {0})
  not_ok burn_hash nonce is_transient reason = is_nonce_used opts nonce >>= λ used.
      if used
      then minted_elsewhere opts burn_hash nonce
      else if is_transient
      then transient opts burn_hash rpc "Base Sepolia could not be reached"
      else fail opts burn_hash mint_refused
          (str_append "Base Sepolia refused the mint: " (or_else reason "reverted"))

  -- Behind the simulation.
  unfoldable pub on_simulated : String → Bytes → HexText → String → SimulateOutcome → Job (Unit {0})
  on_simulated burn_hash nonce message attestation simulated =
      send_mint burn_hash nonce message attestation
  on_simulated burn_hash nonce message attestation (not_simulated is_transient reason) =
      not_ok burn_hash nonce is_transient reason

  unfoldable pub simulate_mint : String → Bytes → HexText → String → Job (Unit {0})
  simulate_mint burn_hash nonce message attestation =
      call opts (λ n. opts.chain.simulate_receive n message attestation)
      >>= on_simulated burn_hash nonce message attestation

  -- Behind the nonce check: the daily cap.
  unfoldable pub capped_mint : String → Bytes → HexText → String → Job (Unit {0})
  capped_mint burn_hash nonce message attestation = now opts >>= λ t.
      minted_since (start_of_utc_day t) >>= λ minted.
      if leb opts.settings.daily_cap minted
      then transient opts burn_hash daily_cap (
          str_append "the relay reached its daily limit of "
            (str_append (decimal opts.settings.daily_cap) " transfers; it resumes after 00:00 UTC"))
      else simulate_mint burn_hash nonce message attestation

  -- Behind the relay's earlier broadcast.
  unfoldable pub new_mint : String → Bytes → HexText → String → Job (Unit {0})
  new_mint burn_hash nonce message attestation = is_nonce_used opts nonce >>= λ used.
      if used
      then minted_elsewhere opts burn_hash nonce
      else capped_mint burn_hash nonce message attestation

  -- Behind the receipt of the relay's own earlier broadcast, `mint_hash`.
  unfoldable pub on_earlier :
      String → Bytes → HexText → String → String → ReceiptOutcome → Job (Unit {0})
  on_earlier burn_hash nonce message attestation mint_hash success =
      set_arrived opts burn_hash (some mint_hash) relay
  on_earlier burn_hash nonce message attestation mint_hash revert =
      new_mint burn_hash nonce message attestation
  on_earlier burn_hash nonce message attestation mint_hash pending =
      is_nonce_used opts nonce >>= λ used.
      if used
      then new_mint burn_hash nonce message attestation
      else transient opts burn_hash not_mined
          "the mint transaction on Base Sepolia is not mined yet"

  -- The relay's own earlier broadcast comes first.
  unfoldable pub earlier_mint : String → Bytes → HexText → String → String → Job (Unit {0})
  earlier_mint burn_hash nonce message attestation mint_hash =
      await_receipt opts 4 mint_hash >>= on_earlier burn_hash nonce message attestation mint_hash

  unfoldable pub mint_ready : String → RelayRecord → Bytes → HexText → String → Job (Unit {0})
  mint_ready burn_hash r nonce message attestation =
      if truthy r.mint_hash && by_relay r.minted_by
      then earlier_mint burn_hash nonce message attestation (or_else r.mint_hash "")
      else new_mint burn_hash nonce message attestation

  -- A record without what a mint needs, its nonce and its message first, is left as it is.
  unfoldable pub mint_with : String → RelayRecord → Option Bytes → Option HexText → Job (Unit {0})
  mint_with burn_hash r (some nonce) (some message) =
      if is_settled r || not (truthy r.attestation)
      then return tt
      else mint_ready burn_hash r nonce message (or_else r.attestation "")
  mint_with burn_hash r (some nonce) none = return tt
  mint_with burn_hash r none _ = return tt

  unfoldable pub mint_found : String → Option RelayRecord → Job (Unit {0})
  mint_found burn_hash none = return tt
  mint_found burn_hash (some r) = mint_with burn_hash r r.nonce r.message

  unfoldable pub mint : String → Job (Unit {0})
  mint burn_hash = lookup_record burn_hash >>= mint_found burn_hash
