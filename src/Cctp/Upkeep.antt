-- ===== src/Cctp/Upkeep.antt =====
-- What the relay writes to the record of a burn keeps it, and settles it.
use Prim.Native.String.{String}
use text.Mathlib.TextPositions.{eq_refl}
use writz.Prelude.{ℕ, zero, suc, ◌≡◌, refl, sym, ◌∙◌, subst, true, Option, none, some, leb}
use writz.Prelude.OrderedMap.{get, set, get-set}
use writz.Cctp.Message.{Bytes}
use writz.Cctp.Store.{
  RelayRecord, FailureCode, gave_up, MintedBy, truthy, or_else, put, is_settled, is_arrived,
  is_failed,
}
use writz.Cctp.Job.{
  return, ◌>>=◌, ◌>>◌, attempt, call, now, tick, RelayOptions, success, revert, pending,
}
use writz.Cctp.Service.{
  lookup_record, put_record, update, update_found, fail, failing, transient, transient_at,
  scheduling, counting, set_arrived, arriving, await_receipt, find_on_indexer, find_mint_tx,
  minted_elsewhere, retry_give_up_ms,
}
use writz.Cctp.Held.{
  IsReady, Holds, Held, Anything, Settled, Ok, Ensures, bind-Ensures, if-Ensures, return-Ensures,
  weaken-Ensures, option-Ensures, receipt-Ensures, call-Ensures, attempt-call-Ensures, now-Ensures,
  lookup-Ensures,
}

-- An update keeps the burn of the record, and that it is ready.
abbrev pub IsPatch : (RelayRecord → RelayRecord) → Type 0
IsPatch patch =
    (r : RelayRecord) → ((patch r).burn_hash ≡ r.burn_hash) × (IsReady r → IsReady (patch r))

module _ (opts : RelayOptions) (key : String) where
  pub update-Ensures :
      (patch : RelayRecord → RelayRecord) (P : RelayRecord → Type 0)
      → IsPatch patch
      → ((r : RelayRecord) (t : ℕ) → P (record (patch r) { updated_at = t }))
      → Ensures key (Held key Anything) (update opts key patch) (λ r w. Holds key r w × P r)
  unfolding update update_found lookup_record put_record now tick put ◌>>=◌
  update-Ensures patch P is_patch done = record {
    runs = λ w (r, (present, same, ready), p).
        let next : RelayRecord = record (patch r) { updated_at = w.time } in
        let (kept, stays) = is_patch r in
        let e : (patch r).burn_hash ≡ key = kept ∙ same in
        let found : get key (set (patch r).burn_hash next w.records) ≡ some next =
          subst (λ k. get key (set k next w.records) ≡ some next) (sym e)
            (simp (get-set, eq_refl)) in
        subst (λ o. Ok key (λ r w. Holds key r w × P r) (update_found opts patch o w)) (sym present)
          ((found, e, stays ready), done r w.time);
  }

  -- An update that settles, and nothing more.
  pub settle-Ensures :
      (patch : RelayRecord → RelayRecord)
      → IsPatch patch
      → ((r : RelayRecord) → is_settled (patch r) ≡ true)
      → Ensures key
          (Held key Anything)
          (update opts key patch >> return {A = Unit {0}} tt)
          (λ _. Held key Settled)
  unfolding is_settled
  settle-Ensures patch is_patch done =
      bind-Ensures key (update opts key patch) (λ _. return tt) (λ r w. Holds key r w × Settled r) _
        (update-Ensures patch Settled is_patch (λ r t. done r))
        (λ r. return-Ensures key tt (λ w (h, p). (r, h, p)))

  pub fail-Ensures :
      (code : FailureCode) (reason : String)
      → Ensures key (Held key Anything) (fail opts key code reason) (λ _. Held key Settled)
  unfolding fail failing is_settled is_arrived is_failed
  fail-Ensures code reason = settle-Ensures (failing code reason) (λ r. (refl, λ h. h)) (λ r. refl)

  pub set_arrived-Ensures :
      (mint_hash : Option String) (minted_by : MintedBy)
      → Ensures key
          (Held key Anything)
          (set_arrived opts key mint_hash minted_by)
          (λ _. Held key Settled)
  unfolding set_arrived arriving is_settled is_arrived is_failed
  set_arrived-Ensures mint_hash minted_by =
      if-Ensures key (truthy mint_hash) _ _
        (settle-Ensures (arriving mint_hash minted_by none) (λ r. (refl, λ h. h)) (λ r. refl))
        (bind-Ensures key (now opts) _ (λ _. Held key Anything) _ (now-Ensures opts key Anything)
          (λ t. settle-Ensures (arriving mint_hash minted_by _) (λ r. (refl, λ h. h)) (λ r. refl)))

  pub transient-Ensures :
      (code : FailureCode) (reason : String)
      → Ensures key (Held key Anything) (transient opts key code reason) (λ _. Held key Settled)
  unfolding transient transient_at scheduling counting is_settled is_arrived is_failed
  transient-Ensures code reason =
      bind-Ensures key (lookup_record key) _ (λ _. Held key Anything) _
        (lookup-Ensures opts key Anything)
        (λ current.
          bind-Ensures key (now opts) _ (λ _. Held key Anything) _ (now-Ensures opts key Anything)
            (λ t.
              if-Ensures key (leb retry_give_up_ms _) _ _
                (bind-Ensures key (update opts key (counting _ _)) _
                  (λ r w. Holds key r w × Anything r) _
                  (update-Ensures (counting _ _) Anything (λ r. (refl, λ h. h)) (λ r t. tt))
                  (λ r.
                    weaken-Ensures key (fail opts key gave_up _) (λ w (h, p). (r, h, p))
                      (fail-Ensures gave_up _)))
                (settle-Ensures (scheduling _ _ _ _ _) (λ r. (refl, λ h. h)) (λ r. refl))))

  pub find_mint_tx-Ensures :
      (nonce : Bytes)
      → Ensures key (Held key Anything) (find_mint_tx opts nonce) (λ _. Held key Anything)
  unfolding find_mint_tx find_on_indexer
  find_mint_tx-Ensures nonce =
      bind-Ensures key (attempt (call opts _)) _ (λ _. Held key Anything) _
        (attempt-call-Ensures opts key Anything _)
        (λ answer.
          option-Ensures key (or_else answer none) _ _
            (option-Ensures key opts.find_mint_on_indexer _ _ (return-Ensures key none (λ w h. h))
              (λ search.
                bind-Ensures key (attempt (call opts _)) _ (λ _. Held key Anything) _
                  (attempt-call-Ensures opts key Anything _)
                  (λ answer. return-Ensures key _ (λ w h. h))))
            (λ found. return-Ensures key (some found) (λ w h. h)))

  pub minted_elsewhere-Ensures :
      (nonce : Bytes)
      → Ensures key (Held key Anything) (minted_elsewhere opts key nonce) (λ _. Held key Settled)
  unfolding minted_elsewhere
  minted_elsewhere-Ensures nonce =
      bind-Ensures key (find_mint_tx opts nonce) _ (λ _. Held key Anything) _
        (find_mint_tx-Ensures nonce) (λ found. set_arrived-Ensures _ _)

  pub await_receipt-Ensures :
      (waits : ℕ) (tx_hash : String)
      → Ensures key (Held key Anything) (await_receipt opts waits tx_hash) (λ _. Held key Anything)
  unfolding await_receipt
  await_receipt-Ensures zero tx_hash = return-Ensures key pending (λ w h. h)
  await_receipt-Ensures (suc waits) tx_hash =
      bind-Ensures key (call opts _) _ (λ _. Held key Anything) _ (call-Ensures opts key Anything _)
        (λ outcome.
          receipt-Ensures key outcome _ _ _ (return-Ensures key success (λ w h. h))
            (return-Ensures key revert (λ w h. h)) (await_receipt-Ensures waits tx_hash))
