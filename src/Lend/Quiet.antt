-- ===== src/Lend/Quiet.antt =====
-- A quiet round: the store of a replay that the contract agreed with lists just the replayed events.
use Prim.Native.String.{String}
use writz.Prelude.{
  ℕ, zero, suc, ◌≡◌, refl, sym, ap, ◌∙◌, subst, Bool, List, Option, some, if◌then◌else◌, ◌==◌,
  length, arith, require, ==_iff, Bool-cases, Option-cases, some_injective, inl, inr,
}
use writz.Lend.Archive.{LendEventStore}
use writz.Lend.Poller.{CycleEnd, at_tip, at_limit, failed, Reader, run_lend_events_cycle}
use writz.Lend.Replay.{
  ReplayedState, replay, VerifyResult, mismatch, missing_releases, unread, verify_against_chain,
}
use writz.Lend.Rebuild.{
  RebuildDeps, Quiet, quiet, after_cycle, settle, is_read, cycle_deps, catch_up_from, catch_up,
  listed, view_round, verify_round, verify_rounds, max_cycles,
}
use writz.Lend.Growth.{
  HasValid, Follows, Follows-trans, cycle-Follows, list_events-Follows, >>=-some,
}
use writz.Lend.Agreement.{Agrees, verify_against_chain-Agrees}

-- The store's events are those whose replay the contract agreed with, from some call on.
pub record IsChecked (deps : RebuildDeps) (store : LendEventStore) (state : ReplayedState)
    (missing : List String) : Type 0 where
  pub call : ℕ
  pub replayed : replay (listed deps store) ≡ some state
  pub agreed : Agrees deps.chain call state missing
  pub valid : HasValid store.cursor

after_cycle-Follows :
    (s : LendEventStore) (end : CycleEnd) (r : Reader) (rest : Option Reader) (r' : Reader)
    → Follows s r.store
    → (rest ≡ some r' → Follows s r'.store)
    → after_cycle end r rest ≡ some r'
    → Follows s r'.store
unfolding after_cycle
after_cycle-Follows s at_tip r rest r' f g h =
    subst (λ (q : Reader). Follows s q.store) (some_injective h) f
after_cycle-Follows s at_limit r rest r' f g h = g h
after_cycle-Follows s failed r rest r' f g h = absurd (ground arith)

settle-quiet :
    (store : LendEventStore) (state : ReplayedState) (result : VerifyResult)
    (store' : LendEventStore) (state' : ReplayedState) (missing : List String)
    → settle store state result ≡ quiet store' state' missing
    → (store ≡ store') × (state ≡ state') × (result ≡ missing_releases missing)
unfolding settle
settle-quiet store state mismatch store' state' missing h = absurd (ground arith)
settle-quiet store state unread store' state' missing h = absurd (ground arith)
settle-quiet store state (missing_releases m) store' state' missing h = (cc, cc, cc)

module _ (deps : RebuildDeps) where
  pub catch_up_from-Follows :
      (n : ℕ) (r r' : Reader) → catch_up_from deps n r ≡ some r' → Follows r.store r'.store
  unfolding catch_up_from
  catch_up_from-Follows zero r r' h = absurd (ground arith)
  catch_up_from-Follows (suc n) r r' h =
      let (end, r1) = run_lend_events_cycle (cycle_deps deps) r in
      let first = cycle-Follows (cycle_deps deps) r in
      after_cycle-Follows r.store end r1 (catch_up_from deps n r1) r' first
        (λ k. Follows-trans r.store r1.store r'.store first (catch_up_from-Follows n r1 r' k)) h

  view_round_lem :
      (r : Reader) (state : ReplayedState) (p : VerifyResult × Reader)
      → view_round deps r state ≡ some p
      → (p.0 ≡ (verify_against_chain deps.chain r.calls state).0) × Follows r.store p.1.store
  unfolding view_round catch_up
  view_round_lem r state p h =
      let (result, calls) = verify_against_chain deps.chain r.calls state in
      let (read, e, h1) = >>=-some (require (is_read result)) _ p h in
      let later : Reader = record r { calls = calls } in
      let (r', e', h2) = >>=-some (catch_up deps later) _ p h1 in
      subst (λ (q : VerifyResult × Reader). (q.0 ≡ result) × Follows r.store q.1.store)
        (some_injective h2) (refl, catch_up_from-Follows max_cycles later r' e')

  verify_round_lem :
      (r : Reader) (p : ReplayedState × VerifyResult × Reader)
      → verify_round deps r ≡ some p
      → (replay (listed deps r.store) ≡ some p.0)
        × (p.1 ≡ (verify_against_chain deps.chain r.calls p.0).0)
        × Follows r.store p.2.store
  unfolding verify_round
  verify_round_lem r p h =
      let (state, e, h1) = >>=-some (replay (listed deps r.store)) _ p h in
      let (viewed, e', h2) = >>=-some (view_round deps r state) _ p h1 in
      let (said, later) = view_round_lem r state viewed e' in
      subst
        (λ (q : ReplayedState × VerifyResult × Reader).
          (replay (listed deps r.store) ≡ some q.0)
          × (q.1 ≡ (verify_against_chain deps.chain r.calls q.0).0)
          × Follows r.store q.2.store)
        (some_injective h2) (e, said, later)

  -- A round with no event between its two replays.
  still_round-IsChecked :
      (r : Reader) (p : ReplayedState × VerifyResult × Reader) (store : LendEventStore)
      (state : ReplayedState) (missing : List String)
      → HasValid r.store.cursor
      → replay (listed deps r.store) ≡ some p.0
      → p.1 ≡ (verify_against_chain deps.chain r.calls p.0).0
      → Follows r.store p.2.store
      → length (listed deps p.2.store) ≡ length (listed deps r.store)
      → settle p.2.store p.0 p.1 ≡ quiet store state missing
      → IsChecked deps store state missing
  still_round-IsChecked r p store state missing v replayed said later same h =
      let (is_store, is_state, passed) = settle-quiet p.2.store p.0 p.1 store state missing h in
      let listed_eq = list_events-Follows deps.contract_id r.store p.2.store later same in
      let checked : IsChecked deps p.2.store p.0 missing = record {
        call = r.calls;
        replayed = ap replay listed_eq ∙ replayed;
        agreed = verify_against_chain-Agrees deps.chain r.calls p.0 missing (sym said ∙ passed);
        valid = later.keeps_valid v;
      } in
      subst (λ s. IsChecked deps s state missing) is_store
        (subst (λ s. IsChecked deps p.2.store s missing) is_state checked)

  pub verify_rounds-IsChecked :
      (n : ℕ) (r : Reader) (store : LendEventStore) (state : ReplayedState) (missing : List String)
      → HasValid r.store.cursor
      → verify_rounds deps n r ≡ quiet store state missing
      → IsChecked deps store state missing
  unfolding verify_rounds
  verify_rounds-IsChecked zero r store state missing v h = absurd (ground arith)
  verify_rounds-IsChecked (suc n) r store state missing v h =
      elim (Option-cases (verify_round deps r)) [
        | inl e ↦ ground arith
        | inr (p, e) ↦
            let (replayed, said, later) = verify_round_lem r p e in
            let same = length (listed deps p.2.store) == length (listed deps r.store) in
            let choose : Bool → Quiet =
              λ b. if b then settle p.2.store p.0 p.1 else verify_rounds deps n p.2 in
            let split : verify_rounds deps (suc n) r ≡ choose same = rw (verify_rounds, e) refl in
            elim (Bool-cases same) [
              | inl still ↦
                  still_round-IsChecked r p store state missing v replayed said later
                    ((==_iff (length (listed deps p.2.store)) (length (listed deps r.store))).0
                      still)
                    (sym (ap choose still) ∙ sym split ∙ h)
              | inr moved ↦
                  verify_rounds-IsChecked n p.2 store state missing (later.keeps_valid v)
                    (sym (ap choose moved) ∙ sym split ∙ h)
            ]
      ]
