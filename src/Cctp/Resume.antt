-- ===== src/Cctp/Resume.antt =====
-- relayer/src/cctp/service.ts and relayer/src/cctp/store.ts: the start of the relay after a restart.
use Prim.Native.String.{String}
use text.Mathlib.TextPositions.{eq_refl}
use text.Mathlib.Text.{◌==◌}
use text.Mathlib.TextEquality.{eq_iff}
use writz.Prelude.{
  ◌≡◌, refl, sym, ap, ◌∙◌, inl, inr, Bool, true, false, not, ◌||◌, List, [], ◌∷◌, some, leb,
  if◌then◌else◌, arith, Bool-cases,
}
use writz.Prelude.OrderedMap.{get, get-set}
use writz.Cctp.Store.{RelayRecord, is_some, is_settled}
use writz.Cctp.Requests.{Work, run_work, Relay, has_job, launch}

-- `sort((a, b) => a.createdAt - b.createdAt)`, which is stable.
unfoldable pub insert_created : RelayRecord → List RelayRecord → List RelayRecord
insert_created r [] = r ∷ []
insert_created r (r' ∷ rs) =
    let rest = insert_created r rs in
    if leb r.created_at r'.created_at then r ∷ r' ∷ rs else r' ∷ rest

unfoldable pub list_open : List (String × RelayRecord) → List RelayRecord
list_open [] = []
list_open ((key, r) ∷ m) =
    let rest = list_open m in if not (is_settled r) then insert_created r rest else rest

unfoldable pub start_all : List RelayRecord → Relay → Relay
start_all [] s = s
start_all (r ∷ rs) s = start_all rs (launch r.burn_hash run_work s)

unfoldable pub resume : Relay → Relay
resume s = start_all (list_open s.world.records) s

-- Whether a record of the list has this burn hash.
unfoldable has_burn : String → List RelayRecord → Bool
has_burn key [] = false
has_burn key (r ∷ rs) = (r.burn_hash == key) || has_burn key rs

has_burn-insert_created :
    (key : String) (r : RelayRecord) (rs : List RelayRecord)
    → has_burn key (insert_created r rs) ≡ ((r.burn_hash == key) || has_burn key rs)
unfolding has_burn insert_created
has_burn-insert_created key r [] = refl
has_burn-insert_created key r (r' ∷ rs) = ground (arith, has_burn-insert_created key r rs)

has_burn-list_open :
    (key : String) (r : RelayRecord) (m : List (String × RelayRecord))
    → get key m ≡ some r
    → r.burn_hash ≡ key
    → is_settled r ≡ false
    → has_burn key (list_open m) ≡ true
unfolding list_open get
has_burn-list_open key r [] present keyed unsettled = ground arith
has_burn-list_open key r ((k, r') ∷ m) present keyed unsettled = ground (
  arith,
  has_burn-list_open key r m,
  has_burn-insert_created key r' (list_open m),
  has_burn-insert_created key r (list_open m),
  eq_iff r.burn_hash key,
  eq_iff k key,
)

has_job-launch_kept :
    (key burn_hash : String) (work : Work) (s : Relay)
    → has_job key s ≡ true
    → has_job key (launch burn_hash work s) ≡ true
unfolding has_job launch is_some
has_job-launch_kept key burn_hash work s h = ground (arith, get-set burn_hash key work s.jobs)

has_job-launch : (key : String) (work : Work) (s : Relay) → has_job key (launch key work s) ≡ true
unfolding has_job launch is_some
has_job-launch key work s = ground (arith, get-set key key work s.jobs, eq_refl key)

has_job-start_all_kept :
    (key : String) (rs : List RelayRecord) (s : Relay)
    → has_job key s ≡ true
    → has_job key (start_all rs s) ≡ true
unfolding start_all
has_job-start_all_kept key [] s h = h
has_job-start_all_kept key (r ∷ rs) s h =
    has_job-start_all_kept key rs _ (has_job-launch_kept key r.burn_hash run_work s h)

has_job-start_all :
    (key : String) (rs : List RelayRecord) (s : Relay)
    → has_burn key rs ≡ true
    → has_job key (start_all rs s) ≡ true
unfolding start_all has_burn
has_job-start_all key [] s h = ground arith
has_job-start_all key (r ∷ rs) s h = elim (Bool-cases (r.burn_hash == key)) [
  | inl same ↦ has_job-start_all_kept key rs _ (
      ap (λ k. has_job key (launch k run_work s)) ((eq_iff r.burn_hash key).0 same)
      ∙ has_job-launch key run_work s)
  | inr other ↦ has_job-start_all key rs _ (sym (ap (λ b. b || has_burn key rs) other) ∙ h)
]

-- After a restart, every transfer that has neither arrived nor failed has a job, if its record
-- stands under its own burn hash.
pub resume-has_job :
    (s : Relay) (key : String) (r : RelayRecord)
    → get key s.world.records ≡ some r
    → r.burn_hash ≡ key
    → is_settled r ≡ false
    → has_job key (resume s) ≡ true
unfolding resume
resume-has_job s key r present keyed unsettled =
    has_job-start_all key (list_open s.world.records) s
      (has_burn-list_open key r s.world.records present keyed unsettled)
