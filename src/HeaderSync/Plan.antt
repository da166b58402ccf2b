-- ===== src/HeaderSync/Plan.antt =====
-- The batches of `planHeaderBatches` cover the range once, in order.
use writz.Prelude.{
  ℕ, zero, suc, ◌+◌, ◌-◌, ◌<◌, ◌≤◌, ◌≡◌, refl, min, List, [], ◌∷◌, some, arith, subst, le→ltb,
  le→leb, lt→leb,
}
use native.Mathlib.Decide.{dec_le}
use writz.HeaderSync.{HeaderBatch, plan_from, plan_header_batches}

-- Heights from `start` to `to_height` in batches of one to `per_submit`, each beginning where the
-- last one ended.
abbrev pub IsPlan : ℕ → ℕ → ℕ → List HeaderBatch → Type 0
IsPlan start to_height per_submit [] = to_height < start
IsPlan start to_height per_submit (b ∷ bs) =
    (b.from_height ≡ start)
    × (start ≤ b.to_height)
    × (b.to_height ≤ to_height)
    × (b.to_height < start + per_submit)
    × IsPlan (b.to_height + 1) to_height per_submit bs

-- Past the last height there is no batch.
IsPlan-past :
    (s s' to_height per_submit : ℕ) (bs : List HeaderBatch)
    → to_height < s
    → to_height < s'
    → IsPlan s to_height per_submit bs
    → IsPlan s' to_height per_submit bs
IsPlan-past s s' to_height per_submit [] h k p = k
IsPlan-past s s' to_height per_submit (b ∷ bs) h k (e, p, q, r, t) = absurd (omega arith)

-- The next batch starts behind this one.
IsPlan-next :
    (start to_height per_submit : ℕ) (bs : List HeaderBatch)
    → 1 ≤ per_submit
    → IsPlan (start + per_submit) to_height per_submit bs
    → IsPlan (min (start + per_submit - 1) to_height + 1) to_height per_submit bs
IsPlan-next start to_height per_submit bs one p = elim (dec_le (start + per_submit) to_height) [
  | yes inside ↦
      let e : start + per_submit ≡ min (start + per_submit - 1) to_height + 1 = omega arith in
      subst (λ s. IsPlan s to_height per_submit bs) e p
  | no past ↦
      IsPlan-past (start + per_submit) _ to_height per_submit bs (omega arith) (omega arith) p
]

plan_from-IsPlan :
    (fuel start to_height per_submit : ℕ)
    → 1 ≤ per_submit
    → to_height + 1 < start + fuel
    → 0 < fuel
    → (bs : List HeaderBatch) × (plan_from fuel start to_height per_submit ≡ some bs)
      × IsPlan start to_height per_submit bs
unfolding plan_from
plan_from-IsPlan zero start to_height per_submit one enough h = absurd (omega arith)
plan_from-IsPlan (suc fuel) start to_height per_submit one enough h =
    elim (dec_le start to_height) [
      | yes inside ↦
          let first : HeaderBatch = record {
            from_height = start;
            to_height = min (start + per_submit - 1) to_height;
          } in
          let (bs, e, p) =
            plan_from-IsPlan fuel (start + per_submit) to_height per_submit one (omega arith)
              (omega arith) in
          (
            first ∷ bs,
            rw (le→leb start to_height inside, e),
            (
              refl,
              omega arith,
              omega arith,
              omega arith,
              IsPlan-next start to_height per_submit bs one p,
            ),
          )
      | no past ↦ ([], rw (lt→leb start to_height (omega arith)), omega arith)
    ]

-- With a positive batch size the planner returns, and its batches cover the heights from the first
-- to the last once and in order, none of them empty or larger than the size.
pub plan_header_batches-IsPlan :
    (from_height to_height per_submit : ℕ)
    → 1 ≤ per_submit
    → (bs : List HeaderBatch) × (plan_header_batches from_height to_height per_submit ≡ some bs)
      × IsPlan from_height to_height per_submit bs
unfolding plan_header_batches
plan_header_batches-IsPlan from_height to_height per_submit one =
    rw (le→ltb per_submit 1 one)
      (plan_from-IsPlan _ from_height to_height per_submit one (omega arith) (omega arith))
