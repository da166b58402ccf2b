-- ===== src/Flow/Late.antt =====
-- Late events of an abandoned run.
use Prim.Native.String.{String}
use writz.Prelude.{◌≡◌, refl, ◌⊎◌, inl, inr, List, [], ◌∷◌, none, some, All, ap, ◌∙◌, sym, subst}
use writz.Flow.{
  FlowState, FlowEvent, Thrown, start, reset, reduce_flow, run_flow, is_terminal, settled,
  timed_out, failed, signature_cancelled, needs_attention, is_in_flight, guards_unload, transition,
  guarded, reconciled, resumed, is_cancel, settled_event, failed_event,
}

-- An event that is neither a new run nor a dismissal.
abbrev pub IsLate : FlowEvent → Type 0
IsLate start = ⊥
IsLate reset = ⊥
IsLate _ = Unit

-- A state with an outcome that no reconciliation is due for.
abbrev pub IsOutcome : FlowState → Type 0
IsOutcome (settled hash) = Unit
IsOutcome (signature_cancelled wallet name hash) = Unit
IsOutcome (failed e hash) = Unit
IsOutcome (needs_attention action e hash) = Unit
IsOutcome _ = ⊥

guarded_outcome : (s : FlowState) (e : FlowEvent) → IsOutcome s → guarded s e ≡ s
unfolding guarded is_terminal
guarded_outcome (settled hash) e h = refl
guarded_outcome (signature_cancelled wallet name hash) e h = refl
guarded_outcome (failed x hash) e h = refl
guarded_outcome (needs_attention action x hash) e h = refl
guarded_outcome _ e h = absurd h

reduce_flow_outcome : (s : FlowState) (e : FlowEvent) → IsOutcome s → IsLate e → reduce_flow s e ≡ s
unfolding reduce_flow
reduce_flow_outcome s start h k = absurd k
reduce_flow_outcome s reset h k = absurd k
reduce_flow_outcome s e h k = guarded_outcome s e h

-- A settled, cancelled or failed flow, or one that needs attention, is left alone by any sequence of
-- events that holds no start and no reset: late events of an abandoned run cannot overwrite it.
pub run_flow_outcome :
    (s : FlowState) (es : List FlowEvent) → IsOutcome s → All IsLate es → run_flow s es ≡ s
unfolding run_flow
run_flow_outcome s [] h k = refl
run_flow_outcome s (e ∷ es) h (k, ks) =
    ap (λ t. run_flow t es) (reduce_flow_outcome s e h k) ∙ run_flow_outcome s es h ks

-- What a timed-out transaction may turn into.
abbrev pub IsReconciled : String → FlowState → Type 0
IsReconciled hash s =
    (s ≡ timed_out hash)
    ⊎ (((h : String) × (s ≡ settled (some h))) ⊎ ((e : Thrown) × (s ≡ failed e (some hash))))

guarded_timed_out :
    (hash : String) (e : FlowEvent) → IsLate e → IsReconciled hash (guarded (timed_out hash) e)
unfolding guarded is_terminal transition writz.Flow.hash_of
guarded_timed_out hash start k = absurd k
guarded_timed_out hash reset k = absurd k
guarded_timed_out hash (settled_event (some h)) k = inr (inl (h, refl))
guarded_timed_out hash (settled_event none) k = inr (inl (hash, refl))
guarded_timed_out hash (failed_event x) k = inr (inr (x, refl))
guarded_timed_out hash e k = inl refl

reduce_flow_timed_out :
    (hash : String) (e : FlowEvent) → IsLate e → IsReconciled hash (reduce_flow (timed_out hash) e)
unfolding reduce_flow
reduce_flow_timed_out hash start k = absurd k
reduce_flow_timed_out hash reset k = absurd k
reduce_flow_timed_out hash e k = guarded_timed_out hash e k

-- Without a start or a reset, a timed-out flow only stays so or takes the outcome of its own
-- transaction: it settles, with a hash, or fails under the hash that it timed out with.
run_flow_timed_out :
    (hash : String) (es : List FlowEvent)
    → All IsLate es
    → IsReconciled hash (run_flow (timed_out hash) es)
unfolding run_flow
run_flow_timed_out hash [] k = inl refl
run_flow_timed_out hash (e ∷ es) (k, ks) = elim (reduce_flow_timed_out hash e k) [
  | inl q ↦ subst (λ t. IsReconciled hash (run_flow t es)) (sym q) (run_flow_timed_out hash es ks)
  | inr (inl (h, q)) ↦
      inr (inl (h, ap (λ t. run_flow t es) q ∙ run_flow_outcome (settled (some h)) es tt ks))
  | inr (inr (x, q)) ↦
      inr (inr (x, ap (λ t. run_flow t es) q ∙ run_flow_outcome (failed x (some hash)) es tt ks))
]
