-- ===== src/Flow/Rejection.antt =====
-- Declined signatures, and what a flow guards the page for.
use writz.Prelude.{◌≡◌, refl, Bool, true, false}
use writz.Flow.{
  FlowState, is_terminal, awaiting_signature, failed, signature_cancelled, is_in_flight,
  guards_unload, submitted, post_processing,
}

false≢true : ◌≡◌ {A = Bool} false true → ⊥
false≢true e = cc

abbrev pub IsCancelled : FlowState → Type 0
IsCancelled (signature_cancelled wallet name hash) = Unit
IsCancelled _ = ⊥

abbrev pub IsFailed : FlowState → Type 0
IsFailed (failed e hash) = Unit
IsFailed _ = ⊥

abbrev pub IsAwaiting : FlowState → Type 0
IsAwaiting (awaiting_signature wallet hash) = Unit
IsAwaiting _ = ⊥

-- A page is guarded against leaving only while something is in flight.
guards_unload-in_flight : (s : FlowState) → guards_unload s ≡ true → is_in_flight s ≡ true
unfolding guards_unload is_in_flight is_terminal
guards_unload-in_flight (awaiting_signature wallet hash) h = refl
guards_unload-in_flight (submitted hash) h = refl
guards_unload-in_flight (post_processing hash) h = refl
guards_unload-in_flight s h = absurd (false≢true h)
