-- ===== src/Tests/Evidence.antt =====
-- Tests of the evidence workflow: a queued artifact is claimed.
use hotelops_ai.Prelude.{◌≡◌, refl, true, false, none, some, [], ◌∷◌, ok}
use hotelops_ai.Temporal.Fsm.{transition, find}
use hotelops_ai.Evidence.{
  EvidenceProcessingState, EvidenceEvent, EvidenceRef, state_value, EvidenceTransitionResult,
  next_state, current_state, persist, is_duplicate, is_terminal, event_target, apply, queued,
  extracting, finalized,
}

abbrev ref_in : EvidenceProcessingState → EvidenceRef
ref_in s = record {
  ref_id = 1;
  metadata = record {
    processing_state = some (state_value s);
    processing_state_version = some "1";
    others = ("camera", "lobby") ∷ [];
  };
}

abbrev claim_result : EvidenceTransitionResult
claim_result = record { from_state = queued; to_state = extracting; applied = true }

claimed :
    apply (ref_in queued) EvidenceEvent.start_extracting (some queued) none
    ≡ ok (ref_in extracting, claim_result)
unfolding apply current_state is_duplicate is_terminal event_target next_state transition find
    persist
claimed = refl

extracting-live : is_terminal extracting ≡ false
unfolding is_terminal
extracting-live = refl

finalized-read : current_state (ref_in finalized) ≡ ok finalized
unfolding current_state
finalized-read = refl

finalized-terminal : is_terminal finalized ≡ true
unfolding is_terminal
finalized-terminal = refl
