-- ===== src/Evidence.antt =====
-- The processing state of an evidence artifact: the machine of
-- backend/app/domain/evidence/state_machine.py, the service of
-- backend/app/application/services/evidence_state.py, which keeps the state in the metadata of the
-- evidence reference, and its check of an idempotency key (application/services/idempotency.py). A
-- key is the list of its code points. Of the metadata the two keys that the service uses are
-- fields; the absent dictionary and the empty one are the same there.
pub mod Workflow
use text.Mathlib.Text.{◌==◌ as str_eq}
use hotelops_ai.Prelude.{
  ℕ, ◌==◌, ◌≡◌, Bool, true, false, not, ◌&&◌, ◌||◌, Option, none, some, List, [], ◌∷◌, String, Name,
  ◌is◌, leb, length, contains, or_else, if◌then◌else◌, Result, ok, err, ◌>>=◌, ◌>>◌, ensure, reject,
  arith,
}
use hotelops_ai.Reliability.Keys.{validate_idempotency_key}
use hotelops_ai.Temporal.Fsm.{FsmRule, Fsm, transition, can_transition, allowed_events}
use hotelops_ai.Temporal.Presence.{rule}

pub data EvidenceProcessingState : Type 0 where
  requested queued extracting uploading finalized retryable_failure terminal_failure expired :
      EvidenceProcessingState

pub data EvidenceEvent : Type 0 where
  queue start_extracting extraction_complete finalize retryable_failure terminal_failure retry
        expire :
      EvidenceEvent

abbrev state_code : EvidenceProcessingState → ℕ
state_code EvidenceProcessingState.requested = 0
state_code EvidenceProcessingState.queued = 1
state_code EvidenceProcessingState.extracting = 2
state_code EvidenceProcessingState.uploading = 3
state_code EvidenceProcessingState.finalized = 4
state_code EvidenceProcessingState.retryable_failure = 5
state_code EvidenceProcessingState.terminal_failure = 6
state_code EvidenceProcessingState.expired = 7

abbrev event_code : EvidenceEvent → ℕ
event_code EvidenceEvent.queue = 0
event_code EvidenceEvent.start_extracting = 1
event_code EvidenceEvent.extraction_complete = 2
event_code EvidenceEvent.finalize = 3
event_code EvidenceEvent.retryable_failure = 4
event_code EvidenceEvent.terminal_failure = 5
event_code EvidenceEvent.retry = 6
event_code EvidenceEvent.expire = 7

pub state_code_injective : (a b : EvidenceProcessingState) → state_code a ≡ state_code b → a ≡ b
state_code_injective a b h = ground arith

pub event_code_injective : (a b : EvidenceEvent) → event_code a ≡ event_code b → a ≡ b
event_code_injective a b h = ground arith

instance abbrev pub state_name : Name EvidenceProcessingState
state_name = record { code = state_code; code_injective = state_code_injective }

instance abbrev pub event_name : Name EvidenceEvent
event_name = record { code = event_code; code_injective = event_code_injective }

-- The value of a state, as it is persisted.
abbrev pub state_value : EvidenceProcessingState → String
state_value EvidenceProcessingState.requested = "requested"
state_value EvidenceProcessingState.queued = "queued"
state_value EvidenceProcessingState.extracting = "extracting"
state_value EvidenceProcessingState.uploading = "uploading"
state_value EvidenceProcessingState.finalized = "finalized"
state_value EvidenceProcessingState.retryable_failure = "retryable_failure"
state_value EvidenceProcessingState.terminal_failure = "terminal_failure"
state_value EvidenceProcessingState.expired = "expired"

abbrev pub evidence_states : List EvidenceProcessingState
evidence_states =
    EvidenceProcessingState.requested ∷ EvidenceProcessingState.queued
    ∷ EvidenceProcessingState.extracting ∷ EvidenceProcessingState.uploading
    ∷ EvidenceProcessingState.finalized ∷ EvidenceProcessingState.retryable_failure
    ∷ EvidenceProcessingState.terminal_failure ∷ EvidenceProcessingState.expired ∷ []

abbrev find_value : String → List EvidenceProcessingState → Option EvidenceProcessingState
find_value raw [] = none
find_value raw (s ∷ states) = if str_eq (state_value s) raw then some s else find_value raw states

abbrev pub evidence_rules : List (FsmRule EvidenceProcessingState EvidenceEvent)
evidence_rules =
    rule EvidenceProcessingState.requested EvidenceEvent.queue EvidenceProcessingState.queued
    ∷ rule EvidenceProcessingState.queued EvidenceEvent.start_extracting
        EvidenceProcessingState.extracting
    ∷ rule EvidenceProcessingState.extracting EvidenceEvent.extraction_complete
        EvidenceProcessingState.uploading
    ∷ rule EvidenceProcessingState.uploading EvidenceEvent.finalize
        EvidenceProcessingState.finalized
    ∷ rule EvidenceProcessingState.extracting EvidenceEvent.retryable_failure
        EvidenceProcessingState.retryable_failure
    ∷ rule EvidenceProcessingState.retryable_failure EvidenceEvent.retry
        EvidenceProcessingState.queued
    ∷ rule EvidenceProcessingState.extracting EvidenceEvent.terminal_failure
        EvidenceProcessingState.terminal_failure
    ∷ rule EvidenceProcessingState.uploading EvidenceEvent.retryable_failure
        EvidenceProcessingState.retryable_failure
    ∷ rule EvidenceProcessingState.uploading EvidenceEvent.terminal_failure
        EvidenceProcessingState.terminal_failure
    ∷ rule EvidenceProcessingState.requested EvidenceEvent.expire EvidenceProcessingState.expired
    ∷ rule EvidenceProcessingState.queued EvidenceEvent.expire EvidenceProcessingState.expired
    ∷ rule EvidenceProcessingState.extracting EvidenceEvent.expire EvidenceProcessingState.expired
    ∷ rule EvidenceProcessingState.uploading EvidenceEvent.expire EvidenceProcessingState.expired
    ∷ []

abbrev pub evidence_fsm : Fsm EvidenceProcessingState EvidenceEvent
evidence_fsm = record {
  name = "evidence_processing";
  version = "1";
  states = evidence_states;
  initial_state = EvidenceProcessingState.requested;
  table = evidence_rules;
}

pub data EvidenceError : Type 0 where
  finalized_mutation invalid_evidence_transition state_mismatch idempotency_key_error value_error :
      EvidenceError

abbrev targets :
    EvidenceEvent
    → List (FsmRule EvidenceProcessingState EvidenceEvent)
    → List EvidenceProcessingState
targets e [] = []
targets e (r ∷ rules) =
    let rest = targets e rules in
    if (r.event is e) && not (contains rest r.to_state) then r.to_state ∷ rest else rest

abbrev single : List EvidenceProcessingState → Option EvidenceProcessingState
single (s ∷ []) = some s
single _ = none

-- `event_target`; the set of the targets is a list without duplicates.
unfoldable pub event_target : EvidenceEvent → Option EvidenceProcessingState
event_target e = single (targets e evidence_rules)

unfoldable pub is_terminal : EvidenceProcessingState → Bool
is_terminal s =
    contains
      (EvidenceProcessingState.finalized ∷ EvidenceProcessingState.terminal_failure
        ∷ EvidenceProcessingState.expired ∷ [])
      s

abbrev pub typed {ℓ κ} :
    {E : Type ℓ} {A : Type κ} → EvidenceError → Result E A → Result EvidenceError A
typed e (ok a) = ok a
typed e (err x) = err e

-- `next_state` of the machine.
unfoldable pub next_state :
    EvidenceProcessingState → EvidenceEvent → Result EvidenceError EvidenceProcessingState
next_state s e =
    if s is EvidenceProcessingState.finalized
    then err finalized_mutation
    else typed invalid_evidence_transition (transition evidence_fsm s e)

pub record Metadata : Type 0 where
  pub processing_state : Option String
  pub processing_state_version : Option String
  pub others : List (String × String)

pub record EvidenceRef : Type 0 where
  pub ref_id : ℕ
  pub metadata : Metadata

pub record EvidenceTransitionResult : Type 0 where
  pub from_state : EvidenceProcessingState
  pub to_state : EvidenceProcessingState
  pub applied : Bool

pub record EvidenceCheckpoint : Type 0 where
  pub ref_id : ℕ
  pub state : EvidenceProcessingState
  pub version : String

abbrev parsed : Option EvidenceProcessingState → Result EvidenceError EvidenceProcessingState
parsed none = err value_error
parsed (some s) = ok s

-- `current_state`
unfoldable pub current_state : EvidenceRef → Result EvidenceError EvidenceProcessingState
current_state ref = elim ref.metadata.processing_state [
  | none ↦ ok EvidenceProcessingState.requested
  | some raw ↦ parsed (find_value raw evidence_states)
]

-- `metadata.get(...) or self._machine.version`: the empty text counts as absent.
abbrev persisted_version : Option String → String
persisted_version none = evidence_fsm.version
persisted_version (some v) = if str_eq v "" then evidence_fsm.version else v

unfoldable pub restart : EvidenceRef → Result EvidenceError EvidenceCheckpoint
restart ref = do
  state ← current_state ref
  ok (record {
    ref_id = ref.ref_id;
    state = state;
    version = persisted_version ref.metadata.processing_state_version;
  })

-- `_persist`
unfoldable pub persist : EvidenceRef → EvidenceProcessingState → EvidenceRef
persist ref s = record ref {
  metadata = record ref.metadata {
    processing_state = some (state_value s);
    processing_state_version = some evidence_fsm.version;
  };
}

abbrev check_key : Option (List ℕ) → Result EvidenceError (Unit {0})
check_key none = ok tt
check_key (some key) = validate_idempotency_key idempotency_key_error key

abbrev matches_expected : Option EvidenceProcessingState → EvidenceProcessingState → Bool
matches_expected none s = true
matches_expected (some e) s = s is e

abbrev is_target : Option EvidenceProcessingState → EvidenceProcessingState → Bool
is_target none s = false
is_target (some t) s = t is s

-- The test of the shortcut for a duplicate delivery.
unfoldable pub is_duplicate : EvidenceProcessingState → EvidenceEvent → Bool
is_duplicate s e = not (is_terminal s) && is_target (event_target e) s

-- The part of `apply` behind its guards: the reference as it is after the call, and the result.
abbrev pub advance :
    EvidenceRef
    → EvidenceProcessingState
    → EvidenceEvent
    → Result EvidenceError (EvidenceRef × EvidenceTransitionResult)
advance ref persisted event =
    if is_duplicate persisted event
    then ok (ref, record { from_state = persisted; to_state = persisted; applied = false })
    else next_state persisted event >>= λ to_state. ok (
      persist ref to_state,
      record { from_state = persisted; to_state = to_state; applied = true },
    )

unfoldable pub apply :
    EvidenceRef
    → EvidenceEvent
    → Option EvidenceProcessingState
    → Option (List ℕ)
    → Result EvidenceError (EvidenceRef × EvidenceTransitionResult)
apply ref event expected_state idempotency_key = do
  checked ← check_key idempotency_key
  persisted ← current_state ref
  guarded ← ensure (matches_expected expected_state persisted) state_mismatch
  advance ref persisted event

unfoldable pub claim_for_extraction :
    EvidenceRef → Result EvidenceError (EvidenceRef × EvidenceTransitionResult)
claim_for_extraction ref =
    apply ref EvidenceEvent.start_extracting (some EvidenceProcessingState.queued) none

unfoldable pub finalize_evidence :
    EvidenceRef → Result EvidenceError (EvidenceRef × EvidenceTransitionResult)
finalize_evidence ref =
    apply ref EvidenceEvent.finalize (some EvidenceProcessingState.uploading) none
