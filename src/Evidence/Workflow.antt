-- ===== src/Evidence/Workflow.antt =====
-- The durable workflow of the evidence service: what is persisted, what is legal, who wins a race.
use hotelops_ai.Prelude.{
  ℕ, ◌≡◌, refl, inl, inr, Bool, true, false, Option, none, some, List, ◌is◌, is_iff, if◌then◌else◌,
  Result, ok, err, is_ok, Bool-cases, All, sym, ap, ◌∙◌, Result-cases, arith,
}
use hotelops_ai.Temporal.Fsm.{Fsm, find, transition}
use hotelops_ai.Temporal.Fsm.Table.{find-All, raise_if_none-inv}
use hotelops_ai.Temporal.Errors.{TemporalError}
use hotelops_ai.Evidence.{
  evidence_rules, evidence_fsm, typed, invalid_evidence_transition, EvidenceProcessingState,
  EvidenceEvent, EvidenceRef, EvidenceTransitionResult, state_name, event_name, finalized_mutation,
  state_mismatch, event_target, is_terminal, next_state, current_state, persist, is_duplicate,
  advance, apply, finalized,
}

-- What is persisted is what is read back.
current_state-persist :
    (ref : EvidenceRef) (s : EvidenceProcessingState) → current_state (persist ref s) ≡ ok s
unfolding current_state persist
current_state-persist ref EvidenceProcessingState.requested = refl
current_state-persist ref EvidenceProcessingState.queued = refl
current_state-persist ref EvidenceProcessingState.extracting = refl
current_state-persist ref EvidenceProcessingState.uploading = refl
current_state-persist ref EvidenceProcessingState.finalized = refl
current_state-persist ref EvidenceProcessingState.retryable_failure = refl
current_state-persist ref EvidenceProcessingState.terminal_failure = refl
current_state-persist ref EvidenceProcessingState.expired = refl

-- Every rule leads to the target of its event.
rules-target : All (λ r. event_target r.event ≡ some r.to_state) evidence_rules
unfolding event_target
rules-target = (
  refl,
  (
    refl,
    (refl, (refl, (refl, (refl, (refl, (refl, (refl, (refl, (refl, (refl, (refl, tt))))))))))),
  ),
)

unless_finalized-inv :
    (b : Bool) (r : Result TemporalError EvidenceProcessingState) {t : EvidenceProcessingState}
    → (if b then err finalized_mutation else typed invalid_evidence_transition r) ≡ ok t
    → r ≡ ok t
unless_finalized-inv b r h = ground arith

transition-find :
    (m : Fsm EvidenceProcessingState EvidenceEvent) (s : EvidenceProcessingState)
    (e : EvidenceEvent) {t : EvidenceProcessingState}
    → transition m s e ≡ ok t
    → find m.table s e ≡ some t
unfolding transition
transition-find m s e h = raise_if_none-inv (find m.table s e) h

next_state-find :
    (s : EvidenceProcessingState) (e : EvidenceEvent) {t : EvidenceProcessingState}
    → next_state s e ≡ ok t
    → find evidence_rules s e ≡ some t
unfolding next_state
next_state-find s e h =
    transition-find evidence_fsm s e
      (unless_finalized-inv (s is finalized) (transition evidence_fsm s e) h)

next_state-target :
    (s : EvidenceProcessingState) (e : EvidenceEvent) {t : EvidenceProcessingState}
    → next_state s e ≡ ok t
    → event_target e ≡ some t
next_state-target s e h =
    let (r, aim, from, same, to) =
      find-All {P = λ r. event_target r.event ≡ some r.to_state} evidence_rules s e rules-target
        (next_state-find s e h) in
    ap event_target (sym same) ∙ aim ∙ ap some to

-- No rule leads back to its own state.
rules-move : All (λ r. (r.to_state is r.from_state) ≡ false) evidence_rules
rules-move = (
  refl,
  (
    refl,
    (refl, (refl, (refl, (refl, (refl, (refl, (refl, (refl, (refl, (refl, (refl, tt))))))))))),
  ),
)

next_state-moves :
    (s : EvidenceProcessingState) (e : EvidenceEvent) {t : EvidenceProcessingState}
    → next_state s e ≡ ok t
    → (t is s) ≡ false
next_state-moves s e {t} h =
    let (r, moves, from, same, to) =
      find-All {P = λ r. (r.to_state is r.from_state) ≡ false} evidence_rules s e rules-move
        (next_state-find s e h) in
    rw (sym from, sym to) moves

-- No event leaves a terminal state.
next_state-terminal :
    (s : EvidenceProcessingState) (e : EvidenceEvent)
    → is_terminal s ≡ true
    → is_ok (next_state s e) ≡ false
unfolding next_state is_terminal transition find
next_state-terminal s e h = ground arith

advance-persisted :
    (ref : EvidenceRef) (s : EvidenceProcessingState) (event : EvidenceEvent) {after : EvidenceRef}
    {result : EvidenceTransitionResult}
    → current_state ref ≡ ok s
    → advance ref s event ≡ ok (after, result)
    → (result.from_state ≡ s)
      × (current_state after ≡ ok result.to_state)
      × (after.ref_id ≡ ref.ref_id)
      × (after.metadata.others ≡ ref.metadata.others)
      × (if result.applied
          then next_state result.from_state event ≡ ok result.to_state
          else after ≡ ref)
unfolding persist
advance-persisted ref s event at h = elim (Bool-cases (is_duplicate s event)) [
  | inl again ↦ ground arith
  | inr fresh ↦ elim (Result-cases (next_state s event)) [
    | inl (t, legal) ↦ ground (arith, current_state-persist ref t)
    | inr (x, refused) ↦ ground arith
  ]
]

module _ (ref : EvidenceRef) (event : EvidenceEvent) (expected : Option EvidenceProcessingState)
    (key : Option (List ℕ)) {after : EvidenceRef} {result : EvidenceTransitionResult} where
  -- A successful call started from the persisted state.
  apply-advance :
      apply ref event expected key ≡ ok (after, result)
      → (s : EvidenceProcessingState) × (current_state ref ≡ ok s)
        × (advance ref s event ≡ ok (after, result))
  unfolding apply
  apply-advance h = elim (Result-cases (current_state ref)) [
    | inl (s, at) ↦ (s, at, ground arith)
    | inr (x, lost) ↦ ground arith
  ]

  -- What a successful call reports is what is persisted, before and after it, and the reference's id
  -- and its other metadata stay; a call that reports no transition leaves the reference as it is, and
  -- one that does takes a legal transition of the machine.
  pub apply-persisted :
      apply ref event expected key ≡ ok (after, result)
      → (current_state ref ≡ ok result.from_state)
        × (current_state after ≡ ok result.to_state)
        × (after.ref_id ≡ ref.ref_id)
        × (after.metadata.others ≡ ref.metadata.others)
        × (if result.applied
            then next_state result.from_state event ≡ ok result.to_state
            else after ≡ ref)
  apply-persisted h =
      let (s, at, moved) = apply-advance h in
      let (from, to, id, others, step) = advance-persisted ref s event at moved in
      (ground arith, to, id, others, step)

advance-terminal :
    (ref : EvidenceRef) (s : EvidenceProcessingState) (event : EvidenceEvent)
    → is_terminal s ≡ true
    → is_ok (advance ref s event) ≡ false
unfolding is_duplicate
advance-terminal ref s event end = ground (arith, next_state-terminal s event end)

is_duplicate-target :
    (s : EvidenceProcessingState) (event : EvidenceEvent)
    → is_terminal s ≡ false
    → event_target event ≡ some s
    → is_duplicate s event ≡ true
unfolding is_duplicate
is_duplicate-target s event live aim = rw (live, aim) ((is_iff s s).1 refl)

advance-again :
    (ref : EvidenceRef) (s : EvidenceProcessingState) (event : EvidenceEvent) {after : EvidenceRef}
    {result : EvidenceTransitionResult}
    → advance ref s event ≡ ok (after, result)
    → is_terminal result.to_state ≡ false
    → is_duplicate result.to_state event ≡ true
advance-again ref s event h live = elim (Bool-cases (is_duplicate s event)) [
  | inl again ↦ ground arith
  | inr fresh ↦ elim (Result-cases (next_state s event)) [
    | inl (t, legal) ↦ ground (arith, is_duplicate-target t event, next_state-target s event legal)
    | inr (x, refused) ↦ ground arith
  ]
]

-- No event is accepted for evidence in a terminal state, whatever the caller expects.
pub apply-terminal :
    (ref : EvidenceRef) (s : EvidenceProcessingState)
    → current_state ref ≡ ok s
    → is_terminal s ≡ true
    → (event : EvidenceEvent) (expected : Option EvidenceProcessingState) (key : Option (List ℕ))
    → is_ok (apply ref event expected key) ≡ false
unfolding apply
apply-terminal ref s at end event expected key = ground (arith, advance-terminal ref s event end)

module _ (ref : EvidenceRef) (event : EvidenceEvent) (expected : Option EvidenceProcessingState)
    (key : Option (List ℕ)) {after : EvidenceRef} {result : EvidenceTransitionResult} where
  -- An event that was accepted, and did not end the processing, is accepted again without a
  -- transition when it is delivered again.
  pub apply-again :
      apply ref event expected key ≡ ok (after, result)
      → is_terminal result.to_state ≡ false
      → apply after event none key
        ≡ ok (
          after,
          record { from_state = result.to_state; to_state = result.to_state; applied = false },
        )
  unfolding apply
  apply-again h live =
      let (s, at, moved) = apply-advance ref event expected key h in
      let (_, to, _, _, _) = apply-persisted ref event expected key h in
      let again = advance-again ref s event moved live in ground arith

module _ (ref : EvidenceRef) (event : EvidenceEvent) (key : Option (List ℕ)) {after : EvidenceRef}
    {result : EvidenceTransitionResult} where
  -- The guard of a successful call held.
  apply-guard :
      (seen : EvidenceProcessingState)
      → apply ref event (some seen) key ≡ ok (after, result)
      → result.from_state ≡ seen
  unfolding apply
  apply-guard seen h =
      let (at, _, _, _, _) = apply-persisted ref event (some seen) key h in
      (is_iff result.from_state seen).0 (ground arith)

  -- Of two workers that saw the same state, one that moves the evidence makes the other fail, with
  -- whatever event it comes, where it gives no idempotency key.
  pub apply-race :
      (seen : EvidenceProcessingState)
      → apply ref event (some seen) key ≡ ok (after, result)
      → result.applied ≡ true
      → (other : EvidenceEvent) → apply after other (some seen) none ≡ err state_mismatch
  unfolding apply
  apply-race seen h moved other =
      let (_, to, _, _, step) = apply-persisted ref event (some seen) key h in
      let guarded = apply-guard seen h in
      let left =
        next_state-moves result.from_state event {t = result.to_state} (rw moved at step) in
      rw to (ground arith)
