-- ===== src/Temporal/Engine.antt =====
-- `TemporalEngine` of backend/app/intelligence/temporal/engine.py: validation, event-time ordering,
-- deduplication, late events, history and checkpoints. A family of engines gives its state machine,
-- the observation kinds that it knows, and `_evaluate`. The hash `uuid5` is a parameter.
pub mod Ordering
pub mod History
pub mod Outcome
pub mod Isolation
pub mod Checkpoints
use hotelops_ai.Prelude.{
  ℕ, ◌+◌, ◌-◌, ◌≡◌, Bool, true, false, not, ◌&&◌, ◌||◌, Option, none, some, List, [], ◌∷◌, ◌++◌,
  String, Name, ◌is◌, ltb, leb, ◌==◌, contains, length, last_entries, or_else, if◌then◌else◌,
  Result, ok, err, ◌>>=◌, ◌>>◌, ensure, reject,
}
use text.Mathlib.Text.{◌==◌ as str_eq}
use hotelops_ai.Temporal.Errors.{
  TemporalError, Checked, invalid_temporal_input, late_event, state_key_mismatch,
  fsm_version_mismatch, checkpoint_integrity,
}
use hotelops_ai.Temporal.Fsm.{Fsm}
use hotelops_ai.Temporal.Model.{
  Instant, DateTime, TemporalReason, TemporalOcclusionState, TemporalStateKey, TemporalPolicy, Kind,
  kind_name, Part, TemporalTransition, TemporalState, TemporalCheckpoint, temporal_engine_version,
  Observation, spatial, line_crossing, DwellInterval,
}

-- The outcome of `_evaluate`.
pub record Evaluation (S : Type 0) : Type 0 where
  pub state : S
  pub reason : TemporalReason
  pub present_seen : Bool
  pub state_since : Option Instant
  pub entry_confirm_count : ℕ
  pub exit_confirm_count : ℕ
  pub occlusion_state : TemporalOcclusionState
  pub missing_since : Option Instant

-- An evaluation with the defaults of the other fields.
abbrev pub evaluation : {S : Type 0} → S → TemporalReason → Evaluation S
evaluation s r = record {
  state = s;
  reason = r;
  present_seen = false;
  state_since = none;
  entry_confirm_count = 0;
  exit_confirm_count = 0;
  occlusion_state = TemporalOcclusionState.not_observed;
  missing_since = none;
}

pub record TemporalInput : Type 0 where
  pub key : TemporalStateKey
  pub observation : Observation
  pub observation_kind : Kind
  pub processing_time : DateTime

-- The tuple of transitions always holds one.
pub record TemporalResult (S : Type 0) : Type 0 where
  pub state : TemporalState S
  pub transition : TemporalTransition S
  pub deduplicated : Bool
  pub dwell_intervals : List DwellInterval

pub record Engine (S E : Type 0) : Type 0 where
  pub fsm : Fsm S E
  pub policy : TemporalPolicy
  pub observation_kinds : List Kind
  pub uuid5 : List Part → ℕ
  pub evaluate : TemporalState S → Kind → Instant → Checked (Evaluation S)

-- `_observation_position`
abbrev pub observed_at : Observation → DateTime
observed_at (spatial o) = o.event_time
observed_at (line_crossing o) = o.current_event_time

abbrev pub frame_of : Observation → ℕ
frame_of (spatial o) = o.frame_id
frame_of (line_crossing o) = o.current_frame_id

abbrev pub Position : Type 0
Position = Instant × ℕ

abbrev pub observation_position : Observation → Position
observation_position o = ((observed_at o).instant, frame_of o)

-- The comparisons of two such tuples.
abbrev pub position_eq : Position → Position → Bool
position_eq p q = p.0 == q.0 && p.1 == q.1

abbrev pub position_lt : Position → Position → Bool
position_lt p q = ltb p.0 q.0 || p.0 == q.0 && ltb p.1 q.1

-- `_check_key_matches_observation`, as the test that it raises on.
unfoldable pub key_matches_observation : TemporalStateKey → Observation → Bool
key_matches_observation k (spatial o) =
    k.session_id == o.session_id
    && k.track_id == o.track_id
    && k.camera_id == o.camera_id
    && k.configuration_version_id == o.configuration_version_id
key_matches_observation k (line_crossing o) =
    k.session_id == o.session_id
    && k.track_id == o.track_id
    && k.camera_id == o.camera_id
    && k.configuration_version_id == o.configuration_version_id

-- `if kinds and kind not in kinds`, the other way round.
abbrev pub knows : List Kind → Kind → Bool
knows [] k = true
knows (x ∷ xs) k = contains (x ∷ xs) k

-- `TemporalStateKey.canonical`, as the parts that it joins.
abbrev pub canonical : TemporalStateKey → List Part
canonical k =
    Part.text k.fsm_kind
    ∷ Part.number k.tenant_id
    ∷ Part.number k.venue_id
    ∷ Part.number k.session_id
    ∷ Part.number k.camera_id
    ∷ Part.number k.configuration_version_id
    ∷ Part.number k.track_id
    ∷ elim k.semantic_context [ none ↦ Part.missing | some c ↦ Part.text c ]
    ∷ []

-- The later of the recorded `last_seen` and an instant.
abbrev pub newer : Option Instant → Instant → Instant
newer none t = t
newer (some seen) t = if ltb t seen then seen else t

abbrev pub bounded_history {ℓ} : {A : Type ℓ} → ℕ → List A → List A
bounded_history limit history =
    if ltb 0 limit && ltb limit (length history) then last_entries limit history else history

module _ {S E : Type 0} where
  unfoldable pub initial_state : Engine S E → TemporalStateKey → TemporalState S
  initial_state e key = record {
    fsm_version = e.fsm.version;
    key = key;
    current_state = e.fsm.initial_state;
    state_since = none;
    last_seen = none;
    last_present_seen = none;
    watermark = none;
    entry_confirm_count = 0;
    exit_confirm_count = 0;
    occlusion_state = TemporalOcclusionState.not_observed;
    missing_since = none;
    recent_transitions = [];
  }

  -- `_validate`; what `isinstance` tests there holds by the types.
  unfoldable pub validate : Engine S E → TemporalState S → TemporalInput → Checked Unit
  validate e s inp =
      ensure (knows e.observation_kinds inp.observation_kind) invalid_temporal_input
      >> ensure (str_eq s.key.fsm_kind e.fsm.name) invalid_temporal_input
      >> ensure inp.processing_time.aware invalid_temporal_input
      >> ensure (observed_at inp.observation).aware invalid_temporal_input
      >> ensure (str_eq s.fsm_version e.fsm.version) fsm_version_mismatch
      >> ensure (key_matches_observation inp.key inp.observation) state_key_mismatch

module _ {S E : Type 0} ⦃names : Name S⦄ where
  -- `_build_transition`
  unfoldable pub build_transition :
      Engine S E → TemporalInput → S → S → TemporalReason → TemporalTransition S
  build_transition e inp from to why = record {
    transition_id = e.uuid5 (
        canonical inp.key
        ++ Part.number (frame_of inp.observation)
          ∷ Part.instant (observed_at inp.observation).instant
          ∷ Part.state (names.code from)
          ∷ Part.state (names.code to)
          ∷ Part.kind inp.observation_kind
          ∷ Part.reason why
          ∷ []);
    fsm_kind = inp.key.fsm_kind;
    key = inp.key;
    from_state = from;
    to_state = to;
    event_kind = inp.observation_kind;
    reason = why;
    observation_frame_id = frame_of inp.observation;
    event_time = (observed_at inp.observation).instant;
    processing_time = inp.processing_time.instant;
    configuration_version_id = inp.key.configuration_version_id;
    fsm_version = e.fsm.version;
  }

  -- The branch of `apply` for the position of the last applied observation.
  unfoldable pub apply_duplicate : Engine S E → TemporalState S → TemporalInput → TemporalResult S
  apply_duplicate e s inp = record {
    state = s;
    transition = build_transition e inp s.current_state s.current_state TemporalReason.deduplicated;
    deduplicated = true;
    dwell_intervals = [];
  }

  -- The result for a late observation within the reordering window.
  unfoldable pub accept_reordered : Engine S E → TemporalState S → TemporalInput → TemporalResult S
  accept_reordered e s inp = record {
    state = record s { last_seen = some (newer s.last_seen (observed_at inp.observation).instant) };
    transition = build_transition e inp s.current_state s.current_state TemporalReason.reordered;
    deduplicated = false;
    dwell_intervals = [];
  }

  -- `_apply_out_of_order`, for a position before the watermark `w`.
  unfoldable pub apply_out_of_order :
      Engine S E → TemporalState S → Position → TemporalInput → Checked (TemporalResult S)
  unfolding accept_reordered
  apply_out_of_order e s w inp =
      let event_time = (observed_at inp.observation).instant in
      if leb (w.0 - event_time) e.policy.reorder_window
      then ok (accept_reordered e s inp)
      else err late_event

  -- `_apply_evaluation`
  unfoldable pub apply_evaluation :
      Engine S E
      → TemporalState S
      → Evaluation S
      → TemporalTransition S
      → Position
      → TemporalState S
  apply_evaluation e s v transition p = record s {
    current_state = v.state;
    state_since = elim v.state_since [ none ↦ s.state_since | some t ↦ some t ];
    last_seen = some p.0;
    last_present_seen = if v.present_seen then some p.0 else s.last_present_seen;
    watermark = some p;
    entry_confirm_count = v.entry_confirm_count;
    exit_confirm_count = v.exit_confirm_count;
    occlusion_state = v.occlusion_state;
    missing_since = v.missing_since;
    recent_transitions =
        bounded_history e.policy.transition_history_limit (s.recent_transitions ++ transition ∷ []);
  }

  -- The rest of `apply`, for a position that is not behind the watermark.
  unfoldable pub apply_in_order :
      Engine S E → TemporalState S → TemporalInput → Checked (TemporalResult S)
  apply_in_order e s inp = do
    v ← e.evaluate s inp.observation_kind (observed_at inp.observation).instant
    let transition = build_transition e inp s.current_state v.state v.reason
    ok (record {
      state = apply_evaluation e s v transition (observation_position inp.observation);
      transition = transition;
      deduplicated = false;
      dwell_intervals = [];
    })

  -- The ordering branches of `apply`.
  unfoldable pub order : Engine S E → TemporalState S → TemporalInput → Checked (TemporalResult S)
  order e s inp = elim s.watermark [
    | none ↦ apply_in_order e s inp
    | some w ↦
        if position_eq (observation_position inp.observation) w
        then ok (apply_duplicate e s inp)
        else if position_lt (observation_position inp.observation) w
        then apply_out_of_order e s w inp
        else apply_in_order e s inp
  ]

  unfoldable pub apply : Engine S E → TemporalState S → TemporalInput → Checked (TemporalResult S)
  apply e s inp = validate e s inp >> order e s inp

module _ {S E : Type 0} where
  unfoldable pub checkpoint : Engine S E → TemporalState S → TemporalCheckpoint S
  checkpoint e s = record {
    engine_version = temporal_engine_version;
    policy_revision = e.policy.revision;
    state = s;
  }

  unfoldable pub restore : Engine S E → TemporalCheckpoint S → Checked (TemporalState S)
  restore e c =
      ensure (str_eq c.engine_version temporal_engine_version) fsm_version_mismatch
      >> ensure (str_eq c.policy_revision e.policy.revision) checkpoint_integrity
      >> ensure (str_eq c.state.fsm_version e.fsm.version) fsm_version_mismatch
      >> ensure (str_eq c.state.key.fsm_kind e.fsm.name) invalid_temporal_input
      >> ok c.state
