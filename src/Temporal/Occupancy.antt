-- ===== src/Temporal/Occupancy.antt =====
-- `OccupancyEngine` of backend/app/intelligence/temporal/occupancy.py, with the state and the
-- snapshot of contracts/temporal/models.py: how many tracks are confirmed present in a scope. A
-- transition of the presence engine has an aware `event_time` by its contract.
pub mod Counting
pub mod Delivery
use text.Mathlib.Text.{◌==◌ as str_eq}
use hotelops_ai.Prelude.{
  ℕ, ◌+◌, ◌-◌, ◌≡◌, Bool, true, false, not, ◌&&◌, ◌||◌, Option, none, some, List, [], ◌∷◌, ◌++◌,
  String, Name, ltb, leb, ◌==◌, length, is_some, contains, if◌then◌else◌, ok, err, ◌>>=◌, ◌>>◌,
  ensure, arith,
}
use hotelops_ai.Prelude.Sets.{member, add, discard, set_eq}
use hotelops_ai.Prelude.Dict
use hotelops_ai.Prelude.Int.{ℤ, sub_ℕ}
use hotelops_ai.Temporal.Errors.{
  Checked, invalid_temporal_input, late_event, state_key_mismatch, fsm_version_mismatch,
  checkpoint_integrity,
}
use hotelops_ai.Temporal.Fsm.{FsmRule, Fsm, transition}
use hotelops_ai.Temporal.Model.{
  Instant, DateTime, TemporalReason, TemporalStateKey, TemporalPolicy, Kind, kind_name, Part,
  TemporalTransition, temporal_engine_version,
}
use hotelops_ai.Temporal.Engine.{Position, position_eq, position_lt, canonical}
use hotelops_ai.Temporal.Presence.{Presence, rule}
use hotelops_ai.Temporal.Dwell.{kind_of_reason}

pub data Occupancy : Type 0 where
  idle occupied : Occupancy

abbrev occupancy_code : Occupancy → ℕ
occupancy_code idle = 0
occupancy_code occupied = 1

pub occupancy_code_injective : (a b : Occupancy) → occupancy_code a ≡ occupancy_code b → a ≡ b
occupancy_code_injective a b h = ground arith

instance abbrev pub occupancy_name : Name Occupancy
occupancy_name = record { code = occupancy_code; code_injective = occupancy_code_injective }

abbrev pub occupancy_rules : List (FsmRule Occupancy Kind)
occupancy_rules =
    rule idle Kind.enter_confirmed occupied
    ∷ rule occupied Kind.exit_confirmed idle
    ∷ rule occupied Kind.missing_expired idle
    ∷ rule occupied Kind.session_closed idle
    ∷ rule idle Kind.session_closed idle
    ∷ rule idle Kind.stay idle
    ∷ rule occupied Kind.stay occupied
    ∷ []

abbrev pub occupancy_fsm : Fsm Occupancy Kind
occupancy_fsm = record {
  name = "occupancy";
  version = temporal_engine_version;
  states = idle ∷ occupied ∷ [];
  initial_state = idle;
  table = occupancy_rules;
}

abbrev occupancy_kinds : List Kind
occupancy_kinds =
    Kind.enter_confirmed ∷ Kind.exit_confirmed ∷ Kind.missing_expired ∷ Kind.stay
    ∷ Kind.session_closed ∷ []

-- `occupancy_event_from_presence`; it maps the reasons as the dwell engine does.
unfoldable pub occupancy_event_from_presence : TemporalTransition Presence → Kind
occupancy_event_from_presence t = kind_of_reason t.reason

pub record OccupancyState : Type 0 where
  pub fsm_version : String
  pub key : TemporalStateKey
  pub occupied_tracks : List ℕ
  pub entity_positions : List (ℕ × Position)
  pub watermark : Option Position

abbrev pub occupancy_count : OccupancyState → ℕ
occupancy_count s = length s.occupied_tracks

pub record OccupancySnapshot : Type 0 where
  pub snapshot_id : ℕ
  pub fsm_kind : String
  pub key : TemporalStateKey
  pub event_time : Instant
  pub previous_count : ℕ
  pub delta : ℤ
  pub occupancy_count : ℕ
  pub occupied_tracks : List ℕ
  pub source_transition_id : ℕ
  pub fsm_version : String
  pub policy_revision : String

pub record OccupancyInput : Type 0 where
  pub key : TemporalStateKey
  pub transition : TemporalTransition Presence
  pub observation_kind : Kind
  pub processing_time : DateTime

pub record OccupancyResult : Type 0 where
  pub state : OccupancyState
  pub snapshot : Option OccupancySnapshot
  pub deduplicated : Bool
  pub reordered : Bool

pub record OccupancyCheckpoint : Type 0 where
  pub engine_version : String
  pub policy_revision : String
  pub state : OccupancyState

-- `sorted`, for the tracks of a snapshot.
abbrev insert_sorted : ℕ → List ℕ → List ℕ
insert_sorted a [] = a ∷ []
insert_sorted a (x ∷ xs) = let rest = insert_sorted a xs in if leb a x then a ∷ x ∷ xs else x ∷ rest

unfoldable pub sorted : List ℕ → List ℕ
sorted [] = []
sorted (x ∷ xs) = insert_sorted x (sorted xs)

abbrev pub same_context : Option String → Option String → Bool
same_context none none = true
same_context (some a) (some b) = str_eq a b
same_context _ _ = false

-- `_check_scope_matches_transition`, as the test that it raises on.
unfoldable pub scope_matches : TemporalStateKey → TemporalStateKey → Bool
scope_matches a b =
    a.tenant_id == b.tenant_id
    && a.venue_id == b.venue_id
    && a.session_id == b.session_id
    && a.camera_id == b.camera_id
    && a.configuration_version_id == b.configuration_version_id
    && same_context a.semantic_context b.semantic_context

-- `key == key` of two keys.
unfoldable pub key_eq : TemporalStateKey → TemporalStateKey → Bool
unfolding scope_matches
key_eq a b = str_eq a.fsm_kind b.fsm_kind && a.track_id == b.track_id && scope_matches a b

-- The events that the input of the occupancy machine is checked against: a kind that equals the
-- kind of the transition's reason.
abbrev pub kind_matches : Kind → Kind → Bool
kind_matches a b = kind_name.code a == kind_name.code b

-- The engine: the sentinel track, the policy and the hash are its parameters.
module _ (scope_track : ℕ) (p : TemporalPolicy) (uuid5 : List Part → ℕ) where
  unfoldable pub occupancy_scope_key : TemporalStateKey → TemporalStateKey
  occupancy_scope_key k = record k { fsm_kind = "occupancy"; track_id = scope_track }

  unfoldable pub initial_state : TemporalStateKey → Checked OccupancyState
  initial_state key =
      ensure (str_eq key.fsm_kind "occupancy") invalid_temporal_input
      >> ensure (key.track_id == scope_track) invalid_temporal_input
      >> ok (record {
        fsm_version = occupancy_fsm.version;
        key = key;
        occupied_tracks = [];
        entity_positions = [];
        watermark = none;
      })

  -- `_validate`; what `isinstance` tests there holds by the types.
  unfoldable pub validate : OccupancyState → OccupancyInput → Checked Unit
  validate s inp =
      ensure (key_eq s.key inp.key) invalid_temporal_input
      >> ensure (str_eq inp.key.fsm_kind "occupancy") invalid_temporal_input
      >> ensure (inp.key.track_id == scope_track) invalid_temporal_input
      >> ensure (str_eq s.fsm_version occupancy_fsm.version) fsm_version_mismatch
      >> ensure (str_eq inp.transition.key.fsm_kind "presence") invalid_temporal_input
      >> ensure (contains occupancy_kinds inp.observation_kind) invalid_temporal_input
      >> ensure (kind_matches (occupancy_event_from_presence inp.transition) inp.observation_kind)
          invalid_temporal_input
      >> ensure inp.processing_time.aware invalid_temporal_input
      >> ensure (scope_matches inp.key inp.transition.key) state_key_mismatch

  unfoldable pub build_snapshot :
      OccupancyState → ℕ → Instant → TemporalTransition Presence → OccupancySnapshot
  build_snapshot s previous_count event_time source = record {
    snapshot_id = uuid5 (
        canonical s.key
        ++ Part.instant event_time
          ∷ Part.number (occupancy_count s)
          ∷ Part.number source.transition_id
          ∷ Part.text occupancy_fsm.version
          ∷ Part.text p.revision
          ∷ []);
    fsm_kind = occupancy_fsm.name;
    key = s.key;
    event_time = event_time;
    previous_count = previous_count;
    delta = sub_ℕ (occupancy_count s) previous_count;
    occupancy_count = occupancy_count s;
    occupied_tracks = sorted s.occupied_tracks;
    source_transition_id = source.transition_id;
    fsm_version = occupancy_fsm.version;
    policy_revision = p.revision;
  }

  abbrev pub position_of : TemporalTransition Presence → Position
  position_of t = (t.event_time, t.observation_frame_id)

  -- The test of the idempotency check: the track's last applied position is this one.
  unfoldable pub is_duplicate : OccupancyState → TemporalTransition Presence → Bool
  is_duplicate s t = elim (Dict.get s.entity_positions t.key.track_id) [
    | none ↦ false
    | some last ↦ position_eq (position_of t) last
  ]

  unfoldable pub is_behind : OccupancyState → TemporalTransition Presence → Bool
  is_behind s t = elim s.watermark [ none ↦ false | some w ↦ position_lt (position_of t) w ]

  -- `delta <= reorder_window_seconds`, where there is a watermark.
  unfoldable pub is_near : OccupancyState → TemporalTransition Presence → Bool
  is_near s t = elim s.watermark [
    | none ↦ true
    | some w ↦ leb (w.0 - t.event_time) p.reorder_window
  ]

  abbrev pub entity_state : OccupancyState → ℕ → Occupancy
  entity_state s track = if member s.occupied_tracks track then occupied else idle

  -- The set after the entity's own transition.
  abbrev pub next_tracks : Occupancy → ℕ → List ℕ → List ℕ
  next_tracks occupied track tracks = add track tracks
  next_tracks idle track tracks = if member tracks track then discard track tracks else tracks

  -- `position if watermark[0] is None or position > watermark else watermark`
  abbrev pub new_watermark : Option Position → Position → Position
  new_watermark none q = q
  new_watermark (some w) q = if position_lt w q then q else w

  -- The in-order part of `apply`.
  unfoldable pub apply_in_order : OccupancyState → OccupancyInput → Checked OccupancyResult
  unfolding transition
  apply_in_order s inp = do
    let t = inp.transition
    next ← transition occupancy_fsm (entity_state s t.key.track_id) inp.observation_kind
    let tracks = next_tracks next t.key.track_id s.occupied_tracks
    let updated = record s {
      occupied_tracks = tracks;
      entity_positions = Dict.put t.key.track_id (position_of t) s.entity_positions;
      watermark = some (new_watermark s.watermark (position_of t));
    }
    ok (record {
      state = updated;
      snapshot =
          if set_eq tracks s.occupied_tracks
          then none
          else some (build_snapshot updated (occupancy_count s) t.event_time t);
      deduplicated = false;
      reordered = false;
    })

  abbrev pub unchanged : OccupancyState → Bool → Bool → OccupancyResult
  unchanged s deduplicated reordered = record {
    state = s;
    snapshot = none;
    deduplicated = deduplicated;
    reordered = reordered;
  }

  -- `apply` behind the validation.
  unfoldable pub order : OccupancyState → OccupancyInput → Checked OccupancyResult
  order s inp =
      if is_duplicate s inp.transition
      then ok (unchanged s true false)
      else if is_behind s inp.transition
      then (if is_near s inp.transition then ok (unchanged s false true) else err late_event)
      else apply_in_order s inp

  unfoldable pub apply : OccupancyState → OccupancyInput → Checked OccupancyResult
  apply s inp = validate s inp >> order s inp

  unfoldable pub checkpoint : OccupancyState → OccupancyCheckpoint
  checkpoint s = record {
    engine_version = temporal_engine_version;
    policy_revision = p.revision;
    state = s;
  }

  unfoldable pub restore : OccupancyCheckpoint → Checked OccupancyState
  restore c =
      ensure (str_eq c.engine_version temporal_engine_version) fsm_version_mismatch
      >> ensure (str_eq c.policy_revision p.revision) checkpoint_integrity
      >> ensure (str_eq c.state.fsm_version occupancy_fsm.version) fsm_version_mismatch
      >> ensure (str_eq c.state.key.fsm_kind "occupancy") invalid_temporal_input
      >> ensure (c.state.key.track_id == scope_track) invalid_temporal_input
      >> ok c.state
