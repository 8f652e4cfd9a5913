-- ===== src/Temporal/Model.antt =====
-- The canonical temporal contracts of contracts/temporal/models.py, and what the engines read of
-- the observations of contracts/spatial/models.py. An identifier (a UUID) is a number. A time that
-- a contract validated as UTC is an instant, in microseconds; a duration of the policy is in
-- microseconds too.
use hotelops_ai.Prelude.{ℕ, ◌≤◌, ◌≡◌, Bool, Option, List, String, Name, arith}

abbrev pub Instant : Type 0
Instant = ℕ

-- A `datetime` that may be naive: its clock reading, and whether it carries a time zone.
pub record DateTime : Type 0 where
  pub instant : Instant
  pub aware : Bool

-- A value of an optional field, as the source's `None` or a value.
pub data TemporalReason : Type 0 where
  observed_stay enter_confirmed exit_confirmed missing_expired deduplicated : TemporalReason
  reordered session_closed movement_exceeded : TemporalReason

pub data TemporalOcclusionState : Type 0 where
  observed temporarily_missing not_observed : TemporalOcclusionState

pub record TemporalStateKey : Type 0 where
  pub fsm_kind : String
  pub tenant_id : ℕ
  pub venue_id : ℕ
  pub session_id : ℕ
  pub camera_id : ℕ
  pub configuration_version_id : ℕ
  pub track_id : ℕ
  pub semantic_context : Option String

-- The fields that the presence, dwell and occupancy engines read; durations in microseconds.
pub record TemporalPolicy : Type 0 where
  pub revision : String
  pub reorder_window : ℕ
  pub entry_confirmation : ℕ
  pub exit_confirmation : ℕ
  pub minimum_dwell : ℕ
  pub exit_grace : ℕ
  pub occlusion_tolerance : ℕ
  pub dwell_minimum : ℕ
  pub transition_history_limit : ℕ

-- The `ge=1` constraints of the fields that no number enforces by itself.
pub record IsPolicy (p : TemporalPolicy) : Type 0 where
  pub entry_positive : 1 ≤ p.entry_confirmation
  pub exit_positive : 1 ≤ p.exit_confirmation

-- The strings that classify observations, of all the modelled families.
pub data Kind : Type 0 where
  present absent not_observed session_closed enter_confirmed exit_confirmed missing_expired stay :
      Kind

abbrev kind_code : Kind → ℕ
kind_code present = 0
kind_code absent = 1
kind_code not_observed = 2
kind_code session_closed = 3
kind_code enter_confirmed = 4
kind_code exit_confirmed = 5
kind_code missing_expired = 6
kind_code stay = 7

pub kind_code_injective : (a b : Kind) → kind_code a ≡ kind_code b → a ≡ b
kind_code_injective a b h = ground arith

instance abbrev pub kind_name : Name Kind
kind_name = record { code = kind_code; code_injective = kind_code_injective }

-- What `uuid5` hashes: the parts that the source joins into one canonical text.
pub data Part : Type 0 where
  text : String → Part
  number : ℕ → Part
  instant : Instant → Part
  kind : Kind → Part
  reason : TemporalReason → Part
  state : ℕ → Part
  missing : Part

pub record TemporalTransition (S : Type 0) : Type 0 where
  pub transition_id : ℕ
  pub fsm_kind : String
  pub key : TemporalStateKey
  pub from_state : S
  pub to_state : S
  pub event_kind : Kind
  pub reason : TemporalReason
  pub observation_frame_id : ℕ
  pub event_time : Instant
  pub processing_time : Instant
  pub configuration_version_id : ℕ
  pub fsm_version : String

-- The watermark is the pair of `watermark_event_time` and `last_applied_frame_id`, which the
-- engine sets together.
pub record TemporalState (S : Type 0) : Type 0 where
  pub fsm_version : String
  pub key : TemporalStateKey
  pub current_state : S
  pub state_since : Option Instant
  pub last_seen : Option Instant
  pub last_present_seen : Option Instant
  pub watermark : Option (Instant × ℕ)
  pub entry_confirm_count : ℕ
  pub exit_confirm_count : ℕ
  pub occlusion_state : TemporalOcclusionState
  pub missing_since : Option Instant
  pub recent_transitions : List (TemporalTransition S)

pub record TemporalCheckpoint (S : Type 0) : Type 0 where
  pub engine_version : String
  pub policy_revision : String
  pub state : TemporalState S

abbrev pub temporal_engine_version : String
temporal_engine_version = "0.2.0"

pub data SpatialStatus : Type 0 where
  inside outside excluded privacy ambiguous : SpatialStatus

pub record SpatialObservation : Type 0 where
  pub session_id : ℕ
  pub track_id : ℕ
  pub camera_id : ℕ
  pub configuration_version_id : ℕ
  pub frame_id : ℕ
  pub event_time : DateTime
  pub status : SpatialStatus

pub record LineCrossingObservation : Type 0 where
  pub session_id : ℕ
  pub track_id : ℕ
  pub camera_id : ℕ
  pub configuration_version_id : ℕ
  pub current_frame_id : ℕ
  pub current_event_time : DateTime

pub data Observation : Type 0 where
  spatial : SpatialObservation → Observation
  line_crossing : LineCrossingObservation → Observation

pub record DwellInterval : Type 0 where
  pub interval_id : ℕ
  pub fsm_kind : String
  pub key : TemporalStateKey
  pub dwell_start : Instant
  pub dwell_end : Option Instant
  pub last_seen : Instant
  pub duration : ℕ
  pub qualified : Bool
  pub minimum_dwell : ℕ
  pub reason : Option TemporalReason
  pub fsm_version : String
  pub policy_revision : String
