-- ===== src/Tests/Fixtures.antt =====
-- A policy, a track and its observations for the tests of the temporal engines.
use hotelops_ai.Prelude.{ℕ, true, Option, none, some, List, [], Result, ok, err, arith}
use hotelops_ai.Temporal.Model.{
  DateTime, TemporalOcclusionState, TemporalStateKey, TemporalPolicy, IsPolicy, Kind, Part,
  TemporalState, spatial, SpatialStatus, temporal_engine_version,
}
use hotelops_ai.Temporal.Engine.{Engine, TemporalInput, Position}
use hotelops_ai.Temporal.Presence.{Presence, PresenceEvent, present, presence_name, presence_engine}

abbrev pub or_value {ℓ κ} : {E : Type ℓ} {A : Type κ} → A → Result E A → A
or_value d (ok a) = a
or_value d (err e) = d

abbrev pub hash : List Part → ℕ
hash parts = 0

abbrev pub policy : TemporalPolicy
policy = record {
  revision = "r1";
  reorder_window = 5;
  entry_confirmation = 2;
  exit_confirmation = 1;
  minimum_dwell = 0;
  exit_grace = 3;
  occlusion_tolerance = 8;
  dwell_minimum = 5;
  transition_history_limit = 2;
}

pub policy-IsPolicy : IsPolicy policy
policy-IsPolicy = record { entry_positive = omega arith; exit_positive = omega arith }

abbrev pub key : TemporalStateKey
key = record {
  fsm_kind = "presence";
  tenant_id = 1;
  venue_id = 2;
  session_id = 3;
  camera_id = 4;
  configuration_version_id = 5;
  track_id = 6;
  semantic_context = none;
}

abbrev pub aware_at : ℕ → DateTime
aware_at t = record { instant = t; aware = true }

-- An input of a kind, at an instant that is its frame too.
abbrev pub input : Kind → ℕ → TemporalInput
input k t = record {
  key = key;
  observation = spatial (record {
    session_id = 3;
    track_id = 6;
    camera_id = 4;
    configuration_version_id = 5;
    frame_id = t;
    event_time = aware_at t;
    status = SpatialStatus.inside;
  });
  observation_kind = k;
  processing_time = aware_at 100;
}

abbrev pub state_at : Presence → ℕ → Option Position → TemporalState Presence
state_at s count w = record {
  fsm_version = temporal_engine_version;
  key = key;
  current_state = s;
  state_since = none;
  last_seen = none;
  last_present_seen = none;
  watermark = w;
  entry_confirm_count = count;
  exit_confirm_count = 0;
  occlusion_state = TemporalOcclusionState.not_observed;
  missing_since = none;
  recent_transitions = [];
}

abbrev pub here_at : ℕ → TemporalState Presence
here_at t = state_at present 0 (some (t, t))

abbrev pub engine : Engine Presence PresenceEvent
engine = presence_engine policy hash
