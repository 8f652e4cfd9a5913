-- ===== src/Tests/Engine.antt =====
-- Tests of the machine and of what all engines share, with the presence engine.
use hotelops_ai.Prelude.{◌≡◌, refl, false, none, [], ok}
use hotelops_ai.Temporal.Model.{
  TemporalOcclusionState, TemporalState, TemporalReason, TemporalStateKey, Kind,
  temporal_engine_version,
}
use hotelops_ai.Temporal.Fsm.{construct, insert_rules, find}
use hotelops_ai.Temporal.Engine.{
  TemporalResult, Engine, validate, apply, order, apply_in_order, build_transition,
  key_matches_observation,
}
use hotelops_ai.Temporal.Engine.Isolation.{with_key}
use hotelops_ai.Temporal.Tracks.{apply-with_key}
use hotelops_ai.Temporal.Dwell.{Dwell, idle, dwell_name, dwell_engine}
use hotelops_ai.Temporal.Presence.{
  Presence, PresenceEvent, absent, presence_name, event_name, presence_engine, presence_fsm,
  presence_rules, presence_states, evaluate,
}
use hotelops_ai.Tests.Fixtures.{or_value, hash, policy, key, input, here_at}

abbrev engine : Engine Presence PresenceEvent
engine = presence_engine policy hash

abbrev blank : TemporalResult Presence
blank = record {
  state = here_at 10;
  transition =
      build_transition engine (input Kind.present 10) absent absent TemporalReason.observed_stay;
  deduplicated = false;
  dwell_intervals = [];
}

abbrev stayed : TemporalResult Presence
stayed = or_value blank (apply engine (here_at 10) (input Kind.present 20))

stayed-accepted : apply engine (here_at 10) (input Kind.present 20) ≡ ok stayed
unfolding apply validate order apply_in_order key_matches_observation evaluate
stayed-accepted = refl

abbrev unlimited : Engine Presence PresenceEvent
unlimited = presence_engine (record policy { transition_history_limit = 0 }) hash

abbrev grown : TemporalResult Presence
grown = or_value blank (apply_in_order unlimited (here_at 10) (input Kind.present 20))

grown-accepted : apply_in_order unlimited (here_at 10) (input Kind.present 20) ≡ ok grown
unfolding apply_in_order evaluate
grown-accepted = refl

-- The key of another track.
abbrev other_track : TemporalStateKey
other_track = record key { track_id = 7 }

abbrev idle_at : TemporalState Dwell
idle_at = record {
  fsm_version = temporal_engine_version;
  key = record key { fsm_kind = "dwell" };
  current_state = idle;
  state_since = none;
  last_seen = none;
  last_present_seen = none;
  watermark = none;
  entry_confirm_count = 0;
  exit_confirm_count = 0;
  occlusion_state = TemporalOcclusionState.not_observed;
  missing_since = none;
  recent_transitions = [];
}

apply-with_key_example :
    (apply engine (record (here_at 10) { key = other_track }) (input Kind.present 20)
      ≡ with_key other_track (apply engine (here_at 10) (input Kind.present 20)))
    × (apply
          (dwell_engine policy hash)
          (record idle_at { key = idle_at.key })
          (input Kind.present 20)
        ≡ with_key idle_at.key (apply (dwell_engine policy hash) idle_at (input Kind.present 20)))
apply-with_key_example =
    apply-with_key policy hash (here_at 10) idle_at (input Kind.present 20) other_track idle_at.key
      refl refl

built :
    construct "presence" temporal_engine_version presence_states absent presence_rules
    ≡ ok presence_fsm
unfolding construct insert_rules find
built = refl
