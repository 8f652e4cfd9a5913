-- ===== src/Tests/Occupancy.antt =====
-- Tests of the occupancy engine: a second track enters a scope that counts one.
use hotelops_ai.Prelude.{
  ◌≡◌, refl, true, false, some, [], ◌∷◌, ◌==◌, ok, if◌then◌else◌, ◌&&◌, arith,
}
use hotelops_ai.Prelude.Sets.{member, IsDistinct}
use hotelops_ai.Prelude.Dict
use hotelops_ai.Temporal.Model.{TemporalReason, TemporalStateKey, Kind, TemporalTransition}
use hotelops_ai.Temporal.Engine.{build_transition}
use hotelops_ai.Temporal.Presence.{Presence, entering, present, presence_name, presence_engine}
use hotelops_ai.Temporal.Occupancy.{
  OccupancyState, OccupancyInput, OccupancyResult, occupancy_count, validate, order, apply,
  apply_in_order, is_duplicate, is_behind, unchanged, scope_matches, key_eq,
  occupancy_event_from_presence,
}
use hotelops_ai.Temporal.Occupancy.Counting.{
  is_applied, Reports, counted_after, apply-member, apply-Reports,
}
use hotelops_ai.Temporal.Occupancy.Delivery.{IsPositioned}
use hotelops_ai.Tests.Fixtures.{or_value, hash, policy, key, input, aware_at}

abbrev pub scope : TemporalStateKey
scope = record key { fsm_kind = "occupancy"; track_id = 0 }

-- Track 9 is counted.
abbrev pub one_counted : OccupancyState
one_counted = record {
  fsm_version = "0.2.0";
  key = scope;
  occupied_tracks = 9 ∷ [];
  entity_positions = (9, (10, 10)) ∷ [];
  watermark = some (10, 10);
}

abbrev pub entry : TemporalTransition Presence
entry =
    build_transition (presence_engine policy hash) (input Kind.present 20) entering present
      TemporalReason.enter_confirmed

-- The confirmed entry of track 6.
abbrev pub enters : OccupancyInput
enters = record {
  key = scope;
  transition = entry;
  observation_kind = Kind.enter_confirmed;
  processing_time = aware_at 100;
}

abbrev counted : OccupancyResult
counted =
    or_value (unchanged 0 policy hash one_counted false false)
      (apply 0 policy hash one_counted enters)

counted-accepted : apply 0 policy hash one_counted enters ≡ ok counted
unfolding apply validate order apply_in_order is_duplicate is_behind scope_matches key_eq
    occupancy_event_from_presence build_transition Dict.get member
counted-accepted = refl

counted-is_applied : is_applied counted ≡ true
unfolding apply validate order apply_in_order is_duplicate is_behind scope_matches key_eq
    occupancy_event_from_presence build_transition Dict.get member
counted-is_applied = refl

pub one_counted-IsDistinct : IsDistinct (one_counted.occupied_tracks)
unfolding member
one_counted-IsDistinct = (refl, tt)

apply-member_example : member counted.state.occupied_tracks 9 ≡ (
    if is_applied counted && 6 == 9
    then counted_after Kind.enter_confirmed (member (9 ∷ []) 9)
    else member (9 ∷ []) 9)
unfolding build_transition
apply-member_example = apply-member 0 policy hash one_counted enters counted-accepted 9

apply-Reports_example : Reports counted.snapshot 1 (occupancy_count counted.state)
apply-Reports_example =
    apply-Reports 0 policy hash one_counted enters counted-accepted one_counted-IsDistinct

one_counted-IsPositioned : IsPositioned one_counted
unfolding member Dict.get
one_counted-IsPositioned b = ground arith
