-- ===== src/Tests/Waiting.antt =====
-- Tests of the waiting engine: a track stands in a queue until its candidate qualifies.
use hotelops_ai.Prelude.{ℕ, ◌≡◌, refl, true, false, none, some, [], ◌∷◌, String, ok}
use hotelops_ai.Temporal.Model.{TemporalReason, TemporalStateKey, Kind}
use hotelops_ai.Temporal.Engine.{build_transition}
use hotelops_ai.Temporal.Fsm.{transition, find}
use hotelops_ai.Temporal.Presence.{present, presence_name, presence_engine}
use hotelops_ai.Temporal.Waiting.{
  WaitingInterval, not_waiting, terminate, build_closed_interval, make_interval, candidate, waiting,
  WaitingPolicy, WaitingState, WaitingInput, WaitingResult, evaluate, when_stationary, carry_on,
  waiting_event_from_presence,
}
use hotelops_ai.Temporal.Waiting.Engine.{apply, validate, order, apply_in_order}
use hotelops_ai.Temporal.Occupancy.{key_eq}
use hotelops_ai.Temporal.Waiting.Closing.{Closes, apply-Closes}
use hotelops_ai.Temporal.Waiting.Qualified.{is_attested, waiting-attested}
use hotelops_ai.Tests.Fixtures.{hash, policy, key, input, aware_at}

-- A candidate qualifies after four seconds, in the context "queue".
abbrev queue_policy : WaitingPolicy
queue_policy = record { base = policy; qualification = 4; contexts = "queue" ∷ [] }

abbrev in_queue : String → TemporalStateKey
in_queue kind = record key { fsm_kind = kind; semantic_context = some "queue" }

abbrev candidate_at_ten : WaitingState
candidate_at_ten = record {
  fsm_version = "0.2.0";
  key = in_queue "waiting";
  current_state = candidate;
  presence_confirmed = true;
  candidate_start = some 10;
  waiting_start = none;
  last_seen = some 12;
  watermark = some (12, 12);
}

-- The track stays, stationary, at an instant.
abbrev stays_at : ℕ → WaitingInput
stays_at t = record {
  key = in_queue "waiting";
  presence_transition =
      record (build_transition (presence_engine policy hash) (input Kind.present t) present present
        TemporalReason.observed_stay) { key = in_queue "presence" };
  classification_state = record { key = in_queue "movement_classification"; is_stationary = true };
  observation_kind = Kind.stay;
  processing_time = aware_at 100;
}

abbrev qualified_at_fifteen : WaitingResult
qualified_at_fifteen = record {
  state = record candidate_at_ten {
    current_state = waiting;
    waiting_start = some 15;
    last_seen = some 15;
    watermark = some (15, 15);
  };
  interval = none;
  deduplicated = false;
  reordered = false;
}

candidate_qualifies :
    apply queue_policy hash candidate_at_ten (stays_at 15) ≡ ok qualified_at_fifteen
unfolding key_eq apply validate order apply_in_order evaluate when_stationary carry_on transition
    find build_transition waiting_event_from_presence
candidate_qualifies = refl

waiting-attested_example : is_attested queue_policy qualified_at_fifteen.state ≡ true
waiting-attested_example =
    waiting-attested queue_policy hash candidate_at_ten (stays_at 15) {r = qualified_at_fifteen}
      refl candidate_qualifies

-- It waits since the instant 15, and leaves at the instant 40.
abbrev leaves_at_forty : WaitingInput
leaves_at_forty = record (stays_at 40) {
  presence_transition = record (stays_at 40).presence_transition {
    reason = TemporalReason.exit_confirmed;
  };
  observation_kind = Kind.exit_confirmed;
}

abbrev waited : WaitingInterval
waited = record {
  interval_id = 0;
  fsm_kind = "waiting";
  key = in_queue "waiting";
  waiting_start = 15;
  waiting_end = some 40;
  last_seen = 40;
  duration = 25;
  qualified = true;
  minimum_waiting = 4;
  reason = some TemporalReason.exit_confirmed;
  fsm_version = "0.2.0";
  policy_revision = "r1";
}

abbrev left_at_forty : WaitingResult
left_at_forty = record {
  state = record candidate_at_ten {
    current_state = not_waiting;
    presence_confirmed = false;
    candidate_start = none;
    last_seen = some 40;
    watermark = some (40, 40);
  };
  interval = some waited;
  deduplicated = false;
  reordered = false;
}

wait_ends : apply queue_policy hash qualified_at_fifteen.state leaves_at_forty ≡ ok left_at_forty
unfolding key_eq apply validate order apply_in_order evaluate terminate transition find
    build_transition waiting_event_from_presence build_closed_interval make_interval
wait_ends = refl

apply-Closes_example : Closes qualified_at_fifteen.state 40 not_waiting waited
unfolding build_transition
apply-Closes_example =
    apply-Closes queue_policy hash qualified_at_fifteen.state leaves_at_forty {r = left_at_forty}
      {i = waited} wait_ends refl
