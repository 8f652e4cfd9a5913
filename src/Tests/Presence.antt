-- ===== src/Tests/Presence.antt =====
-- Tests of the presence and dwell engines.
use hotelops_ai.Prelude.{
  ◌≤◌, ◌≡◌, refl, inl, true, false, none, some, List, [], ◌∷◌, ok, err, is_ok, arith, ◌⊎◌,
}
use hotelops_ai.Temporal.Errors.{late_event}
use hotelops_ai.Temporal.Model.{TemporalReason, TemporalOcclusionState, TemporalState, Kind}
use hotelops_ai.Temporal.Engine.{
  TemporalInput, TemporalResult, validate, apply, order, apply_in_order, apply_evaluation,
  build_transition, key_matches_observation, initial_state,
}
use hotelops_ai.Temporal.Presence.{
  Presence, absent, entering, present, presence_name, presence_engine, evaluate,
}
use hotelops_ai.Temporal.Presence.Invariant.{
  IsWellFormed, is_confirmed, Effect, apply-IsWellFormed, apply-Effect, apply-total, evaluate-total,
}
use hotelops_ai.Temporal.Presence.Hysteresis.{replay, count_present, confirmed_needs_present}
use hotelops_ai.Temporal.Presence.Confirmation.{replay-present}
use hotelops_ai.Temporal.Dwell.{Dwell, dwelling, dwell_name, dwell_apply}
use hotelops_ai.Temporal.Dwell.Lockstep.{Coupled, dwell_input, spans, ended}
use hotelops_ai.Temporal.Dwell.Coupling.{dwell_apply-follows}
use hotelops_ai.Tests.Fixtures.{
  or_value, hash, policy, policy-IsPolicy, key, input, state_at, here_at,
}

abbrev one_more : TemporalState Presence
one_more = state_at entering 1 (some (10, 10))

one_more-IsWellFormed : IsWellFormed policy one_more
one_more-IsWellFormed = record {
  entry_count = (omega arith, omega arith);
  exit_count = refl;
  since_seen = tt;
  present_seen = tt;
}

abbrev blank : TemporalResult Presence
blank = record {
  state = one_more;
  transition =
      build_transition (presence_engine policy hash) (input Kind.present 10) absent absent
        TemporalReason.observed_stay;
  deduplicated = false;
  dwell_intervals = [];
}

-- The second positive observation confirms the entry.
abbrev confirmed : TemporalResult Presence
confirmed = or_value blank (apply (presence_engine policy hash) one_more (input Kind.present 20))

confirmed-accepted :
    apply (presence_engine policy hash) one_more (input Kind.present 20) ≡ ok confirmed
unfolding apply validate order apply_in_order key_matches_observation evaluate
confirmed-accepted = refl

apply-IsWellFormed_example : IsWellFormed policy confirmed.state
apply-IsWellFormed_example =
    apply-IsWellFormed policy hash one_more (input Kind.present 20) confirmed-accepted
      policy-IsPolicy one_more-IsWellFormed

apply-Effect_example :
    Effect confirmed.transition.reason false (is_confirmed confirmed.state.current_state)
apply-Effect_example = apply-Effect policy hash one_more (input Kind.present 20) confirmed-accepted

apply-total_example :
    (is_ok (apply (presence_engine policy hash) one_more (input Kind.present 20)) ≡ true)
    ⊎ (apply (presence_engine policy hash) one_more (input Kind.present 20) ≡ err late_event)
unfolding validate key_matches_observation
apply-total_example = apply-total policy hash one_more (input Kind.present 20) refl

evaluate-total_example : is_ok (evaluate policy one_more Kind.not_observed 20) ≡ true
evaluate-total_example = evaluate-total policy one_more Kind.not_observed 20 refl

abbrev twice : List TemporalInput
twice = input Kind.present 10 ∷ input Kind.present 20 ∷ []

abbrev seen_twice : TemporalState Presence
seen_twice =
    or_value one_more
      (replay (presence_engine policy hash) (initial_state (presence_engine policy hash) key) twice)

seen_twice-replayed :
    replay (presence_engine policy hash) (initial_state (presence_engine policy hash) key) twice
    ≡ ok seen_twice
unfolding replay apply validate order apply_in_order apply_evaluation key_matches_observation
    evaluate initial_state
seen_twice-replayed = refl

seen_twice-confirmed : is_confirmed seen_twice.current_state ≡ true
unfolding replay apply validate order apply_in_order apply_evaluation key_matches_observation
    evaluate initial_state
seen_twice-confirmed = refl

confirmed_needs_present_example : 2 ≤ count_present twice
confirmed_needs_present_example =
    confirmed_needs_present policy hash key twice seen_twice-replayed seen_twice-confirmed

replay-present_example :
    (t : TemporalState Presence) × (replay
        (presence_engine policy hash)
        (state_at absent 0 none)
        twice
      ≡ ok t)
    × (t.current_state ≡ present)
unfolding validate key_matches_observation
replay-present_example =
    replay-present policy hash (state_at absent 0 none) twice policy-IsPolicy (inl (refl, refl))
      (omega arith) refl ((refl, refl), ((refl, refl), tt)) (tt, ((refl, refl), tt))

abbrev gone : TemporalResult Presence
gone =
    or_value blank (apply (presence_engine policy hash) (here_at 10) (input Kind.not_observed 20))

gone-accepted :
    apply (presence_engine policy hash) (here_at 10) (input Kind.not_observed 20) ≡ ok gone
unfolding apply validate order apply_in_order key_matches_observation evaluate
gone-accepted = refl

gone-lost : is_confirmed gone.state.current_state ≡ false
unfolding apply validate order apply_in_order apply_evaluation key_matches_observation evaluate
gone-lost = refl

-- The dwell state beside the presence that is lost.
abbrev dwelling_at : TemporalState Dwell
dwelling_at = record {
  fsm_version = "0.2.0";
  key = record key { fsm_kind = "dwell" };
  current_state = dwelling;
  state_since = some 4;
  last_seen = some 10;
  last_present_seen = none;
  watermark = some (10, 10);
  entry_confirm_count = 0;
  exit_confirm_count = 0;
  occlusion_state = TemporalOcclusionState.not_observed;
  missing_since = none;
  recent_transitions = [];
}

here_at-Coupled : Coupled (here_at 10) dwelling_at
here_at-Coupled = record {
  same_presence = refl;
  same_watermark = refl;
  family = refl;
  same_version = refl;
  started = omega arith;
}

dwell_apply-follows_example :
    (r : TemporalResult Dwell) × (dwell_apply policy hash dwelling_at
        (dwell_input (input Kind.not_observed 20) gone)
      ≡ ok r)
    × Coupled gone.state r.state
    × (spans r.dwell_intervals ≡ ended true (is_confirmed gone.state.current_state) (some 4) 20)
dwell_apply-follows_example =
    dwell_apply-follows policy hash (here_at 10) dwelling_at (input Kind.not_observed 20)
      here_at-Coupled gone-accepted
