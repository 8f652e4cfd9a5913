-- ===== src/Tests/Rules.antt =====
-- Tests of the rules: a dwell of seven units under a threshold of five, and a scope that is entered.
use mathlib.Core.List.{Memᴰ}
use hotelops_ai.Rules.Versions.{is_rule_version, IsVersion}
use hotelops_ai.Prelude.{
  ◌⊎◌, ◌≢◌, err, ℕ, ◌≡◌, refl, Bool, true, false, none, some, List, [], ◌∷◌, map, String, ok, arith,
}
use hotelops_ai.Prelude.Sets.{member, discard, set_eq, add}
use hotelops_ai.Prelude.Dict
use hotelops_ai.Temporal.Model.{TemporalStateKey, DwellInterval}
use hotelops_ai.Rules.{
  dwell_interval, occupancy_snapshot, dwell, required, RuleDefinition, RuleError, RuleInput,
  dwell_threshold, occupancy_session, RuleResult, Phase, started, ended, deterministic_event_id,
  deterministic_evidence_ref, EvidenceRef,
}
use hotelops_ai.Rules.Registry.{
  RuleRegistry, Evaluator, validate_definition, register, resolve, validate_facts, validate_input,
  resolve_evaluator,
}
use hotelops_ai.Rules.Engine.{
  execute, validate_provenance, validate_match, validate_result, apply_evidence_policy, evaluate,
  is_match,
}
use hotelops_ai.Rules.Evaluators.{
  against, threshold_crossed, dwell_threshold_evaluate, session_of, occupancy_session_evaluate,
}
use hotelops_ai.Rules.Catalogue.{definitions, operational_registry, is_written}
use hotelops_ai.Rules.Wiring.{
  refused, invalid_version, build_operational_registries, build_operational_registries-definitions,
}
use hotelops_ai.Rules.Contract.{IsContract, evaluate-IsContract}
use hotelops_ai.Rules.Acceptance.{dwell_thresholds, evaluate-IsOperational}
use hotelops_ai.Rules.Crossings.{IsMatchedAt, dwell_threshold_evaluate-again}
use hotelops_ai.Rules.Immutability.{register_all, register-resolve}
use hotelops_ai.Rules.Sessions.{sessions, alternate, is_occupied, sessions-alternate}
use hotelops_ai.Temporal.Engine.{build_transition}
use hotelops_ai.Temporal.Model.{TemporalReason, Kind}
use hotelops_ai.Temporal.Occupancy.{
  OccupancyState, OccupancyInput, apply, apply_in_order, order, validate, is_duplicate, is_behind,
  is_near, scope_matches, key_eq, occupancy_event_from_presence, build_snapshot,
}
use hotelops_ai.Tests.Fixtures.{or_value, hash, policy, key}
use hotelops_ai.Tests.Occupancy.{one_counted, one_counted-IsDistinct, entry, enters}

abbrev written : String → Bool
written t = false

written_texts :
    (rule : RuleDefinition) → Memᴰ rule (definitions "v1") → is_written written rule ≡ true
written_texts rule m = refl

abbrev dwell_rule : RuleDefinition
dwell_rule = record {
  rule_id = "dwell_threshold";
  rule_version = "v1";
  rule_name = "Dwell threshold";
  description = "A dwell crosses its threshold.";
  enabled = true;
  input_fact_types = dwell_interval ∷ [];
  configuration_requirements = "dwell_threshold_seconds" ∷ [];
  evaluator_id = "dwell-threshold@1";
  output_event_type = dwell_threshold;
  evidence_requirement = required;
  deterministic_version = "0.1.0";
}

abbrev second_rule : RuleDefinition
second_rule = record dwell_rule { rule_version = "v2" }

abbrev no_rules : RuleRegistry
no_rules = record {
  rules = [];
  supported_evaluators = "dwell-threshold@1" ∷ [];
  supported_deterministic_versions = "0.1.0" ∷ [];
}

abbrev one_rule : RuleRegistry
one_rule = or_value no_rules (register_all written no_rules (dwell_rule ∷ []))

abbrev both_rules : RuleRegistry
both_rules = or_value no_rules (register_all written no_rules (dwell_rule ∷ second_rule ∷ []))

both_rules-registered :
    register_all written no_rules (dwell_rule ∷ second_rule ∷ []) ≡ ok both_rules
unfolding register validate_definition
both_rules-registered = refl

abbrev dwell_key : TemporalStateKey
dwell_key = record key { fsm_kind = "dwell" }

-- The track has been there for some time at an instant.
abbrev stay : ℕ → ℕ → DwellInterval
stay duration now = record {
  interval_id = 8;
  fsm_kind = "dwell";
  key = dwell_key;
  dwell_start = 3;
  dwell_end = none;
  last_seen = now;
  duration = duration;
  qualified = true;
  minimum_dwell = 1;
  reason = none;
  fsm_version = "0.2.0";
  policy_revision = "r1";
}

abbrev asks : ℕ → ℕ → RuleInput
asks duration now = record {
  primary = dwell (stay duration now);
  others = [];
  configuration = ("dwell_threshold_seconds", record { number = some 5; items = none }) ∷ [];
  configuration_version_id = 5;
  rule_version = "v1";
  event_time = now;
  processing_time = none;
}

abbrev crossing : Evaluator
crossing = record {
  evaluator_id = "dwell-threshold@1";
  evaluate = λ rule inp. ok (dwell_threshold_evaluate hash rule inp);
}

abbrev answer : RuleResult
answer =
    or_value (dwell_threshold_evaluate hash dwell_rule (asks 7 10))
      (evaluate hash one_rule (crossing ∷ []) "dwell_threshold" "v1" (asks 7 10))

answer-returned :
    evaluate hash one_rule (crossing ∷ []) "dwell_threshold" "v1" (asks 7 10) ≡ ok answer
unfolding evaluate resolve validate_facts validate_input resolve_evaluator execute
    validate_provenance validate_match validate_result apply_evidence_policy
    dwell_threshold_evaluate threshold_crossed against register validate_definition
    deterministic_event_id deterministic_evidence_ref
answer-returned = refl

answer-matched : is_match answer.status ≡ true
unfolding evaluate resolve validate_facts validate_input resolve_evaluator execute
    validate_provenance validate_match validate_result apply_evidence_policy
    dwell_threshold_evaluate threshold_crossed against register validate_definition
    deterministic_event_id deterministic_evidence_ref
answer-matched = refl

dwell_rule-resolved : resolve one_rule "dwell_threshold" "v1" ≡ ok dwell_rule
unfolding resolve register validate_definition
dwell_rule-resolved = refl

asks-valid : validate_input dwell_rule (asks 7 10) ≡ ok tt
unfolding validate_input validate_facts
asks-valid = refl

crossing-found : resolve_evaluator (crossing ∷ []) "dwell-threshold@1" ≡ ok crossing
unfolding resolve_evaluator
crossing-found = refl

asks-matched : is_match (dwell_threshold_evaluate hash dwell_rule (asks 7 10)).status ≡ true
unfolding dwell_threshold_evaluate threshold_crossed against
asks-matched = refl

evaluate-IsContract_example : IsContract hash one_rule "dwell_threshold" "v1" (asks 7 10) answer
evaluate-IsContract_example =
    evaluate-IsContract hash one_rule (crossing ∷ []) "dwell_threshold" "v1" (asks 7 10) answer
      answer-returned

register-resolve_example : resolve both_rules "dwell_threshold" "v2" ≡ ok second_rule
register-resolve_example =
    register-resolve written no_rules both_rules (dwell_rule ∷ second_rule ∷ []) second_rule
      both_rules-registered (Memᴰ.tail (Memᴰ.head refl))

dwell_threshold_evaluate-again_example :
    IsMatchedAt hash dwell_rule (asks 9 12) (dwell_threshold_evaluate hash dwell_rule (asks 9 12))
dwell_threshold_evaluate-again_example =
    dwell_threshold_evaluate-again hash dwell_rule (asks 7 10) (asks 9 12) (stay 7 10) (stay 9 12)
      refl refl asks-matched refl (omega arith) refl refl

evaluate-IsOperational_example :
    (requests : List EvidenceRef) × (evaluate hash one_rule
        (crossing ∷ [])
        "dwell_threshold"
        "v1"
        (asks 7 10)
      ≡ ok (record (dwell_threshold_evaluate hash dwell_rule (asks 7 10)) {
        evidence_requests = requests;
      }))
evaluate-IsOperational_example =
    evaluate-IsOperational hash one_rule (crossing ∷ []) "dwell_threshold" "v1" (asks 7 10)
      dwell_rule crossing (dwell_threshold_evaluate hash) dwell_rule-resolved asks-valid
      crossing-found dwell_thresholds refl

abbrev session_rule : RuleDefinition
session_rule = record dwell_rule {
  rule_id = "occupancy_session";
  input_fact_types = occupancy_snapshot ∷ [];
  configuration_requirements = [];
  output_event_type = occupancy_session;
}

-- Track 9 leaves the scope at the instant at which track 6 enters it.
abbrev leaves : OccupancyInput
leaves = record enters {
  transition = record entry {
    key = record key { track_id = 9 };
    reason = TemporalReason.exit_confirmed;
  };
  observation_kind = Kind.exit_confirmed;
}

abbrev turned : OccupancyState × List Phase
turned =
    or_value (one_counted, [])
      (sessions 0 policy hash session_rule 5 one_counted (leaves ∷ enters ∷ []))

turned-accepted :
    sessions 0 policy hash session_rule 5 one_counted (leaves ∷ enters ∷ []) ≡ ok turned
unfolding apply validate order apply_in_order is_duplicate is_behind is_near scope_matches key_eq
    occupancy_event_from_presence build_transition Dict.get member Dict.put discard
turned-accepted = refl

turned-phases : turned.1 ≡ ended ∷ started ∷ []
unfolding apply validate order apply_in_order is_duplicate is_behind is_near scope_matches key_eq
    occupancy_event_from_presence build_transition build_snapshot Dict.get member Dict.put discard
    set_eq add occupancy_session_evaluate session_of
turned-phases = refl

sessions-alternate_example :
    alternate (is_occupied one_counted) turned.1 ≡ some (is_occupied turned.0)
sessions-alternate_example =
    sessions-alternate 0 policy hash session_rule 5 one_counted turned.0 (leaves ∷ enters ∷ [])
      turned.1 turned-accepted refl one_counted-IsDistinct

versions :
    map is_rule_version
      ("v1" ∷ "v1.2" ∷ "v10.0.3" ∷ "latest" ∷ "1" ∷ "" ∷ "v" ∷ "v1." ∷ "v1..2" ∷ "v1.x" ∷ [])
    ≡ (true ∷ true ∷ true ∷ false ∷ false ∷ false ∷ false ∷ false ∷ false ∷ false ∷ [])
unfolding is_rule_version
versions = refl

abbrev first_version : String
first_version = "v1"

build_operational_registries-definitions_example :
    (¬ (IsVersion first_version)
      × (build_operational_registries written first_version ≡ err invalid_version))
    ⊎ (((first_version ≡ "v2")
          × (build_operational_registries written first_version
              ≡ err (refused RuleError.duplicate_rule)))
        ⊎ (IsVersion first_version
            × (first_version ≢ "v2")
            × (build_operational_registries written first_version
                ≡ ok (record operational_registry { rules = definitions first_version }))))
build_operational_registries-definitions_example =
    build_operational_registries-definitions written first_version written_texts
