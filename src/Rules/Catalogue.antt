-- ===== src/Rules/Catalogue.antt =====
-- The definitions of the rules of backend/app/intelligence/rules, each in the file of its rule, and
-- their registration.
use mathlib.Core.List.{Memᴰ, append_assoc, append-nil}
use text.Mathlib.Text.{◌==◌ as str_eq}
use hotelops_ai.Prelude.{
  ◌≡◌, refl, ap, ◌∙◌, inl, inr, Bool, true, false, not, ◌&&◌, List, [], ◌∷◌, ◌++◌, String, is_some,
  if◌then◌else◌, ok, err, arith, Bool-cases,
}
use hotelops_ai.Temporal.Model.{temporal_engine_version}
use hotelops_ai.Rules.{
  occupancy_session, dwell_threshold, queue_candidate, service_gap_candidate, turnover_delay,
  data_quality, temporal_transition, dwell_interval, occupancy_snapshot, movement_measurement,
  movement_classification_transition, waiting_interval, optional, required, RuleDefinition,
  duplicate_rule,
}
use hotelops_ai.Rules.Registry.{
  RuleRegistry, lookup, listed, is_empty, validate_definition, register,
}
use hotelops_ai.Rules.Immutability.{register_all}

abbrev pub occupancy_session_definition : String → RuleDefinition
occupancy_session_definition version = record {
  rule_id = "occupancy_session";
  rule_version = version;
  rule_name = "Occupancy Session";
  description =
      "Converts a confirmed Task 15.4 occupancy boundary into an occupancy_session started/ended operational event.";
  enabled = true;
  input_fact_types = occupancy_snapshot ∷ [];
  configuration_requirements = [];
  evaluator_id = "occupancy_session_evaluator.v1";
  output_event_type = occupancy_session;
  evidence_requirement = required;
  deterministic_version = temporal_engine_version;
}

abbrev pub dwell_threshold_definition : String → RuleDefinition
dwell_threshold_definition version = record {
  rule_id = "dwell_threshold";
  rule_version = version;
  rule_name = "Dwell Threshold";
  description =
      "Converts a canonical Task 15.3 DwellInterval into a dwell_threshold event when the configured dwell duration threshold is crossed.";
  enabled = true;
  input_fact_types = dwell_interval ∷ [];
  configuration_requirements = "dwell_threshold_seconds" ∷ [];
  evaluator_id = "dwell_threshold_evaluator.v1";
  output_event_type = dwell_threshold;
  evidence_requirement = required;
  deterministic_version = temporal_engine_version;
}

abbrev pub queue_candidate_definition : String → RuleDefinition
queue_candidate_definition version = record {
  rule_id = "queue_candidate";
  rule_version = version;
  rule_name = "Queue Candidate";
  description =
      "Converts a confirmed Task 15.5.3 WaitingInterval in a configured queue/service area into a queue_candidate event when the configured minimum waiting duration is reached.";
  enabled = true;
  input_fact_types = waiting_interval ∷ [];
  configuration_requirements = "waiting_qualification_seconds" ∷ "queue_area_ids" ∷ [];
  evaluator_id = "queue_candidate_evaluator.v1";
  output_event_type = queue_candidate;
  evidence_requirement = required;
  deterministic_version = temporal_engine_version;
}

abbrev pub queue_candidate_definition_v2 : RuleDefinition
queue_candidate_definition_v2 = record {
  rule_id = "queue_candidate";
  rule_version = "v2";
  rule_name = "Queue Candidate";
  description =
      "Queue-candidate semantics v2: same deterministic waiting qualification as v1 plus the queue_max_length configuration requirement (queue-capacity configuration contract).";
  enabled = true;
  input_fact_types = waiting_interval ∷ occupancy_snapshot ∷ [];
  configuration_requirements =
      "waiting_qualification_seconds" ∷ "queue_area_ids" ∷ "queue_max_length" ∷ [];
  evaluator_id = "queue_candidate_evaluator.v2";
  output_event_type = queue_candidate;
  evidence_requirement = required;
  deterministic_version = temporal_engine_version;
}

abbrev pub service_gap_candidate_definition : String → RuleDefinition
service_gap_candidate_definition version = record {
  rule_id = "service_gap_candidate";
  rule_version = version;
  rule_name = "Service Gap Candidate";
  description =
      "Converts an OPEN confirmed Task 15.5.3 WaitingInterval in a configured service area into a service_gap_candidate event when the configured service-gap grace duration is reached.";
  enabled = true;
  input_fact_types = waiting_interval ∷ [];
  configuration_requirements = "service_gap_grace_seconds" ∷ "service_area_ids" ∷ [];
  evaluator_id = "service_gap_evaluator.v1";
  output_event_type = service_gap_candidate;
  evidence_requirement = required;
  deterministic_version = temporal_engine_version;
}

abbrev pub turnover_delay_definition : String → RuleDefinition
turnover_delay_definition version = record {
  rule_id = "turnover_delay";
  rule_version = version;
  rule_name = "Turnover Delay";
  description =
      "Converts an OPEN confirmed Task 15.3 DwellInterval into a turnover_delay event when a table/service area stays occupied beyond the configured service window + turnover-delay window.";
  enabled = true;
  input_fact_types = dwell_interval ∷ occupancy_snapshot ∷ [];
  configuration_requirements = "turnover_delay_seconds" ∷ "service_window_seconds" ∷ [];
  evaluator_id = "turnover_delay_evaluator.v1";
  output_event_type = turnover_delay;
  evidence_requirement = required;
  deterministic_version = temporal_engine_version;
}

abbrev pub data_quality_definition : String → RuleDefinition
data_quality_definition version = record {
  rule_id = "data_quality";
  rule_version = version;
  rule_name = "Data Quality";
  description =
      "Detects deterministic data-quality conditions in canonical Task 15 facts and emits an aggregate data_quality event with stable machine-readable quality codes.";
  enabled = true;
  input_fact_types =
      temporal_transition ∷ dwell_interval ∷ occupancy_snapshot ∷ movement_measurement
      ∷ movement_classification_transition ∷ waiting_interval ∷ [];
  configuration_requirements = "known_spatial_contexts" ∷ [];
  evaluator_id = "data_quality_evaluator.v1";
  output_event_type = data_quality;
  evidence_requirement = optional;
  deterministic_version = temporal_engine_version;
}

abbrev pub definitions : String → List RuleDefinition
definitions version =
    occupancy_session_definition version
    ∷ dwell_threshold_definition version
    ∷ queue_candidate_definition version
    ∷ queue_candidate_definition_v2
    ∷ service_gap_candidate_definition version
    ∷ turnover_delay_definition version
    ∷ data_quality_definition version
    ∷ []

-- The registry of `build_operational_registries`, before the registrations.
abbrev pub operational_registry : RuleRegistry
operational_registry = record {
  rules = [];
  supported_evaluators =
      "occupancy_session_evaluator.v1" ∷ "dwell_threshold_evaluator.v1"
      ∷ "queue_candidate_evaluator.v1" ∷ "queue_candidate_evaluator.v2" ∷ "service_gap_evaluator.v1"
      ∷ "turnover_delay_evaluator.v1" ∷ "data_quality_evaluator.v1" ∷ [];
  supported_deterministic_versions = temporal_engine_version ∷ [];
}

-- The texts that a definition must have are not blank.
abbrev pub is_written : (String → Bool) → RuleDefinition → Bool
is_written is_blank rule =
    not (is_blank rule.rule_id)
    && not (is_blank rule.rule_name)
    && not (is_blank rule.description)
    && not (is_blank rule.evaluator_id)

-- What a registry supports.
abbrev is_supported : RuleRegistry → RuleDefinition → Bool
is_supported registry rule =
    not (is_empty rule.input_fact_types)
    && listed registry.supported_deterministic_versions rule.deterministic_version
    && listed registry.supported_evaluators rule.evaluator_id

-- No definition has the identifier and version of one before it.
abbrev pub all_fresh : List RuleDefinition → List RuleDefinition → Bool
all_fresh before [] = true
all_fresh before (rule ∷ rules) =
    let rest = all_fresh (before ++ rule ∷ []) rules in
    if is_some (lookup before rule.rule_id rule.rule_version) then false else rest

validate_definition_ok :
    (is_blank : String → Bool) (registry : RuleRegistry) (rule : RuleDefinition)
    → (is_written is_blank rule && is_supported registry rule) ≡ true
    → validate_definition is_blank registry rule ≡ ok tt
unfolding validate_definition
validate_definition_ok is_blank registry rule h = ground (arith, h)

register_fresh :
    (is_blank : String → Bool) (registry : RuleRegistry) (rule : RuleDefinition)
    → (is_written is_blank rule && is_supported registry rule) ≡ true
    → register is_blank registry rule ≡ (
        if is_some (lookup registry.rules rule.rule_id rule.rule_version)
        then err duplicate_rule
        else ok (record registry { rules = registry.rules ++ rule ∷ [] }))
unfolding register
register_fresh is_blank registry rule h =
    rw (validate_definition_ok is_blank registry rule h) (ground arith)

-- Registrations in turn of definitions that are valid for a registry.
register_all_fresh :
    (is_blank : String → Bool) (registry : RuleRegistry) (before rules : List RuleDefinition)
    → ((rule : RuleDefinition)
        → Memᴰ rule rules
        → (is_written is_blank rule && is_supported registry rule) ≡ true)
    → register_all is_blank (record registry { rules = before }) rules ≡ (
        if all_fresh before rules
        then ok (record registry { rules = before ++ rules })
        else err duplicate_rule)
register_all_fresh is_blank registry before [] valid = rw (append-nil before) refl
register_all_fresh is_blank registry before (rule ∷ rules) valid =
    let first =
      register_fresh is_blank (record registry { rules = before }) rule
        (valid rule (Memᴰ.head refl)) in
    elim (Bool-cases (is_some (lookup before rule.rule_id rule.rule_version))) [
      | inl taken ↦ rw (first, taken) refl
      | inr free ↦
          rw (first, free)
            (register_all_fresh is_blank registry (before ++ rule ∷ []) rules
                (λ r m. valid r (Memᴰ.tail m))
              ∙ ap
                  (λ all.
                    if all_fresh (before ++ rule ∷ []) rules
                    then ok (record registry { rules = all })
                    else err duplicate_rule)
                  (append_assoc before (rule ∷ []) rules))
    ]

definitions-all_fresh :
    (version : String) → all_fresh [] (definitions version) ≡ not (str_eq version "v2")
definitions-all_fresh version = elim (Bool-cases (str_eq version "v2")) [
  | inl second ↦ rw second refl
  | inr other ↦ rw other refl
]

abbrev all_supported : List RuleDefinition → Bool
all_supported [] = true
all_supported (rule ∷ rules) = is_supported operational_registry rule && all_supported rules

all_supported-Memᴰ :
    (rules : List RuleDefinition) (rule : RuleDefinition)
    → all_supported rules ≡ true
    → Memᴰ rule rules
    → is_supported operational_registry rule ≡ true
all_supported-Memᴰ [] rule h m = elim m [ ]
all_supported-Memᴰ (r ∷ rules) rule h (Memᴰ.head same) = rw same (ground (arith, h))
all_supported-Memᴰ (r ∷ rules) rule h (Memᴰ.tail m) =
    all_supported-Memᴰ rules rule (ground (arith, h)) m

-- Registrations of the definitions, whose texts are not blank: where their version is the second
-- one of the queue rule, they end at a duplicate.
pub register_all-definitions :
    (is_blank : String → Bool) (version : String)
    → ((rule : RuleDefinition) → Memᴰ rule (definitions version) → is_written is_blank rule ≡ true)
    → register_all is_blank operational_registry (definitions version) ≡ (
        if str_eq version "v2"
        then err duplicate_rule
        else ok (record operational_registry { rules = definitions version }))
register_all-definitions is_blank version written =
    let run =
      register_all_fresh is_blank operational_registry [] (definitions version) (λ rule m.
        rw (written rule m, all_supported-Memᴰ (definitions version) rule refl m) refl) in
    elim (Bool-cases (str_eq version "v2")) [
      | inl second ↦ rw second (run ∙ rw (definitions-all_fresh version) (rw second refl))
      | inr other ↦ rw other (run ∙ rw (definitions-all_fresh version) (rw other refl))
    ]
