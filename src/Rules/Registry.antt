-- ===== src/Rules/Registry.antt =====
-- `RuleRegistry` of backend/app/intelligence/rules/registry.py and `RuleEvaluatorRegistry` of
-- rules/evaluator.py. Whether a text is blank is a parameter. A dictionary is an association list in
-- the order of insertion.
use text.Mathlib.Text.{◌==◌ as str_eq}
use hotelops_ai.Prelude.{
  Bool, true, false, ◌&&◌, ◌||◌, Option, none, some, List, [], ◌∷◌, ◌++◌, String, ◌==◌, is_some,
  contains, if◌then◌else◌, Result, ok, err, ◌>>◌, ensure, reject,
}
use hotelops_ai.Temporal.Model.{TemporalStateKey}
use hotelops_ai.Rules.{
  FactType, temporal_transition, dwell_interval, occupancy_snapshot, movement_measurement,
  movement_classification_transition, waiting_interval, fact_type_name, Fact, transition, dwell,
  occupancy, movement, classification, waiting, key_of, RuleDefinition, Value, RuleInput, RuleError,
  unknown_rule, unsupported_rule_version, invalid_definition, duplicate_rule, unsupported_evaluator,
  unsupported_deterministic_version, mixed_scope, missing_configuration, configuration_mismatch,
  unsupported_fact_type, duplicate_evaluator, RuleResult,
}

pub record RuleRegistry : Type 0 where
  pub rules : List RuleDefinition
  pub supported_evaluators : List String
  pub supported_deterministic_versions : List String

abbrev pub listed : List String → String → Bool
listed [] t = false
listed (x ∷ xs) t = str_eq x t || listed xs t

abbrev pub is_rule : String → String → RuleDefinition → Bool
is_rule id version rule = str_eq rule.rule_id id && str_eq rule.rule_version version

abbrev pub lookup : List RuleDefinition → String → String → Option RuleDefinition
lookup [] id version = none
lookup (rule ∷ rules) id version =
    if is_rule id version rule then some rule else lookup rules id version

abbrev has_id : List RuleDefinition → String → Bool
has_id [] id = false
has_id (rule ∷ rules) id = str_eq rule.rule_id id || has_id rules id

abbrev pub is_empty : List FactType → Bool
is_empty [] = true
is_empty (t ∷ ts) = false

module _ (is_blank : String → Bool) where
  unfoldable pub validate_definition : RuleRegistry → RuleDefinition → Result RuleError (Unit {0})
  validate_definition registry rule =
      reject (is_blank rule.rule_id) invalid_definition
      >> reject (is_blank rule.rule_name) invalid_definition
      >> reject (is_blank rule.description) invalid_definition
      >> reject (is_blank rule.evaluator_id) invalid_definition
      >> reject (is_empty rule.input_fact_types) invalid_definition
      >> ensure (listed registry.supported_deterministic_versions rule.deterministic_version)
          unsupported_deterministic_version
      >> ensure (listed registry.supported_evaluators rule.evaluator_id) unsupported_evaluator

  unfoldable pub register : RuleRegistry → RuleDefinition → Result RuleError RuleRegistry
  register registry rule =
      validate_definition registry rule
      >> reject (is_some (lookup registry.rules rule.rule_id rule.rule_version)) duplicate_rule
      >> ok (record registry { rules = registry.rules ++ rule ∷ [] })

unfoldable pub resolve : RuleRegistry → String → String → Result RuleError RuleDefinition
resolve registry id version = elim (lookup registry.rules id version) [
  | some rule ↦ ok rule
  | none ↦ if has_id registry.rules id then err unsupported_rule_version else err unknown_rule
]

abbrev pub fact_type_of : Fact → FactType
fact_type_of (transition key) = temporal_transition
fact_type_of (dwell interval) = dwell_interval
fact_type_of (occupancy snapshot) = occupancy_snapshot
fact_type_of (movement key) = movement_measurement
fact_type_of (classification key) = movement_classification_transition
fact_type_of (waiting interval) = waiting_interval

-- The comparison of `_scope_of` of two facts.
abbrev pub same_scope : TemporalStateKey → TemporalStateKey → Bool
same_scope a b =
    a.tenant_id == b.tenant_id && a.venue_id == b.venue_id && a.session_id == b.session_id

abbrev pub has_key : List (String × Value) → String → Bool
has_key [] k = false
has_key ((name, v) ∷ configuration) k = str_eq name k || has_key configuration k

abbrev pub has_keys : List (String × Value) → List String → Bool
has_keys configuration [] = true
has_keys configuration (k ∷ keys) = has_key configuration k && has_keys configuration keys

-- The loop over the facts after the first, whose scope is the one to keep.
unfoldable pub validate_facts :
    RuleDefinition → TemporalStateKey → List Fact → Result RuleError (Unit {0})
validate_facts rule key [] = ok tt
validate_facts rule key (fact ∷ facts) =
    ensure (contains rule.input_fact_types (fact_type_of fact)) unsupported_fact_type
    >> ensure (same_scope key (key_of fact)) mixed_scope
    >> validate_facts rule key facts

unfoldable pub validate_input : RuleDefinition → RuleInput → Result RuleError (Unit {0})
validate_input rule inp =
    ensure (str_eq inp.rule_version rule.rule_version) configuration_mismatch
    >> ensure (has_keys inp.configuration rule.configuration_requirements) missing_configuration
    >> ensure (contains rule.input_fact_types (fact_type_of inp.primary)) unsupported_fact_type
    >> validate_facts rule (key_of inp.primary) inp.others

-- What an evaluator may do: return, raise a RuleError, or raise another exception.
pub data Raised : Type 0 where
  rule_error : RuleError → Raised
  unexpected : Raised

pub record Evaluator : Type 0 where
  pub evaluator_id : String
  pub evaluate : RuleDefinition → RuleInput → Result Raised RuleResult

abbrev pub find_evaluator : List Evaluator → String → Option Evaluator
find_evaluator [] id = none
find_evaluator (e ∷ es) id = if str_eq e.evaluator_id id then some e else find_evaluator es id

unfoldable pub register_evaluator :
    (String → Bool) → List Evaluator → Evaluator → Result RuleError (List Evaluator)
register_evaluator is_blank evaluators e =
    reject (is_blank e.evaluator_id) duplicate_evaluator
    >> reject (is_some (find_evaluator evaluators e.evaluator_id)) duplicate_evaluator
    >> ok (evaluators ++ e ∷ [])

unfoldable pub resolve_evaluator : List Evaluator → String → Result RuleError Evaluator
resolve_evaluator evaluators id = elim (find_evaluator evaluators id) [
  | none ↦ err unsupported_evaluator
  | some e ↦ ok e
]
