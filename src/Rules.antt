-- ===== src/Rules.antt =====
-- The contracts of backend/app/intelligence/rules: contracts/rules/models.py, the event envelope and
-- the evidence request, and the identities of rules/evaluator.py. The movement facts are their keys.
-- A configured value is what `float` and `list` make of it. The uuid5 hash is a parameter.
pub mod Registry
pub mod Engine
pub mod Evaluators
pub mod Answers
pub mod Contract
pub mod Acceptance
pub mod Crossings
pub mod Catalogue
pub mod Versions
pub mod Wiring
pub mod Immutability
pub mod Sessions
use text.Mathlib.Text.{◌==◌ as str_eq}
use hotelops_ai.Prelude.{
  ℕ, ◌≡◌, Bool, true, false, not, ◌&&◌, ◌||◌, Option, none, some, List, [], ◌∷◌, String, Name, ◌is◌,
  ◌==◌, is_some, if◌then◌else◌, Result, ok, err, ◌>>◌, ensure, arith,
}
use hotelops_ai.Temporal.Model.{Instant, TemporalStateKey, DwellInterval, Part}
use hotelops_ai.Temporal.Occupancy.{OccupancySnapshot}
use hotelops_ai.Temporal.Waiting.{WaitingInterval}

pub data RuleEventType : Type 0 where
  occupancy_session dwell_threshold queue_candidate service_gap_candidate turnover_delay
        data_quality :
      RuleEventType

abbrev event_type_code : RuleEventType → ℕ
event_type_code occupancy_session = 0
event_type_code dwell_threshold = 1
event_type_code queue_candidate = 2
event_type_code service_gap_candidate = 3
event_type_code turnover_delay = 4
event_type_code data_quality = 5

pub event_type_code_injective :
    (a b : RuleEventType) → event_type_code a ≡ event_type_code b → a ≡ b
event_type_code_injective a b h = ground arith

instance abbrev pub event_type_name : Name RuleEventType
event_type_name = record { code = event_type_code; code_injective = event_type_code_injective }

pub data FactType : Type 0 where
  temporal_transition dwell_interval occupancy_snapshot movement_measurement
        movement_classification_transition waiting_interval :
      FactType

abbrev fact_type_code : FactType → ℕ
fact_type_code temporal_transition = 0
fact_type_code dwell_interval = 1
fact_type_code occupancy_snapshot = 2
fact_type_code movement_measurement = 3
fact_type_code movement_classification_transition = 4
fact_type_code waiting_interval = 5

pub fact_type_code_injective : (a b : FactType) → fact_type_code a ≡ fact_type_code b → a ≡ b
fact_type_code_injective a b h = ground arith

instance abbrev pub fact_type_name : Name FactType
fact_type_name = record { code = fact_type_code; code_injective = fact_type_code_injective }

pub data Fact : Type 0 where
  transition : TemporalStateKey → Fact
  dwell : DwellInterval → Fact
  occupancy : OccupancySnapshot → Fact
  movement : TemporalStateKey → Fact
  classification : TemporalStateKey → Fact
  waiting : WaitingInterval → Fact

abbrev pub key_of : Fact → TemporalStateKey
key_of (transition key) = key
key_of (dwell interval) = interval.key
key_of (occupancy snapshot) = snapshot.key
key_of (movement key) = key
key_of (classification key) = key
key_of (waiting interval) = interval.key

pub data EvidenceRequirement : Type 0 where
  unneeded optional required : EvidenceRequirement

pub record RuleDefinition : Type 0 where
  pub rule_id : String
  pub rule_version : String
  pub rule_name : String
  pub description : String
  pub enabled : Bool
  pub input_fact_types : List FactType
  pub configuration_requirements : List String
  pub evaluator_id : String
  pub output_event_type : RuleEventType
  pub evidence_requirement : EvidenceRequirement
  pub deterministic_version : String

-- `float` of the value where that is not negative, and the entries of its `list` where they are
-- texts that are not blank.
pub record Value : Type 0 where
  pub number : Option ℕ
  pub items : Option (List (Option String))

-- The facts are the first and the others: the contract refuses an input without one.
pub record RuleInput : Type 0 where
  pub primary : Fact
  pub others : List Fact
  pub configuration : List (String × Value)
  pub configuration_version_id : ℕ
  pub rule_version : String
  pub event_time : Instant
  pub processing_time : Option Instant

pub data RuleError : Type 0 where
  unknown_rule unsupported_rule_version invalid_definition duplicate_rule unsupported_evaluator
        unsupported_deterministic_version mixed_scope duplicate_evaluator invalid_evaluation
        execution_error missing_configuration configuration_mismatch unsupported_fact_type :
      RuleError

pub data Phase : Type 0 where
  started ended : Phase

-- What the payload of an event adds to its scope.
pub data Payload : Type 0 where
  session : Phase → ℕ → List ℕ → Payload
  episode : ℕ → Instant → ℕ → ℕ → ℕ → Payload

pub record RuleEvent : Type 0 where
  pub event_id : ℕ
  pub event_type : RuleEventType
  pub event_time : Instant
  pub produced_at : Instant
  pub source : String × String
  pub key : TemporalStateKey
  pub payload : Payload

pub record EvidenceRef : Type 0 where
  pub ref_id : ℕ
  pub event_id : ℕ
  pub event_time : Instant
  pub key : TemporalStateKey
  pub configuration_version_id : ℕ
  pub rule_id : String
  pub rule_version : String

pub data Status : Type 0 where
  no_match match_found suppressed invalid : Status

pub record RuleResult : Type 0 where
  pub rule_id : String
  pub rule_version : String
  pub status : Status
  pub event_time : Instant
  pub configuration_version_id : ℕ
  pub event : Option RuleEvent
  pub evidence_requests : List EvidenceRef
  pub tenant_id : Option ℕ
  pub venue_id : Option ℕ
  pub session_id : Option ℕ
  pub has_reason : Bool

-- `_validate_result` of the contract.
abbrev pub is_result : RuleResult → Bool
is_result r = elim r.status [
  | match_found ↦ is_some r.event
  | invalid ↦ not (is_some r.event) && r.has_reason
  | no_match ↦ not (is_some r.event)
  | suppressed ↦ not (is_some r.event)
]

abbrev context_part : Option String → Part
context_part none = Part.text ""
context_part (some c) = Part.text c

module _ (uuid5 : List Part → ℕ) where
  abbrev pub event_parts :
      RuleDefinition → TemporalStateKey → ℕ → Instant → RuleEventType → List Part
  event_parts rule key version t type =
      Part.text "rule_event"
      ∷ Part.number key.tenant_id
      ∷ Part.number key.venue_id
      ∷ Part.number key.session_id
      ∷ Part.number key.camera_id
      ∷ Part.number key.track_id
      ∷ context_part key.semantic_context
      ∷ Part.text rule.rule_id
      ∷ Part.text rule.rule_version
      ∷ Part.state (event_type_code type)
      ∷ Part.instant t
      ∷ Part.number version
      ∷ []

  unfoldable pub deterministic_event_id : RuleDefinition → RuleInput → Instant → RuleEventType → ℕ
  deterministic_event_id rule inp t type =
      uuid5 (event_parts rule (key_of inp.primary) inp.configuration_version_id t type)

  unfoldable pub deterministic_evidence_ref : RuleDefinition → RuleInput → ℕ → EvidenceRef
  deterministic_evidence_ref rule inp event_id = record {
    ref_id = uuid5 (
        Part.text "rule_evidence"
        ∷ Part.number event_id
        ∷ Part.number (key_of inp.primary).session_id
        ∷ []);
    event_id = event_id;
    event_time = inp.event_time;
    key = key_of inp.primary;
    configuration_version_id = inp.configuration_version_id;
    rule_id = rule.rule_id;
    rule_version = rule.rule_version;
  }
