-- ===== src/Rules/Engine.antt =====
-- `RuleEvaluationEngine` of backend/app/intelligence/rules/engine.py, without its log records and
-- metrics. An evaluator builds its result by the contract, whose refusal is an unexpected exception.
use text.Mathlib.Text.{◌==◌ as str_eq}
use hotelops_ai.Prelude.{
  ℕ, Bool, true, false, not, ◌&&◌, Option, none, some, List, [], ◌∷◌, String, ◌is◌, ◌==◌, is_some,
  if◌then◌else◌, Result, ok, err, ◌>>=◌, ◌>>◌, ensure, reject,
}
use hotelops_ai.Temporal.Model.{TemporalStateKey, Part}
use hotelops_ai.Rules.{
  key_of, RuleDefinition, RuleInput, RuleError, invalid_evaluation, execution_error, RuleEvent,
  EvidenceRef, RuleResult, EvidenceRequirement, unneeded, optional, required, Status, no_match,
  match_found, suppressed, invalid, event_type_name, is_result, deterministic_event_id,
  deterministic_evidence_ref,
}
use hotelops_ai.Rules.Registry.{
  RuleRegistry, Evaluator, Raised, rule_error, unexpected, resolve, validate_input,
  resolve_evaluator,
}

abbrev raised_as : Raised → RuleError
raised_as (rule_error e) = e
raised_as unexpected = execution_error

abbrev answered : Result Raised RuleResult → Result RuleError RuleResult
answered (err e) = err (raised_as e)
answered (ok r) = ensure (is_result r) execution_error >> ok r

unfoldable pub execute : Evaluator → RuleDefinition → RuleInput → Result RuleError RuleResult
execute evaluator rule inp = answered (evaluator.evaluate rule inp)

abbrev pub may_be : Option ℕ → ℕ → Bool
may_be none n = true
may_be (some m) n = m == n

abbrev pub is_match : Status → Bool
is_match match_found = true
is_match _ = false

unfoldable pub validate_provenance : RuleResult → TemporalStateKey → Result RuleError (Unit {0})
validate_provenance r key =
    ensure (may_be r.tenant_id key.tenant_id) invalid_evaluation
    >> ensure (may_be r.venue_id key.venue_id) invalid_evaluation
    >> ensure (may_be r.session_id key.session_id) invalid_evaluation
    >> reject
        (is_match r.status
          && not (is_some r.tenant_id && is_some r.venue_id && is_some r.session_id))
        invalid_evaluation

abbrev pub is_none : List EvidenceRef → Bool
is_none [] = true
is_none (e ∷ es) = false

module _ (uuid5 : List Part → ℕ) where
  unfoldable pub validate_match :
      RuleDefinition → RuleInput → Option RuleEvent → Result RuleError (Unit {0})
  validate_match rule inp none = err invalid_evaluation
  validate_match rule inp (some event) =
      ensure (event.event_type is rule.output_event_type) invalid_evaluation
      >> ensure
          (event.event_id
            == deterministic_event_id uuid5 rule inp inp.event_time rule.output_event_type)
          invalid_evaluation
      >> ensure (event.event_time == inp.event_time) invalid_evaluation

  abbrev pub validate_status :
      RuleDefinition → RuleInput → RuleResult → Status → Result RuleError (Unit {0})
  validate_status rule inp r match_found = validate_match rule inp r.event
  validate_status rule inp r no_match = reject (is_some r.event) invalid_evaluation
  validate_status rule inp r suppressed = reject (is_some r.event) invalid_evaluation
  validate_status rule inp r invalid = ensure r.has_reason invalid_evaluation

  unfoldable pub validate_result :
      RuleDefinition → RuleInput → RuleResult → Result RuleError (Unit {0})
  validate_result rule inp r =
      ensure (str_eq r.rule_id rule.rule_id && str_eq r.rule_version rule.rule_version)
        invalid_evaluation
      >> ensure (r.configuration_version_id == inp.configuration_version_id) invalid_evaluation
      >> ensure (r.event_time == inp.event_time) invalid_evaluation
      >> validate_provenance r (key_of inp.primary)
      >> validate_status rule inp r r.status

  abbrev pub policy_for :
      EvidenceRequirement
      → RuleDefinition
      → RuleInput
      → RuleResult
      → RuleEvent
      → Result RuleError RuleResult
  policy_for required rule inp r event = ok (
      if is_none r.evidence_requests
      then record r {
        evidence_requests = deterministic_evidence_ref uuid5 rule inp event.event_id ∷ [];
      }
      else r)
  policy_for unneeded rule inp r event =
      ensure (is_none r.evidence_requests) invalid_evaluation >> ok r
  policy_for optional rule inp r event = ok r

  abbrev pub with_event :
      RuleDefinition → RuleInput → RuleResult → Option RuleEvent → Result RuleError RuleResult
  with_event rule inp r none = err invalid_evaluation
  with_event rule inp r (some event) = policy_for rule.evidence_requirement rule inp r event

  unfoldable pub apply_evidence_policy :
      RuleDefinition → RuleInput → RuleResult → Result RuleError RuleResult
  apply_evidence_policy rule inp r =
      if is_match r.status then with_event rule inp r r.event else ok r

  unfoldable pub evaluate :
      RuleRegistry → List Evaluator → String → String → RuleInput → Result RuleError RuleResult
  evaluate registry evaluators id version inp = resolve registry id version >>= λ rule.
      validate_input rule inp >> resolve_evaluator evaluators rule.evaluator_id >>= λ evaluator.
      execute evaluator rule inp >>= λ r.
      validate_result rule inp r >> apply_evidence_policy rule inp r
