-- ===== src/Rules/Answers.antt =====
-- The checks of `RuleEvaluationEngine` around the call of an evaluator, one by one.

use mathlib.Core.List.{Memᴰ}
use text.Mathlib.Text.{◌==◌ as str_eq}
use text.Mathlib.TextEquality.{eq_iff}
use hotelops_ai.Prelude.{
  ℕ, ◌≡◌, refl, true, false, ◌&&◌, Option, none, some, List, [], ◌∷◌, String, ◌is◌, ◌==◌, contains,
  ok, ◌>>◌, >>=-eq-ok, ensure, arith, is_iff,
}
use hotelops_ai.Temporal.Model.{TemporalStateKey, Part}
use hotelops_ai.Rules.{
  EvidenceRef, Fact, fact_type_name, key_of, RuleDefinition, RuleInput, RuleError, RuleEvent,
  Status, no_match, match_found, suppressed, invalid, RuleResult, event_type_name, is_result,
  deterministic_event_id,
}
use hotelops_ai.Rules.Registry.{
  Evaluator, fact_type_of, same_scope, validate_facts, validate_input, has_keys,
}
use hotelops_ai.Rules.Engine.{
  is_match, validate_status, execute, validate_provenance, validate_match, validate_result,
}

-- The fact is of a type that the rule declares, and of the scope.
abbrev pub IsDeclared : RuleDefinition → TemporalStateKey → Fact → Type 0
IsDeclared rule key fact =
    (contains rule.input_fact_types (fact_type_of fact) ≡ true)
    × (same_scope key (key_of fact) ≡ true)

same_scope_self : (key : TemporalStateKey) → same_scope key key ≡ true
same_scope_self key = ground arith

validate_facts-IsDeclared :
    (rule : RuleDefinition) (key : TemporalStateKey) (facts : List Fact) {u : Unit}
    → validate_facts rule key facts ≡ ok u
    → (fact : Fact) → Memᴰ fact facts
    → IsDeclared rule key fact
unfolding validate_facts
validate_facts-IsDeclared rule key [] h fact m = elim m [ ]
validate_facts-IsDeclared rule key (f ∷ facts) h fact m =
    let (done, checked, rest) =
      >>=-eq-ok
        (ensure (contains rule.input_fact_types (fact_type_of f)) RuleError.unsupported_fact_type
          >> ensure (same_scope key (key_of f)) RuleError.mixed_scope)
        (λ _. validate_facts rule key facts) h in
    elim m [
      | Memᴰ.head same ↦ rw same (ground (arith, checked))
      | Memᴰ.tail later ↦ validate_facts-IsDeclared rule key facts rest fact later
    ]

pub validate_input-IsDeclared :
    (rule : RuleDefinition) (inp : RuleInput) {u : Unit}
    → validate_input rule inp ≡ ok u
    → (fact : Fact) → Memᴰ fact (inp.primary ∷ inp.others)
    → IsDeclared rule (key_of inp.primary) fact
unfolding validate_input
validate_input-IsDeclared rule inp h fact m =
    let (done, checked, rest) =
      >>=-eq-ok
        (ensure (str_eq inp.rule_version rule.rule_version) RuleError.configuration_mismatch
          >> ensure (has_keys inp.configuration rule.configuration_requirements)
              RuleError.missing_configuration
          >> ensure (contains rule.input_fact_types (fact_type_of inp.primary))
              RuleError.unsupported_fact_type)
        (λ _. validate_facts rule (key_of inp.primary) inp.others) h in
    elim m [
      | Memᴰ.head same ↦ rw same (ground (arith, checked), same_scope_self (key_of inp.primary))
      | Memᴰ.tail later ↦
          validate_facts-IsDeclared rule (key_of inp.primary) inp.others rest fact later
    ]

pub execute-is_result :
    (evaluator : Evaluator) (rule : RuleDefinition) (inp : RuleInput) (r : RuleResult)
    → execute evaluator rule inp ≡ ok r
    → is_result r ≡ true
unfolding execute
execute-is_result evaluator rule inp r h = ground (arith, h)

validate_provenance_ok :
    (r : RuleResult) (key : TemporalStateKey) {u : Unit}
    → validate_provenance r key ≡ ok u
    → is_match r.status ≡ true
    → (r.tenant_id ≡ some key.tenant_id)
      × (r.venue_id ≡ some key.venue_id)
      × (r.session_id ≡ some key.session_id)
unfolding validate_provenance
validate_provenance_ok r key h m = ground (arith, h, m)

module _ (uuid5 : List Part → ℕ) where
  -- The event is the one of the rule at the input.
  abbrev pub IsEvent : RuleDefinition → RuleInput → RuleEvent → Type 0
  IsEvent rule inp event =
      (event.event_type ≡ rule.output_event_type)
      × (event.event_id
          ≡ deterministic_event_id uuid5 rule inp inp.event_time rule.output_event_type)
      × (event.event_time ≡ inp.event_time)

  validate_match-IsEvent :
      (rule : RuleDefinition) (inp : RuleInput) (event : Option RuleEvent) {u : Unit}
      → validate_match uuid5 rule inp event ≡ ok u
      → (e : RuleEvent) × (event ≡ some e) × IsEvent rule inp e
  unfolding validate_match
  validate_match-IsEvent rule inp none h = ground (arith, h)
  validate_match-IsEvent rule inp (some e) h =
      let (done, checked, timed) =
        >>=-eq-ok
          (ensure (e.event_type is rule.output_event_type) RuleError.invalid_evaluation
            >> ensure
                (e.event_id
                  == deterministic_event_id uuid5 rule inp inp.event_time rule.output_event_type)
                RuleError.invalid_evaluation)
          (λ _. ensure (e.event_time == inp.event_time) RuleError.invalid_evaluation) h in
      let same = (is_iff e.event_type rule.output_event_type).0 (ground (arith, checked)) in
      (e, refl, (same, ground (arith, checked), ground (arith, timed)))

  -- The event of a result, by its status.
  pub record IsAnswered (rule : RuleDefinition) (inp : RuleInput) (r : RuleResult) : Type 0 where
    pub rule_id : r.rule_id ≡ rule.rule_id
    pub rule_version : r.rule_version ≡ rule.rule_version
    pub configuration : r.configuration_version_id ≡ inp.configuration_version_id
    pub event_time : r.event_time ≡ inp.event_time
    pub scope :
        is_match r.status ≡ true
        → (r.tenant_id ≡ some (key_of inp.primary).tenant_id)
          × (r.venue_id ≡ some (key_of inp.primary).venue_id)
          × (r.session_id ≡ some (key_of inp.primary).session_id)
    pub event : is_match r.status ≡ true → (e : RuleEvent) × (r.event ≡ some e) × IsEvent rule inp e
    pub silent : is_match r.status ≡ false → r.event ≡ none

  is_result-silent :
      (r : RuleResult) → is_result r ≡ true → is_match r.status ≡ false → r.event ≡ none
  is_result-silent r h m = ground (arith, h, m)

  validate_status-IsEvent :
      (rule : RuleDefinition) (inp : RuleInput) (r : RuleResult) (status : Status) {u : Unit}
      → validate_status uuid5 rule inp r status ≡ ok u
      → is_match status ≡ true
      → (e : RuleEvent) × (r.event ≡ some e) × IsEvent rule inp e
  validate_status-IsEvent rule inp r match_found h m = validate_match-IsEvent rule inp r.event h
  validate_status-IsEvent rule inp r no_match h m = ground (arith, m)
  validate_status-IsEvent rule inp r suppressed h m = ground (arith, m)
  validate_status-IsEvent rule inp r invalid h m = ground (arith, m)

  named : (a b c d : String) → (str_eq a b && str_eq c d) ≡ true → (a ≡ b) × (c ≡ d)
  named a b c d h = ((eq_iff a b).0 (ground (arith, h)), (eq_iff c d).0 (ground (arith, h)))

  pub validate_result-IsAnswered :
      (rule : RuleDefinition) (inp : RuleInput) (r : RuleResult) {u : Unit}
      → is_result r ≡ true
      → validate_result uuid5 rule inp r ≡ ok u
      → IsAnswered rule inp r
  unfolding validate_result
  validate_result-IsAnswered rule inp r sound h =
      let identity =
        ensure (str_eq r.rule_id rule.rule_id && str_eq r.rule_version rule.rule_version)
          RuleError.invalid_evaluation in
      let versioned =
        ensure (r.configuration_version_id == inp.configuration_version_id)
          RuleError.invalid_evaluation in
      let timed = ensure (r.event_time == inp.event_time) RuleError.invalid_evaluation in
      let scoped = validate_provenance r (key_of inp.primary) in
      let (done, before, status) =
        >>=-eq-ok (identity >> versioned >> timed >> scoped)
          (λ _. validate_status uuid5 rule inp r r.status) h in
      let (done, first, provenance) =
        >>=-eq-ok (identity >> versioned >> timed) (λ _. scoped) before in
      let ids =
        named r.rule_id rule.rule_id r.rule_version rule.rule_version (ground (arith, first)) in
      record {
        rule_id = ids.0;
        rule_version = ids.1;
        configuration = ground (arith, first);
        event_time = ground (arith, first);
        scope = validate_provenance_ok r (key_of inp.primary) provenance;
        event = validate_status-IsEvent rule inp r r.status status;
        silent = is_result-silent r sound;
      }

  -- The evidence requests are no part of it.
  pub IsAnswered-requests :
      (rule : RuleDefinition) (inp : RuleInput) (r : RuleResult) (requests : List EvidenceRef)
      → IsAnswered rule inp r
      → IsAnswered rule inp (record r { evidence_requests = requests })
  IsAnswered-requests rule inp r requests a = record {
    rule_id = a.rule_id;
    rule_version = a.rule_version;
    configuration = a.configuration;
    event_time = a.event_time;
    scope = a.scope;
    event = a.event;
    silent = a.silent;
  }
