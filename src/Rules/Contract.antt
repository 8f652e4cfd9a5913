-- ===== src/Rules/Contract.antt =====
-- What an evaluation that returns promises, whatever the evaluator did.
use mathlib.Core.Path.{subst}
use mathlib.Core.List.{Memᴰ}
use hotelops_ai.Prelude.{
  ℕ, ◌≡◌, sym, ap, ◌∙◌, inl, inr, true, false, Option, none, some, List, ◌∷◌, String, Result, ok,
  ◌>>=◌, ◌>>◌, >>=-eq-ok, arith, Bool-cases,
}
use hotelops_ai.Temporal.Model.{Part}
use hotelops_ai.Rules.{
  Fact, fact_type_name, key_of, RuleDefinition, RuleInput, RuleError, RuleEvent,
  EvidenceRequirement, unneeded, required, RuleResult, event_type_name,
}
use hotelops_ai.Rules.Registry.{RuleRegistry, Evaluator, resolve, validate_input, resolve_evaluator}
use hotelops_ai.Rules.Engine.{
  is_match, is_none, policy_for, with_event, execute, validate_result, apply_evidence_policy,
  evaluate,
}
use hotelops_ai.Rules.Answers.{
  IsDeclared, validate_input-IsDeclared, execute-is_result, IsAnswered, IsAnswered-requests,
  validate_result-IsAnswered,
}

module _ (uuid5 : List Part → ℕ) where
  -- The policy sets the evidence requests, and nothing else.
  policy_for_only :
      (requirement : EvidenceRequirement) (rule : RuleDefinition) (inp : RuleInput)
      (r final : RuleResult) (e : RuleEvent)
      → policy_for uuid5 requirement rule inp r e ≡ ok final
      → final ≡ record r { evidence_requests = final.evidence_requests }
  policy_for_only required rule inp r final e h = ground (arith, h)
  policy_for_only unneeded rule inp r final e h = ground (arith, h)
  policy_for_only EvidenceRequirement.optional rule inp r final e h = ground (arith, h)

  with_event_only :
      (rule : RuleDefinition) (inp : RuleInput) (r final : RuleResult) (event : Option RuleEvent)
      → with_event uuid5 rule inp r event ≡ ok final
      → final ≡ record r { evidence_requests = final.evidence_requests }
  with_event_only rule inp r final none h = ground (arith, h)
  with_event_only rule inp r final (some e) h =
      policy_for_only rule.evidence_requirement rule inp r final e h

  apply_evidence_policy_only :
      (rule : RuleDefinition) (inp : RuleInput) (r final : RuleResult)
      → apply_evidence_policy uuid5 rule inp r ≡ ok final
      → final ≡ record r { evidence_requests = final.evidence_requests }
  unfolding apply_evidence_policy
  apply_evidence_policy_only rule inp r final h = elim (Bool-cases (is_match r.status)) [
    | inl matched ↦ with_event_only rule inp r final r.event (rw matched at h)
    | inr other ↦ ground (arith, rw other at h)
  ]

  -- What the rule's evidence requirement asks of a match.
  abbrev pub IsRequested : RuleDefinition → RuleResult → Type 0
  IsRequested rule r =
      (rule.evidence_requirement ≡ required → is_none r.evidence_requests ≡ false)
      × (rule.evidence_requirement ≡ unneeded → is_none r.evidence_requests ≡ true)

  with_event-IsRequested :
      (rule : RuleDefinition) (inp : RuleInput) (r final : RuleResult) (event : Option RuleEvent)
      → with_event uuid5 rule inp r event ≡ ok final
      → IsRequested rule final
  with_event-IsRequested rule inp r final none h = ground (arith, h)
  with_event-IsRequested rule inp r final (some e) h =
      (λ asked. ground (arith, rw asked at h), λ asked. ground (arith, rw asked at h))

  apply_evidence_policy-IsRequested :
      (rule : RuleDefinition) (inp : RuleInput) (r final : RuleResult)
      → apply_evidence_policy uuid5 rule inp r ≡ ok final
      → is_match r.status ≡ true
      → IsRequested rule final
  unfolding apply_evidence_policy
  apply_evidence_policy-IsRequested rule inp r final h m =
      with_event-IsRequested rule inp r final r.event (rw m at h)

  -- An evaluation that returns: the rule is the one that resolves, every fact was declared, and the
  -- result answers for the rule and the input.
  pub record IsContract (registry : RuleRegistry) (id version : String) (inp : RuleInput)
      (r : RuleResult) : Type 0 where
    rule : RuleDefinition
    resolved : resolve registry id version ≡ ok rule
    facts_declared :
        (fact : Fact)
        → Memᴰ fact (inp.primary ∷ inp.others)
        → IsDeclared rule (key_of inp.primary) fact
    answered : IsAnswered uuid5 rule inp r
    requested : is_match r.status ≡ true → IsRequested rule r

  -- The steps of the evaluation behind the resolution of the rule.
  abbrev after_resolve : List Evaluator → RuleInput → RuleDefinition → Result RuleError RuleResult
  after_resolve evaluators inp rule =
      validate_input rule inp >> resolve_evaluator evaluators rule.evaluator_id >>= λ evaluator.
      execute evaluator rule inp >>= λ r.
      validate_result uuid5 rule inp r >> apply_evidence_policy uuid5 rule inp r

  -- When an evaluation returns a result, whatever the evaluator did: the rule resolved, all facts of
  -- the input are of the types that it declares and of one scope, the result names the rule, its
  -- version, the configuration version and the instant of the input, a match carries an event of the
  -- rule's type with the deterministic identifier and the instant of the input, and names the tenant,
  -- the venue and the session of the primary fact, no other result carries an event, and a match has
  -- evidence requests where the rule requires them and none where it takes none.
  pub evaluate-IsContract :
      (registry : RuleRegistry) (evaluators : List Evaluator) (id version : String)
      (inp : RuleInput) (r : RuleResult)
      → evaluate uuid5 registry evaluators id version inp ≡ ok r
      → IsContract registry id version inp r
  unfolding evaluate
  evaluate-IsContract registry evaluators id version inp r h =
      let (rule, resolved, rest) =
        >>=-eq-ok (resolve registry id version) (after_resolve evaluators inp) h in
      let (evaluator, checked, run) =
        >>=-eq-ok (validate_input rule inp >> resolve_evaluator evaluators rule.evaluator_id)
          (λ evaluator. execute evaluator rule inp >>= λ r.
            validate_result uuid5 rule inp r >> apply_evidence_policy uuid5 rule inp r)
          rest in
      let (facts, valid, found) =
        >>=-eq-ok (validate_input rule inp) (λ _. resolve_evaluator evaluators rule.evaluator_id)
          checked in
      let (result, executed, settled) =
        >>=-eq-ok (execute evaluator rule inp)
          (λ r. validate_result uuid5 rule inp r >> apply_evidence_policy uuid5 rule inp r) run in
      let (done, validated, policed) =
        >>=-eq-ok (validate_result uuid5 rule inp result)
          (λ _. apply_evidence_policy uuid5 rule inp result) settled in
      let same = apply_evidence_policy_only rule inp result r policed in
      let answered = IsAnswered-requests uuid5 rule inp result r.evidence_requests (
        validate_result-IsAnswered uuid5 rule inp result
          (execute-is_result evaluator rule inp result executed) validated) in
      record {
        rule = rule;
        resolved = resolved;
        facts_declared = validate_input-IsDeclared rule inp valid;
        answered = subst (IsAnswered uuid5 rule inp) (sym same) answered;
        requested = λ matched.
            apply_evidence_policy-IsRequested rule inp result r policed
              (ap (λ x. is_match x.status) (sym same) ∙ matched);
      }
