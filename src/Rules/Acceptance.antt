-- ===== src/Rules/Acceptance.antt =====
-- The engine accepts every result of the operational evaluators.
use text.Mathlib.Text.{◌==◌ as str_eq}
use text.Mathlib.TextPositions.{eq_refl}
use hotelops_ai.Prelude.{
  ℕ, ◌+◌, ◌≡◌, refl, Bool, true, false, ◌&&◌, Option, none, some, List, [], String, ◌==◌, ltb,
  is_some, if-elim, ok, arith,
}
use hotelops_ai.Temporal.Model.{Instant, TemporalStateKey, DwellInterval, Part}
use hotelops_ai.Temporal.Occupancy.{OccupancySnapshot}
use hotelops_ai.Temporal.Waiting.{WaitingInterval}
use hotelops_ai.Rules.{
  Fact, dwell, occupancy, waiting, key_of, RuleDefinition, RuleInput, Phase, Payload, EvidenceRef,
  EvidenceRequirement, unneeded, optional, required, RuleResult, is_result, episode, session,
}
use hotelops_ai.Rules.Registry.{RuleRegistry, Evaluator, resolve, validate_input, resolve_evaluator}
use hotelops_ai.Rules.Engine.{
  execute, validate_result, validate_match, validate_provenance, apply_evidence_policy, policy_for,
  evaluate,
}
use hotelops_ai.Rules.Evaluators.{
  invalid_result, quiet_result, build_event, match_result, boundary, at_boundary, session_of,
  occupancy_session_on, occupancy_session_evaluate, against, threshold_of, threshold_crossed,
  dwell_threshold_on, dwell_threshold_evaluate, in_area, by_area, area_ids_of, queued,
  queue_candidate_on, queue_candidate_evaluate, unserved, service_gap_on, service_gap_evaluate,
  space_occupied, window_of, against_window, turned_over, turnover_delay_on,
  turnover_delay_evaluate,
}

module _ (uuid5 : List Part → ℕ) where
  -- The results that an evaluator builds.
  data IsBuilt (rule : RuleDefinition) (inp : RuleInput) (key : TemporalStateKey)
      : RuleResult → Type 0 where
    refuses : IsBuilt rule inp key (invalid_result rule inp)
    quiet : IsBuilt rule inp key (quiet_result rule inp key)
    matches : (payload : Payload) → IsBuilt rule inp key (match_result uuid5 rule inp key payload)

  module _ (rule : RuleDefinition) (inp : RuleInput) where
    at_boundary-IsBuilt :
        (s : OccupancySnapshot) (phase : Option Phase)
        → IsBuilt rule inp s.key (at_boundary uuid5 rule inp s phase)
    at_boundary-IsBuilt s none = quiet
    at_boundary-IsBuilt s (some phase) = matches (session phase s.occupancy_count s.occupied_tracks)

    session_of-IsBuilt :
        (s : OccupancySnapshot) → IsBuilt rule inp s.key (session_of uuid5 rule inp s)
    unfolding session_of
    session_of-IsBuilt s =
        if-elim (IsBuilt rule inp s.key)
          (str_eq s.key.fsm_kind "occupancy" && s.event_time == inp.event_time)
          (λ _. at_boundary-IsBuilt s (boundary s.previous_count s.occupancy_count)) (λ _. refuses)

    against-IsBuilt :
        (key : TemporalStateKey) (id : ℕ) (start : Instant) (duration : ℕ) (threshold : Option ℕ)
        (window : ℕ)
        → IsBuilt rule inp key (against uuid5 rule inp key id start duration threshold window)
    unfolding against
    against-IsBuilt key id start duration none window = refuses
    against-IsBuilt key id start duration (some t) window =
        if-elim (IsBuilt rule inp key) (ltb duration (window + t)) (λ _. quiet)
          (λ _. matches (episode id start duration window t))

    threshold_crossed-IsBuilt :
        (i : DwellInterval) → IsBuilt rule inp i.key (threshold_crossed uuid5 rule inp i)
    unfolding threshold_crossed
    threshold_crossed-IsBuilt i =
        if-elim (IsBuilt rule inp i.key)
          (str_eq i.key.fsm_kind "dwell" && i.last_seen == inp.event_time)
          (λ _.
            against-IsBuilt i.key i.interval_id i.dwell_start i.duration
              (threshold_of inp "dwell_threshold_seconds") 0)
          (λ _. refuses)

    -- The interval that the evaluators on intervals look at, at the instant of the input.
    by_area-IsBuilt :
        (key : TemporalStateKey) (inside : Option Bool) (r : RuleResult)
        → IsBuilt rule inp key r
        → IsBuilt rule inp key (by_area rule inp key inside r)
    by_area-IsBuilt key none r built = refuses
    by_area-IsBuilt key (some false) r built = quiet
    by_area-IsBuilt key (some true) r built = built

    queued-IsBuilt :
        (extra : RuleInput → Bool) (i : WaitingInterval)
        → IsBuilt rule inp i.key (queued uuid5 extra rule inp i)
    unfolding queued
    queued-IsBuilt extra i =
        if-elim (IsBuilt rule inp i.key)
          (str_eq i.key.fsm_kind "waiting" && i.last_seen == inp.event_time)
          (λ _.
            by_area-IsBuilt i.key
              (in_area i.key.semantic_context (area_ids_of inp "queue_area_ids")) _
              (if-elim (IsBuilt rule inp i.key) (extra inp)
                (λ _.
                  against-IsBuilt i.key i.interval_id i.waiting_start i.duration
                    (threshold_of inp "waiting_qualification_seconds") 0)
                (λ _. refuses)))
          (λ _. refuses)

    unserved-IsBuilt : (i : WaitingInterval) → IsBuilt rule inp i.key (unserved uuid5 rule inp i)
    unfolding unserved
    unserved-IsBuilt i =
        if-elim (IsBuilt rule inp i.key)
          (str_eq i.key.fsm_kind "waiting" && i.last_seen == inp.event_time)
          (λ _.
            if-elim (IsBuilt rule inp i.key) (is_some i.reason) (λ _. quiet)
              (λ _.
                by_area-IsBuilt i.key
                  (in_area i.key.semantic_context (area_ids_of inp "service_area_ids")) _
                  (against-IsBuilt i.key i.interval_id i.waiting_start i.duration
                    (threshold_of inp "service_gap_grace_seconds") 0)))
          (λ _. refuses)

    against_window-IsBuilt :
        (i : DwellInterval) (window threshold : Option ℕ)
        → IsBuilt rule inp i.key (against_window uuid5 rule inp i window threshold)
    unfolding against_window
    against_window-IsBuilt i none threshold = refuses
    against_window-IsBuilt i (some window) threshold =
        against-IsBuilt i.key i.interval_id i.dwell_start i.duration threshold window

    turned_over-IsBuilt :
        (i : DwellInterval) → IsBuilt rule inp i.key (turned_over uuid5 rule inp i)
    unfolding turned_over
    turned_over-IsBuilt i =
        if-elim (IsBuilt rule inp i.key)
          (str_eq i.key.fsm_kind "dwell" && i.last_seen == inp.event_time)
          (λ _.
            if-elim (IsBuilt rule inp i.key) (is_some i.reason) (λ _. quiet)
              (λ _.
                if-elim (IsBuilt rule inp i.key) (is_some i.key.semantic_context)
                  (λ _.
                    if-elim (IsBuilt rule inp i.key) (space_occupied inp.others)
                      (λ _.
                        against_window-IsBuilt i (window_of inp "service_window_seconds")
                          (threshold_of inp "turnover_delay_seconds"))
                      (λ _. quiet))
                  (λ _. refuses)))
          (λ _. refuses)

  occupancy_session_on-IsBuilt :
      (rule : RuleDefinition) (inp : RuleInput) (fact : Fact)
      → IsBuilt rule inp (key_of fact) (occupancy_session_on uuid5 rule inp fact)
  occupancy_session_on-IsBuilt rule inp (occupancy s) = session_of-IsBuilt rule inp s
  occupancy_session_on-IsBuilt rule inp _ = refuses

  dwell_threshold_on-IsBuilt :
      (rule : RuleDefinition) (inp : RuleInput) (fact : Fact)
      → IsBuilt rule inp (key_of fact) (dwell_threshold_on uuid5 rule inp fact)
  dwell_threshold_on-IsBuilt rule inp (dwell i) = threshold_crossed-IsBuilt rule inp i
  dwell_threshold_on-IsBuilt rule inp _ = refuses

  queue_candidate_on-IsBuilt :
      (extra : RuleInput → Bool) (rule : RuleDefinition) (inp : RuleInput) (fact : Fact)
      → IsBuilt rule inp (key_of fact) (queue_candidate_on uuid5 extra rule inp fact)
  queue_candidate_on-IsBuilt extra rule inp (waiting i) = queued-IsBuilt rule inp extra i
  queue_candidate_on-IsBuilt extra rule inp _ = refuses

  service_gap_on-IsBuilt :
      (rule : RuleDefinition) (inp : RuleInput) (fact : Fact)
      → IsBuilt rule inp (key_of fact) (service_gap_on uuid5 rule inp fact)
  service_gap_on-IsBuilt rule inp (waiting i) = unserved-IsBuilt rule inp i
  service_gap_on-IsBuilt rule inp _ = refuses

  turnover_delay_on-IsBuilt :
      (rule : RuleDefinition) (inp : RuleInput) (fact : Fact)
      → IsBuilt rule inp (key_of fact) (turnover_delay_on uuid5 rule inp fact)
  turnover_delay_on-IsBuilt rule inp (dwell i) = turned_over-IsBuilt rule inp i
  turnover_delay_on-IsBuilt rule inp _ = refuses

  -- The evaluators of the catalogue, the queue rule in its two versions.
  pub data IsOperational : (RuleDefinition → RuleInput → RuleResult) → Type 0 where
    occupancy_sessions : IsOperational (occupancy_session_evaluate uuid5)
    dwell_thresholds : IsOperational (dwell_threshold_evaluate uuid5)
    queue_candidates :
        (extra : RuleInput → Bool) → IsOperational (queue_candidate_evaluate uuid5 extra)
    service_gaps : IsOperational (service_gap_evaluate uuid5)
    turnover_delays : IsOperational (turnover_delay_evaluate uuid5)

  IsOperational-IsBuilt :
      (f : RuleDefinition → RuleInput → RuleResult)
      → IsOperational f
      → (rule : RuleDefinition) (inp : RuleInput)
      → IsBuilt rule inp (key_of inp.primary) (f rule inp)
  unfolding occupancy_session_evaluate dwell_threshold_evaluate queue_candidate_evaluate
      service_gap_evaluate turnover_delay_evaluate
  IsOperational-IsBuilt f occupancy_sessions rule inp =
      occupancy_session_on-IsBuilt rule inp inp.primary
  IsOperational-IsBuilt f dwell_thresholds rule inp =
      dwell_threshold_on-IsBuilt rule inp inp.primary
  IsOperational-IsBuilt f (queue_candidates extra) rule inp =
      queue_candidate_on-IsBuilt extra rule inp inp.primary
  IsOperational-IsBuilt f service_gaps rule inp = service_gap_on-IsBuilt rule inp inp.primary
  IsOperational-IsBuilt f turnover_delays rule inp = turnover_delay_on-IsBuilt rule inp inp.primary

  IsBuilt-is_result :
      (rule : RuleDefinition) (inp : RuleInput) (key : TemporalStateKey) (r : RuleResult)
      → IsBuilt rule inp key r
      → is_result r ≡ true
  IsBuilt-is_result rule inp key r refuses = refl
  IsBuilt-is_result rule inp key r quiet = refl
  IsBuilt-is_result rule inp key r (matches payload) = refl

  IsBuilt-validate_result :
      (rule : RuleDefinition) (inp : RuleInput) (r : RuleResult)
      → IsBuilt rule inp (key_of inp.primary) r
      → validate_result uuid5 rule inp r ≡ ok tt
  unfolding validate_result validate_match validate_provenance
  IsBuilt-validate_result rule inp r refuses =
      ground (arith, eq_refl rule.rule_id, eq_refl rule.rule_version)
  IsBuilt-validate_result rule inp r quiet =
      ground (arith, eq_refl rule.rule_id, eq_refl rule.rule_version)
  IsBuilt-validate_result rule inp r (matches payload) =
      ground (arith, eq_refl rule.rule_id, eq_refl rule.rule_version)

  policy_for-passes :
      (rule : RuleDefinition) (inp : RuleInput) (key : TemporalStateKey) (payload : Payload)
      (requirement : EvidenceRequirement)
      → let r = match_result uuid5 rule inp key payload in
        (requests : List EvidenceRef) × (policy_for uuid5 requirement rule inp r
            (build_event uuid5 rule inp key payload)
          ≡ ok (record r { evidence_requests = requests }))
  policy_for-passes rule inp key payload required = (_, refl)
  policy_for-passes rule inp key payload unneeded = (_, refl)
  policy_for-passes rule inp key payload optional = (_, refl)

  -- The policy on the evidence lets a built result through, and adds a request at most.
  IsBuilt-apply_evidence_policy :
      (rule : RuleDefinition) (inp : RuleInput) (key : TemporalStateKey) (r : RuleResult)
      → IsBuilt rule inp key r
      → (requests : List EvidenceRef) × (apply_evidence_policy uuid5 rule inp r
          ≡ ok (record r { evidence_requests = requests }))
  unfolding apply_evidence_policy
  IsBuilt-apply_evidence_policy rule inp key r refuses = ([], refl)
  IsBuilt-apply_evidence_policy rule inp key r quiet = ([], refl)
  IsBuilt-apply_evidence_policy rule inp key r (matches payload) =
      policy_for-passes rule inp key payload rule.evidence_requirement

  -- An operational evaluator never fails the checks of the engine: where the rule resolves, the
  -- input passes its validation and the rule's evaluator is an operational one, the evaluation
  -- returns the evaluator's result, with the evidence requests of the rule's policy.
  pub evaluate-IsOperational :
      (registry : RuleRegistry) (evaluators : List Evaluator) (id version : String)
      (inp : RuleInput) (rule : RuleDefinition) (evaluator : Evaluator)
      (f : RuleDefinition → RuleInput → RuleResult)
      → resolve registry id version ≡ ok rule
      → validate_input rule inp ≡ ok tt
      → resolve_evaluator evaluators rule.evaluator_id ≡ ok evaluator
      → IsOperational f
      → evaluator.evaluate rule inp ≡ ok (f rule inp)
      → (requests : List EvidenceRef) × (evaluate uuid5 registry evaluators id version inp
          ≡ ok (record (f rule inp) { evidence_requests = requests }))
  unfolding evaluate execute
  evaluate-IsOperational registry evaluators id version inp rule evaluator f resolved valid found
        operational answers =
      let built = IsOperational-IsBuilt f operational rule inp in
      let (requests, settled) =
        IsBuilt-apply_evidence_policy rule inp (key_of inp.primary) (f rule inp) built in
      (
        requests,
        rw
            (
              resolved,
              valid,
              found,
              answers,
              IsBuilt-is_result rule inp (key_of inp.primary) (f rule inp) built,
              IsBuilt-validate_result rule inp (f rule inp) built,
            )
            settled,
      )
