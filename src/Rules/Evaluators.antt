-- ===== src/Rules/Evaluators.antt =====
-- The evaluators of backend/app/intelligence/rules: occupancy_session.py, dwell_threshold.py,
-- queue_candidate.py, service_gap_candidate.py and turnover_delay.py. Durations and thresholds are in
-- the same unit, and an interval has a duration, as those of the engines have.
use text.Mathlib.Text.{◌==◌ as str_eq}
use hotelops_ai.Prelude.{
  ℕ, zero, suc, ◌+◌, Bool, true, false, ◌&&◌, ◌||◌, Option, none, some, List, [], ◌∷◌, String, ◌==◌,
  ltb, is_some, or_else, if◌then◌else◌,
}
use hotelops_ai.Temporal.Model.{Instant, TemporalStateKey, DwellInterval, Part}
use hotelops_ai.Temporal.Occupancy.{OccupancySnapshot}
use hotelops_ai.Temporal.Waiting.{WaitingInterval}
use hotelops_ai.Rules.{
  Fact, transition, dwell, occupancy, movement, classification, waiting, RuleDefinition, Value,
  RuleInput, Phase, started, ended, Payload, session, episode, RuleEvent, Status, no_match,
  match_found, invalid, RuleResult, deterministic_event_id,
}

-- `configuration.get`
abbrev pub get_value : List (String × Value) → String → Option Value
get_value [] k = none
get_value ((name, v) ∷ configuration) k =
    if str_eq name k then some v else get_value configuration k

abbrev number_of : Option Value → Option ℕ
number_of none = none
number_of (some v) = v.number

abbrev positive : Option ℕ → Option ℕ
positive (some (suc n)) = some (suc n)
positive (some zero) = none
positive none = none

-- `_threshold_of`
abbrev pub threshold_in : List (String × Value) → String → Option ℕ
threshold_in configuration k = positive (number_of (get_value configuration k))

abbrev pub threshold_of : RuleInput → String → Option ℕ
threshold_of inp k = threshold_in inp.configuration k

-- `_service_window_of`
abbrev pub window_of : RuleInput → String → Option ℕ
window_of inp k = number_of (get_value inp.configuration k)

abbrev cleaned : List (Option String) → Option (List String)
cleaned [] = some []
cleaned (none ∷ items) = none
cleaned (some t ∷ items) = elim (cleaned items) [ none ↦ none | some ts ↦ some (t ∷ ts) ]

abbrev cleaned_items : Option (List (Option String)) → Option (List String)
cleaned_items none = none
cleaned_items (some []) = none
cleaned_items (some (i ∷ items)) = cleaned (i ∷ items)

abbrev areas_in : Option Value → Option (List String)
areas_in none = none
areas_in (some v) = cleaned_items v.items

-- `_queue_area_ids_of`, `_service_area_ids_of`
abbrev pub area_ids_of : RuleInput → String → Option (List String)
area_ids_of inp k = areas_in (get_value inp.configuration k)

abbrev pub is_area : List String → String → Bool
is_area [] c = false
is_area (t ∷ ts) c = str_eq t c || is_area ts c

-- The results that the evaluators build.
abbrev pub result_of : RuleDefinition → RuleInput → Status → RuleResult
result_of rule inp status = record {
  rule_id = rule.rule_id;
  rule_version = rule.rule_version;
  status = status;
  event_time = inp.event_time;
  configuration_version_id = inp.configuration_version_id;
  event = none;
  evidence_requests = [];
  tenant_id = none;
  venue_id = none;
  session_id = none;
  has_reason = false;
}

abbrev pub invalid_result : RuleDefinition → RuleInput → RuleResult
invalid_result rule inp = record (result_of rule inp invalid) { has_reason = true }

abbrev pub scoped : TemporalStateKey → RuleResult → RuleResult
scoped key r = record r {
  tenant_id = some key.tenant_id;
  venue_id = some key.venue_id;
  session_id = some key.session_id;
}

abbrev pub quiet_result : RuleDefinition → RuleInput → TemporalStateKey → RuleResult
quiet_result rule inp key = scoped key (result_of rule inp no_match)

-- The phase of the boundary between two counts.
abbrev pub boundary : ℕ → ℕ → Option Phase
boundary zero zero = none
boundary zero (suc n) = some started
boundary (suc m) zero = some ended
boundary (suc m) (suc n) = none

abbrev pub in_area : Option String → Option (List String) → Option Bool
in_area none areas = none
in_area (some c) none = none
in_area (some c) (some areas) = some (is_area areas c)

-- `_extra_configuration_invalid` of the two versions, as whether the configuration is valid.
abbrev pub no_extra : RuleInput → Bool
no_extra inp = true

abbrev pub has_max_length : RuleInput → Bool
has_max_length inp = is_some (threshold_of inp "queue_max_length")

-- `_space_occupied`: the first snapshot among the facts decides.
abbrev pub space_occupied : List Fact → Bool
space_occupied [] = true
space_occupied (occupancy s ∷ facts) = ltb 0 s.occupancy_count
space_occupied (transition key ∷ facts) = space_occupied facts
space_occupied (dwell i ∷ facts) = space_occupied facts
space_occupied (movement key ∷ facts) = space_occupied facts
space_occupied (classification key ∷ facts) = space_occupied facts
space_occupied (waiting i ∷ facts) = space_occupied facts

-- Behind the test of the area: no area to test, another area, one of the areas.
abbrev pub by_area :
    RuleDefinition → RuleInput → TemporalStateKey → Option Bool → RuleResult → RuleResult
by_area rule inp key none r = invalid_result rule inp
by_area rule inp key (some false) r = quiet_result rule inp key
by_area rule inp key (some true) r = r

module _ (uuid5 : List Part → ℕ) where
  -- `_build_event`
  abbrev pub build_event : RuleDefinition → RuleInput → TemporalStateKey → Payload → RuleEvent
  build_event rule inp key payload = record {
    event_id = deterministic_event_id uuid5 rule inp inp.event_time rule.output_event_type;
    event_type = rule.output_event_type;
    event_time = inp.event_time;
    produced_at = or_else inp.processing_time inp.event_time;
    source = (rule.rule_id, rule.rule_version);
    key = key;
    payload = payload;
  }

  abbrev pub match_result : RuleDefinition → RuleInput → TemporalStateKey → Payload → RuleResult
  match_result rule inp key payload = record (scoped key (result_of rule inp match_found)) {
    event = some (build_event rule inp key payload);
  }

  abbrev pub at_boundary :
      RuleDefinition → RuleInput → OccupancySnapshot → Option Phase → RuleResult
  at_boundary rule inp s none = quiet_result rule inp s.key
  at_boundary rule inp s (some phase) =
      match_result rule inp s.key (session phase s.occupancy_count s.occupied_tracks)

  unfoldable pub session_of : RuleDefinition → RuleInput → OccupancySnapshot → RuleResult
  session_of rule inp s =
      if str_eq s.key.fsm_kind "occupancy" && s.event_time == inp.event_time
      then at_boundary rule inp s (boundary s.previous_count s.occupancy_count)
      else invalid_result rule inp

  -- The evaluation of a fact.
  abbrev pub occupancy_session_on : RuleDefinition → RuleInput → Fact → RuleResult
  occupancy_session_on rule inp (occupancy s) = session_of rule inp s
  occupancy_session_on rule inp _ = invalid_result rule inp

  -- `OccupancySessionEvaluator.evaluate`
  unfoldable pub occupancy_session_evaluate : RuleDefinition → RuleInput → RuleResult
  occupancy_session_evaluate rule inp = occupancy_session_on rule inp inp.primary

  -- The comparison of a duration with the threshold, by the three rules on intervals.
  unfoldable pub against :
      RuleDefinition → RuleInput → TemporalStateKey → ℕ → Instant → ℕ → Option ℕ → ℕ → RuleResult
  against rule inp key id start duration none window = invalid_result rule inp
  against rule inp key id start duration (some threshold) window =
      if ltb duration (window + threshold)
      then quiet_result rule inp key
      else match_result rule inp key (episode id start duration window threshold)

  unfoldable pub threshold_crossed : RuleDefinition → RuleInput → DwellInterval → RuleResult
  threshold_crossed rule inp i =
      if str_eq i.key.fsm_kind "dwell" && i.last_seen == inp.event_time
      then against rule inp i.key i.interval_id i.dwell_start i.duration
          (threshold_of inp "dwell_threshold_seconds") 0
      else invalid_result rule inp

  -- The evaluation of a fact.
  abbrev pub dwell_threshold_on : RuleDefinition → RuleInput → Fact → RuleResult
  dwell_threshold_on rule inp (dwell i) = threshold_crossed rule inp i
  dwell_threshold_on rule inp _ = invalid_result rule inp

  -- `DwellThresholdEvaluator.evaluate`
  unfoldable pub dwell_threshold_evaluate : RuleDefinition → RuleInput → RuleResult
  dwell_threshold_evaluate rule inp = dwell_threshold_on rule inp inp.primary

  unfoldable pub queued :
      (RuleInput → Bool) → RuleDefinition → RuleInput → WaitingInterval → RuleResult
  queued extra rule inp i =
      if str_eq i.key.fsm_kind "waiting" && i.last_seen == inp.event_time
      then by_area rule inp i.key
          (in_area i.key.semantic_context (area_ids_of inp "queue_area_ids"))
          (if extra inp
            then against rule inp i.key i.interval_id i.waiting_start i.duration
                (threshold_of inp "waiting_qualification_seconds") 0
            else invalid_result rule inp)
      else invalid_result rule inp

  -- The evaluation of a fact.
  abbrev pub queue_candidate_on :
      (RuleInput → Bool) → RuleDefinition → RuleInput → Fact → RuleResult
  queue_candidate_on extra rule inp (waiting i) = queued extra rule inp i
  queue_candidate_on extra rule inp _ = invalid_result rule inp

  -- `QueueCandidateEvaluator.evaluate`
  unfoldable pub queue_candidate_evaluate :
      (RuleInput → Bool) → RuleDefinition → RuleInput → RuleResult
  queue_candidate_evaluate extra rule inp = queue_candidate_on extra rule inp inp.primary

  unfoldable pub unserved : RuleDefinition → RuleInput → WaitingInterval → RuleResult
  unserved rule inp i =
      if str_eq i.key.fsm_kind "waiting" && i.last_seen == inp.event_time
      then (if is_some i.reason
          then quiet_result rule inp i.key
          else by_area rule inp i.key
              (in_area i.key.semantic_context (area_ids_of inp "service_area_ids"))
              (against rule inp i.key i.interval_id i.waiting_start i.duration
                (threshold_of inp "service_gap_grace_seconds") 0))
      else invalid_result rule inp

  -- The evaluation of a fact.
  abbrev pub service_gap_on : RuleDefinition → RuleInput → Fact → RuleResult
  service_gap_on rule inp (waiting i) = unserved rule inp i
  service_gap_on rule inp _ = invalid_result rule inp

  -- `ServiceGapCandidateEvaluator.evaluate`
  unfoldable pub service_gap_evaluate : RuleDefinition → RuleInput → RuleResult
  service_gap_evaluate rule inp = service_gap_on rule inp inp.primary

  unfoldable pub against_window :
      RuleDefinition → RuleInput → DwellInterval → Option ℕ → Option ℕ → RuleResult
  against_window rule inp i none threshold = invalid_result rule inp
  against_window rule inp i (some window) threshold =
      against rule inp i.key i.interval_id i.dwell_start i.duration threshold window

  unfoldable pub turned_over : RuleDefinition → RuleInput → DwellInterval → RuleResult
  turned_over rule inp i =
      if str_eq i.key.fsm_kind "dwell" && i.last_seen == inp.event_time
      then (if is_some i.reason
          then quiet_result rule inp i.key
          else if is_some i.key.semantic_context
          then (if space_occupied inp.others
              then against_window rule inp i (window_of inp "service_window_seconds")
                  (threshold_of inp "turnover_delay_seconds")
              else quiet_result rule inp i.key)
          else invalid_result rule inp)
      else invalid_result rule inp

  -- The evaluation of a fact.
  abbrev pub turnover_delay_on : RuleDefinition → RuleInput → Fact → RuleResult
  turnover_delay_on rule inp (dwell i) = turned_over rule inp i
  turnover_delay_on rule inp _ = invalid_result rule inp

  -- `TurnoverDelayEvaluator.evaluate`
  unfoldable pub turnover_delay_evaluate : RuleDefinition → RuleInput → RuleResult
  turnover_delay_evaluate rule inp = turnover_delay_on rule inp inp.primary
