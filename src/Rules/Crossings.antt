-- ===== src/Rules/Crossings.antt =====
-- The dwell threshold rule on one interval as it grows.
use text.Mathlib.Text.{◌==◌ as str_eq}
use mathlib.Core.Path.{subst}
use hotelops_ai.Prelude.{
  ℕ, ◌+◌, ◌≤◌, ◌≡◌, refl, sym, ap, ◌∙◌, inl, inr, true, false, ◌&&◌, Option, none, some, List, ◌==◌,
  ltb, arith, Bool-cases, ==_self,
}
use hotelops_ai.Temporal.Model.{Instant, TemporalStateKey, DwellInterval, Part}
use hotelops_ai.Rules.{
  dwell, RuleDefinition, RuleInput, RuleEvent, RuleResult, deterministic_event_id,
}
use hotelops_ai.Rules.Engine.{is_match}
use hotelops_ai.Rules.Evaluators.{
  threshold_in, threshold_of, against, threshold_crossed, dwell_threshold_on,
  dwell_threshold_evaluate,
}

module _ (uuid5 : List Part → ℕ) where
  -- The comparison with a threshold that is there.
  abbrev IsReached : Option ℕ → ℕ → Type 0
  IsReached threshold duration = (t : ℕ) × (threshold ≡ some t) × (t ≤ duration)

  -- A match whose event stands at the instant of the input.
  abbrev pub IsMatchedAt : RuleDefinition → RuleInput → RuleResult → Type 0
  IsMatchedAt rule inp r =
      (is_match r.status ≡ true)
      × ((e : RuleEvent) × (r.event ≡ some e)
          × (e.event_time ≡ inp.event_time)
          × (e.event_id
              ≡ deterministic_event_id uuid5 rule inp inp.event_time rule.output_event_type))

  against-IsReached :
      (rule : RuleDefinition) (inp : RuleInput) (key : TemporalStateKey) (id : ℕ) (start : Instant)
      (duration : ℕ) (threshold : Option ℕ)
      → is_match (against uuid5 rule inp key id start duration threshold 0).status ≡ true
      → IsReached threshold duration
  unfolding against
  against-IsReached rule inp key id start duration none h = ground (arith, h)
  against-IsReached rule inp key id start duration (some t) h = (t, refl, ground (arith, h))

  IsReached-against :
      (rule : RuleDefinition) (inp : RuleInput) (key : TemporalStateKey) (id : ℕ) (start : Instant)
      (duration : ℕ) (threshold : Option ℕ)
      → IsReached threshold duration
      → IsMatchedAt rule inp (against uuid5 rule inp key id start duration threshold 0)
  unfolding against
  IsReached-against rule inp key id start duration threshold (t, there, enough) =
      let passed : ltb duration (0 + t) ≡ false = ground arith in
      rw (there, passed) (refl, (_, refl, refl, refl))

  threshold_crossed-IsReached :
      (rule : RuleDefinition) (inp : RuleInput) (i : DwellInterval)
      → is_match (threshold_crossed uuid5 rule inp i).status ≡ true
      → (str_eq i.key.fsm_kind "dwell" ≡ true)
        × IsReached (threshold_of inp "dwell_threshold_seconds") i.duration
  unfolding threshold_crossed
  threshold_crossed-IsReached rule inp i h =
      elim (Bool-cases (str_eq i.key.fsm_kind "dwell" && i.last_seen == inp.event_time)) [
        | inl now ↦ (
          ground (arith, now),
          against-IsReached rule inp i.key i.interval_id i.dwell_start i.duration
              (threshold_of inp "dwell_threshold_seconds") (rw now at h),
        )
        | inr other ↦ absurd (ground (arith, rw other at h))
      ]

  IsReached-threshold_crossed :
      (rule : RuleDefinition) (inp : RuleInput) (i : DwellInterval)
      → str_eq i.key.fsm_kind "dwell" ≡ true
      → i.last_seen ≡ inp.event_time
      → IsReached (threshold_of inp "dwell_threshold_seconds") i.duration
      → IsMatchedAt rule inp (threshold_crossed uuid5 rule inp i)
  unfolding threshold_crossed
  IsReached-threshold_crossed rule inp i kind now reached =
      rw (kind, now, ==_self inp.event_time)
        (IsReached-against rule inp i.key i.interval_id i.dwell_start i.duration
          (threshold_of inp "dwell_threshold_seconds") reached)

  -- An interval that the rule matched is matched again whenever it is seen later: at a later sight
  -- of the same key, with a duration that is not smaller, under the same configuration, the rule
  -- matches too, with an event at the later instant, whose identifier is of that instant.
  pub dwell_threshold_evaluate-again :
      (rule : RuleDefinition) (inp later : RuleInput) (i j : DwellInterval)
      → inp.primary ≡ dwell i
      → later.primary ≡ dwell j
      → is_match (dwell_threshold_evaluate uuid5 rule inp).status ≡ true
      → j.key ≡ i.key
      → i.duration ≤ j.duration
      → j.last_seen ≡ later.event_time
      → later.configuration ≡ inp.configuration
      → IsMatchedAt rule later (dwell_threshold_evaluate uuid5 rule later)
  unfolding dwell_threshold_evaluate
  dwell_threshold_evaluate-again rule inp later i j first second matched same longer now
        configured =
      let (kind, (t, there, enough)) =
        threshold_crossed-IsReached rule inp i
          (ap (λ f. is_match (dwell_threshold_on uuid5 rule inp f).status) (sym first) ∙ matched) in
      subst (λ f. IsMatchedAt rule later (dwell_threshold_on uuid5 rule later f)) (sym second)
        (IsReached-threshold_crossed rule later j (rw same kind) now
          (t, ap (λ c. threshold_in c "dwell_threshold_seconds") configured ∙ there, omega arith))
