-- ===== src/Temporal/Presence/Invariant.antt =====
-- What holds of every state of the presence engine, and what each reason says of a step.
use hotelops_ai.Prelude.{
  ℕ, ◌≤◌, ◌<◌, ◌≡◌, refl, ◌⊎◌, inl, inr, Bool, true, false, Option, none, some, contains, List,
  is_ok, ok, err, arith,
}
use hotelops_ai.Temporal.Fsm.{construct, insert_rules, find}
use hotelops_ai.Temporal.Model.{
  Instant, TemporalReason, TemporalStateKey, TemporalPolicy, IsPolicy, Kind, kind_name,
  TemporalState, Part, temporal_engine_version,
}
use hotelops_ai.Temporal.Engine.{
  Evaluation, TemporalInput, TemporalResult, Position, observation_position, observed_at, validate,
  apply, order, apply_out_of_order, apply_in_order, apply_evaluation, build_transition,
  initial_state,
}
use hotelops_ai.Temporal.Errors.{late_event}
use hotelops_ai.Temporal.Engine.Ordering.{NotBehind, IsAhead-NotBehind}
use hotelops_ai.Temporal.Engine.Outcome.{was_duplicate, was_reordered, was_applied, apply-Outcome}
use hotelops_ai.Temporal.Presence.{
  Presence, absent, entering, present, exiting, presence_fsm, presence_states, presence_rules,
  observation_kinds, presence_name, event_name, evaluate, presence_engine,
}

-- The constructor accepts the declared table.
presence_fsm_built :
    construct "presence" temporal_engine_version presence_states absent presence_rules
    ≡ ok presence_fsm
unfolding construct insert_rules find
presence_fsm_built = refl

-- The states of a confirmed presence.
abbrev pub is_confirmed : Presence → Bool
is_confirmed present = true
is_confirmed exiting = true
is_confirmed _ = false

abbrev EntryCount : Presence → ℕ → ℕ → Type 0
EntryCount entering n limit = (1 ≤ n) × (n < limit)
EntryCount _ n limit = n ≡ 0

abbrev ExitCount : Presence → ℕ → ℕ → Type 0
ExitCount exiting n limit = (1 ≤ n) × (n < limit)
ExitCount _ n limit = n ≡ 0

-- An instant that is recorded is not after the watermark.
abbrev pub Within : Option Instant → Option Position → Type 0
Within none w = Unit
Within (some t) none = ⊥
Within (some t) (some w) = t ≤ w.0

pub record IsWellFormed (p : TemporalPolicy) (s : TemporalState Presence) : Type 0 where
  pub entry_count : EntryCount s.current_state s.entry_confirm_count p.entry_confirmation
  pub exit_count : ExitCount s.current_state s.exit_confirm_count p.exit_confirmation
  pub since_seen : Within s.state_since s.watermark
  pub present_seen : Within s.last_present_seen s.watermark

-- A known kind is always evaluated: no event that the engine emits is illegal in its state.
pub evaluate-total :
    (p : TemporalPolicy) (s : TemporalState Presence) (k : Kind) (t : Instant)
    → contains observation_kinds k ≡ true
    → is_ok (evaluate p s k t) ≡ true
unfolding evaluate
evaluate-total p s k t known = ground arith

module _ (p : TemporalPolicy) (policy : IsPolicy p) (s : TemporalState Presence) (k : Kind)
    (t : Instant) {v : Evaluation Presence} (done : evaluate p s k t ≡ ok v) where
  evaluate-EntryCount :
      EntryCount s.current_state s.entry_confirm_count p.entry_confirmation
      → EntryCount v.state v.entry_confirm_count p.entry_confirmation
  unfolding evaluate
  evaluate-EntryCount h = ground arith

  evaluate-ExitCount :
      ExitCount s.current_state s.exit_confirm_count p.exit_confirmation
      → ExitCount v.state v.exit_confirm_count p.exit_confirmation
  unfolding evaluate
  evaluate-ExitCount h = ground arith

  evaluate-state_since : (v.state_since ≡ none) ⊎ (v.state_since ≡ some t)
  unfolding evaluate
  evaluate-state_since = ground arith

-- What the reason of a step says of the confirmed presence before and after it.
abbrev pub Effect : TemporalReason → Bool → Bool → Type 0
Effect TemporalReason.enter_confirmed from to = (from ≡ false) × (to ≡ true)
Effect TemporalReason.exit_confirmed from to = (from ≡ true) × (to ≡ false)
Effect TemporalReason.missing_expired from to = (from ≡ true) × (to ≡ false)
Effect TemporalReason.session_closed from to = to ≡ false
Effect TemporalReason.movement_exceeded from to = ⊥
Effect _ from to = from ≡ to

module _ (p : TemporalPolicy) (s : TemporalState Presence) where
  evaluate-Effect :
      (k : Kind) (t : Instant) {v : Evaluation Presence}
      → evaluate p s k t ≡ ok v
      → Effect v.reason (is_confirmed s.current_state) (is_confirmed v.state)
  unfolding evaluate
  evaluate-Effect k t done = ground arith

Within-later :
    (o : Option Instant) (w q : Option Position) → NotBehind w q → Within o q → Within o w
Within-later none w q ahead h = tt
Within-later (some t) w none ahead h = absurd h
Within-later (some t) none (some q) ahead h = absurd ahead
Within-later (some t) (some w) (some q) ahead h = ground arith

Effect-refl :
    (why : TemporalReason) (b : Bool)
    → (why ≡ TemporalReason.deduplicated) ⊎ (why ≡ TemporalReason.reordered)
    → Effect why b b
Effect-refl why b h = ground arith

module _ (p : TemporalPolicy) (uuid5 : List Part → ℕ) (s : TemporalState Presence)
    (inp : TemporalInput) where
  pub validate-known :
      validate (presence_engine p uuid5) s inp ≡ ok tt
      → contains observation_kinds inp.observation_kind ≡ true
  unfolding validate
  validate-known valid = ground arith

  pub apply_in_order-is_ok :
      contains observation_kinds inp.observation_kind ≡ true
      → is_ok (apply_in_order (presence_engine p uuid5) s inp) ≡ true
  unfolding apply_in_order
  apply_in_order-is_ok known =
      ground (arith, evaluate-total p s inp.observation_kind (observed_at inp.observation).instant)

  -- An observation that passes validation is accepted, unless it is late: with a known kind no
  -- other error can be raised.
  pub apply-total :
      validate (presence_engine p uuid5) s inp ≡ ok tt
      → (is_ok (apply (presence_engine p uuid5) s inp) ≡ true)
        ⊎ (apply (presence_engine p uuid5) s inp ≡ err late_event)
  unfolding apply order apply_out_of_order
  apply-total valid = ground (arith, apply_in_order-is_ok (validate-known valid))

module _ (p : TemporalPolicy) (uuid5 : List Part → ℕ) (s : TemporalState Presence)
    (inp : TemporalInput) {r : TemporalResult Presence}
    (h : apply (presence_engine p uuid5) s inp ≡ ok r) where
  -- The reason of an accepted step says how the confirmed presence changes: an entry is confirmed
  -- from its absence, an exit and an expiry end it, a closed session leaves none, and every other
  -- reason leaves it as it was.
  pub apply-Effect :
      Effect r.transition.reason (is_confirmed s.current_state) (is_confirmed r.state.current_state)
  unfolding apply_evaluation build_transition
  apply-Effect = elim (apply-Outcome (presence_engine p uuid5) s inp h) [
    | was_duplicate at same why ↦ rw (same) (Effect-refl r.transition.reason _ (inl why))
    | was_reordered w' marked off behind near same why ↦
        rw (same) (Effect-refl r.transition.reason _ (inr why))
    | was_applied v evaluated ahead reported reached ↦
        rw (reached, reported) (evaluate-Effect p s inp.observation_kind _ evaluated)
  ]

  -- Every accepted observation keeps the state well formed: the confirmation counts run only in the
  -- intermediate states and below their limits, and no recorded instant is after the watermark.
  pub apply-IsWellFormed : IsPolicy p → IsWellFormed p s → IsWellFormed p r.state
  unfolding apply_evaluation
  apply-IsWellFormed policy w = elim (apply-Outcome (presence_engine p uuid5) s inp h) [
    | was_duplicate at same why ↦ rw same w
    | was_reordered w' marked off behind near same why ↦ rw same (record {
      entry_count = w.entry_count;
      exit_count = w.exit_count;
      since_seen = w.since_seen;
      present_seen = w.present_seen;
    })
    | was_applied v evaluated ahead reported reached ↦ rw reached (record {
      entry_count = evaluate-EntryCount p policy s inp.observation_kind _ evaluated w.entry_count;
      exit_count = evaluate-ExitCount p policy s inp.observation_kind _ evaluated w.exit_count;
      since_seen = ground (
        arith,
        evaluate-state_since p policy s inp.observation_kind _ evaluated,
        Within-later s.state_since (some (observation_position inp.observation)) s.watermark
            (IsAhead-NotBehind (observation_position inp.observation) s.watermark ahead)
            w.since_seen,
      );
      present_seen = ground (
        arith,
        Within-later s.last_present_seen (some (observation_position inp.observation)) s.watermark
            (IsAhead-NotBehind (observation_position inp.observation) s.watermark ahead)
            w.present_seen,
      );
    })
  ]

-- The pristine state is well formed.
pub initial_state-IsWellFormed :
    (p : TemporalPolicy) (uuid5 : List Part → ℕ) (key : TemporalStateKey)
    → IsWellFormed p (initial_state (presence_engine p uuid5) key)
unfolding initial_state
initial_state-IsWellFormed p uuid5 key = record {
  entry_count = refl;
  exit_count = refl;
  since_seen = tt;
  present_seen = tt;
}
