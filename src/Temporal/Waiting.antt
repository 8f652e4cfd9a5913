-- ===== src/Temporal/Waiting.antt =====
-- `WaitingEngine` of backend/app/intelligence/temporal/waiting.py: waiting intervals from the
-- confirmed transitions of the presence engine and the movement classification. What `isinstance`
-- tests there, the states of the classification and the zone of an event time hold by the types.
pub mod Engine
pub mod Qualified
pub mod Closing
use text.Mathlib.Text.{◌==◌ as str_eq}
use hotelops_ai.Prelude.{
  ℕ, ◌+◌, ◌-◌, ◌≡◌, Bool, true, false, ◌&&◌, ◌||◌, Option, none, some, List, [], ◌∷◌, ◌++◌, String,
  Name, leb, ltb, ◌==◌, or_else, if◌then◌else◌, contains, Result, ok, err, ◌>>=◌, ◌>>◌, ensure,
  reject, arith, is_some,
}
use hotelops_ai.Temporal.Errors.{
  Checked, invalid_temporal_input, late_event, state_key_mismatch, fsm_version_mismatch,
  validation_error, checkpoint_integrity,
}
use hotelops_ai.Temporal.Fsm.{FsmRule, Fsm, transition}
use hotelops_ai.Temporal.Model.{
  Instant, DateTime, TemporalReason, TemporalStateKey, TemporalPolicy, Kind, kind_name, Part,
  TemporalTransition, temporal_engine_version,
}
use hotelops_ai.Temporal.Engine.{canonical, position_eq, position_lt, Position, newer}
use hotelops_ai.Temporal.Presence.{Presence, rule}
use hotelops_ai.Temporal.Dwell.{kind_of_reason, dwell_kinds}
use hotelops_ai.Temporal.Occupancy.{scope_matches, key_eq, kind_matches}

pub data Waiting : Type 0 where
  not_waiting candidate waiting : Waiting

abbrev waiting_code : Waiting → ℕ
waiting_code not_waiting = 0
waiting_code candidate = 1
waiting_code waiting = 2

pub waiting_code_injective : (a b : Waiting) → waiting_code a ≡ waiting_code b → a ≡ b
waiting_code_injective a b h = ground arith

instance abbrev pub waiting_name : Name Waiting
waiting_name = record { code = waiting_code; code_injective = waiting_code_injective }

pub data WaitingEvent : Type 0 where
  candidate_started confirmed aborted ended remained : WaitingEvent

abbrev event_code : WaitingEvent → ℕ
event_code candidate_started = 0
event_code confirmed = 1
event_code aborted = 2
event_code ended = 3
event_code remained = 4

pub event_code_injective : (a b : WaitingEvent) → event_code a ≡ event_code b → a ≡ b
event_code_injective a b h = ground arith

instance abbrev pub event_name : Name WaitingEvent
event_name = record { code = event_code; code_injective = event_code_injective }

-- `WAITING_FSM`
abbrev pub waiting_fsm : Fsm Waiting WaitingEvent
waiting_fsm = record {
  name = "waiting";
  version = temporal_engine_version;
  states = not_waiting ∷ candidate ∷ waiting ∷ [];
  initial_state = not_waiting;
  table =
      rule not_waiting candidate_started candidate
      ∷ rule not_waiting remained not_waiting
      ∷ rule candidate confirmed waiting
      ∷ rule candidate aborted not_waiting
      ∷ rule candidate remained candidate
      ∷ rule waiting ended not_waiting
      ∷ rule waiting remained waiting
      ∷ [];
}

-- `waiting_event_from_presence`; it maps the reasons as the dwell engine does.
unfoldable pub waiting_event_from_presence : TemporalTransition Presence → Kind
waiting_event_from_presence t = kind_of_reason t.reason

-- The policy, with the two fields that this engine alone reads.
pub record WaitingPolicy : Type 0 where
  pub base : TemporalPolicy
  pub qualification : ℕ
  pub contexts : List String

pub record WaitingState : Type 0 where
  pub fsm_version : String
  pub key : TemporalStateKey
  pub current_state : Waiting
  pub presence_confirmed : Bool
  pub candidate_start : Option Instant
  pub waiting_start : Option Instant
  pub last_seen : Option Instant
  pub watermark : Option Position

pub record WaitingInterval : Type 0 where
  pub interval_id : ℕ
  pub fsm_kind : String
  pub key : TemporalStateKey
  pub waiting_start : Instant
  pub waiting_end : Option Instant
  pub last_seen : Instant
  pub duration : ℕ
  pub qualified : Bool
  pub minimum_waiting : ℕ
  pub reason : Option TemporalReason
  pub fsm_version : String
  pub policy_revision : String

pub record WaitingCheckpoint : Type 0 where
  pub engine_version : String
  pub policy_revision : String
  pub state : WaitingState

-- What the engine reads of the movement classification: whether its state is "stationary".
pub record Classification : Type 0 where
  pub key : TemporalStateKey
  pub is_stationary : Bool

pub record WaitingInput : Type 0 where
  pub key : TemporalStateKey
  pub presence_transition : TemporalTransition Presence
  pub classification_state : Classification
  pub observation_kind : Kind
  pub processing_time : DateTime

pub record WaitingResult : Type 0 where
  pub state : WaitingState
  pub interval : Option WaitingInterval
  pub deduplicated : Bool
  pub reordered : Bool

-- What `_evaluate` returns.
pub record Verdict : Type 0 where
  pub next_state : Waiting
  pub candidate_start : Option Instant
  pub waiting_start : Option Instant
  pub interval : Option WaitingInterval
  pub presence_confirmed : Bool

abbrev pub is_lost : Kind → Bool
is_lost Kind.exit_confirmed = true
is_lost Kind.missing_expired = true
is_lost Kind.session_closed = true
is_lost _ = false

abbrev pub is_enter : Kind → Bool
is_enter Kind.enter_confirmed = true
is_enter _ = false

abbrev pub reason_of : Kind → TemporalReason
reason_of Kind.exit_confirmed = TemporalReason.exit_confirmed
reason_of Kind.missing_expired = TemporalReason.missing_expired
reason_of _ = TemporalReason.session_closed

abbrev listed : List String → String → Bool
listed [] c = false
listed (x ∷ xs) c = str_eq x c || listed xs c

abbrev pub context_ok : WaitingPolicy → TemporalStateKey → Bool
context_ok p key = in_contexts key.semantic_context
  where
    in_contexts : Option String → Bool
    in_contexts none = false
    in_contexts (some c) = listed p.contexts c

-- The constructor of `WaitingInterval`, with its validators.
unfoldable pub make_interval : WaitingInterval → Checked WaitingInterval
make_interval i =
    reject (elim i.waiting_end [ none ↦ false | some t ↦ ltb t i.waiting_start ]) validation_error
    >> reject (ltb i.last_seen i.waiting_start) validation_error
    >> ok i

abbrev verdict : Waiting → Bool → Verdict
verdict next present = record {
  next_state = next;
  candidate_start = none;
  waiting_start = none;
  interval = none;
  presence_confirmed = present;
}

module _ (p : WaitingPolicy) (uuid5 : List Part → ℕ) where
  unfoldable pub build_closed_interval :
      TemporalStateKey → Option Instant → Instant → TemporalReason → Checked WaitingInterval
  build_closed_interval key none waiting_end why = err invalid_temporal_input
  build_closed_interval key (some waiting_start) waiting_end why = make_interval (record {
    interval_id = uuid5 (
        canonical key
        ++ Part.text "closed"
          ∷ Part.instant waiting_start
          ∷ Part.instant waiting_end
          ∷ Part.text waiting_fsm.version
          ∷ Part.text p.base.revision
          ∷ []);
    fsm_kind = waiting_fsm.name;
    key = key;
    waiting_start = waiting_start;
    waiting_end = some waiting_end;
    last_seen = waiting_end;
    duration = waiting_end - waiting_start;
    qualified = leb p.qualification (waiting_end - waiting_start);
    minimum_waiting = p.qualification;
    reason = some why;
    fsm_version = waiting_fsm.version;
    policy_revision = p.base.revision;
  })

  -- The branches for a confirmed loss and for a movement: what was open ends.
  unfoldable pub terminate :
      WaitingState → Waiting → Instant → TemporalReason → Bool → Checked Verdict
  terminate s waiting t why present = transition waiting_fsm waiting ended >>= λ next.
      build_closed_interval s.key s.waiting_start t why >>= λ interval.
      ok (record (verdict next present) { interval = some interval })
  terminate s candidate t why present =
      transition waiting_fsm candidate aborted >>= λ next. ok (verdict next present)
  terminate s not_waiting t why present = ok (verdict not_waiting present)

  -- A candidate from a state, confirmed at once where no qualification is asked for.
  unfoldable pub start_candidate : Waiting → Instant → Bool → Checked Verdict
  start_candidate current t present = transition waiting_fsm current candidate_started >>= λ next.
      if p.qualification == 0
      then (transition waiting_fsm next confirmed >>= λ last.
          ok (record (verdict last present) { candidate_start = some t; waiting_start = some t }))
      else ok (record (verdict next present) { candidate_start = some t })

  unfoldable pub carry_on : WaitingState → Waiting → Instant → Bool → Checked Verdict
  carry_on s not_waiting t present = start_candidate not_waiting t present
  carry_on s candidate t present = elim s.candidate_start [
    | none ↦ err invalid_temporal_input
    | some since ↦
        if leb (since + p.qualification) t
        then (transition waiting_fsm candidate confirmed >>= λ next.
            ok (record (verdict next present) {
              candidate_start = some since;
              waiting_start = some t;
            }))
        else (transition waiting_fsm candidate remained >>= λ next.
            ok (record (verdict next present) { candidate_start = some since }))
  ]
  carry_on s waiting t present = transition waiting_fsm waiting remained >>= λ next.
      ok (record (verdict next present) {
        candidate_start = s.candidate_start;
        waiting_start = s.waiting_start;
      })

  abbrev is_idle : Waiting → Bool
  is_idle not_waiting = true
  is_idle _ = false

  -- The branches once the entity is stationary.
  unfoldable pub when_stationary : WaitingState → Kind → Instant → Bool → Checked Verdict
  when_stationary s kind t present =
      if present
      then (if context_ok p s.key
          then (if is_enter kind
              then start_candidate s.current_state t present
              else carry_on s s.current_state t present)
          else (ensure (is_idle s.current_state) invalid_temporal_input
              >> ok (verdict s.current_state present)))
      else ok (verdict s.current_state false)

  unfoldable pub evaluate : WaitingState → Kind → Instant → Bool → Checked Verdict
  evaluate s kind t stationary =
      let present = if is_enter kind then true else s.presence_confirmed in
      if is_lost kind
      then terminate s s.current_state t (reason_of kind) false
      else if stationary
      then when_stationary s kind t present
      else terminate s s.current_state t TemporalReason.movement_exceeded present
