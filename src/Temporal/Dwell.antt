-- ===== src/Temporal/Dwell.antt =====
-- `DwellEngine` of backend/app/intelligence/temporal/dwell.py: dwell intervals from the confirmed
-- transitions of the presence engine.
pub mod Lockstep
pub mod Coupling
use hotelops_ai.Prelude.{
  ℕ, ◌+◌, ◌-◌, ◌≡◌, Bool, true, false, ◌&&◌, Option, none, some, List, [], ◌∷◌, ◌++◌, Name, leb,
  ltb, or_else, if◌then◌else◌, ok, err, ◌>>=◌, ◌>>◌, reject, arith,
}
use hotelops_ai.Temporal.Errors.{Checked, invalid_temporal_input, validation_error}
use hotelops_ai.Temporal.Fsm.{FsmRule, Fsm, transition}
use hotelops_ai.Temporal.Model.{
  Instant, TemporalReason, TemporalStateKey, TemporalPolicy, Kind, kind_name, Part, TemporalState,
  TemporalTransition, temporal_engine_version, DwellInterval,
}
use hotelops_ai.Temporal.Engine.{
  Evaluation, evaluation, Engine, TemporalInput, TemporalResult, apply, canonical,
}
use hotelops_ai.Temporal.Presence.{Presence, rule}

pub data Dwell : Type 0 where
  idle dwelling : Dwell

abbrev dwell_code : Dwell → ℕ
dwell_code idle = 0
dwell_code dwelling = 1

pub dwell_code_injective : (a b : Dwell) → dwell_code a ≡ dwell_code b → a ≡ b
dwell_code_injective a b h = ground arith

instance abbrev pub dwell_name : Name Dwell
dwell_name = record { code = dwell_code; code_injective = dwell_code_injective }

-- The events of the machine are observation kinds.
abbrev pub dwell_rules : List (FsmRule Dwell Kind)
dwell_rules =
    rule idle Kind.enter_confirmed dwelling
    ∷ rule dwelling Kind.exit_confirmed idle
    ∷ rule dwelling Kind.missing_expired idle
    ∷ rule idle Kind.stay idle
    ∷ rule dwelling Kind.stay dwelling
    ∷ rule idle Kind.session_closed idle
    ∷ rule dwelling Kind.session_closed idle
    ∷ []

abbrev pub dwell_fsm : Fsm Dwell Kind
dwell_fsm = record {
  name = "dwell";
  version = temporal_engine_version;
  states = idle ∷ dwelling ∷ [];
  initial_state = idle;
  table = dwell_rules;
}

abbrev pub dwell_kinds : List Kind
dwell_kinds =
    Kind.enter_confirmed ∷ Kind.exit_confirmed ∷ Kind.missing_expired ∷ Kind.stay
    ∷ Kind.session_closed ∷ []

-- `dwell_event_from_presence`, by the reason of the presence transition.
abbrev pub kind_of_reason : TemporalReason → Kind
kind_of_reason TemporalReason.enter_confirmed = Kind.enter_confirmed
kind_of_reason TemporalReason.exit_confirmed = Kind.exit_confirmed
kind_of_reason TemporalReason.missing_expired = Kind.missing_expired
kind_of_reason TemporalReason.session_closed = Kind.session_closed
kind_of_reason _ = Kind.stay

unfoldable pub dwell_event_from_presence : TemporalTransition Presence → Kind
dwell_event_from_presence t = kind_of_reason t.reason

-- One branch of `_evaluate`: the event, the reason that it is reported with, and its instant.
abbrev pub step : TemporalState Dwell → Kind → TemporalReason → Instant → Checked (Evaluation Dwell)
unfolding transition
step s event why t = do
  next ← transition dwell_fsm s.current_state event
  ok (record (evaluation next why) { state_since = some t })

unfoldable pub evaluate : TemporalState Dwell → Kind → Instant → Checked (Evaluation Dwell)
unfolding step
evaluate s Kind.enter_confirmed t = step s Kind.enter_confirmed TemporalReason.enter_confirmed t
evaluate s Kind.exit_confirmed t = step s Kind.exit_confirmed TemporalReason.exit_confirmed t
evaluate s Kind.missing_expired t = step s Kind.missing_expired TemporalReason.missing_expired t
evaluate s Kind.session_closed t = step s Kind.session_closed TemporalReason.session_closed t
evaluate s Kind.stay t = ok (evaluation s.current_state TemporalReason.observed_stay)
evaluate s _ t = err invalid_temporal_input

abbrev pub dwell_engine : TemporalPolicy → (List Part → ℕ) → Engine Dwell Kind
dwell_engine p uuid5 = record {
  fsm = dwell_fsm;
  policy = p;
  observation_kinds = dwell_kinds;
  uuid5 = uuid5;
  evaluate = evaluate;
}

-- The reasons of `_INTERVAL_CLOSING_REASONS`.
abbrev pub is_closing : TemporalReason → Bool
is_closing TemporalReason.exit_confirmed = true
is_closing TemporalReason.missing_expired = true
is_closing TemporalReason.session_closed = true
is_closing _ = false

abbrev pub is_dwelling : Dwell → Bool
is_dwelling dwelling = true
is_dwelling idle = false

-- The constructor of `DwellInterval`, with its validators.
unfoldable pub make_interval : DwellInterval → Checked DwellInterval
make_interval i =
    reject (elim i.dwell_end [ none ↦ false | some t ↦ ltb t i.dwell_start ]) validation_error
    >> reject (ltb i.last_seen i.dwell_start) validation_error
    >> ok i

module _ (p : TemporalPolicy) (uuid5 : List Part → ℕ) where
  unfoldable pub build_closed_interval :
      TemporalStateKey → Option Instant → Instant → TemporalReason → Checked DwellInterval
  unfolding make_interval
  build_closed_interval key none dwell_end why = err invalid_temporal_input
  build_closed_interval key (some dwell_start) dwell_end why = make_interval (record {
    interval_id = uuid5 (
        canonical key
        ++ Part.text "closed"
          ∷ Part.instant dwell_start
          ∷ Part.instant dwell_end
          ∷ Part.text dwell_fsm.version
          ∷ Part.text p.revision
          ∷ []);
    fsm_kind = dwell_fsm.name;
    key = key;
    dwell_start = dwell_start;
    dwell_end = some dwell_end;
    last_seen = dwell_end;
    duration = dwell_end - dwell_start;
    qualified = leb p.dwell_minimum (dwell_end - dwell_start);
    minimum_dwell = p.dwell_minimum;
    reason = some why;
    fsm_version = dwell_fsm.version;
    policy_revision = p.revision;
  })

  unfoldable pub open_interval : TemporalState Dwell → Checked (Option DwellInterval)
  unfolding make_interval
  open_interval s = elim s.current_state [
    | idle ↦ ok none
    | dwelling ↦ elim s.state_since [
      | none ↦ err invalid_temporal_input
      | some dwell_start ↦
          let last_seen = or_else s.last_seen dwell_start in
          make_interval (record {
            interval_id = uuid5 (
                canonical s.key
                ++ Part.text "open"
                  ∷ Part.instant dwell_start
                  ∷ Part.text dwell_fsm.version
                  ∷ Part.text p.revision
                  ∷ []);
            fsm_kind = dwell_fsm.name;
            key = s.key;
            dwell_start = dwell_start;
            dwell_end = none;
            last_seen = last_seen;
            duration = last_seen - dwell_start;
            qualified = leb p.dwell_minimum (last_seen - dwell_start);
            minimum_dwell = p.dwell_minimum;
            reason = none;
            fsm_version = dwell_fsm.version;
            policy_revision = p.revision;
          })
          >>= λ i. ok (some i)
    ]
  ]

  -- What `DwellEngine.apply` adds to the result of the base class.
  unfoldable pub close_interval :
      TemporalState Dwell → TemporalInput → TemporalResult Dwell → Checked (TemporalResult Dwell)
  close_interval s inp r =
      if is_closing r.transition.reason && is_dwelling s.current_state
      then (do
        i ← build_closed_interval inp.key s.state_since r.transition.event_time r.transition.reason
        ok (record r { dwell_intervals = i ∷ [] }))
      else ok r

  unfoldable pub dwell_apply : TemporalState Dwell → TemporalInput → Checked (TemporalResult Dwell)
  dwell_apply s inp = do r ← apply (dwell_engine p uuid5) s inp; close_interval s inp r
