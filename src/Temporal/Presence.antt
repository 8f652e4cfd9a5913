-- ===== src/Temporal/Presence.antt =====
-- `PresenceTemporalEngine` of backend/app/intelligence/temporal/engine.py and the machine of
-- backend/app/intelligence/temporal/presence.py: entries and exits, with confirmation counts,
-- minimum dwell, grace and occlusion tolerance.
pub mod Invariant
pub mod Loss
pub mod Confirmation
pub mod Hysteresis
use hotelops_ai.Prelude.{
  ℕ, ◌+◌, ◌≡◌, refl, Bool, true, false, ◌&&◌, Option, none, some, List, [], ◌∷◌, Name, leb, ◌==◌,
  or_else, if◌then◌else◌, Result, ok, err, ◌>>=◌, arith,
}
use hotelops_ai.Temporal.Errors.{Checked, invalid_temporal_input}
use hotelops_ai.Temporal.Fsm.{FsmRule, Fsm, transition}
use hotelops_ai.Temporal.Model.{
  Instant, TemporalReason, TemporalOcclusionState, TemporalPolicy, Kind, kind_name, Part,
  TemporalState, temporal_engine_version, SpatialObservation, SpatialStatus,
}
use hotelops_ai.Temporal.Model.TemporalReason.{
  observed_stay, enter_confirmed, exit_confirmed, missing_expired, session_closed,
}
use hotelops_ai.Temporal.Engine.{Evaluation, evaluation, Engine}

pub data Presence : Type 0 where
  absent entering present exiting : Presence

abbrev presence_code : Presence → ℕ
presence_code absent = 0
presence_code entering = 1
presence_code present = 2
presence_code exiting = 3

pub presence_code_injective : (a b : Presence) → presence_code a ≡ presence_code b → a ≡ b
presence_code_injective a b h = ground arith

instance abbrev pub presence_name : Name Presence
presence_name = record { code = presence_code; code_injective = presence_code_injective }

pub data PresenceEvent : Type 0 where
  enter_pending enter_confirms enter_aborted stays exit_pending exit_confirms : PresenceEvent
  missing_expires recovered closes : PresenceEvent

abbrev event_code : PresenceEvent → ℕ
event_code enter_pending = 0
event_code enter_confirms = 1
event_code enter_aborted = 2
event_code stays = 3
event_code exit_pending = 4
event_code exit_confirms = 5
event_code missing_expires = 6
event_code recovered = 7
event_code closes = 8

pub event_code_injective : (a b : PresenceEvent) → event_code a ≡ event_code b → a ≡ b
event_code_injective a b h = ground arith

instance abbrev pub event_name : Name PresenceEvent
event_name = record { code = event_code; code_injective = event_code_injective }

abbrev pub rule : {S E : Type 0} → S → E → S → FsmRule S E
rule s e t = record { from_state = s; event = e; to_state = t }

abbrev pub presence_states : List Presence
presence_states = absent ∷ entering ∷ present ∷ exiting ∷ []

abbrev pub presence_rules : List (FsmRule Presence PresenceEvent)
presence_rules =
    rule absent enter_pending entering
    ∷ rule absent enter_confirms present
    ∷ rule entering enter_confirms present
    ∷ rule entering enter_aborted absent
    ∷ rule absent stays absent
    ∷ rule entering stays entering
    ∷ rule present stays present
    ∷ rule exiting stays exiting
    ∷ rule present exit_pending exiting
    ∷ rule present exit_confirms absent
    ∷ rule present missing_expires absent
    ∷ rule exiting exit_confirms absent
    ∷ rule exiting recovered present
    ∷ rule absent closes absent
    ∷ rule entering closes absent
    ∷ rule present closes absent
    ∷ rule exiting closes absent
    ∷ []

-- The machine that the constructor builds from these rules (`presence_fsm_built`).
abbrev pub presence_fsm : Fsm Presence PresenceEvent
presence_fsm = record {
  name = "presence";
  version = temporal_engine_version;
  states = presence_states;
  initial_state = absent;
  table = presence_rules;
}

abbrev pub observation_kinds : List Kind
observation_kinds = Kind.present ∷ Kind.absent ∷ Kind.not_observed ∷ Kind.session_closed ∷ []

unfoldable pub presence_kind : SpatialObservation → Kind
presence_kind o = elim o.status [
  | SpatialStatus.inside ↦ Kind.present
  | SpatialStatus.ambiguous ↦ Kind.present
  | SpatialStatus.outside ↦ Kind.absent
  | SpatialStatus.excluded ↦ Kind.not_observed
  | SpatialStatus.privacy ↦ Kind.not_observed
]

-- `self._fsm.transition`
abbrev move : Presence → PresenceEvent → Checked Presence
unfolding transition
move s e = transition presence_fsm s e

-- Whether `gap` has passed since the recorded instant; with none recorded, the default.
abbrev pub passed : Bool → Option Instant → ℕ → Instant → Bool
passed default none gap t = default
passed default (some since) gap t = leb (since + gap) t

unfoldable pub dwell_ok : TemporalPolicy → TemporalState Presence → Instant → Bool
dwell_ok p s t = passed true s.state_since p.minimum_dwell t

unfoldable pub grace_ok : TemporalPolicy → TemporalState Presence → Instant → Bool
grace_ok p s t = passed true s.last_present_seen p.exit_grace t

-- With no positive presence recorded the gap is infinite.
unfoldable pub occlusion_over : TemporalPolicy → TemporalState Presence → Instant → Bool
occlusion_over p s t = passed true s.last_present_seen p.occlusion_tolerance t

-- `_evaluate` for the kind `present`.
unfoldable pub evaluate_present :
    TemporalPolicy → Presence → TemporalState Presence → Instant → Checked (Evaluation Presence)
unfolding move
evaluate_present p absent s t =
    if p.entry_confirmation == 1
    then (do
      next ← move absent enter_confirms
      ok (record (evaluation next enter_confirmed) { present_seen = true; state_since = some t }))
    else do
      next ← move absent enter_pending
      ok (record (evaluation next observed_stay) {
        present_seen = true;
        state_since = some t;
        entry_confirm_count = 1;
        occlusion_state = TemporalOcclusionState.observed;
      })
evaluate_present p entering s t =
    let entry = s.entry_confirm_count + 1 in
    if leb p.entry_confirmation entry
    then (do
      next ← move entering enter_confirms
      ok (record (evaluation next enter_confirmed) { present_seen = true; state_since = some t }))
    else ok (record (evaluation entering observed_stay) {
      present_seen = true;
      entry_confirm_count = entry;
      occlusion_state = TemporalOcclusionState.observed;
    })
evaluate_present p exiting s t = do
  next ← move exiting recovered
  ok (record (evaluation next observed_stay) {
    present_seen = true;
    state_since = some t;
    occlusion_state = TemporalOcclusionState.observed;
  })
evaluate_present p present s t = ok (record (evaluation present observed_stay) {
  present_seen = true;
  occlusion_state = TemporalOcclusionState.observed;
})

-- The entry that was not confirmed is given up.
abbrev abort_entry : Instant → Checked (Evaluation Presence)
abort_entry t = do
  next ← move entering enter_aborted
  ok (record (evaluation next observed_stay) { state_since = some t })

-- One more observation without presence while exiting.
abbrev count_exit :
    TemporalPolicy
    → TemporalState Presence
    → Instant
    → TemporalOcclusionState
    → Option Instant
    → Checked (Evaluation Presence)
count_exit p s t occlusion missing =
    let exit_count = s.exit_confirm_count + 1 in
    if leb p.exit_confirmation exit_count
    then (do
      next ← move exiting exit_confirms
      ok (record (evaluation next exit_confirmed) { state_since = some t }))
    else ok (record (evaluation exiting observed_stay) {
      exit_confirm_count = exit_count;
      occlusion_state = occlusion;
      missing_since = missing;
    })

-- `_evaluate` for the kind `absent`.
unfoldable pub evaluate_absent :
    TemporalPolicy → Presence → TemporalState Presence → Instant → Checked (Evaluation Presence)
unfolding move dwell_ok grace_ok
evaluate_absent p absent s t = ok (evaluation absent observed_stay)
evaluate_absent p entering s t = abort_entry t
evaluate_absent p present s t =
    if dwell_ok p s t && grace_ok p s t
    then (if p.exit_confirmation == 1
        then (do
          next ← move present exit_confirms
          ok (record (evaluation next exit_confirmed) { state_since = some t }))
        else do
          next ← move present exit_pending
          ok (record (evaluation next observed_stay) {
            state_since = some t;
            exit_confirm_count = 1;
            occlusion_state = TemporalOcclusionState.observed;
          }))
    else ok (record (evaluation present observed_stay) {
      occlusion_state = TemporalOcclusionState.observed;
    })
evaluate_absent p exiting s t = count_exit p s t TemporalOcclusionState.observed none

-- `_evaluate` for the kind `not_observed`.
unfoldable pub evaluate_not_observed :
    TemporalPolicy → Presence → TemporalState Presence → Instant → Checked (Evaluation Presence)
unfolding move dwell_ok occlusion_over
evaluate_not_observed p absent s t = ok (evaluation absent observed_stay)
evaluate_not_observed p entering s t = abort_entry t
evaluate_not_observed p present s t =
    if dwell_ok p s t && occlusion_over p s t
    then (do
      next ← move present missing_expires
      ok (record (evaluation next missing_expired) { state_since = some t }))
    else ok (record (evaluation present observed_stay) {
      occlusion_state = TemporalOcclusionState.temporarily_missing;
      missing_since = some (or_else s.missing_since t);
    })
evaluate_not_observed p exiting s t =
    count_exit p s t TemporalOcclusionState.temporarily_missing (some (or_else s.missing_since t))

unfoldable pub evaluate :
    TemporalPolicy → TemporalState Presence → Kind → Instant → Checked (Evaluation Presence)
unfolding evaluate_present evaluate_absent evaluate_not_observed move
evaluate p s Kind.present t = evaluate_present p s.current_state s t
evaluate p s Kind.absent t = evaluate_absent p s.current_state s t
evaluate p s Kind.not_observed t = evaluate_not_observed p s.current_state s t
evaluate p s Kind.session_closed t = do
  next ← move s.current_state closes
  ok (record (evaluation next session_closed) { state_since = some t })
evaluate p s _ t = err invalid_temporal_input

abbrev pub presence_engine : TemporalPolicy → (List Part → ℕ) → Engine Presence PresenceEvent
presence_engine p uuid5 = record {
  fsm = presence_fsm;
  policy = p;
  observation_kinds = observation_kinds;
  uuid5 = uuid5;
  evaluate = evaluate p;
}
