-- ===== src/Temporal/Dwell/Lockstep.antt =====
-- The dwell engine beside the presence engine that drives it, over the same observations.

use hotelops_ai.Prelude.{
  ℕ, ◌≤◌, ◌≡◌, Bool, true, false, Option, none, some, List, [], ◌∷◌, is_ok, ok, ◌>>=◌, arith,
}
use hotelops_ai.Temporal.Model.{
  Instant, TemporalReason, TemporalPolicy, kind_name, TemporalState, Part, DwellInterval,
}
use hotelops_ai.Temporal.Engine.{
  TemporalInput, TemporalResult, Position, observed_at, observation_position, apply_in_order,
  apply_evaluation, build_transition,
}
use hotelops_ai.Temporal.Engine.Ordering.{NotBehind}
use hotelops_ai.Temporal.Presence.{Presence, presence_name}
use hotelops_ai.Temporal.Presence.Invariant.{is_confirmed, Effect}
use hotelops_ai.Temporal.Dwell.{
  Dwell, idle, dwelling, dwell_name, dwell_engine, close_interval, build_closed_interval, evaluate,
  kind_of_reason, dwell_event_from_presence, is_dwelling,
}

-- The input that the coordinator gives the dwell engine for an accepted presence input.
unfoldable pub dwell_input : TemporalInput → TemporalResult Presence → TemporalInput
dwell_input inp r = record {
  key = record (inp.key) { fsm_kind = "dwell" };
  observation = inp.observation;
  observation_kind = dwell_event_from_presence r.transition;
  processing_time = inp.processing_time;
}

-- An open interval has a start, which is not after the watermark.
abbrev pub Started : Dwell → Option Instant → Option Position → Type 0
Started idle since w = Unit
Started dwelling none w = ⊥
Started dwelling (some t) none = ⊥
Started dwelling (some t) (some w) = t ≤ w.0

-- The states of the two engines between two observations.
pub record Coupled (ps : TemporalState Presence) (ds : TemporalState Dwell) : Type 0 where
  pub same_presence : is_dwelling ds.current_state ≡ is_confirmed ps.current_state
  pub same_watermark : ds.watermark ≡ ps.watermark
  pub family : ds.key.fsm_kind ≡ "dwell"
  pub same_version : ds.fsm_version ≡ ps.fsm_version
  pub started : Started ds.current_state ds.state_since ds.watermark

-- The bounds of the intervals that a step reports.
abbrev pub spans : List DwellInterval → List (Instant × Option Instant)
spans [] = []
spans (i ∷ rest) = (i.dwell_start, i.dwell_end) ∷ spans rest

-- The bounds that are due when the confirmed presence goes from one value to another at an instant.
abbrev pub ended : Bool → Bool → Option Instant → Instant → List (Instant × Option Instant)
ended true false (some start) t = (start, some t) ∷ []
ended _ _ since t = []

-- The start of an open interval is not after an instant that is not behind the watermark.
abbrev StartedAt : Dwell → Option Instant → Instant → Type 0
StartedAt idle since t = Unit
StartedAt dwelling none t = ⊥
StartedAt dwelling (some a) t = a ≤ t

Started-at :
    (d : Dwell) (since : Option Instant) (w : Option Position) (q : Position)
    → Started d since w
    → NotBehind (some q) w
    → StartedAt d since q.0
Started-at idle since w q h ahead = tt
Started-at dwelling none w q h ahead = h
Started-at dwelling (some a) none q h ahead = absurd h
Started-at dwelling (some a) (some w) q h ahead = ground arith

module _ (p : TemporalPolicy) (uuid5 : List Part → ℕ) (ds : TemporalState Dwell)
    (inp : TemporalInput) (why : TemporalReason) (to : Bool)
    (kind : inp.observation_kind ≡ kind_of_reason why)
    (effect : Effect why (is_dwelling ds.current_state) to)
    (started : Started ds.current_state ds.state_since ds.watermark)
    (ahead : NotBehind (some (observation_position inp.observation)) ds.watermark) where
  pub in_order-is_ok :
      is_ok (apply_in_order (dwell_engine p uuid5) ds inp >>= close_interval p uuid5 ds inp) ≡ true
  unfolding apply_in_order close_interval build_closed_interval build_transition evaluate
  in_order-is_ok = ground (
    arith,
    Started-at ds.current_state ds.state_since ds.watermark (observation_position inp.observation)
        started ahead,
  )

  pub in_order-to :
      {r : TemporalResult Dwell}
      → apply_in_order (dwell_engine p uuid5) ds inp >>= close_interval p uuid5 ds inp ≡ ok r
      → is_dwelling r.state.current_state ≡ to
  unfolding apply_in_order close_interval build_closed_interval build_transition evaluate
      apply_evaluation
  in_order-to h = ground arith

  pub in_order-keeps :
      {r : TemporalResult Dwell}
      → apply_in_order (dwell_engine p uuid5) ds inp >>= close_interval p uuid5 ds inp ≡ ok r
      → (r.state.watermark ≡ some (observation_position inp.observation))
        × (r.state.key ≡ ds.key)
        × (r.state.fsm_version ≡ ds.fsm_version)
  unfolding apply_in_order close_interval build_closed_interval build_transition evaluate
      apply_evaluation
  in_order-keeps h = ground arith

  pub in_order-Started :
      {r : TemporalResult Dwell}
      → apply_in_order (dwell_engine p uuid5) ds inp >>= close_interval p uuid5 ds inp ≡ ok r
      → Started r.state.current_state r.state.state_since r.state.watermark
  unfolding apply_in_order close_interval build_closed_interval build_transition evaluate
      apply_evaluation
  in_order-Started h = ground (
    arith,
    Started-at ds.current_state ds.state_since ds.watermark (observation_position inp.observation)
        started ahead,
  )

  pub in_order-spans :
      {r : TemporalResult Dwell}
      → apply_in_order (dwell_engine p uuid5) ds inp >>= close_interval p uuid5 ds inp ≡ ok r
      → spans r.dwell_intervals
        ≡ ended
            (is_dwelling ds.current_state)
            to
            ds.state_since
            (observed_at inp.observation).instant
  unfolding apply_in_order close_interval build_closed_interval build_transition evaluate
      apply_evaluation
  in_order-spans h = ground arith
