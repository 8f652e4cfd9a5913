-- ===== src/Temporal/Presence/Loss.antt =====
-- How a confirmed presence can end.
use hotelops_ai.Prelude.{ℕ, ◌+◌, ◌≤◌, ◌≡◌, ap, false, Option, none, some, List, ok, arith}
use hotelops_ai.Temporal.Model.{Instant, TemporalPolicy, Kind, TemporalState, Part}
use hotelops_ai.Temporal.Engine.{
  Evaluation, TemporalInput, TemporalResult, observed_at, apply, apply_evaluation,
}
use hotelops_ai.Temporal.Engine.Isolation.{IsKeyBlind}
use hotelops_ai.Temporal.Engine.Outcome.{was_duplicate, was_reordered, was_applied, apply-Outcome}
use hotelops_ai.Temporal.Presence.{
  Presence, present, presence_name, event_name, evaluate, presence_engine,
}
use hotelops_ai.Temporal.Presence.Invariant.{is_confirmed}

-- The duration has passed since a recorded instant, or none is recorded.
abbrev pub HasPassed : Option Instant → ℕ → Instant → Type 0
HasPassed none gap t = Unit
HasPassed (some since) gap t = since + gap ≤ t

-- What it takes to end the state `present` at once.
abbrev pub EndsPresent : TemporalPolicy → TemporalState Presence → Kind → Instant → Type 0
EndsPresent p s Kind.session_closed t = Unit
EndsPresent p s Kind.absent t =
    (p.exit_confirmation ≡ 1)
    × HasPassed s.state_since p.minimum_dwell t
    × HasPassed s.last_present_seen p.exit_grace t
EndsPresent p s Kind.not_observed t =
    HasPassed s.state_since p.minimum_dwell t
    × HasPassed s.last_present_seen p.occlusion_tolerance t
EndsPresent p s _ t = ⊥

evaluate-EndsPresent :
    (p : TemporalPolicy) (s : TemporalState Presence) (k : Kind) (t : Instant)
    {v : Evaluation Presence}
    → s.current_state ≡ present
    → evaluate p s k t ≡ ok v
    → is_confirmed v.state ≡ false
    → EndsPresent p s k t
unfolding evaluate
evaluate-EndsPresent p s k t here done lost = ground arith

module _ (p : TemporalPolicy) (uuid5 : List Part → ℕ) (s : TemporalState Presence)
    (inp : TemporalInput) {r : TemporalResult Presence} where
  -- Noise does not end a presence: where one accepted observation takes the state `present` to an
  -- unconfirmed one, the session was closed, or the minimum dwell has passed and either the
  -- entity was absent past the grace with a single confirmation asked for, or it was not observed
  -- past the occlusion tolerance.
  pub present_ends :
      s.current_state ≡ present
      → apply (presence_engine p uuid5) s inp ≡ ok r
      → is_confirmed r.state.current_state ≡ false
      → EndsPresent p s inp.observation_kind (observed_at inp.observation).instant
  unfolding apply_evaluation
  present_ends here accepted lost = elim (apply-Outcome (presence_engine p uuid5) s inp accepted) [
    | was_duplicate at same why ↦ cc (
      ap (λ (x : TemporalState Presence). is_confirmed x.current_state) same,
      ap is_confirmed here,
      lost,
    )
    | was_reordered w marked off behind near same why ↦ cc (
      ap (λ (x : TemporalState Presence). is_confirmed x.current_state) same,
      ap is_confirmed here,
      lost,
    )
    | was_applied v evaluated ahead reported reached ↦
        evaluate-EndsPresent p s inp.observation_kind _ here evaluated (rw reached at lost)
  ]

-- The evaluation of the presence engine does not look at the key.
pub presence_engine-IsKeyBlind :
    (p : TemporalPolicy) (uuid5 : List Part → ℕ) → IsKeyBlind (presence_engine p uuid5)
unfolding evaluate
presence_engine-IsKeyBlind p uuid5 s key k t = ground arith
