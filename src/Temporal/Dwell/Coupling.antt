-- ===== src/Temporal/Dwell/Coupling.antt =====
-- The presence engine never drives the dwell engine into an error, and the two agree.
use text.Mathlib.Text.{◌==◌ as str_eq}
use hotelops_ai.Prelude.{
  ℕ, ◌≡◌, refl, ◌∙◌, ap, sym, inl, inr, Bool, true, false, Option, some, List, [], contains, ok,
  ◌>>=◌, >>=-eq-ok, Result-cases, arith,
}
use hotelops_ai.Temporal.Errors.{Checked}
use hotelops_ai.Temporal.Model.{
  Instant, TemporalReason, TemporalPolicy, kind_name, TemporalState, Part, temporal_engine_version,
}
use hotelops_ai.Temporal.Engine.{
  TemporalInput, TemporalResult, observed_at, observation_position, validate, apply, order,
  apply_in_order, apply_duplicate, accept_reordered, apply_evaluation, build_transition,
  key_matches_observation,
}
use hotelops_ai.Temporal.Engine.Ordering.{
  NotBehind, IsAhead, IsAhead-NotBehind, order-duplicate, order-behind, order-ahead,
}
use hotelops_ai.Temporal.Engine.Outcome.{was_duplicate, was_reordered, was_applied, apply-Outcome}
use hotelops_ai.Temporal.Presence.{Presence, presence_name, presence_engine}
use hotelops_ai.Temporal.Presence.Invariant.{is_confirmed, Effect, apply-Effect}
use hotelops_ai.Temporal.Dwell.{
  Dwell, dwell_name, dwell_engine, dwell_kinds, dwell_apply, close_interval, kind_of_reason,
  dwell_event_from_presence, is_dwelling,
}
use hotelops_ai.Temporal.Dwell.Lockstep.{
  dwell_input, Coupled, spans, ended, in_order-is_ok, in_order-to, in_order-keeps, in_order-Started,
  in_order-spans,
}

kind_of_reason-known : (why : TemporalReason) → contains dwell_kinds (kind_of_reason why) ≡ true
kind_of_reason-known why = ground arith

ended-stay : (b : Bool) (since : Option Instant) (t : Instant) → [] ≡ ended b b since t
ended-stay true since t = refl
ended-stay false since t = refl

module _ (p : TemporalPolicy) (uuid5 : List Part → ℕ) (ps : TemporalState Presence)
    (ds : TemporalState Dwell) (inp : TemporalInput) {r : TemporalResult Presence}
    (coupled : Coupled ps ds) (accepted : apply (presence_engine p uuid5) ps inp ≡ ok r) where
  presence_valid : validate (presence_engine p uuid5) ps inp ≡ ok tt
  unfolding apply
  presence_valid = (>>=-eq-ok (validate (presence_engine p uuid5) ps inp) _ accepted).1

  dwell_valid : validate (dwell_engine p uuid5) ds (dwell_input inp r) ≡ ok tt
  unfolding validate dwell_input key_matches_observation dwell_event_from_presence
  dwell_valid = ground (
    arith,
    presence_valid,
    kind_of_reason-known r.transition.reason,
    ap (λ k. str_eq k "dwell") coupled.family,
    ap (λ v. str_eq v temporal_engine_version) coupled.same_version,
  )

  -- What the dwell engine has to make of the step.
  abbrev Follows : TemporalResult Dwell → Type 0
  Follows r' =
      Coupled r.state r'.state
      × (spans r'.dwell_intervals
          ≡ ended (is_confirmed ps.current_state) (is_confirmed r.state.current_state)
              ds.state_since (observed_at inp.observation).instant)

  Follows-applied :
      IsAhead (observation_position inp.observation) ps.watermark
      → r.state.watermark ≡ some (observation_position inp.observation)
      → r.state.fsm_version ≡ ps.fsm_version
      → (r' : TemporalResult Dwell) × (apply_in_order (dwell_engine p uuid5) ds (dwell_input inp r)
            >>= close_interval p uuid5 ds (dwell_input inp r)
          ≡ ok r')
        × Follows r'
  unfolding dwell_input dwell_event_from_presence
  Follows-applied ahead marked version =
      elim (Result-cases (
        apply_in_order (dwell_engine p uuid5) ds (dwell_input inp r)
        >>= close_interval p uuid5 ds (dwell_input inp r))) [
          | inl (r', done) ↦
              let (place, key, same) =
                in_order-keeps p uuid5 ds (dwell_input inp r) why to refl effect coupled.started
                  ahead' done in
              let reached =
                in_order-to p uuid5 ds (dwell_input inp r) why to refl effect coupled.started ahead'
                  done in
              (
                r',
                done,
                (
                  record {
                    same_presence = reached;
                    same_watermark = place ∙ sym marked;
                    family = ap (λ k. k.fsm_kind) key ∙ coupled.family;
                    same_version = same ∙ coupled.same_version ∙ sym version;
                    started =
                        in_order-Started p uuid5 ds (dwell_input inp r) why to refl effect
                          coupled.started ahead' done;
                  },
                  rw coupled.same_presence at (
                      in_order-spans p uuid5 ds (dwell_input inp r) why to refl effect
                        coupled.started ahead' done),
                ),
              )
          | inr (x, failed) ↦ cc (
            failed,
            in_order-is_ok p uuid5 ds (dwell_input inp r) why to refl effect coupled.started ahead',
          )
        ]
    where
      why : TemporalReason
      why = r.transition.reason

      to : Bool
      to = is_confirmed r.state.current_state

      effect : Effect why (is_dwelling ds.current_state) to
      effect = rw coupled.same_presence (apply-Effect p uuid5 ps inp accepted)

      ahead' : NotBehind (some (observation_position inp.observation)) ds.watermark
      ahead' =
          rw coupled.same_watermark
            (IsAhead-NotBehind (observation_position inp.observation) ps.watermark ahead)

  Follows-unchanged :
      (r' : TemporalResult Dwell)
      → r.state.current_state ≡ ps.current_state
      → r.state.watermark ≡ ps.watermark
      → r.state.fsm_version ≡ ps.fsm_version
      → r'.state.current_state ≡ ds.current_state
      → r'.state.watermark ≡ ds.watermark
      → r'.state.state_since ≡ ds.state_since
      → r'.state.key ≡ ds.key
      → r'.state.fsm_version ≡ ds.fsm_version
      → r'.dwell_intervals ≡ []
      → Follows r'
  Follows-unchanged r' state mark version state' mark' since' key' version' nothing = (
    record {
      same_presence = rw (state', state) coupled.same_presence;
      same_watermark = rw (mark', mark) coupled.same_watermark;
      family = rw key' coupled.family;
      same_version = rw (version', version) coupled.same_version;
      started = rw (state', since', mark') coupled.started;
    },
    rw (nothing, state) (ended-stay (is_confirmed ps.current_state) ds.state_since _),
  )

  dwell_order :
      (m : Checked (TemporalResult Dwell))
      → order (dwell_engine p uuid5) ds (dwell_input inp r) ≡ m
      → dwell_apply p uuid5 ds (dwell_input inp r)
        ≡ (m >>= close_interval p uuid5 ds (dwell_input inp r))
  unfolding dwell_apply apply
  dwell_order m e = rw (dwell_valid, e) refl

  -- An accepted presence observation is accepted by the dwell engine in the state coupled with it;
  -- afterwards the states are coupled again, and one closed interval, from the start of the open
  -- one to the observation, is reported exactly when a confirmed presence ends.
  pub dwell_apply-follows :
      (r' : TemporalResult Dwell) × (dwell_apply p uuid5 ds (dwell_input inp r) ≡ ok r')
      × Coupled r.state r'.state
      × (spans r'.dwell_intervals
          ≡ ended
              (is_confirmed ps.current_state)
              (is_confirmed r.state.current_state)
              ds.state_since
              (observed_at inp.observation).instant)
  unfolding dwell_input apply_duplicate accept_reordered apply_evaluation build_transition
      close_interval
  dwell_apply-follows = elim (apply-Outcome (presence_engine p uuid5) ps inp accepted) [
    | was_duplicate at same why ↦
        let f =
          Follows-unchanged (apply_duplicate (dwell_engine p uuid5) ds (dwell_input inp r))
            (rw same) (rw same) (rw same) refl refl refl refl refl refl in
        (
          apply_duplicate (dwell_engine p uuid5) ds (dwell_input inp r),
          dwell_order _ (
              order-duplicate (dwell_engine p uuid5) ds (dwell_input inp r)
                (coupled.same_watermark ∙ at)),
          f.0,
          f.1,
        )
    | was_reordered w marked off behind near same why ↦
        let f =
          Follows-unchanged (accept_reordered (dwell_engine p uuid5) ds (dwell_input inp r))
            (rw same) (rw same) (rw same) refl refl refl refl refl refl in
        (
          accept_reordered (dwell_engine p uuid5) ds (dwell_input inp r),
          dwell_order _ (
              order-behind (dwell_engine p uuid5) ds (dwell_input inp r) w
                (coupled.same_watermark ∙ marked) off behind near),
          f.0,
          f.1,
        )
    | was_applied v evaluated ahead reported reached ↦
        let (r', done, follows) = Follows-applied ahead (rw reached) (rw reached) in
        (
          r',
          dwell_order _ (
                order-ahead (dwell_engine p uuid5) ds (dwell_input inp r)
                  (rw coupled.same_watermark ahead))
              ∙ done,
          follows.0,
          follows.1,
        )
  ]
