-- ===== src/Temporal/Engine/Outcome.antt =====
-- The three ways in which the engine accepts an observation, for proofs about a family.
use hotelops_ai.Prelude.{
  ◌≡◌, ◌-◌, ◌≤◌, false, inl, inr, true, false, some, Name, ok, >>=-eq-ok, Bool-cases, Option-cases,
  arith,
}
use hotelops_ai.Temporal.Model.{TemporalReason, TemporalState}
use hotelops_ai.Temporal.Engine.{
  Engine, Evaluation, TemporalInput, TemporalResult, Position, observed_at, observation_position,
  position_eq, position_lt, newer, validate, order, apply, apply_duplicate, apply_out_of_order,
  apply_in_order, apply_evaluation, build_transition,
}
use hotelops_ai.Temporal.Engine.Ordering.{IsAhead}

module _ {S E : Type 0} ⦃names : Name S⦄ where
  pub data Outcome (e : Engine S E) (s : TemporalState S) (inp : TemporalInput)
      (r : TemporalResult S) : Type 0 where
    was_duplicate :
        s.watermark ≡ some (observation_position inp.observation)
        → r.state ≡ s
        → r.transition.reason ≡ TemporalReason.deduplicated
        → Outcome e s inp r
    was_reordered :
        (w : Position)
        → s.watermark ≡ some w
        → position_eq (observation_position inp.observation) w ≡ false
        → position_lt (observation_position inp.observation) w ≡ true
        → w.0 - (observed_at inp.observation).instant ≤ e.policy.reorder_window
        → r.state
          ≡ record s { last_seen = some (newer s.last_seen (observed_at inp.observation).instant) }
        → r.transition.reason ≡ TemporalReason.reordered
        → Outcome e s inp r
    was_applied :
        (v : Evaluation S)
        → e.evaluate s inp.observation_kind (observed_at inp.observation).instant ≡ ok v
        → IsAhead (observation_position inp.observation) s.watermark
        → r.transition ≡ build_transition e inp s.current_state v.state v.reason
        → r.state ≡ apply_evaluation e s v r.transition (observation_position inp.observation)
        → Outcome e s inp r

module _ {S E : Type 0} ⦃names : Name S⦄ (e : Engine S E) (s : TemporalState S)
    (inp : TemporalInput) {r : TemporalResult S} where
  applied-Outcome :
      IsAhead (observation_position inp.observation) s.watermark
      → apply_in_order e s inp ≡ ok r
      → Outcome e s inp r
  unfolding apply_in_order
  applied-Outcome ahead h =
      let (v, evaluated, rest) =
        >>=-eq-ok (e.evaluate s inp.observation_kind (observed_at inp.observation).instant) _ h in
      was_applied v evaluated ahead (ground arith) (ground arith)

  pub order-Outcome : order e s inp ≡ ok r → Outcome e s inp r
  unfolding order apply_duplicate apply_out_of_order build_transition
  order-Outcome h = elim (Option-cases s.watermark) [
    | inl unmarked ↦ applied-Outcome (ground arith) (ground arith)
    | inr (w, marked) ↦ elim (Bool-cases (position_eq (observation_position inp.observation) w)) [
      | inl at ↦ was_duplicate (ground arith) (ground arith) (ground arith)
      | inr off ↦ elim (Bool-cases (position_lt (observation_position inp.observation) w)) [
        | inl behind ↦
            was_reordered w marked off behind (ground arith) (ground arith) (ground arith)
        | inr ahead ↦ applied-Outcome (ground arith) (ground arith)
      ]
    ]
  ]

  pub apply-Outcome : apply e s inp ≡ ok r → Outcome e s inp r
  unfolding apply
  apply-Outcome h = order-Outcome (>>=-eq-ok (validate e s inp) (λ _. order e s inp) h).2
