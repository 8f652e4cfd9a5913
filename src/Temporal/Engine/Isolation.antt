-- ===== src/Temporal/Engine/Isolation.antt =====
-- What the engine compares of a state's key with an input: the family alone.
use hotelops_ai.Prelude.{◌≡◌, refl, Name, ok, err, arith}
use hotelops_ai.Temporal.Errors.{Checked}
use hotelops_ai.Temporal.Model.{TemporalState, TemporalStateKey, Kind, Instant}
use hotelops_ai.Temporal.Engine.{
  Engine, TemporalInput, TemporalResult, validate, apply, order, apply_duplicate,
  apply_out_of_order, apply_in_order, apply_evaluation, observed_at,
}

-- A family whose evaluation does not look at the key of the state.
abbrev pub IsKeyBlind : {S E : Type 0} → Engine S E → Type 0
IsKeyBlind {S = S} e =
    (s : TemporalState S) (key : TemporalStateKey) (k : Kind) (t : Instant)
    → e.evaluate (record s { key = key }) k t ≡ e.evaluate s k t

abbrev pub with_key :
    {S : Type 0} → TemporalStateKey → Checked (TemporalResult S) → Checked (TemporalResult S)
with_key key (ok r) = ok (record r { state = record (r.state) { key = key } })
with_key key (err x) = err x

module _ {S E : Type 0} ⦃names : Name S⦄ (e : Engine S E) (s : TemporalState S)
    (inp : TemporalInput) (key : TemporalStateKey) where
  apply_in_order-key :
      IsKeyBlind e
      → apply_in_order e (record s { key = key }) inp ≡ with_key key (apply_in_order e s inp)
  unfolding apply_in_order apply_evaluation
  apply_in_order-key blind =
      ground (arith, blind s key inp.observation_kind (observed_at inp.observation).instant)

  order-key : IsKeyBlind e → order e (record s { key = key }) inp ≡ with_key key (order e s inp)
  unfolding order apply_duplicate apply_out_of_order
  order-key blind = ground (arith, apply_in_order-key blind)

  validate-key :
      key.fsm_kind ≡ s.key.fsm_kind → validate e (record s { key = key }) inp ≡ validate e s inp
  unfolding validate
  validate-key family = rw family refl

  -- For a family that does not look at the key: a state under any other key of the family takes the
  -- input with the same transition, the same error or the same next state, up to that key.
  pub apply-key :
      IsKeyBlind e
      → key.fsm_kind ≡ s.key.fsm_kind
      → apply e (record s { key = key }) inp ≡ with_key key (apply e s inp)
  unfolding apply
  apply-key blind family = rw (validate-key family) (ground (arith, order-key blind))
