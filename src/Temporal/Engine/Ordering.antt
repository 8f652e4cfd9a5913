-- ===== src/Temporal/Engine/Ordering.antt =====
-- The event-time discipline of the engine, for every family.
use hotelops_ai.Prelude.{
  ℕ, ◌-◌, ◌≤◌, ◌<◌, ◌≡◌, refl, ap, ◌∙◌, ◌⊎◌, inl, inr, true, false, Option, none, some, Name, ok,
  err, arith, >>=-eq-ok, Option-cases, Bool-cases,
}
use hotelops_ai.Temporal.Errors.{Checked, late_event}
use hotelops_ai.Temporal.Model.{TemporalState}
use hotelops_ai.Temporal.Engine.{
  Engine, TemporalInput, TemporalResult, Position, observation_position, observed_at, position_eq,
  position_lt, newer, validate, apply, order, apply_duplicate, accept_reordered, apply_out_of_order,
  apply_in_order, apply_evaluation,
}

-- A position at or after another.
abbrev pub NotBefore : Position → Position → Type 0
NotBefore p q = (q.0 < p.0) ⊎ ((q.0 ≡ p.0) × (q.1 ≤ p.1))

abbrev pub NotBehind : Option Position → Option Position → Type 0
NotBehind w none = Unit
NotBehind none (some v) = ⊥
NotBehind (some w) (some v) = NotBefore w v

-- A position ahead of the watermark.
abbrev pub IsAhead : Position → Option Position → Type 0
IsAhead p none = Unit
IsAhead p (some w) = (position_eq p w ≡ false) × (position_lt p w ≡ false)

pub IsAhead-NotBehind : (p : Position) (w : Option Position) → IsAhead p w → NotBehind (some p) w
IsAhead-NotBehind p none h = tt
IsAhead-NotBehind p (some w) h = ground arith

module _ {S E : Type 0} ⦃names : Name S⦄ (e : Engine S E) (s : TemporalState S)
    (inp : TemporalInput) {r : TemporalResult S} where
  order-watermark : order e s inp ≡ ok r → NotBehind r.state.watermark s.watermark
  unfolding order apply_duplicate apply_out_of_order apply_in_order apply_evaluation
  order-watermark h = ground arith

  -- The watermark never moves backward, whichever branch an accepted observation takes.
  pub apply-watermark : apply e s inp ≡ ok r → NotBehind r.state.watermark s.watermark
  unfolding apply
  apply-watermark h = order-watermark (>>=-eq-ok (validate e s inp) (λ _. order e s inp) h).2

-- The state that an accepted input leads to.
abbrev pub state_after : {S : Type 0} → Checked (TemporalResult S) → Option (TemporalState S)
state_after (ok r) = some r.state
state_after (err x) = none

position_eq_self : (p : Position) → position_eq p p ≡ true
position_eq_self p = ground arith

newer-newer : (o : Option ℕ) (t : ℕ) → newer (some (newer o t)) t ≡ newer o t
newer-newer o t = ground arith

module _ {S E : Type 0} ⦃names : Name S⦄ (e : Engine S E) (s : TemporalState S)
    (inp : TemporalInput) where
  -- Behind the watermark `w`, and within the reordering window.
  abbrev IsReordered : Position → Type 0
  IsReordered w =
      (position_eq (observation_position inp.observation) w ≡ false)
      × (position_lt (observation_position inp.observation) w ≡ true)
      × (w.0 - (observed_at inp.observation).instant ≤ e.policy.reorder_window)

  order-at_watermark :
      s.watermark ≡ some (observation_position inp.observation)
      → state_after (order e s inp) ≡ some s
  unfolding order apply_duplicate
  order-at_watermark at = ground (arith, position_eq_self (observation_position inp.observation))

  order-reordered :
      (w : Position)
      → s.watermark ≡ some w
      → IsReordered w
      → state_after (order e s inp)
        ≡ some (record s {
          last_seen = some (newer s.last_seen (observed_at inp.observation).instant);
        })
  unfolding order apply_out_of_order
  order-reordered w marked late = ground arith

module _ {S E : Type 0} ⦃names : Name S⦄ (e : Engine S E) (s : TemporalState S)
    (inp : TemporalInput) {r : TemporalResult S} where
  -- The fields that validation reads are left alone by every branch.
  order-identity :
      order e s inp ≡ ok r → (r.state.key ≡ s.key) × (r.state.fsm_version ≡ s.fsm_version)
  unfolding order apply_duplicate apply_out_of_order apply_in_order apply_evaluation
  order-identity h = ground arith

  -- So an input that is valid for a state is valid for the one that follows it.
  pub validate-order :
      (later : TemporalInput) → order e s inp ≡ ok r → validate e r.state later ≡ validate e s later
  unfolding validate
  validate-order later h =
      let (same_key, same_version) = order-identity h in rw (same_key, same_version) refl

  -- An accepted position is at the watermark afterwards, or it was behind and within the window.
  order-places :
      order e s inp ≡ ok r
      → (r.state.watermark ≡ some (observation_position inp.observation))
        ⊎ ((w : Position) × (s.watermark ≡ some w)
            × IsReordered e s inp w
            × (r.state ≡ record s {
              last_seen = some (newer s.last_seen (observed_at inp.observation).instant);
            }))
  unfolding order apply_duplicate apply_out_of_order apply_in_order apply_evaluation
  order-places h = elim (Option-cases s.watermark) [
    | inl unmarked ↦ ground arith
    | inr (w, marked) ↦ elim (Bool-cases (position_eq (observation_position inp.observation) w)) [
      | inl at ↦ inl (ground arith)
      | inr off ↦ elim (Bool-cases (position_lt (observation_position inp.observation) w)) [
        | inl behind ↦ inr (w, marked, (ground arith), (ground arith))
        | inr ahead ↦ inl (ground arith)
      ]
    ]
  ]

  order-replay : order e s inp ≡ ok r → state_after (order e r.state inp) ≡ some r.state
  order-replay h = elim (order-places h) [
    | inl at ↦ order-at_watermark e r.state inp at
    | inr (w, marked, late, same) ↦
        let t = (observed_at inp.observation).instant in
        rw same (
          order-reordered e (record s { last_seen = some (newer s.last_seen t) }) inp w marked late
          ∙ ap (λ (x : ℕ). some (record s { last_seen = some x })) (newer-newer s.last_seen t))
  ]

  -- An accepted observation that is delivered again is accepted again, and the second delivery
  -- leaves the state as the first one left it.
  pub apply-replay : apply e s inp ≡ ok r → state_after (apply e r.state inp) ≡ some r.state
  unfolding apply
  apply-replay h =
      let (u, valid, ordered) = >>=-eq-ok (validate e s inp) (λ _. order e s inp) h in
      rw (validate-order inp ordered ∙ valid) (order-replay ordered)

module _ {S E : Type 0} ⦃names : Name S⦄ (e : Engine S E) (s : TemporalState S)
    (inp : TemporalInput) where
  -- An observation behind the watermark by more than the reordering window is refused as late,
  -- and one within the window is accepted and changes `last_seen` alone.
  pub apply-out_of_order :
      (w : Position)
      → validate e s inp ≡ ok tt
      → s.watermark ≡ some w
      → position_lt (observation_position inp.observation) w ≡ true
      → ((e.policy.reorder_window < w.0 - (observed_at inp.observation).instant)
          × (apply e s inp ≡ err late_event))
        ⊎ ((w.0 - (observed_at inp.observation).instant ≤ e.policy.reorder_window)
            × (state_after (apply e s inp)
                ≡ some (record s {
                  last_seen = some (newer s.last_seen (observed_at inp.observation).instant);
                })))
  unfolding apply order apply_out_of_order
  apply-out_of_order w valid marked behind = ground arith

  -- The branch that each place of a position takes.
  pub order-duplicate :
      s.watermark ≡ some (observation_position inp.observation)
      → order e s inp ≡ ok (apply_duplicate e s inp)
  unfolding order
  order-duplicate at = ground (arith, position_eq_self (observation_position inp.observation))

  pub order-behind :
      (w : Position)
      → s.watermark ≡ some w
      → position_eq (observation_position inp.observation) w ≡ false
      → position_lt (observation_position inp.observation) w ≡ true
      → w.0 - (observed_at inp.observation).instant ≤ e.policy.reorder_window
      → order e s inp ≡ ok (accept_reordered e s inp)
  unfolding order apply_out_of_order
  order-behind w marked off behind near = ground arith

  pub order-ahead :
      IsAhead (observation_position inp.observation) s.watermark
      → order e s inp ≡ apply_in_order e s inp
  unfolding order
  order-ahead ahead = ground arith
