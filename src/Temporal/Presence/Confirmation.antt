-- ===== src/Temporal/Presence/Confirmation.antt =====
-- A run of positive observations confirms an entry; a short gap does not end a presence.
use hotelops_ai.Prelude.{
  ℕ, ◌+◌, ◌<◌, ◌≡◌, refl, ◌∙◌, ◌⊎◌, inl, inr, Option, some, List, [], ◌∷◌, length, All, ok,
  >>=-eq-ok, Result-cases, arith,
}
use hotelops_ai.Temporal.Model.{
  Instant, TemporalPolicy, IsPolicy, Kind, kind_name, TemporalState, Part,
}
use hotelops_ai.Temporal.Engine.{
  Evaluation, TemporalInput, TemporalResult, Position, observed_at, observation_position, validate,
  apply, order, apply_in_order, apply_evaluation,
}
use hotelops_ai.Temporal.Engine.Ordering.{IsAhead, order-ahead, validate-order}
use hotelops_ai.Temporal.Presence.{
  Presence, absent, entering, present, presence_name, event_name, evaluate, presence_engine,
}
use hotelops_ai.Temporal.Presence.Hysteresis.{replay, replay-cons}
use hotelops_ai.Temporal.Presence.Invariant.{apply_in_order-is_ok, validate-known}

-- The inputs stand in event-time order, the first one ahead of the watermark.
abbrev pub Ascending : Option Position → List TemporalInput → Type 0
Ascending w [] = Unit
Ascending w (inp ∷ rest) =
    IsAhead (observation_position inp.observation) w
    × Ascending (some (observation_position inp.observation)) rest

module _ (p : TemporalPolicy) (uuid5 : List Part → ℕ) where
  -- An input of the kind `present` that passes validation.
  abbrev pub IsPositive : TemporalState Presence → TemporalInput → Type 0
  IsPositive s inp =
      (validate (presence_engine p uuid5) s inp ≡ ok tt) × (inp.observation_kind ≡ Kind.present)

  -- A presence that is not confirmed: absent, or entering with a count of positive observations.
  abbrev pub IsUnconfirmed : TemporalState Presence → Type 0
  IsUnconfirmed s =
      ((s.current_state ≡ absent) × (s.entry_confirm_count ≡ 0)) ⊎ (s.current_state ≡ entering)

  evaluate-reached :
      (s : TemporalState Presence) (t : Instant) {v : Evaluation Presence}
      → IsPolicy p
      → IsUnconfirmed s
      → s.entry_confirm_count + 1 ≡ p.entry_confirmation
      → evaluate p s Kind.present t ≡ ok v
      → v.state ≡ present
  unfolding evaluate
  evaluate-reached s t policy start last done = ground arith

  evaluate-counted :
      (s : TemporalState Presence) (t : Instant) {v : Evaluation Presence}
      → IsPolicy p
      → IsUnconfirmed s
      → s.entry_confirm_count + 1 < p.entry_confirmation
      → evaluate p s Kind.present t ≡ ok v
      → (v.state ≡ entering) × (v.entry_confirm_count ≡ s.entry_confirm_count + 1)
  unfolding evaluate
  evaluate-counted s t policy start more done = ground arith

  -- A positive observation ahead of the watermark is applied, by what `evaluate` makes of it.
  positive_applies :
      (s : TemporalState Presence) (inp : TemporalInput)
      → IsPositive s inp
      → IsAhead (observation_position inp.observation) s.watermark
      → (r : TemporalResult Presence) × (v : Evaluation Presence) × (order
            (presence_engine p uuid5)
            s
            inp
          ≡ ok r)
        × (evaluate p s Kind.present (observed_at inp.observation).instant ≡ ok v)
        × (r.state.watermark ≡ some (observation_position inp.observation))
        × (r.state.current_state ≡ v.state)
        × (r.state.entry_confirm_count ≡ v.entry_confirm_count)
  unfolding apply_in_order apply_evaluation
  positive_applies s inp (valid, positive) ahead =
      elim (Result-cases (apply_in_order (presence_engine p uuid5) s inp)) [
        | inl (r, applied) ↦
            let (v, evaluated, made) =
              >>=-eq-ok (evaluate p s inp.observation_kind (observed_at inp.observation).instant) _
                applied in
            (
              r,
              v,
              order-ahead (presence_engine p uuid5) s inp ahead ∙ applied,
              rw positive at evaluated,
              ground arith,
              ground arith,
              ground arith,
            )
        | inr (x, failed) ↦
            cc (failed, apply_in_order-is_ok p uuid5 s inp (validate-known p uuid5 s inp valid))
      ]

  apply-order :
      (s : TemporalState Presence) (inp : TemporalInput) {r : TemporalResult Presence}
      → validate (presence_engine p uuid5) s inp ≡ ok tt
      → order (presence_engine p uuid5) s inp ≡ ok r
      → apply (presence_engine p uuid5) s inp ≡ ok r
  unfolding apply
  apply-order s inp valid ordered = rw valid ordered

  replay-nil : (s : TemporalState Presence) → replay (presence_engine p uuid5) s [] ≡ ok s
  unfolding replay
  replay-nil s = refl

  All-IsPositive :
      (s : TemporalState Presence) (inp : TemporalInput) {r : TemporalResult Presence}
      (rest : List TemporalInput)
      → order (presence_engine p uuid5) s inp ≡ ok r
      → All (IsPositive s) rest
      → All (IsPositive r.state) rest
  All-IsPositive s inp [] h all = tt
  All-IsPositive s inp (next ∷ rest) h (first, all) = (
    (validate-order (presence_engine p uuid5) s inp next h ∙ first.0, first.1),
    All-IsPositive s inp rest h all,
  )

  -- As many positive observations as the confirmation still wants, valid and in event-time order,
  -- are all accepted, and the presence is confirmed at the end.
  pub replay-present :
      (s : TemporalState Presence) (timeline : List TemporalInput)
      → IsPolicy p
      → IsUnconfirmed s
      → 0 < length timeline
      → s.entry_confirm_count + length timeline ≡ p.entry_confirmation
      → All (IsPositive s) timeline
      → Ascending s.watermark timeline
      → (t : TemporalState Presence) × (replay (presence_engine p uuid5) s timeline ≡ ok t)
        × (t.current_state ≡ present)
  replay-present s [] policy start some_left wanted all ascending = absurd (omega arith)
  replay-present s (inp ∷ []) policy start some_left wanted all ascending =
      let (r, v, ordered, evaluated, marked, state, count) =
        positive_applies s inp all.0 ascending.0 in
      (
        r.state,
        replay-cons _ s inp [] (apply-order s inp all.0.0 ordered) ∙ replay-nil r.state,
        state
            ∙ evaluate-reached s (observed_at inp.observation).instant policy start (omega arith)
                evaluated,
      )
  replay-present s (inp ∷ next ∷ rest) policy start some_left wanted all ascending =
      let (r, v, ordered, evaluated, marked, state, count) =
        positive_applies s inp all.0 ascending.0 in
      let (now_entering, counted) =
        evaluate-counted s (observed_at inp.observation).instant policy start (omega arith)
          evaluated in
      let (t, replayed, confirmed) =
        replay-present r.state (next ∷ rest) policy (inr (state ∙ now_entering)) (omega arith)
          (ground arith) (All-IsPositive s inp (next ∷ rest) ordered all.1)
          (rw marked ascending.1) in
      (
        t,
        replay-cons _ s inp (next ∷ rest) (apply-order s inp all.0.0 ordered) ∙ replayed,
        confirmed,
      )
