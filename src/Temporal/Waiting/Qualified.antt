-- ===== src/Temporal/Waiting/Qualified.antt =====
-- What a waiting state and a waiting interval attest.
use hotelops_ai.Prelude.{
  ℕ, ◌+◌, ◌≡◌, inl, inr, Bool, true, false, not, ◌&&◌, ◌||◌, Option, none, some, List, leb,
  if◌then◌else◌, ok, >>=-eq-ok, arith, Bool-cases, Option-cases, ◌-◌,
}
use hotelops_ai.Temporal.Fsm.{transition, find}
use hotelops_ai.Temporal.Model.{Instant, TemporalReason, Kind, Part}
use hotelops_ai.Temporal.Engine.{Position, position_eq, position_lt}
use hotelops_ai.Temporal.Waiting.{
  Waiting, not_waiting, candidate, waiting, WaitingPolicy, WaitingState, WaitingInput,
  WaitingResult, Verdict, is_lost, is_enter, context_ok, terminate, start_candidate, carry_on,
  when_stationary, evaluate, reason_of,
}
use hotelops_ai.Temporal.Waiting.Engine.{
  validate, apply_out_of_order, apply_in_order, order, apply, position_of,
}

-- The fields agree with the state, as the validators of `WaitingState` ask, and a waiting state has
-- waited for the qualification since it became a candidate.
abbrev pub attests : ℕ → Waiting → Option Instant → Option Instant → Bool → Bool
attests q not_waiting none none present = true
attests q candidate (some since) none present = present
attests q waiting (some since) (some from) present = present && leb (since + q) from
attests q _ _ _ present = false

abbrev pub is_attested : WaitingPolicy → WaitingState → Bool
is_attested p s =
    attests p.qualification s.current_state s.candidate_start s.waiting_start s.presence_confirmed

abbrev verdict_attested : WaitingPolicy → Verdict → Bool
verdict_attested p v =
    attests p.qualification v.next_state v.candidate_start v.waiting_start v.presence_confirmed

module _ (p : WaitingPolicy) (uuid5 : List Part → ℕ) where
  terminate-attested :
      (s : WaitingState) (current : Waiting) (t : Instant) (why : TemporalReason) (present : Bool)
      {v : Verdict}
      → terminate p uuid5 s current t why present ≡ ok v
      → verdict_attested p v ≡ true
  unfolding terminate transition find
  terminate-attested s not_waiting t why present h = ground arith
  terminate-attested s candidate t why present h = ground arith
  terminate-attested s waiting t why present h = ground arith

  start_candidate-attested :
      (current : Waiting) (t : Instant) {v : Verdict}
      → start_candidate p uuid5 current t true ≡ ok v
      → verdict_attested p v ≡ true
  unfolding start_candidate transition find
  start_candidate-attested not_waiting t h = ground arith
  start_candidate-attested candidate t h = ground arith
  start_candidate-attested waiting t h = ground arith

  carry_on-attested :
      (s : WaitingState) (current : Waiting) (t : Instant) {v : Verdict}
      → attests p.qualification current s.candidate_start s.waiting_start s.presence_confirmed
        ≡ true
      → carry_on p uuid5 s current t true ≡ ok v
      → verdict_attested p v ≡ true
  unfolding carry_on transition find
  carry_on-attested s not_waiting t a h = start_candidate-attested not_waiting t h
  carry_on-attested s candidate t a h = elim (Option-cases s.candidate_start) [
    | inl gone ↦ absurd (ground arith)
    | inr (since, start) ↦ elim (Bool-cases (leb (since + p.qualification) t)) [
      | inl enough ↦ ground arith
      | inr early ↦ ground arith
    ]
  ]
  carry_on-attested s waiting t a h = ground arith

  when_stationary-attested :
      (s : WaitingState) (kind : Kind) (t : Instant) (present : Bool) {v : Verdict}
      → is_attested p s ≡ true
      → (not s.presence_confirmed || present) ≡ true
      → when_stationary p uuid5 s kind t present ≡ ok v
      → verdict_attested p v ≡ true
  unfolding when_stationary
  when_stationary-attested s kind t false {v} a kept h = ground arith
  when_stationary-attested s kind t true {v} a kept h = elim (Bool-cases (context_ok p s.key)) [
    | inr outside ↦ ground arith
    | inl inside ↦ elim (Bool-cases (is_enter kind)) [
      | inl entered ↦ start_candidate-attested s.current_state t {v = v} (ground arith)
      | inr stays ↦ carry_on-attested s s.current_state t {v = v} a (ground arith)
    ]
  ]

  evaluate-attested :
      (s : WaitingState) (kind : Kind) (t : Instant) (stationary : Bool) {v : Verdict}
      → is_attested p s ≡ true
      → evaluate p uuid5 s kind t stationary ≡ ok v
      → verdict_attested p v ≡ true
  unfolding evaluate
  evaluate-attested s kind t stationary {v} a h = elim (Bool-cases (is_lost kind)) [
    | inl lost ↦
        terminate-attested s s.current_state t (reason_of kind) false {v = v} (ground arith)
    | inr there ↦ elim (Bool-cases stationary) [
      | inl still ↦
          when_stationary-attested s kind t (if is_enter kind then true else s.presence_confirmed)
            {v = v} a (ground arith) (ground arith)
      | inr moved ↦
          terminate-attested s s.current_state t TemporalReason.movement_exceeded
            (if is_enter kind then true else s.presence_confirmed) {v = v} (ground arith)
    ]
  ]

  in_order-attested :
      (s : WaitingState) (inp : WaitingInput) (q : Position) {r : WaitingResult}
      → is_attested p s ≡ true
      → apply_in_order p uuid5 s inp q ≡ ok r
      → is_attested p r.state ≡ true
  unfolding apply_in_order
  in_order-attested s inp q {r} a h =
      let verdicts =
        >>=-eq-ok
          (evaluate p uuid5 s inp.observation_kind q.0 inp.classification_state.is_stationary) _
          h in
      let step =
        evaluate-attested s inp.observation_kind q.0 inp.classification_state.is_stationary
          {v = verdicts.0} a verdicts.1 in
      ground arith

  order-attested :
      (s : WaitingState) (inp : WaitingInput) (q : Position) (w : Option Position)
      {r : WaitingResult}
      → is_attested p s ≡ true
      → order p uuid5 s inp q w ≡ ok r
      → is_attested p r.state ≡ true
  unfolding order apply_in_order apply_out_of_order
  order-attested s inp q none {r} a h = in_order-attested s inp q {r = r} a h
  order-attested s inp q (some w) {r} a h = elim (Bool-cases (position_eq q w)) [
    | inl seen ↦ ground arith
    | inr new ↦ elim (Bool-cases (position_lt q w)) [
      | inl late ↦ elim (Bool-cases (leb (w.0 - q.0) p.base.reorder_window)) [
        | inl within ↦ ground arith
        | inr beyond ↦ ground arith
      ]
      | inr next ↦ in_order-attested s inp q {r = r} a (ground arith)
    ]
  ]

  -- Where the fields of a waiting state agree with its state, every input that the engine accepts
  -- leaves a state in which they agree: nothing is open unless the entity is confirmed present, a
  -- candidate has a start, and a waiting state started no earlier than the qualification time after
  -- its candidate.
  pub waiting-attested :
      (s : WaitingState) (inp : WaitingInput) {r : WaitingResult}
      → is_attested p s ≡ true
      → apply p uuid5 s inp ≡ ok r
      → is_attested p r.state ≡ true
  unfolding apply
  waiting-attested s inp {r} a h =
      order-attested s inp (position_of p uuid5 inp) s.watermark {r = r} a
        (>>=-eq-ok (validate p uuid5 s inp) _ h).2
