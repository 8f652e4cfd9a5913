-- ===== src/Temporal/Waiting/Closing.antt =====
-- When a waiting interval is reported, and which one.
use hotelops_ai.Prelude.{
  ℕ, ◌+◌, ◌≤◌, ◌≡◌, refl, inl, inr, Bool, true, false, Option, none, some, List, ltb, if◌then◌else◌,
  ok, >>=-eq-ok, arith, Bool-cases, Option-cases,
}
use hotelops_ai.Temporal.Fsm.{transition, find}
use hotelops_ai.Temporal.Model.{Instant, TemporalReason, Kind, Part}
use hotelops_ai.Temporal.Engine.{Position, position_eq, position_lt}
use hotelops_ai.Temporal.Waiting.{
  Waiting, not_waiting, candidate, waiting, WaitingPolicy, WaitingState, WaitingInterval,
  WaitingInput, WaitingResult, Verdict, is_lost, is_enter, context_ok, make_interval,
  build_closed_interval, terminate, start_candidate, carry_on, when_stationary, evaluate, reason_of,
}
use hotelops_ai.Temporal.Waiting.Engine.{
  validate, apply_out_of_order, apply_in_order, order, apply, position_of,
}

-- The interval that a waiting state closes at an instant.
pub record Closes (s : WaitingState) (t : Instant) (next : Waiting) (i : WaitingInterval)
    : Type 0 where
  pub was_waiting : s.current_state ≡ waiting
  pub is_closed : next ≡ not_waiting
  pub start : s.waiting_start ≡ some i.waiting_start
  pub finish : i.waiting_end ≡ some t
  pub in_order : i.waiting_start ≤ t
  pub measured : i.waiting_start + i.duration ≡ t

module _ (p : WaitingPolicy) (uuid5 : List Part → ℕ) where
  terminate-Closes :
      (s : WaitingState) (current : Waiting) (t : Instant) (why : TemporalReason) (present : Bool)
      {v : Verdict} {i : WaitingInterval}
      → s.current_state ≡ current
      → terminate p uuid5 s current t why present ≡ ok v
      → v.interval ≡ some i
      → Closes s t v.next_state i
  unfolding terminate transition find build_closed_interval make_interval
  terminate-Closes s not_waiting t why present {v} {i} at h g = absurd (ground arith)
  terminate-Closes s candidate t why present {v} {i} at h g = absurd (ground arith)
  terminate-Closes s waiting t why present {v} {i} at h g = elim (Option-cases s.waiting_start) [
    | inl gone ↦ absurd (ground arith)
    | inr (since, start) ↦ elim (Bool-cases (ltb t since)) [
      | inl early ↦ absurd (ground arith)
      | inr later ↦ record {
        was_waiting = at;
        is_closed = ground arith;
        start = ground arith;
        finish = ground arith;
        in_order = ground arith;
        measured = ground arith;
      }
    ]
  ]

  start_candidate-quiet :
      (current : Waiting) (t : Instant) (present : Bool) {v : Verdict}
      → start_candidate p uuid5 current t present ≡ ok v
      → v.interval ≡ none
  unfolding start_candidate transition find
  start_candidate-quiet not_waiting t present h = ground arith
  start_candidate-quiet candidate t present h = ground arith
  start_candidate-quiet waiting t present h = ground arith

  carry_on-quiet :
      (s : WaitingState) (current : Waiting) (t : Instant) (present : Bool) {v : Verdict}
      → carry_on p uuid5 s current t present ≡ ok v
      → v.interval ≡ none
  unfolding carry_on transition find
  carry_on-quiet s not_waiting t present h = start_candidate-quiet not_waiting t present h
  carry_on-quiet s candidate t present h = elim (Option-cases s.candidate_start) [
    | inl gone ↦ absurd (ground arith)
    | inr (since, start) ↦ ground arith
  ]
  carry_on-quiet s waiting t present h = ground arith

  when_stationary-quiet :
      (s : WaitingState) (kind : Kind) (t : Instant) (present : Bool) {v : Verdict}
      → when_stationary p uuid5 s kind t present ≡ ok v
      → v.interval ≡ none
  unfolding when_stationary
  when_stationary-quiet s kind t false h = ground arith
  when_stationary-quiet s kind t true {v} h = elim (Bool-cases (context_ok p s.key)) [
    | inr outside ↦ ground arith
    | inl inside ↦ elim (Bool-cases (is_enter kind)) [
      | inl entered ↦ start_candidate-quiet s.current_state t true {v = v} (ground arith)
      | inr stays ↦ carry_on-quiet s s.current_state t true {v = v} (ground arith)
    ]
  ]

  evaluate-Closes :
      (s : WaitingState) (kind : Kind) (t : Instant) (stationary : Bool) {v : Verdict}
      {i : WaitingInterval}
      → evaluate p uuid5 s kind t stationary ≡ ok v
      → v.interval ≡ some i
      → Closes s t v.next_state i
  unfolding evaluate
  evaluate-Closes s kind t stationary {v} {i} h g = elim (Bool-cases (is_lost kind)) [
    | inl lost ↦
        terminate-Closes s s.current_state t (reason_of kind) false {v = v} {i = i} refl
          (ground arith) g
    | inr there ↦ elim (Bool-cases stationary) [
      | inl still ↦
          let quiet =
            when_stationary-quiet s kind t (if is_enter kind then true else s.presence_confirmed)
              {v = v} (ground arith) in
          absurd (ground arith)
      | inr moved ↦
          terminate-Closes s s.current_state t TemporalReason.movement_exceeded
            (if is_enter kind then true else s.presence_confirmed) {v = v} {i = i} refl
            (ground arith) g
    ]
  ]

  in_order-Closes :
      (s : WaitingState) (inp : WaitingInput) (q : Position) {r : WaitingResult}
      {i : WaitingInterval}
      → apply_in_order p uuid5 s inp q ≡ ok r
      → r.interval ≡ some i
      → Closes s q.0 r.state.current_state i
  unfolding apply_in_order
  in_order-Closes s inp q {r} {i} h g =
      let verdicts =
        >>=-eq-ok
          (evaluate p uuid5 s inp.observation_kind q.0 inp.classification_state.is_stationary) _
          h in
      let reported : verdicts.0.interval ≡ some i = ground arith in
      let closes : Closes s q.0 verdicts.0.next_state i =
        evaluate-Closes s inp.observation_kind q.0 inp.classification_state.is_stationary
          {v = verdicts.0} {i = i} verdicts.1 reported in
      record {
        was_waiting = closes.was_waiting;
        is_closed = ground arith;
        start = closes.start;
        finish = closes.finish;
        in_order = closes.in_order;
        measured = closes.measured;
      }

  order-Closes :
      (s : WaitingState) (inp : WaitingInput) (q : Position) (w : Option Position)
      {r : WaitingResult} {i : WaitingInterval}
      → order p uuid5 s inp q w ≡ ok r
      → r.interval ≡ some i
      → Closes s q.0 r.state.current_state i
  unfolding order apply_out_of_order
  order-Closes s inp q none {r} {i} h g = in_order-Closes s inp q {r = r} {i = i} h g
  order-Closes s inp q (some w) {r} {i} h g = elim (Bool-cases (position_eq q w)) [
    | inl seen ↦ absurd (ground arith)
    | inr new ↦ elim (Bool-cases (position_lt q w)) [
      | inl late ↦ absurd (ground arith)
      | inr next ↦ in_order-Closes s inp q {r = r} {i = i} (ground arith) g
    ]
  ]

  -- An accepted input reports an interval only where it ends a wait: the state before was waiting
  -- and the state after is not, the interval starts where that wait started and ends at the event
  -- time of the input, no earlier, and its duration is the time between them.
  pub apply-Closes :
      (s : WaitingState) (inp : WaitingInput) {r : WaitingResult} {i : WaitingInterval}
      → apply p uuid5 s inp ≡ ok r
      → r.interval ≡ some i
      → Closes s inp.presence_transition.event_time r.state.current_state i
  unfolding apply
  apply-Closes s inp {r} {i} h g =
      order-Closes s inp (position_of p uuid5 inp) s.watermark {r = r} {i = i}
        (>>=-eq-ok (validate p uuid5 s inp) _ h).2 g
