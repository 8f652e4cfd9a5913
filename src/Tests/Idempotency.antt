-- ===== src/Tests/Idempotency.antt =====
-- Tests of idempotent requests: one request takes over a claim that was left in progress, the next
-- with its key is answered from its record.
use mathlib.Core.List.{Memᴰ}
use hotelops_ai.Prelude.{
  ℕ, ◌≡◌, ◌⊎◌, refl, Bool, true, false, Option, none, some, [], ◌∷◌, ok, sym, ap, ◌∙◌, arith,
}
use hotelops_ai.Reliability.Keys.{key_matches, validate_idempotency_key}
use hotelops_ai.Reliability.Idempotency.{
  Claim, Request, Status, in_progress, completed, answered, again, scope_of, take_turn, complete,
  reclaim, execute, turns,
}
use hotelops_ai.Reliability.Idempotency.Table.{get-scope}
use hotelops_ai.Reliability.Idempotency.Interleaving.{
  Answer, System, Reach, Step, IsOpen, start, later, reads_claim, acts_after, count_fresh,
}
use hotelops_ai.Reliability.Idempotency.Holding.{is_leased, clock}
use hotelops_ai.Reliability.Idempotency.Replay.{execute-runs_once, execute-same_answer}

abbrev request : Request
request = record {
  actor = record { actor_id = 1; tenant_id = 2; venue_scope = [] };
  operation = 3;
  key = 97 ∷ [];
  hash = 11;
  venue = none;
  token = 21;
  lease = 30;
  deadline = 105;
}

abbrev claim_in : Status → Option ℕ → Option ℕ → Option ℕ → Claim
claim_in status by until result = record {
  claim_id = 7;
  scope = scope_of request;
  venue = none;
  actor = 1;
  request_hash = 11;
  status = status;
  claimed_by = by;
  claimed_until = until;
  result = result;
}

abbrev answer : Bool → Answer
answer replayed = record {
  scope = scope_of request;
  hash = 11;
  venue = none;
  result = some 42;
  replayed = replayed;
}

-- A claim that an earlier request left in progress, until 30.
abbrev left : Claim
left = claim_in in_progress (some 5) (some 30) none

left-IsOpen : IsOpen (left ∷ [])
left-IsOpen = record {
  units = (refl, tt);
  one_id = λ u v {k} {l} at at' same.
      let is_left : k ≡ l = ground arith in
      sym (get-scope u (left ∷ []) at)
      ∙ ap (λ (c : Claim). c.scope) is_left
      ∙ get-scope v (left ∷ []) at';
  unfinished = λ u. ground arith;
}

abbrev left_over : System
left_over = record { table = left ∷ []; reads = []; answers = [] }

abbrev seen : System
seen = record left_over { reads = left ∷ [] }

abbrev done : Claim
done = claim_in completed none none (some 42)

-- One request takes the claim over, another has read it before, and a third is answered.
abbrev ran : System
ran = record { table = done ∷ []; reads = left ∷ []; answers = answer false ∷ [] }

abbrev read_back : System
read_back = record ran { reads = done ∷ left ∷ [] }

abbrev replayed : System
replayed = record read_back { answers = answer true ∷ answer false ∷ [] }

seen-Reach : Reach seen
seen-Reach =
    later (start (left ∷ []) left-IsOpen) (reads_claim (scope_of request) left left_over refl)

ran-Reach : Reach ran
unfolding take_turn reclaim complete
ran-Reach = later seen-Reach (acts_after request 8 100 (some 42) left seen (Memᴰ.head refl) refl)

read_back-Reach : Reach read_back
read_back-Reach = later ran-Reach (reads_claim (scope_of request) done ran refl)

late-Reach : Reach read_back
unfolding take_turn reclaim complete
late-Reach =
    later read_back-Reach
      (acts_after request 8 100 (some 44) left read_back (Memᴰ.tail (Memᴰ.head refl)) refl)

replayed-Reach : Reach replayed
unfolding take_turn
replayed-Reach =
    later late-Reach (acts_after request 8 101 (some 43) done read_back (Memᴰ.head refl) refl)

-- The claim is taken over at 100, after the end of its lease.
taking_over : Step seen ran
unfolding take_turn reclaim complete
taking_over = acts_after request 8 100 (some 42) left seen (Memᴰ.head refl) refl

execute-runs_once_example :
    (count_fresh (scope_of request) (answer false ∷ []) ≡ 1)
    × ((is_leased (clock taking_over) (some left) ≡ false) ⊎ (some done ≡ some left))
execute-runs_once_example = execute-runs_once (scope_of request) taking_over seen-Reach

execute-same_answer_example :
    ((answer true).result ≡ (answer false).result)
    × ((answer true).hash ≡ (answer false).hash)
    × ((answer true).venue ≡ (answer false).venue)
execute-same_answer_example =
    execute-same_answer (answer true) (answer false) replayed-Reach (Memᴰ.head refl)
      (Memᴰ.tail (Memᴰ.head refl)) refl

-- At the very end of the lease the service tries to take the claim over, and the repository
-- refuses: the loop goes on at once.
boundary :
    take_turn request 8 130
      (some 43)
      (some (claim_in in_progress (some 21) (some 130) none))
      (claim_in in_progress (some 21) (some 130) none ∷ [])
    ≡ (claim_in in_progress (some 21) (some 130) none ∷ [], again)
unfolding take_turn reclaim
boundary = refl

-- A request with another payload takes the claim over, too.
taken_over :
    execute
      (record request { hash = 12; token = 22 })
      (record { new_id = 8; now = 131; handled = some 43 } ∷ [])
      (claim_in in_progress (some 21) (some 130) none ∷ [])
    ≡ ok (
      record (claim_in completed none none (some 43)) { request_hash = 12 } ∷ [],
      answered 7 (some 43) false,
    )
unfolding execute validate_idempotency_key key_matches turns take_turn reclaim complete
taken_over = refl
