-- ===== src/Reliability/Idempotency.antt =====
-- Idempotent requests: `IdempotencyService.execute` of backend/app/application/services/
-- idempotency.py over the repository of backend/app/infrastructure/database/repositories/
-- idempotency.py. A table is the list of its records. The hash of the request, the handler's
-- result and the clock are parameters. One turn of the loop is one function: its read, which other
-- transactions may have overtaken, is an argument, and its writes are one transaction.
pub mod Table
pub mod Interleaving
pub mod Uniqueness
pub mod Completion
pub mod Holding
pub mod Replay
use hotelops_ai.Prelude.{
  ℕ, ◌+◌, ◌≡◌, Bool, true, false, not, ◌&&◌, ◌||◌, Option, none, some, List, [], ◌∷◌, ◌++◌, ltb,
  leb, ◌==◌, if◌then◌else◌, Result, ok, err, ◌>>=◌, ◌>>◌, reject, ensure, length,
}
use hotelops_ai.Prelude.Sets.{member}
use hotelops_ai.Access.{Actor, require_venue_access}
use hotelops_ai.Reliability.Keys.{validate_idempotency_key}

pub data ServiceError : Type 0 where
  bad_key no_venue_access conflict in_progress_error handler_failed : ServiceError

-- What a request is idempotent by.
pub record Scope : Type 0 where
  pub tenant_id : ℕ
  pub operation : ℕ
  pub key : List ℕ

pub data Status : Type 0 where
  in_progress completed : Status

-- A row of `idempotency_records`.
pub record Claim : Type 0 where
  pub claim_id : ℕ
  pub scope : Scope
  pub venue : Option ℕ
  pub actor : ℕ
  pub request_hash : ℕ
  pub status : Status
  pub claimed_by : Option ℕ
  pub claimed_until : Option ℕ
  pub result : Option ℕ

-- The arguments of `execute`, with the token and the deadline that it draws.
pub record Request : Type 0 where
  pub actor : Actor
  pub operation : ℕ
  pub key : List ℕ
  pub hash : ℕ
  pub venue : Option ℕ
  pub token : ℕ
  pub lease : ℕ
  pub deadline : ℕ

abbrev pub is_completed : Status → Bool
is_completed in_progress = false
is_completed completed = true

abbrev pub same_text : List ℕ → List ℕ → Bool
same_text [] [] = true
same_text (c ∷ cs) (d ∷ ds) = c == d && same_text cs ds
same_text _ _ = false

abbrev pub same_scope : Scope → Scope → Bool
same_scope s t = s.tenant_id == t.tenant_id && (s.operation == t.operation && same_text s.key t.key)

abbrev pub same_option : Option ℕ → Option ℕ → Bool
same_option none none = true
same_option (some a) (some b) = a == b
same_option _ _ = false

abbrev pub scope_of : Request → Scope
scope_of q = record { tenant_id = q.actor.tenant_id; operation = q.operation; key = q.key }

-- `get`
abbrev pub get : Scope → List Claim → Option Claim
get s [] = none
get s (r ∷ table) = if same_scope r.scope s then some r else get s table

abbrev pub has_scope : Scope → List Claim → Bool
has_scope s [] = false
has_scope s (r ∷ table) = same_scope r.scope s || has_scope s table

abbrev pub new_claim : ℕ → ℕ → Request → Claim
new_claim new_id now q = record {
  claim_id = new_id;
  scope = scope_of q;
  venue = q.venue;
  actor = q.actor.actor_id;
  request_hash = q.hash;
  status = in_progress;
  claimed_by = some q.token;
  claimed_until = some (now + q.lease);
  result = none;
}

-- `create_claim`; the unique constraint on the scope decides.
unfoldable pub create_claim : ℕ → ℕ → Request → List Claim → List Claim × Option Claim
create_claim new_id now q table =
    if has_scope (scope_of q) table
    then (table, none)
    else (table ++ (new_claim new_id now q ∷ []), some (new_claim new_id now q))

abbrev pub update_where : (Claim → Bool) → (Claim → Claim) → List Claim → List Claim
update_where p f [] = []
update_where p f (r ∷ table) = (if p r then f r else r) ∷ update_where p f table

abbrev pub any : (Claim → Bool) → List Claim → Bool
any p [] = false
any p (r ∷ table) = p r || any p table

abbrev pub before : Option ℕ → ℕ → Bool
before none now = false
before (some t) now = ltb t now

abbrev pub is_stale : ℕ → ℕ → Claim → Bool
is_stale id now r = r.claim_id == id && (not (is_completed r.status) && before r.claimed_until now)

abbrev pub restamp : Request → ℕ → Claim → Claim
restamp q now r = record r {
  request_hash = q.hash;
  actor = q.actor.actor_id;
  venue = q.venue;
  claimed_by = some q.token;
  claimed_until = some (now + q.lease);
}

unfoldable pub reclaim : ℕ → Request → ℕ → List Claim → List Claim × Bool
reclaim id q now table =
    (update_where (is_stale id now) (restamp q now) table, any (is_stale id now) table)

abbrev holds : Option ℕ → ℕ → Bool
holds none token = false
holds (some t) token = t == token

abbrev pub is_claimed : ℕ → ℕ → Claim → Bool
is_claimed id token r =
    r.claim_id == id && (not (is_completed r.status) && holds r.claimed_by token)

abbrev pub with_result : ℕ → Claim → Claim
with_result value r = record r {
  status = completed;
  result = some value;
  claimed_by = none;
  claimed_until = none;
}

unfoldable pub complete : ℕ → ℕ → ℕ → List Claim → List Claim × Bool
complete id token value table =
    (update_where (is_claimed id token) (with_result value) table, any (is_claimed id token) table)

-- How a turn of the loop ends: `IdempotencyResult`, an exception, `continue`, or a sleep.
pub data Reply : Type 0 where
  answered : (claim_id : ℕ) (result : Option ℕ) (replayed : Bool) → Reply
  refused : ServiceError → Reply
  again wait : Reply

-- The handler, then `complete`. Where the handler raises, the caller's transaction takes the claim
-- back: the table is the original one.
abbrev pub run_handler : Option ℕ → ℕ → ℕ → List Claim → List Claim → List Claim × Reply
run_handler none id token original claimed = (original, refused handler_failed)
run_handler (some value) id token original claimed =
    ((complete id token value claimed).0, answered id (some value) false)

abbrev pub lease_ended : Option ℕ → ℕ → Bool
lease_ended none now = false
lease_ended (some t) now = leb t now

-- A record that is completed is replayed, for the same payload.
abbrev pub replay : Request → Claim → List Claim → List Claim × Reply
replay q r table =
    if not (r.request_hash == q.hash)
    then (table, refused conflict)
    else (table, answered r.claim_id r.result true)

-- A claim whose lease has ended is taken over.
abbrev pub take_over : Request → ℕ → Option ℕ → Claim → List Claim → List Claim × Reply
take_over q now handled r table =
    if (reclaim r.claim_id q now table).1
    then run_handler handled r.claim_id q.token table (reclaim r.claim_id q now table).0
    else (table, again)

abbrev pub wait_for : Request → ℕ → List Claim → List Claim × Reply
wait_for q now table =
    if leb q.deadline now then (table, refused in_progress_error) else (table, wait)

-- One turn of the loop of `execute`: after the read, the reading of the clock and the outcome of
-- the handler.
unfoldable pub take_turn :
    Request → ℕ → ℕ → Option ℕ → Option Claim → List Claim → List Claim × Reply
take_turn q new_id now handled none table =
    if has_scope (scope_of q) table
    then (table, again)
    else run_handler handled new_id q.token table (create_claim new_id now q table).0
take_turn q new_id now handled (some r) table =
    if not (same_option r.venue q.venue)
    then (table, refused conflict)
    else if is_completed r.status
    then replay q r table
    else if lease_ended r.claimed_until now
    then take_over q now handled r table
    else wait_for q now table

-- One reading of the clock stands for those of a turn.
pub record Moment : Type 0 where
  pub new_id : ℕ
  pub now : ℕ
  pub handled : Option ℕ

-- The loop, where no other transaction comes between a read and the writes of the same turn; it is
-- cut off where the moments end.
unfoldable pub turns : Request → List Moment → List Claim → List Claim × Reply
turns q [] table = (table, wait)
turns q (m ∷ moments) table =
    let taken = take_turn q m.new_id m.now m.handled (get (scope_of q) table) table in
    proceed taken.1 taken.0 (turns q moments taken.0)
  where
    proceed : Reply → List Claim → List Claim × Reply → List Claim × Reply
    proceed again table later = later
    proceed wait table later = later
    proceed reply table later = (table, reply)

abbrev venue_access : Request → Option ℕ → Result ServiceError (Unit {0})
venue_access q none = ok tt
venue_access q (some v) = require_venue_access no_venue_access q.actor v

unfoldable pub execute :
    Request → List Moment → List Claim → Result ServiceError (List Claim × Reply)
execute q moments table =
    validate_idempotency_key bad_key q.key >> venue_access q q.venue >> ok (turns q moments table)
