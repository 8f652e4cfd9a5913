-- ===== src/LiveSession.antt =====
-- The lifecycle of a live video session: the machine of
-- backend/app/domain/video/live_session_state_machine.py and the service of
-- backend/app/application/services/live_session.py over the rows of the sessions and the log of
-- their transitions. A text that is no operation is `other_operation`, a stored status that is no
-- status of a live session is `none`; the readings of the clock are arguments.
pub mod Lifecycle
pub mod Audit
use hotelops_ai.Prelude.{
  ℕ, ◌==◌, ◌≡◌, Bool, true, false, not, ◌&&◌, ◌||◌, Option, none, some, List, [], ◌∷◌, ◌++◌, String,
  Name, ◌is◌, is_some, contains, if◌then◌else◌, Result, ok, err, ◌>>=◌, ◌>>◌, ensure, reject, arith,
}

pub data LiveVideoSessionStatus : Type 0 where
  connecting active degraded reconnecting stopped failed : LiveVideoSessionStatus

pub data Operation : Type 0 where
  connected connection_failed stale_detected reconnecting reconnected reconnect_failed fatal_error
        stop_requested other_operation :
      Operation

abbrev status_code : LiveVideoSessionStatus → ℕ
status_code LiveVideoSessionStatus.connecting = 0
status_code LiveVideoSessionStatus.active = 1
status_code LiveVideoSessionStatus.degraded = 2
status_code LiveVideoSessionStatus.reconnecting = 3
status_code LiveVideoSessionStatus.stopped = 4
status_code LiveVideoSessionStatus.failed = 5

abbrev operation_code : Operation → ℕ
operation_code Operation.connected = 0
operation_code Operation.connection_failed = 1
operation_code Operation.stale_detected = 2
operation_code Operation.reconnecting = 3
operation_code Operation.reconnected = 4
operation_code Operation.reconnect_failed = 5
operation_code Operation.fatal_error = 6
operation_code Operation.stop_requested = 7
operation_code Operation.other_operation = 8

pub status_code_injective : (a b : LiveVideoSessionStatus) → status_code a ≡ status_code b → a ≡ b
status_code_injective a b h = ground arith

pub operation_code_injective : (a b : Operation) → operation_code a ≡ operation_code b → a ≡ b
operation_code_injective a b h = ground arith

instance abbrev pub status_name : Name LiveVideoSessionStatus
status_name = record { code = status_code; code_injective = status_code_injective }

instance abbrev pub operation_name : Name Operation
operation_name = record { code = operation_code; code_injective = operation_code_injective }

-- `_LEGAL_TRANSITIONS`
unfoldable pub legal_transitions :
    LiveVideoSessionStatus → List (Operation × LiveVideoSessionStatus)
legal_transitions LiveVideoSessionStatus.connecting =
    (Operation.connected, LiveVideoSessionStatus.active)
    ∷ (Operation.connection_failed, LiveVideoSessionStatus.failed)
    ∷ (Operation.stop_requested, LiveVideoSessionStatus.stopped)
    ∷ []
legal_transitions LiveVideoSessionStatus.active =
    (Operation.stale_detected, LiveVideoSessionStatus.degraded)
    ∷ (Operation.stop_requested, LiveVideoSessionStatus.stopped)
    ∷ (Operation.fatal_error, LiveVideoSessionStatus.failed)
    ∷ []
legal_transitions LiveVideoSessionStatus.degraded =
    (Operation.reconnecting, LiveVideoSessionStatus.reconnecting)
    ∷ (Operation.stop_requested, LiveVideoSessionStatus.stopped)
    ∷ (Operation.fatal_error, LiveVideoSessionStatus.failed)
    ∷ []
legal_transitions LiveVideoSessionStatus.reconnecting =
    (Operation.reconnected, LiveVideoSessionStatus.active)
    ∷ (Operation.reconnect_failed, LiveVideoSessionStatus.degraded)
    ∷ (Operation.fatal_error, LiveVideoSessionStatus.failed)
    ∷ (Operation.stop_requested, LiveVideoSessionStatus.stopped)
    ∷ []
legal_transitions LiveVideoSessionStatus.stopped = []
legal_transitions LiveVideoSessionStatus.failed = []

unfoldable pub is_terminal : LiveVideoSessionStatus → Bool
is_terminal s = contains (LiveVideoSessionStatus.stopped ∷ LiveVideoSessionStatus.failed ∷ []) s

abbrev idempotent_operations : List Operation
idempotent_operations = Operation.stop_requested ∷ []

abbrev pub look_up :
    List (Operation × LiveVideoSessionStatus) → Operation → Option LiveVideoSessionStatus
look_up [] op = none
look_up ((o, s) ∷ rest) op = if o is op then some s else look_up rest op

unfoldable pub get_next_state : LiveVideoSessionStatus → Operation → Option LiveVideoSessionStatus
get_next_state s op = look_up (legal_transitions s) op

unfoldable pub can_transition : LiveVideoSessionStatus → Operation → Bool
can_transition s op =
    is_some (look_up (legal_transitions s) op)
    || (is_terminal s && contains idempotent_operations op)

abbrev names_of : List (Operation × LiveVideoSessionStatus) → List Operation
names_of [] = []
names_of ((o, s) ∷ rest) = o ∷ names_of rest

unfoldable pub get_allowed_operations : LiveVideoSessionStatus → List Operation
get_allowed_operations s =
    if is_terminal s
    then names_of (legal_transitions s) ++ idempotent_operations
    else names_of (legal_transitions s)

pub data LiveError : Type 0 where
  transition_error terminal_error value_error : LiveError

-- What a caller says of a transition.
pub record Cause : Type 0 where
  pub reason : String
  pub source : String
  pub correlation_id : Option String
  pub actor_id : Option ℕ

pub record LiveSessionTransitionRecord : Type 0 where
  pub session_id : ℕ
  pub previous_state : LiveVideoSessionStatus
  pub new_state : LiveVideoSessionStatus
  pub transition_time : ℕ
  pub cause : Cause

abbrev pub record_of :
    ℕ → ℕ → Cause → LiveVideoSessionStatus → LiveVideoSessionStatus → LiveSessionTransitionRecord
record_of session_id now cause from to = record {
  session_id = session_id;
  previous_state = from;
  new_state = to;
  transition_time = now;
  cause = cause;
}

abbrev next_or_error :
    Option LiveVideoSessionStatus
    → ℕ
    → ℕ
    → Cause
    → LiveVideoSessionStatus
    → Result LiveError LiveSessionTransitionRecord
next_or_error none session_id now cause current = err transition_error
next_or_error (some next) session_id now cause current =
    ok (record_of session_id now cause current next)

-- `transition`; a success is the record, whose `new_state` is that of the result.
unfoldable pub transition :
    LiveVideoSessionStatus
    → Operation
    → ℕ
    → Cause
    → Bool
    → ℕ
    → Result LiveError LiveSessionTransitionRecord
transition current op session_id cause allow_idempotent now =
    if allow_idempotent
      && contains idempotent_operations op
      && is_terminal current
      && (op is Operation.stop_requested)
    then ok (record_of session_id now cause current current)
    else if is_terminal current
    then err terminal_error
    else next_or_error (get_next_state current op) session_id now cause current

unfoldable pub assert_can_transition :
    LiveVideoSessionStatus → Operation → Result LiveError (Unit {0})
assert_can_transition current op =
    reject
      (is_terminal current
        && not (contains idempotent_operations op && (op is Operation.stop_requested)))
      terminal_error
    >> ensure (can_transition current op) transition_error

-- A row of the sessions.
pub record VideoSession : Type 0 where
  pub session_id : ℕ
  pub tenant_id : ℕ
  pub venue_id : ℕ
  pub is_live : Bool
  pub status : Option LiveVideoSessionStatus
  pub started_at : ℕ
  pub ended_at : Option ℕ

-- A row of the transition log; `none` stands for the text "none" of a new session.
pub record TransitionLog : Type 0 where
  pub log_session_id : ℕ
  pub log_venue_id : ℕ
  pub log_tenant_id : ℕ
  pub previous_state : Option LiveVideoSessionStatus
  pub new_state : LiveVideoSessionStatus
  pub transition_time : ℕ
  pub log_cause : Cause

pub record Database : Type 0 where
  pub sessions : List VideoSession
  pub log : List TransitionLog

-- The test of `get_for_actor`'s query.
abbrev pub is_of : ℕ → ℕ → VideoSession → Bool
is_of tenant_id session_id row = row.session_id == session_id && row.tenant_id == tenant_id

unfoldable pub get_for_actor : ℕ → ℕ → List VideoSession → Option VideoSession
get_for_actor tenant_id session_id [] = none
get_for_actor tenant_id session_id (row ∷ rows) =
    if is_of tenant_id session_id row then some row else get_for_actor tenant_id session_id rows

-- The flush of the one row that was loaded.
unfoldable pub flush : ℕ → ℕ → VideoSession → List VideoSession → List VideoSession
flush tenant_id session_id new [] = []
flush tenant_id session_id new (row ∷ rows) =
    let rest = flush tenant_id session_id new rows in
    if is_of tenant_id session_id row then new ∷ rows else row ∷ rest

-- What `transition_state` returns: the record of a success, or the error of a failure.
pub data TransitionResult : Type 0 where
  success : LiveSessionTransitionRecord → TransitionResult
  failure : LiveError → TransitionResult

-- `create_session`; the repository gives the row its id.
unfoldable pub create_session : ℕ → ℕ → ℕ → ℕ → Option String → ℕ → ℕ → Database → Database
create_session session_id tenant_id actor_id venue_id correlation_id now later db = record {
  sessions =
      db.sessions
      ++ record {
        session_id = session_id;
        tenant_id = tenant_id;
        venue_id = venue_id;
        is_live = true;
        status = some LiveVideoSessionStatus.connecting;
        started_at = now;
        ended_at = none;
      }
        ∷ [];
  log =
      db.log
      ++ record {
        log_session_id = session_id;
        log_venue_id = venue_id;
        log_tenant_id = tenant_id;
        previous_state = none;
        new_state = LiveVideoSessionStatus.connecting;
        transition_time = later;
        log_cause = record {
          reason = "Session created, awaiting RTSP connection";
          source = "system";
          correlation_id = correlation_id;
          actor_id = some actor_id;
        };
      }
        ∷ [];
}

abbrev found : {A : Type 0} → Option A → Result LiveError A
found none = err value_error
found (some a) = ok a

-- The row and the log after a success.
abbrev pub updated : VideoSession → LiveSessionTransitionRecord → ℕ → VideoSession
updated row r now = record row {
  status = some r.new_state;
  ended_at = if is_terminal r.new_state then some now else row.ended_at;
}

abbrev pub log_entry : ℕ → VideoSession → LiveSessionTransitionRecord → TransitionLog
log_entry tenant_id row r = record {
  log_session_id = row.session_id;
  log_venue_id = row.venue_id;
  log_tenant_id = tenant_id;
  previous_state = some r.previous_state;
  new_state = r.new_state;
  transition_time = r.transition_time;
  log_cause = r.cause;
}

abbrev pub settle :
    ℕ
    → ℕ
    → Database
    → VideoSession
    → ℕ
    → Result LiveError LiveSessionTransitionRecord
    → Database × TransitionResult
settle tenant_id session_id db row now (err e) = (db, failure e)
settle tenant_id session_id db row now (ok r) = (
  record {
    sessions = flush tenant_id session_id (updated row r now) db.sessions;
    log = db.log ++ log_entry tenant_id row r ∷ [];
  },
  success r,
)

-- `transition_state`, at the clock's reading `now` for the record and `later` for the row.
unfoldable pub transition_state :
    ℕ → ℕ → Operation → Cause → ℕ → ℕ → Database → Result LiveError (Database × TransitionResult)
transition_state session_id tenant_id op cause now later db = do
  row ← found (get_for_actor tenant_id session_id db.sessions)
  checked ← ensure row.is_live value_error
  current ← found row.status
  ok (settle tenant_id session_id db row later (transition current op session_id cause true now))
