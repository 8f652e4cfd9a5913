-- ===== src/Tests/LiveSession.antt =====
-- Tests of the live sessions: one that is connecting, and one that was stopped.
use hotelops_ai.Prelude.{◌≡◌, refl, true, none, some, [], ◌∷◌, ◌++◌, ok, arith}
use hotelops_ai.LiveSession.{
  LiveVideoSessionStatus, Operation, LiveSessionTransitionRecord, Cause, VideoSession, Database,
  success, status_name, operation_name, record_of, log_entry, is_terminal, get_next_state,
  legal_transitions, transition, get_for_actor, flush, transition_state, create_session,
}
use hotelops_ai.LiveSession.Audit.{IsAudited, transition_state-IsAudited}

abbrev cause : Cause
cause = record { reason = "test"; source = "system"; correlation_id = none; actor_id = none }

abbrev connects : LiveSessionTransitionRecord
connects = record_of 1 50 cause LiveVideoSessionStatus.connecting LiveVideoSessionStatus.active

connected-transition :
    transition LiveVideoSessionStatus.connecting Operation.connected 1 cause true 50 ≡ ok connects
unfolding transition get_next_state legal_transitions is_terminal
connected-transition = refl

abbrev no_rows : Database
no_rows = record { sessions = []; log = [] }

abbrev created : Database
created = create_session 1 2 3 4 none 40 41 no_rows

created-IsAudited : IsAudited created
unfolding create_session get_for_actor
created-IsAudited = record { audited = λ t i. ground arith }

-- The row of the new session, and the rows after it is connected.
abbrev created_row : VideoSession
created_row = record {
  session_id = 1;
  tenant_id = 2;
  venue_id = 4;
  is_live = true;
  status = some LiveVideoSessionStatus.connecting;
  started_at = 40;
  ended_at = none;
}

abbrev connected_db : Database
connected_db = record {
  sessions = record created_row { status = some LiveVideoSessionStatus.active } ∷ [];
  log = created.log ++ log_entry 2 created_row connects ∷ [];
}

connected-accepted :
    transition_state 1 2 Operation.connected cause 50 51 created
    ≡ ok (connected_db, success connects)
unfolding transition_state create_session get_for_actor flush transition get_next_state
    legal_transitions is_terminal
connected-accepted = refl

transition_state-IsAudited_example : IsAudited connected_db
transition_state-IsAudited_example =
    transition_state-IsAudited 1 2 Operation.connected cause 50 51 created connected-accepted
      created-IsAudited

abbrev stopped_row : VideoSession
stopped_row = record {
  session_id = 1;
  tenant_id = 2;
  venue_id = 4;
  is_live = true;
  status = some LiveVideoSessionStatus.stopped;
  started_at = 40;
  ended_at = some 60;
}

abbrev stopped_db : Database
stopped_db = record { sessions = stopped_row ∷ []; log = [] }

stopped_found : get_for_actor 2 1 stopped_db.sessions ≡ some stopped_row
unfolding get_for_actor
stopped_found = refl

stopped_terminal : is_terminal LiveVideoSessionStatus.stopped ≡ true
unfolding is_terminal
stopped_terminal = refl
