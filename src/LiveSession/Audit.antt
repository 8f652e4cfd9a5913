-- ===== src/LiveSession/Audit.antt =====
-- The rows of the sessions and the log of their transitions stay in step.
use hotelops_ai.Prelude.{
  ℕ, ◌==◌, ◌≡◌, refl, ap, sym, ◌∙◌, inl, inr, true, ◌&&◌, Option, none, some, List, [], ◌∷◌, ◌++◌,
  if◌then◌else◌, Result, ok, err, ==_self, Bool-cases, Option-cases, arith,
}
use mathlib.Core.Path.{subst}
use hotelops_ai.LiveSession.Lifecycle.{transition-leads}
use hotelops_ai.LiveSession.{
  LiveVideoSessionStatus, Operation, LiveSessionTransitionRecord, LiveError, Cause, VideoSession,
  TransitionLog, Database, TransitionResult, success, failure, get_for_actor, flush, updated,
  record_of, log_entry, settle, transition, transition_state, is_terminal,
}

-- The state that the newest entry of a session's log leads to.
abbrev pub logged_state :
    ℕ → ℕ → Option LiveVideoSessionStatus → List TransitionLog → Option LiveVideoSessionStatus
logged_state t i last [] = last
logged_state t i last (e ∷ log) =
    logged_state t i
      (if e.log_session_id == i && e.log_tenant_id == t then some e.new_state else last) log

-- A session that is there has the status.
abbrev pub Agrees : Option VideoSession → Option LiveVideoSessionStatus → Type 0
Agrees none status = Unit
Agrees (some row) status = row.status ≡ status

-- Every session has the status that its newest log entry leads to.
pub record IsAudited (db : Database) : Type 0 where
  pub audited : (t i : ℕ) → Agrees (get_for_actor t i db.sessions) (logged_state t i none db.log)

logged_state-append :
    (t i : ℕ) (last : Option LiveVideoSessionStatus) (log : List TransitionLog) (e : TransitionLog)
    → logged_state t i last (log ++ e ∷ []) ≡ (
        if e.log_session_id == i && e.log_tenant_id == t
        then some e.new_state
        else logged_state t i last log)
logged_state-append t i last [] e = refl
logged_state-append t i last (x ∷ log) e =
    logged_state-append t i
      (if x.log_session_id == i && x.log_tenant_id == t then some x.new_state else last) log e

get_for_actor-is_of :
    (t i : ℕ) (rows : List VideoSession) {row : VideoSession}
    → get_for_actor t i rows ≡ some row
    → (row.session_id ≡ i) × (row.tenant_id ≡ t)
unfolding get_for_actor
get_for_actor-is_of t i [] h = cc
get_for_actor-is_of t i (x ∷ rows) {row} h =
    ground (arith, get_for_actor-is_of t i rows {row = row})

-- The row that a flush writes is the one that is read, and the other rows are left alone.
get_for_actor-flush :
    (t i u j : ℕ) (new : VideoSession) (rows : List VideoSession) {row : VideoSession}
    → get_for_actor t i rows ≡ some row
    → new.session_id ≡ i
    → new.tenant_id ≡ t
    → get_for_actor u j (flush t i new rows)
      ≡ (if i == j && t == u then some new else get_for_actor u j rows)
unfolding get_for_actor flush
get_for_actor-flush t i u j new [] h same_id same_tenant = cc
get_for_actor-flush t i u j new (x ∷ rows) {row} h same_id same_tenant =
    ground (arith, get_for_actor-flush t i u j new rows {row = row})

module _ (i t : ℕ) (op : Operation) (cause : Cause) (now later : ℕ) (db : Database)
    {after : Database} {result : TransitionResult} where
  transition_state-settles :
      transition_state i t op cause now later db ≡ ok (after, result)
      → (row : VideoSession) × (s : LiveVideoSessionStatus) × (get_for_actor t i db.sessions
          ≡ some row)
        × (row.status ≡ some s)
        × ((after, result) ≡ settle t i db row later (transition s op i cause true now))
  unfolding transition_state
  transition_state-settles h = elim (Option-cases (get_for_actor t i db.sessions)) [
    | inl missing ↦ ground arith
    | inr (row, found_row) ↦ elim (Option-cases row.status) [
      | inl unknown ↦ ground arith
      | inr (s, at) ↦ (row, s, found_row, at, ground arith)
    ]
  ]

settle-IsAudited :
    (t i : ℕ) (db : Database) (row : VideoSession) (now : ℕ)
    (o : Result LiveError LiveSessionTransitionRecord)
    → get_for_actor t i db.sessions ≡ some row
    → IsAudited db
    → IsAudited (settle t i db row now o).0
settle-IsAudited t i db row now (err e) found_row w = w
settle-IsAudited t i db row now (ok r) found_row w = record {
  audited = λ u j.
      let (same_id, same_tenant) = get_for_actor-is_of t i db.sessions found_row in
      let read =
        get_for_actor-flush t i u j (updated row r now) db.sessions found_row same_id same_tenant in
      let logged = logged_state-append u j none db.log (log_entry t row r) in
      elim (Bool-cases (i == j && t == u)) [
        | inl own ↦ rw (logged, read) (ground arith)
        | inr other ↦ rw (logged, read) (ground (arith, w.audited u j))
      ];
}

-- What a call leaves behind.
abbrev pub Records : ℕ → ℕ → ℕ → Database → Database → TransitionResult → Type 0
Records t i later db after (failure e) = after ≡ db
Records t i later db after (success r) =
    (row : VideoSession) × (get_for_actor t i db.sessions ≡ some row)
    × (row.status ≡ some r.previous_state)
    × (get_for_actor t i after.sessions ≡ some (updated row r later))
    × (after.log ≡ db.log ++ log_entry t row r ∷ [])

settle-Records :
    (t i : ℕ) (db : Database) (row : VideoSession) (s : LiveVideoSessionStatus) (now : ℕ)
    (o : Result LiveError LiveSessionTransitionRecord)
    → get_for_actor t i db.sessions ≡ some row
    → row.status ≡ some s
    → ((r : LiveSessionTransitionRecord) → o ≡ ok r → r.previous_state ≡ s)
    → Records t i now db (settle t i db row now o).0 (settle t i db row now o).1
settle-Records t i db row s now (err e) found_row at from = refl
settle-Records t i db row s now (ok r) found_row at from =
    let (same_id, same_tenant) = get_for_actor-is_of t i db.sessions found_row in
    (
      row,
      found_row,
      at ∙ ap some (sym (from r refl)),
      get_for_actor-flush t i t i (updated row r now) db.sessions found_row same_id same_tenant
          ∙ rw (==_self i, ==_self t) refl,
      refl,
    )

module _ (i t : ℕ) (op : Operation) (cause : Cause) (now later : ℕ) (db : Database)
    {after : Database} {result : TransitionResult} where
  -- A call keeps every session's status in step with the log, whether it succeeds or fails.
  pub transition_state-IsAudited :
      transition_state i t op cause now later db ≡ ok (after, result)
      → IsAudited db
      → IsAudited after
  transition_state-IsAudited h w =
      let (row, s, found_row, at, settled) = transition_state-settles i t op cause now later db h in
      subst (λ (x : Database × TransitionResult). IsAudited x.0) (sym settled)
        (settle-IsAudited t i db row later (transition s op i cause true now) found_row w)

  -- A call that fails changes nothing; one that succeeds writes the session's row with the new
  -- status and adds one entry to the log, from the old status to the new one.
  pub transition_state-Records :
      transition_state i t op cause now later db ≡ ok (after, result)
      → Records t i later db after result
  transition_state-Records h =
      let (row, s, found_row, at, settled) = transition_state-settles i t op cause now later db h in
      subst (λ (x : Database × TransitionResult). Records t i later db x.0 x.1) (sym settled)
        (settle-Records t i db row s later (transition s op i cause true now) found_row at
          (λ r ran. (transition-leads i cause now s op ran).0))

module _ (i t : ℕ) (cause : Cause) (now later : ℕ) (db : Database) where
  -- A stop of a session that has ended succeeds, keeps the status, and moves the session's end to
  -- the time of this call.
  pub stop_again-restamps :
      (row : VideoSession) (s : LiveVideoSessionStatus)
      → get_for_actor t i db.sessions ≡ some row
      → row.is_live ≡ true
      → row.status ≡ some s
      → is_terminal s ≡ true
      → (after : Database) × (r : LiveSessionTransitionRecord) × (transition_state i t
            Operation.stop_requested cause now later db
          ≡ ok (after, success r))
        × (get_for_actor t i after.sessions ≡ some (record row { ended_at = some later }))
  unfolding transition_state transition
  stop_again-restamps row s found_row live at end =
      let r = record_of i now cause s s in
      let (same_id, same_tenant) = get_for_actor-is_of t i db.sessions found_row in
      let read =
        get_for_actor-flush t i t i (updated row r later) db.sessions found_row same_id
          same_tenant in
      (
        (settle t i db row later (ok r)).0,
        r,
        ground arith,
        read
            ∙ rw (==_self i, ==_self t)
                (rw end (
                  ap
                    (λ (x : Option LiveVideoSessionStatus).
                      some (record row { status = x; ended_at = some later }))
                    (sym at))),
      )
