-- ===== src/Reliability/Inbox.antt =====
-- The deduplicated inbox: `receive` of backend/app/infrastructure/database/repositories/inbox.py,
-- and the worker of backend/app/workers/inbox_consumer.py. What the effect handler does is a
-- parameter, one `Turn` for each row. The committed effects are the list of the identifiers of the
-- rows whose handler's writes are committed: a transaction commits the effect and the mark
-- together, or neither.
pub mod Effects
use hotelops_ai.Prelude.{
  ℕ, ◌+◌, ◌≡◌, Bool, true, false, ◌&&◌, ◌||◌, Option, none, some, List, [], ◌∷◌, ◌++◌, leb, ◌==◌,
  or_else, if◌then◌else◌, Result, ok, err, ◌>>=◌,
}
use hotelops_ai.Prelude.Int.{ℤ}
use hotelops_ai.Reliability.Backoff.{BackoffError, compute_backoff_delay}
use hotelops_ai.Reliability.Leases.{
  Row, Status, claim_next, mark_done, mark_failed, mark_dead_letter, truncate_error,
}
use hotelops_ai.Reliability.Outbox.{Settings, inserted}

-- What a row carries; `others` are the tenant, the venue and the payload.
pub record Message : Type 0 where
  pub source : ℕ
  pub source_message_id : ℕ
  pub event_type : Option ℕ
  pub others : ℕ

-- How the effect handler ends.
pub data Effect : Type 0 where
  succeeds : Effect
  non_retryable : List ℕ → Effect
  retryable : List ℕ → Effect

pub record Turn : Type 0 where
  pub effect : Effect
  pub now : ℕ
  pub factor : ℕ → ℕ

abbrev pub same_key : Message → Message → Bool
same_key m n = m.source == n.source && m.source_message_id == n.source_message_id

abbrev pub has_message : Message → List (Row Message) → Bool
has_message m [] = false
has_message m (r ∷ rows) = same_key r.content m || has_message m rows

-- `receive`: the table after it, and the row that it returns.
unfoldable pub receive :
    ℕ → ℕ → Message → List (Row Message) → List (Row Message) × Option (Row Message)
receive new_id now m rows =
    let row = inserted new_id now none m in
    if has_message m rows then (rows, none) else (rows ++ (row ∷ []), some row)

-- The table, the committed effects and the number of rows processed.
pub record Progress : Type 0 where
  pub table : List (Row Message)
  pub effects : List ℕ
  pub processed : ℕ

abbrev pub bury : ℕ → Row Message → List ℕ → Progress → Progress
bury worker row error p = record p {
  table = (mark_dead_letter row.row_id worker (truncate_error error) p.table).0;
}

abbrev pub retry_delay : Settings → Turn → Row Message → Result BackoffError ℕ
retry_delay settings turn row =
    compute_backoff_delay row.attempts settings.backoff_base settings.backoff_max
      settings.backoff_jitter turn.factor

abbrev pub postpone : ℕ → Turn → Row Message → List ℕ → Progress → ℕ → Progress
postpone worker turn row error p delay = record p {
  table = (mark_failed row.row_id worker (truncate_error error) (turn.now + delay) p.table).0;
}

-- The branch of `_process_row_with_span` for an error that may pass.
unfoldable pub reschedule :
    Settings → ℕ → Turn → Row Message → List ℕ → Progress → Result BackoffError Progress
reschedule settings worker turn row error p =
    if leb settings.max_attempts row.attempts
    then ok (bury worker row error p)
    else retry_delay settings turn row >>= λ delay. ok (postpone worker turn row error p delay)

-- `_process_row_with_span`: one transaction. Where the mark finds the claim lost, the savepoint
-- takes back what the handler wrote.
unfoldable pub transact :
    Settings → ℕ → Turn → Row Message → Effect → Progress → Result BackoffError Progress
transact settings worker turn row succeeds p =
    let marked = mark_done row.row_id worker p.table in
    ok (
      if marked.1
      then record {
        table = marked.0;
        effects = p.effects ++ (row.row_id ∷ []);
        processed = p.processed + 1;
      }
      else p)
transact settings worker turn row (non_retryable error) p = ok (bury worker row error p)
transact settings worker turn row (retryable error) p = reschedule settings worker turn row error p

-- `_process_row`, with the error text of a missing handler as an argument; the name of a row
-- without an event type is the empty one, with the code 0.
unfoldable pub process_row :
    Settings
    → (ℕ → Bool)
    → List ℕ
    → ℕ
    → Turn
    → Row Message
    → Progress
    → Result BackoffError Progress
process_row settings handles no_handler worker turn row p =
    if handles (or_else row.content.event_type 0)
    then transact settings worker turn row turn.effect p
    else ok (bury worker row no_handler p)

-- `except Exception` of `run_once`: the transaction that raised has changed nothing.
abbrev pub or_unchanged : Result BackoffError Progress → Progress → Progress
or_unchanged (ok after) p = after
or_unchanged (err e) p = p

unfoldable pub process_rows :
    Settings → (ℕ → Bool) → List ℕ → ℕ → List (Row Message) → List Turn → Progress → Progress
process_rows settings handles no_handler worker [] turns p = p
process_rows settings handles no_handler worker (row ∷ rows) [] p = p
process_rows settings handles no_handler worker (row ∷ rows) (turn ∷ turns) p =
    process_rows settings handles no_handler worker rows turns
      (or_unchanged (process_row settings handles no_handler worker turn row p) p)

unfoldable pub run_once :
    Settings
    → (ℕ → Bool)
    → List ℕ
    → ℕ
    → (ℕ → Bool)
    → ℕ
    → List Turn
    → List (Row Message)
    → List ℕ
    → Progress
run_once settings handles no_handler worker locked now turns rows effects =
    let claimed = claim_next locked worker settings.batch_size settings.lease now rows in
    process_rows settings handles no_handler worker claimed.1 turns
      (record { table = claimed.0; effects = effects; processed = 0 })
