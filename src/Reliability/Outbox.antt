-- ===== src/Reliability/Outbox.antt =====
-- The transactional outbox: `enqueue` of backend/app/infrastructure/database/repositories/
-- outbox.py, and the worker of backend/app/workers/outbox_publisher.py. The outcome of the
-- transport's call is a parameter of the loop, one `Turn` for each row; where the turns end, the
-- worker was asked to stop. The stream is the list of the event identifiers that the transport has
-- accepted.
pub mod Publication
pub mod Refinement
use hotelops_ai.Prelude.{
  ℕ, ◌+◌, ◌≡◌, Bool, true, false, ◌||◌, Option, none, some, List, [], ◌∷◌, ◌++◌, leb, ◌==◌, or_else,
  if◌then◌else◌, Result, ok, err, ◌>>=◌, ◌>>◌, reject,
}
use hotelops_ai.Prelude.Int.{ℤ}
use hotelops_ai.Reliability.Backoff.{BackoffError, compute_backoff_delay}
use hotelops_ai.Reliability.Leases.{
  Row, Status, claim_next, mark_done, mark_failed, mark_dead_letter, truncate_error,
}

-- What a row carries; `others` are the tenant, the venue and the payload.
pub record Event : Type 0 where
  pub event_id : ℕ
  pub event_type : ℕ
  pub others : ℕ

pub data OutboxError : Type 0 where
  duplicate_event : OutboxError

pub record Settings : Type 0 where
  pub batch_size : ℕ
  pub lease : ℕ
  pub max_attempts : ℕ
  pub backoff_base : ℕ
  pub backoff_max : ℕ
  pub backoff_jitter : ℤ

-- How the publication of a row ends.
pub data Delivery : Type 0 where
  delivered : Delivery
  non_retryable : List ℕ → Delivery
  retryable : List ℕ → Delivery

-- One turn of the loop: the outcome, the clock and the random factor of the retry delay.
pub record Turn : Type 0 where
  pub delivery : Delivery
  pub now : ℕ
  pub factor : ℕ → ℕ

abbrev pub has_event : ℕ → List (Row Event) → Bool
has_event e [] = false
has_event e (r ∷ rows) = r.content.event_id == e || has_event e rows

-- A row as its insert leaves it, with the defaults of the columns.
abbrev pub inserted : {P : Type 0} → ℕ → ℕ → Option ℕ → P → Row P
inserted new_id now available_at content = record {
  row_id = new_id;
  status = Status.pending;
  attempts = 0;
  available_at = or_else available_at now;
  claimed_by = none;
  claimed_until = none;
  last_error = none;
  content = content;
}

-- `enqueue`; the unique constraint on the event's identifier decides.
unfoldable pub enqueue :
    ℕ → ℕ → Option ℕ → Event → List (Row Event) → Result OutboxError (List (Row Event))
enqueue new_id now available_at event rows =
    reject (has_event event.event_id rows) duplicate_event
    >> ok (rows ++ (inserted new_id now available_at event ∷ []))

-- `_dead_letter`
abbrev pub give_up : ℕ → Row Event → List ℕ → List (Row Event) → List (Row Event)
give_up worker row error rows = (mark_dead_letter row.row_id worker (truncate_error error) rows).0

-- `_schedule_retry`
unfoldable pub schedule_retry :
    Settings
    → ℕ
    → Turn
    → Row Event
    → List ℕ
    → List (Row Event)
    → Result BackoffError (List (Row Event))
schedule_retry settings worker turn row error rows =
    if leb settings.max_attempts row.attempts
    then ok (give_up worker row error rows)
    else compute_backoff_delay row.attempts settings.backoff_base settings.backoff_max
        settings.backoff_jitter turn.factor
      >>= λ delay.
          ok (mark_failed row.row_id worker (truncate_error error) (turn.now + delay) rows).0

-- The table, the stream and the number of rows published.
pub record Progress : Type 0 where
  pub table : List (Row Event)
  pub stream : List ℕ
  pub published : ℕ

-- The body of the loop of `run_once`.
unfoldable pub handle_row :
    Settings → ℕ → Turn → Row Event → Delivery → Progress → Result BackoffError Progress
handle_row settings worker turn row delivered p = ok (record {
  table = (mark_done row.row_id worker p.table).0;
  stream = p.stream ++ (row.content.event_id ∷ []);
  published = if (mark_done row.row_id worker p.table).1 then p.published + 1 else p.published;
})
handle_row settings worker turn row (non_retryable error) p =
    ok (record p { table = give_up worker row error p.table })
handle_row settings worker turn row (retryable error) p =
    schedule_retry settings worker turn row error p.table >>= λ table.
    ok (record p { table = table })

unfoldable pub publish_rows :
    Settings → ℕ → List (Row Event) → List Turn → Progress → Result BackoffError Progress
publish_rows settings worker [] turns p = ok p
publish_rows settings worker (row ∷ rows) [] p = ok p
publish_rows settings worker (row ∷ rows) (turn ∷ turns) p =
    handle_row settings worker turn row turn.delivery p >>= λ next.
    publish_rows settings worker rows turns next

unfoldable pub run_once :
    Settings
    → ℕ
    → (ℕ → Bool)
    → ℕ
    → List Turn
    → List (Row Event)
    → List ℕ
    → Result BackoffError Progress
run_once settings worker locked now turns rows stream =
    let claimed = claim_next locked worker settings.batch_size settings.lease now rows in
    publish_rows settings worker claimed.1 turns
      (record { table = claimed.0; stream = stream; published = 0 })
