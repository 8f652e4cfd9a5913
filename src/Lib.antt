-- ===== src/Lib.antt =====
-- Verification of the core of the hotel operations backend: the temporal engines that turn
-- observations of tracked persons into confirmed facts, the queue that feeds them, two durable
-- state machines, the retention of evidence, the versions of a venue's configuration,
-- the rules over temporal facts, the reliable delivery of events and requests, and the lifecycle
-- of stored media. Paths are from the root of the repository.
--
-- Parts and files.
--   Prelude: shared names; Result for code that raises; Sets and Dict for Python sets and
--     dictionaries with identifiers; Int for the signed change of a count.
--   Temporal/Fsm: DeterministicFsm of backend/app/intelligence/temporal/fsm.py. A table is built
--     by `construct`, with the checks of __init__; Fsm/Table is about every table so built.
--   Temporal/Model: the contracts of contracts/temporal/models.py and
--     contracts/spatial/models.py.
--   Temporal/Engine: TemporalEngine of temporal/engine.py. `apply` is `_validate`, then the
--     position of the observation against the watermark: the same position is a duplicate, an
--     earlier one goes to `_apply_out_of_order`, a later one to `_evaluate` of the family, whose
--     outcome `_apply_evaluation` writes. A family is an `Engine`: its machine, policy, kinds and
--     `evaluate`. Ordering, Outcome, History, Checkpoints and Isolation are about every family.
--   Temporal/Presence: PresenceTemporalEngine and temporal/presence.py. Invariant is about one
--     step, Hysteresis and Confirmation about timelines, Loss about the end of a presence.
--   Temporal/Dwell: temporal/dwell.py. Its inputs are the transitions of the presence engine over
--     the same observations; Lockstep couples the two states, Coupling is about a step of both.
--   Temporal/Occupancy: temporal/occupancy.py. Its inputs are the presence transitions of all the
--     tracks of a scope; Counting is about the set of tracks, Delivery about repeated, illegal
--     and late transitions.
--   Temporal/Waiting, with its Engine: temporal/waiting.py, over the presence transitions and the
--     classification of the movement; Qualified is about what its states attest, Closing about
--     the intervals that it reports.
--   Temporal/Tracks: the presence and dwell engines, on states and inputs of different tracks.
--   FrameQueue: BoundedFrameQueue of backend/app/intelligence/sources/queue.py; Accounting is
--     about its counters, Order about the order of the frames and the drain.
--   Evidence: backend/app/domain/evidence/state_machine.py and
--     backend/app/application/services/evidence_state.py, on the machine of Temporal/Fsm;
--     Workflow is about sequences of calls.
--   LiveSession: backend/app/domain/video/live_session_state_machine.py and
--     backend/app/application/services/live_session.py; Lifecycle is about the machine, Audit
--     about the rows and the log.
--   Retention: backend/app/domain/media/retention.py and
--     backend/app/domain/evidence/retention.py; Deletion is about when evidence may be deleted.
--   Access: the actor and backend/app/infrastructure/auth/scope.py.
--   Configuration: backend/app/domain/configuration/state_machine.py in Machine, service.py
--     beside it over the repository of the versions in Service; Versions and Moves are about one
--     call, Publication about sequences of calls, Pointer about the current version of a
--     configuration.
--   Reliability/Backoff, Keys: infrastructure/reliability/backoff.py, and the keys of requests.
--   Reliability/Leases: the rows that workers claim, of infrastructure/database/repositories/
--     outbox.py and inbox.py; Rows is about one row, History about sequences of operations,
--     Claims about the lease of what a claim takes, Recovery about which rows it takes.
--   Reliability/Outbox: the enqueue and workers/outbox_publisher.py; Publication is about any
--     number of publishers, Refinement about one cycle of the worker as steps of that system.
--   Reliability/Inbox: the receive and workers/inbox_consumer.py; Effects is about any number of
--     consumers. The outbox feeds the inbox through the stream.
--   Reliability/Idempotency: application/services/idempotency.py over its repository; Table is
--     about lookups, Interleaving the system of all requests over any table of claims in
--     progress, Uniqueness its invariant, Completion the turns that complete a record, Holding
--     the records under a lease, Replay about every interleaving.
--   Media: infrastructure/database/repositories/media.py and the unit of work of
--     infrastructure/database/client.py. Content is backend/app/domain/media/validation.py,
--     Upload and Service are application/services/media_upload.py and media_lifecycle.py, Cleanup
--     is workers/media_cleanup.py. A method is given the record that it read and the world at its
--     first write; Rows, Writes with its parts and Sweeps are about one of them, Safety about
--     every interleaving, Lost about a sweep that is overtaken, Rollback about requests that raise.
--   Rules: contracts/rules/models.py and the identities of
--     backend/app/intelligence/rules/evaluator.py. Registry, Engine and Evaluators are
--     registry.py, engine.py and the five operational rules beside them. Answers and Contract are
--     about any evaluator, Acceptance about the five, Catalogue holds the definitions, Versions
--     the form of a version, Wiring is bootstrap.py, Immutability about registrations, Crossings
--     about an interval that grows, and Sessions about the occupancy engine under its rule.
--   Tests: the theorems at concrete inputs.
--
-- Conventions. A UUID is a number. A time that a contract validated as UTC is a number of
-- microseconds, as are the durations of the policy, which the source holds as floats of seconds. A
-- name that the source keeps as a string from a fixed set is a constructor, and the instances of
-- `Name` compare names. An exception is the error of a `Result`. The uuid5 hash and the sentinel
-- track of the occupancy are parameters of every definition that uses them. No definition needs
-- fuel: every loop is over a list. The loop of an idempotent request is cut off where the list of
-- its moments ends; its theorems are about single turns in any interleaving. A table of the
-- database is the list of its rows, and a transaction is one step; in Configuration/Publication a
-- call of update_draft may write later than it reads, as long as the version is still a draft.
--
-- Not modelled: the evaluation of the data quality rule and the evidence requests beside it;
-- the transport, the handlers and the spans of the workers; the movement and
-- classification engines, geometry and inference, whose core is floating-point; the contexts that a
-- configuration declares for waiting; storage, HTTP and database access; the waiters of the queue's
-- condition variable; the JSON form of checkpoints.
pub mod Access
pub mod Configuration
pub mod Evidence
pub mod FrameQueue
pub mod LiveSession
pub mod Media
pub mod Prelude
pub mod Reliability
pub mod Retention
pub mod Rules
pub mod Temporal
pub mod Tests
