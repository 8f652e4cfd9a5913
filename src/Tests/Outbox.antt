-- ===== src/Tests/Outbox.antt =====
-- Tests of the outbox: one event, enqueued, claimed, sent and marked.
use mathlib.Core.List.{Memᴰ}
use hotelops_ai.Prelude.{ℕ, ◌≡◌, refl, Bool, true, false, Option, none, some, [], ◌∷◌, ok, arith}
use hotelops_ai.Prelude.Int.{pos}
use hotelops_ai.Prelude.Sets.{member}
use hotelops_ai.Reliability.Leases.{
  Row, Status, claim_next, mark_done, is_owned, is_due, due_rows, by_time, chosen, pending,
  processing, done,
}
use hotelops_ai.Reliability.Outbox.{
  Event, Settings, Turn, Progress, enqueue, delivered, run_once, publish_rows, handle_row,
}
use hotelops_ai.Reliability.Outbox.Publication.{
  System, Reach, empty, start, later, enqueues, claims_rows, sends, marks, published-in_stream,
}
use hotelops_ai.Reliability.Outbox.Refinement.{run_once-Reach, run_once-total}

abbrev settings : Settings
settings = record {
  batch_size = 20;
  lease = 30;
  max_attempts = 8;
  backoff_base = 10;
  backoff_max = 300;
  backoff_jitter = pos 100000;
}

abbrev event : Event
event = record { event_id = 5; event_type = 1; others = 2 }

abbrev row_in : Status → ℕ → Option ℕ → Option ℕ → Row Event
row_in status attempts worker until = record {
  row_id = 7;
  status = status;
  attempts = attempts;
  available_at = 100;
  claimed_by = worker;
  claimed_until = until;
  last_error = none;
  content = event;
}

abbrev unlocked : ℕ → Bool
unlocked i = false

abbrev queued : System
queued = record empty { table = row_in pending 0 none none ∷ [] }

abbrev claimed : System
claimed = record queued {
  table = row_in processing 1 (some 1) (some 130) ∷ [];
  held = (1, row_in processing 1 (some 1) (some 130)) ∷ [];
}

abbrev sent : System
sent = record claimed {
  stream = 5 ∷ [];
  accepted = (1, row_in processing 1 (some 1) (some 130)) ∷ [];
}

queued-Reach : Reach queued
unfolding enqueue member
queued-Reach = later start (enqueues 7 100 none event empty refl refl)

claimed-Reach : Reach claimed
unfolding claim_next chosen by_time due_rows is_due member
claimed-Reach = later queued-Reach (claims_rows unlocked 1 20 30 100 queued)

sent-Reach : Reach sent
sent-Reach = later claimed-Reach (sends 1 _ claimed (Memᴰ.head refl))

published-Reach : Reach (record sent { table = row_in done 1 none none ∷ [] })
unfolding mark_done is_owned
published-Reach = later sent-Reach (marks 1 _ sent (Memᴰ.head refl))

published-in_stream_example : member (5 ∷ []) 5 ≡ true
published-in_stream_example = published-in_stream 7 published-Reach refl refl

abbrev turn : Turn
turn = record { delivery = delivered; now = 110; factor = λ delay. delay }

run_once-total_example :
    (q : Progress) × (run_once settings 1 unlocked 100 (turn ∷ []) queued.table [] ≡ ok q)
run_once-total_example =
    run_once-total settings 1 unlocked 100 (turn ∷ []) queued.table [] (omega arith, refl)

abbrev finished : Progress
finished = record { table = row_in done 1 none none ∷ []; stream = 5 ∷ []; published = 1 }

finished-run_once : run_once settings 1 unlocked 100 (turn ∷ []) queued.table [] ≡ ok finished
unfolding run_once publish_rows handle_row claim_next chosen by_time due_rows is_due member
    mark_done is_owned
finished-run_once = refl

run_once-Reach_example :
    (t : System) × Reach t × (t.table ≡ finished.table) × (t.stream ≡ finished.stream)
run_once-Reach_example =
    run_once-Reach settings 1 unlocked 100 (turn ∷ []) queued queued-Reach finished-run_once
