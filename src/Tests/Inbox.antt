-- ===== src/Tests/Inbox.antt =====
-- Tests of the inbox: one message, received twice, claimed and processed.
use hotelops_ai.Prelude.{ℕ, ◌≡◌, refl, Bool, true, false, Option, none, some, [], ◌∷◌}
use hotelops_ai.Prelude.Int.{pos}
use hotelops_ai.Prelude.Sets.{member}
use hotelops_ai.Reliability.Leases.{
  Row, Status, claim_next, mark_done, is_owned, is_due, due_rows, by_time, chosen, pending,
  processing, done,
}
use hotelops_ai.Reliability.Outbox.{Settings}
use hotelops_ai.Reliability.Inbox.{
  Message, Turn, Progress, succeeds, receive, process_row, transact,
}
use hotelops_ai.Reliability.Inbox.Effects.{
  Reach, empty, start, later, receives, claims_rows, processes, count, effects-exactly_once,
}

abbrev settings : Settings
settings = record {
  batch_size = 20;
  lease = 30;
  max_attempts = 8;
  backoff_base = 10;
  backoff_max = 300;
  backoff_jitter = pos 100000;
}

abbrev message : Message
message = record { source = 1; source_message_id = 5; event_type = some 2; others = 3 }

abbrev row_in : Status → ℕ → Option ℕ → Option ℕ → Row Message
row_in status attempts worker until = record {
  row_id = 7;
  status = status;
  attempts = attempts;
  available_at = 100;
  claimed_by = worker;
  claimed_until = until;
  last_error = none;
  content = message;
}

abbrev unlocked : ℕ → Bool
unlocked i = false

abbrev received : Progress
received = record empty { table = row_in pending 0 none none ∷ [] }

abbrev claimed : Progress
claimed = record empty { table = row_in processing 1 (some 1) (some 130) ∷ [] }

abbrev processed : Progress
processed = record { table = row_in done 1 none none ∷ []; effects = 7 ∷ []; processed = 1 }

received-Reach : Reach received
unfolding receive member
received-Reach = later start (receives 7 100 message empty refl)

-- The second delivery of the message changes nothing.
twice-Reach : Reach received
unfolding receive member
twice-Reach = later received-Reach (receives 8 105 message received refl)

claimed-Reach : Reach claimed
unfolding claim_next chosen by_time due_rows is_due member
claimed-Reach = later twice-Reach (claims_rows unlocked 1 20 30 100 received)

abbrev turn : Turn
turn = record { effect = succeeds; now = 110; factor = λ delay. delay }

processed-Reach : Reach processed
unfolding process_row transact mark_done is_owned
processed-Reach =
    later claimed-Reach
      (processes settings (λ t. true) [] 1 turn (row_in processing 1 (some 1) (some 130)) claimed)

effects-exactly_once_example : count 7 (7 ∷ []) ≡ 1
effects-exactly_once_example = effects-exactly_once 7 processed-Reach refl
