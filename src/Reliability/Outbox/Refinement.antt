-- ===== src/Reliability/Outbox/Refinement.antt =====
-- One cycle of the publisher: it ends without an exception, and it is a sequence of the steps of
-- the interleaved system.
use mathlib.Core.List.{Memᴰ}
use mathlib.Core.List.Memᴰ
use hotelops_ai.Prelude.{
  ℕ, ◌+◌, ◌≤◌, ◌≡◌, refl, Bool, true, false, List, [], ◌∷◌, ltb, leb, All, if◌then◌else◌, ok, ◌>>=◌,
  >>=-eq-ok, arith, if-elim, sym, ap, ◌∙◌,
}
use hotelops_ai.Prelude.Sets.{member}
use hotelops_ai.Reliability.Backoff.{is_fraction, compute_backoff_delay-ok}
use hotelops_ai.Reliability.Leases.{
  Row, claim_next, chosen, stamp, update_in, returned, mark_failed, truncate_error,
}
use hotelops_ai.Reliability.Outbox.{
  Event, Settings, Delivery, Turn, Progress, delivered, non_retryable, retryable, give_up,
  schedule_retry, handle_row, publish_rows, run_once,
}
use hotelops_ai.Reliability.Outbox.Publication.{
  System, Reach, later, claims_rows, sends, marks, gives_up, retries,
}

-- The loop's view of a system.
abbrev view : System → ℕ → Progress
view s n = record { table = s.table; stream = s.stream; published = n }

handle_row-Reach :
    (settings : Settings) (worker : ℕ) (turn : Turn) (row : Row Event) (delivery : Delivery)
    (s : System) (n : ℕ) {q : Progress}
    → Reach s
    → Memᴰ (worker, row) s.held
    → handle_row settings worker turn row delivery (view s n) ≡ ok q
    → (t : System) × Reach t × (t.held ≡ s.held) × (q ≡ view t q.published)
unfolding handle_row
handle_row-Reach settings worker turn row delivered s n reach held h = (
  _,
  later (later reach (sends worker row s held)) (marks worker row _ (Memᴰ.head refl)),
  refl,
  ground arith,
)
handle_row-Reach settings worker turn row (non_retryable error) s n reach held h =
    (_, later reach (gives_up worker row error s held), refl, ground arith)
handle_row-Reach settings worker turn row (retryable error) s n reach held h =
    let (table, scheduled, made) =
      >>=-eq-ok (schedule_retry settings worker turn row error s.table)
        (λ table. ok (record { table = table; stream = s.stream; published = n })) h in
    (_, later reach (retries settings worker turn row error s held scheduled), refl, ground arith)

publish_rows-Reach :
    (settings : Settings) (worker : ℕ) (rows : List (Row Event)) (turns : List Turn) (s : System)
    (n : ℕ) {q : Progress}
    → Reach s
    → ((r : Row Event) → Memᴰ r rows → Memᴰ (worker, r) s.held)
    → publish_rows settings worker rows turns (view s n) ≡ ok q
    → (t : System) × Reach t × (q ≡ view t q.published)
unfolding publish_rows
publish_rows-Reach settings worker [] turns s n reach held h = (s, reach, ground arith)
publish_rows-Reach settings worker (row ∷ rows) [] s n reach held h = (s, reach, ground arith)
publish_rows-Reach settings worker (row ∷ rows) (turn ∷ turns) s n reach held h =
    let (p, first, rest) =
      >>=-eq-ok (handle_row settings worker turn row turn.delivery (view s n))
        (publish_rows settings worker rows turns) h in
    let (t, reached, kept, is) =
      handle_row-Reach settings worker turn row turn.delivery s n reach (held row (Memᴰ.head refl))
        first in
    publish_rows-Reach settings worker rows turns t p.published reached
      (λ r m. rw kept (held r (Memᴰ.tail m))) (rw (sym is) rest)

-- Refinement: what a cycle of the publisher leaves in the table and in the stream is what some
-- sequence of the system's steps leaves, a claim, and for each row a send and a mark, a retry or a
-- dead letter.
pub run_once-Reach :
    (settings : Settings) (worker : ℕ) (locked : ℕ → Bool) (now : ℕ) (turns : List Turn)
    (s : System) {q : Progress}
    → Reach s
    → run_once settings worker locked now turns s.table s.stream ≡ ok q
    → (t : System) × Reach t × (t.table ≡ q.table) × (t.stream ≡ q.stream)
unfolding run_once
run_once-Reach settings worker locked now turns s reach h =
    let claimed = (claim_next locked worker settings.batch_size settings.lease now s.table).1 in
    let (t, reached, is) =
      publish_rows-Reach settings worker claimed turns _ 0
        (later reach (claims_rows locked worker settings.batch_size settings.lease now s))
        (λ r m. Memᴰ.append_left s.held (Memᴰ.map (λ r. (worker, r)) m)) h in
    (t, reached, sym (ap (λ p. p.table) is), sym (ap (λ p. p.stream) is))

-- A claimed row has been tried at least once.
abbrev IsTried : Row Event → Type 0
IsTried r = ltb r.attempts 1 ≡ false

if-IsTried :
    (b c : Bool) (r s : Row Event) (kept : List (Row Event))
    → c ≡ b
    → IsTried r
    → All IsTried kept
    → All IsTried (if c then (if b then r else s) ∷ kept else kept)
if-IsTried true true r s kept same tried all = (tried, all)
if-IsTried false false r s kept same tried all = all
if-IsTried true false r s kept same tried all = cc
if-IsTried false true r s kept same tried all = cc

returned-IsTried :
    (picked : List ℕ) (worker until : ℕ) (rows : List (Row Event))
    → All IsTried (returned picked (update_in picked (stamp worker until) rows))
returned-IsTried picked worker until [] = tt
returned-IsTried picked worker until (r ∷ rows) =
    if-IsTried (member picked r.row_id) _ (stamp worker until r) r
      (returned picked (update_in picked (stamp worker until) rows)) (ground arith) (ground arith)
      (returned-IsTried picked worker until rows)

-- The base delay is at most the largest, and the jitter is from 0 up to 1, 1 left out.
abbrev pub Fits : Settings → Type 0
Fits settings =
    (settings.backoff_base ≤ settings.backoff_max) × (is_fraction settings.backoff_jitter ≡ true)

schedule_retry-ok :
    (settings : Settings) (worker : ℕ) (turn : Turn) (row : Row Event) (error : List ℕ)
    (rows : List (Row Event))
    → Fits settings
    → IsTried row
    → (after : List (Row Event)) × (schedule_retry settings worker turn row error rows ≡ ok after)
unfolding schedule_retry
schedule_retry-ok settings worker turn row error rows fits tried =
    if-elim (λ r. (after : List (Row Event)) × (r ≡ ok after))
      (leb settings.max_attempts row.attempts) (λ spent. (give_up worker row error rows, refl))
      (λ left. (
        _,
        ap
            (λ r. r >>= λ delay.
              ok (mark_failed row.row_id worker (truncate_error error) (turn.now + delay) rows).0)
            (compute_backoff_delay-ok row.attempts settings.backoff_base settings.backoff_max
              settings.backoff_jitter turn.factor tried fits.0 fits.1),
      ))

handle_row-ok :
    (settings : Settings) (worker : ℕ) (turn : Turn) (row : Row Event) (delivery : Delivery)
    (p : Progress)
    → Fits settings
    → IsTried row
    → (q : Progress) × (handle_row settings worker turn row delivery p ≡ ok q)
unfolding handle_row
handle_row-ok settings worker turn row delivered p fits tried = (_, refl)
handle_row-ok settings worker turn row (non_retryable error) p fits tried = (_, refl)
handle_row-ok settings worker turn row (retryable error) p fits tried =
    let (table, scheduled) = schedule_retry-ok settings worker turn row error p.table fits tried in
    (record p { table = table }, ap (λ r. r >>= λ table. ok (record p { table = table })) scheduled)

publish_rows-ok :
    (settings : Settings) (worker : ℕ) (rows : List (Row Event)) (turns : List Turn) (p : Progress)
    → Fits settings
    → All IsTried rows
    → (q : Progress) × (publish_rows settings worker rows turns p ≡ ok q)
unfolding publish_rows
publish_rows-ok settings worker [] turns p fits tried = (p, refl)
publish_rows-ok settings worker (row ∷ rows) [] p fits tried = (p, refl)
publish_rows-ok settings worker (row ∷ rows) (turn ∷ turns) p fits tried =
    let (next, first) = handle_row-ok settings worker turn row turn.delivery p fits tried.0 in
    let (q, rest) = publish_rows-ok settings worker rows turns next fits tried.1 in
    (q, ap (λ r. r >>= publish_rows settings worker rows turns) first ∙ rest)

-- Totality: where the base delay is at most the largest and the jitter is from 0 up to 1, 1 left out,
-- a cycle of the publisher ends without an exception, whatever the transport does: the retry delay is
-- only computed for a claimed row, which has an attempt.
pub run_once-total :
    (settings : Settings) (worker : ℕ) (locked : ℕ → Bool) (now : ℕ) (turns : List Turn)
    (rows : List (Row Event)) (stream : List ℕ)
    → Fits settings
    → (q : Progress) × (run_once settings worker locked now turns rows stream ≡ ok q)
unfolding run_once claim_next
run_once-total settings worker locked now turns rows stream fits =
    publish_rows-ok settings worker
      (claim_next locked worker settings.batch_size settings.lease now rows).1 turns _ fits
      (returned-IsTried (chosen locked settings.batch_size now rows) worker (now + settings.lease)
        rows)
