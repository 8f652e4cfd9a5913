-- ===== src/Reliability/Outbox/Publication.antt =====
-- Interleaved producers and publishers of the outbox: what the table says is published is in the
-- stream.
use mathlib.Core.List.{Memᴰ}
use mathlib.Core.List.Memᴰ
use hotelops_ai.Prelude.{
  ℕ, ◌+◌, ◌≡◌, refl, inl, inr, Bool, true, false, ◌||◌, Option, some, List, [], ◌∷◌, ◌++◌, map,
  ◌==◌, if◌then◌else◌, ok, leb, arith, Bool-cases, Result-cases, sym, ap, ◌∙◌, ==_self,
}
use hotelops_ai.Prelude.Sets.{member, IsDistinct}
use hotelops_ai.Reliability.Backoff.{compute_backoff_delay}
use hotelops_ai.Reliability.Leases.{
  Row, get_row, ids, is_done, is_owned, finished, mark_done, claim_next, truncate_error, chosen,
  returned,
}
use hotelops_ai.Reliability.Leases.Rows.{get_row-before, ids-append-IsDistinct, get_row-append}
use hotelops_ai.Reliability.Leases.History.{
  Op, claims, marks_done, marks_failed, marks_dead, run, finishes, ids-run, run-is_done,
  run-IsLater, mark_done-before,
}
use hotelops_ai.Reliability.Outbox.{
  Event, Settings, Turn, inserted, enqueue, has_event, give_up, schedule_retry,
}

-- The table, the stream, the rows that each worker has claimed, and those of them that the
-- transport has accepted.
pub record System : Type 0 where
  pub table : List (Row Event)
  pub stream : List ℕ
  pub held : List (ℕ × Row Event)
  pub accepted : List (ℕ × Row Event)

pub data Step : System → System → Type 0 where
  enqueues :
      (new_id now : ℕ) (available_at : Option ℕ) (event : Event) (s : System)
      {after : List (Row Event)}
      → member (ids s.table) new_id ≡ false
      → enqueue new_id now available_at event s.table ≡ ok after
      → Step s (record s { table = after })
  claims_rows :
      (locked : ℕ → Bool) (worker batch_size lease now : ℕ) (s : System)
      → Step s (record s {
        table = (claim_next locked worker batch_size lease now s.table).0;
        held =
            map (λ r. (worker, r)) (claim_next locked worker batch_size lease now s.table).1
            ++ s.held;
      })
  sends :
      (worker : ℕ) (row : Row Event) (s : System)
      → Memᴰ (worker, row) s.held
      → Step s (record s {
        stream = s.stream ++ (row.content.event_id ∷ []);
        accepted = (worker, row) ∷ s.accepted;
      })
  marks :
      (worker : ℕ) (row : Row Event) (s : System)
      → Memᴰ (worker, row) s.accepted
      → Step s (record s { table = (mark_done row.row_id worker s.table).0 })
  gives_up :
      (worker : ℕ) (row : Row Event) (error : List ℕ) (s : System)
      → Memᴰ (worker, row) s.held
      → Step s (record s { table = give_up worker row error s.table })
  retries :
      (settings : Settings) (worker : ℕ) (turn : Turn) (row : Row Event) (error : List ℕ)
      (s : System) {after : List (Row Event)}
      → Memᴰ (worker, row) s.held
      → schedule_retry settings worker turn row error s.table ≡ ok after
      → Step s (record s { table = after })

abbrev pub empty : System
empty = record { table = []; stream = []; held = []; accepted = [] }

pub data Reach : System → Type 0 where
  start : Reach empty
  later : {s t : System} → Reach s → Step s t → Reach t

-- The table has the row, with the same event.
abbrev IsKnown : List (Row Event) → Row Event → Type 0
IsKnown rows r = (q : Row Event) × (get_row r.row_id rows ≡ some q) × (q.content ≡ r.content)

record IsBacked (s : System) : Type 0 where
  distinct : IsDistinct (ids s.table)
  held_known : (w : ℕ) (r : Row Event) → Memᴰ (w, r) s.held → IsKnown s.table r
  accepted_known : (w : ℕ) (r : Row Event) → Memᴰ (w, r) s.accepted → IsKnown s.table r
  accepted_sent :
      (w : ℕ) (r : Row Event) → Memᴰ (w, r) s.accepted → member s.stream r.content.event_id ≡ true
  published :
      (i : ℕ) {r : Row Event}
      → get_row i s.table ≡ some r
      → is_done r.status ≡ true
      → member s.stream r.content.event_id ≡ true

member-append : (xs : List ℕ) (x a : ℕ) → member (xs ++ (x ∷ [])) a ≡ (member xs a || x == a)
unfolding member
member-append [] x a = ground arith
member-append (y ∷ xs) x a = ground (arith, member-append xs x a)

-- The rows of a table are found under their identifiers.
Memᴰ-get_row :
    (rows : List (Row Event)) (r : Row Event)
    → IsDistinct (ids rows)
    → Memᴰ r rows
    → (get_row r.row_id rows ≡ some r) × (member (ids rows) r.row_id ≡ true)
unfolding member
Memᴰ-get_row [] r d m = elim m [ ]
Memᴰ-get_row (x ∷ rows) r d (Memᴰ.head same) = ground (arith, same, ==_self x.row_id)
Memᴰ-get_row (x ∷ rows) r d (Memᴰ.tail m) = ground (arith, Memᴰ-get_row rows r d.1 m)

if-Memᴰ :
    (b : Bool) (x r : Row Event) (kept rows : List (Row Event))
    → (Memᴰ r kept → Memᴰ r rows)
    → Memᴰ r (if b then x ∷ kept else kept)
    → Memᴰ r (x ∷ rows)
if-Memᴰ true x r kept rows f (Memᴰ.head same) = Memᴰ.head same
if-Memᴰ true x r kept rows f (Memᴰ.tail m) = Memᴰ.tail (f m)
if-Memᴰ false x r kept rows f m = Memᴰ.tail (f m)

returned-Memᴰ :
    (picked : List ℕ) (rows : List (Row Event)) (r : Row Event)
    → Memᴰ r (returned picked rows)
    → Memᴰ r rows
returned-Memᴰ picked [] r m = elim m [ ]
returned-Memᴰ picked (x ∷ rows) r m =
    if-Memᴰ (member picked x.row_id) x r (returned picked rows) rows (returned-Memᴰ picked rows r) m

run-IsKnown :
    (op : Op) (rows : List (Row Event)) (r : Row Event)
    → IsDistinct (ids rows)
    → IsKnown rows r
    → IsKnown (run op rows) r
run-IsKnown op rows r d (q, at, same) =
    let (s, after, kept) = run-IsLater op rows r.row_id d at in (s, after, kept.same_content ∙ same)

claimed-IsKnown :
    (locked : ℕ → Bool) (worker batch_size lease now : ℕ) (rows : List (Row Event)) (r : Row Event)
    → IsDistinct (ids rows)
    → Memᴰ r (claim_next locked worker batch_size lease now rows).1
    → IsKnown (claim_next locked worker batch_size lease now rows).0 r
unfolding claim_next
claimed-IsKnown locked worker batch_size lease now rows r d m = (
  r,
  (Memᴰ-get_row (claim_next locked worker batch_size lease now rows).0 r
      (rw (ids-run (claims locked worker batch_size lease now) rows) d)
      (returned-Memᴰ (chosen locked batch_size now rows) _ r m)).0,
  refl,
)

enqueue-ok :
    (new_id now : ℕ) (available_at : Option ℕ) (event : Event) (rows : List (Row Event))
    {after : List (Row Event)}
    → enqueue new_id now available_at event rows ≡ ok after
    → (has_event event.event_id rows ≡ false)
      × (after ≡ rows ++ (inserted new_id now available_at event ∷ []))
unfolding enqueue
enqueue-ok new_id now available_at event rows h = ground arith

-- A new row leaves the others where they are.
append-get_row :
    (rows : List (Row Event)) (x : Row Event) (i : ℕ) {r : Row Event}
    → get_row i rows ≡ some r
    → get_row i (rows ++ (x ∷ [])) ≡ some r
append-get_row [] x i h = cc
append-get_row (y ∷ rows) x i {r} h = ground (arith, append-get_row rows x i {r = r})

-- An operation that finishes no row, and holds what `held` says.
run-IsBacked :
    (op : Op) (s : System) (held : List (ℕ × Row Event))
    → finishes op ≡ false
    → ((w : ℕ) (r : Row Event) → Memᴰ (w, r) held → IsKnown (run op s.table) r)
    → IsBacked s
    → IsBacked (record s { table = run op s.table; held = held })
run-IsBacked op s held f known b = record {
  distinct = rw (ids-run op s.table) b.distinct;
  held_known = known;
  accepted_known = λ w r m. run-IsKnown op s.table r b.distinct (b.accepted_known w r m);
  accepted_sent = b.accepted_sent;
  published = λ i at finished.
      let (r, before) = get_row-before s.table (run op s.table) i (ids-run op s.table) at in
      let (alike, same) = run-is_done op s.table i b.distinct f before at in
      rw same (b.published i before (sym alike ∙ finished));
}

still_held :
    (op : Op) (s : System) (w : ℕ) (r : Row Event)
    → IsBacked s
    → Memᴰ (w, r) s.held
    → IsKnown (run op s.table) r
still_held op s w r b m = run-IsKnown op s.table r b.distinct (b.held_known w r m)

claims-IsBacked :
    (locked : ℕ → Bool) (worker batch_size lease now : ℕ) (s : System) (w : ℕ) (r : Row Event)
    → IsBacked s
    → Memᴰ
        (w, r)
        (map (λ r. (worker, r)) (claim_next locked worker batch_size lease now s.table).1 ++ s.held)
    → IsKnown (claim_next locked worker batch_size lease now s.table).0 r
claims-IsBacked locked worker batch_size lease now s w r b m =
    let op = claims locked worker batch_size lease now in
    let got = (claim_next locked worker batch_size lease now s.table).1 in
    elim (Memᴰ.append_cases (map (λ r. (worker, r)) got) m) [
      | inr old ↦ still_held op s w r b old
      | inl new ↦
          let (x, at, same) = Memᴰ.of_map (λ r. (worker, r)) got new in
          rw (sym (ap (λ p. p.1) same))
            (claimed-IsKnown locked worker batch_size lease now s.table x b.distinct at)
    ]

enqueues-IsBacked :
    (x : Row Event) (s : System)
    → member (ids s.table) x.row_id ≡ false
    → is_done x.status ≡ false
    → IsBacked s
    → IsBacked (record s { table = s.table ++ (x ∷ []) })
enqueues-IsBacked x s fresh new b = record {
  distinct = ids-append-IsDistinct s.table x b.distinct fresh;
  held_known = λ w r m.
      let (q, at, same) = b.held_known w r m in (q, append-get_row s.table x r.row_id at, same);
  accepted_known = λ w r m.
      let (q, at, same) = b.accepted_known w r m in (q, append-get_row s.table x r.row_id at, same);
  accepted_sent = b.accepted_sent;
  published = λ i at finished. elim (get_row-append s.table x i at) [
    | inl old ↦ b.published i old finished
    | inr (named, same) ↦ absurd (ground arith)
  ];
}

sends-IsBacked :
    (worker : ℕ) (row : Row Event) (s : System)
    → Memᴰ (worker, row) s.held
    → IsBacked s
    → IsBacked (record s {
      stream = s.stream ++ (row.content.event_id ∷ []);
      accepted = (worker, row) ∷ s.accepted;
    })
sends-IsBacked worker row s held b =
    let e = row.content.event_id in
    record {
      distinct = b.distinct;
      held_known = b.held_known;
      accepted_known = λ w r m. elim m [
        | Memᴰ.head same ↦ rw (ap (λ p. p.1) same) (b.held_known worker row held)
        | Memᴰ.tail old ↦ b.accepted_known w r old
      ];
      accepted_sent = λ w r m. elim m [
        | Memᴰ.head same ↦
            ground
              (arith, ap (λ p. p.1.content.event_id) same, member-append s.stream e e, ==_self e)
        | Memᴰ.tail old ↦
            ground (arith, member-append s.stream e r.content.event_id, b.accepted_sent w r old)
      ];
      published = λ i {r} at finished.
          ground (arith, member-append s.stream e r.content.event_id, b.published i at finished);
    }

marks-IsBacked :
    (worker : ℕ) (row : Row Event) (s : System)
    → Memᴰ (worker, row) s.accepted
    → IsBacked s
    → IsBacked (record s { table = (mark_done row.row_id worker s.table).0 })
unfolding is_owned
marks-IsBacked worker row s accepted b =
    let op = marks_done row.row_id worker in
    record {
      distinct = rw (ids-run op s.table) b.distinct;
      held_known = λ w r m. still_held op s w r b m;
      accepted_known = λ w r m. run-IsKnown op s.table r b.distinct (b.accepted_known w r m);
      accepted_sent = b.accepted_sent;
      published = λ i at finished.
          let (r, before, named, marked, same) = mark_done-before row.row_id worker s.table i at in
          elim (Bool-cases (is_owned row.row_id worker r)) [
            | inl owned ↦
                ground
                  (arith, b.accepted_known worker row accepted, b.accepted_sent worker row accepted)
            | inr other ↦ ground (arith, b.published i before)
          ];
    }

schedule_retry-Op :
    (settings : Settings) (worker : ℕ) (turn : Turn) (row : Row Event) (error : List ℕ)
    (rows : List (Row Event)) {after : List (Row Event)}
    → schedule_retry settings worker turn row error rows ≡ ok after
    → (op : Op) × (finishes op ≡ false) × (after ≡ run op rows)
unfolding schedule_retry
schedule_retry-Op settings worker turn row error rows h =
    elim (Bool-cases (leb settings.max_attempts row.attempts)) [
      | inl spent ↦ (marks_dead row.row_id worker (truncate_error error), refl, ground arith)
      | inr left ↦
          elim (Result-cases (
            compute_backoff_delay row.attempts settings.backoff_base settings.backoff_max
              settings.backoff_jitter turn.factor)) [
                | inl (delay, computed) ↦ (
                  marks_failed row.row_id worker (truncate_error error) (turn.now + delay),
                  refl,
                  ground arith,
                )
                | inr (e, raised) ↦ absurd (ground arith)
              ]
    ]

Step-IsBacked : {s t : System} → Step s t → IsBacked s → IsBacked t
Step-IsBacked (enqueues new_id now available_at event s {after} fresh h) b =
    rw ((enqueue-ok new_id now available_at event s.table h).1)
      (enqueues-IsBacked (inserted new_id now available_at event) s fresh refl b)
Step-IsBacked (claims_rows locked worker batch_size lease now s) b =
    run-IsBacked (claims locked worker batch_size lease now) s _ refl
      (λ w r. claims-IsBacked locked worker batch_size lease now s w r b) b
Step-IsBacked (sends worker row s held) b = sends-IsBacked worker row s held b
Step-IsBacked (marks worker row s accepted) b = marks-IsBacked worker row s accepted b
Step-IsBacked (gives_up worker row error s held) b =
    let op = marks_dead row.row_id worker (truncate_error error) in
    run-IsBacked op s s.held refl (λ w r. still_held op s w r b) b
Step-IsBacked (retries settings worker turn row error s {after} held h) b =
    let (op, f, is) = schedule_retry-Op settings worker turn row error s.table h in
    rw is (run-IsBacked op s s.held f (λ w r. still_held op s w r b) b)

Reach-IsBacked : {s : System} → Reach s → IsBacked s
Reach-IsBacked start = record {
  distinct = tt;
  held_known = λ w r m. elim m [ ];
  accepted_known = λ w r m. elim m [ ];
  accepted_sent = λ w r m. elim m [ ];
  published = λ i at finished. cc;
}
Reach-IsBacked (later r st) = Step-IsBacked st (Reach-IsBacked r)

-- At least once: in every state that producers and any number of publishers can reach, whatever
-- their interleaving and their lost leases, the event of a row that is marked published is in the
-- stream.
pub published-in_stream :
    {s : System} (i : ℕ) {r : Row Event}
    → Reach s
    → get_row i s.table ≡ some r
    → is_done r.status ≡ true
    → member s.stream r.content.event_id ≡ true
published-in_stream i reach at finished = (Reach-IsBacked reach).published i at finished
