-- ===== src/Reliability/Inbox/Effects.antt =====
-- Interleaved ingress and consumers of the inbox, and how often an effect is committed.
use hotelops_ai.Prelude.{
  ℕ, suc, ◌+◌, ◌≡◌, refl, inl, inr, Bool, true, false, Option, none, some, List, [], ◌∷◌, ◌++◌,
  ◌==◌, if◌then◌else◌, ok, arith, ◌>>=◌, leb, if-elim, >>=-elim, sym, or_else,
}
use hotelops_ai.Prelude.Sets.{member, IsDistinct}
use hotelops_ai.Reliability.Leases.{
  Row, get_row, ids, is_done, is_owned, mark_done, claim_next, truncate_error,
}
use hotelops_ai.Reliability.Leases.Rows.{
  get_row-before, ids-append-IsDistinct, get_row-append, member-get_row, member-ids-append,
}
use hotelops_ai.Reliability.Leases.History.{
  Op, claims, marks_done, marks_failed, marks_dead, run, finishes, ids-run, run-is_done,
  mark_done-won, mark_done-before,
}
use hotelops_ai.Reliability.Outbox.{Settings, inserted}
use hotelops_ai.Reliability.Inbox.{
  Message, Effect, Turn, Progress, succeeds, non_retryable, retryable, same_key, has_message,
  receive, bury, postpone, retry_delay, reschedule, transact, process_row, or_unchanged,
  process_rows,
}

-- A committed transaction of the ingress or of a consumer. The identifier of a new row is fresh.
pub data Step : Progress → Progress → Type 0 where
  receives :
      (new_id now : ℕ) (m : Message) (p : Progress)
      → member (ids p.table) new_id ≡ false
      → Step p (record p { table = (receive new_id now m p.table).0 })
  claims_rows :
      (locked : ℕ → Bool) (worker batch_size lease now : ℕ) (p : Progress)
      → Step p (record p { table = (claim_next locked worker batch_size lease now p.table).0 })
  processes :
      (settings : Settings) (handles : ℕ → Bool) (no_handler : List ℕ) (worker : ℕ) (turn : Turn)
      (row : Row Message) (p : Progress)
      → Step p (or_unchanged (process_row settings handles no_handler worker turn row p) p)

abbrev pub empty : Progress
empty = record { table = []; effects = []; processed = 0 }

pub data Reach : Progress → Type 0 where
  start : Reach empty
  later : {p q : Progress} → Reach p → Step p q → Reach q

unfoldable pub count : ℕ → List ℕ → ℕ
count i [] = 0
count i (x ∷ xs) = if x == i then suc (count i xs) else count i xs

abbrev pub once : Bool → ℕ
once true = 1
once false = 0

record IsExact (p : Progress) : Type 0 where
  distinct : IsDistinct (ids p.table)
  known :
      (i : ℕ) {r : Row Message}
      → get_row i p.table ≡ some r
      → count i p.effects ≡ once (is_done r.status)
  unknown : (i : ℕ) → member (ids p.table) i ≡ false → count i p.effects ≡ 0
  keyed :
      (i j : ℕ) {r q : Row Message}
      → get_row i p.table ≡ some r
      → get_row j p.table ≡ some q
      → same_key r.content q.content ≡ true
      → i ≡ j

count-append : (i x : ℕ) (xs : List ℕ) → count i (xs ++ (x ∷ [])) ≡ count i xs + once (x == i)
unfolding count
count-append i x [] = ground arith
count-append i x (y ∷ xs) = ground (arith, count-append i x xs)

-- An operation that finishes no row keeps the counts.
run-IsExact :
    (op : Op) (p : Progress)
    → finishes op ≡ false
    → IsExact p
    → IsExact (record p { table = run op p.table })
run-IsExact op p f e = record {
  distinct = rw (ids-run op p.table) e.distinct;
  known = λ i at.
      let (r, before) = get_row-before p.table (run op p.table) i (ids-run op p.table) at in
      ground (arith, run-is_done op p.table i e.distinct f before at, e.known i before);
  unknown = λ i absent. e.unknown i (rw (sym (ids-run op p.table)) absent);
  keyed = λ i j at at' same.
      let (r, before) = get_row-before p.table (run op p.table) i (ids-run op p.table) at in
      let (q, before') = get_row-before p.table (run op p.table) j (ids-run op p.table) at' in
      e.keyed i j before before' (
        rw
          (
            sym (run-is_done op p.table i e.distinct f before at).1,
            sym (run-is_done op p.table j e.distinct f before' at').1,
          )
          same);
}

has_message-get_row :
    (m : Message) (rows : List (Row Message)) (i : ℕ) {r : Row Message}
    → has_message m rows ≡ false
    → get_row i rows ≡ some r
    → same_key r.content m ≡ false
has_message-get_row m [] i h at = cc
has_message-get_row m (x ∷ rows) i {r} h at = ground (arith, has_message-get_row m rows i {r = r})

append-IsExact :
    (new_id now : ℕ) (m : Message) (p : Progress)
    → member (ids p.table) new_id ≡ false
    → has_message m p.table ≡ false
    → IsExact p
    → IsExact (record p { table = p.table ++ (inserted new_id now none m ∷ []) })
append-IsExact new_id now m p fresh unseen e =
    let row = inserted new_id now none m in
    record {
      distinct = ids-append-IsDistinct p.table row e.distinct fresh;
      known = λ i at. elim (get_row-append p.table row i at) [
        | inl old ↦ e.known i old
        | inr new ↦ ground (arith, e.unknown new_id fresh)
      ];
      unknown = λ i absent. e.unknown i (ground (arith, member-ids-append p.table row i));
      keyed = λ i j at at' same. elim (get_row-append p.table row i at) [
        | inl old ↦ elim (get_row-append p.table row j at') [
          | inl old' ↦ e.keyed i j old old' same
          | inr new' ↦ absurd (ground (arith, has_message-get_row m p.table i unseen old))
        ]
        | inr new ↦ elim (get_row-append p.table row j at') [
          | inl old' ↦ absurd (ground (arith, has_message-get_row m p.table j unseen old'))
          | inr new' ↦ ground arith
        ]
      ];
    }

commit-IsExact :
    (i worker : ℕ) (p : Progress)
    → (mark_done i worker p.table).1 ≡ true
    → IsExact p
    → IsExact (record {
      table = (mark_done i worker p.table).0;
      effects = p.effects ++ (i ∷ []);
      processed = p.processed + 1;
    })
unfolding is_owned
commit-IsExact i worker p won e =
    let (owner, there, owned) = mark_done-won i worker p.table e.distinct won in
    record {
      distinct = rw (ids-run (marks_done i worker) p.table) e.distinct;
      known = λ j at.
          let (r, before, named, marked, same) = mark_done-before i worker p.table j at in
          ground (arith, count-append j i p.effects, e.known j before, e.known i there);
      unknown = λ j absent.
          let gone : member (ids p.table) j ≡ false =
            rw (sym (ids-run (marks_done i worker) p.table)) absent in
          ground
            (arith, count-append j i p.effects, e.unknown j gone, member-get_row p.table i there);
      keyed = λ j k at at' alike.
          let (r, before, named, marked, same) = mark_done-before i worker p.table j at in
          let (q, before', named', marked', same') = mark_done-before i worker p.table k at' in
          e.keyed j k before before' (rw (sym same, sym same') alike);
    }

transact-IsExact :
    (settings : Settings) (worker : ℕ) (turn : Turn) (row : Row Message) (effect : Effect)
    (p : Progress)
    → IsExact p
    → IsExact (or_unchanged (transact settings worker turn row effect p) p)
unfolding transact reschedule
transact-IsExact settings worker turn row succeeds p e =
    if-elim IsExact _ (λ won. commit-IsExact row.row_id worker p won e) (λ lost. e)
transact-IsExact settings worker turn row (non_retryable error) p e =
    run-IsExact (marks_dead row.row_id worker (truncate_error error)) p refl e
transact-IsExact settings worker turn row (retryable error) p e =
    if-elim (λ r. IsExact (or_unchanged r p)) (leb settings.max_attempts row.attempts)
      {x = ok (bury worker row error p)}
      {y = retry_delay settings turn row >>= λ delay. ok (postpone worker turn row error p delay)}
      (λ spent. run-IsExact (marks_dead row.row_id worker (truncate_error error)) p refl e)
      (λ left.
        >>=-elim (λ r. IsExact (or_unchanged r p)) (retry_delay settings turn row)
          (λ delay. ok (postpone worker turn row error p delay)) (λ raised. e)
          (λ delay computed.
            run-IsExact (marks_failed row.row_id worker (truncate_error error) (turn.now + delay)) p
              refl e))

process_row-IsExact :
    (settings : Settings) (handles : ℕ → Bool) (no_handler : List ℕ) (worker : ℕ) (turn : Turn)
    (row : Row Message) (p : Progress)
    → IsExact p
    → IsExact (or_unchanged (process_row settings handles no_handler worker turn row p) p)
unfolding process_row
process_row-IsExact settings handles no_handler worker turn row p e =
    if-elim (λ r. IsExact (or_unchanged r p)) (handles (or_else row.content.event_type 0))
      {x = transact settings worker turn row turn.effect p} {y = ok (bury worker row no_handler p)}
      (λ handled. transact-IsExact settings worker turn row turn.effect p e)
      (λ unhandled. run-IsExact (marks_dead row.row_id worker (truncate_error no_handler)) p refl e)

Step-IsExact : {p q : Progress} → Step p q → IsExact p → IsExact q
unfolding receive
Step-IsExact (receives new_id now m p fresh) e =
    if-elim {A = List (Row Message) × Option (Row Message)}
      (λ r. IsExact (record p { table = r.0 })) (has_message m p.table) {x = (p.table, none)}
      {y = (p.table ++ (inserted new_id now none m ∷ []), some (inserted new_id now none m))}
      (λ seen. e) (λ unseen. append-IsExact new_id now m p fresh unseen e)
Step-IsExact (claims_rows locked worker batch_size lease now p) e =
    run-IsExact (claims locked worker batch_size lease now) p refl e
Step-IsExact (processes settings handles no_handler worker turn row p) e =
    process_row-IsExact settings handles no_handler worker turn row p e

Reach-IsExact : {p : Progress} → Reach p → IsExact p
unfolding count
Reach-IsExact start = record {
  distinct = tt;
  known = λ i at. cc;
  unknown = λ i absent. refl;
  keyed = λ i j at at' same. cc;
}
Reach-IsExact (later r st) = Step-IsExact st (Reach-IsExact r)

-- Exactly once: in every state that the ingress and any number of consumers can reach, whatever
-- their interleaving, their lost leases and their failures, the effect of a message is committed
-- once where its row is processed, and never where it is not.
pub effects-exactly_once :
    {p : Progress} (i : ℕ) {r : Row Message}
    → Reach p
    → get_row i p.table ≡ some r
    → count i p.effects ≡ once (is_done r.status)
effects-exactly_once i reach at = (Reach-IsExact reach).known i at

-- One row for each message: two rows of a reachable table with the same source and the same
-- message identifier of the source are one row.
pub receive-deduplicates :
    {p : Progress} (i j : ℕ) {r q : Row Message}
    → Reach p
    → get_row i p.table ≡ some r
    → get_row j p.table ≡ some q
    → same_key r.content q.content ≡ true
    → i ≡ j
receive-deduplicates i j reach at at' same = (Reach-IsExact reach).keyed i j at at' same

process_rows-Reach :
    (settings : Settings) (handles : ℕ → Bool) (no_handler : List ℕ) (worker : ℕ)
    (rows : List (Row Message)) (turns : List Turn) (p : Progress)
    → Reach p
    → Reach (process_rows settings handles no_handler worker rows turns p)
unfolding process_rows
process_rows-Reach settings handles no_handler worker [] turns p h = h
process_rows-Reach settings handles no_handler worker (row ∷ rows) [] p h = h
process_rows-Reach settings handles no_handler worker (row ∷ rows) (turn ∷ turns) p h =
    process_rows-Reach settings handles no_handler worker rows turns _
      (later h (processes settings handles no_handler worker turn row p))
