-- ===== src/Reliability/Leases/History.antt =====
-- What the operations on a table under leases can do to a row, one after the other.
use hotelops_ai.Prelude.{
  ℕ, ◌+◌, ◌≤◌, ◌≡◌, refl, ◌⊎◌, inl, inr, Bool, true, false, not, ◌&&◌, ◌==◌, ltb, All, [], ◌∷◌,
  Bool-cases, false, Option, none, some, List, arith, sym, ◌∙◌, if◌then◌else◌,
}
use hotelops_ai.Prelude.Sets.{member, IsDistinct}
use hotelops_ai.Reliability.Leases.{
  Row, Status, get_row, is_due, ids, chosen, stamp, is_owned, is_allowed, is_final, is_done,
  claim_next, mark_done, mark_failed, mark_dead_letter, finished, rescheduled, buried,
  is_processing, is_held_by,
}
use hotelops_ai.Reliability.Leases.Rows.{
  chosen-is_due, get_row-update_in, get_row-update_owned, ids-update_in, ids-update_owned,
  any_owned-get_row, any_owned_absent, ids-get_row, get_row-before, member-get_row,
}

-- One operation of a worker on the table.
pub data Op : Type 0 where
  claims : (locked : ℕ → Bool) (worker batch_size lease now : ℕ) → Op
  marks_done : (i worker : ℕ) → Op
  marks_failed : (i worker : ℕ) (error : List ℕ) (retry_at : ℕ) → Op
  marks_dead : (i worker : ℕ) (error : List ℕ) → Op

abbrev pub run : {P : Type 0} → Op → List (Row P) → List (Row P)
run (claims locked worker batch_size lease now) rows =
    (claim_next locked worker batch_size lease now rows).0
run (marks_done i worker) rows = (mark_done i worker rows).0
run (marks_failed i worker error retry_at) rows = (mark_failed i worker error retry_at rows).0
run (marks_dead i worker error) rows = (mark_dead_letter i worker error rows).0

abbrev pub run_all : {P : Type 0} → List Op → List (Row P) → List (Row P)
run_all [] rows = rows
run_all (op ∷ ops) rows = run_all ops (run op rows)

abbrev expires : Option ℕ → ℕ → Bool
expires none until = false
expires (some t) until = t == until

abbrev pub finishes : Op → Bool
finishes (marks_done i worker) = true
finishes _ = false

-- The worker holds the row until the instant.
abbrev pub holds : {P : Type 0} → ℕ → ℕ → Row P → Bool
holds worker until r =
    is_processing r.status && is_held_by worker r.claimed_by && expires r.claimed_until until

-- The operation is a claim before the instant, or a mark by another worker.
abbrev pub is_before_or_other : ℕ → ℕ → Op → Bool
is_before_or_other worker until (claims locked w batch_size lease now) = ltb now until
is_before_or_other worker until (marks_done j w) = not (w == worker)
is_before_or_other worker until (marks_failed j w error retry_at) = not (w == worker)
is_before_or_other worker until (marks_dead j w error) = not (w == worker)

-- A row `r` and the same row `s` later: only an allowed change of the status, and none of a row
-- that is done or dead-lettered.
pub record IsLater {P : Type 0} (r s : Row P) : Type 0 where
  pub same_id : s.row_id ≡ r.row_id
  pub same_content : s.content ≡ r.content
  pub allowed : is_allowed r.status s.status ≡ true
  pub attempts_grow : r.attempts ≤ s.attempts
  pub final_kept : (is_final r.status ≡ false) ⊎ (s ≡ r)

allowed_refl : (s : Status) → is_allowed s s ≡ true
unfolding is_allowed
allowed_refl Status.pending = refl
allowed_refl Status.processing = refl
allowed_refl Status.failed = refl
allowed_refl Status.done = refl
allowed_refl Status.dead_letter = refl

&&-first : (a b : Bool) → (a && b) ≡ true → a ≡ true
&&-first a b h = ground arith

module _ {P : Type 0} where
  IsLater-refl : (r : Row P) → IsLater r r
  IsLater-refl r = record {
    same_id = refl;
    same_content = refl;
    allowed = allowed_refl r.status;
    attempts_grow = omega arith;
    final_kept = inr refl;
  }

  stamp-IsLater :
      (worker until now : ℕ) (r : Row P) → is_due now r ≡ true → IsLater r (stamp worker until r)
  unfolding is_due is_allowed
  stamp-IsLater worker until now r due = record {
    same_id = refl;
    same_content = refl;
    allowed = ground arith;
    attempts_grow = omega arith;
    final_kept = inl (ground arith);
  }

  if-IsLater :
      (b : Bool) (f : Row P → Row P) (r : Row P)
      → (b ≡ true → IsLater r (f r))
      → IsLater r (if b then f r else r)
  if-IsLater true f r h = h refl
  if-IsLater false f r h = IsLater-refl r

  -- A mark by the worker that holds the row.
  mark-IsLater :
      (i worker : ℕ) (r s : Row P)
      → is_allowed Status.processing s.status ≡ true
      → s.row_id ≡ r.row_id
      → s.content ≡ r.content
      → s.attempts ≡ r.attempts
      → is_owned i worker r ≡ true
      → IsLater r s
  unfolding is_owned
  mark-IsLater i worker r s allowed id same kept h = record {
    same_id = id;
    same_content = same;
    allowed = ground arith;
    attempts_grow = omega arith;
    final_kept = inl (ground arith);
  }

  -- One operation of any worker keeps every row of the table, its identifier and its content, adds
  -- to its attempts at most, changes its status only as the trigger of the table allows, and does
  -- not touch a row that is done or dead-lettered.
  pub run-IsLater :
      (op : Op) (rows : List (Row P)) (i : ℕ) {r : Row P}
      → IsDistinct (ids rows)
      → get_row i rows ≡ some r
      → (s : Row P) × (get_row i (run op rows) ≡ some s) × IsLater r s
  unfolding claim_next mark_done mark_failed mark_dead_letter is_allowed
  run-IsLater (claims locked worker batch_size lease now) rows i {r} distinct at = (
    _,
    get_row-update_in (chosen locked batch_size now rows) (stamp worker (now + lease)) rows i
        (λ s. refl) at,
    if-IsLater (member (chosen locked batch_size now rows) i) (stamp worker (now + lease)) r
        (λ picked. stamp-IsLater worker (now + lease) now r (
          &&-first (is_due now r) (not (locked i))
            (chosen-is_due locked batch_size now rows i distinct at picked))),
  )
  run-IsLater (marks_done j worker) rows i {r} distinct at = (
    _,
    get_row-update_owned j worker finished rows i (λ s. refl) at,
    if-IsLater (is_owned j worker r) finished r
        (mark-IsLater j worker r (finished r) refl refl refl refl),
  )
  run-IsLater (marks_failed j worker error retry_at) rows i {r} distinct at = (
    _,
    get_row-update_owned j worker (rescheduled error retry_at) rows i (λ s. refl) at,
    if-IsLater (is_owned j worker r) (rescheduled error retry_at) r
        (mark-IsLater j worker r (rescheduled error retry_at r) refl refl refl refl),
  )
  run-IsLater (marks_dead j worker error) rows i {r} distinct at = (
    _,
    get_row-update_owned j worker (buried error) rows i (λ s. refl) at,
    if-IsLater (is_owned j worker r) (buried error) r
        (mark-IsLater j worker r (buried error r) refl refl refl refl),
  )

  pub ids-run : (op : Op) (rows : List (Row P)) → ids (run op rows) ≡ ids rows
  unfolding claim_next mark_done mark_failed mark_dead_letter
  ids-run (claims locked worker batch_size lease now) rows =
      ids-update_in (chosen locked batch_size now rows) (stamp worker (now + lease)) rows
        (λ s. refl)
  ids-run (marks_done j worker) rows = ids-update_owned j worker finished rows (λ s. refl)
  ids-run (marks_failed j worker error retry_at) rows =
      ids-update_owned j worker (rescheduled error retry_at) rows (λ s. refl)
  ids-run (marks_dead j worker error) rows =
      ids-update_owned j worker (buried error) rows (λ s. refl)

  -- A worker's mark takes effect exactly where the row is still its own: the worker that lost its
  -- lease to another gets `False`, and the other's row stays as it is.
  pub mark_done-holder :
      (i worker : ℕ) (rows : List (Row P)) {r : Row P}
      → IsDistinct (ids rows)
      → get_row i rows ≡ some r
      → ((mark_done i worker rows).1 ≡ is_owned i worker r)
        × (get_row i (mark_done i worker rows).0
            ≡ some (if is_owned i worker r then finished r else r))
  unfolding mark_done
  mark_done-holder i worker rows distinct at = (
    any_owned-get_row i worker rows distinct at,
    get_row-update_owned i worker finished rows i (λ s. refl) at,
  )

  run-holds :
      (op : Op) (rows : List (Row P)) (i worker until : ℕ) {r : Row P}
      → IsDistinct (ids rows)
      → get_row i rows ≡ some r
      → holds worker until r ≡ true
      → is_before_or_other worker until op ≡ true
      → get_row i (run op rows) ≡ some r
  unfolding claim_next mark_done mark_failed mark_dead_letter is_owned is_due
  run-holds (claims locked w batch_size lease now) rows i worker until {r} d at h k = ground (
    arith,
    chosen-is_due locked batch_size now rows i d at,
    get_row-update_in (chosen locked batch_size now rows) (stamp w (now + lease)) rows i (λ s. refl)
        at,
  )
  run-holds (marks_done j w) rows i worker until d at h k =
      ground (arith, get_row-update_owned j w finished rows i (λ s. refl) at)
  run-holds (marks_failed j w error retry_at) rows i worker until d at h k =
      ground (arith, get_row-update_owned j w (rescheduled error retry_at) rows i (λ s. refl) at)
  run-holds (marks_dead j w error) rows i worker until d at h k =
      ground (arith, get_row-update_owned j w (buried error) rows i (λ s. refl) at)

  -- Until its lease ends, a claimed row belongs to the worker alone: whatever sequence of claims
  -- and of marks by other workers follows before then, the row stays as the worker left it.
  pub run_all-holds :
      (ops : List Op) (rows : List (Row P)) (i worker until : ℕ) {r : Row P}
      → IsDistinct (ids rows)
      → get_row i rows ≡ some r
      → holds worker until r ≡ true
      → All (λ op. is_before_or_other worker until op ≡ true) ops
      → get_row i (run_all ops rows) ≡ some r
  run_all-holds [] rows i worker until d at h k = at
  run_all-holds (op ∷ ops) rows i worker until d at h k =
      run_all-holds ops (run op rows) i worker until (rw (ids-run op rows) d)
        (run-holds op rows i worker until d at h k.0) h k.1

  pub ids-run_all : (ops : List Op) (rows : List (Row P)) → ids (run_all ops rows) ≡ ids rows
  ids-run_all [] rows = refl
  ids-run_all (op ∷ ops) rows = ids-run_all ops (run op rows) ∙ ids-run op rows

  -- A row that is done or dead-lettered stays as it is, whatever operations follow.
  pub run_all-final :
      (ops : List Op) (rows : List (Row P)) (i : ℕ) {r : Row P}
      → IsDistinct (ids rows)
      → get_row i rows ≡ some r
      → is_final r.status ≡ true
      → get_row i (run_all ops rows) ≡ some r
  run_all-final [] rows i d at h = at
  run_all-final (op ∷ ops) rows i d at h =
      let (s, later, same) = run-IsLater op rows i d at in
      run_all-final ops (run op rows) i (rw (ids-run op rows) d) (ground arith) h

  -- Only `mark_done` makes a row done.
  pub run-is_done :
      (op : Op) (rows : List (Row P)) (i : ℕ) {r s : Row P}
      → IsDistinct (ids rows)
      → finishes op ≡ false
      → get_row i rows ≡ some r
      → get_row i (run op rows) ≡ some s
      → (is_done s.status ≡ is_done r.status) × (s.content ≡ r.content)
  unfolding claim_next mark_done mark_failed mark_dead_letter is_owned is_due
  run-is_done (claims locked w batch_size lease now) rows i {r} {s} d f at later = ground (
    arith,
    chosen-is_due locked batch_size now rows i d at,
    get_row-update_in (chosen locked batch_size now rows) (stamp w (now + lease)) rows i (λ s. refl)
        at,
  )
  run-is_done (marks_done j w) rows i d f at later = cc
  run-is_done (marks_failed j w error retry_at) rows i d f at later =
      ground (arith, get_row-update_owned j w (rescheduled error retry_at) rows i (λ s. refl) at)
  run-is_done (marks_dead j w error) rows i d f at later =
      ground (arith, get_row-update_owned j w (buried error) rows i (λ s. refl) at)

  -- A mark that succeeds finds the row, held by the worker.
  pub mark_done-won :
      (i worker : ℕ) (rows : List (Row P))
      → IsDistinct (ids rows)
      → (mark_done i worker rows).1 ≡ true
      → (r : Row P) × (get_row i rows ≡ some r) × (is_owned i worker r ≡ true)
  unfolding mark_done
  mark_done-won i worker rows d won = elim (Bool-cases (member (ids rows) i)) [
    | inl there ↦
        let (r, at) = ids-get_row rows i there in
        (r, at, sym (any_owned-get_row i worker rows d at) ∙ won)
    | inr gone ↦ absurd (ground (arith, any_owned_absent i worker rows gone))
  ]

  -- A row of the table after a mark, from the same row before it.
  pub mark_done-before :
      (i worker : ℕ) (rows : List (Row P)) (j : ℕ) {s : Row P}
      → get_row j (mark_done i worker rows).0 ≡ some s
      → (r : Row P) × (get_row j rows ≡ some r)
        × (r.row_id ≡ j)
        × (s ≡ (if is_owned i worker r then finished r else r))
        × (s.content ≡ r.content)
  unfolding mark_done
  mark_done-before i worker rows j at =
      let (r, before) =
        get_row-before rows (mark_done i worker rows).0 j (ids-run (marks_done i worker) rows) at in
      let after = get_row-update_owned i worker finished rows j (λ s. refl) before in
      (r, before, (member-get_row rows j before).0, ground arith, ground arith)
