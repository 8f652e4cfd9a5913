-- ===== src/Reliability/Leases/Recovery.antt =====
-- Which of the rows that wait a claim takes: the oldest, up to the size of the batch.
use hotelops_ai.Prelude.{
  ℕ, zero, suc, ◌≤◌, ◌≡◌, refl, ◌⊎◌, inl, inr, Bool, true, false, not, ◌&&◌, none, some, List, [],
  All, ◌+◌, ◌∷◌, length, leb, ◌==◌, if◌then◌else◌, arith, ap, ◌∙◌, Bool-cases,
}
use hotelops_ai.Prelude.Sets.{member, IsDistinct}
use hotelops_ai.Reliability.Leases.{
  Row, pending, failed, processing, take, get_row, is_due, due_rows, insert_by_time, by_time, ids,
  chosen, claim_next, returned, update_in, stamp,
}
use hotelops_ai.Reliability.Leases.Rows.{
  chosen-is_due, member-get_row, member-by_time, member-due_rows,
}
use hotelops_ai.Reliability.Leases.Claims.{claimed-chosen}

module _ {P : Type 0} where
  -- A row that no worker has: one that was never claimed, one whose retry is due, and the row of a
  -- worker that stopped, whose lease has ended.
  pub data IsWaiting (now : ℕ) (r : Row P) : Type 0 where
    unclaimed : r.status ≡ pending → r.claimed_until ≡ none → r.available_at ≤ now → IsWaiting now r
    retried : r.status ≡ failed → r.claimed_until ≡ none → r.available_at ≤ now → IsWaiting now r
    abandoned :
        (until : ℕ)
        → r.status ≡ processing
        → r.claimed_until ≡ some until
        → until ≤ now
        → r.available_at ≤ now
        → IsWaiting now r

  waiting-is_due : (now : ℕ) (r : Row P) → IsWaiting now r → is_due now r ≡ true
  unfolding is_due
  waiting-is_due now r (unclaimed status lease at) = ground arith
  waiting-is_due now r (retried status lease at) = ground arith
  waiting-is_due now r (abandoned until status lease ended at) = ground arith

  -- No row of a table is older than a time.
  abbrev AreFrom : ℕ → List (Row P) → Type 0
  AreFrom t [] = Unit
  AreFrom t (x ∷ rows) = (t ≤ x.available_at) × AreFrom t rows

  abbrev IsSorted : List (Row P) → Type 0
  IsSorted [] = Unit
  IsSorted (x ∷ rows) = AreFrom x.available_at rows × IsSorted rows

  AreFrom-later : (s t : ℕ) (rows : List (Row P)) → s ≤ t → AreFrom t rows → AreFrom s rows
  AreFrom-later s t [] h from = tt
  AreFrom-later s t (x ∷ rows) h from = (omega (arith, from.0), AreFrom-later s t rows h from.1)

  AreFrom-get_row :
      (t i : ℕ) (rows : List (Row P)) {r : Row P}
      → AreFrom t rows
      → get_row i rows ≡ some r
      → t ≤ r.available_at
  AreFrom-get_row t i [] from at = cc
  AreFrom-get_row t i (x ∷ rows) {r} from at =
      ground (arith, from.0, AreFrom-get_row t i rows {r = r} from.1)

  insert_by_time-AreFrom :
      (t : ℕ) (r : Row P) (rows : List (Row P))
      → t ≤ r.available_at
      → AreFrom t rows
      → AreFrom t (insert_by_time r rows)
  insert_by_time-AreFrom t r [] h from = (h, tt)
  insert_by_time-AreFrom t r (x ∷ rows) h from =
      elim (Bool-cases (leb r.available_at x.available_at)) [
        | inl early ↦ rw early (h, from)
        | inr late ↦ rw late (from.0, insert_by_time-AreFrom t r rows h from.1)
      ]

  insert_by_time-IsSorted :
      (r : Row P) (rows : List (Row P)) → IsSorted rows → IsSorted (insert_by_time r rows)
  insert_by_time-IsSorted r [] sorted = (tt, tt)
  insert_by_time-IsSorted r (x ∷ rows) sorted =
      elim (Bool-cases (leb r.available_at x.available_at)) [
        | inl early ↦
            let first : r.available_at ≤ x.available_at = ground arith in
            rw early
              ((first, AreFrom-later r.available_at x.available_at rows first sorted.0), sorted)
        | inr late ↦ rw late (
          insert_by_time-AreFrom x.available_at r rows (ground arith) sorted.0,
          insert_by_time-IsSorted r rows sorted.1,
        )
      ]

  by_time-IsSorted : (rows : List (Row P)) → IsSorted (by_time rows)
  unfolding by_time
  by_time-IsSorted [] = tt
  by_time-IsSorted (r ∷ rows) = insert_by_time-IsSorted r (by_time rows) (by_time-IsSorted rows)

  get_row-insert_by_time :
      (i : ℕ) (r : Row P) (rows : List (Row P))
      → member (ids rows) r.row_id ≡ false
      → get_row i (insert_by_time r rows) ≡ (if r.row_id == i then some r else get_row i rows)
  unfolding member
  get_row-insert_by_time i r [] fresh = ground arith
  get_row-insert_by_time i r (x ∷ rows) fresh = ground (arith, get_row-insert_by_time i r rows)

  get_row-by_time :
      (i : ℕ) (rows : List (Row P))
      → IsDistinct (ids rows)
      → get_row i (by_time rows) ≡ get_row i rows
  unfolding by_time
  get_row-by_time i [] d = refl
  get_row-by_time i (r ∷ rows) d =
      get_row-insert_by_time i r (by_time rows) (member-by_time rows r.row_id ∙ d.0)
      ∙ ap (λ x. if r.row_id == i then some r else x) (get_row-by_time i rows d.1)

  due_rows-IsDistinct :
      (locked : ℕ → Bool) (now : ℕ) (rows : List (Row P))
      → IsDistinct (ids rows)
      → IsDistinct (ids (due_rows locked now rows))
  unfolding due_rows
  due_rows-IsDistinct locked now [] d = tt
  due_rows-IsDistinct locked now (r ∷ rows) d =
      elim (Bool-cases (is_due now r && not (locked r.row_id))) [
        | inr skipped ↦ rw skipped (due_rows-IsDistinct locked now rows d.1)
        | inl taken ↦ rw taken (
          ground (arith, d.0, member-due_rows locked now rows r.row_id),
          due_rows-IsDistinct locked now rows d.1,
        )
      ]

  get_row-due :
      (locked : ℕ → Bool) (now : ℕ) (rows : List (Row P)) (i : ℕ) {r : Row P}
      → get_row i rows ≡ some r
      → (is_due now r && not (locked i)) ≡ true
      → get_row i (due_rows locked now rows) ≡ some r
  unfolding due_rows
  get_row-due locked now [] i at due = cc
  get_row-due locked now (x ∷ rows) i {r} at due =
      ground (arith, get_row-due locked now rows i {r = r})

  -- The row that a claim's inner query finds in its order.
  get_row-found :
      (locked : ℕ → Bool) (now : ℕ) (rows : List (Row P)) (i : ℕ) {r : Row P}
      → IsDistinct (ids rows)
      → get_row i rows ≡ some r
      → (is_due now r && not (locked i)) ≡ true
      → get_row i (by_time (due_rows locked now rows)) ≡ some r
  get_row-found locked now rows i d at due =
      get_row-by_time i (due_rows locked now rows) (due_rows-IsDistinct locked now rows d)
      ∙ get_row-due locked now rows i at due

  -- What a limit takes of a sorted table: a row, or as many as it may, none of them younger.
  take-oldest :
      (n : ℕ) (rows : List (Row P)) (i : ℕ) {r : Row P}
      → IsSorted rows
      → get_row i rows ≡ some r
      → (member (take n (ids rows)) i ≡ true)
        ⊎ ((length (take n (ids rows)) ≡ n)
            × ((j : ℕ) (q : Row P)
                → get_row j rows ≡ some q
                → member (take n (ids rows)) j ≡ true
                → q.available_at ≤ r.available_at))
  unfolding member
  take-oldest n [] i sorted at = cc
  take-oldest zero (x ∷ rows) i sorted at = inr (refl, λ j q at' taken. cc)
  take-oldest (suc n) (x ∷ rows) i {r} sorted at = elim (Bool-cases (x.row_id == i)) [
    | inl here ↦ inl (ground arith)
    | inr apart ↦
        let later : get_row i rows ≡ some r = ground arith in
        elim (take-oldest n rows i {r = r} sorted.1 later) [
          | inl taken ↦ inl (ground arith)
          | inr (full, older) ↦ inr (
            ap suc full,
            λ j q at' taken. elim (Bool-cases (x.row_id == j)) [
              | inl first ↦
                  ground (arith, AreFrom-get_row x.available_at i rows {r = r} sorted.0 later)
              | inr other ↦ older j q (ground arith) (ground arith)
            ],
          )
        ]
  ]

  returned-All :
      (t worker until : ℕ) (picked : List ℕ) (rows : List (Row P))
      → IsDistinct (ids rows)
      → ((j : ℕ) (q : Row P)
          → get_row j rows ≡ some q
          → member picked j ≡ true
          → q.available_at ≤ t)
      → All (λ q. q.available_at ≤ t) (returned picked (update_in picked (stamp worker until) rows))
  returned-All t worker until picked [] d h = tt
  returned-All t worker until picked (x ∷ rows) d h =
      let later =
        returned-All t worker until picked rows d.1
          (λ j q at taken. h j q (ground (arith, d.0, member-get_row rows j {r = q} at)) taken) in
      elim (Bool-cases (member picked x.row_id)) [
        | inl taken ↦ rw (taken, taken) (h x.row_id x (ground arith) taken, later)
        | inr skipped ↦ rw (skipped, skipped) later
      ]

  -- Recovery: a claim takes a row that waits and that no other transaction has locked, or it takes
  -- a full batch of rows that are all available no later than this one. A row waits when it was
  -- never claimed, when its retry is due, and when it is the row of a worker that stopped, whose
  -- lease has ended. The identifiers of the table are distinct.
  pub claim_next-oldest_first :
      (locked : ℕ → Bool) (worker batch_size lease now : ℕ) (rows : List (Row P)) (i : ℕ)
      {r : Row P}
      → IsDistinct (ids rows)
      → get_row i rows ≡ some r
      → IsWaiting now r
      → locked i ≡ false
      → (member (ids (claim_next locked worker batch_size lease now rows).1) i ≡ true)
        ⊎ ((length (chosen locked batch_size now rows) ≡ batch_size)
            × All
                (λ q. q.available_at ≤ r.available_at)
                (claim_next locked worker batch_size lease now rows).1)
  unfolding chosen claim_next
  claim_next-oldest_first locked worker batch_size lease now rows i {r} d at waits free =
      let found = by_time (due_rows locked now rows) in
      let due : (is_due now r && not (locked i)) ≡ true =
        ground (arith, waiting-is_due now r waits) in
      elim (take-oldest batch_size found i (by_time-IsSorted (due_rows locked now rows))
        (get_row-found locked now rows i d at due)) [
          | inl taken ↦ inl (
              ground (
                arith,
                claimed-chosen locked worker batch_size lease now rows i,
                member-get_row rows i at,
              ))
          | inr (full, older) ↦ inr (
            full,
            returned-All r.available_at worker (now + lease) (chosen locked batch_size now rows)
                rows d
                (λ j q at' picked.
                  older j q
                    (get_row-found locked now rows j d at'
                      (chosen-is_due locked batch_size now rows j d at' picked))
                    picked),
          )
        ]
