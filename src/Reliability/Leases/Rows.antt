-- ===== src/Reliability/Leases/Rows.antt =====
-- The row of an identifier, before and after each operation on a table under leases.
use hotelops_ai.Prelude.{
  ℕ, zero, suc, ◌≡◌, refl, Bool, true, false, not, ◌&&◌, ◌||◌, some, List, [], ◌∷◌, ◌++◌, ◌==◌,
  if◌then◌else◌, arith, sym, Bool-cases, ◌⊎◌, inl, inr,
}
use hotelops_ai.Prelude.Sets.{member, IsDistinct}
use hotelops_ai.Reliability.Leases.{
  Row, take, get_row, is_due, due_rows, insert_by_time, by_time, ids, chosen, update_in,
  update_owned, any_owned, is_owned,
}

member-take : (n : ℕ) (xs : List ℕ) (a : ℕ) → member (take n xs) a ≡ true → member xs a ≡ true
unfolding member
member-take zero xs a h = cc
member-take (suc n) [] a h = cc
member-take (suc n) (x ∷ xs) a h = ground (arith, member-take n xs a)

module _ {P : Type 0} where
  member-insert_by_time :
      (r : Row P) (rows : List (Row P)) (a : ℕ)
      → member (ids (insert_by_time r rows)) a ≡ (r.row_id == a || member (ids rows) a)
  unfolding member
  member-insert_by_time r [] a = ground arith
  member-insert_by_time r (x ∷ rows) a = ground (arith, member-insert_by_time r rows a)

  pub member-by_time :
      (rows : List (Row P)) (a : ℕ) → member (ids (by_time rows)) a ≡ member (ids rows) a
  unfolding member by_time
  member-by_time [] a = refl
  member-by_time (r ∷ rows) a =
      ground (arith, member-insert_by_time r (by_time rows) a, member-by_time rows a)

  pub member-due_rows :
      (locked : ℕ → Bool) (now : ℕ) (rows : List (Row P)) (a : ℕ)
      → member (ids (due_rows locked now rows)) a ≡ true
      → member (ids rows) a ≡ true
  unfolding member due_rows
  member-due_rows locked now [] a h = cc
  member-due_rows locked now (r ∷ rows) a h = ground (arith, member-due_rows locked now rows a)

  get_row-due_rows :
      (locked : ℕ → Bool) (now : ℕ) (rows : List (Row P)) (i : ℕ) {r : Row P}
      → IsDistinct (ids rows)
      → get_row i rows ≡ some r
      → member (ids (due_rows locked now rows)) i ≡ true
      → (is_due now r && not (locked i)) ≡ true
  unfolding member due_rows
  get_row-due_rows locked now [] i {r} d at h = cc
  get_row-due_rows locked now (x ∷ rows) i {r} d at h =
      ground
        (arith, member-due_rows locked now rows i, get_row-due_rows locked now rows i {r = r} d.1)

  -- A row that a claim picks is due, and no other transaction holds it.
  pub chosen-is_due :
      (locked : ℕ → Bool) (batch_size now : ℕ) (rows : List (Row P)) (i : ℕ) {r : Row P}
      → IsDistinct (ids rows)
      → get_row i rows ≡ some r
      → member (chosen locked batch_size now rows) i ≡ true
      → (is_due now r && not (locked i)) ≡ true
  unfolding chosen
  chosen-is_due locked batch_size now rows i d at h = get_row-due_rows locked now rows i d at (
      rw (sym (member-by_time (due_rows locked now rows) i))
        (member-take batch_size (ids (by_time (due_rows locked now rows))) i h))

  pub get_row-update_in :
      (picked : List ℕ) (f : Row P → Row P) (rows : List (Row P)) (i : ℕ) {r : Row P}
      → ((s : Row P) → (f s).row_id ≡ s.row_id)
      → get_row i rows ≡ some r
      → get_row i (update_in picked f rows) ≡ some (if member picked i then f r else r)
  get_row-update_in picked f [] i same at = cc
  get_row-update_in picked f (x ∷ rows) i {r} same at =
      ground (arith, same x, get_row-update_in picked f rows i {r = r} same)

  pub get_row-update_owned :
      (j worker : ℕ) (f : Row P → Row P) (rows : List (Row P)) (i : ℕ) {r : Row P}
      → ((s : Row P) → (f s).row_id ≡ s.row_id)
      → get_row i rows ≡ some r
      → get_row i (update_owned j worker f rows) ≡ some (if is_owned j worker r then f r else r)
  get_row-update_owned j worker f [] i same at = cc
  get_row-update_owned j worker f (x ∷ rows) i {r} same at =
      ground (arith, same x, get_row-update_owned j worker f rows i {r = r} same)

  pub ids-update_in :
      (picked : List ℕ) (f : Row P → Row P) (rows : List (Row P))
      → ((s : Row P) → (f s).row_id ≡ s.row_id)
      → ids (update_in picked f rows) ≡ ids rows
  ids-update_in picked f [] same = refl
  ids-update_in picked f (x ∷ rows) same = ground (arith, same x, ids-update_in picked f rows same)

  pub ids-update_owned :
      (j worker : ℕ) (f : Row P → Row P) (rows : List (Row P))
      → ((s : Row P) → (f s).row_id ≡ s.row_id)
      → ids (update_owned j worker f rows) ≡ ids rows
  ids-update_owned j worker f [] same = refl
  ids-update_owned j worker f (x ∷ rows) same =
      ground (arith, same x, ids-update_owned j worker f rows same)

  pub member-get_row :
      (rows : List (Row P)) (i : ℕ) {r : Row P}
      → get_row i rows ≡ some r
      → (r.row_id ≡ i) × (member (ids rows) i ≡ true)
  unfolding member
  member-get_row [] i at = cc
  member-get_row (x ∷ rows) i {r} at = ground (arith, member-get_row rows i {r = r})

  pub any_owned_absent :
      (i worker : ℕ) (rows : List (Row P))
      → member (ids rows) i ≡ false
      → any_owned i worker rows ≡ false
  unfolding member is_owned
  any_owned_absent i worker [] h = refl
  any_owned_absent i worker (x ∷ rows) h = ground (arith, any_owned_absent i worker rows)

  -- Who may mark a row is the one who holds it.
  pub any_owned-get_row :
      (i worker : ℕ) (rows : List (Row P)) {r : Row P}
      → IsDistinct (ids rows)
      → get_row i rows ≡ some r
      → any_owned i worker rows ≡ is_owned i worker r
  unfolding is_owned
  any_owned-get_row i worker [] d at = cc
  any_owned-get_row i worker (x ∷ rows) {r} d at = ground (
    arith,
    any_owned_absent i worker rows,
    any_owned-get_row i worker rows {r = r} d.1,
    member-get_row rows i {r = r},
  )

  pub ids-get_row :
      (rows : List (Row P)) (i : ℕ)
      → member (ids rows) i ≡ true
      → (r : Row P) × (get_row i rows ≡ some r)
  unfolding member
  ids-get_row [] i h = cc
  ids-get_row (x ∷ rows) i h = elim (Bool-cases (x.row_id == i)) [
    | inl here ↦ (x, ground arith)
    | inr apart ↦ let (r, at) = ids-get_row rows i (ground arith) in (r, ground arith)
  ]

  -- A row after an operation that keeps the identifiers was there before it.
  pub get_row-before :
      (rows after : List (Row P)) (i : ℕ) {s : Row P}
      → ids after ≡ ids rows
      → get_row i after ≡ some s
      → (r : Row P) × (get_row i rows ≡ some r)
  get_row-before rows after i same at =
      ids-get_row rows i (rw (sym same) (member-get_row after i at).1)

  pub member-ids-append :
      (rows : List (Row P)) (x : Row P) (i : ℕ)
      → member (ids (rows ++ (x ∷ []))) i ≡ (member (ids rows) i || x.row_id == i)
  unfolding member
  member-ids-append [] x i = ground arith
  member-ids-append (y ∷ rows) x i = ground (arith, member-ids-append rows x i)

  pub ids-append-IsDistinct :
      (rows : List (Row P)) (x : Row P)
      → IsDistinct (ids rows)
      → member (ids rows) x.row_id ≡ false
      → IsDistinct (ids (rows ++ (x ∷ [])))
  unfolding member
  ids-append-IsDistinct [] x d h = (refl, tt)
  ids-append-IsDistinct (y ∷ rows) x d h = (
    ground (arith, member-ids-append rows x y.row_id),
    ids-append-IsDistinct rows x d.1 (ground arith),
  )

  -- The row of an identifier once a row is added at the end.
  pub get_row-append :
      (rows : List (Row P)) (x : Row P) (i : ℕ) {s : Row P}
      → get_row i (rows ++ (x ∷ [])) ≡ some s
      → (get_row i rows ≡ some s) ⊎ ((x.row_id ≡ i) × (s ≡ x))
  get_row-append [] x i h = ground arith
  get_row-append (y ∷ rows) x i {s} h = ground (arith, get_row-append rows x i {s = s})
