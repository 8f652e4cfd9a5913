-- ===== src/Reliability/Leases.antt =====
-- Rows that workers claim under a lease: the data operations of
-- backend/app/infrastructure/database/repositories/outbox.py, which those of
-- backend/app/infrastructure/database/repositories/inbox.py repeat for its own table. A table is
-- the list of its rows. `done` is the status "published" of the outbox and "processed" of the
-- inbox. An error text is the list of its code points.
pub mod Rows
pub mod History
pub mod Claims
pub mod Recovery
use hotelops_ai.Prelude.{
  ℕ, zero, suc, ◌+◌, ◌≡◌, Bool, true, false, not, ◌&&◌, ◌||◌, Option, none, some, List, [], ◌∷◌,
  map, leb, ◌==◌, if◌then◌else◌,
}
use hotelops_ai.Prelude.Sets.{member}

pub data Status : Type 0 where
  pending processing failed done dead_letter : Status

pub record Row (P : Type 0) : Type 0 where
  pub row_id : ℕ
  pub status : Status
  pub attempts : ℕ
  pub available_at : ℕ
  pub claimed_by : Option ℕ
  pub claimed_until : Option ℕ
  pub last_error : Option (List ℕ)
  pub content : P

abbrev pub is_done : Status → Bool
is_done done = true
is_done _ = false

-- A status that no operation leaves.
abbrev pub is_final : Status → Bool
is_final done = true
is_final dead_letter = true
is_final _ = false

-- The condition of the trigger functions of database/migrations/versions/
-- 016_outbox_retry_idempotency.py, which refuse any other change of a status.
unfoldable pub is_allowed : Status → Status → Bool
is_allowed pending pending = true
is_allowed pending processing = true
is_allowed pending failed = true
is_allowed processing processing = true
is_allowed processing done = true
is_allowed processing failed = true
is_allowed processing pending = true
is_allowed processing dead_letter = true
is_allowed failed failed = true
is_allowed failed pending = true
is_allowed failed processing = true
is_allowed failed dead_letter = true
is_allowed done done = true
is_allowed dead_letter dead_letter = true
is_allowed _ _ = false

-- `_CLAIMABLE_STATUSES`
abbrev pub is_claimable : Status → Bool
is_claimable pending = true
is_claimable failed = true
is_claimable processing = true
is_claimable _ = false

abbrev pub is_processing : Status → Bool
is_processing processing = true
is_processing _ = false

abbrev pub take {ℓ} : {A : Type ℓ} → ℕ → List A → List A
take zero xs = []
take (suc n) [] = []
take (suc n) (x ∷ xs) = x ∷ take n xs

-- `_truncate_error`
abbrev pub truncate_error : List ℕ → List ℕ
truncate_error error = take 2000 error

abbrev no_lease : Option ℕ → ℕ → Bool
no_lease none now = true
no_lease (some until) now = leb until now

abbrev pub is_held_by : ℕ → Option ℕ → Bool
is_held_by worker none = false
is_held_by worker (some w) = w == worker

module _ {P : Type 0} where
  abbrev pub get_row : ℕ → List (Row P) → Option (Row P)
  get_row i [] = none
  get_row i (r ∷ rows) = if r.row_id == i then some r else get_row i rows

  -- The condition of the claim's inner query.
  unfoldable pub is_due : ℕ → Row P → Bool
  is_due now r = is_claimable r.status && leb r.available_at now && no_lease r.claimed_until now

  -- The rows that the inner query finds; those that another transaction has locked are skipped.
  unfoldable pub due_rows : (ℕ → Bool) → ℕ → List (Row P) → List (Row P)
  due_rows locked now [] = []
  due_rows locked now (r ∷ rows) =
      let rest = due_rows locked now rows in
      if is_due now r && not (locked r.row_id) then r ∷ rest else rest

  abbrev pub insert_by_time : Row P → List (Row P) → List (Row P)
  insert_by_time r [] = r ∷ []
  insert_by_time r (x ∷ rows) =
      let rest = insert_by_time r rows in
      if leb r.available_at x.available_at then r ∷ x ∷ rows else x ∷ rest

  -- `order_by(available_at.asc())`
  unfoldable pub by_time : List (Row P) → List (Row P)
  by_time [] = []
  by_time (r ∷ rows) = insert_by_time r (by_time rows)

  abbrev pub ids : List (Row P) → List ℕ
  ids [] = []
  ids (r ∷ rows) = r.row_id ∷ ids rows

  unfoldable pub chosen : (ℕ → Bool) → ℕ → ℕ → List (Row P) → List ℕ
  chosen locked batch_size now rows = take batch_size (ids (by_time (due_rows locked now rows)))

  -- The values of the claim's update.
  abbrev pub stamp : ℕ → ℕ → Row P → Row P
  stamp worker until r = record r {
    status = processing;
    claimed_by = some worker;
    claimed_until = some until;
    attempts = r.attempts + 1;
  }

  abbrev pub update_in : List ℕ → (Row P → Row P) → List (Row P) → List (Row P)
  update_in picked f [] = []
  update_in picked f (r ∷ rows) =
      (if member picked r.row_id then f r else r) ∷ update_in picked f rows

  abbrev pub returned : List ℕ → List (Row P) → List (Row P)
  returned picked [] = []
  returned picked (r ∷ rows) =
      let rest = returned picked rows in if member picked r.row_id then r ∷ rest else rest

  -- `claim_next`: the table after it, and the claimed rows.
  unfoldable pub claim_next :
      (ℕ → Bool) → ℕ → ℕ → ℕ → ℕ → List (Row P) → List (Row P) × List (Row P)
  claim_next locked worker batch_size lease now rows =
      let picked = chosen locked batch_size now rows in
      let after = update_in picked (stamp worker (now + lease)) rows in
      (after, returned picked after)

  -- The condition of the three result transitions.
  unfoldable pub is_owned : ℕ → ℕ → Row P → Bool
  is_owned i worker r = r.row_id == i && is_processing r.status && is_held_by worker r.claimed_by

  abbrev pub update_owned : ℕ → ℕ → (Row P → Row P) → List (Row P) → List (Row P)
  update_owned i worker f [] = []
  update_owned i worker f (r ∷ rows) =
      (if is_owned i worker r then f r else r) ∷ update_owned i worker f rows

  -- Whether the update returned a row.
  abbrev pub any_owned : ℕ → ℕ → List (Row P) → Bool
  any_owned i worker [] = false
  any_owned i worker (r ∷ rows) = is_owned i worker r || any_owned i worker rows

  abbrev release : Status → Row P → Row P
  release status r = record r { status = status; claimed_by = none; claimed_until = none }

  -- The values that each update writes.
  abbrev pub finished : Row P → Row P
  finished r = release done r

  abbrev pub rescheduled : List ℕ → ℕ → Row P → Row P
  rescheduled error retry_at r = record (release failed r) {
    available_at = retry_at;
    last_error = some (truncate_error error);
  }

  abbrev pub buried : List ℕ → Row P → Row P
  buried error r = record (release dead_letter r) { last_error = some (truncate_error error) }

  -- `mark_published`, and `mark_processed` of the inbox: the table after it, and the result.
  unfoldable pub mark_done : ℕ → ℕ → List (Row P) → List (Row P) × Bool
  mark_done i worker rows = (update_owned i worker finished rows, any_owned i worker rows)

  unfoldable pub mark_failed : ℕ → ℕ → List ℕ → ℕ → List (Row P) → List (Row P) × Bool
  mark_failed i worker error retry_at rows =
      (update_owned i worker (rescheduled error retry_at) rows, any_owned i worker rows)

  unfoldable pub mark_dead_letter : ℕ → ℕ → List ℕ → List (Row P) → List (Row P) × Bool
  mark_dead_letter i worker error rows =
      (update_owned i worker (buried error) rows, any_owned i worker rows)
