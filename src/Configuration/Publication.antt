-- ===== src/Configuration/Publication.antt =====
-- Sequences of calls of the configuration service: how a version moves, and what a published one
-- keeps. The calls run one after another, but a call of `update_draft` may write at any later time,
-- with the row that it read, to a version that is still a draft. A write to a version that other
-- calls have moved on in the meantime is not a step: it has no condition on the status and would
-- change a published version.
use hotelops_ai.Prelude.{
  ℕ, ◌≡◌, ◌⊎◌, inl, inr, true, false, some, List, [], ◌∷◌, ◌++◌, ok, arith, sym, ap, ◌∙◌,
}
use hotelops_ai.Prelude.Sets.{member, IsDistinct}
use hotelops_ai.Access.{Actor}
use hotelops_ai.Configuration.Machine.{is_published, is_draft, draft}
use hotelops_ai.Configuration.Service.{
  VersionRow, Store, create_draft, create_draft_from_version, update_draft, write_draft,
  start_validation_of, run_validation, publish,
}
use hotelops_ai.Configuration.Versions.{
  ids, row_of, IsChecked, IsMove, IsMove-refl, member-row_of, row_of-append, update-IsMove,
  ids-update, ids-row_of, row_of-append_cases, ids-append-IsDistinct,
}
use hotelops_ai.Configuration.Moves.{
  IsUpdate, publish-IsUpdate, update_draft-IsUpdate, write_draft-IsUpdate, start-IsUpdate,
  run_validation-IsUpdate, create_draft-after, clone-after,
}

-- One call that succeeds, or a late write of `update_draft` to what is still a draft. The identifier of a new version is fresh.
pub data Step (revision : ℕ → ℕ → ℕ) : Store → Store → Type 0 where
  creates :
      (actor : Actor) (venue new_configuration_id new_version_id : ℕ) {s after : Store}
      {row : VersionRow}
      → member (ids s.versions) new_version_id ≡ false
      → create_draft actor venue new_configuration_id new_version_id s ≡ ok (after, row)
      → Step revision s after
  clones :
      (actor : Actor) (source_id new_version_id : ℕ) {s after : Store} {row : VersionRow}
      → member (ids s.versions) new_version_id ≡ false
      → create_draft_from_version actor source_id new_version_id s ≡ ok (after, row)
      → Step revision s after
  edits :
      (actor : Actor) (id : ℕ) (change : ℕ → ℕ) {s after : Store}
      → update_draft actor id change s ≡ ok after
      → Step revision s after
  edits_late :
      (change : ℕ → ℕ) (row : VersionRow) {s after : Store} {current : VersionRow}
      → row_of row.version_id s.versions ≡ some current
      → is_draft current.status ≡ true
      → write_draft change row s ≡ ok after
      → Step revision s after
  starts :
      (actor : Actor) (id : ℕ) {s after : Store}
      → start_validation_of actor id s ≡ ok after
      → Step revision s after
  validates :
      (actor : Actor) (id by : ℕ) (errors : List ℕ) {s after : Store}
      → run_validation revision actor id by errors s ≡ ok after
      → Step revision s after
  publishes :
      (actor : Actor) (id by now : ℕ) {s after : Store}
      → publish revision actor id by now s ≡ ok after
      → Step revision s after

pub data Reach (revision : ℕ → ℕ → ℕ) : Store → Type 0 where
  start : Reach revision (record { configurations = []; versions = [] })
  later : {s after : Store} → Reach revision s → Step revision s after → Reach revision after

-- A new draft at the end.
IsNew : Store → Store → Type 0
IsNew s after =
    (x : VersionRow) × (after.versions ≡ s.versions ++ (x ∷ []))
    × (member (ids s.versions) x.version_id ≡ false)
    × (x.status ≡ draft)

Step-cases :
    (revision : ℕ → ℕ → ℕ) {s after : Store}
    → IsDistinct (ids s.versions)
    → Step revision s after
    → IsUpdate revision s after ⊎ IsNew s after
unfolding IsNew
Step-cases revision {s} d (creates actor venue c v {row = row} fresh h) =
    let (grown, named, status) = create_draft-after actor venue c v s h in
    inr (row, grown, rw named fresh, status)
Step-cases revision {s} d (clones actor source v {row = row} fresh h) =
    let (grown, named, status) = clone-after actor source v s h in
    inr (row, grown, rw named fresh, status)
Step-cases revision {s} d (edits actor id change h) =
    inl (update_draft-IsUpdate revision actor id change s d h)
Step-cases revision {s} d (edits_late change row there still h) =
    inl (write_draft-IsUpdate revision change row s there still h)
Step-cases revision {s} d (starts actor id h) = inl (start-IsUpdate revision actor id s h)
Step-cases revision {s} d (validates actor id by errors h) =
    inl (run_validation-IsUpdate revision actor id by errors s h)
Step-cases revision {s} d (publishes actor id by now h) =
    inl (publish-IsUpdate revision actor id by now s d h)

-- What one call does to the version of an identifier, where calls run one after another, or a call
-- of `update_draft` writes late to a version that is still a draft: a version is never lost, keeps
-- its number and its configuration, moves only along the table of the state machine, stays exactly
-- as it is once it is published, and becomes published only with a validation of its current
-- content without errors.
pub version-IsMove :
    (revision : ℕ → ℕ → ℕ) (i : ℕ) {s after : Store} {r : VersionRow}
    → IsDistinct (ids s.versions)
    → Step revision s after
    → row_of i s.versions ≡ some r
    → (q : VersionRow) × (row_of i after.versions ≡ some q) × IsMove revision r q
unfolding IsNew
version-IsMove revision i {s} {after} {r} d step at = elim (Step-cases revision d step) [
  | inl u ↦
      rw u.written
        (update-IsMove revision u.condition u.change i s.versions u.same_id at (u.moves i at))
  | inr (x, grown, fresh, status) ↦
      rw grown (r, row_of-append i s.versions x at, IsMove-refl revision r)
]

Step-IsDistinct :
    (revision : ℕ → ℕ → ℕ) {s after : Store}
    → Step revision s after
    → IsDistinct (ids s.versions)
    → IsDistinct (ids after.versions)
unfolding IsNew
Step-IsDistinct revision {s} {after} step d = elim (Step-cases revision d step) [
  | inl u ↦ rw (ap ids u.written ∙ ids-update u.condition u.change s.versions u.same_id) d
  | inr (x, grown, fresh, status) ↦ rw (ap ids grown) (ids-append-IsDistinct s.versions x d fresh)
]

Reach-IsDistinct :
    (revision : ℕ → ℕ → ℕ) {s : Store} → Reach revision s → IsDistinct (ids s.versions)
Reach-IsDistinct revision start = tt
Reach-IsDistinct revision (later reach step) =
    Step-IsDistinct revision step (Reach-IsDistinct revision reach)

-- A version after a call was there before it, or is a new draft.
row-before :
    (revision : ℕ → ℕ → ℕ) (i : ℕ) {s after : Store} {q : VersionRow}
    → IsDistinct (ids s.versions)
    → Step revision s after
    → row_of i after.versions ≡ some q
    → ((r : VersionRow) × (row_of i s.versions ≡ some r)) ⊎ (q.status ≡ draft)
unfolding IsNew
row-before revision i {s} {after} {q} d step at = elim (Step-cases revision d step) [
  | inl u ↦ inl (
      ids-row_of i s.versions (
        rw (sym (ids-update u.condition u.change s.versions u.same_id), sym (ap ids u.written))
          (member-row_of i after.versions at).1))
  | inr (x, grown, fresh, status) ↦
      elim (row_of-append_cases i s.versions x (ap (row_of i) (sym grown) ∙ at)) [
        | inl old ↦ inl (q, old)
        | inr new ↦ inr (ap (λ r. r.status) new ∙ status)
      ]
]

-- In every store that is reached where calls run one after another, or calls of `update_draft`
-- write late to versions that are still drafts, a published version was validated without errors at
-- the very content that it has.
pub published-IsChecked :
    (revision : ℕ → ℕ → ℕ) (i : ℕ) {s : Store} {r : VersionRow}
    → Reach revision s
    → row_of i s.versions ≡ some r
    → is_published r.status ≡ true
    → IsChecked revision r
published-IsChecked revision i start at h = cc
published-IsChecked revision i {r = q} (later {s} {after} reach step) at h =
    let d = Reach-IsDistinct revision reach in
    elim (row-before revision i d step at) [
      | inr new ↦ absurd (ground arith)
      | inl (r, before) ↦
          let (q', there, move) = version-IsMove revision i d step before in
          let same : q' ≡ q = ground arith in
          elim move.checked [
            | inl unpublished ↦ absurd (ground arith)
            | inr (inl kept) ↦
                rw (sym same, kept) (published-IsChecked revision i reach before (ground arith))
            | inr (inr checked) ↦ rw (sym same) checked
          ]
    ]
