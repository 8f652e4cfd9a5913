-- ===== src/Configuration/Moves.antt =====
-- What each call of the configuration service writes to the versions.
use hotelops_ai.Prelude.{
  ℕ, ◌≡◌, refl, inl, inr, Bool, true, false, Option, none, some, List, [], ◌∷◌, ◌++◌, if◌then◌else◌,
  ok, ◌>>◌, ensure, >>=-eq-ok, arith, sym, ap, ◌∙◌, Bool-cases,
}
use hotelops_ai.Prelude.Sets.{IsDistinct}
use hotelops_ai.Access.{Actor}
use hotelops_ai.Configuration.Machine.{
  ConfigurationStatus, edit, start_validation, validation_succeeded, validation_failed,
  publish_version, get_next_state, is_published, is_draft, is_validating, is_validated, draft,
  validating, assert_can_edit, assert_can_validate, is_mutable,
}
use hotelops_ai.Configuration.Service.{
  conflict, ValidationResult, VersionRow, Store, get_for_actor, found, update_versions, is_in,
  update_status, asserted, create_draft, create_draft_from_version, edited, is_row, write_draft,
  update_draft, with_status, start_validation_of, judged, promoted, check_result, run_validation,
  publish_new, publish, Configuration, promote, ready,
}
use hotelops_ai.Configuration.Versions.{
  ids, row_of, IsMove, IsMove-refl, member-row_of, read-row_of,
}

update_status-after :
    (actor : Actor) (id : ℕ) (from : ConfigurationStatus → Bool) (f : VersionRow → VersionRow)
    (s : Store) {after : Store}
    → update_status actor id from f s ≡ ok after
    → after ≡ record s { versions = update_versions (is_in actor id from) f s.versions }
unfolding update_status
update_status-after actor id from f s h = ground arith

write_draft-after :
    (change : ℕ → ℕ) (row : VersionRow) (s : Store) {after : Store}
    → write_draft change row s ≡ ok after
    → (is_draft row.status ≡ true)
      × (after
          ≡ record s { versions = update_versions (is_row row) (edited change row) s.versions })
unfolding write_draft assert_can_edit is_mutable
write_draft-after change row s h = ground arith

edited-IsMove :
    (revision : ℕ → ℕ → ℕ) (change : ℕ → ℕ) (row r : VersionRow)
    → is_draft r.status ≡ true
    → IsMove revision r (edited change row r)
unfolding get_next_state
edited-IsMove revision change row r h = record {
  same_number = refl;
  same_configuration = refl;
  kept = inl (ground arith);
  legal = inr (edit, ground arith);
  checked = inl (ground arith);
}

started-IsMove :
    (revision : ℕ → ℕ → ℕ) (actor : Actor) (id : ℕ) (r : VersionRow)
    → is_in actor id is_draft r ≡ true
    → IsMove revision r (with_status validating r)
unfolding get_next_state
started-IsMove revision actor id r h = record {
  same_number = refl;
  same_configuration = refl;
  kept = inl (ground arith);
  legal = inr (start_validation, ground arith);
  checked = inl refl;
}

judged-IsMove :
    (revision : ℕ → ℕ → ℕ) (actor : Actor) (id by at : ℕ) (errors : List ℕ) (r : VersionRow)
    → is_in actor id is_validating r ≡ true
    → IsMove revision r (judged (record { content_revision = at; errors = errors }) by r)
unfolding get_next_state
judged-IsMove revision actor id by at [] r h = record {
  same_number = refl;
  same_configuration = refl;
  kept = inl (ground arith);
  legal = inr (validation_succeeded, ground arith);
  checked = inl refl;
}
judged-IsMove revision actor id by at (e ∷ errors) r h = record {
  same_number = refl;
  same_configuration = refl;
  kept = inl (ground arith);
  legal = inr (validation_failed, ground arith);
  checked = inl refl;
}

check_result-ok :
    (revision : ℕ) (stored : Option ValidationResult)
    → check_result revision stored ≡ ok tt
    → (result : ValidationResult) × (stored ≡ some result)
      × (result.content_revision ≡ revision)
      × (result.errors ≡ [])
check_result-ok revision none h = cc
check_result-ok revision (some result) h = (result, refl, ground arith, ground arith)

promoted-IsMove :
    (revision : ℕ → ℕ → ℕ) (actor : Actor) (id now by : ℕ) (previous : Option ℕ) (r : VersionRow)
    → is_in actor id is_validated r ≡ true
    → check_result (revision r.version r.content) r.validation_result ≡ ok tt
    → IsMove revision r (promoted now by previous r)
unfolding get_next_state
promoted-IsMove revision actor id now by previous r h checked =
    let (result, stored, current, clean) =
      check_result-ok (revision r.version r.content) r.validation_result checked in
    record {
      same_number = refl;
      same_configuration = refl;
      kept = inl (ground arith);
      legal = inr (publish_version, ground arith);
      checked =
          inr (inr (record { result = result; stored = stored; current = current; clean = clean }));
    }

promote-after :
    (actor : Actor) (id by now : ℕ) (row : VersionRow) (config : Configuration) (s : Store)
    {after : Store}
    → promote actor id by now row config s ≡ ok after
    → after.versions
      ≡ update_versions
          (is_in actor id is_validated)
          (promoted now by config.current_published_version_id)
          s.versions
unfolding promote update_status
promote-after actor id by now row config s h = ground arith

ready-checked :
    (revision : ℕ → ℕ → ℕ) (actor : Actor) (row : VersionRow) (s : Store) {config : Configuration}
    → ready revision actor row s ≡ ok config
    → check_result (revision row.version row.content) row.validation_result ≡ ok tt
ready-checked revision actor row s h = ground arith

-- The versions of `after` are those of `s`, updated where a condition holds, each as its lifecycle
-- allows.
pub record IsUpdate (revision : ℕ → ℕ → ℕ) (s after : Store) : Type 0 where
  pub condition : VersionRow → Bool
  pub change : VersionRow → VersionRow
  pub same_id : (r : VersionRow) → (change r).version_id ≡ r.version_id
  pub written : after.versions ≡ update_versions condition change s.versions
  pub moves :
      (i : ℕ) {r : VersionRow}
      → row_of i s.versions ≡ some r
      → condition r ≡ true
      → IsMove revision r (change r)

update_none : (rows : List VersionRow) → update_versions (λ r. false) (λ r. r) rows ≡ rows
update_none [] = refl
update_none (r ∷ rows) = ground (arith, update_none rows)

publish_new-IsUpdate :
    (revision : ℕ → ℕ → ℕ) (actor : Actor) (id by now : ℕ) (row : VersionRow) (s : Store)
    {after : Store}
    → row_of id s.versions ≡ some row
    → publish_new revision actor id by now row s ≡ ok after
    → IsUpdate revision s after
unfolding publish_new
publish_new-IsUpdate revision actor id by now row s there h =
    let (config, checks, rest) =
      >>=-eq-ok (ready revision actor row s) (λ config. promote actor id by now row config s) h in
    record {
      condition = is_in actor id is_validated;
      change = promoted now by config.current_published_version_id;
      same_id = λ r. refl;
      written = promote-after actor id by now row config s rest;
      moves = λ i {r} at taken.
          let same : r ≡ row = ground (arith, member-row_of i s.versions at) in
          promoted-IsMove revision actor id now by config.current_published_version_id r taken
            (rw same (ready-checked revision actor row s checks));
    }

pub publish-IsUpdate :
    (revision : ℕ → ℕ → ℕ) (actor : Actor) (id by now : ℕ) (s : Store) {after : Store}
    → IsDistinct (ids s.versions)
    → publish revision actor id by now s ≡ ok after
    → IsUpdate revision s after
unfolding publish
publish-IsUpdate revision actor id by now s {after} d h =
    let (row, read, rest) =
      >>=-eq-ok (found (get_for_actor actor id s))
        (λ row.
          if is_published row.status then ok s else publish_new revision actor id by now row s)
        h in
    elim (Bool-cases (is_published row.status)) [
      | inl again ↦
          let same : s ≡ after = ground arith in
          record {
            condition = λ r. false;
            change = λ r. r;
            same_id = λ r. refl;
            written = sym (ap (λ s. s.versions) same) ∙ sym (update_none s.versions);
            moves = λ i {r} at taken. IsMove-refl revision r;
          }
      | inr fresh ↦
          publish_new-IsUpdate revision actor id by now row s {after = after}
            (read-row_of actor id s d read) (ground arith)
    ]

pub update_draft-IsUpdate :
    (revision : ℕ → ℕ → ℕ) (actor : Actor) (id : ℕ) (change : ℕ → ℕ) (s : Store) {after : Store}
    → IsDistinct (ids s.versions)
    → update_draft actor id change s ≡ ok after
    → IsUpdate revision s after
unfolding update_draft
update_draft-IsUpdate revision actor id change s d h =
    let (row, read, rest) =
      >>=-eq-ok (found (get_for_actor actor id s)) (λ row. write_draft change row s) h in
    let there = read-row_of actor id s d read in
    let (editable, after_write) = write_draft-after change row s rest in
    record {
      condition = is_row row;
      change = edited change row;
      same_id = λ r. refl;
      written = ap (λ s. s.versions) after_write;
      moves = λ i {r} at taken.
          let same : r ≡ row =
            ground (arith, member-row_of i s.versions at, member-row_of id s.versions there) in
          edited-IsMove revision change row r (rw same editable);
    }

-- A write of `update_draft` with a row that was read earlier, where the version is still a draft.
pub write_draft-IsUpdate :
    (revision : ℕ → ℕ → ℕ) (change : ℕ → ℕ) (row : VersionRow) (s : Store) {current : VersionRow}
    {after : Store}
    → row_of row.version_id s.versions ≡ some current
    → is_draft current.status ≡ true
    → write_draft change row s ≡ ok after
    → IsUpdate revision s after
write_draft-IsUpdate revision change row s {current} there still h = record {
  condition = is_row row;
  change = edited change row;
  same_id = λ r. refl;
  written = ap (λ s. s.versions) (write_draft-after change row s h).1;
  moves = λ i {r} at taken.
      let same : r ≡ current = ground (arith, member-row_of i s.versions at) in
      edited-IsMove revision change row r (rw same still);
}

pub start-IsUpdate :
    (revision : ℕ → ℕ → ℕ) (actor : Actor) (id : ℕ) (s : Store) {after : Store}
    → start_validation_of actor id s ≡ ok after
    → IsUpdate revision s after
unfolding start_validation_of
start-IsUpdate revision actor id s {after} h =
    let (row, read, rest) =
      >>=-eq-ok (found (get_for_actor actor id s))
        (λ row.
          asserted (assert_can_validate row.status)
          >> update_status actor id is_draft (with_status validating) s)
        h in
    let stored : update_status actor id is_draft (with_status validating) s ≡ ok after =
      ground arith in
    record {
      condition = is_in actor id is_draft;
      change = with_status validating;
      same_id = λ r. refl;
      written =
          ap (λ s. s.versions)
            (update_status-after actor id is_draft (with_status validating) s stored);
      moves = λ i {r} at taken. started-IsMove revision actor id r taken;
    }

pub run_validation-IsUpdate :
    (revision : ℕ → ℕ → ℕ) (actor : Actor) (id by : ℕ) (errors : List ℕ) (s : Store) {after : Store}
    → run_validation revision actor id by errors s ≡ ok after
    → IsUpdate revision s after
unfolding run_validation
run_validation-IsUpdate revision actor id by errors s {after} h =
    let result : VersionRow → ValidationResult =
      λ row. record { content_revision = revision row.version row.content; errors = errors } in
    let (row, read, rest) =
      >>=-eq-ok (found (get_for_actor actor id s))
        (λ row.
          ensure (is_validating row.status) conflict
          >> update_status actor id is_validating (judged (result row) by) s)
        h in
    let stored : update_status actor id is_validating (judged (result row) by) s ≡ ok after =
      ground arith in
    record {
      condition = is_in actor id is_validating;
      change = judged (result row) by;
      same_id = λ r. ground arith;
      written =
          ap (λ s. s.versions)
            (update_status-after actor id is_validating (judged (result row) by) s stored);
      moves = λ i {r} at taken.
          judged-IsMove revision actor id by (revision row.version row.content) errors r taken;
    }

pub create_draft-after :
    (actor : Actor) (venue new_configuration_id new_version_id : ℕ) (s : Store) {after : Store}
    {row : VersionRow}
    → create_draft actor venue new_configuration_id new_version_id s ≡ ok (after, row)
    → (after.versions ≡ s.versions ++ (row ∷ []))
      × (row.version_id ≡ new_version_id)
      × (row.status ≡ draft)
unfolding create_draft
create_draft-after actor venue c v s h = ground arith

pub clone-after :
    (actor : Actor) (source_id new_version_id : ℕ) (s : Store) {after : Store} {row : VersionRow}
    → create_draft_from_version actor source_id new_version_id s ≡ ok (after, row)
    → (after.versions ≡ s.versions ++ (row ∷ []))
      × (row.version_id ≡ new_version_id)
      × (row.status ≡ draft)
unfolding create_draft_from_version
clone-after actor source_id v s h = ground arith
