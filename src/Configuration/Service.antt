-- ===== src/Configuration/Service.antt =====
-- `ConfigurationService` of backend/app/domain/configuration/service.py over the repositories of
-- backend/app/infrastructure/database/repositories/configuration.py. The entities of a version are
-- one content. The revision of a content, the findings of the validators and the clock are
-- parameters; each call is one transaction.
use hotelops_ai.Prelude.{
  ℕ, ◌+◌, Bool, true, false, ◌&&◌, ◌||◌, Option, none, some, List, [], ◌∷◌, ◌++◌, ltb, ◌==◌,
  is_some, if◌then◌else◌, Result, ok, err, ◌>>=◌, ◌>>◌, reject, ensure,
}
use hotelops_ai.Access.{Actor, has_venue_access, require_venue_access}
use hotelops_ai.Configuration.Machine.{
  ConfigurationStatus, StateError, draft, validating, validated, published, is_draft, is_validating,
  is_validated, is_published, transition_error, immutable_error, assert_can_edit,
  assert_can_validate, assert_can_publish,
}

pub data ConfigurationError : Type 0 where
  not_found conflict stale_validation immutable_published no_access : ConfigurationError

-- `ValidationResultModel`: the revision that was validated, and the blocking errors.
pub record ValidationResult : Type 0 where
  pub content_revision : ℕ
  pub errors : List ℕ

pub record VersionRow : Type 0 where
  pub version_id : ℕ
  pub configuration_id : ℕ
  pub venue_id : ℕ
  pub tenant_id : ℕ
  pub version : ℕ
  pub status : ConfigurationStatus
  pub content : ℕ
  pub validation_result : Option ValidationResult
  pub validated_by : Option ℕ
  pub published_by : Option ℕ
  pub published_at : Option ℕ
  pub replaced_version_id : Option ℕ

pub record Configuration : Type 0 where
  pub configuration_id : ℕ
  pub venue_id : ℕ
  pub tenant_id : ℕ
  pub current_published_version_id : Option ℕ

pub record Store : Type 0 where
  pub configurations : List Configuration
  pub versions : List VersionRow

abbrev pub find_version : ℕ → ℕ → List VersionRow → Option VersionRow
find_version id tenant [] = none
find_version id tenant (r ∷ rows) =
    if r.version_id == id && r.tenant_id == tenant then some r else find_version id tenant rows

abbrev pub if_accessible : Actor → Option VersionRow → Option VersionRow
if_accessible actor none = none
if_accessible actor (some r) = if has_venue_access actor r.venue_id then some r else none

-- `get_for_actor`
unfoldable pub get_for_actor : Actor → ℕ → Store → Option VersionRow
get_for_actor actor id s = if_accessible actor (find_version id actor.tenant_id s.versions)

abbrev pub found : Option VersionRow → Result ConfigurationError VersionRow
found none = err not_found
found (some r) = ok r

-- The later of two versions by number, as an order by the number and a limit of one.
abbrev pub later_of : VersionRow → Option VersionRow → Option VersionRow
later_of r none = some r
later_of r (some q) = if ltb q.version r.version then some r else some q

abbrev pub latest : (VersionRow → Bool) → List VersionRow → Option VersionRow
latest p [] = none
latest p (r ∷ rows) = if p r then later_of r (latest p rows) else latest p rows

abbrev pub is_of : Actor → ℕ → VersionRow → Bool
is_of actor configuration r = r.configuration_id == configuration && r.tenant_id == actor.tenant_id

unfoldable pub get_latest_version : Actor → ℕ → Store → Option VersionRow
get_latest_version actor configuration s =
    if_accessible actor (latest (is_of actor configuration) s.versions)

unfoldable pub get_latest_published_version : Actor → ℕ → Store → Option VersionRow
get_latest_published_version actor configuration s =
    if_accessible actor
      (latest (λ r. is_of actor configuration r && is_published r.status) s.versions)

abbrev pub update_versions :
    (VersionRow → Bool) → (VersionRow → VersionRow) → List VersionRow → List VersionRow
update_versions p f [] = []
update_versions p f (r ∷ rows) = (if p r then f r else r) ∷ update_versions p f rows

abbrev pub any_version : (VersionRow → Bool) → List VersionRow → Bool
any_version p [] = false
any_version p (r ∷ rows) = p r || any_version p rows

-- The rows that an update of the status takes.
abbrev pub is_in : Actor → ℕ → (ConfigurationStatus → Bool) → VersionRow → Bool
is_in actor id from r = r.version_id == id && (r.tenant_id == actor.tenant_id && from r.status)

-- `update_status`, which raises a conflict where it finds no row.
unfoldable pub update_status :
    Actor
    → ℕ
    → (ConfigurationStatus → Bool)
    → (VersionRow → VersionRow)
    → Store
    → Result ConfigurationError Store
update_status actor id from f s =
    ensure (any_version (is_in actor id from) s.versions) conflict
    >> ok (record s { versions = update_versions (is_in actor id from) f s.versions })

-- `_conflict_from_state_error` and `_immutable_from_state_error`
abbrev pub asserted : Result StateError (Unit {0}) → Result ConfigurationError (Unit {0})
asserted (ok done) = ok tt
asserted (err immutable_error) = err immutable_published
asserted (err (transition_error current attempted allowed)) = err conflict

abbrev pub next_number : Option VersionRow → ℕ
next_number none = 1
next_number (some r) = r.version + 1

abbrev pub new_version : ℕ → Configuration → ℕ → ℕ → VersionRow
new_version id config number content = record {
  version_id = id;
  configuration_id = config.configuration_id;
  venue_id = config.venue_id;
  tenant_id = config.tenant_id;
  version = number;
  status = draft;
  content = content;
  validation_result = none;
  validated_by = none;
  published_by = none;
  published_at = none;
  replaced_version_id = none;
}

abbrev find_configuration : (Configuration → Bool) → List Configuration → Option Configuration
find_configuration p [] = none
find_configuration p (c ∷ cs) = if p c then some c else find_configuration p cs

abbrev is_venue : Actor → ℕ → Configuration → Bool
is_venue actor venue c = c.venue_id == venue && c.tenant_id == actor.tenant_id

abbrev pub is_configuration : Actor → ℕ → Configuration → Bool
is_configuration actor id c = c.configuration_id == id && c.tenant_id == actor.tenant_id

abbrev or_new :
    ℕ → Actor → ℕ → List Configuration → Option Configuration → List Configuration × Configuration
or_new new_id actor venue cs (some c) = (cs, c)
or_new new_id actor venue cs none =
    let c : Configuration = record {
      configuration_id = new_id;
      venue_id = venue;
      tenant_id = actor.tenant_id;
      current_published_version_id = none;
    } in
    (cs ++ (c ∷ []), c)

-- `get_or_create`, once the access is granted.
unfoldable pub get_or_create : ℕ → Actor → ℕ → Store → List Configuration × Configuration
get_or_create new_id actor venue s =
    or_new new_id actor venue s.configurations
      (find_configuration (is_venue actor venue) s.configurations)

-- `create_draft`, with the identifiers that the database draws.
unfoldable pub create_draft :
    Actor → ℕ → ℕ → ℕ → Store → Result ConfigurationError (Store × VersionRow)
create_draft actor venue new_configuration_id new_version_id s =
    require_venue_access no_access actor venue
    >> (let made = get_or_create new_configuration_id actor venue s in
        let number = next_number (get_latest_version actor made.1.configuration_id s) in
        let row = new_version new_version_id made.1 number 0 in
        ok (record { configurations = made.0; versions = s.versions ++ (row ∷ []) }, row))

abbrev found_configuration : Option Configuration → Result ConfigurationError Configuration
found_configuration none = err not_found
found_configuration (some c) = ok c

-- `create_draft_from_version`
unfoldable pub create_draft_from_version :
    Actor → ℕ → ℕ → Store → Result ConfigurationError (Store × VersionRow)
create_draft_from_version actor source_id new_version_id s =
    found (get_for_actor actor source_id s) >>= λ source.
    found_configuration
      (find_configuration (is_configuration actor source.configuration_id) s.configurations)
    >>= λ config.
        require_venue_access not_found actor config.venue_id
        >> (let number = next_number (get_latest_version actor config.configuration_id s) in
            let row = new_version new_version_id config number source.content in
            ok (record s { versions = s.versions ++ (row ∷ []) }, row))

-- What `update_draft` writes, after it has read `row`: the new content, and no validation of the
-- old one. Columns that it does not set stay.
abbrev pub edited : (ℕ → ℕ) → VersionRow → VersionRow → VersionRow
edited change row r = record r {
  content = change row.content;
  validation_result = if is_some row.validation_result then none else r.validation_result;
  validated_by = if is_some row.validation_result then none else r.validated_by;
}

abbrev pub is_row : VersionRow → VersionRow → Bool
is_row row r = r.version_id == row.version_id && r.tenant_id == row.tenant_id

-- `update_draft` once it has read the row: the writes have no condition on the status.
unfoldable pub write_draft : (ℕ → ℕ) → VersionRow → Store → Result ConfigurationError Store
write_draft change row s =
    asserted (assert_can_edit row.status)
    >> ok (record s { versions = update_versions (is_row row) (edited change row) s.versions })

unfoldable pub update_draft : Actor → ℕ → (ℕ → ℕ) → Store → Result ConfigurationError Store
update_draft actor id change s =
    found (get_for_actor actor id s) >>= λ row. write_draft change row s

abbrev pub with_status : ConfigurationStatus → VersionRow → VersionRow
with_status status r = record r { status = status }

unfoldable pub start_validation_of : Actor → ℕ → Store → Result ConfigurationError Store
start_validation_of actor id s = found (get_for_actor actor id s) >>= λ row.
    asserted (assert_can_validate row.status)
    >> update_status actor id is_draft (with_status validating) s

abbrev is_empty : List ℕ → Bool
is_empty [] = true
is_empty (e ∷ errors) = false

-- What the end of a validation writes.
abbrev pub judged : ValidationResult → ℕ → VersionRow → VersionRow
judged result by r =
    if is_empty result.errors
    then record r { status = validated; validation_result = some result; validated_by = some by }
    else record r { status = draft; validation_result = some result; validated_by = none }

-- `published_at`, `published_by` and `replaced_version_id`
abbrev pub promoted : ℕ → ℕ → Option ℕ → VersionRow → VersionRow
promoted now by previous r = record r {
  status = published;
  published_at = some now;
  published_by = some by;
  replaced_version_id = previous;
}

abbrev pub point_to : Actor → ℕ → ℕ → List Configuration → List Configuration
point_to actor configuration version [] = []
point_to actor configuration version (c ∷ cs) =
    (if is_configuration actor configuration c
      then record c { current_published_version_id = some version }
      else c)
    ∷ point_to actor configuration version cs

abbrev pub is_newer_than : VersionRow → Option VersionRow → Bool
is_newer_than row none = false
is_newer_than row (some q) = ltb row.version q.version

-- The checks of the stored validation result.
abbrev pub check_result : ℕ → Option ValidationResult → Result ConfigurationError (Unit {0})
check_result revision none = err stale_validation
check_result revision (some result) =
    ensure (result.content_revision == revision) stale_validation
    >> ensure (is_empty result.errors) conflict

abbrev pub pointed : Actor → VersionRow → Store → Store
pointed actor row s = record s {
  configurations = point_to actor row.configuration_id row.version_id s.configurations;
}

-- The rest of `publish`, under the lock.
unfoldable pub promote :
    Actor → ℕ → ℕ → ℕ → VersionRow → Configuration → Store → Result ConfigurationError Store
promote actor id by now row config s =
    reject (is_newer_than row (get_latest_published_version actor row.configuration_id s)) conflict
    >> update_status actor id is_validated (promoted now by config.current_published_version_id) s
    >>= λ after. ok (pointed actor row after)

module _ (revision : ℕ → ℕ → ℕ) where
  -- `run_validation`, with the errors that the validators find.
  unfoldable pub run_validation : Actor → ℕ → ℕ → List ℕ → Store → Result ConfigurationError Store
  run_validation actor id by errors s = found (get_for_actor actor id s) >>= λ row.
      ensure (is_validating row.status) conflict
      >> update_status actor id is_validating
          (judged (record { content_revision = revision row.version row.content; errors = errors })
            by)
          s

  -- The checks of `publish` on an unpublished version, up to the lock of the configuration.
  abbrev pub ready : Actor → VersionRow → Store → Result ConfigurationError Configuration
  ready actor row s =
      asserted (assert_can_publish row.status)
      >> check_result (revision row.version row.content) row.validation_result
      >> found_configuration
          (find_configuration (is_configuration actor row.configuration_id) s.configurations)

  unfoldable pub publish_new :
      Actor → ℕ → ℕ → ℕ → VersionRow → Store → Result ConfigurationError Store
  publish_new actor id by now row s =
      ready actor row s >>= λ config. promote actor id by now row config s

  unfoldable pub publish : Actor → ℕ → ℕ → ℕ → Store → Result ConfigurationError Store
  publish actor id by now s = found (get_for_actor actor id s) >>= λ row.
      if is_published row.status then ok s else publish_new actor id by now row s
