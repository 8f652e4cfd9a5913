-- ===== src/Media.antt =====
-- The media records: `MediaAssetModel` as far as the lifecycle reads it, `MediaRepository` of
-- backend/app/infrastructure/database/repositories/media.py, and what a request can see and change.
-- Of the JSON metadata of a record the code reads the preservation hold and the upload identifier
-- of the provider. The error of a storage call is `none`.
pub mod Content
pub mod Service
pub mod Cleanup
pub mod Rows
pub mod Upload
pub mod Writes
pub mod Sweeps
pub mod Lost
pub mod Safety
pub mod Rollback
use text.Mathlib.Text.{◌==◌ as str_eq}
use hotelops_ai.Prelude.{
  ℕ, ◌≡◌, Bool, true, false, ◌&&◌, Option, none, some, List, [], ◌∷◌, String, Name, ◌is◌, ◌==◌, ltb,
  leb, if◌then◌else◌, Result, ok, err, arith,
}
use hotelops_ai.Access.{Actor, has_venue_access}
use hotelops_ai.Retention.{MediaCategory, Hold}

pub data Lifecycle : Type 0 where
  initiated uploading uploaded validating available failed expired deletion_pending deleted :
      Lifecycle

abbrev pub lifecycle_code : Lifecycle → ℕ
lifecycle_code initiated = 0
lifecycle_code uploading = 1
lifecycle_code uploaded = 2
lifecycle_code validating = 3
lifecycle_code available = 4
lifecycle_code expired = 5
lifecycle_code failed = 6
lifecycle_code deletion_pending = 7
lifecycle_code deleted = 8

pub lifecycle_code_injective : (a b : Lifecycle) → lifecycle_code a ≡ lifecycle_code b → a ≡ b
lifecycle_code_injective a b h = ground arith

instance abbrev pub lifecycle_name : Name Lifecycle
lifecycle_name = record { code = lifecycle_code; code_injective = lifecycle_code_injective }

pub record Media : Type 0 where
  pub media_id : ℕ
  pub tenant_id : ℕ
  pub venue_id : ℕ
  pub category : MediaCategory
  pub object_key : String
  pub content_type : String
  pub size_bytes : ℕ
  pub checksum : Option String
  pub state : Lifecycle
  pub retention_class : Option String
  pub hold : Hold
  pub upload_id : Option String
  pub expires_at : Option ℕ
  pub created_at : ℕ
  pub updated_at : ℕ
  pub uploaded_at : Option ℕ
  pub validated_at : Option ℕ
  pub deleted_at : Option ℕ

pub data MediaError : Type 0 where
  not_found conflict protected_error invalid unauthorized storage_error : MediaError

pub data MediaEvent : Type 0 where
  upload_initiated upload_completed upload_aborted validation_failed became_available
        access_requested deletion_requested deletion_completed cleanup_failed :
      MediaEvent

pub record Audit : Type 0 where
  pub event : MediaEvent
  pub media_id : ℕ

-- The table by primary key, the audit events enqueued, and the keys of the objects that a delete
-- call was made for. A rollback restores all but the last.
pub record World : Type 0 where
  pub table : ℕ → Option Media
  pub audit : List Audit
  pub removed : List String

abbrev pub put : ℕ → Media → (ℕ → Option Media) → ℕ → Option Media
put id m table k = if k == id then some m else table k

abbrev visible : Actor → Option Media → Option Media
visible actor none = none
visible actor (some m) =
    if m.tenant_id == actor.tenant_id && has_venue_access actor m.venue_id then some m else none

unfoldable pub get_for_actor : Actor → ℕ → (ℕ → Option Media) → Option Media
get_for_actor actor id table = visible actor (table id)

-- `_get_media_for_actor`
abbrev pub get_or_raise : Option Media → Result MediaError Media
get_or_raise none = err MediaError.not_found
get_or_raise (some m) = ok m

-- The guarded update: whether the row that is there meets the condition, and the table after.
abbrev pub update_row :
    ℕ
    → (Media → Bool)
    → (Media → Media)
    → (ℕ → Option Media)
    → Option Media
    → (ℕ → Option Media) × Bool
update_row id guard change table none = (table, false)
update_row id guard change table (some m) =
    if guard m then (put id (change m) table, true) else (table, false)

abbrev pub to_state : Lifecycle → ℕ → (Media → Media) → Media → Media
to_state to now extra m = extra (record m { state = to; updated_at = now })

unfoldable pub update_state_for_actor :
    Actor
    → ℕ
    → Lifecycle
    → Lifecycle
    → ℕ
    → (Media → Media)
    → (ℕ → Option Media)
    → (ℕ → Option Media) × Bool
update_state_for_actor actor id from to now extra table =
    update_row id (λ m. m.tenant_id == actor.tenant_id && m.state is from) (to_state to now extra)
      table (table id)

unfoldable pub update_state_unscoped :
    ℕ → Lifecycle → Lifecycle → ℕ → (Media → Media) → (ℕ → Option Media) → (ℕ → Option Media) × Bool
update_state_unscoped id from to now extra table =
    update_row id (λ m. m.state is from) (to_state to now extra) table (table id)

abbrev pub enqueue_audit : MediaEvent → ℕ → World → World
enqueue_audit event id w = record w { audit = record { event = event; media_id = id } ∷ w.audit }

-- The `where` clauses of the queries of the worker.
abbrev pub has_expired : Option ℕ → ℕ → Bool
has_expired none now = false
has_expired (some t) now = leb t now

abbrev is_sweepable : Lifecycle → Bool
is_sweepable available = true
is_sweepable deletion_pending = true
is_sweepable _ = false

unfoldable pub is_expired_row : ℕ → Media → Bool
is_expired_row now m = is_sweepable m.state && has_expired m.expires_at now

unfoldable pub is_stale_upload : ℕ → Media → Bool
is_stale_upload older_than m = m.state is uploading && ltb m.created_at older_than

-- `RECONCILABLE_STATES`
abbrev pub is_reconcilable : Lifecycle → Bool
is_reconcilable uploaded = true
is_reconcilable validating = true
is_reconcilable available = true
is_reconcilable expired = true
is_reconcilable deletion_pending = true
is_reconcilable _ = false

unfoldable pub is_reconciled_row : ℕ → Media → Bool
is_reconciled_row older_than m = is_reconcilable m.state && ltb m.updated_at older_than

-- `DatabaseClient.session`: the changes of a unit of work are committed where it returns, and
-- rolled back where it raises.
abbrev pub settle : {A : Type 0} → World → World × Result MediaError A → World × Result MediaError A
settle w (w', ok a) = (w', ok a)
settle w (w', err e) = (record w { removed = w'.removed }, err e)

unfoldable pub unit_of_work :
    {A : Type 0} → (World → World × Result MediaError A) → World → World × Result MediaError A
unit_of_work work w = settle w (work w)
