-- ===== src/Media/Service.antt =====
-- `MediaLifecycleService` of backend/app/application/services/media_lifecycle.py. A method is given
-- the record that it read at its start and the world at its first write: between the two, other
-- requests may have changed the row. The object storage is a parameter, by what its calls answer:
-- `none` where a call raises a StorageError.
use text.Mathlib.Text.{◌==◌ as str_eq}
use hotelops_ai.Prelude.{
  ℕ, ◌+◌, Bool, true, false, ◌&&◌, ◌||◌, Option, none, some, List, [], ◌∷◌, String, ◌is◌, ◌==◌, ltb,
  leb, if◌then◌else◌, Result, ok, err,
}
use hotelops_ai.Prelude.Sets.{member}
use hotelops_ai.Access.{Actor}
use hotelops_ai.Retention.{MediaCategory, resolve_class, duration_for, is_protected}
use hotelops_ai.Media.{
  Lifecycle, uploading, uploaded, validating, available, failed, deletion_pending, deleted,
  lifecycle_name, Media, MediaError, MediaEvent, World, get_for_actor, get_or_raise,
  update_state_for_actor, enqueue_audit, put,
}
use hotelops_ai.Media.Content.{Texts, validate_content, read_prefix, prefix_bytes, concat}

pub record ObjectMeta : Type 0 where
  pub size : ℕ
  pub sha256 : Option String

pub record Storage : Type 0 where
  pub complete_multipart : String → String → List ℕ → Option ObjectMeta
  pub head : String → Option (Option ObjectMeta)
  pub initiate_multipart : String → Option String
  pub presign_part : String → String → ℕ → Option String
  pub presign_download : String → Option String
  pub delete : String → Bool
  pub exists : String → Option Bool
  pub stream : String → Option (List (List ℕ))

pub record Settings : Type 0 where
  pub content_validation_enabled : Bool
  pub checksum_verification_enabled : Bool
  pub checksum_verification_max_bytes : ℕ

pub record CompleteRequest : Type 0 where
  pub upload_id : Option String
  pub parts : List ℕ
  pub checksum : Option String
  pub expected_size : Option ℕ

pub data Permission : Type 0 where
  video_read evidence_read analytics_read : Permission

-- `_DOWNLOAD_PERMISSIONS`
unfoldable pub download_permission : MediaCategory → Permission
download_permission MediaCategory.recordings = video_read
download_permission MediaCategory.evidence = evidence_read
download_permission MediaCategory.reports = analytics_read
download_permission MediaCategory.analytics = analytics_read
download_permission MediaCategory.temporary = video_read

-- What a method leaves and answers: the record as it reports it.
abbrev pub Answer : Type 0
Answer = World × Result MediaError Media

-- A guarded update, with what follows where it took the row and where it did not.
abbrev pub guarded :
    {A : Type 0} → World → (ℕ → Option Media) × Bool → (World → A) → (World → A) → A
guarded w (table, true) won lost = won (record w { table = table })
guarded w (table, false) won lost = lost w

abbrev pub unchanged : Media → Media
unchanged m = m

unfoldable pub fail_media : Actor → Media → Lifecycle → ℕ → World → World
fail_media actor media from now w =
    guarded w (update_state_for_actor actor media.media_id from failed now unchanged w.table)
      (enqueue_audit MediaEvent.validation_failed media.media_id) (λ w'. w')

-- A text that is there and not empty.
abbrev pub truthy : Option String → Option String
truthy none = none
truthy (some t) = if str_eq t "" then none else some t

abbrev pub or_text : Option String → Option String → Option String
or_text (some t) other = some t
or_text none other = other

-- What the storage verification of a completion found.
pub data Probe : Type 0 where
  found : ObjectMeta → Probe
  fails : Probe
  raises : MediaError → Probe

abbrev probe_parts : Storage → Media → List ℕ → Option String → Probe
probe_parts storage media parts none = raises MediaError.conflict
probe_parts storage media parts (some upload) =
    elim (storage.complete_multipart upload media.object_key parts) [
      | none ↦ fails
      | some meta ↦ found meta
    ]

abbrev probe_head : Option (Option ObjectMeta) → Probe
probe_head none = raises MediaError.invalid
probe_head (some none) = fails
probe_head (some (some meta)) = found meta

unfoldable pub probe : Storage → Media → CompleteRequest → Probe
probe storage media request = elim request.parts [
  | [] ↦ probe_head (storage.head media.object_key)
  | p ∷ ps ↦
      probe_parts storage media request.parts
        (or_text (truthy request.upload_id) (truthy media.upload_id))
]

abbrev pub expected_size : CompleteRequest → Media → ℕ
expected_size request media = elim request.expected_size [ none ↦ media.size_bytes | some n ↦ n ]

-- The size is positive, and the expected one where that is.
unfoldable pub has_size : CompleteRequest → Media → ObjectMeta → Bool
has_size request media meta =
    ltb 0 meta.size
    && (expected_size request media == 0 || meta.size == expected_size request media)

abbrev pub after_days : ℕ → Option ℕ → Option ℕ
after_days now none = none
after_days now (some d) = some (now + d)

abbrev pub is_replayed : Lifecycle → Bool
is_replayed Lifecycle.uploaded = true
is_replayed Lifecycle.validating = true
is_replayed Lifecycle.available = true
is_replayed Lifecycle.expired = true
is_replayed _ = false

module _ (settings : Settings) (texts : Texts) (sha256 : List ℕ → String) where
  -- The values that a completion writes.
  abbrev pub stored : Media → CompleteRequest → ObjectMeta → ℕ → Media → Media
  stored media request meta now row = record row {
    size_bytes = meta.size;
    checksum = elim request.checksum [ none ↦ meta.sha256 | some c ↦ some (texts.lower c) ];
    retention_class = some (resolve_class media.category media.retention_class);
    expires_at = after_days now (duration_for (resolve_class media.category media.retention_class));
    uploaded_at = some now;
  }

  abbrev pub refresh : Actor → Media → World → Answer
  refresh actor media w = (w, get_or_raise (get_for_actor actor media.media_id w.table))

  unfoldable pub store_upload : Actor → Media → CompleteRequest → ObjectMeta → ℕ → World → Answer
  store_upload actor media request meta now w =
      guarded w
        (update_state_for_actor actor media.media_id uploading uploaded now
          (stored media request meta now) w.table)
        (λ w'. (
          enqueue_audit MediaEvent.upload_completed media.media_id w',
          ok (stored media request meta now (record media { state = uploaded })),
        ))
        (refresh actor media)

  unfoldable pub complete_probed : Actor → Media → CompleteRequest → ℕ → World → Probe → Answer
  complete_probed actor media request now w (raises e) = (w, err e)
  complete_probed actor media request now w fails =
      (fail_media actor media uploading now w, err MediaError.invalid)
  complete_probed actor media request now w (found meta) =
      if has_size request media meta
      then store_upload actor media request meta now w
      else (fail_media actor media uploading now w, err MediaError.invalid)

  unfoldable pub complete_upload : Storage → Actor → Media → CompleteRequest → ℕ → World → Answer
  complete_upload storage actor media request now w =
      if is_replayed media.state
      then (w, ok media)
      else if media.state is uploading
      then complete_probed actor media request now w (probe storage media request)
      else (w, err MediaError.conflict)

  abbrev pub with_upload : String → Media → Media
  with_upload upload m = record m { upload_id = some upload }

  -- The write of the record that was read, by its key alone.
  abbrev pub write_upload : Media → String → World → World
  write_upload media upload w = record w { table = written (w.table media.media_id) }
    where
      written : Option Media → ℕ → Option Media
      written none = w.table
      written (some row) = put media.media_id (with_upload upload row) w.table

  unfoldable pub initiate_multipart : Storage → Media → World → Answer
  initiate_multipart storage media w =
      if media.state is uploading
      then elim (storage.initiate_multipart media.object_key) [
        | none ↦ (w, err MediaError.invalid)
        | some upload ↦ (write_upload media upload w, ok (with_upload upload media))
      ]
      else (w, err MediaError.conflict)

  -- The loop over the part numbers, with the numbers seen and the parts presigned so far.
  unfoldable pub presign_loop :
      Storage
      → Media
      → String
      → List ℕ
      → List (ℕ × String)
      → List ℕ
      → Result MediaError (List (ℕ × String))
  presign_loop storage media upload seen done [] = ok done
  presign_loop storage media upload seen done (n ∷ numbers) =
      let rest =
        λ (url : String). presign_loop storage media upload (n ∷ seen) ((n, url) ∷ done) numbers in
      if member seen n
      then err MediaError.conflict
      else elim (storage.presign_part upload media.object_key n) [
        | none ↦ err MediaError.invalid
        | some url ↦ rest url
      ]

  unfoldable pub presign_parts : Storage → Media → List ℕ → Result MediaError (List (ℕ × String))
  presign_parts storage media numbers =
      if media.state is uploading
      then elim (truthy media.upload_id) [
        | none ↦ err MediaError.conflict
        | some upload ↦ presign_loop storage media upload [] [] numbers
      ]
      else err MediaError.conflict

  abbrev pub remove : String → World → World
  remove key w = record w { removed = key ∷ w.removed }

  unfoldable pub abort_upload : Actor → Media → ℕ → World → Answer
  abort_upload actor media now w =
      if media.state is failed || media.state is deleted
      then (w, ok media)
      else if media.state is uploading
      then guarded w
          (update_state_for_actor actor media.media_id uploading failed now unchanged w.table)
          (λ w'. (
            enqueue_audit MediaEvent.upload_aborted media.media_id (remove media.object_key w'),
            ok (record media { state = failed }),
          ))
          (refresh actor media)
      else (w, err MediaError.conflict)

  abbrev pub wants_hash : Media → Bool
  wants_hash media =
      settings.checksum_verification_enabled
      && (settings.checksum_verification_max_bytes == 0
          || leb media.size_bytes settings.checksum_verification_max_bytes)

  abbrev pub content_ok : Media → List (List ℕ) → Bool
  content_ok media chunks =
      if settings.content_validation_enabled
      then validate_content texts media.category media.content_type
          (read_prefix prefix_bytes (wants_hash media) [] chunks) media.size_bytes
      else true

  abbrev same_digest : Option String → String → Bool
  same_digest none digest = true
  same_digest (some expected) digest = str_eq (texts.lower expected) digest

  abbrev pub checksum_ok : Media → Option String → List (List ℕ) → Bool
  checksum_ok media declared chunks =
      if wants_hash media
      then same_digest (or_text (truthy declared) (truthy media.checksum)) (sha256 (concat chunks))
      else true

  abbrev pub actual_checksum : Media → List (List ℕ) → Option String
  actual_checksum media chunks =
      if wants_hash media then some (sha256 (concat chunks)) else media.checksum

  abbrev pub promoted : Media → List (List ℕ) → ℕ → Media → Media
  promoted media chunks now row = record row {
    checksum = actual_checksum media chunks;
    validated_at = some now;
  }

  -- The verification of an object that was read, in the state validating.
  unfoldable pub verify_stream :
      Actor → Media → Option String → ℕ → World → Option (List (List ℕ)) → Answer
  verify_stream actor media declared now w none =
      (fail_media actor media validating now w, err MediaError.invalid)
  verify_stream actor media declared now w (some chunks) =
      if content_ok media chunks && checksum_ok media declared chunks
      then guarded w
          (update_state_for_actor actor media.media_id validating available now
            (promoted media chunks now) w.table)
          (λ w'. (
            enqueue_audit MediaEvent.became_available media.media_id w',
            ok (promoted media chunks now (record media { state = available })),
          ))
          (λ w'. (w', err MediaError.conflict))
      else (fail_media actor media validating now w, err MediaError.invalid)

  abbrev pub if_available : World → Result MediaError Media → Answer
  if_available w (err e) = (w, err e)
  if_available w (ok m) = if m.state is available then (w, ok m) else (w, err MediaError.conflict)

  unfoldable pub verify_media :
      Actor → Media → Option String → ℕ → Option (List (List ℕ)) → World → Answer
  verify_media actor media declared now stream w =
      if media.state is available
      then (w, ok media)
      else if media.state is uploaded
      then guarded w
          (update_state_for_actor actor media.media_id uploaded validating now unchanged w.table)
          (λ w'. verify_stream actor media declared now w' stream)
          (λ w'. if_available w' (get_or_raise (get_for_actor actor media.media_id w'.table)))
      else (w, err MediaError.conflict)

  abbrev pub is_downloadable : Lifecycle → Bool
  is_downloadable Lifecycle.available = true
  is_downloadable Lifecycle.expired = true
  is_downloadable _ = false

  unfoldable pub request_download :
      Storage → (Permission → Bool) → Media → World → World × Result MediaError String
  request_download storage granted media w =
      if is_downloadable media.state
      then (if granted (download_permission media.category)
          then elim (storage.presign_download media.object_key) [
            | none ↦ (w, err MediaError.invalid)
            | some url ↦ (enqueue_audit MediaEvent.access_requested media.media_id w, ok url)
          ]
          else (w, err MediaError.unauthorized))
      else (w, err MediaError.conflict)

  -- `is_protected(media.retention_class, media.metadata_)`
  abbrev pub is_held : Media → Bool
  is_held media = held media.retention_class
    where
      held : Option String → Bool
      held none = is_protected texts.lower "" media.hold
      held (some c) = is_protected texts.lower c media.hold

  -- From the deletion of the object on.
  unfoldable pub finish_deletion : Actor → Media → ℕ → Bool → World → Answer
  finish_deletion actor media now false w = (remove media.object_key w, err MediaError.invalid)
  finish_deletion actor media now true w =
      guarded (remove media.object_key w)
        (update_state_for_actor actor media.media_id deletion_pending deleted now
          (λ row. record row { deleted_at = some now }) w.table)
        (λ w'. (
          enqueue_audit MediaEvent.deletion_completed media.media_id w',
          ok (record media { state = deleted; deleted_at = some now }),
        ))
        (refresh actor media)

  abbrev pub if_deleted : World → Result MediaError Media → Answer
  if_deleted w (err e) = (w, err e)
  if_deleted w (ok m) = if m.state is deleted then (w, ok m) else (w, err MediaError.conflict)

  unfoldable pub request_deletion : Storage → Actor → Media → ℕ → World → Answer
  request_deletion storage actor media now w =
      if media.state is deleted
      then (w, ok media)
      else if is_held media
      then (w, err MediaError.protected_error)
      else if media.state is deletion_pending
      then finish_deletion actor media now (storage.delete media.object_key) w
      else guarded w
          (update_state_for_actor actor media.media_id media.state deletion_pending now unchanged
            w.table)
          (λ w'.
            finish_deletion actor (record media { state = deletion_pending }) now
              (storage.delete media.object_key)
              (enqueue_audit MediaEvent.deletion_requested media.media_id w'))
          (λ w'. if_deleted w' (get_or_raise (get_for_actor actor media.media_id w'.table)))
