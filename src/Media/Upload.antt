-- ===== src/Media/Upload.antt =====
-- `initiate_upload` of backend/app/application/services/media_upload.py. The identifier and the
-- object key, which the code generates, are arguments, as are whether the venue is found and whether
-- the storage presigns the upload.
use hotelops_ai.Prelude.{ℕ, Bool, not, Option, none, String, ok, err, if◌then◌else◌}
use hotelops_ai.Access.{Actor, has_venue_access}
use hotelops_ai.Retention.{MediaCategory, Hold}
use hotelops_ai.Media.{uploading, failed, Media, MediaError, MediaEvent, World, put, enqueue_audit}
use hotelops_ai.Media.Service.{Answer}

pub record UploadRequest : Type 0 where
  pub venue_id : ℕ
  pub category : MediaCategory
  pub content_type : String
  pub expected_size : ℕ
  pub checksum : Option String
  pub retention_class : Option String
  pub hold : Hold
  pub upload_id : Option String

abbrev pub new_media : Actor → UploadRequest → ℕ → String → ℕ → Media
new_media actor request id key now = record {
  media_id = id;
  tenant_id = actor.tenant_id;
  venue_id = request.venue_id;
  category = request.category;
  object_key = key;
  content_type = request.content_type;
  size_bytes = request.expected_size;
  checksum = request.checksum;
  state = uploading;
  retention_class = request.retention_class;
  hold = request.hold;
  upload_id = request.upload_id;
  expires_at = none;
  created_at = now;
  updated_at = now;
  uploaded_at = none;
  validated_at = none;
  deleted_at = none;
}

abbrev add_row : Media → World → World
add_row media w = record w { table = put media.media_id media w.table }

unfoldable pub initiate_upload :
    Actor → UploadRequest → ℕ → String → ℕ → Bool → Bool → World → Answer
initiate_upload actor request id key now venue_found presigned w =
    if not (has_venue_access actor request.venue_id)
    then (w, err MediaError.unauthorized)
    else if not venue_found
    then (w, err MediaError.unauthorized)
    else if presigned
    then (
      enqueue_audit MediaEvent.upload_initiated id (add_row (new_media actor request id key now) w),
      ok (new_media actor request id key now),
    )
    else (
      add_row (record (new_media actor request id key now) { state = failed }) w,
      err MediaError.storage_error,
    )
