-- ===== src/Tests/Media.antt =====
-- Tests of the media lifecycle: a recording is registered, stored and verified; another is held.
use mathlib.Core.List.{Memᴰ}
use hotelops_ai.Prelude.{
  ℕ, ◌<◌, ◌≡◌, refl, true, false, Option, none, some, List, [], ◌∷◌, ◌++◌, ◌-◌, String, arith, ok,
  if◌then◌else◌, length,
}
use hotelops_ai.Access.{Actor}
use hotelops_ai.Retention.{
  MediaCategory, Hold, resolve_class, category_default, is_protected, duration_for,
}
use hotelops_ai.Media.{World, uploaded, available, Media, unit_of_work, update_state_for_actor}
use hotelops_ai.Media.Content.{
  Texts, read_prefix, take, concat, prefix_bytes, validate_content, detect_format,
  content_type_format,
}
use hotelops_ai.Media.Content.Prefix.{read_prefix-take}
use hotelops_ai.Media.Service.{
  Storage, Settings, CompleteRequest, stored, complete_upload, complete_probed, store_upload, probe,
  has_size, verify_media, verify_stream, request_deletion, is_held,
}
use hotelops_ai.Media.Cleanup.{fail_stale_upload}
use hotelops_ai.Media.Upload.{UploadRequest, initiate_upload, new_media}
use hotelops_ai.Media.Rows.{IsVerified, is_leaving}
use hotelops_ai.Media.Lost.{fail_stale_upload-complete_upload}
use hotelops_ai.Media.Safety.{
  System, Call, completes, verifies, Reach, start, later, registers, reads_row, serves, nothing,
  acted, perform, available-IsVerified, held-stays,
}
use hotelops_ai.Media.Rollback.{verify_media-restored, request_deletion-restored}

abbrev texts : Texts
texts = record { essence = λ t. t; lower = λ t. t; within = λ a b. false }

abbrev digest : List ℕ → String
digest bytes = "d"

abbrev settings : Settings
settings = record {
  content_validation_enabled = true;
  checksum_verification_enabled = true;
  checksum_verification_max_bytes = 0;
}

-- The leading bytes of an MP4 file.
abbrev video : List (List ℕ)
video = (0 ∷ 0 ∷ 0 ∷ []) ∷ (32 ∷ 0x66 ∷ 0x74 ∷ 0x79 ∷ 0x70 ∷ []) ∷ []

abbrev storage : Storage
storage = record {
  complete_multipart = λ upload key parts. none;
  head = λ key. some (some (record { size = 8; sha256 = none }));
  initiate_multipart = λ key. none;
  presign_part = λ upload key n. none;
  presign_download = λ key. none;
  delete = λ key. false;
  exists = λ key. some true;
  stream = λ key. some video;
}

abbrev actor : Actor
actor = record { actor_id = 1; tenant_id = 2; venue_scope = [] }

abbrev recording : Option String → UploadRequest
recording class = record {
  venue_id = 3;
  category = MediaCategory.recordings;
  content_type = "video/mp4";
  expected_size = 8;
  checksum = none;
  retention_class = class;
  hold = Hold.absent;
  upload_id = none;
}

abbrev request : CompleteRequest
request = record { upload_id = none; parts = []; checksum = none; expected_size = none }

abbrev Any : String → List (List ℕ) → Type 0
Any key chunks = Unit {0}

abbrev first : Media
first = new_media actor (recording none) 7 "a" 10

abbrev second : Media
second = record first {
  size_bytes = 8;
  state = uploaded;
  retention_class = some "cctv_30_days";
  expires_at = some 2592011;
  updated_at = 11;
  uploaded_at = some 11;
}

abbrev third : Media
third = record second {
  checksum = some "d";
  state = available;
  updated_at = 12;
  validated_at = some 12;
}

abbrev call_one : Call settings texts digest Any first
call_one = completes storage request

abbrev call_two : Call settings texts digest Any second
call_two = verifies none (some video) (λ chunks h. tt)

abbrev s1 : System
s1 =
    acted nothing
      (unit_of_work (initiate_upload actor (recording none) 7 "a" 10 true true) nothing.world).0

abbrev s2 : System
s2 = record s1 { reads = first ∷ [] }

abbrev s3 : System
s3 = acted s2 (unit_of_work (perform settings texts digest Any first call_one actor 11) s2.world).0

abbrev s4 : System
s4 = record s3 { reads = second ∷ first ∷ [] }

abbrev s5 : System
s5 = acted s4 (unit_of_work (perform settings texts digest Any second call_two actor 12) s4.world).0

first_there : s1.world.table 7 ≡ some first
unfolding unit_of_work initiate_upload
first_there = refl

second_there : s3.world.table 7 ≡ some second
unfolding unit_of_work initiate_upload complete_upload complete_probed store_upload probe has_size
    update_state_for_actor resolve_class category_default duration_for
second_there = refl

third_there : s5.world.table 7 ≡ some third
unfolding unit_of_work initiate_upload complete_upload complete_probed store_upload probe has_size
    update_state_for_actor resolve_class category_default duration_for verify_media verify_stream
    validate_content detect_format content_type_format read_prefix
third_there = refl

reached : Reach settings texts digest Any s5
reached =
    later
      (later
        (later
          (later (later start (registers actor (recording none) 7 "a" 10 true true nothing refl))
            (reads_row first s1 first_there))
          (serves first call_one actor 11 s2 (Memᴰ.head refl)))
        (reads_row second s3 second_there))
      (serves second call_two actor 12 s4 (Memᴰ.head refl))

available-IsVerified_example : (0 < third.size_bytes) × IsVerified settings texts digest Any third
available-IsVerified_example =
    available-IsVerified settings texts digest Any 7 third reached third_there refl

abbrev held : Media
held = new_media actor (recording (some "legal_hold")) 7 "a" 10

abbrev s_held : System
s_held =
    acted nothing
      (unit_of_work (initiate_upload actor (recording (some "legal_hold")) 7 "a" 10 true true)
        nothing.world).0

held_there : s_held.world.table 7 ≡ some held
unfolding unit_of_work initiate_upload
held_there = refl

held_is_held : is_held settings texts digest held ≡ true
unfolding is_protected
held_is_held = refl

held-stays_example : is_leaving settings texts digest Any held.state ≡ false
held-stays_example =
    held-stays settings texts digest Any 7 held
      (later start
        (registers actor (recording (some "legal_hold")) 7 "a" 10 true true nothing refl))
      held_there held_is_held

verify_media-restored_example :
    ((unit_of_work (verify_media settings texts digest actor second none 12 none) s3.world).0.table
      ≡ s3.world.table)
    × ((unit_of_work
          (verify_media settings texts digest actor second none 12 none)
          s3.world).0.audit
        ≡ s3.world.audit)
verify_media-restored_example =
    verify_media-restored settings texts digest actor second none 12 none s3.world refl

request_deletion-restored_example :
    ((unit_of_work (request_deletion settings texts digest storage actor third 20) s5.world).0.table
      ≡ s5.world.table)
    × ((unit_of_work
          (request_deletion settings texts digest storage actor third 20)
          s5.world).0.audit
        ≡ s5.world.audit)
request_deletion-restored_example =
    request_deletion-restored settings texts digest storage actor third 20 s5.world refl

abbrev deleting : Storage
deleting = record storage { delete = λ key. true }

abbrev completed : World
completed = (complete_upload settings texts digest deleting actor first request 11 s1.world).0

abbrev completed_media : Media
completed_media =
    stored settings texts digest first request (record { size = 8; sha256 = none }) 11
      (record first { state = uploaded })

completed-answered :
    complete_upload settings texts digest deleting actor first request 11 s1.world
    ≡ (completed, ok completed_media)
unfolding unit_of_work initiate_upload complete_upload complete_probed store_upload probe has_size
    update_state_for_actor resolve_class category_default duration_for
completed-answered = refl

fail_stale_upload-complete_upload_example :
    let swept = fail_stale_upload settings texts digest deleting 30 first completed in
    (row : Media) × (swept.0.table 7 ≡ some row)
    × (row.state ≡ uploaded)
    × (row.object_key ≡ "a")
    × (swept.0.removed ≡ (if deleting.delete "a" then "a" ∷ s1.world.removed else s1.world.removed))
    × (swept.1 ≡ false)
fail_stale_upload-complete_upload_example =
    fail_stale_upload-complete_upload settings texts digest deleting actor first request 11 30
      s1.world completed refl first_there refl completed-answered

read_prefix-take_example :
    read_prefix prefix_bytes false [] video
    ≡ [] ++ take (prefix_bytes - length {A = ℕ} []) (concat video)
read_prefix-take_example = read_prefix-take prefix_bytes false [] video (omega arith)
