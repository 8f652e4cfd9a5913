-- ===== src/Media/Cleanup.antt =====
-- `MediaCleanupWorker` of backend/app/workers/media_cleanup.py. Each phase of a deletion is a
-- transaction of its own, with the storage call between them; a record is the one that the query of
-- the sweep read. A sweep takes the records that its query returned, up to a request to stop. The
-- listing of the objects of a venue, and the parsing of a key, are arguments.
use hotelops_ai.Prelude.{
  ℕ, suc, ◌+◌, Bool, true, false, not, ◌&&◌, ◌||◌, Option, none, some, List, [], ◌∷◌, String, ◌is◌,
  leb, if◌then◌else◌,
}
use hotelops_ai.Media.{
  Lifecycle, uploading, available, failed, deletion_pending, deleted, lifecycle_name, Media,
  MediaEvent, World, update_state_unscoped, enqueue_audit,
}
use hotelops_ai.Media.Content.{Texts}
use hotelops_ai.Media.Service.{Storage, Settings, guarded, unchanged, is_held, remove}

module _ (settings : Settings) (texts : Texts) (sha256 : List ℕ → String) where
  -- The first phase, and whether the deletion goes on.
  unfoldable pub mark_expired : Media → ℕ → World → World × Bool
  mark_expired media now w =
      if is_held settings texts sha256 media
      then (w, false)
      else if media.state is available
      then guarded w
          (update_state_unscoped media.media_id available deletion_pending now unchanged w.table)
          (λ w'. (enqueue_audit MediaEvent.deletion_requested media.media_id w', true))
          (λ w'. (w', false))
      else (w, media.state is deletion_pending)

  -- The storage call and the last phase; whether the record was handled.
  unfoldable pub finish_expired : Media → ℕ → Bool → World → World × Bool
  finish_expired media now false w = (
    enqueue_audit MediaEvent.cleanup_failed media.media_id
        (remove settings texts sha256 media.object_key w),
    false,
  )
  finish_expired media now true w =
      guarded (remove settings texts sha256 media.object_key w)
        (update_state_unscoped media.media_id deletion_pending deleted now
          (λ row. record row { deleted_at = some now }) w.table)
        (λ w'. (enqueue_audit MediaEvent.deletion_completed media.media_id w', true))
        (λ w'. (w', false))

  abbrev go_on : Storage → Media → ℕ → World × Bool → World × Bool
  go_on storage media now (w, false) = (w, false)
  go_on storage media now (w, true) = finish_expired media now (storage.delete media.object_key) w

  unfoldable pub delete_expired : Storage → ℕ → Media → World → World × Bool
  delete_expired storage now media w = go_on storage media now (mark_expired media now w)

  -- The world after a deletion whose failure is suppressed.
  abbrev pub removed_if : Bool → String → World → World
  removed_if deletes key w = record w { removed = if deletes then key ∷ w.removed else w.removed }

  -- The object is removed before the guarded update.
  unfoldable pub fail_stale_upload : Storage → ℕ → Media → World → World × Bool
  fail_stale_upload storage now media w =
      guarded (removed_if (storage.delete media.object_key) media.object_key w)
        (update_state_unscoped media.media_id uploading failed now unchanged w.table)
        (λ w'. (enqueue_audit MediaEvent.upload_aborted media.media_id w', true))
        (λ w'. (w', false))

  abbrev pub is_gone : Lifecycle → Bool
  is_gone Lifecycle.deletion_pending = true
  is_gone Lifecycle.expired = true
  is_gone _ = false

  -- The object of the record is not there.
  unfoldable pub settle_missing : ℕ → Media → World → World × Bool
  settle_missing now media w =
      if is_gone media.state
      then guarded w
          (update_state_unscoped media.media_id media.state deleted now
            (λ row. record row { deleted_at = some now }) w.table)
          (λ w'. (enqueue_audit MediaEvent.deletion_completed media.media_id w', true))
          (λ w'. (w', false))
      else guarded w (update_state_unscoped media.media_id media.state failed now unchanged w.table)
          (λ w'. (enqueue_audit MediaEvent.cleanup_failed media.media_id w', true))
          (λ w'. (w', false))

  unfoldable pub check_object_presence : Storage → ℕ → Media → World → World × Bool
  check_object_presence storage now media w = elim (storage.exists media.object_key) [
    | none ↦ (w, false)
    | some true ↦ (w, false)
    | some false ↦ settle_missing now media w
  ]

  -- The loop of a sweep, and the number of records that it handled.
  unfoldable pub sweep : (Media → World → World × Bool) → List Media → World → World × ℕ
  sweep handle [] w = (w, 0)
  sweep handle (media ∷ records) w =
      let (w', handled) = handle media w in
      let (w'', n) = sweep handle records w' in (w'', if handled then suc n else n)

  abbrev is_owned : Option Media → Bool
  is_owned none = false
  is_owned (some m) = not (m.state is failed || m.state is deleted)

  -- Whether an object is removed as an orphan: the record of its key, and the time of its last
  -- change, `none` where the metadata is missing or could not be read.
  unfoldable pub evaluate_orphan : Bool → Bool → ℕ → ℕ → Option Media → Option ℕ → Bool
  evaluate_orphan parses enabled grace now owner last_modified =
      parses && not (is_owned owner) && enabled && is_old last_modified
    where
      is_old : Option ℕ → Bool
      is_old none = false
      is_old (some t) = leb (t + grace) now
