-- ===== src/Media/Rollback.antt =====
-- Requests that raise: the unit of work takes their writes back.
use hotelops_ai.Prelude.{
  ℕ, ◌≡◌, refl, Bool, false, ◌&&◌, Option, none, some, List, String, ◌is◌, Result, ok, err, if-elim,
}
use hotelops_ai.Access.{Actor}
use hotelops_ai.Media.{
  uploaded, validating, available, deletion_pending, deleted, lifecycle_name, Media, MediaError,
  World, settle, unit_of_work, get_or_raise, get_for_actor,
}
use hotelops_ai.Media.Content.{Texts}
use hotelops_ai.Media.Service.{
  Settings, Storage, Answer, unchanged, content_ok, checksum_ok, verify_stream, verify_media,
  finish_deletion, request_deletion, if_available, if_deleted, is_held,
}
use hotelops_ai.Media.Writes.{for_actor-elim}

-- The table and the audit events after a unit of work are those before it.
abbrev pub Leaves : World → Answer → Type 0
Leaves w a = ((settle w a).0.table ≡ w.table) × ((settle w a).0.audit ≡ w.audit)

-- Whether the object could be read, and passed.
abbrev pub passes :
    Settings → Texts → (List ℕ → String) → Media → Option String → Option (List (List ℕ)) → Bool
passes settings texts sha256 media declared none = false
passes settings texts sha256 media declared (some chunks) =
    content_ok settings texts sha256 media chunks
    && checksum_ok settings texts sha256 media declared chunks

module _ (settings : Settings) (texts : Texts) (sha256 : List ℕ → String) where
  if_available-Leaves :
      (w : World) (r : Result MediaError Media) → Leaves w (if_available settings texts sha256 w r)
  if_available-Leaves w (err e) = (refl, refl)
  if_available-Leaves w (ok m) =
      if-elim (Leaves w) (m.state is available) (λ _. (refl, refl)) (λ _. (refl, refl))

  if_deleted-Leaves :
      (w : World) (r : Result MediaError Media) → Leaves w (if_deleted settings texts sha256 w r)
  if_deleted-Leaves w (err e) = (refl, refl)
  if_deleted-Leaves w (ok m) =
      if-elim (Leaves w) (m.state is deleted) (λ _. (refl, refl)) (λ _. (refl, refl))

  stream-Leaves :
      (actor : Actor) (media : Media) (declared : Option String) (now : ℕ) (w v : World)
      (stream : Option (List (List ℕ)))
      → passes settings texts sha256 media declared stream ≡ false
      → Leaves w (verify_stream settings texts sha256 actor media declared now v stream)
  unfolding verify_stream
  stream-Leaves actor media declared now w v none fails = (refl, refl)
  stream-Leaves actor media declared now w v (some chunks) fails = rw fails (refl, refl)

  -- A verification that finds the object unreadable, its content invalid or its checksum wrong
  -- leaves the table and the audit events as they were once its unit of work has ended: the record
  -- is not marked as failed, and no failure is recorded.
  pub verify_media-restored :
      (actor : Actor) (media : Media) (declared : Option String) (now : ℕ)
      (stream : Option (List (List ℕ))) (w : World)
      → passes settings texts sha256 media declared stream ≡ false
      → ((unit_of_work
            (verify_media settings texts sha256 actor media declared now stream)
            w).0.table
          ≡ w.table)
        × ((unit_of_work
              (verify_media settings texts sha256 actor media declared now stream)
              w).0.audit
            ≡ w.audit)
  unfolding unit_of_work verify_media
  verify_media-restored actor media declared now stream w fails =
      if-elim (Leaves w) (media.state is available) (λ _. (refl, refl))
        (λ _.
          if-elim (Leaves w) (media.state is uploaded)
            (λ _.
              for_actor-elim (Leaves w) w actor media.media_id uploaded validating now unchanged _ _
                (λ row at here. stream-Leaves actor media declared now w _ stream fails)
                (if_available-Leaves w (get_or_raise (get_for_actor actor media.media_id w.table))))
            (λ _. (refl, refl)))

  -- A deletion whose object cannot be removed from the storage leaves the table and the audit events
  -- as they were once its unit of work has ended: the record does not become one to be deleted, which
  -- the cleanup would try again.
  pub request_deletion-restored :
      (storage : Storage) (actor : Actor) (media : Media) (now : ℕ) (w : World)
      → storage.delete media.object_key ≡ false
      → ((unit_of_work (request_deletion settings texts sha256 storage actor media now) w).0.table
          ≡ w.table)
        × ((unit_of_work (request_deletion settings texts sha256 storage actor media now) w).0.audit
            ≡ w.audit)
  unfolding unit_of_work request_deletion finish_deletion
  request_deletion-restored storage actor media now w refused =
      if-elim (Leaves w) (media.state is deleted) (λ _. (refl, refl))
        (λ _.
          if-elim (Leaves w) (is_held settings texts sha256 media) (λ _. (refl, refl))
            (λ _.
              if-elim (Leaves w) (media.state is deletion_pending) (λ _. rw refused (refl, refl))
                (λ _.
                  for_actor-elim (Leaves w) w actor media.media_id media.state deletion_pending now
                    unchanged _ _ (λ row at here. rw refused (refl, refl))
                    (if_deleted-Leaves w
                      (get_or_raise (get_for_actor actor media.media_id w.table))))))
