-- ===== src/Media/Lost.antt =====
-- The sweep of stale uploads against a request that completes the upload.
use hotelops_ai.Prelude.{
  ℕ, ◌≡◌, refl, inl, inr, true, false, some, List, ◌∷◌, String, ◌is◌, ◌==◌, if◌then◌else◌, ok,
  arith, Bool-cases, ==_self,
}
use hotelops_ai.Access.{Actor}
use hotelops_ai.Media.{
  uploading, uploaded, lifecycle_name, Media, World, update_state_for_actor, update_state_unscoped,
  to_state,
}
use hotelops_ai.Media.Content.{Texts}
use hotelops_ai.Media.Service.{
  Settings, Storage, CompleteRequest, ObjectMeta, Probe, found, fails, raises, has_size, probe,
  stored, store_upload, complete_probed, complete_upload, is_replayed,
}
use hotelops_ai.Media.Cleanup.{fail_stale_upload}

module _ (settings : Settings) (texts : Texts) (sha256 : List ℕ → String) where
  -- What a completion that returns has made of an upload.
  IsStored : Media → World → World → Type 0
  IsStored media w w' =
      (row : Media) × (w'.table media.media_id ≡ some row)
      × (row.state ≡ uploaded)
      × (row.object_key ≡ media.object_key)
      × (w'.removed ≡ w.removed)

  store_upload-IsStored :
      (actor : Actor) (media : Media) (request : CompleteRequest) (meta : ObjectMeta) (now : ℕ)
      (w w' : World) {m : Media}
      → media.state ≡ uploading
      → w.table media.media_id ≡ some media
      → (media.tenant_id == actor.tenant_id) ≡ true
      → store_upload settings texts sha256 actor media request meta now w ≡ (w', ok m)
      → IsStored media w w'
  unfolding store_upload update_state_for_actor IsStored
  store_upload-IsStored actor media request meta now w w' was there own h = (
    to_state uploaded now (stored settings texts sha256 media request meta now) media,
    ground (arith, h, there, own, was, ==_self media.media_id),
    refl,
    refl,
    ground (arith, h, there, own, was),
  )

  complete_probed-IsStored :
      (actor : Actor) (media : Media) (request : CompleteRequest) (now : ℕ) (w w' : World)
      (p : Probe) {m : Media}
      → media.state ≡ uploading
      → w.table media.media_id ≡ some media
      → (media.tenant_id == actor.tenant_id) ≡ true
      → complete_probed settings texts sha256 actor media request now w p ≡ (w', ok m)
      → IsStored media w w'
  unfolding complete_probed
  complete_probed-IsStored actor media request now w w' (raises e) was there own h =
      absurd (ground (arith, h))
  complete_probed-IsStored actor media request now w w' fails was there own h =
      absurd (ground (arith, h))
  complete_probed-IsStored actor media request now w w' (found meta) was there own h =
      elim (Bool-cases (has_size request media meta)) [
        | inl sized ↦
            store_upload-IsStored actor media request meta now w w' was there own (rw sized at h)
        | inr wrong ↦ absurd (ground (arith, rw wrong at h))
      ]

  complete_upload-IsStored :
      (storage : Storage) (actor : Actor) (media : Media) (request : CompleteRequest) (now : ℕ)
      (w w' : World) {m : Media}
      → media.state ≡ uploading
      → w.table media.media_id ≡ some media
      → (media.tenant_id == actor.tenant_id) ≡ true
      → complete_upload settings texts sha256 storage actor media request now w ≡ (w', ok m)
      → IsStored media w w'
  unfolding complete_upload
  complete_upload-IsStored storage actor media request now w w' was there own h =
      let fresh : is_replayed media.state ≡ false = rw was refl in
      let here : (media.state is uploading) ≡ true = rw was refl in
      complete_probed-IsStored actor media request now w w' (probe storage media request) was there
        own (rw (fresh, here) at h)

  -- An upload that is completed between the read and the write of the sweep of stale uploads: where
  -- the record is an upload of the actor's tenant and the completion returns, the sweep that had read
  -- the upload does not count it and leaves the record uploaded, under the same key, and it removes
  -- the object of that key, which the completion had not removed, wherever the deletion succeeds.
  pub fail_stale_upload-complete_upload :
      (storage : Storage) (actor : Actor) (media : Media) (request : CompleteRequest)
      (now later : ℕ) (w w' : World) {m : Media}
      → media.state ≡ uploading
      → w.table media.media_id ≡ some media
      → (media.tenant_id == actor.tenant_id) ≡ true
      → complete_upload settings texts sha256 storage actor media request now w ≡ (w', ok m)
      → (let swept = fail_stale_upload settings texts sha256 storage later media w' in
          (row : Media) × (swept.0.table media.media_id ≡ some row)
          × (row.state ≡ uploaded)
          × (row.object_key ≡ media.object_key)
          × (swept.0.removed ≡ (
              if storage.delete media.object_key then media.object_key ∷ w.removed else w.removed))
          × (swept.1 ≡ false))
  unfolding fail_stale_upload update_state_unscoped IsStored
  fail_stale_upload-complete_upload storage actor media request now later w w' was there own h =
      let (row, at, here, key, kept) =
        complete_upload-IsStored storage actor media request now w w' was there own h in
      (
        row,
        ground (arith, at, here),
        here,
        key,
        ground (arith, at, here, kept),
        ground (arith, at, here),
      )
