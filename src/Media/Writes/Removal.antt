-- ===== src/Media/Writes/Removal.antt =====
-- The request for a deletion.
use hotelops_ai.Prelude.{
  ℕ, ◌<◌, ◌≡◌, refl, sym, ◌∙◌, inl, inr, Bool, true, false, some, List, String, ◌is◌, arith,
  Bool-cases,
}
use hotelops_ai.Access.{Actor}
use hotelops_ai.Media.{
  deletion_pending, deleted, lifecycle_code, lifecycle_name, Media, World, put, to_state,
  enqueue_audit, MediaEvent, get_or_raise, get_for_actor,
}
use hotelops_ai.Media.Content.{Texts}
use hotelops_ai.Media.Service.{
  Settings, Storage, unchanged, is_held, finish_deletion, request_deletion, remove,
}
use hotelops_ai.Media.Rows.{Grows, Grows-refl, Grows-trans, put-Grows, put_self}
use hotelops_ai.Media.Writes.{
  for_actor-elim, Ends, Seen, grown-Ends, if_deleted-Ends, leave-Moves, seen-Later,
}

module _ (settings : Settings) (texts : Texts) (sha256 : List ℕ → String)
    (Streamed : String → List (List ℕ) → Type 0) (w : World) (media : Media)
    (seen : Seen settings texts sha256 Streamed w.table media) where
  finish_deletion-Ends :
      (v : World) (m : Media) (actor : Actor) (now : ℕ) (deletes : Bool)
      → Grows settings texts sha256 Streamed w.table v.table
      → ((row : Media) → v.table m.media_id ≡ some row → is_held settings texts sha256 row ≡ false)
      → Ends settings texts sha256 Streamed w
          (finish_deletion settings texts sha256 actor m now deletes v)
  unfolding finish_deletion
  finish_deletion-Ends v m actor now false grown spare = tt
  finish_deletion-Ends v m actor now true grown spare =
      for_actor-elim (Ends settings texts sha256 Streamed w)
        (remove settings texts sha256 m.object_key v) actor m.media_id deletion_pending deleted now
        (λ row. record row { deleted_at = some now }) _ _
        (λ row at here. Grows-trans settings texts sha256 Streamed grown (
          put-Grows settings texts sha256 Streamed m.media_id row _ v.table at (
            leave-Moves settings texts sha256 Streamed row deleted now (some now)
              (rw here (omega arith)) refl (λ h. spare row at))))
        (grown-Ends settings texts sha256 Streamed w (remove settings texts sha256 m.object_key v) _
          grown)

  seen-held :
      (row : Media)
      → is_held settings texts sha256 media ≡ false
      → w.table media.media_id ≡ some row
      → is_held settings texts sha256 row ≡ false
  seen-held row free at =
      sym (seen-Later settings texts sha256 Streamed w media seen row at).same_held ∙ free

  -- The request whose update took the row.
  taken-Ends :
      (storage : Storage) (actor : Actor) (now : ℕ) (row : Media)
      → is_held settings texts sha256 row ≡ false
      → lifecycle_code row.state < 7
      → w.table media.media_id ≡ some row
      → Ends settings texts sha256 Streamed w (
          finish_deletion settings texts sha256 actor
            (record media { state = deletion_pending })
            now
            (storage.delete media.object_key)
            (enqueue_audit MediaEvent.deletion_requested media.media_id (record w {
              table = put media.media_id (to_state deletion_pending now unchanged row) w.table;
            })))
  taken-Ends storage actor now row free early at =
      finish_deletion-Ends
        (enqueue_audit MediaEvent.deletion_requested media.media_id (record w {
          table = put media.media_id (to_state deletion_pending now unchanged row) w.table;
        }))
        (record media { state = deletion_pending }) actor now (storage.delete media.object_key)
        (put-Grows settings texts sha256 Streamed media.media_id row _ w.table at (
          leave-Moves settings texts sha256 Streamed row deletion_pending now row.deleted_at early
            refl (λ h. free)))
        (λ row' at'.
          let same : to_state deletion_pending now unchanged row ≡ row' = ground (
            arith,
            at',
            put_self settings texts sha256 Streamed media.media_id
                (to_state deletion_pending now unchanged row) w.table,
          ) in
          rw (sym same) free)

  pub request_deletion-Ends :
      (storage : Storage) (actor : Actor) (now : ℕ)
      → Ends settings texts sha256 Streamed w
          (request_deletion settings texts sha256 storage actor media now w)
  unfolding request_deletion
  request_deletion-Ends storage actor now = elim (Bool-cases (media.state is deleted)) [
    | inl over ↦ rw over (Grows-refl settings texts sha256 Streamed w.table)
    | inr there ↦ elim (Bool-cases (is_held settings texts sha256 media)) [
      | inl held ↦ rw (there, held) tt
      | inr free ↦ elim (Bool-cases (media.state is deletion_pending)) [
        | inl pending ↦
            rw (there, free, pending)
              (finish_deletion-Ends w media actor now (storage.delete media.object_key)
                (Grows-refl settings texts sha256 Streamed w.table)
                (λ row at. seen-held row free at))
        | inr stays ↦
            rw (there, free, stays)
              (for_actor-elim (Ends settings texts sha256 Streamed w) w actor media.media_id
                media.state deletion_pending now unchanged _ _
                (λ row at here.
                  taken-Ends storage actor now row (seen-held row free at)
                    (ground (arith, here, there, stays)) at)
                (if_deleted-Ends settings texts sha256 Streamed w
                  (get_or_raise (get_for_actor actor media.media_id w.table))))
      ]
    ]
  ]
