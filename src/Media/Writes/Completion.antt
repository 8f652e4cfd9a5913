-- ===== src/Media/Writes/Completion.antt =====
-- The requests that upload: the completion, the start of a multipart upload and the abort.
use hotelops_ai.Prelude.{
  ℕ, ◌≡◌, refl, sym, ◌∙◌, inl, inr, true, ◌||◌, Option, none, some, List, String, ◌is◌, ok, err,
  arith, Bool-cases, is_iff, Option-cases,
}
use hotelops_ai.Access.{Actor}
use hotelops_ai.Media.{
  uploading, uploaded, failed, deleted, lifecycle_code, lifecycle_name, Media, MediaError, World,
  to_state,
}
use hotelops_ai.Media.Content.{Texts}
use hotelops_ai.Media.Service.{
  Settings, Storage, CompleteRequest, ObjectMeta, Probe, found, fails, raises, unchanged, is_held,
  stored, has_size, store_upload, complete_probed, complete_upload, probe, is_replayed,
  write_upload, with_upload, initiate_multipart, abort_upload,
}
use hotelops_ai.Media.Rows.{Moves, Grows-refl, put-Grows, resolve_class-held, resolve_none-held}
use hotelops_ai.Media.Writes.{for_actor-elim, Ends, Seen, same-Ends, leave-Moves, seen-Later}

module _ (settings : Settings) (texts : Texts) (sha256 : List ℕ → String)
    (Streamed : String → List (List ℕ) → Type 0) (w : World) (media : Media)
    (seen : Seen settings texts sha256 Streamed w.table media) where
  stored-held :
      (request : CompleteRequest) (meta : ObjectMeta) (now : ℕ) (row : Media)
      → w.table media.media_id ≡ some row
      → lifecycle_code media.state ≡ lifecycle_code row.state
      → is_held settings texts sha256 row
        ≡ is_held settings texts sha256
            (to_state uploaded now (stored settings texts sha256 media request meta now) row)
  stored-held request meta now row at same =
      let after = seen-Later settings texts sha256 Streamed w media seen row at in
      let class = sym (after.rests same).2 in
      elim (Option-cases media.retention_class) [
        | inl unset ↦
            rw (class ∙ unset)
              (rw unset (sym (resolve_none-held texts.lower media.category row.hold)))
        | inr (c, set) ↦
            rw (class ∙ set)
              (rw set (sym (resolve_class-held texts.lower media.category c row.hold)))
      ]

  stored-Moves :
      (request : CompleteRequest) (meta : ObjectMeta) (now : ℕ) (row : Media)
      → media.state ≡ uploading
      → has_size request media meta ≡ true
      → w.table media.media_id ≡ some row
      → row.state ≡ uploading
      → Moves settings texts sha256 Streamed row
          (to_state uploaded now (stored settings texts sha256 media request meta now) row)
  unfolding has_size
  stored-Moves request meta now row was sized at here = record {
    later = record {
      same_id = refl;
      same_category = refl;
      same_key = refl;
      same_type = refl;
      same_hold = refl;
      same_held = stored-held request meta now row at (rw (was, here) refl);
      moves_on = rw here (omega arith);
      rests = λ same. absurd (ground (arith, here, same));
    };
    sound =
        λ s. record { sized = λ h. ground (arith, sized); spared = λ h. cc; verified = λ h. cc };
  }

  complete_probed-Ends :
      (actor : Actor) (request : CompleteRequest) (now : ℕ)
      → media.state ≡ uploading
      → (p : Probe)
      → Ends settings texts sha256 Streamed w
          (complete_probed settings texts sha256 actor media request now w p)
  unfolding complete_probed store_upload
  complete_probed-Ends actor request now was (raises e) = tt
  complete_probed-Ends actor request now was fails = tt
  complete_probed-Ends actor request now was (found meta) =
      elim (Bool-cases (has_size request media meta)) [
        | inr wrong ↦ rw wrong tt
        | inl sized ↦ rw sized (
            for_actor-elim (Ends settings texts sha256 Streamed w) w actor media.media_id uploading
              uploaded now (stored settings texts sha256 media request meta now) _ _
              (λ row at here.
                put-Grows settings texts sha256 Streamed media.media_id row _ w.table at
                  (stored-Moves request meta now row was sized at here))
              (same-Ends settings texts sha256 Streamed w _))
      ]

  pub complete_upload-Ends :
      (storage : Storage) (actor : Actor) (request : CompleteRequest) (now : ℕ)
      → Ends settings texts sha256 Streamed w
          (complete_upload settings texts sha256 storage actor media request now w)
  unfolding complete_upload
  complete_upload-Ends storage actor request now = elim (Bool-cases (is_replayed media.state)) [
    | inl replayed ↦ rw replayed (Grows-refl settings texts sha256 Streamed w.table)
    | inr fresh ↦ elim (Bool-cases (media.state is uploading)) [
      | inr other ↦ rw (fresh, other) tt
      | inl was ↦
          rw (fresh, was)
            (complete_probed-Ends actor request now ((is_iff media.state uploading).0 was)
              (probe storage media request))
    ]
  ]

  upload-Moves :
      (upload : String) (row : Media)
      → Moves settings texts sha256 Streamed row (with_upload settings texts sha256 upload row)
  upload-Moves upload row = record {
    later = record {
      same_id = refl;
      same_category = refl;
      same_key = refl;
      same_type = refl;
      same_hold = refl;
      same_held = refl;
      moves_on = omega arith;
      rests = λ same. (refl, refl, refl);
    };
    sound = λ s. record {
      sized = s.sized;
      spared = s.spared;
      verified = λ h.
          let v = s.verified h in
          record { chunks = v.chunks; streamed = v.streamed; valid = v.valid; hashed = v.hashed };
    };
  }

  pub initiate_multipart-Ends :
      (storage : Storage)
      → Ends settings texts sha256 Streamed w
          (initiate_multipart settings texts sha256 storage media w)
  unfolding initiate_multipart
  initiate_multipart-Ends storage = elim (Bool-cases (media.state is uploading)) [
    | inr other ↦ rw other tt
    | inl was ↦ rw was (started (storage.initiate_multipart media.object_key))
  ]
    where
      started :
          (o : Option String)
          → Ends settings texts sha256 Streamed {A = Media} w (elim o [
            | none ↦ (w, err MediaError.invalid)
            | some upload ↦ (
              write_upload settings texts sha256 media upload w,
              ok (with_upload settings texts sha256 upload media),
            )
          ])
      started none = tt
      started (some upload) =
          let (row, at, after) = seen in
          rw at (
            put-Grows settings texts sha256 Streamed media.media_id row _ w.table at
              (upload-Moves upload row))

  pub abort_upload-Ends :
      (actor : Actor) (now : ℕ)
      → Ends settings texts sha256 Streamed w (abort_upload settings texts sha256 actor media now w)
  unfolding abort_upload
  abort_upload-Ends actor now =
      elim (Bool-cases (media.state is failed || media.state is deleted)) [
        | inl over ↦ rw over (Grows-refl settings texts sha256 Streamed w.table)
        | inr open_ ↦ elim (Bool-cases (media.state is uploading)) [
          | inr other ↦ rw (open_, other) tt
          | inl was ↦
              rw (open_, was)
                (for_actor-elim (Ends settings texts sha256 Streamed w) w actor media.media_id
                  uploading failed now unchanged _ _
                  (λ row at here.
                    put-Grows settings texts sha256 Streamed media.media_id row _ w.table at (
                      leave-Moves settings texts sha256 Streamed row failed now row.deleted_at
                        (rw here (omega arith)) refl (λ h. cc)))
                  (same-Ends settings texts sha256 Streamed w _))
        ]
      ]
