-- ===== src/Media/Sweeps.antt =====
-- What the phases of the cleanup worker do to the rows.
use hotelops_ai.Prelude.{
  ℕ, ◌<◌, ◌≡◌, refl, sym, ◌∙◌, inl, inr, Bool, true, false, Option, some, List, String, ◌is◌, arith,
  Bool-cases,
}
use hotelops_ai.Media.{
  uploading, available, failed, deletion_pending, deleted, lifecycle_code, lifecycle_name, Media,
  World, is_reconcilable,
}
use hotelops_ai.Media.Content.{Texts}
use hotelops_ai.Media.Service.{Settings, Storage, unchanged, is_held, remove}
use hotelops_ai.Media.Cleanup.{
  mark_expired, finish_expired, fail_stale_upload, removed_if, is_gone, settle_missing,
}
use hotelops_ai.Media.Rows.{Moves, Grows, Grows-refl, put-Grows}
use hotelops_ai.Media.Writes.{unscoped-elim, Seen, leave-Moves, seen-Later}

module _ (settings : Settings) (texts : Texts) (sha256 : List ℕ → String)
    (Streamed : String → List (List ℕ) → Type 0) where
  -- A record that is leaving was not held when it began to.
  gone-Moves :
      (m : Media) (now : ℕ) (at : Option ℕ)
      → is_gone settings texts sha256 m.state ≡ true
      → Moves settings texts sha256 Streamed m
          (record m { state = deleted; updated_at = now; deleted_at = at })
  gone-Moves m now at gone = record {
    later = record {
      same_id = refl;
      same_category = refl;
      same_key = refl;
      same_type = refl;
      same_hold = refl;
      same_held = refl;
      moves_on = ground arith;
      rests = λ same. absurd (ground arith);
    };
    sound =
        λ s. record { sized = λ h. cc; spared = λ h. s.spared (ground arith); verified = λ h. cc };
  }

  module _ (w : World) (media : Media)
      (seen : Seen settings texts sha256 Streamed w.table media) where
    pub mark_expired-Grows :
        (now : ℕ)
        → Grows settings texts sha256 Streamed w.table
            (mark_expired settings texts sha256 media now w).0.table
    unfolding mark_expired
    mark_expired-Grows now = elim (Bool-cases (is_held settings texts sha256 media)) [
      | inl held ↦ rw held (Grows-refl settings texts sha256 Streamed w.table)
      | inr free ↦ elim (Bool-cases (media.state is available)) [
        | inr other ↦ rw (free, other) (Grows-refl settings texts sha256 Streamed w.table)
        | inl was ↦
            rw (free, was)
              (unscoped-elim
                (λ (a : World × Bool). Grows settings texts sha256 Streamed w.table a.0.table) w
                media.media_id available deletion_pending now unchanged _ _
                (λ row at here.
                  put-Grows settings texts sha256 Streamed media.media_id row _ w.table at (
                    leave-Moves settings texts sha256 Streamed row deletion_pending now
                      row.deleted_at (rw here (omega arith)) refl
                      (λ h.
                        sym
                          (seen-Later settings texts sha256 Streamed w media seen row at).same_held
                        ∙ free)))
                (Grows-refl settings texts sha256 Streamed w.table))
      ]
    ]

    pub finish_expired-Grows :
        (now : ℕ) (deletes : Bool)
        → Grows settings texts sha256 Streamed w.table
            (finish_expired settings texts sha256 media now deletes w).0.table
    unfolding finish_expired
    finish_expired-Grows now false = Grows-refl settings texts sha256 Streamed w.table
    finish_expired-Grows now true =
        unscoped-elim (λ (a : World × Bool). Grows settings texts sha256 Streamed w.table a.0.table)
          (remove settings texts sha256 media.object_key w) media.media_id deletion_pending deleted
          now (λ row. record row { deleted_at = some now }) _ _
          (λ row at here.
            put-Grows settings texts sha256 Streamed media.media_id row _ w.table at
              (gone-Moves row now (some now) (rw here refl)))
          (Grows-refl settings texts sha256 Streamed w.table)

    pub fail_stale_upload-Grows :
        (storage : Storage) (now : ℕ)
        → Grows settings texts sha256 Streamed w.table
            (fail_stale_upload settings texts sha256 storage now media w).0.table
    unfolding fail_stale_upload
    fail_stale_upload-Grows storage now =
        unscoped-elim (λ (a : World × Bool). Grows settings texts sha256 Streamed w.table a.0.table)
          (removed_if settings texts sha256 (storage.delete media.object_key) media.object_key w)
          media.media_id uploading failed now unchanged _ _
          (λ row at here. put-Grows settings texts sha256 Streamed media.media_id row _ w.table at (
            leave-Moves settings texts sha256 Streamed row failed now row.deleted_at
              (rw here (omega arith)) refl (λ h. cc)))
          (Grows-refl settings texts sha256 Streamed w.table)

    pub settle_missing-Grows :
        (now : ℕ)
        → is_reconcilable media.state ≡ true
        → Grows settings texts sha256 Streamed w.table
            (settle_missing settings texts sha256 now media w).0.table
    unfolding settle_missing
    settle_missing-Grows now there = elim (Bool-cases (is_gone settings texts sha256 media.state)) [
      | inl gone ↦ rw gone (
          unscoped-elim
            (λ (a : World × Bool). Grows settings texts sha256 Streamed w.table a.0.table) w
            media.media_id media.state deleted now (λ row. record row { deleted_at = some now }) _ _
            (λ row at here.
              put-Grows settings texts sha256 Streamed media.media_id row _ w.table at
                (gone-Moves row now (some now) (rw here gone)))
            (Grows-refl settings texts sha256 Streamed w.table))
      | inr stays ↦ rw stays (
          unscoped-elim
            (λ (a : World × Bool). Grows settings texts sha256 Streamed w.table a.0.table) w
            media.media_id media.state failed now unchanged _ _
            (λ row at here.
              let early : lifecycle_code row.state < 6 = rw here (ground arith) in
              put-Grows settings texts sha256 Streamed media.media_id row _ w.table at (
                leave-Moves settings texts sha256 Streamed row failed now row.deleted_at early refl
                  (λ h. cc)))
            (Grows-refl settings texts sha256 Streamed w.table))
    ]
