-- ===== src/Media/Writes.antt =====
-- What one request of the lifecycle service does to the rows, where it returns: the parts that the
-- requests share.
pub mod Completion
pub mod Removal
pub mod Verification
use hotelops_ai.Prelude.{
  ℕ, ◌<◌, ◌≡◌, refl, sym, ◌∙◌, inl, inr, Bool, true, false, ◌&&◌, ◌||◌, Option, none, some, List,
  String, ◌is◌, ◌==◌, Result, ok, err, arith, Bool-cases, if-elim, is_iff, Option-cases,
}
use hotelops_ai.Access.{Actor}
use hotelops_ai.Media.{
  Lifecycle, uploading, uploaded, validating, available, failed, deletion_pending, deleted,
  lifecycle_code, lifecycle_name, Media, MediaError, World, put, to_state, enqueue_audit,
  MediaEvent, update_state_for_actor, update_state_unscoped, get_or_raise, get_for_actor,
}
use hotelops_ai.Media.Content.{Texts}
use hotelops_ai.Media.Service.{
  Settings, Storage, CompleteRequest, ObjectMeta, Probe, found, fails, raises, guarded, unchanged,
  is_held, content_ok, checksum_ok, wants_hash, stored, promoted, has_size, store_upload,
  complete_probed, complete_upload, probe, is_replayed, write_upload, with_upload,
  initiate_multipart, abort_upload, verify_stream, verify_media, finish_deletion, request_deletion,
  remove, if_available, if_deleted,
}
use hotelops_ai.Media.Rows.{
  guarded-elim, Later, is_stored, is_leaving, Moves, Grows, Grows-refl, Grows-trans, put-Grows,
  put_self, resolve_class-held, resolve_none-held,
}

pub for_actor-elim :
    {A : Type 0} (C : A → Type 0) (w : World) (actor : Actor) (id : ℕ) (from to : Lifecycle)
    (now : ℕ) (extra : Media → Media) (won lost : World → A)
    → ((row : Media)
        → w.table id ≡ some row
        → row.state ≡ from
        → C (won (record w { table = put id (to_state to now extra row) w.table })))
    → C (lost w)
    → C (guarded w (update_state_for_actor actor id from to now extra w.table) won lost)
unfolding update_state_for_actor
for_actor-elim C w actor id from to now extra won lost wins loses =
    guarded-elim C w id (λ m. m.tenant_id == actor.tenant_id && m.state is from)
      (to_state to now extra) won lost
      (λ row at taken. wins row at ((is_iff row.state from).0 (ground arith))) loses

pub unscoped-elim :
    {A : Type 0} (C : A → Type 0) (w : World) (id : ℕ) (from to : Lifecycle) (now : ℕ)
    (extra : Media → Media) (won lost : World → A)
    → ((row : Media)
        → w.table id ≡ some row
        → row.state ≡ from
        → C (won (record w { table = put id (to_state to now extra row) w.table })))
    → C (lost w)
    → C (guarded w (update_state_unscoped id from to now extra w.table) won lost)
unfolding update_state_unscoped
unscoped-elim C w id from to now extra won lost wins loses =
    guarded-elim C w id (λ m. m.state is from) (to_state to now extra) won lost
      (λ row at taken. wins row at ((is_iff row.state from).0 taken)) loses

module _ (settings : Settings) (texts : Texts) (sha256 : List ℕ → String)
    (Streamed : String → List (List ℕ) → Type 0) where
  -- The rows after an answer that is not an exception.
  abbrev pub Ends : {A : Type 0} → World → World × Result MediaError A → Type 0
  Ends w (w', ok r) = Grows settings texts sha256 Streamed w.table w'.table
  Ends w (w', err e) = Unit {0}

  abbrev pub Seen : (ℕ → Option Media) → Media → Type 0
  Seen table media =
      (c : Media) × (table media.media_id ≡ some c) × Later settings texts sha256 Streamed media c

  pub same-Ends : {A : Type 0} (w : World) (r : Result MediaError A) → Ends w (w, r)
  same-Ends w (ok r) = Grows-refl settings texts sha256 Streamed w.table
  same-Ends w (err e) = tt

  pub grown-Ends :
      {A : Type 0} (w v : World) (r : Result MediaError A)
      → Grows settings texts sha256 Streamed w.table v.table
      → Ends w (v, r)
  grown-Ends w v (ok r) grown = grown
  grown-Ends w v (err e) grown = tt

  pub if_deleted-Ends :
      (w : World) (r : Result MediaError Media) → Ends w (if_deleted settings texts sha256 w r)
  if_deleted-Ends w (err e) = tt
  if_deleted-Ends w (ok m) =
      if-elim (Ends w) (m.state is deleted) (λ _. same-Ends w (ok m)) (λ _. tt)

  pub if_available-Ends :
      (w : World) (r : Result MediaError Media) → Ends w (if_available settings texts sha256 w r)
  if_available-Ends w (err e) = tt
  if_available-Ends w (ok m) =
      if-elim (Ends w) (m.state is available) (λ _. same-Ends w (ok m)) (λ _. tt)

  -- A move to a state in which nothing is stored.
  pub leave-Moves :
      (m : Media) (to : Lifecycle) (now : ℕ) (at : Option ℕ)
      → lifecycle_code m.state < lifecycle_code to
      → is_stored settings texts sha256 Streamed to ≡ false
      → (is_leaving settings texts sha256 Streamed to ≡ true
          → is_held settings texts sha256 m ≡ false)
      → Moves settings texts sha256 Streamed m
          (record m { state = to; updated_at = now; deleted_at = at })
  leave-Moves m to now at on gone spare = record {
    later = record {
      same_id = refl;
      same_category = refl;
      same_key = refl;
      same_type = refl;
      same_hold = refl;
      same_held = refl;
      moves_on = omega (arith, on);
      rests = λ same. absurd (omega (arith, on, same));
    };
    sound = λ s. record {
      sized = λ h. absurd (ground arith);
      spared = spare;
      verified = λ h. absurd (ground (arith, rw h at gone));
    };
  }

  module _ (w : World) (media : Media) (seen : Seen w.table media) where
    -- The row that a guarded update takes is the record that was read, later.
    pub seen-Later :
        (row : Media)
        → w.table media.media_id ≡ some row
        → Later settings texts sha256 Streamed media row
    seen-Later row at =
        let (c, there, after) = seen in
        let same : c ≡ row = ground (arith, there, at) in rw (sym same) after
