-- ===== src/Media/Safety.antt =====
-- Requests and the cleanup worker in any interleaving: a request or a sweep reads a record, and
-- writes later, when others may have written.
use mathlib.Core.List.{Memᴰ}
use hotelops_ai.Prelude.{
  ℕ, ◌<◌, ◌≡◌, refl, sym, ap, ◌∙◌, inl, inr, Bool, true, false, Option, none, some, List, [], ◌∷◌,
  String, ◌==◌, ok, err, arith, Bool-cases, ==_iff,
}
use hotelops_ai.Access.{Actor, has_venue_access}
use hotelops_ai.Media.{
  uploading, available, Media, World, put, settle, unit_of_work, is_reconcilable,
}
use hotelops_ai.Media.Content.{Texts}
use hotelops_ai.Media.Service.{
  Settings, Storage, Answer, CompleteRequest, complete_upload, initiate_multipart, abort_upload,
  verify_media, request_deletion, is_held,
}
use hotelops_ai.Media.Cleanup.{mark_expired, finish_expired, fail_stale_upload, settle_missing}
use hotelops_ai.Media.Upload.{UploadRequest, new_media, initiate_upload}
use hotelops_ai.Media.Rows.{
  Later-refl, Later-trans, IsVerified, IsSound, Grows, Grows-refl, Grows-some, Grows-back,
  is_leaving,
}
use hotelops_ai.Media.Writes.{Ends, Seen}
use hotelops_ai.Media.Writes.Completion.{
  complete_upload-Ends, initiate_multipart-Ends, abort_upload-Ends,
}
use hotelops_ai.Media.Writes.Removal.{request_deletion-Ends}
use hotelops_ai.Media.Writes.Verification.{verify_media-Ends}
use hotelops_ai.Media.Sweeps.{
  mark_expired-Grows, finish_expired-Grows, fail_stale_upload-Grows, settle_missing-Grows,
}

pub record System : Type 0 where
  pub world : World
  pub reads : List Media

abbrev pub acted : System → World → System
acted s w = record s { world = w }

abbrev pub nothing : System
nothing = record { world = record { table = λ id. none; audit = []; removed = [] }; reads = [] }

module _ (settings : Settings) (texts : Texts) (sha256 : List ℕ → String)
    (Streamed : String → List (List ℕ) → Type 0) where
  -- The requests that write after the read of a record.
  pub data Call : Media → Type 0 where
    completes : {media : Media} → Storage → CompleteRequest → Call media
    initiates : {media : Media} → Storage → Call media
    aborts : {media : Media} → Call media
    verifies :
        {media : Media}
        → Option String
        → (stream : Option (List (List ℕ)))
        → ((chunks : List (List ℕ)) → stream ≡ some chunks → Streamed media.object_key chunks)
        → Call media
    deletes : {media : Media} → Storage → Call media

  abbrev pub perform : (media : Media) → Call media → Actor → ℕ → World → Answer
  perform media (completes storage request) actor now =
      complete_upload settings texts sha256 storage actor media request now
  perform media (initiates storage) actor now =
      initiate_multipart settings texts sha256 storage media
  perform media aborts actor now = abort_upload settings texts sha256 actor media now
  perform media (verifies declared stream streamed) actor now =
      verify_media settings texts sha256 actor media declared now stream
  perform media (deletes storage) actor now =
      request_deletion settings texts sha256 storage actor media now

  -- The transactions of the worker.
  pub data Task : Media → Type 0 where
    marks : {media : Media} → Task media
    finishes : {media : Media} → Bool → Task media
    fails_stale : {media : Media} → Storage → Task media
    settles : {media : Media} → is_reconcilable media.state ≡ true → Task media

  abbrev pub carry_out : (media : Media) → Task media → ℕ → World → World × Bool
  carry_out media marks now = mark_expired settings texts sha256 media now
  carry_out media (finishes removed) now = finish_expired settings texts sha256 media now removed
  carry_out media (fails_stale storage) now =
      fail_stale_upload settings texts sha256 storage now media
  carry_out media (settles there) now = settle_missing settings texts sha256 now media

  pub data Step : System → System → Type 0 where
    registers :
        (actor : Actor) (request : UploadRequest) (id : ℕ) (key : String) (now : ℕ)
        (venue_found presigned : Bool) (s : System)
        → s.world.table id ≡ none
        → Step s (
            acted s
              (unit_of_work
                (initiate_upload actor request id key now venue_found presigned)
                s.world).0)
    reads_row :
        (m : Media) (s : System)
        → s.world.table m.media_id ≡ some m
        → Step s (record s { reads = m ∷ s.reads })
    serves :
        (media : Media) (call : Call media) (actor : Actor) (now : ℕ) (s : System)
        → Memᴰ media s.reads
        → Step s (acted s (unit_of_work (perform media call actor now) s.world).0)
    sweeps :
        (media : Media) (task : Task media) (now : ℕ) (s : System)
        → Memᴰ media s.reads
        → Step s (acted s (carry_out media task now s.world).0)

  pub data Reach : System → Type 0 where
    start : Reach nothing
    later : {s t : System} → Reach s → Step s t → Reach t

  record IsSafe (s : System) : Type 0 where
    reads : (m : Media) → Memᴰ m s.reads → Seen settings texts sha256 Streamed s.world.table m
    rows :
        (id : ℕ) (m : Media)
        → s.world.table id ≡ some m
        → (m.media_id ≡ id) × IsSound settings texts sha256 Streamed m

  perform-Ends :
      (w : World) (media : Media)
      → Seen settings texts sha256 Streamed w.table media
      → (call : Call media) (actor : Actor) (now : ℕ)
      → Ends settings texts sha256 Streamed w (perform media call actor now w)
  perform-Ends w media seen (completes storage request) actor now =
      complete_upload-Ends settings texts sha256 Streamed w media seen storage actor request now
  perform-Ends w media seen (initiates storage) actor now =
      initiate_multipart-Ends settings texts sha256 Streamed w media seen storage
  perform-Ends w media seen aborts actor now =
      abort_upload-Ends settings texts sha256 Streamed w media seen actor now
  perform-Ends w media seen (verifies declared stream streamed) actor now =
      verify_media-Ends settings texts sha256 Streamed w media seen actor declared now stream
        streamed
  perform-Ends w media seen (deletes storage) actor now =
      request_deletion-Ends settings texts sha256 Streamed w media seen storage actor now

  carry_out-Grows :
      (w : World) (media : Media)
      → Seen settings texts sha256 Streamed w.table media
      → (task : Task media) (now : ℕ)
      → Grows settings texts sha256 Streamed w.table (carry_out media task now w).0.table
  carry_out-Grows w media seen marks now =
      mark_expired-Grows settings texts sha256 Streamed w media seen now
  carry_out-Grows w media seen (finishes removed) now =
      finish_expired-Grows settings texts sha256 Streamed w media seen now removed
  carry_out-Grows w media seen (fails_stale storage) now =
      fail_stale_upload-Grows settings texts sha256 Streamed w media seen storage now
  carry_out-Grows w media seen (settles there) now =
      settle_missing-Grows settings texts sha256 Streamed w media seen now there

  -- A unit of work that raises leaves the table.
  settle-Grows :
      (w : World) (a : Answer)
      → Ends settings texts sha256 Streamed w a
      → Grows settings texts sha256 Streamed w.table (settle w a).0.table
  settle-Grows w (w', ok r) ends = ends
  settle-Grows w (w', err e) ends = Grows-refl settings texts sha256 Streamed w.table

  grown-IsSafe :
      (s : System) (w : World)
      → IsSafe s
      → Grows settings texts sha256 Streamed s.world.table w.table
      → IsSafe (acted s w)
  grown-IsSafe s w safe grown = record {
    reads = λ m read.
        let (c, at, after) = safe.reads m read in
        let (c', at', moved) = Grows-some settings texts sha256 Streamed m.media_id c grown at in
        (c', at', Later-trans settings texts sha256 Streamed after moved.later);
    rows = λ id c at.
        let (m, before, moved) = Grows-back settings texts sha256 Streamed id c grown at in
        let (own, sound) = safe.rows id m before in
        (sym moved.later.same_id ∙ own, moved.sound sound);
  }

  added-IsSafe :
      (s : System) (m : Media)
      → IsSafe s
      → s.world.table m.media_id ≡ none
      → m.state ≡ uploading
      → IsSafe (acted s (record s.world { table = put m.media_id m s.world.table }))
  added-IsSafe s m safe free here = record { reads = seen; rows = sound }
    where
      seen :
          (r : Media)
          → Memᴰ r s.reads
          → Seen settings texts sha256 Streamed (put m.media_id m s.world.table) r
      seen r read =
          let (c, at, after) = safe.reads r read in
          elim (Bool-cases (r.media_id == m.media_id)) [
            | inl hit ↦
                absurd (
                  ground (arith, at, free, ap s.world.table ((==_iff r.media_id m.media_id).0 hit)))
            | inr miss ↦ (c, rw miss at, after)
          ]

      sound :
          (id : ℕ) (c : Media)
          → put m.media_id m s.world.table id ≡ some c
          → (c.media_id ≡ id) × IsSound settings texts sha256 Streamed c
      sound id c at = elim (Bool-cases (id == m.media_id)) [
        | inr miss ↦ safe.rows id c (ground (arith, at, miss))
        | inl hit ↦
            let same : m ≡ c = ground (arith, at, hit) in
            rw (sym same) (
              sym ((==_iff id m.media_id).0 hit),
              record {
                sized = λ h. ground (arith, h, here);
                spared = λ h. ground (arith, h, here);
                verified = λ h. absurd (ground (arith, h, here));
              },
            )
      ]

  registers-IsSafe :
      (actor : Actor) (request : UploadRequest) (id : ℕ) (key : String) (now : ℕ)
      (venue_found presigned : Bool) (s : System)
      → s.world.table id ≡ none
      → IsSafe s
      → IsSafe (
          acted s
            (unit_of_work
              (initiate_upload actor request id key now venue_found presigned)
              s.world).0)
  unfolding unit_of_work initiate_upload
  registers-IsSafe actor request id key now venue_found presigned s free safe =
      elim (Bool-cases (has_venue_access actor request.venue_id)) [
        | inr outside ↦ rw outside safe
        | inl inside ↦ elim (Bool-cases venue_found) [
          | inr missing ↦ rw (inside, missing) safe
          | inl there ↦ elim (Bool-cases presigned) [
            | inr refused ↦ rw (inside, there, refused) safe
            | inl signed ↦
                let added = added-IsSafe s (new_media actor request id key now) safe free refl in
                rw (inside, there, signed) (record { reads = added.reads; rows = added.rows })
          ]
        ]
      ]

  Step-IsSafe : {s t : System} → Step s t → IsSafe s → IsSafe t
  unfolding unit_of_work
  Step-IsSafe (registers actor request id key now venue_found presigned s free) safe =
      registers-IsSafe actor request id key now venue_found presigned s free safe
  Step-IsSafe (reads_row m s at) safe = record {
    reads = λ r read. elim read [
      | Memᴰ.head same ↦ rw same (m, at, Later-refl settings texts sha256 Streamed m)
      | Memᴰ.tail old ↦ safe.reads r old
    ];
    rows = safe.rows;
  }
  Step-IsSafe (serves media call actor now s read) safe = grown-IsSafe s _ safe (
      settle-Grows s.world (perform media call actor now s.world)
        (perform-Ends s.world media (safe.reads media read) call actor now))
  Step-IsSafe (sweeps media task now s read) safe =
      grown-IsSafe s _ safe (carry_out-Grows s.world media (safe.reads media read) task now)

  Reach-IsSafe : {s : System} → Reach s → IsSafe s
  Reach-IsSafe start = record { reads = λ m read. elim read [ ]; rows = λ id m at. cc }
  Reach-IsSafe (later before step) = Step-IsSafe step (Reach-IsSafe before)

  -- However requests and the worker interleave, a record is available only where its size is
  -- positive, an object of its key was read whose content passed the validation for its category,
  -- type and size, and the checksum of the record is the one of the content, where the settings ask
  -- for these.
  pub available-IsVerified :
      {s : System} (id : ℕ) (m : Media)
      → Reach s
      → s.world.table id ≡ some m
      → m.state ≡ available
      → (0 < m.size_bytes) × IsVerified settings texts sha256 Streamed m
  available-IsVerified id m reached at here =
      let (own, sound) = (Reach-IsSafe reached).rows id m at in
      (sound.sized (rw here refl), sound.verified here)

  -- However requests and the worker interleave, a record under a legal or preservation hold never
  -- expires, and is neither to be deleted nor deleted.
  pub held-stays :
      {s : System} (id : ℕ) (m : Media)
      → Reach s
      → s.world.table id ≡ some m
      → is_held settings texts sha256 m ≡ true
      → is_leaving settings texts sha256 Streamed m.state ≡ false
  held-stays id m reached at held =
      let (own, sound) = (Reach-IsSafe reached).rows id m at in
      elim (Bool-cases (is_leaving settings texts sha256 Streamed m.state)) [
        | inr stays ↦ stays
        | inl leaves ↦ absurd (ground (arith, held, sound.spared leaves))
      ]
