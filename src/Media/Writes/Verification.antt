-- ===== src/Media/Writes/Verification.antt =====
-- The verification of an upload.
use hotelops_ai.Prelude.{
  ℕ, ◌≡◌, refl, sym, inl, inr, true, ◌&&◌, Option, none, some, List, String, ◌is◌, arith,
  Bool-cases, if-elim, is_iff,
}
use hotelops_ai.Access.{Actor}
use hotelops_ai.Media.{
  uploaded, validating, available, lifecycle_name, Media, World, put, to_state, get_or_raise,
  get_for_actor,
}
use hotelops_ai.Media.Content.{Texts}
use hotelops_ai.Media.Service.{
  Settings, unchanged, content_ok, checksum_ok, wants_hash, promoted, verify_stream, verify_media,
}
use hotelops_ai.Media.Rows.{Moves, Grows, Grows-refl, Grows-trans, put-Grows, put_self}
use hotelops_ai.Media.Writes.{for_actor-elim, Ends, Seen, if_available-Ends, seen-Later}

module _ (settings : Settings) (texts : Texts) (sha256 : List ℕ → String)
    (Streamed : String → List (List ℕ) → Type 0) (w : World) (media : Media)
    (seen : Seen settings texts sha256 Streamed w.table media) where
  validating-Moves :
      (now : ℕ) (row : Media)
      → row.state ≡ uploaded
      → Moves settings texts sha256 Streamed row (to_state validating now unchanged row)
  validating-Moves now row here = record {
    later = record {
      same_id = refl;
      same_category = refl;
      same_key = refl;
      same_type = refl;
      same_hold = refl;
      same_held = refl;
      moves_on = rw here (omega arith);
      rests = λ e. absurd (ground (arith, here, e));
    };
    sound =
        λ s. record { sized = λ h. s.sized (rw here refl); spared = λ h. cc; verified = λ h. cc };
  }

  promoted-Moves :
      (chunks : List (List ℕ)) (now at : ℕ) (row : Media)
      → media.state ≡ uploaded
      → w.table media.media_id ≡ some row
      → row.state ≡ uploaded
      → Streamed media.object_key chunks
      → content_ok settings texts sha256 media chunks ≡ true
      → Moves settings texts sha256 Streamed (to_state validating at unchanged row) (
          to_state available now
            (promoted settings texts sha256 media chunks now)
            (to_state validating at unchanged row))
  promoted-Moves chunks now at row was there here streamed valid =
      let after = seen-Later settings texts sha256 Streamed w media seen row there in
      let same = after.rests (rw (was, here) refl) in
      record {
        later = record {
          same_id = refl;
          same_category = refl;
          same_key = refl;
          same_type = refl;
          same_hold = refl;
          same_held = refl;
          moves_on = omega arith;
          rests = λ e. absurd (omega (arith, e));
        };
        sound = λ s. record {
          sized = λ h. s.sized refl;
          spared = λ h. cc;
          verified = λ h. record {
            chunks = chunks;
            streamed = rw (sym after.same_key) streamed;
            valid = rw (sym after.same_category, sym after.same_type, sym same.0) valid;
            hashed = λ wanted.
                let want : wants_hash settings texts sha256 media ≡ true = rw same.0 wanted in
                rw want refl;
          };
        };
      }

  verify_stream-Ends :
      (actor : Actor) (declared : Option String) (now : ℕ) (row : Media)
      → media.state ≡ uploaded
      → w.table media.media_id ≡ some row
      → row.state ≡ uploaded
      → (stream : Option (List (List ℕ)))
      → ((chunks : List (List ℕ)) → stream ≡ some chunks → Streamed media.object_key chunks)
      → Ends settings texts sha256 Streamed w (
          verify_stream settings texts sha256 actor media declared now
            (record w {
              table = put media.media_id (to_state validating now unchanged row) w.table;
            })
            stream)
  unfolding verify_stream
  verify_stream-Ends actor declared now row was there here none streamed = tt
  verify_stream-Ends actor declared now row was there here (some chunks) streamed =
      if-elim (Ends settings texts sha256 Streamed w)
        (content_ok settings texts sha256 media chunks
          && checksum_ok settings texts sha256 media declared chunks)
        (λ passed.
          let between : Grows settings texts sha256 Streamed w.table
              (put media.media_id (to_state validating now unchanged row) w.table) =
            put-Grows settings texts sha256 Streamed media.media_id row _ w.table there
              (validating-Moves now row here) in
          for_actor-elim (Ends settings texts sha256 Streamed w)
            (record w {
              table = put media.media_id (to_state validating now unchanged row) w.table;
            })
            actor media.media_id validating available now
            (promoted settings texts sha256 media chunks now) _ _
            (λ row' at' here'.
              let same : to_state validating now unchanged row ≡ row' = ground (
                arith,
                at',
                put_self settings texts sha256 Streamed media.media_id
                    (to_state validating now unchanged row) w.table,
              ) in
              Grows-trans settings texts sha256 Streamed between (
                put-Grows settings texts sha256 Streamed media.media_id row' _ _ at' (
                  rw (sym same) (
                    promoted-Moves chunks now now row was there here (streamed chunks refl)
                      (ground (arith, passed))))))
            tt)
        (λ failed_. tt)

  pub verify_media-Ends :
      (actor : Actor) (declared : Option String) (now : ℕ) (stream : Option (List (List ℕ)))
      → ((chunks : List (List ℕ)) → stream ≡ some chunks → Streamed media.object_key chunks)
      → Ends settings texts sha256 Streamed w
          (verify_media settings texts sha256 actor media declared now stream w)
  unfolding verify_media
  verify_media-Ends actor declared now stream streamed =
      elim (Bool-cases (media.state is available)) [
        | inl over ↦ rw over (Grows-refl settings texts sha256 Streamed w.table)
        | inr there ↦ elim (Bool-cases (media.state is uploaded)) [
          | inr other ↦ rw (there, other) tt
          | inl was ↦
              rw (there, was)
                (for_actor-elim (Ends settings texts sha256 Streamed w) w actor media.media_id
                  uploaded validating now unchanged _ _
                  (λ row at here.
                    verify_stream-Ends actor declared now row ((is_iff media.state uploaded).0 was)
                      at here stream streamed)
                  (if_available-Ends settings texts sha256 Streamed w
                    (get_or_raise (get_for_actor actor media.media_id w.table))))
        ]
      ]
