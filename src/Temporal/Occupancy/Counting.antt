-- ===== src/Temporal/Occupancy/Counting.antt =====
-- The aggregate counts the tracks that are confirmed present, each of them once.
use hotelops_ai.Prelude.{
  ℕ, ◌+◌, ◌≡◌, refl, sym, ◌⊎◌, inl, inr, Bool, true, false, not, ◌&&◌, ◌||◌, Option, none, some,
  List, ◌==◌, if◌then◌else◌, ok, >>=-eq-ok, Bool-cases, ==_self, arith,
}
use hotelops_ai.Prelude.Sets.{
  member, add, discard, set_eq, IsDistinct, member-add, member-discard, add-IsDistinct,
  discard-IsDistinct, length-add, length-discard, set_eq_refl, set_eq-differ,
}
use hotelops_ai.Prelude.Int.{sub_ℕ}
use hotelops_ai.Temporal.Model.{TemporalPolicy, Kind, kind_name, Part}
use hotelops_ai.Temporal.Occupancy.{
  OccupancyState, OccupancyInput, OccupancyResult, OccupancySnapshot, occupancy_count,
  apply_in_order, order, apply, validate, is_duplicate, is_behind, build_snapshot, occupancy_name,
}

-- What a confirmed event makes of the membership of its own track.
abbrev pub counted_after : Kind → Bool → Bool
counted_after Kind.enter_confirmed before = true
counted_after Kind.stay before = before
counted_after _ before = false

-- What a snapshot, or its absence, says of the counts before and after.
abbrev pub Reports : Option OccupancySnapshot → ℕ → ℕ → Type 0
Reports none before after = before ≡ after
Reports (some n) before after =
    (n.previous_count ≡ before)
    × (n.occupancy_count ≡ after)
    × (n.delta ≡ sub_ℕ after before)
    × ((after ≡ before + 1) ⊎ (before ≡ after + 1))

-- The track of a transition is counted exactly if it was, unless the transition is applied.
abbrev pub is_applied : OccupancyResult → Bool
is_applied r = not (r.deduplicated || r.reordered)

set_eq-add : (a : ℕ) (xs : List ℕ) → member xs a ≡ false → set_eq (add a xs) xs ≡ false
set_eq-add a xs h = set_eq-differ a (add a xs) xs (ground (arith, member-add a a xs, ==_self a))

set_eq-discard : (a : ℕ) (xs : List ℕ) → member xs a ≡ true → set_eq (discard a xs) xs ≡ false
set_eq-discard a xs h =
    set_eq-differ a (discard a xs) xs (ground (arith, member-discard a a xs, ==_self a))

module _ (scope_track : ℕ) (p : TemporalPolicy) (uuid5 : List Part → ℕ) (s : OccupancyState)
    (inp : OccupancyInput) {r : OccupancyResult} where
  in_order-member :
      apply_in_order scope_track p uuid5 s inp ≡ ok r
      → (b : ℕ)
      → member r.state.occupied_tracks b ≡ (
          if inp.transition.key.track_id == b
          then counted_after inp.observation_kind (member s.occupied_tracks b)
          else member s.occupied_tracks b)
  unfolding apply_in_order
  in_order-member h b = ground (
    arith,
    member-add inp.transition.key.track_id b s.occupied_tracks,
    member-discard inp.transition.key.track_id b s.occupied_tracks,
  )

  in_order-flags : apply_in_order scope_track p uuid5 s inp ≡ ok r → is_applied r ≡ true
  unfolding apply_in_order
  in_order-flags h = ground arith

  in_order-IsDistinct :
      apply_in_order scope_track p uuid5 s inp ≡ ok r
      → IsDistinct s.occupied_tracks
      → IsDistinct r.state.occupied_tracks
  unfolding apply_in_order
  in_order-IsDistinct h d = ground (
    arith,
    add-IsDistinct inp.transition.key.track_id s.occupied_tracks,
    discard-IsDistinct inp.transition.key.track_id s.occupied_tracks,
  )

  -- An applied transition adds its track, takes it out, or leaves the set as it is.
  in_order-tracks :
      apply_in_order scope_track p uuid5 s inp ≡ ok r
      → (r.state.occupied_tracks ≡ s.occupied_tracks)
        ⊎ ((member s.occupied_tracks inp.transition.key.track_id ≡ false)
            × (r.state.occupied_tracks ≡ add inp.transition.key.track_id s.occupied_tracks))
        ⊎ ((member s.occupied_tracks inp.transition.key.track_id ≡ true)
            × (r.state.occupied_tracks ≡ discard inp.transition.key.track_id s.occupied_tracks))
  unfolding apply_in_order add
  in_order-tracks h = ground arith

  in_order-snapshot :
      apply_in_order scope_track p uuid5 s inp ≡ ok r
      → r.snapshot ≡ (
          if set_eq r.state.occupied_tracks s.occupied_tracks
          then none
          else some (
              build_snapshot scope_track p uuid5 r.state
                (occupancy_count s)
                inp.transition.event_time
                inp.transition))
  unfolding apply_in_order
  in_order-snapshot h = ground arith

  in_order-Reports :
      apply_in_order scope_track p uuid5 s inp ≡ ok r
      → IsDistinct s.occupied_tracks
      → Reports r.snapshot (occupancy_count s) (occupancy_count r.state)
  unfolding build_snapshot
  in_order-Reports h d = elim (in_order-tracks h) [
    | inl same ↦ rw (in_order-snapshot h) (rw same (rw (set_eq_refl s.occupied_tracks) refl))
    | inr (inl (new, grown)) ↦ rw (in_order-snapshot h) (
        rw grown (
          rw (set_eq-add inp.transition.key.track_id s.occupied_tracks new)
            (refl, refl, refl, inl (length-add inp.transition.key.track_id s.occupied_tracks new))))
    | inr (inr (old, shrunk)) ↦ rw (in_order-snapshot h) (
        rw shrunk (
          rw (set_eq-discard inp.transition.key.track_id s.occupied_tracks old) (
            refl,
            refl,
            refl,
            inr (sym (length-discard inp.transition.key.track_id s.occupied_tracks d old)),
          )))
  ]

  -- A redelivered or reordered transition leaves the state as it is.
  order-branches :
      order scope_track p uuid5 s inp ≡ ok r
      → ((is_applied r ≡ false) × (r.state ≡ s) × (r.snapshot ≡ none))
        ⊎ (apply_in_order scope_track p uuid5 s inp ≡ ok r)
  unfolding order
  order-branches h = elim (Bool-cases (is_duplicate scope_track p uuid5 s inp.transition)) [
    | inl again ↦ inl (ground arith)
    | inr fresh ↦ elim (Bool-cases (is_behind scope_track p uuid5 s inp.transition)) [
      | inl behind ↦ inl (ground arith)
      | inr ahead ↦ inr (ground arith)
    ]
  ]

  pub apply-branches :
      apply scope_track p uuid5 s inp ≡ ok r
      → ((is_applied r ≡ false) × (r.state ≡ s) × (r.snapshot ≡ none))
        ⊎ (apply_in_order scope_track p uuid5 s inp ≡ ok r)
  unfolding apply
  apply-branches h =
      order-branches
        (>>=-eq-ok (validate scope_track p uuid5 s inp) (λ _. order scope_track p uuid5 s inp) h).2

  -- Which tracks are counted after an accepted transition: the track of an applied transition is
  -- counted after a confirmed entry, as before after a stay, and not after any other event; every
  -- other track is counted exactly if it was, and so are all after a transition that is not applied.
  pub apply-member :
      apply scope_track p uuid5 s inp ≡ ok r
      → (b : ℕ)
      → member r.state.occupied_tracks b ≡ (
          if is_applied r && inp.transition.key.track_id == b
          then counted_after inp.observation_kind (member s.occupied_tracks b)
          else member s.occupied_tracks b)
  apply-member h b = elim (apply-branches h) [
    | inl (idle, same, _) ↦ ground arith
    | inr applied ↦ rw (in_order-flags applied) (in_order-member applied b)
  ]

  -- An accepted transition keeps the counted tracks distinct: none is counted twice.
  pub apply-IsDistinct :
      apply scope_track p uuid5 s inp ≡ ok r
      → IsDistinct s.occupied_tracks
      → IsDistinct r.state.occupied_tracks
  apply-IsDistinct h d = elim (apply-branches h) [
    | inl (idle, same, _) ↦ rw same d
    | inr applied ↦ in_order-IsDistinct applied d
  ]

  -- A snapshot is emitted exactly when the count changes, which it does by one: it holds the count
  -- before, the count after and their difference. Tracks are counted once in the state before.
  pub apply-Reports :
      apply scope_track p uuid5 s inp ≡ ok r
      → IsDistinct s.occupied_tracks
      → Reports r.snapshot (occupancy_count s) (occupancy_count r.state)
  apply-Reports h d = elim (apply-branches h) [
    | inl (idle, same, silent) ↦ rw (same, silent) refl
    | inr applied ↦ in_order-Reports applied d
  ]
