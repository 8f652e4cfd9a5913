-- ===== src/Temporal/Occupancy/Delivery.antt =====
-- Deliveries of a transition to the occupancy engine: the same one again, and illegal ones.
use hotelops_ai.Prelude.{
  ◌||◌, ℕ, ◌≡◌, refl, ◌∙◌, inl, inr, Bool, true, false, Option, none, some, List, ◌==◌, ok, is_some,
  is_ok, not, >>=-eq-ok, Bool-cases, arith,
}
use hotelops_ai.Prelude.Sets.{member}
use hotelops_ai.Prelude.Dict
use hotelops_ai.Temporal.Model.{TemporalPolicy, Kind, kind_name, Part}
use hotelops_ai.Temporal.Engine.{Position, position_eq}
use hotelops_ai.Temporal.Engine.Ordering.{NotBehind}
use hotelops_ai.Temporal.Occupancy.{
  OccupancyState, OccupancyInput, OccupancyResult, apply_in_order, order, apply, validate,
  unchanged, is_duplicate, is_behind, position_of, occupancy_name,
}
use hotelops_ai.Temporal.Occupancy.Counting.{is_applied, apply-branches, apply-member}

position_eq_self : (q : Position) → position_eq q q ≡ true
position_eq_self q = ground arith

NotBehind-refl : (w : Option Position) → NotBehind w w
NotBehind-refl none = tt
NotBehind-refl (some w) = inr (refl, omega arith)

-- The legal events of a track that is counted, or is not.
abbrev pub is_legal : Kind → Bool → Bool
is_legal Kind.enter_confirmed counted = not counted
is_legal Kind.exit_confirmed counted = counted
is_legal Kind.missing_expired counted = counted
is_legal Kind.stay counted = true
is_legal Kind.session_closed counted = true
is_legal _ counted = false

module _ (scope_track : ℕ) (p : TemporalPolicy) (uuid5 : List Part → ℕ) where
  validate-same :
      (s t : OccupancyState) (inp : OccupancyInput)
      → t.key ≡ s.key
      → t.fsm_version ≡ s.fsm_version
      → validate scope_track p uuid5 t inp ≡ validate scope_track p uuid5 s inp
  unfolding validate
  validate-same s t inp k v = rw (k, v) refl

  order-again :
      (s : OccupancyState) (inp : OccupancyInput)
      → Dict.get s.entity_positions inp.transition.key.track_id
        ≡ some (position_of scope_track p uuid5 inp.transition)
      → order scope_track p uuid5 s inp ≡ ok (unchanged scope_track p uuid5 s true false)
  unfolding order is_duplicate
  order-again s inp h =
      ground (arith, position_eq_self (position_of scope_track p uuid5 inp.transition))

module _ (scope_track : ℕ) (p : TemporalPolicy) (uuid5 : List Part → ℕ) (s : OccupancyState)
    (inp : OccupancyInput) {r : OccupancyResult} where
  in_order-position :
      apply_in_order scope_track p uuid5 s inp ≡ ok r
      → Dict.get r.state.entity_positions inp.transition.key.track_id
        ≡ some (position_of scope_track p uuid5 inp.transition)
  unfolding apply_in_order
  in_order-position h = ground (
    arith,
    Dict.get-put inp.transition.key.track_id inp.transition.key.track_id
        (position_of scope_track p uuid5 inp.transition) s.entity_positions,
  )

  in_order-identity :
      apply_in_order scope_track p uuid5 s inp ≡ ok r
      → (r.state.key ≡ s.key) × (r.state.fsm_version ≡ s.fsm_version)
  unfolding apply_in_order
  in_order-identity h = ground arith

  -- A transition that was applied and is delivered again is accepted as a duplicate: the state
  -- stays and no second snapshot is emitted.
  pub apply-redelivery :
      apply scope_track p uuid5 s inp ≡ ok r
      → is_applied r ≡ true
      → apply scope_track p uuid5 r.state inp
        ≡ ok (unchanged scope_track p uuid5 r.state true false)
  unfolding apply
  apply-redelivery h applied = elim (apply-branches scope_track p uuid5 s inp h) [
    | inl (idle, _, _) ↦ cc
    | inr done ↦
        let (key, version) = in_order-identity done in
        let (_, valid, _) =
          >>=-eq-ok (validate scope_track p uuid5 s inp) (λ _. order scope_track p uuid5 s inp) h in
        rw (validate-same scope_track p uuid5 s r.state inp key version ∙ valid)
          (order-again scope_track p uuid5 r.state inp (in_order-position done))
  ]

  in_order-watermark :
      apply_in_order scope_track p uuid5 s inp ≡ ok r → NotBehind r.state.watermark s.watermark
  unfolding apply_in_order
  in_order-watermark h = ground arith

  -- An accepted transition never moves the watermark of the scope backward.
  pub apply-scope_watermark :
      apply scope_track p uuid5 s inp ≡ ok r → NotBehind r.state.watermark s.watermark
  apply-scope_watermark h = elim (apply-branches scope_track p uuid5 s inp h) [
    | inl (idle, same, _) ↦ rw same (NotBehind-refl s.watermark)
    | inr done ↦ in_order-watermark done
  ]

-- Every counted track has a recorded position.
abbrev pub IsPositioned : OccupancyState → Type 0
IsPositioned s =
    (b : ℕ) → (not (member s.occupied_tracks b) || is_some (Dict.get s.entity_positions b)) ≡ true

had_position :
    (s : OccupancyState) (b : ℕ)
    → IsPositioned s
    → member s.occupied_tracks b ≡ true
    → is_some (Dict.get s.entity_positions b) ≡ true
had_position s b w counted = rw counted at (w b)

module _ (scope_track : ℕ) (p : TemporalPolicy) (uuid5 : List Part → ℕ) (s : OccupancyState)
    (inp : OccupancyInput) {r : OccupancyResult} where
  in_order-positions :
      apply_in_order scope_track p uuid5 s inp ≡ ok r
      → r.state.entity_positions
        ≡ Dict.put inp.transition.key.track_id
            (position_of scope_track p uuid5 inp.transition)
            s.entity_positions
  unfolding apply_in_order
  in_order-positions h = ground arith

  positions-member :
      (b : ℕ)
      → apply_in_order scope_track p uuid5 s inp ≡ ok r
      → apply scope_track p uuid5 s inp ≡ ok r
      → (inp.transition.key.track_id == b) ≡ false
      → member r.state.occupied_tracks b ≡ true
      → member s.occupied_tracks b ≡ true
  positions-member b done h other counted =
      ground (arith, apply-member scope_track p uuid5 s inp h b)

  counted-position :
      (b : ℕ)
      → apply scope_track p uuid5 s inp ≡ ok r
      → IsPositioned s
      → member r.state.occupied_tracks b ≡ true
      → is_some (Dict.get r.state.entity_positions b) ≡ true
  counted-position b h w counted = elim (apply-branches scope_track p uuid5 s inp h) [
    | inl (idle, same, _) ↦ rw same (had_position s b w (rw same at counted))
    | inr done ↦ rw (in_order-positions done) (
        rw
          (Dict.get-put inp.transition.key.track_id b
            (position_of scope_track p uuid5 inp.transition) s.entity_positions)
          (elim (Bool-cases (inp.transition.key.track_id == b)) [
            | inl own ↦ rw own refl
            | inr other ↦ rw other (had_position s b w (positions-member b done h other counted))
          ]))
  ]

  -- An accepted transition keeps a recorded position for every counted track.
  pub apply-IsPositioned :
      apply scope_track p uuid5 s inp ≡ ok r → IsPositioned s → IsPositioned r.state
  apply-IsPositioned h w b = elim (Bool-cases (member r.state.occupied_tracks b)) [
    | inl counted ↦ rw (counted, counted-position b h w counted) refl
    | inr out ↦ rw out refl
  ]

module _ (scope_track : ℕ) (p : TemporalPolicy) (uuid5 : List Part → ℕ) (s : OccupancyState)
    (inp : OccupancyInput) where
  -- A valid, new and in-order transition is accepted exactly where its event is legal for its
  -- track: an entry of a track that is not counted, an exit or an expiry of one that is, a stay or
  -- a closed session of either.
  pub apply-legal :
      validate scope_track p uuid5 s inp ≡ ok tt
      → is_duplicate scope_track p uuid5 s inp.transition ≡ false
      → is_behind scope_track p uuid5 s inp.transition ≡ false
      → is_ok (apply scope_track p uuid5 s inp)
        ≡ is_legal inp.observation_kind (member s.occupied_tracks inp.transition.key.track_id)
  unfolding apply order apply_in_order
  apply-legal valid fresh ahead = ground arith
