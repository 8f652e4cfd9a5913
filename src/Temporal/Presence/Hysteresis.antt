-- ===== src/Temporal/Presence/Hysteresis.antt =====
-- Timelines: how many observations it takes to confirm an entry or an exit.
use hotelops_ai.Prelude.{
  ℕ, suc, ◌+◌, ◌≤◌, ◌≡◌, refl, Bool, true, false, Name, List, [], ◌∷◌, ok, ◌>>=◌, >>=-eq-ok, arith,
  if◌then◌else◌,
}
use hotelops_ai.Temporal.Errors.{Checked}
use hotelops_ai.Temporal.Model.{
  Instant, TemporalStateKey, TemporalPolicy, Kind, kind_name, TemporalState, Part,
}
use hotelops_ai.Temporal.Engine.{
  Engine, Evaluation, TemporalInput, TemporalResult, apply, apply_evaluation, initial_state,
}
use hotelops_ai.Temporal.Engine.Outcome.{was_duplicate, was_reordered, was_applied, apply-Outcome}
use hotelops_ai.Temporal.Presence.{
  Presence, absent, entering, presence_name, event_name, evaluate, presence_engine,
}
use hotelops_ai.Temporal.Presence.Invariant.{is_confirmed}

-- The observations of a timeline, applied in turn; the first error ends it.
unfoldable pub replay :
    {S E : Type 0} ⦃names : Name S⦄
    → Engine S E
    → TemporalState S
    → List TemporalInput
    → Checked (TemporalState S)
replay e s [] = ok s
replay e s (inp ∷ rest) = apply e s inp >>= λ r. replay e r.state rest

pub replay-cons :
    {S E : Type 0} ⦃names : Name S⦄ (e : Engine S E) (s : TemporalState S) (inp : TemporalInput)
    (rest : List TemporalInput) {r : TemporalResult S}
    → apply e s inp ≡ ok r
    → replay e s (inp ∷ rest) ≡ replay e r.state rest
unfolding replay
replay-cons e s inp rest h = rw h refl

abbrev pub is_present : Kind → Bool
is_present Kind.present = true
is_present _ = false

abbrev pub count_present : List TemporalInput → ℕ
count_present [] = 0
count_present (inp ∷ rest) =
    let n = count_present rest in if is_present inp.observation_kind then suc n else n

-- How far towards a confirmed presence a state is.
abbrev progress : TemporalPolicy → Presence → ℕ → ℕ
progress p absent n = 0
progress p entering n = n
progress p _ n = p.entry_confirmation

module _ (p : TemporalPolicy) where
  evaluate-progress :
      (s : TemporalState Presence) (k : Kind) (t : Instant) {v : Evaluation Presence}
      → evaluate p s k t ≡ ok v
      → progress p v.state v.entry_confirm_count
        ≤ progress p s.current_state s.entry_confirm_count + (if is_present k then 1 else 0)
  unfolding evaluate
  evaluate-progress s k t done = ground arith

module _ (p : TemporalPolicy) (uuid5 : List Part → ℕ) where
  apply-progress :
      (s : TemporalState Presence) (inp : TemporalInput) {r : TemporalResult Presence}
      → apply (presence_engine p uuid5) s inp ≡ ok r
      → progress p r.state.current_state r.state.entry_confirm_count
        ≤ progress p s.current_state s.entry_confirm_count
          + (if is_present inp.observation_kind then 1 else 0)
  unfolding apply_evaluation
  apply-progress s inp h = elim (apply-Outcome (presence_engine p uuid5) s inp h) [
    | was_duplicate at same why ↦ rw same (omega arith)
    | was_reordered w' marked off behind near same why ↦ rw same (omega arith)
    | was_applied v evaluated ahead reported reached ↦
        rw reached (evaluate-progress p s inp.observation_kind _ evaluated)
  ]

  replay-progress :
      (s : TemporalState Presence) (timeline : List TemporalInput) {t : TemporalState Presence}
      → replay (presence_engine p uuid5) s timeline ≡ ok t
      → progress p t.current_state t.entry_confirm_count
        ≤ progress p s.current_state s.entry_confirm_count + count_present timeline
  unfolding replay
  replay-progress s [] h = ground arith
  replay-progress s (inp ∷ rest) h =
      let (r, applied, replayed) = >>=-eq-ok (apply (presence_engine p uuid5) s inp) _ h in
      ground (arith, apply-progress s inp applied, replay-progress r.state rest replayed)

  -- Whatever the observations and their order, a presence that was never there is confirmed only
  -- by at least `entry_confirmation` observations of the kind `present`.
  pub confirmed_needs_present :
      (key : TemporalStateKey) (timeline : List TemporalInput) {t : TemporalState Presence}
      → replay (presence_engine p uuid5) (initial_state (presence_engine p uuid5) key) timeline
        ≡ ok t
      → is_confirmed t.current_state ≡ true
      → p.entry_confirmation ≤ count_present timeline
  unfolding initial_state
  confirmed_needs_present key timeline {t} h c = ground (
    arith,
    replay-progress (unfold initial_state in initial_state (presence_engine p uuid5) key) timeline
        h,
  )
