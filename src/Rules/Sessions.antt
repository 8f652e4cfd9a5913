-- ===== src/Rules/Sessions.antt =====
-- The occupancy sessions of a scope: the occupancy engine of backend/app/intelligence/temporal under
-- the rule of rules/occupancy_session.py, which looks at every snapshot at its own instant.
use text.Mathlib.Text.{◌==◌ as str_eq}
use hotelops_ai.Prelude.{
  ℕ, zero, suc, ◌≡◌, refl, sym, ap, ◌∙◌, inl, inr, Bool, true, false, Option, none, some, List, [],
  ◌∷◌, ◌++◌, ok, ◌>>=◌, >>=-eq-ok, arith, ==_self,
}
use hotelops_ai.Prelude.Sets.{IsDistinct}
use hotelops_ai.Temporal.Errors.{Checked}
use hotelops_ai.Temporal.Model.{TemporalPolicy, Part}
use hotelops_ai.Temporal.Occupancy.{
  OccupancyState, OccupancyInput, OccupancyResult, OccupancySnapshot, occupancy_count, apply,
  apply_in_order, build_snapshot, occupancy_name,
}
use hotelops_ai.Temporal.Occupancy.Counting.{
  Reports, apply-branches, apply-IsDistinct, apply-Reports,
}
use hotelops_ai.Rules.{
  occupancy, RuleDefinition, RuleInput, RuleEvent, Phase, started, ended, Payload, session, episode,
}
use hotelops_ai.Rules.Evaluators.{boundary, at_boundary, session_of, occupancy_session_evaluate}

-- The phases that the event of a result reports.
abbrev pub phase_in : Payload → List Phase
phase_in (session phase count tracks) = phase ∷ []
phase_in (episode id start duration window threshold) = []

abbrev pub phases_in : Option RuleEvent → List Phase
phases_in none = []
phases_in (some event) = phase_in event.payload

abbrev pub phases_at : Option Phase → List Phase
phases_at none = []
phases_at (some phase) = phase ∷ []

-- Whether the scope is occupied after the phases, where they alternate from the first one on.
abbrev pub alternate : Bool → List Phase → Option Bool
alternate occupied [] = some occupied
alternate false (started ∷ phases) = alternate true phases
alternate false (ended ∷ phases) = none
alternate true (started ∷ phases) = none
alternate true (ended ∷ phases) = alternate false phases

abbrev pub is_positive : ℕ → Bool
is_positive zero = false
is_positive (suc n) = true

abbrev pub is_occupied : OccupancyState → Bool
is_occupied s = is_positive (occupancy_count s)

ok_both :
    {A B : Type 0} {a c : A} {b d : B}
    → ◌≡◌ {A = Checked (A × B)} (ok (a, b)) (ok (c, d))
    → (a ≡ c) × (b ≡ d)
ok_both h = (cc, cc)

alternate-boundary :
    (before after : ℕ) (later : List Phase)
    → alternate (is_positive before) (phases_at (boundary before after) ++ later)
      ≡ alternate (is_positive after) later
alternate-boundary zero zero later = refl
alternate-boundary zero (suc n) later = refl
alternate-boundary (suc m) zero later = refl
alternate-boundary (suc m) (suc n) later = refl

module _ (scope_track : ℕ) (p : TemporalPolicy) (uuid5 : List Part → ℕ) where
  -- A snapshot has the key of the state, which stays.
  in_order-key :
      (s : OccupancyState) (inp : OccupancyInput) (r : OccupancyResult)
      → apply_in_order scope_track p uuid5 s inp ≡ ok r
      → (r.state.key ≡ s.key) × ((n : OccupancySnapshot) → r.snapshot ≡ some n → n.key ≡ s.key)
  unfolding apply_in_order build_snapshot
  in_order-key s inp r h = (ground (arith, h), λ n seen. ground (arith, h, seen))

  apply-key :
      (s : OccupancyState) (inp : OccupancyInput) (r : OccupancyResult)
      → apply scope_track p uuid5 s inp ≡ ok r
      → (r.state.key ≡ s.key) × ((n : OccupancySnapshot) → r.snapshot ≡ some n → n.key ≡ s.key)
  apply-key s inp r h = elim (apply-branches scope_track p uuid5 s inp h) [
    | inl (idle, same, silent) ↦ (ap (λ t. t.key) same, λ n seen. ground (arith, silent, seen))
    | inr applied ↦ in_order-key s inp r applied
  ]

  module _ (rule : RuleDefinition) (version : ℕ) where
    -- The rule's input on a snapshot.
    abbrev pub asked : OccupancySnapshot → RuleInput
    asked n = record {
      primary = occupancy n;
      others = [];
      configuration = [];
      configuration_version_id = version;
      rule_version = rule.rule_version;
      event_time = n.event_time;
      processing_time = none;
    }

    abbrev pub reported : Option OccupancySnapshot → List Phase
    reported none = []
    reported (some n) = phases_in (occupancy_session_evaluate uuid5 rule (asked n)).event

    -- Transitions in turn, each snapshot under the rule.
    abbrev pub sessions :
        OccupancyState → List OccupancyInput → Checked (OccupancyState × List Phase)
    sessions s [] = ok (s, [])
    sessions s (inp ∷ inps) = apply scope_track p uuid5 s inp >>= λ r.
        sessions r.state inps >>= λ (last, later). ok (last, reported r.snapshot ++ later)

    at_boundary-phases :
        (n : OccupancySnapshot) (phase : Option Phase)
        → phases_in (at_boundary uuid5 rule (asked n) n phase).event ≡ phases_at phase
    at_boundary-phases n none = refl
    at_boundary-phases n (some phase) = refl

    reported-boundary :
        (n : OccupancySnapshot)
        → str_eq n.key.fsm_kind "occupancy" ≡ true
        → reported (some n) ≡ phases_at (boundary n.previous_count n.occupancy_count)
    unfolding occupancy_session_evaluate session_of
    reported-boundary n h =
        rw (h, ==_self n.event_time)
          (at_boundary-phases n (boundary n.previous_count n.occupancy_count))

    reported-Reports :
        (snapshot : Option OccupancySnapshot) (before after : ℕ) (later : List Phase)
        → ((n : OccupancySnapshot) → snapshot ≡ some n → str_eq n.key.fsm_kind "occupancy" ≡ true)
        → Reports snapshot before after
        → alternate (is_positive before) (reported snapshot ++ later)
          ≡ alternate (is_positive after) later
    reported-Reports none before after later kind told = rw told refl
    reported-Reports (some n) before after later kind told =
        rw (reported-boundary n (kind n refl), told.0, told.1)
          (alternate-boundary before after later)

    -- The sessions of a scope alternate: a sequence of transitions that the occupancy engine accepts,
    -- from a state of the occupancy machine that counts no track twice, gives a session start
    -- where the scope is empty, an end where it is occupied, in turn, and after them the scope is
    -- occupied exactly as the phases say.
    pub sessions-alternate :
        (s last : OccupancyState) (inps : List OccupancyInput) (phases : List Phase)
        → sessions s inps ≡ ok (last, phases)
        → str_eq s.key.fsm_kind "occupancy" ≡ true
        → IsDistinct s.occupied_tracks
        → alternate (is_occupied s) phases ≡ some (is_occupied last)
    sessions-alternate s last [] phases h kind d = ground (arith, h)
    sessions-alternate s last (inp ∷ inps) phases h kind d =
        let (r, accepted, rest) =
          >>=-eq-ok (apply scope_track p uuid5 s inp)
            (λ r. sessions r.state inps >>= λ (end, later). ok (end, reported r.snapshot ++ later))
            h in
        let ((end, later), run, done) =
          >>=-eq-ok (sessions r.state inps) (λ (end, later). ok (end, reported r.snapshot ++ later))
            rest in
        let keys = apply-key s inp r accepted in
        let same = ok_both done in
        rw (sym same.1) (
          reported-Reports r.snapshot (occupancy_count s) (occupancy_count r.state) later
            (λ n seen. rw (keys.1 n seen) kind) (apply-Reports scope_track p uuid5 s inp accepted d)
          ∙ sessions-alternate r.state end inps later run (rw (keys.0) kind)
              (apply-IsDistinct scope_track p uuid5 s inp accepted d)
          ∙ ap (λ t. some (is_occupied t)) same.0)
