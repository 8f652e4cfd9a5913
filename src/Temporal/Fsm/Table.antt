-- ===== src/Temporal/Fsm/Table.antt =====
-- What the constructor of the state machine guarantees of its table, and its queries agree.
use hotelops_ai.Prelude.{
  ◌≡◌, refl, ap, inl, inr, ◌∙◌, true, ◌&&◌, Option, none, some, List, [], ◌∷◌, ◌++◌, String, Name,
  ◌is◌, is_iff, is_some, contains, All, ok, arith, Bool-cases, Option-cases,
}
use mathlib.Core.List.{Memᴰ, append_assoc, append-nil}
use hotelops_ai.Temporal.Fsm.{
  FsmRule, Fsm, find, declared, insert_rules, construct, can_transition, allowed_events, transition,
  events_from, raise_if_none,
}

pub raise_if_none-inv {ℓ} :
    {S : Type ℓ} (o : Option S) {t : S} → raise_if_none o ≡ ok t → o ≡ some t
raise_if_none-inv none h = cc
raise_if_none-inv (some s) h = cc

module _ {S E : Type 0} ⦃names : Name S⦄ ⦃events : Name E⦄ where
  find-append-none :
      (xs ys : List (FsmRule S E)) (s : S) (e : E)
      → find xs s e ≡ none
      → find (xs ++ ys) s e ≡ find ys s e
  unfolding find
  find-append-none [] ys s e h = refl
  find-append-none (x ∷ xs) ys s e h = ground (arith, find-append-none xs ys s e)

  find-append-some :
      (xs ys : List (FsmRule S E)) (s : S) (e : E) {t : S}
      → find xs s e ≡ some t
      → find (xs ++ ys) s e ≡ some t
  unfolding find
  find-append-some [] ys s e h = cc
  find-append-some (x ∷ xs) ys s e {t} h = ground (arith, find-append-some xs ys s e {t = t})

  -- A loop step that goes on found no rule under the key.
  insert_rules-step :
      (done : List (FsmRule S E)) (r : FsmRule S E) (rs : List (FsmRule S E))
      {table : List (FsmRule S E)}
      → insert_rules done (r ∷ rs) ≡ ok table
      → (find done r.from_state r.event ≡ none) × (insert_rules (done ++ r ∷ []) rs ≡ ok table)
  unfolding insert_rules
  insert_rules-step done r rs {table} h = elim (Option-cases (find done r.from_state r.event)) [
    | inl free ↦ (free, rw (free, insert_rules) at h)
    | inr (t, taken) ↦ cc (rw (taken, insert_rules) at h)
  ]

  insert_rules-append :
      (done rules : List (FsmRule S E)) {table : List (FsmRule S E)}
      → insert_rules done rules ≡ ok table
      → table ≡ done ++ rules
  unfolding insert_rules
  insert_rules-append done [] h = rw append-nil (cc)
  insert_rules-append done (r ∷ rs) {table} h =
      insert_rules-append (done ++ r ∷ []) rs (insert_rules-step done r rs h).1
      ∙ append_assoc done (r ∷ []) rs

  find_self : (r : FsmRule S E) → find (r ∷ []) r.from_state r.event ≡ some r.to_state
  unfolding find
  find_self r = rw ((is_iff r.from_state r.from_state).1 refl, (is_iff r.event r.event).1 refl) refl

  insert_rules-find :
      (done rules : List (FsmRule S E)) (r : FsmRule S E) {table : List (FsmRule S E)}
      → insert_rules done rules ≡ ok table
      → Memᴰ r rules
      → find table r.from_state r.event ≡ some r.to_state
  insert_rules-find done [] r h m = elim m [ ]
  insert_rules-find done (q ∷ rules) r {table} h (Memᴰ.head p) =
      let free = (insert_rules-step done q rules h).0 in
      rw (p, insert_rules-append done (q ∷ rules) h)
        (find-append-none done (q ∷ rules) q.from_state q.event free
          ∙ find-append-some (q ∷ []) rules q.from_state q.event (find_self q))
  insert_rules-find done (q ∷ rules) r h (Memᴰ.tail m) =
      insert_rules-find (done ++ q ∷ []) rules r (insert_rules-step done q rules h).1 m

  find-contains :
      (states : List S) (rules : List (FsmRule S E)) (s : S) (e : E) {t : S}
      → declared states rules ≡ true
      → find rules s e ≡ some t
      → contains states t ≡ true
  unfolding find declared
  find-contains states [] s e d h = cc
  find-contains states (r ∷ rs) s e {t} d h = ground (arith, find-contains states rs s e {t = t})

  construct-inv :
      (name version : String) (states : List S) (initial : S) (rules : List (FsmRule S E))
      {m : Fsm S E}
      → construct name version states initial rules ≡ ok m
      → (contains states initial ≡ true)
        × (declared states rules ≡ true)
        × (insert_rules [] rules ≡ ok m.table)
        × (m.states ≡ states)
  unfolding construct
  construct-inv name version states initial rules {m} h = ground arith

  is_some-contains :
      (rules : List (FsmRule S E)) (s : S) (e : E)
      → is_some (find rules s e) ≡ contains (events_from rules s) e
  unfolding find
  is_some-contains [] s e = refl
  is_some-contains (r ∷ rs) s e = elim (Bool-cases (r.from_state is s)) [
    | inl same ↦ rw (same, events_from) (ground (arith, is_some-contains rs s e))
    | inr other ↦ rw (other, events_from) (is_some-contains rs s e)
  ]

  -- A rule that a look-up finds has what every rule of the table has.
  pub find-All :
      {P : FsmRule S E → Type 0} (rules : List (FsmRule S E)) (s : S) (e : E) {t : S}
      → All P rules
      → find rules s e ≡ some t
      → (r : FsmRule S E) × P r × (r.from_state ≡ s) × (r.event ≡ e) × (r.to_state ≡ t)
  unfolding find
  find-All [] s e all h = cc
  find-All (r ∷ rs) s e {t} all h = elim (Bool-cases ((r.from_state is s) && (r.event is e))) [
    | inl same ↦ (
      r,
      all.0,
      (is_iff r.from_state s).0 (ground arith),
      (is_iff r.event e).0 (ground arith),
      ground arith,
    )
    | inr other ↦ find-All rs s e all.1 (ground arith)
  ]

  -- The events that a state allows are those that it can take.
  pub can_transition-allowed_events :
      (m : Fsm S E) (s : S) (e : E) → can_transition m s e ≡ contains (allowed_events m s) e
  unfolding can_transition allowed_events
  can_transition-allowed_events m s e = is_some-contains m.table s e

module _ {S E : Type 0} ⦃names : Name S⦄ ⦃events : Name E⦄ (name version : String) (states : List S)
    (initial : S) (rules : List (FsmRule S E)) {m : Fsm S E}
    (built : construct name version states initial rules ≡ ok m) where
  -- In a machine that was built, every declared rule is the transition of its state and event.
  pub rule-transition :
      (r : FsmRule S E) → Memᴰ r rules → transition m r.from_state r.event ≡ ok r.to_state
  unfolding transition
  rule-transition r mem =
      ap raise_if_none
        (insert_rules-find [] rules r (construct-inv name version states initial rules built).2 mem)

  -- In a machine that was built, a transition leads to a declared state.
  pub transition-declared :
      (s : S) (e : E) {t : S} → transition m s e ≡ ok t → contains m.states t ≡ true
  unfolding transition
  transition-declared s e {t} h =
      let (_, named, filled, same) = construct-inv name version states initial rules built in
      let found : find rules s e ≡ some t =
        rw (insert_rules-append [] rules filled) at (raise_if_none-inv (find m.table s e) h) in
      rw same (find-contains states rules s e named found)
