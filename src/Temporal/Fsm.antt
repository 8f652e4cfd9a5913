-- ===== src/Temporal/Fsm.antt =====
-- The deterministic state machine of backend/app/intelligence/temporal/fsm.py. State and event
-- names are types of names; a table is built from a list of rules, with the checks of `__init__`.
pub mod Table
use hotelops_ai.Prelude.{
  ℕ, ◌≡◌, Bool, true, false, not, ◌&&◌, ◌||◌, Option, none, some, List, [], ◌∷◌, ◌++◌, String, Name,
  ◌is◌, is_some, contains, if◌then◌else◌, Result, ok, err,
}
use hotelops_ai.Temporal.Errors.{TemporalError, Checked, invalid_transition}

pub record FsmRule (S E : Type 0) : Type 0 where
  pub from_state : S
  pub event : E
  pub to_state : S

pub data FsmError : Type 0 where
  undeclared_initial undeclared_state duplicate_rule : FsmError

-- The attributes of a `DeterministicFsm` that passed its constructor. `table` is `_lookup`, in
-- the order of insertion.
pub record Fsm (S E : Type 0) : Type 0 where
  pub name : String
  pub version : String
  pub states : List S
  pub initial_state : S
  pub table : List (FsmRule S E)

abbrev pub raise_if_none {ℓ} : {S : Type ℓ} → Option S → Result TemporalError S
raise_if_none none = err invalid_transition
raise_if_none (some s) = ok s

module _ {S E : Type 0} ⦃names : Name S⦄ ⦃events : Name E⦄ where
  -- `self._lookup.get((from_state, event))`
  unfoldable pub find : List (FsmRule S E) → S → E → Option S
  find [] s e = none
  find (r ∷ rs) s e = if (r.from_state is s) && (r.event is e) then some r.to_state else find rs s e

  -- The loop that checks that a rule names declared states.
  unfoldable pub declared : List S → List (FsmRule S E) → Bool
  declared states [] = true
  declared states (r ∷ rs) =
      contains states r.from_state && contains states r.to_state && declared states rs

  -- The loop that fills `_lookup`, refusing a key that is there already.
  unfoldable pub insert_rules :
      List (FsmRule S E) → List (FsmRule S E) → Result FsmError (List (FsmRule S E))
  insert_rules done [] = ok done
  insert_rules done (r ∷ rs) =
      let rest = insert_rules (done ++ r ∷ []) rs in
      if is_some (find done r.from_state r.event) then err duplicate_rule else rest

  unfoldable pub construct :
      String → String → List S → S → List (FsmRule S E) → Result FsmError (Fsm S E)
  unfolding declared
  construct name version states initial rules =
      if not (contains states initial)
      then err undeclared_initial
      else if not (declared states rules)
      then err undeclared_state
      else elim (insert_rules [] rules) [
        | err e ↦ err e
        | ok table ↦ ok (record {
          name = name;
          version = version;
          states = states;
          initial_state = initial;
          table = table;
        })
      ]

  unfoldable pub can_transition : Fsm S E → S → E → Bool
  unfolding find
  can_transition m s e = is_some (find m.table s e)

  unfoldable pub next_state : Fsm S E → S → E → Option S
  unfolding find
  next_state m s e = find m.table s e

  abbrev events_from : List (FsmRule S E) → S → List E
  events_from [] s = []
  events_from (r ∷ rs) s =
      let rest = events_from rs s in if r.from_state is s then r.event ∷ rest else rest

  unfoldable pub allowed_events : Fsm S E → S → List E
  allowed_events m s = events_from m.table s

  unfoldable pub transition : Fsm S E → S → E → Checked S
  unfolding find
  transition m s e = raise_if_none (find m.table s e)
