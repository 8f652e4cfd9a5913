-- ===== src/Rules/Immutability.antt =====
-- Registrations: what is registered is found, and never replaced.
use mathlib.Core.List.{Memᴰ}
use text.Mathlib.TextPositions.{eq_refl}
use hotelops_ai.Prelude.{
  ◌≡◌, refl, inl, inr, Bool, none, some, List, [], ◌∷◌, ◌++◌, String, is_some, Result, ok, ◌>>=◌,
  ◌>>◌, >>=-eq-ok, reject, arith, Bool-cases,
}
use hotelops_ai.Rules.{RuleDefinition, RuleError, duplicate_rule}
use hotelops_ai.Rules.Registry.{
  RuleRegistry, is_rule, lookup, validate_definition, register, resolve,
}

-- Registrations in turn.
abbrev pub register_all :
    (String → Bool) → RuleRegistry → List RuleDefinition → Result RuleError RuleRegistry
register_all is_blank registry [] = ok registry
register_all is_blank registry (rule ∷ rules) =
    register is_blank registry rule >>= λ next. register_all is_blank next rules

lookup-append_some :
    (rules more : List RuleDefinition) (id version : String) (rule : RuleDefinition)
    → lookup rules id version ≡ some rule
    → lookup (rules ++ more) id version ≡ some rule
lookup-append_some [] more id version rule h = cc
lookup-append_some (r ∷ rules) more id version rule h = elim (Bool-cases (is_rule id version r)) [
  | inl hit ↦ rw hit (rw hit at h)
  | inr miss ↦ rw miss (lookup-append_some rules more id version rule (rw miss at h))
]

lookup-append_none :
    (rules : List RuleDefinition) (rule : RuleDefinition)
    → lookup rules rule.rule_id rule.rule_version ≡ none
    → lookup (rules ++ rule ∷ []) rule.rule_id rule.rule_version ≡ some rule
lookup-append_none [] rule h = rw (eq_refl rule.rule_id, eq_refl rule.rule_version) refl
lookup-append_none (r ∷ rules) rule h =
    elim (Bool-cases (is_rule rule.rule_id rule.rule_version r)) [
      | inl hit ↦ absurd (ground (arith, rw hit at h))
      | inr miss ↦ rw miss (lookup-append_none rules rule (rw miss at h))
    ]

-- One registration: the definition was not there, and is the last one now.
register_ok :
    (is_blank : String → Bool) (registry next : RuleRegistry) (rule : RuleDefinition)
    → register is_blank registry rule ≡ ok next
    → (lookup registry.rules rule.rule_id rule.rule_version ≡ none)
      × (next.rules ≡ registry.rules ++ rule ∷ [])
unfolding register
register_ok is_blank registry next rule h =
    let taken = is_some (lookup registry.rules rule.rule_id rule.rule_version) in
    let (done, checked, grown) =
      >>=-eq-ok (validate_definition is_blank registry rule >> reject taken duplicate_rule)
        (λ _. ok (record registry { rules = registry.rules ++ rule ∷ [] })) h in
    let (valid, defined, fresh) =
      >>=-eq-ok (validate_definition is_blank registry rule) (λ _. reject taken duplicate_rule)
        checked in
    (ground (arith, fresh), ground (arith, grown))

register_all-lookup :
    (is_blank : String → Bool) (registry last : RuleRegistry) (rules : List RuleDefinition)
    (id version : String) (rule : RuleDefinition)
    → register_all is_blank registry rules ≡ ok last
    → lookup registry.rules id version ≡ some rule
    → lookup last.rules id version ≡ some rule
register_all-lookup is_blank registry last [] id version rule h there = ground (arith, h, there)
register_all-lookup is_blank registry last (r ∷ rules) id version rule h there =
    let (next, registered, rest) = >>=-eq-ok (register is_blank registry r) _ h in
    let (free, grown) = register_ok is_blank registry next r registered in
    register_all-lookup is_blank next last rules id version rule rest
      (rw grown (lookup-append_some registry.rules (r ∷ []) id version rule there))

resolve-lookup :
    (registry : RuleRegistry) (id version : String) (rule : RuleDefinition)
    → lookup registry.rules id version ≡ some rule
    → resolve registry id version ≡ ok rule
unfolding resolve
resolve-lookup registry id version rule h = rw (h, resolve) refl

-- Each definition of a sequence of registrations that succeeds resolves, by its identifier and
-- version, to itself.
pub register-resolve :
    (is_blank : String → Bool) (registry last : RuleRegistry) (rules : List RuleDefinition)
    (rule : RuleDefinition)
    → register_all is_blank registry rules ≡ ok last
    → Memᴰ rule rules
    → resolve last rule.rule_id rule.rule_version ≡ ok rule
register-resolve is_blank registry last [] rule h m = elim m [ ]
register-resolve is_blank registry last (r ∷ rules) rule h m =
    let (next, registered, rest) = >>=-eq-ok (register is_blank registry r) _ h in
    let (free, grown) = register_ok is_blank registry next r registered in
    elim m [
      | Memᴰ.head same ↦ rw same (
          resolve-lookup last r.rule_id r.rule_version r (
            register_all-lookup is_blank next last rules r.rule_id r.rule_version r rest
              (rw grown (lookup-append_none registry.rules r free))))
      | Memᴰ.tail later ↦ register-resolve is_blank next last rules rule rest later
    ]
