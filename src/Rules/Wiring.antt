-- ===== src/Rules/Wiring.antt =====
-- `build_operational_registries` of backend/app/intelligence/rules/bootstrap.py: the definitions are
-- constructed, which checks their version, and registered in turn.
use text.Mathlib.TextEquality.{eq_iff}
use hotelops_ai.Rules.Versions.{is_rule_version, IsVersion, is_rule_version-IsVersion}
use text.Mathlib.Text.{◌==◌ as str_eq}
use mathlib.Core.List.{Memᴰ}
use hotelops_ai.Prelude.{
  ◌⊎◌, ◌≢◌, ◌≡◌, refl, ap, ◌∙◌, inl, inr, Bool, true, ◌&&◌, List, [], ◌∷◌, String, Result, ok, err,
  ◌>>=◌, ◌>>◌, ensure, arith, Bool-cases, Result-cases,
}
use hotelops_ai.Rules.{RuleDefinition, RuleError, duplicate_rule}
use hotelops_ai.Rules.Registry.{RuleRegistry, register}
use hotelops_ai.Rules.Immutability.{register_all}
use hotelops_ai.Rules.Catalogue.{
  definitions, operational_registry, is_written, register_all-definitions,
}

-- What stops the wiring: the `ValueError` of a definition, or an error of its registration.
pub data WiringError : Type 0 where
  invalid_version : WiringError
  refused : RuleError → WiringError

abbrev registered : Result RuleError RuleRegistry → Result WiringError RuleRegistry
registered (ok registry) = ok registry
registered (err e) = err (refused e)

-- Each definition is constructed, which checks its version, and registered.
abbrev pub define_all :
    (String → Bool) → RuleRegistry → List RuleDefinition → Result WiringError RuleRegistry
define_all is_blank registry [] = ok registry
define_all is_blank registry (rule ∷ rules) =
    ensure (is_rule_version rule.rule_version) invalid_version
    >> registered (register is_blank registry rule)
    >>= λ next. define_all is_blank next rules

-- `build_operational_registries`, of the rules.
unfoldable pub build_operational_registries :
    (String → Bool) → String → Result WiringError RuleRegistry
build_operational_registries is_blank version =
    define_all is_blank operational_registry (definitions version)

abbrev all_versions : List RuleDefinition → Bool
all_versions [] = true
all_versions (rule ∷ rules) = is_rule_version rule.rule_version && all_versions rules

define_all-register_all :
    (is_blank : String → Bool) (registry : RuleRegistry) (rules : List RuleDefinition)
    → all_versions rules ≡ true
    → define_all is_blank registry rules ≡ registered (register_all is_blank registry rules)
define_all-register_all is_blank registry [] valid = refl
define_all-register_all is_blank registry (rule ∷ rules) valid =
    elim (Result-cases (register is_blank registry rule)) [
      | inl (next, done) ↦
          ground (arith, define_all-register_all is_blank next rules (ground arith))
      | inr (e, failed) ↦ ground arith
    ]

second : is_rule_version "v2" ≡ true
unfolding is_rule_version
second = refl

definitions-all_versions :
    (version : String) → is_rule_version version ≡ true → all_versions (definitions version) ≡ true
definitions-all_versions version valid = rw (valid, second) refl

-- The wiring of the rules, whose texts are not blank, ends in one of three ways. A version that is
-- not a `v` in front of numbers with dots between them, such as v1 or v1.2, is refused. With the
-- version "v2" the two definitions of the queue rule are the same identifier and version, and the
-- registry's error for a duplicate comes out. In any other version all rules are registered.
pub build_operational_registries-definitions :
    (is_blank : String → Bool) (version : String)
    → ((rule : RuleDefinition) → Memᴰ rule (definitions version) → is_written is_blank rule ≡ true)
    → (¬ (IsVersion version)
        × (build_operational_registries is_blank version ≡ err invalid_version))
      ⊎ (((version ≡ "v2")
            × (build_operational_registries is_blank version ≡ err (refused duplicate_rule)))
          ⊎ (IsVersion version
              × (version ≢ "v2")
              × (build_operational_registries is_blank version
                  ≡ ok (record operational_registry { rules = definitions version }))))
unfolding build_operational_registries
build_operational_registries-definitions is_blank version written =
    let form = is_rule_version-IsVersion version in
    elim (Bool-cases (is_rule_version version)) [
      | inr malformed ↦ inl ((λ v. ground (arith, form.1 v)), rw malformed refl)
      | inl valid ↦
          let wired =
            define_all-register_all is_blank operational_registry (definitions version)
              (definitions-all_versions version valid)
            ∙ ap registered (register_all-definitions is_blank version written) in
          elim (Bool-cases (str_eq version "v2")) [
            | inl taken ↦ inr (inl ((eq_iff version "v2").0 taken, wired ∙ rw taken refl))
            | inr free ↦ inr (
                inr (
                  form.0 valid,
                  (λ same. ground (arith, (eq_iff version "v2").1 same)),
                  wired ∙ rw free refl,
                ))
          ]
    ]
