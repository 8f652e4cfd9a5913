-- ===== src/Rules/Versions.antt =====
-- The versions that `validate_rule_version` of contracts/rules/models.py accepts. The text of a
-- version is read by its characters.
use Prim.Native.Char.{code}
use Prim.Native.String.{[] as []ˢ, ◌∷◌ as ◌∷ˢ◌}
use hotelops_ai.Prelude.{
  ℕ, ◌≤◌, ◌≡◌, ◌↔◌, refl, ap, ◌∙◌, inl, inr, Bool, true, false, ◌&&◌, ◌||◌, List, [], ◌∷◌, String,
  leb, ◌==◌, arith, Bool-cases, ==_iff,
}

abbrev pub codes : String → List ℕ
codes []ˢ = []
codes (c ∷ˢ text) = code c ∷ codes text

abbrev pub is_digit : ℕ → Bool
is_digit c = leb 48 c && leb c 57

-- The numbers of a version and the dots between them: what stands before the characters is the end
-- of a number, or not.
abbrev numbers : Bool → List ℕ → Bool
numbers after_digit [] = after_digit
numbers after_digit (c ∷ cs) =
    let rest = numbers (is_digit c) cs in (is_digit c || (after_digit && c == 46)) && rest

abbrev has_form : List ℕ → Bool
has_form [] = false
has_form (c ∷ cs) = c == 118 && numbers false cs

-- `validate_rule_version`, whose pattern is a `v`, a number, and further numbers after dots.
unfoldable pub is_rule_version : String → Bool
is_rule_version version = has_form (codes version)

abbrev pub IsDigit : ℕ → Type 0
IsDigit c = (48 ≤ c) × (c ≤ 57)

-- Numbers with a dot between two of them.
pub data IsNumbers : List ℕ → Type 0 where
  last : (d : ℕ) → IsDigit d → IsNumbers (d ∷ [])
  digit : (d : ℕ) (cs : List ℕ) → IsDigit d → IsNumbers cs → IsNumbers (d ∷ cs)
  dotted : (d : ℕ) (cs : List ℕ) → IsDigit d → IsNumbers cs → IsNumbers (d ∷ 46 ∷ cs)

-- A `v` in front of numbers.
abbrev pub IsVersion : String → Type 0
IsVersion version = (cs : List ℕ) × (codes version ≡ 118 ∷ cs) × IsNumbers cs

IsDigit-is_digit : (c : ℕ) → IsDigit c → is_digit c ≡ true
IsDigit-is_digit c d = ground (arith, d.0, d.1)

is_digit-IsDigit : (c : ℕ) → is_digit c ≡ true → IsDigit c
is_digit-IsDigit c h = (ground (arith, h), ground (arith, h))

IsNumbers-numbers : (b : Bool) {cs : List ℕ} → IsNumbers cs → numbers b cs ≡ true
IsNumbers-numbers b (last d dig) = rw (IsDigit-is_digit d dig) refl
IsNumbers-numbers b (digit d cs dig rest) =
    rw (IsDigit-is_digit d dig) (IsNumbers-numbers true rest)
IsNumbers-numbers b (dotted d cs dig rest) =
    rw (IsDigit-is_digit d dig) (IsNumbers-numbers false rest)

numbers-IsNumbers :
    (cs : List ℕ)
    → (numbers false cs ≡ true → IsNumbers cs)
      × ((d : ℕ) → IsDigit d → numbers true cs ≡ true → IsNumbers (d ∷ cs))
numbers-IsNumbers [] = ((λ h. cc), λ d dig h. last d dig)
numbers-IsNumbers (c ∷ cs) =
    let (from_start, from_digit) = numbers-IsNumbers cs in
    elim (Bool-cases (is_digit c)) [
      | inl is ↦
          let dig = is_digit-IsDigit c is in
          (
            (λ h. from_digit c dig (rw is at h)),
            λ d before h. digit d (c ∷ cs) before (from_digit c dig (rw is at h)),
          )
      | inr is_not ↦ (
        (λ h. absurd (ground (arith, rw is_not at h))),
        λ d before h. elim (Bool-cases (c == 46)) [
          | inl dot ↦
              rw ((==_iff c 46).0 dot)
                (dotted d cs before (from_start (rw dot at (rw is_not at h))))
          | inr other ↦ absurd (ground (arith, rw other at (rw is_not at h)))
        ],
      )
    ]

has_form-head :
    (cs : List ℕ)
    → has_form cs ≡ true
    → (rest : List ℕ) × (cs ≡ 118 ∷ rest) × (numbers false rest ≡ true)
has_form-head [] h = cc
has_form-head (c ∷ cs) h = elim (Bool-cases (c == 118)) [
  | inl v ↦ (cs, ap (λ d. d ∷ cs) ((==_iff c 118).0 v), rw v at h)
  | inr other ↦ absurd (ground (arith, rw other at h))
]

-- The test of the source, on the characters, accepts the versions of this form and no other.
pub is_rule_version-IsVersion :
    (version : String) → (is_rule_version version ≡ true) ↔ IsVersion version
unfolding is_rule_version
is_rule_version-IsVersion version = (
  λ h.
      let (cs, form, rest) = has_form-head (codes version) h in
      (cs, form, (numbers-IsNumbers cs).0 rest),
  λ (cs, form, rest). ap has_form form ∙ IsNumbers-numbers false rest,
)
