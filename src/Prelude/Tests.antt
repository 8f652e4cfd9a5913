-- ===== src/Prelude/Tests.antt =====
-- Boolean tests on numbers and names, the conditional, and splits on a computed value.
use Prim.Native.Nat.{ℕ, compare, Ordering}
use mathlib.Core.Path.{◌≡◌, refl}
use mathlib.Core.Logic.{◌↔◌, ◌⊎◌, inl, inr}
use mathlib.Core.Bool.{Bool, true, false}
use mathlib.Core.Option.{Option, none, some}
use native.Mathlib.Omega.{arith}

abbrev pub ltb : ℕ → ℕ → Bool
ltb a b = elim (compare a b) [ Ordering.lt ↦ true | _ ↦ false ]

abbrev pub leb : ℕ → ℕ → Bool
leb a b = elim (compare a b) [ Ordering.gt ↦ false | _ ↦ true ]

infix 50 ◌==◌
abbrev pub ◌==◌ : ℕ → ℕ → Bool
a == b = elim (compare a b) [ Ordering.eq ↦ true | _ ↦ false ]

infix 1 if◌then◌else◌
abbrev pub if◌then◌else◌ {ℓ} : {A : Type ℓ} → Bool → A → A → A
if true then x else y = x
if false then x else y = y

pub ==_iff : (a b : ℕ) → ((a == b) ≡ true) ↔ (a ≡ b)
==_iff a b = ground arith

pub ==_self : (a : ℕ) → (a == a) ≡ true
==_self a = ground arith

pub Bool-cases : (b : Bool) → (b ≡ true) ⊎ (b ≡ false)
Bool-cases true = inl refl
Bool-cases false = inr refl

-- A property of both branches.
pub if-elim {ℓ κ} :
    {A : Type ℓ} (C : A → Type κ) (b : Bool) {x y : A}
    → (b ≡ true → C x)
    → (b ≡ false → C y)
    → C (if b then x else y)
if-elim C true holds fails = holds refl
if-elim C false holds fails = fails refl

pub Option-cases {ℓ} : {A : Type ℓ} (o : Option A) → (o ≡ none) ⊎ ((a : A) × (o ≡ some a))
Option-cases none = inl refl
Option-cases (some a) = inr (a, refl)

abbrev pub is_some {ℓ} : {A : Type ℓ} → Option A → Bool
is_some none = false
is_some (some a) = true

-- `x or d` of Python, where a present `x` is never falsy.
abbrev pub or_else {ℓ} : {A : Type ℓ} → Option A → A → A
or_else none d = d
or_else (some a) d = a

-- A type of names (the source's string enumerations): the names are told apart by their codes.
pub record Name {ℓ} (A : Type ℓ) : Type ℓ where
  pub code : A → ℕ
  pub code_injective : (a b : A) → code a ≡ code b → a ≡ b

infix 50 ◌is◌
abbrev pub ◌is◌ {ℓ} : {A : Type ℓ} ⦃n : Name A⦄ → A → A → Bool
◌is◌ ⦃n⦄ a b = n.code a == n.code b

pub is_iff {ℓ} : {A : Type ℓ} ⦃n : Name A⦄ (a b : A) → ((a is b) ≡ true) ↔ (a ≡ b)
is_iff ⦃n⦄ a b =
    (λ h. n.code_injective a b ((==_iff (n.code a) (n.code b)).0 h), λ h. rw h (==_self (n.code b)))
