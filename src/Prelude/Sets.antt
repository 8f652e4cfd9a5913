-- ===== src/Prelude/Sets.antt =====
-- A Python set of identifiers, as a list without duplicates.
use Prim.Native.Nat.{ℕ, ◌+◌}
use mathlib.Core.Path.{◌≡◌, refl}
use mathlib.Core.Logic.{◌≢◌}
use mathlib.Core.Bool.{Bool, true, false, not, ◌&&◌, ◌||◌}
use mathlib.Core.List.{List, [], ◌∷◌}
use native.Mathlib.Omega.{arith}
use hotelops_ai.Prelude.Tests.{◌==◌, if◌then◌else◌}
use hotelops_ai.Prelude.Lists.{length}

unfoldable pub member : List ℕ → ℕ → Bool
member [] a = false
member (x ∷ xs) a = x == a || member xs a

-- `s | {a}`
unfoldable pub add : ℕ → List ℕ → List ℕ
add a xs = if member xs a then xs else a ∷ xs

-- `s - {a}`
unfoldable pub discard : ℕ → List ℕ → List ℕ
discard a [] = []
discard a (x ∷ xs) = let rest = discard a xs in if x == a then rest else x ∷ rest

unfoldable pub subset : List ℕ → List ℕ → Bool
subset [] ys = true
subset (x ∷ xs) ys = member ys x && subset xs ys

-- `s == t` of sets
unfoldable pub set_eq : List ℕ → List ℕ → Bool
unfolding subset
set_eq xs ys = subset xs ys && subset ys xs

-- The list holds each of its entries once.
abbrev pub IsDistinct : List ℕ → Type 0
IsDistinct [] = Unit
IsDistinct (x ∷ xs) = (member xs x ≡ false) × IsDistinct xs

pub member-add : (a b : ℕ) (xs : List ℕ) → member (add a xs) b ≡ (a == b || member xs b)
unfolding add member
member-add a b xs = ground arith

pub member-discard :
    (a b : ℕ) (xs : List ℕ) → member (discard a xs) b ≡ (not (a == b) && member xs b)
unfolding discard member
member-discard a b [] = ground arith
member-discard a b (x ∷ xs) = ground (arith, member-discard a b xs)

pub add-IsDistinct : (a : ℕ) (xs : List ℕ) → IsDistinct xs → IsDistinct (add a xs)
unfolding add
add-IsDistinct a xs h = ground arith

pub discard-IsDistinct : (a : ℕ) (xs : List ℕ) → IsDistinct xs → IsDistinct (discard a xs)
unfolding discard
discard-IsDistinct a [] h = tt
discard-IsDistinct a (x ∷ xs) h = ground (arith, member-discard a x xs, discard-IsDistinct a xs h.1)

pub length-add : (a : ℕ) (xs : List ℕ) → member xs a ≡ false → length (add a xs) ≡ length xs + 1
unfolding add
length-add a xs h = ground arith

discard-absent : (a : ℕ) (xs : List ℕ) → member xs a ≡ false → discard a xs ≡ xs
unfolding member discard
discard-absent a [] h = refl
discard-absent a (x ∷ xs) h = ground (arith, discard-absent a xs)

pub length-discard :
    (a : ℕ) (xs : List ℕ)
    → IsDistinct xs
    → member xs a ≡ true
    → length (discard a xs) + 1 ≡ length xs
unfolding member discard
length-discard a [] d h = cc
length-discard a (x ∷ xs) d h = ground (arith, length-discard a xs d.1, discard-absent a xs)

subset-cons : (x : ℕ) (xs ys : List ℕ) → subset xs ys ≡ true → subset xs (x ∷ ys) ≡ true
unfolding subset member
subset-cons x [] ys h = refl
subset-cons x (z ∷ xs) ys h = ground (arith, subset-cons x xs ys)

subset_refl : (xs : List ℕ) → subset xs xs ≡ true
unfolding subset member
subset_refl [] = refl
subset_refl (x ∷ xs) = ground (arith, subset-cons x xs xs, subset_refl xs)

pub set_eq_refl : (xs : List ℕ) → set_eq xs xs ≡ true
unfolding set_eq
set_eq_refl xs = ground (arith, subset_refl xs)

subset-missing :
    (a : ℕ) (xs ys : List ℕ) → member xs a ≡ true → member ys a ≡ false → subset xs ys ≡ false
unfolding subset member
subset-missing a [] ys h k = cc
subset-missing a (x ∷ xs) ys h k = ground (arith, subset-missing a xs ys)

-- Sets that differ in one identifier are not equal.
pub set_eq-differ : (a : ℕ) (xs ys : List ℕ) → member xs a ≢ member ys a → set_eq xs ys ≡ false
unfolding set_eq
set_eq-differ a xs ys h = ground (arith, subset-missing a xs ys, subset-missing a ys xs)
