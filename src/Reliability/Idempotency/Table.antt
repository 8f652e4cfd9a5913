-- ===== src/Reliability/Idempotency/Table.antt =====
-- Lookups in a table of idempotency records, after an insert and after an update.
use hotelops_ai.Prelude.{
  ℕ, ◌≡◌, refl, inl, inr, Bool, true, false, ◌||◌, Option, none, some, List, [], ◌∷◌, ◌++◌,
  if◌then◌else◌, arith, Bool-cases, Option-cases, ap, ◌∙◌,
}
use hotelops_ai.Reliability.Idempotency.{
  Claim, Scope, same_text, same_scope, same_option, get, has_scope, update_where, any,
}

same_text-eq : (a b : List ℕ) → same_text a b ≡ true → a ≡ b
same_text-eq [] [] h = refl
same_text-eq [] (d ∷ ds) h = cc
same_text-eq (c ∷ cs) [] h = cc
same_text-eq (c ∷ cs) (d ∷ ds) h = ground (arith, same_text-eq cs ds)

pub same_text_self : (a : List ℕ) → same_text a a ≡ true
same_text_self [] = refl
same_text_self (c ∷ cs) = ground (arith, same_text_self cs)

pub same_scope-eq : (a b : Scope) → same_scope a b ≡ true → a ≡ b
same_scope-eq a b h = ground (arith, same_text-eq a.key b.key)

pub same_scope_self : (a : Scope) → same_scope a a ≡ true
same_scope_self a = ground (arith, same_text_self a.key)

pub same_option-eq : (a b : Option ℕ) → same_option a b ≡ true → a ≡ b
same_option-eq none none h = refl
same_option-eq none (some b) h = cc
same_option-eq (some a) none h = cc
same_option-eq (some a) (some b) h = ground arith

pub get-scope : (u : Scope) (table : List Claim) {r : Claim} → get u table ≡ some r → r.scope ≡ u
get-scope u [] h = cc
get-scope u (x ∷ table) {r} h = ground (arith, same_scope-eq x.scope u, get-scope u table {r = r})

abbrev pub on : (Claim → Claim) → Option Claim → Option Claim
on f none = none
on f (some r) = some (f r)

pub get-update_where :
    (p : Claim → Bool) (f : Claim → Claim) (u : Scope) (table : List Claim)
    → ((r : Claim) → (f r).scope ≡ r.scope)
    → get u (update_where p f table) ≡ on (λ r. if p r then f r else r) (get u table)
get-update_where p f u [] same = refl
get-update_where p f u (x ∷ table) same = ground (arith, same x, get-update_where p f u table same)

-- A record that the condition of an update holds for, and one that it does not hold for.
pub get-update_hit :
    (p : Claim → Bool) (f : Claim → Claim) (u : Scope) (table : List Claim) (r : Claim)
    → ((r : Claim) → (f r).scope ≡ r.scope)
    → get u table ≡ some r
    → p r ≡ true
    → get u (update_where p f table) ≡ some (f r)
get-update_hit p f u table r same at h =
    get-update_where p f u table same
    ∙ ap (on (λ r. if p r then f r else r)) at
    ∙ ap (λ b. some (if b then f r else r)) h

pub get-update_miss :
    (p : Claim → Bool) (f : Claim → Claim) (u : Scope) (table : List Claim)
    → ((r : Claim) → (f r).scope ≡ r.scope)
    → ((r : Claim) → get u table ≡ some r → p r ≡ false)
    → get u (update_where p f table) ≡ get u table
get-update_miss p f u table same h = elim (Option-cases (get u table)) [
  | inl gone ↦ ground (arith, get-update_where p f u table same)
  | inr (r, at) ↦ ground (arith, get-update_where p f u table same, h r at)
]

has_scope-update_where :
    (p : Claim → Bool) (f : Claim → Claim) (u : Scope) (table : List Claim)
    → ((r : Claim) → (f r).scope ≡ r.scope)
    → has_scope u (update_where p f table) ≡ has_scope u table
has_scope-update_where p f u [] same = refl
has_scope-update_where p f u (x ∷ table) same =
    ground (arith, same x, has_scope-update_where p f u table same)

-- No two records have the same scope.
abbrev pub AreUnits : List Claim → Type 0
AreUnits [] = Unit
AreUnits (r ∷ table) = (has_scope r.scope table ≡ false) × AreUnits table

pub update_where-AreUnits :
    (p : Claim → Bool) (f : Claim → Claim) (table : List Claim)
    → ((r : Claim) → (f r).scope ≡ r.scope)
    → AreUnits table
    → AreUnits (update_where p f table)
update_where-AreUnits p f [] same d = tt
update_where-AreUnits p f (x ∷ table) same d = (
  ground (arith, same x, has_scope-update_where p f x.scope table same),
  update_where-AreUnits p f table same d.1,
)

pub get-append :
    (u : Scope) (table : List Claim) (x : Claim)
    → get u (table ++ (x ∷ []))
      ≡ (if has_scope u table then get u table else if same_scope x.scope u then some x else none)
get-append u [] x = ground arith
get-append u (y ∷ table) x = ground (arith, get-append u table x)

pub has_scope-append :
    (u : Scope) (table : List Claim) (x : Claim)
    → has_scope u (table ++ (x ∷ [])) ≡ (has_scope u table || same_scope x.scope u)
has_scope-append u [] x = ground arith
has_scope-append u (y ∷ table) x = ground (arith, has_scope-append u table x)

pub has_scope-get :
    (u : Scope) (table : List Claim) → has_scope u table ≡ false → get u table ≡ none
has_scope-get u [] h = refl
has_scope-get u (x ∷ table) h = ground (arith, has_scope-get u table)

pub append-AreUnits :
    (table : List Claim) (x : Claim)
    → AreUnits table
    → has_scope x.scope table ≡ false
    → AreUnits (table ++ (x ∷ []))
append-AreUnits [] x d h = (refl, tt)
append-AreUnits (y ∷ table) x d h =
    let apart : same_scope x.scope y.scope ≡ false =
      elim (Bool-cases (same_scope x.scope y.scope)) [
        | inr f ↦ f
        | inl t ↦ absurd (ground (arith, same_scope-eq x.scope y.scope t, same_scope_self x.scope))
      ] in
    (ground (arith, has_scope-append y.scope table x), append-AreUnits table x d.1 (ground arith))

pub any-get :
    (p : Claim → Bool) (table : List Claim)
    → AreUnits table
    → any p table ≡ true
    → (r : Claim) × (p r ≡ true) × (get r.scope table ≡ some r) × (has_scope r.scope table ≡ true)
any-get p [] d h = cc
any-get p (x ∷ table) d h = elim (Bool-cases (p x)) [
  | inl here ↦
      (x, here, ground (arith, same_scope_self x.scope), ground (arith, same_scope_self x.scope))
  | inr apart ↦
      let (r, holds, at, there) = any-get p table d.1 (ground arith) in
      elim (Bool-cases (same_scope x.scope r.scope)) [
        | inr other ↦ (r, holds, ground arith, ground arith)
        | inl same ↦ absurd (ground (arith, same_scope-eq x.scope r.scope same))
      ]
]

pub any-absent :
    (p : Claim → Bool) (u : Scope) (table : List Claim) {r : Claim}
    → any p table ≡ false
    → get u table ≡ some r
    → p r ≡ false
any-absent p u [] h at = cc
any-absent p u (x ∷ table) {r} h at = ground (arith, any-absent p u table {r = r})
