-- ===== src/Configuration/Versions.antt =====
-- The versions of a store, found by their identifiers, and how one call may move one.
use hotelops_ai.Prelude.{
  ◌||◌, ℕ, ◌≡◌, refl, ◌⊎◌, inl, inr, Bool, true, false, Option, none, some, List, [], ◌∷◌, ◌++◌,
  ◌==◌, if◌then◌else◌, ok, arith, ap, ◌∙◌, Bool-cases,
}
use hotelops_ai.Prelude.Sets.{member, IsDistinct}
use hotelops_ai.Access.{Actor}
use hotelops_ai.Configuration.Machine.{Operation, get_next_state, is_published}
use hotelops_ai.Configuration.Service.{
  ValidationResult, VersionRow, Store, find_version, get_for_actor, found, update_versions,
}

abbrev pub ids : List VersionRow → List ℕ
ids [] = []
ids (r ∷ rows) = r.version_id ∷ ids rows

abbrev pub row_of : ℕ → List VersionRow → Option VersionRow
row_of i [] = none
row_of i (r ∷ rows) = if r.version_id == i then some r else row_of i rows

-- The version was validated without errors, at its content.
pub record IsChecked (revision : ℕ → ℕ → ℕ) (r : VersionRow) : Type 0 where
  pub result : ValidationResult
  pub stored : r.validation_result ≡ some result
  pub current : result.content_revision ≡ revision r.version r.content
  pub clean : result.errors ≡ []

-- A version `r`, and the same version `s` after a call.
pub record IsMove (revision : ℕ → ℕ → ℕ) (r s : VersionRow) : Type 0 where
  pub same_number : s.version ≡ r.version
  pub same_configuration : s.configuration_id ≡ r.configuration_id
  pub kept : (is_published r.status ≡ false) ⊎ (s ≡ r)
  pub legal : (s ≡ r) ⊎ ((e : Operation) × (get_next_state r.status e ≡ some s.status))
  pub checked : (is_published s.status ≡ false) ⊎ ((s ≡ r) ⊎ IsChecked revision s)

pub member-row_of :
    (i : ℕ) (rows : List VersionRow) {r : VersionRow}
    → row_of i rows ≡ some r
    → (r.version_id ≡ i) × (member (ids rows) i ≡ true)
unfolding member
member-row_of i [] h = cc
member-row_of i (x ∷ rows) {r} h = ground (arith, member-row_of i rows {r = r})

pub find_version-member :
    (id tenant : ℕ) (rows : List VersionRow) {r : VersionRow}
    → find_version id tenant rows ≡ some r
    → member (ids rows) id ≡ true
unfolding member
find_version-member id tenant [] h = cc
find_version-member id tenant (x ∷ rows) {r} h =
    ground (arith, find_version-member id tenant rows {r = r})

pub find_version-row_of :
    (id tenant : ℕ) (rows : List VersionRow) {r : VersionRow}
    → IsDistinct (ids rows)
    → find_version id tenant rows ≡ some r
    → row_of id rows ≡ some r
find_version-row_of id tenant [] d h = cc
find_version-row_of id tenant (x ∷ rows) {r} d h = ground (
  arith,
  find_version-row_of id tenant rows {r = r} d.1,
  find_version-member id tenant rows {r = r},
)

-- The version that a call reads.
pub read-row_of :
    (actor : Actor) (id : ℕ) (s : Store) {r : VersionRow}
    → IsDistinct (ids s.versions)
    → found (get_for_actor actor id s) ≡ ok r
    → row_of id s.versions ≡ some r
unfolding get_for_actor
read-row_of actor id s {r} d h =
    ground (arith, find_version-row_of id actor.tenant_id s.versions {r = r} d)

pub row_of-update :
    (p : VersionRow → Bool) (f : VersionRow → VersionRow) (i : ℕ) (rows : List VersionRow)
    {r : VersionRow}
    → ((r : VersionRow) → (f r).version_id ≡ r.version_id)
    → row_of i rows ≡ some r
    → row_of i (update_versions p f rows) ≡ some (if p r then f r else r)
row_of-update p f i [] same h = cc
row_of-update p f i (x ∷ rows) {r} same h =
    ground (arith, same x, row_of-update p f i rows {r = r} same)

pub ids-update :
    (p : VersionRow → Bool) (f : VersionRow → VersionRow) (rows : List VersionRow)
    → ((r : VersionRow) → (f r).version_id ≡ r.version_id)
    → ids (update_versions p f rows) ≡ ids rows
ids-update p f [] same = refl
ids-update p f (x ∷ rows) same = ground (arith, same x, ids-update p f rows same)

pub row_of-append :
    (i : ℕ) (rows : List VersionRow) (x : VersionRow) {r : VersionRow}
    → row_of i rows ≡ some r
    → row_of i (rows ++ (x ∷ [])) ≡ some r
row_of-append i [] x h = cc
row_of-append i (y ∷ rows) x {r} h = ground (arith, row_of-append i rows x {r = r})

pub IsMove-refl : (revision : ℕ → ℕ → ℕ) (r : VersionRow) → IsMove revision r r
IsMove-refl revision r = record {
  same_number = refl;
  same_configuration = refl;
  kept = inr refl;
  legal = inl refl;
  checked = inr (inl refl);
}

-- An update moves a version as its function does, where its condition holds.
pub update-IsMove :
    (revision : ℕ → ℕ → ℕ) (p : VersionRow → Bool) (f : VersionRow → VersionRow) (i : ℕ)
    (rows : List VersionRow) {r : VersionRow}
    → ((r : VersionRow) → (f r).version_id ≡ r.version_id)
    → row_of i rows ≡ some r
    → (p r ≡ true → IsMove revision r (f r))
    → (s : VersionRow) × (row_of i (update_versions p f rows) ≡ some s) × IsMove revision r s
update-IsMove revision p f i rows {r} same at h = elim (Bool-cases (p r)) [
  | inl holds ↦
      (f r, row_of-update p f i rows same at ∙ ap (λ b. some (if b then f r else r)) holds, h holds)
  | inr fails ↦ (
    r,
    row_of-update p f i rows same at ∙ ap (λ b. some (if b then f r else r)) fails,
    IsMove-refl revision r,
  )
]

pub ids-row_of :
    (i : ℕ) (rows : List VersionRow)
    → member (ids rows) i ≡ true
    → (r : VersionRow) × (row_of i rows ≡ some r)
unfolding member
ids-row_of i [] h = cc
ids-row_of i (x ∷ rows) h = elim (Bool-cases (x.version_id == i)) [
  | inl here ↦ (x, ground arith)
  | inr apart ↦ let (r, at) = ids-row_of i rows (ground arith) in (r, ground arith)
]

pub row_of-append_cases :
    (i : ℕ) (rows : List VersionRow) (x : VersionRow) {q : VersionRow}
    → row_of i (rows ++ (x ∷ [])) ≡ some q
    → (row_of i rows ≡ some q) ⊎ (q ≡ x)
row_of-append_cases i [] x h = ground arith
row_of-append_cases i (y ∷ rows) x {q} h = ground (arith, row_of-append_cases i rows x {q = q})

member-ids-append :
    (rows : List VersionRow) (x : VersionRow) (i : ℕ)
    → member (ids (rows ++ (x ∷ []))) i ≡ (member (ids rows) i || x.version_id == i)
unfolding member
member-ids-append [] x i = ground arith
member-ids-append (y ∷ rows) x i = ground (arith, member-ids-append rows x i)

pub ids-append-IsDistinct :
    (rows : List VersionRow) (x : VersionRow)
    → IsDistinct (ids rows)
    → member (ids rows) x.version_id ≡ false
    → IsDistinct (ids (rows ++ (x ∷ [])))
unfolding member
ids-append-IsDistinct [] x d h = (refl, tt)
ids-append-IsDistinct (y ∷ rows) x d h = (
  ground (arith, member-ids-append rows x y.version_id),
  ids-append-IsDistinct rows x d.1 (ground arith),
)
