-- ===== src/Configuration/Pointer.antt =====
-- The pointer of a configuration to its current published version.
use hotelops_ai.Prelude.{
  ℕ, ◌≤◌, ◌≡◌, inl, inr, Bool, true, false, not, ◌&&◌, ◌||◌, none, some, List, [], ◌∷◌, ltb, ◌==◌,
  if◌then◌else◌, ok, >>=-eq-ok, All, arith, Option-cases, Bool-cases, ap, ◌∙◌,
}
use hotelops_ai.Access.{Actor, has_venue_access}
use hotelops_ai.Configuration.Machine.{is_published}
use hotelops_ai.Configuration.Service.{
  VersionRow, Configuration, Store, if_accessible, latest, is_of, is_newer_than,
  get_latest_published_version, promote, ready, publish_new, point_to, update_status,
}
use hotelops_ai.Configuration.Versions.{row_of}

-- The latest of the rows that a condition holds for is one of them, and none has a higher number.
latest-bound :
    (p : VersionRow → Bool) (rows : List VersionRow) (i : ℕ) {r : VersionRow}
    → row_of i rows ≡ some r
    → p r ≡ true
    → (q : VersionRow) × (latest p rows ≡ some q) × (r.version ≤ q.version)
latest-bound p [] i at h = cc
latest-bound p (x ∷ rows) i {r} at h = elim (Bool-cases (x.version_id == i)) [
  | inl here ↦ elim (Option-cases (latest p rows)) [
    | inl alone ↦ (x, ground arith, ground arith)
    | inr (l, others) ↦ elim (Bool-cases (ltb l.version x.version)) [
      | inl higher ↦ (x, ground arith, ground arith)
      | inr lower ↦ (l, ground arith, ground arith)
    ]
  ]
  | inr apart ↦
      let (l, others, bound) = latest-bound p rows i {r = r} (ground arith) h in
      elim (Bool-cases (p x && ltb l.version x.version)) [
        | inl higher ↦ (x, ground arith, ground arith)
        | inr lower ↦ (l, ground arith, ground arith)
      ]
]

latest-All :
    (P : VersionRow → Bool) (p : VersionRow → Bool) (rows : List VersionRow) {q : VersionRow}
    → All (λ r. P r ≡ true) rows
    → latest p rows ≡ some q
    → (P q ≡ true) × (p q ≡ true)
latest-All P p [] all h = cc
latest-All P p (x ∷ rows) all h = elim (Option-cases (latest p rows)) [
  | inl gone ↦ ground (arith, all.0)
  | inr (l, found) ↦ ground (arith, all.0, latest-All P p rows all.1 found)
]

-- Every version of the configuration is of one venue.
abbrev pub is_at : Actor → ℕ → ℕ → VersionRow → Bool
is_at actor configuration venue r = not (is_of actor configuration r) || r.venue_id == venue

promote-guard :
    (actor : Actor) (id by now : ℕ) (row : VersionRow) (config : Configuration) (s : Store)
    {after : Store}
    → promote actor id by now row config s ≡ ok after
    → (is_newer_than row (get_latest_published_version actor row.configuration_id s) ≡ false)
      × (after.configurations ≡ point_to actor row.configuration_id row.version_id s.configurations)
unfolding promote update_status
promote-guard actor id by now row config s h = (ground arith, ground arith)

newest :
    (actor : Actor) (row : VersionRow) (s : Store) (i : ℕ) {r : VersionRow}
    → is_newer_than row (get_latest_published_version actor row.configuration_id s) ≡ false
    → has_venue_access actor row.venue_id ≡ true
    → All (λ r. is_at actor row.configuration_id row.venue_id r ≡ true) s.versions
    → row_of i s.versions ≡ some r
    → (is_of actor row.configuration_id r && is_published r.status) ≡ true
    → r.version ≤ row.version
unfolding get_latest_published_version
newest actor row s i {r} old access venues at published =
    let p : VersionRow → Bool = λ r. is_of actor row.configuration_id r && is_published r.status in
    let (q, found, bound) = latest-bound p s.versions i at published in
    let (there, holds) =
      latest-All (is_at actor row.configuration_id row.venue_id) p s.versions venues found in
    let venue : q.venue_id ≡ row.venue_id = ground arith in
    let seen : if_accessible actor (latest p s.versions) ≡ some q =
      ap (if_accessible actor) found
      ∙ ap (λ b. if b then some q else none) (ap (has_venue_access actor) venue ∙ access) in
    ground arith

-- A version that is published becomes the current one of its configuration, and no published
-- version of the configuration has a higher number: the pointer never goes back. This is for a
-- configuration whose versions are of one venue, which the actor has access to.
pub publish_new-newest :
    (revision : ℕ → ℕ → ℕ) (actor : Actor) (id by now : ℕ) (row : VersionRow) (s : Store)
    {after : Store} (i : ℕ) {r : VersionRow}
    → publish_new revision actor id by now row s ≡ ok after
    → has_venue_access actor row.venue_id ≡ true
    → All (λ r. is_at actor row.configuration_id row.venue_id r ≡ true) s.versions
    → row_of i s.versions ≡ some r
    → (is_of actor row.configuration_id r && is_published r.status) ≡ true
    → (r.version ≤ row.version)
      × (after.configurations ≡ point_to actor row.configuration_id row.version_id s.configurations)
unfolding publish_new
publish_new-newest revision actor id by now row s i {r} h access venues at published =
    let (config, checks, rest) =
      >>=-eq-ok (ready revision actor row s) (λ config. promote actor id by now row config s) h in
    let (old, pointer) = promote-guard actor id by now row config s rest in
    (newest actor row s i old access venues at published, pointer)
