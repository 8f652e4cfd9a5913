-- ===== src/Media/Rows.antt =====
-- What a write may do to a media record, and tables whose rows change by such writes.
use text.Mathlib.Text.{◌==◌ as str_eq}
use text.Mathlib.TextEquality.{eq_iff}
use hotelops_ai.Prelude.{
  ℕ, ◌≤◌, ◌<◌, ◌≡◌, refl, sym, ap, ◌∙◌, inl, inr, Bool, true, false, Option, none, some, List,
  String, ◌==◌, arith, Bool-cases, if-elim, ==_self, ==_iff,
}
use hotelops_ai.Retention.{
  MediaCategory, Hold, resolve_class, is_protected, is_known_class, category_default,
}
use hotelops_ai.Media.{
  Lifecycle, available, lifecycle_code, lifecycle_name, Media, World, put, update_row,
}
use hotelops_ai.Media.Content.{Texts, concat}
use hotelops_ai.Media.Service.{Settings, guarded, is_held, content_ok, wants_hash}

-- A guarded update either takes the row that is there, or leaves the world.
pub guarded-elim :
    {A : Type 0} (C : A → Type 0) (w : World) (id : ℕ) (guard : Media → Bool)
    (change : Media → Media) (won lost : World → A)
    → ((row : Media)
        → w.table id ≡ some row
        → guard row ≡ true
        → C (won (record w { table = put id (change row) w.table })))
    → C (lost w)
    → C (guarded w (update_row id guard change w.table (w.table id)) won lost)
guarded-elim {A} C w id guard change won lost wins loses = at (w.table id) refl
  where
    at :
        (o : Option Media)
        → w.table id ≡ o
        → C (guarded w (update_row id guard change w.table o) won lost)
    at none h = loses
    at (some row) h =
        if-elim (λ u. C (guarded w u won lost)) (guard row) (λ taken. wins row h taken)
          (λ kept. loses)

module _ (settings : Settings) (texts : Texts) (sha256 : List ℕ → String)
    (Streamed : String → List (List ℕ) → Type 0) where
  -- A record, and the same record later: its identity never changes, nor whether it is held, its
  -- state only moves on, and while it is in one state its content is the same.
  pub record Later (m c : Media) : Type 0 where
    pub same_id : m.media_id ≡ c.media_id
    pub same_category : m.category ≡ c.category
    pub same_key : m.object_key ≡ c.object_key
    pub same_type : m.content_type ≡ c.content_type
    pub same_hold : m.hold ≡ c.hold
    pub same_held : is_held settings texts sha256 m ≡ is_held settings texts sha256 c
    pub moves_on : lifecycle_code m.state ≤ lifecycle_code c.state
    pub rests :
        lifecycle_code m.state ≡ lifecycle_code c.state
        → (m.size_bytes ≡ c.size_bytes)
          × (m.checksum ≡ c.checksum)
          × (m.retention_class ≡ c.retention_class)

  pub Later-refl : (m : Media) → Later m m
  Later-refl m = record {
    same_id = refl;
    same_category = refl;
    same_key = refl;
    same_type = refl;
    same_hold = refl;
    same_held = refl;
    moves_on = omega arith;
    rests = λ _. (refl, refl, refl);
  }

  pub Later-trans : {a b c : Media} → Later a b → Later b c → Later a c
  Later-trans {a} {b} {c} x y = record {
    same_id = x.same_id ∙ y.same_id;
    same_category = x.same_category ∙ y.same_category;
    same_key = x.same_key ∙ y.same_key;
    same_type = x.same_type ∙ y.same_type;
    same_hold = x.same_hold ∙ y.same_hold;
    same_held = x.same_held ∙ y.same_held;
    moves_on = omega (arith, x.moves_on, y.moves_on);
    rests = λ same.
        let (p, q, r) = x.rests (omega (arith, x.moves_on, y.moves_on)) in
        let (p', q', r') = y.rests (omega (arith, x.moves_on, y.moves_on)) in
        (p ∙ p', q ∙ q', r ∙ r');
  }

  -- The object of the record was read, and what was read passed the verification.
  pub record IsVerified (m : Media) : Type 0 where
    pub chunks : List (List ℕ)
    pub streamed : Streamed m.object_key chunks
    pub valid : content_ok settings texts sha256 m chunks ≡ true
    pub hashed :
        wants_hash settings texts sha256 m ≡ true → m.checksum ≡ some (sha256 (concat chunks))

  abbrev pub is_stored : Lifecycle → Bool
  is_stored Lifecycle.uploaded = true
  is_stored Lifecycle.validating = true
  is_stored Lifecycle.available = true
  is_stored _ = false

  abbrev pub is_leaving : Lifecycle → Bool
  is_leaving Lifecycle.expired = true
  is_leaving Lifecycle.deletion_pending = true
  is_leaving Lifecycle.deleted = true
  is_leaving _ = false

  pub record IsSound (m : Media) : Type 0 where
    pub sized : is_stored m.state ≡ true → 0 < m.size_bytes
    pub spared : is_leaving m.state ≡ true → is_held settings texts sha256 m ≡ false
    pub verified : m.state ≡ available → IsVerified m

  -- A write of a record.
  pub record Moves (m c : Media) : Type 0 where
    pub later : Later m c
    pub sound : IsSound m → IsSound c

  pub Moves-refl : (m : Media) → Moves m m
  Moves-refl m = record { later = Later-refl m; sound = λ s. s }

  pub Moves-trans : {a b c : Media} → Moves a b → Moves b c → Moves a c
  Moves-trans x y = record { later = Later-trans x.later y.later; sound = λ s. y.sound (x.sound s) }

  -- A place of the table: no row appears, and a row that is there moves.
  abbrev pub Kept : Option Media → Option Media → Type 0
  Kept none after = after ≡ none
  Kept (some m) after = (c : Media) × (after ≡ some c) × Moves m c

  pub record Grows (t u : ℕ → Option Media) : Type 0 where
    pub kept : (id : ℕ) → Kept (t id) (u id)

  Kept-refl : (o : Option Media) → Kept o o
  Kept-refl none = refl
  Kept-refl (some m) = (m, refl, Moves-refl m)

  Kept-trans : (a b c : Option Media) → Kept a b → Kept b c → Kept a c
  Kept-trans none b c x y = rw x at y
  Kept-trans (some m) b c x y =
      let (m', at, moved) = x in
      let (m'', at', moved') = (let z : Kept (some m') c = rw at at y in z) in
      (m'', at', Moves-trans moved moved')

  pub Grows-refl : (t : ℕ → Option Media) → Grows t t
  Grows-refl t = record { kept = λ id. Kept-refl (t id) }

  pub Grows-trans : {t u v : ℕ → Option Media} → Grows t u → Grows u v → Grows t v
  Grows-trans {t} {u} {v} x y = record {
    kept = λ id. Kept-trans (t id) (u id) (v id) (x.kept id) (y.kept id);
  }

  -- The row of a key, before and after.
  pub Grows-some :
      {t u : ℕ → Option Media} (id : ℕ) (m : Media)
      → Grows t u
      → t id ≡ some m
      → (c : Media) × (u id ≡ some c) × Moves m c
  Grows-some {t} {u} id m grown at = rw at at (grown.kept id)

  pub Grows-back :
      {t u : ℕ → Option Media} (id : ℕ) (c : Media)
      → Grows t u
      → u id ≡ some c
      → (m : Media) × (t id ≡ some m) × Moves m c
  Grows-back {t} {u} id c grown at = back (t id) (grown.kept id)
    where
      back : (o : Option Media) → Kept o (u id) → (m : Media) × (o ≡ some m) × Moves m c
      back none gone = absurd (ground (arith, gone, at))
      back (some m) (c', at', moved) =
          let same : c' ≡ c = ground (arith, at, at') in (m, refl, rw (sym same) moved)

  pub put-Grows :
      (id : ℕ) (row row' : Media) (t : ℕ → Option Media)
      → t id ≡ some row
      → Moves row row'
      → Grows t (put id row' t)
  put-Grows id row row' t at moved = record { kept = at_key }
    where
      at_key : (k : ℕ) → Kept (t k) (put id row' t k)
      at_key k = elim (Bool-cases (k == id)) [
        | inl hit ↦ rw (hit, ap t ((==_iff k id).0 hit), at) (row', refl, moved)
        | inr miss ↦ rw miss (Kept-refl (t k))
      ]

  pub put_self : (id : ℕ) (row : Media) (t : ℕ → Option Media) → put id row t id ≡ some row
  put_self id row t = rw (==_self id)

default-unheld :
    (category : MediaCategory) → str_eq (category_default category) "legal_hold" ≡ false
unfolding category_default
default-unheld MediaCategory.recordings = refl
default-unheld MediaCategory.evidence = refl
default-unheld MediaCategory.reports = refl
default-unheld MediaCategory.analytics = refl
default-unheld MediaCategory.temporary = refl

unknown-unheld : (c : String) → is_known_class c ≡ false → str_eq c "legal_hold" ≡ false
unfolding is_known_class
unknown-unheld c unknown = elim (Bool-cases (str_eq c "legal_hold")) [
  | inr differs ↦ differs
  | inl same ↦
      let e : c ≡ "legal_hold" = (eq_iff c "legal_hold").0 same in
      absurd (ground (arith, rw e at unknown))
]

-- Whether a class is a legal hold is kept where it is resolved.
pub resolve_class-held :
    (lower : String → String) (category : MediaCategory) (c : String) (hold : Hold)
    → is_protected lower (resolve_class category (some c)) hold ≡ is_protected lower c hold
unfolding resolve_class is_protected
resolve_class-held lower category c hold = elim (Bool-cases (is_known_class c)) [
  | inl known ↦ rw known
  | inr unknown ↦ rw unknown (rw (default-unheld category) (rw (unknown-unheld c unknown) refl))
]

pub resolve_none-held :
    (lower : String → String) (category : MediaCategory) (hold : Hold)
    → is_protected lower (resolve_class category none) hold ≡ is_protected lower "" hold
unfolding resolve_class is_protected
resolve_none-held lower category hold = rw (default-unheld category) refl
