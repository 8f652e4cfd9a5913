-- ===== src/Retention/Deletion.antt =====
-- When evidence may be deleted, and that expiry is final: the evaluation of
-- backend/app/domain/evidence/retention.py with the classes of backend/app/domain/media/retention.py.
use text.Mathlib.TextEquality.{eq_iff}
use text.Mathlib.Text.{◌==◌ as str_eq}
use hotelops_ai.Prelude.{
  ◌≢◌, ◌+◌, ◌*◌, ◌↔◌, false, ℕ, ◌≤◌, ◌≡◌, refl, inl, inr, true, false, not, ◌&&◌, sym, Option, none,
  some, String, Bool-cases, Option-cases, is_some, ◌⊎◌, arith,
}
use hotelops_ai.Retention.{
  Hold, absent, other_value, flag, written, EvidenceLifecycleState, holds, Subject, MediaCategory,
  is_access_allowed, is_deletion_eligible, deadline_for, duration_for, is_protected, evaluate,
  resolve_class, is_known_class, category_default, has_passed, is_deleted,
}

-- The days that the approved classes keep evidence.
pub data IsTerm (c : String) (days : ℕ) : Type 0 where
  footage : c ≡ "cctv_30_days" → days ≡ 30 → IsTerm c days
  evidence : c ≡ "evidence_365_days" → days ≡ 365 → IsTerm c days
  reports : c ≡ "report_730_days" → days ≡ 730 → IsTerm c days
  analytics : c ≡ "analytics_90_days" → days ≡ 90 → IsTerm c days
  standard : c ≡ "standard_90_days" → days ≡ 90 → IsTerm c days

IsTerm-deadline_for :
    (c : String) (days created_at : ℕ)
    → IsTerm c days
    → deadline_for c created_at ≡ some (created_at + days * 86400)
unfolding deadline_for duration_for
IsTerm-deadline_for c days created_at (footage same n) = rw (same, n) refl
IsTerm-deadline_for c days created_at (evidence same n) = rw (same, n) refl
IsTerm-deadline_for c days created_at (reports same n) = rw (same, n) refl
IsTerm-deadline_for c days created_at (analytics same n) = rw (same, n) refl
IsTerm-deadline_for c days created_at (standard same n) = rw (same, n) refl

deadline_for-IsTerm :
    (c : String) (created_at now : ℕ)
    → has_passed (deadline_for c created_at) now ≡ true
    → (days : ℕ) × IsTerm c days × (created_at + days * 86400 ≤ now)
unfolding deadline_for duration_for
deadline_for-IsTerm c created_at now h = elim (Bool-cases (str_eq "cctv_30_days" c)) [
  | inl a ↦ (30, footage (sym ((eq_iff "cctv_30_days" c).0 a)) refl, ground (arith, h, a))
  | inr a ↦ elim (Bool-cases (str_eq "evidence_365_days" c)) [
    | inl b ↦
        (365, evidence (sym ((eq_iff "evidence_365_days" c).0 b)) refl, ground (arith, h, a, b))
    | inr b ↦ elim (Bool-cases (str_eq "report_730_days" c)) [
      | inl d ↦
          (730, reports (sym ((eq_iff "report_730_days" c).0 d)) refl, ground (arith, h, a, b, d))
      | inr d ↦ elim (Bool-cases (str_eq "analytics_90_days" c)) [
        | inl e ↦ (
          90,
          analytics (sym ((eq_iff "analytics_90_days" c).0 e)) refl,
          ground (arith, h, a, b, d, e),
        )
        | inr e ↦ elim (Bool-cases (str_eq "standard_90_days" c)) [
          | inl g ↦ (
            90,
            standard (sym ((eq_iff "standard_90_days" c).0 g)) refl,
            ground (arith, h, a, b, d, e, g),
          )
          | inr g ↦ absurd (ground (arith, h, a, b, d, e, g))
        ]
      ]
    ]
  ]
]

-- A hold is the flag, or the word "true" in any case.
pub data IsHeld (lower : String → String) : Hold → Type 0 where
  flagged : IsHeld lower (flag true)
  worded : (t : String) → lower t ≡ "true" → IsHeld lower (written t)

-- The class or the hold keeps the evidence.
abbrev pub IsKept : (String → String) → Subject → Type 0
IsKept lower s = (s.retention_class ≡ "legal_hold") ⊎ IsHeld lower s.hold

IsHeld-holds : (lower : String → String) (hold : Hold) → IsHeld lower hold → holds lower hold ≡ true
IsHeld-holds lower hold flagged = refl
IsHeld-holds lower hold (worded t same) = (eq_iff (lower t) "true").1 same

holds-IsHeld : (lower : String → String) (hold : Hold) → holds lower hold ≡ true → IsHeld lower hold
holds-IsHeld lower absent h = absurd (ground (arith, h))
holds-IsHeld lower other_value h = absurd (ground (arith, h))
holds-IsHeld lower (flag true) h = flagged
holds-IsHeld lower (flag false) h = absurd (ground (arith, h))
holds-IsHeld lower (written t) h = worded t ((eq_iff (lower t) "true").0 h)

IsKept-is_protected :
    (lower : String → String) (s : Subject)
    → (is_protected lower s.retention_class s.hold ≡ true) ↔ IsKept lower s
unfolding is_protected
IsKept-is_protected lower s = (
  λ h. elim (Bool-cases (str_eq s.retention_class "legal_hold")) [
    | inl legal ↦ inl ((eq_iff s.retention_class "legal_hold").0 legal)
    | inr other ↦ inr (holds-IsHeld lower s.hold (rw other at h))
  ],
  λ kept. elim kept [
    | inl legal ↦ rw ((eq_iff s.retention_class "legal_hold").1 legal) refl
    | inr held ↦ ground (arith, IsHeld-holds lower s.hold held)
  ],
)

-- The recorded state is not the deletion.
abbrev pub IsLeft : Subject → Type 0
IsLeft s = s.state ≢ some EvidenceLifecycleState.deleted

IsLeft-is_deleted : (s : Subject) → IsLeft s → is_deleted s.state ≡ false
IsLeft-is_deleted s left = elim (Bool-cases (is_deleted s.state)) [
  | inl gone ↦ absurd (left (deleted_lem s.state gone))
  | inr kept ↦ kept
]
  where
    deleted_lem :
        (state : Option EvidenceLifecycleState)
        → is_deleted state ≡ true
        → state ≡ some EvidenceLifecycleState.deleted
    deleted_lem state h = ground (arith, h)

is_deleted-IsLeft : (s : Subject) → is_deleted s.state ≡ false → IsLeft s
is_deleted-IsLeft s h gone = ground (arith, h, gone)

-- The branches of the evaluation, as tests.
module _ (lower : String → String) (s : Subject) (now : ℕ) where
  eligible-tests : is_deletion_eligible (evaluate lower s now) ≡ (
      not (is_deleted s.state)
      && not (is_protected lower s.retention_class s.hold)
      && has_passed (deadline_for s.retention_class s.created_at) now)
  unfolding evaluate is_deletion_eligible
  eligible-tests = ground arith

  preserved-tests :
      (evaluate lower s now).state ≡ EvidenceLifecycleState.preserved
      → (is_deleted s.state ≡ false) × (is_protected lower s.retention_class s.hold ≡ true)
  unfolding evaluate
  preserved-tests h = (ground (arith, h), ground (arith, h))

  tests-preserved :
      is_deleted s.state ≡ false
      → is_protected lower s.retention_class s.hold ≡ true
      → (evaluate lower s now).state ≡ EvidenceLifecycleState.preserved
  unfolding evaluate
  tests-preserved left kept = rw (left, kept) refl

module _ (lower : String → String) (s : Subject) (now : ℕ) where
  -- What the policy says of evidence that is not recorded as deleted. It is preserved exactly when
  -- its class is the legal hold, or its hold is set, as a flag or as the word in any case. It may be
  -- deleted exactly when nothing keeps it so, its class is one with a term of days, and these have
  -- passed since its creation; whatever deadline is recorded for it. Evidence that is recorded as
  -- deleted is neither.
  pub evaluate-is_deletion_eligible :
      (((evaluate lower s now).state ≡ EvidenceLifecycleState.preserved)
        ↔ (IsLeft s × IsKept lower s))
      × ((is_deletion_eligible (evaluate lower s now) ≡ true) ↔ (
          IsLeft s
          × ¬ (IsKept lower s)
          × ((days : ℕ) × IsTerm s.retention_class days × (s.created_at + days * 86400 ≤ now))))
  evaluate-is_deletion_eligible =
      let kept = IsKept-is_protected lower s in
      let tests = eligible-tests lower s now in
      (
        (
          λ h.
              let (left, guarded_) = preserved-tests lower s now h in
              (is_deleted-IsLeft s left, kept.0 guarded_),
          λ (left, keeps). tests-preserved lower s now (IsLeft-is_deleted s left) (kept.1 keeps),
        ),
        (
          λ h. (
            is_deleted-IsLeft s (ground (arith, h, tests)),
            (λ keeps. ground (arith, h, tests, kept.1 keeps)),
            deadline_for-IsTerm s.retention_class s.created_at now (ground (arith, h, tests)),
          ),
          λ (left, free, (days, term, passed)).
              let open_ : is_protected lower s.retention_class s.hold ≡ false =
                elim (Bool-cases (is_protected lower s.retention_class s.hold)) [
                  | inl keeps ↦ absurd (free (kept.0 keeps))
                  | inr not_kept ↦ not_kept
                ] in
              let due = IsTerm-deadline_for s.retention_class days s.created_at term in
              let over : has_passed (deadline_for s.retention_class s.created_at) now ≡ true =
                rw due (ground (arith, passed)) in
              ground (arith, tests, IsLeft-is_deleted s left, open_, over),
        ),
      )

  -- Evidence that may be deleted, and whose record stays as it is, may be deleted at every later
  -- time, and is not accessible then.
  pub evaluate-final :
      (later : ℕ)
      → now ≤ later
      → is_deletion_eligible (evaluate lower s now) ≡ true
      → (is_deletion_eligible (evaluate lower s later) ≡ true)
        × (is_access_allowed (evaluate lower s later) ≡ false)
  unfolding evaluate is_deletion_eligible is_access_allowed
  evaluate-final later le h = ground arith

-- Only the legal hold is an approved class without a deadline.
known-deadline :
    (c : String) (created_at : ℕ)
    → is_known_class c ≡ true
    → deadline_for c created_at ≡ none
    → c ≡ "legal_hold"
unfolding is_known_class deadline_for duration_for
known-deadline c created_at known none_due = sym ((eq_iff "legal_hold" c).0 (ground arith))

category_default-known :
    (category : MediaCategory) → is_known_class (category_default category) ≡ true
unfolding is_known_class category_default
category_default-known MediaCategory.recordings = refl
category_default-known MediaCategory.evidence = refl
category_default-known MediaCategory.reports = refl
category_default-known MediaCategory.analytics = refl
category_default-known MediaCategory.temporary = refl

resolve_class-known :
    (category : MediaCategory) (c : Option String)
    → is_known_class (resolve_class category c) ≡ true
unfolding resolve_class
resolve_class-known category none = category_default-known category
resolve_class-known category (some c) = elim (Bool-cases (is_known_class c)) [
  | inl known ↦ rw known known
  | inr unknown ↦ rw unknown (category_default-known category)
]

-- A class that is resolved is an approved one, and evidence of it has a deadline unless the class
-- is the legal hold: a mistyped class does not disable the retention.
pub resolve_class-deadline :
    (category : MediaCategory) (c : Option String) (created_at : ℕ)
    → (is_known_class (resolve_class category c) ≡ true)
      × ((resolve_class category c ≡ "legal_hold")
          ⊎ (is_some (deadline_for (resolve_class category c) created_at) ≡ true))
resolve_class-deadline category c created_at = (
  resolve_class-known category c,
  elim (Option-cases (deadline_for (resolve_class category c) created_at)) [
    | inl none_due ↦ inl (
        known-deadline (resolve_class category c) created_at (resolve_class-known category c)
          none_due)
    | inr (d, due) ↦ inr (rw due refl)
  ],
)
