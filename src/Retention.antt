-- ===== src/Retention.antt =====
-- The retention of evidence: `RetentionPolicyRegistry` of backend/app/domain/media/retention.py and
-- `EvidenceRetentionPolicy` of backend/app/domain/evidence/retention.py. A time is a number of
-- seconds; `timedelta.max` is `none`. The lower-casing of a text is a parameter.
pub mod Deletion
use text.Mathlib.Text.{◌==◌ as str_eq}
use hotelops_ai.Prelude.{
  ℕ, ◌+◌, ◌*◌, Bool, true, false, ◌&&◌, ◌||◌, Option, none, some, List, [], ◌∷◌, String, leb,
  is_some, if◌then◌else◌,
}

pub record RetentionPolicy : Type 0 where
  pub retention_class : String
  pub duration : Option ℕ
  pub protected : Bool

pub data MediaCategory : Type 0 where
  recordings evidence reports analytics temporary : MediaCategory

abbrev days : ℕ → Option ℕ
days n = some (n * 86400)

abbrev policy : String → Option ℕ → Bool → RetentionPolicy
policy retention_class duration protected = record {
  retention_class = retention_class;
  duration = duration;
  protected = protected;
}

-- `POLICIES`
abbrev pub policies : List RetentionPolicy
policies =
    policy "cctv_30_days" (days 30) false
    ∷ policy "evidence_365_days" (days 365) false
    ∷ policy "report_730_days" (days 730) false
    ∷ policy "analytics_90_days" (days 90) false
    ∷ policy "standard_90_days" (days 90) false
    ∷ policy "legal_hold" none true
    ∷ []

-- `CATEGORY_DEFAULTS`
unfoldable pub category_default : MediaCategory → String
category_default MediaCategory.recordings = "cctv_30_days"
category_default MediaCategory.evidence = "evidence_365_days"
category_default MediaCategory.reports = "report_730_days"
category_default MediaCategory.analytics = "analytics_90_days"
category_default MediaCategory.temporary = "standard_90_days"

abbrev pub find_policy : List RetentionPolicy → String → Option RetentionPolicy
find_policy [] c = none
find_policy (p ∷ ps) c = if str_eq p.retention_class c then some p else find_policy ps c

unfoldable pub is_known_class : String → Bool
is_known_class c = is_some (find_policy policies c)

unfoldable pub resolve_class : MediaCategory → Option String → String
resolve_class category none = category_default category
resolve_class category (some c) = if is_known_class c then c else category_default category

abbrev duration_of : Option RetentionPolicy → Option ℕ
duration_of none = none
duration_of (some p) = p.duration

unfoldable pub duration_for : String → Option ℕ
duration_for c = duration_of (find_policy policies c)

-- The value of the key `preservation_hold` in the metadata, where there is one.
pub data Hold : Type 0 where
  absent other_value : Hold
  flag : Bool → Hold
  written : String → Hold

pub data EvidenceLifecycleState : Type 0 where
  active expired preserved deletion_pending deleted : EvidenceLifecycleState

pub record EvidenceRetentionStatus : Type 0 where
  pub retention_class : String
  pub expires_at : Option ℕ
  pub state : EvidenceLifecycleState
  pub protected : Bool

unfoldable pub is_access_allowed : EvidenceRetentionStatus → Bool
is_access_allowed status = elim status.state [
  | EvidenceLifecycleState.active ↦ true
  | EvidenceLifecycleState.preserved ↦ true
  | _ ↦ false
]

unfoldable pub is_deletion_eligible : EvidenceRetentionStatus → Bool
is_deletion_eligible status = elim status.state [
  | EvidenceLifecycleState.expired ↦ true
  | _ ↦ false
]

unfoldable pub deadline_for : String → ℕ → Option ℕ
deadline_for c created_at = elim (duration_for c) [
  | none ↦ none
  | some duration ↦ some (created_at + duration)
]

-- What is asked of an evaluation: a reference's class, creation, hold, recorded state and recorded
-- deadline.
pub record Subject : Type 0 where
  pub retention_class : String
  pub created_at : ℕ
  pub hold : Hold
  pub state : Option EvidenceLifecycleState
  pub recorded : Option ℕ

abbrev pub is_deleted : Option EvidenceLifecycleState → Bool
is_deleted (some EvidenceLifecycleState.deleted) = true
is_deleted _ = false

abbrev is_pending : Option EvidenceLifecycleState → Bool
is_pending (some EvidenceLifecycleState.deletion_pending) = true
is_pending _ = false

abbrev pub has_passed : Option ℕ → ℕ → Bool
has_passed none now = false
has_passed (some deadline) now = leb deadline now

module _ (lower : String → String) where
  abbrev pub holds : Hold → Bool
  holds absent = false
  holds other_value = false
  holds (flag b) = b
  holds (written t) = str_eq (lower t) "true"

  unfoldable pub is_protected : String → Hold → Bool
  is_protected c hold = str_eq c "legal_hold" || holds hold

  unfoldable pub evaluate : Subject → ℕ → EvidenceRetentionStatus
  evaluate s now =
      if is_deleted s.state
      then record {
        retention_class = s.retention_class;
        expires_at = s.recorded;
        state = EvidenceLifecycleState.deleted;
        protected = is_protected s.retention_class s.hold;
      }
      else if is_protected s.retention_class s.hold
      then record {
        retention_class = s.retention_class;
        expires_at = none;
        state = EvidenceLifecycleState.preserved;
        protected = true;
      }
      else if has_passed (deadline_for s.retention_class s.created_at) now
      then record {
        retention_class = s.retention_class;
        expires_at = deadline_for s.retention_class s.created_at;
        state = EvidenceLifecycleState.expired;
        protected = false;
      }
      else record {
        retention_class = s.retention_class;
        expires_at = deadline_for s.retention_class s.created_at;
        state =
            if is_pending s.state
            then EvidenceLifecycleState.deletion_pending
            else EvidenceLifecycleState.active;
        protected = false;
      }
