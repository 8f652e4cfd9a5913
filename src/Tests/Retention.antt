-- ===== src/Tests/Retention.antt =====
-- Tests of the retention of evidence.
use hotelops_ai.Prelude.{◌≡◌, refl, true, none, some, String, ℕ, ◌+◌, ◌*◌, ◌≤◌, ◌↔◌}
use hotelops_ai.Retention.{
  Subject, absent, active, is_deletion_eligible, deadline_for, duration_for, is_protected, evaluate,
  EvidenceLifecycleState,
}
use hotelops_ai.Retention.Deletion.{IsTerm, IsKept, IsLeft, evaluate-is_deletion_eligible}

-- A lower-casing for texts that are in lower case already.
abbrev same : String → String
same t = t

abbrev subject : Subject
subject = record {
  retention_class = "cctv_30_days";
  created_at = 100;
  hold = absent;
  state = some active;
  recorded = none;
}

evaluate-is_deletion_eligible_example :
    (((evaluate same subject 2592100).state ≡ EvidenceLifecycleState.preserved)
      ↔ (IsLeft subject × IsKept same subject))
    × ((is_deletion_eligible (evaluate same subject 2592100) ≡ true) ↔ (
        IsLeft subject
        × ¬ (IsKept same subject)
        × ((days : ℕ) × IsTerm "cctv_30_days" days × (100 + days * 86400 ≤ 2592100))))
evaluate-is_deletion_eligible_example = evaluate-is_deletion_eligible same subject 2592100

subject-expired : is_deletion_eligible (evaluate same subject 2592100) ≡ true
unfolding is_deletion_eligible evaluate is_protected deadline_for duration_for
subject-expired = refl
