-- ===== src/Temporal/Engine/Checkpoints.antt =====
-- Checkpoints and their restoration by another engine.
use text.Mathlib.TextEquality.{eq_iff}
use hotelops_ai.Prelude.{◌≡◌, ◌↔◌, ◌≢◌, ok, err, arith}
use hotelops_ai.Temporal.Errors.{checkpoint_integrity}
use hotelops_ai.Temporal.Model.{TemporalState}
use hotelops_ai.Temporal.Engine.{Engine, checkpoint, restore}

module _ {S E : Type 0} where
  -- A checkpoint of one engine is restored by another exactly when the policy revisions, the
  -- versions of the machines and the families agree, and then as the state that was saved.
  pub restore-checkpoint :
      (e f : Engine S E) (s t : TemporalState S)
      → (restore f (checkpoint e s) ≡ ok t) ↔ (
          (e.policy.revision ≡ f.policy.revision)
          × (s.fsm_version ≡ f.fsm.version)
          × (s.key.fsm_kind ≡ f.fsm.name)
          × (s ≡ t))
  unfolding restore checkpoint
  restore-checkpoint e f s t = (
    λ h. ground (
      arith,
      eq_iff e.policy.revision f.policy.revision,
      eq_iff s.fsm_version f.fsm.version,
      eq_iff s.key.fsm_kind f.fsm.name,
    ),
    λ h. ground (
      arith,
      eq_iff e.policy.revision f.policy.revision,
      eq_iff s.fsm_version f.fsm.version,
      eq_iff s.key.fsm_kind f.fsm.name,
    ),
  )

  -- A checkpoint under another policy revision is refused as such, whatever else agrees.
  pub restore-policy_drift :
      (e f : Engine S E) (s : TemporalState S)
      → e.policy.revision ≢ f.policy.revision
      → restore f (checkpoint e s) ≡ err checkpoint_integrity
  unfolding restore checkpoint
  restore-policy_drift e f s drift = ground (arith, eq_iff e.policy.revision f.policy.revision)
