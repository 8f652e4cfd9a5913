-- ===== src/Temporal/Errors.antt =====
-- The exceptions of backend/app/intelligence/temporal/exceptions.py, without their messages.
use hotelops_ai.Prelude.{Result}

pub data TemporalError : Type 0 where
  invalid_temporal_input late_event invalid_transition state_key_mismatch : TemporalError
  -- What a contract raises for a value that its validators refuse.
  validation_error : TemporalError
  fsm_version_mismatch checkpoint_integrity : TemporalError

abbrev pub Checked : Type 0 → Type 0
Checked A = Result TemporalError A
