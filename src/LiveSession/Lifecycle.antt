-- ===== src/LiveSession/Lifecycle.antt =====
-- The machine of a live session: its three queries agree, and where its transitions lead.
use hotelops_ai.Prelude.{ℕ, ◌≡◌, ◌⊎◌, true, false, ◌is◌, contains, ok, is_ok, arith}
use hotelops_ai.LiveSession.{
  LiveVideoSessionStatus, Operation, LiveSessionTransitionRecord, Cause, status_name,
  operation_name, legal_transitions, is_terminal, get_next_state, can_transition,
  get_allowed_operations, transition, assert_can_transition,
}

module _ (session_id : ℕ) (cause : Cause) (now : ℕ) where
  -- An operation succeeds exactly where `can_transition` holds, where `assert_can_transition` does
  -- not raise, and where `get_allowed_operations` lists it.
  pub transition-agrees :
      (s : LiveVideoSessionStatus) (op : Operation)
      → (is_ok (transition s op session_id cause true now) ≡ can_transition s op)
        × (is_ok (assert_can_transition s op) ≡ can_transition s op)
        × (contains (get_allowed_operations s) op ≡ can_transition s op)
  unfolding transition can_transition assert_can_transition get_allowed_operations get_next_state
      legal_transitions is_terminal
  transition-agrees LiveVideoSessionStatus.connecting op = ground arith
  transition-agrees LiveVideoSessionStatus.active op = ground arith
  transition-agrees LiveVideoSessionStatus.degraded op = ground arith
  transition-agrees LiveVideoSessionStatus.reconnecting op = ground arith
  transition-agrees LiveVideoSessionStatus.stopped op = ground arith
  transition-agrees LiveVideoSessionStatus.failed op = ground arith

  -- Where a transition leads: it starts at the current state and never leads to `connecting`; out
  -- of a terminal state there is only a stop, which keeps the state; and it leads to `active` only
  -- from `connecting` by `connected`, or from `reconnecting` by `reconnected`.
  pub transition-leads :
      (s : LiveVideoSessionStatus) (op : Operation) {r : LiveSessionTransitionRecord}
      → transition s op session_id cause true now ≡ ok r
      → (r.previous_state ≡ s)
        × ((r.new_state is LiveVideoSessionStatus.connecting) ≡ false)
        × ((is_terminal s ≡ false) ⊎ ((r.new_state ≡ s) × (op ≡ Operation.stop_requested)))
        × (((r.new_state is LiveVideoSessionStatus.active) ≡ false)
            ⊎ ((s ≡ LiveVideoSessionStatus.connecting) × (op ≡ Operation.connected))
            ⊎ ((s ≡ LiveVideoSessionStatus.reconnecting) × (op ≡ Operation.reconnected)))
  unfolding transition get_next_state legal_transitions is_terminal
  transition-leads LiveVideoSessionStatus.connecting op h = ground arith
  transition-leads LiveVideoSessionStatus.active op h = ground arith
  transition-leads LiveVideoSessionStatus.degraded op h = ground arith
  transition-leads LiveVideoSessionStatus.reconnecting op h = ground arith
  transition-leads LiveVideoSessionStatus.stopped op h = ground arith
  transition-leads LiveVideoSessionStatus.failed op h = ground arith
