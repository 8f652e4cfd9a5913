-- ===== src/Temporal/Engine/History.antt =====
-- The ring of recent transitions that a state carries.
use hotelops_ai.Prelude.{
  ℕ, ◌+◌, ◌-◌, ◌≤◌, ◌<◌, ◌≡◌, ◌⊎◌, inl, inr, List, [], ◌∷◌, ◌++◌, Name, length, length-append,
  length-drop, ok, >>=-eq-ok, arith,
}
use hotelops_ai.Temporal.Model.{TemporalState}
use hotelops_ai.Temporal.Engine.{
  Engine, TemporalInput, TemporalResult, bounded_history, validate, apply, order, apply_duplicate,
  apply_out_of_order, apply_in_order, apply_evaluation,
}

bounded_history-le {ℓ} :
    {A : Type ℓ} (limit : ℕ) (history : List A)
    → 0 < limit
    → length (bounded_history limit history) ≤ limit
bounded_history-le limit history h = ground (arith, length-drop (length history - limit) history)

bounded_history-zero {ℓ} : {A : Type ℓ} (history : List A) → bounded_history 0 history ≡ history
bounded_history-zero history = ground arith

module _ {S E : Type 0} ⦃names : Name S⦄ (e : Engine S E) (s : TemporalState S)
    (inp : TemporalInput) {r : TemporalResult S} where
  -- An accepted observation adds at most one transition, the one that it is reported by.
  order-history :
      order e s inp ≡ ok r
      → (r.state.recent_transitions ≡ s.recent_transitions)
        ⊎ (r.state.recent_transitions
            ≡ bounded_history e.policy.transition_history_limit
                (s.recent_transitions ++ r.transition ∷ []))
  unfolding order apply_duplicate apply_out_of_order apply_in_order apply_evaluation
  order-history h = ground arith

  -- With a positive limit the ring never outgrows it.
  pub apply-history_bounded :
      0 < e.policy.transition_history_limit
      → length s.recent_transitions ≤ e.policy.transition_history_limit
      → apply e s inp ≡ ok r
      → length r.state.recent_transitions ≤ e.policy.transition_history_limit
  unfolding apply
  apply-history_bounded positive fits h =
      elim (order-history (>>=-eq-ok (validate e s inp) (λ _. order e s inp) h).2) [
        | inl same ↦ rw same fits
        | inr added ↦ rw added (
            bounded_history-le e.policy.transition_history_limit
              (s.recent_transitions ++ r.transition ∷ []) positive)
      ]

  -- With the limit 0, which the policy allows, an observation that is applied in order makes the
  -- history longer by one, so no bound holds of it.
  pub apply_in_order-history_unbounded :
      e.policy.transition_history_limit ≡ 0
      → apply_in_order e s inp ≡ ok r
      → length r.state.recent_transitions ≡ length s.recent_transitions + 1
  unfolding apply_in_order apply_evaluation
  apply_in_order-history_unbounded unlimited h =
      ground (arith, length-append s.recent_transitions (r.transition ∷ []))
