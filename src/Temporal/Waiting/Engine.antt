-- ===== src/Temporal/Waiting/Engine.antt =====
-- The methods of `WaitingEngine` of backend/app/intelligence/temporal/waiting.py around its
-- evaluation: validation, order, open intervals and checkpoints.
use text.Mathlib.Text.{◌==◌ as str_eq}
use hotelops_ai.Prelude.{
  ℕ, ◌-◌, Bool, true, false, ◌&&◌, Option, none, some, List, [], ◌∷◌, ◌++◌, leb, ◌==◌, or_else,
  if◌then◌else◌, contains, ok, err, ◌>>=◌, ◌>>◌, ensure,
}
use hotelops_ai.Temporal.Errors.{
  Checked, invalid_temporal_input, late_event, state_key_mismatch, fsm_version_mismatch,
  checkpoint_integrity,
}
use hotelops_ai.Temporal.Model.{Instant, TemporalStateKey, kind_name, Part, temporal_engine_version}
use hotelops_ai.Temporal.Engine.{canonical, position_eq, position_lt, Position, newer}
use hotelops_ai.Temporal.Dwell.{dwell_kinds}
use hotelops_ai.Temporal.Occupancy.{scope_matches, key_eq, kind_matches}
use hotelops_ai.Temporal.Waiting.{
  not_waiting, waiting, waiting_name, WaitingPolicy, WaitingState, WaitingInterval,
  WaitingCheckpoint, WaitingInput, WaitingResult, Verdict, waiting_fsm, waiting_event_from_presence,
  make_interval, evaluate,
}

module _ (p : WaitingPolicy) (uuid5 : List Part → ℕ) where
  unfoldable pub initial_state : TemporalStateKey → Checked WaitingState
  initial_state key =
      ensure (str_eq key.fsm_kind "waiting") invalid_temporal_input
      >> ok (record {
        fsm_version = waiting_fsm.version;
        key = key;
        current_state = not_waiting;
        presence_confirmed = false;
        candidate_start = none;
        waiting_start = none;
        last_seen = none;
        watermark = none;
      })

  -- `_check_key_matches_transition` and `_check_key_matches_classification`, as the test that they
  -- raise on.
  abbrev pub same_provenance : TemporalStateKey → TemporalStateKey → Bool
  same_provenance a b = scope_matches a b && a.track_id == b.track_id

  unfoldable pub validate : WaitingState → WaitingInput → Checked Unit
  validate s inp =
      ensure (key_eq inp.key s.key) invalid_temporal_input
      >> ensure (str_eq inp.key.fsm_kind "waiting") invalid_temporal_input
      >> ensure (str_eq s.fsm_version waiting_fsm.version) fsm_version_mismatch
      >> ensure (str_eq inp.presence_transition.key.fsm_kind "presence") invalid_temporal_input
      >> ensure (str_eq inp.classification_state.key.fsm_kind "movement_classification")
          invalid_temporal_input
      >> ensure (contains dwell_kinds inp.observation_kind) invalid_temporal_input
      >> ensure
          (kind_matches (waiting_event_from_presence inp.presence_transition) inp.observation_kind)
          invalid_temporal_input
      >> ensure inp.processing_time.aware invalid_temporal_input
      >> ensure (same_provenance inp.key inp.presence_transition.key) state_key_mismatch
      >> ensure (same_provenance inp.key inp.classification_state.key) state_key_mismatch

  abbrev pub plain : WaitingState → WaitingResult
  plain s = record { state = s; interval = none; deduplicated = false; reordered = false }

  unfoldable pub apply_out_of_order : WaitingState → Position → Instant → Checked WaitingResult
  apply_out_of_order s w t =
      if leb (w.0 - t) p.base.reorder_window
      then ok (record (plain (record s { last_seen = some (newer s.last_seen t) })) {
        reordered = true;
      })
      else err late_event

  -- The update of the state by a verdict, at a position.
  abbrev pub updated : WaitingState → Position → Verdict → WaitingState
  updated s q v = record s {
    current_state = v.next_state;
    presence_confirmed = v.presence_confirmed;
    candidate_start = v.candidate_start;
    waiting_start = v.waiting_start;
    last_seen = some q.0;
    watermark = some q;
  }

  unfoldable pub apply_in_order : WaitingState → WaitingInput → Position → Checked WaitingResult
  apply_in_order s inp q =
      evaluate p uuid5 s inp.observation_kind q.0 inp.classification_state.is_stationary >>= λ v.
      ok (record (plain (updated s q v)) { interval = v.interval })

  unfoldable pub order :
      WaitingState → WaitingInput → Position → Option Position → Checked WaitingResult
  order s inp q none = apply_in_order s inp q
  order s inp q (some w) =
      if position_eq q w
      then ok (record (plain s) { deduplicated = true })
      else if position_lt q w
      then apply_out_of_order s w q.0
      else apply_in_order s inp q

  abbrev pub position_of : WaitingInput → Position
  position_of inp =
      (inp.presence_transition.event_time, inp.presence_transition.observation_frame_id)

  unfoldable pub apply : WaitingState → WaitingInput → Checked WaitingResult
  apply s inp = validate s inp >> order s inp (position_of inp) s.watermark

  unfoldable pub open_interval : WaitingState → Checked (Option WaitingInterval)
  open_interval s = elim s.current_state [
    | waiting ↦ elim s.waiting_start [
      | none ↦ err invalid_temporal_input
      | some since ↦
          make_interval (record {
            interval_id = uuid5 (
                canonical s.key
                ++ Part.text "open"
                  ∷ Part.instant since
                  ∷ Part.text waiting_fsm.version
                  ∷ Part.text p.base.revision
                  ∷ []);
            fsm_kind = waiting_fsm.name;
            key = s.key;
            waiting_start = since;
            waiting_end = none;
            last_seen = or_else s.last_seen since;
            duration = or_else s.last_seen since - since;
            qualified = leb p.qualification (or_else s.last_seen since - since);
            minimum_waiting = p.qualification;
            reason = none;
            fsm_version = waiting_fsm.version;
            policy_revision = p.base.revision;
          })
          >>= λ i. ok (some i)
    ]
    | _ ↦ ok none
  ]

  unfoldable pub checkpoint : WaitingState → WaitingCheckpoint
  checkpoint s = record {
    engine_version = temporal_engine_version;
    policy_revision = p.base.revision;
    state = s;
  }

  unfoldable pub restore : WaitingCheckpoint → Checked WaitingState
  restore c =
      ensure (str_eq c.engine_version temporal_engine_version) fsm_version_mismatch
      >> ensure (str_eq c.policy_revision p.base.revision) checkpoint_integrity
      >> ensure (str_eq c.state.fsm_version waiting_fsm.version) fsm_version_mismatch
      >> ensure (str_eq c.state.key.fsm_kind "waiting") invalid_temporal_input
      >> ok c.state
