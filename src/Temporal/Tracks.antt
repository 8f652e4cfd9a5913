-- ===== src/Temporal/Tracks.antt =====
-- The engines of backend/app/intelligence/temporal/presence.py and dwell.py on the state of another
-- track.
use hotelops_ai.Prelude.{ℕ, ◌≡◌, List, arith}
use hotelops_ai.Temporal.Model.{TemporalState, TemporalStateKey, TemporalPolicy, Part}
use hotelops_ai.Temporal.Engine.{TemporalInput, apply}
use hotelops_ai.Temporal.Engine.Isolation.{IsKeyBlind, with_key, apply-key}
use hotelops_ai.Temporal.Presence.{Presence, presence_name, presence_engine}
use hotelops_ai.Temporal.Presence.Loss.{presence_engine-IsKeyBlind}
use hotelops_ai.Temporal.Dwell.{Dwell, dwell_name, dwell_engine, evaluate}

dwell_engine-IsKeyBlind :
    (p : TemporalPolicy) (uuid5 : List Part → ℕ) → IsKeyBlind (dwell_engine p uuid5)
unfolding evaluate
dwell_engine-IsKeyBlind p uuid5 s key k t = ground arith

-- The `apply` of the temporal engine, under the presence and the dwell family, never compares the key
-- of the state with the key of the input: under any other key of the same family, the state takes the
-- input with the same transition, the same error or the same next state, up to that key. So an
-- observation of one track is applied to the state of another.
pub apply-with_key :
    (p : TemporalPolicy) (uuid5 : List Part → ℕ) (s : TemporalState Presence)
    (d : TemporalState Dwell) (inp : TemporalInput) (other later : TemporalStateKey)
    → other.fsm_kind ≡ s.key.fsm_kind
    → later.fsm_kind ≡ d.key.fsm_kind
    → (apply (presence_engine p uuid5) (record s { key = other }) inp
        ≡ with_key other (apply (presence_engine p uuid5) s inp))
      × (apply (dwell_engine p uuid5) (record d { key = later }) inp
          ≡ with_key later (apply (dwell_engine p uuid5) d inp))
apply-with_key p uuid5 s d inp other later same_family same_too = (
  apply-key (presence_engine p uuid5) s inp other (presence_engine-IsKeyBlind p uuid5) same_family,
  apply-key (dwell_engine p uuid5) d inp later (dwell_engine-IsKeyBlind p uuid5) same_too,
)
