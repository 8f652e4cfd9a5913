-- ===== src/FrameQueue/Accounting.antt =====
-- The counters of the frame queue account for every frame, and its length is bounded.
use hotelops_ai.Prelude.{
  ℕ, ◌⊎◌, ◌+◌, ◌≤◌, ◌≡◌, [], ◌∷◌, length, drop, length-append, length-drop, ok, arith,
}
use hotelops_ai.FrameQueue.{
  FrameQueue, QueueFullPolicy, Step, put_step, get_step, shutdown_step, construct, put, get,
  shutdown, admitted, got,
}

-- At most `maxsize` frames wait, every admitted frame was taken, lost or still waits, the peak is
-- no less than the length and within the bound, and only `drop_oldest` loses frames.
pub record IsAccounted {F : Type 0} (q : FrameQueue F) : Type 0 where
  pub positive : 1 ≤ q.maxsize
  pub bounded : length q.items ≤ q.maxsize
  pub accounted : q.total_enqueued ≡ q.total_dequeued + q.dropped_frames + length q.items
  pub peak : length q.items ≤ q.max_observed
  pub peak_bounded : q.max_observed ≤ q.maxsize
  pub lossless : (q.full_policy ≡ QueueFullPolicy.drop_oldest) ⊎ (q.dropped_frames ≡ 0)

-- The queues that steps lead to from a queue.
pub data Reaches {F : Type 0} (q : FrameQueue F) : FrameQueue F → Type 0 where
  here : Reaches q q
  step : {m l : FrameQueue F} → Reaches q m → Step m l → Reaches q l

module _ {F : Type 0} where
  put-IsAccounted :
      (item : F) (q l : FrameQueue F) → put item q ≡ admitted l → IsAccounted q → IsAccounted l
  unfolding put
  put-IsAccounted item q l h w = record {
    positive = ground (
      arith,
      length-append q.items (item ∷ []),
      length-append (drop 1 q.items) (item ∷ []),
      length-drop 1 q.items,
    );
    bounded = ground (
      arith,
      length-append q.items (item ∷ []),
      length-append (drop 1 q.items) (item ∷ []),
      length-drop 1 q.items,
    );
    accounted = ground (
      arith,
      length-append q.items (item ∷ []),
      length-append (drop 1 q.items) (item ∷ []),
      length-drop 1 q.items,
    );
    peak = ground (
      arith,
      length-append q.items (item ∷ []),
      length-append (drop 1 q.items) (item ∷ []),
      length-drop 1 q.items,
    );
    peak_bounded = ground (
      arith,
      length-append q.items (item ∷ []),
      length-append (drop 1 q.items) (item ∷ []),
      length-drop 1 q.items,
    );
    lossless = ground (
      arith,
      length-append q.items (item ∷ []),
      length-append (drop 1 q.items) (item ∷ []),
      length-drop 1 q.items,
    );
  }

  get-IsAccounted :
      (item : F) (q l : FrameQueue F) → get q ≡ got item l → IsAccounted q → IsAccounted l
  unfolding get
  get-IsAccounted item q l h w = record {
    positive = ground arith;
    bounded = ground arith;
    accounted = ground arith;
    peak = ground arith;
    peak_bounded = ground arith;
    lossless = ground arith;
  }

  Step-IsAccounted : {q l : FrameQueue F} → Step q l → IsAccounted q → IsAccounted l
  unfolding shutdown
  Step-IsAccounted {q} {l} (put_step item h) w = put-IsAccounted item q l h w
  Step-IsAccounted {q} {l} (get_step item h) w = get-IsAccounted item q l h w
  Step-IsAccounted shutdown_step w = record {
    positive = w.positive;
    bounded = w.bounded;
    accounted = w.accounted;
    peak = w.peak;
    peak_bounded = w.peak_bounded;
    lossless = w.lossless;
  }

  construct-IsAccounted :
      (maxsize : ℕ) (policy : QueueFullPolicy) {q : FrameQueue F}
      → construct maxsize policy ≡ ok q
      → IsAccounted q
  unfolding construct
  construct-IsAccounted maxsize policy h = record {
    positive = ground arith;
    bounded = ground arith;
    accounted = ground arith;
    peak = ground arith;
    peak_bounded = ground arith;
    lossless = ground arith;
  }

  -- In every queue that steps lead to from a new one, at most `maxsize` frames wait, every admitted
  -- frame was taken, was lost or still waits, the peak is within the bound and no less than the
  -- length, and a blocking queue has lost none.
  pub reached-IsAccounted :
      (maxsize : ℕ) (policy : QueueFullPolicy) {q l : FrameQueue F}
      → construct maxsize policy ≡ ok q
      → Reaches q l
      → IsAccounted l
  reached-IsAccounted maxsize policy h here = construct-IsAccounted maxsize policy h
  reached-IsAccounted maxsize policy h (step steps last) =
      Step-IsAccounted last (reached-IsAccounted maxsize policy h steps)
