-- ===== src/Tests/FrameQueue.antt =====
-- Tests of the frame queue, with numbers as frames.
use hotelops_ai.Prelude.{ℕ, ◌≡◌, refl, false, List, [], ◌∷◌, ◌++◌, ok}
use hotelops_ai.FrameQueue.{
  FrameQueue, QueueFullPolicy, construct, put, get, put_waits, admitted, got, put_step,
}
use hotelops_ai.FrameQueue.Accounting.{IsAccounted, here, step, reached-IsAccounted}
use hotelops_ai.FrameQueue.Order.{run_put, run_get, run_end, block-fifo}

abbrev queue_of : QueueFullPolicy → List ℕ → ℕ → FrameQueue ℕ
queue_of policy items enqueued = record {
  maxsize = 2;
  full_policy = policy;
  items = items;
  closed = false;
  dropped_frames = 0;
  total_enqueued = enqueued;
  total_dequeued = 0;
  max_observed = enqueued;
}

abbrev new_queue : FrameQueue ℕ
new_queue = queue_of QueueFullPolicy.block [] 0

new_queue-constructed : construct 2 QueueFullPolicy.block ≡ ok new_queue
unfolding construct
new_queue-constructed = refl

one_put : put 7 new_queue ≡ admitted (queue_of QueueFullPolicy.block (7 ∷ []) 1)
unfolding put
one_put = refl

reached-IsAccounted_example : IsAccounted (queue_of QueueFullPolicy.block (7 ∷ []) 1)
reached-IsAccounted_example =
    reached-IsAccounted 2 QueueFullPolicy.block new_queue-constructed
      (step here (put_step 7 one_put))

abbrev taken : FrameQueue ℕ
taken = record (queue_of QueueFullPolicy.block [] 1) { total_dequeued = 1 }

one_got : get (queue_of QueueFullPolicy.block (7 ∷ []) 1) ≡ got 7 taken
unfolding get
one_got = refl

block-fifo_example : [] ++ 7 ∷ [] ≡ (7 ∷ []) ++ taken.items
block-fifo_example = block-fifo refl (run_put 7 one_put (run_get 7 one_got run_end))

full_waits : put 9 (queue_of QueueFullPolicy.block (7 ∷ 8 ∷ []) 2) ≡ put_waits
unfolding put
full_waits = refl
