-- ===== src/FrameQueue.antt =====
-- `BoundedFrameQueue` of backend/app/intelligence/sources/queue.py. A call of `put` or `get` holds
-- the condition's lock from its entry, and again from each return of `wait`, until it waits or is
-- done: one such stretch is one step here, and a call that waits leaves the queue as it is and
-- makes its test again in a later step. Frames are opaque.
pub mod Accounting
pub mod Order
use hotelops_ai.Prelude.{
  ℕ, ◌+◌, Bool, true, false, not, ◌&&◌, Option, none, some, List, [], ◌∷◌, ◌++◌, leb, length, drop,
  if◌then◌else◌, Result, ok, err, ◌≡◌,
}

pub data QueueFullPolicy : Type 0 where
  block drop_oldest : QueueFullPolicy

pub data QueueError : Type 0 where
  value_error queue_closed_error : QueueError

pub record FrameQueue (F : Type 0) : Type 0 where
  pub maxsize : ℕ
  pub full_policy : QueueFullPolicy
  pub items : List F
  pub closed : Bool
  pub dropped_frames : ℕ
  pub total_enqueued : ℕ
  pub total_dequeued : ℕ
  pub max_observed : ℕ

-- What a step of `put` comes to.
pub data PutOutcome (F : Type 0) : Type 0 where
  put_raises : QueueError → PutOutcome F
  put_waits : PutOutcome F
  admitted : FrameQueue F → PutOutcome F

-- What a step of `get` comes to.
pub data GetOutcome (F : Type 0) : Type 0 where
  get_raises : QueueError → GetOutcome F
  get_waits : GetOutcome F
  got : F → FrameQueue F → GetOutcome F

pub record QueueStats : Type 0 where
  pub qsize : ℕ
  pub stats_maxsize : ℕ
  pub stats_full_policy : QueueFullPolicy
  pub stats_closed : Bool
  pub stats_total_enqueued : ℕ
  pub stats_total_dequeued : ℕ
  pub stats_dropped_frames : ℕ
  pub stats_max_observed : ℕ

abbrev max : ℕ → ℕ → ℕ
max a b = if leb a b then b else a

module _ {F : Type 0} where
  -- `__init__`
  unfoldable pub construct : ℕ → QueueFullPolicy → Result QueueError (FrameQueue F)
  construct maxsize full_policy =
      if leb 1 maxsize
      then ok (record {
        maxsize = maxsize;
        full_policy = full_policy;
        items = [];
        closed = false;
        dropped_frames = 0;
        total_enqueued = 0;
        total_dequeued = 0;
        max_observed = 0;
      })
      else err value_error

  abbrev pub is_full : FrameQueue F → Bool
  is_full q = leb q.maxsize (length q.items)

  -- The part of `put` behind its tests.
  abbrev pub append : F → FrameQueue F → FrameQueue F
  append item q = record q {
    items = q.items ++ item ∷ [];
    total_enqueued = q.total_enqueued + 1;
    max_observed = max q.max_observed (length (q.items ++ item ∷ []));
  }

  -- `popleft` and the count of the loss; the queue is full, and has a frame.
  abbrev pub evict : FrameQueue F → FrameQueue F
  evict q = record q { items = drop 1 q.items; dropped_frames = q.dropped_frames + 1 }

  abbrev put_open : F → QueueFullPolicy → FrameQueue F → PutOutcome F
  put_open item drop_oldest q =
      if is_full q then admitted (append item (evict q)) else admitted (append item q)
  put_open item block q = if is_full q then put_waits else admitted (append item q)

  unfoldable pub put : F → FrameQueue F → PutOutcome F
  put item q = if q.closed then put_raises queue_closed_error else put_open item q.full_policy q

  abbrev take_first : List F → FrameQueue F → GetOutcome F
  take_first [] q = if q.closed then get_raises queue_closed_error else get_waits
  take_first (item ∷ rest) q =
      got item (record q { items = rest; total_dequeued = q.total_dequeued + 1 })

  unfoldable pub get : FrameQueue F → GetOutcome F
  get q = take_first q.items q

  unfoldable pub shutdown : FrameQueue F → FrameQueue F
  shutdown q = record q { closed = true }

  unfoldable pub stats : FrameQueue F → QueueStats
  stats q = record {
    qsize = length q.items;
    stats_maxsize = q.maxsize;
    stats_full_policy = q.full_policy;
    stats_closed = q.closed;
    stats_total_enqueued = q.total_enqueued;
    stats_total_dequeued = q.total_dequeued;
    stats_dropped_frames = q.dropped_frames;
    stats_max_observed = q.max_observed;
  }

  -- One step of any task on the queue.
  pub data Step (q : FrameQueue F) : FrameQueue F → Type 0 where
    put_step : {q' : FrameQueue F} (item : F) → put item q ≡ admitted q' → Step q q'
    get_step : {q' : FrameQueue F} (item : F) → get q ≡ got item q' → Step q q'
    shutdown_step : Step q (shutdown q)
