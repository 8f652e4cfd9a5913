-- ===== src/FrameQueue/Order.antt =====
-- The order in which frames leave the queue, what is lost, and the drain after a shutdown.
use hotelops_ai.Prelude.{
  ℕ, zero, suc, ◌+◌, ◌-◌, ◌≤◌, ◌≡◌, refl, sym, ap, ◌∙◌, inl, inr, true, false, Option, none, some,
  List, [], ◌∷◌, ◌++◌, length, drop, last_entries, length-append, Bool-cases, arith,
}
use mathlib.Core.List.{append_assoc, append-nil}
use hotelops_ai.FrameQueue.{
  FrameQueue, QueueFullPolicy, QueueError, queue_closed_error, is_full, append, evict, put, get,
  shutdown, put_raises, put_waits, admitted, get_raises, get_waits, got,
}
use hotelops_ai.FrameQueue.Accounting.{IsAccounted}

-- Steps with the frames that they admit and that they hand out.
pub data Run {F : Type 0} : FrameQueue F → List F → List F → FrameQueue F → Type 0 where
  run_end : {q : FrameQueue F} → Run q [] [] q
  run_put :
      {q m l : FrameQueue F} {ins outs : List F} (item : F)
      → put item q ≡ admitted m
      → Run m ins outs l
      → Run q (item ∷ ins) outs l
  run_get :
      {q m l : FrameQueue F} {ins outs : List F} (item : F)
      → get q ≡ got item m
      → Run m ins outs l
      → Run q ins (item ∷ outs) l
  run_shutdown :
      {q l : FrameQueue F} {ins outs : List F} → Run (shutdown q) ins outs l → Run q ins outs l

drop-append {ℓ} :
    {A : Type ℓ} (xs ys : List A) → 1 ≤ length xs → drop 1 (xs ++ ys) ≡ drop 1 xs ++ ys
drop-append [] ys h = ground arith
drop-append (x ∷ xs) ys h = refl

module _ {F : Type 0} where
  put-block :
      (item : F) (q : FrameQueue F) {m : FrameQueue F}
      → q.full_policy ≡ QueueFullPolicy.block
      → put item q ≡ admitted m
      → (m.full_policy ≡ QueueFullPolicy.block) × (m.items ≡ q.items ++ item ∷ [])
  unfolding put
  put-block item q b h = ground arith

  get-items :
      (item : F) (q : FrameQueue F) {m : FrameQueue F}
      → get q ≡ got item m
      → (m.full_policy ≡ q.full_policy) × (q.items ≡ item ∷ m.items)
  unfolding get
  get-items item q h = ground arith

  -- A blocking queue loses no frame and keeps their order: the frames that wait, followed by those
  -- that are admitted, are those that are handed out, followed by those that still wait.
  pub block-fifo :
      {q l : FrameQueue F} {ins outs : List F}
      → q.full_policy ≡ QueueFullPolicy.block
      → Run q ins outs l
      → q.items ++ ins ≡ outs ++ l.items
  unfolding shutdown
  block-fifo {q} b run_end = append-nil q.items
  block-fifo {q} b (run_put {ins = ins} item h more) =
      let (b', items) = put-block item q b h in
      sym (append_assoc q.items (item ∷ []) ins) ∙ rw (sym items) (block-fifo b' more)
  block-fifo {q} b (run_get {ins = ins} item h more) =
      let (b', items) = get-items item q h in
      rw items (ap (λ l. item ∷ l) (block-fifo (b' ∙ b) more))
  block-fifo b (run_shutdown more) = block-fifo b more

  full_excess :
      (item : F) (q : FrameQueue F)
      → IsAccounted q
      → is_full q ≡ true
      → length (q.items ++ item ∷ []) - q.maxsize ≡ 1
  full_excess item q w full = ground (arith, w.bounded, length-append q.items (item ∷ []))

  room_excess :
      (item : F) (q : FrameQueue F)
      → is_full q ≡ false
      → length (q.items ++ item ∷ []) - q.maxsize ≡ 0
  room_excess item q room = ground (arith, length-append q.items (item ∷ []))

  -- An open and accounted queue that drops the oldest admits every frame at once, and then holds the
  -- newest `maxsize` of its frames and the new one.
  pub drop_oldest-newest :
      (item : F) (q : FrameQueue F)
      → q.full_policy ≡ QueueFullPolicy.drop_oldest
      → q.closed ≡ false
      → IsAccounted q
      → (m : FrameQueue F) × (put item q ≡ admitted m)
        × (m.items ≡ last_entries q.maxsize (q.items ++ item ∷ []))
  unfolding put
  drop_oldest-newest item q policy opened w = elim (Bool-cases (is_full q)) [
    | inl full ↦
        let ahead = drop-append q.items (item ∷ []) (ground (arith, w.positive)) in
        (
          append item (evict q),
          ground arith,
          sym (ap (λ n. drop n (q.items ++ item ∷ [])) (full_excess item q w full) ∙ ahead),
        )
    | inr room ↦ (
      append item q,
      ground arith,
      sym (ap (λ n. drop n (q.items ++ item ∷ [])) (room_excess item q room)),
    )
  ]

  -- Handing out frames until a call raises or waits.
  abbrev pub drain : ℕ → FrameQueue F → List F × Option QueueError
  drain zero q = ([], none)
  drain (suc n) q = elim (get q) [
    | get_raises e ↦ ([], some e)
    | get_waits ↦ ([], none)
    | got item m ↦ (item ∷ (drain n m).0, (drain n m).1)
  ]

  drain-closed :
      (items : List F) (q : FrameQueue F)
      → q.items ≡ items
      → q.closed ≡ true
      → drain (suc (length items)) q ≡ (items, some queue_closed_error)
  unfolding get
  drain-closed [] q same closed = ground arith
  drain-closed (x ∷ xs) q same closed =
      ground
        (arith, drain-closed xs (record q { items = xs; total_dequeued = q.total_dequeued + 1 }))

  -- After a shutdown no frame is admitted, and the frames that wait are handed out in their order
  -- before a call of `get` raises.
  pub shutdown-drain :
      (item : F) (q : FrameQueue F)
      → (put item (shutdown q) ≡ put_raises queue_closed_error)
        × (drain (suc (length q.items)) (shutdown q) ≡ (q.items, some queue_closed_error))
  unfolding put shutdown
  shutdown-drain item q = (refl, drain-closed q.items (shutdown q) refl refl)

  released :
      (item : F) (q : FrameQueue F) (items : List F)
      → q.items ≡ items
      → IsAccounted q
      → put item q ≡ put_waits
      → (x : F) × (m : FrameQueue F) × (l : FrameQueue F) × (get q ≡ got x m)
        × (put item m ≡ admitted l)
  unfolding put get
  released item q [] same w waits = ground (arith, w.positive)
  released item q (x ∷ xs) same w waits =
      let m = record q { items = xs; total_dequeued = q.total_dequeued + 1 } in
      (x, m, append item m, ground arith, ground (arith, w.bounded))

  -- Backpressure is released: when `put` waits on an open blocking queue, a step of `get` hands out a
  -- frame, and `put` admits its frame after that.
  pub put-released :
      (item : F) (q : FrameQueue F)
      → IsAccounted q
      → put item q ≡ put_waits
      → (x : F) × (m : FrameQueue F) × (l : FrameQueue F) × (get q ≡ got x m)
        × (put item m ≡ admitted l)
  put-released item q w waits = released item q q.items refl w waits
