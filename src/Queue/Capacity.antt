-- ===== src/Queue/Capacity.antt =====
-- server/videoqueue.ts: no operation that a client's request reaches takes the queue above its cap.
use opentogethertube_cn.Common.{
  ℕ, ◌≤◌, ◌≡◌, refl, true, Option, none, some, List, [], ◌∷◌, ◌++◌, arith, length, get_elem?,
  length-append, Option-cases, inl, inr,
}
use opentogethertube_cn.Common.Int.{ℤ, pos, negsuc}
use opentogethertube_cn.Exceptions.{Result, ok, err}
use opentogethertube_cn.Queue.{
  QueueItem, VideoId, VideoQueue, Patch, all_videos, given, with_videos, enqueue, enqueue_overflow,
  push_top, insert, move, dequeue, evict, update, order_by, shuffle, OrderBy, max_queue_items,
  remove_at, insert_at, find_index,
}
use opentogethertube_cn.Queue.Items.{length-remove_at, length-insert_at, length-patch_at}
use opentogethertube_cn.Queue.Moves.{evict-Evicts}

abbrev pub FitsCap : VideoQueue → Type 0
FitsCap q = length q.items ≤ max_queue_items

-- A call of the queue that a request or a tick makes. `loops` is the loop mode's pair of calls: the current
-- item is put back, over the cap if need be, and the next one is taken.
pub data Call : Type 0 where
  enqueues pushes_top : List (Option QueueItem) → Call
  inserts : Option QueueItem → ℤ → Call
  moves : ℕ → ℕ → Call
  dequeues : Call
  evicts : VideoId → Call
  updates : VideoId → Patch → Call
  orders : (QueueItem → ℕ) → Call
  shuffles : Call
  loops : QueueItem → Call

abbrev after : VideoQueue → Result VideoQueue → VideoQueue
after q (ok q') = q'
after q (err e) = q

abbrev taken_next : VideoQueue → Result VideoQueue → VideoQueue
taken_next q (ok q') = (dequeue q').1
taken_next q (err e) = q

module _ (order : OrderBy) (shuffled : List QueueItem → List QueueItem) where
  -- A call that throws leaves the queue as it was.
  unfoldable pub run_call : Call → VideoQueue → VideoQueue
  run_call (enqueues vs) q = after q (enqueue vs q)
  run_call (pushes_top vs) q = after q (push_top vs q)
  run_call (inserts v i) q = after q (insert v i q)
  run_call (moves from to) q = after q (move from to q)
  run_call dequeues q = (dequeue q).1
  run_call (evicts v) q = elim (evict v q) [ ok r ↦ r.2 | err e ↦ q ]
  run_call (updates v p) q = after q (update v p q)
  run_call (orders key) q = order_by order key q
  run_call shuffles q = shuffle shuffled q
  run_call (loops v) q = taken_next q (enqueue_overflow (some v ∷ []) q)

  unfoldable pub run_calls : List Call → VideoQueue → VideoQueue
  run_calls [] q = q
  run_calls (c ∷ cs) q = run_calls cs (run_call c q)

with_videos-FitsCap :
    (vs : List (Option QueueItem)) (q : VideoQueue) (body : List QueueItem → Result VideoQueue)
    → FitsCap q
    → ((xs : List QueueItem) → FitsCap (after q (body xs)))
    → FitsCap (after q (with_videos vs q body))
with_videos-FitsCap [] q body h k = h
with_videos-FitsCap (v ∷ vs) q body h k =
    elim (all_videos (v ∷ vs)) as (λ o. FitsCap (after q (given o body))) [
      | none ↦ h
      | some xs ↦ k xs
    ]

enqueue-FitsCap :
    (vs : List (Option QueueItem)) (q : VideoQueue) → FitsCap q → FitsCap (after q (enqueue vs q))
unfolding enqueue
enqueue-FitsCap vs q h =
    with_videos-FitsCap vs q _ h (λ xs. ground (arith, length-append q.items xs))

push_top-FitsCap :
    (vs : List (Option QueueItem)) (q : VideoQueue) → FitsCap q → FitsCap (after q (push_top vs q))
unfolding push_top
push_top-FitsCap vs q h =
    with_videos-FitsCap vs q _ h (λ xs. ground (arith, length-append xs q.items))

insert-FitsCap :
    (v : Option QueueItem) (i : ℤ) (q : VideoQueue) → FitsCap q → FitsCap (after q (insert v i q))
unfolding insert insert_at
insert-FitsCap none (pos i) q h = ground arith
insert-FitsCap (some v) (pos i) q h = ground (arith, length-insert_at i v q.items)
insert-FitsCap v (negsuc i) q h = h

move-FitsCap : (from to : ℕ) (q : VideoQueue) → FitsCap q → FitsCap (after q (move from to q))
unfolding move
move-FitsCap from to q h = elim (Option-cases (get_elem? q.items from)) [
  | inl e ↦ ground (arith, e)
  | inr (x, e) ↦
      let shorter = length-remove_at from x q.items e in
      ground (arith, e, shorter, length-insert_at to x (remove_at from q.items))
]

evict-FitsCap :
    (v : VideoId) (q : VideoQueue)
    → FitsCap q
    → FitsCap (elim (evict v q) as (λ _. VideoQueue) [ ok r ↦ r.2 | err e ↦ q ])
evict-FitsCap v q h = elim (evict-Evicts v q) [
  | inl (_, e) ↦ ground (arith, e)
  | inr (_, (i, item, there, _, _, e)) ↦ ground (arith, e, length-remove_at i item q.items there)
]

update-FitsCap :
    (v : VideoId) (p : Patch) (q : VideoQueue) → FitsCap q → FitsCap (after q (update v p q))
unfolding update
update-FitsCap v p q h = elim (Option-cases (find_index v q)) [
  | inl e ↦ ground (arith, e)
  | inr (i, e) ↦ ground (arith, e, length-patch_at i p q.items)
]

-- The loop mode's pair of calls, an overflowing enqueue of one item and a dequeue, keeps the number
-- of items, at the cap too, and takes the oldest item, or the new one from an empty queue.
pub loop_keeps_length :
    (v : QueueItem) (q : VideoQueue)
    → (r : VideoQueue) × (enqueue_overflow (some v ∷ []) q ≡ ok r)
      × (length (dequeue r).1.items ≡ length q.items)
      × ((dequeue r).0 ≡ (elim q.items [ [] ↦ some v | x ∷ xs ↦ some x ]))
unfolding enqueue_overflow dequeue
loop_keeps_length v q = (
  record { items = q.items ++ v ∷ []; dirty = true },
  refl,
  ground (arith, length-append q.items (v ∷ [])),
  ground arith,
)

-- The sort and the shuffle of lodash keep the number of items.
module _ (order : OrderBy) (shuffled : List QueueItem → List QueueItem)
    (order_length : (key : QueueItem → ℕ) (xs : List QueueItem) → length (order key xs) ≡ length xs)
    (shuffled_length : (xs : List QueueItem) → length (shuffled xs) ≡ length xs) where
  -- One call keeps the queue within its cap, whether it succeeds or throws.
  pub run_call-FitsCap :
      (c : Call) (q : VideoQueue) → FitsCap q → FitsCap (run_call order shuffled c q)
  unfolding run_call
  run_call-FitsCap (enqueues vs) q h = enqueue-FitsCap vs q h
  run_call-FitsCap (pushes_top vs) q h = push_top-FitsCap vs q h
  run_call-FitsCap (inserts v i) q h = insert-FitsCap v i q h
  run_call-FitsCap (moves from to) q h = move-FitsCap from to q h
  run_call-FitsCap dequeues q h = unfold dequeue in ground arith
  run_call-FitsCap (evicts v) q h = evict-FitsCap v q h
  run_call-FitsCap (updates v p) q h = update-FitsCap v p q h
  run_call-FitsCap (orders key) q h = unfold order_by in ground (arith, order_length key q.items)
  run_call-FitsCap shuffles q h = unfold shuffle in ground (arith, shuffled_length q.items)
  run_call-FitsCap (loops v) q h =
      let (r, e, same, _) = loop_keeps_length v q in rw e (omega (arith, same, h))

  -- No sequence of the queue's calls that requests and ticks make takes the queue above its cap of 200
  -- items, where the loop mode's overflowing enqueue and the dequeue after it count as one call, and the
  -- sort and the shuffle of lodash keep the number of items.
  pub run_calls-FitsCap :
      (cs : List Call) (q : VideoQueue) → FitsCap q → FitsCap (run_calls order shuffled cs q)
  unfolding run_calls
  run_calls-FitsCap [] q h = h
  run_calls-FitsCap (c ∷ cs) q h =
      run_calls-FitsCap cs (run_call order shuffled c q) (run_call-FitsCap c q h)
