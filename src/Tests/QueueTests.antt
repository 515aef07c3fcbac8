-- ===== src/Tests/QueueTests.antt =====
-- server/videoqueue.ts: concrete queues.
use opentogethertube_cn.Common.{◌≡◌, refl, true, false, some, List, [], ◌∷◌, arith, length}
use opentogethertube_cn.Common.Int.{pos}
use opentogethertube_cn.Exceptions.{ok}
use opentogethertube_cn.Queue.{VideoQueue, QueueItem, id_of, evict, insert, OrderBy}
use opentogethertube_cn.Queue.Moves.{Moved, move-Moved, evict-insert}
use opentogethertube_cn.Queue.Capacity.{Call, FitsCap, run_calls, run_calls-FitsCap}
use opentogethertube_cn.Tests.Rooms.{film, clip}

abbrev queue : VideoQueue
queue = record { items = film ∷ clip ∷ film ∷ []; dirty = false }

move-Moved_example : Moved 0 2 queue
move-Moved_example = move-Moved 0 2 queue refl (ground arith) (ground arith)

abbrev left : VideoQueue
left = record { items = film ∷ film ∷ []; dirty = true }

evicted : evict (id_of clip) queue ≡ ok (1, clip, left)
unfolding evict
evicted = refl

evict-insert_example :
    insert (some clip) (pos 1) left ≡ ok (record { items = queue.items; dirty = true })
evict-insert_example = evict-insert (id_of clip) queue left 1 clip evicted (ground arith)

-- `_.orderBy` and `_.shuffle` of the tests.
abbrev kept_order : OrderBy
kept_order key items = items

same_items : (xs : List QueueItem) → length xs ≡ length xs
same_items xs = refl

abbrev some_calls : List Call
some_calls = Call.enqueues (some film ∷ []) ∷ Call.loops clip ∷ Call.shuffles ∷ Call.dequeues ∷ []

run_calls-FitsCap_example : FitsCap (run_calls kept_order (λ items. items) some_calls queue)
run_calls-FitsCap_example =
    run_calls-FitsCap kept_order (λ items. items) (λ key. same_items) same_items some_calls queue
      (ground arith)
