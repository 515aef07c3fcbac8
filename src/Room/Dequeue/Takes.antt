-- ===== src/Room/Dequeue/Takes.antt =====
-- server/room.ts: what `dequeueNext` takes from the queue, and what it leaves there.
use opentogethertube_cn.Common.{
  ◌≡◌, ◌∙◌, refl, Bool, true, false, Option, none, some, List, [], ◌∷◌, ◌++◌, if◌then◌else◌, String,
  arith,
}
use opentogethertube_cn.Queue.{QueueItem, VideoQueue, dequeue}
use opentogethertube_cn.Room.State.{Room, Time}
use opentogethertube_cn.Room.Clock.{play, set_is_playing}
use opentogethertube_cn.Room.Holding.{hold_playback_for_preparation, prepare_empty_room_playback}
use opentogethertube_cn.Room.Gate.{release_buffer_gate}
use opentogethertube_cn.Room.Dequeue.{
  Env, clear_queue_item_trim, requeue_current, take_item, start_dequeued, advance, advance_from,
  finish_dequeue, next_item, dequeue_by_mode, dequeue_next, clear_skip_votes, is_loop, is_dj,
}

-- The source and the items of a room, which holding and starting leave alone.
abbrev pub Shows : Option QueueItem → List QueueItem → Room → Type 0
Shows s items r = (r.current_source ≡ s) × (r.queue.items ≡ items)

play-same : (now : Time) (r : Room) → Shows r.current_source r.queue.items (play now r)
unfolding play
play-same now r = (ground arith, ground arith)

release-same :
    (now : Time) (b : Bool) (r : Room)
    → Shows r.current_source r.queue.items (release_buffer_gate now b r)
unfolding release_buffer_gate
release-same now b r = (ground arith, ground arith)

hold-same :
    (now : Time) (u : String) (r : Room)
    → Shows r.current_source r.queue.items (hold_playback_for_preparation now u r)
unfolding hold_playback_for_preparation prepare_empty_room_playback set_is_playing
hold-same now u r = (ground arith, ground arith)

start_dequeued-same :
    (e : Env) (r : Room) → Shows r.current_source r.queue.items (start_dequeued e r)
unfolding start_dequeued
start_dequeued-same e r =
    let (p, q) = play-same e.now r in
    let (s, t) = hold-same e.now e.uuid r in (ground (arith, p, s), ground (arith, q, t))

take_item-takes :
    (e : Env) (i : QueueItem) (q : VideoQueue) (r : Room)
    → Shows (some i) q.items (take_item e i q r)
unfolding take_item
take_item-takes e i q r = (ground arith, ground arith)

finish-same : (e : Env) (r : Room) → Shows r.current_source r.queue.items (finish_dequeue e r)
unfolding finish_dequeue
finish-same e r = (ground arith, ground arith)

-- The items once the current one is put back.
abbrev pub requeued_items : Room → List QueueItem
requeued_items r = elim r.current_source [
  | none ↦ r.queue.items
  | some s ↦
      if is_loop r.queue_mode then r.queue.items ++ clear_queue_item_trim s ∷ [] else r.queue.items
]

pub requeue-items :
    (s : Option QueueItem) (r : Room)
    → r.current_source ≡ s
    → (requeue_current s r).queue.items ≡ requeued_items r
unfolding requeue_current
requeue-items s r e = ground (arith, e)

requeue-source :
    (s : Option QueueItem) (r : Room) → (requeue_current s r).current_source ≡ r.current_source
unfolding requeue_current
requeue-source s r = ground arith

advance_from-takes :
    (e : Env) (i : QueueItem) (q : VideoQueue) (r : Room)
    → Shows (some i) q.items (advance_from e (some i, q) r)
advance_from-takes e i q r =
    let (a, b) = start_dequeued-same e (take_item e i q r) in
    let (c, d) = take_item-takes e i q r in (a ∙ c, b ∙ d)

pub dequeued :
    (i : QueueItem) (is : List QueueItem) (q : VideoQueue)
    → q.items ≡ i ∷ is
    → dequeue q ≡ (some i, record { items = is; dirty = true })
unfolding dequeue
dequeued i is q h = rw h refl

advance-takes :
    (e : Env) (i : QueueItem) (is : List QueueItem) (r : Room)
    → r.queue.items ≡ i ∷ is
    → Shows (some i) is (advance e r)
unfolding advance
advance-takes e i is r h =
    rw (dequeued i is r.queue h) (advance_from-takes e i (record { items = is; dirty = true }) r)

next_item-takes :
    (e : Env) (i : QueueItem) (is : List QueueItem) (r : Room)
    → requeued_items r ≡ i ∷ is
    → Shows (some i) is (next_item e r)
next_item-takes e i is r h =
    let r₁ = requeue_current r.current_source r in
    let (a, b) = finish-same e (advance e r₁) in
    let (c, d) = advance-takes e i is r₁ (requeue-items r.current_source r refl ∙ h) in
    (a ∙ c, b ∙ d)

release-mode :
    (now : Time) (b : Bool) (r : Room) → (release_buffer_gate now b r).queue_mode ≡ r.queue_mode
unfolding release_buffer_gate
release-mode now b r = ground arith

by_mode-takes :
    (e : Env) (i : QueueItem) (is : List QueueItem) (s : Option QueueItem) (r : Room)
    → is_dj r.queue_mode ≡ false
    → requeued_items r ≡ i ∷ is
    → Shows (some i) is (dequeue_by_mode e s r)
by_mode-takes e i is none r d h = next_item-takes e i is r h
by_mode-takes e i is (some s) r d h = rw d (next_item-takes e i is r h)

-- What the step sees when it begins: the room, but for its gate and its votes to skip.
begins-same :
    (e : Env) (r : Room)
    → ((clear_skip_votes (release_buffer_gate e.now false r)).queue_mode ≡ r.queue_mode)
      × (requeued_items (clear_skip_votes (release_buffer_gate e.now false r)) ≡ requeued_items r)
begins-same e r =
    let (s, q) = release-same e.now false r in
    let m = release-mode e.now false r in (ground (arith, m), ground (arith, s, q, m))

-- Outside the DJ mode, going on takes the first item, and loses no other: the source becomes the head
-- of the queue, and the queue is left with the rest. In loop mode the source, without the limits of
-- its trim, first goes to the end of the queue, so that a loop of one item plays it again.
pub dequeue_next-takes :
    (e : Env) (i : QueueItem) (is : List QueueItem) (r : Room)
    → is_dj r.queue_mode ≡ false
    → requeued_items r ≡ i ∷ is
    → ((dequeue_next e r).current_source ≡ some i) × ((dequeue_next e r).queue.items ≡ is)
unfolding dequeue_next
dequeue_next-takes e i is r d h =
    let r₁ = clear_skip_votes (release_buffer_gate e.now false r) in
    let (m, q) = begins-same e r in by_mode-takes e i is r₁.current_source r₁ (rw m d) (q ∙ h)
