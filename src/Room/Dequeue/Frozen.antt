-- ===== src/Room/Dequeue/Frozen.antt =====
-- server/room.ts: `dequeueNext` in a room that came back from the storage and plays all the same.
use opentogethertube_cn.Common.{
  ◌≡◌, ◌∙◌, refl, true, false, Option, none, some, List, ◌∷◌, arith, or_else,
}
use opentogethertube_cn.Common.Int.{pos}
use opentogethertube_cn.Queue.{QueueItem, VideoQueue}
use opentogethertube_cn.Room.State.{Room, Time, Ticks}
use opentogethertube_cn.Room.Clock.{real_playback_position}
use opentogethertube_cn.Room.Gate.{release_buffer_gate}
use opentogethertube_cn.Room.Dequeue.{
  Env, requeue_current, take_item, start_dequeued, advance, finish_dequeue, next_item,
  dequeue_by_mode, dequeue_next, clear_skip_votes, is_dj,
}
use opentogethertube_cn.Room.Dequeue.Takes.{requeued_items, dequeued, requeue-items}

-- Plays, with a clock that was never started, from a position.
abbrev pub StandsAt : Ticks → Room → Type 0
StandsAt p r = (r.is_playing ≡ true) × (r.playback_start ≡ none) × (r.playback_position ≡ p)

-- Plays, and came back from the storage.
abbrev Restored : Room → Type 0
Restored r = (r.is_playing ≡ true) × (r.restored_from_storage ≡ true)

requeue-Restored : (s : Option QueueItem) (r : Room) → Restored r → Restored (requeue_current s r)
unfolding requeue_current
requeue-Restored s r (p, q) = (ground (arith, p), ground (arith, q))

take_item-Restored :
    (e : Env) (i : QueueItem) (q : VideoQueue) (r : Room)
    → Restored r
    → Restored (take_item e i q r)
      × ((take_item e i q r).playback_position ≡ or_else i.start_at (pos 0))
unfolding take_item
take_item-Restored e i q r (p, s) = ((ground (arith, p), ground (arith, s)), ground arith)

start-StandsAt :
    (e : Env) (t : Ticks) (r : Room)
    → Restored r
    → r.playback_position ≡ t
    → StandsAt t (start_dequeued e r)
unfolding start_dequeued
start-StandsAt e t r (p, s) h = rw s (p, refl, h)

finish-StandsAt : (e : Env) (t : Ticks) (r : Room) → StandsAt t r → StandsAt t (finish_dequeue e r)
unfolding finish_dequeue
finish-StandsAt e t r (p, s, h) = (ground (arith, p), ground (arith, s), ground (arith, h))

advance-StandsAt :
    (e : Env) (i : QueueItem) (is : List QueueItem) (r : Room)
    → r.queue.items ≡ i ∷ is
    → Restored r
    → StandsAt (or_else i.start_at (pos 0)) (advance e r)
unfolding advance
advance-StandsAt e i is r h v =
    let rest : VideoQueue = record { items = is; dirty = true } in
    let (w, t) = take_item-Restored e i rest r v in
    rw (dequeued i is r.queue h)
      (start-StandsAt e (or_else i.start_at (pos 0)) (take_item e i rest r) w t)

next_item-StandsAt :
    (e : Env) (i : QueueItem) (is : List QueueItem) (r : Room)
    → requeued_items r ≡ i ∷ is
    → Restored r
    → StandsAt (or_else i.start_at (pos 0)) (next_item e r)
next_item-StandsAt e i is r h v =
    let r₁ = requeue_current r.current_source r in
    finish-StandsAt e (or_else i.start_at (pos 0)) (advance e r₁) (
      advance-StandsAt e i is r₁ (requeue-items r.current_source r refl ∙ h)
        (requeue-Restored r.current_source r v))

by_mode-StandsAt :
    (e : Env) (i : QueueItem) (is : List QueueItem) (s : Option QueueItem) (r : Room)
    → is_dj r.queue_mode ≡ false
    → requeued_items r ≡ i ∷ is
    → Restored r
    → StandsAt (or_else i.start_at (pos 0)) (dequeue_by_mode e s r)
by_mode-StandsAt e i is none r d h v = next_item-StandsAt e i is r h v
by_mode-StandsAt e i is (some s) r d h v = rw d (next_item-StandsAt e i is r h v)

released :
    (e : Env) (r : Room)
    → r.buffer_gate ≡ none
    → Restored r
    → Restored (clear_skip_votes (release_buffer_gate e.now false r))
      × (is_dj (clear_skip_votes (release_buffer_gate e.now false r)).queue_mode
          ≡ is_dj r.queue_mode)
      × (requeued_items (clear_skip_votes (release_buffer_gate e.now false r)) ≡ requeued_items r)
unfolding release_buffer_gate
released e r n (p, s) =
    ((ground (arith, n, p), ground (arith, n, s)), ground (arith, n), ground (arith, n))

dequeue_next-StandsAt :
    (e : Env) (i : QueueItem) (is : List QueueItem) (r : Room)
    → r.restored_from_storage ≡ true
    → r.is_playing ≡ true
    → r.buffer_gate ≡ none
    → is_dj r.queue_mode ≡ false
    → requeued_items r ≡ i ∷ is
    → StandsAt (or_else i.start_at (pos 0)) (dequeue_next e r)
unfolding dequeue_next
dequeue_next-StandsAt e i is r s p n d h =
    let r₁ = clear_skip_votes (release_buffer_gate e.now false r) in
    let (v, m, q) = released e r n (p, s) in
    by_mode-StandsAt e i is r₁.current_source r₁ (m ∙ d) (q ∙ h) v

unmoved : (later : Time) (t : Ticks) (r : Room) → StandsAt t r → real_playback_position later r ≡ t
unfolding real_playback_position
unmoved later t r (p, s, h) = ground (arith, p, s, h)

-- A room that came back from the storage and plays with that mark still set, with no gate and outside
-- the DJ mode, goes on to the next item with a clock that does not run: it says that it plays, and at
-- every later instant the head stands where the item began.
pub dequeue_next-freezes :
    (e : Env) (i : QueueItem) (is : List QueueItem) (r : Room) (later : Time)
    → r.restored_from_storage ≡ true
    → r.is_playing ≡ true
    → r.buffer_gate ≡ none
    → is_dj r.queue_mode ≡ false
    → requeued_items r ≡ i ∷ is
    → ((dequeue_next e r).is_playing ≡ true)
      × (real_playback_position later (dequeue_next e r) ≡ or_else i.start_at (pos 0))
dequeue_next-freezes e i is r later s p n d h =
    let stands = dequeue_next-StandsAt e i is r s p n d h in
    let (playing, anchor, position) = stands in
    (playing, unmoved later (or_else i.start_at (pos 0)) (dequeue_next e r) stands)
