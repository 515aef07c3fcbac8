-- ===== src/Room/Consistency/Dequeue.antt =====
-- server/room.ts: holding a source, and `dequeueNext`, keep the playback state consistent.
use opentogethertube_cn.Common.{
  ◌≡◌, Bool, true, false, Option, none, some, is_some, arith, String, Bool-cases, inl, inr,
}
use opentogethertube_cn.Queue.{QueueItem, VideoQueue, dequeue}
use opentogethertube_cn.Room.Gate.{release_buffer_gate}
use opentogethertube_cn.Room.Consistency.Steps.{release_buffer_gate-IsConsistent}
use opentogethertube_cn.Room.State.{Room, Time, mark_dirty, SyncProp}
use opentogethertube_cn.Room.Clock.{play, end_temporary_playback_speed, set_is_playing}
use opentogethertube_cn.Room.Holding.{
  prepare_empty_room_playback, hold_playback_for_preparation, hold_empty_playback_for_join,
}
use opentogethertube_cn.Room.Dequeue.{
  Env, restart_current, requeue_current, take_item, start_dequeued, clear_source, advance,
  finish_dequeue, dequeue_next, advance_from, next_item, clear_skip_votes, dequeue_by_mode, is_dj,
}
use opentogethertube_cn.Room.Consistency.{IsConsistent, play-IsConsistent}

pub prepare_empty_room_playback-IsConsistent :
    (now : Time) (u : String) (r : Room)
    → IsConsistent r
    → IsConsistent (prepare_empty_room_playback now u r)
unfolding prepare_empty_room_playback
prepare_empty_room_playback-IsConsistent now u r v = ground arith

-- The room as it stands just before the round begins.
module _ (now : Time) (r : Room) (v : IsConsistent r) (no_gate : r.buffer_gate ≡ none) where
  stopped_room : Room
  stopped_room =
      mark_dirty SyncProp.is_playing
        (record (set_is_playing now false
          (record (end_temporary_playback_speed now true r) { playback_start = none })) {
            resume_on_next_join = true;
          })

  stopped_room-IsConsistent : IsConsistent stopped_room
  unfolding stopped_room set_is_playing
  stopped_room-IsConsistent = ground (arith, no_gate)

pub hold_playback_for_preparation-IsConsistent :
    (now : Time) (u : String) (r : Room)
    → r.buffer_gate ≡ none
    → IsConsistent r
    → IsConsistent (hold_playback_for_preparation now u r)
unfolding hold_playback_for_preparation stopped_room
hold_playback_for_preparation-IsConsistent now u r n v =
    prepare_empty_room_playback-IsConsistent now u (stopped_room now r v n)
      (stopped_room-IsConsistent now r v n)

pub hold_empty_playback_for_join-IsConsistent :
    (now : Time) (b : Bool) (r : Room)
    → IsConsistent r
    → IsConsistent (hold_empty_playback_for_join now b r)
unfolding hold_empty_playback_for_join
hold_empty_playback_for_join-IsConsistent now b r v = ground arith

restart_current-IsConsistent :
    (e : Env) (s : QueueItem) (r : Room) → IsConsistent r → IsConsistent (restart_current e s r)
unfolding restart_current
restart_current-IsConsistent e s r v = ground arith

requeue_current-IsConsistent :
    (s : Option QueueItem) (r : Room) → IsConsistent r → IsConsistent (requeue_current s r)
unfolding requeue_current
requeue_current-IsConsistent s r v = ground arith

take_item-IsConsistent :
    (e : Env) (s : QueueItem) (q : VideoQueue) (r : Room)
    → IsConsistent r
    → IsConsistent (take_item e s q r)
unfolding take_item
take_item-IsConsistent e s q r v = ground arith

clear_source-IsConsistent : (e : Env) (r : Room) → IsConsistent r → IsConsistent (clear_source e r)
unfolding clear_source
clear_source-IsConsistent e r v = ground arith

finish_dequeue-IsConsistent :
    (e : Env) (r : Room)
    → r.temporary_speed ≡ none
    → IsConsistent r
    → IsConsistent (finish_dequeue e r)
unfolding finish_dequeue
finish_dequeue-IsConsistent e r t v = ground arith

-- What taking the item leaves, whatever was there before.
take_item-clear :
    (e : Env) (s : QueueItem) (q : VideoQueue) (r : Room)
    → ((take_item e s q r).temporary_speed ≡ none) × ((take_item e s q r).buffer_gate ≡ none)
unfolding take_item
take_item-clear e s q r = (ground arith, ground arith)

start_dequeued-IsConsistent :
    (e : Env) (r : Room)
    → (r.temporary_speed ≡ none) × (r.buffer_gate ≡ none)
    → IsConsistent r
    → IsConsistent (start_dequeued e r)
unfolding start_dequeued
start_dequeued-IsConsistent e r (t, g) v = ground (
  arith,
  play-IsConsistent e.now r v,
  hold_playback_for_preparation-IsConsistent e.now e.uuid r g v,
)

-- No gesture is left once the next source is in place.
hold_playback_for_preparation-gesture :
    (now : Time) (u : String) (r : Room)
    → (hold_playback_for_preparation now u r).temporary_speed ≡ none
unfolding hold_playback_for_preparation prepare_empty_room_playback set_is_playing
hold_playback_for_preparation-gesture now u r = ground arith

start_dequeued-gesture :
    (e : Env) (r : Room) → r.temporary_speed ≡ none → (start_dequeued e r).temporary_speed ≡ none
unfolding start_dequeued play
start_dequeued-gesture e r t = ground (arith, hold_playback_for_preparation-gesture e.now e.uuid r)

clear_source-gesture : (e : Env) (r : Room) → (clear_source e r).temporary_speed ≡ none
unfolding clear_source
clear_source-gesture e r = ground arith

idle-gesture :
    (r : Room) → is_some r.current_source ≡ false → IsConsistent r → r.temporary_speed ≡ none
idle-gesture r i v = ground arith

advance_from-IsConsistent :
    (e : Env) (next : Option QueueItem) (rest : VideoQueue) (r : Room)
    → IsConsistent r
    → IsConsistent (advance_from e (next, rest) r)
      × ((advance_from e (next, rest) r).temporary_speed ≡ none)
advance_from-IsConsistent e (some item) rest r v =
    let taken = take_item-clear e item rest r in
    let (gesture, gate) = taken in
    (
      start_dequeued-IsConsistent e (take_item e item rest r) taken
          (take_item-IsConsistent e item rest r v),
      start_dequeued-gesture e (take_item e item rest r) gesture,
    )
advance_from-IsConsistent e none rest r v = elim (Bool-cases (is_some r.current_source)) [
  | inl c ↦ rw c (clear_source-IsConsistent e r v, clear_source-gesture e r)
  | inr c ↦ rw c (v, idle-gesture r c v)
]

next_item-IsConsistent : (e : Env) (r : Room) → IsConsistent r → IsConsistent (next_item e r)
unfolding advance
next_item-IsConsistent e r v =
    let r₁ = requeue_current r.current_source r in
    let (item, rest) = dequeue r₁.queue in
    let (kept, gesture) =
      advance_from-IsConsistent e item rest r₁
        (requeue_current-IsConsistent r.current_source r v) in
    finish_dequeue-IsConsistent e (advance e r₁) gesture kept

clear_skip_votes-IsConsistent : (r : Room) → IsConsistent r → IsConsistent (clear_skip_votes r)
clear_skip_votes-IsConsistent r v = ground arith

dequeue_by_mode-IsConsistent :
    (e : Env) (s : Option QueueItem) (r : Room)
    → IsConsistent r
    → IsConsistent (dequeue_by_mode e s r)
dequeue_by_mode-IsConsistent e none r v = next_item-IsConsistent e r v
dequeue_by_mode-IsConsistent e (some s) r v = elim (Bool-cases (is_dj r.queue_mode)) [
  | inl d ↦ rw d (restart_current-IsConsistent e s r v)
  | inr d ↦ rw d (next_item-IsConsistent e r v)
]

-- Going on to the next item keeps the playback state consistent.
pub dequeue_next-IsConsistent :
    (e : Env) (r : Room) → IsConsistent r → IsConsistent (dequeue_next e r)
unfolding dequeue_next
dequeue_next-IsConsistent e r v =
    let r₁ = clear_skip_votes (release_buffer_gate e.now false r) in
    dequeue_by_mode-IsConsistent e r₁.current_source r₁ (
      clear_skip_votes-IsConsistent (release_buffer_gate e.now false r)
        (release_buffer_gate-IsConsistent e.now false r v))
