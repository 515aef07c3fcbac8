-- ===== src/Room/Requests/Undo.antt =====
-- server/room.ts: `undo`, which takes back an event that the room published.
pub mod Echoes
pub mod Seeks
use opentogethertube_cn.Common.{
  ℕ, Bool, ◌&&◌, Option, none, some, List, [], ◌∷◌, if◌then◌else◌, eqb, find, ◌==◌,
}
use opentogethertube_cn.Common.Int.{pos, eqb_ℤ}
use opentogethertube_cn.Exceptions.{undo_event_unavailable}
use opentogethertube_cn.Queue.{
  QueueItem, VideoId, finite, contains, push_top, insert, id_of, same_item, same_option,
}
use opentogethertube_cn.Room.State.{
  Room, Time, Ticks, VideoReference, referred, EventRequest, EventContext, RoomEvent, put_queue,
}
use opentogethertube_cn.Room.Clock.{set_current_source, set_playback_position}
use opentogethertube_cn.Room.Gate.{nonempty}
use opentogethertube_cn.Room.Requests.{
  Context, Reply, done, thrown, then_do, require, guarded, with_value, RequestType,
}
use opentogethertube_cn.Room.Requests.Playback.{seek}
use opentogethertube_cn.Room.Requests.Items.{remove_from_queue}

-- The kinds of the requests that an event carries.
abbrev pub event_kind : EventRequest → ℕ
event_kind (EventRequest.join _) = 0
event_kind EventRequest.leave = 1
event_kind (EventRequest.playback _) = 2
event_kind EventRequest.skip = 3
event_kind (EventRequest.seek _) = 4
event_kind (EventRequest.add _) = 5
event_kind (EventRequest.update_queue_item _) = 6
event_kind (EventRequest.remove _) = 7

-- The `video` of a request.
abbrev pub plain_reference : VideoId → VideoReference
plain_reference v = record { service = v.service; id = v.id; subtitle_url = none }

abbrev pub video_of : EventRequest → Option VideoReference
video_of (EventRequest.add v) = v
video_of (EventRequest.update_queue_item v) = some (plain_reference v)
video_of (EventRequest.remove v) = some (plain_reference v)
video_of _ = none

abbrev pub same_reference : VideoReference → VideoReference → Bool
same_reference a b =
    a.service == b.service && a.id == b.id && same_option ◌==◌ a.subtitle_url b.subtitle_url

-- The event that a client sends back.
pub record Echo : Type 0 where
  pub request : EventRequest
  pub additional : EventContext

-- `_.isEqual(fields(candidate), wanted)`
unfoldable pub matches_echo : Echo → RoomEvent → Bool
unfolding same_item
matches_echo echo event =
    eqb (event_kind event.request) (event_kind echo.request)
    && same_option same_item event.additional.video echo.additional.video
    && same_option eqb_ℤ event.additional.prev_position echo.additional.prev_position
    && same_option eqb event.additional.queue_idx echo.additional.queue_idx
    && same_option same_reference (video_of event.request) (video_of echo.request)

unfoldable pub find_recent_event : Echo → Room → Option RoomEvent
unfolding matches_echo
find_recent_event echo r = find (matches_echo echo) r.recent_events

-- `splice(indexOf(event), 1)`, where the event is still there.
unfoldable pub forget_event : ℕ → List RoomEvent → List RoomEvent
forget_event serial [] = []
forget_event serial (e ∷ es) = if eqb e.serial serial then es else e ∷ forget_event serial es

unfoldable pub undo_seek : Time → Option Ticks → Context → Room → Reply
undo_seek now none context r = done r
undo_seek now (some position) context r =
    guarded RequestType.seek context r (seek now (some (finite position)) context)

-- The current source goes back on top of the queue, unless it is in it.
abbrev pub keep_source : Option QueueItem → Room → Reply
keep_source none r = done r
keep_source (some s) r =
    if contains (id_of s) r.queue
    then done r
    else with_value (push_top (some s ∷ []) r.queue) r (λ q. done (put_queue q r))

abbrev pub return_to : Time → Option QueueItem → Option Ticks → Room → Room
return_to now (some s) (some position) r =
    record (set_playback_position position (set_current_source now (some s) r)) {
      playback_start = some now;
    }
return_to now _ _ r = r

unfoldable pub undo_skip : Time → EventContext → Context → Room → Reply
undo_skip now additional context r = require "playback.skip" context r λ r.
    require "playback.seek" context r λ r. require "manage-queue.add" context r λ r.
      require "manage-queue.play-now" context r λ r.
        then_do (keep_source r.current_source r)
          λ r. done (return_to now additional.video additional.prev_position r)

-- `removeFromQueue` by way of `processRequest`, or else no source is left.
abbrev pub undo_added : Time → Option VideoReference → Context → Room → Reply
undo_added now video context r = elim video [
  | none ↦ require "playback.skip" context r (λ r. done (set_current_source now none r))
  | some v ↦
      if nonempty r.queue.items
      then guarded RequestType.remove context r (remove_from_queue (referred v) context)
      else require "playback.skip" context r (λ r. done (set_current_source now none r))
]

unfoldable pub undo_add : Time → Option VideoReference → Context → Room → Reply
undo_add now video context r =
    require "manage-queue.remove" context r (undo_added now video context)

abbrev pub insert_back : Option QueueItem → Option ℕ → Room → Reply
insert_back (some item) (some index) r =
    with_value (insert (some item) (pos index) r.queue) r (λ q. done (put_queue q r))
insert_back _ _ r = done r

unfoldable pub undo_remove : EventContext → Context → Room → Reply
undo_remove additional context r =
    require "manage-queue.add" context r λ r.
      require "manage-queue.order" context r (insert_back additional.video additional.queue_idx)

abbrev pub undo_request : Time → EventRequest → EventContext → Context → Room → Reply
undo_request now (EventRequest.seek _) additional context r =
    undo_seek now additional.prev_position context r
undo_request now EventRequest.skip additional context r = undo_skip now additional context r
undo_request now (EventRequest.add video) additional context r = undo_add now video context r
undo_request now (EventRequest.remove _) additional context r = undo_remove additional context r
undo_request now _ additional context r = done r

abbrev pub forget_in : ℕ → Room → Reply
forget_in serial r = done (record r { recent_events = forget_event serial r.recent_events })

-- What was recorded is what is taken back; the echo only finds it. The schema of the echo is in its
-- type.
unfoldable pub undo : Time → Echo → Context → Room → Reply
unfolding find_recent_event forget_event
undo now echo context r = elim (find_recent_event echo r) [
  | none ↦ thrown undo_event_unavailable r
  | some event ↦
      then_do (undo_request now event.request event.additional context r) (forget_in event.serial)
]
