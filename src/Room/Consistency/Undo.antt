-- ===== src/Room/Consistency/Undo.antt =====
-- server/room.ts: undo keeps the playback state consistent.
use opentogethertube_cn.Common.{Option, none, some, [], ◌∷◌, if_both, option_both, ℕ}
use opentogethertube_cn.Common.Int.{pos}
use opentogethertube_cn.Common.Dict.{string_eq}
use opentogethertube_cn.Exceptions.{undo_event_unavailable}
use opentogethertube_cn.Queue.{QueueItem, push_top, insert, contains, id_of, finite}
use opentogethertube_cn.Room.State.{
  Room, Time, Ticks, EventRequest, EventContext, put_queue, VideoReference, referred,
}
use opentogethertube_cn.Room.Clock.{set_current_source, set_playback_position}
use opentogethertube_cn.Room.Gate.{nonempty}
use opentogethertube_cn.Room.Requests.{
  Context, Reply, done, thrown, require, then_do, with_value, RequestType, guarded,
}
use opentogethertube_cn.Room.Requests.Playback.{seek}
use opentogethertube_cn.Room.Requests.Items.{remove_from_queue}
use opentogethertube_cn.Room.Requests.Undo.{
  Echo, undo_seek, keep_source, return_to, undo_skip, undo_added, undo_add, insert_back,
  undo_remove, undo_request, forget_in, find_recent_event, undo,
}
use opentogethertube_cn.Room.Consistency.{IsConsistent, set_current_source-IsConsistent}
use opentogethertube_cn.Room.Consistency.Replies.{
  LeavesConsistent, then_do-Leaves, require-Leaves, guarded-Leaves,
}
use opentogethertube_cn.Room.Consistency.Items.{put_result-Leaves, remove_from_queue-Leaves}
use opentogethertube_cn.Room.Consistency.Handlers.{seek-Leaves}

undo_seek-Leaves :
    (now : Time) (t : Option Ticks) (c : Context) (r : Room)
    → IsConsistent r
    → LeavesConsistent (undo_seek now t c r)
unfolding undo_seek
undo_seek-Leaves now none c r v = v
undo_seek-Leaves now (some t) c r v =
    guarded-Leaves RequestType.seek c r (seek now (some (finite t)) c) v
      (seek-Leaves now (some (finite t)) c r v)

keep_source-Leaves :
    (s : Option QueueItem) (r : Room) → IsConsistent r → LeavesConsistent (keep_source s r)
keep_source-Leaves none r v = v
keep_source-Leaves (some s) r v =
    if_both LeavesConsistent (contains (id_of s) r.queue) (done r)
      (with_value (push_top (some s ∷ []) r.queue) r (λ q. done (put_queue q r))) v
      (put_result-Leaves (push_top (some s ∷ []) r.queue) r v)

moved-IsConsistent :
    (now : Time) (t : Ticks) (r : Room)
    → IsConsistent r
    → IsConsistent (record (set_playback_position t r) { playback_start = some now })
moved-IsConsistent now t r v = record { gesture = v.gesture; round = v.round; hold = v.hold }

return_to-IsConsistent :
    (now : Time) (s : Option QueueItem) (t : Option Ticks) (r : Room)
    → IsConsistent r
    → IsConsistent (return_to now s t r)
return_to-IsConsistent now (some s) (some t) r v =
    moved-IsConsistent now t (set_current_source now (some s) r)
      (set_current_source-IsConsistent now (some s) r v)
return_to-IsConsistent now (some s) none r v = v
return_to-IsConsistent now none t r v = v

undo_skip-Leaves :
    (now : Time) (a : EventContext) (c : Context) (r : Room)
    → IsConsistent r
    → LeavesConsistent (undo_skip now a c r)
unfolding undo_skip
undo_skip-Leaves now a c r v = require-Leaves "playback.skip" c r seeking v (
    require-Leaves "playback.seek" c r adding v (
      require-Leaves "manage-queue.add" c r playing v (
        require-Leaves "manage-queue.play-now" c r restored v (
          then_do-Leaves (keep_source r.current_source r) returned
            (keep_source-Leaves r.current_source r v)
            (λ r v. return_to-IsConsistent now a.video a.prev_position r v)))))
  where
    returned : Room → Reply
    returned r = done (return_to now a.video a.prev_position r)

    restored : Room → Reply
    restored r = then_do (keep_source r.current_source r) returned

    playing : Room → Reply
    playing r = require "manage-queue.play-now" c r restored

    adding : Room → Reply
    adding r = require "manage-queue.add" c r playing

    seeking : Room → Reply
    seeking r = require "playback.seek" c r adding

no_source-Leaves :
    (now : Time) (c : Context) (r : Room)
    → IsConsistent r
    → LeavesConsistent (require "playback.skip" c r (λ r. done (set_current_source now none r)))
no_source-Leaves now c r v =
    require-Leaves "playback.skip" c r (λ r. done (set_current_source now none r)) v
      (set_current_source-IsConsistent now none r v)

undo_added-Leaves :
    (now : Time) (w : Option VideoReference) (c : Context) (r : Room)
    → IsConsistent r
    → LeavesConsistent (undo_added now w c r)
undo_added-Leaves now none c r v = no_source-Leaves now c r v
undo_added-Leaves now (some w) c r v =
    if_both LeavesConsistent (nonempty r.queue.items)
      (guarded RequestType.remove c r (remove_from_queue (referred w) c))
      (require "playback.skip" c r (λ r. done (set_current_source now none r)))
      (guarded-Leaves RequestType.remove c r (remove_from_queue (referred w) c) v
        (remove_from_queue-Leaves (referred w) c r v))
      (no_source-Leaves now c r v)

undo_add-Leaves :
    (now : Time) (w : Option VideoReference) (c : Context) (r : Room)
    → IsConsistent r
    → LeavesConsistent (undo_add now w c r)
unfolding undo_add
undo_add-Leaves now w c r v =
    require-Leaves "manage-queue.remove" c r (undo_added now w c) v (undo_added-Leaves now w c r v)

insert_back-Leaves :
    (s : Option QueueItem) (i : Option ℕ) (r : Room)
    → IsConsistent r
    → LeavesConsistent (insert_back s i r)
insert_back-Leaves (some s) (some i) r v = put_result-Leaves (insert (some s) (pos i) r.queue) r v
insert_back-Leaves (some s) none r v = v
insert_back-Leaves none i r v = v

undo_remove-Leaves :
    (a : EventContext) (c : Context) (r : Room)
    → IsConsistent r
    → LeavesConsistent (undo_remove a c r)
unfolding undo_remove
undo_remove-Leaves a c r v =
    require-Leaves "manage-queue.add" c r
      (λ r. require "manage-queue.order" c r (insert_back a.video a.queue_idx)) v
      (require-Leaves "manage-queue.order" c r (insert_back a.video a.queue_idx) v
        (insert_back-Leaves a.video a.queue_idx r v))

undo_request-Leaves :
    (now : Time) (q : EventRequest) (a : EventContext) (c : Context) (r : Room)
    → IsConsistent r
    → LeavesConsistent (undo_request now q a c r)
undo_request-Leaves now (EventRequest.seek _) a c r v = undo_seek-Leaves now a.prev_position c r v
undo_request-Leaves now EventRequest.skip a c r v = undo_skip-Leaves now a c r v
undo_request-Leaves now (EventRequest.add w) a c r v = undo_add-Leaves now w c r v
undo_request-Leaves now (EventRequest.remove _) a c r v = undo_remove-Leaves a c r v
undo_request-Leaves now (EventRequest.join _) a c r v = v
undo_request-Leaves now EventRequest.leave a c r v = v
undo_request-Leaves now (EventRequest.playback _) a c r v = v
undo_request-Leaves now (EventRequest.update_queue_item _) a c r v = v

pub undo-Leaves :
    (now : Time) (o : Echo) (c : Context) (r : Room)
    → IsConsistent r
    → LeavesConsistent (undo now o c r)
unfolding undo
undo-Leaves now o c r v =
    option_both LeavesConsistent (find_recent_event o r) (thrown undo_event_unavailable r)
      (λ event.
        then_do (undo_request now event.request event.additional c r) (forget_in event.serial))
      v
      (λ event.
        then_do-Leaves (undo_request now event.request event.additional c r)
          (forget_in event.serial) (undo_request-Leaves now event.request event.additional c r v)
          (λ r v. record { gesture = v.gesture; round = v.round; hold = v.hold }))
