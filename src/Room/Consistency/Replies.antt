-- ===== src/Room/Consistency/Replies.antt =====
-- server/room.ts: what the ways to go on, and the publications, of a handler keep.
use opentogethertube_cn.Common.{Option, none, some}
use opentogethertube_cn.Exceptions.{Result, ok, err}
use opentogethertube_cn.Permissions.{PermissionName}
use opentogethertube_cn.Permissions.Grants.{check, named}
use opentogethertube_cn.Queue.{VideoQueue}
use opentogethertube_cn.Room.State.{
  Room, EventRequest, EventContext, RoomUserInfo, SyncProp, mark_dirty, put_queue,
}
use opentogethertube_cn.Room.Users.{get_user_info}
use opentogethertube_cn.Room.Requests.{
  Context, Reply, done, thrown, room_after, then_do, with_value, require, require_if, guarded,
  permission_for, RequestType, publish_event_of, publish_event_if, publish_room_event,
}
use opentogethertube_cn.Room.Consistency.{IsConsistent}

-- A reply that leaves a consistent room, with or without an exception.
abbrev pub LeavesConsistent : Reply → Type 0
LeavesConsistent reply = IsConsistent (room_after reply)

pub with_value-Leaves :
    {A : Type 0} (x : Result A) (r : Room) (next : A → Reply)
    → IsConsistent r
    → ((a : A) → LeavesConsistent (next a))
    → LeavesConsistent (with_value x r next)
with_value-Leaves (ok a) r next v f = f a
with_value-Leaves (err e) r next v f = v

pub then_do-Leaves :
    (reply : Reply) (next : Room → Reply)
    → LeavesConsistent reply
    → ((r : Room) → IsConsistent r → LeavesConsistent (next r))
    → LeavesConsistent (then_do reply next)
then_do-Leaves (done r) next v f = f r v
then_do-Leaves (thrown e r) next v f = v

pub require-Leaves :
    (name : PermissionName) (c : Context) (r : Room) (next : Room → Reply)
    → IsConsistent r
    → LeavesConsistent (next r)
    → LeavesConsistent (require name c r next)
require-Leaves name c r next v w =
    with_value-Leaves (check r.grants c.role (named name)) r (λ _. next r) v (λ _. w)

pub require_if-Leaves :
    (name : Option PermissionName) (c : Context) (r : Room) (next : Room → Reply)
    → IsConsistent r
    → LeavesConsistent (next r)
    → LeavesConsistent (require_if name c r next)
require_if-Leaves none c r next v w = w
require_if-Leaves (some name) c r next v w = require-Leaves name c r next v w

pub guarded-Leaves :
    (kind : RequestType) (c : Context) (r : Room) (next : Room → Reply)
    → IsConsistent r
    → LeavesConsistent (next r)
    → LeavesConsistent (guarded kind c r next)
guarded-Leaves kind c r next v w = require_if-Leaves (permission_for kind) c r next v w

-- Another queue, or another event, is no matter of the playback state.
pub put_queue-IsConsistent :
    (q : VideoQueue) (r : Room) → IsConsistent r → IsConsistent (put_queue q r)
put_queue-IsConsistent q r v = record { gesture = v.gesture; round = v.round; hold = v.hold }

pub publish_event_of-IsConsistent :
    (e : EventRequest) (a : EventContext) (u : RoomUserInfo) (r : Room)
    → IsConsistent r
    → IsConsistent (publish_event_of e a u r)
unfolding publish_event_of
publish_event_of-IsConsistent e a u r v = record {
  gesture = v.gesture;
  round = v.round;
  hold = v.hold;
}

publish_event_if-IsConsistent :
    (e : EventRequest) (a : EventContext) (u : Option RoomUserInfo) (r : Room)
    → IsConsistent r
    → IsConsistent (publish_event_if e a u r)
publish_event_if-IsConsistent e a none r v = v
publish_event_if-IsConsistent e a (some u) r v = publish_event_of-IsConsistent e a u r v

pub publish_room_event-IsConsistent :
    (e : EventRequest) (a : EventContext) (c : Context) (r : Room)
    → IsConsistent r
    → IsConsistent (publish_room_event e a c r)
unfolding publish_room_event
publish_room_event-IsConsistent e a c r v =
    elim c.client_id
      as (λ o.
        IsConsistent
          (elim o [ none ↦ r | some client ↦ publish_event_if e a (get_user_info client r) r ])) [
            | none ↦ v
            | some client ↦ publish_event_if-IsConsistent e a (get_user_info client r) r v
          ]

pub mark_dirty-IsConsistent :
    (p : SyncProp) (r : Room) → IsConsistent r → IsConsistent (mark_dirty p r)
mark_dirty-IsConsistent p r v = record { gesture = v.gesture; round = v.round; hold = v.hold }
