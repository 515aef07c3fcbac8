-- ===== src/Room/Requests.antt =====
-- server/room.ts: the requests. What all handlers share: the context of a request, how a handler ends,
-- `publishRoomEvent`, and the permission that each kind of request needs.
--
-- A handler that throws leaves the changes that it has made: nothing is rolled back. The handlers'
-- messages to the clients stand in the room's outbox.
pub mod Texts
pub mod Playback
pub mod Speed
pub mod Items
pub mod Additions
pub mod Members
pub mod Leaving
pub mod Roles
pub mod Undo
pub mod Settings
pub mod Dispatch
pub mod Authority
pub mod Voting
use opentogethertube_cn.Common.{
  ℕ, suc, Bool, true, false, not, Option, none, some, List, [], ◌∷◌, ◌++◌, String, ◌==◌,
  if◌then◌else◌, ltb, length, drop,
}
use opentogethertube_cn.Exceptions.{Exception, Result, ok, err}
use opentogethertube_cn.Permissions.{Role, PermissionName}
use opentogethertube_cn.Permissions.Grants.{check, named}
use opentogethertube_cn.Room.State.{
  Room, ClientId, AuthToken, EventRequest, EventContext, RoomEvent, RoomUserInfo, Message, publish,
}
use opentogethertube_cn.Room.Users.{get_user_info}

-- `RoomRequestContext`
pub record Context : Type 0 where
  pub username : String
  pub role : Role
  pub client_id : Option ClientId
  pub token : Option AuthToken

-- How a handler ends: with the room it leaves, or with an exception and the room as it stands then.
pub data Reply : Type 0 where
  done : Room → Reply
  thrown : Exception → Room → Reply

-- The room after a request, however the request ended.
abbrev pub room_after : Reply → Room
room_after (done r) = r
room_after (thrown e r) = r

-- Goes on after a call, unless it throws.
abbrev pub then_do : Reply → (Room → Reply) → Reply
then_do (done r) next = next r
then_do (thrown e r) next = thrown e r

-- Goes on with the value of a call that leaves the room alone.
abbrev pub with_value {ℓ} : {A : Type ℓ} → Result A → Room → (A → Reply) → Reply
with_value (ok a) r next = next a
with_value (err e) r next = thrown e r

-- `this.grants.check(context.role, name)`
abbrev pub require : PermissionName → Context → Room → (Room → Reply) → Reply
require name context r next = with_value (check r.grants context.role (named name)) r (λ _. next r)

-- `if (context.clientId)`: an empty string is none.
abbrev pub truthy : Option String → Option String
truthy none = none
truthy (some s) = if s == "" then none else some s

abbrev pub recent_events_limit : ℕ
recent_events_limit = 20

-- The recorded events: the oldest goes when there are too many.
unfoldable pub remember : RoomEvent → List RoomEvent → List RoomEvent
remember event events =
    let longer = events ++ event ∷ [] in
    if ltb recent_events_limit (length longer) then drop 1 longer else longer

-- `publishRoomEvent` of a user.
unfoldable pub publish_event_of : EventRequest → EventContext → RoomUserInfo → Room → Room
unfolding remember
publish_event_of request additional user r =
    let event : RoomEvent = record {
      serial = r.next_serial;
      request = request;
      user = user;
      additional = additional;
    } in
    publish (Message.event event)
      (record r { recent_events = remember event r.recent_events; next_serial = suc r.next_serial })

abbrev pub publish_event_if : EventRequest → EventContext → Option RoomUserInfo → Room → Room
publish_event_if request additional none r = r
publish_event_if request additional (some user) r = publish_event_of request additional user r

-- `publishRoomEvent`, where the user is looked up.
unfoldable pub publish_room_event : EventRequest → EventContext → Context → Room → Room
unfolding get_user_info publish_event_of
publish_room_event request additional context r = elim context.client_id [
  | none ↦ r
  | some client ↦ publish_event_if request additional (get_user_info client r) r
]

-- The kinds of request.
pub data RequestType : Type 0 where
  join leave playback skip seek add update_queue_item remove order vote promote update_user chat
        undo apply_settings play_now shuffle playback_speed restore_queue kick
        temporary_playback_speed add_note delete_note :
      RequestType

-- The table of `processRequest`.
unfoldable pub permission_for : RequestType → Option PermissionName
permission_for RequestType.playback = some "playback.play-pause"
permission_for RequestType.skip = some "playback.skip"
permission_for RequestType.seek = some "playback.seek"
permission_for RequestType.add = some "manage-queue.add"
permission_for RequestType.update_queue_item = some "manage-queue.edit"
permission_for RequestType.remove = some "manage-queue.remove"
permission_for RequestType.order = some "manage-queue.order"
permission_for RequestType.vote = some "manage-queue.vote"
permission_for RequestType.chat = some "chat"
permission_for RequestType.play_now = some "manage-queue.play-now"
permission_for RequestType.shuffle = some "manage-queue.order"
permission_for RequestType.playback_speed = some "playback.speed"
permission_for RequestType.kick = some "manage-users.kick"
permission_for RequestType.add_note = some "configure-room.set-notes"
permission_for RequestType.delete_note = some "configure-room.set-notes"
permission_for _ = none

abbrev pub require_if : Option PermissionName → Context → Room → (Room → Reply) → Reply
require_if none context r next = next r
require_if (some name) context r next = require name context r next

-- The check that `processRequest` makes before it calls the handler.
abbrev pub guarded : RequestType → Context → Room → (Room → Reply) → Reply
guarded kind context r next = require_if (permission_for kind) context r next
