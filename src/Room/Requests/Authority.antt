-- ===== src/Room/Requests/Authority.antt =====
-- server/room.ts, common/userutils.ts: what a viewer's role lets them do.
use opentogethertube_cn.Common.{
  ◌≡◌, ◌≢◌, refl, String, Bool, false, Option, none, some, arith, inl, inr, if◌then◌else◌, ◌⊎◌,
}
use opentogethertube_cn.Common.Int.{ℤ, ◌≤ℤ◌}
use opentogethertube_cn.Exceptions.{permission_denied, client_not_found_in_room}
use opentogethertube_cn.Permissions.{Role, rank, owner, PermissionName}
use opentogethertube_cn.Permissions.Grants.{granted, named, check}
use opentogethertube_cn.Room.State.{Room, ClientId, RoomUser, Message, publish, VideoReference}
use opentogethertube_cn.Room.Users.{get_user, get_role}
use opentogethertube_cn.Room.Requests.{Context, Reply, done, thrown, permission_for, require}
use opentogethertube_cn.Queue.{VideoId, Number}
use opentogethertube_cn.Room.Requests.Items.{PatchRequest}
use opentogethertube_cn.Room.Requests.Additions.{AddRequest}
use opentogethertube_cn.Room.Requests.Members.{kick_user, can_kick_user}
use opentogethertube_cn.Room.Requests.Dispatch.{
  World, RoomRequest, kind_of, handle, process_request,
}

denied :
    (name : PermissionName) (c : Context) (r : Room) (next : Room → Reply)
    → granted r.grants c.role (named name) ≡ false
    → require name c r next ≡ thrown (permission_denied name) r
unfolding check
denied name c r next h = rw h refl

-- What a viewer needs to be allowed for a request; the other requests are checked, if at all, by their
-- handlers.
pub data Needs : RoomRequest → PermissionName → Type 0 where
  play_pause : (state : Bool) → Needs (RoomRequest.playback state) "playback.play-pause"
  skip : Needs RoomRequest.skip "playback.skip"
  seek : (value : Option Number) → Needs (RoomRequest.seek value) "playback.seek"
  speed : (value : Number) → Needs (RoomRequest.playback_speed value) "playback.speed"
  add : (request : AddRequest) → Needs (RoomRequest.add request) "manage-queue.add"
  edit :
      (video : VideoId) (patch : PatchRequest)
      → Needs (RoomRequest.update_queue_item video patch) "manage-queue.edit"
  remove : (video : VideoId) → Needs (RoomRequest.remove video) "manage-queue.remove"
  order : (from to : Option ℤ) → Needs (RoomRequest.order from to) "manage-queue.order"
  shuffle : Needs RoomRequest.shuffle "manage-queue.order"
  vote :
      (video : VideoId) (adding : Bool) → Needs (RoomRequest.vote video adding) "manage-queue.vote"
  play_now : (video : VideoReference) → Needs (RoomRequest.play_now video) "manage-queue.play-now"
  chat : (text : Option String) → Needs (RoomRequest.chat text) "chat"
  kick : (client : ClientId) → Needs (RoomRequest.kick client) "manage-users.kick"

Needs-permission_for :
    {q : RoomRequest} {name : PermissionName}
    → Needs q name
    → permission_for (kind_of q) ≡ some name
unfolding permission_for kind_of
Needs-permission_for (Needs.play_pause state) = refl
Needs-permission_for Needs.skip = refl
Needs-permission_for (Needs.seek value) = refl
Needs-permission_for (Needs.speed value) = refl
Needs-permission_for (Needs.add request) = refl
Needs-permission_for (Needs.edit video patch) = refl
Needs-permission_for (Needs.remove video) = refl
Needs-permission_for (Needs.order from to) = refl
Needs-permission_for Needs.shuffle = refl
Needs-permission_for (Needs.vote video adding) = refl
Needs-permission_for (Needs.play_now video) = refl
Needs-permission_for (Needs.chat text) = refl
Needs-permission_for (Needs.kick client) = refl

-- Without the permission that it needs a request to play or pause, skip, seek, change the speed, add,
-- edit, remove, order, shuffle or vote for items, play an item at once, chat or kick is refused with that
-- permission, and the room is as it was.
pub process_request-refuses :
    (w : World) (q : RoomRequest) (c : Context) (r : Room) (name : PermissionName)
    → Needs q name
    → granted r.grants c.role (named name) ≡ false
    → process_request w q c r ≡ thrown (permission_denied name) r
unfolding process_request
process_request-refuses w q c r name k h =
    rw (Needs-permission_for k) (denied name c r (handle w q c) h)

below-no_kick :
    (a b : Role) → a ≢ owner → (rank a ≤ℤ rank b) ⊎ (b ≡ owner) → can_kick_user a b ≡ false
unfolding can_kick_user
below-no_kick a b n (inl h) = ground (arith, n, h)
below-no_kick a b n (inr e) = rw e (ground (arith, n))

-- Nobody but the owner can kick the owner, or a viewer of their own role or above: the request changes
-- nothing and sends nothing.
pub kick_user-spares :
    (w : ClientId) (c : Context) (r : Room) (u : RoomUser)
    → get_user w r ≡ some u
    → c.role ≢ owner
    → (rank c.role ≤ℤ rank (get_role r u)) ⊎ (get_role r u ≡ owner)
    → kick_user w c r ≡ done r
unfolding kick_user
kick_user-spares w c r u e n h = go (get_user w r) e
  where
    go :
        (o : Option RoomUser)
        → o ≡ some u
        → elim o [
          | none ↦ thrown client_not_found_in_room r
          | some user ↦
              if can_kick_user c.role (get_role r user)
              then done (publish (Message.kick w) r)
              else done r
        ]
          ≡ done r
    go o f = rw f (rw (below-no_kick c.role (get_role r u) n h) refl)
