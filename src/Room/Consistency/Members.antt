-- ===== src/Room/Consistency/Members.antt =====
-- server/room.ts: chat, kicks and promotions keep the playback state consistent.
use opentogethertube_cn.Common.{Option, none, some, String, if_both, option_both, if◌then◌else◌, ℕ}
use opentogethertube_cn.Common.Int.{ℤ, ltb_ℤ}
use opentogethertube_cn.Common.Dict.{string_eq}
use opentogethertube_cn.Exceptions.{plain, client_not_found_in_room, impossible_promotion}
use opentogethertube_cn.Permissions.{Role, rank}
use opentogethertube_cn.Room.State.{Room, ClientId, RoomUser, Message, publish}
use opentogethertube_cn.Room.Users.{get_user, get_role}
use opentogethertube_cn.Room.Requests.{Context, Reply, done, thrown, with_value}
use opentogethertube_cn.Room.Requests.Members.{
  known_info, sync_user, chat, usable_chat, kick_user, can_kick_user,
}
use opentogethertube_cn.Room.Requests.Roles.{
  assign_user, cannot_change, promote_checked, require_demotion, check_demotion, promote_if,
  promote_user, promotion_permission, demotion_permission, assignable,
}
use opentogethertube_cn.Room.Consistency.{IsConsistent}
use opentogethertube_cn.Room.Consistency.Replies.{
  LeavesConsistent, with_value-Leaves, require-Leaves, require_if-Leaves,
}

said-IsConsistent : (m : Message) (r : Room) → IsConsistent r → IsConsistent (publish m r)
said-IsConsistent m r v = record { gesture = v.gesture; round = v.round; hold = v.hold }

pub chat-Leaves :
    (t : Option String) (c : Context) (r : Room) → IsConsistent r → LeavesConsistent (chat t c r)
unfolding chat
chat-Leaves t c r v =
    option_both LeavesConsistent c.client_id (thrown (plain "context.clientId was undefined") r)
      talk v
      λ client. with_value-Leaves (usable_chat t) r (spoken client) v λ text.
        with_value-Leaves (known_info client r) r
          (λ user. done (publish (Message.chat user text) r)) v
          (λ user. said-IsConsistent (Message.chat user text) r v)
  where
    spoken : ClientId → String → Reply
    spoken client text =
        with_value (known_info client r) r (λ user. done (publish (Message.chat user text) r))

    talk : ClientId → Reply
    talk client = with_value (usable_chat t) r (spoken client)

pub kick_user-Leaves :
    (w : ClientId) (c : Context) (r : Room) → IsConsistent r → LeavesConsistent (kick_user w c r)
unfolding kick_user
kick_user-Leaves w c r v =
    option_both LeavesConsistent (get_user w r) (thrown client_not_found_in_room r)
      (λ user.
        if can_kick_user c.role (get_role r user)
        then done (publish (Message.kick w) r)
        else done r)
      v
      (λ user.
        if_both LeavesConsistent (can_kick_user c.role (get_role r user))
          (done (publish (Message.kick w) r)) (done r) (said-IsConsistent (Message.kick w) r v) v)

assign_user-IsConsistent :
    (role : Role) (id : Option ℕ) (r : Room) → IsConsistent r → IsConsistent (assign_user role id r)
assign_user-IsConsistent role none r v = v
assign_user-IsConsistent role (some id) r v = record {
  gesture = v.gesture;
  round = v.round;
  hold = v.hold;
}

promote_checked-Leaves :
    (role : Role) (u : RoomUser) (now_role : Role) (r : Room)
    → IsConsistent r
    → LeavesConsistent (promote_checked role u now_role r)
unfolding promote_checked
promote_checked-Leaves role u now_role r v =
    let changed = assign_user role u.user_id r in
    let w = assign_user-IsConsistent role u.user_id r v in
    if_both LeavesConsistent (cannot_change now_role) (thrown impossible_promotion r)
      (with_value (known_info u.id changed) changed (λ info. done (sync_user info changed))) v
      (with_value-Leaves (known_info u.id changed) changed (λ info. done (sync_user info changed)) w
        (λ info. said-IsConsistent (Message.user_update info) changed w))

check_demotion-Leaves :
    (new current : Role) (c : Context) (r : Room) (next : Room → Reply)
    → IsConsistent r
    → LeavesConsistent (next r)
    → LeavesConsistent (check_demotion new current c r next)
check_demotion-Leaves new current c r next v w =
    if_both LeavesConsistent (ltb_ℤ (rank new) (rank current))
      (require_demotion (demotion_permission current) c r next) (next r)
      (demoted (demotion_permission current)) w
  where
    demoted : (o : Option String) → LeavesConsistent (require_demotion o c r next)
    demoted none = v
    demoted (some name) = require-Leaves name c r next v w

promote_if-Leaves :
    (role : Option Role) (u : Option RoomUser) (c : Context) (r : Room)
    → IsConsistent r
    → LeavesConsistent (promote_if role u c r)
promote_if-Leaves none u c r v = v
promote_if-Leaves (some role) none c r v = v
promote_if-Leaves (some role) (some u) c r v =
    require_if-Leaves (promotion_permission role) c r
      (λ r. check_demotion role (get_role r u) c r (promote_checked role u (get_role r u))) v
      (check_demotion-Leaves role (get_role r u) c r (promote_checked role u (get_role r u)) v
        (promote_checked-Leaves role u (get_role r u) r v))

pub promote_user-Leaves :
    (w : ClientId) (n : Option ℤ) (c : Context) (r : Room)
    → IsConsistent r
    → LeavesConsistent (promote_user w n c r)
unfolding promote_user
promote_user-Leaves w n c r v = promote_if-Leaves (assignable n) (get_user w r) c r v
