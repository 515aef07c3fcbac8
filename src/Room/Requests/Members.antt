-- ===== src/Room/Requests/Members.antt =====
-- server/room.ts: the handlers of a viewer's arrival and news, of chat and of kicks; the users of
-- common/userutils.ts.
use opentogethertube_cn.Common.{
  ℕ, Bool, true, false, not, ◌&&◌, ◌||◌, Option, none, some, List, [], ◌∷◌, ◌++◌, if◌then◌else◌,
  ltb, eqb, length, any, String, ◌==◌, is_some,
}
use opentogethertube_cn.Common.Int.{ltb_ℤ}
use opentogethertube_cn.Common.Dict.{get, remove, string_eq}
use opentogethertube_cn.Common.StringSet.{delete}
use opentogethertube_cn.Exceptions.{
  Result, ok, err, bad_api_argument, plain, client_not_found_in_room,
}
use opentogethertube_cn.Permissions.{Role, rank, owner, same_role}
use opentogethertube_cn.Permissions.Grants.{granted, named}
use opentogethertube_cn.Room.State.{
  Room, Time, SyncProp, ClientId, AuthToken, Account, RoomUser, RoomUserInfo, PlayerStatus,
  no_status, buffering, Message, EventRequest, no_context, mark_dirty, publish,
}
use opentogethertube_cn.Room.Clock.{play}
use opentogethertube_cn.Room.Users.{ClientInfo, update_info, get_user, get_user_info, get_role}
use opentogethertube_cn.Room.Preparation.{play_pause}
use opentogethertube_cn.Room.Holding.{
  PlaybackPrepared, hold_empty_playback_for_join, can_prepare_playback, prepare_empty_room_playback,
  finish_playback_preparation,
}
use opentogethertube_cn.Room.Gate.{evaluate_buffer_gate}
use opentogethertube_cn.Room.Dequeue.{Env}
use opentogethertube_cn.Room.Requests.{Context, Reply, done, thrown, with_value, publish_room_event}
use opentogethertube_cn.Room.Requests.Texts.{text_length}

-- `getUserInfo`, and what it throws.
abbrev pub known_info : ClientId → Room → Result RoomUserInfo
known_info client r = elim (get_user_info client r) [
  | none ↦ err (plain "Client not found")
  | some info ↦ ok info
]

-- `syncUser`
abbrev pub sync_user : RoomUserInfo → Room → Room
sync_user info r = publish (Message.user_update info) r

-- `sessionInRoom`
unfoldable pub session_in_room : AuthToken → Option ClientId → Room → Bool
session_in_room token except r =
    any (λ u. u.token == token && elim except [ none ↦ true | some c ↦ not (u.id == c) ])
      r.realusers

-- `noteJoin`: whether the join continues a session, and the room without the leave event that waits.
unfoldable pub note_join : AuthToken → ClientId → Room → Bool × Room
note_join token client r =
    if is_some (get token r.pending_leave_events)
    then (true, record r { pending_leave_events = remove token r.pending_leave_events })
    else (session_in_room token (some client) r, r)

abbrev pub new_user : ClientId → AuthToken → RoomUser
new_user client token = record {
  id = client;
  token = token;
  user_id = none;
  unregistered_username = "";
  user = none;
  player_status = no_status;
}

-- `JoinRequest`
pub record JoinRequest : Type 0 where
  pub info : ClientInfo
  pub reconnect : Bool

-- The returning viewer of a room that saved its intent to go on.
unfoldable pub resumes_at_once : Bool → Context → Room → Bool
resumes_at_once reconnect context r =
    reconnect
    && r.resume_on_next_join
    && eqb (length r.realusers) 1
    && granted r.grants context.role (named play_pause)
    && can_prepare_playback r

-- Playback goes on for the viewer at once, or it waits for the handshake.
unfoldable pub resume_for : Env → Bool → Context → Room → Room
resume_for e reconnect context r =
    if resumes_at_once reconnect context r
    then mark_dirty SyncProp.playback_position
        (play e.now (mark_dirty SyncProp.is_playing (record r { resume_on_next_join = false })))
    else prepare_empty_room_playback e.now e.uuid r

abbrev pub announce_join : ClientId → Context → Bool × Room → Room
announce_join client context (true, r) = r
announce_join client context (false, r) =
    publish_room_event (EventRequest.join client) no_context context r

abbrev pub join_with : Env → Option Account → JoinRequest → AuthToken → Context → Room → Reply
join_with e account request token context r =
    let user = update_info account request.info (new_user request.info.id token) in
    let empty = hold_empty_playback_for_join e.now request.reconnect r in
    let joined = record empty { realusers = empty.realusers ++ user ∷ [] } in
    let resumed = resume_for e request.reconnect context joined in
    let announced = announce_join user.id context (note_join token user.id resumed) in
    with_value (known_info user.id announced) announced (λ info. done (sync_user info announced))

-- `account` is what the user manager answers for the user id of the request.
unfoldable pub join_room : Env → Option Account → JoinRequest → Context → Room → Reply
join_room e account request context r = elim context.token [
  | none ↦ thrown (plain "No auth token") r
  | some token ↦
      if token == ""
      then thrown (plain "No auth token") r
      else join_with e account request token context r
]

-- The first user with the id.
unfoldable pub change_user : ClientId → (RoomUser → RoomUser) → List RoomUser → List RoomUser
change_user client f [] = []
change_user client f (u ∷ us) = if u.id == client then f u ∷ us else u ∷ change_user client f us

-- `UpdateUser`
pub record UpdateRequest : Type 0 where
  pub info : ClientInfo
  pub prepared : Option PlaybackPrepared

-- The statuses other than buffering.
abbrev pub recovered : Option PlayerStatus → Bool
recovered none = false
recovered (some buffering) = false
recovered (some _) = true

abbrev pub rearm : ClientInfo → Room → Room
rearm info r =
    if recovered info.status
    then record r { buffer_gate_exhausted = delete info.id r.buffer_gate_exhausted }
    else r

unfoldable pub apply_update : Env → Option Account → UpdateRequest → Room → Reply
unfolding change_user delete
apply_update e account request r =
    let changed = record r {
      realusers = change_user request.info.id (update_info account request.info) r.realusers;
    } in
    let armed = rearm request.info changed in
    with_value (known_info request.info.id armed) armed λ info. done (
      finish_playback_preparation e.now request.info.id request.info.status request.prepared
        (sync_user info armed))

abbrev pub evaluate_after : Time → Reply → Reply
evaluate_after now (done r) = done (evaluate_buffer_gate now r)
evaluate_after now (thrown e r) = thrown e r

unfoldable pub update_user : Env → Option Account → UpdateRequest → Room → Reply
unfolding apply_update
update_user e account request r =
    evaluate_after e.now
      (if is_some (get_user request.info.id r) then apply_update e account request r else done r)

abbrev pub max_chat_message_length : ℕ
max_chat_message_length = 300

-- `none` is what is no string.
abbrev pub usable_chat : Option String → Result String
usable_chat none = err (bad_api_argument "text")
usable_chat (some text) =
    if ltb max_chat_message_length (text_length text)
    then err (bad_api_argument "text")
    else ok text

unfoldable pub chat : Option String → Context → Room → Reply
unfolding text_length
chat text context r = elim context.client_id [
  | none ↦ thrown (plain "context.clientId was undefined") r
  | some client ↦
      with_value (usable_chat text) r
        λ said. with_value (known_info client r) r λ user. done (publish (Message.chat user said) r)
]

-- `canKickUser`
unfoldable pub can_kick_user : Role → Role → Bool
can_kick_user yours target =
    same_role yours owner || ltb_ℤ (rank target) (rank yours) && not (same_role target owner)

unfoldable pub kick_user : ClientId → Context → Room → Reply
kick_user client context r = elim (get_user client r) [
  | none ↦ thrown client_not_found_in_room r
  | some user ↦
      if can_kick_user context.role (get_role r user)
      then done (publish (Message.kick client) r)
      else done r
]
