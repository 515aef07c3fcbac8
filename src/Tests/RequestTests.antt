-- ===== src/Tests/RequestTests.antt =====
-- server/room.ts: undo, promotions and departures of concrete rooms.
use opentogethertube_cn.Common.{◌⊎◌, ◌≡◌, refl, true, false, ◌&&◌, none, some, [], ◌∷◌}
use opentogethertube_cn.Common.Int.{pos, ◌+ℤ◌, ◌*ℤ◌}
use opentogethertube_cn.Common.Dict.{get}
use opentogethertube_cn.Permissions.{
  PermissionName, owner, unregistered_user, trusted_user, moderator, administrator, permissions,
  parse_into_grant_mask,
}
use opentogethertube_cn.Permissions.Grants.{granted, named}
use opentogethertube_cn.Queue.{finite}
use opentogethertube_cn.Room.State.{
  Room, RoomUser, RoomUserInfo, Account, QueueMode, no_status, buffering,
}
use opentogethertube_cn.Room.Clock.{real_playback_position}
use opentogethertube_cn.Room.Users.{get_user, get_user_info, get_role, is_owner}
use opentogethertube_cn.Room.Holding.{can_prepare_playback}
use opentogethertube_cn.Room.Requests.{thrown, Context, room_after}
use opentogethertube_cn.Room.Requests.Playback.{seek}
use opentogethertube_cn.Room.Requests.Leaving.{empty_room, should_resume}
use opentogethertube_cn.Room.Requests.Leaving.Emptied.{empty_room-pauses}
use opentogethertube_cn.Room.Requests.Roles.{promote_user}
use opentogethertube_cn.Room.Requests.Roles.Assignment.{HasSets}
use opentogethertube_cn.Room.Requests.Roles.Promotion.{OnSuccess, promote_user-gives}
use opentogethertube_cn.Room.Requests.Roles.Authorized.{IsAuthorized, promote_user-IsAuthorized}
use opentogethertube_cn.Room.Requests.Settings.{
  Settings, changed_settings, apply_changes, apply_settings,
}
use opentogethertube_cn.Room.Requests.Settings.Authorized.{IsPermitted, apply_settings-IsPermitted}
use opentogethertube_cn.Exceptions.{permission_denied}
use opentogethertube_cn.Room.Requests.Undo.{undo}
use opentogethertube_cn.Room.Requests.Undo.Echoes.{InRange, seek_echo}
use opentogethertube_cn.Room.Requests.Undo.Seeks.{EndsAt, undo-seek}
use opentogethertube_cn.Tests.Rooms.{playing_room, viewer}

-- Nobody is left in the room.
abbrev left_room : Room
left_room = record playing_room { realusers = [] }

empty_room-pauses_example :
    ((empty_room 5000 left_room).is_playing ≡ false)
    × (real_playback_position 9000 (empty_room 5000 left_room)
        ≡ real_playback_position 5000 left_room)
    × ((empty_room 5000 left_room).resume_on_next_join
        ≡ (should_resume left_room && can_prepare_playback left_room))
empty_room-pauses_example = empty_room-pauses 5000 9000 left_room refl

abbrev ann_info : RoomUserInfo
ann_info = record {
  id = "ann";
  name = "Ann";
  is_logged_in = false;
  status = buffering;
  role = unregistered_user;
}

known_ann : get_user_info "ann" playing_room ≡ some ann_info
unfolding get_user_info
known_ann = refl

ann_seeks : granted playing_room.grants unregistered_user (named "playback.seek") ≡ true
unfolding granted permissions parse_into_grant_mask
ann_seeks = refl

-- Where the film is after two seconds.
near_start : InRange (real_playback_position 3000 playing_room)
unfolding real_playback_position ◌+ℤ◌ ◌*ℤ◌
near_start = refl

undo-seek_example : EndsAt (real_playback_position 3000 playing_room) (
    undo 8000
      (seek_echo (pos 400_000) (real_playback_position 3000 playing_room))
      viewer
      (room_after (seek 3000 (some (finite (pos 400_000))) viewer playing_room)))
undo-seek_example =
    undo-seek 3000 8000 (pos 400_000) viewer "ann" ann_info playing_room refl known_ann ann_seeks
      refl near_start

abbrev bob_account : Account
bob_account = record { id = 7; username = "bob" }

abbrev bob : RoomUser
bob = record {
  id = "bob";
  token = "token of bob";
  user_id = some 7;
  unregistered_username = "";
  user = some bob_account;
  player_status = no_status;
}

-- Bob is a moderator.
abbrev staffed_room : Room
staffed_room = record playing_room {
  grants = record { masks = (owner, 536870911) ∷ [] };
  realusers = bob ∷ [];
  user_roles = (trusted_user, []) ∷ (moderator, 7 ∷ []) ∷ (administrator, []) ∷ [];
}

found_bob : get_user "bob" staffed_room ≡ some bob
unfolding get_user
found_bob = refl

bob-not_owner : is_owner staffed_room bob ≡ false
unfolding is_owner
bob-not_owner = refl

staffed_room-HasSets : HasSets staffed_room.user_roles
unfolding get
staffed_room-HasSets = record {
  trusted = [];
  moderators = 7 ∷ [];
  administrators = [];
  of_trusted = refl;
  of_moderators = refl;
  of_administrators = refl;
}

abbrev chief : Context
chief = record { username = "chief"; role = owner; client_id = some "chief"; token = none }

promote_user-gives_example :
    OnSuccess
      (λ after. get_role after bob ≡ trusted_user)
      (promote_user "bob" (some (pos 2)) chief staffed_room)
promote_user-gives_example =
    promote_user-gives "bob" (pos 2) chief staffed_room trusted_user bob bob_account refl found_bob
      refl refl bob-not_owner refl staffed_room-HasSets

promote_user-IsAuthorized_example :
    OnSuccess
      (λ _. IsAuthorized trusted_user (get_role staffed_room bob) chief staffed_room)
      (promote_user "bob" (some (pos 2)) chief staffed_room)
promote_user-IsAuthorized_example =
    promote_user-IsAuthorized "bob" (pos 2) chief staffed_room trusted_user bob refl found_bob

-- New categories and a new mode.
abbrev new_settings : Settings
new_settings = record {
  title = none;
  description = none;
  visibility = none;
  queue_mode = some QueueMode.loop;
  auto_skip_segment_categories = some ("intro" ∷ []);
  restore_queue_behavior = none;
  enable_vote_skip = some false;
  buffer_gate_mode = none;
  danmaku_source = none;
  grants = [];
}

apply_settings-IsPermitted_example :
    (IsPermitted viewer staffed_room new_settings
      × (apply_settings 5000 new_settings viewer staffed_room
          ≡ apply_changes 5000 (changed_settings new_settings staffed_room) staffed_room))
    ⊎ ((name : PermissionName) × (apply_settings 5000 new_settings viewer staffed_room
          ≡ thrown (permission_denied name) staffed_room))
apply_settings-IsPermitted_example =
    apply_settings-IsPermitted 5000 new_settings viewer staffed_room
