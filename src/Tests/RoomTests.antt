-- ===== src/Tests/RoomTests.antt =====
-- server/room.ts: requests and steps of concrete rooms.
use opentogethertube_cn.Common.{
  ◌≡◌, ◌≢◌, refl, true, false, none, some, arith, inl, ◌↔◌, ◌≤◌, ◌*◌, length,
}
use opentogethertube_cn.Common.Int.{◌≤ℤ◌}
use opentogethertube_cn.Exceptions.{permission_denied}
use opentogethertube_cn.Permissions.{
  owner, unregistered_user, rank, permissions, parse_into_grant_mask,
}
use opentogethertube_cn.Permissions.Grants.{granted, named, no_grants}
use opentogethertube_cn.Room.State.{Room, VideoReference}
use opentogethertube_cn.Room.Users.{get_user, get_role}
use opentogethertube_cn.Room.Dequeue.{dequeue_next}
use opentogethertube_cn.Room.Tick.{update}
use opentogethertube_cn.Room.Consistency.{IsConsistent}
use opentogethertube_cn.Room.Consistency.Dequeue.{dequeue_next-IsConsistent}
use opentogethertube_cn.Room.Consistency.Update.{update-IsConsistent}
use opentogethertube_cn.Room.Consistency.Requests.{process_request-IsConsistent}
use opentogethertube_cn.Room.Requests.{room_after, thrown, done}
use opentogethertube_cn.Room.Requests.Playback.{enough_votes}
use opentogethertube_cn.Room.Requests.Voting.{AreFound, skippers, enough_votes-majority}
use opentogethertube_cn.Room.Users.{get_user_info}
use opentogethertube_cn.Room.Requests.Members.{kick_user}
use opentogethertube_cn.Room.Requests.Dispatch.{RoomRequest, process_request}
use opentogethertube_cn.Room.Requests.Authority.{Needs, process_request-refuses, kick_user-spares}
use opentogethertube_cn.Tests.Rooms.{
  playing_room, pressed_room, waiting_room, env, world, viewer, ann,
}

pressed_room-IsConsistent : IsConsistent pressed_room
pressed_room-IsConsistent = record { gesture = (refl, refl, refl); round = tt; hold = tt }

waiting_room-IsConsistent : IsConsistent waiting_room
waiting_room-IsConsistent = record { gesture = tt; round = (refl, refl, refl); hold = tt }

abbrev other_video : VideoReference
other_video = record {
  service = "direct";
  id = "https://example.com/other.mp4";
  subtitle_url = none;
}

process_request-IsConsistent_example :
    IsConsistent
      (room_after (process_request world (RoomRequest.play_now other_video) viewer pressed_room))
process_request-IsConsistent_example =
    process_request-IsConsistent world (RoomRequest.play_now other_video) viewer pressed_room
      pressed_room-IsConsistent

update-IsConsistent_example : IsConsistent (update env none waiting_room)
update-IsConsistent_example = update-IsConsistent env none waiting_room waiting_room-IsConsistent

dequeue_next-IsConsistent_example : IsConsistent (dequeue_next env pressed_room)
dequeue_next-IsConsistent_example =
    dequeue_next-IsConsistent env pressed_room pressed_room-IsConsistent

-- A room that grants nothing.
abbrev closed_room : Room
closed_room = record playing_room { grants = no_grants }

kick_denied : granted no_grants unregistered_user (named "manage-users.kick") ≡ false
unfolding granted permissions parse_into_grant_mask
kick_denied = refl

process_request-refuses_example :
    process_request world (RoomRequest.kick "bob") viewer closed_room
    ≡ thrown (permission_denied "manage-users.kick") closed_room
process_request-refuses_example =
    process_request-refuses world (RoomRequest.kick "bob") viewer closed_room "manage-users.kick"
      (Needs.kick "bob") kick_denied

everyone_found : AreFound playing_room.realusers playing_room
unfolding get_user_info
everyone_found = (refl, tt)

enough_votes-majority_example :
    (enough_votes playing_room ≡ true)
    ↔ (length (skippers playing_room) ≤ 2 * length playing_room.votes_to_skip)
enough_votes-majority_example = enough_votes-majority playing_room everyone_found

found_ann : get_user "ann" playing_room ≡ some ann
unfolding get_user
found_ann = refl

unregistered-no_owner : unregistered_user ≢ owner
unregistered-no_owner e = ground (arith, e)

same_rank : rank unregistered_user ≤ℤ rank (get_role playing_room ann)
unfolding get_role
same_rank = ground arith

kick_user-spares_example : kick_user "ann" viewer playing_room ≡ done playing_room
kick_user-spares_example =
    kick_user-spares "ann" viewer playing_room ann found_ann unregistered-no_owner (inl same_rank)
