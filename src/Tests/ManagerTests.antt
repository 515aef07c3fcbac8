-- ===== src/Tests/ManagerTests.antt =====
-- server/roommanager.ts: the room manager on a room, and the theorems of Manager applied to it.
use opentogethertube_cn.Common.{◌≡◌, refl, true, false, List, [], ◌∷◌, arith}
use opentogethertube_cn.Manager.Names.{same_name}
use opentogethertube_cn.Manager.{
  LoadedRoom, no_rooms, in_redis, nowhere, a_room, no_room, name_taken, unloaded, update_all,
  is_stale, get_room, create_room, unload_room,
}
use opentogethertube_cn.Manager.Spec.{
  Op, get_op, create_op, unload_op, AreAnswered, run, step, map_run, empty_map,
}
use opentogethertube_cn.Manager.Refines.{run-eq-map_run}
use opentogethertube_cn.Manager.Races.{ticked, update_all-unloads_wrong}
use opentogethertube_cn.Room.State.{Room}
use opentogethertube_cn.Room.Dequeue.{Env}
use opentogethertube_cn.Tests.Rooms.{playing_room}

abbrev same_room : LoadedRoom
same_room = record { id = 0; room = playing_room }

-- A load, a hit in another case, a creation of a taken name, an unload and a miss.
abbrev calls : List Op
calls =
    get_op "Room" false (in_redis playing_room)
    ∷ get_op "ROOM" true nowhere
    ∷ create_op playing_room false true
    ∷ unload_op "rOOm"
    ∷ get_op "room" true nowhere
    ∷ []

calls-AreAnswered : AreAnswered calls
unfolding same_name
calls-AreAnswered = (refl, (tt, (tt, (tt, (tt, tt)))))

calls_answered :
    run calls no_rooms
    ≡ a_room same_room ∷ a_room same_room ∷ name_taken ∷ unloaded same_room ∷ no_room ∷ []
unfolding run step get_room create_room unload_room same_name
calls_answered = refl

run-eq-map_run_example : run calls no_rooms ≡ map_run calls empty_map
run-eq-map_run_example = run-eq-map_run calls calls-AreAnswered

abbrev late : Env
late = record {
  now = 900_000;
  uuid = "";
  sponsorblock_enabled = false;
  unload_after = 240;
  order_by = λ key items. items;
}

abbrev live_object : LoadedRoom
live_object = record { id = 0; room = record playing_room { keep_alive_ping = 899_000 } }

abbrev orphan : LoadedRoom
orphan = record { id = 1; room = record playing_room { keep_alive_ping = 1000 } }

abbrev same : Room → Room
same r = r

one_name : same_name live_object.room.name orphan.room.name ≡ true
unfolding same_name
one_name = refl

live_object_fresh : is_stale late live_object.room ≡ false
unfolding is_stale
live_object_fresh = refl

orphan_stale : is_stale late orphan.room ≡ true
unfolding is_stale
orphan_stale = refl

update_all-unloads_wrong_example :
    (update_all late same
      (live_object ∷ orphan ∷ [])
      (record { rooms = live_object ∷ orphan ∷ []; next_id = 2 })).rooms
    ≡ ticked same orphan ∷ []
update_all-unloads_wrong_example =
    update_all-unloads_wrong late same live_object orphan 2 (omega arith) one_name live_object_fresh
      orphan_stale
