-- ===== src/Manager.antt =====
-- server/roommanager.ts: the loaded rooms of the server. `getRoom` waits between its look at the loaded
-- rooms and its push of a loaded one, so it is two steps, `look_up` and `finish_load`, and their
-- composition `get_room` where nothing comes in between.
pub mod Names
pub mod View
pub mod Spec
pub mod Refines
pub mod Races
use opentogethertube_cn.Common.{
  ℕ, suc, ◌+◌, ◌-◌, ◌*◌, ◌/◌, String, Bool, true, false, Option, none, some, List, [], ◌∷◌, ◌++◌,
  find, eqb, ltb, ◌||◌, if◌then◌else◌,
}
use opentogethertube_cn.Manager.Names.{same_name}
use opentogethertube_cn.Room.State.{Room}
use opentogethertube_cn.Room.Dequeue.{Env}
use opentogethertube_cn.Room.Holding.{restore_from_storage}

-- A room object: what it is, and which one it is.
pub record LoadedRoom : Type 0 where
  pub id : ℕ
  pub room : Room

-- `rooms`, and the identity of the next object.
pub record Manager : Type 0 where
  pub rooms : List LoadedRoom
  pub next_id : ℕ

abbrev pub no_rooms : Manager
no_rooms = record { rooms = []; next_id = 0 }

abbrev pub is_named : String → LoadedRoom → Bool
is_named name l = same_name l.room.name name

-- The first loaded room of a name, in whatever case.
unfoldable pub find_room : String → List LoadedRoom → Option LoadedRoom
find_room name rooms = find (is_named name) rooms

-- What Redis and the database have under a name, as the constructor of `Room` makes a room of it.
pub data Stored : Type 0 where
  in_redis : Room → Stored
  in_storage : Room → Stored
  nowhere : Stored

pub data Lookup : Type 0 where
  found : LoadedRoom → Lookup
  room_not_found : Lookup
  must_load : Lookup

unfoldable pub look_up : String → Bool → Manager → Lookup
unfolding find_room
look_up name must_already_be_loaded m = elim (find_room name m.rooms) [
  | some l ↦ found l
  | none ↦ if must_already_be_loaded then room_not_found else must_load
]

-- Without a snapshot the room comes back from the database, marked so.
abbrev pub stored_room : Stored → Option Room
stored_room (in_redis r) = some r
stored_room (in_storage r) = some (restore_from_storage r)
stored_room nowhere = none

-- `addRoom`
unfoldable pub add_room : Room → Manager → LoadedRoom × Manager
add_room r m =
    let l : LoadedRoom = record { id = m.next_id; room = r } in
    (l, record { rooms = m.rooms ++ l ∷ []; next_id = suc m.next_id })

pub data Answer : Type 0 where
  a_room : LoadedRoom → Answer
  no_room : Answer
  name_taken : Answer
  not_saved : Answer
  unloaded : LoadedRoom → Answer

abbrev pub answer_loaded : LoadedRoom × Manager → Answer × Manager
answer_loaded (l, m) = (a_room l, m)

unfoldable pub finish_load : Stored → Manager → Answer × Manager
unfolding add_room
finish_load stored m = elim (stored_room stored) [
  | none ↦ (no_room, m)
  | some r ↦ answer_loaded (add_room r m)
]

unfoldable pub get_room : String → Bool → Stored → Manager → Answer × Manager
unfolding look_up finish_load
get_room name must stored m = elim (look_up name must m) [
  | found l ↦ (a_room l, m)
  | room_not_found ↦ (no_room, m)
  | must_load ↦ finish_load stored m
]

-- `createRoom`, with the new room after its first tick: whether Redis or the database knows the name, and
-- whether a permanent room could be saved.
unfoldable pub create_room : Room → Bool → Bool → Manager → Answer × Manager
unfolding find_room add_room
create_room r taken saved m = elim (find_room r.name m.rooms) [
  | some l ↦ (name_taken, m)
  | none ↦
      if taken
      then (name_taken, m)
      else if r.is_temporary || saved
      then answer_loaded (add_room r m)
      else (not_saved, m)
]

-- `rooms.indexOf(room)` and `splice`: by identity.
unfoldable pub remove_object : ℕ → List LoadedRoom → List LoadedRoom
remove_object id [] = []
remove_object id (l ∷ ls) = if eqb l.id id then ls else l ∷ remove_object id ls

-- `unloadRoom` of a name. What `onBeforeUnload` waits for comes in between.
unfoldable pub unload_room : String → Manager → Answer × Manager
unfolding find_room remove_object
unload_room name m = elim (find_room name m.rooms) [
  | none ↦ (no_room, m)
  | some l ↦ (unloaded l, record m { rooms = remove_object l.id m.rooms })
]

-- `get isStale`
unfoldable pub is_stale : Env → Room → Bool
is_stale e r = ltb e.unload_after ((e.now - r.keep_alive_ping) / 1000)

abbrev pub changed_to : Room → LoadedRoom → LoadedRoom → LoadedRoom
changed_to r l other = if eqb other.id l.id then record other { room = r } else other

unfoldable pub write_object : LoadedRoom → Room → List LoadedRoom → List LoadedRoom
write_object l r [] = []
write_object l r (other ∷ ls) = changed_to r l other ∷ write_object l r ls

abbrev pub unload_if : Bool → String → Manager → Manager
unload_if true name m = (unload_room name m).1
unload_if false name m = m

-- One room of the sweep: its tick, and its unloading by name where it is stale.
unfoldable pub update_room : Env → (Room → Room) → LoadedRoom → Manager → Manager
update_room e tick l m =
    let r = tick l.room in
    unload_if (is_stale e r) r.name (record m { rooms = write_object l r m.rooms })

-- `update`, over a copy of the list.
unfoldable pub update_all : Env → (Room → Room) → List LoadedRoom → Manager → Manager
unfolding update_room
update_all e tick [] m = m
update_all e tick (l ∷ ls) m = update_all e tick ls (update_room e tick l m)
