-- ===== src/Manager/Races.antt =====
-- server/roommanager.ts: two calls of `getRoom` that overlap load a room twice, and the sweep then unloads
-- the one that is in use.
use opentogethertube_cn.Common.{ℕ, ◌≡◌, ◌≢◌, refl, String, true, false, [], ◌∷◌, arith}
use opentogethertube_cn.Manager.Names.{same_name}
use opentogethertube_cn.Manager.{
  LoadedRoom, Manager, no_rooms, is_named, must_load, look_up, finish_load, unload_room, is_stale,
  update_room, update_all, write_object, in_redis,
}
use opentogethertube_cn.Room.State.{Room}
use opentogethertube_cn.Room.Dequeue.{Env}

abbrev twice : Room → Manager
twice r = (finish_load (in_redis r) (finish_load (in_redis r) no_rooms).1).1

-- The room that was loaded first, which `getRoom` finds, and the one that was loaded second.
abbrev first_of : Room → LoadedRoom
first_of r = record { id = 0; room = r }

abbrev second_of : Room → LoadedRoom
second_of r = record { id = 1; room = r }

-- Two callers who both look a room up before either has loaded it must both load it, and then it is
-- loaded twice.
loaded_twice :
    (name : String) (r : Room)
    → (look_up name false no_rooms ≡ must_load) × ((twice r).rooms ≡ first_of r ∷ second_of r ∷ [])
unfolding look_up finish_load
loaded_twice name r = (refl, refl)

abbrev pub ticked : (Room → Room) → LoadedRoom → LoadedRoom
ticked tick l = record l { room = tick l.room }

module _ (e : Env) (tick : Room → Room) (l k : LoadedRoom) where
  write_first :
      (next : ℕ) → l.id ≢ k.id → write_object l (tick l.room) (l ∷ k ∷ []) ≡ ticked tick l ∷ k ∷ []
  unfolding write_object
  write_first next n = ground (arith, n)

  write_second :
      l.id ≢ k.id
      → write_object k (tick k.room) (ticked tick l ∷ k ∷ []) ≡ ticked tick l ∷ ticked tick k ∷ []
  unfolding write_object
  write_second n = ground (arith, n)

  -- The unloading by name takes the first room of that name.
  unloads_first :
      (name : String) (next : ℕ)
      → l.id ≢ k.id
      → is_named name (ticked tick l) ≡ true
      → (unload_room name
          (record { rooms = ticked tick l ∷ ticked tick k ∷ []; next_id = next })).1.rooms
        ≡ ticked tick k ∷ []
  unfolding unload_room
  unloads_first name next n h = rw (h, unload_room) (ground arith)

  -- The sweep over two live objects of one name, of which the second is stale, unloads the first: unloading
  -- goes by the name, and takes the first room that has it.
  pub update_all-unloads_wrong :
      (next : ℕ)
      → l.id ≢ k.id
      → same_name (tick l.room).name (tick k.room).name ≡ true
      → is_stale e (tick l.room) ≡ false
      → is_stale e (tick k.room) ≡ true
      → (update_all e tick (l ∷ k ∷ []) (record { rooms = l ∷ k ∷ []; next_id = next })).rooms
        ≡ ticked tick k ∷ []
  unfolding update_all update_room
  update_all-unloads_wrong next n h live stale =
      rw (live, write_first next n, stale, write_second n)
        (unloads_first (tick k.room).name next n h)
