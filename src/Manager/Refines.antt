-- ===== src/Manager/Refines.antt =====
-- server/roommanager.ts: the list of the loaded rooms does what a map from names to rooms does.
use opentogethertube_cn.Common.{
  ℕ, suc, arith, ◌≡◌, subst, ◌∙◌, refl, sym, ap, String, Bool, true, false, Option, none, some,
  List, [], ◌∷◌, if◌then◌else◌, ◌||◌,
}
use opentogethertube_cn.Manager.Names.{same_name}
use opentogethertube_cn.Manager.View.{
  Below, AreDistinct, find_room-same, find_room-append, find_room-remove, Below-append,
  Below-remove, AreDistinct-append, AreDistinct-remove,
}
use opentogethertube_cn.Manager.{
  LoadedRoom, Manager, no_rooms, find_room, Stored, stored_room, Answer, answer_loaded, a_room,
  no_room, name_taken, not_saved, unloaded, add_room, get_room, create_room, remove_object,
  unload_room,
}
use opentogethertube_cn.Manager.Spec.{
  Op, get_op, create_op, unload_op, AnswersName, IsAnswered, AreAnswered, step, run, RoomMap,
  with_room, load_in, get_in, create_in, unload_in, map_step, map_run, empty_map,
}
use opentogethertube_cn.Room.State.{Room}

-- The list and the map say the same of every name; the list is well formed.
record Agrees (m : Manager) (f : RoomMap) : Type 0 where
  at_name : (n : String) → find_room n m.rooms ≡ f.at n
  counted : m.next_id ≡ f.next
  distinct : AreDistinct m.rooms
  below : Below m.next_id m.rooms

-- The same answer, and states that agree.
abbrev Simulates : Answer × Manager → Answer × RoomMap → Type 0
Simulates (a, m) (b, f) = (a ≡ b) × Agrees m f

added :
    (m : Manager) (f : RoomMap) (r : Room)
    → Agrees m f
    → find_room r.name m.rooms ≡ none
    → Simulates (answer_loaded (add_room r m)) (with_room r f)
unfolding add_room
added m f r g free =
    let l : LoadedRoom = record { id = m.next_id; room = r } in
    let same : l ≡ record { id = f.next; room = r } =
      ap (λ (n : ℕ). record { id = n; room = r }) g.counted in
    (
      ap a_room same,
      record {
        at_name = λ n.
            find_room-append n m.rooms l free
            ∙ (λ i. if same_name r.name n then some (same i) else g.at_name n i);
        counted = ap suc g.counted;
        distinct = AreDistinct-append m.next_id m.rooms l refl g.below free g.distinct;
        below = Below-append m.next_id m.rooms l refl g.below;
      },
    )

abbrev load_by : Option Room → Manager → Answer × Manager
load_by none m = (no_room, m)
load_by (some r) m = answer_loaded (add_room r m)

abbrev get_by : Option LoadedRoom → Bool → Option Room → Manager → Answer × Manager
get_by (some l) must stored m = (a_room l, m)
get_by none true stored m = (no_room, m)
get_by none false stored m = load_by stored m

abbrev create_by : Option LoadedRoom → Room → Bool → Bool → Manager → Answer × Manager
create_by (some l) r taken saved m = (name_taken, m)
create_by none r true saved m = (name_taken, m)
create_by none r false true m = answer_loaded (add_room r m)
create_by none r false false m = (not_saved, m)

abbrev unload_by : Option LoadedRoom → Manager → Answer × Manager
unload_by none m = (no_room, m)
unload_by (some l) m = (unloaded l, record m { rooms = remove_object l.id m.rooms })

get_room-by :
    (name : String) (must : Bool) (stored : Stored) (m : Manager)
    → get_room name must stored m ≡ get_by (find_room name m.rooms) must (stored_room stored) m
unfolding get_room
get_room-by name must stored m = ground arith

create_room-by :
    (r : Room) (taken saved : Bool) (m : Manager)
    → create_room r taken saved m
      ≡ create_by (find_room r.name m.rooms) r taken (r.is_temporary || saved) m
unfolding create_room
create_room-by r taken saved m = ground arith

unload_room-by :
    (name : String) (m : Manager) → unload_room name m ≡ unload_by (find_room name m.rooms) m
unfolding unload_room
unload_room-by name m = ground arith

-- Each answer by a lookup is the answer by the map, where both look up the same.
load-Simulates :
    (name : String) (stored : Option Room) (m : Manager) (f : RoomMap)
    → Agrees m f
    → find_room name m.rooms ≡ none
    → AnswersName name stored
    → Simulates (load_by stored m) (load_in stored f)
load-Simulates name none m f g free a = (refl, g)
load-Simulates name (some r) m f g free a =
    added m f r g (find_room-same r.name name m.rooms a ∙ free)

get-Simulates :
    (name : String) (o : Option LoadedRoom) (must : Bool) (stored : Option Room) (m : Manager)
    (f : RoomMap)
    → find_room name m.rooms ≡ o
    → Agrees m f
    → AnswersName name stored
    → Simulates (get_by o must stored m) (get_in o must stored f)
get-Simulates name (some l) must stored m f h g a = (refl, g)
get-Simulates name none true stored m f h g a = (refl, g)
get-Simulates name none false stored m f h g a = load-Simulates name stored m f g h a

create-Simulates :
    (o : Option LoadedRoom) (r : Room) (taken saved : Bool) (m : Manager) (f : RoomMap)
    → find_room r.name m.rooms ≡ o
    → Agrees m f
    → Simulates (create_by o r taken saved m) (create_in o r taken saved f)
create-Simulates (some l) r taken saved m f h g = (refl, g)
create-Simulates none r true saved m f h g = (refl, g)
create-Simulates none r false true m f h g = added m f r g h
create-Simulates none r false false m f h g = (refl, g)

unload-Simulates :
    (name : String) (o : Option LoadedRoom) (m : Manager) (f : RoomMap)
    → find_room name m.rooms ≡ o
    → Agrees m f
    → Simulates (unload_by o m) (unload_in o name f)
unload-Simulates name none m f h g = (refl, g)
unload-Simulates name (some l) m f h g = (
  refl,
  record {
    at_name = λ n.
        find_room-remove name n m.rooms l g.distinct h
        ∙ (λ i. if same_name name n then none else g.at_name n i);
    counted = g.counted;
    distinct = AreDistinct-remove l.id m.rooms g.distinct;
    below = Below-remove m.next_id l.id m.rooms g.below;
  },
)

step-Simulates :
    (op : Op) (m : Manager) (f : RoomMap)
    → IsAnswered op
    → Agrees m f
    → Simulates (step op m) (map_step op f)
unfolding step map_step
step-Simulates (get_op name must stored) m f a g =
    subst (λ (r : Answer × Manager). Simulates r (get_in (f.at name) must (stored_room stored) f))
      (sym (get_room-by name must stored m))
      (subst
        (λ (o : Option LoadedRoom).
          Simulates (get_by (find_room name m.rooms) must (stored_room stored) m)
            (get_in o must (stored_room stored) f))
        (g.at_name name)
        (get-Simulates name (find_room name m.rooms) must (stored_room stored) m f refl g a))
step-Simulates (create_op r taken saved) m f a g =
    subst
      (λ (x : Answer × Manager).
        Simulates x (create_in (f.at r.name) r taken (r.is_temporary || saved) f))
      (sym (create_room-by r taken saved m))
      (subst
        (λ (o : Option LoadedRoom).
          Simulates (create_by (find_room r.name m.rooms) r taken (r.is_temporary || saved) m)
            (create_in o r taken (r.is_temporary || saved) f))
        (g.at_name r.name)
        (create-Simulates (find_room r.name m.rooms) r taken (r.is_temporary || saved) m f refl g))
step-Simulates (unload_op name) m f a g =
    subst (λ (x : Answer × Manager). Simulates x (unload_in (f.at name) name f))
      (sym (unload_room-by name m))
      (subst
        (λ (o : Option LoadedRoom).
          Simulates (unload_by (find_room name m.rooms) m) (unload_in o name f))
        (g.at_name name) (unload-Simulates name (find_room name m.rooms) m f refl g))

run-Agrees :
    (ops : List Op) (m : Manager) (f : RoomMap)
    → AreAnswered ops
    → Agrees m f
    → run ops m ≡ map_run ops f
unfolding run map_run
run-Agrees [] m f a g = refl
run-Agrees (op ∷ ops) m f a g =
    let (same, later) = step-Simulates op m f a.0 g in
    let rest = run-Agrees ops (step op m).1 (map_step op f).1 a.1 later in λ i. same i ∷ rest i

-- Calls of `getRoom`, `createRoom` and `unloadRoom` one after the other, from an empty manager, are
-- answered as by a map from names (without regard to case) to rooms, where what the storage has under a
-- name is a room of that name.
pub run-eq-map_run : (ops : List Op) → AreAnswered ops → run ops no_rooms ≡ map_run ops empty_map
unfolding find_room
run-eq-map_run ops a =
    run-Agrees ops no_rooms empty_map a
      (record { at_name = λ n. refl; counted = refl; distinct = tt; below = tt })
