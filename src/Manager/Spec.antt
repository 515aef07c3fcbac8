-- ===== src/Manager/Spec.antt =====
-- server/roommanager.ts: the map from names to rooms that the loaded rooms stand for, and the calls on it.
use opentogethertube_cn.Common.{
  ℕ, suc, ◌≡◌, String, Bool, true, false, Option, none, some, List, [], ◌∷◌, if◌then◌else◌, ◌||◌,
}
use opentogethertube_cn.Manager.Names.{same_name}
use opentogethertube_cn.Manager.{
  LoadedRoom, Manager, Stored, stored_room, Answer, a_room, no_room, name_taken, not_saved,
  unloaded, get_room, create_room, unload_room,
}
use opentogethertube_cn.Room.State.{Room}

-- What callers ask, one after the other, with what the storage answers.
pub data Op : Type 0 where
  get_op : String → Bool → Stored → Op
  create_op : Room → Bool → Bool → Op
  unload_op : String → Op

-- The storage answers with the room that was asked for.
abbrev pub AnswersName : String → Option Room → Type 0
AnswersName name none = Unit
AnswersName name (some r) = same_name r.name name ≡ true

abbrev pub IsAnswered : Op → Type 0
IsAnswered (get_op name must stored) = AnswersName name (stored_room stored)
IsAnswered _ = Unit

abbrev pub AreAnswered : List Op → Type 0
AreAnswered [] = Unit
AreAnswered (op ∷ ops) = IsAnswered op × AreAnswered ops

unfoldable pub step : Op → Manager → Answer × Manager
step (get_op name must stored) m = get_room name must stored m
step (create_op r taken saved) m = create_room r taken saved m
step (unload_op name) m = unload_room name m

unfoldable pub run : List Op → Manager → List Answer
run [] m = []
run (op ∷ ops) m = (step op m).0 ∷ run ops (step op m).1

-- The specification: a map from names, in which names that differ in case only are one key.
pub record RoomMap : Type 0 where
  pub at : String → Option LoadedRoom
  pub next : ℕ

abbrev pub with_room : Room → RoomMap → Answer × RoomMap
with_room r f =
    let l : LoadedRoom = record { id = f.next; room = r } in
    (
      a_room l,
      record { at = λ n. if same_name r.name n then some l else f.at n; next = suc f.next },
    )

abbrev pub without_name : String → RoomMap → RoomMap
without_name name f = record f { at = λ n. if same_name name n then none else f.at n }

abbrev pub load_in : Option Room → RoomMap → Answer × RoomMap
load_in none f = (no_room, f)
load_in (some r) f = with_room r f

abbrev pub get_in : Option LoadedRoom → Bool → Option Room → RoomMap → Answer × RoomMap
get_in (some l) must stored f = (a_room l, f)
get_in none true stored f = (no_room, f)
get_in none false stored f = load_in stored f

abbrev pub create_in : Option LoadedRoom → Room → Bool → Bool → RoomMap → Answer × RoomMap
create_in (some l) r taken saved f = (name_taken, f)
create_in none r true saved f = (name_taken, f)
create_in none r false true f = with_room r f
create_in none r false false f = (not_saved, f)

abbrev pub unload_in : Option LoadedRoom → String → RoomMap → Answer × RoomMap
unload_in none name f = (no_room, f)
unload_in (some l) name f = (unloaded l, without_name name f)

unfoldable pub map_step : Op → RoomMap → Answer × RoomMap
map_step (get_op name must stored) f = get_in (f.at name) must (stored_room stored) f
map_step (create_op r taken saved) f = create_in (f.at r.name) r taken (r.is_temporary || saved) f
map_step (unload_op name) f = unload_in (f.at name) name f

unfoldable pub map_run : List Op → RoomMap → List Answer
map_run [] f = []
map_run (op ∷ ops) f = (map_step op f).0 ∷ map_run ops (map_step op f).1

abbrev pub empty_map : RoomMap
empty_map = record { at = λ n. none; next = 0 }
