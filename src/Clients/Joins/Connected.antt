-- ===== src/Clients/Joins/Connected.antt =====
-- server/clientmanager.ts: the list of a room holds connected clients.
use opentogethertube_cn.Common.{String, Bool, true, Option, none, [], ◌≡◌}
use opentogethertube_cn.Common.Dict.{get, string_eq}
use opentogethertube_cn.Common.StringSet.{has}
use opentogethertube_cn.Room.State.{ClientId}
use opentogethertube_cn.Clients.Joins.{
  Connections, add_client, begin_join, room_found, access_checked, on_client_disconnect,
  on_room_unload,
}
use opentogethertube_cn.Clients.Joins.Seats.{IsRight}
use opentogethertube_cn.Clients.Joins.Entering.{
  add_client-IsRight, begin_join-IsRight, room_found-IsRight, access_checked-IsRight,
}
use opentogethertube_cn.Clients.Joins.Leaving.{
  nobody_in, on_client_disconnect-IsRight, on_room_unload-IsRight,
}

abbrev pub nobody_connected : Connections
nobody_connected = record { connections = []; room_joins = []; clients = [] }

-- What connections, the steps of their joins, their ends and unloaded rooms lead to, where no client goes
-- while its access is checked.
pub data JoinReach : Connections → Type 0 where
  start : JoinReach nobody_connected
  connects :
      (id : ClientId) (room : String) (s : Connections)
      → get id s.clients ≡ none
      → JoinReach s
      → JoinReach (add_client id room s)
  authenticates : (id : ClientId) (s : Connections) → JoinReach s → JoinReach (begin_join id s)
  finds :
      (id : ClientId) (name : Option String) (s : Connections)
      → JoinReach s
      → JoinReach (room_found id name s)
  enters :
      (id : ClientId) (granted : Bool) (s : Connections)
      → (granted ≡ true → has id s.connections ≡ true)
      → JoinReach s
      → JoinReach (access_checked id granted s)
  goes : (id : ClientId) (s : Connections) → JoinReach s → JoinReach (on_client_disconnect id s)
  unloads : (room : String) (s : Connections) → JoinReach s → JoinReach (on_room_unload room s)

-- Whatever the connections did and in whatever order, whoever stands in the list of a room, and so gets
-- its broadcasts, is connected and in that room, where no client goes while its access is checked.
pub JoinReach-IsRight : (s : Connections) → JoinReach s → IsRight s
unfolding get
JoinReach-IsRight s start = λ room id h. absurd (nobody_in id h)
JoinReach-IsRight s (connects id room t fresh r) =
    add_client-IsRight id room t fresh (JoinReach-IsRight t r)
JoinReach-IsRight s (authenticates id t r) = begin_join-IsRight id t (JoinReach-IsRight t r)
JoinReach-IsRight s (finds id name t r) = room_found-IsRight id name t (JoinReach-IsRight t r)
JoinReach-IsRight s (enters id granted t here r) =
    access_checked-IsRight id granted t here (JoinReach-IsRight t r)
JoinReach-IsRight s (goes id t r) = on_client_disconnect-IsRight id t (JoinReach-IsRight t r)
JoinReach-IsRight s (unloads room t r) = on_room_unload-IsRight room t (JoinReach-IsRight t r)
