-- ===== src/Clients/Joins.antt =====
-- server/clientmanager.ts: how a client comes into a room and leaves it. A join waits three times, for
-- the room, for the check of its access and for the room's own join request; each step below is what
-- runs between two waits, so that other events come in between. The client's id stands for its object.
-- What a step sends to clients, and what the room itself does with a join, are not here.
pub mod Seats
pub mod Entering
pub mod Leaving
pub mod Connected
pub mod Lost
use opentogethertube_cn.Common.{
  ℕ, String, Bool, true, false, Option, none, some, List, [], ◌∷◌, ◌++◌, ◌==◌, if◌then◌else◌,
  or_else,
}
use opentogethertube_cn.Common.Dict.{get, put, remove, string_eq}
use opentogethertube_cn.Common.StringSet.{has, delete}
use opentogethertube_cn.Room.State.{ClientId}

-- Where the join of a client stands.
pub data Phase : Type 0 where
  waiting_for_auth finding_room : Phase
  checking_access : String → Phase
  in_room turned_away : Phase

pub record Client : Type 0 where
  pub room : String
  pub phase : Phase

-- `connections`, `roomJoins`, and the clients, which live on while a handler holds them.
pub record Connections : Type 0 where
  pub connections : List ClientId
  pub room_joins : List (String × List ClientId)
  pub clients : List (ClientId × Client)

abbrev pub get_clients_in_room : String → Connections → List ClientId
get_clients_in_room room s = or_else (get room s.room_joins) []

abbrev pub with_phase : ClientId → Client → Phase → Connections → Connections
with_phase id client phase s = record s {
  clients = put id (record client { phase = phase }) s.clients;
}

-- A connection with a new id.
unfoldable pub add_client : ClientId → String → Connections → Connections
add_client id room s = record s {
  connections = s.connections ++ id ∷ [];
  clients = put id (record { room = room; phase = waiting_for_auth }) s.clients;
}

-- `onClientAuth`: a client authenticates once, and looks for its room.
abbrev pub begin_for : ClientId → Client → Phase → Connections → Connections
begin_for id client waiting_for_auth s = with_phase id client finding_room s
begin_for id client _ s = s

unfoldable pub begin_join : ClientId → Connections → Connections
begin_join id s = elim (get id s.clients) [
  | none ↦ s
  | some client ↦ begin_for id client client.phase s
]

-- `joinAuthenticatedClient` has the room, or there is none; a client that has gone is not let on.
abbrev pub found_for : ClientId → Client → Option String → Phase → Connections → Connections
found_for id client name finding_room s =
    if has id s.connections
    then elim name [
      | none ↦ with_phase id client turned_away s
      | some room ↦ with_phase id client (checking_access room) s
    ]
    else with_phase id client turned_away s
found_for id client name _ s = s

unfoldable pub room_found : ClientId → Option String → Connections → Connections
room_found id name s = elim (get id s.clients) [
  | none ↦ s
  | some client ↦ found_for id client name client.phase s
]

-- The access is granted or not. With access, the client is one of the room's.
abbrev pub enter : ClientId → String → Connections → Connections
enter id room s = record s {
  room_joins = put room (get_clients_in_room room s ++ id ∷ []) s.room_joins;
  clients = put id (record { room = room; phase = in_room }) s.clients;
}

abbrev pub access_for : ClientId → Client → Bool → Phase → Connections → Connections
access_for id client granted (checking_access room) s =
    if granted then enter id room s else with_phase id client turned_away s
access_for id client granted _ s = s

unfoldable pub access_checked : ClientId → Bool → Connections → Connections
access_checked id granted s = elim (get id s.clients) [
  | none ↦ s
  | some client ↦ access_for id client granted client.phase s
]

-- `onClientDisconnect`, before it waits for a join: the client leaves the list of its room, if that list
-- has it.
abbrev pub leave_list :
    ClientId → String → List (String × List ClientId) → List (String × List ClientId)
leave_list id room joins = elim (get room joins) [
  | none ↦ joins
  | some ids ↦ put room (delete id ids) joins
]

abbrev pub disconnect_of : ClientId → Client → Connections → Connections
disconnect_of id client s = record s {
  connections = delete id s.connections;
  room_joins = leave_list id client.room s.room_joins;
}

unfoldable pub on_client_disconnect : ClientId → Connections → Connections
on_client_disconnect id s =
    if has id s.connections
    then elim (get id s.clients) [ none ↦ s | some client ↦ disconnect_of id client s ]
    else s

-- `onRoomUnload`: the list of the room is dropped (and its clients kicked, whose sockets close later).
unfoldable pub on_room_unload : String → Connections → Connections
on_room_unload room s = record s { room_joins = remove room s.room_joins }
