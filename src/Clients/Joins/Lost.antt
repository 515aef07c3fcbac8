-- ===== src/Clients/Joins/Lost.antt =====
-- server/clientmanager.ts: a client that leaves while its access is checked stays in its room's list.
use opentogethertube_cn.Common.{
  String, Bool, true, false, Option, some, List, [], ◌∷◌, ◌++◌, ◌==◌, ◌≡◌, ◌∙◌, ap, refl,
  if◌then◌else◌, or_else, eq_refl, ◌||◌, ◌&&◌, not,
}
use opentogethertube_cn.Common.Dict.{get, put, string_eq, get-put}
use opentogethertube_cn.Common.StringSet.{has, has-append, has-delete}
use opentogethertube_cn.Room.State.{ClientId}
use opentogethertube_cn.Clients.Joins.{
  enter, Client, Connections, checking_access, get_clients_in_room, on_client_disconnect,
  access_checked, disconnect_of,
}

pub disconnect-eq :
    (id : ClientId) (client : Client) (s : Connections)
    → has id s.connections ≡ true
    → get id s.clients ≡ some client
    → on_client_disconnect id s ≡ disconnect_of id client s
unfolding on_client_disconnect
disconnect-eq id client s here g = rw here (rw (g, on_client_disconnect) refl)

pub enter-eq :
    (id : ClientId) (old room : String) (s : Connections)
    → get id s.clients ≡ some (record { room = old; phase = checking_access room })
    → access_checked id true s ≡ enter id room s
unfolding access_checked
enter-eq id old room s g = rw (g, access_checked) refl

pub members-enter :
    (id : ClientId) (room : String) (s : Connections)
    → has id (get_clients_in_room room (enter id room s)) ≡ true
members-enter id room s =
    let ids = get_clients_in_room room s in
    let found : get room (put room (ids ++ id ∷ []) s.room_joins) ≡ some (ids ++ id ∷ []) =
      get-put room room (ids ++ id ∷ []) s.room_joins
      ∙ ap (λ (b : Bool). if b then some (ids ++ id ∷ []) else get room s.room_joins)
          (eq_refl room) in
    ap (λ (o : Option (List ClientId)). has id (or_else o [])) found
    ∙ has-append id id ids
    ∙ last (has id ids)
  where
    last : (b : Bool) → (b || id == id) ≡ true
    last true = refl
    last false = eq_refl id

-- A connected client that disconnects while its access is checked, and is then granted it, is no
-- longer connected, and stands in the list of the room.
pub access_checked-lost :
    (id : ClientId) (old room : String) (s : Connections)
    → has id s.connections ≡ true
    → get id s.clients ≡ some (record { room = old; phase = checking_access room })
    → let t = access_checked id true (on_client_disconnect id s) in
      (has id t.connections ≡ false) × (has id (get_clients_in_room room t) ≡ true)
access_checked-lost id old room s here g =
    let client : Client = record { room = old; phase = checking_access room } in
    let s' = disconnect_of id client s in
    let t : access_checked id true (on_client_disconnect id s) ≡ enter id room s' =
      ap (access_checked id true) (disconnect-eq id client s here g) ∙ enter-eq id old room s' g in
    (
      ap (λ (x : Connections). has id x.connections) t
          ∙ has-delete id id s.connections
          ∙ ap (λ (b : Bool). not b && has id s.connections) (eq_refl id),
      ap (λ (x : Connections). has id (get_clients_in_room room x)) t ∙ members-enter id room s',
    )
