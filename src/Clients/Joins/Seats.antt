-- ===== src/Clients/Joins/Seats.antt =====
-- server/clientmanager.ts: who stands in the list of a room.
use opentogethertube_cn.Common.{
  String, Bool, true, some, ◌==◌, ◌≡◌, ◌≢◌, ◌∙◌, ap, sym, if◌then◌else◌, eq_iff, Bool-cases, inl,
  inr,
}
use opentogethertube_cn.Common.Dict.{get, put, string_eq, get-put}
use opentogethertube_cn.Common.StringSet.{has}
use opentogethertube_cn.Room.State.{ClientId}
use opentogethertube_cn.Clients.Joins.{
  Client, Connections, Phase, in_room, get_clients_in_room, with_phase,
}

abbrev pub seated : String → Client
seated room = record { room = room; phase = in_room }

-- The client is connected, and is in the room.
abbrev pub IsSeated : Connections → String → ClientId → Type 0
IsSeated s room id =
    (has id s.connections ≡ true)
    × (get id s.clients ≡ some (record { room = room; phase = in_room }))

-- Whoever is in the list of a room is connected, and in that room.
abbrev pub IsRight : Connections → Type 0
IsRight s =
    (room : String) (id : ClientId)
    → has id (get_clients_in_room room s) ≡ true
    → IsSeated s room id

abbrev pub IsNowhere : ClientId → Connections → Type 0
IsNowhere id s = (room : String) → get id s.clients ≢ some (seated room)

-- What is written for a client that is in no room leaves the others in theirs.
pub seat-put :
    (id m : ClientId) (client : Client) (room : String) (s : Connections)
    → IsNowhere id s
    → get m s.clients ≡ some (seated room)
    → get m (put id client s.clients) ≡ some (seated room)
seat-put id m client room s n g = elim (Bool-cases (id == m)) [
  | inl hit ↦
      let e : id ≡ m = (eq_iff id m).0 hit in
      absurd (n room (ap (λ (x : ClientId). get x s.clients) e ∙ g))
  | inr miss ↦
      get-put id m client s.clients
      ∙ ap (λ (b : Bool). if b then some client else get m s.clients) miss
      ∙ g
]

pub IsNowhere-of_phase :
    (id : ClientId) (client : Client) (s : Connections)
    → get id s.clients ≡ some client
    → client.phase ≢ in_room
    → IsNowhere id s
IsNowhere-of_phase id client s g p room h = p (phase_of (sym g ∙ h))
  where
    phase_of : some client ≡ some (seated room) → client.phase ≡ in_room
    phase_of e = let same : client ≡ seated room = cc in ap (λ (c : Client). c.phase) same

pub with_phase-IsRight :
    (id : ClientId) (client : Client) (phase : Phase) (s : Connections)
    → IsNowhere id s
    → IsRight s
    → IsRight (with_phase id client phase s)
with_phase-IsRight id client phase s n w = λ room m h.
    ((w room m h).0, seat-put id m (record client { phase = phase }) room s n (w room m h).1)
