-- ===== src/Clients/Presence.antt =====
-- server/clientmanager.ts, and `getVoiceIceServers` of server/voice.ts: who talks in which room, and
-- over which relay. A join waits for its decision: `decide_join` is what comes before the wait and
-- `join_if` what comes after it, by when others may have joined. `join_voice`, and with it
-- `set_voice_presence`, is their composition where nothing comes in between. A room whose talkers have all
-- left while a join waits is not modelled.
pub mod Races
pub mod Limits
pub mod Within
use opentogethertube_cn.Common.{
  ℕ, suc, String, Bool, true, false, not, Option, none, some, List, [], ◌∷◌, ◌++◌, ◌==◌, ◌&&◌, ◌||◌,
  any, find, map, length, ltb, if◌then◌else◌, or_else, is_some, starts_with,
}
use opentogethertube_cn.Common.Dict.{get, put, remove, string_eq}
use opentogethertube_cn.Common.StringSet.{has, add, delete}
use opentogethertube_cn.Room.State.{ClientId}
use opentogethertube_cn.Voice.{Urls, one, many, IceServer, TurnEndpoint, TurnChannel}
use opentogethertube_cn.Voice.Credentials.{
  Time, Cloudflare, Credentials, get_channel_relay_ice_servers, find_channel, first_endpoint,
}
use opentogethertube_cn.Voice.Budget.{
  BudgetStore, VoiceLimits, VoiceDeniedReason, VoiceJoinDecision, decide_voice_join, VoiceRoomUsage,
}
use opentogethertube_cn.Voice.Selection.{
  RelaySelection, RelayState, Ask, ask_relay, serves, select_relay_channel,
}

-- What the handlers read and do not change, at the instant of an event.
pub record VoiceEnv : Type 0 where
  pub enabled : Bool
  pub limits : VoiceLimits
  pub channels : List TurnChannel
  pub store : BudgetStore
  pub fetch : Cloudflare
  pub ttl : ℕ
  pub direct_ice_servers : List IceServer
  pub now : Time

-- `voiceParticipants`, `roomRelayChannels`, and the state of the modules below.
pub record VoiceState : Type 0 where
  pub participants : List (String × List ClientId)
  pub room_relays : List (String × RelaySelection)
  pub relay : RelayState
  pub credentials : Credentials

abbrev pub asks : VoiceEnv → Ask
asks env = ask_relay env.fetch env.now env.now env.ttl env.channels

-- The client of an event.
pub record VoiceClient : Type 0 where
  pub id : ClientId
  pub room : String
  pub is_joined : Bool

pub data Denial : Type 0 where
  disabled : Denial
  decided : VoiceDeniedReason → Denial

pub record VoiceMessage : Type 0 where
  pub participants : List ClientId
  pub ice_servers : List IceServer
  pub relay : Bool
  pub denied : Option Denial

-- To the client alone, or to all clients of the room.
pub data VoiceOutput : Type 0 where
  silent : VoiceOutput
  refused : VoiceMessage → VoiceOutput
  broadcast : VoiceMessage → VoiceOutput

abbrev pub urls_of : IceServer → List String
urls_of s = elim s.urls [ one url ↦ url ∷ [] | many urls ↦ urls ]

unfoldable pub has_turn_url : IceServer → Bool
has_turn_url s = any (λ url. starts_with url "turn:" || starts_with url "turns:") (urls_of s)

abbrev pub ids_of_channel : TurnChannel → List (String × String)
ids_of_channel channel = map (λ (e : TurnEndpoint). (channel.id, e.id)) channel.endpoints

unfoldable pub ids_of_channels : List TurnChannel → List (String × String)
ids_of_channels [] = []
ids_of_channels (c ∷ cs) = ids_of_channel c ++ ids_of_channels cs

abbrev pub served_or :
    List IceServer × Credentials
    → (Credentials → List IceServer × Credentials)
    → List IceServer × Credentials
served_or (servers, c) next = if serves servers then (servers, c) else next c

-- The first endpoint of any channel that serves.
unfoldable pub first_served :
    Ask → List (String × String) → Credentials → List IceServer × Credentials
first_served ask [] c = ([], c)
first_served ask ((channel_id, endpoint_id) ∷ ids) c =
    served_or (ask channel_id endpoint_id c) (first_served ask ids)

abbrev pub after_direct :
    List IceServer → List IceServer × Credentials → List IceServer × Credentials
after_direct direct (servers, c) = (direct ++ servers, c)

abbrev pub endpoint_or_first : Option String → TurnChannel → Option String
endpoint_or_first (some id) channel = some id
endpoint_or_first none channel = elim (first_endpoint channel.endpoints) [
  | none ↦ none
  | some e ↦ some e.id
]

abbrev pub from_channel :
    VoiceEnv → Option TurnChannel → Option String → Credentials → List IceServer × Credentials
from_channel env none endpoint_id c = (env.direct_ice_servers, c)
from_channel env (some channel) endpoint_id c = after_direct env.direct_ice_servers (
    get_channel_relay_ice_servers env.fetch env.now env.now env.ttl env.channels channel.id
      (endpoint_or_first endpoint_id channel) c)

abbrev pub from_any_channel : VoiceEnv → Credentials → List IceServer × Credentials
from_any_channel env c =
    after_direct env.direct_ice_servers (first_served (asks env) (ids_of_channels env.channels) c)

-- Without a relay the clients get the direct servers only. An empty id counts as none.
unfoldable pub get_voice_ice_servers :
    VoiceEnv → Bool → Option String → Option String → Credentials → List IceServer × Credentials
get_voice_ice_servers env false channel_id endpoint_id c = (env.direct_ice_servers, c)
get_voice_ice_servers env true none endpoint_id c = from_any_channel env c
get_voice_ice_servers env true (some id) endpoint_id c =
    if id == ""
    then from_any_channel env c
    else from_channel env (find_channel id env.channels) endpoint_id c

abbrev pub channel_id_of : Option RelaySelection → Option String
channel_id_of none = none
channel_id_of (some s) = some s.channel.id

abbrev pub endpoint_id_of : Option RelaySelection → Option String
endpoint_id_of none = none
endpoint_id_of (some s) = some s.endpoint.id

abbrev pub voice_message :
    List ClientId
    → Bool
    → Option Denial
    → List IceServer × Credentials
    → VoiceState
    → VoiceMessage × VoiceState
voice_message ids relayed denied (servers, c) s = (
  record {
    participants = ids;
    ice_servers = servers;
    relay = relayed && any has_turn_url servers;
    denied = denied;
  },
  record s { credentials = c },
)

unfoldable pub build_voice_message :
    VoiceEnv
    → String
    → Option RelaySelection
    → Option Denial
    → VoiceState
    → VoiceMessage × VoiceState
build_voice_message env room selection denied s =
    voice_message (or_else (get room s.participants) []) (is_some selection) denied
      (get_voice_ice_servers env (is_some selection) (channel_id_of selection)
        (endpoint_id_of selection) s.credentials)
      s

abbrev pub note_relay :
    String
    → Option RelaySelection × RelayState × Credentials
    → VoiceState
    → Option RelaySelection × VoiceState
note_relay room (none, relay, c) s = (none, record s { relay = relay; credentials = c })
note_relay room (some chosen, relay, c) s = (
  some chosen,
  record s { relay = relay; credentials = c; room_relays = put room chosen s.room_relays },
)

-- A room keeps its relay while someone talks in it.
unfoldable pub get_room_relay_channel :
    VoiceEnv → String → VoiceState → Option RelaySelection × VoiceState
get_room_relay_channel env room s = elim (get room s.room_relays) [
  | some existing ↦ (some existing, s)
  | none ↦
      note_relay room (select_relay_channel (asks env) env.store env.channels s.relay s.credentials)
        s
]

-- How many other rooms have someone in voice.
unfoldable pub other_voice_rooms : String → List (String × List ClientId) → ℕ
other_voice_rooms room [] = 0
other_voice_rooms room ((name, ids) ∷ m) =
    let others = other_voice_rooms room m in
    if not (name == room) && ltb 0 (length ids) then suc others else others

abbrev pub talkers : String → VoiceState → List ClientId
talkers room s = or_else (get room s.participants) []

unfoldable pub forget_voice_room : String → VoiceState → VoiceState
forget_voice_room room s = record s {
  participants = remove room s.participants;
  room_relays = remove room s.room_relays;
}

-- A room with nobody in voice is forgotten.
unfoldable pub keep_talkers : String → List ClientId → VoiceState → VoiceState
unfolding forget_voice_room
keep_talkers room [] s = forget_voice_room room s
keep_talkers room (id ∷ ids) s = record s { participants = put room (id ∷ ids) s.participants }

abbrev pub refuse : VoiceMessage × VoiceState → VoiceOutput × VoiceState
refuse (message, s) = (refused message, s)

abbrev pub announce : VoiceMessage × VoiceState → VoiceOutput × VoiceState
announce (message, s) = (broadcast message, s)

abbrev pub announce_over :
    VoiceEnv → String → Option RelaySelection × VoiceState → VoiceOutput × VoiceState
announce_over env room (selection, s) = announce (build_voice_message env room selection none s)

abbrev pub announce_talkers :
    VoiceEnv → String → List ClientId → VoiceState → VoiceOutput × VoiceState
announce_talkers env room [] s = announce_over env room (none, s)
announce_talkers env room (id ∷ ids) s = announce_over env room (get_room_relay_channel env room s)

-- The end of the handler: the room has these talkers now.
unfoldable pub change_talkers :
    VoiceEnv → String → List ClientId → VoiceState → VoiceOutput × VoiceState
unfolding get_room_relay_channel build_voice_message
change_talkers env room ids s = announce_talkers env room ids (keep_talkers room ids s)

abbrev pub reason_of : VoiceJoinDecision → Denial
reason_of d = elim d.reason [ none ↦ disabled | some reason ↦ decided reason ]

-- A set that was made only for a refused join is dropped.
abbrev pub drop_if_empty : String → List ClientId → VoiceState → VoiceState
drop_if_empty room [] s = forget_voice_room room s
drop_if_empty room (id ∷ ids) s = s

abbrev pub join_if :
    VoiceEnv → VoiceClient → VoiceJoinDecision → VoiceState → VoiceOutput × VoiceState
join_if env client decision s =
    if decision.allowed
    then change_talkers env client.room (add client.id (talkers client.room s)) s
    else refuse (
        build_voice_message env client.room none (some (reason_of decision))
          (drop_if_empty client.room (talkers client.room s) s))

-- What `setVoicePresence` reads before it waits, and the decision that it waits for.
abbrev pub decide_join : VoiceEnv → VoiceClient → VoiceState → VoiceJoinDecision
decide_join env client s =
    let ids = talkers client.room s in
    decide_voice_join env.limits env.channels (length ids) (ltb 0 (length ids))
      (other_voice_rooms client.room s.participants)

unfoldable pub join_voice : VoiceEnv → VoiceClient → VoiceState → VoiceOutput × VoiceState
join_voice env client s = join_if env client (decide_join env client s) s

abbrev pub refuse_disabled : VoiceEnv → VoiceClient → Bool → VoiceState → VoiceOutput × VoiceState
refuse_disabled env client false s = (silent, s)
refuse_disabled env client true s =
    refuse (build_voice_message env client.room none (some disabled) s)

abbrev pub set_presence : VoiceEnv → VoiceClient → Bool → VoiceState → VoiceOutput × VoiceState
set_presence env client false s =
    change_talkers env client.room (delete client.id (talkers client.room s)) s
set_presence env client true s =
    if has client.id (talkers client.room s)
    then change_talkers env client.room (talkers client.room s) s
    else join_voice env client s

unfoldable pub set_voice_presence :
    VoiceEnv → VoiceClient → Bool → VoiceState → VoiceOutput × VoiceState
unfolding join_voice change_talkers
set_voice_presence env client joined s =
    if env.enabled && client.is_joined
    then set_presence env client joined s
    else refuse_disabled env client joined s

-- A connection that is gone.
unfoldable pub remove_from_voice : VoiceEnv → VoiceClient → VoiceState → VoiceOutput × VoiceState
unfolding change_talkers
remove_from_voice env client s =
    if has client.id (talkers client.room s)
    then change_talkers env client.room (delete client.id (talkers client.room s)) s
    else (silent, s)

-- The id of the one client that a signal goes to: sender and target talk in one room. `target_room` is
-- the room of the target's connection, if there is one.
unfoldable pub relay_voice_signal :
    VoiceClient → ClientId → Option String → VoiceState → Option ClientId
relay_voice_signal client to none s = none
relay_voice_signal client to (some target_room) s =
    let ids = talkers client.room s in
    if (has client.id ids && has to ids) && target_room == client.room then some to else none

abbrev pub usage_of_room : VoiceState → String × List ClientId → VoiceRoomUsage
usage_of_room s (room, ids) =
    let selection = get room s.room_relays in
    record {
      participants = length ids;
      channel_id = channel_id_of selection;
      endpoint_id = endpoint_id_of selection;
    }

-- What the timer hands to `recordUsage`.
unfoldable pub voice_usage : VoiceState → List VoiceRoomUsage
voice_usage s = map (usage_of_room s) s.participants
