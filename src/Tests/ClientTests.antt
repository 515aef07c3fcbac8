-- ===== src/Tests/ClientTests.antt =====
-- The theorems on connections: a chatty one, a second talker in a room with a limit, a client that comes
-- into a room, and one that leaves too early.
use opentogethertube_cn.Common.{
  ℕ, ◌≡◌, refl, length, zero, suc, true, false, none, some, List, [], ◌∷◌, arith,
}
use opentogethertube_cn.Common.Dict.{get, put, string_eq}
use opentogethertube_cn.Common.StringSet.{has, add}
use opentogethertube_cn.Clients.Budget.Rate.{Arrival, chats_passed}
use opentogethertube_cn.Clients.Presence.{
  VoiceEnv, VoiceClient, VoiceState, set_voice_presence, talkers, decide_join, join_if,
}
use opentogethertube_cn.Room.State.{ClientId}
use opentogethertube_cn.Clients.Presence.Races.{join_if-exceeds}
use opentogethertube_cn.Clients.Presence.Limits.{IsWithin}
use opentogethertube_cn.Clients.Presence.Within.{quiet, presence, nobody, VoiceReach-IsWithin}
use opentogethertube_cn.Clients.Joins.{
  Connections, add_client, begin_join, room_found, access_checked, on_client_disconnect,
  get_clients_in_room, checking_access,
}
use opentogethertube_cn.Clients.Joins.Seats.{IsRight}
use opentogethertube_cn.Clients.Joins.Connected.{
  JoinReach, start, connects, authenticates, finds, enters, nobody_connected, JoinReach-IsRight,
}
use opentogethertube_cn.Clients.Joins.Lost.{access_checked-lost}
use opentogethertube_cn.Tests.VoiceTests.{relay_channels, usage, always}
use opentogethertube_cn.Voice.Budget.{VoiceLimits}

-- Seven chat lines within a second.
abbrev lines : ℕ → ℕ → List Arrival
lines zero at = []
lines (suc n) at = record { at = at; is_chat = true } ∷ lines n at

abbrev flood : List Arrival
flood = lines 7 5000

five_lines : chats_passed none flood ≡ 5
unfolding chats_passed opentogethertube_cn.Clients.Budget.consume_message_budget
    opentogethertube_cn.Clients.Budget.take_token
five_lines = refl

abbrev two_talkers : VoiceLimits
two_talkers = record { max_participants_per_room = 2; max_concurrent_rooms = 1 }

abbrev voice_env : VoiceEnv
voice_env = record {
  enabled = true;
  limits = two_talkers;
  channels = relay_channels;
  store = usage;
  fetch = always;
  ttl = 86400;
  direct_ice_servers = [];
  now = 1000;
}

abbrev talker : ClientId → VoiceClient
talker id = record { id = id; room = "lounge"; is_joined = true }

abbrev one_talks : VoiceState
one_talks = (set_voice_presence voice_env (talker "ann") true nobody).1

VoiceReach-IsWithin_example :
    IsWithin two_talkers (set_voice_presence voice_env (talker "bob") true one_talks).1
VoiceReach-IsWithin_example =
    VoiceReach-IsWithin two_talkers (set_voice_presence voice_env (talker "bob") true one_talks).1 (
      presence voice_env (talker "bob") true one_talks refl
        (presence voice_env (talker "ann") true nobody refl quiet))

-- Bob and Eve join at once where there is room for one of them.
abbrev ann_talks : VoiceState
ann_talks = record nobody { participants = ("lounge", "ann" ∷ []) ∷ [] }

ann_alone :
    (has "bob" (talkers "lounge" ann_talks) ≡ false)
    × (has "eve" (add "bob" (talkers "lounge" ann_talks)) ≡ false)
    × (length (talkers "lounge" ann_talks) ≡ 1)
unfolding has add get
ann_alone = (refl, refl, refl)

join_if-exceeds_example :
    (let after =
        (join_if voice_env
          (talker "bob")
          (decide_join voice_env (talker "bob") ann_talks)
          ann_talks).1 in
      length (
        talkers "lounge"
          (join_if voice_env
            (talker "eve")
            (decide_join voice_env (talker "eve") ann_talks)
            after).1))
    ≡ 3
join_if-exceeds_example =
    join_if-exceeds voice_env "lounge" "bob" "eve" ann_talks (ground (arith, ann_alone.2))
      (ground (arith, ann_alone.2)) ann_alone.0 ann_alone.1

abbrev waiting : Connections
waiting =
    room_found "ann" (some "Lounge") (begin_join "ann" (add_client "ann" "lounge" nobody_connected))

waiting-JoinReach : JoinReach waiting
unfolding get
waiting-JoinReach =
    finds "ann" (some "Lounge") _
      (authenticates "ann" _ (connects "ann" "lounge" nobody_connected refl start))

ann_connected : has "ann" waiting.connections ≡ true
unfolding room_found begin_join add_client get has put
ann_connected = refl

ann_waits :
    get "ann" waiting.clients ≡ some (record { room = "lounge"; phase = checking_access "Lounge" })
unfolding room_found begin_join add_client get has put
ann_waits = refl

JoinReach-IsRight_example : IsRight (access_checked "ann" true waiting)
JoinReach-IsRight_example =
    JoinReach-IsRight (access_checked "ann" true waiting)
      (enters "ann" true waiting (λ _. ann_connected) waiting-JoinReach)

access_checked-lost_example :
    let t = access_checked "ann" true (on_client_disconnect "ann" waiting) in
    (has "ann" t.connections ≡ false) × (has "ann" (get_clients_in_room "Lounge" t) ≡ true)
access_checked-lost_example =
    access_checked-lost "ann" "lounge" "Lounge" waiting ann_connected ann_waits
