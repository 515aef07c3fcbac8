-- ===== src/Tests/VoiceTests.antt =====
-- The theorems on the voice chat, on two accounts of which the first is used up.
use opentogethertube_cn.Common.{
  ℕ, ◌+◌, ◌≡◌, ◌≢◌, refl, String, none, some, List, [], ◌∷◌, arith, ◌==◌, if◌then◌else◌, ◌&&◌,
  eq_iff, sym, ◌∙◌, false,
}
use mathlib.Core.Bool.{false≢true}
use opentogethertube_cn.Voice.{IceServer, one, TurnEndpoint, TurnChannel, cloudflare}
use opentogethertube_cn.Voice.Credentials.{
  Cloudflare, Credentials, no_credentials, begin_refresh, get_cloudflare_turn_ice_servers,
  get_cloudflare_turn_ttl_seconds,
}
use opentogethertube_cn.Voice.Credentials.Lifetime.{
  start, begins, IsCurrentFor, get_cloudflare_turn_ice_servers-IsCurrentFor,
}
use opentogethertube_cn.Voice.Budget.{BudgetStore, VoiceRoomUsage}
use opentogethertube_cn.Voice.Budget.Usage.{Counters, total}
use opentogethertube_cn.Voice.Selection.{Ask, RelayState, ask_relay, select_relay_channel}
use opentogethertube_cn.Voice.Selection.States.{HasDistinctIds}
use opentogethertube_cn.Voice.Selection.Serves.{IsChoice, select_relay_channel-IsChoice}

abbrev pub turn_server : IceServer
turn_server = record { urls = one "turn:turn.example"; username = some "u"; credential = some "c" }

abbrev pub account : String → String → TurnEndpoint
account id key = record {
  id = id;
  monthly_limit_mb = 700000;
  key_id = some key;
  api_token = some "t";
  static_ice_servers = none;
}

abbrev pub relay_channels : List TurnChannel
relay_channels =
    record { id = "a"; kind = cloudflare; endpoints = account "one" "k1" ∷ account "two" "k2" ∷ [] }
    ∷ record { id = "b"; kind = cloudflare; endpoints = account "one" "k3" ∷ [] }
    ∷ []

abbrev pub always : Cloudflare
always now ttl e = some (turn_server ∷ [])

-- 700 GB on the first account of channel `a`, one byte elsewhere.
abbrev pub usage : BudgetStore
usage = record {
  estimated = λ c e. some 1;
  actual = λ c e. some (if (c == "a") && (e == "one") then some 700000000000 else none);
}

abbrev idle_relay : RelayState
idle_relay = record { channel_cursor = 0; active_endpoints = [] }

abbrev asking : Ask
asking = ask_relay always 1000 1000 86400 relay_channels

texts_differ : (a b : String) → (a == b) ≡ false → a ≢ b
texts_differ a b miss e = false≢true (sym miss ∙ (eq_iff a b).1 e)

relay_channels-HasDistinctIds : HasDistinctIds relay_channels
relay_channels-HasDistinctIds = record {
  channels_differ = ((texts_differ "b" "a" refl, tt), (tt, tt));
  endpoints_differ = (((texts_differ "two" "one" refl, tt), (tt, tt)), ((tt, tt), tt));
}

select_relay_channel-IsChoice_example :
    IsChoice asking usage relay_channels idle_relay
      (select_relay_channel asking usage relay_channels idle_relay no_credentials)
select_relay_channel-IsChoice_example =
    select_relay_channel-IsChoice asking usage relay_channels idle_relay
      relay_channels-HasDistinctIds no_credentials

abbrev channel_a : TurnChannel
channel_a = record { id = "a"; kind = cloudflare; endpoints = account "one" "k1" ∷ [] }

-- A fetch for the key k0 is in flight when the endpoint has got the key k1.
abbrev day : ℕ
day = get_cloudflare_turn_ttl_seconds none

abbrev in_flight : Credentials
in_flight = (begin_refresh day channel_a (account "one" "k0") no_credentials).1

get_cloudflare_turn_ice_servers-IsCurrentFor_example :
    IsCurrentFor always 1000 channel_a
      (account "one" "k1")
      in_flight
      (get_cloudflare_turn_ice_servers always 1000 2000 day channel_a
        (account "one" "k1")
        in_flight).0
get_cloudflare_turn_ice_servers-IsCurrentFor_example =
    get_cloudflare_turn_ice_servers-IsCurrentFor always 1000 2000 none channel_a
      (account "one" "k1") in_flight
      (begins none channel_a (account "one" "k0") no_credentials start) (omega arith)

abbrev calls : List VoiceRoomUsage
calls =
    record { participants = 3; channel_id = some "a"; endpoint_id = some "one" }
    ∷ record { participants = 2; channel_id = some "a"; endpoint_id = none }
    ∷ record { participants = 2; channel_id = some "a"; endpoint_id = some "one" }
    ∷ []

-- Counters that add up every write to an account.
abbrev Log : Type 0
Log = List (String × String × ℕ)

abbrev log_counted : String → String → Log → ℕ
log_counted c e [] = 0
log_counted c e ((c', e', n) ∷ log) =
    log_counted c e log + (if (c' == c) && (e' == e) then n else 0)

abbrev log_counters : Counters Log
log_counters = record {
  add_bytes = λ c e n log. (c, e, n) ∷ log;
  counted = log_counted;
  counted-add_bytes = λ c e c' e' n log. refl;
}

counted_bytes : total 32 30 "a" "one" calls ≡ 960000
counted_bytes = refl
