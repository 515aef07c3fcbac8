-- ===== src/Voice/Selection.antt =====
-- server/voice-budget.ts, `selectRelayChannel`: the choice of a relay for a room. The requests for
-- credentials that one choice makes are all at the instants of the call.
pub mod States
pub mod Orders
pub mod Serves
use opentogethertube_cn.Common.{
  ℕ, ◌+◌, ◌%◌, String, Bool, true, false, not, Option, none, some, List, [], ◌∷◌, ◌++◌, ◌==◌, map,
  any, find, select, take, drop, length, leb, eqb, if◌then◌else◌,
}
use opentogethertube_cn.Common.Dict.{get, put, of_entries, string_eq}
use opentogethertube_cn.Voice.{IceServer, TurnEndpoint, TurnChannel}
use opentogethertube_cn.Voice.Credentials.{
  Time, Cloudflare, Credentials, get_channel_relay_ice_servers,
}
use opentogethertube_cn.Voice.Budget.{
  BudgetStore, VoiceEndpointState, VoiceChannelState, get_channel_states,
}

pub record RelaySelection : Type 0 where
  pub channel : TurnChannel
  pub endpoint : TurnEndpoint

-- The module's variables: `channelCursor` and `activeEndpoints`.
pub record RelayState : Type 0 where
  pub channel_cursor : ℕ
  pub active_endpoints : List (String × String)

abbrev pub Entry : Type 0
Entry = TurnChannel × VoiceChannelState

abbrev pub usage_of : Entry → ℕ
usage_of entry = entry.1.usage

abbrev pub with_state : TurnChannel → Option VoiceChannelState → List Entry → List Entry
with_state channel none rest = rest
with_state channel (some s) rest = if s.allowed then (channel, s) ∷ rest else rest

-- The channels whose state allows them, each with its state.
unfoldable pub allowed_entries : List VoiceChannelState → List TurnChannel → List Entry
allowed_entries states [] = []
allowed_entries states (c ∷ cs) =
    with_state c (find (λ (s : VoiceChannelState). s.id == c.id) states) (allowed_entries states cs)

-- `.sort((a, b) => a.state.usageMb - b.state.usageMb)`, which is stable.
unfoldable pub insert_by_usage : Entry → List Entry → List Entry
insert_by_usage x [] = x ∷ []
insert_by_usage x (y ∷ ys) =
    if leb (usage_of x) (usage_of y) then x ∷ y ∷ ys else y ∷ insert_by_usage x ys

unfoldable pub sort_by_usage : List Entry → List Entry
unfolding insert_by_usage
sort_by_usage [] = []
sort_by_usage (x ∷ xs) = insert_by_usage x (sort_by_usage xs)

unfoldable pub rotate : ℕ → List Entry → List Entry
rotate start xs = drop start xs ++ take start xs

-- The least used channels first, from the cursor on, then the others.
unfoldable pub order_channels : ℕ → List Entry → List Entry
unfolding rotate
order_channels cursor [] = []
order_channels cursor (first ∷ rest) =
    let least = λ (entry : Entry). eqb (usage_of entry) (usage_of first) in
    let least_used = select least (first ∷ rest) in
    rotate (cursor % length least_used) least_used
    ++ select (λ entry. not (least entry)) (first ∷ rest)

-- The active endpoint of the channel comes first.
unfoldable pub order_endpoints : Option String → List TurnEndpoint → List TurnEndpoint
order_endpoints none es = es
order_endpoints (some active) es =
    if active == ""
    then es
    else select (λ (e : TurnEndpoint). e.id == active) es
      ++ select (λ (e : TurnEndpoint). not (e.id == active)) es

abbrev pub by_endpoint : VoiceEndpointState → String × VoiceEndpointState
by_endpoint s = (s.endpoint_id, s)

unfoldable pub state_by_id : VoiceChannelState → List (String × VoiceEndpointState)
state_by_id s = of_entries (map by_endpoint s.endpoints) []

abbrev pub is_allowed : Option VoiceEndpointState → Bool
is_allowed none = false
is_allowed (some s) = s.allowed

abbrev pub serves : List IceServer → Bool
serves [] = false
serves (s ∷ ss) = true

-- A request for the servers of an endpoint of a channel.
abbrev pub Ask : Type 0
Ask = String → String → Credentials → List IceServer × Credentials

abbrev pub take_if_served :
    TurnEndpoint
    → List IceServer × Credentials
    → (Credentials → Option TurnEndpoint × Credentials)
    → Option TurnEndpoint × Credentials
take_if_served e (servers, c) next = if serves servers then (some e, c) else next c

unfoldable pub try_endpoints :
    Ask
    → TurnChannel
    → List (String × VoiceEndpointState)
    → List TurnEndpoint
    → Credentials
    → Option TurnEndpoint × Credentials
try_endpoints ask channel states [] c = (none, c)
try_endpoints ask channel states (e ∷ es) c =
    let next = try_endpoints ask channel states es in
    if is_allowed (get e.id states) then take_if_served e (ask channel.id e.id c) next else next c

abbrev pub take_endpoint :
    TurnChannel
    → Option TurnEndpoint × Credentials
    → (Credentials → Option RelaySelection × Credentials)
    → Option RelaySelection × Credentials
take_endpoint channel (some e, c) next = (some (record { channel = channel; endpoint = e }), c)
take_endpoint channel (none, c) next = next c

unfoldable pub try_channels :
    Ask → List (String × String) → List Entry → Credentials → Option RelaySelection × Credentials
try_channels ask active [] c = (none, c)
try_channels ask active ((channel, s) ∷ entries) c =
    take_endpoint channel
      (try_endpoints ask channel (state_by_id s)
        (order_endpoints (get channel.id active) channel.endpoints) c)
      (try_channels ask active entries)

-- A choice becomes the active endpoint of its channel, and moves the cursor.
abbrev pub note_choice : Option RelaySelection → RelayState → RelayState
note_choice none relay = relay
note_choice (some s) relay = record {
  channel_cursor = relay.channel_cursor + 1;
  active_endpoints = put s.channel.id s.endpoint.id relay.active_endpoints;
}

unfoldable pub ask_relay : Cloudflare → Time → Time → ℕ → List TurnChannel → Ask
ask_relay fetch now later ttl channels channel_id endpoint_id c =
    get_channel_relay_ice_servers fetch now later ttl channels channel_id (some endpoint_id) c

unfoldable pub relay_order : BudgetStore → List TurnChannel → RelayState → List Entry
relay_order store channels relay =
    order_channels relay.channel_cursor
      (sort_by_usage (allowed_entries (get_channel_states store channels) channels))

unfoldable pub select_relay_channel :
    Ask
    → BudgetStore
    → List TurnChannel
    → RelayState
    → Credentials
    → Option RelaySelection × RelayState × Credentials
unfolding relay_order
select_relay_channel ask store channels relay c =
    let (chosen, c') =
      try_channels ask relay.active_endpoints (relay_order store channels relay) c in
    (chosen, note_choice chosen relay, c')
