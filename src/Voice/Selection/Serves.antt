-- ===== src/Voice/Selection/Serves.antt =====
-- server/voice-budget.ts, `selectRelayChannel`: a relay that is chosen has quota and serves, and none is
-- chosen only where no endpoint with quota serves.
use opentogethertube_cn.Common.{
  ◌≡◌, ◌∙◌, refl, sym, ap, subst, String, Bool, true, false, Option, none, some, List, [], ◌∷◌, map,
  if◌then◌else◌, if_split, inl, inr, eq_refl, Memᴰ,
}
use mathlib.Core.Bool.{true≢false}
use mathlib.Core.List.Memᴰ
use opentogethertube_cn.Common.Dict.{get, string_eq, get-put}
use opentogethertube_cn.Common.Members.{any_of_mem}
use opentogethertube_cn.Voice.{TurnEndpoint, TurnChannel}
use opentogethertube_cn.Voice.Credentials.{Credentials}
use opentogethertube_cn.Voice.Budget.{
  BudgetStore, VoiceEndpointState, VoiceChannelState, channel_state, endpoint_state,
}
use opentogethertube_cn.Voice.Selection.{
  RelaySelection, RelayState, Entry, order_endpoints, state_by_id, is_allowed, serves, Ask,
  take_if_served, try_endpoints, take_endpoint, try_channels, note_choice, relay_order,
  select_relay_channel,
}
use opentogethertube_cn.Voice.Selection.States.{
  HasQuota, HasDistinctIds, EachDistinct-mem, allowed→HasQuota, HasQuota→allowed,
  find-channel_state, states_of, get-endpoint_state,
}
use opentogethertube_cn.Voice.Selection.Orders.{
  mem_of_order_endpoints, mem-order_endpoints, mem_of_relay_order, mem-relay_order,
}

-- At some point of the choice, a request for the endpoint's servers was answered so.
abbrev pub Answered : Ask → TurnChannel → TurnEndpoint → Bool → Type 0
Answered ask c e b = (held : Credentials) × (serves (ask c.id e.id held).0 ≡ b)

module _ (ask : Ask) where
  -- What a pass over the endpoints finds.
  abbrev EndpointsTried :
      TurnChannel
      → List (String × VoiceEndpointState)
      → List TurnEndpoint
      → Option TurnEndpoint
      → Type 0
  EndpointsTried c states es (some e) =
      Memᴰ e es × (is_allowed (get e.id states) ≡ true) × Answered ask c e true
  EndpointsTried c states es none =
      (e : TurnEndpoint) → Memᴰ e es → is_allowed (get e.id states) ≡ true → Answered ask c e false

  EndpointsTried-cons :
      (c : TurnChannel) (states : List (String × VoiceEndpointState)) (e : TurnEndpoint)
      (es : List TurnEndpoint) (o : Option TurnEndpoint)
      → (is_allowed (get e.id states) ≡ true → Answered ask c e false)
      → EndpointsTried c states es o
      → EndpointsTried c states (e ∷ es) o
  EndpointsTried-cons c states e es (some x) h t = (Memᴰ.tail t.0, t.1, t.2)
  EndpointsTried-cons c states e es none h t = λ x m a. elim (Memᴰ.cases_cons m) [
    | inl p ↦
        subst (λ (y : TurnEndpoint). Answered ask c y false) (sym p)
          (h (subst (λ (y : TurnEndpoint). is_allowed (get y.id states) ≡ true) p a))
    | inr u ↦ t x u a
  ]

  try_endpoints-tries :
      (c : TurnChannel) (states : List (String × VoiceEndpointState)) (es : List TurnEndpoint)
      (held : Credentials)
      → EndpointsTried c states es (try_endpoints ask c states es held).0
  unfolding try_endpoints
  try_endpoints-tries c states [] held = λ e m a. elim m [ ]
  try_endpoints-tries c states (e ∷ es) held =
      if_split (λ (r : Option TurnEndpoint × Credentials). EndpointsTried c states (e ∷ es) r.0)
        (is_allowed (get e.id states))
        (take_if_served e (ask c.id e.id held) (try_endpoints ask c states es))
        (try_endpoints ask c states es held)
        (λ allowed.
          if_split (λ (r : Option TurnEndpoint × Credentials). EndpointsTried c states (e ∷ es) r.0)
            (serves (ask c.id e.id held).0) (some e, (ask c.id e.id held).1)
            (try_endpoints ask c states es (ask c.id e.id held).1)
            (λ served. (Memᴰ.head refl, allowed, (held, served)))
            (λ unserved.
              EndpointsTried-cons c states e es _ (λ _. (held, unserved))
                (try_endpoints-tries c states es (ask c.id e.id held).1)))
        (λ denied.
          EndpointsTried-cons c states e es _
            (λ allowed. absurd (true≢false (sym allowed ∙ denied)))
            (try_endpoints-tries c states es held))

  -- What a pass over the channels finds, each with the states of its endpoints.
  abbrev ChannelsTried : List Entry → Option RelaySelection → Type 0
  ChannelsTried entries (some s) =
      (state : VoiceChannelState) × Memᴰ (s.channel, state) entries
      × Memᴰ s.endpoint s.channel.endpoints
      × (is_allowed (get s.endpoint.id (state_by_id state)) ≡ true)
      × Answered ask s.channel s.endpoint true
  ChannelsTried entries none =
      (c : TurnChannel) (state : VoiceChannelState)
      → Memᴰ (c, state) entries
      → (e : TurnEndpoint) → Memᴰ e c.endpoints
      → is_allowed (get e.id (state_by_id state)) ≡ true
      → Answered ask c e false

  ChannelsTried-cons :
      (x : Entry) (entries : List Entry) (active : Option String) (o : Option RelaySelection)
      → EndpointsTried x.0 (state_by_id x.1) (order_endpoints active x.0.endpoints) none
      → ChannelsTried entries o
      → ChannelsTried (x ∷ entries) o
  ChannelsTried-cons x entries active (some s) h (state, m, n, a, w) = (state, Memᴰ.tail m, n, a, w)
  ChannelsTried-cons x entries active none h t = λ c state m. elim (Memᴰ.cases_cons m) [
    | inl p ↦
        subst
          (λ (y : Entry).
            (e : TurnEndpoint)
            → Memᴰ e y.0.endpoints
            → is_allowed (get e.id (state_by_id y.1)) ≡ true
            → Answered ask y.0 e false)
          (sym p) (λ e u. h e (mem-order_endpoints active x.0.endpoints u))
    | inr u ↦ t c state u
  ]

  try_channels-tries :
      (active : List (String × String)) (entries : List Entry) (held : Credentials)
      → ChannelsTried entries (try_channels ask active entries held).0
  unfolding try_channels
  try_channels-tries active [] held = λ c state m. elim m [ ]
  try_channels-tries active ((c, state) ∷ entries) held =
      let es = order_endpoints (get c.id active) c.endpoints in
      found (try_channels-tries active entries) (try_endpoints ask c (state_by_id state) es held)
        (try_endpoints-tries c (state_by_id state) es held)
    where
      found :
          ((h : Credentials) → ChannelsTried entries (try_channels ask active entries h).0)
          → (r : Option TurnEndpoint × Credentials)
          → EndpointsTried c (state_by_id state) (order_endpoints (get c.id active) c.endpoints) r.0
          → ChannelsTried
              ((c, state) ∷ entries)
              (take_endpoint c r (try_channels ask active entries)).0
      found ih (some e, h) (m, a, served) =
          (state, Memᴰ.head refl, mem_of_order_endpoints (get c.id active) c.endpoints m, a, served)
      found ih (none, h) t = ChannelsTried-cons (c, state) entries (get c.id active) _ t (ih h)

-- A relay that is chosen is configured, has quota and served; it is now the active endpoint of its
-- channel. Where none is chosen, every configured endpoint with quota was asked and had no servers.
abbrev pub IsChoice :
    Ask
    → BudgetStore
    → List TurnChannel
    → RelayState
    → Option RelaySelection × RelayState × Credentials
    → Type 0
IsChoice ask store channels relay (some s, relay', held) =
    Memᴰ s.channel channels
    × Memᴰ s.endpoint s.channel.endpoints
    × HasQuota store s.channel.id s.endpoint
    × Answered ask s.channel s.endpoint true
    × (get s.channel.id relay'.active_endpoints ≡ some s.endpoint.id)
IsChoice ask store channels relay (none, relay', held) =
    ((c : TurnChannel) (e : TurnEndpoint)
      → Memᴰ c channels
      → Memᴰ e c.endpoints
      → HasQuota store c.id e
      → Answered ask c e false)
    × (relay' ≡ relay)

module _ (ask : Ask) (store : BudgetStore) (channels : List TurnChannel) (relay : RelayState)
    (d : HasDistinctIds channels) where
  own_state :
      (c : TurnChannel) (e : TurnEndpoint)
      → Memᴰ c channels
      → Memᴰ e c.endpoints
      → get e.id (states_of store c) ≡ some (endpoint_state store c.id e)
  own_state c e m n =
      get-endpoint_state store c e (EachDistinct-mem channels c d.endpoints_differ m) n

  channel_allowed :
      (c : TurnChannel) (e : TurnEndpoint)
      → Memᴰ e c.endpoints
      → HasQuota store c.id e
      → (channel_state store c).allowed ≡ true
  unfolding channel_state
  channel_allowed c e m q =
      any_of_mem (λ (s : VoiceEndpointState). s.allowed)
        (map (endpoint_state store c.id) c.endpoints) (endpoint_state store c.id e)
        (Memᴰ.map (endpoint_state store c.id) m) (HasQuota→allowed store c.id e q)

  tried-IsChoice :
      (o : Option RelaySelection) (held : Credentials)
      → ChannelsTried ask (relay_order store channels relay) o
      → IsChoice ask store channels relay (o, note_choice o relay, held)
  tried-IsChoice none held t = (
    (λ c e m n q.
        t c (channel_state store c)
          (mem-relay_order store channels relay c (channel_state store c) m
            (find-channel_state store channels c d.channels_differ m) (channel_allowed c e n q))
          e n (ap is_allowed (own_state c e m n) ∙ HasQuota→allowed store c.id e q)),
    refl,
  )
  tried-IsChoice (some s) held (state, m, n, a, served) =
      let (mc, found) = mem_of_relay_order store channels relay s.channel state m in
      let same : some (channel_state store s.channel) ≡ some state =
        sym (find-channel_state store channels s.channel d.channels_differ mc) ∙ found in
      let own : state ≡ channel_state store s.channel = cc in
      let state_allowed : is_allowed (get s.endpoint.id (states_of store s.channel)) ≡ true =
        rw (← own) a in
      (
        mc,
        n,
        allowed→HasQuota store s.channel.id s.endpoint
            (sym (ap is_allowed (own_state s.channel s.endpoint mc n)) ∙ state_allowed),
        served,
        get-put s.channel.id s.channel.id s.endpoint.id relay.active_endpoints
            ∙ ap
                (λ (b : Bool).
                  if b then some s.endpoint.id else get s.channel.id relay.active_endpoints)
                (eq_refl s.channel.id),
      )

  -- With distinct ids of the channels and of the endpoints of each channel, the choice of a relay finds
  -- an endpoint with quota that serves, and notes it as active; or there is none: every endpoint with
  -- quota was asked and had no servers, and nothing is noted.
  pub select_relay_channel-IsChoice :
      (held : Credentials)
      → IsChoice ask store channels relay (select_relay_channel ask store channels relay held)
  unfolding select_relay_channel
  select_relay_channel-IsChoice held =
      let r = try_channels ask relay.active_endpoints (relay_order store channels relay) held in
      tried-IsChoice r.0 r.1
        (try_channels-tries ask relay.active_endpoints (relay_order store channels relay) held)
