-- ===== src/Voice/Credentials.antt =====
-- server/voice.ts: the credentials that a relay gets from Cloudflare, their cache, and the servers of a
-- relay. A fetch runs while other calls go on: `begin_refresh` starts it and `finish_refresh` is what
-- follows its answer, which is an argument, `none` where `fetchCloudflareTurnIceServers` throws.
pub mod Lifetime
use opentogethertube_cn.Common.{
  ℕ, ◌+◌, ◌*◌, String, Bool, true, false, Option, none, some, List, [], ◌∷◌, ◌&&◌, ◌==◌, ltb, eqb,
  find, if◌then◌else◌, or_else,
}
use opentogethertube_cn.Common.Dict.{get, put, remove, string_eq}
use opentogethertube_cn.Voice.{IceServer, TurnEndpoint, TurnChannel}
use Prim.Native.String.{◌++◌}

-- Milliseconds.
abbrev pub Time : Type 0
Time = ℕ

abbrev pub cloudflare_turn_min_ttl_seconds : ℕ
cloudflare_turn_min_ttl_seconds = 300

abbrev pub cloudflare_turn_max_ttl_seconds : ℕ
cloudflare_turn_max_ttl_seconds = 172800

abbrev pub cloudflare_turn_default_ttl_seconds : ℕ
cloudflare_turn_default_ttl_seconds = 86400

abbrev pub cloudflare_turn_failure_cooldown_ms : ℕ
cloudflare_turn_failure_cooldown_ms = 30000

-- A configured number of seconds, `none` where it is not finite.
unfoldable pub get_cloudflare_turn_ttl_seconds : Option ℕ → ℕ
get_cloudflare_turn_ttl_seconds configured =
    let effective = or_else configured cloudflare_turn_default_ttl_seconds in
    let raised =
      if ltb effective cloudflare_turn_min_ttl_seconds
      then cloudflare_turn_min_ttl_seconds
      else effective in
    if ltb cloudflare_turn_max_ttl_seconds raised then cloudflare_turn_max_ttl_seconds else raised

pub record CloudflareTurnCache : Type 0 where
  pub channel_id : String
  pub endpoint_id : String
  pub key_id : String
  pub ttl_seconds : ℕ
  pub ice_servers : List IceServer
  pub refresh_at : Time
  pub expires_at : Time

pub record Failure : Type 0 where
  pub key_id : String
  pub until : Time

-- A fetch in flight: what it was started for.
pub record Fetch : Type 0 where
  pub channel : TurnChannel
  pub endpoint : TurnEndpoint
  pub ttl_seconds : ℕ

-- The module's maps: `cloudflareCaches`, `cloudflareFetches`, and `cloudflareFailures`.
pub record Credentials : Type 0 where
  pub caches : List (String × CloudflareTurnCache)
  pub fetches : List (String × Fetch)
  pub failures : List (String × Failure)

abbrev pub no_credentials : Credentials
no_credentials = record { caches = []; fetches = []; failures = [] }

unfoldable pub endpoint_cache_key : String → String → String
endpoint_cache_key channel_id endpoint_id = channel_id ++ ":" ++ endpoint_id

-- `stored === endpoint.keyId`
abbrev pub same_key : String → Option String → Bool
same_key stored none = false
same_key stored (some key) = stored == key

-- What a call does with the cache: it answers at once, perhaps with a refresh in the background, or it
-- waits for a fetch.
pub data Lookup : Type 0 where
  served : List IceServer → Lookup
  served_while_refreshing : List IceServer → Lookup
  refused : Lookup
  awaited : Lookup

abbrev pub cache_matches : ℕ → TurnEndpoint → CloudflareTurnCache → Bool
cache_matches ttl e c = same_key c.key_id e.key_id && eqb c.ttl_seconds ttl

abbrev pub failed_lately : Time → TurnEndpoint → Failure → Bool
failed_lately now e f = same_key f.key_id e.key_id && ltb now f.until

abbrev pub retry : Time → TurnEndpoint → Option Failure → Lookup
retry now e none = awaited
retry now e (some f) = if failed_lately now e f then refused else awaited

abbrev pub serve : Time → ℕ → TurnEndpoint → Option CloudflareTurnCache → Lookup → Lookup
serve now ttl e none otherwise = otherwise
serve now ttl e (some c) otherwise =
    if cache_matches ttl e c && ltb now c.refresh_at
    then served c.ice_servers
    else if cache_matches ttl e c && ltb now c.expires_at
    then served_while_refreshing c.ice_servers
    else otherwise

unfoldable pub lookup_credentials : Time → ℕ → TurnChannel → TurnEndpoint → Credentials → Lookup
lookup_credentials now ttl channel e c =
    let key = endpoint_cache_key channel.id e.id in
    serve now ttl e (get key c.caches) (retry now e (get key c.failures))

abbrev pub start_unless :
    Option Fetch → ℕ → TurnChannel → TurnEndpoint → Credentials → Fetch × Credentials
start_unless (some existing) ttl channel e c = (existing, c)
start_unless none ttl channel e c =
    let started : Fetch = record { channel = channel; endpoint = e; ttl_seconds = ttl } in
    (started, record c { fetches = put (endpoint_cache_key channel.id e.id) started c.fetches })

-- The fetch that a caller joins: the one in flight for the ids of the channel and the endpoint, whatever
-- its key and its lifetime, or a new one.
unfoldable pub begin_refresh : ℕ → TurnChannel → TurnEndpoint → Credentials → Fetch × Credentials
begin_refresh ttl channel e c =
    start_unless (get (endpoint_cache_key channel.id e.id) c.fetches) ttl channel e c

abbrev pub new_cache : Time → ℕ → TurnChannel → TurnEndpoint → List IceServer → CloudflareTurnCache
new_cache now ttl channel e servers = record {
  channel_id = channel.id;
  endpoint_id = e.id;
  key_id = or_else e.key_id "";
  ttl_seconds = ttl;
  ice_servers = servers;
  refresh_at = now + ttl * 800;
  expires_at = now + ttl * 1000;
}

-- After a failure, a credential that is still valid.
abbrev pub still_valid : Time → TurnEndpoint → Option CloudflareTurnCache → List IceServer
still_valid now e none = []
still_valid now e (some c) =
    if same_key c.key_id e.key_id && ltb now c.expires_at then c.ice_servers else []

unfoldable pub finish_refresh :
    Time
    → ℕ
    → TurnChannel
    → TurnEndpoint
    → Option (List IceServer)
    → Credentials
    → List IceServer × Credentials
finish_refresh now ttl channel e (some servers) c =
    let key = endpoint_cache_key channel.id e.id in
    (
      servers,
      record c {
        caches = put key (new_cache now ttl channel e servers) c.caches;
        failures = remove key c.failures;
        fetches = remove key c.fetches;
      },
    )
finish_refresh now ttl channel e none c =
    let key = endpoint_cache_key channel.id e.id in
    (
      still_valid now e (get key c.caches),
      record c {
        failures =
            put key
              (record {
                key_id = or_else e.key_id "";
                until = now + cloudflare_turn_failure_cooldown_ms;
              })
              c.failures;
        fetches = remove key c.fetches;
      },
    )

-- The answers of Cloudflare: to a request for an endpoint at an instant, with a lifetime in seconds.
abbrev pub Cloudflare : Type 0
Cloudflare = Time → ℕ → TurnEndpoint → Option (List IceServer)

-- The end of a fetch, for all who wait for it.
abbrev pub end_fetch : Cloudflare → Time → Fetch × Credentials → List IceServer × Credentials
end_fetch fetch later (f, c) =
    finish_refresh later f.ttl_seconds f.channel f.endpoint (fetch later f.ttl_seconds f.endpoint) c

abbrev pub after_lookup :
    Cloudflare
    → Time
    → ℕ
    → TurnChannel
    → TurnEndpoint
    → Credentials
    → Lookup
    → List IceServer × Credentials
after_lookup fetch later ttl channel e c (served servers) = (servers, c)
after_lookup fetch later ttl channel e c (served_while_refreshing servers) =
    (servers, (begin_refresh ttl channel e c).1)
after_lookup fetch later ttl channel e c refused = ([], c)
after_lookup fetch later ttl channel e c awaited =
    end_fetch fetch later (begin_refresh ttl channel e c)

-- A call at `now`; the fetch that it waits for, its own or one in flight, is over at `later`.
unfoldable pub get_cloudflare_turn_ice_servers :
    Cloudflare
    → Time
    → Time
    → ℕ
    → TurnChannel
    → TurnEndpoint
    → Credentials
    → List IceServer × Credentials
get_cloudflare_turn_ice_servers fetch now later ttl channel e c =
    after_lookup fetch later ttl channel e c (lookup_credentials now ttl channel e c)

unfoldable pub find_channel : String → List TurnChannel → Option TurnChannel
find_channel id channels = find (λ channel. channel.id == id) channels

abbrev pub first_endpoint : List TurnEndpoint → Option TurnEndpoint
first_endpoint [] = none
first_endpoint (e ∷ es) = some e

-- The endpoint of an id that is given and not empty, else the first one.
abbrev pub endpoint_of : Option String → List TurnEndpoint → Option TurnEndpoint
endpoint_of none es = first_endpoint es
endpoint_of (some id) es =
    if id == "" then first_endpoint es else elim (find (λ (e : TurnEndpoint). e.id == id) es) [
      | some e ↦ some e
      | none ↦ first_endpoint es
    ]

abbrev pub servers_of_endpoint :
    Cloudflare
    → Time
    → Time
    → ℕ
    → TurnChannel
    → Option TurnEndpoint
    → Credentials
    → List IceServer × Credentials
servers_of_endpoint fetch now later ttl channel none c = ([], c)
servers_of_endpoint fetch now later ttl channel (some e) c = elim e.static_ice_servers [
  | some servers ↦ (servers, c)
  | none ↦ get_cloudflare_turn_ice_servers fetch now later ttl channel e c
]

unfoldable pub get_channel_relay_ice_servers :
    Cloudflare
    → Time
    → Time
    → ℕ
    → List TurnChannel
    → String
    → Option String
    → Credentials
    → List IceServer × Credentials
get_channel_relay_ice_servers fetch now later ttl channels channel_id endpoint_id c =
    elim (find_channel channel_id channels) [
      | none ↦ ([], c)
      | some channel ↦
          servers_of_endpoint fetch now later ttl channel
            (endpoint_of endpoint_id channel.endpoints) c
    ]
