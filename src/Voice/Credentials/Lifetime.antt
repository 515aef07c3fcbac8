-- ===== src/Voice/Credentials/Lifetime.antt =====
-- server/voice.ts: how long a credential is handed out.
use mathlib.Core.Option
use opentogethertube_cn.Common.{
  ℕ, ◌+◌, ◌*◌, ◌≤◌, ◌<◌, ◌≡◌, refl, ap, subst, String, true, Option, none, some, List, [], ◌&&◌,
  ltb, ltb→lt, ◌==◌, eq_iff, Bool-cases, if_both, if_split, or_else, arith, &&-true, inl, inr, ◌⊎◌,
}
use opentogethertube_cn.Common.Dict.{get, remove, string_eq, get-put-cases, get-remove}
use opentogethertube_cn.Voice.{IceServer, TurnEndpoint, TurnChannel}
use opentogethertube_cn.Voice.Credentials.{
  Time, Cloudflare, Credentials, no_credentials, CloudflareTurnCache, Lookup, served,
  served_while_refreshing, refused, awaited, get_cloudflare_turn_ttl_seconds,
  cloudflare_turn_max_ttl_seconds, get_cloudflare_turn_ice_servers, finish_refresh, begin_refresh,
  start_unless, end_fetch, Fetch, endpoint_cache_key, lookup_credentials, serve, retry,
  after_lookup, still_valid, same_key, cache_matches, failed_lately, Failure,
}

-- Cloudflare gave the servers for the key, and their lifetime of at most 48 hours ends at `expiry`.
pub record IsIssued (fetch : Cloudflare) (servers : List IceServer) (key : String) (expiry : Time)
    : Type 0 where
  pub at : Time
  pub ttl : ℕ
  pub endpoint : TurnEndpoint
  pub fetched : fetch at ttl endpoint ≡ some servers
  pub keyed : or_else endpoint.key_id "" ≡ key
  pub bounded : ttl ≤ cloudflare_turn_max_ttl_seconds
  pub ends : expiry ≡ at + ttl * 1000

-- Steps of the module: a call at some instants, and the start and the end of a fetch, between which others
-- go on.
pub data Reach (fetch : Cloudflare) : Credentials → Type 0 where
  start : Reach fetch no_credentials
  call :
      (now later : Time) (configured : Option ℕ) (channel : TurnChannel) (e : TurnEndpoint)
      (c : Credentials)
      → Reach fetch c
      → Reach fetch
          (get_cloudflare_turn_ice_servers fetch now later
            (get_cloudflare_turn_ttl_seconds configured)
            channel
            e
            c).1
  begins :
      (configured : Option ℕ) (channel : TurnChannel) (e : TurnEndpoint) (c : Credentials)
      → Reach fetch c
      → Reach fetch (begin_refresh (get_cloudflare_turn_ttl_seconds configured) channel e c).1
  ends :
      (now : Time) (key : String) (f : Fetch) (c : Credentials)
      → get key c.fetches ≡ some f
      → Reach fetch c
      → Reach fetch (end_fetch fetch now (f, c)).1

module _ (fetch : Cloudflare) where
  abbrev IsRight : CloudflareTurnCache → Type 0
  IsRight entry =
      IsIssued fetch entry.ice_servers entry.key_id entry.expires_at
      × (entry.refresh_at ≤ entry.expires_at)

  -- Lifetimes are positive and at most 48 hours.
  abbrev IsTimed : Fetch → Type 0
  IsTimed f = (0 < f.ttl_seconds) × (f.ttl_seconds ≤ cloudflare_turn_max_ttl_seconds)

  -- Each credential in the cache was issued, and ends when its lifetime does; each fetch in flight asks for
  -- such a lifetime.
  record IsKept (c : Credentials) : Type 0 where
    cached :
        (key : String) (entry : CloudflareTurnCache) → get key c.caches ≡ some entry → IsRight entry
    timed : (key : String) (f : Fetch) → get key c.fetches ≡ some f → IsTimed f

  ttl_bounded :
      (configured : Option ℕ)
      → get_cloudflare_turn_ttl_seconds configured ≤ cloudflare_turn_max_ttl_seconds
  unfolding get_cloudflare_turn_ttl_seconds
  ttl_bounded configured = ground arith

  ttl_positive : (configured : Option ℕ) → 0 < get_cloudflare_turn_ttl_seconds configured
  unfolding get_cloudflare_turn_ttl_seconds
  ttl_positive configured = ground arith

  remove-IsTimed :
      (gone : String) (c : Credentials)
      → IsKept c
      → (key : String) (f : Fetch) → get key (remove gone c.fetches) ≡ some f
      → IsTimed f
  remove-IsTimed gone c k key f g = elim (Bool-cases (gone == key)) [
    | inl hit ↦ absurd (Option.none-ne-some f (rw hit at (rw (get-remove gone key c.fetches) at g)))
    | inr miss ↦ k.timed key f (rw miss at (rw (get-remove gone key c.fetches) at g))
  ]

  finish_refresh-IsKept :
      (now : Time) (ttl : ℕ) (channel : TurnChannel) (e : TurnEndpoint) (c : Credentials)
      → (answer : Option (List IceServer)) → fetch now ttl e ≡ answer
      → ttl ≤ cloudflare_turn_max_ttl_seconds
      → IsKept c
      → IsKept (finish_refresh now ttl channel e answer c).1
  unfolding finish_refresh
  finish_refresh-IsKept now ttl channel e c none a b k = record {
    cached = k.cached;
    timed = remove-IsTimed (endpoint_cache_key channel.id e.id) c k;
  }
  finish_refresh-IsKept now ttl channel e c (some servers) a b k = record {
    cached = λ key entry g.
        elim (get-put-cases (endpoint_cache_key channel.id e.id) key _ entry c.caches g) [
          | inl written ↦ subst IsRight written (
            record {
              at = now;
              ttl = ttl;
              endpoint = e;
              fetched = a;
              keyed = refl;
              bounded = b;
              ends = refl;
            },
            omega arith,
          )
          | inr there ↦ k.cached key entry there
        ];
    timed = remove-IsTimed (endpoint_cache_key channel.id e.id) c k;
  }

  end_fetch-IsKept :
      (now : Time) (f : Fetch) (c : Credentials)
      → IsTimed f
      → IsKept c
      → IsKept (end_fetch fetch now (f, c)).1
  end_fetch-IsKept now f c t k =
      finish_refresh-IsKept now f.ttl_seconds f.channel f.endpoint c
        (fetch now f.ttl_seconds f.endpoint) refl t.1 k

  -- The fetch that is joined, and the maps with it.
  begin_refresh-IsKept :
      (conf : Option ℕ) (channel : TurnChannel) (e : TurnEndpoint) (c : Credentials)
      → IsKept c
      → let joined = begin_refresh (get_cloudflare_turn_ttl_seconds conf) channel e c in
        IsTimed joined.0 × IsKept joined.1
  unfolding begin_refresh
  begin_refresh-IsKept conf channel e c k =
      started (get (endpoint_cache_key channel.id e.id) c.fetches) refl
    where
      started :
          (o : Option Fetch)
          → get (endpoint_cache_key channel.id e.id) c.fetches ≡ o
          → IsTimed (start_unless o (get_cloudflare_turn_ttl_seconds conf) channel e c).0
            × IsKept (start_unless o (get_cloudflare_turn_ttl_seconds conf) channel e c).1
      started (some f) g = (k.timed _ f g, k)
      started none g = (
        (ttl_positive conf, ttl_bounded conf),
        record {
          cached = k.cached;
          timed = λ key f h.
              elim (get-put-cases (endpoint_cache_key channel.id e.id) key _ f c.fetches h) [
                | inl written ↦ subst IsTimed written (ttl_positive conf, ttl_bounded conf)
                | inr there ↦ k.timed key f there
              ];
        },
      )

  call-IsKept :
      (later : Time) (conf : Option ℕ) (channel : TurnChannel) (e : TurnEndpoint) (c : Credentials)
      (found : Lookup)
      → IsKept c
      → IsKept (after_lookup fetch later (get_cloudflare_turn_ttl_seconds conf) channel e c found).1
  call-IsKept later conf channel e c (served s) k = k
  call-IsKept later conf channel e c (served_while_refreshing s) k =
      (begin_refresh-IsKept conf channel e c k).1
  call-IsKept later conf channel e c refused k = k
  call-IsKept later conf channel e c awaited k =
      let (timed, kept) = begin_refresh-IsKept conf channel e c k in
      end_fetch-IsKept later _ _ timed kept

  Reach-IsKept : {c : Credentials} → Reach fetch c → IsKept c
  unfolding get_cloudflare_turn_ice_servers get
  Reach-IsKept start = record { cached = λ key entry g. cc; timed = λ key f g. cc }
  Reach-IsKept (call now later conf channel e c r) =
      call-IsKept later conf channel e c
        (lookup_credentials now (get_cloudflare_turn_ttl_seconds conf) channel e c) (Reach-IsKept r)
  Reach-IsKept (begins conf channel e c r) =
      (begin_refresh-IsKept conf channel e c (Reach-IsKept r)).1
  Reach-IsKept (ends now key f c g r) =
      let kept = Reach-IsKept r in end_fetch-IsKept now f c (kept.timed key f g) kept

  -- The servers are none, or were issued for the endpoint's key and have not expired.
  abbrev pub IsCurrent : Time → TurnEndpoint → List IceServer → Type 0
  IsCurrent now e servers =
      (servers ≡ [])
      ⊎ ((expiry : Time) × IsIssued fetch servers (or_else e.key_id "") expiry × (now < expiry))

  same_key→keyed :
      (stored : String) (key : Option String) → same_key stored key ≡ true → stored ≡ or_else key ""
  same_key→keyed stored none h = cc
  same_key→keyed stored (some key) h = (eq_iff stored key).0 h

  kept-IsCurrent :
      (now at : Time) (e : TurnEndpoint) (entry : CloudflareTurnCache)
      → IsRight entry
      → same_key entry.key_id e.key_id ≡ true
      → now ≤ at
      → at < entry.expires_at
      → IsCurrent now e entry.ice_servers
  kept-IsCurrent now at e entry (i, r) s l h = inr (
    entry.expires_at,
    subst (λ (k : String). IsIssued fetch entry.ice_servers k entry.expires_at)
        (same_key→keyed entry.key_id e.key_id s) i,
    omega arith,
  )

  -- What a lookup hands out stands in the cache for the endpoint's key, and has not expired.
  abbrev IsFound : Time → TurnEndpoint → Lookup → Type 0
  IsFound now e (served s) = IsCurrent now e s
  IsFound now e (served_while_refreshing s) = IsCurrent now e s
  IsFound now e refused = Unit {0}
  IsFound now e awaited = Unit {0}

  serve-IsFound :
      (now : Time) (ttl : ℕ) (e : TurnEndpoint) (o : Option CloudflareTurnCache)
      (otherwise : Lookup)
      → ((entry : CloudflareTurnCache) → o ≡ some entry → IsRight entry)
      → IsFound now e otherwise
      → IsFound now e (serve now ttl e o otherwise)
  serve-IsFound now ttl e none otherwise k f = f
  serve-IsFound now ttl e (some entry) otherwise k f =
      let right = k entry refl in
      if_split (IsFound now e) (cache_matches ttl e entry && ltb now entry.refresh_at) _ _
        (λ h.
          let both = &&-true _ _ h in
          let early = ltb→lt now entry.refresh_at both.1 in
          let within = right.1 in
          kept-IsCurrent now now e entry right (&&-true _ _ both.0).0 (omega arith) (omega arith))
        (λ _.
          if_split (IsFound now e) (cache_matches ttl e entry && ltb now entry.expires_at) _ _
            (λ h.
              let both = &&-true _ _ h in
              kept-IsCurrent now now e entry right (&&-true _ _ both.0).0 (omega arith)
                (ltb→lt _ _ both.1))
            (λ _. f))

  retry-IsFound :
      (now : Time) (e : TurnEndpoint) (f : Option Failure) → IsFound now e (retry now e f)
  retry-IsFound now e none = tt
  retry-IsFound now e (some f) =
      if_both (IsFound now e) (failed_lately now e f) refused awaited tt tt

  still_valid-IsCurrent :
      (now later : Time) (e : TurnEndpoint) (o : Option CloudflareTurnCache)
      → now ≤ later
      → ((entry : CloudflareTurnCache) → o ≡ some entry → IsRight entry)
      → IsCurrent now e (still_valid later e o)
  still_valid-IsCurrent now later e none l k = inl refl
  still_valid-IsCurrent now later e (some entry) l k =
      if_split (IsCurrent now e) (same_key entry.key_id e.key_id && ltb later entry.expires_at) _ _
        (λ h.
          let both = &&-true _ _ h in
          kept-IsCurrent now later e entry (k entry refl) both.0 l (ltb→lt _ _ both.1))
        (λ _. inl refl)

  finish_refresh-IsCurrent :
      (now later : Time) (ttl : ℕ) (channel : TurnChannel) (e : TurnEndpoint) (c : Credentials)
      → (answer : Option (List IceServer)) → fetch later ttl e ≡ answer
      → (0 < ttl) × (ttl ≤ cloudflare_turn_max_ttl_seconds)
      → now ≤ later
      → IsKept c
      → IsCurrent now e (finish_refresh later ttl channel e answer c).0
  unfolding finish_refresh
  finish_refresh-IsCurrent now later ttl channel e c none a b l k =
      still_valid-IsCurrent now later e (get (endpoint_cache_key channel.id e.id) c.caches) l
        (k.cached _)
  finish_refresh-IsCurrent now later ttl channel e c (some servers) a b l k = inr (
    later + ttl * 1000,
    record {
      at = later;
      ttl = ttl;
      endpoint = e;
      fetched = a;
      keyed = refl;
      bounded = b.1;
      ends = refl;
    },
    omega arith,
  )

  -- Current for the endpoint itself, or for the one that a fetch under the same ids is in flight for.
  abbrev pub IsCurrentFor :
      Time → TurnChannel → TurnEndpoint → Credentials → List IceServer → Type 0
  IsCurrentFor now channel e c servers =
      IsCurrent now e servers
      ⊎ ((f : Fetch) × (get (endpoint_cache_key channel.id e.id) c.fetches ≡ some f)
          × IsCurrent now f.endpoint servers)

  joined-IsCurrentFor :
      (now later : Time) (conf : Option ℕ) (channel : TurnChannel) (e : TurnEndpoint)
      (c : Credentials)
      → now ≤ later
      → IsKept c
      → IsCurrentFor now channel e c
          (end_fetch fetch later
            (begin_refresh (get_cloudflare_turn_ttl_seconds conf) channel e c)).0
  unfolding begin_refresh
  joined-IsCurrentFor now later conf channel e c l k =
      joined (get (endpoint_cache_key channel.id e.id) c.fetches) refl
    where
      joined :
          (o : Option Fetch)
          → get (endpoint_cache_key channel.id e.id) c.fetches ≡ o
          → IsCurrentFor now channel e c
              (end_fetch fetch later
                (start_unless o (get_cloudflare_turn_ttl_seconds conf) channel e c)).0
      joined (some f) g = inr (
        f,
        g,
        finish_refresh-IsCurrent now later f.ttl_seconds f.channel f.endpoint c _ refl
            (k.timed _ f g) l k,
      )
      joined none g = inl (
          finish_refresh-IsCurrent now later (get_cloudflare_turn_ttl_seconds conf) channel e _ _
            refl (ttl_positive conf, ttl_bounded conf) l
            (subst (λ (r : Fetch × Credentials). IsKept r.1)
              (ap
                (λ (o : Option Fetch).
                  start_unless o (get_cloudflare_turn_ttl_seconds conf) channel e c)
                g)
              (begin_refresh-IsKept conf channel e c k).1))

  answer-IsCurrentFor :
      (now later : Time) (conf : Option ℕ) (channel : TurnChannel) (e : TurnEndpoint)
      (c : Credentials) (found : Lookup)
      → now ≤ later
      → IsKept c
      → IsFound now e found
      → IsCurrentFor now channel e c
          (after_lookup fetch later (get_cloudflare_turn_ttl_seconds conf) channel e c found).0
  answer-IsCurrentFor now later conf channel e c (served s) l k f = inl f
  answer-IsCurrentFor now later conf channel e c (served_while_refreshing s) l k f = inl f
  answer-IsCurrentFor now later conf channel e c refused l k f = inl (inl refl)
  answer-IsCurrentFor now later conf channel e c awaited l k f =
      joined-IsCurrentFor now later conf channel e c l k

  -- Whatever calls came before and whatever fetches are in flight, a call hands out no servers, or servers
  -- that Cloudflare issued, with a lifetime of at most 48 hours that is not over at the call, for the key
  -- of the endpoint or for the key that a fetch in flight under the same ids of channel and endpoint was
  -- started with.
  pub get_cloudflare_turn_ice_servers-IsCurrentFor :
      (now later : Time) (configured : Option ℕ) (channel : TurnChannel) (e : TurnEndpoint)
      (c : Credentials)
      → Reach fetch c
      → now ≤ later
      → IsCurrentFor now channel e c
          (get_cloudflare_turn_ice_servers fetch now later
            (get_cloudflare_turn_ttl_seconds configured)
            channel
            e
            c).0
  unfolding get_cloudflare_turn_ice_servers lookup_credentials
  get_cloudflare_turn_ice_servers-IsCurrentFor now later configured channel e c reach l =
      let kept = Reach-IsKept reach in
      answer-IsCurrentFor now later configured channel e c _ l kept (
        serve-IsFound now (get_cloudflare_turn_ttl_seconds configured) e _ _ (kept.cached _)
          (retry-IsFound now e _))
