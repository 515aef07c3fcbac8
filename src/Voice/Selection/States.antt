-- ===== src/Voice/Selection/States.antt =====
-- server/voice-budget.ts: with distinct ids, a channel and an endpoint find their own states, and an
-- endpoint is allowed exactly where it has quota.
use opentogethertube_cn.Common.{
  ℕ, ◌*◌, ◌<◌, ◌≡◌, ◌∙◌, refl, sym, ap, subst, String, true, Option, none, some, List, [], ◌∷◌,
  ◌==◌, ◌&&◌, map, find, ltb, Bool-cases, inl, inr, ◌⊎◌, eq_iff, eq_refl, ltb→lt, lt→ltb, Memᴰ,
  is_some, or_else,
}
use mathlib.Core.List.Memᴰ
use opentogethertube_cn.Common.Dict.{get, put, of_entries, string_eq, get-put}
use opentogethertube_cn.Common.Members.{mem_of_find, find_of_mem, HasDistinct, distinct_eq}
use opentogethertube_cn.Voice.{TurnEndpoint, TurnChannel}
use opentogethertube_cn.Voice.Budget.{
  BudgetStore, VoiceEndpointState, VoiceChannelState, get_channel_states, channel_state,
  endpoint_state, bytes_per_mb,
}
use opentogethertube_cn.Voice.Selection.{by_endpoint, state_by_id}

-- The store can be read, and the account's usage (the actual one, else the estimate) is below its cap.
pub record HasQuota (store : BudgetStore) (channel_id : String) (e : TurnEndpoint) : Type 0 where
  pub estimated : ℕ
  pub actual : Option ℕ
  pub estimate_read : store.estimated channel_id e.id ≡ some estimated
  pub actual_read : store.actual channel_id e.id ≡ some actual
  pub below : or_else actual estimated < e.monthly_limit_mb * bytes_per_mb

-- The ids of the channels differ, and those of the endpoints of each channel.
abbrev pub EachDistinct : List TurnChannel → Type 0
EachDistinct [] = Unit
EachDistinct (c ∷ cs) = HasDistinct (λ (e : TurnEndpoint). e.id) c.endpoints × EachDistinct cs

pub record HasDistinctIds (channels : List TurnChannel) : Type 0 where
  pub channels_differ : HasDistinct (λ (c : TurnChannel). c.id) channels
  pub endpoints_differ : EachDistinct channels

pub EachDistinct-mem :
    (channels : List TurnChannel) (c : TurnChannel)
    → EachDistinct channels
    → Memᴰ c channels
    → HasDistinct (λ (e : TurnEndpoint). e.id) c.endpoints
EachDistinct-mem [] c d m = elim m [ ]
EachDistinct-mem (x ∷ xs) c d (Memᴰ.head e) =
    subst (λ (y : TurnChannel). HasDistinct (λ (e : TurnEndpoint). e.id) y.endpoints) (sym e) d.0
EachDistinct-mem (x ∷ xs) c d (Memᴰ.tail t) = EachDistinct-mem xs c d.1 t

-- The state of an endpoint allows it exactly where it has quota.
pub allowed→HasQuota :
    (store : BudgetStore) (id : String) (e : TurnEndpoint)
    → (endpoint_state store id e).allowed ≡ true
    → HasQuota store id e
unfolding endpoint_state
allowed→HasQuota store id e h = read (store.estimated id e.id) (store.actual id e.id) refl refl h
  where
    read :
        (est : Option ℕ) (act : Option (Option ℕ))
        → store.estimated id e.id ≡ est
        → store.actual id e.id ≡ act
        → ((is_some est && is_some act)
            && ltb (or_else (or_else act none) (or_else est 0)) (e.monthly_limit_mb * bytes_per_mb))
          ≡ true
        → HasQuota store id e
    read none act p q h = cc
    read (some est) none p q h = cc
    read (some est) (some act) p q h = record {
      estimated = est;
      actual = act;
      estimate_read = p;
      actual_read = q;
      below = ltb→lt _ _ h;
    }

pub HasQuota→allowed :
    (store : BudgetStore) (id : String) (e : TurnEndpoint)
    → HasQuota store id e
    → (endpoint_state store id e).allowed ≡ true
unfolding endpoint_state
HasQuota→allowed store id e q = rw (q.estimate_read, q.actual_read) (lt→ltb _ _ q.below)

-- What the map of a channel's states has under an id is the state of an endpoint of that id.
get-of_entries :
    (k : String) (es : List (String × VoiceEndpointState)) (m : List (String × VoiceEndpointState))
    (v : VoiceEndpointState)
    → get k (of_entries es m) ≡ some v
    → Memᴰ (k, v) es ⊎ (get k m ≡ some v)
unfolding of_entries
get-of_entries k [] m v h = inr h
get-of_entries k ((j, w) ∷ es) m v h = elim (get-of_entries k es (put j w m) v h) [
  | inl t ↦ inl (Memᴰ.tail t)
  | inr g ↦ elim (Bool-cases (j == k)) [
    | inl hit ↦
        let same : j ≡ k = (eq_iff j k).0 hit in
        let found : some w ≡ some v = rw (get-put j k w m, hit) at g in inl (Memᴰ.head (cc))
    | inr miss ↦ inr (rw (get-put j k w m, miss) at g)
  ]
]

get-of_entries_later :
    (k : String) (es m : List (String × VoiceEndpointState)) (v : VoiceEndpointState)
    → get k m ≡ some v
    → (w : VoiceEndpointState) × (get k (of_entries es m) ≡ some w)
unfolding of_entries
get-of_entries_later k [] m v h = (v, h)
get-of_entries_later k ((j, u) ∷ es) m v h = elim (Bool-cases (j == k)) [
  | inl hit ↦ get-of_entries_later k es (put j u m) u (rw (get-put j k u m, hit) refl)
  | inr miss ↦ get-of_entries_later k es (put j u m) v (rw (get-put j k u m, miss) h)
]

get-of_entries_mem :
    (k : String) (es m : List (String × VoiceEndpointState)) (v : VoiceEndpointState)
    → Memᴰ (k, v) es
    → (w : VoiceEndpointState) × (get k (of_entries es m) ≡ some w)
unfolding of_entries
get-of_entries_mem k [] m v h = elim h [ ]
get-of_entries_mem k ((j, u) ∷ es) m v (Memᴰ.head e) =
    let same : k ≡ j = ap (λ (p : String × VoiceEndpointState). p.0) e in
    get-of_entries_later k es (put j u m) u (rw (get-put j k u m, same, eq_refl j) refl)
get-of_entries_mem k ((j, u) ∷ es) m v (Memᴰ.tail t) = get-of_entries_mem k es (put j u m) v t

get_nil : (k : String) (w : VoiceEndpointState) → get k [] ≡ some w → ⊥
unfolding get
get_nil k w h = cc

module _ (store : BudgetStore) where
  -- With distinct ids, a channel finds its own state.
  pub find-channel_state :
      (channels : List TurnChannel) (c : TurnChannel)
      → HasDistinct (λ (x : TurnChannel). x.id) channels
      → Memᴰ c channels
      → find (λ (s : VoiceChannelState). s.id == c.id) (get_channel_states store channels)
        ≡ some (channel_state store c)
  unfolding get_channel_states channel_state
  find-channel_state channels c d m =
      let (s, found) =
        find_of_mem (λ (s : VoiceChannelState). s.id == c.id) (map (channel_state store) channels)
          (Memᴰ.map (channel_state store) m) (eq_refl c.id) in
      let (there, hit) =
        mem_of_find (λ (s : VoiceChannelState). s.id == c.id) (map (channel_state store) channels)
          found in
      let (x, mx, e) = Memᴰ.of_map (channel_state store) channels there in
      let ids : x.id ≡ c.id = ap (λ (t : VoiceChannelState). t.id) e ∙ (eq_iff s.id c.id).0 hit in
      let same : x ≡ c = distinct_eq (λ (y : TurnChannel). y.id) channels d mx m ids in
      found ∙ ap some (sym e ∙ ap (channel_state store) same)

  abbrev pub states_of : TurnChannel → List (String × VoiceEndpointState)
  states_of c = state_by_id (channel_state store c)

  -- With distinct ids, an endpoint of a channel finds its own state.
  pub get-endpoint_state :
      (c : TurnChannel) (e : TurnEndpoint)
      → HasDistinct (λ (x : TurnEndpoint). x.id) c.endpoints
      → Memᴰ e c.endpoints
      → get e.id (states_of c) ≡ some (endpoint_state store c.id e)
  unfolding state_by_id channel_state endpoint_state
  get-endpoint_state c e d m =
      let states = map (endpoint_state store c.id) c.endpoints in
      let (w, found) =
        get-of_entries_mem e.id (map by_endpoint states) [] (endpoint_state store c.id e)
          (Memᴰ.map by_endpoint (Memᴰ.map (endpoint_state store c.id) m)) in
      elim (get-of_entries e.id (map by_endpoint states) [] w found) [
        | inr absent ↦ absurd (get_nil e.id w absent)
        | inl there ↦
            let (s, ms, p) = Memᴰ.of_map by_endpoint states there in
            let (x, mx, q) = Memᴰ.of_map (endpoint_state store c.id) c.endpoints ms in
            let ids : x.id ≡ e.id =
              ap (λ (t : VoiceEndpointState). t.endpoint_id) q
              ∙ ap (λ (t : String × VoiceEndpointState). t.0) p in
            let same : x ≡ e = distinct_eq (λ (y : TurnEndpoint). y.id) c.endpoints d mx m ids in
            found
            ∙ ap some (
                sym (ap (λ (t : String × VoiceEndpointState). t.1) p)
                ∙ sym q
                ∙ ap (endpoint_state store c.id) same)
      ]
