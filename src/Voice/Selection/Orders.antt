-- ===== src/Voice/Selection/Orders.antt =====
-- server/voice-budget.ts: the order in which a choice tries channels and endpoints is a permutation of
-- those that are allowed.
use opentogethertube_cn.Common.{
  ℕ, ◌%◌, ◌≡◌, refl, sym, ap, subst, String, true, not, Option, none, some, List, [], ◌∷◌, ◌==◌,
  find, select, take, drop, length, leb, eqb, if◌then◌else◌, if_split, Bool-cases, inl, inr, ◌⊎◌,
  Memᴰ,
}
use mathlib.Core.List.Memᴰ
use opentogethertube_cn.Common.Dict.{string_eq}
use opentogethertube_cn.Common.Members.{
  mem_of_select, mem_of_take, mem_of_drop, mem-take-drop, mem-split, mem_of_if, mem-if,
}
use opentogethertube_cn.Voice.{TurnEndpoint, TurnChannel}
use opentogethertube_cn.Voice.Budget.{BudgetStore, VoiceChannelState, get_channel_states}
use opentogethertube_cn.Voice.Selection.{
  RelayState, Entry, usage_of, with_state, allowed_entries, insert_by_usage, sort_by_usage, rotate,
  order_channels, order_endpoints, relay_order,
}

mem_of_insert :
    (x : Entry) (ys : List Entry) {z : Entry} → Memᴰ z (insert_by_usage x ys) → (z ≡ x) ⊎ Memᴰ z ys
unfolding insert_by_usage
mem_of_insert x [] m = Memᴰ.cases_cons m
mem_of_insert x (y ∷ ys) {z} m = elim (Bool-cases (leb (usage_of x) (usage_of y))) [
  | inl low ↦ Memᴰ.cases_cons (rw low at m)
  | inr high ↦ elim (Memᴰ.cases_cons (rw high at m)) [
    | inl e ↦ inr (Memᴰ.head e)
    | inr t ↦ elim (mem_of_insert x ys t) [ inl e ↦ inl e | inr u ↦ inr (Memᴰ.tail u) ]
  ]
]

mem-insert :
    (x : Entry) (ys : List Entry) {z : Entry} → (z ≡ x) ⊎ Memᴰ z ys → Memᴰ z (insert_by_usage x ys)
unfolding insert_by_usage
mem-insert x [] (inl e) = Memᴰ.head e
mem-insert x [] (inr m) = elim m [ ]
mem-insert x (y ∷ ys) {z} (inl e) =
    if_split (Memᴰ z) (leb (usage_of x) (usage_of y)) (x ∷ y ∷ ys) (y ∷ insert_by_usage x ys)
      (λ _. Memᴰ.head e) (λ _. Memᴰ.tail (mem-insert x ys (inl e)))
mem-insert x (y ∷ ys) {z} (inr (Memᴰ.head e)) =
    if_split (Memᴰ z) (leb (usage_of x) (usage_of y)) (x ∷ y ∷ ys) (y ∷ insert_by_usage x ys)
      (λ _. Memᴰ.tail (Memᴰ.head e)) (λ _. Memᴰ.head e)
mem-insert x (y ∷ ys) {z} (inr (Memᴰ.tail t)) =
    if_split (Memᴰ z) (leb (usage_of x) (usage_of y)) (x ∷ y ∷ ys) (y ∷ insert_by_usage x ys)
      (λ _. Memᴰ.tail (Memᴰ.tail t)) (λ _. Memᴰ.tail (mem-insert x ys (inr t)))

mem_of_sort : (xs : List Entry) {z : Entry} → Memᴰ z (sort_by_usage xs) → Memᴰ z xs
unfolding sort_by_usage
mem_of_sort [] m = m
mem_of_sort (x ∷ xs) m = elim (mem_of_insert x (sort_by_usage xs) m) [
  | inl e ↦ Memᴰ.head e
  | inr t ↦ Memᴰ.tail (mem_of_sort xs t)
]

mem-sort : (xs : List Entry) {z : Entry} → Memᴰ z xs → Memᴰ z (sort_by_usage xs)
unfolding sort_by_usage
mem-sort [] m = m
mem-sort (x ∷ xs) (Memᴰ.head e) = mem-insert x (sort_by_usage xs) (inl e)
mem-sort (x ∷ xs) (Memᴰ.tail t) = mem-insert x (sort_by_usage xs) (inr (mem-sort xs t))

mem_of_rotate : (n : ℕ) (xs : List Entry) {z : Entry} → Memᴰ z (rotate n xs) → Memᴰ z xs
unfolding rotate
mem_of_rotate n xs m = elim (Memᴰ.append_cases (drop n xs) m) [
  | inl d ↦ mem_of_drop n xs d
  | inr t ↦ mem_of_take n xs t
]

mem-rotate : (n : ℕ) (xs : List Entry) {z : Entry} → Memᴰ z xs → Memᴰ z (rotate n xs)
unfolding rotate
mem-rotate n xs m = elim (mem-take-drop n xs m) [
  | inl d ↦ Memᴰ.append_left (take n xs) d
  | inr t ↦ Memᴰ.append_right (drop n xs) t
]

mem_of_order_channels :
    (cursor : ℕ) (xs : List Entry) {z : Entry} → Memᴰ z (order_channels cursor xs) → Memᴰ z xs
unfolding order_channels
mem_of_order_channels cursor [] m = m
mem_of_order_channels cursor (x ∷ xs) {z} m =
    let least = λ (entry : Entry). eqb (usage_of entry) (usage_of x) in
    let least_used = select least (x ∷ xs) in
    elim (Memᴰ.append_cases (rotate (cursor % length least_used) least_used) m) [
      | inl r ↦
          (mem_of_select least (x ∷ xs) (mem_of_rotate (cursor % length least_used) least_used r)).0
      | inr s ↦ (mem_of_select (λ (entry : Entry). not (least entry)) (x ∷ xs) s).0
    ]

mem-order_channels :
    (cursor : ℕ) (xs : List Entry) {z : Entry} → Memᴰ z xs → Memᴰ z (order_channels cursor xs)
unfolding order_channels
mem-order_channels cursor [] m = m
mem-order_channels cursor (x ∷ xs) {z} m =
    let least = λ (entry : Entry). eqb (usage_of entry) (usage_of x) in
    let least_used = select least (x ∷ xs) in
    elim (mem-split least (x ∷ xs) m) [
      | inl l ↦
          Memᴰ.append_left (select (λ (entry : Entry). not (least entry)) (x ∷ xs))
            (mem-rotate (cursor % length least_used) least_used l)
      | inr o ↦ Memᴰ.append_right (rotate (cursor % length least_used) least_used) o
    ]

pub mem_of_order_endpoints :
    (active : Option String) (es : List TurnEndpoint) {e : TurnEndpoint}
    → Memᴰ e (order_endpoints active es)
    → Memᴰ e es
unfolding order_endpoints
mem_of_order_endpoints none es m = m
mem_of_order_endpoints (some id) es {e} m = elim (Bool-cases (id == "")) [
  | inl empty ↦ rw empty at m
  | inr given ↦
      elim (Memᴰ.append_cases (select (λ (e : TurnEndpoint). e.id == id) es) (rw given at m)) [
        | inl s ↦ (mem_of_select (λ (e : TurnEndpoint). e.id == id) es s).0
        | inr s ↦ (mem_of_select (λ (e : TurnEndpoint). not (e.id == id)) es s).0
      ]
]

pub mem-order_endpoints :
    (active : Option String) (es : List TurnEndpoint) {e : TurnEndpoint}
    → Memᴰ e es
    → Memᴰ e (order_endpoints active es)
unfolding order_endpoints
mem-order_endpoints none es m = m
mem-order_endpoints (some id) es {e} m = elim (Bool-cases (id == "")) [
  | inl empty ↦ rw empty m
  | inr given ↦ rw given (elim (mem-split (λ (e : TurnEndpoint). e.id == id) es m) [
    | inl s ↦ Memᴰ.append_left (select (λ (e : TurnEndpoint). not (e.id == id)) es) s
    | inr s ↦ Memᴰ.append_right (select (λ (e : TurnEndpoint). e.id == id) es) s
  ])
]

-- A channel is an entry with the state that is found for it.
mem_of_allowed_entries :
    (states : List VoiceChannelState) (cs : List TurnChannel) (c : TurnChannel)
    (s : VoiceChannelState)
    → Memᴰ (c, s) (allowed_entries states cs)
    → Memᴰ c cs × (find (λ (x : VoiceChannelState). x.id == c.id) states ≡ some s)
unfolding allowed_entries
mem_of_allowed_entries states [] c s m = elim m [ ]
mem_of_allowed_entries states (x ∷ xs) c s m =
    entry (mem_of_allowed_entries states xs c s)
      (find (λ (y : VoiceChannelState). y.id == x.id) states) refl m
  where
    Found : List TurnChannel → Type 0
    Found l = Memᴰ c l × (find (λ (y : VoiceChannelState). y.id == c.id) states ≡ some s)

    entry :
        (Memᴰ (c, s) (allowed_entries states xs) → Found xs)
        → (o : Option VoiceChannelState) → find (λ (y : VoiceChannelState). y.id == x.id) states ≡ o
        → Memᴰ (c, s) (with_state x o (allowed_entries states xs))
        → Found (x ∷ xs)
    entry ih none e m = (Memᴰ.tail (ih m).0, (ih m).1)
    entry ih (some t) e m = elim (mem_of_if t.allowed (x, t) (allowed_entries states xs) m) [
      | inr there ↦ (Memᴰ.tail (ih there).0, (ih there).1)
      | inl (p, ok) ↦
          let same : c ≡ x = ap (λ (q : Entry). q.0) p in
          let state : s ≡ t = ap (λ (q : Entry). q.1) p in (Memᴰ.head same, rw (same, state) e)
    ]

mem-allowed_entries :
    (states : List VoiceChannelState) (cs : List TurnChannel) (c : TurnChannel)
    (s : VoiceChannelState)
    → Memᴰ c cs
    → find (λ (x : VoiceChannelState). x.id == c.id) states ≡ some s
    → s.allowed ≡ true
    → Memᴰ (c, s) (allowed_entries states cs)
unfolding allowed_entries
mem-allowed_entries states [] c s m f h = elim m [ ]
mem-allowed_entries states (x ∷ xs) c s (Memᴰ.head e) f h =
    let found : find (λ (y : VoiceChannelState). y.id == x.id) states ≡ some s = rw (← e) f in
    rw found (
      subst
        (λ (y : TurnChannel).
          Memᴰ (y, s)
            (if s.allowed then (x, s) ∷ allowed_entries states xs else allowed_entries states xs))
        (sym e) (mem-if s.allowed (x, s) (allowed_entries states xs) h))
mem-allowed_entries states (x ∷ xs) c s (Memᴰ.tail t) f h =
    keep (find (λ (y : VoiceChannelState). y.id == x.id) states)
      (mem-allowed_entries states xs c s t f h)
  where
    keep :
        (o : Option VoiceChannelState)
        → Memᴰ (c, s) (allowed_entries states xs)
        → Memᴰ (c, s) (with_state x o (allowed_entries states xs))
    keep none m = m
    keep (some u) m =
        if_split (Memᴰ (c, s)) u.allowed ((x, u) ∷ allowed_entries states xs)
          (allowed_entries states xs) (λ _. Memᴰ.tail m) (λ _. m)

module _ (store : BudgetStore) (channels : List TurnChannel) (relay : RelayState) where
  pub mem_of_relay_order :
      (c : TurnChannel) (s : VoiceChannelState)
      → Memᴰ (c, s) (relay_order store channels relay)
      → Memᴰ c channels
        × (find (λ (x : VoiceChannelState). x.id == c.id) (get_channel_states store channels)
            ≡ some s)
  unfolding relay_order
  mem_of_relay_order c s m =
      let entries = allowed_entries (get_channel_states store channels) channels in
      mem_of_allowed_entries (get_channel_states store channels) channels c s
        (mem_of_sort entries (mem_of_order_channels relay.channel_cursor (sort_by_usage entries) m))

  pub mem-relay_order :
      (c : TurnChannel) (s : VoiceChannelState)
      → Memᴰ c channels
      → find (λ (x : VoiceChannelState). x.id == c.id) (get_channel_states store channels) ≡ some s
      → s.allowed ≡ true
      → Memᴰ (c, s) (relay_order store channels relay)
  unfolding relay_order
  mem-relay_order c s m f h =
      let entries = allowed_entries (get_channel_states store channels) channels in
      mem-order_channels relay.channel_cursor (sort_by_usage entries) (
        mem-sort entries
          (mem-allowed_entries (get_channel_states store channels) channels c s m f h))
