-- ===== src/Voice/Budget.antt =====
-- server/voice-budget.ts: what each relay account has used of its monthly cap, and what a tick adds.
-- The store is outside: `BudgetStore` has what its reads answer, `none` where a read throws. Amounts
-- are in bytes, where the source divides them by 1,000,000 for display.
pub mod Usage
use opentogethertube_cn.Common.{
  ℕ, ◌+◌, ◌-◌, ◌*◌, ◌/◌, String, Bool, true, false, Option, none, some, List, [], ◌∷◌, ◌&&◌, map,
  any, ltb, leb, not, if◌then◌else◌, or_else, is_some,
}
use opentogethertube_cn.Common.Dict.{get, put, string_eq}
use opentogethertube_cn.Voice.{ChannelKind, TurnEndpoint, TurnChannel}
use Prim.Native.String.{◌++◌}

abbrev pub bytes_per_mb : ℕ
bytes_per_mb = 1000000

-- By channel and endpoint. An actual amount that is not there is `some none`.
pub record BudgetStore : Type 0 where
  pub estimated : String → String → Option ℕ
  pub actual : String → String → Option (Option ℕ)

pub record VoiceEndpointState : Type 0 where
  pub channel_id : String
  pub endpoint_id : String
  pub limit : ℕ
  pub estimated : ℕ
  pub actual : Option ℕ
  pub usage : ℕ
  pub remaining : ℕ
  pub allowed : Bool

pub record VoiceChannelState : Type 0 where
  pub id : String
  pub kind : ChannelKind
  pub limit : ℕ
  pub estimated : ℕ
  pub actual : Option ℕ
  pub usage : ℕ
  pub remaining : ℕ
  pub allowed : Bool
  pub endpoints : List VoiceEndpointState

-- The actual amount wins over the estimate. An account that cannot be read is not used.
unfoldable pub endpoint_state : BudgetStore → String → TurnEndpoint → VoiceEndpointState
endpoint_state store channel_id e =
    let estimated = store.estimated channel_id e.id in
    let actual = store.actual channel_id e.id in
    let usage = or_else (or_else actual none) (or_else estimated 0) in
    let limit = e.monthly_limit_mb * bytes_per_mb in
    record {
      channel_id = channel_id;
      endpoint_id = e.id;
      limit = limit;
      estimated = or_else estimated 0;
      actual = or_else actual none;
      usage = usage;
      remaining = limit - usage;
      allowed = (is_some estimated && is_some actual) && ltb usage limit;
    }

-- `endpoints.reduce(…, 0)`
unfoldable pub sum_of : (VoiceEndpointState → ℕ) → List VoiceEndpointState → ℕ
sum_of amount [] = 0
sum_of amount (e ∷ es) = amount e + sum_of amount es

abbrev pub actual_or_estimated : VoiceEndpointState → ℕ
actual_or_estimated e = or_else e.actual e.estimated

unfoldable pub channel_state : BudgetStore → TurnChannel → VoiceChannelState
unfolding sum_of
channel_state store channel =
    let endpoints = map (endpoint_state store channel.id) channel.endpoints in
    let usage = sum_of (λ e. e.usage) endpoints in
    let limit = sum_of (λ e. e.limit) endpoints in
    record {
      id = channel.id;
      kind = channel.kind;
      limit = limit;
      estimated = sum_of (λ e. e.estimated) endpoints;
      actual =
          if any (λ e. is_some e.actual) endpoints
          then some (sum_of actual_or_estimated endpoints)
          else none;
      usage = usage;
      remaining = limit - usage;
      allowed = any (λ e. e.allowed) endpoints;
      endpoints = endpoints;
    }

unfoldable pub get_channel_states : BudgetStore → List TurnChannel → List VoiceChannelState
get_channel_states store channels = map (channel_state store) channels

unfoldable pub is_relay_allowed_now : BudgetStore → List TurnChannel → Bool
unfolding get_channel_states
is_relay_allowed_now store channels =
    any (λ (c : VoiceChannelState). any (λ (e : VoiceEndpointState). e.allowed) c.endpoints)
      (get_channel_states store channels)

pub data VoiceDeniedReason : Type 0 where
  room_full too_many_rooms : VoiceDeniedReason

pub record VoiceJoinDecision : Type 0 where
  pub allowed : Bool
  pub reason : Option VoiceDeniedReason
  pub include_relay : Bool

pub record VoiceLimits : Type 0 where
  pub max_participants_per_room : ℕ
  pub max_concurrent_rooms : ℕ

abbrev pub deny : VoiceDeniedReason → VoiceJoinDecision
deny reason = record { allowed = false; reason = some reason; include_relay = false }

abbrev pub has_channels : List TurnChannel → Bool
has_channels [] = false
has_channels (c ∷ cs) = true

-- A limit of 0 is no limit.
unfoldable pub decide_voice_join : VoiceLimits → List TurnChannel → ℕ → Bool → ℕ → VoiceJoinDecision
decide_voice_join limits channels room_participants room_already_in_voice voice_room_count =
    if ltb 0 limits.max_participants_per_room
      && leb limits.max_participants_per_room room_participants
    then deny room_full
    else if (ltb 0 limits.max_concurrent_rooms && not room_already_in_voice)
        && leb limits.max_concurrent_rooms voice_room_count
    then deny too_many_rooms
    else record { allowed = true; reason = none; include_relay = has_channels channels }

pub record VoiceRoomUsage : Type 0 where
  pub participants : ℕ
  pub channel_id : Option String
  pub endpoint_id : Option String

-- An entry of `perEndpoint`.
pub record Accrued : Type 0 where
  pub channel_id : String
  pub endpoint_id : String
  pub bytes : ℕ

-- Every participant hears every other one, at `kbps` kilobits a second.
unfoldable pub relayed_bytes : ℕ → ℕ → ℕ → ℕ
relayed_bytes kbps seconds participants =
    participants * (participants - 1) * kbps * 1000 * seconds / 8

unfoldable pub usage_key : String → String → String
usage_key channel_id endpoint_id = channel_id ++ "\0" ++ endpoint_id

abbrev pub more_bytes : String → String → ℕ → Option Accrued → Accrued
more_bytes channel_id endpoint_id bytes none = record {
  channel_id = channel_id;
  endpoint_id = endpoint_id;
  bytes = bytes;
}
more_bytes channel_id endpoint_id bytes (some a) = record a { bytes = a.bytes + bytes }

abbrev pub accrue_at :
    ℕ → Option String → Option String → List (String × Accrued) → List (String × Accrued)
accrue_at bytes (some c) (some e) m =
    put (usage_key c e) (more_bytes c e bytes (get (usage_key c e) m)) m
accrue_at bytes _ endpoint_id m = m

unfoldable pub accrue : ℕ → ℕ → VoiceRoomUsage → List (String × Accrued) → List (String × Accrued)
accrue kbps seconds room m =
    if ltb room.participants 2
    then m
    else accrue_at (relayed_bytes kbps seconds room.participants) room.channel_id room.endpoint_id m

-- The loop over the rooms.
unfoldable pub per_endpoint :
    ℕ → ℕ → List VoiceRoomUsage → List (String × Accrued) → List (String × Accrued)
per_endpoint kbps seconds [] m = m
per_endpoint kbps seconds (room ∷ rooms) m =
    per_endpoint kbps seconds rooms (accrue kbps seconds room m)

abbrev pub write_all {ℓ} :
    {S : Type ℓ} → (String → String → ℕ → S → S) → List (String × Accrued) → S → S
write_all add_bytes [] s = s
write_all add_bytes ((key, a) ∷ m) s =
    write_all add_bytes m (add_bytes a.channel_id a.endpoint_id a.bytes s)

-- The writes to the store, one after the other: `add_bytes` is `addEndpointEstimatedBytes`.
unfoldable pub record_usage {ℓ} :
    {S : Type ℓ} → (String → String → ℕ → S → S) → ℕ → ℕ → List VoiceRoomUsage → S → S
record_usage add_bytes kbps seconds rooms s =
    write_all add_bytes (per_endpoint kbps seconds rooms []) s
