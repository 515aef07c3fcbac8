-- ===== src/Voice.antt =====
-- server/voice.ts, server/voice-budget.ts: the relay channels of the voice chat. `Credentials` has the
-- cache of the relays' credentials, `Budget` the quota of each endpoint, `Selection` the choice of a
-- relay.
pub mod Credentials
pub mod Budget
pub mod Selection
use opentogethertube_cn.Common.{ℕ, ◌*◌, String, Option, List}

-- `string | string[]`
pub data Urls : Type 0 where
  one : String → Urls
  many : List String → Urls

-- `RtcIceServer`
pub record IceServer : Type 0 where
  pub urls : Urls
  pub username : Option String
  pub credential : Option String

pub data ChannelKind : Type 0 where
  cloudflare static : ChannelKind

-- An account of a channel, with its own cap in whole megabytes per month.
pub record TurnEndpoint : Type 0 where
  pub id : String
  pub monthly_limit_mb : ℕ
  pub key_id : Option String
  pub api_token : Option String
  pub static_ice_servers : Option (List IceServer)

pub record TurnChannel : Type 0 where
  pub id : String
  pub kind : ChannelKind
  pub endpoints : List TurnEndpoint
