-- ===== src/Clients/Budget.antt =====
-- server/clientmanager.ts: the token buckets that bound the messages of a connection. Tokens are counted
-- in units of 1/2000, so that what a millisecond refills is a whole number: 20 units of the bucket for
-- all messages, 1 of the one for chat lines.
pub mod Rate
use opentogethertube_cn.Common.{
  ℕ, ◌+◌, ◌-◌, ◌*◌, Bool, true, false, Option, none, some, List, [], ◌∷◌, ltb, if◌then◌else◌,
  or_else,
}

-- Milliseconds.
abbrev pub Time : Type 0
Time = ℕ

abbrev pub one_token : ℕ
one_token = 2000

abbrev pub message_bucket_capacity : ℕ
message_bucket_capacity = 40 * one_token

abbrev pub message_bucket_refill : ℕ
message_bucket_refill = 20

abbrev pub chat_bucket_capacity : ℕ
chat_bucket_capacity = 5 * one_token

abbrev pub chat_bucket_refill : ℕ
chat_bucket_refill = 1

pub record TokenBucket : Type 0 where
  pub tokens : ℕ
  pub updated_at : Time

-- `Math.min(capacity, …)`
abbrev pub capped : ℕ → ℕ → ℕ
capped capacity n = if ltb capacity n then capacity else n

-- Whether there was a token, and the bucket after that. A clock that went back refills nothing.
unfoldable pub take_token : Time → ℕ → ℕ → TokenBucket → Bool × TokenBucket
take_token now capacity refill bucket =
    let tokens = capped capacity (bucket.tokens + (now - bucket.updated_at) * refill) in
    if ltb tokens one_token
    then (false, record { tokens = tokens; updated_at = now })
    else (true, record { tokens = tokens - one_token; updated_at = now })

pub record Buckets : Type 0 where
  pub general : TokenBucket
  pub chat : TokenBucket

unfoldable pub new_buckets : Time → Buckets
new_buckets now = record {
  general = record { tokens = message_bucket_capacity; updated_at = now };
  chat = record { tokens = chat_bucket_capacity; updated_at = now };
}

abbrev pub take_chat_token : Time → Bool → Buckets → Bool × Buckets
take_chat_token now false b = (true, b)
take_chat_token now true b =
    let (within, chat) = take_token now chat_bucket_capacity chat_bucket_refill b.chat in
    (within, record b { chat = chat })

-- A message of a connection with its buckets, which the first message makes; whether it is a chat line.
unfoldable pub consume_message_budget : Time → Bool → Option Buckets → Bool × Buckets
unfolding new_buckets
consume_message_budget now is_chat held =
    let b = or_else held (new_buckets now) in
    let (within, general) =
      take_token now message_bucket_capacity message_bucket_refill b.general in
    let b' = record b { general = general } in
    if within then take_chat_token now is_chat b' else (false, b')
