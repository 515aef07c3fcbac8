-- ===== src/Clients/Budget/Rate.antt =====
-- server/clientmanager.ts: how many messages of a connection come through.
use opentogethertube_cn.Common.{
  ℕ, suc, ◌≤◌, ◌≡◌, ◌⊎◌, Bool, true, false, Option, some, List, [], ◌∷◌, if◌then◌else◌,
}
use opentogethertube_cn.Clients.Budget.{
  Time, TokenBucket, Buckets, take_token, consume_message_budget, message_bucket_capacity,
  message_bucket_refill, chat_bucket_capacity, chat_bucket_refill,
}

-- A message: when it comes, and whether it is a chat line.
pub record Arrival : Type 0 where
  pub at : Time
  pub is_chat : Bool

-- The messages come one after the other, none after `end`.
abbrev pub InOrder : Time → Time → List Arrival → Type 0
InOrder start end [] = start ≤ end
InOrder start end (a ∷ rest) = (start ≤ a.at) × InOrder a.at end rest

abbrev count_if : Bool → ℕ → ℕ
count_if true n = suc n
count_if false n = n

-- How many messages come through.
unfoldable pub passed : Option Buckets → List Arrival → ℕ
passed held [] = 0
passed held (a ∷ rest) =
    let r = consume_message_budget a.at a.is_chat held in count_if r.0 (passed (some r.1) rest)

-- How many chat lines come through.
unfoldable pub chats_passed : Option Buckets → List Arrival → ℕ
chats_passed held [] = 0
chats_passed held (a ∷ rest) =
    let r = consume_message_budget a.at a.is_chat held in
    let others = chats_passed (some r.1) rest in if a.is_chat then count_if r.0 others else others

abbrev taken : Time → Buckets → Bool × TokenBucket
taken now b = take_token now message_bucket_capacity message_bucket_refill b.general

abbrev chat_taken : Time → Buckets → Bool × TokenBucket
chat_taken now b = take_token now chat_bucket_capacity chat_bucket_refill b.chat

-- What a message does to the bucket of the chat lines: nothing, unless it is a chat line within the
-- general budget, which takes a token or is refused.
abbrev ChatStep : Time → Bool → Buckets → Bool × Buckets → Type 0
ChatStep now is_chat b r =
    ((r.1.chat ≡ b.chat) × ((is_chat ≡ false) ⊎ (r.0 ≡ false)))
    ⊎ ((is_chat ≡ true) × (r.0 ≡ (chat_taken now b).0) × (r.1.chat ≡ (chat_taken now b).1))
