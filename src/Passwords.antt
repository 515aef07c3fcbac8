-- ===== src/Passwords.antt =====
-- server/room-password.ts: the password of a room, the tokens that it has let in, and the attempts. Argon2,
-- SHA-256, the rate limiter and Redis are arguments.
pub mod Slots
pub mod Keys
pub mod Access
use Prim.Native.String.{◌++◌ as joined}
use opentogethertube_cn.Common.{
  ℕ, ◌+◌, ◌*◌, ◌/◌, String, Bool, true, false, not, ◌&&◌, ◌==◌, ◌≡◌, ◌≤◌, Option, none, some, List,
  [], ◌∷◌, eqb, ltb, if◌then◌else◌,
}
use opentogethertube_cn.Exceptions.{Result, ok, err, plain}
use opentogethertube_cn.Room.State.{Room, Account, AuthToken, Time, mark_dirty, has_password}

abbrev pub grant_ttl_seconds : ℕ
grant_ttl_seconds = 86_400

abbrev pub max_wrong_attempts : ℕ
max_wrong_attempts = 10

-- What the code relies on in Redis: a key that is set with a lifetime is there until the lifetime is over,
-- and the other keys stay as they are. Lifetimes are in seconds.
pub record Redis (S : Type 0) : Type 0 where
  pub set_ex : Time → String → ℕ → S → S
  pub exists : Time → String → S → Bool
  pub exists-set_ex :
      (t now : Time) (key other : String) (ttl : ℕ) (s : S)
      → t ≤ now
      → exists now other (set_ex t key ttl s)
        ≡ (if key == other then ltb now (t + 1000 * ttl) else exists now other s)

-- `!room.passwordHash` is also true of the empty text.
unfoldable pub is_protected : Room → Bool
is_protected r = elim r.password_hash [ none ↦ false | some hash ↦ not (hash == "") ]

abbrev pub hash_text : Option String → String
hash_text none = ""
hash_text (some hash) = hash

-- The short version of the stored hash; `digest` answers the first 16 digits of the SHA-256.
abbrev pub version_of : (String → String) → Room → String
version_of digest r = digest (hash_text r.password_hash)

unfoldable pub grant_key : (String → String) → Room → AuthToken → String
grant_key digest r token =
    joined "room-password:"
      (joined r.name (joined ":" (joined (version_of digest r) (joined ":" token))))

-- `setRoomPassword`, after the password is hashed: what the storage answers to the update.
unfoldable pub set_room_password : Option String → Bool → Room → Result Room
set_room_password hash updated r =
    if not r.is_temporary && not updated
    then err (plain "Failed to persist the password")
    else ok (mark_dirty has_password (record r { password_hash = hash }))

abbrev pub false_unless : Option Bool → Bool
false_unless none = false
false_unless (some answer) = answer

-- `verify` answers nothing where Argon2 throws.
unfoldable pub verify_room_password : (String → String → Option Bool) → Room → String → Bool
unfolding is_protected
verify_room_password verify r password =
    if not (is_protected r)
    then true
    else false_unless (verify (hash_text r.password_hash) password)

-- The part of `SessionInfo` that is read: the account of a logged in caller.
abbrev pub is_room_owner : Option Account → Option ℕ → Bool
is_room_owner (some account) (some user_id) = eqb account.id user_id
is_room_owner _ session = false

module _ {S : Type 0} (redis : Redis S) (digest : String → String) where
  unfoldable pub grant_room_access : Time → Room → AuthToken → S → S
  unfolding grant_key
  grant_room_access now r token s = redis.set_ex now (grant_key digest r token) grant_ttl_seconds s

  abbrev has_key : Time → Room → Option AuthToken → S → Bool
  has_key now r none s = false
  has_key now r (some token) s =
      if token == "" then false else redis.exists now (grant_key digest r token) s

  unfoldable pub has_room_access : Time → Room → Option AuthToken → Option ℕ → S → Bool
  unfolding is_protected grant_key
  has_room_access now r token session s =
      if not (is_protected r)
      then true
      else if is_room_owner r.owner session
      then true
      else has_key now r token s

-- What the rate limiter answers to an attempt.
pub data Consumed : Type 0 where
  -- The points that are used up, and the time until they are back.
  counted : ℕ → Time → Consumed
  blocked : Time → Consumed
  in_trouble : Consumed

-- `Math.round(ms / 1000) || 1`
abbrev pub seconds_to_wait : Time → ℕ
seconds_to_wait ms = let seconds = (ms + 500) / 1000 in if eqb seconds 0 then 1 else seconds

unfoldable pub consume_room_password_attempt : Bool → Consumed → ℕ
consume_room_password_attempt false c = 0
consume_room_password_attempt true (counted points ms) =
    if ltb max_wrong_attempts points then seconds_to_wait ms else 0
consume_room_password_attempt true (blocked ms) = seconds_to_wait ms
consume_room_password_attempt true in_trouble = 0
