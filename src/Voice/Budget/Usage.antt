-- ===== src/Voice/Budget/Usage.antt =====
-- server/voice-budget.ts, `recordUsage`: what a tick charges to an account.
use Prim.Native.Char.{Char}
use opentogethertube_cn.Common.{
  ℕ, ◌+◌, ◌*◌, ◌-◌, ◌/◌, ◌≡◌, String, true, ◌&&◌, Option, none, some, List, [], ◌∷◌, ◌==◌, ltb,
  if◌then◌else◌,
}
use opentogethertube_cn.Common.Dict.{string_eq}
use opentogethertube_cn.Common.Separated.{lacks}
use opentogethertube_cn.Voice.Budget.{Accrued, VoiceRoomUsage, usage_key}

abbrev nul : Char
nul = "\0"

-- The id of a channel holds no NUL character.
abbrev pub IsPlain : String → Type 0
IsPlain id = lacks nul id ≡ true

abbrev pub IsPlainRoom : Option String → Type 0
IsPlainRoom none = Unit
IsPlainRoom (some id) = IsPlain id

abbrev pub ArePlain : List VoiceRoomUsage → Type 0
ArePlain [] = Unit
ArePlain (room ∷ rooms) = IsPlainRoom room.channel_id × ArePlain rooms

-- The bytes, where the ids are those of the account.
abbrev if_account : String → String → String → String → ℕ → ℕ
if_account c e c' e' n = if (c' == c) && (e' == e) then n else 0

abbrev share_at : ℕ → String → String → Option String → Option String → ℕ
share_at n c e (some c') (some e') = if_account c e c' e' n
share_at n c e _ endpoint_id = 0

-- What one room's calls cost an account that the room is on: every participant hears every other one.
abbrev pub share : ℕ → ℕ → String → String → VoiceRoomUsage → ℕ
share kbps seconds c e room =
    let n = room.participants in
    if ltb n 2
    then 0
    else share_at (n * (n - 1) * kbps * 1000 * seconds / 8) c e room.channel_id room.endpoint_id

abbrev pub total : ℕ → ℕ → String → String → List VoiceRoomUsage → ℕ
total kbps seconds c e [] = 0
total kbps seconds c e (room ∷ rooms) = share kbps seconds c e room + total kbps seconds c e rooms

-- What an entry of the map is charged to: the account of its key.
abbrev IsKeyed : String → Accrued → Type 0
IsKeyed key a = (key ≡ usage_key a.channel_id a.endpoint_id) × IsPlain a.channel_id

-- What the writes of the map's entries will add to an account.
abbrev pending : String → String → List (String × Accrued) → ℕ
pending c e [] = 0
pending c e ((key, a) ∷ m) = if_account c e a.channel_id a.endpoint_id a.bytes + pending c e m

abbrev pending_of : String → String → Option Accrued → ℕ
pending_of c e none = 0
pending_of c e (some a) = if_account c e a.channel_id a.endpoint_id a.bytes

-- The counter of an account: a write adds its bytes to the account of its ids, and to no other.
pub record Counters (S : Type 0) : Type 0 where
  pub add_bytes : String → String → ℕ → S → S
  pub counted : String → String → S → ℕ
  pub counted-add_bytes :
      (c e c' e' : String) (n : ℕ) (s : S)
      → counted c e (add_bytes c' e' n s)
        ≡ counted c e s + (if (c' == c) && (e' == e) then n else 0)
