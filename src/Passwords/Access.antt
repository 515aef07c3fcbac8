-- ===== src/Passwords/Access.antt =====
-- server/room-password.ts: who is let into a room with a password.
use opentogethertube_cn.Common.{
  ℕ, ◌+◌, ◌≤◌, String, Bool, true, false, not, ◌&&◌, ◌||◌, ◌==◌, ◌≡◌, ◌∙◌, Option, none, some, List,
  [], ◌∷◌, ltb, if◌then◌else◌, arith,
}
use opentogethertube_cn.Room.State.{Room, AuthToken, Time}
use opentogethertube_cn.Passwords.{
  Redis, grant_key, grant_room_access, has_room_access, is_protected, is_room_owner,
  grant_ttl_seconds,
}
use opentogethertube_cn.Passwords.Keys.{no_colon, same_grant, grant_key_test}

-- A token that was let in, and the room with the password that it had then.
pub record Grant : Type 0 where
  pub room : Room
  pub token : AuthToken
  pub at : Time

-- The grants were made up to now, for rooms with valid names. The newest comes first.
abbrev pub AreGrants : Time → List Grant → Type 0
AreGrants now [] = Unit
AreGrants now (g ∷ gs) = (g.at ≤ now) × (no_colon g.room.name ≡ true) × AreGrants now gs

-- Within the last 24 hours the token was let into a room of this name with this version of the password.
abbrev pub was_granted : (String → String) → Time → Room → AuthToken → List Grant → Bool
was_granted digest now r token [] = false
was_granted digest now r token (g ∷ gs) =
    if same_grant digest g.room g.token r token
    then ltb now (g.at + 86_400_000)
    else was_granted digest now r token gs

abbrev token_was_granted : (String → String) → Time → Room → Option AuthToken → List Grant → Bool
token_was_granted digest now r none gs = false
token_was_granted digest now r (some token) gs =
    not (token == "") && was_granted digest now r token gs

-- The specification: no password, the owner, or a recent grant.
abbrev pub may_enter :
    (String → String) → Time → Room → Option AuthToken → Option ℕ → List Grant → Bool
may_enter digest now r token session gs =
    not (is_protected r) || is_room_owner r.owner session || token_was_granted digest now r token gs

module _ {S : Type 0} (redis : Redis S) (digest : String → String)
    (hex : (hash : String) → no_colon (digest hash) ≡ true) where
  -- The store after the grants.
  abbrev pub after_grants : List Grant → S → S
  after_grants [] s = s
  after_grants (g ∷ gs) s = grant_room_access redis digest g.at g.room g.token (after_grants gs s)

  exists-after_grants :
      (now : Time) (r : Room) (token : AuthToken) (gs : List Grant) (s : S)
      → no_colon r.name ≡ true
      → AreGrants now gs
      → ((key : String) → redis.exists now key s ≡ false)
      → redis.exists now (grant_key digest r token) (after_grants gs s)
        ≡ was_granted digest now r token gs
  unfolding grant_room_access
  exists-after_grants now r token [] s n all fresh = fresh (grant_key digest r token)
  exists-after_grants now r token (g ∷ gs) s n (before, named, all) fresh =
      redis.exists-set_ex g.at now (grant_key digest g.room g.token) (grant_key digest r token)
        grant_ttl_seconds (after_grants gs s) before
      ∙ (λ i.
          if grant_key_test digest g.room r g.token token named n hex i
          then ltb now (g.at + 86_400_000)
          else exists-after_grants now r token gs s n all fresh i)

  -- A room is open to whoever asks exactly where it has no password, or to its owner, or to a token that
  -- was let into it within the last 24 hours under a password of the same version, where names and
  -- versions have no colon and Redis had no keys before the grants.
  pub has_room_access-eq-may_enter :
      (now : Time) (r : Room) (token : Option AuthToken) (session : Option ℕ) (gs : List Grant)
      (s : S)
      → no_colon r.name ≡ true
      → AreGrants now gs
      → ((key : String) → redis.exists now key s ≡ false)
      → has_room_access redis digest now r token session (after_grants gs s)
        ≡ may_enter digest now r token session gs
  unfolding has_room_access
  has_room_access-eq-may_enter now r none session gs s n all fresh = ground arith
  has_room_access-eq-may_enter now r (some token) session gs s n all fresh =
      ground (arith, exists-after_grants now r token gs s n all fresh)
