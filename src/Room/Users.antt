-- ===== src/Room/Users.antt =====
-- server/room.ts: the users of a room, their roles, and what a request's permissions are checked
-- against.
use opentogethertube_cn.Common.{
  ℕ, Bool, false, not, Option, none, some, List, map, if◌then◌else◌, eqb, find, any, String, ◌==◌,
  select,
}
use opentogethertube_cn.Common.Dict.{get}
use opentogethertube_cn.Permissions.{
  Role, owner, unregistered_user, registered_user, trusted_user, moderator, administrator, role_eq,
  PermissionName,
}
use opentogethertube_cn.Permissions.Grants.{granted, named}
use opentogethertube_cn.Room.State.{
  Room, RoomUser, RoomUserInfo, Account, ClientId, AuthToken, PlayerStatus,
}

abbrev pub truthy_id : Option ℕ → Bool
truthy_id none = false
truthy_id (some n) = not (eqb n 0)

-- `!!this.user_id`
abbrev pub is_logged_in : RoomUser → Bool
is_logged_in u = truthy_id u.user_id

abbrev pub account_name : Option Account → String → String
account_name none name = name
account_name (some a) name = a.username

unfoldable pub username : RoomUser → String
username u =
    if is_logged_in u then account_name u.user u.unregistered_username else u.unregistered_username

-- The info that the client manager has of a client.
pub record ClientInfo : Type 0 where
  pub id : ClientId
  pub username : Option String
  pub user_id : Option ℕ
  pub status : Option PlayerStatus

abbrev pub nonempty : Option String → Bool
nonempty none = false
nonempty (some s) = not (s == "")

abbrev pub some_or {ℓ} : {A : Type ℓ} → Option A → A → A
some_or none old = old
some_or (some new) old = new

-- `updateInfo`, where `account` is what the user manager answers for a given `user_id`. The
-- diagnostics, which are only logged, are left out.
unfoldable pub update_info : Option Account → ClientInfo → RoomUser → RoomUser
update_info account info u =
    let named =
      if truthy_id info.user_id
      then record u { user_id = info.user_id; user = account }
      else if nonempty info.username
      then record u {
        unregistered_username = some_or info.username u.unregistered_username;
        user_id = none;
        user = none;
      }
      else u in
    record named { player_status = some_or info.status named.player_status }

abbrev pub same_account : Option Account → Option Account → Bool
same_account (some a) (some b) = eqb a.id b.id
same_account _ _ = false

-- `isOwner`
unfoldable pub is_owner : Room → RoomUser → Bool
is_owner r u = same_account u.user r.owner

-- `this.userRoles.get(role)?.has(id)`
unfoldable pub holds : Role → ℕ → Room → Bool
unfolding get
holds role id r = elim (get role r.user_roles) [ none ↦ false | some ids ↦ any (λ n. eqb n id) ids ]

-- The loop from the administrators down to the trusted users.
unfoldable pub assigned_role : ℕ → Room → Option Role
unfolding holds
assigned_role id r =
    if holds administrator id r
    then some administrator
    else if holds moderator id r
    then some moderator
    else if holds trusted_user id r
    then some trusted_user
    else none

abbrev pub account_role : Option Account → Room → Option Role
account_role none r = none
account_role (some a) r = assigned_role a.id r

abbrev pub role_or : Option Role → Role → Role
role_or none d = d
role_or (some role) d = role

-- `getRole` of a user.
unfoldable pub get_role : Room → RoomUser → Role
unfolding is_owner assigned_role
get_role r u =
    if is_owner r u
    then owner
    else role_or (account_role u.user r)
        (if is_logged_in u then registered_user else unregistered_user)

-- A session's user, if it is logged in.
abbrev pub owner_is : Option Account → ℕ → Bool
owner_is none id = false
owner_is (some a) id = eqb a.id id

-- `getRoleFromSession`, of the user id that the session has.
unfoldable pub get_role_from_session : Room → Option ℕ → Role
unfolding assigned_role
get_role_from_session r none = unregistered_user
get_role_from_session r (some id) =
    if owner_is r.owner id then owner else role_or (assigned_role id r) registered_user

-- `getUser`, `getUserFromToken`
unfoldable pub get_user : ClientId → Room → Option RoomUser
get_user client r = find (λ u. u.id == client) r.realusers

unfoldable pub get_user_from_token : AuthToken → Room → Option RoomUser
get_user_from_token token r = find (λ u. u.token == token) r.realusers

unfoldable pub info_of : Room → RoomUser → RoomUserInfo
unfolding username get_role
info_of r u = record {
  id = u.id;
  name = username u;
  is_logged_in = is_logged_in u;
  status = u.player_status;
  role = get_role r u;
}

-- `get users()`
unfoldable pub users : Room → List RoomUserInfo
unfolding info_of
users r = map (info_of r) r.realusers

-- `getUserInfo`; `none` where it throws.
unfoldable pub get_user_info : ClientId → Room → Option RoomUserInfo
unfolding users
get_user_info client r = find (λ u. u.id == client) (users r)

-- `this.grants.granted(this.getRole(user), name)`
unfoldable pub user_granted : PermissionName → Room → RoomUser → Bool
unfolding get_role
user_granted name r u = granted r.grants (get_role r u) (named name)

-- `eligiblePreparers`
unfoldable pub eligible_preparers : Room → List RoomUser
unfolding user_granted
eligible_preparers r = select (user_granted "playback.play-pause" r) r.realusers
