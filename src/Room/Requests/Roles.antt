-- ===== src/Room/Requests/Roles.antt =====
-- server/room.ts: `promoteUser`.
pub mod Assignment
pub mod Promotion
pub mod Authorized
use opentogethertube_cn.Common.{
  ℕ, Bool, true, false, not, Option, none, some, List, [], ◌∷◌, ◌++◌, if◌then◌else◌, eqb, any,
  select,
}
use opentogethertube_cn.Common.Int.{ℤ, ltb_ℤ}
use opentogethertube_cn.Common.Dict.{get, put}
use opentogethertube_cn.Exceptions.{bad_api_argument, plain, impossible_promotion}
use opentogethertube_cn.Permissions.{
  Role, rank, role_of, role_eq, owner, unregistered_user, trusted_user, moderator, administrator,
  PermissionName,
}
use opentogethertube_cn.Room.State.{Room, ClientId, RoomUser}
use opentogethertube_cn.Room.Users.{get_user, get_role}
use opentogethertube_cn.Room.Requests.{
  Context, Reply, done, thrown, require_if, require, with_value,
}
use opentogethertube_cn.Room.Requests.Members.{known_info, sync_user}

-- The roles that a request may assign; `none` is what is no integer, or out of range.
abbrev pub assignable_if : Option Role → Option Role
assignable_if none = none
assignable_if (some owner) = none
assignable_if (some unregistered_user) = none
assignable_if (some role) = some role

abbrev pub assignable : Option ℤ → Option Role
assignable none = none
assignable (some n) = assignable_if (role_of n)

unfoldable pub promotion_permission : Role → Option PermissionName
promotion_permission administrator = some "manage-users.promote-admin"
promotion_permission moderator = some "manage-users.promote-moderator"
promotion_permission trusted_user = some "manage-users.promote-trusted-user"
promotion_permission _ = none

unfoldable pub demotion_permission : Role → Option PermissionName
demotion_permission administrator = some "manage-users.demote-admin"
demotion_permission moderator = some "manage-users.demote-moderator"
demotion_permission trusted_user = some "manage-users.demote-trusted-user"
demotion_permission _ = none

abbrev pub require_demotion : Option PermissionName → Context → Room → (Room → Reply) → Reply
require_demotion none context r next = thrown impossible_promotion r
require_demotion (some name) context r next = require name context r next

-- A role below the present one needs the permission to take that away.
abbrev pub check_demotion : Role → Role → Context → Room → (Room → Reply) → Reply
check_demotion new current context r next =
    if ltb_ℤ (rank new) (rank current)
    then require_demotion (demotion_permission current) context r next
    else next r

abbrev pub drop_id : ℕ → List ℕ → List ℕ
drop_id id = select (λ n. not (eqb n id))

abbrev pub add_id : ℕ → List ℕ → List ℕ
add_id id ids = if any (λ n. eqb n id) ids then ids else ids ++ id ∷ []

-- Changes the set of a role, if the role has one.
abbrev pub change_set :
    Role → (List ℕ → List ℕ) → Option (List ℕ) → List (Role × List ℕ) → List (Role × List ℕ)
change_set role change none roles = roles
change_set role change (some ids) roles = put role (change ids) roles

abbrev pub drop_from : Role → ℕ → List (Role × List ℕ) → List (Role × List ℕ)
drop_from role id roles = change_set role (drop_id id) (get role roles) roles

abbrev pub add_to : Role → ℕ → List (Role × List ℕ) → List (Role × List ℕ)
add_to role id roles = change_set role (add_id id) (get role roles) roles

-- The id leaves the sets of all roles, and enters the one of its new role.
unfoldable pub assign_role : Role → ℕ → List (Role × List ℕ) → List (Role × List ℕ)
assign_role role id roles =
    let cleared =
      drop_from trusted_user id (drop_from moderator id (drop_from administrator id roles)) in
    if ltb_ℤ (rank role) (rank trusted_user) then cleared else add_to role id cleared

abbrev pub cannot_change : Role → Bool
cannot_change unregistered_user = true
cannot_change owner = true
cannot_change _ = false

abbrev pub assign_user : Role → Option ℕ → Room → Room
assign_user role none r = r
assign_user role (some id) r = record r { user_roles = assign_role role id r.user_roles }

-- The end of the handler once the permissions are there. What the storage does is left out.
unfoldable pub promote_checked : Role → RoomUser → Role → Room → Reply
unfolding assign_role
promote_checked role target current r =
    if cannot_change current
    then thrown impossible_promotion r
    else let changed = assign_user role target.user_id r in
      with_value (known_info target.id changed) changed (λ info. done (sync_user info changed))

abbrev pub promote_target : Role → RoomUser → Context → Room → Reply
promote_target role target context r = require_if (promotion_permission role) context r λ r.
    check_demotion role (get_role r target) context r
      (promote_checked role target (get_role r target))

abbrev pub promote_if : Option Role → Option RoomUser → Context → Room → Reply
promote_if none target context r = thrown (bad_api_argument "role") r
promote_if (some role) none context r = thrown (plain "Client not found.") r
promote_if (some role) (some target) context r = promote_target role target context r

unfoldable pub promote_user : ClientId → Option ℤ → Context → Room → Reply
unfolding get_user promote_checked promotion_permission demotion_permission
promote_user client role context r = promote_if (assignable role) (get_user client r) context r
