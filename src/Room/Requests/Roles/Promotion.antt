-- ===== src/Room/Requests/Roles/Promotion.antt =====
-- server/room.ts: what a promotion gives.
use opentogethertube_cn.Common.{◌≡◌, ◌∙◌, true, false, Option, none, some, ap, if_both, arith}
use opentogethertube_cn.Common.Int.{ℤ, ltb_ℤ}
use opentogethertube_cn.Exceptions.{Result, ok, err, impossible_promotion}
use opentogethertube_cn.Permissions.{Role, rank, role_of, role_eq, registered_user, PermissionName}
use opentogethertube_cn.Permissions.Grants.{named, check}
use opentogethertube_cn.Room.State.{Room, RoomUserInfo, ClientId, RoomUser, Account}
use opentogethertube_cn.Room.Users.{
  get_user, get_role, is_owner, is_logged_in, account_role, role_or, same_account,
}
use opentogethertube_cn.Room.Requests.{Context, Reply, done, thrown, with_value, require_if}
use opentogethertube_cn.Room.Requests.Members.{known_info, sync_user}
use opentogethertube_cn.Room.Requests.Roles.{
  assign_role, assign_user, promote_checked, promote_target, promote_user, assignable,
  assignable_if, cannot_change, check_demotion, require_demotion, promotion_permission,
  demotion_permission,
}
use opentogethertube_cn.Room.Requests.Roles.Assignment.{
  HasSets, role_in, as_assigned, assigned_role-role_in, assign_role-role,
}

-- What holds of the room that a successful request leaves.
abbrev pub OnSuccess : (Room → Type 0) → Reply → Type 0
OnSuccess P (done r) = P r
OnSuccess P (thrown e r) = Unit

value-OnSuccess :
    (P : Room → Type 0) {A : Type 0} (x : Result A) (r : Room) (next : A → Reply)
    → ((a : A) → OnSuccess P (next a))
    → OnSuccess P (with_value x r next)
value-OnSuccess P (ok a) r next f = f a
value-OnSuccess P (err e) r next f = tt

require_if-OnSuccess :
    (P : Room → Type 0) (name : Option PermissionName) (c : Context) (r : Room)
    (next : Room → Reply)
    → OnSuccess P (next r)
    → OnSuccess P (require_if name c r next)
require_if-OnSuccess P none c r next f = f
require_if-OnSuccess P (some name) c r next f =
    value-OnSuccess P (check r.grants c.role (named name)) r (λ _. next r) (λ _. f)

demotion-OnSuccess :
    (P : Room → Type 0) (name : Option PermissionName) (c : Context) (r : Room)
    (next : Room → Reply)
    → OnSuccess P (next r)
    → OnSuccess P (require_demotion name c r next)
demotion-OnSuccess P none c r next f = tt
demotion-OnSuccess P (some name) c r next f =
    value-OnSuccess P (check r.grants c.role (named name)) r (λ _. next r) (λ _. f)

-- A role that may be assigned is one of the sets, or the one of all registered users.
assignable_if-known :
    (o : Option Role) (role : Role)
    → assignable_if o ≡ some role
    → role_or (as_assigned role) registered_user ≡ role
assignable_if-known o role h = ground (arith, h)

-- A user with an account that is not the owner's, and how they are known to the room.
module _ (role : Role) (u : RoomUser) (a : Account) (r : Room) (account : u.user ≡ some a)
    (id : u.user_id ≡ some a.id) (guest : is_owner r u ≡ false) (logged_in : is_logged_in u ≡ true)
    (h : HasSets r.user_roles) (known : role_or (as_assigned role) registered_user ≡ role) where
  -- Any room with the same owner in which the user was given the role.
  module _ (after : Room) (same_owner : after.owner ≡ r.owner)
      (given : after.user_roles ≡ assign_role role a.id r.user_roles) where
    account_role-given : account_role u.user after ≡ as_assigned role
    account_role-given =
        ap (λ o. account_role o after) account
        ∙ assigned_role-role_in a.id after
        ∙ ap (role_in a.id) given
        ∙ assign_role-role role a.id r.user_roles h

    is_owner-given : is_owner after u ≡ false
    unfolding is_owner
    is_owner-given = ap (same_account u.user) same_owner ∙ guest

    get_role-given : get_role after u ≡ role
    unfolding get_role
    get_role-given =
        rw (is_owner-given, logged_in)
          (ap (λ o. role_or o registered_user) account_role-given ∙ known)

  assigned : Room
  assigned = record r { user_roles = assign_role role a.id r.user_roles }

  assign_user-assigned : assign_user role u.user_id r ≡ assigned
  unfolding assigned
  assign_user-assigned = ap (λ o. assign_user role o r) id

  -- The handler past its checks.
  checked-gives :
      (current : Role)
      → OnSuccess (λ after. get_role after u ≡ role) (promote_checked role u current r)
  unfolding promote_checked assigned
  checked-gives current =
      if_both (OnSuccess P) (cannot_change current) (thrown impossible_promotion r) (reply changed)
        tt
        (value-OnSuccess P (known_info u.id changed) changed (λ info. done (sync_user info changed))
          synced)
    where
      P : Room → Type 0
      P after = get_role after u ≡ role

      changed : Room
      changed = assign_user role u.user_id r

      reply : Room → Reply
      reply r = with_value (known_info u.id r) r (λ info. done (sync_user info r))

      synced : (info : RoomUserInfo) → P (sync_user info changed)
      synced info =
          get_role-given (sync_user info changed) (ap (λ (x : Room). x.owner) assign_user-assigned)
            (ap (λ (x : Room). x.user_roles) assign_user-assigned)

  target-gives :
      (c : Context) → OnSuccess (λ after. get_role after u ≡ role) (promote_target role u c r)
  target-gives c =
      require_if-OnSuccess P (promotion_permission role) c r
        (λ r. check_demotion role (get_role r u) c r (promote_checked role u (get_role r u)))
        (if_both (OnSuccess P) (ltb_ℤ (rank role) (rank (get_role r u)))
          (require_demotion (demotion_permission (get_role r u)) c r
            (promote_checked role u (get_role r u)))
          (promote_checked role u (get_role r u) r)
          (demotion-OnSuccess P (demotion_permission (get_role r u)) c r
            (promote_checked role u (get_role r u)) (checked-gives (get_role r u)))
          (checked-gives (get_role r u)))
    where
      P : Room → Type 0
      P after = get_role after u ≡ role

-- When a request gives a registered user, who is not the owner, a role that may be assigned, and it
-- succeeds, then that role is the user's role afterwards, whatever roles the sets gave them before.
pub promote_user-gives :
    (client : ClientId) (n : ℤ) (c : Context) (r : Room) (role : Role) (u : RoomUser) (a : Account)
    → assignable (some n) ≡ some role
    → get_user client r ≡ some u
    → u.user ≡ some a
    → u.user_id ≡ some a.id
    → is_owner r u ≡ false
    → is_logged_in u ≡ true
    → HasSets r.user_roles
    → OnSuccess (λ after. get_role after u ≡ role) (promote_user client (some n) c r)
unfolding promote_user
promote_user-gives client n c r role u a e f account id guest logged_in h =
    rw (e, f)
      (target-gives role u a r account id guest logged_in h (assignable_if-known (role_of n) role e)
        c)
