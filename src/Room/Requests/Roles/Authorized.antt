-- ===== src/Room/Requests/Roles/Authorized.antt =====
-- server/room.ts: the permissions that a promotion or a demotion takes.
use opentogethertube_cn.Common.{
  ◌≡◌, refl, Bool, true, false, Option, none, some, is_some, if◌then◌else◌, Bool-cases, inl, inr,
}
use opentogethertube_cn.Common.Int.{ℤ, ltb_ℤ}
use opentogethertube_cn.Permissions.{Role, rank, PermissionName}
use opentogethertube_cn.Permissions.Grants.{granted, named, check}
use opentogethertube_cn.Room.State.{Room, ClientId, RoomUser}
use opentogethertube_cn.Room.Users.{get_user, get_role}
use opentogethertube_cn.Room.Requests.{Context, Reply, done, thrown, require, require_if}
use opentogethertube_cn.Room.Requests.Roles.{
  promote_checked, promote_user, assignable, check_demotion, require_demotion, promotion_permission,
  demotion_permission,
}
use opentogethertube_cn.Room.Requests.Roles.Promotion.{OnSuccess}
use opentogethertube_cn.Room.Consistency.{ForSome}

-- The sender of a request is granted a permission.
abbrev pub May : Context → Room → PermissionName → Type 0
May c r name = granted r.grants c.role (named name) ≡ true

-- The permission to give the new role, if it takes one, and, where the new role is below the present
-- one, the permission to take that away, which there is.
abbrev pub IsAuthorized : Role → Role → Context → Room → Type 0
IsAuthorized new current c r =
    ForSome (May c r) (promotion_permission new)
    × (if ltb_ℤ (rank new) (rank current)
        then (is_some (demotion_permission current) ≡ true)
          × ForSome (May c r) (demotion_permission current)
        else Unit)

-- Whatever the handler leaves past its checks, they were passed.
anyway : (P : Type 0) (reply : Reply) → P → OnSuccess (λ _. P) reply
anyway P (done r) p = p
anyway P (thrown e r) p = tt

require-May :
    (P : Type 0) (name : PermissionName) (c : Context) (r : Room) (next : Room → Reply)
    → (May c r name → OnSuccess (λ _. P) (next r))
    → OnSuccess (λ _. P) (require name c r next)
unfolding check
require-May P name c r next f = elim (Bool-cases (granted r.grants c.role (named name))) [
  | inl g ↦ rw g (f g)
  | inr g ↦ rw g tt
]

require_if-May :
    (P : Type 0) (name : Option PermissionName) (c : Context) (r : Room) (next : Room → Reply)
    → (ForSome (May c r) name → OnSuccess (λ _. P) (next r))
    → OnSuccess (λ _. P) (require_if name c r next)
require_if-May P none c r next f = f tt
require_if-May P (some name) c r next f = require-May P name c r next f

demotion-May :
    (P : Type 0) (name : Option PermissionName) (c : Context) (r : Room) (next : Room → Reply)
    → ((is_some name ≡ true) × ForSome (May c r) name → OnSuccess (λ _. P) (next r))
    → OnSuccess (λ _. P) (require_demotion name c r next)
demotion-May P none c r next f = tt
demotion-May P (some name) c r next f = require-May P name c r next (λ g. f (refl, g))

demote-May :
    (P : Type 0) (new current : Role) (c : Context) (r : Room) (next : Room → Reply)
    → ((if ltb_ℤ (rank new) (rank current)
          then (is_some (demotion_permission current) ≡ true)
            × ForSome (May c r) (demotion_permission current)
          else Unit)
        → OnSuccess (λ _. P) (next r))
    → OnSuccess (λ _. P) (check_demotion new current c r next)
demote-May P new current c r next f = below (ltb_ℤ (rank new) (rank current)) f
  where
    below :
        (b : Bool)
        → ((if b
              then (is_some (demotion_permission current) ≡ true)
                × ForSome (May c r) (demotion_permission current)
              else Unit)
            → OnSuccess (λ _. P) (next r))
        → OnSuccess
            (λ _. P)
            (if b then require_demotion (demotion_permission current) c r next else next r)
    below true f = demotion-May P (demotion_permission current) c r next f
    below false f = f tt

-- A request to give a user another role succeeds only if its sender has the permission that the new
-- role takes and, where the new role is below the present one, the permission to take that away; the
-- roles with no such permission cannot be taken away.
pub promote_user-IsAuthorized :
    (client : ClientId) (n : ℤ) (c : Context) (r : Room) (role : Role) (u : RoomUser)
    → assignable (some n) ≡ some role
    → get_user client r ≡ some u
    → OnSuccess (λ _. IsAuthorized role (get_role r u) c r) (promote_user client (some n) c r)
unfolding promote_user
promote_user-IsAuthorized client n c r role u e f =
    let current = get_role r u in
    rw (e, f)
      (require_if-May (IsAuthorized role current c r) (promotion_permission role) c r
        (λ r. check_demotion role (get_role r u) c r (promote_checked role u (get_role r u)))
        λ g.
          demote-May (IsAuthorized role current c r) role current c r
            (promote_checked role u current)
            λ d. anyway (IsAuthorized role current c r) (promote_checked role u current r) (g, d))
