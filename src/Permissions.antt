-- ===== src/Permissions.antt =====
-- common/permissions.ts, the table of permissions and the masks made of it; common/models/types.ts,
-- the roles. A mask is a number whose bit k stands for the permission `1 << k`.
pub mod Grants
pub mod Masks
use Prim.Native.Nat.{bit_or, bit_and}
use opentogethertube_cn.Common.{
  ℕ, zero, suc, ◌-◌, ◌^◌, ◌≡◌, refl, ◌↔◌, Bool, true, false, not, ◌||◌, Option, none, some, List,
  [], ◌∷◌, map, arith, String, ◌==◌, starts_with, if◌then◌else◌,
}
use opentogethertube_cn.Common.Int.{ℤ, pos, negsuc, ltb_ℤ, eqb_ℤ}
use opentogethertube_cn.Common.Dict.{Eq}

pub data Role : Type 0 where
  owner unregistered_user registered_user trusted_user moderator administrator : Role

-- The value of the enumeration's member.
abbrev pub rank : Role → ℤ
rank owner = negsuc 0
rank unregistered_user = pos 0
rank registered_user = pos 1
rank trusted_user = pos 2
rank moderator = pos 3
rank administrator = pos 4

-- The member with a given value; `none` where `isRoleValid` fails.
abbrev pub role_of : ℤ → Option Role
role_of (negsuc zero) = some owner
role_of (negsuc (suc n)) = none
role_of (pos zero) = some unregistered_user
role_of (pos (suc zero)) = some registered_user
role_of (pos (suc (suc zero))) = some trusted_user
role_of (pos (suc (suc (suc zero)))) = some moderator
role_of (pos (suc (suc (suc (suc zero))))) = some administrator
role_of (pos (suc (suc (suc (suc (suc n)))))) = none

pub role_of-rank : (r : Role) → role_of (rank r) ≡ some r
role_of-rank owner = refl
role_of-rank _ = refl

abbrev pub same_role : Role → Role → Bool
same_role a b = eqb_ℤ (rank a) (rank b)

pub same_role_iff : (a b : Role) → (same_role a b ≡ true) ↔ (a ≡ b)
same_role_iff a b = ground arith

instance abbrev pub role_eq : Eq Role
role_eq = record { same = same_role; same_iff = same_role_iff }

abbrev pub GrantMask : Type 0
GrantMask = ℕ

abbrev pub PermissionName : Type 0
PermissionName = String

pub record Permission : Type 0 where
  pub name : PermissionName
  pub mask : GrantMask
  pub min_role : Role

abbrev grant : PermissionName → ℕ → Role → Permission
grant name k min_role = record { name = name; mask = 2 ^ k; min_role = min_role }

unfoldable pub permissions : List Permission
permissions =
    grant "playback.play-pause" 0 unregistered_user
    ∷ grant "playback.skip" 1 unregistered_user
    ∷ grant "playback.seek" 2 unregistered_user
    ∷ grant "manage-queue.add" 3 unregistered_user
    ∷ grant "manage-queue.remove" 4 registered_user
    ∷ grant "manage-queue.order" 5 unregistered_user
    ∷ grant "manage-queue.vote" 6 unregistered_user
    ∷ grant "chat" 7 unregistered_user
    ∷ grant "configure-room.set-title" 8 registered_user
    ∷ grant "configure-room.set-description" 9 registered_user
    ∷ grant "configure-room.set-visibility" 10 registered_user
    ∷ grant "configure-room.set-queue-mode" 11 registered_user
    ∷ grant "configure-room.set-permissions.for-moderator" 12 administrator
    ∷ grant "configure-room.set-permissions.for-trusted-users" 13 moderator
    ∷ grant "configure-room.set-permissions.for-all-registered-users" 14 trusted_user
    ∷ grant "configure-room.set-permissions.for-all-unregistered-users" 15 registered_user
    ∷ grant "manage-users.promote-admin" 16 administrator
    ∷ grant "manage-users.demote-admin" 17 administrator
    ∷ grant "manage-users.promote-moderator" 18 moderator
    ∷ grant "manage-users.demote-moderator" 19 moderator
    ∷ grant "manage-users.promote-trusted-user" 20 trusted_user
    ∷ grant "manage-users.demote-trusted-user" 21 trusted_user
    ∷ grant "configure-room.other" 22 registered_user
    ∷ grant "playback.speed" 23 unregistered_user
    ∷ grant "manage-users.kick" 24 trusted_user
    ∷ grant "manage-queue.play-now" 25 unregistered_user
    ∷ grant "manage-queue.edit" 26 unregistered_user
    ∷ grant "configure-room.set-notes" 27 unregistered_user
    ∷ grant "configure-room.set-danmaku-source" 28 unregistered_user
    ∷ []

-- `key.startsWith(perm) || perm === "*"`
unfoldable pub matches : PermissionName → Permission → Bool
matches perm p = starts_with p.name perm || perm == "*"

-- `permMaskMap.forEach(...)`: the names of the table are distinct, so the map is the table.
unfoldable pub add_matching : PermissionName → List Permission → GrantMask → GrantMask
unfolding matches
add_matching perm [] mask = mask
add_matching perm (p ∷ ps) mask =
    add_matching perm ps (if matches perm p then bit_or mask p.mask else mask)

unfoldable pub add_names : List PermissionName → GrantMask → GrantMask
unfolding add_matching permissions
add_names [] mask = mask
add_names (perm ∷ perms) mask = add_names perms (add_matching perm permissions mask)

unfoldable pub parse_into_grant_mask : List PermissionName → GrantMask
unfolding add_names
parse_into_grant_mask perms = add_names perms 0

-- The permissions that a role may hold: `role >= p.minRole`.
abbrev pub allows : Role → Permission → Bool
allows r p = not (ltb_ℤ (rank r) (rank p.min_role))

unfoldable pub union_of_allowed : Role → List Permission → GrantMask → GrantMask
union_of_allowed r [] full = full
union_of_allowed r (p ∷ ps) full =
    union_of_allowed r ps (if allows r p then bit_or full p.mask else full)

-- No permission at all means every permission: this is the owner's case.
unfoldable pub any_allowed : Role → List Permission → Bool
any_allowed r [] = false
any_allowed r (p ∷ ps) = allows r p || any_allowed r ps

unfoldable pub get_validation_mask : Role → GrantMask
unfolding union_of_allowed any_allowed parse_into_grant_mask permissions
get_validation_mask r =
    if any_allowed r permissions
    then union_of_allowed r permissions 0
    else parse_into_grant_mask ("*" ∷ [])

pub everything : parse_into_grant_mask ("*" ∷ []) ≡ 2 ^ 29 - 1
unfolding parse_into_grant_mask
everything = refl
