-- ===== src/Permissions/Masks.antt =====
-- The masks of the table of permissions, evaluated, and what follows for every permission name.
use Prim.Native.Nat.{bit_and}
use opentogethertube_cn.Common.{
  ◌-◌, ◌^◌, ◌≡◌, refl, Bool, true, false, List, [], ◌∷◌, arith, all, eqb, if◌then◌else◌,
}
use opentogethertube_cn.Common.Bits.{Includes, bit_or-Includes}
use opentogethertube_cn.Permissions.{
  owner, administrator, GrantMask, PermissionName, Permission, permissions, matches, add_matching,
  add_names, parse_into_grant_mask, get_validation_mask,
}

-- `parseIntoGrantMask(["*"])`
abbrev pub all_mask : GrantMask
all_mask = 2 ^ 29 - 1

pub parse_star : parse_into_grant_mask ("*" ∷ []) ≡ all_mask
unfolding parse_into_grant_mask
parse_star = refl

pub get_validation_mask-owner : get_validation_mask owner ≡ all_mask
unfolding get_validation_mask
get_validation_mask-owner = refl

pub get_validation_mask-administrator : get_validation_mask administrator ≡ all_mask
unfolding get_validation_mask
get_validation_mask-administrator = refl

within : List Permission → Bool
within = all (λ p. eqb (bit_and all_mask p.mask) p.mask)

within_table : within permissions ≡ true
unfolding within permissions
within_table = refl

if-Includes :
    (b : Bool) {x y : GrantMask}
    → Includes all_mask x
    → Includes all_mask y
    → Includes all_mask (if b then x else y)
if-Includes true h k = h
if-Includes false h k = k

add_matching-Includes :
    (perm : PermissionName) (ps : List Permission) (mask : GrantMask)
    → within ps ≡ true
    → Includes all_mask mask
    → Includes all_mask (add_matching perm ps mask)
unfolding add_matching within
add_matching-Includes perm [] mask h k = k
add_matching-Includes perm (p ∷ ps) mask h k =
    add_matching-Includes perm ps _ (ground arith)
      (if-Includes (matches perm p) (bit_or-Includes all_mask mask p.mask k (ground arith)) k)

add_names-Includes :
    (perms : List PermissionName) (mask : GrantMask)
    → Includes all_mask mask
    → Includes all_mask (add_names perms mask)
unfolding add_names
add_names-Includes [] mask k = k
add_names-Includes (perm ∷ perms) mask k =
    add_names-Includes perms _ (add_matching-Includes perm permissions mask within_table k)

-- Whatever the names, the mask stays within the table's.
pub parse_into_grant_mask-Includes :
    (perms : List PermissionName) → Includes all_mask (parse_into_grant_mask perms)
unfolding parse_into_grant_mask
parse_into_grant_mask-Includes perms = add_names-Includes perms 0 refl
