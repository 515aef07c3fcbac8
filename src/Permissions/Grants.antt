-- ===== src/Permissions/Grants.antt =====
-- common/permissions.ts, the class `Grants`: masks of roles with inheritance.
pub mod Inheritance
pub mod Safety
use Prim.Native.Nat.{bit_and, bit_or}
use opentogethertube_cn.Common.{
  ℕ, zero, suc, ◌-◌, ◌≡◌, refl, Bool, true, false, not, Option, none, some, List, [], ◌∷◌, map, eqb,
  or_else, any, if◌then◌else◌,
}
use opentogethertube_cn.Common.Int.{ℤ}
use opentogethertube_cn.Common.Dict.{get, put, remove, of_entries, keys, int_eq}
use opentogethertube_cn.Exceptions.{Result, ok, err, ◌>>=◌, permission_denied, invalid_role}
use opentogethertube_cn.Permissions.{
  Role, owner, unregistered_user, registered_user, trusted_user, moderator, administrator, rank,
  role_of, same_role, role_eq, GrantMask, PermissionName, Permission, parse_into_grant_mask,
  get_validation_mask,
}

-- `masks: Map<Role, GrantMask>`
pub record Grants : Type 0 where
  pub masks : List (Role × GrantMask)

abbrev pub no_grants : Grants
no_grants = record { masks = [] }

-- A list of names or a mask.
pub data PermissionsInput : Type 0 where
  names : List PermissionName → PermissionsInput
  mask : GrantMask → PermissionsInput

unfoldable pub normalize_permissions_input : PermissionsInput → GrantMask
normalize_permissions_input (names ps) = parse_into_grant_mask ps
normalize_permissions_input (mask m) = m

unfoldable pub get_mask : Grants → Role → Option GrantMask
unfolding get
get_mask g r = get r g.masks

-- The mask as the bit operations read it: `undefined` counts as 0.
abbrev pub mask_bits : Grants → Role → GrantMask
mask_bits g r = or_else (get_mask g r) 0

-- The loop of `_processInheritance`, over the roles from the lowest to the highest.
unfoldable pub inherit : List Role → GrantMask → Grants → Grants
unfolding put
inherit [] fullmask g = g
inherit (r ∷ rs) fullmask g =
    let full = bit_or fullmask (mask_bits g r) in
    inherit rs full (record { masks = put r full g.masks })

abbrev pub ladder : List Role
ladder = unregistered_user ∷ registered_user ∷ trusted_user ∷ moderator ∷ administrator ∷ []

unfoldable pub process_inheritance : Grants → Grants
unfolding inherit
process_inheritance g = inherit ladder 0 g

-- `setRoleGrants` after its check of the role.
unfoldable pub store_role_grants : Role → GrantMask → Grants → Grants
unfolding process_inheritance put
store_role_grants r m g =
    process_inheritance (record { masks = put r (bit_and m (get_validation_mask r)) g.masks })

unfoldable pub set_role_grants : ℤ → PermissionsInput → Grants → Result Grants
unfolding store_role_grants normalize_permissions_input
set_role_grants role permissions g = elim (role_of role) [
  | none ↦ err (invalid_role role)
  | some r ↦ ok (store_role_grants r (normalize_permissions_input permissions) g)
]

-- The loop of `setAllGrants` over a map, which passes over a mask of 0.
unfoldable pub set_map_entries : List (ℤ × GrantMask) → Grants → Result Grants
unfolding set_role_grants
set_map_entries [] g = ok g
set_map_entries ((role, m) ∷ es) g =
    (if eqb m 0 then ok g else set_role_grants role (mask m) g) >>= set_map_entries es

-- The loop over an object's properties, which does not.
unfoldable pub set_object_entries : List (ℤ × GrantMask) → Grants → Result Grants
unfolding set_role_grants
set_object_entries [] g = ok g
set_object_entries ((role, m) ∷ es) g = set_role_grants role (mask m) g >>= set_object_entries es

-- What `setAllGrants` accepts: a map, other grants, an object from roles to masks in the order of
-- its properties. An array is first made a map.
pub data GrantsInput : Type 0 where
  a_map : List (ℤ × GrantMask) → GrantsInput
  an_array : List (ℤ × GrantMask) → GrantsInput
  grants : Grants → GrantsInput
  an_object : List (ℤ × GrantMask) → GrantsInput

-- `[...this.masks]`
unfoldable pub to_json : Grants → List (ℤ × GrantMask)
to_json g = map (λ (e : Role × GrantMask). (rank e.0, e.1)) g.masks

unfoldable pub set_all_grants : GrantsInput → Result Grants
unfolding set_map_entries set_object_entries to_json of_entries
set_all_grants (a_map es) = set_map_entries es no_grants
set_all_grants (an_array es) = set_map_entries (of_entries es []) no_grants
set_all_grants (grants g) = set_map_entries (to_json g) no_grants
set_all_grants (an_object es) = set_object_entries es no_grants

abbrev pub star : PermissionsInput
star = names ("*" ∷ [])

-- `constructor(grants)`, for given grants.
unfoldable pub new_grants : GrantsInput → Result Grants
unfolding set_all_grants
new_grants input = do
  g ← set_all_grants input
  g' ← set_role_grants (rank administrator) star g
  set_role_grants (rank owner) star g'

-- `defaultPermissions()`; an object lists the roles from 0 on before the negative one.
unfoldable pub default_permissions : Result Grants
unfolding new_grants
default_permissions = new_grants (
    an_object (
      (
        rank unregistered_user,
        parse_into_grant_mask (
            "playback" ∷ "manage-queue.add" ∷ "manage-queue.order" ∷ "manage-queue.vote"
            ∷ "manage-queue.play-now" ∷ "manage-queue.edit" ∷ "chat" ∷ "configure-room.set-notes"
            ∷ "configure-room.set-danmaku-source" ∷ []),
      )
      ∷ (
        rank registered_user,
        parse_into_grant_mask (
            "manage-queue.remove" ∷ "configure-room.set-title" ∷ "configure-room.set-description"
            ∷ "configure-room.set-visibility" ∷ "configure-room.set-queue-mode"
            ∷ "configure-room.other" ∷ []),
      )
      ∷ (rank trusted_user, parse_into_grant_mask [])
      ∷ (
        rank moderator,
        parse_into_grant_mask (
            "manage-users.promote-trusted-user" ∷ "manage-users.demote-trusted-user"
            ∷ "manage-users.kick" ∷ []),
      )
      ∷ (rank administrator, parse_into_grant_mask ("*" ∷ []))
      ∷ (rank owner, parse_into_grant_mask ("*" ∷ []))
      ∷ []))

-- A permission's object or its name.
pub data Requested : Type 0 where
  object : Permission → Requested
  named : PermissionName → Requested

unfoldable pub check_mask : Requested → GrantMask
check_mask (object p) = p.mask
check_mask (named n) = parse_into_grant_mask (n ∷ [])

unfoldable pub granted : Grants → Role → Requested → Bool
unfolding get_mask check_mask
granted g r q = eqb (bit_and (mask_bits g r) (check_mask q)) (check_mask q)

abbrev pub name_of : Requested → PermissionName
name_of (object p) = p.name
name_of (named n) = n

unfoldable pub check : Grants → Role → Requested → Result (Unit {0})
unfolding granted
check g r q = if granted g r q then ok tt else err (permission_denied (name_of q))

-- `deserialize`, from the parsed entries.
unfoldable pub deserialize : List (ℤ × GrantMask) → Result Grants
unfolding set_all_grants
deserialize es = do g ← set_all_grants (an_array es); set_role_grants (rank owner) star g

unfoldable pub delete_role : Role → Grants → Grants
unfolding remove
delete_role r g = record { masks = remove r g.masks }

unfoldable pub get_roles : Grants → List Role
unfolding keys
get_roles g = keys g.masks

unfoldable pub filter_roles : List Role → List Role → Grants → Grants
unfolding delete_role
filter_roles kept [] g = g
filter_roles kept (r ∷ rs) g =
    filter_roles kept rs (if any (same_role r) kept then g else delete_role r g)

abbrev pub room_permissions_revision : ℕ
room_permissions_revision = 1

-- `PERMISSION_ADDITIONS[revision]`
unfoldable pub permission_additions : ℕ → List PermissionName
permission_additions (suc zero) = "configure-room.set-danmaku-source" ∷ []
permission_additions _ = []

-- One revision's additions go to the lowest role.
unfoldable pub apply_revision : ℕ → Grants → Grants
unfolding store_role_grants get_mask permission_additions
apply_revision revision g = elim (permission_additions revision) [
  | [] ↦ g
  | n ∷ ns ↦
      store_role_grants unregistered_user
        (bit_or (mask_bits g unregistered_user) (parse_into_grant_mask (n ∷ ns))) g
]

-- The revisions after `from`, `n` of them.
unfoldable pub apply_revisions : (n from : ℕ) → Grants → Grants
unfolding apply_revision
apply_revisions zero from g = g
apply_revisions (suc n) from g = apply_revisions n (suc from) (apply_revision (suc from) g)

unfoldable pub apply_permission_additions : Grants → ℕ → Grants
unfolding apply_revisions
apply_permission_additions g from = apply_revisions (room_permissions_revision - from) from g
