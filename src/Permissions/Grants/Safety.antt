-- ===== src/Permissions/Grants/Safety.antt =====
-- common/permissions.ts, `Grants`: who can be granted what, for all grants that the class can make.
use Prim.Native.Nat.{bit_and}
use opentogethertube_cn.Common.{
  ◌≡◌, ◌≢◌, refl, Bool, true, false, not, ◌||◌, List, [], ◌∷◌, arith, if◌then◌else◌, Bool-cases,
  inl, inr, eqb, eqb_iff, all, any, Memᴰ, all_of_mem, Option-cases,
}
use opentogethertube_cn.Common.Bits.{
  Includes, Includes-refl, Includes-trans, zero-Includes, Includes-bit_or_right,
}
use opentogethertube_cn.Common.Int.{ℤ, ◌≤ℤ◌}
use opentogethertube_cn.Common.Dict.{of_entries, int_eq}
use opentogethertube_cn.Exceptions.{Result, ok, err, ◌>>=◌}
use opentogethertube_cn.Permissions.{
  Role, owner, unregistered_user, registered_user, trusted_user, moderator, administrator, rank,
  role_of, GrantMask, get_validation_mask, Permission, PermissionName, permissions, allows, matches,
  add_matching, parse_into_grant_mask,
}
use opentogethertube_cn.Permissions.Masks.{
  all_mask, parse_star, get_validation_mask-owner, get_validation_mask-administrator,
  parse_into_grant_mask-Includes,
}
use opentogethertube_cn.Permissions.Grants.{
  Grants, no_grants, mask_bits, get_mask, store_role_grants, PermissionsInput, mask, star,
  set_role_grants, normalize_permissions_input, GrantsInput, a_map, an_array, grants, an_object,
  set_map_entries, set_object_entries, set_all_grants, to_json, new_grants, Requested, object,
  named, check_mask, granted,
}
use opentogethertube_cn.Permissions.Grants.Inheritance.{
  IsBounded, IsMonotone, store_role_grants-IsBounded, store_role_grants-IsMonotone,
  mask_bits-store_role_grants, inherited, stored,
}

granted-Includes :
    (g : Grants) (r : Role) (q : Requested)
    → granted g r q ≡ true
    → Includes (mask_bits g r) (check_mask q)
unfolding granted
granted-Includes g r q h = (eqb_iff _ _).0 h

Includes-granted :
    (g : Grants) (r : Role) (q : Requested)
    → Includes (mask_bits g r) (check_mask q)
    → granted g r q ≡ true
unfolding granted
Includes-granted g r q h = (eqb_iff _ _).1 h

-- No permission of the table fits what a role below its minimum may hold.
out_of_reach : Role → Permission → Bool
out_of_reach r p = allows r p || not (eqb (bit_and (get_validation_mask r) p.mask) p.mask)

out_of_reach_table : (r : Role) → r ≢ owner → all (out_of_reach r) permissions ≡ true
unfolding out_of_reach permissions get_validation_mask
out_of_reach_table owner h = absurd (h refl)
out_of_reach_table unregistered_user h = refl
out_of_reach_table _ h = refl

-- In bounded grants no role but the owner's is granted a permission of the table whose minimum role
-- is above it.
pub min_role_respected :
    (g : Grants) (r : Role) (p : Permission)
    → IsBounded g
    → r ≢ owner
    → Memᴰ p permissions
    → allows r p ≡ false
    → granted g r (object p) ≡ false
unfolding out_of_reach
min_role_respected g r p b ne m low = elim (Bool-cases (granted g r (object p))) [
  | inr denied ↦ denied
  | inl given ↦
      let h : Includes (get_validation_mask r) p.mask =
        Includes-trans _ _ _ (b r) (unfold check_mask in granted-Includes g r (object p) given) in
      let t = all_of_mem (out_of_reach r) permissions p m (out_of_reach_table r ne) in
      ground (arith, h, t, low)
]

-- A grant passes on to every higher role of the ladder.
ladder_Includes :
    (g : Grants) (r s : Role)
    → IsMonotone g
    → r ≢ owner
    → rank r ≤ℤ rank s
    → Includes (mask_bits g s) (mask_bits g r)
ladder_Includes g owner s m ne h = absurd (ne refl)
ladder_Includes g unregistered_user unregistered_user m ne h = Includes-refl _
ladder_Includes g unregistered_user registered_user m ne h = m.registered
ladder_Includes g unregistered_user trusted_user m ne h =
    Includes-trans _ _ _ m.trusted m.registered
ladder_Includes g unregistered_user moderator m ne h =
    Includes-trans _ _ _ m.moderators (Includes-trans _ _ _ m.trusted m.registered)
ladder_Includes g unregistered_user administrator m ne h =
    Includes-trans _ _ _ m.administrators
      (Includes-trans _ _ _ m.moderators (Includes-trans _ _ _ m.trusted m.registered))
ladder_Includes g registered_user registered_user m ne h = Includes-refl _
ladder_Includes g registered_user trusted_user m ne h = m.trusted
ladder_Includes g registered_user moderator m ne h = Includes-trans _ _ _ m.moderators m.trusted
ladder_Includes g registered_user administrator m ne h =
    Includes-trans _ _ _ m.administrators (Includes-trans _ _ _ m.moderators m.trusted)
ladder_Includes g trusted_user trusted_user m ne h = Includes-refl _
ladder_Includes g trusted_user moderator m ne h = m.moderators
ladder_Includes g trusted_user administrator m ne h =
    Includes-trans _ _ _ m.administrators m.moderators
ladder_Includes g moderator moderator m ne h = Includes-refl _
ladder_Includes g moderator administrator m ne h = m.administrators
ladder_Includes g administrator administrator m ne h = Includes-refl _
ladder_Includes g _ _ m ne h = absurd (omega arith)

pub granted_mono :
    (g : Grants) (r s : Role) (q : Requested)
    → IsMonotone g
    → r ≢ owner
    → rank r ≤ℤ rank s
    → granted g r q ≡ true
    → granted g s q ≡ true
granted_mono g r s q m ne h given =
    Includes-granted g s q
      (Includes-trans _ _ _ (ladder_Includes g r s m ne h) (granted-Includes g r q given))

-- The result of a setter that may throw.
abbrev pub Ensures : (Grants → Type 0) → Result Grants → Type 0
Ensures P (ok g) = P g
Ensures P (err e) = Unit {0}

abbrev pub IsSound : Grants → Type 0
IsSound g = IsBounded g × IsMonotone g

pub no_grants-IsSound : IsSound no_grants
unfolding get_mask
no_grants-IsSound = (
  λ r. zero-Includes _,
  record { registered = refl; trusted = refl; moderators = refl; administrators = refl },
)

pub store_role_grants-IsSound :
    (r : Role) (m : GrantMask) (g : Grants) → IsSound g → IsSound (store_role_grants r m g)
store_role_grants-IsSound r m g (b, _) =
    (store_role_grants-IsBounded r m g b, store_role_grants-IsMonotone r m g)

set_role_grants-IsSound :
    (role : ℤ) (input : PermissionsInput) (g : Grants)
    → IsSound g
    → Ensures IsSound (set_role_grants role input g)
unfolding set_role_grants
set_role_grants-IsSound role input g s = elim (Option-cases (role_of role)) [
  | inl e ↦ rw (e, set_role_grants) tt
  | inr (r, e) ↦ rw (e, set_role_grants) (store_role_grants-IsSound r _ g s)
]

bind-Ensures :
    (P Q : Grants → Type 0) (x : Result Grants) (f : Grants → Result Grants)
    → Ensures P x
    → ((g : Grants) → P g → Ensures Q (f g))
    → Ensures Q (x >>= f)
bind-Ensures P Q (ok g) f h k = k g h
bind-Ensures P Q (err e) f h k = tt

set_map_entries-IsSound :
    (es : List (ℤ × GrantMask)) (g : Grants) → IsSound g → Ensures IsSound (set_map_entries es g)
unfolding set_map_entries
set_map_entries-IsSound [] g s = s
set_map_entries-IsSound ((role, m) ∷ es) g s =
    bind-Ensures IsSound IsSound (if eqb m 0 then ok g else set_role_grants role (mask m) g) _
      (first (eqb m 0)) (set_map_entries-IsSound es)
  where
    first : (b : Bool) → Ensures IsSound (if b then ok g else set_role_grants role (mask m) g)
    first true = s
    first false = set_role_grants-IsSound role (mask m) g s

set_object_entries-IsSound :
    (es : List (ℤ × GrantMask)) (g : Grants) → IsSound g → Ensures IsSound (set_object_entries es g)
unfolding set_object_entries
set_object_entries-IsSound [] g s = s
set_object_entries-IsSound ((role, m) ∷ es) g s =
    bind-Ensures IsSound IsSound (set_role_grants role (mask m) g) _
      (set_role_grants-IsSound role (mask m) g s) (set_object_entries-IsSound es)

pub set_all_grants-IsSound : (input : GrantsInput) → Ensures IsSound (set_all_grants input)
unfolding set_all_grants
set_all_grants-IsSound (a_map es) = set_map_entries-IsSound es no_grants no_grants-IsSound
set_all_grants-IsSound (an_array es) =
    set_map_entries-IsSound (of_entries es []) no_grants no_grants-IsSound
set_all_grants-IsSound (grants g) = set_map_entries-IsSound (to_json g) no_grants no_grants-IsSound
set_all_grants-IsSound (an_object es) = set_object_entries-IsSound es no_grants no_grants-IsSound

-- Owner and administrator hold every permission.
abbrev pub IsComplete : Grants → Type 0
IsComplete g = Includes (mask_bits g owner) all_mask × Includes (mask_bits g administrator) all_mask

-- What is stored for a role is granted to it, within what the role may hold.
inherited-Includes : (f : Role → GrantMask) (r : Role) → Includes (inherited f r) (f r)
inherited-Includes f owner = Includes-refl _
inherited-Includes f _ = Includes-bit_or_right _ _

stored-Includes :
    (r : Role) (m : GrantMask) (g : Grants) (s : Role)
    → Includes (mask_bits (store_role_grants r m g) s) (stored r m g s)
stored-Includes r m g s =
    rw (mask_bits-store_role_grants r m g s) (inherited-Includes (stored r m g) s)

abbrev star_mask : GrantMask
star_mask = parse_into_grant_mask ("*" ∷ [])

administrator_star :
    (g : Grants)
    → Includes (mask_bits (store_role_grants administrator star_mask g) administrator) all_mask
unfolding parse_into_grant_mask
administrator_star g =
    let h = stored-Includes administrator star_mask g administrator in
    rw (parse_star, get_validation_mask-administrator) at h

owner_star :
    (g : Grants) → Includes (mask_bits (store_role_grants owner star_mask g) owner) all_mask
unfolding parse_into_grant_mask
owner_star g =
    let h = stored-Includes owner star_mask g owner in
    rw (parse_star, get_validation_mask-owner) at h

-- Storing for the owner leaves the administrator's mask at least as it was.
owner_keeps_administrator :
    (g : Grants)
    → Includes (mask_bits g administrator) all_mask
    → Includes (mask_bits (store_role_grants owner star_mask g) administrator) all_mask
owner_keeps_administrator g h =
    Includes-trans _ _ _ (stored-Includes owner star_mask g administrator) h

finish-IsSound :
    (g : Grants)
    → IsSound g
    → Ensures
        (λ h. IsSound h × IsComplete h)
        (set_role_grants (rank administrator) star g >>= set_role_grants (rank owner) star)
unfolding set_role_grants normalize_permissions_input
finish-IsSound g s =
    let h = store_role_grants administrator star_mask g in
    (
      store_role_grants-IsSound owner star_mask h
          (store_role_grants-IsSound administrator star_mask g s),
      (owner_star h, owner_keeps_administrator h (administrator_star g)),
    )

-- New grants are sound and complete, whatever they are made of.
pub new_grants-IsSound :
    (input : GrantsInput) → Ensures (λ g. IsSound g × IsComplete g) (new_grants input)
unfolding new_grants
new_grants-IsSound input =
    bind-Ensures IsSound (λ g. IsSound g × IsComplete g) (set_all_grants input) _
      (set_all_grants-IsSound input) finish-IsSound

-- The owner and the administrator of complete grants are granted every name, known or not.
pub complete_granted :
    (g : Grants) (name : PermissionName)
    → IsComplete g
    → (granted g owner (named name) ≡ true) × (granted g administrator (named name) ≡ true)
unfolding check_mask
complete_granted g name (o, a) = (
  Includes-granted g owner (named name)
      (Includes-trans _ _ _ o (parse_into_grant_mask-Includes (name ∷ []))),
  Includes-granted g administrator (named name)
      (Includes-trans _ _ _ a (parse_into_grant_mask-Includes (name ∷ []))),
)

add_matching_none :
    (name : PermissionName) (ps : List Permission) (m : GrantMask)
    → any (matches name) ps ≡ false
    → add_matching name ps m ≡ m
unfolding add_matching
add_matching_none name [] m h = refl
add_matching_none name (p ∷ ps) m h = elim (Bool-cases (matches name p)) [
  | inl hit ↦ cc
  | inr miss ↦ rw miss (add_matching_none name ps m (ground arith))
]

-- A name that begins no permission's name stands for the empty mask, so every role is granted it.
pub unknown_granted :
    (g : Grants) (r : Role) (name : PermissionName)
    → any (matches name) permissions ≡ false
    → granted g r (named name) ≡ true
unfolding check_mask parse_into_grant_mask
unknown_granted g r name h =
    Includes-granted g r (named name)
      (rw (add_matching_none name permissions 0 h) (zero-Includes _))
