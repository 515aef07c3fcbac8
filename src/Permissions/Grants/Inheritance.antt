-- ===== src/Permissions/Grants/Inheritance.antt =====
-- common/permissions.ts, `Grants`: what `setRoleGrants` leaves in the masks. Grants stay bounded by
-- the minimum roles, and each role of the ladder holds what the roles below it hold.
use Prim.Native.Nat.{bit_and, bit_or}
use opentogethertube_cn.Common.{◌≡◌, refl, ap, ◌∙◌, if◌then◌else◌, Bool-cases, inl, inr, fun_ext}
use opentogethertube_cn.Common.Bits.{
  Includes, Includes-trans, Includes-bit_or_left, bit_or-Includes, bit_and-Includes_right,
  zero-Includes,
}
use opentogethertube_cn.Common.Dict.{put, get-put}
use opentogethertube_cn.Permissions.{
  Role, owner, unregistered_user, registered_user, trusted_user, moderator, administrator,
  same_role, same_role_iff, role_eq, GrantMask, get_validation_mask,
}
use opentogethertube_cn.Permissions.Grants.{
  Grants, mask_bits, get_mask, process_inheritance, store_role_grants,
}

-- The union of a role's mask with those of the roles below it on the ladder.
abbrev pub up_to_unregistered : (Role → GrantMask) → GrantMask
up_to_unregistered f = bit_or 0 (f unregistered_user)

abbrev pub up_to_registered : (Role → GrantMask) → GrantMask
up_to_registered f = bit_or (up_to_unregistered f) (f registered_user)

abbrev pub up_to_trusted : (Role → GrantMask) → GrantMask
up_to_trusted f = bit_or (up_to_registered f) (f trusted_user)

abbrev pub up_to_moderator : (Role → GrantMask) → GrantMask
up_to_moderator f = bit_or (up_to_trusted f) (f moderator)

abbrev pub inherited : (Role → GrantMask) → Role → GrantMask
inherited f owner = f owner
inherited f unregistered_user = up_to_unregistered f
inherited f registered_user = up_to_registered f
inherited f trusted_user = up_to_trusted f
inherited f moderator = up_to_moderator f
inherited f administrator = bit_or (up_to_moderator f) (f administrator)

pub mask_bits-process_inheritance :
    (g : Grants) (r : Role) → mask_bits (process_inheritance g) r ≡ inherited (mask_bits g) r
unfolding process_inheritance get_mask
mask_bits-process_inheritance g owner = simp get-put
mask_bits-process_inheritance g _ = simp get-put

-- The masks before inheritance is applied: the new one, cut to what the role may hold, in its place.
abbrev pub stored : Role → GrantMask → Grants → Role → GrantMask
stored r m g s = if same_role r s then bit_and m (get_validation_mask r) else mask_bits g s

mask_bits-put :
    (r : Role) (v : GrantMask) (g : Grants) (s : Role)
    → mask_bits (record { masks = put r v g.masks }) s
      ≡ (if same_role r s then v else mask_bits g s)
unfolding get_mask
mask_bits-put r v g s = elim (Bool-cases (same_role r s)) [
  | inl hit ↦ simp (get-put, hit)
  | inr miss ↦ simp (get-put, miss)
]

pub mask_bits-store_role_grants :
    (r : Role) (m : GrantMask) (g : Grants) (s : Role)
    → mask_bits (store_role_grants r m g) s ≡ inherited (stored r m g) s
unfolding store_role_grants
mask_bits-store_role_grants r m g s =
    mask_bits-process_inheritance _ s
    ∙ ap (λ f. inherited f s)
        (fun_ext (λ t. mask_bits-put r (bit_and m (get_validation_mask r)) g t))

-- Every mask lies within what its role may hold.
abbrev pub IsBounded : Grants → Type 0
IsBounded g = (r : Role) → Includes (get_validation_mask r) (mask_bits g r)

-- Each role of the ladder holds all that the next lower one holds.
pub record IsMonotone (g : Grants) : Type 0 where
  pub registered : Includes (mask_bits g registered_user) (mask_bits g unregistered_user)
  pub trusted : Includes (mask_bits g trusted_user) (mask_bits g registered_user)
  pub moderators : Includes (mask_bits g moderator) (mask_bits g trusted_user)
  pub administrators : Includes (mask_bits g administrator) (mask_bits g moderator)

-- Whatever is stored for whichever role, the ladder is monotone afterwards.
pub store_role_grants-IsMonotone :
    (r : Role) (m : GrantMask) (g : Grants) → IsMonotone (store_role_grants r m g)
store_role_grants-IsMonotone r m g = record {
  registered = rises registered_user unregistered_user (Includes-bit_or_left _ _);
  trusted = rises trusted_user registered_user (Includes-bit_or_left _ _);
  moderators = rises moderator trusted_user (Includes-bit_or_left _ _);
  administrators = rises administrator moderator (Includes-bit_or_left _ _);
}
  where
    rises :
        (high low : Role)
        → Includes (inherited (stored r m g) high) (inherited (stored r m g) low)
        → Includes
            (mask_bits (store_role_grants r m g) high)
            (mask_bits (store_role_grants r m g) low)
    rises high low h =
        rw (mask_bits-store_role_grants r m g high, mask_bits-store_role_grants r m g low) h

-- What a role may hold grows along the ladder.
validation_registered :
    Includes (get_validation_mask registered_user) (get_validation_mask unregistered_user)
unfolding get_validation_mask
validation_registered = refl

validation_trusted :
    Includes (get_validation_mask trusted_user) (get_validation_mask registered_user)
unfolding get_validation_mask
validation_trusted = refl

validation_moderator : Includes (get_validation_mask moderator) (get_validation_mask trusted_user)
unfolding get_validation_mask
validation_moderator = refl

validation_administrator :
    Includes (get_validation_mask administrator) (get_validation_mask moderator)
unfolding get_validation_mask
validation_administrator = refl

module _ (f : Role → GrantMask) (bound : (r : Role) → Includes (get_validation_mask r) (f r)) where
  unregistered_bound : Includes (get_validation_mask unregistered_user) (up_to_unregistered f)
  unregistered_bound = bit_or-Includes _ 0 _ (zero-Includes _) (bound unregistered_user)

  registered_bound : Includes (get_validation_mask registered_user) (up_to_registered f)
  registered_bound =
      bit_or-Includes _ _ _ (Includes-trans _ _ _ validation_registered unregistered_bound)
        (bound registered_user)

  trusted_bound : Includes (get_validation_mask trusted_user) (up_to_trusted f)
  trusted_bound =
      bit_or-Includes _ _ _ (Includes-trans _ _ _ validation_trusted registered_bound)
        (bound trusted_user)

  moderator_bound : Includes (get_validation_mask moderator) (up_to_moderator f)
  moderator_bound =
      bit_or-Includes _ _ _ (Includes-trans _ _ _ validation_moderator trusted_bound)
        (bound moderator)

  inherited_bound : (r : Role) → Includes (get_validation_mask r) (inherited f r)
  inherited_bound owner = bound owner
  inherited_bound unregistered_user = unregistered_bound
  inherited_bound registered_user = registered_bound
  inherited_bound trusted_user = trusted_bound
  inherited_bound moderator = moderator_bound
  inherited_bound administrator =
      bit_or-Includes _ _ _ (Includes-trans _ _ _ validation_administrator moderator_bound)
        (bound administrator)

stored_bound :
    (r : Role) (m : GrantMask) (g : Grants)
    → IsBounded g
    → (s : Role) → Includes (get_validation_mask s) (stored r m g s)
stored_bound r m g b s = elim (Bool-cases (same_role r s)) [
  | inl hit ↦
      let p : r ≡ s = (same_role_iff r s).0 hit in
      rw hit (rw p (bit_and-Includes_right m (get_validation_mask s)))
  | inr miss ↦ rw miss (b s)
]

pub store_role_grants-IsBounded :
    (r : Role) (m : GrantMask) (g : Grants) → IsBounded g → IsBounded (store_role_grants r m g)
store_role_grants-IsBounded r m g b s =
    rw (mask_bits-store_role_grants r m g s)
      (inherited_bound (stored r m g) (stored_bound r m g b) s)
