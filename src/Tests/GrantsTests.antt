-- ===== src/Tests/GrantsTests.antt =====
-- common/permissions.ts: grants of concrete rooms.
use opentogethertube_cn.Common.{◌≡◌, ◌≢◌, refl, true, false, [], ◌∷◌, Memᴰ, arith, any}
use opentogethertube_cn.Permissions.{
  rank, owner, unregistered_user, registered_user, moderator, Permission, permissions, allows,
  matches,
}
use opentogethertube_cn.Permissions.Grants.{
  Grants, no_grants, mask_bits, store_role_grants, an_object, new_grants, granted, object, named,
}
use opentogethertube_cn.Permissions.Grants.Inheritance.{
  inherited, stored, mask_bits-store_role_grants,
}
use opentogethertube_cn.Permissions.Grants.Safety.{
  Ensures, IsSound, IsComplete, no_grants-IsSound, store_role_grants-IsSound, new_grants-IsSound,
  min_role_respected, unknown_granted,
}

-- All permissions for the registered users, cut to what they may hold.
abbrev registered_grants : Grants
registered_grants = store_role_grants registered_user 536870911 no_grants

registered_grants-IsSound : IsSound registered_grants
registered_grants-IsSound =
    store_role_grants-IsSound registered_user 536870911 no_grants no_grants-IsSound

abbrev removal : Permission
removal = record { name = "manage-queue.remove"; mask = 16; min_role = registered_user }

removal-mem : Memᴰ removal permissions
unfolding permissions
removal-mem = Memᴰ.tail (Memᴰ.tail (Memᴰ.tail (Memᴰ.tail (Memᴰ.head refl))))

unregistered_removal : allows unregistered_user removal ≡ false
unregistered_removal = refl

unregistered-not_owner : unregistered_user ≢ owner
unregistered-not_owner e = ground (arith, e)

new_grants-IsSound_example :
    Ensures
      (λ g. IsSound g × IsComplete g)
      (new_grants (an_object ((rank unregistered_user, 16) ∷ [])))
new_grants-IsSound_example = new_grants-IsSound (an_object ((rank unregistered_user, 16) ∷ []))

min_role_respected_example : granted registered_grants unregistered_user (object removal) ≡ false
min_role_respected_example =
    min_role_respected registered_grants unregistered_user removal registered_grants-IsSound.0
      unregistered-not_owner removal-mem unregistered_removal

unknown_name : any (matches "no.such.permission") permissions ≡ false
unfolding permissions matches
unknown_name = refl

unknown_granted_example : granted no_grants unregistered_user (named "no.such.permission") ≡ true
unknown_granted_example =
    unknown_granted no_grants unregistered_user "no.such.permission" unknown_name

mask_bits-store_role_grants_example :
    mask_bits (store_role_grants registered_user 16 no_grants) moderator
    ≡ inherited (stored registered_user 16 no_grants) moderator
mask_bits-store_role_grants_example =
    mask_bits-store_role_grants registered_user 16 no_grants moderator
