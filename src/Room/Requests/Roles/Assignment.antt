-- ===== src/Room/Requests/Roles/Assignment.antt =====
-- server/room.ts: the sets of the roles once a user is given one.
use opentogethertube_cn.Common.{
  ℕ, ◌≡◌, ◌∙◌, refl, Bool, true, false, Option, none, some, List, [], ◌∷◌, ◌++◌, arith,
  if◌then◌else◌, Bool-cases, inl, inr, any, eqb,
}
use opentogethertube_cn.Common.Dict.{get, get-put}
use opentogethertube_cn.Permissions.{
  Role, role_eq, same_role, owner, unregistered_user, registered_user, trusted_user, moderator,
  administrator,
}
use opentogethertube_cn.Room.State.{Room}
use opentogethertube_cn.Room.Users.{holds, assigned_role}
use opentogethertube_cn.Room.Requests.Roles.{drop_id, add_id, drop_from, add_to, assign_role}

dropped : (id : ℕ) (ids : List ℕ) → any (λ n. eqb n id) (drop_id id ids) ≡ false
dropped id [] = refl
dropped id (n ∷ ns) = elim (Bool-cases (eqb n id)) [
  | inl h ↦ rw h (dropped id ns)
  | inr h ↦ rw (h, h) (dropped id ns)
]

any-last : (id : ℕ) (ids : List ℕ) → any (λ n. eqb n id) (ids ++ id ∷ []) ≡ true
any-last id [] = ground arith
any-last id (n ∷ ns) = ground (arith, any-last id ns)

added : (id : ℕ) (ids : List ℕ) → any (λ n. eqb n id) (add_id id ids) ≡ true
added id ids = elim (Bool-cases (any (λ n. eqb n id) ids)) [
  | inl h ↦ rw h h
  | inr h ↦ rw h (any-last id ids)
]

get-drop_from :
    (k s : Role) (id : ℕ) (roles : List (Role × List ℕ)) (ids : List ℕ)
    → get s roles ≡ some ids
    → get k (drop_from s id roles) ≡ (if same_role s k then some (drop_id id ids) else get k roles)
get-drop_from k s id roles ids e = rw e (get-put s k (drop_id id ids) roles)

get-add_to :
    (k s : Role) (id : ℕ) (roles : List (Role × List ℕ)) (ids : List ℕ)
    → get s roles ≡ some ids
    → get k (add_to s id roles) ≡ (if same_role s k then some (add_id id ids) else get k roles)
get-add_to k s id roles ids e = rw e (get-put s k (add_id id ids) roles)

-- The three roles that users are given have their sets, as they have from the room's construction on.
pub record HasSets (roles : List (Role × List ℕ)) : Type 0 where
  pub trusted : List ℕ
  pub moderators : List ℕ
  pub administrators : List ℕ
  pub of_trusted : get trusted_user roles ≡ some trusted
  pub of_moderators : get moderator roles ≡ some moderators
  pub of_administrators : get administrator roles ≡ some administrators

-- The sets without an id.
abbrev cleared : ℕ → List (Role × List ℕ) → List (Role × List ℕ)
cleared id roles =
    drop_from trusted_user id (drop_from moderator id (drop_from administrator id roles))

module _ (id : ℕ) (roles : List (Role × List ℕ)) (h : HasSets roles) where
  first_moderators : get moderator (drop_from administrator id roles) ≡ some h.moderators
  first_moderators =
      get-drop_from moderator administrator id roles h.administrators h.of_administrators
      ∙ h.of_moderators

  first_trusted : get trusted_user (drop_from administrator id roles) ≡ some h.trusted
  first_trusted =
      get-drop_from trusted_user administrator id roles h.administrators h.of_administrators
      ∙ h.of_trusted

  first_administrators :
      get administrator (drop_from administrator id roles) ≡ some (drop_id id h.administrators)
  first_administrators =
      get-drop_from administrator administrator id roles h.administrators h.of_administrators

  second :
      (k : Role)
      → get k (drop_from moderator id (drop_from administrator id roles)) ≡ (
          if same_role moderator k
          then some (drop_id id h.moderators)
          else get k (drop_from administrator id roles))
  second k =
      get-drop_from k moderator id (drop_from administrator id roles) h.moderators first_moderators

  third :
      (k : Role)
      → get k (cleared id roles) ≡ (
          if same_role trusted_user k
          then some (drop_id id h.trusted)
          else get k (drop_from moderator id (drop_from administrator id roles)))
  third k =
      get-drop_from k trusted_user id (drop_from moderator id (drop_from administrator id roles))
        h.trusted (second trusted_user ∙ first_trusted)

  pub cleared-sets :
      (get trusted_user (cleared id roles) ≡ some (drop_id id h.trusted))
      × (get moderator (cleared id roles) ≡ some (drop_id id h.moderators))
      × (get administrator (cleared id roles) ≡ some (drop_id id h.administrators))
  cleared-sets = (
    third trusted_user,
    third moderator ∙ second moderator,
    third administrator ∙ second administrator ∙ first_administrators,
  )

-- The role by the sets alone, where the set of one role is known to have the id, or none is.
abbrev pub set_has : ℕ → Option (List ℕ) → Bool
set_has id none = false
set_has id (some ids) = any (λ n. eqb n id) ids

abbrev pub role_in : ℕ → List (Role × List ℕ) → Option Role
role_in id roles =
    if set_has id (get administrator roles)
    then some administrator
    else if set_has id (get moderator roles)
    then some moderator
    else if set_has id (get trusted_user roles)
    then some trusted_user
    else none

-- A role of the sets, or none where it is the one of all registered users.
abbrev pub as_assigned : Role → Option Role
as_assigned administrator = some administrator
as_assigned moderator = some moderator
as_assigned trusted_user = some trusted_user
as_assigned _ = none

none_left :
    (id : ℕ) (roles : List (Role × List ℕ)) → HasSets roles → role_in id (cleared id roles) ≡ none
none_left id roles h =
    let (t, m, a) = cleared-sets id roles h in
    rw (a, m, t)
      (rw (dropped id h.administrators, dropped id h.moderators, dropped id h.trusted) refl)

pub assign_role-role :
    (role : Role) (id : ℕ) (roles : List (Role × List ℕ))
    → HasSets roles
    → role_in id (assign_role role id roles) ≡ as_assigned role
unfolding assign_role
assign_role-role administrator id roles h =
    let (t, m, a) = cleared-sets id roles h in
    let ids = drop_id id h.administrators in
    rw (get-add_to administrator administrator id (cleared id roles) ids a) (rw (added id ids) refl)
assign_role-role moderator id roles h =
    let (t, m, a) = cleared-sets id roles h in
    let ids = drop_id id h.moderators in
    rw
      (
        get-add_to administrator moderator id (cleared id roles) ids m ∙ a,
        get-add_to moderator moderator id (cleared id roles) ids m,
      )
      (rw (dropped id h.administrators, added id ids) refl)
assign_role-role trusted_user id roles h =
    let (t, m, a) = cleared-sets id roles h in
    let ids = drop_id id h.trusted in
    rw
      (
        get-add_to administrator trusted_user id (cleared id roles) ids t ∙ a,
        get-add_to moderator trusted_user id (cleared id roles) ids t ∙ m,
        get-add_to trusted_user trusted_user id (cleared id roles) ids t,
      )
      (rw (dropped id h.administrators, dropped id h.moderators, added id ids) refl)
assign_role-role registered_user id roles h = none_left id roles h
assign_role-role unregistered_user id roles h = none_left id roles h
assign_role-role owner id roles h = none_left id roles h

set_has-split :
    (id : ℕ) (o : Option (List ℕ))
    → (elim o [ none ↦ false | some ids ↦ any (λ n. eqb n id) ids ]) ≡ set_has id o
set_has-split id none = refl
set_has-split id (some ids) = refl

holds-set_has :
    (role : Role) (id : ℕ) (r : Room) → holds role id r ≡ set_has id (get role r.user_roles)
unfolding holds
holds-set_has role id r = set_has-split id (get role r.user_roles)

pub assigned_role-role_in : (id : ℕ) (r : Room) → assigned_role id r ≡ role_in id r.user_roles
unfolding assigned_role
assigned_role-role_in id r =
    rw
      (
        holds-set_has administrator id r,
        holds-set_has moderator id r,
        holds-set_has trusted_user id r,
      )
      refl
