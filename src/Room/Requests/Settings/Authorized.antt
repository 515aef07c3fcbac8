-- ===== src/Room/Requests/Settings/Authorized.antt =====
-- server/room.ts: the permissions that a change of the settings takes.
use opentogethertube_cn.Common.{
  ℕ, zero, suc, not, arith, ◌≡◌, ◌∙◌, sym, ap, refl, String, Bool, true, false, ◌==◌, eqb, eqb_iff,
  eq_iff, select, Option, none, some, List, [], ◌∷◌, Bool-cases, inl, inr, ◌⊎◌, Memᴰ,
}
use mathlib.Core.Bool.{true≢false}
use opentogethertube_cn.Queue.{same_bool, same_option}
use opentogethertube_cn.Exceptions.{permission_denied}
use opentogethertube_cn.Permissions.{
  PermissionName, Role, GrantMask, unregistered_user, registered_user, trusted_user, moderator,
  administrator, owner,
}
use opentogethertube_cn.Permissions.Grants.{granted, named, check, get_mask}
use opentogethertube_cn.Room.State.{
  Room, Time, Visibility, QueueMode, manual, vote, loop, dj, BehaviorOption, always, prompt, never,
  BufferGateMode, off, pause as pauses,
}
use opentogethertube_cn.Room.Requests.{Context, Reply, thrown, require_if}
use opentogethertube_cn.Room.Requests.Settings.{
  Settings, visibility_rank, mode_rank, behavior_rank, gate_rank, unless_same, by_rank, both_null,
  needs, configured_roles, changes_role, permission_to_configure, require_all, needed_permissions,
  changed_settings, apply_changes, apply_settings,
}
use opentogethertube_cn.Room.Requests.Roles.Authorized.{May}
use opentogethertube_cn.Room.Consistency.{ForSome}

-- The sender has every permission of a list.
abbrev pub MayAll : Context → Room → List (Option PermissionName) → Type 0
MayAll c r [] = Unit
MayAll c r (name ∷ names) = ForSome (May c r) name × MayAll c r names

-- A request is refused for want of one of the permissions, and changes nothing.
abbrev pub IsRefused : Room → List (Option PermissionName) → Reply → Type 0
IsRefused r names reply =
    (name : PermissionName) × Memᴰ (some name) names × (reply ≡ thrown (permission_denied name) r)

-- A check passes, or throws.
require_if-decides :
    (name : Option PermissionName) (c : Context) (r : Room) (next : Room → Reply)
    → (ForSome (May c r) name × (require_if name c r next ≡ next r))
      ⊎ ((n : PermissionName) × (name ≡ some n)
          × (require_if name c r next ≡ thrown (permission_denied n) r))
unfolding check
require_if-decides none c r next = inl (tt, refl)
require_if-decides (some n) c r next = elim (Bool-cases (granted r.grants c.role (named n))) [
  | inl g ↦ inl (g, rw g refl)
  | inr g ↦ inr (n, refl, rw g refl)
]

require_all-decides :
    (names : List (Option PermissionName)) (c : Context) (r : Room) (next : Room → Reply)
    → (MayAll c r names × (require_all names c r next ≡ next r))
      ⊎ IsRefused r names (require_all names c r next)
unfolding require_all
require_all-decides [] c r next = inl (tt, refl)
require_all-decides (n ∷ ns) c r next =
    elim (require_if-decides n c r (λ r. require_all ns c r next)) [
      | inr (m, e, t) ↦ inr (m, Memᴰ.head (sym e), t)
      | inl (g, e) ↦ elim (require_all-decides ns c r next) [
        | inl (gs, f) ↦ inl ((g, gs), e ∙ f)
        | inr (m, there, t) ↦ inr (m, Memᴰ.tail there, e ∙ t)
      ]
    ]

-- A request for new settings goes on to apply them with every permission that its changes need, or it is
-- refused before anything has changed.
apply_settings-all_or_nothing :
    (now : Time) (s : Settings) (c : Context) (r : Room)
    → (MayAll c r (needed_permissions (changed_settings s r))
        × (apply_settings now s c r ≡ apply_changes now (changed_settings s r) r))
      ⊎ IsRefused r (needed_permissions (changed_settings s r)) (apply_settings now s c r)
unfolding apply_settings
apply_settings-all_or_nothing now s c r =
    let changes = changed_settings s r in
    require_all-decides (needed_permissions changes) c r (apply_changes now changes)

-- A setting is absent, or is as it was, or its sender has the permission to change it.
abbrev pub MayChange {ℓ} : {A : Type ℓ} → Context → Room → PermissionName → Option A → A → Type ℓ
MayChange c r name o old = ForSome (λ new. (new ≡ old) ⊎ May c r name) o

-- What it takes to change the permissions of a role; those of the administrator and the owner are never
-- changed.
abbrev pub MayGrant : Context → Room → Role → Type 0
MayGrant c r unregistered_user = May c r "configure-room.set-permissions.for-all-unregistered-users"
MayGrant c r registered_user = May c r "configure-room.set-permissions.for-all-registered-users"
MayGrant c r trusted_user = May c r "configure-room.set-permissions.for-trusted-users"
MayGrant c r moderator = May c r "configure-room.set-permissions.for-moderator"
MayGrant c r administrator = Unit
MayGrant c r owner = Unit

abbrev pub MayGrantAll : Context → Room → List (Role × GrantMask) → Type 0
MayGrantAll c r [] = Unit
MayGrantAll c r ((role, mask) ∷ es) =
    ((get_mask r.grants role ≡ some mask) ⊎ MayGrant c r role) × MayGrantAll c r es

-- The sender may make every change that a request asks for.
pub record IsPermitted (c : Context) (r : Room) (s : Settings) : Type 0 where
  pub title : MayChange c r "configure-room.set-title" s.title r.title
  pub description : MayChange c r "configure-room.set-description" s.description r.description
  pub visibility : MayChange c r "configure-room.set-visibility" s.visibility r.visibility
  pub queue_mode : MayChange c r "configure-room.set-queue-mode" s.queue_mode r.queue_mode
  pub categories : ForSome (λ cs. May c r "configure-room.other") s.auto_skip_segment_categories
  pub restore_queue :
      MayChange c r "configure-room.other" s.restore_queue_behavior r.restore_queue_behavior
  pub vote_skip : MayChange c r "configure-room.other" s.enable_vote_skip r.enable_vote_skip
  pub buffer_gate : MayChange c r "configure-room.other" s.buffer_gate_mode r.buffer_gate_mode
  pub danmaku : MayChange c r "configure-room.set-danmaku-source" s.danmaku_source r.danmaku_source
  pub grants : MayGrantAll c r s.grants

-- A changed setting takes its permission; the test of the code tells what is as it was.
may_change :
    {A : Type 0} (c : Context) (r : Room) (name : PermissionName) (same : A → Bool) (old : A)
    (o : Option A)
    → ((new : A) → same new ≡ true → new ≡ old)
    → ForSome (May c r) (needs (unless_same same o) name)
    → MayChange c r name o old
may_change c r name same old none right m = tt
may_change c r name same old (some new) right m = elim (Bool-cases (same new)) [
  | inl h ↦ inl (right new h)
  | inr h ↦ inr (rw h at m)
]

-- The ranks tell the values apart.
abbrev visibility_of : ℕ → Visibility
visibility_of zero = Visibility.public
visibility_of (suc zero) = Visibility.unlisted
visibility_of n = Visibility.private

visibility_of_rank : (v : Visibility) → visibility_of (visibility_rank v) ≡ v
visibility_of_rank Visibility.public = refl
visibility_of_rank Visibility.unlisted = refl
visibility_of_rank Visibility.private = refl

abbrev mode_of : ℕ → QueueMode
mode_of zero = manual
mode_of (suc zero) = vote
mode_of (suc (suc zero)) = loop
mode_of n = dj

mode_of_rank : (m : QueueMode) → mode_of (mode_rank m) ≡ m
mode_of_rank manual = refl
mode_of_rank vote = refl
mode_of_rank loop = refl
mode_of_rank dj = refl

abbrev behavior_of : ℕ → BehaviorOption
behavior_of zero = never
behavior_of (suc zero) = prompt
behavior_of n = always

behavior_of_rank : (b : BehaviorOption) → behavior_of (behavior_rank b) ≡ b
behavior_of_rank always = refl
behavior_of_rank prompt = refl
behavior_of_rank never = refl

abbrev gate_of : ℕ → BufferGateMode
gate_of zero = off
gate_of n = pauses

gate_of_rank : (m : BufferGateMode) → gate_of (gate_rank m) ≡ m
gate_of_rank off = refl
gate_of_rank pauses = refl

by_rank-right :
    {A : Type 0} (rank : A → ℕ) (of_rank : ℕ → A)
    → ((a : A) → of_rank (rank a) ≡ a)
    → (old new : A) → by_rank rank old new ≡ true
    → new ≡ old
by_rank-right rank of_rank back old new h =
    sym (back new) ∙ ap of_rank (sym ((eqb_iff (rank old) (rank new)).0 h)) ∙ back old

same_bool-right : (old new : Bool) → same_bool old new ≡ true → new ≡ old
same_bool-right true new h = h
same_bool-right false true h = absurd (true≢false (sym h))
same_bool-right false false h = refl

both_null-right : (old new : Option String) → both_null old new ≡ true → new ≡ old
both_null-right none none h = refl
both_null-right none (some s) h = cc
both_null-right (some s) new h = cc

permission-MayGrant :
    (c : Context) (r : Room) (role : Role)
    → ForSome (May c r) (permission_to_configure role)
    → MayGrant c r role
unfolding permission_to_configure
permission-MayGrant c r unregistered_user m = m
permission-MayGrant c r registered_user m = m
permission-MayGrant c r trusted_user m = m
permission-MayGrant c r moderator m = m
permission-MayGrant c r administrator m = tt
permission-MayGrant c r owner m = tt

same_mask :
    (mask : GrantMask) (o : Option GrantMask)
    → not (same_option eqb (some mask) o) ≡ false
    → o ≡ some mask
same_mask mask none h = cc
same_mask mask (some old) h = ground (arith, h)

needs-May :
    {A : Type 0} (c : Context) (r : Room) (name : PermissionName) (o : Option A)
    → ForSome (May c r) (needs o name)
    → ForSome (λ a. May c r name) o
needs-May c r name none m = tt
needs-May c r name (some a) m = m

-- A role whose permissions are not changed has them already, or is one that never changes.
unchanged-MayGrant :
    (c : Context) (r : Room) (role : Role) (mask : GrantMask)
    → changes_role r.grants (role, mask) ≡ false
    → (get_mask r.grants role ≡ some mask) ⊎ MayGrant c r role
unfolding permission_to_configure
unchanged-MayGrant c r administrator mask h = inr tt
unchanged-MayGrant c r owner mask h = inr tt
unchanged-MayGrant c r role mask h = inl (same_mask mask (get_mask r.grants role) h)

grants-MayGrantAll :
    (c : Context) (r : Room) (es : List (Role × GrantMask))
    → MayAll c r (configured_roles (select (changes_role r.grants) es))
    → MayGrantAll c r es
grants-MayGrantAll c r [] m = tt
grants-MayGrantAll c r ((role, mask) ∷ es) m =
    elim (Bool-cases (changes_role r.grants (role, mask))) [
      | inl h ↦
          let all : MayAll c r (
              permission_to_configure role ∷ configured_roles (select (changes_role r.grants) es)) =
            rw h at m in
          (inr (permission-MayGrant c r role all.0), grants-MayGrantAll c r es all.1)
      | inr h ↦ (unchanged-MayGrant c r role mask h, grants-MayGrantAll c r es (rw h at m))
    ]

needed-IsPermitted :
    (s : Settings) (c : Context) (r : Room)
    → MayAll c r (needed_permissions (changed_settings s r))
    → IsPermitted c r s
unfolding needed_permissions changed_settings
needed-IsPermitted s c r m = record {
  title = may_change c r _ (λ t. t == r.title) r.title s.title (λ t h. (eq_iff _ _).0 h) m.0;
  description =
      may_change c r _ (λ t. t == r.description) r.description s.description
        (λ t h. (eq_iff _ _).0 h) m.1.0;
  visibility =
      may_change c r _ _ r.visibility s.visibility
        (by_rank-right visibility_rank visibility_of visibility_of_rank r.visibility) m.1.1.0;
  queue_mode =
      may_change c r _ _ r.queue_mode s.queue_mode
        (by_rank-right mode_rank mode_of mode_of_rank r.queue_mode) m.1.1.1.0;
  categories = needs-May c r _ s.auto_skip_segment_categories m.1.1.1.1.0;
  restore_queue =
      may_change c r _ _ r.restore_queue_behavior s.restore_queue_behavior
        (by_rank-right behavior_rank behavior_of behavior_of_rank r.restore_queue_behavior)
        m.1.1.1.1.1.0;
  vote_skip =
      may_change c r _ _ r.enable_vote_skip s.enable_vote_skip (same_bool-right r.enable_vote_skip)
        m.1.1.1.1.1.1.0;
  buffer_gate =
      may_change c r _ _ r.buffer_gate_mode s.buffer_gate_mode
        (by_rank-right gate_rank gate_of gate_of_rank r.buffer_gate_mode) m.1.1.1.1.1.1.1.0;
  danmaku =
      may_change c r _ _ r.danmaku_source s.danmaku_source (both_null-right r.danmaku_source)
        m.1.1.1.1.1.1.1.1.0;
  grants = grants-MayGrantAll c r s.grants m.1.1.1.1.1.1.1.1.1;
}

-- A request for new settings is refused for want of a permission, with the room as it was, or its sender
-- has, for each setting that is not as it was, the permission to change it, and the handler goes on to
-- apply the changes (a private room still takes a password).
pub apply_settings-IsPermitted :
    (now : Time) (s : Settings) (c : Context) (r : Room)
    → (IsPermitted c r s × (apply_settings now s c r ≡ apply_changes now (changed_settings s r) r))
      ⊎ ((name : PermissionName) × (apply_settings now s c r ≡ thrown (permission_denied name) r))
apply_settings-IsPermitted now s c r = elim (apply_settings-all_or_nothing now s c r) [
  | inl (m, e) ↦ inl (needed-IsPermitted s c r m, e)
  | inr (name, _, e) ↦ inr (name, e)
]
