-- ===== src/Room/Requests/Settings.antt =====
-- server/room.ts: `applySettings`. The properties of a request are taken in the order of the record;
-- the code takes them in the order in which the client has sent them, which matters only for which of
-- several missing permissions is named.
pub mod Authorized
use opentogethertube_cn.Common.{
  ℕ, Bool, true, false, not, ◌&&◌, ◌||◌, Option, none, some, List, [], ◌∷◌, all, select,
  if◌then◌else◌, is_some, eqb, String, ◌==◌,
}
use opentogethertube_cn.Common.StringSet.{has}
use opentogethertube_cn.Exceptions.{bad_api_argument}
use opentogethertube_cn.Permissions.{
  Role, owner, unregistered_user, registered_user, trusted_user, moderator, administrator,
  GrantMask, PermissionName,
}
use opentogethertube_cn.Permissions.Grants.{Grants, get_mask, store_role_grants}
use opentogethertube_cn.Queue.{same_option, same_bool}
use opentogethertube_cn.Room.State.{
  Room, Time, SyncProp, Visibility, QueueMode, manual, vote, loop, dj, BehaviorOption, always,
  prompt, never, BufferGateMode, off, mark_dirty,
}
use opentogethertube_cn.Room.Gate.{nonempty, evaluate_buffer_gate}
use opentogethertube_cn.Room.Requests.{Context, Reply, done, thrown, then_do, require_if}

-- `Partial<RoomSettings>`; an outer `none` stands for a property that is absent.
pub record Settings : Type 0 where
  pub title : Option String
  pub description : Option String
  pub visibility : Option Visibility
  pub queue_mode : Option QueueMode
  pub auto_skip_segment_categories : Option (List String)
  pub restore_queue_behavior : Option BehaviorOption
  pub enable_vote_skip : Option Bool
  pub buffer_gate_mode : Option BufferGateMode
  pub danmaku_source : Option (Option String)
  pub grants : List (Role × GrantMask)

abbrev pub visibility_rank : Visibility → ℕ
visibility_rank Visibility.public = 0
visibility_rank Visibility.unlisted = 1
visibility_rank Visibility.private = 2

abbrev pub mode_rank : QueueMode → ℕ
mode_rank manual = 0
mode_rank vote = 1
mode_rank loop = 2
mode_rank dj = 3

abbrev pub behavior_rank : BehaviorOption → ℕ
behavior_rank always = 2
behavior_rank prompt = 1
behavior_rank never = 0

abbrev pub gate_rank : BufferGateMode → ℕ
gate_rank off = 0
gate_rank _ = 1

-- Drops a property that is as it was.
abbrev pub unless_same {ℓ} : {A : Type ℓ} → (A → Bool) → Option A → Option A
unless_same same none = none
unless_same same (some a) = if same a then none else some a

abbrev pub by_rank {ℓ} : {A : Type ℓ} → (A → ℕ) → A → A → Bool
by_rank rank a b = eqb (rank a) (rank b)

-- Objects are the same only where both are null.
abbrev pub both_null : Option String → Option String → Bool
both_null none none = true
both_null _ _ = false

-- The table `roleToPerms`.
unfoldable pub permission_to_configure : Role → Option PermissionName
permission_to_configure unregistered_user =
    some "configure-room.set-permissions.for-all-unregistered-users"
permission_to_configure registered_user =
    some "configure-room.set-permissions.for-all-registered-users"
permission_to_configure trusted_user = some "configure-room.set-permissions.for-trusted-users"
permission_to_configure moderator = some "configure-room.set-permissions.for-moderator"
permission_to_configure _ = none

abbrev pub changes_role : Grants → Role × GrantMask → Bool
changes_role g (role, mask) =
    is_some (permission_to_configure role) && not (same_option eqb (some mask) (get_mask g role))

-- The settings that the request would change. An array is never the same array.
unfoldable pub changed_settings : Settings → Room → Settings
changed_settings s r = record {
  title = unless_same (λ t. t == r.title) s.title;
  description = unless_same (λ t. t == r.description) s.description;
  visibility = unless_same (by_rank visibility_rank r.visibility) s.visibility;
  queue_mode = unless_same (by_rank mode_rank r.queue_mode) s.queue_mode;
  auto_skip_segment_categories = s.auto_skip_segment_categories;
  restore_queue_behavior =
      unless_same (by_rank behavior_rank r.restore_queue_behavior) s.restore_queue_behavior;
  enable_vote_skip = unless_same (same_bool r.enable_vote_skip) s.enable_vote_skip;
  buffer_gate_mode = unless_same (by_rank gate_rank r.buffer_gate_mode) s.buffer_gate_mode;
  danmaku_source = unless_same (both_null r.danmaku_source) s.danmaku_source;
  grants = select (changes_role r.grants) s.grants;
}

abbrev pub needs {ℓ} : {A : Type ℓ} → Option A → PermissionName → Option PermissionName
needs none name = none
needs (some a) name = some name

abbrev pub configured_roles : List (Role × GrantMask) → List (Option PermissionName)
configured_roles [] = []
configured_roles ((role, m) ∷ es) = permission_to_configure role ∷ configured_roles es

-- The permissions that the changes need, in the order of the checks.
unfoldable pub needed_permissions : Settings → List (Option PermissionName)
needed_permissions s =
    needs s.title "configure-room.set-title"
    ∷ needs s.description "configure-room.set-description"
    ∷ needs s.visibility "configure-room.set-visibility"
    ∷ needs s.queue_mode "configure-room.set-queue-mode"
    ∷ needs s.auto_skip_segment_categories "configure-room.other"
    ∷ needs s.restore_queue_behavior "configure-room.other"
    ∷ needs s.enable_vote_skip "configure-room.other"
    ∷ needs s.buffer_gate_mode "configure-room.other"
    ∷ needs s.danmaku_source "configure-room.set-danmaku-source"
    ∷ configured_roles s.grants

unfoldable pub require_all : List (Option PermissionName) → Context → Room → (Room → Reply) → Reply
require_all [] context r next = next r
require_all (name ∷ names) context r next =
    require_if name context r (λ r. require_all names context r next)

abbrev pub all_skip_categories : List String
all_skip_categories =
    "sponsor" ∷ "intro" ∷ "outro" ∷ "interaction" ∷ "selfpromo" ∷ "music_offtopic" ∷ "preview" ∷ []

-- `_.isEqual` of two sets.
unfoldable pub same_categories : List String → List String → Bool
unfolding has
same_categories a b = all (λ c. has c b) a && all (λ c. has c a) b

abbrev pub categories_change : Option (List String) → Room → Bool
categories_change none r = false
categories_change (some cs) r = not (same_categories cs r.auto_skip_segment_categories)

-- New categories are put into the order of the list of all.
abbrev pub normal_categories : Option (List String) → Room → Option (List String)
normal_categories none r = none
normal_categories (some cs) r =
    if same_categories cs r.auto_skip_segment_categories
    then some cs
    else some (select (λ c. has c cs) all_skip_categories)

abbrev pub private_without_password : Option Visibility → Option String → Bool
private_without_password (some Visibility.private) none = true
private_without_password (some Visibility.private) (some hash) = hash == ""
private_without_password _ hash = false

abbrev pub assign_with {ℓ} : {A : Type ℓ} → Option A → (A → Room → Room) → Room → Room
assign_with none change r = r
assign_with (some a) change r = change a r

-- The setters; the behaviour on a restored queue is a plain field, which marks nothing.
abbrev pub set_title : String → Room → Room
set_title value r = mark_dirty SyncProp.title (record r { title = value })

abbrev pub set_description : String → Room → Room
set_description value r = mark_dirty SyncProp.description (record r { description = value })

abbrev pub set_visibility : Visibility → Room → Room
set_visibility value r = mark_dirty SyncProp.visibility (record r { visibility = value })

abbrev pub set_queue_mode : QueueMode → Room → Room
set_queue_mode value r = mark_dirty SyncProp.queue_mode (record r { queue_mode = value })

abbrev pub set_auto_skip_segment_categories : List String → Room → Room
set_auto_skip_segment_categories value r =
    mark_dirty SyncProp.auto_skip_segment_categories
      (record r { auto_skip_segment_categories = value })

abbrev pub set_restore_queue_behavior : BehaviorOption → Room → Room
set_restore_queue_behavior value r = record r { restore_queue_behavior = value }

abbrev pub set_enable_vote_skip : Bool → Room → Room
set_enable_vote_skip value r =
    mark_dirty SyncProp.enable_vote_skip (record r { enable_vote_skip = value })

abbrev pub set_buffer_gate_mode : BufferGateMode → Room → Room
set_buffer_gate_mode value r =
    mark_dirty SyncProp.buffer_gate_mode (record r { buffer_gate_mode = value })

abbrev pub set_danmaku_source : Option String → Room → Room
set_danmaku_source value r =
    mark_dirty SyncProp.danmaku_source (record r { danmaku_source = value })

unfoldable pub assign_settings : Settings → Room → Room
assign_settings s r =
    let r₁ = assign_with s.title set_title r in
    let r₂ = assign_with s.description set_description r₁ in
    let r₃ = assign_with s.visibility set_visibility r₂ in
    let r₄ = assign_with s.queue_mode set_queue_mode r₃ in
    let r₅ = assign_with s.auto_skip_segment_categories set_auto_skip_segment_categories r₄ in
    let r₆ = assign_with s.restore_queue_behavior set_restore_queue_behavior r₅ in
    let r₇ = assign_with s.enable_vote_skip set_enable_vote_skip r₆ in
    let r₈ = assign_with s.buffer_gate_mode set_buffer_gate_mode r₇ in
    assign_with s.danmaku_source set_danmaku_source r₈

unfoldable pub assign_grants : List (Role × GrantMask) → Room → Room
assign_grants [] r = r
assign_grants ((role, m) ∷ es) r =
    assign_grants es
      (mark_dirty SyncProp.grants (record r { grants = store_role_grants role m r.grants }))

-- The segments are fetched where the categories are new and a video plays without any.
abbrev pub want_segments : Bool → Room → Room
want_segments changed r =
    if changed
      && nonempty r.auto_skip_segment_categories
      && not (nonempty r.video_segments)
      && is_some r.current_source
    then record r { want_sponsor_block = true }
    else r

-- The end of the handler once the permissions are there.
unfoldable pub apply_changes : Time → Settings → Room → Reply
apply_changes now s r =
    let normal = record s {
      auto_skip_segment_categories = normal_categories s.auto_skip_segment_categories r;
    } in
    if private_without_password s.visibility r.password_hash
    then thrown (bad_api_argument "visibility") r
    else done (
        evaluate_buffer_gate now (
          want_segments (categories_change s.auto_skip_segment_categories r)
            (assign_grants normal.grants (assign_settings normal r))))

unfoldable pub apply_settings : Time → Settings → Context → Room → Reply
apply_settings now s context r =
    let changes = changed_settings s r in
    require_all (needed_permissions changes) context r (apply_changes now changes)
