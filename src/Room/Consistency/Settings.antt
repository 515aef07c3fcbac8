-- ===== src/Room/Consistency/Settings.antt =====
-- server/room.ts: the settings keep the playback state consistent.
use opentogethertube_cn.Common.{String, Bool, Option, none, some, List, [], ◌∷◌, arith, if_both}
use opentogethertube_cn.Exceptions.{bad_api_argument}
use opentogethertube_cn.Permissions.{Role, GrantMask, PermissionName}
use opentogethertube_cn.Permissions.Grants.{store_role_grants}
use opentogethertube_cn.Room.State.{
  Room, Time, SyncProp, mark_dirty, Visibility, QueueMode, BehaviorOption, BufferGateMode,
}
use opentogethertube_cn.Room.Gate.{evaluate_buffer_gate}
use opentogethertube_cn.Room.Requests.{Context, Reply, done, thrown}
use opentogethertube_cn.Room.Requests.Settings.{
  Settings, assign_with, set_title, set_description, set_visibility, set_queue_mode,
  set_auto_skip_segment_categories, set_restore_queue_behavior, set_enable_vote_skip,
  set_buffer_gate_mode, set_danmaku_source, assign_settings, assign_grants, want_segments,
  categories_change, normal_categories, private_without_password, apply_changes, apply_settings,
  changed_settings, needed_permissions, require_all,
}
use opentogethertube_cn.Room.Consistency.{IsConsistent}
use opentogethertube_cn.Room.Consistency.Steps.{evaluate_buffer_gate-IsConsistent}
use opentogethertube_cn.Room.Consistency.Replies.{LeavesConsistent, require_if-Leaves}

-- A change that keeps the state consistent does so where it is made only if asked for.
assign_with-IsConsistent :
    {A : Type 0} (o : Option A) (change : A → Room → Room)
    → ((a : A) (r : Room) → IsConsistent r → IsConsistent (change a r))
    → (r : Room) → IsConsistent r
    → IsConsistent (assign_with o change r)
assign_with-IsConsistent none change f r v = v
assign_with-IsConsistent (some a) change f r v = f a r v

set_title-IsConsistent : (x : String) (r : Room) → IsConsistent r → IsConsistent (set_title x r)
set_title-IsConsistent x r v = record { gesture = v.gesture; round = v.round; hold = v.hold }

set_description-IsConsistent :
    (x : String) (r : Room) → IsConsistent r → IsConsistent (set_description x r)
set_description-IsConsistent x r v = record { gesture = v.gesture; round = v.round; hold = v.hold }

set_visibility-IsConsistent :
    (x : Visibility) (r : Room) → IsConsistent r → IsConsistent (set_visibility x r)
set_visibility-IsConsistent x r v = record { gesture = v.gesture; round = v.round; hold = v.hold }

set_queue_mode-IsConsistent :
    (x : QueueMode) (r : Room) → IsConsistent r → IsConsistent (set_queue_mode x r)
set_queue_mode-IsConsistent x r v = record { gesture = v.gesture; round = v.round; hold = v.hold }

set_auto_skip_segment_categories-IsConsistent :
    (x : List String) (r : Room)
    → IsConsistent r
    → IsConsistent (set_auto_skip_segment_categories x r)
set_auto_skip_segment_categories-IsConsistent x r v = record {
  gesture = v.gesture;
  round = v.round;
  hold = v.hold;
}

set_restore_queue_behavior-IsConsistent :
    (x : BehaviorOption) (r : Room) → IsConsistent r → IsConsistent (set_restore_queue_behavior x r)
set_restore_queue_behavior-IsConsistent x r v = record {
  gesture = v.gesture;
  round = v.round;
  hold = v.hold;
}

set_enable_vote_skip-IsConsistent :
    (x : Bool) (r : Room) → IsConsistent r → IsConsistent (set_enable_vote_skip x r)
set_enable_vote_skip-IsConsistent x r v = record {
  gesture = v.gesture;
  round = v.round;
  hold = v.hold;
}

set_buffer_gate_mode-IsConsistent :
    (x : BufferGateMode) (r : Room) → IsConsistent r → IsConsistent (set_buffer_gate_mode x r)
set_buffer_gate_mode-IsConsistent x r v = record {
  gesture = v.gesture;
  round = v.round;
  hold = v.hold;
}

set_danmaku_source-IsConsistent :
    (x : Option String) (r : Room) → IsConsistent r → IsConsistent (set_danmaku_source x r)
set_danmaku_source-IsConsistent x r v = record {
  gesture = v.gesture;
  round = v.round;
  hold = v.hold;
}

assign_settings-IsConsistent :
    (s : Settings) (r : Room) → IsConsistent r → IsConsistent (assign_settings s r)
unfolding assign_settings
assign_settings-IsConsistent s r v =
    let r₁ = assign_with s.title set_title r in
    let v₁ = assign_with-IsConsistent s.title set_title set_title-IsConsistent r v in
    let r₂ = assign_with s.description set_description r₁ in
    let v₂ =
      assign_with-IsConsistent s.description set_description set_description-IsConsistent r₁ v₁ in
    let r₃ = assign_with s.visibility set_visibility r₂ in
    let v₃ =
      assign_with-IsConsistent s.visibility set_visibility set_visibility-IsConsistent r₂ v₂ in
    let r₄ = assign_with s.queue_mode set_queue_mode r₃ in
    let v₄ =
      assign_with-IsConsistent s.queue_mode set_queue_mode set_queue_mode-IsConsistent r₃ v₃ in
    let r₅ = assign_with s.auto_skip_segment_categories set_auto_skip_segment_categories r₄ in
    let v₅ =
      assign_with-IsConsistent s.auto_skip_segment_categories set_auto_skip_segment_categories
        set_auto_skip_segment_categories-IsConsistent r₄ v₄ in
    let r₆ = assign_with s.restore_queue_behavior set_restore_queue_behavior r₅ in
    let v₆ =
      assign_with-IsConsistent s.restore_queue_behavior set_restore_queue_behavior
        set_restore_queue_behavior-IsConsistent r₅ v₅ in
    let r₇ = assign_with s.enable_vote_skip set_enable_vote_skip r₆ in
    let v₇ =
      assign_with-IsConsistent s.enable_vote_skip set_enable_vote_skip
        set_enable_vote_skip-IsConsistent r₆ v₆ in
    let r₈ = assign_with s.buffer_gate_mode set_buffer_gate_mode r₇ in
    let v₈ =
      assign_with-IsConsistent s.buffer_gate_mode set_buffer_gate_mode
        set_buffer_gate_mode-IsConsistent r₇ v₇ in
    assign_with-IsConsistent s.danmaku_source set_danmaku_source set_danmaku_source-IsConsistent r₈
      v₈

assign_grants-IsConsistent :
    (es : List (Role × GrantMask)) (r : Room) → IsConsistent r → IsConsistent (assign_grants es r)
unfolding assign_grants
assign_grants-IsConsistent [] r v = v
assign_grants-IsConsistent ((role, m) ∷ es) r v =
    assign_grants-IsConsistent es
      (mark_dirty SyncProp.grants (record r { grants = store_role_grants role m r.grants }))
      (record { gesture = v.gesture; round = v.round; hold = v.hold })

want_segments-IsConsistent :
    (b : Bool) (r : Room) → IsConsistent r → IsConsistent (want_segments b r)
want_segments-IsConsistent b r v = ground arith

require_all-Leaves :
    (names : List (Option PermissionName)) (c : Context) (r : Room) (next : Room → Reply)
    → IsConsistent r
    → LeavesConsistent (next r)
    → LeavesConsistent (require_all names c r next)
unfolding require_all
require_all-Leaves [] c r next v w = w
require_all-Leaves (n ∷ ns) c r next v w =
    require_if-Leaves n c r (λ r. require_all ns c r next) v (require_all-Leaves ns c r next v w)

apply_changes-Leaves :
    (now : Time) (s : Settings) (r : Room)
    → IsConsistent r
    → LeavesConsistent (apply_changes now s r)
unfolding apply_changes
apply_changes-Leaves now s r v =
    if_both LeavesConsistent (private_without_password s.visibility r.password_hash)
      (thrown (bad_api_argument "visibility") r) (done (evaluate_buffer_gate now wanted)) v
      (evaluate_buffer_gate-IsConsistent now wanted (
        want_segments-IsConsistent (categories_change s.auto_skip_segment_categories r) granted_room
          (assign_grants-IsConsistent normal.grants (assign_settings normal r)
            (assign_settings-IsConsistent normal r v))))
  where
    normal : Settings
    normal = record s {
      auto_skip_segment_categories = normal_categories s.auto_skip_segment_categories r;
    }

    granted_room : Room
    granted_room = assign_grants normal.grants (assign_settings normal r)

    wanted : Room
    wanted = want_segments (categories_change s.auto_skip_segment_categories r) granted_room

pub apply_settings-Leaves :
    (now : Time) (s : Settings) (c : Context) (r : Room)
    → IsConsistent r
    → LeavesConsistent (apply_settings now s c r)
unfolding apply_settings
apply_settings-Leaves now s c r v =
    let changes = changed_settings s r in
    require_all-Leaves (needed_permissions changes) c r (apply_changes now changes) v
      (apply_changes-Leaves now changes r v)
