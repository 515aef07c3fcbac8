-- ===== src/Room/Consistency/Leaving.antt =====
-- server/room.ts: departures of viewers keep the playback state consistent.
use opentogethertube_cn.Common.{
  ◌≡◌, refl, Bool, true, false, Option, none, some, is_some, arith, Bool-cases, inl, inr, if_both,
  option_both, if◌then◌else◌, ◌&&◌, ◌∙◌, not,
}
use opentogethertube_cn.Common.Dict.{string_eq}
use opentogethertube_cn.Exceptions.{plain}
use opentogethertube_cn.Room.State.{
  Room, Time, ClientId, AuthToken, RoomUserInfo, Preparation, EventRequest, no_context, SyncProp,
  mark_dirty,
}
use opentogethertube_cn.Room.Clock.{
  pause_playback_clock, cancel_playback_preparation, end_temporary_playback_speed,
}
use opentogethertube_cn.Room.Users.{get_user}
use opentogethertube_cn.Room.Holding.{can_prepare_playback}
use opentogethertube_cn.Room.Gate.{release_buffer_gate, nonempty}
use opentogethertube_cn.Room.Dequeue.{Env}
use opentogethertube_cn.Room.Requests.{Context, Reply, done, thrown, with_value, publish_event_of}
use opentogethertube_cn.Room.Requests.Members.{known_info}
use opentogethertube_cn.Room.Requests.Leaving.{
  publish_leave_event, leave_event_due, drop_votes, remove_user, should_resume, empty_room,
  rebuild_round, takes_part, settle_playback, without_viewer, without_gesture, leave_room,
  owns_gesture, token_of,
}
use opentogethertube_cn.Room.Consistency.{
  IsConsistent, end_temporary_playback_speed-IsConsistent, cancel_playback_preparation-IsConsistent,
  pause_playback_clock-IsConsistent,
}
use opentogethertube_cn.Room.Consistency.Steps.{
  release_buffer_gate-IsConsistent, evaluate_buffer_gate-IsConsistent,
}
use opentogethertube_cn.Room.Consistency.Dequeue.{prepare_empty_room_playback-IsConsistent}
use opentogethertube_cn.Room.Consistency.Replies.{
  LeavesConsistent, with_value-Leaves, publish_event_of-IsConsistent,
}
use opentogethertube_cn.Room.Consistency.Joining.{users-IsConsistent}

publish_leave_event-IsConsistent :
    (now : Time) (client : ClientId) (u : RoomUserInfo) (t : AuthToken) (r : Room)
    → IsConsistent r
    → IsConsistent (publish_leave_event now client u t r)
unfolding publish_leave_event
publish_leave_event-IsConsistent now client u t r v = ground (
  arith,
  publish_event_of-IsConsistent EventRequest.leave (record no_context { user = some u }) u r v,
)

drop_votes-IsConsistent :
    (client : ClientId) (r : Room) → IsConsistent r → IsConsistent (drop_votes client r)
unfolding drop_votes
drop_votes-IsConsistent client r v = ground arith

-- The room that no one is in any more: its gate is gone.
leave_empty-IsConsistent :
    (now : Time) (b : Bool) (r : Room)
    → r.buffer_gate ≡ none
    → IsConsistent r
    → IsConsistent (
        mark_dirty SyncProp.is_playing
          (record r { resume_on_next_join = b; keep_alive_ping = now }))
leave_empty-IsConsistent now b r n v = ground (arith, n)

pause_playback_clock-gate :
    (now : Time) (r : Room) → (pause_playback_clock now r).buffer_gate ≡ r.buffer_gate
unfolding pause_playback_clock
pause_playback_clock-gate now r = ground arith

release_buffer_gate-gate :
    (now : Time) (b : Bool) (r : Room) → (release_buffer_gate now b r).buffer_gate ≡ none
unfolding release_buffer_gate
release_buffer_gate-gate now b r = ground arith

cancel_playback_preparation-gate :
    (r : Room) → (cancel_playback_preparation r).buffer_gate ≡ r.buffer_gate
unfolding cancel_playback_preparation
cancel_playback_preparation-gate r = refl

empty_room-IsConsistent : (now : Time) (r : Room) → IsConsistent r → IsConsistent (empty_room now r)
unfolding empty_room
empty_room-IsConsistent now r v =
    let released = release_buffer_gate now false r in
    let paused = pause_playback_clock now released in
    let stopped = cancel_playback_preparation paused in
    leave_empty-IsConsistent now (should_resume r && can_prepare_playback stopped) stopped
      (cancel_playback_preparation-gate paused
        ∙ pause_playback_clock-gate now released
        ∙ release_buffer_gate-gate now false r)
      (cancel_playback_preparation-IsConsistent paused (
        pause_playback_clock-IsConsistent now released
          (release_buffer_gate-IsConsistent now false r v)))

-- A room with a round has no gate, and may mean to resume.
rebuilt-IsConsistent :
    (r : Room)
    → is_some r.playback_preparation ≡ true
    → IsConsistent r
    → IsConsistent (
        mark_dirty SyncProp.is_playing
          (record (cancel_playback_preparation r) { resume_on_next_join = true }))
unfolding cancel_playback_preparation
rebuilt-IsConsistent r p v = ground arith

rebuild_round-IsConsistent :
    (e : Env) (r : Room)
    → is_some r.playback_preparation ≡ true
    → IsConsistent r
    → IsConsistent (rebuild_round e r)
unfolding rebuild_round
rebuild_round-IsConsistent e r p v =
    prepare_empty_room_playback-IsConsistent e.now e.uuid
      (mark_dirty SyncProp.is_playing
        (record (cancel_playback_preparation r) { resume_on_next_join = true }))
      (rebuilt-IsConsistent r p v)

takes_part-some :
    (client : ClientId) (p : Option Preparation) → takes_part client p ≡ true → is_some p ≡ true
takes_part-some client none h = h
takes_part-some client (some p) h = refl

settle_playback-IsConsistent :
    (e : Env) (client : ClientId) (r : Room)
    → IsConsistent r
    → IsConsistent (settle_playback e client r)
unfolding settle_playback
settle_playback-IsConsistent e client r v =
    if_both IsConsistent (not (nonempty r.realusers)) (empty_room e.now r)
      (if takes_part client r.playback_preparation then rebuild_round e r else r)
      (empty_room-IsConsistent e.now r v)
      (elim (Bool-cases (takes_part client r.playback_preparation)) [
        | inl t ↦
            rw t
              (rebuild_round-IsConsistent e r (takes_part-some client r.playback_preparation t) v)
        | inr t ↦ rw t v
      ])

without_viewer-IsConsistent :
    (e : Env) (client : ClientId) (u : RoomUserInfo) (r : Room)
    → IsConsistent r
    → IsConsistent (without_viewer e client u r)
unfolding without_viewer
without_viewer-IsConsistent e client u r v =
    let announced = publish_leave_event e.now client u (token_of (get_user client r)) r in
    let unvoted = drop_votes client announced in
    let left = record unvoted { realusers = remove_user client unvoted.realusers } in
    evaluate_buffer_gate-IsConsistent e.now (settle_playback e client left) (
      settle_playback-IsConsistent e client left (
        users-IsConsistent (remove_user client unvoted.realusers) unvoted (
          drop_votes-IsConsistent client announced
            (publish_leave_event-IsConsistent e.now client u (token_of (get_user client r)) r v))))

pub leave_room-Leaves :
    (e : Env) (c : Context) (r : Room) → IsConsistent r → LeavesConsistent (leave_room e c r)
unfolding leave_room
leave_room-Leaves e c r v =
    option_both LeavesConsistent c.client_id (thrown (plain "context.clientId was undefined") r)
      leave_as v
      λ client.
        with_value-Leaves (known_info client (without_gesture e.now client r))
          (without_gesture e.now client r)
          (λ user. done (without_viewer e client user (without_gesture e.now client r)))
          (released client)
          (λ user.
            without_viewer-IsConsistent e client user (without_gesture e.now client r)
              (released client))
  where
    leave_as : ClientId → Reply
    leave_as client =
        with_value (known_info client (without_gesture e.now client r))
          (without_gesture e.now client r)
          (λ user. done (without_viewer e client user (without_gesture e.now client r)))

    released : (client : ClientId) → IsConsistent (without_gesture e.now client r)
    released client =
        if_both IsConsistent (owns_gesture client r.temporary_speed)
          (end_temporary_playback_speed e.now true r) r
          (end_temporary_playback_speed-IsConsistent e.now true r v) v

pub leave_event_due-IsConsistent :
    (now : Time) (t : AuthToken) (r : Room)
    → IsConsistent r
    → IsConsistent (leave_event_due now t r)
unfolding leave_event_due publish_event_of
leave_event_due-IsConsistent now t r v = ground arith
