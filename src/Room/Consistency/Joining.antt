-- ===== src/Room/Consistency/Joining.antt =====
-- server/room.ts: arrivals and news of viewers keep the playback state consistent.
use opentogethertube_cn.Common.{
  ◌≡◌, refl, Bool, true, false, Option, none, some, is_some, arith, List, [], ◌∷◌, ◌++◌, if_both,
  option_both, if◌then◌else◌, ◌==◌,
}
use opentogethertube_cn.Common.Dict.{get, remove, string_eq}
use opentogethertube_cn.Exceptions.{plain}
use opentogethertube_cn.Room.State.{
  Room, Time, ClientId, AuthToken, Account, RoomUser, RoomUserInfo, Preparation, EventRequest,
  no_context, PlayerStatus, SyncProp, mark_dirty,
}
use opentogethertube_cn.Room.Clock.{play}
use opentogethertube_cn.Room.Users.{ClientInfo, get_user, update_info}
use opentogethertube_cn.Room.Preparation.{
  schedule_if_ready, set_preparation, schedule_playback_start, all_eligible_ready,
}
use opentogethertube_cn.Room.Holding.{
  prepare_empty_room_playback, hold_empty_playback_for_join, PlaybackPrepared,
  finish_playback_preparation, finish_round, finish_if_any, add_report,
}
use opentogethertube_cn.Room.Dequeue.{Env}
use opentogethertube_cn.Room.Requests.{Context, Reply, done, thrown}
use opentogethertube_cn.Room.Requests.Members.{
  known_info, sync_user, note_join, session_in_room, new_user, JoinRequest, resumes_at_once,
  resume_for, announce_join, join_with, join_room, UpdateRequest, apply_update, evaluate_after,
  update_user, rearm, change_user,
}
use opentogethertube_cn.Room.Consistency.{IsConsistent, play-IsConsistent}
use opentogethertube_cn.Room.Consistency.Steps.{
  evaluate_buffer_gate-IsConsistent, schedule_playback_start-IsConsistent,
  drop_playback_participant-IsConsistent,
}
use opentogethertube_cn.Room.Consistency.Dequeue.{
  prepare_empty_room_playback-IsConsistent, hold_empty_playback_for_join-IsConsistent,
}
use opentogethertube_cn.Room.Consistency.Replies.{
  mark_dirty-IsConsistent, LeavesConsistent, with_value-Leaves, publish_room_event-IsConsistent,
}

-- A report in the round of a held source.
report-IsConsistent :
    (now : Time) (client : ClientId) (q : PlaybackPrepared) (p : Preparation) (r : Room)
    → r.playback_preparation ≡ some p
    → IsConsistent r
    → IsConsistent (set_preparation (add_report now client q p) r)
report-IsConsistent now client q p r e v = ground (arith, e)

ready_round-IsConsistent :
    (now : Time) (p : Preparation) (r : Room)
    → IsConsistent r
    → IsConsistent (schedule_if_ready now p r)
ready_round-IsConsistent now p r v =
    if_both IsConsistent (all_eligible_ready r p) (schedule_playback_start now none r) r
      (schedule_playback_start-IsConsistent now none r v) v

finish_round-IsConsistent :
    (now : Time) (client : ClientId) (s : Option PlayerStatus) (q : PlaybackPrepared)
    (p : Preparation) (r : Room)
    → r.playback_preparation ≡ some p
    → IsConsistent r
    → IsConsistent (finish_round now client s q p r)
finish_round-IsConsistent now client s q p r e v =
    let reported = set_preparation (add_report now client q p) r in
    ground (
      arith,
      drop_playback_participant-IsConsistent now client r v,
      ready_round-IsConsistent now (add_report now client q p) reported
          (report-IsConsistent now client q p r e v),
    )

finish_if_any-IsConsistent :
    (now : Time) (client : ClientId) (s : Option PlayerStatus) (q : Option PlaybackPrepared)
    (p : Option Preparation) (r : Room)
    → r.playback_preparation ≡ p
    → IsConsistent r
    → IsConsistent (finish_if_any now client s q p r)
finish_if_any-IsConsistent now client s (some q) (some p) r e v =
    finish_round-IsConsistent now client s q p r e v
finish_if_any-IsConsistent now client s (some q) none r e v = v
finish_if_any-IsConsistent now client s none p r e v = v

pub finish_playback_preparation-IsConsistent :
    (now : Time) (client : ClientId) (s : Option PlayerStatus) (q : Option PlaybackPrepared)
    (r : Room)
    → IsConsistent r
    → IsConsistent (finish_playback_preparation now client s q r)
unfolding finish_playback_preparation
finish_playback_preparation-IsConsistent now client s q r v =
    finish_if_any-IsConsistent now client s q r.playback_preparation r refl v

-- The users are no matter of the playback state.
pub users-IsConsistent :
    (us : List RoomUser) (r : Room) → IsConsistent r → IsConsistent (record r { realusers = us })
users-IsConsistent us r v = record { gesture = v.gesture; round = v.round; hold = v.hold }

sync_user-IsConsistent :
    (i : RoomUserInfo) (r : Room) → IsConsistent r → IsConsistent (sync_user i r)
sync_user-IsConsistent i r v = record { gesture = v.gesture; round = v.round; hold = v.hold }

rearm-IsConsistent : (i : ClientInfo) (r : Room) → IsConsistent r → IsConsistent (rearm i r)
rearm-IsConsistent i r v = ground arith

apply_update-Leaves :
    (e : Env) (a : Option Account) (q : UpdateRequest) (r : Room)
    → IsConsistent r
    → LeavesConsistent (apply_update e a q r)
unfolding apply_update
apply_update-Leaves e a q r v =
    let us = change_user q.info.id (update_info a q.info) r.realusers in
    let armed = rearm q.info (record r { realusers = us }) in
    let w = rearm-IsConsistent q.info (record r { realusers = us }) (users-IsConsistent us r v) in
    with_value-Leaves (known_info q.info.id armed) armed
      (λ info. done (
        finish_playback_preparation e.now q.info.id q.info.status q.prepared
          (sync_user info armed)))
      w
      (λ info.
        finish_playback_preparation-IsConsistent e.now q.info.id q.info.status q.prepared
          (sync_user info armed) (sync_user-IsConsistent info armed w))

evaluate_after-Leaves :
    (now : Time) (reply : Reply)
    → LeavesConsistent reply
    → LeavesConsistent (evaluate_after now reply)
evaluate_after-Leaves now (done r) v = evaluate_buffer_gate-IsConsistent now r v
evaluate_after-Leaves now (thrown x r) v = v

pub update_user-Leaves :
    (e : Env) (a : Option Account) (q : UpdateRequest) (r : Room)
    → IsConsistent r
    → LeavesConsistent (update_user e a q r)
unfolding update_user
update_user-Leaves e a q r v =
    evaluate_after-Leaves e.now
      (if is_some (get_user q.info.id r) then apply_update e a q r else done r)
      (if_both LeavesConsistent (is_some (get_user q.info.id r)) (apply_update e a q r) (done r)
        (apply_update-Leaves e a q r v) v)

clear_intent-IsConsistent :
    (r : Room) → IsConsistent r → IsConsistent (record r { resume_on_next_join = false })
clear_intent-IsConsistent r v = ground arith

resume_for-IsConsistent :
    (e : Env) (b : Bool) (c : Context) (r : Room)
    → IsConsistent r
    → IsConsistent (resume_for e b c r)
unfolding resume_for
resume_for-IsConsistent e b c r v =
    let meant = record r { resume_on_next_join = false } in
    let marked = mark_dirty SyncProp.is_playing meant in
    if_both IsConsistent (resumes_at_once b c r)
      (mark_dirty SyncProp.playback_position (play e.now marked))
      (prepare_empty_room_playback e.now e.uuid r)
      (mark_dirty-IsConsistent SyncProp.playback_position (play e.now marked) (
        play-IsConsistent e.now marked
          (mark_dirty-IsConsistent SyncProp.is_playing meant (clear_intent-IsConsistent r v))))
      (prepare_empty_room_playback-IsConsistent e.now e.uuid r v)

announce_join-IsConsistent :
    (client : ClientId) (c : Context) (b : Bool) (r : Room)
    → IsConsistent r
    → IsConsistent (announce_join client c (b, r))
announce_join-IsConsistent client c true r v = v
announce_join-IsConsistent client c false r v =
    publish_room_event-IsConsistent (EventRequest.join client) no_context c r v

note_join-IsConsistent :
    (t : AuthToken) (client : ClientId) (r : Room)
    → IsConsistent r
    → IsConsistent ((note_join t client r).1)
unfolding note_join
note_join-IsConsistent t client r v =
    let rest = remove t r.pending_leave_events in
    if_both (λ (x : Bool × Room). IsConsistent x.1) (is_some (get t r.pending_leave_events))
      (true, record r { pending_leave_events = rest }) (session_in_room t (some client) r, r)
      (record { gesture = v.gesture; round = v.round; hold = v.hold }) v

join_with-Leaves :
    (e : Env) (a : Option Account) (q : JoinRequest) (t : AuthToken) (c : Context) (r : Room)
    → IsConsistent r
    → LeavesConsistent (join_with e a q t c r)
join_with-Leaves e a q t c r v =
    let user = update_info a q.info (new_user q.info.id t) in
    let empty = hold_empty_playback_for_join e.now q.reconnect r in
    let joined = record empty { realusers = empty.realusers ++ user ∷ [] } in
    let resumed = resume_for e q.reconnect c joined in
    let (known, noted) = note_join t user.id resumed in
    let announced = announce_join user.id c (known, noted) in
    let w = announce_join-IsConsistent user.id c known noted (
      note_join-IsConsistent t user.id resumed (
        resume_for-IsConsistent e q.reconnect c joined (
          users-IsConsistent (empty.realusers ++ user ∷ []) empty
            (hold_empty_playback_for_join-IsConsistent e.now q.reconnect r v)))) in
    with_value-Leaves (known_info user.id announced) announced
      (λ info. done (sync_user info announced)) w (λ info. sync_user-IsConsistent info announced w)

pub join_room-Leaves :
    (e : Env) (a : Option Account) (q : JoinRequest) (c : Context) (r : Room)
    → IsConsistent r
    → LeavesConsistent (join_room e a q c r)
unfolding join_room
join_room-Leaves e a q c r v =
    option_both LeavesConsistent c.token (thrown (plain "No auth token") r)
      (λ token. if token == "" then thrown (plain "No auth token") r else join_with e a q token c r)
      v
      (λ token.
        if_both LeavesConsistent (token == "") (thrown (plain "No auth token") r)
          (join_with e a q token c r) v (join_with-Leaves e a q token c r v))
