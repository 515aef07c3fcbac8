-- ===== src/Room/Consistency/Handlers.antt =====
-- server/room.ts: the handlers of the requests about playback keep the playback state consistent.
use opentogethertube_cn.Common.{
  ◌≡◌, Bool, true, false, Option, none, some, is_some, arith, String, Bool-cases, inl, inr, if_both,
  option_both, ℕ, ◌||◌, if◌then◌else◌, not,
}
use opentogethertube_cn.Queue.{QueueItem, VideoId, Number, finite, not_finite}
use opentogethertube_cn.Room.State.{Room, Time, Ticks, ClientId, EventRequest, no_context}
use opentogethertube_cn.Room.Clock.{
  play, pause, seek_raw, end_temporary_playback_speed, real_playback_position,
  flush_playback_position, set_playback_speed_raw,
}
use opentogethertube_cn.Room.Gate.{release_buffer_gate}
use opentogethertube_cn.Room.Dequeue.{Env, dequeue_next}
use opentogethertube_cn.Room.Requests.{Context, Reply, done, thrown, truthy}
use opentogethertube_cn.Room.Requests.Playback.{
  playback, skip, seek, skip_source, seek_to, toggle_skip_vote, enough_votes,
}
use opentogethertube_cn.Room.Requests.Speed.{
  set_playback_speed, speed_of, lease_ends, may_start_gesture, begin_gesture,
  renew_temporary_playback_speed, gesture_by_action, is_gesture, GestureAction, GestureRequest,
  set_temporary_playback_speed, start, renew, stop, other, is_action,
}
use opentogethertube_cn.Room.Requests.Texts.{gesture_id_valid}
use opentogethertube_cn.Room.Users.{get_user}
use opentogethertube_cn.Exceptions.{bad_api_argument, client_not_found_in_room}
use opentogethertube_cn.Room.Consistency.{
  IsConsistent, play-IsConsistent, pause-IsConsistent, seek_raw-IsConsistent,
  end_temporary_playback_speed-IsConsistent,
}
use opentogethertube_cn.Room.Consistency.Steps.{release_buffer_gate-IsConsistent}
use opentogethertube_cn.Room.Consistency.Dequeue.{dequeue_next-IsConsistent}
use opentogethertube_cn.Room.Consistency.Replies.{
  LeavesConsistent, require-Leaves, publish_room_event-IsConsistent,
}

pub playback-Leaves :
    (now : Time) (b : Bool) (c : Context) (r : Room)
    → IsConsistent r
    → LeavesConsistent (playback now b c r)
unfolding playback
playback-Leaves now b c r v =
    publish_room_event-IsConsistent (EventRequest.playback b) no_context c
      (if b then play now r else pause now false r)
      (if_both IsConsistent b (play now r) (pause now false r) (play-IsConsistent now r v)
        (pause-IsConsistent now false r v))

skip_source-IsConsistent :
    (e : Env) (s : QueueItem) (c : Context) (r : Room)
    → IsConsistent r
    → IsConsistent (skip_source e s c r)
unfolding skip_source
skip_source-IsConsistent e s c r v =
    let w =
      publish_room_event-IsConsistent EventRequest.skip
        (record no_context {
          video = some s;
          prev_position = some (real_playback_position e.now r);
        })
        c (dequeue_next e r) (dequeue_next-IsConsistent e r v) in
    record { gesture = w.gesture; round = w.round; hold = w.hold }

toggle_skip_vote-IsConsistent :
    (client : Option ClientId) (r : Room)
    → IsConsistent r
    → IsConsistent (toggle_skip_vote client r)
toggle_skip_vote-IsConsistent none r v = v
toggle_skip_vote-IsConsistent (some client) r v = record {
  gesture = v.gesture;
  round = v.round;
  hold = v.hold;
}

skip_if-Leaves :
    (e : Env) (s : QueueItem) (c : Context) (r : Room) (b : Bool)
    → IsConsistent r
    → LeavesConsistent (if b then done (skip_source e s c r) else done r)
skip_if-Leaves e s c r true v = skip_source-IsConsistent e s c r v
skip_if-Leaves e s c r false v = v

pub skip-Leaves :
    (e : Env) (c : Context) (r : Room) → IsConsistent r → LeavesConsistent (skip e c r)
unfolding skip
skip-Leaves e c r v =
    elim r.current_source
      as (λ o. LeavesConsistent (elim o [
        | none ↦ done r
        | some s ↦
            if r.enable_vote_skip
            then (let voted = toggle_skip_vote (truthy c.client_id) r in
                if enough_votes voted then done (skip_source e s c voted) else done voted)
            else done (skip_source e s c r)
      ])) [
        | none ↦ v
        | some s ↦
            let voted = toggle_skip_vote (truthy c.client_id) r in
            if_both LeavesConsistent r.enable_vote_skip
              (if enough_votes voted then done (skip_source e s c voted) else done voted)
              (done (skip_source e s c r))
              (skip_if-Leaves e s c voted (enough_votes voted)
                (toggle_skip_vote-IsConsistent (truthy c.client_id) r v))
              (skip_source-IsConsistent e s c r v)
      ]

seek_to-IsConsistent :
    (now : Time) (t : Ticks) (c : Context) (r : Room)
    → IsConsistent r
    → IsConsistent (seek_to now t c r)
unfolding seek_to
seek_to-IsConsistent now t c r v =
    let w =
      publish_room_event-IsConsistent (EventRequest.seek t)
        (record no_context { prev_position = some (real_playback_position now r) }) c
        (seek_raw now t r) (seek_raw-IsConsistent now t r v) in
    record { gesture = w.gesture; round = w.round; hold = w.hold }

pub seek-Leaves :
    (now : Time) (t : Option Number) (c : Context) (r : Room)
    → IsConsistent r
    → LeavesConsistent (seek now t c r)
unfolding seek
seek-Leaves now none c r v = v
seek-Leaves now (some not_finite) c r v = v
seek-Leaves now (some (finite t)) c r v = ground (arith, v, seek_to-IsConsistent now t c r v)

set_speed-IsConsistent :
    (now : Time) (s : ℕ) (r : Room)
    → IsConsistent r
    → IsConsistent (
        set_playback_speed_raw s
          (flush_playback_position now (end_temporary_playback_speed now false r)))
unfolding flush_playback_position end_temporary_playback_speed
set_speed-IsConsistent now s r v = ground arith

pub set_playback_speed-Leaves :
    (now : Time) (s : Number) (r : Room)
    → IsConsistent r
    → LeavesConsistent (set_playback_speed now s r)
unfolding set_playback_speed
set_playback_speed-Leaves now s r v =
    option_both LeavesConsistent (speed_of s) (thrown (bad_api_argument "speed") r)
      (λ n. done (
        set_playback_speed_raw n
          (flush_playback_position now (end_temporary_playback_speed now false r))))
      v (λ n. set_speed-IsConsistent now n r v)

pub lease_ends-IsConsistent :
    (now : Time) (r : Room) → IsConsistent r → IsConsistent (lease_ends now r)
unfolding lease_ends
lease_ends-IsConsistent now r v = ground arith

begin_gesture-IsConsistent :
    (now : Time) (client : ClientId) (g : String) (r : Room)
    → is_some r.current_source ≡ true
    → IsConsistent r
    → IsConsistent (begin_gesture now client g r)
unfolding begin_gesture
begin_gesture-IsConsistent now client g r s v = ground arith

renew-IsConsistent :
    (now : Time) (r : Room) → IsConsistent r → IsConsistent (renew_temporary_playback_speed now r)
renew-IsConsistent now r v = record { gesture = v.gesture; round = v.round; hold = v.hold }

-- Letting go of the gate leaves the source.
release_buffer_gate-source :
    (now : Time) (b : Bool) (r : Room)
    → (release_buffer_gate now b r).current_source ≡ r.current_source
unfolding release_buffer_gate
release_buffer_gate-source now b r = ground arith

may_start_gesture-source :
    (v : Option VideoId) (r : Room) → may_start_gesture v r ≡ true → is_some r.current_source ≡ true
unfolding may_start_gesture
may_start_gesture-source v r m = ground arith

start_gesture-Leaves :
    (now : Time) (g : String) (video : Option VideoId) (client : ClientId) (r : Room)
    → IsConsistent r
    → LeavesConsistent (
        if may_start_gesture video r
        then done (begin_gesture now client g (release_buffer_gate now false r))
        else done r)
start_gesture-Leaves now g video client r v = elim (Bool-cases (may_start_gesture video r)) [
  | inr m ↦ rw m v
  | inl m ↦ rw m (
      begin_gesture-IsConsistent now client g (release_buffer_gate now false r)
        (rw (release_buffer_gate-source now false r) (may_start_gesture-source video r m))
        (release_buffer_gate-IsConsistent now false r v))
]

gesture_by_action-Leaves :
    (now : Time) (a : GestureAction) (g : String) (video : Option VideoId) (client : ClientId)
    (c : Context) (r : Room)
    → IsConsistent r
    → LeavesConsistent (gesture_by_action now a g video client c r)
gesture_by_action-Leaves now stop g video client c r v =
    if_both LeavesConsistent (is_gesture client g r.temporary_speed)
      (done (end_temporary_playback_speed now true r)) (done r)
      (end_temporary_playback_speed-IsConsistent now true r v) v
gesture_by_action-Leaves now renew g video client c r v =
    require-Leaves "playback.speed" c r
      (λ r.
        if is_gesture client g r.temporary_speed
        then done (renew_temporary_playback_speed now r)
        else done r)
      v
      (if_both LeavesConsistent (is_gesture client g r.temporary_speed)
        (done (renew_temporary_playback_speed now r)) (done r) (renew-IsConsistent now r v) v)
gesture_by_action-Leaves now start g video client c r v =
    require-Leaves "playback.speed" c r
      (λ r.
        if may_start_gesture video r
        then done (begin_gesture now client g (release_buffer_gate now false r))
        else done r)
      v (start_gesture-Leaves now g video client r v)
gesture_by_action-Leaves now other g video client c r v =
    require-Leaves "playback.speed" c r
      (λ r.
        if may_start_gesture video r
        then done (begin_gesture now client g (release_buffer_gate now false r))
        else done r)
      v (start_gesture-Leaves now g video client r v)

pub set_temporary_playback_speed-Leaves :
    (now : Time) (q : GestureRequest) (c : Context) (r : Room)
    → IsConsistent r
    → LeavesConsistent (set_temporary_playback_speed now q c r)
unfolding set_temporary_playback_speed
set_temporary_playback_speed-Leaves now q c r v =
    if_both LeavesConsistent (not (gesture_id_valid q.gesture_id) || not (is_action q.action))
      (thrown (bad_api_argument "gesture") r)
      (elim (truthy c.client_id) [ none ↦ refused | some client ↦ answered client ]) v
      (option_both LeavesConsistent (truthy c.client_id) refused answered v λ client.
        if_both LeavesConsistent (is_some (get_user client r)) (acted client) refused
          (gesture_by_action-Leaves now q.action q.gesture_id q.video client c r v) v)
  where
    refused : Reply
    refused = thrown client_not_found_in_room r

    acted : ClientId → Reply
    acted client = gesture_by_action now q.action q.gesture_id q.video client c r

    answered : ClientId → Reply
    answered client = if is_some (get_user client r) then acted client else refused
