-- ===== src/Room/Requests/Speed.antt =====
-- server/room.ts: the speed of playback, set for good or for as long as a viewer presses.
use opentogethertube_cn.Common.{
  ℕ, ◌+◌, Bool, true, false, not, ◌&&◌, ◌||◌, Option, none, some, String, ◌==◌, if◌then◌else◌, leb,
  is_some,
}
use opentogethertube_cn.Common.Int.{pos, negsuc}
use opentogethertube_cn.Exceptions.{bad_api_argument, client_not_found_in_room}
use opentogethertube_cn.Queue.{QueueItem, VideoId, Number, finite, not_finite}
use opentogethertube_cn.Room.State.{Room, Time, SyncProp, ClientId, TemporarySpeed, mark_dirty}
use opentogethertube_cn.Room.Clock.{
  end_temporary_playback_speed, flush_playback_position, set_playback_speed_raw,
}
use opentogethertube_cn.Room.Users.{get_user}
use opentogethertube_cn.Room.Holding.{buffering_gate_held, positive_length, plays_video}
use opentogethertube_cn.Room.Gate.{release_buffer_gate}
use opentogethertube_cn.Room.Requests.{Context, Reply, done, thrown, truthy, require}
use opentogethertube_cn.Room.Requests.Texts.{gesture_id_valid}

-- A speed from 0.25 to 4, in hundredths.
abbrev pub speed_of : Number → Option ℕ
speed_of not_finite = none
speed_of (finite (negsuc n)) = none
speed_of (finite (pos n)) = if leb 25 n && leb n 400 then some n else none

unfoldable pub set_playback_speed : Time → Number → Room → Reply
set_playback_speed now speed r = elim (speed_of speed) [
  | none ↦ thrown (bad_api_argument "speed") r
  | some s ↦ done (
      set_playback_speed_raw s
        (flush_playback_position now (end_temporary_playback_speed now false r)))
]

pub data GestureAction : Type 0 where
  start renew stop other : GestureAction

pub record GestureRequest : Type 0 where
  pub gesture_id : String
  pub action : GestureAction
  pub video : Option VideoId

abbrev pub temporary_playback_speed : ℕ
temporary_playback_speed = 200

abbrev pub temporary_playback_speed_lease_ms : ℕ
temporary_playback_speed_lease_ms = 5000

abbrev pub renew_temporary_playback_speed : Time → Room → Room
renew_temporary_playback_speed now r = record r {
  temporary_speed_timer = some (now + temporary_playback_speed_lease_ms);
}

-- The timer's callback: the lease ends when it was not renewed.
unfoldable pub lease_ends : Time → Room → Room
unfolding end_temporary_playback_speed
lease_ends now r = elim r.temporary_speed_timer [
  | none ↦ r
  | some due ↦ if leb due now then end_temporary_playback_speed now true r else r
]

abbrev pub is_gesture : ClientId → String → Option TemporarySpeed → Bool
is_gesture client gesture none = false
is_gesture client gesture (some t) = t.client_id == client && t.gesture_id == gesture

abbrev pub plays_finite : Option QueueItem → Bool
plays_finite none = false
plays_finite (some s) = positive_length s.length

abbrev pub plays_requested : Option VideoId → Option QueueItem → Bool
plays_requested none s = false
plays_requested (some v) s = plays_video v s

-- The room plays, or would but for the gate, what the gesture is about, and no gesture is on.
unfoldable pub may_start_gesture : Option VideoId → Room → Bool
may_start_gesture video r =
    (r.is_playing || buffering_gate_held r)
    && plays_finite r.current_source
    && plays_requested video r.current_source
    && not (is_some r.temporary_speed)

-- The start of a gesture once the gate let go.
unfoldable pub begin_gesture : Time → ClientId → String → Room → Room
unfolding flush_playback_position
begin_gesture now client gesture r =
    if not r.is_playing
    then r
    else let flushed = flush_playback_position now r in
      let pressed = record flushed {
        temporary_speed = some (record {
          client_id = client;
          gesture_id = gesture;
          speed = temporary_playback_speed;
          previous_speed = flushed.playback_speed;
        });
      } in
      renew_temporary_playback_speed now (
        mark_dirty SyncProp.temporary_playback_speed
          (set_playback_speed_raw temporary_playback_speed pressed))

abbrev pub gesture_by_action :
    Time → GestureAction → String → Option VideoId → ClientId → Context → Room → Reply
gesture_by_action now stop gesture video client context r =
    if is_gesture client gesture r.temporary_speed
    then done (end_temporary_playback_speed now true r)
    else done r
gesture_by_action now renew gesture video client context r = require "playback.speed" context r λ r.
    if is_gesture client gesture r.temporary_speed
    then done (renew_temporary_playback_speed now r)
    else done r
gesture_by_action now _ gesture video client context r = require "playback.speed" context r λ r.
    if may_start_gesture video r
    then done (begin_gesture now client gesture (release_buffer_gate now false r))
    else done r

abbrev pub is_action : GestureAction → Bool
is_action other = false
is_action _ = true

unfoldable pub set_temporary_playback_speed : Time → GestureRequest → Context → Room → Reply
set_temporary_playback_speed now request context r =
    if not (gesture_id_valid request.gesture_id) || not (is_action request.action)
    then thrown (bad_api_argument "gesture") r
    else elim (truthy context.client_id) [
      | none ↦ thrown client_not_found_in_room r
      | some client ↦
          if is_some (get_user client r)
          then gesture_by_action now request.action request.gesture_id request.video client context
              r
          else thrown client_not_found_in_room r
    ]
