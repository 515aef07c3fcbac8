-- ===== src/Room/Requests/Leaving.antt =====
-- server/room.ts: the handler of a viewer's departure, and the leave event that waits for them to
-- come back.
pub mod Emptied
use opentogethertube_cn.Common.{
  ℕ, ◌+◌, Bool, true, false, not, ◌&&◌, ◌||◌, Option, none, some, List, [], ◌∷◌, map, if◌then◌else◌,
  leb, any, ◌==◌, is_some,
}
use opentogethertube_cn.Common.Dict.{get, put, remove, string_eq}
use opentogethertube_cn.Common.StringSet.{has, delete}
use opentogethertube_cn.Exceptions.{plain}
use opentogethertube_cn.Room.State.{
  Room, Time, SyncProp, ClientId, AuthToken, RoomUser, RoomUserInfo, EventRequest, no_context,
  TemporarySpeed, Preparation, mark_dirty,
}
use opentogethertube_cn.Room.Clock.{
  end_temporary_playback_speed, pause_playback_clock, cancel_playback_preparation,
}
use opentogethertube_cn.Room.Users.{get_user}
use opentogethertube_cn.Room.Holding.{
  buffering_gate_held, can_prepare_playback, prepare_empty_room_playback,
}
use opentogethertube_cn.Room.Gate.{nonempty, release_buffer_gate, evaluate_buffer_gate}
use opentogethertube_cn.Room.Dequeue.{Env}
use opentogethertube_cn.Room.Tick.{is_vote}
use opentogethertube_cn.Room.Requests.{Context, Reply, done, thrown, with_value, publish_event_of}
use opentogethertube_cn.Room.Requests.Members.{known_info, session_in_room}

abbrev pub leave_event_grace_ms : ℕ
leave_event_grace_ms = 5000

abbrev pub report_leave : RoomUserInfo → Room → Room
report_leave user r =
    publish_event_of EventRequest.leave (record no_context { user = some user }) user r

-- `publishLeaveEvent` of a user of the room, who has a token; an empty one is none.
unfoldable pub publish_leave_event : Time → ClientId → RoomUserInfo → AuthToken → Room → Room
unfolding session_in_room put
publish_leave_event now client user token r =
    if token == ""
    then report_leave user r
    else if session_in_room token (some client) r
    then r
    else record r {
      pending_leave_events =
          put token (record { due = now + leave_event_grace_ms; client_id = client; user = user })
            r.pending_leave_events;
    }

-- The timer's callback, for the event that waits under a token.
unfoldable pub leave_event_due : Time → AuthToken → Room → Room
unfolding get remove session_in_room
leave_event_due now token r = elim (get token r.pending_leave_events) [
  | none ↦ r
  | some waits ↦
      if not (leb waits.due now)
      then r
      else let fired = record r { pending_leave_events = remove token r.pending_leave_events } in
        if session_in_room token none fired then fired else report_leave waits.user fired
]

abbrev pub owns_gesture : ClientId → Option TemporarySpeed → Bool
owns_gesture client none = false
owns_gesture client (some t) = t.client_id == client

-- The votes without those of a client; they are marked where there was one.
abbrev pub forget_votes : ClientId → Room → Room
forget_votes client r =
    let cleared = record r { votes = map (λ (key, voters). (key, delete client voters)) r.votes } in
    if any (λ (key, voters). has client voters) r.votes
    then mark_dirty SyncProp.vote_counts cleared
    else cleared

-- The first user with the id goes.
unfoldable pub remove_user : ClientId → List RoomUser → List RoomUser
remove_user client [] = []
remove_user client (u ∷ us) = if u.id == client then us else u ∷ remove_user client us

unfoldable pub drop_votes : ClientId → Room → Room
unfolding has delete
drop_votes client r =
    let r₁ =
      if r.enable_vote_skip
      then mark_dirty SyncProp.votes_to_skip
          (record r { votes_to_skip = delete client r.votes_to_skip })
      else r in
    if is_vote r₁.queue_mode then forget_votes client r₁ else r₁

-- Whether the room that is left empty means to go on with the next viewer.
unfoldable pub should_resume : Room → Bool
should_resume r =
    r.is_playing || buffering_gate_held r || is_some r.playback_preparation || r.resume_on_next_join

-- The last viewer has left: the clock stops, and the room keeps its intent to go on.
unfoldable pub empty_room : Time → Room → Room
empty_room now r =
    let stopped =
      cancel_playback_preparation (pause_playback_clock now (release_buffer_gate now false r)) in
    mark_dirty SyncProp.is_playing (record stopped {
      resume_on_next_join = should_resume r && can_prepare_playback stopped;
      keep_alive_ping = now;
    })

-- A participant has left: the round starts again with those who are left.
unfoldable pub rebuild_round : Env → Room → Room
rebuild_round e r =
    let cancelled = record (cancel_playback_preparation r) { resume_on_next_join = true } in
    prepare_empty_room_playback e.now e.uuid (mark_dirty SyncProp.is_playing cancelled)

abbrev pub takes_part : ClientId → Option Preparation → Bool
takes_part client none = false
takes_part client (some p) = has client p.eligible

unfoldable pub settle_playback : Env → ClientId → Room → Room
settle_playback e client r =
    if not (nonempty r.realusers)
    then empty_room e.now r
    else if takes_part client r.playback_preparation
    then rebuild_round e r
    else r

abbrev pub token_of : Option RoomUser → AuthToken
token_of none = ""
token_of (some u) = u.token

-- The room without the viewer, whose information was read while they were in.
unfoldable pub without_viewer : Env → ClientId → RoomUserInfo → Room → Room
without_viewer e client user r =
    let announced = publish_leave_event e.now client user (token_of (get_user client r)) r in
    let unvoted = drop_votes client announced in
    let left = record unvoted { realusers = remove_user client unvoted.realusers } in
    evaluate_buffer_gate e.now (settle_playback e client left)

abbrev pub without_gesture : Time → ClientId → Room → Room
without_gesture now client r =
    if owns_gesture client r.temporary_speed then end_temporary_playback_speed now true r else r

unfoldable pub leave_room : Env → Context → Room → Reply
leave_room e context r = elim context.client_id [
  | none ↦ thrown (plain "context.clientId was undefined") r
  | some client ↦
      let r₁ = without_gesture e.now client r in
      with_value (known_info client r₁) r₁ (λ user. done (without_viewer e client user r₁))
]
