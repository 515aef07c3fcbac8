-- ===== src/Room/Holding.antt =====
-- server/room.ts: which sources wait for their viewers, the start of a round, and a viewer's report.
use opentogethertube_cn.Common.{
  ◌+◌, Bool, true, false, not, ◌&&◌, ◌||◌, Option, none, some, List, [], ◌∷◌, ◌++◌, map,
  if◌then◌else◌, is_some, select, String, ◌==◌,
}
use text.Mathlib.Text.{find?}
use opentogethertube_cn.Common.Int.{pos, ◌-ℤ◌, ltb_ℤ, eqb_ℤ}
use opentogethertube_cn.Common.StringSet.{has}
use opentogethertube_cn.Queue.{QueueItem, VideoId, Number, finite, not_finite, id_of, is_video}
use opentogethertube_cn.Room.State.{
  Room, Time, Ticks, SyncProp, ClientId, Preparation, PlayerStatus, ready, BufferGate, second,
  RoomUser, mark_dirty,
}
use opentogethertube_cn.Room.Clock.{
  end_temporary_playback_speed, set_is_playing, pause_playback_clock,
}
use opentogethertube_cn.Room.Users.{eligible_preparers}
use opentogethertube_cn.Room.Preparation.{
  playback_ready_wait_ms, playback_hard_fallback_ms, playback_ready_buffer, playback_eligible_ids,
  set_preparation, schedule_if_ready, schedule_playback_start, all_eligible_ready,
  drop_playback_participant,
}

-- `Number.isFinite(length) && length > 0`
abbrev pub positive_length : Option Number → Bool
positive_length (some (finite n)) = ltb_ℤ (pos 0) n
positive_length _ = false

abbrev pub native_services : List String
native_services = "direct" ∷ "googledrive" ∷ "hls" ∷ "reddit" ∷ "tubi" ∷ "pluto" ∷ "dash" ∷ []

-- `NATIVE_ODYSEE_MIME_REGEX`
abbrev pub native_mime : Option String → Bool
native_mime none = false
native_mime (some m) =
    is_some (find? m "video/mp4")
    || is_some (find? m "application/vnd.apple.mpegurl")
    || is_some (find? m "application/x-mpegURL")

unfoldable pub can_prepare_source : QueueItem → Bool
unfolding has
can_prepare_source s =
    not s.is_live
    && positive_length s.length
    && (has s.service native_services || s.service == "odysee" && native_mime s.mime)

abbrev pub can_prepare_if_any : Option QueueItem → Bool
can_prepare_if_any none = false
can_prepare_if_any (some s) = can_prepare_source s

unfoldable pub can_prepare_playback : Room → Bool
unfolding can_prepare_source
can_prepare_playback r = can_prepare_if_any r.current_source

abbrev pub some_user : List RoomUser → Bool
some_user [] = false
some_user (u ∷ us) = true

unfoldable pub can_hold_playback_for_preparation : Room → Bool
can_hold_playback_for_preparation r = can_prepare_playback r && some_user (eligible_preparers r)

-- `prepareEmptyRoomPlayback` for a source and the ids of the viewers who may start it.
abbrev pub begin_round : Time → String → QueueItem → List RoomUser → Room → Room
begin_round now uuid s [] r = r
begin_round now uuid s (u ∷ us) r =
    record (set_preparation
      (record {
        id = uuid;
        client_id = u.id;
        video = id_of s;
        position = r.playback_position;
        eligible = map (λ (v : RoomUser). v.id) (u ∷ us);
        ready = [];
        deadline_at = now + playback_ready_wait_ms;
        hard_deadline_at = now + playback_hard_fallback_ms;
        start_at = none;
        fallback = none;
      })
      r) { playback_start = none }

abbrev pub begin_if_source : Time → String → Option QueueItem → Room → Room
begin_if_source now uuid none r = r
begin_if_source now uuid (some s) r = begin_round now uuid s (eligible_preparers r) r

-- `uuid` is what `randomUUID` answers.
unfoldable pub prepare_empty_room_playback : Time → String → Room → Room
unfolding can_prepare_playback eligible_preparers
prepare_empty_room_playback now uuid r =
    if not r.resume_on_next_join
      || r.is_playing
      || is_some r.playback_preparation
      || not (can_prepare_playback r)
      || ltb_ℤ r.playback_position (pos 0)
    then r
    else begin_if_source now uuid r.current_source r

unfoldable pub hold_playback_for_preparation : Time → String → Room → Room
hold_playback_for_preparation now uuid r =
    let r₁ = record (end_temporary_playback_speed now true r) { playback_start = none } in
    let r₂ = record (set_is_playing now false r₁) { resume_on_next_join = true } in
    prepare_empty_room_playback now uuid (mark_dirty SyncProp.is_playing r₂)

unfoldable pub restore_from_storage : Room → Room
restore_from_storage r = record r { restored_from_storage = true }

abbrev pub held : Option BufferGate → Bool
held none = false
held (some g) = g.paused_by_gate

-- `get bufferingGateHeld`
abbrev pub buffering_gate_held : Room → Bool
buffering_gate_held r = held r.buffer_gate

unfoldable pub hold_empty_playback_for_join : Time → Bool → Room → Room
unfolding can_prepare_playback pause_playback_clock
hold_empty_playback_for_join now skip_for_reconnect r =
    if some_user r.realusers
      || skip_for_reconnect
      || not r.is_playing && not (buffering_gate_held r)
      || not (can_prepare_playback r)
    then r
    else mark_dirty SyncProp.is_playing
        (record (pause_playback_clock now (record r { buffer_gate = none })) {
          resume_on_next_join = true;
        })

-- `PlaybackPrepared`: `none` stands for a field that is absent or null.
pub record PlaybackPrepared : Type 0 where
  pub id : String
  pub position : Number
  pub buffer_ahead : Option Ticks
  pub first_frame : Option Bool
  pub visible : Option Bool
  pub failed : Bool

abbrev pub is_false : Option Bool → Bool
is_false (some false) = true
is_false _ = false

abbrev pub is_ready : Option PlayerStatus → Bool
is_ready (some ready) = true
is_ready _ = false

-- Finite, not negative, and within a second of the round's position.
abbrev pub near : Number → Ticks → Bool
near not_finite p = false
near (finite x) p =
    not (ltb_ℤ x (pos 0)) && not (ltb_ℤ (pos second) (x -ℤ p)) && not (ltb_ℤ (pos second) (p -ℤ x))

abbrev pub enough : Preparation → Option Ticks → Bool
enough p none = true
enough p (some ahead) = not (ltb_ℤ ahead (playback_ready_buffer p.video.service))

-- Whether a report counts as readiness.
unfoldable pub counts_as_ready : Preparation → Option PlayerStatus → PlaybackPrepared → Bool
unfolding ◌-ℤ◌
counts_as_ready p status prepared =
    is_ready status
    && not (is_false prepared.first_frame)
    && near prepared.position p.position
    && enough p prepared.buffer_ahead

abbrev pub plays_video : VideoId → Option QueueItem → Bool
plays_video v none = false
plays_video v (some s) = is_video v s

-- Whether a report is about this round, from one of its participants, and the room still waits.
unfoldable pub is_current_report : ClientId → PlaybackPrepared → Preparation → Room → Bool
unfolding playback_eligible_ids has
is_current_report client prepared p r =
    prepared.id == p.id
    && has client (playback_eligible_ids r p)
    && plays_video p.video r.current_source
    && eqb_ℤ r.playback_position p.position
    && not r.is_playing

abbrev pub add_report : Time → ClientId → PlaybackPrepared → Preparation → Preparation
add_report now client prepared p = record p {
  ready =
      select (λ i. not (i.client_id == client)) p.ready
      ++ record { client_id = client; buffer_ahead = prepared.buffer_ahead; at = now } ∷ [];
}

abbrev pub finish_round :
    Time → ClientId → Option PlayerStatus → PlaybackPrepared → Preparation → Room → Room
finish_round now client status prepared p r =
    if not (is_current_report client prepared p r)
    then r
    else if prepared.failed || is_false prepared.visible
    then drop_playback_participant now client r
    else if not (counts_as_ready p status prepared)
    then r
    else let p' = add_report now client prepared p in
      schedule_if_ready now p' (set_preparation p' r)

abbrev pub finish_if_any :
    Time
    → ClientId
    → Option PlayerStatus
    → Option PlaybackPrepared
    → Option Preparation
    → Room
    → Room
finish_if_any now client status (some prepared) (some p) r =
    finish_round now client status prepared p r
finish_if_any now client status _ _ r = r

unfoldable pub finish_playback_preparation :
    Time → ClientId → Option PlayerStatus → Option PlaybackPrepared → Room → Room
unfolding is_current_report drop_playback_participant counts_as_ready all_eligible_ready
    schedule_playback_start
finish_playback_preparation now client status prepared r =
    finish_if_any now client status prepared r.playback_preparation r
