-- ===== src/Room/Tick.antt =====
-- server/room.ts: `update`, which the room manager calls once per second.
use opentogethertube_cn.Common.{
  ℕ, ◌+◌, ◌*◌, Bool, true, false, not, ◌&&◌, ◌||◌, Option, none, some, List, if◌then◌else◌, is_some,
  ◌==◌, ltb, leb, length, find, any,
}
use opentogethertube_cn.Common.Int.{pos, ltb_ℤ, eqb_ℤ}
use opentogethertube_cn.Common.Dict.{get, string_eq}
use opentogethertube_cn.Queue.{QueueItem, Number, finite, order_by}
use opentogethertube_cn.Room.State.{
  Room, Time, Ticks, SyncProp, QueueMode, vote, Segment, Preparation, Fallback, partial, forced,
  waiting, RoomUser, TemporarySpeed, event_custom, mark_dirty, put_queue, publish,
}
use opentogethertube_cn.Room.Clock.{real_playback_position, end_temporary_playback_speed, seek_raw}
use opentogethertube_cn.Room.Users.{get_user, user_granted}
use opentogethertube_cn.Room.Preparation.{
  all_eligible_ready, set_preparation, schedule_playback_start, start_prepared_playback,
  refresh_playback_preparation,
}
use opentogethertube_cn.Room.Gate.{evaluate_buffer_gate, nonempty}
use opentogethertube_cn.Room.Dequeue.{Env, vote_key, clear_segments, dequeue_next}

abbrev pub is_waiting : Option Fallback → Bool
is_waiting (some waiting) = true
is_waiting _ = false

-- What the tick does with a round that has no start yet.
unfoldable pub tick_unscheduled : Time → Preparation → Room → Room
tick_unscheduled now p r =
    if all_eligible_ready r p
    then schedule_playback_start now none r
    else if not (leb p.deadline_at now)
    then r
    else if nonempty p.ready
    then schedule_playback_start now (some partial) r
    else if leb p.hard_deadline_at now
    then schedule_playback_start now (some forced) r
    else if is_waiting p.fallback
    then r
    else set_preparation (record p { fallback = some waiting }) r

abbrev pub tick_round : Time → Option Preparation → Room → Room
tick_round now none r = r
tick_round now (some p) r = if is_some p.start_at then r else tick_unscheduled now p r

abbrev pub start_reached : Time → Option Preparation → Bool
start_reached now none = false
start_reached now (some p) = elim p.start_at [ none ↦ false | some t ↦ leb t now ]

abbrev pub start_if_reached : Time → Room → Room
start_if_reached now r =
    if start_reached now r.playback_preparation then start_prepared_playback now r else r

unfoldable pub tick_preparation : Time → Room → Room
tick_preparation now r =
    if is_some r.playback_preparation
    then (let r₁ = refresh_playback_preparation r in
        start_if_reached now (tick_round now r₁.playback_preparation r₁))
    else r

abbrev pub may_keep_speed : Room → Option RoomUser → Bool
may_keep_speed r none = false
may_keep_speed r (some u) = user_granted "playback.speed" r u

abbrev pub gesture_allowed : Option TemporarySpeed → Room → Bool
gesture_allowed none r = true
gesture_allowed (some t) r = may_keep_speed r (get_user t.client_id r)

-- A gesture ends when its viewer has left or may no longer change the speed.
unfoldable pub tick_gesture : Time → Room → Room
tick_gesture now r =
    if gesture_allowed r.temporary_speed r then r else end_temporary_playback_speed now true r

-- `current.endAt ?? current.length`, where it is a finite positive number.
abbrev pub positive : Option Number → Option Ticks
positive (some (finite n)) = if ltb_ℤ (pos 0) n then some n else none
positive _ = none

abbrev pub end_of : QueueItem → Option Ticks
end_of s =
    if s.is_live then none else positive (elim s.end_at [ none ↦ s.length | some e ↦ some e ])

abbrev pub past : Time → Room → Option Ticks → Bool
past now r none = false
past now r (some end) = ltb_ℤ end (real_playback_position now r)

unfoldable pub current_ended : Time → Room → Bool
unfolding real_playback_position
current_ended now r = elim r.current_source [
  | none ↦ false
  | some s ↦ r.is_playing && past now r (end_of s)
]

unfoldable pub tick_source : Env → Room → Room
tick_source e r =
    if not (is_some r.current_source) && nonempty r.queue.items || current_ended e.now r
    then dequeue_next e r
    else r

-- The room stays loaded while somebody is in it. `now` is in milliseconds, the setting in seconds.
unfoldable pub tick_keep_alive : Env → Room → Room
tick_keep_alive e r =
    if nonempty r.realusers && ltb (r.keep_alive_ping + e.unload_after * 900) e.now
    then record r { keep_alive_ping = e.now }
    else r

abbrev pub is_vote : QueueMode → Bool
is_vote vote = true
is_vote _ = false

-- The votes that an item of the queue has.
unfoldable pub vote_count : Room → QueueItem → ℕ
unfolding get
vote_count r i = elim (get (vote_key i.service i.id) r.votes) [
  | none ↦ 0
  | some voters ↦ length voters
]

unfoldable pub tick_order : Env → Room → Room
unfolding vote_count order_by
tick_order e r =
    if is_vote r.queue_mode then put_queue (order_by e.order_by (vote_count r) r.queue) r else r

-- `getSegmentForTime`
unfoldable pub get_segment_for_time : Ticks → Room → Option Segment
get_segment_for_time time r =
    find (λ s. not (ltb_ℤ time s.start_time) && not (ltb_ℤ s.end_time time)) r.video_segments

abbrev pub is_youtube : Option QueueItem → Bool
is_youtube none = false
is_youtube (some s) = s.service == "youtube"

-- `fetchSponsorBlockSegments`, where `fetched` is what the service answers, if it does.
unfoldable pub fetch_segments : Option (List Segment) → Room → Room
fetch_segments fetched r =
    if not (is_youtube r.current_source) then clear_segments r else elim fetched [
      | none ↦ r
      | some segments ↦ mark_dirty SyncProp.video_segments (record r { video_segments = segments })
    ]

abbrev pub skip_segment : Time → Option Segment → Room → Room
skip_segment now none r = r
skip_segment now (some s) r =
    if any (λ c. c == s.category) r.auto_skip_segment_categories
    then publish (event_custom s.category) (seek_raw now s.end_time r)
    else r

abbrev pub reached : Time → Room → Option Ticks → Bool
reached now r none = false
reached now r (some t) = not (eqb_ℤ t (pos 0)) && not (ltb_ℤ (real_playback_position now r) t)

unfoldable pub skip_current_segment : Time → Room → Room
skip_current_segment now r =
    if r.is_playing && nonempty r.video_segments && not (is_some r.dont_skip_segments_until)
    then skip_segment now (get_segment_for_time (real_playback_position now r) r) r
    else r

unfoldable pub tick_segments : Env → Option (List Segment) → Room → Room
tick_segments e fetched r =
    if e.sponsorblock_enabled && nonempty r.auto_skip_segment_categories
    then (let r₁ =
          if r.want_sponsor_block
          then fetch_segments fetched (record r { want_sponsor_block = false })
          else r in
        let r₂ =
          if reached e.now r₁ r₁.dont_skip_segments_until
          then record r₁ { dont_skip_segments_until = none }
          else r₁ in
        skip_current_segment e.now r₂)
    else r

unfoldable pub update : Env → Option (List Segment) → Room → Room
update e fetched r =
    let r₁ = tick_gesture e.now (tick_preparation e.now (evaluate_buffer_gate e.now r)) in
    tick_segments e fetched (tick_order e (tick_keep_alive e (tick_source e r₁)))
