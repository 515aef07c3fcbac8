-- ===== src/Room/Requests/Playback.antt =====
-- server/room.ts: the handlers of playback, skip and seek; common/voteskip.ts.
use opentogethertube_cn.Common.{
  ℕ, ◌+◌, ◌*◌, ◌/◌, suc, Bool, false, ◌||◌, Option, none, some, List, [], ◌∷◌, if◌then◌else◌, leb,
  length,
}
use opentogethertube_cn.Common.Int.{pos, ltb_ℤ}
use opentogethertube_cn.Common.StringSet.{has, add, delete}
use opentogethertube_cn.Exceptions.{Exception, bad_api_argument}
use opentogethertube_cn.Permissions.Grants.{Grants, granted, named}
use opentogethertube_cn.Queue.{QueueItem, Number, finite, not_finite}
use opentogethertube_cn.Room.State.{
  Room, Time, Ticks, SyncProp, ClientId, EventRequest, no_context, RoomUser, RoomUserInfo, Segment,
  second, mark_dirty,
}
use opentogethertube_cn.Room.Clock.{play, pause, real_playback_position, seek_raw}
use opentogethertube_cn.Room.Users.{get_user_info}
use opentogethertube_cn.Room.Dequeue.{Env, dequeue_next}
use opentogethertube_cn.Room.Tick.{get_segment_for_time}
use opentogethertube_cn.Room.Requests.{Context, Reply, done, thrown, truthy, publish_room_event}

-- Play or pause, as the request says.
unfoldable pub playback : Time → Bool → Context → Room → Reply
playback now state context r = done (
    publish_room_event (EventRequest.playback state) no_context context
      (if state then play now r else pause now false r))

-- `Math.ceil(users * 0.5)`
unfoldable pub vote_skip_threshold : ℕ → ℕ
vote_skip_threshold users = (users + 1) / 2

unfoldable pub count_eligible_voters : List RoomUserInfo → Grants → ℕ
count_eligible_voters [] g = 0
count_eligible_voters (u ∷ us) g =
    let rest = count_eligible_voters us g in
    if granted g u.role (named "playback.skip") then suc rest else rest

abbrev cons_if {ℓ} : {A : Type ℓ} → Option A → List A → List A
cons_if none xs = xs
cons_if (some x) xs = x ∷ xs

-- `this.realusers.map(u => this.getUserInfo(u.id))`, of users who are all in the room.
unfoldable pub infos_of : List RoomUser → Room → List RoomUserInfo
infos_of [] r = []
infos_of (u ∷ us) r = cons_if (get_user_info u.id r) (infos_of us r)

abbrev pub toggle : ClientId → List ClientId → List ClientId
toggle client votes = if has client votes then delete client votes else add client votes

-- The vote of the one who asks to skip: a second vote takes the first back.
abbrev pub toggle_skip_vote : Option ClientId → Room → Room
toggle_skip_vote none r = r
toggle_skip_vote (some client) r =
    mark_dirty SyncProp.votes_to_skip (record r { votes_to_skip = toggle client r.votes_to_skip })

-- The votes are enough for the viewers who may skip.
unfoldable pub enough_votes : Room → Bool
unfolding count_eligible_voters infos_of vote_skip_threshold
enough_votes r =
    leb (vote_skip_threshold (count_eligible_voters (infos_of r.realusers r) r.grants))
      (length r.votes_to_skip)

unfoldable pub skip_source : Env → QueueItem → Context → Room → Room
skip_source e s context r =
    let position = real_playback_position e.now r in
    let skipped =
      publish_room_event EventRequest.skip
        (record no_context { video = some s; prev_position = some position }) context
        (dequeue_next e r) in
    mark_dirty SyncProp.video_segments (record skipped { video_segments = [] })

unfoldable pub skip : Env → Context → Room → Reply
skip e context r = elim r.current_source [
  | none ↦ done r
  | some s ↦
      if r.enable_vote_skip
      then (let voted = toggle_skip_vote (truthy context.client_id) r in
          if enough_votes voted then done (skip_source e s context voted) else done voted)
      else done (skip_source e s context r)
]

abbrev pub max_seek_seconds : ℕ
max_seek_seconds = 86400

abbrev pub bad_seek : Exception
bad_seek = bad_api_argument "value"

abbrev pub segment_end : Option Segment → Option Ticks
segment_end none = none
segment_end (some s) = some s.end_time

-- A seek to a position that is in range. Segments are not skipped until the one it lands in ends.
unfoldable pub seek_to : Time → Ticks → Context → Room → Room
seek_to now value context r =
    let previous = real_playback_position now r in
    let moved =
      publish_room_event (EventRequest.seek value)
        (record no_context { prev_position = some previous }) context (seek_raw now value r) in
    record moved {
      dont_skip_segments_until = segment_end (get_segment_for_time moved.playback_position moved);
    }

-- `none` stands for undefined and null, `not_finite` also for what is no number.
unfoldable pub seek : Time → Option Number → Context → Room → Reply
seek now none context r = done r
seek now (some not_finite) context r = thrown bad_seek r
seek now (some (finite value)) context r =
    if ltb_ℤ value (pos 0) || ltb_ℤ (pos (max_seek_seconds * second)) value
    then thrown bad_seek r
    else done (seek_to now value context r)
