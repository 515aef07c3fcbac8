-- ===== src/Room/Preparation.antt =====
-- server/room.ts: the handshake that holds a new source until its viewers have rendered it.
pub mod Progress
use opentogethertube_cn.Common.{
  ℕ, ◌+◌, ◌*◌, Bool, true, false, not, ◌&&◌, ◌||◌, Option, none, some, List, [], ◌∷◌, if◌then◌else◌,
  is_some, ltb, leb, all, any, select, String, ◌==◌, length,
}
use opentogethertube_cn.Common.Int.{pos}
use opentogethertube_cn.Common.StringSet.{has}
use opentogethertube_cn.Room.State.{
  Room, Time, Ticks, SyncProp, ClientId, Preparation, ReadyInfo, Fallback, waiting, second,
  RoomUser, mark_dirty, marked,
}
use opentogethertube_cn.Room.Clock.{cancel_playback_preparation}
use opentogethertube_cn.Room.Users.{get_user, user_granted, eligible_preparers}

abbrev pub playback_ready_wait_ms : ℕ
playback_ready_wait_ms = 8000

abbrev pub playback_hard_fallback_ms : ℕ
playback_hard_fallback_ms = 20000

abbrev pub playback_start_lead_ms : ℕ
playback_start_lead_ms = 1000

-- `playbackReadyBufferSeconds`, in ticks.
abbrev pub playback_ready_buffer : String → Ticks
playback_ready_buffer service =
    if service == "hls" || service == "dash" then pos (6 * second) else pos (3 * second)

abbrev pub play_pause : String
play_pause = "playback.play-pause"

abbrev pub may_prepare : Room → Option RoomUser → Bool
may_prepare r none = false
may_prepare r (some u) = user_granted play_pause r u

-- `playbackEligibleIds`: those of the round who are still here and may play.
unfoldable pub playback_eligible_ids : Room → Preparation → List ClientId
unfolding get_user
playback_eligible_ids r p = select (λ id. may_prepare r (get_user id r)) p.eligible

abbrev pub reported : Preparation → ClientId → Bool
reported p id = any (λ i. i.client_id == id) p.ready

unfoldable pub all_reported : Preparation → List ClientId → Bool
all_reported p [] = false
all_reported p (id ∷ ids) = all (reported p) (id ∷ ids)

-- `allEligibleReady`: everyone who counts has reported, and someone counts.
unfoldable pub all_eligible_ready : Room → Preparation → Bool
unfolding playback_eligible_ids all_reported
all_eligible_ready r p = all_reported p (playback_eligible_ids r p)

abbrev pub set_preparation : Preparation → Room → Room
set_preparation p r =
    mark_dirty SyncProp.playback_preparation (record r { playback_preparation = some p })

-- `startPreparedPlayback` once the start is due. Its guard leaves the 50 ms before the start in.
abbrev pub start_due : Time → Time → Preparation → Room → Room
start_due now start p r = if ltb (now + 50) start then r else record r {
  playback_start_timer = none;
  playback_preparation = none;
  resume_on_next_join = false;
  playback_position = p.position;
  is_playing = true;
  playback_start = some start;
  dirty =
      marked SyncProp.playback_position
        (marked SyncProp.is_playing (marked SyncProp.playback_preparation r.dirty));
}

abbrev pub start_if_set : Time → Option Preparation → Room → Room
start_if_set now none r = r
start_if_set now (some p) r = elim p.start_at [ none ↦ r | some start ↦ start_due now start p r ]

unfoldable pub start_prepared_playback : Time → Room → Room
start_prepared_playback now r = start_if_set now r.playback_preparation r

-- `schedulePlaybackStart` of a round with no start yet.
abbrev pub schedule_round : Time → Option Fallback → Preparation → Room → Room
schedule_round now fallback p r =
    if leb (length (playback_eligible_ids r p)) 1
    then start_prepared_playback now
        (set_preparation (record p { fallback = fallback; start_at = some now }) r)
    else record (set_preparation
        (record p { fallback = fallback; start_at = some (now + playback_start_lead_ms) }) r) {
          playback_start_timer = some (now + playback_start_lead_ms);
        }

abbrev pub schedule_if_unset : Time → Option Fallback → Option Preparation → Room → Room
schedule_if_unset now fallback none r = r
schedule_if_unset now fallback (some p) r =
    if is_some p.start_at then r else schedule_round now fallback p r

unfoldable pub schedule_playback_start : Time → Option Fallback → Room → Room
unfolding start_prepared_playback playback_eligible_ids
schedule_playback_start now fallback r = schedule_if_unset now fallback r.playback_preparation r

-- Schedules the start once everyone has reported.
abbrev pub schedule_if_ready : Time → Preparation → Room → Room
schedule_if_ready now p r = if all_eligible_ready r p then schedule_playback_start now none r else r

abbrev pub without : ClientId → List ClientId → List ClientId
without client = select (λ id. not (id == client))

abbrev pub reports_without : ClientId → List ReadyInfo → List ReadyInfo
reports_without client = select (λ i. not (i.client_id == client))

-- The round after a participant is dropped, by those who are left.
abbrev pub drop_from_round : Time → Preparation → List ClientId → Room → Room
drop_from_round now p [] r = set_preparation (record p { fallback = some waiting }) r
drop_from_round now p (first ∷ rest) r =
    let p' = record p { client_id = first } in schedule_if_ready now p' (set_preparation p' r)

abbrev pub drop_if_round : Time → ClientId → Option Preparation → Room → Room
drop_if_round now client none r = r
drop_if_round now client (some p) r =
    if not (has client p.eligible)
    then r
    else let left = without client p.eligible in
      drop_from_round now (record p { eligible = left; ready = reports_without client p.ready })
        left r

unfoldable pub drop_playback_participant : Time → ClientId → Room → Room
unfolding schedule_playback_start all_eligible_ready has
drop_playback_participant now client r = drop_if_round now client r.playback_preparation r

abbrev pub same_ids : List ClientId → List ClientId → Bool
same_ids [] [] = true
same_ids (a ∷ more) (b ∷ others) = a == b && same_ids more others
same_ids _ _ = false

-- `refreshPlaybackPreparation` of a round whose participants changed.
abbrev pub refresh_round : Preparation → List ClientId → Room → Room
refresh_round p [] r = elim (eligible_preparers r) [
  | [] ↦ cancel_playback_preparation (record r { playback_preparation = some p })
  | u ∷ us ↦ set_preparation (record p { fallback = some waiting }) r
]
refresh_round p (first ∷ rest) r = set_preparation (record p { client_id = first }) r

abbrev pub refresh_if_round : Option Preparation → Room → Room
refresh_if_round none r = r
refresh_if_round (some p) r =
    let eligible = playback_eligible_ids r p in
    if same_ids eligible p.eligible
    then r
    else refresh_round
        (record p { eligible = eligible; ready = select (λ i. has i.client_id eligible) p.ready })
        eligible r

unfoldable pub refresh_playback_preparation : Room → Room
unfolding playback_eligible_ids eligible_preparers cancel_playback_preparation has
refresh_playback_preparation r = refresh_if_round r.playback_preparation r
