-- ===== src/Room/Consistency/Update.antt =====
-- server/room.ts: `update` keeps the playback state consistent.
use opentogethertube_cn.Common.{
  ◌≡◌, refl, true, false, Option, none, some, is_some, arith, List, Bool-cases, inl, inr, ◌&&◌,
  if◌then◌else◌, if_both,
}
use opentogethertube_cn.Room.State.{Room, Time, Preparation, Segment, partial, forced}
use opentogethertube_cn.Room.Clock.{real_playback_position, seek_raw}
use opentogethertube_cn.Room.Preparation.{refresh_playback_preparation}
use opentogethertube_cn.Room.Gate.{nonempty, evaluate_buffer_gate}
use opentogethertube_cn.Room.Dequeue.{Env}
use opentogethertube_cn.Room.Tick.{
  tick_unscheduled, tick_round, start_if_reached, tick_preparation, tick_gesture, tick_source,
  tick_keep_alive, tick_order, reached, get_segment_for_time, fetch_segments, skip_segment,
  skip_current_segment, tick_segments, update, gesture_allowed, start_reached,
}
use opentogethertube_cn.Room.Consistency.{IsConsistent, end_temporary_playback_speed-IsConsistent}
use opentogethertube_cn.Room.Consistency.Steps.{
  start_prepared_playback-IsConsistent, schedule_playback_start-IsConsistent,
  refresh_playback_preparation-IsConsistent, evaluate_buffer_gate-IsConsistent,
}
use opentogethertube_cn.Room.Consistency.Dequeue.{dequeue_next-IsConsistent}

tick_unscheduled-IsConsistent :
    (now : Time) (p : Preparation) (r : Room)
    → r.playback_preparation ≡ some p
    → IsConsistent r
    → IsConsistent (tick_unscheduled now p r)
unfolding tick_unscheduled
tick_unscheduled-IsConsistent now p r e v = ground (
  arith,
  e,
  schedule_playback_start-IsConsistent now none r v,
  schedule_playback_start-IsConsistent now (some partial) r v,
  schedule_playback_start-IsConsistent now (some forced) r v,
)

tick_round-IsConsistent :
    (now : Time) (p : Option Preparation) (r : Room)
    → r.playback_preparation ≡ p
    → IsConsistent r
    → IsConsistent (tick_round now p r)
tick_round-IsConsistent now none r e v = v
tick_round-IsConsistent now (some p) r e v = elim (Bool-cases (is_some p.start_at)) [
  | inl s ↦ rw s v
  | inr s ↦ rw s (tick_unscheduled-IsConsistent now p r e v)
]

start_if_reached-IsConsistent :
    (now : Time) (r : Room) → IsConsistent r → IsConsistent (start_if_reached now r)
start_if_reached-IsConsistent now r v =
    elim (Bool-cases (start_reached now r.playback_preparation)) [
      | inl s ↦ rw s (start_prepared_playback-IsConsistent now r v)
      | inr s ↦ rw s v
    ]

tick_preparation-IsConsistent :
    (now : Time) (r : Room) → IsConsistent r → IsConsistent (tick_preparation now r)
unfolding tick_preparation
tick_preparation-IsConsistent now r v =
    let r₁ = refresh_playback_preparation r in
    elim (Bool-cases (is_some r.playback_preparation)) [
      | inl s ↦ rw s (
          start_if_reached-IsConsistent now (tick_round now r₁.playback_preparation r₁) (
            tick_round-IsConsistent now r₁.playback_preparation r₁ refl
              (refresh_playback_preparation-IsConsistent r v)))
      | inr s ↦ rw s v
    ]

tick_gesture-IsConsistent :
    (now : Time) (r : Room) → IsConsistent r → IsConsistent (tick_gesture now r)
unfolding tick_gesture
tick_gesture-IsConsistent now r v = elim (Bool-cases (gesture_allowed r.temporary_speed r)) [
  | inl s ↦ rw s v
  | inr s ↦ rw s (end_temporary_playback_speed-IsConsistent now true r v)
]

tick_source-IsConsistent : (e : Env) (r : Room) → IsConsistent r → IsConsistent (tick_source e r)
unfolding tick_source
tick_source-IsConsistent e r v = ground (arith, dequeue_next-IsConsistent e r v)

tick_keep_alive-IsConsistent :
    (e : Env) (r : Room) → IsConsistent r → IsConsistent (tick_keep_alive e r)
unfolding tick_keep_alive
tick_keep_alive-IsConsistent e r v = ground arith

tick_order-IsConsistent : (e : Env) (r : Room) → IsConsistent r → IsConsistent (tick_order e r)
unfolding tick_order
tick_order-IsConsistent e r v = ground arith

fetch_segments-IsConsistent :
    (f : Option (List Segment)) (r : Room) → IsConsistent r → IsConsistent (fetch_segments f r)
unfolding fetch_segments
fetch_segments-IsConsistent f r v = ground arith

skip_segment-IsConsistent :
    (now : Time) (s : Option Segment) (r : Room)
    → IsConsistent r
    → IsConsistent (skip_segment now s r)
unfolding seek_raw
skip_segment-IsConsistent now s r v = ground arith

skip_current_segment-IsConsistent :
    (now : Time) (r : Room) → IsConsistent r → IsConsistent (skip_current_segment now r)
unfolding skip_current_segment
skip_current_segment-IsConsistent now r v = ground (
  arith,
  skip_segment-IsConsistent now (get_segment_for_time (real_playback_position now r) r) r v,
)

clear_wanted-IsConsistent :
    (r : Room) → IsConsistent r → IsConsistent (record r { want_sponsor_block = false })
clear_wanted-IsConsistent r v = ground arith

fetch_wanted-IsConsistent :
    (f : Option (List Segment)) (r : Room)
    → IsConsistent r
    → IsConsistent (
        if r.want_sponsor_block
        then fetch_segments f (record r { want_sponsor_block = false })
        else r)
fetch_wanted-IsConsistent f r v =
    let asked = record r { want_sponsor_block = false } in
    if_both IsConsistent r.want_sponsor_block (fetch_segments f asked) r
      (fetch_segments-IsConsistent f asked (clear_wanted-IsConsistent r v)) v

skip_again-IsConsistent :
    (now : Time) (r : Room)
    → IsConsistent r
    → IsConsistent (
        if reached now r r.dont_skip_segments_until
        then record r { dont_skip_segments_until = none }
        else r)
skip_again-IsConsistent now r v = ground arith

tick_segments-IsConsistent :
    (e : Env) (f : Option (List Segment)) (r : Room)
    → IsConsistent r
    → IsConsistent (tick_segments e f r)
unfolding tick_segments
tick_segments-IsConsistent e f r v =
    let v₁ = fetch_wanted-IsConsistent f r v in
    let r₁ =
      if r.want_sponsor_block
      then fetch_segments f (record r { want_sponsor_block = false })
      else r in
    let v₂ = skip_again-IsConsistent e.now r₁ v₁ in
    elim (Bool-cases (e.sponsorblock_enabled && nonempty r.auto_skip_segment_categories)) [
      | inl w ↦ rw w (
          skip_current_segment-IsConsistent e.now
            (if reached e.now r₁ r₁.dont_skip_segments_until
              then record r₁ { dont_skip_segments_until = none }
              else r₁)
            v₂)
      | inr w ↦ rw w v
    ]

-- One step of the room keeps the playback state consistent.
pub update-IsConsistent :
    (e : Env) (fetched : Option (List Segment)) (r : Room)
    → IsConsistent r
    → IsConsistent (update e fetched r)
unfolding update
update-IsConsistent e fetched r v =
    let r₁ = evaluate_buffer_gate e.now r in
    let r₂ = tick_preparation e.now r₁ in
    let r₃ = tick_gesture e.now r₂ in
    let r₄ = tick_source e r₃ in
    let r₅ = tick_keep_alive e r₄ in
    tick_segments-IsConsistent e fetched (tick_order e r₅) (
      tick_order-IsConsistent e r₅ (
        tick_keep_alive-IsConsistent e r₄ (
          tick_source-IsConsistent e r₃ (
            tick_gesture-IsConsistent e.now r₂ (
              tick_preparation-IsConsistent e.now r₁
                (evaluate_buffer_gate-IsConsistent e.now r v))))))
