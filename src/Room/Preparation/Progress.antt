-- ===== src/Room/Preparation/Progress.antt =====
-- server/room.ts: the handshake never waits for good. At its hard deadline a round is given a start,
-- and once the start is there the room plays.
use opentogethertube_cn.Common.{
  ◌≤◌, ◌≡◌, refl, true, false, Option, none, some, is_some, arith, Bool-cases, if_both, inl, inr,
}
use opentogethertube_cn.Room.State.{Room, Time, Preparation, Fallback, partial, forced}
use opentogethertube_cn.Room.Preparation.{
  schedule_playback_start, start_prepared_playback, refresh_playback_preparation,
}
use opentogethertube_cn.Room.Tick.{
  tick_unscheduled, tick_round, start_if_reached, tick_preparation, start_reached,
}
use opentogethertube_cn.Room.Consistency.{ForSome}

-- The round, if there is one, has a start.
abbrev pub IsScheduled : Room → Type 0
IsScheduled r = ForSome (λ p. is_some p.start_at ≡ true) r.playback_preparation

schedule-IsScheduled :
    (now : Time) (f : Option Fallback) (r : Room) → IsScheduled (schedule_playback_start now f r)
unfolding schedule_playback_start
schedule-IsScheduled now f r = ground arith

start-IsScheduled :
    (now : Time) (r : Room) → IsScheduled r → IsScheduled (start_prepared_playback now r)
unfolding start_prepared_playback
start-IsScheduled now r s = ground arith

tick_unscheduled-IsScheduled :
    (now : Time) (p : Preparation) (r : Room)
    → p.deadline_at ≤ now
    → p.hard_deadline_at ≤ now
    → IsScheduled (tick_unscheduled now p r)
unfolding tick_unscheduled
tick_unscheduled-IsScheduled now p r d h = ground (
  arith,
  d,
  h,
  schedule-IsScheduled now none r,
  schedule-IsScheduled now (some partial) r,
  schedule-IsScheduled now (some forced) r,
)

-- The deadlines of the round, if there is one, have passed.
abbrev pub IsOverdue : Time → Room → Type 0
IsOverdue now r =
    ForSome (λ p. (p.deadline_at ≤ now) × (p.hard_deadline_at ≤ now)) r.playback_preparation

refresh-IsOverdue :
    (now : Time) (r : Room) → IsOverdue now r → IsOverdue now (refresh_playback_preparation r)
unfolding refresh_playback_preparation
refresh-IsOverdue now r o = ground (arith, o)

tick_round-IsScheduled :
    (now : Time) (p : Option Preparation) (r : Room)
    → r.playback_preparation ≡ p
    → ForSome (λ p. (p.deadline_at ≤ now) × (p.hard_deadline_at ≤ now)) p
    → IsScheduled (tick_round now p r)
tick_round-IsScheduled now none r e o = rw e tt
tick_round-IsScheduled now (some p) r e (d, h) = elim (Bool-cases (is_some p.start_at)) [
  | inl s ↦ rw s (rw e s)
  | inr s ↦ rw s (tick_unscheduled-IsScheduled now p r d h)
]

start_if_reached-IsScheduled :
    (now : Time) (r : Room) → IsScheduled r → IsScheduled (start_if_reached now r)
start_if_reached-IsScheduled now r s =
    if_both IsScheduled (start_reached now r.playback_preparation) (start_prepared_playback now r) r
      (start-IsScheduled now r s) s

-- Once both deadlines of a round have passed, no tick leaves it without a start, whoever has reported
-- or left: the round is over, or its start is fixed.
pub tick_preparation-ends_wait :
    (now : Time) (r : Room) → IsOverdue now r → IsScheduled (tick_preparation now r)
unfolding tick_preparation
tick_preparation-ends_wait now r o = elim (Bool-cases (is_some r.playback_preparation)) [
  | inl e ↦ rw e (
      start_if_reached-IsScheduled now (tick_round now r₁.playback_preparation r₁)
        (tick_round-IsScheduled now r₁.playback_preparation r₁ refl (refresh-IsOverdue now r o)))
  | inr e ↦ rw e (unheld r.playback_preparation e)
]
  where
    r₁ : Room
    r₁ = refresh_playback_preparation r

    unheld :
        (p : Option Preparation) → is_some p ≡ false → ForSome (λ p. is_some p.start_at ≡ true) p
    unheld none e = tt
    unheld (some p) e = ground (arith, e)

-- A room whose round has a start that has come plays from the round's position, its clock anchored
-- at the start that was announced, not at the late instant of the call; the round is over.
pub start_prepared_playback-starts :
    (now start : Time) (r : Room) (p : Preparation)
    → r.playback_preparation ≡ some p
    → p.start_at ≡ some start
    → start ≤ now
    → ((start_prepared_playback now r).is_playing ≡ true)
      × ((start_prepared_playback now r).playback_start ≡ some start)
      × ((start_prepared_playback now r).playback_position ≡ p.position)
      × ((start_prepared_playback now r).playback_preparation ≡ none)
unfolding start_prepared_playback
start_prepared_playback-starts now start r p e s h = (
  ground (arith, e, s, h),
  ground (arith, e, s, h),
  ground (arith, e, s, h),
  ground (arith, e, s, h),
)
