-- ===== src/Room/Clock/Continuity.antt =====
-- server/room.ts: the playback head does not jump when the clock is paused, started or changes speed.
use opentogethertube_cn.Common.{
  ℕ, ◌≡◌, refl, ◌∙◌, Bool, true, false, none, some, arith, Option-cases, inl, inr,
}
use opentogethertube_cn.Common.Int.{pos, +ℤ-zero, zero-*ℤ, sub_ℕ_self}
use opentogethertube_cn.Room.State.{Room, Time}
use opentogethertube_cn.Room.Clock.{
  real_playback_position, calculate_current_position, end_temporary_playback_speed,
  pause_playback_clock, play, pause, stop_clock, cancel_playback_preparation,
}

-- At the instant of its anchor the clock adds nothing, whatever the speed.
still : (now : Time) (speed : ℕ) → calculate_current_position now now (pos 0) speed ≡ pos 0
unfolding calculate_current_position
still now speed = ground (arith, sub_ℕ_self now, zero-*ℤ speed, +ℤ-zero (pos 0))

-- A clock that is anchored now, or that does not run, stands at the stored position.
anchored :
    (now : Time) (r : Room)
    → r.playback_start ≡ some now
    → real_playback_position now r ≡ r.playback_position
unfolding real_playback_position
anchored now r h = ground (arith, h, still now r.playback_speed, +ℤ-zero r.playback_position)

stopped :
    (now : Time) (r : Room)
    → r.is_playing ≡ false
    → real_playback_position now r ≡ r.playback_position
unfolding real_playback_position
stopped now r h = ground (arith, h)

pub real-end_temporary_playback_speed :
    (now : Time) (restore : Bool) (r : Room)
    → real_playback_position now (end_temporary_playback_speed now restore r)
      ≡ real_playback_position now r
unfolding end_temporary_playback_speed
real-end_temporary_playback_speed now restore r = elim (Option-cases r.temporary_speed) [
  | inl e ↦ unfold real_playback_position in ground (arith, e)
  | inr (t, e) ↦
      unfold real_playback_position in
      ground (
        arith,
        e,
        still now r.playback_speed,
        still now t.previous_speed,
        +ℤ-zero (real_playback_position now r),
        +ℤ-zero r.playback_position,
      )
]

real-stop_clock :
    (now later : Time) (r : Room)
    → r.temporary_speed ≡ none
    → real_playback_position later (stop_clock now r) ≡ real_playback_position now r
unfolding stop_clock real_playback_position
real-stop_clock now later r h = ground (arith, h)

-- Pausing the clock leaves the head where it is, from then on.
pub real-pause_playback_clock :
    (now later : Time) (r : Room)
    → real_playback_position later (pause_playback_clock now r) ≡ real_playback_position now r
unfolding pause_playback_clock
real-pause_playback_clock now later r =
    real-stop_clock now later (end_temporary_playback_speed now true r)
      (unfold end_temporary_playback_speed in refl)
    ∙ real-end_temporary_playback_speed now true r

pub real-cancel_playback_preparation :
    (now : Time) (r : Room)
    → real_playback_position now (cancel_playback_preparation r) ≡ real_playback_position now r
unfolding cancel_playback_preparation real_playback_position
real-cancel_playback_preparation now r = ground arith

-- A pause, by a viewer or by the gate, leaves the head where it is, from then on.
pub real-pause :
    (now later : Time) (by_buffer_gate : Bool) (r : Room)
    → real_playback_position later (pause now by_buffer_gate r) ≡ real_playback_position now r
unfolding pause
real-pause now later true r =
    real-pause_playback_clock now later (cancel_playback_preparation r)
    ∙ real-cancel_playback_preparation now r
real-pause now later false r =
    real-pause_playback_clock now later (cancel_playback_preparation r₁)
    ∙ real-cancel_playback_preparation now r₁
    ∙ unfold real_playback_position in refl
  where
    r₁ : Room
    r₁ = record r { buffer_gate = none }

-- Play starts a stopped clock at its position, and does not move a running one.
pub real-play :
    (now : Time) (r : Room) → real_playback_position now (play now r) ≡ real_playback_position now r
unfolding play real_playback_position
real-play now r = ground (arith, still now r.playback_speed, +ℤ-zero r.playback_position)
