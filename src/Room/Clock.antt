-- ===== src/Room/Clock.antt =====
-- server/room.ts: the playback clock, its pause and its speeds, and the setters that stop a gesture
-- or a round of the handshake; common/timestamp.ts, the position.
pub mod Continuity
use opentogethertube_cn.Common.{
  ℕ, ◌+◌, Bool, true, false, not, ◌&&◌, Option, none, some, List, [], ◌∷◌, if◌then◌else◌, is_some,
}
use opentogethertube_cn.Common.Int.{ℤ, pos, ◌+ℤ◌, ◌*ℤ◌, sub_ℕ}
use opentogethertube_cn.Queue.{QueueItem}
use opentogethertube_cn.Room.State.{Room, Time, Ticks, SyncProp, TemporarySpeed, mark_dirty, marked}

-- Between two instants at a speed.
unfoldable pub calculate_current_position : Time → Time → Ticks → ℕ → Ticks
calculate_current_position start_time now offset speed = offset +ℤ sub_ℕ now start_time *ℤ speed

unfoldable pub calc_duration_from_playback_start : Time → Room → Ticks
unfolding calculate_current_position
calc_duration_from_playback_start now r = elim r.playback_start [
  | none ↦ pos 0
  | some start ↦ calculate_current_position start now (pos 0) r.playback_speed
]

unfoldable pub real_playback_position : Time → Room → Ticks
unfolding calc_duration_from_playback_start
real_playback_position now r =
    if is_some r.playback_start && r.is_playing
    then r.playback_position +ℤ calc_duration_from_playback_start now r
    else r.playback_position

-- `set playbackPosition`, `set playbackSpeed`
abbrev pub set_playback_position : Ticks → Room → Room
set_playback_position value r =
    mark_dirty SyncProp.playback_position (record r { playback_position = value })

abbrev pub set_playback_speed_raw : ℕ → Room → Room
set_playback_speed_raw value r =
    mark_dirty SyncProp.playback_speed (record r { playback_speed = value })

unfoldable pub flush_playback_position : Time → Room → Room
unfolding real_playback_position
flush_playback_position now r = record (set_playback_position (real_playback_position now r) r) {
  playback_start = some now;
}

abbrev pub if_gesture {ℓ} : {A : Type ℓ} → Option TemporarySpeed → (TemporarySpeed → A) → A → A
if_gesture none change old = old
if_gesture (some previous) change old = change previous

-- With no gesture only the timer goes. Otherwise the gesture ends and, where the speed is to be
-- restored, the position is flushed first.
unfoldable pub end_temporary_playback_speed : Time → Bool → Room → Room
unfolding real_playback_position
end_temporary_playback_speed now restore r = record r {
  temporary_speed_timer = none;
  temporary_speed = none;
  playback_position =
      if_gesture r.temporary_speed
        (λ _. if restore then real_playback_position now r else r.playback_position)
        r.playback_position;
  playback_start =
      if_gesture r.temporary_speed (λ _. if restore then some now else r.playback_start)
        r.playback_start;
  playback_speed =
      if_gesture r.temporary_speed
        (λ previous. if restore then previous.previous_speed else r.playback_speed)
        r.playback_speed;
  dirty =
      if_gesture r.temporary_speed
        (λ _. marked SyncProp.temporary_playback_speed (
          if restore
          then marked SyncProp.playback_speed (marked SyncProp.playback_position r.dirty)
          else r.dirty))
        r.dirty;
}

-- `set isPlaying`
unfoldable pub set_is_playing : Time → Bool → Room → Room
unfolding end_temporary_playback_speed
set_is_playing now value r =
    let r₁ = if value then r else end_temporary_playback_speed now true r in
    mark_dirty SyncProp.is_playing (record r₁ { is_playing = value })

-- `pausePlaybackClock` once the gesture has ended.
unfoldable pub stop_clock : Time → Room → Room
unfolding set_is_playing flush_playback_position
stop_clock now r =
    if not r.is_playing
    then r
    else set_is_playing now false (record (flush_playback_position now r) { playback_start = none })

unfoldable pub pause_playback_clock : Time → Room → Room
unfolding stop_clock
pause_playback_clock now r = stop_clock now (end_temporary_playback_speed now true r)

abbrev pub clear_playback_start_timer : Room → Room
clear_playback_start_timer r = record r { playback_start_timer = none }

-- A round that is dropped, and a resume intent that is dropped, are each marked.
unfoldable pub cancel_playback_preparation : Room → Room
cancel_playback_preparation r = record r {
  playback_start_timer = none;
  playback_preparation = none;
  resume_on_next_join = false;
  dirty =
      let dropped =
        if is_some r.playback_preparation
        then marked SyncProp.playback_preparation r.dirty
        else r.dirty in
      if r.resume_on_next_join then marked SyncProp.is_playing dropped else dropped;
}

-- `set currentSource`
unfoldable pub set_current_source : Time → Option QueueItem → Room → Room
unfolding end_temporary_playback_speed cancel_playback_preparation
set_current_source now value r =
    let r₁ = record r { buffer_gate = none; buffer_gate_exhausted = []; last_play_at = some now } in
    let r₂ = cancel_playback_preparation (end_temporary_playback_speed now true r₁) in
    mark_dirty SyncProp.current_source (record r₂ { current_source = value })

abbrev pub buffer_gate_cooldown_ms : ℕ
buffer_gate_cooldown_ms = 30000

-- A viewer's explicit choice to go on: the gate does not take the room again at once.
unfoldable pub leave_gate : Time → Room → Room
leave_gate now r = record r {
  buffer_gate = none;
  buffer_gate_cooldown_until =
      if is_some r.buffer_gate
      then some (now + buffer_gate_cooldown_ms)
      else r.buffer_gate_cooldown_until;
}

unfoldable pub play : Time → Room → Room
unfolding leave_gate cancel_playback_preparation set_is_playing
play now r =
    let r₁ = record (cancel_playback_preparation (leave_gate now r)) {
      restored_from_storage = false;
    } in
    if r₁.is_playing
    then r₁
    else record (set_is_playing now true (record r₁ { last_play_at = some now })) {
      playback_start = some now;
    }

unfoldable pub pause : Time → Bool → Room → Room
unfolding pause_playback_clock cancel_playback_preparation
pause now by_buffer_gate r =
    let r₁ = if by_buffer_gate then r else record r { buffer_gate = none } in
    pause_playback_clock now (cancel_playback_preparation r₁)

-- `seekRaw`
unfoldable pub seek_raw : Time → Ticks → Room → Room
unfolding cancel_playback_preparation
seek_raw now value r = record (set_playback_position value (cancel_playback_preparation r)) {
  playback_start = some now;
}
