-- ===== src/Room/Gate.antt =====
-- server/room.ts: the buffer gate, which pauses the room for a viewer who is buffering.
pub mod Release
pub mod Starts
use opentogethertube_cn.Common.{
  ℕ, ◌+◌, ◌-◌, Bool, true, false, not, ◌&&◌, ◌||◌, Option, none, some, List, [], ◌∷◌, map,
  if◌then◌else◌, is_some, eqb, ltb, leb, length, select,
}
use opentogethertube_cn.Common.StringSet.{add, has}
use opentogethertube_cn.Room.State.{
  Room, Time, ClientId, BufferGate, BufferGateMode, pause as pauses, off, PlayerStatus, buffering,
  RoomUser,
}
use opentogethertube_cn.Room.Clock.{play, pause, buffer_gate_cooldown_ms}
use opentogethertube_cn.Room.Users.{eligible_preparers}

abbrev pub buffer_gate_max_wait_ms : ℕ
buffer_gate_max_wait_ms = 15000

abbrev pub buffer_gate_start_grace_ms : ℕ
buffer_gate_start_grace_ms = 2000

-- The ids join the exhausted ones.
unfoldable pub exhaust : List ClientId → List ClientId → List ClientId
unfolding add
exhaust [] done = done
exhaust (id ∷ ids) done = exhaust ids (add id done)

abbrev pub solo : Room → Bool
solo r = eqb (length r.realusers) 1

-- What a wait that ran out leaves behind.
abbrev pub time_out : Time → Bool → BufferGate → Room → Room
time_out now timed_out g r =
    if timed_out
    then record r {
      buffer_gate_cooldown_until = some (now + buffer_gate_cooldown_ms);
      buffer_gate_exhausted =
          if solo r then exhaust g.waiting_on r.buffer_gate_exhausted else r.buffer_gate_exhausted;
    }
    else r

abbrev pub nonempty {ℓ} : {A : Type ℓ} → List A → Bool
nonempty [] = false
nonempty (x ∷ xs) = true

abbrev pub release_held : Time → Bool → BufferGate → Room → Room
release_held now timed_out g r =
    let r₁ = time_out now timed_out g r in
    if g.paused_by_gate
      && not r₁.is_playing
      && nonempty r₁.realusers
      && is_some r₁.current_source
      && not (is_some r₁.playback_preparation)
    then play now r₁
    else r₁

abbrev pub release_if_any : Time → Bool → Option BufferGate → Room → Room
release_if_any now timed_out none r = r
release_if_any now timed_out (some g) r = release_held now timed_out g r

unfoldable pub release_buffer_gate : Time → Bool → Room → Room
unfolding exhaust play
release_buffer_gate now timed_out r =
    release_if_any now timed_out r.buffer_gate (record r { buffer_gate = none })

abbrev pub is_buffering : PlayerStatus → Bool
is_buffering buffering = true
is_buffering _ = false

abbrev pub is_pausing : BufferGateMode → Bool
is_pausing pauses = true
is_pausing off = false

-- The viewers that the room waits for: they may play, they buffer, and their wait has not run out.
unfoldable pub waiting_viewers : Room → List RoomUser
waiting_viewers r =
    select (λ u. is_buffering u.player_status && not (has u.id r.buffer_gate_exhausted))
      (eligible_preparers r)

abbrev pub expired : Time → Option BufferGate → Bool
expired now none = false
expired now (some g) = leb buffer_gate_max_wait_ms (now - g.started_at)

abbrev pub within_grace : Time → Option Time → Bool
within_grace now none = false
within_grace now (some t) = ltb (now - t) buffer_gate_start_grace_ms

abbrev pub cooling_down : Time → Option Time → Bool
cooling_down now none = false
cooling_down now (some t) = ltb now t

-- The room may be held at all.
unfoldable pub gate_applies : Room → Bool
gate_applies r =
    (is_pausing r.buffer_gate_mode || solo r)
    && not (is_some r.temporary_speed)
    && not (is_some r.playback_preparation)
    && is_some r.current_source

-- A playing room may be taken hold of at this instant.
abbrev pub may_engage : Time → Room → Bool
may_engage now r =
    r.is_playing
    && not (within_grace now r.last_play_at)
    && not (cooling_down now r.buffer_gate_cooldown_until)

abbrev pub ids : List RoomUser → List ClientId
ids = map (λ u. u.id)

abbrev pub engage_or_keep : Time → List RoomUser → Option BufferGate → Room → Room
engage_or_keep now waiting (some g) r = record r {
  buffer_gate = some (record g { waiting_on = ids waiting });
}
engage_or_keep now waiting none r =
    if may_engage now r
    then pause now true (record r {
      buffer_gate =
          some (record { started_at = now; waiting_on = ids waiting; paused_by_gate = true });
    })
    else r

abbrev pub evaluate_waiting : Time → List RoomUser → Room → Room
evaluate_waiting now [] r = release_buffer_gate now false r
evaluate_waiting now (u ∷ us) r = engage_or_keep now (u ∷ us) r.buffer_gate r

unfoldable pub evaluate_buffer_gate : Time → Room → Room
evaluate_buffer_gate now r =
    if expired now r.buffer_gate
    then release_buffer_gate now true r
    else if not (gate_applies r)
    then release_buffer_gate now false r
    else evaluate_waiting now (waiting_viewers r) r
