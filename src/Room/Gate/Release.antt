-- ===== src/Room/Gate/Release.antt =====
-- server/room.ts: the buffer gate lets go in time, and does not take the room when it must not.
use opentogethertube_cn.Common.{
  ◌+◌, ◌≤◌, ◌<◌, ◌≡◌, ◌∙◌, refl, Bool, true, false, none, some, List, [], ◌∷◌, is_some, arith,
  Bool-cases, inl, inr,
}
use opentogethertube_cn.Room.State.{Room, Time, BufferGate, RoomUser}
use opentogethertube_cn.Room.Clock.{buffer_gate_cooldown_ms}
use opentogethertube_cn.Room.Gate.{
  evaluate_buffer_gate, release_buffer_gate, buffer_gate_max_wait_ms, expired, gate_applies,
  waiting_viewers, evaluate_waiting, may_engage, nonempty, buffer_gate_start_grace_ms,
}

expired-after :
    (now : Time) (g : BufferGate)
    → g.started_at + buffer_gate_max_wait_ms ≤ now
    → expired now (some g) ≡ true
expired-after now g h = ground (arith, h)

-- What letting go after the wait leaves.
module _ (now : Time) (r : Room) (g : BufferGate) (e : r.buffer_gate ≡ some g) where
  timed_out-cooldown :
      ((release_buffer_gate now true r).buffer_gate ≡ none)
      × ((release_buffer_gate now true r).buffer_gate_cooldown_until
          ≡ some (now + buffer_gate_cooldown_ms))
  unfolding release_buffer_gate
  timed_out-cooldown = (ground (arith, e), ground (arith, e))

  timed_out-plays :
      g.paused_by_gate ≡ true
      → nonempty r.realusers ≡ true
      → is_some r.current_source ≡ true
      → is_some r.playback_preparation ≡ false
      → (release_buffer_gate now true r).is_playing ≡ true
  unfolding release_buffer_gate
  timed_out-plays p u s n = ground (arith, e, p, u, s, n)

-- A gate that has held the room for 15 seconds or more is gone after its next evaluation, which starts
-- the 30 seconds in which it may not take the room again.
pub evaluate_buffer_gate-ends_wait :
    (now : Time) (r : Room) (g : BufferGate)
    → r.buffer_gate ≡ some g
    → g.started_at + buffer_gate_max_wait_ms ≤ now
    → ((evaluate_buffer_gate now r).buffer_gate ≡ none)
      × ((evaluate_buffer_gate now r).buffer_gate_cooldown_until
          ≡ some (now + buffer_gate_cooldown_ms))
unfolding evaluate_buffer_gate
evaluate_buffer_gate-ends_wait now r g e h =
    let x : expired now r.buffer_gate ≡ true = rw e (expired-after now g h) in
    rw x (timed_out-cooldown now r g e)

-- A room that the gate paused 15 seconds ago or more, with a viewer, a source and no round of the
-- handshake, plays after the gate's next evaluation.
pub evaluate_buffer_gate-resumes :
    (now : Time) (r : Room) (g : BufferGate)
    → r.buffer_gate ≡ some g
    → g.started_at + buffer_gate_max_wait_ms ≤ now
    → g.paused_by_gate ≡ true
    → nonempty r.realusers ≡ true
    → is_some r.current_source ≡ true
    → is_some r.playback_preparation ≡ false
    → (evaluate_buffer_gate now r).is_playing ≡ true
unfolding evaluate_buffer_gate
evaluate_buffer_gate-resumes now r g e h p u s n =
    let x : expired now r.buffer_gate ≡ true = rw e (expired-after now g h) in
    rw x (timed_out-plays now r g e p u s n)

-- With no gate on, an evaluation that may not take the room leaves it as it is.
pub no_gate-same :
    (now : Time) (b : Bool) (r : Room)
    → r.buffer_gate ≡ none
    → (release_buffer_gate now b r).is_playing ≡ r.is_playing
unfolding release_buffer_gate
no_gate-same now b r n = ground (arith, n)

evaluate_waiting-spares :
    (now : Time) (ws : List RoomUser) (r : Room)
    → r.buffer_gate ≡ none
    → r.is_playing ≡ true
    → may_engage now r ≡ false
    → (evaluate_waiting now ws r).is_playing ≡ true
evaluate_waiting-spares now [] r n p m = no_gate-same now false r n ∙ p
evaluate_waiting-spares now (u ∷ us) r n p m = rw (n, m) p

grace-spares :
    (now t : Time) (r : Room)
    → r.last_play_at ≡ some t
    → now < t + buffer_gate_start_grace_ms
    → may_engage now r ≡ false
grace-spares now t r e h = ground (arith, e, h)

cooldown-spares :
    (now t : Time) (r : Room)
    → r.buffer_gate_cooldown_until ≡ some t
    → now < t
    → may_engage now r ≡ false
cooldown-spares now t r e h = ground (arith, e, h)

evaluate-spares :
    (now : Time) (r : Room)
    → r.buffer_gate ≡ none
    → r.is_playing ≡ true
    → may_engage now r ≡ false
    → (evaluate_buffer_gate now r).is_playing ≡ true
unfolding evaluate_buffer_gate
evaluate-spares now r n p m =
    let x : expired now r.buffer_gate ≡ false = rw n refl in
    elim (Bool-cases (gate_applies r)) [
      | inl a ↦ rw (x, a) (evaluate_waiting-spares now (waiting_viewers r) r n p m)
      | inr a ↦ rw (x, a) (no_gate-same now false r n ∙ p)
    ]

-- Whoever buffers, the gate does not pause a room that it does not hold within 2 seconds of the start that
-- was last noted.
pub evaluate_buffer_gate-grace :
    (now t : Time) (r : Room)
    → r.buffer_gate ≡ none
    → r.is_playing ≡ true
    → r.last_play_at ≡ some t
    → now < t + buffer_gate_start_grace_ms
    → (evaluate_buffer_gate now r).is_playing ≡ true
evaluate_buffer_gate-grace now t r n p e h = evaluate-spares now r n p (grace-spares now t r e h)

-- Whoever buffers, the gate does not pause a room that it does not hold before its cooldown is over.
pub evaluate_buffer_gate-cooldown :
    (now t : Time) (r : Room)
    → r.buffer_gate ≡ none
    → r.is_playing ≡ true
    → r.buffer_gate_cooldown_until ≡ some t
    → now < t
    → (evaluate_buffer_gate now r).is_playing ≡ true
evaluate_buffer_gate-cooldown now t r n p e h =
    evaluate-spares now r n p (cooldown-spares now t r e h)
