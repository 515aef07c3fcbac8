-- ===== src/Room/Consistency/Steps.antt =====
-- server/room.ts: the parts of the room's step keep its playback state consistent.
use opentogethertube_cn.Common.{
  ◌≡◌, refl, Bool, true, false, Option, none, some, arith, List, [], ◌∷◌, Bool-cases, inl, inr, map,
}
use opentogethertube_cn.Room.State.{Room, Time, Fallback, ClientId, BufferGate, RoomUser}
use opentogethertube_cn.Room.Clock.{pause}
use opentogethertube_cn.Room.Preparation.{
  start_prepared_playback, schedule_playback_start, drop_playback_participant,
  refresh_playback_preparation,
}
use opentogethertube_cn.Room.Gate.{
  release_buffer_gate, evaluate_buffer_gate, waiting_viewers, gate_applies, engage_or_keep,
  evaluate_waiting, may_engage, expired,
}
use opentogethertube_cn.Room.Consistency.{IsConsistent}

pub start_prepared_playback-IsConsistent :
    (now : Time) (r : Room) → IsConsistent r → IsConsistent (start_prepared_playback now r)
unfolding start_prepared_playback
start_prepared_playback-IsConsistent now r v = ground arith

pub schedule_playback_start-IsConsistent :
    (now : Time) (f : Option Fallback) (r : Room)
    → IsConsistent r
    → IsConsistent (schedule_playback_start now f r)
unfolding schedule_playback_start
schedule_playback_start-IsConsistent now f r v = ground arith

pub refresh_playback_preparation-IsConsistent :
    (r : Room) → IsConsistent r → IsConsistent (refresh_playback_preparation r)
unfolding refresh_playback_preparation
refresh_playback_preparation-IsConsistent r v = ground arith

pub release_buffer_gate-IsConsistent :
    (now : Time) (b : Bool) (r : Room) → IsConsistent r → IsConsistent (release_buffer_gate now b r)
unfolding release_buffer_gate
release_buffer_gate-IsConsistent now b r v = ground arith

-- Taking hold of a room that has no gate yet; the gate is set just before the pause.
module _ (now : Time) (g : BufferGate) (r : Room) (no_gesture : r.temporary_speed ≡ none)
    (no_round : r.playback_preparation ≡ none) where
  held_room : Room
  held_room = pause now true (record r { buffer_gate = some g })

  engage-IsConsistent : IsConsistent held_room
  unfolding held_room pause
  engage-IsConsistent = ground (arith, no_gesture, no_round)

-- What `gate_applies` says.
gate_applies-none :
    (r : Room)
    → gate_applies r ≡ true
    → (r.temporary_speed ≡ none) × (r.playback_preparation ≡ none)
unfolding gate_applies
gate_applies-none r a = (ground arith, ground arith)

keep-IsConsistent :
    (g : BufferGate) (ws : List ClientId) (r : Room)
    → r.buffer_gate ≡ some g
    → IsConsistent r
    → IsConsistent (record r { buffer_gate = some (record g { waiting_on = ws }) })
keep-IsConsistent g ws r e v = ground (arith, e)

engage_or_keep-IsConsistent :
    (now : Time) (ws : List RoomUser) (gate : Option BufferGate) (r : Room)
    → r.buffer_gate ≡ gate
    → gate_applies r ≡ true
    → IsConsistent r
    → IsConsistent (engage_or_keep now ws gate r)
unfolding held_room
engage_or_keep-IsConsistent now ws (some g) r e a v = keep-IsConsistent g (map (λ u. u.id) ws) r e v
engage_or_keep-IsConsistent now ws none r e a v =
    let (no_gesture, no_round) = gate_applies-none r a in
    elim (Bool-cases (may_engage now r)) [
      | inl m ↦ rw m (
          engage-IsConsistent now
            (record { started_at = now; waiting_on = map (λ u. u.id) ws; paused_by_gate = true }) r
            no_gesture no_round)
      | inr m ↦ rw m v
    ]

pub evaluate_buffer_gate-IsConsistent :
    (now : Time) (r : Room) → IsConsistent r → IsConsistent (evaluate_buffer_gate now r)
unfolding evaluate_buffer_gate
evaluate_buffer_gate-IsConsistent now r v = elim (Bool-cases (expired now r.buffer_gate)) [
  | inl x ↦ rw x (release_buffer_gate-IsConsistent now true r v)
  | inr x ↦ elim (Bool-cases (gate_applies r)) [
    | inr a ↦ rw (x, a) (release_buffer_gate-IsConsistent now false r v)
    | inl a ↦ rw (x, a) (waiting (waiting_viewers r) a)
  ]
]
  where
    waiting :
        (ws : List RoomUser) → gate_applies r ≡ true → IsConsistent (evaluate_waiting now ws r)
    waiting [] a = release_buffer_gate-IsConsistent now false r v
    waiting (u ∷ us) a = engage_or_keep-IsConsistent now (u ∷ us) r.buffer_gate r refl a v

pub drop_playback_participant-IsConsistent :
    (now : Time) (c : ClientId) (r : Room)
    → IsConsistent r
    → IsConsistent (drop_playback_participant now c r)
unfolding drop_playback_participant
drop_playback_participant-IsConsistent now c r v = ground arith
