-- ===== src/Tests/PlaybackTests.antt =====
-- server/room.ts: the clock, the gate, the handshake and the queue of concrete rooms.
use opentogethertube_cn.Common.{◌+◌, ◌≡◌, refl, true, false, none, some, [], ◌∷◌, arith, or_else}
use opentogethertube_cn.Common.Int.{pos}
use opentogethertube_cn.Room.State.{Room, Preparation, pause as pauses}
use opentogethertube_cn.Room.Clock.{real_playback_position, play, pause, buffer_gate_cooldown_ms}
use opentogethertube_cn.Room.Clock.Continuity.{real-pause}
use opentogethertube_cn.Room.Preparation.{start_prepared_playback}
use opentogethertube_cn.Room.Preparation.Progress.{IsScheduled, tick_preparation-ends_wait}
use opentogethertube_cn.Room.Gate.{evaluate_buffer_gate, waiting_viewers, gate_applies}
use opentogethertube_cn.Room.Gate.Starts.{
  evaluate_buffer_gate-play, evaluate_buffer_gate-plays_again, evaluate_buffer_gate-no_grace,
}
use opentogethertube_cn.Room.Gate.Release.{
  evaluate_buffer_gate-ends_wait, evaluate_buffer_gate-cooldown,
}
use opentogethertube_cn.Room.Dequeue.{dequeue_next}
use opentogethertube_cn.Room.Dequeue.Takes.{dequeue_next-takes}
use opentogethertube_cn.Room.Dequeue.Frozen.{dequeue_next-freezes}
use opentogethertube_cn.Room.Tick.{tick_preparation}
use opentogethertube_cn.Tests.Rooms.{
  ann, clip, playing_room, pressed_room, gated_room, gate, waiting_room, round, env,
}

real-pause_example :
    real_playback_position 9000 (pause 3000 false pressed_room)
    ≡ real_playback_position 3000 pressed_room
real-pause_example = real-pause 3000 9000 false pressed_room

tick_preparation-ends_wait_example : IsScheduled (tick_preparation 22000 waiting_room)
tick_preparation-ends_wait_example =
    tick_preparation-ends_wait 22000 waiting_room (ground arith, ground arith)

abbrev due_round : Preparation
due_round = record round { start_at = some 10000 }

abbrev due_room : Room
due_room = record waiting_room { playback_preparation = some due_round }

evaluate_buffer_gate-ends_wait_example :
    ((evaluate_buffer_gate 20000 gated_room).buffer_gate ≡ none)
    × ((evaluate_buffer_gate 20000 gated_room).buffer_gate_cooldown_until
        ≡ some (20000 + buffer_gate_cooldown_ms))
evaluate_buffer_gate-ends_wait_example =
    evaluate_buffer_gate-ends_wait 20000 gated_room gate refl (ground arith)

evaluate_buffer_gate-play_example :
    (evaluate_buffer_gate 5500 (play 5000 gated_room)).is_playing ≡ true
evaluate_buffer_gate-play_example =
    evaluate_buffer_gate-play 5000 5500 gated_room refl (ground arith)

-- Ann is alone in a room that plays and buffers.
lone_room_paused : (evaluate_buffer_gate 9000 playing_room).is_playing ≡ false
unfolding evaluate_buffer_gate waiting_viewers gate_applies pause
    opentogethertube_cn.Room.Users.eligible_preparers opentogethertube_cn.Permissions.Grants.granted
    opentogethertube_cn.Permissions.parse_into_grant_mask opentogethertube_cn.Common.StringSet.has
lone_room_paused = refl

evaluate_buffer_gate-plays_again_example :
    (evaluate_buffer_gate 24000 (evaluate_buffer_gate 9000 playing_room)).is_playing ≡ true
evaluate_buffer_gate-plays_again_example =
    evaluate_buffer_gate-plays_again 9000 24000 playing_room refl refl refl refl lone_room_paused
      (ground arith)

abbrev strict_room : Room
strict_room = record due_room { buffer_gate_mode = pauses }

ann_buffers : waiting_viewers (start_prepared_playback 10400 strict_room) ≡ ann ∷ []
unfolding waiting_viewers start_prepared_playback opentogethertube_cn.Room.Users.eligible_preparers
    opentogethertube_cn.Permissions.Grants.granted
    opentogethertube_cn.Permissions.parse_into_grant_mask opentogethertube_cn.Common.StringSet.has
ann_buffers = refl

evaluate_buffer_gate-no_grace_example :
    ((start_prepared_playback 10400 strict_room).is_playing ≡ true)
    × ((evaluate_buffer_gate 10400 (start_prepared_playback 10400 strict_room)).is_playing ≡ false)
evaluate_buffer_gate-no_grace_example =
    evaluate_buffer_gate-no_grace 10400 10000 1000 due_round ann [] strict_room refl refl
      (ground arith) refl refl (ground arith) refl refl refl refl ann_buffers

abbrev cooling_room : Room
cooling_room = record playing_room { buffer_gate_cooldown_until = some 30000 }

evaluate_buffer_gate-cooldown_example : (evaluate_buffer_gate 22000 cooling_room).is_playing ≡ true
evaluate_buffer_gate-cooldown_example =
    evaluate_buffer_gate-cooldown 22000 30000 cooling_room refl refl refl (ground arith)

dequeue_next-takes_example :
    ((dequeue_next env playing_room).current_source ≡ some clip)
    × ((dequeue_next env playing_room).queue.items ≡ [])
dequeue_next-takes_example = dequeue_next-takes env clip [] playing_room refl refl

abbrev restored_room : Room
restored_room = record playing_room { restored_from_storage = true }

dequeue_next-freezes_example :
    ((dequeue_next env restored_room).is_playing ≡ true)
    × (real_playback_position 99000 (dequeue_next env restored_room)
        ≡ or_else clip.start_at (pos 0))
dequeue_next-freezes_example =
    dequeue_next-freezes env clip [] restored_room 99000 refl refl refl refl refl
