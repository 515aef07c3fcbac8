-- ===== src/Room/Requests/Leaving/Emptied.antt =====
-- server/room.ts: what the last viewer leaves behind.
use opentogethertube_cn.Common.{◌≡◌, ◌∙◌, refl, Bool, false, ◌&&◌, [], arith}
use opentogethertube_cn.Room.State.{Room, Time}
use opentogethertube_cn.Room.Clock.{
  real_playback_position, pause_playback_clock, cancel_playback_preparation,
}
use opentogethertube_cn.Room.Clock.Continuity.{
  real-pause_playback_clock, real-cancel_playback_preparation,
}
use opentogethertube_cn.Room.Holding.{can_prepare_playback}
use opentogethertube_cn.Room.Gate.{release_buffer_gate}
use opentogethertube_cn.Room.Requests.Leaving.{empty_room, should_resume}

-- Letting go of the gate starts nothing where nobody is.
real-release :
    (now : Time) (r : Room)
    → r.realusers ≡ []
    → real_playback_position now (release_buffer_gate now false r) ≡ real_playback_position now r
unfolding release_buffer_gate real_playback_position
real-release now r e = ground (arith, e)

release-source :
    (now : Time) (r : Room) → (release_buffer_gate now false r).current_source ≡ r.current_source
unfolding release_buffer_gate
release-source now r = ground arith

pause-source :
    (now : Time) (r : Room) → (pause_playback_clock now r).current_source ≡ r.current_source
unfolding pause_playback_clock
pause-source now r = ground arith

pause-stops : (now : Time) (r : Room) → (pause_playback_clock now r).is_playing ≡ false
unfolding pause_playback_clock
pause-stops now r = ground arith

cancel-same :
    (r : Room)
    → ((cancel_playback_preparation r).current_source ≡ r.current_source)
      × ((cancel_playback_preparation r).is_playing ≡ r.is_playing)
unfolding cancel_playback_preparation
cancel-same r = (refl, refl)

prepare-source :
    (a b : Room)
    → a.current_source ≡ b.current_source
    → can_prepare_playback a ≡ can_prepare_playback b
unfolding can_prepare_playback
prepare-source a b e = rw e refl

unmoved :
    (later : Time) (b : Bool) (now : Time) (r : Room)
    → real_playback_position later (record r { resume_on_next_join = b; keep_alive_ping = now })
      ≡ real_playback_position later r
unfolding real_playback_position
unmoved later b now r = refl

-- A room that its last viewer has left does not play, its head stands from then on where it was at
-- that instant, and it means to go on with the next viewer exactly if it played, was held by the gate
-- or the handshake or meant to go on before, and its source can be prepared.
pub empty_room-pauses :
    (now later : Time) (r : Room)
    → r.realusers ≡ []
    → ((empty_room now r).is_playing ≡ false)
      × (real_playback_position later (empty_room now r) ≡ real_playback_position now r)
      × ((empty_room now r).resume_on_next_join ≡ (should_resume r && can_prepare_playback r))
unfolding empty_room real_playback_position
empty_room-pauses now later r e =
    let released = release_buffer_gate now false r in
    let paused = pause_playback_clock now released in
    let stopped = cancel_playback_preparation paused in
    let (source, playing) = cancel-same paused in
    (
      playing ∙ pause-stops now released,
      real-cancel_playback_preparation later paused
          ∙ real-pause_playback_clock now later released
          ∙ real-release now r e,
      rw (prepare-source stopped r (source ∙ pause-source now released ∙ release-source now r))
          refl,
    )
