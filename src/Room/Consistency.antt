-- ===== src/Room/Consistency.antt =====
-- server/room.ts: the invariant of the playback state, which every operation keeps. A gesture's speed
-- is in force only while a source plays; a round of the handshake belongs to the source, which does
-- not play; and a room that the gate holds is paused, with no round and no resume pending.
pub mod Steps
pub mod Dequeue
pub mod Update
pub mod Replies
pub mod Handlers
pub mod Joining
pub mod Leaving
pub mod Items
pub mod Additions
pub mod Members
pub mod Undo
pub mod Settings
pub mod Requests
use opentogethertube_cn.Common.{
  ◌≡◌, refl, Bool, true, false, Option, none, some, is_some, arith, String,
}
use opentogethertube_cn.Queue.{id_of, QueueItem}
use opentogethertube_cn.Room.State.{Room, Time, Ticks}
use opentogethertube_cn.Room.Clock.{
  play, pause, set_current_source, seek_raw, end_temporary_playback_speed, pause_playback_clock,
  cancel_playback_preparation,
}

-- A statement of the value, where there is one.
abbrev pub ForSome {ℓ κ} : {A : Type ℓ} → (A → Type κ) → Option A → Type κ
ForSome P none = Unit
ForSome P (some a) = P a

pub record IsConsistent (r : Room) : Type 0 where
  pub gesture :
      ForSome
        (λ t.
          (r.is_playing ≡ true) × (is_some r.current_source ≡ true) × (r.playback_speed ≡ t.speed))
        r.temporary_speed
  pub round :
      ForSome
        (λ p.
          (r.is_playing ≡ false)
          × (is_some r.current_source ≡ true)
          × ForSome (λ s. id_of s ≡ p.video) r.current_source)
        r.playback_preparation
  pub hold :
      ForSome
        (λ g.
          (r.is_playing ≡ false)
          × (is_some r.playback_preparation ≡ false)
          × (r.resume_on_next_join ≡ false))
        r.buffer_gate

pub play-IsConsistent : (now : Time) (r : Room) → IsConsistent r → IsConsistent (play now r)
unfolding play
play-IsConsistent now r v = ground arith

pub pause-IsConsistent :
    (now : Time) (b : Bool) (r : Room) → IsConsistent r → IsConsistent (pause now b r)
unfolding pause
pause-IsConsistent now b r v = ground arith

pub set_current_source-IsConsistent :
    (now : Time) (s : Option QueueItem) (r : Room)
    → IsConsistent r
    → IsConsistent (set_current_source now s r)
unfolding set_current_source
set_current_source-IsConsistent now s r v = ground arith

pub cancel_playback_preparation-IsConsistent :
    (r : Room) → IsConsistent r → IsConsistent (cancel_playback_preparation r)
unfolding cancel_playback_preparation
cancel_playback_preparation-IsConsistent r v = ground arith

pub end_temporary_playback_speed-IsConsistent :
    (now : Time) (b : Bool) (r : Room)
    → IsConsistent r
    → IsConsistent (end_temporary_playback_speed now b r)
unfolding end_temporary_playback_speed
end_temporary_playback_speed-IsConsistent now b r v = ground arith

pub pause_playback_clock-IsConsistent :
    (now : Time) (r : Room) → IsConsistent r → IsConsistent (pause_playback_clock now r)
unfolding pause_playback_clock
pause_playback_clock-IsConsistent now r v = ground arith

pub seek_raw-IsConsistent :
    (now : Time) (t : Ticks) (r : Room) → IsConsistent r → IsConsistent (seek_raw now t r)
unfolding seek_raw
seek_raw-IsConsistent now t r v = ground arith
