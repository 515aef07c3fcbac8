-- ===== src/Room/Requests/Undo/Seeks.antt =====
-- server/room.ts: undo takes a seek back.
use opentogethertube_cn.Common.{ℕ, ◌≡◌, refl, true, Option, none, some, is_some, arith, find_sound}
use opentogethertube_cn.Permissions.Grants.{granted, named, check}
use opentogethertube_cn.Exceptions.{undo_event_unavailable}
use opentogethertube_cn.Queue.{finite}
use opentogethertube_cn.Room.State.{Room, Time, Ticks, RoomEvent, RoomUserInfo, ClientId}
use opentogethertube_cn.Room.Clock.{real_playback_position}
use opentogethertube_cn.Room.Users.{get_user_info}
use opentogethertube_cn.Room.Requests.{
  Context, Reply, done, thrown, room_after, permission_for, then_do,
}
use opentogethertube_cn.Room.Requests.Playback.{seek, seek_to}
use opentogethertube_cn.Room.Requests.Undo.{
  matches_echo, find_recent_event, undo_seek, undo_request, undo, forget_in, forget_event,
}
use opentogethertube_cn.Room.Requests.Undo.Echoes.{
  seek_echo, echo-finds, InRange, seek_to-records, seek_to-grants, seek_to-position,
}

-- What undo leaves: it succeeds, with the head at a position.
abbrev pub EndsAt : Ticks → Reply → Type 0
EndsAt t reply = (r : Room) × (reply ≡ done r) × (r.playback_position ≡ t)

undo_seek-EndsAt :
    (now : Time) (t : Ticks) (serial : ℕ) (c : Context) (r : Room)
    → granted r.grants c.role (named "playback.seek") ≡ true
    → InRange t
    → EndsAt t (then_do (undo_seek now (some t) c r) (forget_in serial))
unfolding undo_seek seek check permission_for
undo_seek-EndsAt now t serial c r g i = (
  record (seek_to now t c r) {
    recent_events = forget_event serial (seek_to now t c r).recent_events;
  },
  rw (g, i) refl,
  seek_to-position now t c r,
)

-- Whichever event the echo finds, taking it back ends at the position before the seek.
event-EndsAt :
    (later : Time) (value t : Ticks) (c : Context) (r : Room) (event : RoomEvent)
    → granted r.grants c.role (named "playback.seek") ≡ true
    → InRange t
    → matches_echo (seek_echo value t) event ≡ true
    → EndsAt t
        (then_do (undo_request later event.request event.additional c r) (forget_in event.serial))
event-EndsAt later value t c r event g i m =
    let ((v, request), previous) = echo-finds value t event m in
    rw (request, previous) (undo_seek-EndsAt later t event.serial c r g i)

found-EndsAt :
    (later : Time) (value t : Ticks) (c : Context) (r : Room) (o : Option RoomEvent)
    → granted r.grants c.role (named "playback.seek") ≡ true
    → InRange t
    → find_recent_event (seek_echo value t) r ≡ o
    → is_some o ≡ true
    → EndsAt t (elim o [
      | none ↦ thrown undo_event_unavailable r
      | some event ↦
          then_do (undo_request later event.request event.additional c r) (forget_in event.serial)
    ])
unfolding find_recent_event
found-EndsAt later value t c r none g i e s = ground (arith, s)
found-EndsAt later value t c r (some event) g i e s =
    event-EndsAt later value t c r event g i
      (find_sound (matches_echo (seek_echo value t)) r.recent_events event e)

undo-EndsAt :
    (later : Time) (value t : Ticks) (c : Context) (r : Room)
    → granted r.grants c.role (named "playback.seek") ≡ true
    → InRange t
    → is_some (find_recent_event (seek_echo value t) r) ≡ true
    → EndsAt t (undo later (seek_echo value t) c r)
unfolding undo
undo-EndsAt later value t c r g i s =
    found-EndsAt later value t c r (find_recent_event (seek_echo value t) r) g i refl s

allowed-seek :
    (now : Time) (value : Ticks) (c : Context) (r : Room)
    → InRange value
    → room_after (seek now (some (finite value)) c r) ≡ seek_to now value c r
unfolding seek
allowed-seek now value c r i = rw i refl

-- A viewer of the room who may seek, and who sends the event of their seek back to undo it, at any
-- later instant, succeeds, and the head is again where it really was when the seek came, if both
-- positions are in the range that seeks are held to.
pub undo-seek :
    (now later : Time) (value : Ticks) (c : Context) (client : ClientId) (user : RoomUserInfo)
    (r : Room)
    → c.client_id ≡ some client
    → get_user_info client r ≡ some user
    → granted r.grants c.role (named "playback.seek") ≡ true
    → InRange value
    → InRange (real_playback_position now r)
    → EndsAt (real_playback_position now r) (
        undo later
          (seek_echo value (real_playback_position now r))
          c
          (room_after (seek now (some (finite value)) c r)))
undo-seek now later value c client user r k u g v p =
    let t = real_playback_position now r in
    rw (allowed-seek now value c r v) (
      undo-EndsAt later value t c (seek_to now value c r) (rw (seek_to-grants now value c r) g) p
        (seek_to-records now value c client user r k u))
