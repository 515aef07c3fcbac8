-- ===== src/Room/Requests/Undo/Echoes.antt =====
-- server/room.ts: the echo of a seek finds what the room recorded of it.
use opentogethertube_cn.Common.{
  ℕ, ◌≡◌, ◌∙◌, refl, Bool, true, false, ◌&&◌, ◌||◌, Option, none, some, List, [], ◌∷◌, ◌++◌,
  is_some, arith, Bool-cases, inl, inr, find, map, ap, ◌==◌, ◌*◌, length, ltb, eqb,
}
use opentogethertube_cn.Common.Dict.{eqb_ℤ_iff}
use opentogethertube_cn.Common.Int.{pos, ltb_ℤ, eqb_ℤ}
use opentogethertube_cn.Queue.{same_option, same_item}
use opentogethertube_cn.Room.State.{
  Room, second, Time, Ticks, EventRequest, EventContext, no_context, RoomEvent, RoomUserInfo,
  RoomUser, Account, ClientId,
}
use opentogethertube_cn.Room.Clock.{real_playback_position, seek_raw}
use opentogethertube_cn.Room.Users.{
  get_user_info, users, info_of, get_role, account_role, assigned_role,
}
use opentogethertube_cn.Room.Requests.{
  Context, remember, publish_event_of, publish_room_event, recent_events_limit,
}
use opentogethertube_cn.Room.Requests.Playback.{seek_to, max_seek_seconds}
use opentogethertube_cn.Room.Requests.Undo.{
  Echo, matches_echo, find_recent_event, event_kind, video_of, same_reference,
}

-- A list that ends in a hit has one.
find-last :
    {A : Type 0} (p : A → Bool) (xs : List A) (x : A)
    → p x ≡ true
    → is_some (find p (xs ++ x ∷ [])) ≡ true
find-last p [] x h = rw h refl
find-last p (y ∷ ys) x h = elim (Bool-cases (p y)) [
  | inl a ↦ rw a refl
  | inr a ↦ rw a (find-last p ys x h)
]

find-remember :
    (p : RoomEvent → Bool) (e : RoomEvent) (es : List RoomEvent)
    → p e ≡ true
    → is_some (find p (remember e es)) ≡ true
unfolding remember
find-remember p e [] h = rw h refl
find-remember p e (x ∷ xs) h =
    elim (Bool-cases (ltb recent_events_limit (length ((x ∷ xs) ++ e ∷ [])))) [
      | inl a ↦ rw a (find-last p xs e h)
      | inr a ↦ rw a (find-last p (x ∷ xs) e h)
    ]

-- The echo of a seek finds only seeks from the same position.
abbrev pub seek_echo : Ticks → Ticks → Echo
seek_echo value previous = record {
  request = EventRequest.seek value;
  additional = record no_context { prev_position = some previous };
}

kind-seek :
    (q : EventRequest) → eqb (event_kind q) 4 ≡ true → (v : Ticks) × (q ≡ EventRequest.seek v)
kind-seek (EventRequest.seek v) h = (v, refl)
kind-seek (EventRequest.join _) h = ground (arith, h)
kind-seek EventRequest.leave h = ground (arith, h)
kind-seek (EventRequest.playback _) h = ground (arith, h)
kind-seek EventRequest.skip h = ground (arith, h)
kind-seek (EventRequest.add _) h = ground (arith, h)
kind-seek (EventRequest.update_queue_item _) h = ground (arith, h)
kind-seek (EventRequest.remove _) h = ground (arith, h)

same_position : (o : Option Ticks) (t : Ticks) → same_option eqb_ℤ o (some t) ≡ true → o ≡ some t
same_position none t h = ground (arith, h)
same_position (some s) t h = rw ((eqb_ℤ_iff s t).0 h) refl

all_hold : (a b c d e : Bool) → (a && b && c && d && e) ≡ true → (a ≡ true) × (c ≡ true)
all_hold a b c d e h = (ground (arith, h), ground (arith, h))

pub echo-finds :
    (value previous : Ticks) (event : RoomEvent)
    → matches_echo (seek_echo value previous) event ≡ true
    → ((v : Ticks) × (event.request ≡ EventRequest.seek v))
      × (event.additional.prev_position ≡ some previous)
unfolding matches_echo
echo-finds value previous event h =
    let (kind, position) =
      all_hold (eqb (event_kind event.request) 4)
        (same_option same_item event.additional.video none)
        (same_option eqb_ℤ event.additional.prev_position (some previous))
        (same_option eqb event.additional.queue_idx none)
        (same_option same_reference (video_of event.request) none) h in
    (kind-seek event.request kind, same_position event.additional.prev_position previous position)

echo-hits :
    (value previous : Ticks) (serial : ℕ) (user : RoomUserInfo)
    → matches_echo (seek_echo value previous) (record {
      serial = serial;
      request = EventRequest.seek value;
      user = user;
      additional = record no_context { prev_position = some previous };
    })
      ≡ true
unfolding matches_echo
echo-hits value previous serial user = rw ((eqb_ℤ_iff previous previous).1 refl) refl

-- A seek that is allowed and in range.
abbrev pub InRange : Ticks → Type 0
InRange t = (ltb_ℤ t (pos 0) || ltb_ℤ (pos (max_seek_seconds * second)) t) ≡ false

publish-position :
    (q : EventRequest) (a : EventContext) (c : Context) (r : Room)
    → (publish_room_event q a c r).playback_position ≡ r.playback_position
unfolding publish_room_event publish_event_of
publish-position q a c r = ground arith

seek_raw-position : (now : Time) (t : Ticks) (r : Room) → (seek_raw now t r).playback_position ≡ t
unfolding seek_raw
seek_raw-position now t r = refl

pub seek_to-position :
    (now : Time) (t : Ticks) (c : Context) (r : Room) → (seek_to now t c r).playback_position ≡ t
unfolding seek_to
seek_to-position now t c r =
    publish-position (EventRequest.seek t)
      (record no_context { prev_position = some (real_playback_position now r) }) c
      (seek_raw now t r)
    ∙ seek_raw-position now t r

account-same :
    (now : Time) (t : Ticks) (o : Option Account) (r : Room)
    → account_role o (seek_raw now t r) ≡ account_role o r
unfolding seek_raw assigned_role
account-same now t none r = refl
account-same now t (some a) r = refl

role-same :
    (now : Time) (t : Ticks) (u : RoomUser) (r : Room)
    → get_role (seek_raw now t r) u ≡ get_role r u
unfolding get_role seek_raw
role-same now t u r = rw (account-same now t u.user r) refl

infos-same :
    (now : Time) (t : Ticks) (us : List RoomUser) (r : Room)
    → map (info_of (seek_raw now t r)) us ≡ map (info_of r) us
unfolding info_of
infos-same now t [] r = refl
infos-same now t (u ∷ us) r = rw (infos-same now t us r, role-same now t u r) refl

same_users : (now : Time) (t : Ticks) (r : Room) → (seek_raw now t r).realusers ≡ r.realusers
unfolding seek_raw
same_users now t r = refl

seek_raw-info :
    (now : Time) (t : Ticks) (client : ClientId) (r : Room)
    → get_user_info client (seek_raw now t r) ≡ get_user_info client r
unfolding get_user_info users
seek_raw-info now t client r =
    ap (find (λ i. i.id == client))
      (ap (map (info_of (seek_raw now t r))) (same_users now t r) ∙ infos-same now t r.realusers r)

-- Another position and another limit of the segments leave what was recorded.
seek_to-events :
    (now : Time) (t : Ticks) (c : Context) (r : Room)
    → (seek_to now t c r).recent_events
      ≡ (publish_room_event
          (EventRequest.seek t)
          (record no_context { prev_position = some (real_playback_position now r) })
          c
          (seek_raw now t r)).recent_events
unfolding seek_to
seek_to-events now t c r = refl

published-events :
    (q : EventRequest) (a : EventContext) (c : Context) (client : ClientId) (user : RoomUserInfo)
    (r : Room)
    → c.client_id ≡ some client
    → get_user_info client r ≡ some user
    → (publish_room_event q a c r).recent_events
      ≡ remember
          (record { serial = r.next_serial; request = q; user = user; additional = a })
          r.recent_events
unfolding publish_room_event publish_event_of
published-events q a c client user r k u = ground (arith, k, u)

pub seek_to-records :
    (now : Time) (t : Ticks) (c : Context) (client : ClientId) (user : RoomUserInfo) (r : Room)
    → c.client_id ≡ some client
    → get_user_info client r ≡ some user
    → is_some (find_recent_event (seek_echo t (real_playback_position now r)) (seek_to now t c r))
      ≡ true
unfolding find_recent_event
seek_to-records now t c client user r k u =
    let previous = real_playback_position now r in
    let moved = seek_raw now t r in
    let event : RoomEvent = record {
      serial = moved.next_serial;
      request = EventRequest.seek t;
      user = user;
      additional = record no_context { prev_position = some previous };
    } in
    let recorded =
      seek_to-events now t c r
      ∙ published-events (EventRequest.seek t) (record no_context { prev_position = some previous })
          c client user moved k (seek_raw-info now t client r ∙ u) in
    rw recorded (
      find-remember (matches_echo (seek_echo t previous)) event moved.recent_events
        (echo-hits t previous moved.next_serial user))

-- The grants that a request is checked against are not the seek's matter.
pub seek_to-grants :
    (now : Time) (t : Ticks) (c : Context) (r : Room) → (seek_to now t c r).grants ≡ r.grants
unfolding seek_to publish_room_event publish_event_of seek_raw
seek_to-grants now t c r = ground arith
