-- ===== src/Room/Gate/Starts.antt =====
-- server/room.ts: the buffer gate after a start of the room, and after a pause of its own.
use opentogethertube_cn.Common.{
  ◌+◌, ◌≤◌, ◌<◌, ◌≡◌, ◌∙◌, refl, sym, ap, subst, Bool, true, false, not, Option, none, some, List,
  [], ◌∷◌, is_some, ltb, if_split, if◌then◌else◌, arith, inl, inr, ◌⊎◌,
}
use opentogethertube_cn.Room.State.{Room, Time, BufferGate, RoomUser, Preparation, SyncProp, marked}
use mathlib.Core.Bool.{true≢false}
use opentogethertube_cn.Room.Clock.{play, pause, pause_playback_clock}
use opentogethertube_cn.Room.Preparation.{start_prepared_playback, start_if_set, start_due}
use opentogethertube_cn.Room.Gate.{
  evaluate_buffer_gate, release_buffer_gate, buffer_gate_max_wait_ms, expired, gate_applies,
  waiting_viewers, evaluate_waiting, engage_or_keep, may_engage, nonempty,
  buffer_gate_start_grace_ms, is_pausing,
}
use opentogethertube_cn.Room.Gate.Release.{
  evaluate_buffer_gate-grace, evaluate_buffer_gate-resumes, no_gate-same,
}

play-gate :
    (t : Time) (r : Room)
    → r.is_playing ≡ false
    → ((play t r).buffer_gate ≡ none)
      × ((play t r).is_playing ≡ true)
      × ((play t r).last_play_at ≡ some t)
unfolding play
play-gate t r n = (ground (arith, n), ground (arith, n), ground (arith, n))

-- Whoever buffers, the gate does not pause a room within 2 seconds of the `play` that started it, be it
-- held by the gate before or not.
pub evaluate_buffer_gate-play :
    (t now : Time) (r : Room)
    → r.is_playing ≡ false
    → now < t + buffer_gate_start_grace_ms
    → (evaluate_buffer_gate now (play t r)).is_playing ≡ true
evaluate_buffer_gate-play t now r n h =
    let (free, playing, noted) = play-gate t r n in
    evaluate_buffer_gate-grace now t (play t r) free playing noted h

-- What a room that an evaluation has paused is like.
record IsHeld (t : Time) (r s : Room) : Type 0 where
  gated :
      (g : BufferGate) × (s.buffer_gate ≡ some g) × (g.started_at ≡ t) × (g.paused_by_gate ≡ true)
  users : s.realusers ≡ r.realusers
  source : s.current_source ≡ r.current_source
  no_round : is_some s.playback_preparation ≡ false

pause-IsHeld :
    (t : Time) (g : BufferGate) (r : Room)
    → g.started_at ≡ t
    → g.paused_by_gate ≡ true
    → IsHeld t r (pause t true (record r { buffer_gate = some g }))
unfolding pause pause_playback_clock
pause-IsHeld t g r a b = record {
  gated = (g, ground arith, a, b);
  users = ground arith;
  source = ground arith;
  no_round = ground arith;
}

-- An evaluation leaves a playing room that it does not hold playing, or pauses it and holds it.
evaluate-pauses :
    (t : Time) (r : Room)
    → r.buffer_gate ≡ none
    → r.is_playing ≡ true
    → ((evaluate_buffer_gate t r).is_playing ≡ true) ⊎ IsHeld t r (evaluate_buffer_gate t r)
unfolding evaluate_buffer_gate
evaluate-pauses t r n p =
    if_split IsEither (expired t r.buffer_gate) (release_buffer_gate t true r) _
      (λ h. absurd (true≢false (sym h ∙ ap (expired t) n)))
      (λ _.
        if_split IsEither (not (gate_applies r)) (release_buffer_gate t false r)
          (evaluate_waiting t (waiting_viewers r) r) (λ _. inl (no_gate-same t false r n ∙ p))
          (λ _. waited (waiting_viewers r)))
  where
    IsEither : Room → Type 0
    IsEither s = (s.is_playing ≡ true) ⊎ IsHeld t r s

    waited : (ws : List RoomUser) → IsEither (evaluate_waiting t ws r)
    waited [] = inl (no_gate-same t false r n ∙ p)
    waited (u ∷ us) =
        subst (λ (o : Option BufferGate). IsEither (engage_or_keep t (u ∷ us) o r)) (sym n)
          (if_split IsEither (may_engage t r) _ r (λ _. inr (pause-IsHeld t _ r refl refl))
            (λ _. inl p))

-- A playing room with a viewer and a source that an evaluation of the gate pauses plays again after an
-- evaluation 15 seconds later or more, whoever still buffers.
pub evaluate_buffer_gate-plays_again :
    (t now : Time) (r : Room)
    → r.buffer_gate ≡ none
    → r.is_playing ≡ true
    → nonempty r.realusers ≡ true
    → is_some r.current_source ≡ true
    → (evaluate_buffer_gate t r).is_playing ≡ false
    → t + buffer_gate_max_wait_ms ≤ now
    → (evaluate_buffer_gate now (evaluate_buffer_gate t r)).is_playing ≡ true
evaluate_buffer_gate-plays_again t now r n p u s paused later = elim (evaluate-pauses t r n p) [
  | inl plays ↦ absurd (true≢false (sym plays ∙ paused))
  | inr held ↦
      let (g, there, at, by) = held.gated in
      evaluate_buffer_gate-resumes now (evaluate_buffer_gate t r) g there (omega (arith, at, later))
        by (ap nonempty held.users ∙ u) (ap is_some held.source ∙ s) held.no_round
]

pause-stops : (t : Time) (r : Room) → (pause t true r).is_playing ≡ false
unfolding pause pause_playback_clock
pause-stops t r = ground arith

-- The room that a round has started.
abbrev started : Time → Preparation → Room → Room
started start p r = record r {
  playback_start_timer = none;
  playback_preparation = none;
  resume_on_next_join = false;
  playback_position = p.position;
  is_playing = true;
  playback_start = some start;
  dirty =
      marked SyncProp.playback_position
        (marked SyncProp.is_playing (marked SyncProp.playback_preparation r.dirty));
}

starts :
    (now start : Time) (p : Preparation) (r : Room)
    → r.playback_preparation ≡ some p
    → p.start_at ≡ some start
    → start ≤ now
    → start_prepared_playback now r ≡ started start p r
unfolding start_prepared_playback
starts now start p r prep at due =
    ap (λ (o : Option Preparation). start_if_set now o r) prep
    ∙ ap (λ (o : Option Time). elim o as (λ _. Room) [ none ↦ r | some s ↦ start_due now s p r ]) at
    ∙ in_time (ltb (now + 50) start) refl
  where
    in_time :
        (b : Bool)
        → ltb (now + 50) start ≡ b
        → (if b then r else started start p r) ≡ started start p r
    in_time false e = refl
    in_time true e = absurd (true≢false (sym e ∙ ground (arith, due)))

gate_takes :
    (t : Time) (s : Room) (v : RoomUser) (vs : List RoomUser)
    → s.buffer_gate ≡ none
    → may_engage t s ≡ true
    → gate_applies s ≡ true
    → waiting_viewers s ≡ v ∷ vs
    → (evaluate_buffer_gate t s).is_playing ≡ false
unfolding evaluate_buffer_gate
gate_takes t s v vs n m a w =
    if_split Stops (expired t s.buffer_gate) (release_buffer_gate t true s) _
      (λ h. absurd (true≢false (sym h ∙ ap (expired t) n)))
      (λ _.
        if_split Stops (not (gate_applies s)) (release_buffer_gate t false s)
          (evaluate_waiting t (waiting_viewers s) s) (λ h. absurd (true≢false (sym h ∙ ap not a)))
          (λ _.
            subst (λ (ws : List RoomUser). Stops (evaluate_waiting t ws s)) (sym w)
              (subst (λ (o : Option BufferGate). Stops (engage_or_keep t (v ∷ vs) o s)) (sym n)
                (if_split Stops (may_engage t s) _ s (λ _. pause-stops t _)
                  (λ h. absurd (true≢false (sym m ∙ h)))))))
  where
    Stops : Room → Type 0
    Stops x = x.is_playing ≡ false

-- A room whose round of the handshake starts it, and which may be held, is paused by the gate in the very
-- same instant where a viewer buffers, if `play` and a new source are 2 seconds or more ago:
-- `startPreparedPlayback` is no start for the 2 seconds of grace.
pub evaluate_buffer_gate-no_grace :
    (now start last : Time) (p : Preparation) (u : RoomUser) (us : List RoomUser) (r : Room)
    → r.playback_preparation ≡ some p
    → p.start_at ≡ some start
    → start ≤ now
    → r.buffer_gate ≡ none
    → r.last_play_at ≡ some last
    → last + buffer_gate_start_grace_ms ≤ now
    → r.buffer_gate_cooldown_until ≡ none
    → is_pausing r.buffer_gate_mode ≡ true
    → is_some r.temporary_speed ≡ false
    → is_some r.current_source ≡ true
    → waiting_viewers (start_prepared_playback now r) ≡ u ∷ us
    → ((start_prepared_playback now r).is_playing ≡ true)
      × ((evaluate_buffer_gate now (start_prepared_playback now r)).is_playing ≡ false)
evaluate_buffer_gate-no_grace now start last p u us r prep at due free noted old cool mode slow
      source waiting =
    rw (starts now start p r prep at due) (
      refl,
      gate_takes now (started start p r) u us free (ground (arith, noted, old, cool))
          (unfold gate_applies in ground (arith, mode, slow, source))
          (ap waiting_viewers (sym (starts now start p r prep at due)) ∙ waiting),
    )
