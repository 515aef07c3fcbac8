-- ===== src/Clients/Presence/Within.antt =====
-- server/clientmanager.ts: every event keeps the limits on the talkers.
use opentogethertube_cn.Common.{
  ℕ, ◌≤◌, ◌<◌, ◌≡◌, ◌∙◌, refl, sym, subst, String, Bool, true, false, Option, none, some, List, [],
  ◌∷◌, ◌&&◌, length, ltb, if_split, arith, Option-cases, inl, inr, ◌⊎◌,
}
use opentogethertube_cn.Common.Dict.{get, string_eq}
use opentogethertube_cn.Common.Entries.{AllEntries-get, AllEntries-put, AllEntries-remove}
use opentogethertube_cn.Common.StringSet.{has, add, delete}
use opentogethertube_cn.Voice.Budget.{VoiceLimits, decide_voice_join}
use opentogethertube_cn.Voice.Selection.{RelaySelection, RelayState, select_relay_channel}
use opentogethertube_cn.Voice.Credentials.{Credentials, no_credentials}
use native.Mathlib.Nat.{le_refl}
use opentogethertube_cn.Clients.Presence.Limits.{
  Talks, AllFit, IsWithin, FitsRoom, others-all, length-put-le, length-put_there, length-remove-le,
  length-add-le, length-delete-le,
}
use opentogethertube_cn.Clients.Presence.{
  silent, disabled, refuse, reason_of, asks, VoiceEnv, VoiceState, VoiceClient, VoiceOutput, Denial,
  talkers, other_voice_rooms, forget_voice_room, keep_talkers, announce_talkers,
  get_room_relay_channel, build_voice_message, note_relay, change_talkers, drop_if_empty,
  join_voice, refuse_disabled, set_presence, set_voice_presence, remove_from_voice,
}
use opentogethertube_cn.Room.State.{ClientId}

IsWithin-same :
    (l : VoiceLimits) (s t : VoiceState)
    → s.participants ≡ t.participants
    → IsWithin l s
    → IsWithin l t
IsWithin-same l s t e w = record {
  rooms =
      subst (λ (m : Talks). 0 < l.max_concurrent_rooms → length m ≤ l.max_concurrent_rooms) e
        w.rooms;
  each = subst (AllFit l) e w.each;
}

-- Messages and relays leave the talkers alone.
participants-build :
    (env : VoiceEnv) (room : String) (o : Option RelaySelection) (d : Option Denial)
    (s : VoiceState)
    → (build_voice_message env room o d s).1.participants ≡ s.participants
unfolding build_voice_message
participants-build env room o d s = refl

participants-relay :
    (env : VoiceEnv) (room : String) (s : VoiceState)
    → (get_room_relay_channel env room s).1.participants ≡ s.participants
unfolding get_room_relay_channel
participants-relay env room s = kept (get room s.room_relays)
  where
    noted :
        (r : Option RelaySelection × RelayState × Credentials)
        → (note_relay room r s).1.participants ≡ s.participants
    noted (none, relay, c) = refl
    noted (some chosen, relay, c) = refl

    kept :
        (o : Option RelaySelection)
        → (elim o as (λ (x : Option RelaySelection). Option RelaySelection × VoiceState) [
          | some existing ↦ (some existing, s)
          | none ↦
              note_relay room
                (select_relay_channel (asks env) env.store env.channels s.relay s.credentials)
                s
        ]).1.participants
          ≡ s.participants
    kept none = noted (select_relay_channel (asks env) env.store env.channels s.relay s.credentials)
    kept (some existing) = refl

pub participants-announce :
    (env : VoiceEnv) (room : String) (ids : List ClientId) (s : VoiceState)
    → (announce_talkers env room ids s).1.participants ≡ s.participants
participants-announce env room [] s = participants-build env room none none s
participants-announce env room (id ∷ ids) s =
    let r = get_room_relay_channel env room s in
    participants-build env room r.0 none r.1 ∙ participants-relay env room s

module _ (l : VoiceLimits) where
  -- The room may have these talkers: they fit, and the room counts already or there is room for one more.
  record CanTalk (room : String) (ids : List ClientId) (s : VoiceState) : Type 0 where
    fits : 0 < l.max_participants_per_room → length ids ≤ l.max_participants_per_room
    counted :
        ((old : List ClientId) × (get room s.participants ≡ some old))
        ⊎ (0 < l.max_concurrent_rooms → length s.participants < l.max_concurrent_rooms)

  forget-IsWithin :
      (room : String) (s : VoiceState) → IsWithin l s → IsWithin l (forget_voice_room room s)
  unfolding forget_voice_room
  forget-IsWithin room s w = record {
    rooms = λ h. let fits = w.rooms h in omega (arith, length-remove-le room s.participants);
    each = AllEntries-remove (λ (room : String) ids. FitsRoom l ids) room s.participants w.each;
  }

  keep_talkers-IsWithin :
      (room : String) (ids : List ClientId) (s : VoiceState)
      → IsWithin l s
      → CanTalk room ids s
      → IsWithin l (keep_talkers room ids s)
  unfolding keep_talkers
  keep_talkers-IsWithin room [] s w c = forget-IsWithin room s w
  keep_talkers-IsWithin room (id ∷ ids) s w c = record {
    rooms = λ h. elim c.counted [
      | inl (old, there) ↦
          rw (length-put_there room (id ∷ ids) old s.participants there) (w.rooms h)
      | inr free ↦ let below = free h in omega (arith, length-put-le room (id ∷ ids) s.participants)
    ];
    each =
        AllEntries-put (λ (room : String) ids. FitsRoom l ids) room (id ∷ ids) s.participants
          (omega arith, c.fits) w.each;
  }

  change_talkers-IsWithin :
      (env : VoiceEnv) (room : String) (ids : List ClientId) (s : VoiceState)
      → IsWithin l s
      → CanTalk room ids s
      → IsWithin l (change_talkers env room ids s).1
  unfolding change_talkers
  change_talkers-IsWithin env room ids s w c =
      IsWithin-same l (keep_talkers room ids s) _
        (sym (participants-announce env room ids (keep_talkers room ids s)))
        (keep_talkers-IsWithin room ids s w c)

  -- The talkers of a room, or fewer, may talk.
  fewer-CanTalk :
      (room : String) (ids : List ClientId) (s : VoiceState)
      → IsWithin l s
      → length ids ≤ length (talkers room s)
      → CanTalk room ids s ⊎ (ids ≡ [])
  fewer-CanTalk room ids s w h = elim (Option-cases (get room s.participants)) [
    | inl absent ↦ inr (empty ids (rw absent at h))
    | inr (old, there) ↦
        let fit =
          AllEntries-get (λ (room : String) ids. FitsRoom l ids) room s.participants old w.each
            there in
        let few = rw there at h in
        inl (record { fits = λ p. let most = fit.1 p in omega arith; counted = inl (old, there) })
  ]
    where
      empty : (xs : List ClientId) → length xs ≤ 0 → xs ≡ []
      empty [] h = refl
      empty (x ∷ xs) h = absurd (omega arith)

  fewer-IsWithin :
      (env : VoiceEnv) (room : String) (ids : List ClientId) (s : VoiceState)
      → IsWithin l s
      → length ids ≤ length (talkers room s)
      → IsWithin l (change_talkers env room ids s).1
  unfolding change_talkers keep_talkers
  fewer-IsWithin env room ids s w h = elim (fewer-CanTalk room ids s w h) [
    | inl c ↦ change_talkers-IsWithin env room ids s w c
    | inr nobody ↦ rw nobody (
        IsWithin-same l (forget_voice_room room s) _
          (sym (participants-announce env room [] (forget_voice_room room s)))
          (forget-IsWithin room s w))
  ]

  decide-allows :
      (env : VoiceEnv) (n k : ℕ)
      → (decide_voice_join l env.channels n (ltb 0 n) k).allowed ≡ true
      → (0 < l.max_participants_per_room → n < l.max_participants_per_room)
        × (n ≡ 0 → 0 < l.max_concurrent_rooms → k < l.max_concurrent_rooms)
  unfolding decide_voice_join
  decide-allows env n k h = ((λ p. ground arith), (λ e p. ground arith))

  added-CanTalk :
      (env : VoiceEnv) (client : VoiceClient) (s : VoiceState)
      → IsWithin l s
      → (decide_voice_join l env.channels
          (length (talkers client.room s))
          (ltb 0 (length (talkers client.room s)))
          (other_voice_rooms client.room s.participants)).allowed
        ≡ true
      → CanTalk client.room (add client.id (talkers client.room s)) s
  added-CanTalk env client s w h =
      let (space, room_for) =
        decide-allows env (length (talkers client.room s))
          (other_voice_rooms client.room s.participants) h in
      record {
        fits = λ p.
            let below = space p in omega (arith, length-add-le client.id (talkers client.room s));
        counted = elim (Option-cases (get client.room s.participants)) [
          | inr there ↦ inl there
          | inl absent ↦
              let nobody : length (talkers client.room s) ≡ 0 = rw absent refl in
              inr (λ p.
                let below = room_for nobody p in
                omega (arith, others-all l client.room s.participants w.each absent))
        ];
      }

  join_voice-IsWithin :
      (env : VoiceEnv) (client : VoiceClient) (s : VoiceState)
      → env.limits ≡ l
      → IsWithin l s
      → IsWithin l (join_voice env client s).1
  unfolding join_voice
  join_voice-IsWithin env client s e w =
      let ids = talkers client.room s in
      let decision =
        decide_voice_join env.limits env.channels (length ids) (ltb 0 (length ids))
          (other_voice_rooms client.room s.participants) in
      let dropped = drop_if_empty client.room ids s in
      if_split (λ (r : VoiceOutput × VoiceState). IsWithin l r.1) decision.allowed
        (change_talkers env client.room (add client.id ids) s)
        (refuse (build_voice_message env client.room none (some (reason_of decision)) dropped))
        (λ allowed. change_talkers-IsWithin env client.room (add client.id ids) s w (
          added-CanTalk env client s w (
            subst
              (λ (limits : VoiceLimits).
                (decide_voice_join limits env.channels (length ids) (ltb 0 (length ids))
                  (other_voice_rooms client.room s.participants)).allowed
                ≡ true)
              e allowed)))
        (λ _.
          IsWithin-same l dropped _
            (sym (participants-build env client.room none (some (reason_of decision)) dropped))
            (drop ids))
    where
      drop : (xs : List ClientId) → IsWithin l (drop_if_empty client.room xs s)
      drop [] = forget-IsWithin client.room s w
      drop (x ∷ xs) = w

  set_voice_presence-IsWithin :
      (env : VoiceEnv) (client : VoiceClient) (joined : Bool) (s : VoiceState)
      → env.limits ≡ l
      → IsWithin l s
      → IsWithin l (set_voice_presence env client joined s).1
  unfolding set_voice_presence
  set_voice_presence-IsWithin env client joined s e w =
      if_split (λ (r : VoiceOutput × VoiceState). IsWithin l r.1) (env.enabled && client.is_joined)
        (set_presence env client joined s) (refuse_disabled env client joined s)
        (λ _. changed joined) (λ _. kept joined)
    where
      kept : (j : Bool) → IsWithin l (refuse_disabled env client j s).1
      kept false = w
      kept true =
          IsWithin-same l s _ (sym (participants-build env client.room none (some disabled) s)) w

      changed : (j : Bool) → IsWithin l (set_presence env client j s).1
      changed false =
          fewer-IsWithin env client.room (delete client.id (talkers client.room s)) s w
            (length-delete-le client.id (talkers client.room s))
      changed true =
          if_split (λ (r : VoiceOutput × VoiceState). IsWithin l r.1)
            (has client.id (talkers client.room s))
            (change_talkers env client.room (talkers client.room s) s) (join_voice env client s)
            (λ _.
              fewer-IsWithin env client.room (talkers client.room s) s w
                (le_refl (length (talkers client.room s))))
            (λ _. join_voice-IsWithin env client s e w)

  remove_from_voice-IsWithin :
      (env : VoiceEnv) (client : VoiceClient) (s : VoiceState)
      → IsWithin l s
      → IsWithin l (remove_from_voice env client s).1
  unfolding remove_from_voice
  remove_from_voice-IsWithin env client s w =
      let ids = talkers client.room s in
      if_split (λ (r : VoiceOutput × VoiceState). IsWithin l r.1) (has client.id ids)
        (change_talkers env client.room (delete client.id ids) s) (silent, s)
        (λ _.
          fewer-IsWithin env client.room (delete client.id ids) s w
            (length-delete-le client.id ids))
        (λ _. w)

abbrev pub nobody : VoiceState
nobody = record {
  participants = [];
  room_relays = [];
  relay = record { channel_cursor = 0; active_endpoints = [] };
  credentials = no_credentials;
}

-- The states that clients who come into voice and leave it, connections that are gone and rooms that are
-- unloaded can lead to, under fixed limits, where nothing comes between a join and its decision.
pub data VoiceReach (l : VoiceLimits) : VoiceState → Type 0 where
  quiet : VoiceReach l nobody
  presence :
      (env : VoiceEnv) (client : VoiceClient) (joined : Bool) (s : VoiceState)
      → env.limits ≡ l
      → VoiceReach l s
      → VoiceReach l (set_voice_presence env client joined s).1
  gone :
      (env : VoiceEnv) (client : VoiceClient) (s : VoiceState)
      → VoiceReach l s
      → VoiceReach l (remove_from_voice env client s).1
  unloaded :
      (room : String) (s : VoiceState) → VoiceReach l s → VoiceReach l (forget_voice_room room s)

-- After any events of the voice chat of which none comes between a join and its decision, each room in
-- voice has someone in it, no more talk in it than the limit on participants allows, and no more rooms
-- are in voice than the limit on rooms allows.
pub VoiceReach-IsWithin : (l : VoiceLimits) (s : VoiceState) → VoiceReach l s → IsWithin l s
VoiceReach-IsWithin l s quiet = record { rooms = λ h. omega arith; each = tt }
VoiceReach-IsWithin l s (presence env client joined t e r) =
    set_voice_presence-IsWithin l env client joined t e (VoiceReach-IsWithin l t r)
VoiceReach-IsWithin l s (gone env client t r) =
    remove_from_voice-IsWithin l env client t (VoiceReach-IsWithin l t r)
VoiceReach-IsWithin l s (unloaded room t r) = forget-IsWithin l room t (VoiceReach-IsWithin l t r)
