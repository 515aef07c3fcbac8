-- ===== src/Clients/Presence/Limits.antt =====
-- server/clientmanager.ts: the talkers of the rooms, and the limits on them.
use opentogethertube_cn.Common.{
  suc, ◌≤◌, ◌<◌, ◌≡◌, refl, ap, String, none, some, List, [], ◌∷◌, ◌++◌, ◌==◌, length,
  length-append, lt→ltb, if_split, arith, Bool-cases, inl, inr,
}
use opentogethertube_cn.Common.Dict.{get, put, remove, string_eq}
use opentogethertube_cn.Common.Entries.{AllEntries}
use opentogethertube_cn.Common.StringSet.{has, add, delete}
use opentogethertube_cn.Voice.Budget.{VoiceLimits}
use opentogethertube_cn.Clients.Presence.{VoiceState, other_voice_rooms}
use opentogethertube_cn.Room.State.{ClientId}

abbrev pub Talks : Type 0
Talks = List (String × List ClientId)

-- Someone talks, and no more than the limit; a limit of 0 is none.
abbrev pub FitsRoom : VoiceLimits → List ClientId → Type 0
FitsRoom l ids =
    (0 < length ids) × (0 < l.max_participants_per_room → length ids ≤ l.max_participants_per_room)

abbrev pub AllFit : VoiceLimits → Talks → Type 0
AllFit l = AllEntries (λ (room : String) ids. FitsRoom l ids)

-- Every room in voice has someone in it, and neither a room nor the number of rooms is over its limit.
pub record IsWithin (l : VoiceLimits) (s : VoiceState) : Type 0 where
  pub rooms : 0 < l.max_concurrent_rooms → length s.participants ≤ l.max_concurrent_rooms
  pub each : AllFit l s.participants

module _ (l : VoiceLimits) where
  -- Where nobody talks in a room, all rooms in voice are other rooms.
  pub others-all :
      (room : String) (m : Talks)
      → AllFit l m
      → get room m ≡ none
      → other_voice_rooms room m ≡ length m
  unfolding other_voice_rooms get
  others-all room [] a h = refl
  others-all room ((name, ids) ∷ m) a h = elim (Bool-cases (name == room)) [
    | inl hit ↦ cc (rw hit at h)
    | inr miss ↦
        let later = others-all room m a.1 (rw miss at h) in
        rw (miss, lt→ltb 0 (length ids) a.0.0) (ap suc later)
  ]

pub length-put-le :
    (room : String) (ids : List ClientId) (m : Talks) → length (put room ids m) ≤ suc (length m)
unfolding put
length-put-le room ids [] = omega arith
length-put-le room ids ((name, other) ∷ m) =
    if_split (λ (x : Talks). length x ≤ suc (suc (length m))) (name == room) ((name, ids) ∷ m)
      ((name, other) ∷ put room ids m) (λ _. omega arith)
      (λ _. omega (arith, length-put-le room ids m))

pub length-put_there :
    (room : String) (ids old : List ClientId) (m : Talks)
    → get room m ≡ some old
    → length (put room ids m) ≡ length m
unfolding put get
length-put_there room ids old [] h = cc
length-put_there room ids old ((name, other) ∷ m) h = elim (Bool-cases (name == room)) [
  | inl hit ↦ rw hit refl
  | inr miss ↦ rw miss (ap suc (length-put_there room ids old m (rw miss at h)))
]

pub length-remove-le : (room : String) (m : Talks) → length (remove room m) ≤ length m
unfolding remove
length-remove-le room [] = omega arith
length-remove-le room ((name, other) ∷ m) =
    let less = length-remove-le room m in
    if_split (λ (x : Talks). length x ≤ suc (length m)) (name == room) (remove room m)
      ((name, other) ∷ remove room m) (λ _. omega arith) (λ _. omega arith)

pub length-add-le : (id : ClientId) (ids : List ClientId) → length (add id ids) ≤ suc (length ids)
unfolding add
length-add-le id ids =
    if_split (λ (x : List ClientId). length x ≤ suc (length ids)) (has id ids) ids (ids ++ id ∷ [])
      (λ _. omega arith) (λ _. omega (arith, length-append ids (id ∷ [])))

pub length-delete-le : (id : ClientId) (ids : List ClientId) → length (delete id ids) ≤ length ids
unfolding delete
length-delete-le id [] = omega arith
length-delete-le id (x ∷ xs) =
    if_split (λ (y : List ClientId). length y ≤ suc (length xs)) (x == id) (delete id xs)
      (x ∷ delete id xs) (λ _. omega (arith, length-delete-le id xs))
      (λ _. omega (arith, length-delete-le id xs))
