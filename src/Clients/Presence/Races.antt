-- ===== src/Clients/Presence/Races.antt =====
-- server/clientmanager.ts: two joins that wait for their decisions at once.
use opentogethertube_cn.Common.{
  suc, ◌+◌, ◌<◌, ◌≡◌, ◌∙◌, refl, ap, String, Bool, if◌then◌else◌, true, false, List, [], ◌∷◌, some,
  none, length, length-append, or_else, arith,
}
use opentogethertube_cn.Common.Dict.{get, string_eq, get-put, get-remove, same_refl}
use opentogethertube_cn.Common.StringSet.{has, add}
use opentogethertube_cn.Voice.Budget.{decide_voice_join, VoiceJoinDecision}
use opentogethertube_cn.Clients.Presence.{
  VoiceEnv, VoiceState, VoiceClient, VoiceOutput, talkers, change_talkers, keep_talkers,
  forget_voice_room, decide_join, join_if,
}
use opentogethertube_cn.Clients.Presence.Limits.{Talks}
use opentogethertube_cn.Clients.Presence.Within.{participants-announce}
use opentogethertube_cn.Room.State.{ClientId}

talkers-keep :
    (room : String) (ids : List ClientId) (s : VoiceState)
    → talkers room (keep_talkers room ids s) ≡ ids
unfolding keep_talkers forget_voice_room
talkers-keep room [] s =
    ap (λ o. or_else o []) (get-remove room room s.participants)
    ∙ ap (λ (b : Bool). or_else (if b then none else get room s.participants) []) (same_refl room)
talkers-keep room (id ∷ ids) s =
    ap (λ o. or_else o []) (get-put room room (id ∷ ids) s.participants)
    ∙ ap (λ (b : Bool). or_else (if b then some (id ∷ ids) else get room s.participants) [])
        (same_refl room)

talkers-change :
    (env : VoiceEnv) (room : String) (ids : List ClientId) (s : VoiceState)
    → talkers room (change_talkers env room ids s).1 ≡ ids
unfolding change_talkers
talkers-change env room ids s =
    ap (λ (m : Talks). or_else (get room m) [])
      (participants-announce env room ids (keep_talkers room ids s))
    ∙ talkers-keep room ids s

length-add :
    (id : ClientId) (ids : List ClientId)
    → has id ids ≡ false
    → length (add id ids) ≡ suc (length ids)
unfolding add
length-add id ids h = rw h (omega (arith, length-append ids (id ∷ [])))

allowed_to_join :
    (env : VoiceEnv) (client : VoiceClient) (s : VoiceState)
    → 0 < length (talkers client.room s)
    → length (talkers client.room s) + 1 ≡ env.limits.max_participants_per_room
    → (decide_join env client s).allowed ≡ true
unfolding decide_voice_join
allowed_to_join env client s some_talk free = ground (arith, some_talk, free)

taken_branch : {A : Type 0} (b : Bool) (x y : A) → b ≡ true → (if b then x else y) ≡ x
taken_branch true x y h = refl
taken_branch false x y h = cc

talkers-join_if :
    (env : VoiceEnv) (client : VoiceClient) (d : VoiceJoinDecision) (s : VoiceState)
    → d.allowed ≡ true
    → talkers client.room (join_if env client d s).1 ≡ add client.id (talkers client.room s)
talkers-join_if env client d s h =
    ap (λ (r : VoiceOutput × VoiceState). talkers client.room r.1)
      (taken_branch d.allowed
        (change_talkers env client.room (add client.id (talkers client.room s)) s) _ h)
    ∙ talkers-change env client.room (add client.id (talkers client.room s)) s

-- Where one more may talk in a room in which someone talks, two clients who join at once, both of them
-- decided on before either is added, are both let in, and one more talks than the limit allows.
pub join_if-exceeds :
    (env : VoiceEnv) (room : String) (a b : ClientId) (s : VoiceState)
    → 0 < length (talkers room s)
    → length (talkers room s) + 1 ≡ env.limits.max_participants_per_room
    → has a (talkers room s) ≡ false
    → has b (add a (talkers room s)) ≡ false
    → (let first : VoiceClient = record { id = a; room = room; is_joined = true } in
        let second : VoiceClient = record { id = b; room = room; is_joined = true } in
        let after = (join_if env first (decide_join env first s) s).1 in
        length (talkers room (join_if env second (decide_join env second s) after).1))
      ≡ suc env.limits.max_participants_per_room
join_if-exceeds env room a b s some_talk free new_a new_b =
    let first : VoiceClient = record { id = a; room = room; is_joined = true } in
    let second : VoiceClient = record { id = b; room = room; is_joined = true } in
    let after = (join_if env first (decide_join env first s) s).1 in
    let one =
      talkers-join_if env first (decide_join env first s) s
        (allowed_to_join env first s some_talk free) in
    let two =
      talkers-join_if env second (decide_join env second s) after
        (allowed_to_join env second s some_talk free) in
    ap length (two ∙ ap (add b) one)
    ∙ length-add b (add a (talkers room s)) new_b
    ∙ ap suc (length-add a (talkers room s) new_a ∙ omega (arith, free))
