-- ===== src/Clients/Joins/Entering.antt =====
-- server/clientmanager.ts: the steps of a join keep the lists of the rooms right.
use opentogethertube_cn.Common.{
  String, Bool, true, Option, none, some, List, [], ◌∷◌, ◌++◌, ◌==◌, ◌||◌, ◌≡◌, ◌∙◌, ap, refl, sym,
  subst, if◌then◌else◌, if_split, if_both, option_both_eq, ◌⊎◌, eq_refl, eq_iff, arith, Bool-cases,
  inl, inr,
}
use mathlib.Core.Option
use opentogethertube_cn.Common.Dict.{get, string_eq, get-put}
use opentogethertube_cn.Common.StringSet.{has, has-append}
use opentogethertube_cn.Room.State.{ClientId}
use opentogethertube_cn.Clients.Joins.{
  Client, Connections, Phase, waiting_for_auth, finding_room, checking_access, in_room, turned_away,
  get_clients_in_room, with_phase, add_client, begin_for, begin_join, found_for, room_found, enter,
  access_for, access_checked,
}
use opentogethertube_cn.Clients.Joins.Seats.{
  seated, IsSeated, IsRight, IsNowhere, seat-put, IsNowhere-of_phase, with_phase-IsRight,
}

pub add_client-IsRight :
    (id : ClientId) (room : String) (s : Connections)
    → get id s.clients ≡ none
    → IsRight s
    → IsRight (add_client id room s)
unfolding add_client
add_client-IsRight id room s fresh w = λ r m h. (
  has-append m id s.connections ∙ ap (λ (b : Bool). b || id == m) (w r m h).0,
  seat-put id m (record { room = room; phase = waiting_for_auth }) r s
      (λ x g. Option.none-ne-some (seated x) (sym fresh ∙ g)) (w r m h).1,
)

pub begin_join-IsRight : (id : ClientId) (s : Connections) → IsRight s → IsRight (begin_join id s)
unfolding begin_join
begin_join-IsRight id s w =
    option_both_eq IsRight (get id s.clients) s (λ client. begin_for id client client.phase s) w
      (λ client g. from client g client.phase refl)
  where
    from :
        (client : Client)
        → get id s.clients ≡ some client
        → (p : Phase) → client.phase ≡ p
        → IsRight (begin_for id client p s)
    from client g waiting_for_auth e =
        with_phase-IsRight id client finding_room s (IsNowhere-of_phase id client s g (λ h. cc)) w
    from client g finding_room e = w
    from client g (checking_access r) e = w
    from client g in_room e = w
    from client g turned_away e = w

pub room_found-IsRight :
    (id : ClientId) (name : Option String) (s : Connections)
    → IsRight s
    → IsRight (room_found id name s)
unfolding room_found
room_found-IsRight id name s w =
    option_both_eq IsRight (get id s.clients) s (λ client. found_for id client name client.phase s)
      w (λ client g. from client g client.phase refl)
  where
    moved :
        (client : Client)
        → get id s.clients ≡ some client
        → client.phase ≡ finding_room
        → (p : Phase) → IsRight (with_phase id client p s)
    moved client g e p =
        with_phase-IsRight id client p s (IsNowhere-of_phase id client s g (λ h. cc)) w

    answered :
        (client : Client)
        → get id s.clients ≡ some client
        → client.phase ≡ finding_room
        → (o : Option String)
        → IsRight (elim o as (λ (x : Option String). Connections) [
          | none ↦ with_phase id client turned_away s
          | some room ↦ with_phase id client (checking_access room) s
        ])
    answered client g e none = moved client g e turned_away
    answered client g e (some room) = moved client g e (checking_access room)

    from :
        (client : Client)
        → get id s.clients ≡ some client
        → (p : Phase) → client.phase ≡ p
        → IsRight (found_for id client name p s)
    from client g waiting_for_auth e = w
    from client g finding_room e =
        if_both IsRight (has id s.connections) _ _ (answered client g e name)
          (moved client g e turned_away)
    from client g (checking_access r) e = w
    from client g in_room e = w
    from client g turned_away e = w

-- Whoever was in the room before, and the client that comes in.
pub members-enter-cases :
    (id m : ClientId) (ids : List ClientId)
    → has m (ids ++ id ∷ []) ≡ true
    → (has m ids ≡ true) ⊎ (id ≡ m)
members-enter-cases id m ids h = elim (Bool-cases (id == m)) [
  | inl hit ↦ inr ((eq_iff id m).0 hit)
  | inr miss ↦ inl (ground (arith, has-append m id ids))
]

pub enter-IsRight :
    (id : ClientId) (room : String) (s : Connections)
    → has id s.connections ≡ true
    → IsNowhere id s
    → IsRight s
    → IsRight (enter id room s)
enter-IsRight id room s here n w = λ r m h. elim (Bool-cases (room == r)) [
  | inr other ↦
      let before =
        rw (get-put room r (get_clients_in_room room s ++ id ∷ []) s.room_joins, other) at h in
      moved r m (w r m before)
  | inl this ↦
      let e : room ≡ r = (eq_iff room r).0 this in
      let among =
        rw (get-put room r (get_clients_in_room room s ++ id ∷ []) s.room_joins, this) at h in
      subst (λ (x : String). IsSeated (enter id room s) x m) e (entered m among)
]
  where
    moved : (r : String) (m : ClientId) → IsSeated s r m → IsSeated (enter id room s) r m
    moved r m (c, g) = (c, seat-put id m (seated room) r s n g)

    entered :
        (m : ClientId)
        → has m (get_clients_in_room room s ++ id ∷ []) ≡ true
        → IsSeated (enter id room s) room m
    entered m h = elim (members-enter-cases id m (get_clients_in_room room s) h) [
      | inl before ↦ moved room m (w room m before)
      | inr same ↦
          subst (λ (x : ClientId). IsSeated (enter id room s) room x) same
            (
              here,
              get-put id id (seated room) s.clients
                  ∙ ap (λ (b : Bool). if b then some (seated room) else get id s.clients)
                      (eq_refl id),
            )
    ]

-- What is granted to a client that is still connected.
pub access_checked-IsRight :
    (id : ClientId) (granted : Bool) (s : Connections)
    → (granted ≡ true → has id s.connections ≡ true)
    → IsRight s
    → IsRight (access_checked id granted s)
unfolding access_checked
access_checked-IsRight id granted s here w =
    option_both_eq IsRight (get id s.clients) s
      (λ client. access_for id client granted client.phase s) w
      (λ client g. from client g client.phase refl)
  where
    from :
        (client : Client)
        → get id s.clients ≡ some client
        → (p : Phase) → client.phase ≡ p
        → IsRight (access_for id client granted p s)
    from client g waiting_for_auth e = w
    from client g finding_room e = w
    from client g (checking_access r) e =
        let nowhere = IsNowhere-of_phase id client s g (λ h. cc) in
        if_split IsRight granted (enter id r s) (with_phase id client turned_away s)
          (λ yes_granted. enter-IsRight id r s (here yes_granted) nowhere w)
          (λ _. with_phase-IsRight id client turned_away s nowhere w)
    from client g in_room e = w
    from client g turned_away e = w
