-- ===== src/Clients/Joins/Leaving.antt =====
-- server/clientmanager.ts: a client that goes and a room that is unloaded keep the lists right.
use opentogethertube_cn.Common.{
  String, Bool, true, false, not, Option, none, some, List, [], ◌==◌, ◌&&◌, ◌≡◌, ◌∙◌, ap, refl, sym,
  subst, if◌then◌else◌, if_both, option_both_eq, or_else, eq_refl, eq_iff, Bool-cases, inl, inr,
}
use mathlib.Core.Bool.{true≢false}
use opentogethertube_cn.Common.Dict.{get, put, string_eq, get-put, get-remove}
use opentogethertube_cn.Common.StringSet.{has, delete, has-delete}
use opentogethertube_cn.Room.State.{ClientId}
use opentogethertube_cn.Clients.Joins.{
  Client, Connections, get_clients_in_room, leave_list, disconnect_of, on_client_disconnect,
  on_room_unload,
}
use opentogethertube_cn.Clients.Joins.Seats.{seated, IsSeated, IsRight}

pub not_and : (a b : Bool) → (not a && b) ≡ true → (a ≡ false) × (b ≡ true)
not_and true b h = cc
not_and false b h = (refl, h)

pub nobody_in : (id : ClientId) → has id [] ≡ true → ⊥
unfolding has
nobody_in id h = cc

-- The list of the room that a client leaves is without it, the others are as they were.
pub members-leave_list :
    (id : ClientId) (room r : String) (joins : List (String × List ClientId))
    → or_else (get r (leave_list id room joins)) []
      ≡ (if room == r then delete id (or_else (get r joins) []) else or_else (get r joins) [])
unfolding delete
members-leave_list id room r joins = elim (Bool-cases (room == r)) [
  | inl this ↦
      let e : room ≡ r = (eq_iff room r).0 this in
      rw this (
        subst
          (λ (x : String).
            or_else (get x (leave_list id room joins)) [] ≡ delete id (or_else (get x joins) []))
          e (own (get room joins) refl))
  | inr other ↦ rw other (others (get room joins) other)
]
  where
    own :
        (o : Option (List ClientId))
        → get room joins ≡ o
        → or_else
            (get room (elim o as (λ (x : Option (List ClientId)). List (String × List ClientId)) [
              | none ↦ joins
              | some ids ↦ put room (delete id ids) joins
            ]))
            []
          ≡ delete id (or_else o [])
    own none e = ap (λ (x : Option (List ClientId)). or_else x []) e
    own (some ids) e =
        ap (λ (x : Option (List ClientId)). or_else x [])
          (get-put room room (delete id ids) joins
            ∙ ap (λ (b : Bool). if b then some (delete id ids) else get room joins) (eq_refl room))

    others :
        (o : Option (List ClientId))
        → (room == r) ≡ false
        → or_else
            (get r (elim o as (λ (x : Option (List ClientId)). List (String × List ClientId)) [
              | none ↦ joins
              | some ids ↦ put room (delete id ids) joins
            ]))
            []
          ≡ or_else (get r joins) []
    others none miss = refl
    others (some ids) miss =
        ap (λ (x : Option (List ClientId)). or_else x [])
          (get-put room r (delete id ids) joins
            ∙ ap (λ (b : Bool). if b then some (delete id ids) else get r joins) miss)

pub disconnect_of-IsRight :
    (id : ClientId) (client : Client) (s : Connections)
    → get id s.clients ≡ some client
    → IsRight s
    → IsRight (disconnect_of id client s)
disconnect_of-IsRight id client s g w = λ r m h. elim (Bool-cases (client.room == r)) [
  | inl this ↦
      let e : client.room ≡ r = (eq_iff client.room r).0 this in
      let (other, before) = dropped r m this h in kept r m other (w r m before)
  | inr elsewhere ↦
      kept r m (stays r m elsewhere (w r m (same_list r m elsewhere h)))
        (w r m (same_list r m elsewhere h))
]
  where
    kept :
        (r : String) (m : ClientId)
        → (id == m) ≡ false
        → IsSeated s r m
        → IsSeated (disconnect_of id client s) r m
    kept r m other (c, h) = (
      has-delete m id s.connections ∙ ap (λ (b : Bool). not b && has m s.connections) other ∙ c,
      h,
    )

    same_list :
        (r : String) (m : ClientId)
        → (client.room == r) ≡ false
        → has m (get_clients_in_room r (disconnect_of id client s)) ≡ true
        → has m (get_clients_in_room r s) ≡ true
    same_list r m miss h = rw (members-leave_list id client.room r s.room_joins, miss) at h

    stays :
        (r : String) (m : ClientId)
        → (client.room == r) ≡ false
        → IsSeated s r m
        → (id == m) ≡ false
    stays r m miss (c, h) = elim (Bool-cases (id == m)) [
      | inr other ↦ other
      | inl hit ↦
          let e : id ≡ m = (eq_iff id m).0 hit in
          let same : some client ≡ some (seated r) =
            sym g ∙ ap (λ (x : ClientId). get x s.clients) e ∙ h in
          let room : client.room ≡ r =
            ap (λ (x : Client). x.room) (let c : client ≡ seated r = cc in c) in
          absurd (true≢false (sym ((eq_iff client.room r).1 room) ∙ miss))
    ]

    dropped :
        (r : String) (m : ClientId)
        → (client.room == r) ≡ true
        → has m (get_clients_in_room r (disconnect_of id client s)) ≡ true
        → ((id == m) ≡ false) × (has m (get_clients_in_room r s) ≡ true)
    dropped r m hit h =
        let left =
          rw
            (
              members-leave_list id client.room r s.room_joins,
              hit,
              has-delete m id (get_clients_in_room r s),
            )
            at h in
        not_and (id == m) (has m (get_clients_in_room r s)) left

pub on_client_disconnect-IsRight :
    (id : ClientId) (s : Connections) → IsRight s → IsRight (on_client_disconnect id s)
unfolding on_client_disconnect
on_client_disconnect-IsRight id s w =
    if_both IsRight (has id s.connections) _ s
      (option_both_eq IsRight (get id s.clients) s (λ client. disconnect_of id client s) w
        (λ client g. disconnect_of-IsRight id client s g w))
      w

pub on_room_unload-IsRight :
    (room : String) (s : Connections) → IsRight s → IsRight (on_room_unload room s)
unfolding on_room_unload
on_room_unload-IsRight room s w = λ r m h. w r m (before r m h)
  where
    empty :
        (b : Bool) (o : Option (List ClientId)) (m : ClientId)
        → has m (or_else (if b then none else o) []) ≡ true
        → has m (or_else o []) ≡ true
    empty true o m h = absurd (nobody_in m h)
    empty false o m h = h

    before :
        (r : String) (m : ClientId)
        → has m (get_clients_in_room r (on_room_unload room s)) ≡ true
        → has m (get_clients_in_room r s) ≡ true
    before r m h = empty (room == r) (get r s.room_joins) m (
        sym (
          ap (λ (o : Option (List ClientId)). has m (or_else o []))
            (get-remove room r s.room_joins))
        ∙ h)
