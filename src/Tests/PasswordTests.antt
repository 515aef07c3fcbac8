-- ===== src/Tests/PasswordTests.antt =====
-- server/room-password.ts: passwords on concrete rooms, and the theorems of Passwords applied to them.
use opentogethertube_cn.Common.{
  ℕ, ◌+◌, ◌*◌, ◌≤◌, ◌≡◌, ◌∙◌, refl, ap, String, Bool, true, false, Option, none, some, List, [],
  ◌∷◌, ◌==◌, ltb, if◌then◌else◌, Bool-cases, inl, inr, arith,
}
use opentogethertube_cn.Common.Dict.{get, put, get-put, string_eq}
use opentogethertube_cn.Passwords.{
  Redis, has_room_access, set_room_password, verify_room_password, consume_room_password_attempt,
  counted,
}
use opentogethertube_cn.Common.Separated.{lacks}
use opentogethertube_cn.Passwords.Keys.{no_colon}
use opentogethertube_cn.Passwords.Access.{
  Grant, AreGrants, after_grants, may_enter, has_room_access-eq-may_enter,
}
use opentogethertube_cn.Passwords.Slots.{
  HashSlots, SlotReach, start, enters, leaves, resumes, enter_slot, leave_slot, resume, no_hashes,
  IsBusy, SlotReach-IsBusy, active-bound, max_concurrent_password_hashes,
}
use opentogethertube_cn.Exceptions.{err, plain}
use opentogethertube_cn.Room.State.{Room, Time}
use opentogethertube_cn.Tests.Rooms.{playing_room}

-- Keys with the instants at which they go.
abbrev Store : Type 0
Store = List (String × ℕ)

abbrev still_there : Time → Option ℕ → Bool
still_there now none = false
still_there now (some end) = ltb now end

still_there_if :
    (now end : Time) (b : Bool) (o : Option ℕ)
    → still_there now (if b then some end else o) ≡ (if b then ltb now end else still_there now o)
still_there_if now end true o = refl
still_there_if now end false o = refl

abbrev simple_redis : Redis Store
simple_redis = record {
  set_ex = λ t key ttl s. put key (t + 1000 * ttl) s;
  exists = λ now key s. still_there now (get key s);
  exists-set_ex = λ t now key other ttl s before.
      ap (still_there now) (get-put key other (t + 1000 * ttl) s)
      ∙ still_there_if now (t + 1000 * ttl) (key == other) (get other s);
}

-- A digest that tells the hashes of the tests apart.
abbrev short_digest : String → String
short_digest hash = if hash == "old hash" then "0a" else "1b"

short_digest-no_colon : (hash : String) → no_colon (short_digest hash) ≡ true
unfolding lacks
short_digest-no_colon hash = elim (Bool-cases (hash == "old hash")) [
  | inl old ↦ rw old refl
  | inr other ↦ rw other refl
]

abbrev locked_room : Room
locked_room = record playing_room { password_hash = some "old hash" }

abbrev relocked_room : Room
relocked_room = record playing_room { password_hash = some "new hash" }

abbrev grants_of_ann : List Grant
grants_of_ann = record { room = locked_room; token = "token of ann"; at = 1000 } ∷ []

grants_of_ann-AreGrants : AreGrants 5000 grants_of_ann
unfolding lacks
grants_of_ann-AreGrants = (omega arith, refl, tt)

named : no_colon relocked_room.name ≡ true
unfolding lacks
named = refl

nothing_there : (key : String) → simple_redis.exists 5000 key [] ≡ false
unfolding get
nothing_there key = refl

-- Ann was let in under the old password, which the new one shuts out.
has_room_access-eq-may_enter_example :
    has_room_access simple_redis short_digest 5000 relocked_room
      (some "token of ann")
      none
      (after_grants simple_redis short_digest short_digest-no_colon grants_of_ann [])
    ≡ may_enter short_digest 5000 relocked_room (some "token of ann") none grants_of_ann
has_room_access-eq-may_enter_example =
    has_room_access-eq-may_enter simple_redis short_digest short_digest-no_colon 5000 relocked_room
      (some "token of ann") none grants_of_ann [] named grants_of_ann-AreGrants nothing_there

-- Two hashes run, and a third caller waits and is woken.
abbrev waiting : HashSlots
waiting = enter_slot 3 (enter_slot 2 (enter_slot 1 no_hashes))

waiting-SlotReach : SlotReach true waiting
unfolding enter_slot
waiting-SlotReach =
    enters 3 (enter_slot 2 (enter_slot 1 no_hashes)) (λ _. refl)
      (enters 2 (enter_slot 1 no_hashes) (λ _. refl) (enters 1 no_hashes (λ _. refl) start))

waiting_busy : waiting.active ≡ 2
unfolding enter_slot
waiting_busy = refl

woken-SlotReach : SlotReach true (resume (leave_slot waiting))
unfolding enter_slot
woken-SlotReach = resumes (leave_slot waiting) (leaves waiting (omega arith) waiting-SlotReach)

SlotReach-IsBusy_example : IsBusy (resume (leave_slot waiting))
SlotReach-IsBusy_example = SlotReach-IsBusy true (resume (leave_slot waiting)) woken-SlotReach

active-bound_example : (resume (leave_slot waiting)).active ≤ max_concurrent_password_hashes
active-bound_example = active-bound (resume (leave_slot waiting)) woken-SlotReach

wrong_password : verify_room_password (λ hash p. some (hash == p)) locked_room "guess" ≡ false
unfolding verify_room_password
wrong_password = refl

unsaved_password :
    set_room_password none false (record locked_room { is_temporary = false })
    ≡ err (plain "Failed to persist the password")
unfolding set_room_password
unsaved_password = refl

eleventh_attempt : consume_room_password_attempt true (counted 11 400) ≡ 1
unfolding consume_room_password_attempt
eleventh_attempt = refl
