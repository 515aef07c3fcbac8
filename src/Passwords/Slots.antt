-- ===== src/Passwords/Slots.antt =====
-- server/room-password.ts: `withPasswordHashSlot`, in the steps between which other callers run.
use mathlib.Core.List
use opentogethertube_cn.Common.{
  ℕ, suc, ◌+◌, ◌-◌, ◌≤◌, ◌<◌, ◌≡◌, refl, ap, sym, ◌∙◌, List, [], ◌∷◌, ◌++◌, ◌⊎◌, inl, inr, Bool,
  true, leb, length, length-append, if◌then◌else◌, arith, Bool-cases,
}

abbrev pub max_concurrent_password_hashes : ℕ
max_concurrent_password_hashes = 2

-- `activePasswordHashes`, `passwordHashWaiters`, and the callers whose wait is over and who have not gone
-- on yet.
pub record HashSlots : Type 0 where
  pub active : ℕ
  pub waiters : List ℕ
  pub woken : List ℕ

abbrev pub no_hashes : HashSlots
no_hashes = record { active = 0; waiters = []; woken = [] }

-- A call up to its first wait: for a slot, or for the hash.
unfoldable pub enter_slot : ℕ → HashSlots → HashSlots
enter_slot id s =
    if leb max_concurrent_password_hashes s.active
    then record s { waiters = s.waiters ++ id ∷ [] }
    else record s { active = suc s.active }

-- A woken caller goes on.
abbrev pub go_on : List ℕ → HashSlots → HashSlots
go_on [] s = s
go_on (id ∷ ids) s = record s { active = suc s.active; woken = ids }

unfoldable pub resume : HashSlots → HashSlots
resume s = go_on s.woken s

abbrev pub wake : List ℕ → HashSlots → HashSlots
wake [] s = s
wake (id ∷ ids) s = record s { waiters = ids; woken = s.woken ++ id ∷ [] }

-- The `finally` of a call whose hash is done, or has failed.
unfoldable pub leave_slot : HashSlots → HashSlots
leave_slot s = wake s.waiters (record s { active = s.active - 1 })

-- What calls lead to. In a calm run nobody enters before the woken callers have gone on.
pub data SlotReach (calm : Bool) : HashSlots → Type 0 where
  start : SlotReach calm no_hashes
  enters :
      (id : ℕ) (s : HashSlots)
      → (calm ≡ true → s.woken ≡ [])
      → SlotReach calm s
      → SlotReach calm (enter_slot id s)
  resumes : (s : HashSlots) → SlotReach calm s → SlotReach calm (resume s)
  leaves : (s : HashSlots) → 0 < s.active → SlotReach calm s → SlotReach calm (leave_slot s)

-- Nobody waits, or both slots are taken or about to be.
abbrev pub IsBusy : HashSlots → Type 0
IsBusy s = (s.waiters ≡ []) ⊎ (max_concurrent_password_hashes ≤ s.active + length s.woken)

enter_slot-IsBusy : (id : ℕ) (s : HashSlots) → IsBusy s → IsBusy (enter_slot id s)
unfolding enter_slot
enter_slot-IsBusy id s b = elim (Bool-cases (leb max_concurrent_password_hashes s.active)) [
  | inl full ↦ rw full (inr (ground arith))
  | inr free ↦ rw free (elim b [ inl e ↦ inl e | inr h ↦ inr (omega arith) ])
]

-- The callers that have a slot, or have been told that they get one.
abbrev taken : HashSlots → ℕ
taken s = s.active + length s.woken

taken-go_on : (ids : List ℕ) (s : HashSlots) → s.woken ≡ ids → taken (go_on ids s) ≡ taken s
taken-go_on [] s e = refl
taken-go_on (id ∷ ids) s e = omega (arith, ap length e)

waiters-go_on : (ids : List ℕ) (s : HashSlots) → (go_on ids s).waiters ≡ s.waiters
waiters-go_on [] s = refl
waiters-go_on (id ∷ ids) s = refl

resume-IsBusy : (s : HashSlots) → IsBusy s → IsBusy (resume s)
unfolding resume
resume-IsBusy s (inl w) = inl (waiters-go_on s.woken s ∙ w)
resume-IsBusy s (inr h) = inr (omega (arith, h, taken-go_on s.woken s refl))

-- A slot that is given up goes to the first who waits.
taken-wake :
    (id : ℕ) (ids : List ℕ) (s : HashSlots)
    → 0 < s.active
    → taken (wake (id ∷ ids) (record s { active = s.active - 1 })) ≡ taken s
taken-wake id ids s p = omega (arith, p, length-append s.woken (id ∷ []))

leave_by :
    (ids : List ℕ) (s : HashSlots)
    → 0 < s.active
    → s.waiters ≡ ids
    → IsBusy s
    → IsBusy (wake ids (record s { active = s.active - 1 }))
leave_by [] s p e b = inl e
leave_by (id ∷ ids) s p e (inl w) = absurd (List.cons-ne-nil id ids (sym e ∙ w))
leave_by (id ∷ ids) s p e (inr h) = inr (omega (arith, h, taken-wake id ids s p))

-- No wake-up is lost: after any calls, in any order, nobody waits for a slot, or every slot is taken or
-- promised to a caller who has been woken.
pub SlotReach-IsBusy : (calm : Bool) (s : HashSlots) → SlotReach calm s → IsBusy s
unfolding leave_slot
SlotReach-IsBusy calm s start = inl refl
SlotReach-IsBusy calm s (enters id t c r) = enter_slot-IsBusy id t (SlotReach-IsBusy calm t r)
SlotReach-IsBusy calm s (resumes t r) = resume-IsBusy t (SlotReach-IsBusy calm t r)
SlotReach-IsBusy calm s (leaves t p r) = leave_by t.waiters t p refl (SlotReach-IsBusy calm t r)

taken-wake-bound :
    (ids : List ℕ) (s : HashSlots)
    → 0 < s.active
    → taken (wake ids (record s { active = s.active - 1 })) ≤ taken s
taken-wake-bound [] s p = omega arith
taken-wake-bound (id ∷ ids) s p = omega (arith, taken-wake id ids s p)

enter_slot-bound :
    (id : ℕ) (s : HashSlots)
    → s.woken ≡ []
    → taken s ≤ max_concurrent_password_hashes
    → taken (enter_slot id s) ≤ max_concurrent_password_hashes
unfolding enter_slot
enter_slot-bound id s e h = elim (Bool-cases (leb max_concurrent_password_hashes s.active)) [
  | inl full ↦ rw full h
  | inr free ↦ rw free (ground (arith, ap length e, free))
]

taken-bound : (s : HashSlots) → SlotReach true s → taken s ≤ max_concurrent_password_hashes
unfolding resume leave_slot
taken-bound s start = omega arith
taken-bound s (enters id t c r) = enter_slot-bound id t (c refl) (taken-bound t r)
taken-bound s (resumes t r) = omega (arith, taken-bound t r, taken-go_on t.woken t refl)
taken-bound s (leaves t p r) = omega (arith, taken-bound t r, taken-wake-bound t.waiters t p)

-- Where woken callers go on before anyone else enters, at most two hashes are computed at once.
pub active-bound : (s : HashSlots) → SlotReach true s → s.active ≤ max_concurrent_password_hashes
active-bound s r = omega (arith, taken-bound s r)
