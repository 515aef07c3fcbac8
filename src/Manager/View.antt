-- ===== src/Manager/View.antt =====
-- server/roommanager.ts: the loaded rooms as a map by name, and what the operations do to it.
use opentogethertube_cn.Common.{
  ℕ, suc, ◌<◌, ◌≡◌, ◌≢◌, ◌∙◌, refl, sym, ap, String, Bool, true, false, none, some, List, [], ◌∷◌,
  ◌++◌, find, eqb, eqb_iff, if◌then◌else◌, arith, Bool-cases, if_split, inl, inr,
}
use mathlib.Core.Bool.{true≢false}
use mathlib.Core.Option
use opentogethertube_cn.Manager.Names.{same_name, same_name_iff}
use opentogethertube_cn.Manager.{LoadedRoom, is_named, find_room, remove_object}

same_sym : (a b : String) → same_name a b ≡ true → same_name b a ≡ true
same_sym a b h = (same_name_iff b a).1 (sym ((same_name_iff a b).0 h))

same_trans : (a b c : String) → same_name a b ≡ true → same_name b c ≡ true → same_name a c ≡ true
same_trans a b c h k = (same_name_iff a c).1 ((same_name_iff a b).0 h ∙ (same_name_iff b c).0 k)

pub same_self : (a : String) → same_name a a ≡ true
same_self a = (same_name_iff a a).1 refl

-- Names that are the same name the same rooms.
named_alike : (a b : String) (l : LoadedRoom) → same_name a b ≡ true → is_named a l ≡ is_named b l
named_alike a b l h = elim (Bool-cases (is_named a l)) [
  | inl p ↦ p ∙ sym (same_trans l.room.name a b p h)
  | inr p ↦ elim (Bool-cases (is_named b l)) [
    | inl q ↦ absurd (true≢false (sym (same_trans l.room.name b a q (same_sym a b h)) ∙ p))
    | inr q ↦ p ∙ sym q
  ]
]

pub find_room-same :
    (a b : String) (ls : List LoadedRoom) → same_name a b ≡ true → find_room a ls ≡ find_room b ls
unfolding find_room
find_room-same a b [] h = refl
find_room-same a b (l ∷ ls) h = rw (named_alike a b l h, find_room-same a b ls h) refl

pub find_room-append :
    (name : String) (ls : List LoadedRoom) (l : LoadedRoom)
    → find_room l.room.name ls ≡ none
    → find_room name (ls ++ l ∷ [])
      ≡ (if same_name l.room.name name then some l else find_room name ls)
unfolding find_room
find_room-append name [] l h = refl
find_room-append name (x ∷ xs) l h = elim (Bool-cases (is_named l.room.name x)) [
  | inl hit ↦ absurd (Option.none-ne-some x (sym (rw hit at h)))
  | inr miss ↦ elim (Bool-cases (is_named name x)) [
    | inr other ↦ rw other (find_room-append name xs l (rw miss at h))
    | inl here ↦ elim (Bool-cases (same_name l.room.name name)) [
      | inr apart ↦ rw (here, apart) refl
      | inl same ↦ absurd (
          true≢false (
            sym (same_trans x.room.name name l.room.name here (same_sym l.room.name name same))
            ∙ miss))
    ]
  ]
]

-- No two rooms have one name or one identity, and no identity is used up to `next`.
abbrev pub Unlike : LoadedRoom → List LoadedRoom → Type 0
Unlike l [] = Unit
Unlike l (x ∷ xs) = (x.id ≢ l.id) × Unlike l xs

abbrev pub Below : ℕ → List LoadedRoom → Type 0
Below next [] = Unit
Below next (x ∷ xs) = (x.id < next) × Below next xs

abbrev pub AreDistinct : List LoadedRoom → Type 0
AreDistinct [] = Unit
AreDistinct (x ∷ xs) = (find_room x.room.name xs ≡ none) × Unlike x xs × AreDistinct xs

pub Below-append :
    (next : ℕ) (ls : List LoadedRoom) (l : LoadedRoom)
    → l.id ≡ next
    → Below next ls
    → Below (suc next) (ls ++ l ∷ [])
Below-append next [] l e b = (omega arith, tt)
Below-append next (x ∷ xs) l e b = (omega (arith, b.0), Below-append next xs l e b.1)

pub Below-remove :
    (next id : ℕ) (ls : List LoadedRoom) → Below next ls → Below next (remove_object id ls)
unfolding remove_object
Below-remove next id [] b = tt
Below-remove next id (x ∷ xs) b =
    if_split (Below next) (eqb x.id id) xs (x ∷ remove_object id xs) (λ _. b.1)
      (λ _. (b.0, Below-remove next id xs b.1))

Unlike-append :
    (x l : LoadedRoom) (xs : List LoadedRoom) → l.id ≢ x.id → Unlike x xs → Unlike x (xs ++ l ∷ [])
Unlike-append x l [] n u = (n, tt)
Unlike-append x l (y ∷ ys) n u = (u.0, Unlike-append x l ys n u.1)

pub AreDistinct-append :
    (next : ℕ) (ls : List LoadedRoom) (l : LoadedRoom)
    → l.id ≡ next
    → Below next ls
    → find_room l.room.name ls ≡ none
    → AreDistinct ls
    → AreDistinct (ls ++ l ∷ [])
unfolding find_room
AreDistinct-append next [] l e b f d = (refl, tt, tt)
AreDistinct-append next (x ∷ xs) l e b f d = elim (Bool-cases (is_named l.room.name x)) [
  | inl hit ↦ absurd (Option.none-ne-some x (sym (rw hit at f)))
  | inr miss ↦
      let later = rw miss at f in
      (
        find_room-append x.room.name xs l later
            ∙ ap (λ (b : Bool). if b then some l else find_room x.room.name xs)
                (apart (same_name l.room.name x.room.name) refl miss)
            ∙ d.0,
        Unlike-append x l xs (λ p. ground (arith, b.0, e, p)) d.1,
        AreDistinct-append next xs l e b.1 later d.2,
      )
]
  where
    apart :
        (c : Bool)
        → same_name l.room.name x.room.name ≡ c
        → same_name x.room.name l.room.name ≡ false
        → same_name l.room.name x.room.name ≡ false
    apart true h miss = absurd (true≢false (sym (same_sym l.room.name x.room.name h) ∙ miss))
    apart false h miss = h

Unlike-remove :
    (x : LoadedRoom) (id : ℕ) (ls : List LoadedRoom) → Unlike x ls → Unlike x (remove_object id ls)
unfolding remove_object
Unlike-remove x id [] u = tt
Unlike-remove x id (y ∷ ys) u =
    if_split (Unlike x) (eqb y.id id) ys (y ∷ remove_object id ys) (λ _. u.1)
      (λ _. (u.0, Unlike-remove x id ys u.1))

-- What is not there is not there after a removal.
find_room-remove_none :
    (name : String) (id : ℕ) (ls : List LoadedRoom)
    → find_room name ls ≡ none
    → find_room name (remove_object id ls) ≡ none
unfolding find_room remove_object
find_room-remove_none name id [] f = refl
find_room-remove_none name id (x ∷ xs) f = elim (Bool-cases (is_named name x)) [
  | inl hit ↦ absurd (Option.none-ne-some x (sym (rw hit at f)))
  | inr miss ↦
      let later = rw miss at f in
      if_split (λ (r : List LoadedRoom). find (is_named name) r ≡ none) (eqb x.id id) xs
        (x ∷ remove_object id xs) (λ _. later)
        (λ _. rw miss (find_room-remove_none name id xs later))
]

pub AreDistinct-remove :
    (id : ℕ) (ls : List LoadedRoom) → AreDistinct ls → AreDistinct (remove_object id ls)
unfolding remove_object
AreDistinct-remove id [] d = tt
AreDistinct-remove id (x ∷ xs) d =
    if_split AreDistinct (eqb x.id id) xs (x ∷ remove_object id xs) (λ _. d.2)
      (λ _. (
        find_room-remove_none x.room.name id xs d.0,
        Unlike-remove x id xs d.1,
        AreDistinct-remove id xs d.2,
      ))

eqb_other : (a b : ℕ) → b ≢ a → eqb a b ≡ false
eqb_other a b n = ground (arith, n)

found-id :
    (name : String) (ls : List LoadedRoom) (l x : LoadedRoom)
    → Unlike l ls
    → find_room name ls ≡ some x
    → x.id ≢ l.id
unfolding find_room
found-id name [] l x u f = absurd (Option.none-ne-some x f)
found-id name (y ∷ ys) l x u f = elim (Bool-cases (is_named name y)) [
  | inl hit ↦ let e : some y ≡ some x = rw hit at f in let same : y ≡ x = cc in rw (← same) u.0
  | inr miss ↦ found-id name ys l x u.1 (rw miss at f)
]

-- Unloading a name takes that name off, and no other.
pub find_room-remove :
    (name k : String) (ls : List LoadedRoom) (x : LoadedRoom)
    → AreDistinct ls
    → find_room name ls ≡ some x
    → find_room k (remove_object x.id ls) ≡ (if same_name name k then none else find_room k ls)
unfolding find_room remove_object
find_room-remove name k [] x d f = absurd (Option.none-ne-some x f)
find_room-remove name k (y ∷ ys) x d f = elim (Bool-cases (is_named name y)) [
  | inl hit ↦
      let e : some y ≡ some x = rw hit at f in
      let same : y ≡ x = cc in
      let id : eqb y.id x.id ≡ true = (eqb_iff y.id x.id).1 (ap (λ (l : LoadedRoom). l.id) same) in
      rw id (first (same_name name k) refl hit)
  | inr miss ↦
      let later = rw miss at f in
      let other = eqb_other y.id x.id (found-id name ys y x d.1 later) in
      rw other (
        rest (same_name name k) (is_named k y) refl refl miss
          (find_room-remove name k ys x d.2 later))
]
  where
    first :
        (b : Bool)
        → same_name name k ≡ b
        → is_named name y ≡ true
        → find (is_named k) ys ≡ (if b then none else find (is_named k) (y ∷ ys))
    first true h hit =
        sym (find_room-same y.room.name k ys (same_trans y.room.name name k hit h)) ∙ d.0
    first false h hit = elim (Bool-cases (is_named k y)) [
      | inr n ↦ rw n refl
      | inl p ↦
          absurd
            (true≢false (sym (same_trans name y.room.name k (same_sym y.room.name name hit) p) ∙ h))
    ]

    rest :
        (b c : Bool)
        → same_name name k ≡ b
        → is_named k y ≡ c
        → is_named name y ≡ false
        → find (is_named k) (remove_object x.id ys) ≡ (if b then none else find (is_named k) ys)
        → find (is_named k) (y ∷ remove_object x.id ys)
          ≡ (if b then none else find (is_named k) (y ∷ ys))
    rest true true h p miss ih =
        absurd (true≢false (sym (same_trans y.room.name k name p (same_sym name k h)) ∙ miss))
    rest true false h p miss ih = rw p ih
    rest false true h p miss ih = rw p refl
    rest false false h p miss ih = rw p ih
