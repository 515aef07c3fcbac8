-- ===== src/Common/Members.antt =====
-- Membership in the lists that filters, slices and searches give.
use Prim.Native.Nat.{ℕ, zero, suc}
use mathlib.Core.Path.{◌≡◌, ◌∙◌, refl, sym, ap}
use mathlib.Core.Logic.{◌⊎◌, inl, inr, ◌≢◌}
use mathlib.Core.Bool.{Bool, true, false, not}
use mathlib.Core.Option.{some}
use mathlib.Core.List.{Memᴰ, List, [], ◌∷◌}
use mathlib.Core.List.Memᴰ
use native.Mathlib.Omega.{arith}
use opentogethertube_cn.Common.Tests.{if◌then◌else◌, Bool-cases}
use opentogethertube_cn.Common.Lists.{take, drop, select, find, any}

module _ {ℓ} {A : Type ℓ} where
  pub mem_of_select :
      (p : A → Bool) (xs : List A) {x : A} → Memᴰ x (select p xs) → Memᴰ x xs × (p x ≡ true)
  mem_of_select p [] m = elim m [ ]
  mem_of_select p (y ∷ ys) {x} m = elim (Bool-cases (p y)) [
    | inl yes_p ↦ elim (Memᴰ.cases_cons (rw yes_p at m)) [
      | inl e ↦ (Memᴰ.head e, rw e yes_p)
      | inr t ↦ let (u, h) = mem_of_select p ys t in (Memᴰ.tail u, h)
    ]
    | inr no_p ↦ let (u, h) = mem_of_select p ys (rw no_p at m) in (Memᴰ.tail u, h)
  ]

  pub mem-select :
      (p : A → Bool) (xs : List A) {x : A} → Memᴰ x xs → p x ≡ true → Memᴰ x (select p xs)
  mem-select p [] m h = elim m [ ]
  mem-select p (y ∷ ys) {x} (Memᴰ.head e) h =
      let there : p y ≡ true = rw (← e) h in rw there (Memᴰ.head e)
  mem-select p (y ∷ ys) {x} (Memᴰ.tail t) h = if_both' (p y) (mem-select p ys t h)
    where
      if_both' :
          (b : Bool) → Memᴰ x (select p ys) → Memᴰ x (if b then y ∷ select p ys else select p ys)
      if_both' true s = Memᴰ.tail s
      if_both' false s = s

  pub mem_of_take : (n : ℕ) (xs : List A) {x : A} → Memᴰ x (take n xs) → Memᴰ x xs
  mem_of_take zero xs m = elim m [ ]
  mem_of_take (suc n) [] m = m
  mem_of_take (suc n) (y ∷ ys) (Memᴰ.head e) = Memᴰ.head e
  mem_of_take (suc n) (y ∷ ys) (Memᴰ.tail t) = Memᴰ.tail (mem_of_take n ys t)

  pub mem_of_drop : (n : ℕ) (xs : List A) {x : A} → Memᴰ x (drop n xs) → Memᴰ x xs
  mem_of_drop zero xs m = m
  mem_of_drop (suc n) [] m = m
  mem_of_drop (suc n) (y ∷ ys) m = Memᴰ.tail (mem_of_drop n ys m)

  -- What is in a list is before or behind a place.
  pub mem-take-drop :
      (n : ℕ) (xs : List A) {x : A} → Memᴰ x xs → Memᴰ x (drop n xs) ⊎ Memᴰ x (take n xs)
  mem-take-drop zero xs m = inl m
  mem-take-drop (suc n) [] m = inl m
  mem-take-drop (suc n) (y ∷ ys) (Memᴰ.head e) = inr (Memᴰ.head e)
  mem-take-drop (suc n) (y ∷ ys) (Memᴰ.tail t) = elim (mem-take-drop n ys t) [
    | inl d ↦ inl d
    | inr u ↦ inr (Memᴰ.tail u)
  ]

  -- A filter and its complement keep everything.
  pub mem-split :
      (p : A → Bool) (xs : List A) {x : A}
      → Memᴰ x xs
      → Memᴰ x (select p xs) ⊎ Memᴰ x (select (λ y. not (p y)) xs)
  mem-split p xs {x} m = elim (Bool-cases (p x)) [
    | inl h ↦ inl (mem-select p xs m h)
    | inr h ↦ inr (mem-select (λ y. not (p y)) xs m (ap not h))
  ]

  pub mem_of_find :
      (p : A → Bool) (xs : List A) {x : A} → find p xs ≡ some x → Memᴰ x xs × (p x ≡ true)
  mem_of_find p [] h = cc
  mem_of_find p (y ∷ ys) {x} h = elim (Bool-cases (p y)) [
    | inl hit ↦ let e : x ≡ y = cc (rw hit at h) in (Memᴰ.head e, rw e hit)
    | inr miss ↦ let (u, g) = mem_of_find p ys (rw miss at h) in (Memᴰ.tail u, g)
  ]

  pub any_of_mem : (p : A → Bool) (xs : List A) (x : A) → Memᴰ x xs → p x ≡ true → any p xs ≡ true
  any_of_mem p [] x m h = elim m [ ]
  any_of_mem p (y ∷ ys) x (Memᴰ.head e) h = let there : p y ≡ true = rw (← e) h in ground arith
  any_of_mem p (y ∷ ys) x (Memᴰ.tail t) h = ground (arith, any_of_mem p ys x t h)

-- Elements that differ in a key.
module _ {ℓ κ} {A : Type ℓ} {K : Type κ} (key : A → K) where
  abbrev pub NoneHas : K → List A → Type κ
  NoneHas k [] = Unit
  NoneHas k (x ∷ xs) = (key x ≢ k) × NoneHas k xs

  abbrev pub HasDistinct : List A → Type κ
  HasDistinct [] = Unit
  HasDistinct (x ∷ xs) = NoneHas (key x) xs × HasDistinct xs

  none_has : (k : K) (xs : List A) {x : A} → NoneHas k xs → Memᴰ x xs → key x ≢ k
  none_has k [] h m = elim m [ ]
  none_has k (y ∷ ys) h (Memᴰ.head e) = rw e h.0
  none_has k (y ∷ ys) h (Memᴰ.tail t) = none_has k ys h.1 t

  pub distinct_eq :
      (xs : List A) {x y : A} → HasDistinct xs → Memᴰ x xs → Memᴰ y xs → key x ≡ key y → x ≡ y
  distinct_eq [] h m n e = elim m [ ]
  distinct_eq (z ∷ zs) h (Memᴰ.head p) (Memᴰ.head q) e = p ∙ sym q
  distinct_eq (z ∷ zs) {x} {y} h (Memᴰ.head p) (Memᴰ.tail q) e =
      absurd (none_has (key z) zs h.0 q (sym e ∙ ap key p))
  distinct_eq (z ∷ zs) {x} {y} h (Memᴰ.tail p) (Memᴰ.head q) e =
      absurd (none_has (key z) zs h.0 p (e ∙ ap key q))
  distinct_eq (z ∷ zs) h (Memᴰ.tail p) (Memᴰ.tail q) e = distinct_eq zs h.1 p q e

module _ {ℓ} {A : Type ℓ} where
  pub find_of_mem :
      (p : A → Bool) (xs : List A) {x : A} → Memᴰ x xs → p x ≡ true → (y : A) × (find p xs ≡ some y)
  find_of_mem p [] m h = elim m [ ]
  find_of_mem p (y ∷ ys) (Memᴰ.head e) h = let there : p y ≡ true = rw (← e) h in (y, rw there)
  find_of_mem p (y ∷ ys) (Memᴰ.tail t) h = elim (Bool-cases (p y)) [
    | inl hit ↦ (y, rw hit)
    | inr miss ↦ let (z, g) = find_of_mem p ys t h in (z, rw miss g)
  ]

  -- An element that is there under a test.
  pub mem_of_if :
      (b : Bool) (x : A) (xs : List A) {z : A}
      → Memᴰ z (if b then x ∷ xs else xs)
      → ((z ≡ x) × (b ≡ true)) ⊎ Memᴰ z xs
  mem_of_if true x xs m = elim (Memᴰ.cases_cons m) [ inl e ↦ inl (e, refl) | inr t ↦ inr t ]
  mem_of_if false x xs m = inr m

  pub mem-if : (b : Bool) (x : A) (xs : List A) → b ≡ true → Memᴰ x (if b then x ∷ xs else xs)
  mem-if true x xs h = Memᴰ.head refl
  mem-if false x xs h = cc
