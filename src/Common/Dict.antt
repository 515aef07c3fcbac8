-- ===== src/Common/Dict.antt =====
-- JavaScript's `Map`: an association list in the order of insertion, over keys with a test.
use opentogethertube_cn.Common.Tests.{if◌then◌else◌, Bool-cases}
use opentogethertube_cn.Common.Int.{ℤ, eqb_ℤ}
use Prim.Native.String.{String}
use text.Mathlib.Text.{◌==◌}
use text.Mathlib.TextEquality.{eq_iff}
use mathlib.Core.Path.{◌≡◌, refl}
use mathlib.Core.Logic.{◌↔◌, ◌⊎◌, inl, inr}
use mathlib.Core.Bool.{Bool, true, false}
use mathlib.Core.Option.{Option, none, some}
use mathlib.Core.List.{List, [], ◌∷◌}
use native.Mathlib.Omega.{arith}

-- `===` on a type of keys.
pub record Eq {ℓ} (A : Type ℓ) : Type ℓ where
  pub same : A → A → Bool
  pub same_iff : (a b : A) → (same a b ≡ true) ↔ (a ≡ b)

instance abbrev pub string_eq : Eq String
string_eq = record { same = ◌==◌; same_iff = eq_iff }

pub eqb_ℤ_iff : (a b : ℤ) → (eqb_ℤ a b ≡ true) ↔ (a ≡ b)
eqb_ℤ_iff a b = ground arith

instance abbrev pub int_eq : Eq ℤ
int_eq = record { same = eqb_ℤ; same_iff = eqb_ℤ_iff }

module _ {ℓ} {K : Type ℓ} ⦃e : Eq K⦄ where
  pub same_refl : (k : K) → e.same k k ≡ true
  same_refl k = (e.same_iff k k).1 refl

module _ {ℓ κ} {K : Type ℓ} {V : Type κ} ⦃e : Eq K⦄ where
  -- `m.get(k)`
  unfoldable pub get : K → List (K × V) → Option V
  get k [] = none
  get k ((j, v) ∷ m) = if e.same j k then some v else get k m

  -- `m.set(k, v)`: a key that is there keeps its place.
  unfoldable pub put : K → V → List (K × V) → List (K × V)
  put k v [] = (k, v) ∷ []
  put k v ((j, w) ∷ m) = if e.same j k then (j, v) ∷ m else (j, w) ∷ put k v m

  -- `m.delete(k)`
  unfoldable pub remove : K → List (K × V) → List (K × V)
  remove k [] = []
  remove k ((j, w) ∷ m) = let rest = remove k m in if e.same j k then rest else (j, w) ∷ rest

  -- `new Map(entries)`
  unfoldable pub of_entries : List (K × V) → List (K × V) → List (K × V)
  of_entries [] m = m
  of_entries ((k, v) ∷ es) m = of_entries es (put k v m)

  -- `m.keys()`
  unfoldable pub keys : List (K × V) → List K
  keys [] = []
  keys ((k, v) ∷ m) = k ∷ keys m

  pub get-put :
      (k j : K) (v : V) (m : List (K × V))
      → get j (put k v m) ≡ (if e.same k j then some v else get j m)
  unfolding get put
  get-put k j v [] = refl
  get-put k j v ((i, w) ∷ m) = elim (Bool-cases (e.same i k)) [
    | inl hit ↦ let p : i ≡ k = (e.same_iff i k).0 hit in rw hit (rw p (ground arith))
    | inr miss ↦
        rw miss (ground (arith, get-put k j v m, e.same_iff i k, e.same_iff k j, e.same_iff i j))
  ]

  pub get-remove :
      (k j : K) (m : List (K × V)) → get j (remove k m) ≡ (if e.same k j then none else get j m)
  unfolding get remove
  get-remove k j [] = if_same (e.same k j)
    where
      if_same : (b : Bool) → ◌≡◌ {A = Option V} none (if b then none else none)
      if_same true = refl
      if_same false = refl
  get-remove k j ((i, w) ∷ m) = elim (Bool-cases (e.same i k)) [
    | inl hit ↦
        let p : i ≡ k = (e.same_iff i k).0 hit in rw hit (rw p (ground (arith, get-remove k j m)))
    | inr miss ↦
        rw miss (ground (arith, get-remove k j m, e.same_iff i k, e.same_iff k j, e.same_iff i j))
  ]

  -- What is found after a write was written, or was there.
  pub get-put-cases :
      (k j : K) (v w : V) (m : List (K × V))
      → get j (put k v m) ≡ some w
      → (v ≡ w) ⊎ (get j m ≡ some w)
  get-put-cases k j v w m h = elim (Bool-cases (e.same k j)) [
    | inl hit ↦ inl (written (rw (get-put k j v m, hit) at h))
    | inr miss ↦ inr (rw (get-put k j v m, miss) at h)
  ]
    where
      written : some v ≡ some w → v ≡ w
      written p = cc
