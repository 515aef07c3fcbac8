-- ===== src/Common/StringSet.antt =====
-- JavaScript's `Set` of strings: a list in the order of insertion, with no element twice.
use Prim.Native.String.{String}
use mathlib.Core.Path.{◌≡◌, refl}
use mathlib.Core.Bool.{Bool, true, false, not, ◌||◌, ◌&&◌}
use mathlib.Core.List.{List, [], ◌∷◌, ◌++◌}
use mathlib.Core.Logic.{inl, inr}
use native.Mathlib.Omega.{arith}
use text.Mathlib.Text.{◌==◌}
use text.Mathlib.TextEquality.{eq_iff}
use opentogethertube_cn.Common.Tests.{if◌then◌else◌, Bool-cases}

-- `s.has(a)`
unfoldable pub has : String → List String → Bool
has a [] = false
has a (x ∷ xs) = x == a || has a xs

-- `s.add(a)`
unfoldable pub add : String → List String → List String
unfolding has
add a xs = if has a xs then xs else xs ++ a ∷ []

-- `s.delete(a)`, which removes the one element that equals `a`.
unfoldable pub delete : String → List String → List String
delete a [] = []
delete a (x ∷ xs) = if x == a then delete a xs else x ∷ delete a xs

pub has-append : (a b : String) (xs : List String) → has a (xs ++ b ∷ []) ≡ (has a xs || b == a)
unfolding has
has-append a b [] = ground arith
has-append a b (x ∷ xs) = ground (arith, has-append a b xs)

pub has-add : (a b : String) (xs : List String) → has a (add b xs) ≡ (b == a || has a xs)
unfolding add
has-add a b xs = elim (Bool-cases (has b xs)) [
  | inl old ↦ rw old (seen (b == a) refl old)
  | inr new ↦ rw new (ground (arith, has-append a b xs))
]
  where
    seen : (c : Bool) → (b == a) ≡ c → has b xs ≡ true → has a xs ≡ (c || has a xs)
    seen true e old = let p : b ≡ a = (eq_iff b a).0 e in rw (← p) old
    seen false e old = refl

pub has-delete :
    (a b : String) (xs : List String) → has a (delete b xs) ≡ (not (b == a) && has a xs)
unfolding has delete
has-delete a b [] = ground arith
has-delete a b (x ∷ xs) = ground (arith, has-delete a b xs, eq_iff x a, eq_iff x b, eq_iff b a)
