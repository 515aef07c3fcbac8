-- ===== src/Common/Separated.antt =====
-- Texts that are put together with a separator between them.
use Prim.Native.Char.{Char, code}
use Prim.Native.String.{◌++◌ as joined}
use text.Mathlib.TextLemmas.{
  nil-append, cons-append, head-eq_of_cons-eq, tail-eq_of_cons-eq, append_cancel_left,
}
use opentogethertube_cn.Common.Tests.{eqb, &&-true}
use Prim.Native.String.{String}
use mathlib.Core.Path.{◌≡◌, refl, sym, ap, ◌∙◌}
use mathlib.Core.Logic.{◌≢◌}
use mathlib.Core.Bool.{Bool, true, not, ◌&&◌}
use native.Mathlib.Omega.{arith}

-- The text of one character.
abbrev pub single : Char → String
single z = String.◌∷◌ z ""

-- The character is not in the text.
unfoldable pub lacks : Char → String → Bool
lacks z String.[] = true
lacks z (String.◌∷◌ c s) = not (eqb (code c) (code z)) && lacks z s

joined-single : (z : Char) (x : String) → joined (single z) x ≡ String.◌∷◌ z x
joined-single z x = cons-append z "" x ∙ ap (String.◌∷◌ z) (nil-append x)

differs : (z d : Char) (t : String) → lacks z (String.◌∷◌ d t) ≡ true → z ≢ d
unfolding lacks
differs z d t q e = ground (arith, ap code e, q)

apart :
    (z : Char) (x t y : String) (d : Char)
    → lacks z (String.◌∷◌ d t) ≡ true
    → joined "" (joined (single z) x) ≢ joined (String.◌∷◌ d t) y
apart z x t y d q e = differs z d t q (
    head-eq_of_cons-eq
      (sym (joined-single z x) ∙ sym (nil-append (joined (single z) x)) ∙ e ∙ cons-append d t y))

-- A separator after texts without one marks where they end.
pub split_at :
    (z : Char) (a b x y : String)
    → lacks z a ≡ true
    → lacks z b ≡ true
    → joined a (joined (single z) x) ≡ joined b (joined (single z) y)
    → (a ≡ b) × (x ≡ y)
unfolding lacks
split_at z String.[] String.[] x y p q e = (
  refl,
  append_cancel_left (single z) x y
      (sym (nil-append (joined (single z) x)) ∙ e ∙ nil-append (joined (single z) y)),
)
split_at z String.[] (String.◌∷◌ d t) x y p q e = absurd (apart z x t (joined (single z) y) d q e)
split_at z (String.◌∷◌ c s) String.[] x y p q e =
    absurd (apart z y s (joined (single z) x) c p (sym e))
split_at z (String.◌∷◌ c s) (String.◌∷◌ d t) x y p q e =
    let h =
      sym (cons-append c s (joined (single z) x)) ∙ e ∙ cons-append d t (joined (single z) y) in
    let rest = split_at z s t x y (&&-true _ _ p).1 (&&-true _ _ q).1 (tail-eq_of_cons-eq h) in
    let first = head-eq_of_cons-eq h in ((λ i. String.◌∷◌ (first i) (rest.0 i)), rest.1)
