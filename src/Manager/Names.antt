-- ===== src/Manager/Names.antt =====
-- server/roommanager.ts: names compared without regard to case. Names are ASCII (ROOM_NAME_REGEX).
use Prim.Native.Char.{code}
use Prim.Native.Nat.{ℕ, ◌+◌}
use opentogethertube_cn.Common.{
  String, Bool, true, false, List, [], ◌∷◌, ◌≡◌, ◌↔◌, refl, ◌&&◌, if◌then◌else◌, leb, eqb, arith,
}

-- `toLowerCase`, of the code of a character.
abbrev lower_code : ℕ → ℕ
lower_code c = if leb 65 c && leb c 90 then c + 32 else c

unfoldable pub lower : String → List ℕ
lower String.[] = []
lower (String.◌∷◌ c s) = lower_code (code c) ∷ lower s

unfoldable pub same_codes : List ℕ → List ℕ → Bool
same_codes [] [] = true
same_codes (x ∷ xs) (y ∷ ys) = eqb x y && same_codes xs ys
same_codes _ ys = false

unfoldable pub same_name : String → String → Bool
unfolding same_codes lower
same_name a b = same_codes (lower a) (lower b)

same_codes_iff : (xs ys : List ℕ) → (same_codes xs ys ≡ true) ↔ (xs ≡ ys)
unfolding same_codes
same_codes_iff [] [] = ((λ h. refl), (λ h. refl))
same_codes_iff [] (y ∷ ys) = ((λ h. cc), (λ h. cc))
same_codes_iff (x ∷ xs) [] = ((λ h. cc), (λ h. cc))
same_codes_iff (x ∷ xs) (y ∷ ys) =
    ((λ h. ground (arith, same_codes_iff xs ys)), (λ h. ground (arith, same_codes_iff xs ys)))

pub same_name_iff : (a b : String) → (same_name a b ≡ true) ↔ (lower a ≡ lower b)
unfolding same_name
same_name_iff a b = same_codes_iff (lower a) (lower b)
