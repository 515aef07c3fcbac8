-- ===== src/Common/Bits.antt =====
-- Bit masks: the bits of `&` and `|`, and inclusion of masks, at every width.
use Prim.Native.Nat.{
  ℕ, zero, suc, ◌+◌, ◌*◌, ◌/◌, ◌%◌, ◌≤◌, min, max, bit_and, bit_or, digits, bitwise,
  bit_and-bitwise, bit_or-bitwise,
}
use native.Mathlib.Nat.{le_refl}
use mathlib.Core.Path.{◌≡◌, refl, ap}
use mathlib.Core.Logic.{◌↔◌}
use native.Mathlib.Omega.{arith}

-- The native operations recur on the binary digits with fuel; any fuel from the first number
-- up gives the same.
module _ (z : ℕ → ℕ) (op : ℕ → ℕ → ℕ) where
  fuel_irrelevant :
      (a b m n : ℕ) (k : ℕ) → a ≤ k → a ≤ m → a ≤ n → digits z op m a b ≡ digits z op n a b
  fuel_irrelevant zero b zero zero k h p q = refl
  fuel_irrelevant zero b zero (suc n) k h p q = refl
  fuel_irrelevant zero b (suc m) zero k h p q = refl
  fuel_irrelevant zero b (suc m) (suc n) k h p q = refl
  fuel_irrelevant (suc a) b zero n k h p q = absurd (omega arith)
  fuel_irrelevant (suc a) b (suc m) zero k h p q = absurd (omega arith)
  fuel_irrelevant (suc a) b (suc m) (suc n) zero h p q = absurd (omega arith)
  fuel_irrelevant (suc a) b (suc m) (suc n) (suc k) h p q =
      rw (fuel_irrelevant (suc a / 2) (b / 2) m n k (omega arith) (omega arith) (omega arith))

  bitwise-suc :
      (a b : ℕ)
      → bitwise z op (suc a) b ≡ bitwise z op (suc a / 2) (b / 2) * 2 + op (suc a % 2) (b % 2)
  bitwise-suc a b = omega (
    arith,
    fuel_irrelevant (suc a / 2) (b / 2) a (suc a / 2) a (omega arith) (omega arith) (le_refl _),
  )

bit_and_halves : (a b : ℕ) → bit_and a b ≡ bit_and (a / 2) (b / 2) * 2 + min (a % 2) (b % 2)
bit_and_halves zero b = simp bit_and-bitwise (omega arith)
bit_and_halves (suc a) b = simp bit_and-bitwise (bitwise-suc (λ y. 0) min a b)

bit_or_halves : (a b : ℕ) → bit_or a b ≡ bit_or (a / 2) (b / 2) * 2 + max (a % 2) (b % 2)
bit_or_halves zero b = simp bit_or-bitwise (omega arith)
bit_or_halves (suc a) b = simp bit_or-bitwise (bitwise-suc (λ y. y) max a b)

-- The bit at a position, 0 or 1.
pub bit : ℕ → ℕ → ℕ
bit a zero = a % 2
bit a (suc i) = bit (a / 2) i

pub bit-bit_and : (i a b : ℕ) → bit (bit_and a b) i ≡ min (bit a i) (bit b i)
unfolding bit
bit-bit_and zero a b = omega (arith, bit_and_halves a b)
bit-bit_and (suc i) a b =
    let half : bit_and a b / 2 ≡ bit_and (a / 2) (b / 2) = omega (arith, bit_and_halves a b) in
    rw half (bit-bit_and i (a / 2) (b / 2))

pub bit-bit_or : (i a b : ℕ) → bit (bit_or a b) i ≡ max (bit a i) (bit b i)
unfolding bit
bit-bit_or zero a b = omega (arith, bit_or_halves a b)
bit-bit_or (suc i) a b =
    let half : bit_or a b / 2 ≡ bit_or (a / 2) (b / 2) = omega (arith, bit_or_halves a b) in
    rw half (bit-bit_or i (a / 2) (b / 2))

pub bit-le-one : (i a : ℕ) → bit a i ≤ 1
unfolding bit
bit-le-one zero a = omega arith
bit-le-one (suc i) a = bit-le-one i (a / 2)

-- Two numbers with the same bits are equal.
eq_of_bits_fuel : (k a b : ℕ) → a ≤ k → b ≤ k → ((i : ℕ) → bit a i ≡ bit b i) → a ≡ b
unfolding bit
eq_of_bits_fuel zero a b p q h = omega arith
eq_of_bits_fuel (suc k) a b p q h =
    let low : a % 2 ≡ b % 2 = h 0 in
    let high : a / 2 ≡ b / 2 =
      eq_of_bits_fuel k (a / 2) (b / 2) (omega arith) (omega arith) (λ i. h (suc i)) in
    omega arith

pub eq_of_bits : (a b : ℕ) → ((i : ℕ) → bit a i ≡ bit b i) → a ≡ b
eq_of_bits a b h = eq_of_bits_fuel (a + b) a b (omega arith) (omega arith) h

-- Every bit of the second mask is in the first: `(m & c) === c`.
abbrev pub Includes : ℕ → ℕ → Type 0
Includes m c = bit_and m c ≡ c

pub Includes-iff : (m c : ℕ) → Includes m c ↔ ((i : ℕ) → bit c i ≤ bit m i)
Includes-iff m c = (
  λ h i. omega (arith, bit-bit_and i m c, ap (λ (n : ℕ). bit n i) h),
  λ h. eq_of_bits _ _ (λ i. omega (arith, bit-bit_and i m c, h i)),
)

pub of_bits-Includes : (m c : ℕ) → ((i : ℕ) → bit c i ≤ bit m i) → Includes m c
of_bits-Includes m c below = (Includes-iff m c).1 below

zero-bit : (i : ℕ) → bit 0 i ≡ 0
unfolding bit
zero-bit zero = refl
zero-bit (suc i) = zero-bit i

pub zero-Includes : (m : ℕ) → Includes m 0
zero-Includes m = of_bits-Includes m 0 (λ i. omega (arith, zero-bit i))

pub antisymm-Includes : (a b : ℕ) → Includes a b → Includes b a → a ≡ b
antisymm-Includes a b h k =
    eq_of_bits a b (λ i. omega (arith, (Includes-iff a b).0 h i, (Includes-iff b a).0 k i))

pub zero-bit_or : (a : ℕ) → bit_or 0 a ≡ a
zero-bit_or a = eq_of_bits _ _ (λ i. omega (arith, bit-bit_or i 0 a, zero-bit i))

pub Includes-refl : (m : ℕ) → Includes m m
Includes-refl m = of_bits-Includes m m (λ i. omega arith)

pub Includes-trans : (a b c : ℕ) → Includes a b → Includes b c → Includes a c
Includes-trans a b c h k =
    of_bits-Includes a c λ i. omega (arith, (Includes-iff a b).0 h i, (Includes-iff b c).0 k i)

pub Includes-bit_or_left : (a b : ℕ) → Includes (bit_or a b) a
Includes-bit_or_left a b = of_bits-Includes _ _ (λ i. omega (arith, bit-bit_or i a b))

pub Includes-bit_or_right : (a b : ℕ) → Includes (bit_or a b) b
Includes-bit_or_right a b = of_bits-Includes _ _ (λ i. omega (arith, bit-bit_or i a b))

pub bit_or-Includes : (m a b : ℕ) → Includes m a → Includes m b → Includes m (bit_or a b)
bit_or-Includes m a b h k =
    of_bits-Includes _ _
      λ i. omega (arith, bit-bit_or i a b, (Includes-iff m a).0 h i, (Includes-iff m b).0 k i)

pub bit_and-Includes_right : (a m : ℕ) → Includes m (bit_and a m)
bit_and-Includes_right a m = of_bits-Includes _ _ (λ i. omega (arith, bit-bit_and i a m))

pub bit_and-Includes_left : (a m : ℕ) → Includes a (bit_and a m)
bit_and-Includes_left a m = of_bits-Includes _ _ (λ i. omega (arith, bit-bit_and i a m))
