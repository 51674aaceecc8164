-- ===== src/Base/Bits/Step.antt =====
-- The native bit operations, one binary digit at a time.
use Prim.Native.Nat.{
  ℕ, zero, suc, ◌+◌, ◌-◌, ◌*◌, ◌/◌, ◌%◌, ◌≤◌, min, max, bit_and, bit_or, digits, bitwise,
  bit_and-bitwise, bit_or-bitwise,
}
use mathlib.Core.Path.{◌≡◌, refl, ap, ◌∙◌}
use native.Mathlib.Omega.{arith}

-- `digits` recurs on fuel. Fuel beyond the first number changes nothing: first for one unit more,
-- then for any surplus.
module _ (last : ℕ → ℕ) (op : ℕ → ℕ → ℕ) where
  one_more : (fuel x y : ℕ) → x ≤ fuel → digits last op (suc fuel) x y ≡ digits last op fuel x y
  one_more zero zero y enough = refl
  one_more zero (suc x) y enough = absurd (omega arith)
  one_more (suc fuel) zero y enough = refl
  one_more (suc fuel) (suc x) y enough =
      ap (λ (d : ℕ). d * 2 + op (suc x % 2) (y % 2))
        (one_more fuel (suc x / 2) (y / 2) (omega arith))

  surplus : (k fuel x y : ℕ) → x ≤ fuel → digits last op (k + fuel) x y ≡ digits last op fuel x y
  surplus zero fuel x y enough = ap (λ (n : ℕ). digits last op n x y) (omega arith)
  surplus (suc k) fuel x y enough =
      ap (λ (n : ℕ). digits last op n x y)
        (let e : suc k + fuel ≡ suc (k + fuel) = omega arith in e)
      ∙ one_more (k + fuel) x y (omega arith)
      ∙ surplus k fuel x y enough

  halved : (x y : ℕ) → digits last op x (suc x / 2) y ≡ bitwise last op (suc x / 2) y
  halved x y =
      ap (λ (n : ℕ). digits last op n (suc x / 2) y)
        (let e : x ≡ x - suc x / 2 + suc x / 2 = omega arith in e)
      ∙ surplus (x - suc x / 2) (suc x / 2) (suc x / 2) y (omega arith)

pub bit_and_step : (x y : ℕ) → bit_and x y ≡ min (x % 2) (y % 2) + 2 * bit_and (x / 2) (y / 2)
bit_and_step zero y = simp bit_and-bitwise (omega arith)
bit_and_step (suc x) y = simp bit_and-bitwise (omega (arith, halved (λ _. zero) min x (y / 2)))

pub bit_or_step : (x y : ℕ) → bit_or x y ≡ max (x % 2) (y % 2) + 2 * bit_or (x / 2) (y / 2)
bit_or_step zero y = simp bit_or-bitwise (omega arith)
bit_or_step (suc x) y = simp bit_or-bitwise (omega (arith, halved (λ d. d) max x (y / 2)))
