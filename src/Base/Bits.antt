-- ===== src/Base/Bits.antt =====
-- Single binary digits of a number, and what `|` and `& (1 << k)` do to them, at every width.
mod Step
use Step.{bit_or_step, bit_and_step}
use Prim.Native.Nat.{ℕ, zero, suc, ◌+◌, ◌-◌, ◌*◌, ◌/◌, ◌%◌, ◌^◌, ◌≤◌, ◌<◌, max, bit_and, bit_or}
use mathlib.Core.Path.{◌≡◌, refl, ap}
use mathlib.Core.Logic.{◌⊎◌, inl, inr}
use mathlib.Core.Bool.{Bool, true, false, not}
use native.Mathlib.Nat.{pow-suc, one-le-pow, div-add-mod, div-div-eq-div-mul}
use native.Mathlib.Omega.{arith}
use swbt_rs.Base.Tests.{◌==◌, ltb, if◌then◌else◌}

-- Digit `k` of `a`, counted from the lowest.
unfoldable pub bit_at : ℕ → ℕ → ℕ
bit_at zero a = a % 2
bit_at (suc k) a = bit_at k (a / 2)

pub bit_at-lt : (k a : ℕ) → bit_at k a < 2
unfolding bit_at
bit_at-lt zero a = omega arith
bit_at-lt (suc k) a = bit_at-lt k (a / 2)

half_or : (a b : ℕ) → bit_or a b / 2 ≡ bit_or (a / 2) (b / 2)
half_or a b = omega (arith, bit_or_step a b)

pub bit_at-bit_or : (k a b : ℕ) → bit_at k (bit_or a b) ≡ max (bit_at k a) (bit_at k b)
unfolding bit_at
bit_at-bit_or zero a b = omega (arith, bit_or_step a b)
bit_at-bit_or (suc k) a b = rw (half_or a b) (bit_at-bit_or k (a / 2) (b / 2))

pub bit_at-zero : (k : ℕ) → bit_at k 0 ≡ 0
unfolding bit_at
bit_at-zero zero = refl
bit_at-zero (suc k) = bit_at-zero k

half_pow : (k : ℕ) → 2 ^ suc k / 2 ≡ 2 ^ k
half_pow k = omega (arith, pow-suc 2 k)

-- `1 << k` has the one digit `k`.
pub bit_at-pow : (j k : ℕ) → bit_at j (2 ^ k) ≡ (if j == k then 1 else 0)
unfolding bit_at
bit_at-pow zero zero = refl
bit_at-pow zero (suc k) = ground (arith, pow-suc 2 k)
bit_at-pow (suc j) zero = ground (arith, bit_at-zero j)
bit_at-pow (suc j) (suc k) = rw (half_pow k) (ground (arith, bit_at-pow j k))

nothing_shared : (bound x : ℕ) → x < bound → bit_and x 0 ≡ 0
nothing_shared zero x below = absurd (omega arith)
nothing_shared (suc bound) zero below = refl
nothing_shared (suc bound) (suc x) below =
    let rest = nothing_shared bound (suc x / 2) (omega arith) in
    omega (arith, rest, bit_and_step (suc x) 0)

pub bit_and-zero : (x : ℕ) → bit_and x 0 ≡ 0
bit_and-zero x = nothing_shared (suc x) x (omega arith)

pub mul_shifted : (k q : ℕ) → q * 2 ^ suc k ≡ 2 * (q * 2 ^ k)
mul_shifted k q = omega (ap (λ (p : ℕ). q * p) (pow-suc 2 k), arith)

-- `a & (1 << k)` is the digit `k` in its place.
pub bit_and-pow : (k a : ℕ) → bit_and a (2 ^ k) ≡ bit_at k a * 2 ^ k
unfolding bit_at
bit_and-pow zero a = omega (arith, bit_and_step a 1, bit_and-zero (a / 2))
bit_and-pow (suc k) a = omega (
  arith,
  bit_and_step a (2 ^ suc k),
  half_pow k,
  pow-suc 2 k,
  bit_and-pow k (a / 2),
  mul_shifted k (bit_at k (a / 2)),
  ap (bit_and (a / 2)) (half_pow k),
)

-- `a & (1 << k) != 0` reads the digit `k`.
pub bit_and_test : (k a : ℕ) → not (bit_and a (2 ^ k) == 0) ≡ (bit_at k a == 1)
bit_and_test k a = ground (arith, bit_and-pow k a, bit_at-lt k a, one-le-pow k 2)

pow_double : (k : ℕ) → 2 ^ suc k ≡ 2 * 2 ^ k
pow_double k = omega (arith, pow-suc 2 k)

mod_double : (a p : ℕ) → a % (2 * p) ≡ a / 2 % p * 2 + a % 2
mod_double a p = omega (
  arith,
  div-add-mod a (2 * p),
  div-add-mod (a / 2) p,
  div-div-eq-div-mul a 2 p,
  ap (λ (t : ℕ). p * t) (div-div-eq-div-mul a 2 p),
)

-- `a & (2^k - 1)` is the remainder by `2 ^ k`.
pub bit_and_low : (k a : ℕ) → bit_and a (2 ^ k - 1) ≡ a % 2 ^ k
bit_and_low zero a = omega (arith, bit_and-zero a)
bit_and_low (suc k) a = ground (
  arith,
  bit_and_step a (2 ^ suc k - 1),
  pow-suc 2 k,
  one-le-pow k 2,
  bit_and_low k (a / 2),
  low_half k,
  mod_split k a,
)
  where
    low_half : (k : ℕ) → (2 ^ suc k - 1) / 2 ≡ 2 ^ k - 1
    low_half k = omega (arith, pow-suc 2 k, one-le-pow k 2)

    mod_split : (k a : ℕ) → a % 2 ^ suc k ≡ a / 2 % 2 ^ k * 2 + a % 2
    mod_split k a = rw (pow_double k) (mod_double a (2 ^ k))

zero-bit_or_fuel : (n a : ℕ) → a ≤ n → bit_or 0 a ≡ a
zero-bit_or_fuel zero a h = omega (arith, bit_or_step 0 a, ap (bit_or 0) zero_le)
  where
    zero_le : a ≡ 0
    zero_le = omega arith
zero-bit_or_fuel (suc n) a h = omega (arith, bit_or_step 0 a, zero-bit_or_fuel n (a / 2))

zero-bit_or : (a : ℕ) → bit_or 0 a ≡ a
zero-bit_or a = zero-bit_or_fuel a a (omega arith)

-- `|` of a number below `2 ^ k` with a multiple of `2 ^ k` is their sum.
pub bit_or_fields : (k q r : ℕ) → r < 2 ^ k → bit_or r (q * 2 ^ k) ≡ r + q * 2 ^ k
bit_or_fields zero q r h = ground (arith, zero-bit_or (q * 1))
bit_or_fields (suc k) q r h = omega (
  arith,
  bit_or_step r (q * 2 ^ suc k),
  mul_shifted k q,
  pow-suc 2 k,
  bit_or_fields k q (r / 2) (omega (arith, pow-suc 2 k)),
  ap (bit_or (r / 2)) (half_mul q k),
)
  where
    half_mul : (q k : ℕ) → q * 2 ^ suc k / 2 ≡ q * 2 ^ k
    half_mul q k = omega (arith, mul_shifted k q)

bit_or_comm_fuel : (n a b : ℕ) → a ≤ n → b ≤ n → bit_or a b ≡ bit_or b a
bit_or_comm_fuel zero zero zero p q = refl
bit_or_comm_fuel zero (suc a) b p q = absurd (omega arith)
bit_or_comm_fuel zero zero (suc b) p q = absurd (omega arith)
bit_or_comm_fuel (suc n) a b p q = omega (
  arith,
  bit_or_step a b,
  bit_or_step b a,
  bit_or_comm_fuel n (a / 2) (b / 2) (omega arith) (omega arith),
)

pub bit_or_comm : (a b : ℕ) → bit_or a b ≡ bit_or b a
bit_or_comm a b = bit_or_comm_fuel (a + b) a b (omega arith) (omega arith)

-- `(q << k) | r` for an `r` that fits `k` bits.
pub bit_or_shifted : (k q r : ℕ) → r < 2 ^ k → bit_or (q * 2 ^ k) r ≡ q * 2 ^ k + r
bit_or_shifted k q r h = omega (arith, bit_or_comm (q * 2 ^ k) r, bit_or_fields k q r h)
