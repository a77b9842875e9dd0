-- ===== src/Base/Bits.antt =====
-- Masks, shifts and disjunctions of machine words as arithmetic, for every width.
use Prim.Native.Nat.{ℕ, zero, suc, ◌+◌, ◌-◌, ◌*◌, ◌/◌, ◌%◌, ◌^◌, ◌≤◌, ◌<◌, min, max}
use Prim.Native.Nat.{bit_and, bit_or, digits, bitwise, bit_and-bitwise, bit_or-bitwise}
use mathlib.Core.Path.{◌≡◌, refl, sym, ap, ◌∙◌}
use native.Mathlib.Nat.{pow-suc, le_refl, div-div-eq-div-mul, mod-eq-sub-mul-div, div-mul-le_self}
use native.Mathlib.Omega.{arith}

-- The digit recursion does not look at its fuel.
module _ (z : ℕ → ℕ) (f : ℕ → ℕ → ℕ) where
  same_digits : (x y j k : ℕ) → x ≤ k → x ≤ j → digits z f j x y ≡ digits z f k x y
  same_digits zero y zero zero hk hj = refl
  same_digits zero y (suc j) zero hk hj = refl
  same_digits zero y zero (suc k) hk hj = refl
  same_digits zero y (suc j) (suc k) hk hj = refl
  same_digits (suc x) y zero k hk hj = absurd (omega arith)
  same_digits (suc x) y (suc j) zero hk hj = absurd (omega arith)
  same_digits (suc x) y (suc j) (suc k) hk hj =
      let halves = same_digits (suc x / 2) (y / 2) j k (omega arith) (omega arith) in
      omega (arith, halves)

  lowest_digit :
      (x y : ℕ)
      → bitwise z f (suc x) y ≡ f (suc x % 2) (y % 2) + 2 * bitwise z f (suc x / 2) (y / 2)
  lowest_digit x y =
      let half = suc x / 2 in
      omega (arith, same_digits half (y / 2) x half (le_refl _) (omega arith))

bit_and_step : (x y : ℕ) → bit_and x y ≡ min (x % 2) (y % 2) + 2 * bit_and (x / 2) (y / 2)
bit_and_step zero y = simp bit_and-bitwise (omega arith)
bit_and_step (suc x) y = simp bit_and-bitwise (lowest_digit (λ d. 0) min x y)

pub bit_or_step : (x y : ℕ) → bit_or x y ≡ max (x % 2) (y % 2) + 2 * bit_or (x / 2) (y / 2)
bit_or_step zero y = simp bit_or-bitwise (omega arith)
bit_or_step (suc x) y = simp bit_or-bitwise (lowest_digit (λ d. d) max x y)

zero-bit_and : (b : ℕ) → bit_and 0 b ≡ 0
zero-bit_and b = bit_and-bitwise 0 b

zero-bit_or : (b : ℕ) → bit_or 0 b ≡ b
zero-bit_or b = bit_or-bitwise 0 b

and_zero_below : (n a : ℕ) → a ≤ n → bit_and a 0 ≡ 0
and_zero_below n zero h = refl
and_zero_below zero (suc a) h = absurd (omega arith)
and_zero_below (suc n) (suc a) h =
    omega (arith, bit_and_step (suc a) 0, and_zero_below n (suc a / 2) (omega arith))

bit_and-zero : (a : ℕ) → bit_and a 0 ≡ 0
bit_and-zero a = and_zero_below a a (omega arith)

or_zero_below : (n a : ℕ) → a ≤ n → bit_or a 0 ≡ a
or_zero_below n zero h = refl
or_zero_below zero (suc a) h = absurd (omega arith)
or_zero_below (suc n) (suc a) h =
    omega (arith, bit_or_step (suc a) 0, or_zero_below n (suc a / 2) (omega arith))

bit_or-zero : (a : ℕ) → bit_or a 0 ≡ a
bit_or-zero a = or_zero_below a a (omega arith)

-- The quotient and the remainder by a double.
pub div_double : (a p : ℕ) → a / (2 * p) ≡ a / 2 / p
div_double a p = sym (div-div-eq-div-mul a 2 p)

pub mod_double : (a p : ℕ) → a % (2 * p) ≡ a / 2 % p * 2 + a % 2
mod_double a p = omega (
  arith,
  mod-eq-sub-mul-div a (2 * p),
  mod-eq-sub-mul-div (a / 2) p,
  ap (λ (t : ℕ). 2 * p * t) (div_double a p),
  div-mul-le_self (a / 2) p,
)

pub pow_two_pos : (k : ℕ) → 0 < 2 ^ k
pow_two_pos zero = omega arith
pow_two_pos (suc k) = omega (arith, pow_two_pos k, pow-suc 2 k)

pub pow_two_suc : (k : ℕ) → 2 ^ suc k ≡ 2 * 2 ^ k
pow_two_suc k = omega (arith, pow-suc 2 k)

-- `x & (2^k - 1)`: a mask of low bits is a remainder.
pub bit_and-mask : (k a : ℕ) → bit_and a (2 ^ k - 1) ≡ a % 2 ^ k
bit_and-mask zero a = omega (arith, bit_and-zero a)
bit_and-mask (suc k) a =
    bit_and_step a (2 ^ suc k - 1)
    ∙ rw (half, bit_and-mask k (a / 2), pow_two_suc k)
        (omega (arith, mod_double a (2 ^ k), pow_two_pos k))
  where
    half : (2 ^ suc k - 1) / 2 ≡ 2 ^ k - 1
    half = omega (arith, pow_two_suc k, pow_two_pos k)

-- `x & (1 << k)`: the bit in place.
pub bit_and-single : (k a : ℕ) → bit_and a (2 ^ k) ≡ a / 2 ^ k % 2 * 2 ^ k
bit_and-single zero a = omega (arith, bit_and_step a 1, bit_and-zero (a / 2))
bit_and-single (suc k) a =
    bit_and_step a (2 ^ suc k)
    ∙ rw (half, bit_and-single k (a / 2), pow_two_suc k, div_double a (2 ^ k)) (omega arith)
  where
    half : 2 ^ suc k / 2 ≡ 2 ^ k
    half = omega (arith, pow_two_suc k)

-- `(a << k) | b` for a `b` of at most k bits is a sum.
pub bit_or-shifted : (k a b : ℕ) → b < 2 ^ k → bit_or (a * 2 ^ k) b ≡ a * 2 ^ k + b
bit_or-shifted zero a b h =
    let e : b ≡ 0 = omega arith in rw e (omega (arith, bit_or-zero (a * 2 ^ 0)))
bit_or-shifted (suc k) a b h =
    bit_or_step (a * 2 ^ suc k) b
    ∙ rw (half, bit_or-shifted k a (b / 2) (omega (arith, pow_two_suc k)), pow_two_suc k)
        (omega arith)
  where
    half : a * 2 ^ suc k / 2 ≡ a * 2 ^ k
    half = omega (arith, ap (λ (t : ℕ). a * t) (pow_two_suc k))
