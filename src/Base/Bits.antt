-- ===== src/Base/Bits.antt =====
-- bit_or of numbers whose bits do not meet.
use Prim.Native.Nat.{
  ℕ, zero, suc, ◌+◌, ◌*◌, ◌/◌, ◌%◌, ◌<◌, ◌≤◌, max, bit_or, digits, bit_or-bitwise,
}
use mathlib.Core.Path.{◌≡◌, refl, ap}
use native.Mathlib.Omega.{arith}

-- c << k, and 2 ^ k.
abbrev pub shl : ℕ → ℕ → ℕ
shl zero c = c
shl (suc k) c = 2 * shl k c

abbrev pub pow2 : ℕ → ℕ
pow2 zero = 1
pow2 (suc k) = 2 * pow2 k

-- The digits do not depend on the rounds, if there are enough of them.
or_digits : (n m a b : ℕ) → a ≤ n → a ≤ m → digits (λ b. b) max n a b ≡ digits (λ b. b) max m a b
or_digits zero zero a b p q = refl
or_digits zero (suc m) zero b p q = refl
or_digits zero (suc m) (suc a) b p q = absurd (omega arith)
or_digits (suc n) zero zero b p q = refl
or_digits (suc n) zero (suc a) b p q = absurd (omega arith)
or_digits (suc n) (suc m) zero b p q = refl
or_digits (suc n) (suc m) (suc a) b p q =
    omega (arith, or_digits n m (suc a / 2) (b / 2) (omega arith) (omega arith))

zero-bit_or : (b : ℕ) → bit_or 0 b ≡ b
zero-bit_or b = bit_or-bitwise 0 b

bit_or_step : (a b : ℕ) → bit_or a b ≡ bit_or (a / 2) (b / 2) * 2 + max (a % 2) (b % 2)
bit_or_step zero b = omega (arith, zero-bit_or b, zero-bit_or (b / 2))
bit_or_step (suc a) b = omega (
  arith,
  bit_or-bitwise (suc a) b,
  bit_or-bitwise (suc a / 2) (b / 2),
  or_digits a (suc a / 2) (suc a / 2) (b / 2) (omega arith) (omega arith),
)

bit_or-zero_within : (n a : ℕ) → a ≤ n → bit_or a 0 ≡ a
bit_or-zero_within n zero h = zero-bit_or 0
bit_or-zero_within zero (suc a) h = absurd (omega arith)
bit_or-zero_within (suc n) (suc a) h =
    omega (arith, bit_or_step (suc a) 0, bit_or-zero_within n (suc a / 2) (omega arith))

bit_or-zero : (a : ℕ) → bit_or a 0 ≡ a
bit_or-zero a = bit_or-zero_within a a (omega arith)

pub bit_or-shl : (k c b : ℕ) → b < pow2 k → bit_or (shl k c) b ≡ shl k c + b
bit_or-shl zero c b lt =
    let none_left : b ≡ 0 = omega (arith, lt) in
    omega (arith, bit_or-zero c, ap (λ x. bit_or c x) none_left)
bit_or-shl (suc k) c b lt = omega (
  arith,
  bit_or_step (2 * shl k c) b,
  ap (λ x. bit_or x (b / 2)) (half (shl k c)),
  bit_or-shl k c (b / 2) (omega (arith, lt)),
)
  where
    half : (x : ℕ) → 2 * x / 2 ≡ x
    half x = omega arith

pub bit_or-below : (k b c : ℕ) → b < pow2 k → bit_or b (shl k c) ≡ b + shl k c
bit_or-below zero b c lt =
    let none_left : b ≡ 0 = omega (arith, lt) in
    omega (arith, zero-bit_or c, ap (λ x. bit_or x c) none_left)
bit_or-below (suc k) b c lt = omega (
  arith,
  bit_or_step b (2 * shl k c),
  ap (λ x. bit_or (b / 2) x) (half (shl k c)),
  bit_or-below k (b / 2) c (omega (arith, lt)),
)
  where
    half : (x : ℕ) → 2 * x / 2 ≡ x
    half x = omega arith
