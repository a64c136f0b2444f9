-- ===== src/Common/Bits/Fields.antt =====
-- Masks and disjoint fields of any width, as arithmetic, from the law for the lowest binary digit.
use Prim.Native.Nat.{
  ℕ, zero, suc, ◌+◌, ◌-◌, ◌*◌, ◌/◌, ◌%◌, ◌^◌, ◌≤◌, ◌<◌, min, max, bit_and, bit_or, bitwise, digits,
  bit_and-bitwise, bit_or-bitwise,
}
use mathlib.Core.Path.{◌≡◌, refl, ap, ◌∙◌}
use native.Mathlib.Nat.{pow-suc}
use native.Mathlib.Omega.{arith}

-- An operation on digits that maps two zeros to zero does the same at any fuel that is enough.
module _ (only_right : ℕ → ℕ) (op : ℕ → ℕ → ℕ) where
  abbrev run : ℕ → ℕ → ℕ → ℕ
  run fuel a b = digits only_right op fuel a b

  run_enough : (k a b : ℕ) → a ≤ k → run k a b ≡ run a a b
  run_enough k a b h = at_both k a a b h (omega arith)
    where
      at_both : (k m a b : ℕ) → a ≤ k → a ≤ m → run k a b ≡ run m a b
      at_both k m zero b hk hm = by_fuel k m
        where
          by_fuel : (k m : ℕ) → run k 0 b ≡ run m 0 b
          by_fuel zero zero = refl
          by_fuel zero (suc m) = refl
          by_fuel (suc k) zero = refl
          by_fuel (suc k) (suc m) = refl
      at_both zero m (suc a) b hk hm = absurd (omega arith)
      at_both (suc k) zero (suc a) b hk hm = absurd (omega arith)
      at_both (suc k) (suc m) (suc a) b hk hm =
          ap (λ t. t * 2 + op (suc a % 2) (b % 2))
            (at_both k m (suc a / 2) (b / 2) (omega arith) (omega arith))

  lowest_digit :
      (a b : ℕ)
      → bitwise only_right op (suc a) b
        ≡ bitwise only_right op (suc a / 2) (b / 2) * 2 + op (suc a % 2) (b % 2)
  lowest_digit a b =
      ap (λ t. t * 2 + op (suc a % 2) (b % 2)) (run_enough a (suc a / 2) (b / 2) (omega arith))

bit_or_lowest : (a b : ℕ) → bit_or a b ≡ bit_or (a / 2) (b / 2) * 2 + max (a % 2) (b % 2)
bit_or_lowest zero b = omega (arith, bit_or-bitwise 0 b, bit_or-bitwise 0 (b / 2))
bit_or_lowest (suc a) b = omega (
  arith,
  bit_or-bitwise (suc a) b,
  bit_or-bitwise (suc a / 2) (b / 2),
  lowest_digit (λ t. t) max a b,
)

bit_and_lowest : (a b : ℕ) → bit_and a b ≡ bit_and (a / 2) (b / 2) * 2 + min (a % 2) (b % 2)
bit_and_lowest zero b = omega (arith, bit_and-bitwise 0 b, bit_and-bitwise 0 (b / 2))
bit_and_lowest (suc a) b = omega (
  arith,
  bit_and-bitwise (suc a) b,
  bit_and-bitwise (suc a / 2) (b / 2),
  lowest_digit (λ t. 0) min a b,
)

bit_or-0 : (k a : ℕ) → a ≤ k → bit_or a 0 ≡ a
bit_or-0 k zero h = bit_or-bitwise 0 0
bit_or-0 zero (suc a) h = absurd (omega arith)
bit_or-0 (suc k) (suc a) h =
    omega (arith, bit_or_lowest (suc a) 0, bit_or-0 k (suc a / 2) (omega arith))

bit_and-0 : (k a : ℕ) → a ≤ k → bit_and a 0 ≡ 0
bit_and-0 k zero h = bit_and-bitwise 0 0
bit_and-0 zero (suc a) h = absurd (omega arith)
bit_and-0 (suc k) (suc a) h =
    omega (arith, bit_and_lowest (suc a) 0, bit_and-0 k (suc a / 2) (omega arith))

shifted_suc : (q k : ℕ) → q * 2 ^ suc k ≡ q * 2 ^ k * 2
shifted_suc q k = omega (arith, ap (λ (t : ℕ). q * t) (pow-suc 2 k))

-- `(q << k) | r`, where `r` has at most `k` digits.
pub bit_or_sum : (k q r : ℕ) → r < 2 ^ k → bit_or (q * 2 ^ k) r ≡ q * 2 ^ k + r
bit_or_sum zero q r h =
    let none_left : r ≡ 0 = omega arith in
    rw none_left (omega (arith, bit_or-0 (q * 2 ^ 0) (q * 2 ^ 0) (omega arith)))
bit_or_sum (suc k) q r h =
    let half : q * 2 ^ suc k / 2 ≡ q * 2 ^ k = omega (arith, shifted_suc q k) in
    let small : r / 2 < 2 ^ k = omega (arith, pow-suc 2 k) in
    omega (
      arith,
      bit_or_lowest (q * 2 ^ suc k) r,
      ap (λ t. bit_or t (r / 2)) half,
      bit_or_sum k q (r / 2) small,
      shifted_suc q k,
    )

pub power_positive : (k : ℕ) → 0 < 2 ^ k
power_positive zero = omega arith
power_positive (suc k) = omega (arith, pow-suc 2 k, power_positive k)

-- The lowest digit of a remainder by twice a number.
mod_twice : (p a : ℕ) → 0 < p → a % (p * 2) ≡ a / 2 % p * 2 + a % 2
mod_twice p a h = grind arith

-- `a & ((1 << k) - 1)`.
pub bit_and_low : (k a : ℕ) → bit_and a (2 ^ k - 1) ≡ a % 2 ^ k
bit_and_low zero a = omega (arith, bit_and-0 a a (omega arith))
bit_and_low (suc k) a =
    let half : (2 ^ suc k - 1) / 2 ≡ 2 ^ k - 1 = omega (arith, pow-suc 2 k) in
    let odd : (2 ^ suc k - 1) % 2 ≡ 1 = omega (arith, pow-suc 2 k, power_positive k) in
    omega (
      arith,
      bit_and_lowest a (2 ^ suc k - 1),
      ap (λ t. bit_and (a / 2) t) half,
      bit_and_low k (a / 2),
      power_positive k,
      pow-suc 2 k,
      ap (λ (t : ℕ). a % t) (pow-suc 2 k),
      mod_twice (2 ^ k) a (power_positive k),
    )

bit_or_swap : (k a b : ℕ) → a ≤ k → b ≤ k → bit_or a b ≡ bit_or b a
bit_or_swap zero a b ha hb =
    let a0 : a ≡ 0 = omega arith in let b0 : b ≡ 0 = omega arith in rw (a0, b0) refl
bit_or_swap (suc k) a b ha hb = omega (
  arith,
  bit_or_lowest a b,
  bit_or_lowest b a,
  bit_or_swap k (a / 2) (b / 2) (omega arith) (omega arith),
)

-- `r | (q << k)`.
pub bit_or_sum_right : (k q r : ℕ) → r < 2 ^ k → bit_or r (q * 2 ^ k) ≡ q * 2 ^ k + r
bit_or_sum_right k q r h =
    bit_or_swap (r + q * 2 ^ k) r (q * 2 ^ k) (omega arith) (omega arith) ∙ bit_or_sum k q r h
