-- ===== src/Common/Bits.antt =====
-- Bit operations of the source as arithmetic. A fact about one byte is a table of at most 256
-- entries; a fact about fields of any width is in the child module.
pub mod Fields
use Prim.Native.Nat.{ℕ, zero, suc, ◌+◌, ◌*◌, ◌/◌, ◌%◌, ◌<◌, bit_and, bit_or, bit_xor}
use mathlib.Core.Path.{◌≡◌, refl}
use mathlib.Core.Bool.{Bool, true, ◌&&◌}
use native.Mathlib.Omega.{arith}
use libnei.Common.Tests.{ltb, ltb→lt, ◌==◌, ==_iff}

-- Holds of every number below a bound, by evaluation.
unfoldable pub all_below : ℕ → (ℕ → Bool) → Bool
all_below zero p = true
all_below (suc n) p = p n && all_below n p

pub all_below→at : (n : ℕ) (p : ℕ → Bool) (x : ℕ) → all_below n p ≡ true → x < n → p x ≡ true
unfolding all_below
all_below→at zero p x h lt = absurd (omega arith)
all_below→at (suc n) p x h lt = ground (arith, all_below→at n p x)

agree_below : (f g : ℕ → ℕ) (n x : ℕ) → all_below n (λ i. f i == g i) ≡ true → x < n → f x ≡ g x
agree_below f g n x h lt = (==_iff (f x) (g x)).0 (all_below→at n (λ i. f i == g i) x h lt)

module _ (b : ℕ) (h : b < 256) where
  pub bit_and-0x7f : bit_and b 0x7f ≡ b % 128
  unfolding all_below
  bit_and-0x7f = agree_below (λ i. bit_and i 0x7f) (λ i. i % 128) 256 b refl h

  pub bit_and-0x80 : bit_and b 0x80 ≡ b / 128 * 128
  unfolding all_below
  bit_and-0x80 = agree_below (λ i. bit_and i 0x80) (λ i. i / 128 * 128) 256 b refl h

  pub bit_and-0x0f : bit_and b 0x0f ≡ b % 16
  unfolding all_below
  bit_and-0x0f = agree_below (λ i. bit_and i 0x0f) (λ i. i % 16) 256 b refl h

pub bit_or-0x80 : (b : ℕ) → b < 128 → bit_or b 0x80 ≡ b + 128
unfolding all_below
bit_or-0x80 b h = agree_below (λ i. bit_or i 0x80) (λ i. i + 128) 128 b refl h

-- Two bytes at a time: a table of tables.
bytes_below : (p : ℕ → ℕ → Bool) → Bool
unfolding all_below
bytes_below p = all_below 256 (λ a. all_below 256 (λ b. p a b))

bytes_below→at :
    (p : ℕ → ℕ → Bool) (a b : ℕ) → bytes_below p ≡ true → a < 256 → b < 256 → p a b ≡ true
unfolding bytes_below
bytes_below→at p a b h ha hb =
    all_below→at 256 (λ j. p a j) b (all_below→at 256 (λ i. all_below 256 (λ j. p i j)) a h ha) hb

-- A mask applied twice is no mask, and leaves a byte a byte.
pub bit_xor_twice : (a b : ℕ) → a < 256 → b < 256 → bit_xor (bit_xor a b) b ≡ a
unfolding bytes_below
bit_xor_twice a b ha hb =
    (==_iff (bit_xor (bit_xor a b) b) a).0
      (bytes_below→at (λ i j. bit_xor (bit_xor i j) j == i) a b refl ha hb)

pub bit_xor-lt : (a b : ℕ) → a < 256 → b < 256 → bit_xor a b < 256
unfolding bytes_below
bit_xor-lt a b ha hb =
    ltb→lt (bit_xor a b) 256 (bytes_below→at (λ i j. ltb (bit_xor i j) 256) a b refl ha hb)
