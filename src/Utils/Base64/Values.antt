-- ===== src/Utils/Base64/Values.antt =====
-- The characters of Base64 and their values, and three bytes as four values.
use libnei.Common.{
  ℕ, ◌+◌, ◌*◌, ◌/◌, ◌%◌, ◌^◌, ◌<◌, ◌≡◌, refl, ap, ◌∙◌, bit_or, not, Bool, true, false, Option, none,
  some, arith, ◌==◌, ==_iff, get_or, IsByte,
}
use libnei.Common.Bits.{all_below, all_below→at}
use libnei.Common.Bits.Fields.{bit_or_sum, bit_and_low}
use libnei.Utils.Base64.{
  enc_table, equals, base64_value, digit, group, first_byte, second_byte, third_byte,
}

-- The character of a value.
abbrev pub char : ℕ → ℕ
char d = get_or enc_table d 0

is_value : ℕ → Option ℕ → Bool
is_value d none = false
is_value d (some v) = v == d

is_value_lem : (d : ℕ) (o : Option ℕ) → is_value d o ≡ true → o ≡ some d
unfolding is_value
is_value_lem d none h = cc
is_value_lem d (some v) h = ap some ((==_iff v d).0 h)

pub base64_value-char : (d : ℕ) → d < 64 → base64_value (char d) ≡ some d
unfolding all_below is_value base64_value
base64_value-char d h =
    is_value_lem d (base64_value (char d))
      (all_below→at 64 (λ d. is_value d (base64_value (char d))) d refl h)

pub char-plain : (d : ℕ) → d < 64 → (char d == equals) ≡ false
unfolding all_below
char-plain d h = ground (arith, all_below→at 64 (λ d. not (char d == equals)) d refl h)

-- A value has six binary digits.
pub base64_value-lt : (c v : ℕ) → base64_value c ≡ some v → v < 64
unfolding base64_value
base64_value-lt c v h = ground arith

-- `digit` cuts six binary digits out.
pub digit_at : (v k d : ℕ) → v / 2 ^ k % 64 ≡ d → digit v k ≡ char d
unfolding digit
digit_at v k d e = ap char (bit_and_low 6 (v / 2 ^ k) ∙ e)

group_sum : (a b c : ℕ) → IsByte b → IsByte c → group a b c ≡ a * 65536 + b * 256 + c
group_sum a b c hb hc =
    ap (λ t. bit_or t c) (bit_or_sum 16 a (b * 2 ^ 8) (omega arith))
    ∙ ap (λ t. bit_or t c) (omega arith)
    ∙ bit_or_sum 8 (a * 256 + b) c (omega arith)
    ∙ omega arith

module _ (a b c : ℕ) (ha : IsByte a) (hb : IsByte b) (hc : IsByte c) where
  pub digit-18 : digit (group a b c) 18 ≡ char (a / 4)
  digit-18 = digit_at (group a b c) 18 (a / 4) (omega (arith, group_sum a b c hb hc))

  pub digit-12 : digit (group a b c) 12 ≡ char (a % 4 * 16 + b / 16)
  digit-12 = digit_at (group a b c) 12 (a % 4 * 16 + b / 16) (omega (arith, group_sum a b c hb hc))

  pub digit-6 : digit (group a b c) 6 ≡ char (b % 16 * 4 + c / 64)
  digit-6 = digit_at (group a b c) 6 (b % 16 * 4 + c / 64) (omega (arith, group_sum a b c hb hc))

  pub digit-0 : digit (group a b c) 0 ≡ char (c % 64)
  digit-0 = digit_at (group a b c) 0 (c % 64) (omega (arith, group_sum a b c hb hc))

  pub first_byte_back : first_byte (a / 4) (a % 4 * 16 + b / 16) ≡ a
  first_byte_back =
      omega (arith, bit_or_sum 2 (a / 4) ((a % 4 * 16 + b / 16) / 2 ^ 4) (omega arith))

  pub second_byte_back : second_byte (a % 4 * 16 + b / 16) (b % 16 * 4 + c / 64) ≡ b
  second_byte_back =
      ap (λ t. bit_or (t * 2 ^ 4) ((b % 16 * 4 + c / 64) / 2 ^ 2) % 256)
        (bit_and_low 4 (a % 4 * 16 + b / 16))
      ∙ omega (
        arith,
        bit_or_sum 4 ((a % 4 * 16 + b / 16) % 2 ^ 4) ((b % 16 * 4 + c / 64) / 2 ^ 2) (omega arith),
      )

  pub third_byte_back : third_byte (b % 16 * 4 + c / 64) (c % 64) ≡ c
  third_byte_back =
      ap (λ t. bit_or (t * 2 ^ 6) (c % 64) % 256) (bit_and_low 2 (b % 16 * 4 + c / 64))
      ∙ omega (arith, bit_or_sum 6 ((b % 16 * 4 + c / 64) % 2 ^ 2) (c % 64) (omega arith))

-- A group of one or two bytes is a group that ends in zeros.
pub short_group : (a b : ℕ) → IsByte b → bit_or (a * 2 ^ 16) (b * 2 ^ 8) ≡ group a b 0
short_group a b hb = bit_or_sum 16 a (b * 2 ^ 8) (omega arith) ∙ omega (arith, group_sum a b 0 hb)
