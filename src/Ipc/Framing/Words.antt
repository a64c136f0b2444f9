-- ===== src/Ipc/Framing/Words.antt =====
-- Little-endian words, and the header of a frame.
use libnei.Common.{
  ℕ, zero, suc, ◌+◌, ◌*◌, ◌/◌, ◌%◌, ◌^◌, ◌≤◌, ◌<◌, ◌≡◌, refl, ap, ◌∙◌, bit_or, List, [], ◌∷◌, ◌++◌,
  arith, length, get_or,
}
use libnei.Common.Bits.Fields.{bit_or_sum_right}
use libnei.Ipc.Framing.{write_uint32_le, read_uint32_le}

-- Four bytes as digits.
pub bytes_sum :
    (a b c d : ℕ)
    → a < 256
    → b < 256
    → c < 256
    → bit_or (bit_or (bit_or a (b * 2 ^ 8)) (c * 2 ^ 16)) (d * 2 ^ 24)
      ≡ d * 2 ^ 24 + (c * 2 ^ 16 + (b * 2 ^ 8 + a))
bytes_sum a b c d ha hb hc =
    ap (λ t. bit_or (bit_or t (c * 2 ^ 16)) (d * 2 ^ 24)) (bit_or_sum_right 8 b a (omega arith))
    ∙ ap (λ t. bit_or t (d * 2 ^ 24)) (bit_or_sum_right 16 c (b * 2 ^ 8 + a) (omega arith))
    ∙ bit_or_sum_right 24 d (c * 2 ^ 16 + (b * 2 ^ 8 + a)) (omega arith)

-- A word comes back, whatever bytes follow.
pub read-write_uint32_le :
    (value : ℕ) (rest : List ℕ)
    → value < 2 ^ 32
    → read_uint32_le (write_uint32_le value ++ rest) ≡ value
unfolding read_uint32_le
read-write_uint32_le value rest h =
    bytes_sum (value % 256) (value / 2 ^ 8 % 256) (value / 2 ^ 16 % 256) (value / 2 ^ 24 % 256)
      (omega arith) (omega arith) (omega arith)
    ∙ omega arith

get_or-append_left :
    (xs ys : List ℕ) (i : ℕ) → i < length xs → get_or (xs ++ ys) i 0 ≡ get_or xs i 0
get_or-append_left [] ys i h = absurd (omega arith)
get_or-append_left (x ∷ xs) ys zero h = refl
get_or-append_left (x ∷ xs) ys (suc i) h = get_or-append_left xs ys i (omega arith)

-- Four bytes are enough to read a word.
pub read_uint32_le-append :
    (xs ys : List ℕ) → 4 ≤ length xs → read_uint32_le (xs ++ ys) ≡ read_uint32_le xs
unfolding read_uint32_le
read_uint32_le-append xs ys h = cc (
  get_or-append_left xs ys 0 (omega arith),
  get_or-append_left xs ys 1 (omega arith),
  get_or-append_left xs ys 2 (omega arith),
  get_or-append_left xs ys 3 (omega arith),
)
