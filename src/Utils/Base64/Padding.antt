-- ===== src/Utils/Base64/Padding.antt =====
-- The padding of a text, and how long an encoded text is.
use libnei.Common.{
  ℕ, suc, ◌+◌, ◌-◌, ◌*◌, ◌/◌, ◌%◌, ◌^◌, ◌≤◌, ◌≡◌, refl, ap, ◌∙◌, bit_or, false, List, [], ◌∷◌,
  arith, ◌==◌, if◌then◌else◌, length, get_or,
}
use libnei.Utils.Base64.{equals, digit, group, encode_loop, padding}
use libnei.Utils.Base64.Values.{digit_at, char-plain}

-- A character counted from the end stays where it is when another comes in front.
from_end :
    (c : ℕ) (text : List ℕ) (i : ℕ)
    → i ≤ length text
    → get_or (c ∷ text) (suc (length text) - i) 0 ≡ get_or text (length text - i) 0
from_end c text i h =
    let e : suc (length text) - i ≡ suc (length text - i) = omega arith in
    ap (λ k. get_or (c ∷ text) k 0) e

padding_cons : (c : ℕ) (text : List ℕ) → 2 ≤ length text → padding (c ∷ text) ≡ padding text
unfolding padding
padding_cons c text h = ground (arith, from_end c text 1, from_end c text 2)

-- Only the last group counts.
pub padding_more :
    (c0 c1 c2 c3 : ℕ) (rest : List ℕ)
    → 4 ≤ length rest
    → padding (c0 ∷ c1 ∷ c2 ∷ c3 ∷ rest) ≡ padding rest
padding_more c0 c1 c2 c3 rest h =
    padding_cons c0 (c1 ∷ c2 ∷ c3 ∷ rest) (omega arith)
    ∙ padding_cons c1 (c2 ∷ c3 ∷ rest) (omega arith)
    ∙ padding_cons c2 (c3 ∷ rest) (omega arith)
    ∙ padding_cons c3 rest (omega arith)

pub padding_last :
    (c0 c1 c2 c3 : ℕ)
    → padding (c0 ∷ c1 ∷ c2 ∷ c3 ∷ []) ≡ (if c3 == equals then if c2 == equals then 2 else 1 else 0)
unfolding padding
padding_last c0 c1 c2 c3 = refl

pub padding_short : (text : List ℕ) → padding text ≤ 2
unfolding padding
padding_short text = ground arith

pub length-encode_loop : (input : List ℕ) → length (encode_loop input) ≡ (length input + 2) / 3 * 4
unfolding encode_loop
length-encode_loop [] = omega arith
length-encode_loop (a ∷ []) = omega arith
length-encode_loop (a ∷ b ∷ []) = omega arith
length-encode_loop (a ∷ b ∷ c ∷ input) = omega (arith, length-encode_loop input)

digit_plain : (v k : ℕ) → (digit v k == equals) ≡ false
digit_plain v k =
    ap (λ c. c == equals) (digit_at v k (v / 2 ^ k % 64) refl)
    ∙ char-plain (v / 2 ^ k % 64) (omega arith)

-- The buffer that the decoder asks for is as long as the bytes.
pub decoded_length :
    (input : List ℕ)
    → length (encode_loop input) / 4 * 3 - padding (encode_loop input) ≡ length input
unfolding encode_loop
decoded_length [] = unfold padding in omega arith
decoded_length (a ∷ []) = unfold padding in omega arith
decoded_length (a ∷ b ∷ []) =
    let v = bit_or (a * 65536) (b * 256) in
    ground (arith, padding_last (digit v 18) (digit v 12) (digit v 6) equals, digit_plain v 6)
decoded_length (a ∷ b ∷ c ∷ []) =
    let v = group a b c in
    ground (arith, padding_last (digit v 18) (digit v 12) (digit v 6) (digit v 0), digit_plain v 0)
decoded_length (a ∷ b ∷ c ∷ d ∷ input) =
    let v = group a b c in
    let rest = encode_loop (d ∷ input) in
    let long : 4 ≤ length rest = omega (arith, length-encode_loop (d ∷ input)) in
    omega (
      arith,
      decoded_length (d ∷ input),
      padding_more (digit v 18) (digit v 12) (digit v 6) (digit v 0) rest long,
      padding_short rest,
      long,
    )
