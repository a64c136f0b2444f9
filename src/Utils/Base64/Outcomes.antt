-- ===== src/Utils/Base64/Outcomes.antt =====
-- Which calls succeed, and how much of the output buffer a call writes, a failed one too.
use mathlib.Core.Path.{subst}
use libnei.Common.{
  ℕ, ◌+◌, ◌*◌, ◌/◌, ◌%◌, ◌^◌, ◌≤◌, ◌<◌, ◌≡◌, refl, ap, sym, ◌∙◌, ◌⊎◌, inl, inr, not, Bool, true,
  false, ◌&&◌, ◌||◌, List, [], ◌∷◌, ◌++◌, Option, none, some, arith, ltb, leb, ◌==◌, ==_iff,
  if◌then◌else◌, length, length-append, Bool-cases,
}
use libnei.Utils.Base64.{
  success, invalid_arg, invalid_input, output_too_small, bytes, Outcome, finished, failed,
  base64_value, base64_encoded_length, base64_decoded_max_length, encode_loop, encode_bytes,
  base64_encode, decode_group, decode_loop, padding, decode_bytes, base64_decode,
}
use libnei.Utils.Base64.Padding.{length-encode_loop}
use libnei.Utils.Base64.Groups.{
  is_some, all_values, need, valid, group_size, inner_group, inner_content, inner_need, last_group,
}

-- The length that is reported, if one is, is the number of bytes that were written.
abbrev pub IsReported : Outcome → Type 0
IsReported o = (o.out_len ≡ none) ⊎ (o.out_len ≡ some (length o.written))

-- What a call to decode leaves: on success as many bytes as `expected`, otherwise not more.
abbrev Ends : Bool → ℕ → Outcome → Type 0
Ends taken expected o =
    (o.out_len ≡ (if taken then some expected else none))
    × (length o.written ≤ expected)
    × IsReported o
    × (o.status ≡ (if taken then success else invalid_input))

same_length :
    (bs : List ℕ) (taken : Bool) (n : ℕ)
    → group_size (some bs) ≡ (if taken then some n else none)
    → (taken ≡ true) × (length bs ≡ n)
same_length bs taken n e = ground arith

-- A group and the loop after it.
after_group :
    (out input : List ℕ) (g : Option (List ℕ)) (taken more : Bool) (n m : ℕ)
    → group_size g ≡ (if taken then some n else none)
    → ((bs : List ℕ) → Ends more (length (out ++ bs) + m) (decode_loop (out ++ bs) input))
    → Ends
        (more && taken)
        (length out + (n + m))
        (elim g [ none ↦ failed invalid_input out | some bs ↦ decode_loop (out ++ bs) input ])
after_group out input none true more n m e rest = cc
after_group out input none false more n m e rest = elim (Bool-cases more) [
  | inl k ↦ rw k (refl, omega arith, inl refl, refl)
  | inr k ↦ rw k (refl, omega arith, inl refl, refl)
]
after_group out input (some bs) taken more n m e rest =
    let (sure, long) = same_length bs taken n e in
    let whole : length (out ++ bs) + m ≡ length out + (n + m) =
      omega (arith, long, length-append out bs) in
    let both : more ≡ (more && taken) =
      rw sure (elim (Bool-cases more) [ inl k ↦ rw k refl | inr k ↦ rw k refl ]) in
    subst (λ b. Ends b (length out + (n + m)) (decode_loop (out ++ bs) input)) both
      (subst (λ k. Ends more k (decode_loop (out ++ bs) input)) whole (rest bs))

inner_valid :
    (c0 c1 c2 c3 : ℕ) (rest : List ℕ)
    → 4 ≤ length rest
    → (valid rest && all_values (c0 ∷ c1 ∷ c2 ∷ c3 ∷ [])) ≡ valid (c0 ∷ c1 ∷ c2 ∷ c3 ∷ rest)
inner_valid c0 c1 c2 c3 rest h =
    moved (is_some (base64_value c0)) (is_some (base64_value c1)) (is_some (base64_value c2))
      (is_some (base64_value c3)) (valid rest)
    ∙ ap all_values (sym (inner_content c0 c1 c2 c3 rest h))
  where
    moved :
        (a b c d e : Bool) → (e && (a && (b && (c && (d && true))))) ≡ (a && (b && (c && (d && e))))
    moved a b c d e = ground arith

decode_loop-Ends :
    (out input : List ℕ)
    → length input % 4 ≡ 0
    → Ends (valid input) (length out + need input) (decode_loop out input)
unfolding decode_loop
decode_loop-Ends out [] h = unfold padding in (ap some (omega arith), omega arith, inr refl, refl)
decode_loop-Ends out (c0 ∷ []) h = absurd (omega arith)
decode_loop-Ends out (c0 ∷ c1 ∷ []) h = absurd (omega arith)
decode_loop-Ends out (c0 ∷ c1 ∷ c2 ∷ []) h = absurd (omega arith)
decode_loop-Ends out (c0 ∷ c1 ∷ c2 ∷ c3 ∷ []) h =
    let text = c0 ∷ c1 ∷ c2 ∷ c3 ∷ [] in
    let done : (bs : List ℕ) → Ends true (length (out ++ bs) + 0) (finished (out ++ bs)) =
      λ bs. (ap some (omega arith), omega arith, inr refl, refl) in
    subst (λ k. Ends (valid text) (length out + k) (decode_loop out text)) (omega arith)
      (after_group out [] (decode_group c0 c1 c2 c3 true) (valid text) true (need text) 0
        (last_group c0 c1 c2 c3) done)
decode_loop-Ends out (c0 ∷ c1 ∷ c2 ∷ c3 ∷ d ∷ input) h =
    let rest = d ∷ input in
    let text = c0 ∷ c1 ∷ c2 ∷ c3 ∷ rest in
    let long : 4 ≤ length rest = omega arith in
    subst (λ b. Ends b (length out + need text) (decode_loop out text))
      (inner_valid c0 c1 c2 c3 rest long)
      (subst
        (λ k.
          Ends (valid rest && all_values (c0 ∷ c1 ∷ c2 ∷ c3 ∷ [])) (length out + k)
            (decode_loop out text))
        (sym (inner_need c0 c1 c2 c3 rest long))
        (after_group out rest (decode_group c0 c1 c2 c3 false) (all_values (c0 ∷ c1 ∷ c2 ∷ c3 ∷ []))
          (valid rest) 3 (need rest) (inner_group c0 c1 c2 c3)
          (λ bs. decode_loop-Ends (out ++ bs) (d ∷ input) (omega arith))))

-- A text that `nei_base64_decode` accepts: groups of four, of characters of the alphabet but for the
-- padding, two characters at most at the end.
abbrev pub is_base64 : List ℕ → Bool
is_base64 text = length text % 4 == 0 && valid text

-- The test of the capacity, and the loop.
after_whole :
    (taken small : Bool) (expected room : ℕ) (loop : Outcome)
    → Ends taken expected loop
    → (small ≡ false → expected ≤ room)
    → let o = if small then failed output_too_small [] else loop in
      (o.out_len ≡ (if taken && not small then some expected else none))
      × (length o.written ≤ room)
      × IsReported o
      × (o.status ≡ (if small then output_too_small else if taken then success else invalid_input))
after_whole true true expected room loop h fits = (refl, omega arith, inl refl, refl)
after_whole false true expected room loop h fits = (refl, omega arith, inl refl, refl)
after_whole true false expected room loop h fits = (h.0, omega (arith, h.1, fits refl), h.2, h.3)
after_whole false false expected room loop h fits = (h.0, omega (arith, h.1, fits refl), h.2, h.3)

-- The tests before the loop.
after_tests :
    (null empty whole taken small : Bool) (expected room : ℕ) (loop : Outcome)
    → (whole ≡ true → Ends taken expected loop)
    → (small ≡ false → expected ≤ room)
    → let o =
        if null && not empty
        then failed invalid_arg []
        else if not whole
        then failed invalid_input []
        else if small
        then failed output_too_small []
        else loop in
      (o.out_len
        ≡ (if (not null || empty) && ((whole && taken) && not small) then some expected else none))
      × (length o.written ≤ room)
      × IsReported o
      × (o.status ≡ (
          if null && not empty
          then invalid_arg
          else if not whole
          then invalid_input
          else if small
          then output_too_small
          else if taken
          then success
          else invalid_input))
after_tests true false whole taken small expected room loop h fits =
    (refl, omega arith, inl refl, refl)
after_tests true true false taken small expected room loop h fits =
    (refl, omega arith, inl refl, refl)
after_tests false empty false taken small expected room loop h fits =
    (refl, omega arith, inl refl, refl)
after_tests true true true taken small expected room loop h fits =
    after_whole taken small expected room loop (h refl) fits
after_tests false empty true taken small expected room loop h fits =
    after_whole taken small expected room loop (h refl) fits

from_start :
    (text : List ℕ)
    → (length text % 4 == 0) ≡ true
    → Ends (valid text) (need text) (decode_loop [] text)
from_start text e =
    let none_yet : 0 + need text ≡ need text = omega arith in
    subst (λ k. Ends (valid text) k (decode_loop [] text)) none_yet
      (decode_loop-Ends [] text ((==_iff (length text % 4) 0).0 e))

-- A decoding call succeeds exactly when it has an output pointer or an empty text, the text is
-- Base64, and the output holds the bytes that the text stands for; it then writes, and reports, as
-- many bytes as these: the length that a call reports is the number of bytes that it wrote. A call that fails reports no length and its cause: a missing output, a text that
-- is not Base64 or an output that is too small, which it finds before a wrong character. No call
-- writes past the capacity.
pub base64_decode_lem :
    (text : List ℕ) (out_is_null : Bool) (out_cap : ℕ)
    → let o = base64_decode (bytes text) out_is_null out_cap in
      (o.out_len ≡ (
        if (not out_is_null || length text == 0) && (is_base64 text && leb (need text) out_cap)
        then some (need text)
        else none))
      × (length o.written ≤ out_cap)
      × IsReported o
      × (o.status ≡ (
          if out_is_null && not (length text == 0)
          then invalid_arg
          else if not (length text % 4 == 0)
          then invalid_input
          else if ltb out_cap (need text)
          then output_too_small
          else if valid text
          then success
          else invalid_input))
unfolding base64_decode base64_decoded_max_length
base64_decode_lem text n room =
    let small = ltb room (need text) in
    let fits : leb (need text) room ≡ not small = ground arith in
    rw (fits, decode_bytes)
      (after_tests n (length text == 0) (length text % 4 == 0) (valid text) small (need text) room
        (decode_loop [] text) (from_start text) (λ e. ground arith))

encode_tests :
    (null none_in small : Bool) (chars room : ℕ) (text : List ℕ)
    → length text ≡ chars
    → (small ≡ false → chars ≤ room)
    → let o =
        if null && not none_in
        then failed invalid_arg []
        else if small
        then failed output_too_small []
        else finished text in
      (o.out_len ≡ (if (not null || none_in) && not small then some chars else none))
      × (length o.written ≤ room)
encode_tests true false small chars room text e fits = (refl, omega arith)
encode_tests true true true chars room text e fits = (refl, omega arith)
encode_tests false none_in true chars room text e fits = (refl, omega arith)
encode_tests true true false chars room text e fits = (ap some e, omega (arith, e, fits refl))
encode_tests false none_in false chars room text e fits = (ap some e, omega (arith, e, fits refl))

-- An encoding call on a buffer of at most half of the address space succeeds exactly when it has an
-- output pointer or no bytes, and the output holds four characters for each three bytes or fewer;
-- it then writes, and reports, as many. No call writes past the capacity.
base64_encode_lem :
    (input : List ℕ) (out_is_null : Bool) (out_cap : ℕ)
    → length input < 2 ^ 63
    → let o = base64_encode (bytes input) out_is_null out_cap in
      let chars = (length input + 2) / 3 * 4 in
      (o.out_len ≡ (
        if (not out_is_null || length input == 0) && leb chars out_cap then some chars else none))
      × (length o.written ≤ out_cap)
unfolding base64_encode
base64_encode_lem input n room h =
    let chars = (length input + 2) / 3 * 4 in
    let unwrapped : base64_encoded_length (length input) ≡ chars =
      unfold base64_encoded_length in omega arith in
    let fits : leb chars room ≡ not (ltb room chars) = ground arith in
    let empty : (chars == 0) ≡ (length input == 0) = ground arith in
    rw (encode_bytes, unwrapped, fits, empty)
      (encode_tests n (length input == 0) (ltb room chars) chars room (encode_loop input)
        (length-encode_loop input) (λ e. ground arith))
