-- ===== src/Url/Encoding/RoundTrip.antt =====
-- `UrlDecode` after `UrlEncode` and `UrlEncodeQuery`, and the characters that these write.
use libnei.Common.{
  ℕ, ◌*◌, ◌/◌, ◌%◌, ==_iff, ◌≤◌, ◌<◌, ◌≡◌, refl, ap, ◌∙◌, inl, inr, Bool, true, false, ◌&&◌, ◌||◌,
  List, [], ◌∷◌, ◌++◌, Option, none, some, arith, ◌==◌, Bool-cases, length, length-append, All,
  All-append, IsByte,
}
use libnei.Common.Bits.{all_below, all_below→at}
use libnei.Url.Encoding.{
  plus, percent, space, hex_value, hex_digit, is_unreserved, encode_char, encode_impl, url_encode,
  url_encode_query, escaped, unescaped, url_decode,
}

-- What a character decodes to where it starts no escape.
decode_unescaped :
    (c : ℕ) (rest : List ℕ)
    → (c == percent) ≡ false
    → url_decode (c ∷ rest) ≡ unescaped c ∷ url_decode rest
unfolding url_decode escaped
decode_unescaped c [] e = refl
decode_unescaped c (d ∷ []) e = refl
decode_unescaped c (d ∷ f ∷ rest) e =
    let none_here : escaped c d f ≡ none = unfold escaped in rw e refl in
    ap
      (λ o. elim o [
        | none ↦ unescaped c ∷ url_decode (d ∷ f ∷ rest)
        | some b ↦ b ∷ url_decode rest
      ])
      none_here

decode_escaped :
    (b h l : ℕ) (rest : List ℕ)
    → escaped percent h l ≡ some b
    → url_decode (percent ∷ h ∷ l ∷ rest) ≡ b ∷ url_decode rest
unfolding url_decode
decode_escaped b h l rest e =
    ap
      (λ o. elim o [
        | none ↦ unescaped percent ∷ url_decode (h ∷ l ∷ rest)
        | some b ↦ b ∷ url_decode rest
      ])
      e

is_digits_of : ℕ → Option ℕ → Bool
is_digits_of c none = false
is_digits_of c (some b) = b == c

is_digits_of_lem : (c : ℕ) (o : Option ℕ) → is_digits_of c o ≡ true → o ≡ some c
unfolding is_digits_of
is_digits_of_lem c none h = cc
is_digits_of_lem c (some b) h = ap some ((==_iff b c).0 h)

-- The two digits of a byte, by evaluation at all of them.
escaped-digits :
    (c : ℕ) → IsByte c → escaped percent (hex_digit (c / 16)) (hex_digit (c % 16)) ≡ some c
unfolding all_below is_digits_of escaped hex_digit hex_value
escaped-digits c h =
    is_digits_of_lem c (escaped percent (hex_digit (c / 16)) (hex_digit (c % 16))) (
      all_below→at 256
        (λ c. is_digits_of c (escaped percent (hex_digit (c / 16)) (hex_digit (c % 16)))) c refl h)

unreserved_plain : (c : ℕ) → is_unreserved c ≡ true → ((c == percent) ≡ false) × (unescaped c ≡ c)
unfolding is_unreserved
unreserved_plain c e = (ground arith, ground arith)

decode_unreserved :
    (c : ℕ) (rest : List ℕ) → is_unreserved c ≡ true → url_decode (c ∷ rest) ≡ c ∷ url_decode rest
decode_unreserved c rest e =
    let (no_escape, same) = unreserved_plain c e in
    decode_unescaped c rest no_escape ∙ ap (λ x. x ∷ url_decode rest) same

decode_space :
    (c : ℕ) (s : Bool) (rest : List ℕ)
    → (c == space && s) ≡ true
    → url_decode (plus ∷ rest) ≡ c ∷ url_decode rest
decode_space c s rest k =
    let same : space ≡ c = ground arith in
    decode_unescaped plus rest refl ∙ ap (λ x. x ∷ url_decode rest) same

decode-encode_char :
    (s : Bool) (c : ℕ) (rest : List ℕ)
    → IsByte c
    → url_decode (encode_char s c ++ rest) ≡ c ∷ url_decode rest
unfolding encode_char
decode-encode_char s c rest h = elim (Bool-cases (is_unreserved c)) [
  | inl e ↦ rw e (decode_unreserved c rest e)
  | inr e ↦ rw e (elim (Bool-cases (c == space && s)) [
    | inl k ↦ rw k (decode_space c s rest k)
    | inr k ↦
        rw k (decode_escaped c (hex_digit (c / 16)) (hex_digit (c % 16)) rest (escaped-digits c h))
  ])
]

decode-encode_impl :
    (s : Bool) (raw : List ℕ) → All IsByte raw → url_decode (encode_impl s raw) ≡ raw
unfolding encode_impl
decode-encode_impl s [] h = unfold url_decode in refl
decode-encode_impl s (c ∷ raw) h =
    decode-encode_char s c (encode_impl s raw) h.0
    ∙ ap (λ rest. c ∷ rest) (decode-encode_impl s raw h.1)

-- A text of any bytes comes back from either encoding.
pub decode-encode :
    (raw : List ℕ)
    → All IsByte raw
    → (url_decode (url_encode raw) ≡ raw) × (url_decode (url_encode_query raw) ≡ raw)
unfolding url_encode url_encode_query
decode-encode raw h = (decode-encode_impl false raw h, decode-encode_impl true raw h)

-- What may stand in an encoded text.
abbrev pub IsSafe : Bool → ℕ → Type 0
IsSafe plus_allowed c = (is_unreserved c || c == percent || (c == plus && plus_allowed)) ≡ true

-- A digit is a character that needs no encoding.
hex_digit-unreserved : (d : ℕ) → d < 16 → is_unreserved (hex_digit d) ≡ true
unfolding is_unreserved hex_digit
hex_digit-unreserved d h = ground arith

unreserved-IsSafe : (s : Bool) (c : ℕ) → is_unreserved c ≡ true → IsSafe s c
unreserved-IsSafe s c e = rw e refl

encode_char-IsSafe :
    (s : Bool) (c : ℕ)
    → IsByte c
    → All (IsSafe s) (encode_char s c) × (length (encode_char s c) ≤ 3)
unfolding encode_char
encode_char-IsSafe s c h = elim (Bool-cases (is_unreserved c)) [
  | inl e ↦ rw e ((ground arith, tt), omega arith)
  | inr e ↦ rw e (elim (Bool-cases (c == space && s)) [
    | inl k ↦ rw k ((ground arith, tt), omega arith)
    | inr k ↦ rw k (
      (
        refl,
        (
          unreserved-IsSafe s (hex_digit (c / 16))
              (hex_digit-unreserved (c / 16) (omega (arith, h))),
          (
            unreserved-IsSafe s (hex_digit (c % 16)) (hex_digit-unreserved (c % 16) (omega arith)),
            tt,
          ),
        ),
      ),
      omega arith,
    )
  ])
]

-- An encoded text has only unreserved characters, `%` and, in a query, `+`; and it is at most three
-- times as long as the text.
pub encode_impl-IsSafe :
    (space_to_plus : Bool) (raw : List ℕ)
    → All IsByte raw
    → All (IsSafe space_to_plus) (encode_impl space_to_plus raw)
      × (length (encode_impl space_to_plus raw) ≤ 3 * length raw)
unfolding encode_impl
encode_impl-IsSafe s [] h = (tt, omega arith)
encode_impl-IsSafe s (c ∷ raw) h =
    let (safe, short) = encode_char-IsSafe s c h.0 in
    let (rest_safe, rest_short) = encode_impl-IsSafe s raw h.1 in
    (
      All-append (IsSafe s) (encode_char s c) (encode_impl s raw) safe rest_safe,
      omega (arith, length-append (encode_char s c) (encode_impl s raw)),
    )

-- Decoding never makes a text longer.
pub length-url_decode : (encoded : List ℕ) → length (url_decode encoded) ≤ length encoded
unfolding url_decode
length-url_decode [] = omega arith
length-url_decode (c ∷ []) = omega arith
length-url_decode (c ∷ d ∷ []) = omega (arith, length-url_decode (d ∷ []))
length-url_decode (c ∷ h ∷ l ∷ encoded) =
    by_escape (escaped c h l) (length-url_decode (h ∷ l ∷ encoded)) (length-url_decode encoded)
  where
    by_escape :
        (o : Option ℕ)
        → length (url_decode (h ∷ l ∷ encoded)) ≤ length (h ∷ l ∷ encoded)
        → length (url_decode encoded) ≤ length encoded
        → length (elim o [
          | none ↦ unescaped c ∷ url_decode (h ∷ l ∷ encoded)
          | some b ↦ b ∷ url_decode encoded
        ])
          ≤ length (c ∷ h ∷ l ∷ encoded)
    by_escape none ordinary skipped = omega arith
    by_escape (some b) ordinary skipped = omega arith
