-- ===== src/Url/Encoding.antt =====
-- Percent-encoding (src/neixx/url/url_encoding.cpp). A text is the list of its bytes. `char` may be
-- signed: a byte above 127 is then negative, and is in none of the ranges below either way.
pub mod RoundTrip
use libnei.Common.{
  ℕ, ◌+◌, ◌-◌, ◌*◌, ◌/◌, ◌%◌, bit_or, Bool, true, false, ◌&&◌, ◌||◌, List, [], ◌∷◌, ◌++◌, Option,
  none, some, ltb, leb, ◌==◌, if◌then◌else◌,
}

abbrev pub plus : ℕ
plus = 0x2b

abbrev pub percent : ℕ
percent = 0x25

abbrev pub space : ℕ
space = 0x20

abbrev in_range : ℕ → ℕ → ℕ → Bool
in_range first last c = leb first c && leb c last

-- `HexValue`, where `none` is -1.
pub hex_value : ℕ → Option ℕ
hex_value c =
    if in_range 0x30 0x39 c
    then some (c - 0x30)
    else if in_range 0x41 0x46 c
    then some (c - 0x41 + 10)
    else if in_range 0x61 0x66 c
    then some (c - 0x61 + 10)
    else none

-- `IsUnreserved`
pub is_unreserved : ℕ → Bool
is_unreserved c =
    in_range 0x41 0x5a c
    || in_range 0x61 0x7a c
    || in_range 0x30 0x39 c
    || c == 0x2d
    || c == 0x2e
    || c == 0x5f
    || c == 0x7e

-- A digit that `std::uppercase << std::hex` writes.
pub hex_digit : ℕ → ℕ
hex_digit d = if ltb d 10 then 0x30 + d else 0x41 + (d - 10)

-- What the loop of `EncodeImpl` writes for one character.
pub encode_char : Bool → ℕ → List ℕ
unfolding is_unreserved hex_digit
encode_char space_to_plus c =
    if is_unreserved c
    then c ∷ []
    else if c == space && space_to_plus
    then plus ∷ []
    else percent ∷ hex_digit (c / 16) ∷ hex_digit (c % 16) ∷ []

pub encode_impl : Bool → List ℕ → List ℕ
unfolding encode_char
encode_impl space_to_plus [] = []
encode_impl space_to_plus (c ∷ raw) = encode_char space_to_plus c ++ encode_impl space_to_plus raw

pub url_encode : List ℕ → List ℕ
unfolding encode_impl
url_encode raw = encode_impl false raw

unfoldable pub url_encode_query : List ℕ → List ℕ
unfolding encode_impl
url_encode_query raw = encode_impl true raw

-- `(hi << 4) | lo`, where both are digits.
abbrev pub joined : Option ℕ → Option ℕ → Option ℕ
joined (some hi) (some lo) = some (bit_or (hi * 16) lo)
joined _ _ = none

-- The byte that `%` and two digits stand for.
pub escaped : ℕ → ℕ → ℕ → Option ℕ
unfolding hex_value
escaped c h l = if c == percent then joined (hex_value h) (hex_value l) else none

abbrev pub unescaped : ℕ → ℕ
unescaped c = if c == plus then space else c

-- `UrlDecode`: an escape takes three characters, `i + 2 < encoded.size()`.
unfoldable pub url_decode : List ℕ → List ℕ
unfolding escaped
url_decode [] = []
url_decode (c ∷ []) = unescaped c ∷ []
url_decode (c ∷ d ∷ []) = unescaped c ∷ url_decode (d ∷ [])
url_decode (c ∷ h ∷ l ∷ encoded) = elim (escaped c h l) [
  | none ↦ unescaped c ∷ url_decode (h ∷ l ∷ encoded)
  | some b ↦ b ∷ url_decode encoded
]
