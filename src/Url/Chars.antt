-- ===== src/Url/Chars.antt =====
-- The characters of a URL and the searches for them, of Url::Impl::Parse (src/neixx/url/url.cpp).
use libnei.Common.{
  ℕ, zero, suc, ◌+◌, ◌-◌, ◌*◌, ◌/◌, ◌%◌, ◌^◌, min, Bool, false, ◌&&◌, ◌||◌, Option, none, some, [],
  ◌∷◌, ltb, leb, ◌==◌, if◌then◌else◌, take, drop, Text, codes, text_equal,
}

unfoldable pub is_alpha : ℕ → Bool
is_alpha c = leb b'A' c && leb c b'Z' || leb b'a' c && leb c b'z'

unfoldable pub is_digit : ℕ → Bool
is_digit c = leb b'0' c && leb c b'9'

unfoldable pub is_scheme_char : ℕ → Bool
unfolding is_alpha is_digit
is_scheme_char c = is_alpha c || is_digit c || c == b'+' || c == b'-' || c == b'.'

-- `std::tolower`, in the C locale.
unfoldable pub to_lower : ℕ → ℕ
to_lower c = if leb b'A' c && leb c b'Z' then c + 32 else c

-- The characters from one place to another in lower case, in place.
unfoldable pub lower_between : ℕ → ℕ → Text → Text
lower_between begin end [] = []
lower_between zero zero (c ∷ s) = c ∷ s
lower_between zero (suc end) (c ∷ s) = to_lower c ∷ lower_between zero end s
lower_between (suc begin) zero (c ∷ s) = c ∷ s
lower_between (suc begin) (suc end) (c ∷ s) = c ∷ lower_between begin end s

abbrev pub next_place : Option ℕ → Option ℕ
next_place none = none
next_place (some i) = some (suc i)

-- The first place, from a place on, of a character that passes; `find`, `find_first_of` and the loops.
unfoldable pub find_if : (ℕ → Bool) → ℕ → Text → Option ℕ
find_if p pos [] = none
find_if p zero (c ∷ s) = let rest = next_place (find_if p zero s) in if p c then some 0 else rest
find_if p (suc pos) (c ∷ s) = next_place (find_if p pos s)

abbrev pub value_or : Option ℕ → ℕ → ℕ
value_or none d = d
value_or (some i) d = i

abbrev pub is : ℕ → ℕ → Bool
is c x = x == c

abbrev pub ends_authority : ℕ → Bool
ends_authority c = c == b'/' || c == b'?' || c == b'#'

abbrev pub ends_host : ℕ → Bool
ends_host c = c == b':' || c == b'/' || c == b'?' || c == b'#'

-- `substr(begin, end - begin)`
abbrev pub substr : ℕ → ℕ → Text → Text
substr begin end s = take (end - begin) (drop begin s)

unfoldable pub default_port_for_scheme : Text → ℕ
default_port_for_scheme scheme =
    if text_equal scheme (codes "http") || text_equal scheme (codes "ws")
    then 80
    else if text_equal scheme (codes "https") || text_equal scheme (codes "wss")
    then 443
    else if text_equal scheme (codes "ftp")
    then 21
    else if text_equal scheme (codes "ssh")
    then 22
    else 0

unfoldable pub is_space : ℕ → Bool
is_space c = c == 32 || leb 9 c && leb c 13

-- The value of the leading digits after a value, and how many they are.
unfoldable pub digits_value : ℕ → Text → ℕ × ℕ
unfolding is_digit
digits_value value [] = (value, 0)
digits_value value (c ∷ s) =
    let (v, n) = digits_value (value * 10 + (c - b'0')) s in
    if is_digit c then (v, suc n) else (value, 0)

-- `strtol` in base 10: the sign, the absolute value up to LONG_MAX and the number of characters that are
-- read, which is 0 where there is no digit.
abbrev starts_with : ℕ → Text → Bool
starts_with c [] = false
starts_with c (x ∷ s) = x == c

abbrev pub signed_digits : ℕ → Text → Bool × ℕ × ℕ
signed_digits before s =
    let negative = starts_with b'-' s in
    let skipped : ℕ = if negative || starts_with b'+' s then 1 else 0 in
    let (value, n) = digits_value 0 (drop skipped s) in
    if n == 0 then (false, 0, 0) else (negative, min value (2 ^ 63 - 1), before + skipped + n)

unfoldable pub strtol_from : ℕ → Text → Bool × ℕ × ℕ
unfolding is_space digits_value
strtol_from before [] = (false, 0, 0)
strtol_from before (c ∷ s) =
    let rest = strtol_from (suc before) s in
    if is_space c then rest else signed_digits before (c ∷ s)

-- `std::to_string` of a number of at most five digits.
unfoldable pub digits : ℕ → ℕ → Text → Text
digits zero n after = after
digits (suc places) n after =
    let more = digits places (n / 10) ((b'0' + n % 10) ∷ after) in
    if ltb n 10 then (b'0' + n) ∷ after else more

unfoldable pub to_string : ℕ → Text
unfolding digits
to_string n = digits 5 n []
