-- ===== src/Url/Parser/Places.antt =====
-- The places of the components lie in the text.
use libnei.Common.{
  ℕ, zero, suc, ◌+◌, ◌≤◌, ◌<◌, ◌≡◌, refl, ap, inl, inr, Bool, true, ◌&&◌, some, [], ◌∷◌, arith, ltb,
  ◌==◌, length, not, if◌then◌else◌, Text, Bool-cases, Option-cases,
}
use libnei.Url.Chars.{
  lower_between, find_if, value_or, is, ends_authority, ends_host, is_scheme_char,
}
use libnei.Url.Parser.{
  Url, reset, size, at, stands_at, parse_relative, with_userinfo, parse_userinfo, eat_host,
  lower_host, parse_host, parse_port, host_or_none, parse_after_slashes, parse_authority,
  parse_path, parse_query, with_fragment, parse_fragment, parse_default_port, parse_with_scheme,
  scheme_size, parse,
}

pub length-lower_between :
    (begin end : ℕ) (s : Text) → length (lower_between begin end s) ≡ length s
unfolding lower_between
length-lower_between begin end [] = refl
length-lower_between zero zero (c ∷ s) = refl
length-lower_between zero (suc end) (c ∷ s) = ap suc (length-lower_between zero end s)
length-lower_between (suc begin) zero (c ∷ s) = refl
length-lower_between (suc begin) (suc end) (c ∷ s) = ap suc (length-lower_between begin end s)

-- What is found is at the place where the search begins, or behind it.
find_if_bounds :
    (p : ℕ → Bool) (pos : ℕ) (s : Text) (i : ℕ)
    → find_if p pos s ≡ some i
    → (pos ≤ i) × (i < length s)
unfolding find_if
find_if_bounds p pos [] i e = cc
find_if_bounds p zero (c ∷ s) i e = elim (Option-cases (find_if p zero s)) [
  | inl n ↦ ground arith
  | inr (j, f) ↦ ground (arith, find_if_bounds p zero s j f)
]
find_if_bounds p (suc pos) (c ∷ s) i e = elim (Option-cases (find_if p pos s)) [
  | inl n ↦ ground arith
  | inr (j, f) ↦ ground (arith, find_if_bounds p pos s j f)
]

found_or :
    (p : ℕ → Bool) (pos : ℕ) (s : Text) (d : ℕ)
    → pos ≤ d
    → d ≤ length s
    → (pos ≤ value_or (find_if p pos s) d) × (value_or (find_if p pos s) d ≤ length s)
found_or p pos s d low high = elim (Option-cases (find_if p pos s)) [
  | inl n ↦ ground arith
  | inr (j, f) ↦ ground (arith, find_if_bounds p pos s j f)
]

-- Each component begins before its end, which is in the text.
pub record Within (u : Url) : Type 0 where
  pub scheme_within : (u.scheme_begin ≤ u.scheme_end) × (u.scheme_end ≤ size u)
  pub user_within : (u.user_begin ≤ u.user_end) × (u.user_end ≤ size u)
  pub pass_within : (u.pass_begin ≤ u.pass_end) × (u.pass_end ≤ size u)
  pub host_within : (u.host_begin ≤ u.host_end) × (u.host_end ≤ size u)
  pub port_within : (u.port_begin ≤ u.port_end) × (u.port_end ≤ size u)
  pub path_within : (u.path_begin ≤ u.path_end) × (u.path_end ≤ size u)
  pub query_within : (u.query_begin ≤ u.query_end) × (u.query_end ≤ size u)
  pub frag_within : (u.frag_begin ≤ u.frag_end) × (u.frag_end ≤ size u)

-- So they do where a section ends, which is in the text too and not before where it began.
abbrev WithinAt : ℕ → Url × ℕ → Type 0
WithinAt pos (u, after) = Within u × (pos ≤ after) × (after ≤ size u)

eat_host_bounds :
    (u : Url) (pos : ℕ) → pos ≤ size u → (pos ≤ eat_host u pos) × (eat_host u pos ≤ size u)
unfolding eat_host
eat_host_bounds u pos h = ground (arith, found_or ends_host pos u.spec (size u))

with_userinfo-Within :
    (u : Url) (pos at_sign : ℕ)
    → Within u
    → pos ≤ at_sign
    → at_sign ≤ size u
    → Within (with_userinfo u pos at_sign) × (size (with_userinfo u pos at_sign) ≡ size u)
unfolding with_userinfo
with_userinfo-Within u pos at_sign w low high =
    ground (arith, found_or (is b':') pos u.spec at_sign low high)

parse_userinfo-Within :
    (u : Url) (pos auth_end : ℕ)
    → Within u
    → pos ≤ auth_end
    → auth_end ≤ size u
    → WithinAt pos (parse_userinfo u pos auth_end)
      × (size (parse_userinfo u pos auth_end).0 ≡ size u)
unfolding parse_userinfo
parse_userinfo-Within u pos auth_end w low high = ground (
  arith,
  found_or (is b'@') pos u.spec auth_end low high,
  with_userinfo-Within u pos (value_or (find_if (is b'@') pos u.spec) auth_end) w,
)

lower_host-Within :
    (u : Url) (begin end : ℕ)
    → Within u
    → begin ≤ end
    → end ≤ size u
    → let v = lower_host (record u { host_begin = begin; host_end = end }) in
      Within v × (size v ≡ size u)
unfolding lower_host
lower_host-Within u begin end w low high = omega (arith, length-lower_between begin end u.spec)

parse_host-Within :
    (u : Url) (pos auth_end : ℕ)
    → Within u
    → pos ≤ size u
    → WithinAt pos (parse_host u pos auth_end) × (size (parse_host u pos auth_end).0 ≡ size u)
unfolding parse_host
parse_host-Within u pos auth_end w h =
    let eaten = eat_host_bounds u pos h in
    let registered = lower_host-Within u pos (eat_host u pos) w eaten.0 eaten.1 in
    elim (Option-cases (find_if (is b']') pos u.spec)) [
      | inl e ↦ ground (arith, registered)
      | inr (close, e) ↦
          let (low, high) = find_if_bounds (is b']') pos u.spec close e in
          let literal = lower_host-Within u pos (close + 1) w (omega arith) (omega arith) in
          ground (arith, registered, literal)
    ]

parse_port-Within :
    (u : Url) (pos auth_end : ℕ)
    → Within u
    → pos ≤ size u
    → auth_end ≤ size u
    → WithinAt pos (parse_port u pos auth_end) × (size (parse_port u pos auth_end).0 ≡ size u)
unfolding parse_port
parse_port-Within u pos auth_end w h high = ground (arith, eat_host_bounds u (pos + 1))

host_or_none-Within :
    (u : Url) → Within u → Within (host_or_none u) × (size (host_or_none u) ≡ size u)
unfolding host_or_none
host_or_none-Within u w = ground arith

parse_path-Within : (u : Url) (pos : ℕ) → Within u → Within (parse_path (u, pos))
unfolding parse_path
parse_path-Within u pos w = ground arith

parse_query-Within : (u : Url) → Within u → Within (parse_query u)
unfolding parse_query
parse_query-Within u w = elim (Option-cases (find_if (is b'?') u.path_begin u.spec)) [
  | inl e ↦ ground arith
  | inr (q, e) ↦ ground (arith, find_if_bounds (is b'?') u.path_begin u.spec q e)
]

parse_default_port-Within : (u : Url) → Within u → Within (parse_default_port u)
unfolding parse_default_port
parse_default_port-Within u w = ground arith

parse_relative-Within : (u : Url) → Within u → Within (parse_relative u)
unfolding parse_relative
parse_relative-Within u w = ground arith

with_fragment-Within :
    (u : Url) (f : ℕ)
    → Within u
    → (if ltb 0 u.query_begin then u.query_begin else u.path_begin) ≤ f
    → f < size u
    → Within (with_fragment u f)
unfolding with_fragment
with_fragment-Within u f w low high = ground arith

parse_fragment-Within : (u : Url) → Within u → Within (parse_fragment u)
unfolding parse_fragment
parse_fragment-Within u w =
    let from = if ltb 0 u.query_begin then u.query_begin else u.path_begin in
    elim (Option-cases (find_if (is b'#') from u.spec)) [
      | inl e ↦ rw (e, parse_fragment) w
      | inr (f, e) ↦
          let (low, high) = find_if_bounds (is b'#') from u.spec f e in
          rw (e, parse_fragment) (with_fragment-Within u f w low high)
    ]

parse_after_slashes-Within :
    (u : Url) (pos : ℕ) → Within u → pos ≤ size u → Within (parse_after_slashes u pos).0
unfolding parse_after_slashes
parse_after_slashes-Within u pos w h =
    let auth_end = value_or (find_if ends_authority pos u.spec) (size u) in
    let (low, high) = found_or ends_authority pos u.spec (size u) h (omega arith) in
    let ((v, from, upto), same) = parse_userinfo-Within u pos auth_end w low high in
    let (u1, p1) = parse_userinfo u pos auth_end in
    let ((v2, from2, upto2), same2) = parse_host-Within u1 p1 auth_end v upto in
    let (u2, p2) = parse_host u1 p1 auth_end in
    let ((v3, from3, upto3), same3) = parse_port-Within u2 p2 auth_end v2 upto2 (omega arith) in
    (host_or_none-Within (parse_port u2 p2 auth_end).0 v3).0

both_stand :
    (n a b pos : ℕ)
    → (ltb pos n && a == b'/' && (ltb (pos + 1) n && b == b'/')) ≡ true
    → pos + 2 ≤ n
both_stand n a b pos e = ground arith

parse_authority-Within : (u : Url) (pos : ℕ) → Within u → Within (parse_authority u pos).0
unfolding parse_authority
parse_authority-Within u pos w =
    elim (Bool-cases (stands_at b'/' u pos && stands_at b'/' u (pos + 1))) [
      | inl e ↦
          rw (e, parse_authority)
            (parse_after_slashes-Within u (pos + 2) w
              (both_stand (size u) (at u pos) (at u (pos + 1)) pos e))
      | inr e ↦ rw (e, parse_authority) w
    ]

scheme_size-le : (s : Text) → scheme_size s ≤ length s
scheme_size-le s =
    (found_or (λ c. not (is_scheme_char c)) 0 s (length s) (omega arith) (omega arith)).1

parse_with_scheme-Within : (s : Text) (n : ℕ) → n ≤ length s → Within (parse_with_scheme s n)
unfolding parse_with_scheme
parse_with_scheme-Within s n h =
    let u = record (reset (lower_between 0 n s)) { scheme_begin = 0; scheme_end = n } in
    let w : Within u = omega (arith, length-lower_between 0 n s) in
    let (v, after) = parse_authority u (n + 1) in
    parse_default_port-Within _ (
      parse_fragment-Within _
        (parse_query-Within _ (parse_path-Within v after (parse_authority-Within u (n + 1) w))))

-- Whatever the text, each component of the URL that is parsed begins before it ends, and ends in the text:
-- no access of the components is out of range.
pub parse-Within : (s : Text) → Within (parse s)
unfolding parse
parse-Within [] = omega arith
parse-Within (c ∷ s) =
    let text = c ∷ s in
    ground (
      arith,
      parse_with_scheme-Within text (scheme_size text) (scheme_size-le text),
      parse_relative-Within (reset text),
    )
