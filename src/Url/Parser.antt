-- ===== src/Url/Parser.antt =====
-- Url::Impl (src/neixx/url/url.cpp): a URL and the places of its components. The functions give the state
-- of Parse after each of its sections, and the place where it has come.
pub mod Places
pub mod Searches
pub mod Authority
pub mod Composed
pub mod Ports
pub mod Whole
pub mod Read
pub mod Paths
mod Cache
use libnei.Common.{
  ℕ, zero, suc, ◌+◌, ◌-◌, Bool, true, false, not, ◌&&◌, ◌||◌, Option, none, some, List, [], ◌∷◌,
  ◌++◌, ltb, leb, ◌==◌, if◌then◌else◌, length, get_or, take, drop, Text, codes,
}
use libnei.Url.Chars.{
  is_scheme_char, lower_between, find_if, value_or, is, ends_authority, ends_host, substr,
  default_port_for_scheme, strtol_from, to_string,
}

pub record Url : Type 0 where
  pub spec : Text
  pub scheme_begin : ℕ
  pub scheme_end : ℕ
  pub user_begin : ℕ
  pub user_end : ℕ
  pub pass_begin : ℕ
  pub pass_end : ℕ
  pub host_begin : ℕ
  pub host_end : ℕ
  pub port_begin : ℕ
  pub port_end : ℕ
  pub path_begin : ℕ
  pub path_end : ℕ
  pub query_begin : ℕ
  pub query_end : ℕ
  pub frag_begin : ℕ
  pub frag_end : ℕ
  pub port_value : ℕ
  pub port_explicit : Bool
  pub valid : Bool

-- Reset keeps the text.
abbrev pub reset : Text → Url
reset spec = record {
  spec = spec;
  scheme_begin = 0;
  scheme_end = 0;
  user_begin = 0;
  user_end = 0;
  pass_begin = 0;
  pass_end = 0;
  host_begin = 0;
  host_end = 0;
  port_begin = 0;
  port_end = 0;
  path_begin = 0;
  path_end = 0;
  query_begin = 0;
  query_end = 0;
  frag_begin = 0;
  frag_end = 0;
  port_value = 0;
  port_explicit = false;
  valid = false;
}

abbrev pub size : Url → ℕ
size u = length u.spec

-- The character at a place that is checked to be one, and is 0 elsewhere.
abbrev pub at : Url → ℕ → ℕ
at u pos = get_or u.spec pos 0

-- `pos < size && s[pos] == c`
abbrev pub stands_at : ℕ → Url → ℕ → Bool
stands_at c u pos = ltb pos (size u) && at u pos == c

unfoldable pub parse_relative : Url → Url
parse_relative u =
    let v = record u { valid = true } in
    if stands_at b'?' u 0
    then record v { query_begin = 1; query_end = size u }
    else if stands_at b'#' u 0
    then record v { frag_begin = 1; frag_end = size u }
    else record v { path_begin = 0; path_end = size u }

-- The password stands behind the first colon before the @.
unfoldable pub with_userinfo : Url → ℕ → ℕ → Url
with_userinfo u pos at_sign =
    let v = record u { user_begin = pos } in
    let colon = value_or (find_if (is b':') pos u.spec) at_sign in
    if ltb colon at_sign
    then record v { user_end = colon; pass_begin = colon + 1; pass_end = at_sign }
    else record v { user_end = at_sign }

unfoldable pub parse_userinfo : Url → ℕ → ℕ → Url × ℕ
unfolding with_userinfo
parse_userinfo u pos auth_end =
    let at_sign = value_or (find_if (is b'@') pos u.spec) auth_end in
    if ltb at_sign auth_end then (with_userinfo u pos at_sign, at_sign + 1) else (u, pos)

unfoldable pub eat_host : Url → ℕ → ℕ
eat_host u pos = if leb (size u) pos then pos else value_or (find_if ends_host pos u.spec) (size u)

unfoldable pub lower_host : Url → Url
lower_host u = record u { spec = lower_between u.host_begin u.host_end u.spec }

unfoldable pub parse_host : Url → ℕ → ℕ → Url × ℕ
unfolding eat_host lower_host
parse_host u pos auth_end =
    if ltb pos auth_end && at u pos == b'['
    then elim (find_if (is b']') pos u.spec) [
      | none ↦ (u, pos)
      | some close ↦ (lower_host (record u { host_begin = pos; host_end = close + 1 }), close + 1)
    ]
    else (lower_host (record u { host_begin = pos; host_end = eat_host u pos }), eat_host u pos)

abbrev port_read : Url → Bool × ℕ × ℕ → Url
port_read u (negative, p, read) =
    let whole = read == u.port_end - u.port_begin in
    if whole && ltb 0 p && not negative && leb p 65535
    then record u { port_value = p; port_explicit = true }
    else u

unfoldable pub parse_port : Url → ℕ → ℕ → Url × ℕ
unfolding eat_host
parse_port u pos auth_end =
    let begin = pos + 1 in
    let end = eat_host u begin in
    let v = record u { port_begin = begin; port_end = end } in
    if ltb pos auth_end && at u pos == b':'
    then (port_read v (strtol_from 0 (drop begin u.spec)), end)
    else (u, pos)

unfoldable pub host_or_none : Url → Url
host_or_none u =
    if leb u.host_end u.host_begin then record u { host_begin = 0; host_end = 0 } else u

-- What stands behind "//".
unfoldable pub parse_after_slashes : Url → ℕ → Url × ℕ
unfolding parse_userinfo parse_host parse_port host_or_none
parse_after_slashes u pos =
    let auth_end = value_or (find_if ends_authority pos u.spec) (size u) in
    let (v, host_pos) = parse_userinfo u pos auth_end in
    let (w, port_pos) = parse_host v host_pos auth_end in
    let (x, after) = parse_port w port_pos auth_end in (host_or_none x, after)

unfoldable pub parse_authority : Url → ℕ → Url × ℕ
parse_authority u pos =
    if stands_at b'/' u pos && stands_at b'/' u (pos + 1)
    then parse_after_slashes u (pos + 2)
    else (u, pos)

unfoldable pub parse_path : Url × ℕ → Url
parse_path (u, pos) =
    if ltb pos (size u) then record u { path_begin = pos; path_end = size u } else u

unfoldable pub parse_query : Url → Url
parse_query u = elim (find_if (is b'?') u.path_begin u.spec) [
  | none ↦ u
  | some q ↦ record u { path_end = q; query_begin = q + 1; query_end = size u }
]

unfoldable pub with_fragment : Url → ℕ → Url
with_fragment u f =
    let v = record u { frag_begin = f + 1; frag_end = size u } in
    if ltb 0 u.query_begin then record v { query_end = f } else record v { path_end = f }

unfoldable pub parse_fragment : Url → Url
unfolding with_fragment
parse_fragment u =
    let from = if ltb 0 u.query_begin then u.query_begin else u.path_begin in
    elim (find_if (is b'#') from u.spec) [ none ↦ u | some f ↦ with_fragment u f ]

unfoldable pub parse_default_port : Url → Url
parse_default_port u =
    let port = default_port_for_scheme (substr u.scheme_begin u.scheme_end u.spec) in
    let v = record u { valid = true } in
    if u.port_explicit then v else record v { port_value = port }

-- The text has a scheme of `n` characters.
unfoldable pub parse_with_scheme : Text → ℕ → Url
parse_with_scheme s n =
    let u = record (reset (lower_between 0 n s)) { scheme_begin = 0; scheme_end = n } in
    parse_default_port (parse_fragment (parse_query (parse_path (parse_authority u (n + 1)))))

abbrev pub scheme_size : Text → ℕ
scheme_size s = value_or (find_if (λ c. not (is_scheme_char c)) 0 s) (length s)

unfoldable pub parse : Text → Url
parse [] = reset []
parse (c ∷ s) =
    let text = c ∷ s in
    let n = scheme_size text in
    if ltb 0 n && stands_at b':' (reset text) n
    then parse_with_scheme text n
    else parse_relative (reset text)

-- The public accessors.
abbrev part : ℕ → ℕ → Url → Text
part begin end u = if ltb begin end then substr begin end u.spec else []

abbrev pub scheme : Url → Text
scheme u = part u.scheme_begin u.scheme_end u

abbrev pub user : Url → Text
user u = part u.user_begin u.user_end u

abbrev pub password : Url → Text
password u = part u.pass_begin u.pass_end u

abbrev pub host : Url → Text
host u = part u.host_begin u.host_end u

abbrev pub path : Url → Text
path u = part u.path_begin u.path_end u

abbrev pub query : Url → Text
query u = part u.query_begin u.query_end u

abbrev pub fragment : Url → Text
fragment u = part u.frag_begin u.frag_end u

-- The port where it is written and not the scheme's.
unfoldable pub port_suffix : Url → Text
port_suffix u =
    if u.port_explicit && not (u.port_value == default_port_for_scheme (scheme u))
    then b':' ∷ to_string u.port_value
    else []

abbrev pub is_nil : Text → Bool
is_nil [] = true
is_nil (c ∷ s) = false

-- Without its cache.
unfoldable pub origin : Url → Text
unfolding port_suffix
origin u =
    if is_nil u.spec || is_nil (scheme u) || is_nil (host u)
    then []
    else scheme u ++ (codes "://" ++ (host u ++ port_suffix u))
