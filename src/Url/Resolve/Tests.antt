-- ===== src/Url/Resolve/Tests.antt =====
-- Runs of the URL parser on concrete inputs, and the theorems at concrete inputs.
use libnei.Common.{◌≡◌, refl, true, [], codes, All, text_equal, arith, inr}
use libnei.Url.Chars.{
  is_scheme_char, is_alpha, is_digit, lower_between, find_if, strtol_from, to_string,
  default_port_for_scheme, to_lower,
}
use libnei.Url.Parser.{
  Url, parse, scheme, user, password, host, path, query, fragment, origin, parse_with_scheme,
  parse_relative, parse_authority, parse_after_slashes, parse_path, parse_query, parse_fragment,
  parse_default_port,
}
use libnei.Url.Parser.Places.{Within, parse-Within}
use libnei.Url.Parser.Authority.{IsHostChar}
use libnei.Url.Parser.Whole.{IsSchemeChar}
use libnei.Url.Parser.Read.{Reads, parse_port_Reads}
use libnei.Url.Parser.Paths.{EndsIn, parse_path_Reads}
use libnei.Url.Resolve.{resolve, split, normalize_path_segments, push_segment}
use libnei.Url.Resolve.Segments.{Dotless, normalize_path_segments-Dotless}
use libnei.Url.Resolve.SameOrigin.{SameOrigin, resolve-SameOrigin}

abbrev page : Url
page = parse (codes "HTTP://me:pw@Example.com:8080/a/b?x=1#top")

page_run :
    (scheme page ≡ codes "http")
    × (user page ≡ codes "me")
    × (password page ≡ codes "pw")
    × (host page ≡ codes "example.com")
    × (page.port_value ≡ 8080)
    × (path page ≡ codes "/a/b")
    × (query page ≡ codes "x=1")
    × (fragment page ≡ codes "top")
    × (origin page ≡ codes "http://example.com:8080")
unfolding parse parse_with_scheme parse_relative parse_authority parse_after_slashes parse_path
    parse_query parse_fragment parse_default_port origin is_scheme_char lower_between find_if
    strtol_from to_string default_port_for_scheme to_lower text_equal
page_run = (refl, refl, refl, refl, refl, refl, refl, refl, refl)

-- A relative path takes the place of what stands behind the last slash.
relative_run : (resolve page (codes "../c/./d?y")).spec ≡ codes "http://example.com:8080/c/d?y"
unfolding resolve parse parse_with_scheme parse_relative parse_authority parse_after_slashes
    parse_path parse_query parse_fragment parse_default_port origin is_scheme_char lower_between
    find_if strtol_from to_string default_port_for_scheme to_lower text_equal push_segment
relative_run = refl

-- A reference with a host and no scheme.
network_path_run :
    (resolve page (codes "//other.org/c")).spec ≡ codes "http://example.com:8080//other.org/c"
unfolding resolve parse parse_with_scheme parse_relative parse_authority parse_after_slashes
    parse_path parse_query parse_fragment parse_default_port origin is_scheme_char lower_between
    find_if strtol_from to_string default_port_for_scheme to_lower text_equal
network_path_run = refl

-- A reference that is a query, and a base without a path.
query_run : (resolve (parse (codes "http://a.org")) (codes "?q")).spec ≡ codes "?q"
unfolding resolve parse parse_with_scheme parse_relative parse_authority parse_after_slashes
    parse_path parse_query parse_fragment parse_default_port origin is_scheme_char lower_between
    find_if strtol_from to_string default_port_for_scheme to_lower text_equal
query_run = refl

-- A question mark in a fragment.
fragment_run :
    let u = parse (codes "http://a.org/p#f?x") in
    (path u ≡ codes "/p#f") × (query u ≡ codes "x") × (fragment u ≡ [])
unfolding parse parse_with_scheme parse_relative parse_authority parse_after_slashes parse_path
    parse_query parse_fragment parse_default_port is_scheme_char lower_between find_if strtol_from
    default_port_for_scheme to_lower text_equal
fragment_run = (refl, refl, refl)

-- A bracket that closes in the query.
ipv6_run :
    let u = parse (codes "http://[a/b?c]") in
    (host u ≡ codes "[a/b?c]") × (path u ≡ codes "http://[a/b")
unfolding parse parse_with_scheme parse_relative parse_authority parse_after_slashes parse_path
    parse_query parse_fragment parse_default_port origin is_scheme_char lower_between find_if
    strtol_from to_string default_port_for_scheme to_lower text_equal
ipv6_run = (refl, refl)

http-IsSchemeChar : All IsSchemeChar (codes "http")
unfolding is_scheme_char is_alpha is_digit to_lower
http-IsSchemeChar = ((refl, refl), ((refl, refl), ((refl, refl), ((refl, refl), tt))))

a_org-IsHostChar : All IsHostChar (codes "a.org")
unfolding to_lower
a_org-IsHostChar = (
  (refl, refl, refl, refl),
  (
    (refl, refl, refl, refl),
    ((refl, refl, refl, refl), ((refl, refl, refl, refl), ((refl, refl, refl, refl), tt))),
  ),
)

-- The theorems at concrete inputs.
parse-Within_example : Within page
parse-Within_example = parse-Within (codes "HTTP://me:pw@Example.com:8080/a/b?x=1#top")

normalize_path_segments-Dotless_example :
    All Dotless (split (normalize_path_segments (codes "/a/../b/./c")))
normalize_path_segments-Dotless_example = normalize_path_segments-Dotless (codes "/a/../b/./c")

org-Reads :
    Reads
      (parse (codes "http://a.org:8080/x"))
      (codes "http://a.org:8080/x")
      (codes "http")
      (codes "a.org")
      true
      8080
unfolding to_string
org-Reads =
    parse_port_Reads b'h' (codes "ttp") b'a' (codes ".org") (codes "x") http-IsSchemeChar
      a_org-IsHostChar 8080 (omega arith) (omega arith)

parse_path_Reads_example :
    Reads
      (parse (codes "http://a.org:8080/x"))
      (codes "http://a.org:8080/x")
      (codes "http")
      (codes "a.org")
      true
      8080
    × EndsIn (parse (codes "http://a.org:8080/x")) (codes "/x")
unfolding to_string
parse_path_Reads_example =
    parse_path_Reads b'h' (codes "ttp") b'a' (codes ".org") (codes "x") http-IsSchemeChar
      a_org-IsHostChar 8080 (omega arith) (omega arith) (refl, tt) (refl, tt)

resolve-SameOrigin_example :
    SameOrigin
      (parse (codes "http://a.org:8080/x"))
      (resolve (parse (codes "http://a.org:8080/x")) (codes "//b.net/y"))
unfolding to_string
resolve-SameOrigin_example =
    resolve-SameOrigin (parse (codes "http://a.org:8080/x")) b'h' (codes "ttp://a.org:8080/x") b'h'
      (codes "ttp") b'a' (codes ".org") true 8080 (codes "/b.net/y") org-Reads http-IsSchemeChar
      a_org-IsHostChar (inr (refl, omega arith, omega arith))
