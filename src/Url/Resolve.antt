-- ===== src/Url/Resolve.antt =====
-- Url::Resolve and NormalizePathSegments (src/neixx/url/url.cpp).
pub mod Segments
pub mod SameOrigin
mod Tests
use libnei.Common.{
  ℕ, suc, ◌+◌, ◌-◌, Bool, true, false, not, ◌&&◌, ◌||◌, Option, none, some, List, [], ◌∷◌, ◌++◌,
  ltb, leb, ◌==◌, if◌then◌else◌, length, take, drop, Text, codes, text_equal,
}
use libnei.Url.Chars.{is, find_if, substr}
use libnei.Url.Parser.{Url, parse, scheme, host, path, query, fragment, port_suffix, is_nil}

-- The pieces between the slashes.
abbrev first_longer : ℕ → List Text → List Text
first_longer c [] = (c ∷ []) ∷ []
first_longer c (piece ∷ pieces) = (c ∷ piece) ∷ pieces

unfoldable pub split : Text → List Text
split [] = [] ∷ []
split (c ∷ s) = let pieces = split s in if c == b'/' then [] ∷ pieces else first_longer c pieces

abbrev pop_back : List Text → List Text
pop_back [] = []
pop_back (x ∷ []) = []
pop_back (x ∷ y ∷ xs) = x ∷ pop_back (y ∷ xs)

-- A round of the loop. After a last slash the loop makes no round; the empty piece changes nothing.
unfoldable pub push_segment : List Text → Text → List Text
push_segment segments seg =
    if text_equal seg (codes "..")
    then pop_back segments
    else if not (text_equal seg (codes ".")) && not (is_nil seg)
    then segments ++ (seg ∷ [])
    else segments

unfoldable pub push_segments : List Text → List Text → List Text
unfolding push_segment
push_segments segments [] = segments
push_segments segments (seg ∷ pieces) = push_segments (push_segment segments seg) pieces

unfoldable pub joined_by_slash : List Text → Text
joined_by_slash [] = []
joined_by_slash (x ∷ []) = x
joined_by_slash (x ∷ y ∷ xs) = x ++ (b'/' ∷ joined_by_slash (y ∷ xs))

abbrev starts_with : ℕ → Text → Bool
starts_with c [] = false
starts_with c (x ∷ s) = x == c

-- `!s.empty() && s.back() == c`
abbrev ends_with : ℕ → Text → Bool
ends_with c [] = false
ends_with c (x ∷ []) = x == c
ends_with c (x ∷ y ∷ s) = ends_with c (y ∷ s)

abbrev without_slash : Text → Text
without_slash [] = []
without_slash (c ∷ s) = if c == b'/' then s else c ∷ s

unfoldable pub normalize_path_segments : Text → Text
unfolding split push_segments joined_by_slash
normalize_path_segments [] = codes "/"
normalize_path_segments (c ∷ s) =
    let text = c ∷ s in
    let segments = push_segments [] (split (without_slash text)) in
    let result = (if c == b'/' then codes "/" else []) ++ joined_by_slash segments in
    if ends_with b'/' text && not (is_nil result) && not (ends_with b'/' result)
    then result ++ codes "/"
    else result

abbrev after : ℕ → Text → Text
after c [] = []
after c (x ∷ s) = c ∷ x ∷ s

-- "?" and the query, and "#" and the fragment, where they are not empty.
abbrev suffixes : Url → Text
suffixes ref = after b'?' (query ref) ++ after b'#' (fragment ref)

-- `scheme() + "://" + host()` and the port.
unfoldable pub base : Url → Text
unfolding port_suffix
base u = scheme u ++ (codes "://" ++ (host u ++ port_suffix u))

-- `rfind('/')`
abbrev last_slash : Text → Option ℕ
last_slash [] = none
last_slash (c ∷ s) = elim (last_slash s) [
  | some i ↦ some (suc i)
  | none ↦ if c == b'/' then some 0 else none
]

-- Up to the last slash, and "/" where there is none.
unfoldable pub directory : Text → Text
directory s = let cut = last_slash s in elim cut [ none ↦ codes "/" | some i ↦ take (i + 1) s ]

unfoldable pub merge : Url → Text → Text
unfolding directory normalize_path_segments
merge u ref_path =
    normalize_path_segments (directory (substr u.path_begin u.path_end u.spec) ++ ref_path)

-- The text of the reference with neither scheme nor host.
unfoldable pub resolve_path : Url → Url → Text
unfolding base merge
resolve_path u ref =
    if is_nil (path ref)
    then take u.path_end u.spec ++ suffixes ref
    else if starts_with b'/' (path ref)
    then base u ++ drop ref.path_begin ref.spec
    else base u ++ (merge u (path ref) ++ suffixes ref)

unfoldable pub resolve : Url → Text → Url
unfolding resolve_path
resolve u [] = u
resolve u (c ∷ s) =
    let ref = parse (c ∷ s) in
    if not ref.valid
    then u
    else if not (is_nil (scheme ref))
    then ref
    else if not (is_nil (host ref))
    then parse (scheme u ++ (codes "://" ++ drop ref.host_begin ref.spec))
    else parse (resolve_path u ref)
