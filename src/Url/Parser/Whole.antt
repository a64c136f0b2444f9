-- ===== src/Url/Parser/Whole.antt =====
-- Parse on a whole text with a scheme and an authority.
use mathlib.Core.Path.{subst}
use mathlib.Core.List.{append_assoc}
use libnei.Common.{
  ℕ, suc, ◌+◌, ◌<◌, ◌≡◌, refl, ap, sym, ◌∙◌, true, false, not, ◌&&◌, [], ◌∷◌, ◌++◌, arith, ◌==◌,
  length, length-append, get_or, All, Text, codes,
}
use libnei.Url.Chars.{value_or, is_scheme_char, to_lower, lower_between}
use libnei.Url.Parser.{
  Url, reset, stands_at, parse_authority, parse_after_slashes, parse_path, parse_query,
  with_fragment, parse_fragment, parse_default_port, parse_with_scheme, scheme_size, parse,
}
use libnei.Url.Parser.Searches.{Fails, get_or-append, lower_between_same, find_after}
use libnei.Url.Parser.Authority.{with_spec, lt→ltb}

-- A character of a scheme, in lower case.
abbrev pub IsSchemeChar : ℕ → Type 0
IsSchemeChar c = (not (is_scheme_char c) ≡ false) × (to_lower c ≡ c)

-- What the sections behind the authority leave as it is.
pub record Same (u v : Url) : Type 0 where
  pub text : v.spec ≡ u.spec
  pub scheme_from : v.scheme_begin ≡ u.scheme_begin
  pub scheme_to : v.scheme_end ≡ u.scheme_end
  pub host_from : v.host_begin ≡ u.host_begin
  pub host_to : v.host_end ≡ u.host_end
  pub explicit : v.port_explicit ≡ u.port_explicit
  pub port : v.port_value ≡ u.port_value

parse_path-Same : (u : Url) (pos : ℕ) → Same u (parse_path (u, pos))
unfolding parse_path
parse_path-Same u pos = ground arith

parse_query-Same : (u : Url) → Same u (parse_query u)
unfolding parse_query
parse_query-Same u = ground arith

parse_fragment-Same : (u : Url) → Same u (parse_fragment u)
unfolding parse_fragment with_fragment
parse_fragment-Same u = ground arith

Same-trans : {u v w : Url} → Same u v → Same v w → Same u w
Same-trans p q = record {
  text = q.text ∙ p.text;
  scheme_from = q.scheme_from ∙ p.scheme_from;
  scheme_to = q.scheme_to ∙ p.scheme_to;
  host_from = q.host_from ∙ p.host_from;
  host_to = q.host_to ∙ p.host_to;
  explicit = q.explicit ∙ p.explicit;
  port = q.port ∙ p.port;
}

pub sections-Same : (r : Url × ℕ) → Same r.0 (parse_fragment (parse_query (parse_path r)))
sections-Same (u, pos) = Same-trans (parse_path-Same u pos) (
    Same-trans (parse_query-Same (parse_path (u, pos)))
      (parse_fragment-Same (parse_query (parse_path (u, pos)))))

none_ends : (s : Text) → All IsSchemeChar s → Fails (λ c. not (is_scheme_char c)) s
none_ends [] h = tt
none_ends (c ∷ s) h = (h.0.0, none_ends s h.1)

lower_chars : (s : Text) → All IsSchemeChar s → All (λ c. to_lower c ≡ c) s
lower_chars [] h = tt
lower_chars (c ∷ s) h = (h.0.1, lower_chars s h.1)

-- The sections behind the authority.
abbrev pub finish : Url × ℕ → Url
finish r = parse_default_port (parse_fragment (parse_query (parse_path r)))

same_char : (c : ℕ) → (true && c == c) ≡ true
same_char c = ground arith

module _ (a : ℕ) (sc rest : Text) (chars : All IsSchemeChar (a ∷ sc)) where
  abbrev pub scheme_text : Text
  scheme_text = a ∷ sc

  abbrev pub scheme_length : ℕ
  scheme_length = suc (length sc)

  -- The text, and its beginning up to the authority.
  abbrev pub whole_text : Text
  whole_text = scheme_text ++ (codes "://" ++ rest)

  abbrev pub before_authority : Text
  before_authority = scheme_text ++ codes "://"

  abbrev pub with_scheme : Url
  with_scheme = record (reset []) { scheme_end = scheme_length }

  scheme_found : scheme_size whole_text ≡ scheme_length
  unfolding is_scheme_char
  scheme_found =
      ap (λ o. value_or o (length whole_text))
        (find_after (λ c. not (is_scheme_char c)) [] scheme_text 0 refl
          (none_ends scheme_text chars) b':' (codes "//" ++ rest) refl)
      ∙ omega arith

  stands :
      (c k : ℕ)
      → k < 3
      → get_or (codes "://" ++ rest) k 0 ≡ c
      → (pos : ℕ) → pos ≡ scheme_length + k
      → stands_at c (with_spec with_scheme whole_text) pos ≡ true
  stands c k h e pos p =
      let inside =
        lt→ltb (scheme_length + k) (length whole_text)
          (omega (arith, length-append scheme_text (codes "://" ++ rest))) in
      rw (p, inside, get_or-append scheme_text (codes "://" ++ rest) k, e) (same_char c)

  authority_reached :
      parse_authority (with_spec with_scheme whole_text) (scheme_length + 1)
      ≡ parse_after_slashes (with_spec with_scheme whole_text) (scheme_length + 1 + 2)
  unfolding parse_authority
  authority_reached =
      let first = stands b'/' 1 (omega arith) refl (scheme_length + 1) refl in
      let second = stands b'/' 2 (omega arith) refl (scheme_length + 1 + 1) (omega arith) in
      rw (first, second) refl

  chosen : parse whole_text ≡ parse_with_scheme whole_text scheme_length
  unfolding parse
  chosen =
      let colon = stands b':' 0 (omega arith) refl scheme_length (omega arith) in
      let positive = lt→ltb 0 scheme_length (omega arith) in rw (scheme_found, positive, colon) refl

  lowered : lower_between 0 scheme_length whole_text ≡ whole_text
  lowered =
      let none_before : 0 + scheme_length ≡ scheme_length = omega arith in
      subst (λ n. lower_between 0 n whole_text ≡ whole_text) none_before
        (lower_between_same [] scheme_text (codes "://" ++ rest) (lower_chars scheme_text chars))

  -- It is the authority behind the slashes, and what is behind it, that are parsed.
  pub parse_whole :
      parse whole_text
      ≡ finish (
          parse_after_slashes
            (with_spec with_scheme (before_authority ++ rest))
            (length before_authority))
  unfolding parse_with_scheme
  parse_whole =
      let place : scheme_length + 1 + 2 ≡ length before_authority =
        omega (arith, length-append scheme_text (codes "://")) in
      chosen
      ∙ ap (λ t. finish (parse_authority (with_spec with_scheme t) (scheme_length + 1))) lowered
      ∙ ap finish authority_reached
      ∙ ap (λ n. finish (parse_after_slashes (with_spec with_scheme whole_text) n)) place
      ∙ ap (λ t. finish (parse_after_slashes (with_spec with_scheme t) (length before_authority)))
          (sym (append_assoc scheme_text (codes "://") rest))
