-- ===== src/Url/Parser/Paths.antt =====
-- The path of a text that was put together and parsed.
use mathlib.Core.Path.{subst}
use mathlib.Core.List.{append_assoc, append-nil}
use libnei.Common.{
  ℕ, ◌+◌, ◌-◌, ◌<◌, ◌≡◌, refl, ap, sym, ◌∙◌, inl, inr, Bool-cases, Bool, true, false, [], ◌∷◌, ◌++◌,
  none, arith, ltb, length, length-append, take, All, Text, codes, take-append_exact,
  drop-append_exact,
}
use libnei.Url.Chars.{find_if, is, to_string, substr}
use libnei.Url.Parser.{
  Url, parse_path, parse_query, parse_fragment, parse_default_port, parse, path, query, fragment,
}
use libnei.Url.Parser.Searches.{Fails, find_behind}
use libnei.Url.Parser.Authority.{IsHostChar, lt→ltb}
use libnei.Url.Parser.Composed.{host_end, port_end, authority_of_port}
use libnei.Url.Parser.Ports.{to_string-IsPort}
use libnei.Url.Parser.Whole.{IsSchemeChar, finish, before_authority, with_scheme, parse_whole}
use libnei.Url.Parser.Read.{Reads, parse_port_Reads}

-- The path is what was parsed last, and there is nothing of the other components.
pub record EndsIn (u : Url) (text : Text) : Type 0 where
  pub path_read : path u ≡ text
  pub query_read : query u ≡ []
  pub fragment_read : fragment u ≡ []

-- A URL of which the authority is parsed and no more.
abbrev NothingBehind : Url → Type 0
NothingBehind x = (x.query_begin ≡ 0) × (x.query_end ≡ 0) × (x.frag_begin ≡ 0) × (x.frag_end ≡ 0)

default_port-EndsIn : (y : Url) (text : Text) → EndsIn y text → EndsIn (parse_default_port y) text
unfolding parse_default_port
default_port-EndsIn y text h = elim (Bool-cases y.port_explicit) [
  | inl e ↦ rw e (record {
    path_read = h.path_read;
    query_read = h.query_read;
    fragment_read = h.fragment_read;
  })
  | inr e ↦ rw e (record {
    path_read = h.path_read;
    query_read = h.query_read;
    fragment_read = h.fragment_read;
  })
]

module _ (front path_text : Text) where
  none_found :
      (p : ℕ → Bool) → Fails p path_text → find_if p (length front) (front ++ path_text) ≡ none
  unfolding find_if
  none_found p fails =
      ap (λ t. find_if p (length front) (front ++ t)) (sym (append-nil path_text))
      ∙ find_behind p front path_text (length front) refl fails []

  last_part : substr (length front) (length (front ++ path_text)) (front ++ path_text) ≡ path_text
  last_part =
      let rest = drop-append_exact front path_text (length front) refl in
      let long : length (front ++ path_text) - length front ≡ length path_text =
        omega (arith, length-append front path_text) in
      rw (rest, long)
        (ap (λ t. take (length path_text) t) (sym (append-nil path_text))
          ∙ take-append_exact path_text [] (length path_text) refl)

  module _ (x : Url) (e : x.spec ≡ front ++ path_text) (nothing : NothingBehind x) where
    abbrev placed : Url
    placed = record x { path_begin = length front; path_end = length (front ++ path_text) }

    path_placed : 0 < length path_text → parse_path (x, length front) ≡ placed
    unfolding parse_path
    path_placed some_path =
        let inside =
          lt→ltb (length front) (length (front ++ path_text))
            (omega (arith, length-append front path_text)) in
        rw (e, inside) refl

    query_none : Fails (is b'?') path_text → parse_query placed ≡ placed
    unfolding parse_query
    query_none fails =
        let searched = ap (find_if (is b'?') (length front)) e ∙ none_found (is b'?') fails in
        rw (parse_query, searched) refl

    fragment_none : Fails (is b'#') path_text → parse_fragment placed ≡ placed
    unfolding parse_fragment
    fragment_none fails =
        let searched = ap (find_if (is b'#') (length front)) e ∙ none_found (is b'#') fails in
        let no_query : ltb 0 x.query_begin ≡ false = ground arith in
        rw (parse_fragment, no_query, searched) refl

    placed-EndsIn : 0 < length path_text → EndsIn placed path_text
    placed-EndsIn some_path =
        let inside =
          lt→ltb (length front) (length (front ++ path_text))
            (omega (arith, length-append front path_text)) in
        record {
          path_read = rw (inside, e) last_part;
          query_read = rw (nothing.0, nothing.1) refl;
          fragment_read = rw (nothing.2, nothing.3) refl;
        }

    finish-EndsIn :
        0 < length path_text
        → Fails (is b'?') path_text
        → Fails (is b'#') path_text
        → EndsIn (finish (x, length front)) path_text
    finish-EndsIn some_path no_query no_fragment =
        let parsed =
          ap (λ y. parse_fragment (parse_query y)) (path_placed some_path)
          ∙ ap parse_fragment (query_none no_query)
          ∙ fragment_none no_fragment in
        default_port-EndsIn (parse_fragment (parse_query (parse_path (x, length front)))) path_text
          (subst (λ y. EndsIn y path_text) (sym parsed) (placed-EndsIn some_path))

module _ (a : ℕ) (sc : Text) (c : ℕ) (h zs : Text) (scheme_chars : All IsSchemeChar (a ∷ sc))
    (host_chars : All IsHostChar (c ∷ h)) where
  -- A text of a scheme, a host, a port and a path reads as these, the port as one that is written, with no
  -- query and no fragment. The letters of the scheme and the host are in lower case, the host holds no
  -- character that ends one, no @ and no opening bracket, the port is the text of a number above 0 and
  -- below 65536, and the path begins with a slash and holds no ? and no #.
  pub parse_path_Reads :
      (p : ℕ)
      → 0 < p
      → p < 65536
      → Fails (is b'?') zs
      → Fails (is b'#') zs
      → let text =
          (a ∷ sc) ++ (codes "://" ++ ((c ∷ h) ++ (b':' ∷ (to_string p ++ (b'/' ∷ zs))))) in
        Reads (parse text) text (a ∷ sc) (c ∷ h) true p × EndsIn (parse text) (b'/' ∷ zs)
  parse_path_Reads p low high no_query no_fragment =
      let port = to_string-IsPort zs p low high in
      let ds = to_string p in
      let rest = (c ∷ h) ++ (b':' ∷ (ds ++ (b'/' ∷ zs))) in
      let pre = before_authority a sc rest scheme_chars in
      let v = with_scheme a sc rest scheme_chars in
      let end = host_end v pre c h zs host_chars in
      let last = port_end v pre c h zs host_chars ds p port in
      let read = record v {
        spec = pre ++ rest;
        host_begin = length pre;
        host_end = end;
        port_begin = end + 1;
        port_end = last;
        port_value = p;
        port_explicit = true;
      } in
      let front = pre ++ ((c ∷ h) ++ (b':' ∷ ds)) in
      let regrouped : pre ++ rest ≡ front ++ (b'/' ∷ zs) =
        ap (λ t. pre ++ t) (sym (append_assoc (c ∷ h) (b':' ∷ ds) (b'/' ∷ zs)))
        ∙ sym (append_assoc pre ((c ∷ h) ++ (b':' ∷ ds)) (b'/' ∷ zs)) in
      let place : length front ≡ last =
        omega
          (arith, length-append pre ((c ∷ h) ++ (b':' ∷ ds)), length-append (c ∷ h) (b':' ∷ ds)) in
      let result =
        parse_whole a sc rest scheme_chars
        ∙ ap finish (authority_of_port v pre c h zs host_chars ds p port)
        ∙ ap (λ n. finish (read, n)) (sym place) in
      (
        parse_port_Reads a sc c h zs scheme_chars host_chars p low high,
        subst (λ u. EndsIn u (b'/' ∷ zs)) (sym result)
            (finish-EndsIn front (b'/' ∷ zs) read regrouped (refl, refl, refl, refl) (omega arith)
              (refl, no_query) (refl, no_fragment)),
      )
