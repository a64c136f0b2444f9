-- ===== src/Url/Parser/Read.antt =====
-- What the accessors give of a text that was put together and parsed.
use mathlib.Core.Path.{subst}
use mathlib.Core.List.{append_assoc}
use libnei.Common.{
  ℕ, ◌+◌, ◌-◌, ◌<◌, ◌≡◌, refl, ap, sym, ◌∙◌, Bool, true, false, [], ◌∷◌, ◌++◌, arith, length, All,
  Text, codes, if◌then◌else◌, take-append_exact, drop-append_exact,
}
use libnei.Url.Chars.{default_port_for_scheme, to_string, substr}
use libnei.Url.Parser.{
  Url, parse_path, parse_query, parse_fragment, parse_default_port, parse, scheme, host,
}
use libnei.Url.Parser.Authority.{IsHostChar, lt→ltb}
use libnei.Url.Parser.Composed.{host_end, port_end, authority_of_host, authority_of_port}
use libnei.Url.Parser.Ports.{to_string-IsPort}
use libnei.Url.Parser.Whole.{
  IsSchemeChar, sections-Same, finish, before_authority, with_scheme, parse_whole,
}

-- A URL that reads so.
pub record Reads (u : Url) (text sch hst : Text) (explicit : Bool) (port : ℕ) : Type 0 where
  pub text_read : u.spec ≡ text
  pub scheme_read : scheme u ≡ sch
  pub host_read : host u ≡ hst
  pub explicit_read : u.port_explicit ≡ explicit
  pub port_read : u.port_value ≡ port
  pub valid_read : u.valid ≡ true

part_found :
    (s xs ys zs : Text) (begin end : ℕ)
    → s ≡ xs ++ (ys ++ zs)
    → begin ≡ length xs
    → end ≡ length xs + length ys
    → substr begin end s ≡ ys
part_found s xs ys zs begin end e b f =
    let long : end - begin ≡ length ys = omega arith in
    rw (e, drop-append_exact xs (ys ++ zs) begin b, long) (take-append_exact ys zs (length ys) refl)

-- The last section fills the port in, where none is written.
record Filled (u w : Url) : Type 0 where
  text : w.spec ≡ u.spec
  scheme_from : w.scheme_begin ≡ u.scheme_begin
  scheme_to : w.scheme_end ≡ u.scheme_end
  host_from : w.host_begin ≡ u.host_begin
  host_to : w.host_end ≡ u.host_end
  explicit : w.port_explicit ≡ u.port_explicit
  port : w.port_value ≡ (
      if u.port_explicit
      then u.port_value
      else default_port_for_scheme (substr u.scheme_begin u.scheme_end u.spec))
  valid : w.valid ≡ true

default_port-Filled : (u : Url) → Filled u (parse_default_port u)
unfolding parse_default_port
default_port-Filled u = ground arith

finish-Reads :
    (x : Url) (pos : ℕ) (sch mid hst zs : Text)
    → x.scheme_begin ≡ 0
    → x.scheme_end ≡ length sch
    → x.host_begin ≡ length (sch ++ mid)
    → x.host_end ≡ length (sch ++ mid) + length hst
    → x.spec ≡ (sch ++ mid) ++ (hst ++ zs)
    → 0 < length sch
    → 0 < length hst
    → Reads
        (finish (x, pos))
        ((sch ++ mid) ++ (hst ++ zs))
        sch
        hst
        x.port_explicit
        (if x.port_explicit then x.port_value else default_port_for_scheme sch)
finish-Reads x pos sch mid hst zs sb se hb he text ns nh =
    let y = parse_fragment (parse_query (parse_path (x, pos))) in
    let w = parse_default_port y in
    let same = sections-Same (x, pos) in
    let f = default_port-Filled y in
    let spec = f.text ∙ same.text ∙ text in
    let scheme_from = f.scheme_from ∙ same.scheme_from ∙ sb in
    let scheme_to = f.scheme_to ∙ same.scheme_to ∙ se in
    let host_from = f.host_from ∙ same.host_from ∙ hb in
    let host_to = f.host_to ∙ same.host_to ∙ he in
    let with_scheme = lt→ltb w.scheme_begin w.scheme_end (omega arith) in
    let with_host = lt→ltb w.host_begin w.host_end (omega arith) in
    let regrouped = append_assoc sch mid (hst ++ zs) in
    let y_text = substr y.scheme_begin y.scheme_end y.spec in
    let y_scheme =
      part_found y.spec [] sch (mid ++ (hst ++ zs)) y.scheme_begin y.scheme_end
        (same.text ∙ text ∙ regrouped) (same.scheme_from ∙ sb)
        (omega (arith, same.scheme_to, se)) in
    record {
      text_read = spec;
      scheme_read = rw with_scheme (
          part_found w.spec [] sch (mid ++ (hst ++ zs)) w.scheme_begin w.scheme_end
            (spec ∙ regrouped) scheme_from (omega (arith, scheme_to)));
      host_read =
          rw with_host
            (part_found w.spec (sch ++ mid) hst zs w.host_begin w.host_end spec host_from host_to);
      explicit_read = f.explicit ∙ same.explicit;
      port_read =
          f.port
          ∙ ap (λ b. if b then y.port_value else default_port_for_scheme y_text) same.explicit
          ∙ ap (λ p. if x.port_explicit then p else default_port_for_scheme y_text) same.port
          ∙ ap (λ s. if x.port_explicit then x.port_value else default_port_for_scheme s) y_scheme;
      valid_read = f.valid;
    }

-- What is read of a URL is read of an equal one, with an equal text.
Reads-moved :
    {u v : Url} {text other sch hst : Text} {explicit : Bool} {port : ℕ}
    → v ≡ u
    → text ≡ other
    → Reads u text sch hst explicit port
    → Reads v other sch hst explicit port
Reads-moved {u} {v} {text} {other} {sch} {hst} {explicit} {port} e t reads =
    subst (λ w. Reads w other sch hst explicit port) (sym e)
      (subst (λ x. Reads u x sch hst explicit port) t reads)

module _ (a : ℕ) (sc : Text) (c : ℕ) (h zs : Text) (scheme_chars : All IsSchemeChar (a ∷ sc))
    (host_chars : All IsHostChar (c ∷ h)) where
  -- A text of a scheme, a host and a path reads as the first two, with the default port of the scheme. The letters
  -- of the scheme and the host are in lower case, and the host holds no character that ends one, no @ and
  -- no opening bracket.
  pub parse_host_Reads :
      Reads
        (parse ((a ∷ sc) ++ (codes "://" ++ ((c ∷ h) ++ (b'/' ∷ zs)))))
        ((a ∷ sc) ++ (codes "://" ++ ((c ∷ h) ++ (b'/' ∷ zs))))
        (a ∷ sc)
        (c ∷ h)
        false
        (default_port_for_scheme (a ∷ sc))
  parse_host_Reads =
      let rest = (c ∷ h) ++ (b'/' ∷ zs) in
      let pre = before_authority a sc rest scheme_chars in
      let v = with_scheme a sc rest scheme_chars in
      let end = host_end v pre c h zs host_chars in
      let read = record v { spec = pre ++ rest; host_begin = length pre; host_end = end } in
      let result =
        parse_whole a sc rest scheme_chars
        ∙ ap finish (authority_of_host v pre c h zs host_chars) in
      Reads-moved result (append_assoc (a ∷ sc) (codes "://") rest) (
        finish-Reads read end (a ∷ sc) (codes "://") (c ∷ h) (b'/' ∷ zs) refl refl refl refl refl
          (omega arith) (omega arith))

  -- A text of a scheme, a host, a port and a path reads as the first three, the port as one that is written. The
  -- letters of the scheme and the host are in lower case, the host holds no character that ends one, no @
  -- and no opening bracket, and the port is the text of a number above 0 and below 65536.
  pub parse_port_Reads :
      (p : ℕ)
      → 0 < p
      → p < 65536
      → let text =
          (a ∷ sc) ++ (codes "://" ++ ((c ∷ h) ++ (b':' ∷ (to_string p ++ (b'/' ∷ zs))))) in
        Reads (parse text) text (a ∷ sc) (c ∷ h) true p
  parse_port_Reads p low high =
      let port = to_string-IsPort zs p low high in
      let behind = b':' ∷ (to_string p ++ (b'/' ∷ zs)) in
      let rest = (c ∷ h) ++ behind in
      let pre = before_authority a sc rest scheme_chars in
      let v = with_scheme a sc rest scheme_chars in
      let end = host_end v pre c h zs host_chars in
      let last = port_end v pre c h zs host_chars (to_string p) p port in
      let read = record v {
        spec = pre ++ rest;
        host_begin = length pre;
        host_end = end;
        port_begin = end + 1;
        port_end = last;
        port_value = p;
        port_explicit = true;
      } in
      let result =
        parse_whole a sc rest scheme_chars
        ∙ ap finish (authority_of_port v pre c h zs host_chars (to_string p) p port) in
      Reads-moved result (append_assoc (a ∷ sc) (codes "://") rest) (
        finish-Reads read last (a ∷ sc) (codes "://") (c ∷ h) behind refl refl refl refl refl
          (omega arith) (omega arith))
