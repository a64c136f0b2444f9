-- ===== src/Url/Resolve/SameOrigin.antt =====
-- References that begin with a slash.
use mathlib.Core.Path.{subst}
use mathlib.Core.List.{append_assoc}
use libnei.Common.{
  ℕ, suc, ◌-◌, ◌<◌, ◌≡◌, refl, ap, sym, ◌∙◌, ◌⊎◌, inl, inr, Bool, true, false, not, ◌&&◌, [], ◌∷◌,
  ◌++◌, arith, ltb, ◌==◌, length, All, Text, codes, if◌then◌else◌, Bool-cases,
}
use libnei.Url.Chars.{find_if, is_scheme_char, default_port_for_scheme, to_string}
use libnei.Url.Parser.{Url, reset, parse_relative, parse, scheme, host, port_suffix, origin}
use libnei.Url.Parser.Authority.{IsHostChar}
use libnei.Url.Parser.Whole.{IsSchemeChar}
use libnei.Url.Parser.Read.{Reads, parse_host_Reads, parse_port_Reads}
use libnei.Url.Resolve.{base, resolve_path, resolve}

abbrev slash_path : Text → Url
slash_path r = record (reset (b'/' ∷ r)) { path_end = suc (length r); valid = true }

-- A reference that begins with a slash is a path.
slash_parsed : (r : Text) → parse (b'/' ∷ r) ≡ slash_path r
unfolding parse parse_relative find_if is_scheme_char
slash_parsed r = let positive : ltb 0 (suc (length r)) ≡ true = ground arith in rw positive refl

-- It goes behind the scheme, the host and the port.
slash_resolved : (u : Url) (r : Text) → resolve u (b'/' ∷ r) ≡ parse (base u ++ (b'/' ∷ r))
unfolding resolve resolve_path
slash_resolved u r =
    let positive : ltb 0 (suc (length r)) ≡ true = ground arith in
    let whole : suc (length r) - 0 ≡ suc (length r) = omega arith in
    rw (slash_parsed r, positive, whole) refl

-- The port as it is written behind the host.
abbrev written_port : Bool → ℕ → Text → Text
written_port explicit p sch =
    if explicit && not (p == default_port_for_scheme sch) then b':' ∷ to_string p else []

abbrev origin_text : Text → Text → Bool → ℕ → Text
origin_text sch hst explicit p = sch ++ (codes "://" ++ (hst ++ written_port explicit p sch))

module _ {u : Url} {t a c p : ℕ} {ts sc h : Text} {explicit : Bool}
    (reads : Reads u (t ∷ ts) (a ∷ sc) (c ∷ h) explicit p) where
  base-Reads : base u ≡ origin_text (a ∷ sc) (c ∷ h) explicit p
  unfolding base port_suffix
  base-Reads = rw (reads.scheme_read, reads.host_read, reads.explicit_read, reads.port_read) refl

  origin-Reads : origin u ≡ origin_text (a ∷ sc) (c ∷ h) explicit p
  unfolding origin port_suffix
  origin-Reads =
      rw (reads.scheme_read, reads.host_read, reads.explicit_read, reads.port_read, reads.text_read)
        refl

-- What a reference leaves as it is, in `v`, of the base `u`.
pub record SameOrigin (u v : Url) : Type 0 where
  pub scheme_kept : scheme v ≡ scheme u
  pub host_kept : host v ≡ host u
  pub port_kept : v.port_value ≡ u.port_value
  pub origin_kept : origin v ≡ origin u
  pub valid : v.valid ≡ true

-- The text that a reference is put behind reads as the base.
kept_of :
    {a c : ℕ} {sc h : Text} {u v : Url} {t p x : ℕ} {ts xs : Text} {explicit again : Bool}
    → Reads u (t ∷ ts) (a ∷ sc) (c ∷ h) explicit p
    → Reads v (x ∷ xs) (a ∷ sc) (c ∷ h) again p
    → written_port again p (a ∷ sc) ≡ written_port explicit p (a ∷ sc)
    → SameOrigin u v
kept_of {a} {c} {sc} {h} reads new same = record {
  scheme_kept = new.scheme_read ∙ sym reads.scheme_read;
  host_kept = new.host_read ∙ sym reads.host_read;
  port_kept = new.port_read ∙ sym reads.port_read;
  origin_kept =
      origin-Reads new
      ∙ ap (λ t. (a ∷ sc) ++ (codes "://" ++ ((c ∷ h) ++ t))) same
      ∙ sym (origin-Reads reads);
  valid = new.valid_read;
}

-- The port is the scheme's, or one that is written.
abbrev pub PortSuits : Text → Bool → ℕ → Type 0
PortSuits sch explicit p =
    ((explicit ≡ false) × (p ≡ default_port_for_scheme sch))
    ⊎ ((explicit ≡ true) × (0 < p) × (p < 65536))

same_port : (n : ℕ) → (n == n) ≡ true
same_port n = ground arith

equal_port : (n m : ℕ) → (n == m) ≡ true → n ≡ m
equal_port n m e = ground arith

module _ (u : Url) (t : ℕ) (ts : Text) (a : ℕ) (sc : Text) (c : ℕ) (h : Text) (explicit : Bool)
    (p : ℕ) (r : Text) (reads : Reads u (t ∷ ts) (a ∷ sc) (c ∷ h) explicit p)
    (scheme_chars : All IsSchemeChar (a ∷ sc)) (host_chars : All IsHostChar (c ∷ h)) where
  abbrev put : Text → Text
  put w = (a ∷ sc) ++ (codes "://" ++ ((c ∷ h) ++ (w ++ (b'/' ∷ r))))

  resolved_text :
      (w : Text) → written_port explicit p (a ∷ sc) ≡ w → resolve u (b'/' ∷ r) ≡ parse (put w)
  resolved_text w e =
      slash_resolved u r
      ∙ ap (λ s. parse (s ++ (b'/' ∷ r))) (base-Reads reads)
      ∙ ap (λ s. parse (((a ∷ sc) ++ (codes "://" ++ ((c ∷ h) ++ s))) ++ (b'/' ∷ r))) e
      ∙ ap parse (
          append_assoc (a ∷ sc) (codes "://" ++ ((c ∷ h) ++ w)) (b'/' ∷ r)
          ∙ ap (λ s. (a ∷ sc) ++ (codes "://" ++ s)) (append_assoc (c ∷ h) w (b'/' ∷ r)))

  -- The port of the scheme is not written.
  port_left_out :
      p ≡ default_port_for_scheme (a ∷ sc)
      → written_port explicit p (a ∷ sc) ≡ []
      → SameOrigin u (resolve u (b'/' ∷ r))
  port_left_out e none_written =
      let new =
        subst (λ n. Reads (parse (put [])) (put []) (a ∷ sc) (c ∷ h) false n) (sym e)
          (parse_host_Reads a sc c h r scheme_chars host_chars) in
      subst (SameOrigin u) (sym (resolved_text [] none_written))
        (kept_of reads new (sym none_written))

  port_written :
      0 < p
      → p < 65536
      → written_port true p (a ∷ sc) ≡ b':' ∷ to_string p
      → explicit ≡ true
      → SameOrigin u (resolve u (b'/' ∷ r))
  port_written low high written e =
      let same = ap (λ b. written_port b p (a ∷ sc)) e in
      subst (SameOrigin u) (sym (resolved_text (b':' ∷ to_string p) (same ∙ written)))
        (kept_of reads (parse_port_Reads a sc c h r scheme_chars host_chars p low high) (sym same))

  -- A reference that begins with a slash, whatever follows it, resolves to a URL with the scheme, the
  -- host, the port and the origin of the base. The base reads as a scheme of lower-case letters, a host that
  -- holds no character that ends one, no @ and no opening bracket, and a port that is the scheme's or is
  -- written and is above 0 and below 65536.
  pub resolve-SameOrigin : PortSuits (a ∷ sc) explicit p → SameOrigin u (resolve u (b'/' ∷ r))
  resolve-SameOrigin (inl (e, n)) = port_left_out n (rw e refl)
  resolve-SameOrigin (inr (e, low, high)) =
      elim (Bool-cases (p == default_port_for_scheme (a ∷ sc))) [
        | inl d ↦ port_left_out (equal_port p (default_port_for_scheme (a ∷ sc)) d) (rw (e, d) refl)
        | inr d ↦ port_written low high (rw d refl) e
      ]
