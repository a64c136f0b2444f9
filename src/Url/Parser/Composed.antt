-- ===== src/Url/Parser/Composed.antt =====
-- Parse on a text that is put together: a scheme, "://", a host, a port or none, and a path.
use mathlib.Core.Path.{subst}
use mathlib.Core.List.{append_assoc}
use libnei.Common.{
  ℕ, suc, ◌+◌, ◌<◌, ◌≡◌, refl, ap, ◌∙◌, true, false, some, [], ◌∷◌, ◌++◌, arith, leb, length,
  length-append, All, All-append, Text,
}
use libnei.Url.Chars.{find_if, value_or, is, ends_authority, ends_host, strtol_from}
use libnei.Url.Parser.{
  Url, size, parse_userinfo, parse_host, parse_port, host_or_none, parse_after_slashes,
}
use libnei.Url.Parser.Searches.{Fails, find_after}
use libnei.Url.Parser.Authority.{
  with_spec, IsHostChar, userinfo_none, no_at_chars, host_read, host_chars, port_none,
  port_read_whole,
}

authority_chars : (s : Text) → Fails ends_host s → Fails ends_authority s
authority_chars [] h = tt
authority_chars (c ∷ s) h = (ground arith, authority_chars s h.1)

-- A port that is written, behind its colon, before a path.
pub record IsPort (zs ds : Text) (p : ℕ) : Type 0 where
  pub no_end : Fails ends_host ds
  pub no_at : Fails (is b'@') ds
  pub reads : strtol_from 0 (ds ++ (b'/' ∷ zs)) ≡ (false, p, length ds)
  pub low : 0 < p
  pub high : p < 65536

-- The sections of the authority, once its end is found.
abbrev sections : ℕ → Url × ℕ → Url × ℕ
sections auth_end (v, host_pos) =
    let (w, port_pos) = parse_host v host_pos auth_end in
    let (x, after) = parse_port w port_pos auth_end in (host_or_none x, after)

host_kept :
    (u : Url) (after : ℕ)
    → u.host_begin < u.host_end
    → ◌≡◌ {A = Url × ℕ} (host_or_none u, after) (u, after)
unfolding host_or_none
host_kept u after h = let kept : leb u.host_end u.host_begin ≡ false = ground arith in rw kept refl

module _ (v : Url) (pre : Text) (c : ℕ) (h zs : Text) (chars : All IsHostChar (c ∷ h)) where
  abbrev pub host_end : ℕ
  host_end = length pre + suc (length h)

  pub authority_of_host :
      let s = pre ++ ((c ∷ h) ++ (b'/' ∷ zs)) in
      parse_after_slashes (with_spec v s) (length pre)
      ≡ (record v { spec = s; host_begin = length pre; host_end = host_end }, host_end)
  unfolding parse_after_slashes
  authority_of_host =
      let s = pre ++ ((c ∷ h) ++ (b'/' ∷ zs)) in
      let u = with_spec v s in
      let read = record v { spec = s; host_begin = length pre; host_end = host_end } in
      let ends =
        ap (λ o. value_or o (size u))
          (find_after ends_authority pre (c ∷ h) (length pre) refl
            (authority_chars (c ∷ h) (host_chars (c ∷ h) chars)) b'/' zs refl) in
      ap (λ n. sections n (parse_userinfo u (length pre) n)) ends
      ∙ ap (sections host_end)
          (userinfo_none v pre (c ∷ h) (b'/' ∷ zs) host_end refl (no_at_chars (c ∷ h) chars))
      ∙ ap
          (λ (r : Url × ℕ). let (x, after) = parse_port r.0 r.1 host_end in (host_or_none x, after))
          (host_read v pre c h b'/' zs host_end (omega arith) chars refl)
      ∙ ap (λ (r : Url × ℕ). (host_or_none r.0, r.1)) (port_none read host_end)
      ∙ host_kept read host_end (omega arith)

  module _ (ds : Text) (p : ℕ) (port : IsPort zs ds p) where
    abbrev pub port_end : ℕ
    port_end = host_end + 1 + length ds

    pub authority_of_port :
        let s = pre ++ ((c ∷ h) ++ (b':' ∷ (ds ++ (b'/' ∷ zs)))) in
        parse_after_slashes (with_spec v s) (length pre) ≡ (
          record v {
            spec = s;
            host_begin = length pre;
            host_end = host_end;
            port_begin = host_end + 1;
            port_end = port_end;
            port_value = p;
            port_explicit = true;
          },
          port_end,
        )
    unfolding parse_after_slashes
    authority_of_port =
        let text = ds ++ (b'/' ∷ zs) in
        let host = c ∷ h in
        let s = pre ++ (host ++ (b':' ∷ text)) in
        let u = with_spec v s in
        let ys = host ++ (b':' ∷ ds) in
        let no_at =
          All-append (λ x. is b'@' x ≡ false) host (b':' ∷ ds) (no_at_chars host chars)
            (refl, port.no_at) in
        let no_end =
          All-append (λ x. ends_authority x ≡ false) host (b':' ∷ ds)
            (authority_chars host (host_chars host chars)) (refl, authority_chars ds port.no_end) in
        let auth_end = length pre + length ys in
        let whole = append_assoc host (b':' ∷ ds) (b'/' ∷ zs) in
        let ends =
          ap (λ o. value_or o (size u))
            (subst (λ t. find_if ends_authority (length pre) (pre ++ t) ≡ some auth_end) whole
              (find_after ends_authority pre ys (length pre) refl no_end b'/' zs refl)) in
        let no_user =
          subst
            (λ t.
              parse_userinfo (with_spec v (pre ++ t)) (length pre) auth_end
              ≡ (with_spec v (pre ++ t), length pre))
            whole (userinfo_none v pre ys (b'/' ∷ zs) auth_end refl no_at) in
        let read = record v { spec = s; host_begin = length pre; host_end = host_end } in
        let behind = append_assoc pre host (b':' ∷ text) in
        let size_ys = length-append host (b':' ∷ ds) in
        let before = length-append pre host in
        let with_port : Text → ℕ → Url = λ t n. record read {
          spec = t;
          port_begin = n + 1;
          port_end = n + 1 + length ds;
          port_value = p;
          port_explicit = true;
        } in
        let found_at : Text → ℕ → Type 0 =
          λ t n. parse_port (with_spec read t) n auth_end ≡ (with_port t n, n + 1 + length ds) in
        let port_found : found_at s host_end =
          subst (λ n. found_at s n) before
            (subst (λ t. found_at t (length (pre ++ host))) behind
              (port_read_whole read (pre ++ host) ds zs p auth_end (omega arith) port.no_end
                port.reads port.low port.high)) in
        ap (λ n. sections n (parse_userinfo u (length pre) n)) ends
        ∙ ap (sections auth_end) no_user
        ∙ ap
            (λ (r : Url × ℕ).
              let (x, after) = parse_port r.0 r.1 auth_end in (host_or_none x, after))
            (host_read v pre c h b':' text auth_end (omega arith) chars refl)
        ∙ ap (λ (r : Url × ℕ). (host_or_none r.0, r.1)) port_found
        ∙ host_kept (with_port s host_end) port_end (omega arith)
