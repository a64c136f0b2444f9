-- ===== src/Url/Parser/Authority.antt =====
-- The sections of Parse on a text that has a scheme, a host, a port or none, and a path.
use mathlib.Core.Path.{subst}
use mathlib.Core.List.{append_assoc}
use libnei.Common.{
  ℕ, suc, ◌+◌, ◌-◌, ◌<◌, ◌≡◌, refl, sym, true, false, Option, none, some, [], ◌∷◌, ◌++◌, arith, ltb,
  leb, ◌==◌, length, length-append, get_or, drop, drop-append_exact, All, Text,
}
use libnei.Url.Chars.{find_if, value_or, is, ends_host, to_lower, strtol_from}
use libnei.Url.Parser.{Url, parse_userinfo, eat_host, lower_host, parse_host, parse_port}
use libnei.Url.Parser.Searches.{shift, Fails, lower_between_same, find_behind, find_after}

abbrev pub with_spec : Url → Text → Url
with_spec v s = record v { spec = s }

-- A character of a host name, in lower case.
abbrev pub IsHostChar : ℕ → Type 0
IsHostChar c =
    (ends_host c ≡ false) × ((c == b'@') ≡ false) × ((c == b'[') ≡ false) × (to_lower c ≡ c)

not_before : (n : ℕ) (o : Option ℕ) → ltb (value_or (shift n o) n) n ≡ false
not_before n none = ground arith
not_before n (some i) = ground arith

-- There is no userinfo where no @ stands before the path.
pub userinfo_none :
    (v : Url) (pre ys zs : Text) (auth_end : ℕ)
    → auth_end ≡ length pre + length ys
    → Fails (is b'@') ys
    → let u = with_spec v (pre ++ (ys ++ zs)) in
      parse_userinfo u (length pre) auth_end ≡ (u, length pre)
unfolding parse_userinfo
userinfo_none v pre ys zs auth_end e fails =
    let found = find_behind (is b'@') pre ys (length pre) refl fails zs in
    rw (e, found, not_before (length pre + length ys) (find_if (is b'@') 0 zs))

head_at : (pre : Text) (c : ℕ) (zs : Text) → get_or (pre ++ (c ∷ zs)) (length pre) 0 ≡ c
head_at [] c zs = refl
head_at (x ∷ pre) c zs = head_at pre c zs

pub lt→ltb : (a b : ℕ) → a < b → ltb a b ≡ true
lt→ltb a b h = ground arith

-- The host or the port goes as far as the character behind it.
eaten :
    (v : Url) (pre ys : Text) (d : ℕ) (zs : Text) (pos : ℕ)
    → pos ≡ length pre
    → Fails ends_host ys
    → ends_host d ≡ true
    → eat_host (with_spec v (pre ++ (ys ++ (d ∷ zs)))) pos ≡ pos + length ys
unfolding eat_host
eaten v pre ys d zs pos e fails ends =
    rw (inside, find_after ends_host pre ys pos e fails d zs ends) refl
  where
    inside : leb (length (pre ++ (ys ++ (d ∷ zs)))) pos ≡ false
    inside = ground (arith, length-append pre (ys ++ (d ∷ zs)), length-append ys (d ∷ zs))

pub host_chars : (s : Text) → All IsHostChar s → Fails ends_host s
host_chars [] h = tt
host_chars (c ∷ s) h = (h.0.0, host_chars s h.1)

lower_chars : (s : Text) → All IsHostChar s → All (λ c. to_lower c ≡ c) s
lower_chars [] h = tt
lower_chars (c ∷ s) h = (h.0.3, lower_chars s h.1)

pub no_at_chars : (s : Text) → All IsHostChar s → Fails (is b'@') s
no_at_chars [] h = tt
no_at_chars (c ∷ s) h = (h.0.1, no_at_chars s h.1)

pub host_read :
    (v : Url) (pre : Text) (c : ℕ) (h : Text) (d : ℕ) (zs : Text) (auth_end : ℕ)
    → length pre < auth_end
    → All IsHostChar (c ∷ h)
    → ends_host d ≡ true
    → let s = pre ++ ((c ∷ h) ++ (d ∷ zs)) in
      let after = length pre + suc (length h) in
      parse_host (with_spec v s) (length pre) auth_end
      ≡ (record v { spec = s; host_begin = length pre; host_end = after }, after)
unfolding parse_host lower_host
host_read v pre c h d zs auth_end before chars ends =
    let inside = lt→ltb (length pre) auth_end before in
    let first = head_at pre c (h ++ (d ∷ zs)) in
    let end = eaten v pre (c ∷ h) d zs (length pre) refl (host_chars (c ∷ h) chars) ends in
    let lowered = lower_between_same pre (c ∷ h) (d ∷ zs) (lower_chars (c ∷ h) chars) in
    rw (inside, first, chars.0.2, end, lowered) refl

pub port_none : (u : Url) (pos : ℕ) → parse_port u pos pos ≡ (u, pos)
unfolding parse_port
port_none u pos = let same : ltb pos pos ≡ false = ground arith in rw same refl

-- A port that strtol reads to its end.
pub port_read_whole :
    (v : Url) (pre ds zs : Text) (p auth_end : ℕ)
    → length pre < auth_end
    → Fails ends_host ds
    → strtol_from 0 (ds ++ (b'/' ∷ zs)) ≡ (false, p, length ds)
    → 0 < p
    → p < 65536
    → let s = pre ++ (b':' ∷ (ds ++ (b'/' ∷ zs))) in
      let after = length pre + 1 + length ds in
      parse_port (with_spec v s) (length pre) auth_end ≡ (
        record v {
          spec = s;
          port_begin = length pre + 1;
          port_end = after;
          port_value = p;
          port_explicit = true;
        },
        after,
      )
unfolding parse_port
port_read_whole v pre ds zs p auth_end before fails reads low high =
    let inside = lt→ltb (length pre) auth_end before in
    let first = head_at pre b':' (ds ++ (b'/' ∷ zs)) in
    let text = ds ++ (b'/' ∷ zs) in
    let behind = append_assoc pre (b':' ∷ []) text in
    let begin : length pre + 1 ≡ length (pre ++ (b':' ∷ [])) =
      sym (length-append pre (b':' ∷ [])) in
    let end =
      subst (λ t. eat_host (with_spec v t) (length pre + 1) ≡ length pre + 1 + length ds) behind
        (eaten v (pre ++ (b':' ∷ [])) ds b'/' zs (length pre + 1) begin fails refl) in
    let dropped =
      subst (λ t. drop (length pre + 1) t ≡ text) behind
        (drop-append_exact (pre ++ (b':' ∷ [])) text (length pre + 1) begin) in
    let whole : (length ds == length pre + 1 + length ds - (length pre + 1)) ≡ true =
      ground arith in
    let positive = lt→ltb 0 p low in
    let fits : leb p 65535 ≡ true = ground arith in
    rw (inside, first, dropped, reads, end, whole, positive, fits) refl
