-- ===== src/Http/Redirects/Local.antt =====
-- Redirects to a path of the same server.
use libnei.Common.{
  ℕ, ◌-◌, ◌<◌, ◌≡◌, refl, ap, ◌∙◌, Bool, true, false, not, ◌&&◌, ◌||◌, [], ◌∷◌, some, All, Text,
  codes, text_equal, arith, ◌==◌, leb,
}
use libnei.Url.Parser.{Url, scheme, host}
use libnei.Url.Parser.Authority.{IsHostChar}
use libnei.Url.Parser.Whole.{IsSchemeChar}
use libnei.Url.Parser.Read.{Reads}
use libnei.Url.Resolve.{resolve}
use libnei.Url.Resolve.SameOrigin.{SameOrigin, PortSuits, resolve-SameOrigin}
use libnei.Http.Text.{get_header_value, equals_case_insensitive}
use libnei.Http.RedirectHandler.{
  HttpMethod, HttpResponse, is_redirect_status, decide, compute_redirect,
}
use libnei.Http.Redirects.{
  Answers, RedirectOptions, FollowState, Hop, go, on_response, follow, next_request, same_origin,
  key, has_seen,
}

-- http or https.
abbrev pub IsHttp : Text → Type 0
IsHttp s = (text_equal s (codes "http") || text_equal s (codes "https")) ≡ true

-- A URL of http or https that is written plainly, and how it reads.
pub record Plain (u : Url) : Type 0 where
  pub first : ℕ
  pub text : Text
  pub a : ℕ
  pub sc : Text
  pub c : ℕ
  pub h : Text
  pub explicit : Bool
  pub p : ℕ
  pub reads : Reads u (first ∷ text) (a ∷ sc) (c ∷ h) explicit p
  pub scheme_chars : All IsSchemeChar (a ∷ sc)
  pub host_chars : All IsHostChar (c ∷ h)
  pub port : PortSuits (a ∷ sc) explicit p
  pub http : IsHttp (a ∷ sc)

Plain-SameOrigin : (u : Url) (r : Text) → Plain u → SameOrigin u (resolve u (b'/' ∷ r))
Plain-SameOrigin u r q =
    resolve-SameOrigin u q.first q.text q.a q.sc q.c q.h q.explicit q.p r q.reads q.scheme_chars
      q.host_chars q.port

equals_case_insensitive_refl : (s : Text) → equals_case_insensitive s s ≡ true
unfolding equals_case_insensitive
equals_case_insensitive_refl [] = refl
equals_case_insensitive_refl (c ∷ s) = ground (arith, equals_case_insensitive_refl s)

either_way : (x y : Bool) → (x || y) ≡ true → (not x && not y) ≡ false
either_way x y e = ground arith

same_number : (n : ℕ) → (n == n) ≡ true
same_number n = ground arith

module _ (u : Url) (r : Text) (plain : Plain u) where
  kept_origin : same_origin u (resolve u (b'/' ∷ r)) ≡ true
  unfolding same_origin
  kept_origin =
      let same = Plain-SameOrigin u r plain in
      rw
        (
          same.host_kept,
          same.scheme_kept,
          same.port_kept,
          equals_case_insensitive_refl (host u),
          equals_case_insensitive_refl (scheme u),
        )
        (same_number u.port_value)

  accepted :
      (resp : HttpResponse) (m : HttpMethod) (hops : ℕ)
      → get_header_value (codes "Location") resp.headers ≡ b'/' ∷ r
      → is_redirect_status resp.raw_code ≡ true
      → 0 < hops
      → compute_redirect resp u m hops ≡ some (decide resp.raw_code (resolve u (b'/' ∷ r)) m)
  unfolding compute_redirect
  accepted resp m hops location status positive =
      let same = Plain-SameOrigin u r plain in
      let some_hops : leb hops 0 ≡ false = ground arith in
      let sch = same.scheme_kept ∙ plain.reads.scheme_read in
      let hst = same.host_kept ∙ plain.reads.host_read in
      let http : (not (text_equal (plain.a ∷ plain.sc) (codes "http"))
            && not (text_equal (plain.a ∷ plain.sc) (codes "https")))
          ≡ false =
        either_way _ _ plain.http in
      rw (location, some_hops, status, sch, hst, same.valid, http) refl

decide-target : (code : ℕ) (u : Url) (m : HttpMethod) → (decide code u m).target ≡ u
unfolding decide
decide-target code u m = ground arith

module _ (w : Answers) (opts : RedirectOptions) (state : FollowState) (hop : Hop)
    (resp : HttpResponse) (r : Text) (plain : Plain hop.request.url) where
  -- A redirect status with a Location that begins with a slash, whatever follows it, is followed while hops
  -- are left and the key of the request's URL is new: the next request goes to the URL that the Location
  -- resolves to, with the endpoint and the SSL context of the last one, and with its headers, but for those
  -- of a body that is dropped. The request's URL is one of http or https, in lower case, with a host that
  -- holds no character that ends one, no @ and no opening bracket, and a port that is the scheme's or is
  -- written and is above 0 and below 65536.
  pub local_redirect :
      get_header_value (codes "Location") resp.headers ≡ b'/' ∷ r
      → is_redirect_status resp.raw_code ≡ true
      → 0 < state.hops_left
      → has_seen (key hop.request.url) state.seen ≡ false
      → let target = resolve hop.request.url (b'/' ∷ r) in
        on_response w opts state hop (some resp)
        ≡ go
            (record { hops_left = state.hops_left - 1; seen = key hop.request.url ∷ state.seen })
            (record hop {
              request = next_request hop.request (decide resp.raw_code target hop.request.method);
            })
  unfolding on_response follow
  local_redirect location status positive fresh =
      let u = hop.request.url in
      let target = resolve u (b'/' ∷ r) in
      let m = hop.request.method in
      let same =
        ap (same_origin u) (decide-target resp.raw_code target m) ∙ kept_origin u r plain in
      rw (fresh, accepted u r plain resp m state.hops_left location status positive, same) refl
