-- ===== src/Http/RedirectHandler.antt =====
-- ComputeRedirect (src/neixx/net/http/redirect_handler.cpp), and the requests and responses that it is
-- about. A decision that is there has `follow` set.
use libnei.Common.{
  ℕ, Bool, true, false, not, ◌&&◌, ◌||◌, List, [], ◌∷◌, Option, none, some, leb, ◌==◌,
  if◌then◌else◌, ◌≡◌, refl,
}
use libnei.Common.{Text, codes, text_equal}
use libnei.Url.Parser.{Url, scheme, host}
use libnei.Url.Resolve.{resolve}
use libnei.Http.Text.{HttpHeader, get_header_value}

pub data HttpMethod : Type 0 where
  delete : HttpMethod
  get : HttpMethod
  head : HttpMethod
  post : HttpMethod
  put : HttpMethod
  connect : HttpMethod
  options : HttpMethod
  trace : HttpMethod
  patch : HttpMethod
  unknown : HttpMethod

pub record HttpRequest : Type 0 where
  pub url : Url
  pub method : HttpMethod
  pub headers : List HttpHeader
  pub body : List ℕ

pub record HttpResponse : Type 0 where
  pub raw_code : ℕ
  pub headers : List HttpHeader
  pub body : List ℕ

pub record RedirectDecision : Type 0 where
  pub target : Url
  pub method : HttpMethod
  pub method_changed : Bool
  pub status_code : ℕ

unfoldable pub is_redirect_status : ℕ → Bool
is_redirect_status code = code == 301 || code == 302 || code == 303 || code == 307 || code == 308

abbrev pub is_empty : Text → Bool
is_empty [] = true
is_empty (b ∷ bs) = false

abbrev pub is_get_or_head : HttpMethod → Bool
is_get_or_head get = true
is_get_or_head head = true
is_get_or_head _ = false

unfoldable pub decide : ℕ → Url → HttpMethod → RedirectDecision
decide code resolved method =
    let keep : RedirectDecision = record {
      target = resolved;
      method = method;
      method_changed = false;
      status_code = code;
    } in
    if code == 301 || code == 302 || code == 303
    then if not (is_get_or_head method)
      then record keep { method = get; method_changed = true }
      else keep
    else keep

-- Hops below 0 do what 0 does.
unfoldable pub compute_redirect : HttpResponse → Url → HttpMethod → ℕ → Option RedirectDecision
unfolding is_redirect_status
compute_redirect response original_url original_method remaining_hops =
    let location = get_header_value (codes "Location") response.headers in
    let resolved = resolve original_url location in
    if leb remaining_hops 0
    then none
    else if not (is_redirect_status response.raw_code)
    then none
    else if is_empty location
    then none
    else if not resolved.valid
        || (not (text_equal (scheme resolved) (codes "http"))
            && not (text_equal (scheme resolved) (codes "https")))
        || is_empty (host resolved)
    then none
    else some (decide response.raw_code resolved original_method)

pub redirect-no_hops :
    (resp : HttpResponse) (url : Url) (m : HttpMethod) → compute_redirect resp url m 0 ≡ none
unfolding compute_redirect
redirect-no_hops resp url m = refl
