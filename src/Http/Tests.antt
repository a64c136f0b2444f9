-- ===== src/Http/Tests.antt =====
-- Runs of the HTTP code on concrete inputs, and the theorems at concrete inputs.
use mathlib.Core.Option
use libnei.Common.{
  ℕ, ◌-◌, none, some, if◌then◌else◌, All, filter, ◌+◌, ◌≤◌, ◌≡◌, refl, ◌⊎◌, true, arith, inr, List,
  [], ◌∷◌, ◌++◌, length, not, ◌==◌, count,
}
use libnei.Http.ClientPool.{PoolKey, IdleEntry, Impl, new_pool, Probe, queue_of, acquire, release}
use libnei.Http.ClientPool.Counts.{times, pooled}
use libnei.Http.ClientPool.Conservation.{
  Call, acquire_call, release_call, step, history, in_one_place,
}
use libnei.Http.ClientPool.Reuse.{Reuses, Makes, acquire_lem}
use libnei.Common.{Text, codes, text_equal}
use libnei.Url.Chars.{
  is_alpha, is_digit, is_scheme_char, lower_between, find_if, strtol_from, to_string,
  default_port_for_scheme,
}
use libnei.Url.Parser.Authority.{IsHostChar}
use libnei.Url.Parser.Whole.{IsSchemeChar}
use libnei.Url.Parser.Read.{parse_port_Reads}
use libnei.Url.Parser.{
  Url, parse, parse_with_scheme, parse_authority, parse_after_slashes, parse_path, parse_query,
  parse_fragment, parse_default_port, host, origin,
}
use libnei.Url.Resolve.{resolve, resolve_path}
use libnei.Http.Text.{
  HttpHeader, equals_case_insensitive, get_header_value, erase_headers, is_dropped,
}
use libnei.Http.RedirectHandler.{
  HttpMethod, get, post, HttpRequest, HttpResponse, decide, is_redirect_status, compute_redirect,
}
use libnei.Http.Redirects.{
  IpEndPoint, Hop, go, key, Answers, RedirectOptions, has_seen, next_request, same_origin,
  cross_origin, follow, on_response, Outcome, run, send_redirecting,
}
use libnei.Http.Redirects.Local.{Plain, local_redirect}
use libnei.Http.Redirects.Rewrites.{Linked, method_and_body_rewritten}
use libnei.Http.Redirects.Ends.{Fresh, send_redirecting_ends}
use libnei.Http.Redirects.Carried.{KeepsCredentials, credentials_kept}

abbrev plain : PoolKey
plain = record { endpoint = 1; ssl_ctx = 0 }

-- At 31 seconds; client 1 is closed by the peer.
abbrev later : Probe
later = record { is_connected = λ c. true; peek = λ c. not (c == 1); now = λ c. 31_000_000 }

-- Three clients are made and come back at 0, 2 and 3 seconds, then one is asked for: 0 is expired and 1 is
-- dead, so it is 2.
abbrev used : List Call
used =
    acquire_call plain later
    ∷ release_call plain 2 true 3_000_000
    ∷ release_call plain 1 true 2_000_000
    ∷ release_call plain 0 true 0
    ∷ acquire_call plain later
    ∷ acquire_call plain later
    ∷ acquire_call plain later
    ∷ []

used_run :
    ((history used).held ≡ 2 ∷ [])
    × ((history used).pool.closed ≡ 0 ∷ 1 ∷ [])
    × ((history used).pool.idle_clients ≡ [])
unfolding acquire release step count
used_run = (refl, refl, refl)

in_one_place_example :
    let w = history used in
    pooled 1 w.pool.idle_clients + times 1 w.pool.closed + times 1 w.held + times 1 w.dropped ≡ 1
unfolding acquire release step count
in_one_place_example = in_one_place 1 used

abbrev entry : ℕ → ℕ → IdleEntry
entry c t = record { client = c; released_at = t }

abbrev filled : Impl
filled = record new_pool {
  idle_clients =
      (plain, entry 0 0 ∷ entry 1 2_000_000 ∷ entry 2 3_000_000 ∷ entry 3 4_000_000 ∷ []) ∷ [];
  next_client = 4;
}

acquire_lem_example :
    let queue = queue_of plain filled.idle_clients in
    Reuses plain later filled queue (acquire plain later filled)
    ⊎ Makes plain later filled queue (acquire plain later filled)
acquire_lem_example = acquire_lem plain later filled

abbrev address_of : ℕ → Text
address_of n = codes "https://" ++ (n ∷ codes "/")

abbrev site : ℕ → Url
site n = parse (address_of n)

abbrev redirect_to : ℕ → ℕ → HttpResponse
redirect_to code n = record {
  raw_code = code;
  headers = (record { name = codes "location"; value = address_of n }) ∷ [];
  body = [];
}

abbrev found : HttpResponse
found = record { raw_code = 200; headers = []; body = 7 ∷ [] }

abbrev first_of : Text → ℕ
first_of [] = 0
first_of (b ∷ bs) = b

-- Host 97 sends to 98, which sends on to 99, which has the page.
abbrev hosts : Answers
hosts = record {
  send = λ hops h.
      if first_of (host h.request.url) == 97
      then some (redirect_to 302 98)
      else if first_of (host h.request.url) == 98
      then some (redirect_to 307 99)
      else some found;
  first_address = λ hops host. some (first_of host + 1000);
}

abbrev sign_in : HttpRequest
sign_in = record {
  url = site 97;
  method = post;
  headers =
      record { name = codes "authorization"; value = 1 ∷ [] }
      ∷ record { name = codes "Content-Type"; value = 2 ∷ [] }
      ∷ record { name = codes "Accept"; value = 3 ∷ [] }
      ∷ [];
  body = 5 ∷ [];
}

abbrev ten_hops : RedirectOptions
ten_hops = record { max_redirects = 10; has_resolver = true; ssl_context_provider = λ u. none }

abbrev first_endpoint : IpEndPoint
first_endpoint = record { address = 1097; port = 443 }

abbrev visit : ℕ → HttpMethod → List HttpHeader → List ℕ → Hop
visit n method headers body = record {
  request = record { url = site n; method = method; headers = headers; body = body };
  endpoint = record { address = n + 1000; port = 443 };
  ssl_ctx = 4;
}

abbrev signed_in : Outcome
signed_in = (
  visit 97 post sign_in.headers (5 ∷ [])
      ∷ visit 98 get (record { name = codes "Accept"; value = 3 ∷ [] } ∷ []) []
      ∷ visit 99 get (record { name = codes "Accept"; value = 3 ∷ [] } ∷ []) []
      ∷ [],
  some found,
)

signed_in_run : send_redirecting hosts ten_hops sign_in first_endpoint 4 ≡ some signed_in
unfolding send_redirecting run on_response follow cross_origin has_seen same_origin next_request
    compute_redirect decide get_header_value text_equal equals_case_insensitive erase_headers
    is_dropped filter parse parse_with_scheme parse_authority parse_after_slashes parse_path
    parse_query parse_fragment parse_default_port origin is_scheme_char lower_between find_if
    strtol_from to_string default_port_for_scheme libnei.Url.Chars.to_lower resolve resolve_path
signed_in_run = refl

-- Two hosts that send to one another: the first is asked twice.
loop_run :
    Option.map
      (λ (o : Outcome). length o.0)
      (send_redirecting
        (record hosts {
          send = λ hops h. some (redirect_to 302 (195 - first_of (host h.request.url)));
        })
        ten_hops
        sign_in
        first_endpoint
        4)
    ≡ some 3
unfolding send_redirecting run on_response follow cross_origin has_seen same_origin next_request
    compute_redirect decide get_header_value text_equal equals_case_insensitive erase_headers
    is_dropped filter parse parse_with_scheme parse_authority parse_after_slashes parse_path
    parse_query parse_fragment parse_default_port origin is_scheme_char lower_between find_if
    strtol_from to_string default_port_for_scheme libnei.Url.Chars.to_lower resolve resolve_path
loop_run = refl

send_redirecting_ends_example :
    (out : Outcome) × (send_redirecting hosts ten_hops sign_in first_endpoint 4 ≡ some out)
    × (length out.0 ≤ 11)
    × Fresh [] out.0
send_redirecting_ends_example = send_redirecting_ends hosts ten_hops sign_in first_endpoint 4

credentials_kept_example : All (λ (h : Hop). KeepsCredentials (site 97) h.request) signed_in.0
credentials_kept_example =
    credentials_kept hosts ten_hops sign_in first_endpoint 4 signed_in signed_in_run

method_and_body_rewritten_example : Linked hosts 10 signed_in.0
method_and_body_rewritten_example =
    method_and_body_rewritten hosts ten_hops sign_in first_endpoint 4 signed_in signed_in_run

https-IsSchemeChar : All IsSchemeChar (codes "https")
unfolding is_scheme_char is_alpha is_digit libnei.Url.Chars.to_lower
https-IsSchemeChar =
    ((refl, refl), ((refl, refl), ((refl, refl), ((refl, refl), ((refl, refl), tt)))))

a_org-IsHostChar : All IsHostChar (codes "a.org")
unfolding libnei.Url.Chars.to_lower
a_org-IsHostChar = (
  (refl, refl, refl, refl),
  (
    (refl, refl, refl, refl),
    ((refl, refl, refl, refl), ((refl, refl, refl, refl), ((refl, refl, refl, refl), tt))),
  ),
)

abbrev old_page : Url
old_page = parse (codes "https://a.org:8443/old")

old_page-Plain : Plain old_page
unfolding to_string text_equal
old_page-Plain = record {
  first = b'h';
  text = codes "ttps://a.org:8443/old";
  a = b'h';
  sc = codes "ttps";
  c = b'a';
  h = codes ".org";
  explicit = true;
  p = 8443;
  reads =
      parse_port_Reads b'h' (codes "ttps") b'a' (codes ".org") (codes "old") https-IsSchemeChar
        a_org-IsHostChar 8443 (omega arith) (omega arith);
  scheme_chars = https-IsSchemeChar;
  host_chars = a_org-IsHostChar;
  port = inr (refl, omega arith, omega arith);
  http = refl;
}

abbrev moved : HttpResponse
moved = record {
  raw_code = 307;
  headers = record { name = codes "location"; value = codes "//b.net/new" } ∷ [];
  body = [];
}

abbrev old_visit : Hop
old_visit = record {
  request = record sign_in { url = old_page };
  endpoint = first_endpoint;
  ssl_ctx = 4;
}

-- The Authorization header is kept.
local_redirect_example :
    on_response hosts ten_hops (record { hops_left = 10; seen = [] }) old_visit (some moved)
    ≡ go
        (record { hops_left = 9; seen = key old_page ∷ [] })
        (record old_visit {
          request = record sign_in { url = resolve old_page (codes "//b.net/new") };
        })
unfolding get_header_value equals_case_insensitive has_seen is_redirect_status next_request decide
local_redirect_example =
    local_redirect hosts ten_hops (record { hops_left = 10; seen = [] }) old_visit moved
      (codes "/b.net/new") old_page-Plain refl refl (omega arith) refl
