-- ===== src/Http/Redirects.antt =====
-- HttpClient::SendRedirecting (src/neixx/net/http/http_client.cpp). What Send and the resolver answer are arguments,
-- the answers of each hop by the hops that are left then; an SSLContext is known by a number. The final
-- callback is the end of the loop.
pub mod Ends
pub mod Carried
pub mod Local
pub mod Rewrites
use libnei.Common.{
  ℕ, zero, suc, ◌+◌, ◌-◌, Bool, true, false, not, ◌&&◌, ◌||◌, List, [], ◌∷◌, ◌++◌, Option, none,
  some, ltb, leb, ◌==◌, if◌then◌else◌,
}
use libnei.Common.{Text, codes, text_equal}
use libnei.Url.Parser.{Url, scheme, host, path, query, origin}
use libnei.Http.Text.{equals_case_insensitive, HttpHeader, get_header_value, erase_headers}
use libnei.Http.RedirectHandler.{HttpRequest, HttpResponse, RedirectDecision, compute_redirect}

pub record IpEndPoint : Type 0 where
  pub address : ℕ
  pub port : ℕ

-- One call of Send.
pub record Hop : Type 0 where
  pub request : HttpRequest
  pub endpoint : IpEndPoint
  pub ssl_ctx : ℕ

-- What is answered from outside. `send` is what the callback of Send gets, `first_address` the first
-- address that the resolver finds.
pub record Answers : Type 0 where
  pub send : ℕ → Hop → Option HttpResponse
  pub first_address : ℕ → Text → Option ℕ

-- `ssl_context_provider` gives none where there is no provider or it gives null.
pub record RedirectOptions : Type 0 where
  pub max_redirects : ℕ
  pub has_resolver : Bool
  pub ssl_context_provider : Url → Option ℕ

pub record FollowState : Type 0 where
  pub hops_left : ℕ
  pub seen : List Text

abbrev pub key : Url → Text
key url = origin url ++ (path url ++ query url)

unfoldable pub has_seen : Text → List Text → Bool
has_seen k [] = false
has_seen k (s ∷ seen) = text_equal k s || has_seen k seen

abbrev pub body_headers : List Text
body_headers = codes "Content-Length" ∷ codes "Content-Type" ∷ codes "Transfer-Encoding" ∷ []

abbrev pub credentials : List Text
credentials = codes "Authorization" ∷ codes "Cookie" ∷ []

unfoldable pub next_request : HttpRequest → RedirectDecision → HttpRequest
next_request req decision =
    let next = record req { url = decision.target; method = decision.method } in
    if decision.method_changed
    then record next { body = []; headers = erase_headers body_headers next.headers }
    else next

unfoldable pub same_origin : Url → Url → Bool
same_origin url target =
    equals_case_insensitive (host url) (host target)
    && equals_case_insensitive (scheme url) (scheme target)
    && url.port_value == target.port_value

abbrev target_port : Url → ℕ
target_port target =
    if not (target.port_value == 0)
    then target.port_value
    else if equals_case_insensitive (scheme target) (codes "https")
    then 443
    else 80

abbrev or_else : Option ℕ → ℕ → ℕ
or_else none d = d
or_else (some a) d = a

-- What a callback does: it calls the final callback, or the hop driver with the next request.
pub data Next : Type 0 where
  finish : Option HttpResponse → Next
  go : FollowState → Hop → Next

unfoldable pub cross_origin :
    Answers → RedirectOptions → FollowState → Hop → HttpResponse → HttpRequest → Next
cross_origin w opts state hop resp request =
    let next = record request { headers = erase_headers credentials request.headers } in
    if not opts.has_resolver
    then finish (some resp)
    else elim (w.first_address state.hops_left (host next.url)) [
      | none ↦ finish none
      | some address ↦ go state (record {
        request = next;
        endpoint = record { address = address; port = target_port next.url };
        ssl_ctx = or_else (opts.ssl_context_provider next.url) hop.ssl_ctx;
      })
    ]

unfoldable pub follow :
    Answers → RedirectOptions → FollowState → Hop → HttpResponse → RedirectDecision → Next
follow w opts state hop resp decision =
    let state' = record state { hops_left = state.hops_left - 1 } in
    let next = next_request hop.request decision in
    if same_origin hop.request.url decision.target
    then go state' (record hop { request = next })
    else cross_origin w opts state' hop resp next

unfoldable pub on_response :
    Answers → RedirectOptions → FollowState → Hop → Option HttpResponse → Next
on_response w opts state hop none = finish none
on_response w opts state hop (some resp) =
    let k = key hop.request.url in
    let state' = record state { seen = k ∷ state.seen } in
    if has_seen k state.seen
    then finish (some resp)
    else elim (compute_redirect resp hop.request.url hop.request.method state.hops_left) [
      | none ↦ finish (some resp)
      | some decision ↦ follow w opts state' hop resp decision
    ]

-- The calls of Send, in order, and what the final callback gets.
abbrev pub Outcome : Type 0
Outcome = List Hop × Option HttpResponse

abbrev pub sent_first : Hop → Option Outcome → Option Outcome
sent_first hop none = none
sent_first hop (some (sent, result)) = some (hop ∷ sent, result)

-- The hop driver on fuel.
unfoldable pub run : ℕ → Answers → RedirectOptions → FollowState → Hop → Option Outcome
run zero w opts state hop = none
run (suc fuel) w opts state hop = elim (on_response w opts state hop (w.send state.hops_left hop)) [
  | finish result ↦ some (hop ∷ [], result)
  | go state' hop' ↦ sent_first hop (run fuel w opts state' hop')
]

unfoldable pub send_redirecting :
    Answers → RedirectOptions → HttpRequest → IpEndPoint → ℕ → Option Outcome
send_redirecting w opts request endpoint ssl_ctx =
    run (opts.max_redirects + 1) w opts (record { hops_left = opts.max_redirects; seen = [] })
      (record { request = request; endpoint = endpoint; ssl_ctx = ssl_ctx })
