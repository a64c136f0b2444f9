-- ===== src/Http/Redirects/Carried.antt =====
-- The credentials that SendRedirecting carries from one request to the next.
use libnei.Common.{
  ℕ, ◌≡◌, refl, sym, ◌∙◌, ◌⊎◌, inl, inr, true, false, List, some, All, arith, map, Bool-cases,
}
use mathlib.Core.Path.{subst}
use libnei.Url.Parser.{Url, scheme, host}
use libnei.Http.Text.{
  to_lower, is_dropped, equals_case_insensitive-eq, erase_headers-All, erase_headers-keeps,
}
use libnei.Http.RedirectHandler.{HttpRequest, RedirectDecision}
use libnei.Http.Redirects.{
  Answers, RedirectOptions, FollowState, Hop, IpEndPoint, next_request, same_origin, credentials,
  body_headers, Outcome, send_redirecting,
}
use libnei.Http.Redirects.Ends.{Onward, Chain, last, more, run-Chain}

-- One host and one scheme but for the case of letters, and one port.
pub record IsSameOrigin (u v : Url) : Type 0 where
  pub same_host : map to_lower (host u) ≡ map to_lower (host v)
  pub same_scheme : map to_lower (scheme u) ≡ map to_lower (scheme v)
  pub same_port : u.port_value ≡ v.port_value

same_origin-IsSameOrigin : (u v : Url) → same_origin u v ≡ true → IsSameOrigin u v
unfolding same_origin
same_origin-IsSameOrigin u v e = record {
  same_host = equals_case_insensitive-eq (host u) (host v) (ground arith);
  same_scheme = equals_case_insensitive-eq (scheme u) (scheme v) (ground arith);
  same_port = ground arith;
}

IsSameOrigin-trans : {u v x : Url} → IsSameOrigin u v → IsSameOrigin v x → IsSameOrigin u x
IsSameOrigin-trans p q = record {
  same_host = p.same_host ∙ q.same_host;
  same_scheme = p.same_scheme ∙ q.same_scheme;
  same_port = p.same_port ∙ q.same_port;
}

abbrev pub NoCredentials : HttpRequest → Type 0
NoCredentials request = All (λ h. is_dropped credentials h ≡ false) request.headers

abbrev pub KeepsCredentials : Url → HttpRequest → Type 0
KeepsCredentials first request = IsSameOrigin first request.url ⊎ NoCredentials request

next_request-NoCredentials :
    (request : HttpRequest) (d : RedirectDecision)
    → NoCredentials request
    → NoCredentials (next_request request d)
unfolding next_request
next_request-NoCredentials request d h = elim (Bool-cases d.method_changed) [
  | inl e ↦ rw e (erase_headers-keeps _ body_headers request.headers h)
  | inr e ↦ rw e h
]

next_request-url :
    (request : HttpRequest) (d : RedirectDecision) → (next_request request d).url ≡ d.target
unfolding next_request
next_request-url request d = ground arith

-- One more request.
Onward-KeepsCredentials :
    (first : Url) (request : HttpRequest) (d : RedirectDecision) (request' : HttpRequest)
    → Onward request d request'
    → KeepsCredentials first request
    → KeepsCredentials first request'
Onward-KeepsCredentials first request d request' (inr e) k =
    rw e (inr (erase_headers-All credentials (next_request request d).headers))
Onward-KeepsCredentials first request d request' (inl (same, e)) (inr none) =
    rw e (inr (next_request-NoCredentials request d none))
Onward-KeepsCredentials first request d request' (inl (same, e)) (inl here) = rw e (
    inl (
      subst (λ u. IsSameOrigin first u) (sym (next_request-url request d))
        (IsSameOrigin-trans here (same_origin-IsSameOrigin request.url d.target same))))

Chain-KeepsCredentials :
    {w : Answers} (first : Url) {state : FollowState} {hop : Hop} {sent : List Hop}
    → Chain w state hop sent
    → KeepsCredentials first hop.request
    → All (λ (h : Hop). KeepsCredentials first h.request) sent
Chain-KeepsCredentials first (last s h) k = (k, tt)
Chain-KeepsCredentials first (more f c) k =
    (k, Chain-KeepsCredentials first c (Onward-KeepsCredentials first _ f.decision _ f.onward k))

module _ (w : Answers) (opts : RedirectOptions) (request : HttpRequest) (endpoint : IpEndPoint)
    (ssl_ctx : ℕ) (out : Outcome) where
  -- Every request that is sent goes to the origin of the first request (the host and the scheme but for
  -- the case of letters, and the port) or has no Authorization and no Cookie header.
  pub credentials_kept :
      send_redirecting w opts request endpoint ssl_ctx ≡ some out
      → All (λ (h : Hop). KeepsCredentials request.url h.request) out.0
  unfolding send_redirecting
  credentials_kept e =
      Chain-KeepsCredentials request.url (run-Chain w opts _ _ _ out e)
        (inl (record { same_host = refl; same_scheme = refl; same_port = refl }))
