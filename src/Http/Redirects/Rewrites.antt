-- ===== src/Http/Redirects/Rewrites.antt =====
-- What becomes of the method and the body at a redirect.
use mathlib.Core.Path.{subst}
use libnei.Common.{Text, codes}
use libnei.Common.{
  ℕ, ◌-◌, ◌≡◌, refl, sym, ◌⊎◌, inl, inr, true, false, ◌||◌, ◌==◌, List, [], ◌∷◌, some, All, arith,
  Bool-cases,
}
use libnei.Url.Parser.{Url}
use libnei.Url.Resolve.{resolve}
use libnei.Http.Text.{
  get_header_value, is_dropped, erase_headers, erase_headers-All, erase_headers-keeps,
}
use libnei.Http.RedirectHandler.{
  HttpMethod, get, is_get_or_head, is_redirect_status, HttpRequest, HttpResponse, RedirectDecision,
  decide, compute_redirect,
}
use libnei.Http.Redirects.{
  Answers, RedirectOptions, FollowState, Hop, IpEndPoint, next_request, body_headers, credentials,
  Outcome, send_redirecting,
}
use libnei.Http.Redirects.Ends.{Onward, Follows, Chain, last, more, run-Chain}

abbrev pub IsRewriting : ℕ → Type 0
IsRewriting code = (code ≡ 301) ⊎ (code ≡ 302) ⊎ (code ≡ 303)

abbrev pub IsPreserving : ℕ → Type 0
IsPreserving code = (code ≡ 307) ⊎ (code ≡ 308)

abbrev pub SameContent : HttpRequest → HttpRequest → Type 0
SameContent q next = (next.method ≡ q.method) × (next.body ≡ q.body)

-- A GET without a body and the headers of one.
abbrev pub IsPlainGet : HttpRequest → Type 0
IsPlainGet next =
    (next.method ≡ get)
    × (next.body ≡ [])
    × All (λ h. is_dropped body_headers h ≡ false) next.headers

-- The request after the answer with a status to another one.
abbrev pub AfterRedirect : ℕ → HttpRequest → HttpRequest → Type 0
AfterRedirect code q next =
    (IsRewriting code × (is_get_or_head q.method ≡ false) × IsPlainGet next)
    ⊎ (IsRewriting code × (is_get_or_head q.method ≡ true) × SameContent q next)
    ⊎ (IsPreserving code × SameContent q next)

decision_lem :
    (resp : HttpResponse) (url : Url) (m : HttpMethod) (hops : ℕ) (d : RedirectDecision)
    → compute_redirect resp url m hops ≡ some d
    → (is_redirect_status resp.raw_code ≡ true)
      × (d
          ≡ decide resp.raw_code (resolve url (get_header_value (codes "Location") resp.headers)) m)
unfolding compute_redirect
decision_lem resp url m hops d e = ground arith

status_cases : (code : ℕ) → is_redirect_status code ≡ true → IsRewriting code ⊎ IsPreserving code
unfolding is_redirect_status
status_cases code e = ground arith

rewriting_lem :
    (code : ℕ) (target : Url) (q : HttpRequest)
    → (code == 301 || code == 302 || code == 303) ≡ true
    → IsRewriting code
    → AfterRedirect code q (next_request q (decide code target q.method))
unfolding decide next_request
rewriting_lem code target q e r = elim (Bool-cases (is_get_or_head q.method)) [
  | inl k ↦ rw (e, k) (inr (inl (r, refl, (refl, refl))))
  | inr k ↦ rw (e, k) (inl (r, refl, (refl, refl, erase_headers-All body_headers q.headers)))
]

preserving_lem :
    (code : ℕ) (target : Url) (q : HttpRequest)
    → (code == 301 || code == 302 || code == 303) ≡ false
    → IsPreserving code
    → AfterRedirect code q (next_request q (decide code target q.method))
unfolding decide next_request
preserving_lem code target q e r = rw e (inr (inr (r, (refl, refl))))

rewriting_code : (code : ℕ) → IsRewriting code → (code == 301 || code == 302 || code == 303) ≡ true
rewriting_code code r = ground arith

preserving_code :
    (code : ℕ) → IsPreserving code → (code == 301 || code == 302 || code == 303) ≡ false
preserving_code code r = ground arith

decide_lem :
    (code : ℕ) (target : Url) (q : HttpRequest)
    → IsRewriting code ⊎ IsPreserving code
    → AfterRedirect code q (next_request q (decide code target q.method))
decide_lem code target q (inl r) = rewriting_lem code target q (rewriting_code code r) r
decide_lem code target q (inr r) = preserving_lem code target q (preserving_code code r) r

-- The credentials that are erased change neither the method nor the body.
erased_lem :
    (code : ℕ) (q next : HttpRequest) (drop : List Text)
    → AfterRedirect code q next
    → AfterRedirect code q (record next { headers = erase_headers drop next.headers })
erased_lem code q next drop (inl (r, k, (m, b, plain))) = inl (
  r,
  k,
  (m, b, erase_headers-keeps (λ h. is_dropped body_headers h ≡ false) drop next.headers plain),
)
erased_lem code q next drop (inr (inl (r, k, (m, b)))) = inr (inl (r, k, (m, b)))
erased_lem code q next drop (inr (inr (r, (m, b)))) = inr (inr (r, (m, b)))

onward_lem :
    (code : ℕ) (q : HttpRequest) (d : RedirectDecision) (q' : HttpRequest)
    → Onward q d q'
    → AfterRedirect code q (next_request q d)
    → AfterRedirect code q q'
onward_lem code q d q' (inl (same, e)) k = subst (AfterRedirect code q) (sym e) k
onward_lem code q d q' (inr e) k =
    subst (AfterRedirect code q) (sym e) (erased_lem code q (next_request q d) credentials k)

follows_lem :
    {w : Answers} {state : FollowState} {hop : Hop} {state' : FollowState} {hop' : Hop}
    → (f : Follows w state hop state' hop') → AfterRedirect f.resp.raw_code hop.request hop'.request
follows_lem {state = state} {hop = hop} {hop' = hop'} f =
    let q = hop.request in
    let target = resolve q.url (get_header_value (codes "Location") f.resp.headers) in
    let (status, decided) =
      decision_lem f.resp q.url q.method state.hops_left f.decision f.decided in
    onward_lem f.resp.raw_code q f.decision hop'.request f.onward (
      subst (λ d. AfterRedirect f.resp.raw_code q (next_request q d)) (sym decided)
        (decide_lem f.resp.raw_code target q (status_cases f.resp.raw_code status)))

-- Each request but the first is what the answer to the one before it, with `hops` left, makes of that.
abbrev pub Linked : Answers → ℕ → List Hop → Type 0
Linked w hops [] = Unit
Linked w hops (h ∷ []) = Unit
Linked w hops (h ∷ h' ∷ sent) =
    ((resp : HttpResponse) × (w.send hops h ≡ some resp)
      × AfterRedirect resp.raw_code h.request h'.request)
    × Linked w (hops - 1) (h' ∷ sent)

Chain-Linked :
    {w : Answers} {state : FollowState} {hop : Hop} {sent : List Hop}
    → Chain w state hop sent
    → Linked w state.hops_left sent
Chain-Linked (last s h) = tt
Chain-Linked (more f (last s h)) = ((f.resp, f.answered, follows_lem f), tt)
Chain-Linked {w} (more {hop' = h'} f (more {sent = sent} g c)) = (
  (f.resp, f.answered, follows_lem f),
  subst (λ n. Linked w n (h' ∷ sent)) f.hops (Chain-Linked (more g c)),
)

-- Every request that is sent but the first comes from a redirect answer to the one before it. After 301,
-- 302 and 303 it is a GET with no body and without the headers of one, where the method was neither GET nor
-- HEAD, and has the method and the body of the one before it, where it was; after 307 and 308 it has the
-- method and the body of the one before it.
pub method_and_body_rewritten :
    (w : Answers) (opts : RedirectOptions) (request : HttpRequest) (endpoint : IpEndPoint)
    (ssl_ctx : ℕ) (out : Outcome)
    → send_redirecting w opts request endpoint ssl_ctx ≡ some out
    → Linked w opts.max_redirects out.0
unfolding send_redirecting
method_and_body_rewritten w opts request endpoint ssl_ctx out e =
    Chain-Linked (run-Chain w opts _ _ _ out e)
