-- ===== src/Http/Redirects/Ends.antt =====
-- The loop of SendRedirecting ends, and follows no URL twice.
use libnei.Common.{
  ℕ, zero, suc, ◌+◌, ◌-◌, ◌<◌, ◌≤◌, ◌≡◌, refl, ap, ◌⊎◌, inl, inr, true, false, List, [], ◌∷◌,
  Option, none, some, length, arith, Bool-cases, Option-cases,
}
use mathlib.Core.Path.{subst}
use libnei.Common.{Text}
use libnei.Url.Parser.{Url}
use libnei.Http.Text.{erase_headers}
use libnei.Http.RedirectHandler.{
  HttpMethod, HttpRequest, HttpResponse, RedirectDecision, compute_redirect, redirect-no_hops,
}
use libnei.Http.Redirects.{
  Answers, RedirectOptions, FollowState, Hop, IpEndPoint, Next, finish, go, on_response, follow,
  cross_origin, next_request, same_origin, credentials, key, has_seen, sent_first, Outcome, run,
  send_redirecting,
}

-- How the next request comes from one and the decision: with the same origin, or without credentials.
abbrev pub Onward : HttpRequest → RedirectDecision → HttpRequest → Type 0
Onward request decision request' =
    let next = next_request request decision in
    ((same_origin request.url decision.target ≡ true) × (request' ≡ next))
    ⊎ (request' ≡ record next { headers = erase_headers credentials next.headers })

-- What is so when the hop driver is called again.
pub record Follows (w : Answers) (state : FollowState) (hop : Hop) (state' : FollowState)
    (hop' : Hop) : Type 0 where
  pub resp : HttpResponse
  pub answered : w.send state.hops_left hop ≡ some resp
  pub decision : RedirectDecision
  pub decided :
      compute_redirect resp hop.request.url hop.request.method state.hops_left ≡ some decision
  pub fresh : has_seen (key hop.request.url) state.seen ≡ false
  pub hops : state'.hops_left ≡ state.hops_left - 1
  pub marked : state'.seen ≡ key hop.request.url ∷ state.seen
  pub onward : Onward hop.request decision hop'.request

module _ (w : Answers) (opts : RedirectOptions) where
  follow_lem :
      (state : FollowState) (hop : Hop) (resp : HttpResponse) (d : RedirectDecision)
      (state' : FollowState) (hop' : Hop)
      → follow w opts state hop resp d ≡ go state' hop'
      → (state' ≡ record state { hops_left = state.hops_left - 1 })
        × Onward hop.request d hop'.request
  unfolding follow cross_origin
  follow_lem state hop resp d state' hop' e = ground arith

  on_response_lem :
      (state : FollowState) (hop : Hop) (resp : Option HttpResponse) (state' : FollowState)
      (hop' : Hop)
      → w.send state.hops_left hop ≡ resp
      → on_response w opts state hop resp ≡ go state' hop'
      → Follows w state hop state' hop'
  unfolding on_response
  on_response_lem state hop none state' hop' a e = cc
  on_response_lem state hop (some resp) state' hop' a e =
      let k = key hop.request.url in
      let marked = record state { seen = k ∷ state.seen } in
      elim (Bool-cases (has_seen k state.seen)) [
        | inl old ↦ absurd (ground (arith))
        | inr new ↦
            elim (Option-cases
              (compute_redirect resp hop.request.url hop.request.method state.hops_left)) [
                | inl stop ↦ absurd (ground (arith))
                | inr (d, decided) ↦
                    let here : follow w opts marked hop resp d ≡ go state' hop' = ground arith in
                    let (left, onward) = follow_lem marked hop resp d state' hop' here in
                    record {
                      resp = resp;
                      answered = a;
                      decision = d;
                      decided = decided;
                      fresh = new;
                      hops = ap (λ (s : FollowState). s.hops_left) left;
                      marked = ap (λ (s : FollowState). s.seen) left;
                      onward = onward;
                    }
              ]
      ]

hops_left_of :
    (hops : ℕ) (resp : HttpResponse) (url : Url) (m : HttpMethod) {d : RedirectDecision}
    → compute_redirect resp url m hops ≡ some d
    → 0 < hops
hops_left_of zero resp url m e = absurd (cc (redirect-no_hops resp url m))
hops_left_of (suc n) resp url m e = omega arith

hops_left_lem :
    {w : Answers} {state : FollowState} {hop : Hop} {state' : FollowState} {hop' : Hop}
    → Follows w state hop state' hop'
    → 0 < state.hops_left
hops_left_lem {w} {state} {hop} f =
    hops_left_of state.hops_left f.resp hop.request.url hop.request.method f.decided

-- The hops from a state on, as the driver makes them.
pub data Chain (w : Answers) : FollowState → Hop → List Hop → Type 0 where
  last : (state : FollowState) (hop : Hop) → Chain w state hop (hop ∷ [])
  more :
      {state : FollowState} {hop : Hop} {state' : FollowState} {hop' : Hop} {sent : List Hop}
      → Follows w state hop state' hop'
      → Chain w state' hop' sent
      → Chain w state hop (hop ∷ sent)

Next-cases :
    (n : Next)
    → ((r : Option HttpResponse) × (n ≡ finish r)) ⊎ ((s : FollowState) × (h : Hop) × (n ≡ go s h))
Next-cases (finish r) = inl (r, refl)
Next-cases (go s h) = inr (s, h, refl)

Chain-first :
    (w : Answers) (state : FollowState) (hop : Hop) (rest : Option Outcome) (out : Outcome)
    → ((o : Outcome) → rest ≡ some o → Chain w state hop (hop ∷ o.0))
    → sent_first hop rest ≡ some out
    → Chain w state hop out.0
Chain-first w state hop none out k e = cc
Chain-first w state hop (some (sent, result)) out k e =
    let same : hop ∷ sent ≡ out.0 = cc in
    subst (λ l. Chain w state hop l) same (k (sent, result) refl)

module _ (w : Answers) (opts : RedirectOptions) where
  pub run-Chain :
      (fuel : ℕ) (state : FollowState) (hop : Hop) (out : Outcome)
      → run fuel w opts state hop ≡ some out
      → Chain w state hop out.0
  unfolding run
  run-Chain zero state hop out e = cc
  run-Chain (suc fuel) state hop out e =
      elim (Next-cases (on_response w opts state hop (w.send state.hops_left hop))) [
        | inl (r, stop) ↦
            let same : hop ∷ [] ≡ out.0 = ground arith in
            subst (λ l. Chain w state hop l) same (last state hop)
        | inr (s, h, step) ↦
            Chain-first w state hop (run fuel w opts s h) out
              (λ o q.
                more (on_response_lem w opts state hop _ s h refl step) (run-Chain fuel s h o q))
              (ground arith)
      ]

  -- With more fuel than hops the driver ends, with a Send for each hop and one more at most.
  run_ends :
      (fuel : ℕ) (state : FollowState) (hop : Hop)
      → state.hops_left < fuel
      → (out : Outcome) × (run fuel w opts state hop ≡ some out)
        × (length out.0 ≤ state.hops_left + 1)
  unfolding run
  run_ends zero state hop h = absurd (omega arith)
  run_ends (suc fuel) state hop h =
      elim (Next-cases (on_response w opts state hop (w.send state.hops_left hop))) [
        | inl (r, stop) ↦ ((hop ∷ [], r), ground arith, omega arith)
        | inr (s, k, step) ↦
            let f = on_response_lem w opts state hop _ s k refl step in
            let left : 0 < state.hops_left = hops_left_lem f in
            let (out, ends, few) = run_ends fuel s k (omega (arith, f.hops)) in
            ((hop ∷ out.0, out.1), ground arith, omega (arith, f.hops))
      ]

-- The key of a request that is followed is not in the set, which then has it.
abbrev pub Fresh : List Text → List Hop → Type 0
Fresh seen [] = Unit
Fresh seen (h ∷ []) = Unit
Fresh seen (h ∷ h' ∷ sent) =
    (has_seen (key h.request.url) seen ≡ false) × Fresh (key h.request.url ∷ seen) (h' ∷ sent)

Chain-Fresh :
    {w : Answers} {state : FollowState} {hop : Hop} {sent : List Hop}
    → Chain w state hop sent
    → Fresh state.seen sent
Chain-Fresh (last s h) = tt
Chain-Fresh (more f (last s h)) = (f.fresh, tt)
Chain-Fresh (more f (more {hop = next} {sent = sent} g c)) =
    (f.fresh, subst (λ seen. Fresh seen (next ∷ sent)) f.marked (Chain-Fresh (more g c)))

-- Whatever is answered, SendRedirecting ends: it calls the final callback once, after max_redirects + 1
-- calls of Send at most, and no two of these but the last are of URLs with one origin, path and query.
pub send_redirecting_ends :
    (w : Answers) (opts : RedirectOptions) (request : HttpRequest) (endpoint : IpEndPoint)
    (ssl_ctx : ℕ)
    → (out : Outcome) × (send_redirecting w opts request endpoint ssl_ctx ≡ some out)
      × (length out.0 ≤ opts.max_redirects + 1)
      × Fresh [] out.0
unfolding send_redirecting
send_redirecting_ends w opts request endpoint ssl_ctx =
    let (out, ends, few) = run_ends w opts _ _ _ (omega arith) in
    (out, ends, few, Chain-Fresh (run-Chain w opts _ _ _ out ends))
