-- ===== src/Ipc/RpcEndpoint/Timers.antt =====
-- Each entry has a timer, or will have one.
use mathlib.Core.Path.{subst}
use libnei.Common.{
  ℕ, ◌+◌, ◌<◌, ◌≤◌, ◌≡◌, refl, ◌⊎◌, inl, inr, Bool, true, false, Option, none, some, List, [], ◌∷◌,
  ◌++◌, arith, ◌==◌, count, count-append, count-remove_at, All, get_elem?, remove_at, ltb, length,
  Bool-cases, Option-cases,
}
use libnei.Ipc.RpcFrame.{RpcMessage, parse_rpc_frame, one_way, request, response, rpc_header_size}
use libnei.Ipc.RpcEndpoint.{
  PendingRequest, Sending, Endpoint, find_pending, erase_pending, set_pending, set_timer, tear_down,
  start, send_one_way, send_frame, take_id, begin_request, finish_request, set_request_handler,
  reply, respond, on_request, dispatch, on_message_received, on_channel_error,
  install_timeout_timer, on_request_timeout, signal_error,
}
use libnei.Ipc.RpcEndpoint.Histories.{
  Call, tear_down_call, error_call, start_call, handler_call, one_way_call, begin_call, finish_call,
  reply_call, message_call, install_call, timeout_call, act, history,
}

abbrev sends : ℕ → Sending → Bool
sends id r = r.request_id == id

abbrev installs : ℕ → ℕ × ℕ → Bool
installs id (i, timeout) = i == id

-- The calls of SendRequest and the tasks that go on to install the timer of an id.
abbrev underway : ℕ → List Sending → List (ℕ × ℕ) → ℕ
underway id sending posted = count (sends id) sending + count (installs id) posted

abbrev IsTimed : List Sending → List (ℕ × ℕ) → PendingRequest → Type 0
IsTimed sending posted p = (p.has_timer ≡ true) ⊎ (0 < underway p.request_id sending posted)

abbrev AllTimed : Endpoint → Type 0
AllTimed s = All (IsTimed s.sending s.installs) s.pending_requests

module _ (P : PendingRequest → Type 0) where
  All-erase_pending : (id : ℕ) (ps : List PendingRequest) → All P ps → All P (erase_pending id ps)
  unfolding erase_pending
  All-erase_pending id [] h = tt
  All-erase_pending id (p ∷ ps) h = elim (Bool-cases (p.request_id == id)) [
    | inl e ↦ rw e h.1
    | inr e ↦ rw e (h.0, All-erase_pending id ps h.1)
  ]

  All-set_pending :
      (q : PendingRequest) (ps : List PendingRequest) → P q → All P ps → All P (set_pending q ps)
  unfolding set_pending
  All-set_pending q [] k h = (k, tt)
  All-set_pending q (p ∷ ps) k h = elim (Bool-cases (p.request_id == q.request_id)) [
    | inl e ↦ rw e (k, h.1)
    | inr e ↦ rw e (h.0, All-set_pending q ps k h.1)
  ]

All-IsTimed :
    (sending sending' : List Sending) (posted posted' : List (ℕ × ℕ)) (ps : List PendingRequest)
    → ((id : ℕ) → underway id sending posted ≤ underway id sending' posted')
    → All (IsTimed sending posted) ps
    → All (IsTimed sending' posted') ps
All-IsTimed sending sending' posted posted' [] le h = tt
All-IsTimed sending sending' posted posted' (p ∷ ps) le (inl t, h) =
    (inl t, All-IsTimed sending sending' posted posted' ps le h)
All-IsTimed sending sending' posted posted' (p ∷ ps) le (inr t, h) =
    (inr (omega (arith, le p.request_id)), All-IsTimed sending sending' posted posted' ps le h)

-- The timer of an id takes the place of a task for it.
All-set_timer :
    (id : ℕ) (sending : List Sending) (posted posted' : List (ℕ × ℕ)) (ps : List PendingRequest)
    → ((i : ℕ) → (i == id) ≡ false → underway i sending posted ≤ underway i sending posted')
    → All (IsTimed sending posted) ps
    → All (IsTimed sending posted') (set_timer id ps)
unfolding set_timer
All-set_timer id sending posted posted' [] le h = tt
All-set_timer id sending posted posted' (p ∷ ps) le h = elim (Bool-cases (p.request_id == id)) [
  | inl e ↦ rw e (inl refl, All-set_timer id sending posted posted' ps le h.1)
  | inr e ↦ rw e (here e h.0, All-set_timer id sending posted posted' ps le h.1)
]
  where
    here : (p.request_id == id) ≡ false → IsTimed sending posted p → IsTimed sending posted' p
    here e (inl t) = inl t
    here e (inr t) = inr (omega (arith, le p.request_id e))

-- The rest of SendRequest posts the task for the id.
moved :
    (id : ℕ) (sending : List Sending) (posted : List (ℕ × ℕ)) (n : ℕ) (r : Sending)
    → get_elem? sending n ≡ some r
    → underway id sending posted
      ≤ underway id (remove_at n sending) (posted ++ ((r.request_id, r.timeout) ∷ []))
unfolding count
moved id sending posted n r e = omega (
  arith,
  count-remove_at (sends id) n sending r e,
  count-append (installs id) posted ((r.request_id, r.timeout) ∷ []),
)

left :
    (id : ℕ) (sending : List Sending) (posted : List (ℕ × ℕ)) (n : ℕ) (t : ℕ × ℕ)
    → get_elem? posted n ≡ some t
    → (id == t.0) ≡ false
    → underway id sending posted ≤ underway id sending (remove_at n posted)
unfolding count
left id sending posted n t e other = ground (arith, count-remove_at (installs id) n posted t e)

module _ (s : Endpoint) (h : AllTimed s) where
  respond-AllTimed : (id : ℕ) (payload : Option (List ℕ)) → AllTimed (respond id payload s)
  unfolding respond
  respond-AllTimed id payload = elim (Option-cases (find_pending id s.pending_requests)) [
    | inl e ↦ rw (e, respond) h
    | inr (p, e) ↦
        rw (e, respond) (All-erase_pending (IsTimed s.sending s.installs) id s.pending_requests h)
  ]

  on_request-AllTimed : (m : RpcMessage) → AllTimed (on_request m s)
  unfolding on_request
  on_request-AllTimed m = elim (Option-cases s.request_handler) [
    | inl e ↦ rw (e, on_request) h
    | inr (k, e) ↦ rw (e, on_request) h
  ]

  dispatch-AllTimed : (m : RpcMessage) → AllTimed (dispatch m s)
  unfolding dispatch signal_error
  dispatch-AllTimed m = elim (Bool-cases (m.type == one_way)) [
    | inl e ↦ rw (e, dispatch) h
    | inr e ↦ elim (Bool-cases (m.type == request)) [
      | inl f ↦ rw (e, f, dispatch) (on_request-AllTimed m)
      | inr f ↦ elim (Bool-cases (m.type == response)) [
        | inl g ↦ rw (e, f, g, dispatch) (respond-AllTimed m.request_id m.payload)
        | inr g ↦ rw (e, f, g, dispatch) h
      ]
    ]
  ]

  message-AllTimed : (msg : Option (List ℕ)) → AllTimed (on_message_received msg s)
  unfolding on_message_received signal_error
  message-AllTimed none = h
  message-AllTimed (some msg) = elim (Bool-cases (ltb (length msg) rpc_header_size)) [
    | inl e ↦ rw e h
    | inr e ↦ rw e (dispatch-AllTimed (parse_rpc_frame msg))
  ]

  begin-AllTimed :
      (payload : Option (List ℕ)) (timeout callback : ℕ)
      → AllTimed (begin_request payload timeout callback s)
  unfolding begin_request count
  begin-AllTimed payload timeout callback =
      let id = (take_id s.next_request_id).0 in
      let new : Sending = record { request_id = id; payload = payload; timeout = timeout } in
      All-set_pending (IsTimed (s.sending ++ (new ∷ [])) s.installs)
        (record { request_id = id; callback = callback; has_timer = false }) s.pending_requests
        (inr (ground (arith, count-append (sends id) s.sending (new ∷ []))))
        (All-IsTimed s.sending (s.sending ++ (new ∷ [])) s.installs s.installs s.pending_requests
          (λ i. omega (arith, count-append (sends i) s.sending (new ∷ []))) h)

  finish-AllTimed : (n : ℕ) → AllTimed (finish_request n s)
  unfolding finish_request
  finish-AllTimed n = elim (Option-cases (get_elem? s.sending n)) [
    | inl e ↦ rw (e, finish_request) h
    | inr (r, e) ↦
        rw (e, finish_request)
          (All-IsTimed s.sending (remove_at n s.sending) s.installs
            (s.installs ++ ((r.request_id, r.timeout) ∷ [])) s.pending_requests
            (λ id. moved id s.sending s.installs n r e) h)
  ]

  install-AllTimed : (n : ℕ) → AllTimed (install_timeout_timer n s)
  unfolding install_timeout_timer
  install-AllTimed n = elim (Option-cases (get_elem? s.installs n)) [
    | inl e ↦ rw (e, install_timeout_timer) h
    | inr ((id, timeout), e) ↦
        rw (e, install_timeout_timer)
          (All-set_timer id s.sending s.installs (remove_at n s.installs) s.pending_requests
            (λ i other. left i s.sending s.installs n (id, timeout) e other) h)
  ]

  start-AllTimed : (on_error : ℕ) → AllTimed (start on_error s)
  unfolding start
  start-AllTimed on_error = elim (Option-cases s.request_handler) [
    | inl e ↦ rw (e, start) h
    | inr (k, e) ↦ rw (e, start) h
  ]

act-AllTimed : (call : Call) (made : ℕ) (s : Endpoint) → AllTimed s → AllTimed (act call made s)
unfolding tear_down send_one_way send_frame set_request_handler reply on_request_timeout
    on_channel_error
act-AllTimed tear_down_call made s h = h
act-AllTimed error_call made s h = tt
act-AllTimed (start_call k) made s h = start-AllTimed s h k
act-AllTimed (handler_call k) made s h = h
act-AllTimed (one_way_call payload) made s h = h
act-AllTimed (begin_call payload timeout) made s h = begin-AllTimed s h payload timeout made
act-AllTimed (finish_call n) made s h = finish-AllTimed s h n
act-AllTimed (reply_call id payload) made s h = h
act-AllTimed (message_call msg) made s h = message-AllTimed s h msg
act-AllTimed (install_call n) made s h = install-AllTimed s h n
act-AllTimed (timeout_call id) made s h = respond-AllTimed s h id none

history-AllTimed : (calls : List Call) → AllTimed (history calls).endpoint
history-AllTimed [] = tt
history-AllTimed (call ∷ calls) =
    act-AllTimed call (history calls).made (history calls).endpoint (history-AllTimed calls)

only_timers :
    (ps : List PendingRequest)
    → All (IsTimed [] []) ps
    → All (λ (p : PendingRequest). p.has_timer ≡ true) ps
unfolding count
only_timers [] h = tt
only_timers (p ∷ ps) (inl t, h) = (t, only_timers ps h)
only_timers (p ∷ ps) (inr t, h) = absurd (omega arith)

-- After any calls, tasks and messages in any order, once each call of SendRequest has gone through and the
-- tasks that they posted have run, every request that waits has its timer.
pub waiting_timed :
    (calls : List Call)
    → (history calls).endpoint.sending ≡ []
    → (history calls).endpoint.installs ≡ []
    → All (λ (p : PendingRequest). p.has_timer ≡ true) (history calls).endpoint.pending_requests
waiting_timed calls sent posted = only_timers (history calls).endpoint.pending_requests (
    subst (λ l. All (IsTimed l []) (history calls).endpoint.pending_requests) sent
      (subst
        (λ l.
          All (IsTimed (history calls).endpoint.sending l)
            (history calls).endpoint.pending_requests)
        posted (history-AllTimed calls)))
