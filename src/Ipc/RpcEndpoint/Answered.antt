-- ===== src/Ipc/RpcEndpoint/Answered.antt =====
-- How often the callback of a request is run.
use mathlib.Core.Path.{subst, sym, ◌∙◌}
use libnei.Common.{
  ℕ, suc, ◌+◌, ◌<◌, ◌≤◌, ◌^◌, ◌≡◌, refl, inl, inr, Bool, false, Option, none, some, List, [], ◌∷◌,
  ◌++◌, arith, ltb, ◌==◌, if◌then◌else◌, count, count-append, All, get_elem?, Option-cases,
}
use libnei.Ipc.RpcFrame.{RpcMessage, parse_rpc_frame}
use libnei.Ipc.RpcEndpoint.{
  PendingRequest, Event, responded, requested, errored, Endpoint, find_pending, erase_pending,
  set_pending, set_timer, tear_down, start, send_one_way, take_id, begin_request, finish_request,
  set_request_handler, reply, respond, on_request, dispatch, on_message_received, aborted,
  errored_by, on_channel_error, install_timeout_timer, on_request_timeout, signal_error,
}
use libnei.Ipc.RpcEndpoint.Histories.{
  Call, tear_down_call, error_call, start_call, handler_call, one_way_call, begin_call, finish_call,
  reply_call, message_call, install_call, timeout_call, act, made_after, history,
}

abbrev is_of : ℕ → PendingRequest → Bool
is_of c p = p.callback == c

abbrev answers : ℕ → Event → Bool
answers c (responded d payload) = d == c
answers c (requested h payload id) = false
answers c (errored h) = false

-- How many entries have a callback, and how often it was run.
abbrev pub waiting : ℕ → Endpoint → ℕ
waiting c s = count (is_of c) s.pending_requests

abbrev pub answered : ℕ → Endpoint → ℕ
answered c s = count (answers c) s.events

count-erase_pending :
    (c id : ℕ) (ps : List PendingRequest) (p : PendingRequest)
    → find_pending id ps ≡ some p
    → count (is_of c) ps
      ≡ (if p.callback == c then 1 else 0) + count (is_of c) (erase_pending id ps)
unfolding find_pending erase_pending count
count-erase_pending c id [] p e = cc
count-erase_pending c id (q ∷ ps) p e = ground (arith, count-erase_pending c id ps p)

count-set_pending :
    (c : ℕ) (q : PendingRequest) (ps : List PendingRequest)
    → All (λ (p : PendingRequest). p.request_id < q.request_id) ps
    → count (is_of c) (set_pending q ps) ≡ (if q.callback == c then 1 else 0) + count (is_of c) ps
unfolding set_pending count
count-set_pending c q [] h = refl
count-set_pending c q (p ∷ ps) h = ground (arith, count-set_pending c q ps h.1)

count-set_timer :
    (c id : ℕ) (ps : List PendingRequest) → count (is_of c) (set_timer id ps) ≡ count (is_of c) ps
unfolding set_timer count
count-set_timer c id [] = refl
count-set_timer c id (p ∷ ps) = ground (arith, count-set_timer c id ps)

count-aborted :
    (c : ℕ) (ps : List PendingRequest) → count (answers c) (aborted ps) ≡ count (is_of c) ps
unfolding count
count-aborted c [] = refl
count-aborted c (p ∷ ps) = omega (arith, count-aborted c ps)

count-errored_by : (c : ℕ) (handler : Option ℕ) → count (answers c) (errored_by handler) ≡ 0
unfolding count
count-errored_by c none = refl
count-errored_by c (some h) = refl

-- The ids of the entries are below the next one.
abbrev IsBelow : ℕ → List PendingRequest → Type 0
IsBelow n ps = All (λ (p : PendingRequest). p.request_id < n) ps

IsBelow-erase_pending :
    (n id : ℕ) (ps : List PendingRequest) → IsBelow n ps → IsBelow n (erase_pending id ps)
unfolding erase_pending
IsBelow-erase_pending n id [] h = tt
IsBelow-erase_pending n id (p ∷ ps) h = ground (arith, IsBelow-erase_pending n id ps h.1)

IsBelow-set_timer :
    (n id : ℕ) (ps : List PendingRequest) → IsBelow n ps → IsBelow n (set_timer id ps)
unfolding set_timer
IsBelow-set_timer n id [] h = tt
IsBelow-set_timer n id (p ∷ ps) h = ground (arith, IsBelow-set_timer n id ps h.1)

IsBelow-suc : (n : ℕ) (ps : List PendingRequest) → IsBelow n ps → IsBelow (suc n) ps
IsBelow-suc n [] h = tt
IsBelow-suc n (p ∷ ps) h = (omega arith, IsBelow-suc n ps h.1)

IsBelow-set_pending :
    (n : ℕ) (q : PendingRequest) (ps : List PendingRequest)
    → q.request_id < suc n
    → IsBelow n ps
    → IsBelow (suc n) (set_pending q ps)
unfolding set_pending
IsBelow-set_pending n q [] k h = (k, tt)
IsBelow-set_pending n q (p ∷ ps) k h =
    ground (arith, IsBelow-set_pending n q ps k h.1, IsBelow-suc n ps h.1)

-- What an operation other than a new request leaves: the callbacks that wait or were run, and the ids.
record Kept (c : ℕ) (s t : Endpoint) : Type 0 where
  total : waiting c t + answered c t ≡ waiting c s + answered c s
  ids : IsBelow s.next_request_id t.pending_requests
  next : t.next_request_id ≡ s.next_request_id

module _ (c : ℕ) (s : Endpoint) (h : IsBelow s.next_request_id s.pending_requests) where
  respond-Kept : (id : ℕ) (payload : Option (List ℕ)) → Kept c s (respond id payload s)
  unfolding respond count
  respond-Kept id payload = elim (Option-cases (find_pending id s.pending_requests)) [
    | inl e ↦ ground arith
    | inr (p, e) ↦ ground (
      arith,
      count-erase_pending c id s.pending_requests p e,
      count-append (answers c) s.events (responded p.callback payload ∷ []),
      IsBelow-erase_pending s.next_request_id id s.pending_requests h,
    )
  ]

  on_request-Kept : (m : RpcMessage) → Kept c s (on_request m s)
  unfolding on_request count
  on_request-Kept m = elim (Option-cases s.request_handler) [
    | inl e ↦ ground arith
    | inr (k, e) ↦
        ground (arith, count-append (answers c) s.events (requested k m.payload m.request_id ∷ []))
  ]

  dispatch-Kept : (m : RpcMessage) → Kept c s (dispatch m s)
  unfolding dispatch signal_error
  dispatch-Kept m = ground (arith, respond-Kept m.request_id m.payload, on_request-Kept m)

  message-Kept : (msg : Option (List ℕ)) → Kept c s (on_message_received msg s)
  unfolding on_message_received signal_error
  message-Kept none = ground arith
  message-Kept (some msg) = ground (arith, dispatch-Kept (parse_rpc_frame msg))

  channel_error-Kept : Kept c s (on_channel_error s)
  unfolding on_channel_error count
  channel_error-Kept = ground (
    arith,
    count-aborted c s.pending_requests,
    count-append (answers c) s.events (aborted s.pending_requests ++ errored_by s.error_handler),
    count-append (answers c) (aborted s.pending_requests) (errored_by s.error_handler),
    count-errored_by c s.error_handler,
  )

  finish_request-Kept : (n : ℕ) → Kept c s (finish_request n s)
  unfolding finish_request
  finish_request-Kept n = ground arith

  install-Kept : (n : ℕ) → Kept c s (install_timeout_timer n s)
  unfolding install_timeout_timer
  install-Kept n = elim (Option-cases (get_elem? s.installs n)) [
    | inl e ↦ ground arith
    | inr ((id, timeout), e) ↦ ground (
      arith,
      count-set_timer c id s.pending_requests,
      IsBelow-set_timer s.next_request_id id s.pending_requests h,
    )
  ]

  start-Kept : (on_error : ℕ) → Kept c s (start on_error s)
  unfolding start
  start-Kept on_error = ground arith

-- The callbacks that were made are waiting or were run, once; the ids are numbered as the callbacks are.
record Counted (c made : ℕ) (s : Endpoint) : Type 0 where
  once : waiting c s + answered c s ≡ (if ltb c made then 1 else 0)
  ids : IsBelow s.next_request_id s.pending_requests
  next : s.next_request_id ≡ made + 1

Kept-Counted : {c made : ℕ} {s t : Endpoint} → Kept c s t → Counted c made s → Counted c made t
Kept-Counted {t = t} k h = record {
  once = k.total ∙ h.once;
  ids = subst (λ n. IsBelow n t.pending_requests) (sym k.next) k.ids;
  next = k.next ∙ h.next;
}

begin-Counted :
    (c made : ℕ) (s : Endpoint) (payload : Option (List ℕ)) (timeout : ℕ)
    → made + 2 < 2 ^ 64
    → Counted c made s
    → Counted c (made + 1) (begin_request payload timeout made s)
unfolding begin_request take_id
begin-Counted c made s payload timeout small h =
    let new : PendingRequest = record {
      request_id = s.next_request_id;
      callback = made;
      has_timer = false;
    } in
    ground (
      arith,
      h.once,
      h.next,
      count-set_pending c new s.pending_requests h.ids,
      IsBelow-set_pending s.next_request_id new s.pending_requests (omega arith) h.ids,
    )

act-Counted :
    (call : Call) (c made : ℕ) (s : Endpoint)
    → made_after call made + 1 < 2 ^ 64
    → Counted c made s
    → Counted c (made_after call made) (act call made s)
unfolding tear_down send_one_way set_request_handler reply on_request_timeout
act-Counted tear_down_call c made s small h = record { once = h.once; ids = h.ids; next = h.next }
act-Counted error_call c made s small h = Kept-Counted (channel_error-Kept c s h.ids) h
act-Counted (start_call k) c made s small h = Kept-Counted (start-Kept c s h.ids k) h
act-Counted (handler_call k) c made s small h = record { once = h.once; ids = h.ids; next = h.next }
act-Counted (one_way_call payload) c made s small h = record {
  once = h.once;
  ids = h.ids;
  next = h.next;
}
act-Counted (begin_call payload timeout) c made s small h =
    begin-Counted c made s payload timeout (omega arith) h
act-Counted (finish_call n) c made s small h = Kept-Counted (finish_request-Kept c s h.ids n) h
act-Counted (reply_call id payload) c made s small h = record {
  once = h.once;
  ids = h.ids;
  next = h.next;
}
act-Counted (message_call msg) c made s small h = Kept-Counted (message-Kept c s h.ids msg) h
act-Counted (install_call n) c made s small h = Kept-Counted (install-Kept c s h.ids n) h
act-Counted (timeout_call id) c made s small h = Kept-Counted (respond-Kept c s h.ids id none) h

start_zero : (c : ℕ) → ◌≡◌ {A = ℕ} 0 (if ltb c 0 then 1 else 0)
start_zero c = ground arith

made_grows : (call : Call) (made : ℕ) → made ≤ made_after call made
made_grows (begin_call payload timeout) made = omega arith
made_grows call made = omega arith

history-Counted :
    (c : ℕ) (calls : List Call)
    → (history calls).made + 1 < 2 ^ 64
    → Counted c (history calls).made (history calls).endpoint
unfolding count
history-Counted c [] small = record { once = start_zero c; ids = tt; next = refl }
history-Counted c (call ∷ calls) small =
    act-Counted call c (history calls).made (history calls).endpoint small
      (history-Counted c calls (omega (arith, made_grows call (history calls).made)))

-- After any calls, tasks and messages in any order, with fewer than 2^64 - 1 calls of SendRequest, each of
-- their callbacks either waits in one entry and was not run, or was run once and waits no more; and no
-- other callback is run.
pub answered_once :
    (c : ℕ) (calls : List Call)
    → (history calls).made + 1 < 2 ^ 64
    → waiting c (history calls).endpoint + answered c (history calls).endpoint
      ≡ (if ltb c (history calls).made then 1 else 0)
answered_once c calls small = (history-Counted c calls small).once
