-- ===== src/Ipc/RpcEndpoint/Numbered.antt =====
-- Which callback an entry has: ids and callbacks are numbered together.
use libnei.Common.{
  ℕ, ◌+◌, ◌<◌, ◌≤◌, ◌^◌, ◌≡◌, refl, inl, inr, false, Option, none, some, List, [], ◌∷◌, ◌++◌, arith,
  All, get_elem?, Option-cases,
}
use libnei.Ipc.RpcFrame.{RpcMessage, parse_rpc_frame}
use libnei.Ipc.RpcEndpoint.{
  PendingRequest, Endpoint, find_pending, erase_pending, set_pending, set_timer, tear_down, start,
  send_one_way, take_id, begin_request, finish_request, set_request_handler, reply, respond,
  on_request, dispatch, on_message_received, on_channel_error, install_timeout_timer,
  on_request_timeout, signal_error,
}
use libnei.Ipc.RpcEndpoint.Histories.{
  Call, tear_down_call, error_call, start_call, handler_call, one_way_call, begin_call, finish_call,
  reply_call, message_call, install_call, timeout_call, act, made_after, history,
}

-- The entries of a callback have its id.
abbrev AllNumbered : List PendingRequest → Type 0
AllNumbered ps = All (λ (p : PendingRequest). p.request_id ≡ p.callback + 1) ps

erase-AllNumbered :
    (id : ℕ) (ps : List PendingRequest) → AllNumbered ps → AllNumbered (erase_pending id ps)
unfolding erase_pending
erase-AllNumbered id [] h = tt
erase-AllNumbered id (p ∷ ps) h = ground (arith, erase-AllNumbered id ps h.1)

set_timer-AllNumbered :
    (id : ℕ) (ps : List PendingRequest) → AllNumbered ps → AllNumbered (set_timer id ps)
unfolding set_timer
set_timer-AllNumbered id [] h = tt
set_timer-AllNumbered id (p ∷ ps) h = ground (arith, set_timer-AllNumbered id ps h.1)

set_pending-AllNumbered :
    (q : PendingRequest) (ps : List PendingRequest)
    → q.request_id ≡ q.callback + 1
    → AllNumbered ps
    → AllNumbered (set_pending q ps)
unfolding set_pending
set_pending-AllNumbered q [] k h = (k, tt)
set_pending-AllNumbered q (p ∷ ps) k h = ground (arith, set_pending-AllNumbered q ps k h.1)

record Numbered (made : ℕ) (s : Endpoint) : Type 0 where
  entries : AllNumbered s.pending_requests
  next : s.next_request_id ≡ made + 1

module _ (made : ℕ) (s : Endpoint) (h : Numbered made s) where
  respond-Numbered : (id : ℕ) (payload : Option (List ℕ)) → Numbered made (respond id payload s)
  unfolding respond
  respond-Numbered id payload =
      ground (arith, h.entries, h.next, erase-AllNumbered id s.pending_requests h.entries)

  dispatch-Numbered : (m : RpcMessage) → Numbered made (dispatch m s)
  unfolding dispatch signal_error on_request
  dispatch-Numbered m = ground (arith, h.entries, h.next, respond-Numbered m.request_id m.payload)

  message-Numbered : (msg : Option (List ℕ)) → Numbered made (on_message_received msg s)
  unfolding on_message_received signal_error
  message-Numbered none = record { entries = h.entries; next = h.next }
  message-Numbered (some msg) =
      ground (arith, h.entries, h.next, dispatch-Numbered (parse_rpc_frame msg))

  install-Numbered : (n : ℕ) → Numbered made (install_timeout_timer n s)
  unfolding install_timeout_timer
  install-Numbered n = elim (Option-cases (get_elem? s.installs n)) [
    | inl e ↦ ground (arith, h.entries, h.next)
    | inr ((id, timeout), e) ↦
        ground (arith, h.entries, h.next, set_timer-AllNumbered id s.pending_requests h.entries)
  ]

  begin-Numbered :
      (payload : Option (List ℕ)) (timeout : ℕ)
      → made + 2 < 2 ^ 64
      → Numbered (made + 1) (begin_request payload timeout made s)
  unfolding begin_request take_id
  begin-Numbered payload timeout small =
      let new : PendingRequest = record {
        request_id = s.next_request_id;
        callback = made;
        has_timer = false;
      } in
      ground (arith, h.next, set_pending-AllNumbered new s.pending_requests h.next h.entries)

  act-Numbered :
      (call : Call)
      → made_after call made + 1 < 2 ^ 64
      → Numbered (made_after call made) (act call made s)
  unfolding tear_down start send_one_way finish_request set_request_handler reply on_channel_error
      on_request_timeout
  act-Numbered tear_down_call small = record { entries = h.entries; next = h.next }
  act-Numbered error_call small = record { entries = tt; next = h.next }
  act-Numbered (start_call k) small = ground (arith, h.entries, h.next)
  act-Numbered (handler_call k) small = record { entries = h.entries; next = h.next }
  act-Numbered (one_way_call payload) small = record { entries = h.entries; next = h.next }
  act-Numbered (begin_call payload timeout) small = begin-Numbered payload timeout (omega arith)
  act-Numbered (finish_call n) small = ground (arith, h.entries, h.next)
  act-Numbered (reply_call id payload) small = record { entries = h.entries; next = h.next }
  act-Numbered (message_call msg) small = message-Numbered msg
  act-Numbered (install_call n) small = install-Numbered n
  act-Numbered (timeout_call id) small = respond-Numbered id none

made_grows : (call : Call) (made : ℕ) → made ≤ made_after call made
made_grows (begin_call payload timeout) made = omega arith
made_grows call made = omega arith

history-Numbered :
    (calls : List Call)
    → (history calls).made + 1 < 2 ^ 64
    → Numbered (history calls).made (history calls).endpoint
history-Numbered [] small = record { entries = tt; next = refl }
history-Numbered (call ∷ calls) small =
    act-Numbered (history calls).made (history calls).endpoint
      (history-Numbered calls (omega (arith, made_grows call (history calls).made))) call small

-- The next id is the number of the next callback and one.
pub next_id :
    (calls : List Call)
    → (history calls).made + 1 < 2 ^ 64
    → (history calls).endpoint.next_request_id ≡ (history calls).made + 1
next_id calls small = (history-Numbered calls small).next

found_callback :
    (id : ℕ) (ps : List PendingRequest) (p : PendingRequest)
    → AllNumbered ps
    → find_pending id ps ≡ some p
    → id ≡ p.callback + 1
unfolding find_pending
found_callback id [] p h e = absurd cc
found_callback id (q ∷ ps) p h e = ground (arith, found_callback id ps p h.1)

-- An entry that is found has the callback of its id.
pub found_callback_of :
    (calls : List Call) (id : ℕ) (p : PendingRequest)
    → (history calls).made + 1 < 2 ^ 64
    → find_pending id (history calls).endpoint.pending_requests ≡ some p
    → id ≡ p.callback + 1
found_callback_of calls id p small e =
    found_callback id (history calls).endpoint.pending_requests p
      (history-Numbered calls small).entries e

pub made-append : (later calls : List Call) → (history calls).made ≤ (history (later ++ calls)).made
made-append [] calls = omega arith
made-append (call ∷ later) calls =
    omega (arith, made-append later calls, made_grows call (history (later ++ calls)).made)
