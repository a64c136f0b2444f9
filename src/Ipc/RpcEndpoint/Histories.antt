-- ===== src/Ipc/RpcEndpoint/Histories.antt =====
-- The calls and tasks of an endpoint in any order.
use libnei.Common.{ℕ, ◌+◌, List, [], ◌∷◌, Option}
use libnei.Ipc.RpcEndpoint.{
  Endpoint, new_endpoint, tear_down, start, send_one_way, begin_request, finish_request,
  set_request_handler, reply, on_message_received, on_channel_error, install_timeout_timer,
  on_request_timeout,
}

-- A timer may run out for any id, also for one whose timer was stopped too late.
pub data Call : Type 0 where
  tear_down_call error_call : Call
  start_call handler_call : ℕ → Call
  one_way_call : Option (List ℕ) → Call
  begin_call : Option (List ℕ) → ℕ → Call
  finish_call : ℕ → Call
  reply_call : ℕ → Option (List ℕ) → Call
  message_call : Option (List ℕ) → Call
  install_call timeout_call : ℕ → Call

-- The endpoint, and how many calls of SendRequest there were: the callbacks are numbered from 0.
pub record World : Type 0 where
  pub endpoint : Endpoint
  pub made : ℕ

abbrev pub act : Call → ℕ → Endpoint → Endpoint
act tear_down_call made s = tear_down s
act error_call made s = on_channel_error s
act (start_call h) made s = start h s
act (handler_call h) made s = set_request_handler h s
act (one_way_call payload) made s = send_one_way payload s
act (begin_call payload timeout) made s = begin_request payload timeout made s
act (finish_call n) made s = finish_request n s
act (reply_call id payload) made s = reply id payload s
act (message_call msg) made s = on_message_received msg s
act (install_call n) made s = install_timeout_timer n s
act (timeout_call id) made s = on_request_timeout id s

abbrev pub made_after : Call → ℕ → ℕ
made_after (begin_call payload timeout) made = made + 1
made_after c made = made

-- The last call stands first.
abbrev pub history : List Call → World
history [] = record { endpoint = new_endpoint; made = 0 }
history (c ∷ calls) =
    let w = history calls in
    record { endpoint = act c w.made w.endpoint; made = made_after c w.made }
