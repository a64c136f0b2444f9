-- ===== src/Ipc/RpcEndpoint/Tests.antt =====
-- Runs of endpoints on concrete inputs, and the theorems at concrete inputs.
use libnei.Common.{
  ℕ, ◌+◌, ◌≡◌, refl, true, false, Option, none, some, List, [], ◌∷◌, ◌++◌, All, arith,
}
use libnei.Ipc.RpcFrame.{response, build_rpc_frame, parse_rpc_frame}
use libnei.Ipc.RpcEndpoint.{
  PendingRequest, responded, requested, errored, Endpoint, new_endpoint, find_pending,
  erase_pending, begin_request, finish_request, send_request, set_request_handler, reply,
  on_message_received, dispatch, on_request_timeout, on_channel_error, install_timeout_timer, start,
}
use libnei.Ipc.RpcEndpoint.Histories.{
  Call, error_call, start_call, handler_call, begin_call, finish_call, message_call, install_call,
  timeout_call, history,
}
use libnei.Ipc.RpcEndpoint.Answered.{waiting, answered, answered_once}
use libnei.Ipc.RpcEndpoint.Timers.{waiting_timed}
use libnei.Ipc.RpcEndpoint.Delivery.{request_answered}

abbrev question : Option (List ℕ)
question = some (5 ∷ 6 ∷ [])

-- Three requests: the second is answered, the first runs out of time; a late answer to the first and one
-- with an id that was never given change nothing.
abbrev exchange : List Call
exchange =
    message_call (some (build_rpc_frame response 9 question))
    ∷ message_call (some (build_rpc_frame response 1 question))
    ∷ timeout_call 1
    ∷ message_call (some (build_rpc_frame response 2 (some (8 ∷ []))))
    ∷ install_call 0
    ∷ install_call 0
    ∷ install_call 0
    ∷ finish_call 0
    ∷ finish_call 1
    ∷ finish_call 0
    ∷ begin_call none 30
    ∷ begin_call question 20
    ∷ begin_call question 10
    ∷ start_call 4
    ∷ handler_call 3
    ∷ []

exchange_run :
    ((history exchange).endpoint.events ≡ responded 1 (some (8 ∷ [])) ∷ responded 0 none ∷ [])
    × ((history exchange).endpoint.pending_requests
        ≡ record { request_id = 3; callback = 2; has_timer = true } ∷ [])
unfolding begin_request finish_request on_message_received dispatch on_request_timeout
    install_timeout_timer start set_request_handler parse_rpc_frame build_rpc_frame
exchange_run = (refl, refl)

-- An error runs what waits, and the error handler.
exchange_error_run :
    (history (error_call ∷ exchange)).endpoint.events
    ≡ responded 1 (some (8 ∷ [])) ∷ responded 0 none ∷ responded 2 none ∷ errored 4 ∷ []
unfolding begin_request finish_request on_message_received dispatch on_request_timeout
    install_timeout_timer start set_request_handler on_channel_error parse_rpc_frame build_rpc_frame
exchange_error_run = refl

answered_once_example :
    waiting 0 (history exchange).endpoint + answered 0 (history exchange).endpoint ≡ 1
unfolding begin_request finish_request on_message_received dispatch on_request_timeout
    install_timeout_timer start set_request_handler parse_rpc_frame build_rpc_frame
answered_once_example = answered_once 0 exchange (omega arith)

waiting_timed_example :
    All (λ (p : PendingRequest). p.has_timer ≡ true) (history exchange).endpoint.pending_requests
unfolding begin_request finish_request on_message_received dispatch on_request_timeout
    install_timeout_timer start set_request_handler parse_rpc_frame build_rpc_frame
waiting_timed_example = waiting_timed exchange refl refl

abbrev server : Endpoint
server = record new_endpoint { request_handler = some 7 }

abbrev first_asked : PendingRequest
first_asked = record { request_id = 1; callback = 0; has_timer = false }

-- The first request, and a second one that waits behind it.
abbrev two_requests : Endpoint
two_requests = (history (begin_call none 20 ∷ finish_call 0 ∷ begin_call question 10 ∷ [])).endpoint

request_answered_example :
    (there : List ℕ) × (back : List ℕ) × ((send_request question 10 0 new_endpoint).frames
      ≡ there ∷ [])
    × (on_message_received (some there) server
        ≡ record server { events = requested 7 question 1 ∷ [] })
    × ((reply 1 (some (9 ∷ [])) server).frames ≡ back ∷ [])
    × (on_message_received (some back) two_requests ≡ record two_requests {
      pending_requests = erase_pending 1 two_requests.pending_requests;
      events = two_requests.events ++ (responded 0 (some (9 ∷ [])) ∷ []);
    })
unfolding begin_request finish_request find_pending
request_answered_example =
    request_answered [] (begin_call none 20 ∷ finish_call 0 ∷ []) server server question
      (some (9 ∷ [])) 10 7 first_asked (omega arith) refl refl
