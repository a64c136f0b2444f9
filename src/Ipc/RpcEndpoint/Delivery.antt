-- ===== src/Ipc/RpcEndpoint/Delivery.antt =====
-- A request, its reply and the endpoints between which they go.
use mathlib.Core.Path.{subst}
use libnei.Common.{
  ℕ, ◌+◌, ◌<◌, ◌^◌, ◌≡◌, refl, ap, ◌∙◌, Option, some, List, [], ◌∷◌, ◌++◌, arith, length, get_elem?,
}
use libnei.Ipc.RpcFrame.{
  request, response, build_rpc_frame, parse_rpc_frame, parse-build_rpc_frame, build_rpc_frame-long,
  bytes_of, payload_of,
}
use libnei.Ipc.RpcEndpoint.Histories.{Call, begin_call, history}
use libnei.Ipc.RpcEndpoint.Numbered.{next_id, found_callback_of, made-append}
use libnei.Ipc.RpcEndpoint.{
  PendingRequest, responded, requested, Sending, Endpoint, find_pending, erase_pending, take_id,
  begin_request, finish_request, send_request, reply, respond, on_request, dispatch,
  on_message_received,
}

-- What a frame that was built does where it arrives.
received :
    (type id : ℕ) (payload : Option (List ℕ)) (s : Endpoint)
    → id < 2 ^ 64
    → on_message_received (some (build_rpc_frame type id payload)) s
      ≡ dispatch
          (record { type = type; request_id = id; payload = payload_of (bytes_of payload) })
          s
unfolding on_message_received
received type id payload s h =
    long_enough ∙ ap (λ m. dispatch m s) (parse-build_rpc_frame type id payload h)
  where
    long_enough :
        on_message_received (some (build_rpc_frame type id payload)) s
        ≡ dispatch (parse_rpc_frame (build_rpc_frame type id payload)) s
    long_enough = rw (build_rpc_frame-long type id payload)

get_elem?-append :
    {A : Type 0} (xs : List A) (x : A) → get_elem? (xs ++ (x ∷ [])) (length xs) ≡ some x
get_elem?-append [] x = refl
get_elem?-append (y ∷ xs) x = get_elem?-append xs x

send_request-frames :
    (payload : Option (List ℕ)) (timeout callback : ℕ) (a : Endpoint)
    → 0 < a.next_request_id
    → (send_request payload timeout callback a).frames
      ≡ a.frames ++ (build_rpc_frame request a.next_request_id payload ∷ [])
unfolding send_request begin_request finish_request take_id
send_request-frames payload timeout callback a pos =
    let r : Sending = record {
      request_id = a.next_request_id;
      payload = payload;
      timeout = timeout;
    } in
    ground (arith, get_elem?-append a.sending r)

-- A reply to an entry runs its callback.
run_found :
    (id : ℕ) (answer : Option (List ℕ)) (a : Endpoint) (p : PendingRequest)
    → id < 2 ^ 64
    → find_pending id a.pending_requests ≡ some p
    → on_message_received (some (build_rpc_frame response id answer)) a ≡ record a {
      pending_requests = erase_pending id a.pending_requests;
      events = a.events ++ (responded p.callback (payload_of (bytes_of answer)) ∷ []);
    }
unfolding dispatch respond
run_found id answer a p fits ha = received response id answer a fits ∙ ground arith

-- A request is sent after any history, and any calls, tasks and messages follow, with fewer than 2^64 - 1
-- calls of SendRequest in all. The call puts one frame on the channel; where this arrives at an endpoint
-- with a handler, that gets the request's payload and id; the reply to this id puts one frame on its
-- channel; and where this arrives while the request waits, it is the request's own callback that is run,
-- with the reply's payload, and the entry is gone. A payload of no bytes arrives as none.
pub request_answered :
    (before later : List Call) (b b' : Endpoint) (payload answer : Option (List ℕ))
    (timeout handler : ℕ) (p : PendingRequest)
    → let w = history before in
      let id = w.endpoint.next_request_id in
      let a = history (later ++ (begin_call payload timeout ∷ before)) in
      a.made + 1 < 2 ^ 64
      → b.request_handler ≡ some handler
      → find_pending id a.endpoint.pending_requests ≡ some p
      → (question : List ℕ) × (reaction : List ℕ) × ((send_request payload timeout w.made
            w.endpoint).frames
          ≡ w.endpoint.frames ++ (question ∷ []))
        × (on_message_received (some question) b ≡ record b {
          events = b.events ++ (requested handler (payload_of (bytes_of payload)) id ∷ []);
        })
        × ((reply id answer b').frames ≡ b'.frames ++ (reaction ∷ []))
        × (on_message_received (some reaction) a.endpoint ≡ record a.endpoint {
          pending_requests = erase_pending id a.endpoint.pending_requests;
          events = a.endpoint.events ++ (responded w.made (payload_of (bytes_of answer)) ∷ []);
        })
unfolding reply dispatch on_request respond
request_answered before later b b' payload answer timeout handler p small hb ha =
    let w = history before in
    let id = w.endpoint.next_request_id in
    let asking = begin_call payload timeout ∷ before in
    let a = (history (later ++ asking)).endpoint in
    let few = made-append later asking in
    let numbered : id ≡ w.made + 1 = next_id before (omega (arith, few)) in
    let own : p.callback ≡ w.made =
      omega (arith, numbered, found_callback_of (later ++ asking) id p small ha) in
    let fits : id < 2 ^ 64 = omega (arith, few, numbered) in
    (
      build_rpc_frame request id payload,
      build_rpc_frame response id answer,
      send_request-frames payload timeout w.made w.endpoint (omega (arith, numbered)),
      received request id payload b fits ∙ ground arith,
      refl,
      subst
          (λ c. on_message_received (some (build_rpc_frame response id answer)) a ≡ record a {
            pending_requests = erase_pending id a.pending_requests;
            events = a.events ++ (responded c (payload_of (bytes_of answer)) ∷ []);
          })
          own (run_found id answer a p fits ha),
    )
