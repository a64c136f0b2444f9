-- ===== src/Ipc/RpcEndpoint.antt =====
-- RpcEndpoint::Impl (src/neixx/ipc/rpc_endpoint.cpp). What is done under the lock, or is one atomic
-- operation, is one step. A callback and a handler are known by numbers and are not null; what the code
-- calls on its channel, on its callbacks and on the task runner is written down in order.
pub mod Histories
pub mod Answered
pub mod Timers
pub mod Numbered
pub mod Delivery
mod Tests
use libnei.Common.{
  ℕ, zero, suc, ◌+◌, ◌%◌, ◌^◌, Bool, true, false, ◌||◌, Option, none, some, List, [], ◌∷◌, ◌++◌,
  map, ltb, ◌==◌, if◌then◌else◌, length, get_elem?, remove_at,
}
use libnei.Ipc.RpcFrame.{
  one_way, request, response, rpc_header_size, build_rpc_frame, RpcMessage, parse_rpc_frame,
}

pub record PendingRequest : Type 0 where
  pub request_id : ℕ
  pub callback : ℕ
  pub has_timer : Bool

-- `responded` runs a response callback, `requested` the request handler with a payload and what the reply
-- callback has of the request, `errored` the error handler.
pub data Event : Type 0 where
  responded : ℕ → Option (List ℕ) → Event
  requested : ℕ → Option (List ℕ) → ℕ → Event
  errored : ℕ → Event

-- A call of SendRequest that has its entry and has not sent its frame.
pub record Sending : Type 0 where
  pub request_id : ℕ
  pub payload : Option (List ℕ)
  pub timeout : ℕ

-- `pending_requests` has an id once. `frames`, `reads` and `closes` are the calls of Send, StartReading and
-- Close of the channel, `installs` the tasks of InstallTimeoutTimer that are posted.
pub record Endpoint : Type 0 where
  pub pending_requests : List PendingRequest
  pub request_handler : Option ℕ
  pub error_handler : Option ℕ
  pub next_request_id : ℕ
  pub frames : List (List ℕ)
  pub reads : ℕ
  pub closes : ℕ
  pub events : List Event
  pub sending : List Sending
  pub installs : List (ℕ × ℕ)

abbrev pub new_endpoint : Endpoint
new_endpoint = record {
  pending_requests = [];
  request_handler = none;
  error_handler = none;
  next_request_id = 1;
  frames = [];
  reads = 0;
  closes = 0;
  events = [];
  sending = [];
  installs = [];
}

-- `find`, `erase` and the assignment of the map.
pub find_pending : ℕ → List PendingRequest → Option PendingRequest
find_pending id [] = none
find_pending id (p ∷ ps) = if p.request_id == id then some p else find_pending id ps

pub erase_pending : ℕ → List PendingRequest → List PendingRequest
erase_pending id [] = []
erase_pending id (p ∷ ps) = if p.request_id == id then ps else p ∷ erase_pending id ps

pub set_pending : PendingRequest → List PendingRequest → List PendingRequest
set_pending q [] = q ∷ []
set_pending q (p ∷ ps) = if p.request_id == q.request_id then q ∷ ps else p ∷ set_pending q ps

-- `it->second.timer = …`
pub set_timer : ℕ → List PendingRequest → List PendingRequest
set_timer id [] = []
set_timer id (p ∷ ps) =
    (if p.request_id == id then record p { has_timer = true } else p) ∷ set_timer id ps

unfoldable pub tear_down : Endpoint → Endpoint
tear_down s = record s { closes = s.closes + 1 }

unfoldable pub start : ℕ → Endpoint → Endpoint
start on_error s =
    let t = record s { error_handler = some on_error } in
    elim s.request_handler [ none ↦ t | some h ↦ record t { reads = s.reads + 1 } ]

unfoldable pub send_frame : ℕ → ℕ → Option (List ℕ) → Endpoint → Endpoint
send_frame type id payload s = record s {
  frames = s.frames ++ (build_rpc_frame type id payload ∷ []);
}

unfoldable pub send_one_way : Option (List ℕ) → Endpoint → Endpoint
unfolding send_frame
send_one_way payload s = send_frame one_way 0 payload s

-- The id of a request, and the next one: 0 is passed over.
unfoldable pub take_id : ℕ → ℕ × ℕ
take_id id =
    let next = (id + 1) % 2 ^ 64 in if id == 0 then (1, (next + 1) % 2 ^ 64) else (id, next)

-- SendRequest up to the entry, and the rest of it, of the n-th call that is under way.
unfoldable pub begin_request : Option (List ℕ) → ℕ → ℕ → Endpoint → Endpoint
unfolding take_id set_pending
begin_request payload timeout on_response s =
    let (id, next) = take_id s.next_request_id in
    record s {
      next_request_id = next;
      pending_requests =
          set_pending (record { request_id = id; callback = on_response; has_timer = false })
            s.pending_requests;
      sending =
          s.sending ++ (record { request_id = id; payload = payload; timeout = timeout } ∷ []);
    }

unfoldable pub finish_request : ℕ → Endpoint → Endpoint
unfolding send_frame
finish_request n s = elim (get_elem? s.sending n) [
  | none ↦ s
  | some r ↦
      let t = send_frame request r.request_id r.payload s in
      record t {
        sending = remove_at n s.sending;
        installs = s.installs ++ ((r.request_id, r.timeout) ∷ []);
      }
]

unfoldable pub send_request : Option (List ℕ) → ℕ → ℕ → Endpoint → Endpoint
unfolding begin_request finish_request
send_request payload timeout on_response s =
    finish_request (length s.sending) (begin_request payload timeout on_response s)

unfoldable pub set_request_handler : ℕ → Endpoint → Endpoint
set_request_handler handler s = record s { request_handler = some handler }

-- `reply_cb` of a request.
unfoldable pub reply : ℕ → Option (List ℕ) → Endpoint → Endpoint
unfolding send_frame
reply id payload s = send_frame response id payload s

unfoldable pub signal_error : Endpoint → Endpoint
signal_error s = record s { closes = s.closes + 1 }

abbrev run : Event → Endpoint → Endpoint
run e s = record s { events = s.events ++ (e ∷ []) }

-- Takes the entry of an id, if there is one, and runs its callback.
unfoldable pub respond : ℕ → Option (List ℕ) → Endpoint → Endpoint
unfolding find_pending erase_pending
respond id payload s = elim (find_pending id s.pending_requests) [
  | none ↦ s
  | some p ↦
      run (responded p.callback payload)
        (record s { pending_requests = erase_pending id s.pending_requests })
]

unfoldable pub on_request : RpcMessage → Endpoint → Endpoint
on_request m s = elim s.request_handler [
  | none ↦ s
  | some h ↦ run (requested h m.payload m.request_id) s
]

unfoldable pub dispatch : RpcMessage → Endpoint → Endpoint
unfolding on_request respond signal_error
dispatch m s =
    if m.type == one_way
    then s
    else if m.type == request
    then on_request m s
    else if m.type == response
    then respond m.request_id m.payload s
    else signal_error s

unfoldable pub on_message_received : Option (List ℕ) → Endpoint → Endpoint
unfolding signal_error dispatch
on_message_received none s = signal_error s
on_message_received (some msg) s =
    if ltb (length msg) rpc_header_size then signal_error s else dispatch (parse_rpc_frame msg) s

abbrev pub aborted : List PendingRequest → List Event
aborted [] = []
aborted (p ∷ ps) = responded p.callback none ∷ aborted ps

abbrev pub errored_by : Option ℕ → List Event
errored_by none = []
errored_by (some h) = errored h ∷ []

unfoldable pub on_channel_error : Endpoint → Endpoint
on_channel_error s = record s {
  pending_requests = [];
  error_handler = none;
  events = s.events ++ (aborted s.pending_requests ++ errored_by s.error_handler);
}

-- The n-th of the posted tasks of InstallTimeoutTimer.
unfoldable pub install_timeout_timer : ℕ → Endpoint → Endpoint
unfolding set_timer
install_timeout_timer n s = elim (get_elem? s.installs n) [
  | none ↦ s
  | some (id, timeout) ↦ record s {
    installs = remove_at n s.installs;
    pending_requests = set_timer id s.pending_requests;
  }
]

unfoldable pub on_request_timeout : ℕ → Endpoint → Endpoint
unfolding respond
on_request_timeout id s = respond id none s
