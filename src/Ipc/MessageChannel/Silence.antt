-- ===== src/Ipc/MessageChannel/Silence.antt =====
-- What a channel does not do any more once `error_signaled_` is set.
use libnei.Common.{
  Bool-cases, inl, inr, ℕ, ◌+◌, ◌≤◌, ◌≡◌, refl, ap, ◌∙◌, Bool, true, false, List, [], ◌∷◌, arith,
  length, length-append, length-take, take,
}
use libnei.Ipc.Framing.{ingest}
use libnei.Ipc.MessageChannel.{
  Event, IoPoint, idle, delivering, start_reading, send, post_error, signal_error_locked, close,
  begin_read, on_data_received, deliver, check_read, finish_read, issue_next_write,
  on_write_complete,
}
use libnei.Ipc.MessageChannel.Histories.{
  Call, start_reading_call, close_call, begin_call, issue_call, continue_call, send_call, read_call,
  write_call, World, slice_of, io_step, may_run, run, step, after, after-invariant,
}

-- The I/O thread is idle, or about to find that the messages cannot be delivered.
abbrev quiet : IoPoint → Bool
quiet idle = true
quiet (delivering (m ∷ ms) true) = true
quiet p = false

abbrev Silent : List Event → Bool → World → Type 0
Silent events callback w =
    (w.channel.error_signaled ≡ true)
    × (quiet w.channel.point ≡ true)
    × (w.channel.events ≡ events)
    × (w.channel.on_error ≡ callback)

io_step-Silent :
    (events : List Event) (callback : Bool) (w : World)
    → Silent events callback w
    → Silent events callback (record w { channel = io_step w.channel })
unfolding io_step deliver
io_step-Silent events callback w h = ground (arith, h)

run-Silent :
    (events : List Event) (callback : Bool) (w : World) (call : Call)
    → Silent events callback w
    → Silent events callback (run w call)
unfolding run start_reading send close begin_read on_data_received issue_next_write
    on_write_complete
run-Silent events callback w start_reading_call h = ground (arith, h)
run-Silent events callback w (send_call payload) h = ground (arith, h)
run-Silent events callback w close_call h = ground (arith, h)
run-Silent events callback w begin_call h = ground (arith, h)
run-Silent events callback w (read_call success bytes) h = ground (arith, h)
run-Silent events callback w issue_call h = ground (arith, h)
run-Silent events callback w (write_call success n) h = ground (arith, h)
run-Silent events callback w continue_call h = io_step-Silent events callback w h

-- A read whose bytes complete a message and go on with a corrupt header.
corrupt_read-Silent :
    (w : World) (b : ℕ) (bytes m : List ℕ) (ms : List (List ℕ))
    → w.channel.point ≡ idle
    → w.channel.read_in_flight ≡ true
    → w.channel.error_signaled ≡ false
    → (ingest w.channel.reader (b ∷ bytes)).messages ≡ m ∷ ms
    → (ingest w.channel.reader (b ∷ bytes)).should_signal_error ≡ true
    → Silent w.channel.events w.channel.on_error (step w (read_call true (b ∷ bytes)))
unfolding step may_run run on_data_received
corrupt_read-Silent w b bytes m ms at_rest reading fine whole bad =
    rw (at_rest, reading, fine, bad, whole) (refl, refl, refl, refl)

-- When a chunk completes a message and goes on with a header that is refused, nothing is posted, then
-- or after any later calls: neither that message nor the error callback, which the channel keeps.
pub corrupt_read_unreported :
    (w : World) (b : ℕ) (bytes m : List ℕ) (ms : List (List ℕ)) (calls : List Call)
    → w.channel.point ≡ idle
    → w.channel.read_in_flight ≡ true
    → w.channel.error_signaled ≡ false
    → (ingest w.channel.reader (b ∷ bytes)).messages ≡ m ∷ ms
    → (ingest w.channel.reader (b ∷ bytes)).should_signal_error ≡ true
    → let q = after (step w (read_call true (b ∷ bytes))) calls in
      (q.channel.events ≡ w.channel.events) × (q.channel.on_error ≡ w.channel.on_error)
corrupt_read_unreported w b bytes m ms calls at_rest reading fine whole bad =
    let u = step w (read_call true (b ∷ bytes)) in
    let silent =
      after-invariant (Silent w.channel.events w.channel.on_error)
        (λ v call e h. run-Silent w.channel.events w.channel.on_error v call h) u
        (corrupt_read-Silent w b bytes m ms at_rest reading fine whole bad) calls in
    (silent.2, silent.3)

-- No write is begun any more.
abbrev Stopped : List (List ℕ) → ℕ → World → Type 0
Stopped pending limit w =
    (w.channel.error_signaled ≡ true)
    × (w.channel.pending_writes ≡ pending)
    × (length w.written + length (slice_of w.channel.writing) ≤ limit)

io_step-Stopped :
    (pending : List (List ℕ)) (limit : ℕ) (w : World)
    → Stopped pending limit w
    → Stopped pending limit (record w { channel = io_step w.channel })
unfolding io_step post_error deliver check_read begin_read finish_read issue_next_write
    signal_error_locked
io_step-Stopped pending limit w h = ground (arith, h)

write-Stopped :
    (pending : List (List ℕ)) (limit : ℕ) (w : World) (success : Bool) (n : ℕ)
    → Stopped pending limit w
    → Stopped pending limit (run w (write_call success n))
unfolding run on_write_complete signal_error_locked
write-Stopped pending limit w success n h = rw (h.0) (
  refl,
  h.1,
  omega (
    arith,
    h.2,
    length-append w.written (take n (slice_of w.channel.writing)),
    length-take n (slice_of w.channel.writing),
  ),
)

run-Stopped :
    (pending : List (List ℕ)) (limit : ℕ) (w : World) (call : Call)
    → Stopped pending limit w
    → Stopped pending limit (run w call)
unfolding run start_reading send close begin_read on_data_received issue_next_write
run-Stopped pending limit w start_reading_call h = ground (arith, h)
run-Stopped pending limit w (send_call payload) h = ground (arith, h)
run-Stopped pending limit w close_call h = ground (arith, h)
run-Stopped pending limit w begin_call h = ground (arith, h)
run-Stopped pending limit w (read_call success bytes) h = ground (arith, h)
run-Stopped pending limit w issue_call h = ground (arith, h)
run-Stopped pending limit w (write_call success n) h = write-Stopped pending limit w success n h
run-Stopped pending limit w continue_call h = io_step-Stopped pending limit w h

-- The three steps of OnDataReceived for a read that brings bytes.
abbrev pub read_through : World → List ℕ → World
read_through w bytes = step (step (step w (read_call true bytes)) continue_call) continue_call

-- The second and the third step, whether or not there are messages and a callback for them.
delivered-Stopped :
    (w : World) (ms : List (List ℕ))
    → w.channel.point ≡ delivering ms false
    → w.channel.error_signaled ≡ false
    → w.channel.closing ≡ true
    → Stopped w.channel.pending_writes
        (length w.written + length (slice_of w.channel.writing))
        (step (step w continue_call) continue_call)
unfolding step may_run run io_step deliver check_read signal_error_locked
delivered-Stopped w [] at fine closing = rw (at, fine, closing) (refl, refl, omega arith)
delivered-Stopped w (m ∷ ms) at fine closing = elim (Bool-cases w.channel.on_message) [
  | inl e ↦ rw (at, fine, closing, e) (refl, refl, omega arith)
  | inr e ↦ rw (at, fine, closing, e) (refl, refl, omega arith)
]

-- The first step.
received_good :
    (w : World) (b : ℕ) (bytes : List ℕ)
    → w.channel.point ≡ idle
    → w.channel.read_in_flight ≡ true
    → w.channel.error_signaled ≡ false
    → (ingest w.channel.reader (b ∷ bytes)).should_signal_error ≡ false
    → let u = step w (read_call true (b ∷ bytes)) in
      (u.channel.point ≡ delivering (ingest w.channel.reader (b ∷ bytes)).messages false)
      × (u.channel.error_signaled ≡ false)
      × (u.channel.closing ≡ w.channel.closing)
      × (u.channel.pending_writes ≡ w.channel.pending_writes)
      × (u.channel.writing ≡ w.channel.writing)
      × (u.written ≡ w.written)
unfolding step may_run run on_data_received
received_good w b bytes at_rest reading fine good =
    rw (at_rest, reading, fine, good) (refl, refl, refl, refl, refl, refl)

-- Once Close was called, a read that still completes ends the channel at its third step: of the
-- frames that are queued, no byte is written but for the write in progress, whatever is called later.
closing_read_drops_writes :
    (w : World) (b : ℕ) (bytes : List ℕ) (calls : List Call)
    → w.channel.point ≡ idle
    → w.channel.read_in_flight ≡ true
    → w.channel.error_signaled ≡ false
    → w.channel.closing ≡ true
    → (ingest w.channel.reader (b ∷ bytes)).should_signal_error ≡ false
    → let q = after (read_through w (b ∷ bytes)) calls in
      (q.channel.pending_writes ≡ w.channel.pending_writes)
      × (length q.written + length (slice_of q.channel.writing)
          ≤ length w.written + length (slice_of w.channel.writing))
closing_read_drops_writes w b bytes calls at_rest reading fine closing good =
    let u = step w (read_call true (b ∷ bytes)) in
    let limit = length u.written + length (slice_of u.channel.writing) in
    let (at, still_fine, same_closing, same_pending, same_writing, same_written) =
      received_good w b bytes at_rest reading fine good in
    let now =
      delivered-Stopped u (ingest w.channel.reader (b ∷ bytes)).messages at still_fine
        (same_closing ∙ closing) in
    let stopped =
      after-invariant (Stopped u.channel.pending_writes limit)
        (λ v call e h. run-Stopped u.channel.pending_writes limit v call h)
        (read_through w (b ∷ bytes)) now calls in
    (
      stopped.1 ∙ same_pending,
      omega (arith, stopped.2, ap (λ o. length (slice_of o)) same_writing, ap length same_written),
    )
