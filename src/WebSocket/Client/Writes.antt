-- ===== src/WebSocket/Client/Writes.antt =====
-- The write queue: `DoSendFrame`, `PumpWrites` and the completions of `WriteAsync`.
use mathlib.Core.Bool.{false≢true}
use mathlib.Core.List.{append_assoc, append-nil}
use libnei.Common.{
  ℕ, ◌≡◌, refl, sym, ap, ◌∙◌, ◌⊎◌, inl, inr, Bool, true, false, List, [], ◌∷◌, ◌++◌, arith,
  if◌then◌else◌,
}
use libnei.WebSocket.Frame.{WebSocketFrame}
use libnei.WebSocket.Client.{
  Client, connected, closed, is_closing, is_open, write_front, pump_writes, do_send_frame, finish,
  on_write_complete, handle_close,
}

-- A frame is sent, or the write that is in flight succeeds.
pub data WriteStep : Type 0 where
  sends : List ℕ → WriteStep
  completes : WriteStep

unfoldable pub write_step : WriteStep → Client → Client
unfolding do_send_frame on_write_complete
write_step (sends bytes) c = do_send_frame c bytes
write_step completes c = if c.write_in_flight then on_write_complete c true else c

unfoldable pub written_after : List WriteStep → Client → Client
unfolding write_step
written_after [] c = c
written_after (s ∷ ss) c = written_after ss (write_step s c)

abbrev pub sent_frames : List WriteStep → List (List ℕ)
sent_frames [] = []
sent_frames (sends bytes ∷ ss) = bytes ∷ sent_frames ss
sent_frames (completes ∷ ss) = sent_frames ss

-- What was written and what waits, oldest first.
abbrev pub accepted_frames : Client → List (List ℕ)
accepted_frames c = c.written ++ c.write_queue

-- Frames wait only while a write is in flight.
abbrev pub IsPumped : Client → Type 0
IsPumped c = (c.write_in_flight ≡ true) ⊎ (c.write_queue ≡ [])

-- The three facts that a step keeps, against the frames that were accepted before.
abbrev Pumps : List (List ℕ) → Client → Type 0
Pumps fs c = (accepted_frames c ≡ fs) × IsPumped c × (is_open c.state ≡ true)

front-Pumps :
    (c : Client) (q : List (List ℕ))
    → is_open c.state ≡ true
    → c.write_queue ≡ q
    → Pumps (accepted_frames c) (write_front c q)
front-Pumps c [] o e = (refl, inr e, o)
front-Pumps c (bytes ∷ q) o e = by_open (is_open c.state) o
  where
    by_open :
        (b : Bool)
        → b ≡ true
        → Pumps (accepted_frames c) (
            if b
            then record c {
              write_queue = q;
              write_in_flight = true;
              written = c.written ++ (bytes ∷ []);
            }
            else c)
    by_open true h =
        (append_assoc c.written (bytes ∷ []) q ∙ ap (λ l. c.written ++ l) (sym e), inl refl, o)
    by_open false h = absurd (false≢true h)

pump-Pumps : (c : Client) → is_open c.state ≡ true → Pumps (accepted_frames c) (pump_writes c)
unfolding pump_writes
pump-Pumps c o = by_flag c.write_in_flight refl
  where
    by_flag :
        (b : Bool)
        → c.write_in_flight ≡ b
        → Pumps (accepted_frames c) (if b then c else write_front c c.write_queue)
    by_flag true h = (refl, inl h, o)
    by_flag false h = front-Pumps c c.write_queue o refl

sends-Pumps :
    (c : Client) (bytes : List ℕ)
    → is_open c.state ≡ true
    → Pumps (accepted_frames c ++ (bytes ∷ [])) (do_send_frame c bytes)
unfolding do_send_frame
sends-Pumps c bytes o = by_open (is_open c.state) o
  where
    queued : Client
    queued = record c { write_queue = c.write_queue ++ (bytes ∷ []) }

    by_open :
        (b : Bool)
        → b ≡ true
        → Pumps (accepted_frames c ++ (bytes ∷ [])) (if b then pump_writes queued else c)
    by_open true h =
        let (kept, pumped, is_still) = pump-Pumps queued o in
        (kept ∙ sym (append_assoc c.written c.write_queue (bytes ∷ [])), pumped, is_still)
    by_open false h = absurd (false≢true h)

completes-Pumps :
    (c : Client)
    → is_open c.state ≡ true
    → IsPumped c
    → Pumps (accepted_frames c) (write_step completes c)
unfolding write_step on_write_complete
completes-Pumps c o p = by_flag c.write_in_flight
  where
    by_flag : (b : Bool) → Pumps (accepted_frames c) (if b then on_write_complete c true else c)
    by_flag true = pump-Pumps (record c { write_in_flight = false }) o
    by_flag false = (refl, p, o)

-- On an open client whose frames wait only while a write is in flight, and as long as the writes
-- succeed: the frames given to the transport, followed by those that wait, are those of before and
-- then the ones sent, in the order in which they were sent; and frames still wait only while a write
-- is in flight.
pub written_after_lem :
    (ss : List WriteStep) (c : Client)
    → is_open c.state ≡ true
    → IsPumped c
    → (accepted_frames (written_after ss c) ≡ accepted_frames c ++ sent_frames ss)
      × IsPumped (written_after ss c)
unfolding written_after
written_after_lem [] c o p = (sym (append-nil (accepted_frames c)), p)
written_after_lem (sends bytes ∷ ss) c o p =
    let (kept, pumped, is_still) = sends-Pumps c bytes o in
    let (rest, last) = written_after_lem ss (do_send_frame c bytes) is_still pumped in
    (
      rest
          ∙ ap (λ l. l ++ sent_frames ss) kept
          ∙ append_assoc (accepted_frames c) (bytes ∷ []) (sent_frames ss),
      last,
    )
written_after_lem (completes ∷ ss) c o p =
    let (kept, pumped, is_still) = completes-Pumps c o p in
    let (rest, last) = written_after_lem ss (write_step completes c) is_still pumped in
    (rest ∙ ap (λ l. l ++ sent_frames ss) kept, last)

-- A close frame of the peer that arrives while a write is in flight is not answered: no bytes are
-- written, what waited is dropped, and the client is closed.
handle_close_unanswered :
    (c : Client) (frame : WebSocketFrame)
    → c.state ≡ connected
    → c.write_in_flight ≡ true
    → ((handle_close c frame).written ≡ c.written)
      × ((handle_close c frame).write_queue ≡ [])
      × ((handle_close c frame).state ≡ closed)
unfolding handle_close is_closing do_send_frame pump_writes finish
handle_close_unanswered c frame o busy = (ground arith, ground arith, ground arith)
