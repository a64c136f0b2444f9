-- ===== src/Ipc/Framing/Loop.antt =====
-- The loop of TryParseFrames.
use mathlib.Core.Path.{subst}
use mathlib.Core.Bool.{true≢false}
use libnei.Common.{
  ℕ, zero, suc, ◌+◌, ◌<◌, ◌≡◌, refl, ap, sym, ◌∙◌, true, false, List, [], ◌∷◌, ◌++◌, arith, length,
  length-append, drop, All,
}
use libnei.Ipc.Framing.{
  ReadState, reading_header, reading_payload, Reader, unread, available, Round, stopped, corrupt,
  got, payload_part, header_part, read_round, Parsed, with_message, read_loop,
}
use libnei.Ipc.Framing.Delivery.{
  wire, Sendable, Expects, Waits, IsReader, Ends, length-unread, payload_part-Ends,
  header_part-Ends,
}

read_round-Ends :
    (r : Reader) (future : List ℕ) (ms : List (List ℕ))
    → All Sendable ms
    → IsReader r future ms
    → Ends future ms (read_round r)
unfolding read_round
read_round-Ends r future ms short (bound, next) = by_state r.read_state refl next
  where
    by_state :
        (s : ReadState)
        → r.read_state ≡ s
        → Expects s r.current_message_size (unread r ++ future) ms
        → Ends future ms
            (elim s [ reading_header ↦ header_part r | reading_payload ↦ payload_part r ])
    by_state reading_header e next = header_part-Ends r future ms e bound short next
    by_state reading_payload e next = payload_part-Ends r future ms e bound next

-- What the loop leaves: the messages that came out, and a reader that waits for the others.
abbrev pub Taken : List ℕ → List (List ℕ) → Parsed → Type 0
Taken future ms p =
    (left : List (List ℕ)) × (ms ≡ p.messages ++ left)
    × (p.should_signal_error ≡ false)
    × IsReader p.reader future left
    × Waits p.reader.read_state p.reader.current_message_size (available p.reader)

-- Rounds that may still be needed: one for each byte, and one to finish a message.
abbrev pub rounds : Reader → ℕ
rounds r = available r + (elim r.read_state [ reading_header ↦ 0 | reading_payload ↦ 1 ])

fewer_rounds :
    (r q : Reader) (future m : List ℕ) (rest : List (List ℕ))
    → IsReader r future (m ∷ rest)
    → q.read_state ≡ reading_header
    → unread q ++ future ≡ wire rest
    → rounds q < rounds r
fewer_rounds r q future m rest (bound, next) e left = by_state r.read_state next
  where
    none_more : rounds q ≡ available q + 0
    none_more = ap (λ s. available q + (elim s [ reading_header ↦ 0 | reading_payload ↦ 1 ])) e

    lengths :
        (available r + length future ≡ length (unread r ++ future))
        × (available q + length future ≡ length (wire rest))
    lengths = (
      omega (arith, length-append (unread r) future, length-unread r),
      omega (arith, length-append (unread q) future, length-unread q, ap length left),
    )

    by_state :
        (s : ReadState)
        → Expects s r.current_message_size (unread r ++ future) (m ∷ rest)
        → rounds q < available r + (elim s [ reading_header ↦ 0 | reading_payload ↦ 1 ])
    by_state reading_header next =
        omega (arith, none_more, lengths, ap length next, length-append m (wire rest))
    by_state reading_payload (m', rest', same, size, bytes) =
        let tails : rest ≡ rest' = ap (drop 1) same in
        omega (
          arith,
          none_more,
          lengths,
          ap length bytes,
          length-append m' (wire rest'),
          ap (λ l. length (wire l)) tails,
        )

pub read_loop-Taken :
    (fuel : ℕ) (r : Reader) (future : List ℕ) (ms : List (List ℕ))
    → rounds r < fuel
    → All Sendable ms
    → IsReader r future ms
    → Taken future ms (read_loop fuel r)
unfolding read_loop
read_loop-Taken zero r future ms h short ok = absurd (omega arith)
read_loop-Taken (suc fuel) r future ms h short ok =
    by_round (read_round r) (read_round-Ends r future ms short ok)
      (λ q rest less few next. read_loop-Taken fuel q future rest less few next)
  where
    by_round :
        (rd : Round)
        → Ends future ms rd
        → ((q : Reader) (rest : List (List ℕ))
            → rounds q < fuel
            → All Sendable rest
            → IsReader q future rest
            → Taken future rest (read_loop fuel q))
        → Taken future ms (elim rd [
          | stopped q ↦ record { messages = []; reader = q; should_signal_error = false }
          | corrupt q ↦ record { messages = []; reader = q; should_signal_error = true }
          | got m q ↦ with_message m (read_loop fuel q)
        ])
    by_round (stopped q) (next, waits) later = (ms, refl, refl, next, waits)
    by_round (corrupt q) impossible later = absurd (true≢false impossible)
    by_round (got m q) (rest, e, state, bound, left) later =
        let now : IsReader r future (m ∷ rest) = subst (IsReader r future) e ok in
        let fewer : rounds q < rounds r = fewer_rounds r q future m rest now state left in
        let few : All Sendable rest = (subst (All Sendable) e short).1 in
        let next : IsReader q future rest = (
          bound,
          subst (λ s. Expects s q.current_message_size (unread q ++ future) rest) (sym state) left,
        ) in
        let (more, split, fine, after, waits) = later q rest (omega (arith, fewer, h)) few next in
        (more, e ∙ ap (λ l. m ∷ l) split, fine, after, waits)
