-- ===== src/Ipc/MessageChannel/WriteSteps.antt =====
-- What Send and IssueNextWrite do to the write queue.
use mathlib.Core.List.{append_assoc, append-nil}
use mathlib.Core.Path.{subst}
use libnei.Common.{
  ℕ, zero, suc, ◌≡◌, refl, ap, sym, ◌∙◌, inl, inr, ◌⊎◌, Bool, true, false, List, [], ◌∷◌, ◌++◌,
  none, arith, Bool-cases, drop, take,
}
use libnei.Ipc.Framing.{frame}
use libnei.Ipc.Framing.Chunks.{joined_chunks}
use libnei.Ipc.MessageChannel.{Channel, send, signal_error_locked, issue_next_write}
use libnei.Ipc.MessageChannel.Writes.{Side, side, Begun, Unbegun, Sound}

joined_chunks-append :
    (xs ys : List (List ℕ)) → joined_chunks (xs ++ ys) ≡ joined_chunks xs ++ joined_chunks ys
joined_chunks-append [] ys = refl
joined_chunks-append (x ∷ xs) ys =
    ap (λ l. x ++ l) (joined_chunks-append xs ys)
    ∙ sym (append_assoc x (joined_chunks xs) (joined_chunks ys))

pub take-drop : (n : ℕ) (xs : List ℕ) → take n xs ++ drop n xs ≡ xs
take-drop zero xs = refl
take-drop (suc n) [] = refl
take-drop (suc n) (x ∷ xs) = ap (λ l. x ∷ l) (take-drop n xs)

-- A frame at the end of the queue.
module _ (written f : List ℕ) (queued : List (List ℕ)) where
  queued_more :
      (rest : List ℕ) (ps : List (List ℕ))
      → written ++ (rest ++ joined_chunks ps) ≡ joined_chunks queued
      → written ++ (rest ++ joined_chunks (ps ++ f ∷ [])) ≡ joined_chunks (queued ++ f ∷ [])
  queued_more rest ps h =
      ap (λ l. written ++ (rest ++ l)) (joined_chunks-append ps (f ∷ []))
      ∙ ap (λ l. written ++ l) (sym (append_assoc rest (joined_chunks ps) (f ++ [])))
      ∙ sym (append_assoc written (rest ++ joined_chunks ps) (f ++ []))
      ∙ ap (λ l. l ++ (f ++ [])) h
      ∙ sym (joined_chunks-append queued (f ∷ []))

  send-Begun :
      (s : Side)
      → Begun s written queued
      → Begun (record s { pending = s.pending ++ f ∷ [] }) written (queued ++ f ∷ [])
  send-Begun s (b, ps, c, p, l, all) =
      (b, ps ++ f ∷ [], c, ap (λ q. q ++ f ∷ []) p, l, queued_more (drop s.offset b) ps all)

pub alive :
    (e : Bool) (s : Side) (written : List ℕ) (queued : List (List ℕ))
    → e ≡ false
    → Sound false s written queued
    → Sound e s written queued
alive e s written queued fine ok = subst (λ b. Sound b s written queued) (sym fine) ok

-- Send, on a channel that is neither closing nor ended.
pub send-Sound :
    (payload : List ℕ) (c : Channel) (written : List ℕ) (queued : List (List ℕ))
    → c.error_signaled ≡ false
    → c.closing ≡ false
    → Sound false (side c) written queued
    → let q = send payload c in
      Sound q.error_signaled (side q) written (queued ++ frame payload ∷ [])
unfolding send
send-Sound payload c written queued fine opened
      (inl (in_flight, tasks, at, writing, current, pending, all)) =
    let f = frame payload in
    let before : written ++ ([] ++ joined_chunks c.pending_writes) ≡ joined_chunks queued =
      ap (λ q. written ++ joined_chunks q) pending ∙ append-nil written ∙ all in
    rw (fine, opened, in_flight)
      (inr (
        inl (
          refl,
          ground (arith, tasks, at),
          writing,
          inl (current, queued_more written f queued [] c.pending_writes before),
        )))
send-Sound payload c written queued fine opened
      (inr (inl (in_flight, tasks, writing, inl (current, all)))) =
    rw (fine, opened, in_flight)
      (inr (
        inl (
          refl,
          tasks,
          writing,
          inl (current, queued_more written (frame payload) queued [] c.pending_writes all),
        )))
send-Sound payload c written queued fine opened (inr (inl (in_flight, tasks, writing, inr begun))) =
    rw (fine, opened, in_flight)
      (inr (
        inl (refl, tasks, writing, inr (send-Begun written (frame payload) queued (side c) begun))))
send-Sound payload c written queued fine opened
      (inr (inr (in_flight, tasks, at, (b, ps, current, pending, len, writing, all)))) =
    let f = frame payload in
    rw (fine, opened, in_flight)
      (inr (
        inr (
          refl,
          tasks,
          at,
          (
            b,
            ps ++ f ∷ [],
            current,
            ap (λ q. q ++ f ∷ []) pending,
            len,
            writing,
            queued_more written f queued (drop c.current_write_offset b) ps all,
          ),
        )))

-- IssueNextWrite, called where it was posted or where the thread goes on with it; `point` and
-- `issue_tasks` are what is left of that.
pub issue_next_write-Sound :
    (c : Channel) (written : List ℕ) (queued : List (List ℕ))
    → c.error_signaled ≡ false
    → c.issue_tasks ≡ 0
    → c.write_in_flight ≡ true
    → c.writing ≡ none
    → Unbegun (side c) written queued ⊎ Begun (side c) written queued
    → let q = issue_next_write c in Sound q.error_signaled (side q) written queued
unfolding issue_next_write signal_error_locked
issue_next_write-Sound c written queued fine tasks in_flight writing
      (inr (b, ps, current, pending, len, all)) =
    rw (fine, current)
      (alive c.error_signaled _ written queued fine
        (inr (inr (in_flight, tasks, refl, (b, ps, current, pending, len, refl, all)))))
issue_next_write-Sound c written queued fine tasks in_flight writing (inl (current, all)) =
    by_pending c.pending_writes refl
  where
    by_pending :
        (p : List (List ℕ))
        → c.pending_writes ≡ p
        → let q = issue_next_write c in Sound q.error_signaled (side q) written queued
    by_pending [] e = elim (Bool-cases c.closing) [
      | inl k ↦
          rw (fine, current, e, k, writing, fine)
            ([], ap (λ q. written ++ joined_chunks q) (sym e) ∙ all)
      | inr k ↦
          rw (fine, current, e, k)
            (alive c.error_signaled _ written queued fine (
              inl (
                refl,
                tasks,
                refl,
                writing,
                current,
                e,
                sym (append-nil written) ∙ ap (λ q. written ++ joined_chunks q) (sym e) ∙ all,
              )))
    ]
    by_pending (front ∷ rest) e =
        rw (fine, current, e)
          (alive c.error_signaled _ written queued fine (
            inr (
              inr (
                in_flight,
                tasks,
                refl,
                (
                  front,
                  rest,
                  refl,
                  e,
                  refl,
                  refl,
                  ap (λ q. written ++ joined_chunks q) (sym e) ∙ all,
                ),
              ))))
