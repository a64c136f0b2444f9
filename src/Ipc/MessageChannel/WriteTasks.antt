-- ===== src/Ipc/MessageChannel/WriteTasks.antt =====
-- Send, the tasks of IssueNextWrite and the completions of WriteAsync, at any state of the channel.
use mathlib.Core.List.{append_assoc}
use mathlib.Core.Path.{subst}
use mathlib.Core.Bool.{true≢false}
use libnei.Common.{
  ℕ, ◌-◌, ◌≤◌, ◌<◌, ◌≡◌, refl, ap, sym, ◌∙◌, inl, inr, Bool, true, false, ◌||◌, List, [], ◌∷◌, ◌++◌,
  none, arith, if◌then◌else◌, length, drop, take,
}
use libnei.Ipc.Framing.{frame}
use libnei.Ipc.MessageChannel.{Channel, send, issue_next_write, on_write_complete}
use libnei.Ipc.MessageChannel.Histories.{slice_of, is_writing}
use libnei.Ipc.MessageChannel.Writes.{side, is_issuing, Prefix, Sound}
use libnei.Ipc.MessageChannel.Completions.{on_write_complete-Sound}
use libnei.Ipc.MessageChannel.WriteSteps.{take-drop, send-Sound, issue_next_write-Sound}

-- Send drops the message, or queues its frame.
pub send-Holds :
    (payload : List ℕ) (c : Channel) (written : List ℕ) (queued : List (List ℕ))
    → Sound c.error_signaled (side c) written queued
    → let q = send payload c in
      let refused = c.error_signaled || c.closing in
      Sound q.error_signaled
        (side q)
        written
        (if refused then queued else queued ++ frame payload ∷ [])
send-Holds payload c written queued h = by_gate c.error_signaled c.closing refl refl h
  where
    queued_then : Bool → List (List ℕ)
    queued_then refused = if refused then queued else queued ++ frame payload ∷ []

    unchanged : (c.error_signaled || c.closing) ≡ true → send payload c ≡ c
    unchanged e = unfold send in rw e refl

    kept :
        (c.error_signaled || c.closing) ≡ true
        → Sound c.error_signaled (side c) written queued
        → let q = send payload c in
          Sound q.error_signaled (side q) written (queued_then (c.error_signaled || c.closing))
    kept e ok =
        subst
          (λ b. let q = send payload c in Sound q.error_signaled (side q) written (queued_then b))
          (sym e)
          (subst (λ q. Sound q.error_signaled (side q) written queued) (sym (unchanged e)) ok)

    by_gate :
        (e k : Bool)
        → c.error_signaled ≡ e
        → c.closing ≡ k
        → Sound c.error_signaled (side c) written queued
        → let q = send payload c in
          Sound q.error_signaled (side q) written (queued_then (c.error_signaled || c.closing))
    by_gate true k e f ok = kept (ap (λ b. b || c.closing) e) ok
    by_gate false true e f ok = kept (rw (e, f) refl) ok
    by_gate false false e f ok =
        let opened : (c.error_signaled || c.closing) ≡ false = rw (e, f) refl in
        subst
          (λ b. let q = send payload c in Sound q.error_signaled (side q) written (queued_then b))
          (sym opened)
          (send-Sound payload c written queued e f
            (subst (λ b. Sound b (side c) written queued) e ok))

-- After the error, a step of IssueNextWrite does nothing.
issue-ended :
    (c : Channel) (written : List ℕ) (queued : List (List ℕ))
    → c.error_signaled ≡ true
    → Prefix (side c) written queued
    → let q = issue_next_write c in Sound q.error_signaled (side q) written queued
unfolding issue_next_write
issue-ended c written queued e h = rw e h

-- IssueNextWrite, as a task: one of the posted ones is taken.
pub issue_task-Holds :
    (c : Channel) (written : List ℕ) (queued : List (List ℕ))
    → is_issuing c.point ≡ false
    → 0 < c.issue_tasks
    → Sound c.error_signaled (side c) written queued
    → let q = issue_next_write (record c { issue_tasks = c.issue_tasks - 1 }) in
      Sound q.error_signaled (side q) written queued
issue_task-Holds c written queued at posted h = by_error c.error_signaled refl h
  where
    q : Channel
    q = record c { issue_tasks = c.issue_tasks - 1 }

    by_error :
        (e : Bool)
        → c.error_signaled ≡ e
        → Sound e (side c) written queued
        → let r = issue_next_write q in Sound r.error_signaled (side r) written queued
    by_error true e h = issue-ended q written queued e h
    by_error false e (inl (_, tasks, _, _, _, _, _)) = absurd (omega (arith, tasks, posted))
    by_error false e (inr (inr (_, tasks, _, _))) = absurd (omega (arith, tasks, posted))
    by_error false e (inr (inl (in_flight, tasks, writing, frames))) =
        issue_next_write-Sound q written queued e (omega (arith, tasks, posted)) in_flight writing
          frames

-- The same, where the I/O thread goes on with it.
pub issue_point-Holds :
    (c : Channel) (written : List ℕ) (queued : List (List ℕ))
    → is_issuing c.point ≡ true
    → Sound c.error_signaled (side c) written queued
    → let q = issue_next_write c in Sound q.error_signaled (side q) written queued
issue_point-Holds c written queued at h = by_error c.error_signaled refl h
  where
    by_error :
        (e : Bool)
        → c.error_signaled ≡ e
        → Sound e (side c) written queued
        → let r = issue_next_write c in Sound r.error_signaled (side r) written queued
    by_error true e h = issue-ended c written queued e h
    by_error false e (inl (_, _, not_at, _, _, _, _)) = absurd (true≢false (sym at ∙ not_at))
    by_error false e (inr (inr (_, _, not_at, _))) = absurd (true≢false (sym at ∙ not_at))
    by_error false e (inr (inl (in_flight, tasks, writing, frames))) =
        issue_next_write-Sound c written queued e (ground (arith, tasks, at)) in_flight writing
          frames

-- After the error, a completion only takes the bytes.
write-ended :
    (success : Bool) (n : ℕ) (c : Channel) (written : List ℕ) (queued : List (List ℕ))
    → c.error_signaled ≡ true
    → Prefix (side c) written queued
    → let q = on_write_complete success n c in
      Sound q.error_signaled (side q) (written ++ take n (slice_of c.writing)) queued
unfolding on_write_complete
write-ended success n c written queued e (tail, all) =
    let slice = slice_of c.writing in
    rw e (
      drop n slice ++ tail,
      append_assoc written (take n slice) (drop n slice ++ tail)
          ∙ ap (λ l. written ++ l) (sym (append_assoc (take n slice) (drop n slice) tail))
          ∙ ap (λ l. written ++ (l ++ tail)) (take-drop n slice)
          ∙ all,
    )

pub write-Holds :
    (success : Bool) (n : ℕ) (c : Channel) (written : List ℕ) (queued : List (List ℕ))
    → is_writing c.writing ≡ true
    → n ≤ length (slice_of c.writing)
    → Sound c.error_signaled (side c) written queued
    → let q = on_write_complete success n c in
      Sound q.error_signaled (side q) (written ++ take n (slice_of c.writing)) queued
write-Holds success n c written queued given fits h = by_error c.error_signaled refl h
  where
    not_given : c.writing ≡ none → true ≡ false
    not_given e = sym given ∙ ap is_writing e

    by_error :
        (e : Bool)
        → c.error_signaled ≡ e
        → Sound e (side c) written queued
        → let r = on_write_complete success n c in
          Sound r.error_signaled (side r) (written ++ take n (slice_of c.writing)) queued
    by_error true e h = write-ended success n c written queued e h
    by_error false e (inl (_, _, _, none_there, _, _, _)) =
        absurd (true≢false (not_given none_there))
    by_error false e (inr (inl (_, _, none_there, _))) = absurd (true≢false (not_given none_there))
    by_error false e (inr (inr going)) =
        on_write_complete-Sound success n c written queued fits e going
