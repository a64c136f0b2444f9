-- ===== src/Ipc/MessageChannel/Completions.antt =====
-- What OnWriteComplete does to the write queue.
use mathlib.Core.List.{append_assoc, append-nil}
use mathlib.Core.Path.{subst}
use mathlib.Core.Bool.{true≢false}
use libnei.Common.{
  ℕ, ◌+◌, ◌≤◌, ◌≡◌, refl, ap, sym, ◌∙◌, inl, inr, Bool, true, false, not, ◌||◌, List, [], ◌∷◌, ◌++◌,
  none, arith, leb, ◌==◌, if◌then◌else◌, length, length-drop, drop, take, drop-drop, drop_all,
}
use libnei.Ipc.Framing.Chunks.{joined_chunks}
use libnei.Ipc.MessageChannel.{
  idle, issuing, Channel, pop_write, buffer_written, write_failed, write_advanced,
  on_write_complete,
}
use libnei.Ipc.MessageChannel.Histories.{slice_of}
use libnei.Ipc.MessageChannel.WriteSteps.{take-drop, alive}
use libnei.Ipc.MessageChannel.Writes.{side, Going, Sound}

-- OnWriteComplete, where the stream has taken `n` bytes of what it was given.
pub on_write_complete-Sound :
    (success : Bool) (n : ℕ) (c : Channel) (written : List ℕ) (queued : List (List ℕ))
    → n ≤ length (slice_of c.writing)
    → c.error_signaled ≡ false
    → Going (side c) written queued
    → let q = on_write_complete success n c in
      Sound q.error_signaled (side q) (written ++ take n (slice_of c.writing)) queued
unfolding on_write_complete
on_write_complete-Sound success n c written queued fits fine
      (in_flight, tasks, at, (b, ps, current, pending, len, writing, all)) =
    subst
      (λ l.
        let q = on_write_complete success n c in
        Sound q.error_signaled (side q) (written ++ take n l) queued)
      (sym (ap slice_of writing)) (by_tests c.error_signaled (not success || n == 0) fine)
  where
    slice : List ℕ
    slice = drop c.current_write_offset b

    taken : List ℕ
    taken = written ++ take n slice

    -- What the stream has now, and what is left of the frame.
    now : taken ++ (drop n slice ++ joined_chunks ps) ≡ joined_chunks queued
    now =
        append_assoc written (take n slice) (drop n slice ++ joined_chunks ps)
        ∙ ap (λ l. written ++ l)
            (sym (append_assoc (take n slice) (drop n slice) (joined_chunks ps)))
        ∙ ap (λ l. written ++ (l ++ joined_chunks ps)) (take-drop n slice)
        ∙ all

    -- The branch where the buffer is written.
    no_more :
        length b ≤ c.current_write_offset + n → taken ++ joined_chunks ps ≡ joined_chunks queued
    no_more end =
        let short : length slice ≤ n = omega (arith, length-drop c.current_write_offset b, end) in
        ap (λ l. taken ++ (l ++ joined_chunks ps)) (sym (drop_all n slice short)) ∙ now

    popped : drop 1 c.pending_writes ≡ ps
    popped = ap (drop 1) pending

    whole :
        length b ≤ c.current_write_offset + n
        → (p : List (List ℕ)) → ps ≡ p
        → (closing : Bool) → c.closing ≡ closing
        → let q = buffer_written (pop_write (record c { writing = none })) in
          Sound q.error_signaled (side q) taken queued
    whole end [] none_there true k =
        rw (popped ∙ none_there, k, fine)
          ([], ap (λ p. taken ++ joined_chunks p) (sym none_there) ∙ no_more end)
    whole end [] none_there false k =
        rw (popped ∙ none_there, k)
          (alive c.error_signaled _ taken queued fine (
            inl (
              refl,
              tasks,
              refl,
              refl,
              refl,
              refl,
              sym (append-nil taken)
                  ∙ ap (λ p. taken ++ joined_chunks p) (sym none_there)
                  ∙ no_more end,
            )))
    whole end (p ∷ more) some_there closing k = rw (popped ∙ some_there) (
        alive c.error_signaled _ taken queued fine (
          inr (
            inl (
              in_flight,
              omega (arith, tasks),
              refl,
              inl (refl, ap (λ p. taken ++ joined_chunks p) (sym some_there) ∙ no_more end),
            ))))

    -- The branches, for what the stream had.
    by_len :
        (done : Bool)
        → leb c.current_write_len (c.current_write_offset + n) ≡ done
        → let q =
            if done then buffer_written (pop_write (record c { writing = none })) else record c {
              writing = none;
              current_write_offset = c.current_write_offset + n;
              point = issuing;
            } in
          Sound q.error_signaled (side q) taken queued
    by_len true t = whole (ground (arith, t, len)) ps refl c.closing refl
    by_len false t =
        let rest =
          ap (λ l. taken ++ (l ++ joined_chunks ps)) (sym (drop-drop c.current_write_offset n b)) in
        alive c.error_signaled _ taken queued fine (
          inr (
            inl (
              in_flight,
              omega (arith, tasks),
              refl,
              inr (b, ps, current, pending, len, rest ∙ now),
            )))

    by_tests :
        (e failed : Bool)
        → e ≡ false
        → let q = record c { writing = none } in
          let r =
            if e
            then record q { point = idle }
            else if failed
            then write_failed q
            else write_advanced n q in
          Sound r.error_signaled (side r) taken queued
    by_tests true failed wrong = absurd (true≢false wrong)
    by_tests false true e = rw (fine, current) (drop n slice ++ joined_chunks ps, now)
    by_tests false false e = by_len (leb c.current_write_len (c.current_write_offset + n)) refl
