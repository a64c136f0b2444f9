-- ===== src/Ipc/MessageChannel/Writes.antt =====
-- The write queue: what a state of the channel says about the bytes that the stream has.
use mathlib.Core.List.{append-nil}
use mathlib.Core.Bool.{true≢false}
use libnei.Common.{
  ℕ, ◌+◌, ◌≡◌, ◌∙◌, inl, inr, ◌⊎◌, Bool, true, false, not, ◌&&◌, List, [], ◌∷◌, ◌++◌, Option, none,
  some, if◌then◌else◌, length, drop,
}
use libnei.Ipc.Framing.Chunks.{joined_chunks}
use libnei.Ipc.MessageChannel.{IoPoint, issuing, Channel}
use libnei.Ipc.MessageChannel.Histories.{slice_of}

-- The part of a channel that writes.
pub record Side : Type 0 where
  pub pending : List (List ℕ)
  pub in_flight : Bool
  pub current : Option (List ℕ)
  pub offset : ℕ
  pub len : ℕ
  pub tasks : ℕ
  pub writing : Option (List ℕ)
  pub at_issue : Bool

abbrev pub is_issuing : IoPoint → Bool
is_issuing issuing = true
is_issuing p = false

abbrev pub side : Channel → Side
side c = record {
  pending = c.pending_writes;
  in_flight = c.write_in_flight;
  current = c.current_write_buf;
  offset = c.current_write_offset;
  len = c.current_write_len;
  tasks = c.issue_tasks;
  writing = c.writing;
  at_issue = is_issuing c.point;
}

-- The first frame, of which `offset` bytes are written, and those behind it.
abbrev pub Begun : Side → List ℕ → List (List ℕ) → Type 0
Begun s written queued =
    (b : List ℕ) × (ps : List (List ℕ)) × (s.current ≡ some b)
    × (s.pending ≡ b ∷ ps)
    × (s.len ≡ length b)
    × (written ++ (drop s.offset b ++ joined_chunks ps) ≡ joined_chunks queued)

abbrev pub Unbegun : Side → List ℕ → List (List ℕ) → Type 0
Unbegun s written queued =
    (s.current ≡ none) × (written ++ joined_chunks s.pending ≡ joined_chunks queued)

-- Nothing to write.
abbrev pub Resting : Side → List ℕ → List (List ℕ) → Type 0
Resting s written queued =
    (s.in_flight ≡ false)
    × (s.tasks ≡ 0)
    × (s.at_issue ≡ false)
    × (s.writing ≡ none)
    × (s.current ≡ none)
    × (s.pending ≡ [])
    × (written ≡ joined_chunks queued)

-- IssueNextWrite is posted, or is where the I/O thread is.
abbrev pub Waiting : Side → List ℕ → List (List ℕ) → Type 0
Waiting s written queued =
    (s.in_flight ≡ true)
    × (s.tasks + (if s.at_issue then 1 else 0) ≡ 1)
    × (s.writing ≡ none)
    × (Unbegun s written queued ⊎ Begun s written queued)

-- The stream has the rest of the first frame.
abbrev pub Going : Side → List ℕ → List (List ℕ) → Type 0
Going s written queued =
    (s.in_flight ≡ true)
    × (s.tasks ≡ 0)
    × (s.at_issue ≡ false)
    × ((b : List ℕ) × (ps : List (List ℕ)) × (s.current ≡ some b)
        × (s.pending ≡ b ∷ ps)
        × (s.len ≡ length b)
        × (s.writing ≡ some (drop s.offset b))
        × (written ++ (drop s.offset b ++ joined_chunks ps) ≡ joined_chunks queued))

-- What the stream has, and has been given, is a beginning of what was queued.
abbrev pub Prefix : Side → List ℕ → List (List ℕ) → Type 0
Prefix s written queued =
    (tail : List ℕ) × (written ++ (slice_of s.writing ++ tail) ≡ joined_chunks queued)

-- Before and after `error_signaled_`.
abbrev pub Sound : Bool → Side → List ℕ → List (List ℕ) → Type 0
Sound true s written queued = Prefix s written queued
Sound false s written queued =
    Resting s written queued ⊎ (Waiting s written queued ⊎ Going s written queued)

prefix_of :
    (s : Side) (written tail : List ℕ) (queued : List (List ℕ))
    → s.writing ≡ none
    → written ++ tail ≡ joined_chunks queued
    → Prefix s written queued
prefix_of s written tail queued e h = rw e (tail, h)

pub Sound-Prefix :
    (e : Bool) (s : Side) (written : List ℕ) (queued : List (List ℕ))
    → Sound e s written queued
    → Prefix s written queued
Sound-Prefix true s written queued h = h
Sound-Prefix false s written queued (inl (_, _, _, idle, _, _, all)) =
    prefix_of s written [] queued idle (append-nil written ∙ all)
Sound-Prefix false s written queued (inr (inl (_, _, idle, inl (_, all)))) =
    prefix_of s written (joined_chunks s.pending) queued idle all
Sound-Prefix false s written queued (inr (inl (_, _, idle, inr (b, ps, _, _, _, all)))) =
    prefix_of s written (drop s.offset b ++ joined_chunks ps) queued idle all
Sound-Prefix false s written queued (inr (inr (_, _, _, (b, ps, _, _, _, given, all)))) =
    rw given (joined_chunks ps, all)

-- A call that does not write keeps this, also where it signals the error.
pub carry :
    (e f : Bool) (s : Side) (written : List ℕ) (queued : List (List ℕ))
    → (e && not f) ≡ false
    → Sound e s written queued
    → Sound f s written queued
carry true true s written queued h ok = ok
carry true false s written queued h ok = absurd (true≢false h)
carry false true s written queued h ok = Sound-Prefix false s written queued ok
carry false false s written queued h ok = ok
