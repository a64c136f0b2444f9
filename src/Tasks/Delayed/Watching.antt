-- ===== src/Tasks/Delayed/Watching.antt =====
-- The registered deadlines, over the manager's calls and the steps of its thread in any order.
use mathlib.Core.Bool.{false≢true}
use libnei.Common.{ℕ, ◌≡◌, sym, ◌∙◌, inl, inr, true, false, List, [], ◌∷◌, some, ◌==◌, ==_iff}
use libnei.Tasks.Delayed.{find_queue}
use libnei.Tasks.Delayed.Deadlines.{
  is_known, Watch, Known, add_queue-Known, remove_queue-Known, on_queue_updated-Known,
  shutdown_manager-Known,
}
use libnei.Tasks.Delayed.Interleavings.{
  ManagerStep, adds, updates, removes, stops, pops, puts_back, serves, watch, watched, unwatched,
}
use libnei.Tasks.Delayed.Taken.{pops-Known, puts_back-Known}
use libnei.Tasks.Delayed.Served.{serves-Known}

watch-Known :
    (q : ℕ) (s : ManagerStep) (w : Watch) → (q == 0) ≡ false → Known q w → Known q (watch s w)
unfolding watch
watch-Known q (adds p view) w nonnull k = add_queue-Known q p view w k
watch-Known q (updates p view) w nonnull k = on_queue_updated-Known q p view w k
watch-Known q (removes p) w nonnull k = remove_queue-Known q p w k
watch-Known q stops w nonnull k = shutdown_manager-Known q w
watch-Known q pops w nonnull k = pops-Known q w nonnull k
watch-Known q puts_back w nonnull k = puts_back-Known q w nonnull k
watch-Known q (serves view) w nonnull k = serves-Known q view w nonnull k

watched-Known :
    (q : ℕ) (ss : List ManagerStep) (w : Watch)
    → (q == 0) ≡ false
    → Known q w
    → Known q (watched ss w)
unfolding watched
watched-Known q [] w nonnull k = k
watched-Known q (s ∷ ss) w nonnull k =
    watched-Known q ss (watch s w) nonnull (watch-Known q s w nonnull k)

-- However the manager's calls and the steps of its thread interleave: a deadline that is registered
-- for a queue and is not null has an entry in the heap or is the one that the thread holds, unless
-- the thread has seen that the queue is shut down, or the manager itself is.
pub deadline_kept :
    (ss : List ManagerStep) (q t : ℕ)
    → (q == 0) ≡ false
    → (t == 0) ≡ false
    → find_queue q (watched ss unwatched).manager.queues ≡ some t
    → is_known q t (watched ss unwatched) ≡ true
unfolding Known
deadline_kept ss q t nonnull due h = elim (watched-Known q ss unwatched nonnull fresh t h) [
  | inl null ↦ absurd (false≢true (sym due ∙ (==_iff t 0).1 null))
  | inr known ↦ known
]
  where
    fresh : Known q unwatched
    fresh = λ t h. unfold find_queue in cc
