-- ===== src/Tasks/SequencedTaskQueue/Takes.antt =====
-- What a take removes from a queue, and what it leaves as it is.
use mathlib.Core.Path.{subst}
use mathlib.Core.List.{append_assoc, append-nil}
use libnei.Common.{
  ℕ, zero, suc, ◌≡◌, refl, sym, ◌∙◌, Bool, true, false, List, [], ◌∷◌, ◌++◌, Option, none, some,
  arith, if◌then◌else◌, All, All-append_right,
}
use libnei.Tasks.Task.{Task}
use libnei.Tasks.SequencedTaskQueue.{
  SequencedTaskQueue, reload_work_queue_if_empty, front_queue, with_front_queue, before_take,
  take_first, take_immediate_task, take_batch, take_immediate_tasks,
}

-- What the consumer has still to take, the next first.
abbrev pub contents : SequencedTaskQueue → List Task
contents q = q.work_queue ++ q.incoming_queue

-- Without a single consumer `work_queue_` is not used.
abbrev pub IsSplit : SequencedTaskQueue → Type 0
IsSplit q = q.single_consumer ≡ false → q.work_queue ≡ []

contents-before_take : (q : SequencedTaskQueue) → contents (before_take q) ≡ contents q
unfolding before_take reload_work_queue_if_empty
contents-before_take q = ground (arith, append-nil q.incoming_queue)

-- The queue that a take reads holds the first tasks of the contents.
contents_front :
    (q : SequencedTaskQueue) (ts us : List Task)
    → IsSplit q
    → front_queue q ≡ ts ++ us
    → contents q ≡ ts ++ contents (with_front_queue q us)
unfolding front_queue with_front_queue
contents_front q ts us split e = ground (arith, append_assoc ts us q.incoming_queue)

take_batch-append : (n : ℕ) (ts : List Task) → (take_batch n ts).0 ++ (take_batch n ts).1 ≡ ts
unfolding take_batch
take_batch-append zero ts = refl
take_batch-append (suc n) [] = refl
take_batch-append (suc n) (t ∷ ts) = ground (arith, take_batch-append n ts)

-- What a call of `TakeImmediateTask` took.
abbrev pub to_list : Option Task → List Task
to_list none = []
to_list (some t) = t ∷ []

before_take-IsSplit : (q : SequencedTaskQueue) → IsSplit q → IsSplit (before_take q)
unfolding before_take reload_work_queue_if_empty
before_take-IsSplit q split s = ground (arith, split)

with_front_queue-IsSplit :
    (q : SequencedTaskQueue) (ts : List Task) → IsSplit q → IsSplit (with_front_queue q ts)
unfolding with_front_queue
with_front_queue-IsSplit q ts split s = ground (arith, split)

contents-take_first :
    (q : SequencedTaskQueue) (ts : List Task)
    → IsSplit q
    → front_queue q ≡ ts
    → (contents q ≡ to_list (take_first q ts).0 ++ contents (take_first q ts).1)
      × IsSplit (take_first q ts).1
unfolding take_first
contents-take_first q [] split e = (refl, split)
contents-take_first q (t ∷ ts) split e =
    (contents_front q (t ∷ []) ts split e, with_front_queue-IsSplit q ts split)

-- A take removes the first task of the contents, or nothing where it returns false.
pub contents-take_immediate_task :
    (q : SequencedTaskQueue)
    → IsSplit q
    → (contents q ≡ to_list (take_immediate_task q).0 ++ contents (take_immediate_task q).1)
      × IsSplit (take_immediate_task q).1
unfolding take_immediate_task
contents-take_immediate_task q split =
    let rest =
      contents-take_first (before_take q) (front_queue (before_take q))
        (before_take-IsSplit q split) refl in
    (sym (contents-before_take q) ∙ rest.0, rest.1)

-- The same of a batch.
pub contents-take_immediate_tasks :
    (q : SequencedTaskQueue) (n : ℕ)
    → IsSplit q
    → (contents q ≡ (take_immediate_tasks q n).0 ++ contents (take_immediate_tasks q n).1)
      × IsSplit (take_immediate_tasks q n).1
unfolding take_immediate_tasks
contents-take_immediate_tasks q zero split = (refl, split)
contents-take_immediate_tasks q (suc n) split =
    let ready = before_take q in
    let batch = take_batch (suc n) (front_queue ready) in
    let whole = before_take-IsSplit q split in
    (
      sym (contents-before_take q)
          ∙ contents_front ready batch.0 batch.1 whole
              (sym (take_batch-append (suc n) (front_queue ready))),
      with_front_queue-IsSplit ready batch.1 whole,
    )

-- The fields that a take does not touch: the queue with nothing to take.
abbrev pub unread : SequencedTaskQueue → SequencedTaskQueue
unread q = record q { incoming_queue = []; work_queue = [] }

unread-reload : (q : SequencedTaskQueue) → unread (reload_work_queue_if_empty q) ≡ unread q
unfolding reload_work_queue_if_empty
unread-reload q = by_queue q.work_queue
  where
    by_queue :
        (w : List Task)
        → unread (elim w [
          | [] ↦ record q { work_queue = q.incoming_queue; incoming_queue = [] }
          | t ∷ ts ↦ q
        ])
          ≡ unread q
    by_queue [] = refl
    by_queue (t ∷ ts) = refl

unread-before_take : (q : SequencedTaskQueue) → unread (before_take q) ≡ unread q
unfolding before_take
unread-before_take q = by_mode q.single_consumer
  where
    by_mode : (s : Bool) → unread (if s then reload_work_queue_if_empty q else q) ≡ unread q
    by_mode true = unread-reload q
    by_mode false = refl

unread-with_front_queue :
    (q : SequencedTaskQueue) (us : List Task) → unread (with_front_queue q us) ≡ unread q
unfolding with_front_queue
unread-with_front_queue q us = by_mode q.single_consumer
  where
    by_mode :
        (s : Bool)
        → unread (if s then record q { work_queue = us } else record q { incoming_queue = us })
          ≡ unread q
    by_mode true = refl
    by_mode false = refl

unread-take_first :
    (q : SequencedTaskQueue) (ts : List Task) → unread (take_first q ts).1 ≡ unread q
unfolding take_first
unread-take_first q [] = refl
unread-take_first q (t ∷ ts) = unread-with_front_queue q ts

pub unread-take_immediate_task :
    (q : SequencedTaskQueue) → unread (take_immediate_task q).1 ≡ unread q
unfolding take_immediate_task
unread-take_immediate_task q =
    unread-take_first (before_take q) (front_queue (before_take q)) ∙ unread-before_take q

pub unread-take_immediate_tasks :
    (q : SequencedTaskQueue) (n : ℕ) → unread (take_immediate_tasks q n).1 ≡ unread q
unfolding take_immediate_tasks
unread-take_immediate_tasks q zero = refl
unread-take_immediate_tasks q (suc n) =
    unread-with_front_queue (before_take q) (take_batch (suc n) (front_queue (before_take q))).1
    ∙ unread-before_take q

-- A predicate of the tasks in `incoming_queue_`: a take never adds to it.
module _ (P : Task → Type 0) where
  abbrev Holds : SequencedTaskQueue → Type 0
  Holds q = All P q.incoming_queue

  All-reload : (q : SequencedTaskQueue) → Holds q → Holds (reload_work_queue_if_empty q)
  unfolding reload_work_queue_if_empty
  All-reload q h = by_queue q.work_queue
    where
      by_queue :
          (w : List Task)
          → Holds (elim w [
            | [] ↦ record q { work_queue = q.incoming_queue; incoming_queue = [] }
            | t ∷ ts ↦ q
          ])
      by_queue [] = tt
      by_queue (t ∷ ts) = h

  All-before_take : (q : SequencedTaskQueue) → Holds q → Holds (before_take q)
  unfolding before_take
  All-before_take q h = by_mode q.single_consumer
    where
      by_mode : (s : Bool) → Holds (if s then reload_work_queue_if_empty q else q)
      by_mode true = All-reload q h
      by_mode false = h

  All-with_front_queue :
      (q : SequencedTaskQueue) (ts us : List Task)
      → front_queue q ≡ ts ++ us
      → Holds q
      → Holds (with_front_queue q us)
  unfolding with_front_queue front_queue
  All-with_front_queue q ts us e h = by_mode q.single_consumer e
    where
      by_mode :
          (s : Bool)
          → (if s then q.work_queue else q.incoming_queue) ≡ ts ++ us
          → Holds (if s then record q { work_queue = us } else record q { incoming_queue = us })
      by_mode true e = h
      by_mode false e = All-append_right P ts us (subst (All P) e h)

  All-take_first :
      (q : SequencedTaskQueue) (ts : List Task)
      → front_queue q ≡ ts
      → Holds q
      → Holds (take_first q ts).1
  unfolding take_first
  All-take_first q [] e h = h
  All-take_first q (t ∷ ts) e h = All-with_front_queue q (t ∷ []) ts e h

  pub All-take_immediate_task : (q : SequencedTaskQueue) → Holds q → Holds (take_immediate_task q).1
  unfolding take_immediate_task
  All-take_immediate_task q h =
      All-take_first (before_take q) (front_queue (before_take q)) refl (All-before_take q h)

  pub All-take_immediate_tasks :
      (q : SequencedTaskQueue) (n : ℕ) → Holds q → Holds (take_immediate_tasks q n).1
  unfolding take_immediate_tasks
  All-take_immediate_tasks q zero h = h
  All-take_immediate_tasks q (suc n) h =
      let batch = take_batch (suc n) (front_queue (before_take q)) in
      All-with_front_queue (before_take q) batch.0 batch.1
        (sym (take_batch-append (suc n) (front_queue (before_take q)))) (All-before_take q h)
