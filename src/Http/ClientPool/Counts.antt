-- ===== src/Http/ClientPool/Counts.antt =====
-- How often a client stands in a queue and in the pool, and what each write to the map changes.
use libnei.Common.{
  ℕ, ◌+◌, ◌≡◌, inl, inr, Bool, true, false, List, [], ◌∷◌, ◌++◌, Option, none, some, arith, ◌==◌,
  if◌then◌else◌, count, count-append, Bool-cases,
}
use libnei.Http.ClientPool.{
  PoolKey, key_equal, IdleEntry, IdleClients, find_queue, set_queue, erase_queue, optional,
  queue_of, Probe, is_reusable, pop_loop, store_queue, clients_of, all_clients,
}

abbrev pub times : ℕ → List ℕ → ℕ
times c clients = count (λ x. x == c) clients

abbrev pub queued : ℕ → List IdleEntry → ℕ
queued c queue = times c (clients_of queue)

abbrev pub pooled : ℕ → IdleClients → ℕ
pooled c idle = times c (all_clients idle)

pub times-append : (c : ℕ) (xs ys : List ℕ) → times c (xs ++ ys) ≡ times c xs + times c ys
times-append c xs ys = count-append (λ x. x == c) xs ys

pub clients_of-append :
    (c : ℕ) (queue : List IdleEntry) (e : IdleEntry)
    → queued c (queue ++ e ∷ []) ≡ queued c queue + (if e.client == c then 1 else 0)
unfolding count
clients_of-append c [] e = omega arith
clients_of-append c (x ∷ queue) e = omega (arith, clients_of-append c queue e)

-- A queue that is written takes the place of the key's old queue.
pub pooled-set_queue :
    (c : ℕ) (key : PoolKey) (queue : List IdleEntry) (idle : IdleClients)
    → pooled c (set_queue key queue idle) + queued c (queue_of key idle)
      ≡ pooled c idle + queued c queue
unfolding set_queue find_queue all_clients count
pooled-set_queue c key queue [] = omega (arith, times-append c (clients_of queue) [])
pooled-set_queue c key queue ((k, old) ∷ rest) =
    by_match (key_equal k key) (pooled-set_queue c key queue rest)
  where
    by_match :
        (same : Bool)
        → pooled c (set_queue key queue rest) + queued c (queue_of key rest)
          ≡ pooled c rest + queued c queue
        → pooled c (if same then (k, queue) ∷ rest else (k, old) ∷ set_queue key queue rest)
            + queued c (optional (if same then some old else find_queue key rest))
          ≡ pooled c ((k, old) ∷ rest) + queued c queue
    by_match true ih = omega (
      arith,
      times-append c (clients_of queue) (all_clients rest),
      times-append c (clients_of old) (all_clients rest),
    )
    by_match false ih = omega (
      arith,
      times-append c (clients_of old) (all_clients (set_queue key queue rest)),
      times-append c (clients_of old) (all_clients rest),
    )

pooled-erase_queue :
    (c : ℕ) (key : PoolKey) (idle : IdleClients)
    → pooled c (erase_queue key idle) + queued c (queue_of key idle) ≡ pooled c idle
unfolding erase_queue find_queue all_clients count
pooled-erase_queue c key [] = omega arith
pooled-erase_queue c key ((k, old) ∷ rest) =
    by_match (key_equal k key) (pooled-erase_queue c key rest)
  where
    by_match :
        (same : Bool)
        → pooled c (erase_queue key rest) + queued c (queue_of key rest) ≡ pooled c rest
        → pooled c (if same then rest else (k, old) ∷ erase_queue key rest)
            + queued c (optional (if same then some old else find_queue key rest))
          ≡ pooled c ((k, old) ∷ rest)
    by_match true ih = omega (arith, times-append c (clients_of old) (all_clients rest))
    by_match false ih = omega (
      arith,
      times-append c (clients_of old) (all_clients (erase_queue key rest)),
      times-append c (clients_of old) (all_clients rest),
    )

pub pooled-store_queue :
    (c : ℕ) (key : PoolKey) (queue : List IdleEntry) (idle : IdleClients)
    → pooled c (store_queue key queue idle) + queued c (queue_of key idle)
      ≡ pooled c idle + queued c queue
unfolding store_queue count
pooled-store_queue c key [] idle = omega (arith, pooled-erase_queue c key idle)
pooled-store_queue c key (e ∷ queue) idle = pooled-set_queue c key (e ∷ queue) idle

abbrev pub found_times : ℕ → Option ℕ → ℕ
found_times c none = 0
found_times c (some x) = if x == c then 1 else 0

-- The loop takes each client of the queue to one place.
pub pop_loop-queued :
    (c idle_timeout : ℕ) (probe : Probe) (queue : List IdleEntry)
    → let (found, left, dead) = pop_loop idle_timeout probe queue in
      found_times c found + queued c left + times c dead ≡ queued c queue
unfolding pop_loop count
pop_loop-queued c t probe [] = omega arith
pop_loop-queued c t probe (e ∷ queue) = elim (Bool-cases (is_reusable t probe e)) [
  | inl k ↦ rw k (omega arith)
  | inr k ↦ rw k (omega (arith, pop_loop-queued c t probe queue))
]
