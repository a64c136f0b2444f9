-- ===== src/Http/ClientPool/Limits.antt =====
-- How many idle clients a key has.
use mathlib.Core.Path.{subst}
use libnei.Common.{
  ℕ, ◌≤◌, ◌<◌, ◌≡◌, refl, ap, sym, inl, inr, ◌⊎◌, Bool, true, false, ◌&&◌, List, [], ◌∷◌, ◌++◌,
  some, arith, ltb, leb, if◌then◌else◌, length, length-append, All, Bool-cases,
}
use libnei.Http.ClientPool.{
  PoolKey, key_equal, IdleEntry, IdleClients, Impl, default_max_idle_per_endpoint, find_queue,
  set_queue, erase_queue, optional, queue_of, Probe, is_empty, store_queue, acquire, release, flush,
  set_max_idle_per_endpoint, set_idle_timeout,
}
use libnei.Http.ClientPool.Reuse.{Reuses, Makes, acquire_lem}
use libnei.Http.ClientPool.Counts.{times}
use libnei.Http.ClientPool.Conservation.{
  Call, acquire_call, release_call, flush_call, max_idle_call, timeout_call, World, step, released,
  history,
}

abbrev Short : ℕ → PoolKey × List IdleEntry → Type 0
Short n (key, queue) = length queue ≤ n

-- Every limit that was set is at most `n`.
abbrev pub limits_within : ℕ → List Call → Bool
limits_within n [] = leb default_max_idle_per_endpoint n
limits_within n (max_idle_call m ∷ calls) = leb m n && limits_within n calls
limits_within n (call ∷ calls) = limits_within n calls

find_queue-Short :
    (n : ℕ) (key : PoolKey) (idle : IdleClients)
    → All (Short n) idle
    → length (queue_of key idle) ≤ n
unfolding find_queue
find_queue-Short n key [] h = omega arith
find_queue-Short n key ((k, old) ∷ rest) h =
    by_match (key_equal k key) (find_queue-Short n key rest h.1)
  where
    by_match :
        (b : Bool)
        → length (queue_of key rest) ≤ n
        → length (optional (if b then some old else find_queue key rest)) ≤ n
    by_match true ih = h.0
    by_match false ih = ih

set_queue-Short :
    (n : ℕ) (key : PoolKey) (queue : List IdleEntry) (idle : IdleClients)
    → length queue ≤ n
    → All (Short n) idle
    → All (Short n) (set_queue key queue idle)
unfolding set_queue
set_queue-Short n key queue [] short h = (short, tt)
set_queue-Short n key queue ((k, old) ∷ rest) short h = elim (Bool-cases (key_equal k key)) [
  | inl e ↦ rw e (short, h.1)
  | inr e ↦ rw e (h.0, set_queue-Short n key queue rest short h.1)
]

erase_queue-Short :
    (n : ℕ) (key : PoolKey) (idle : IdleClients)
    → All (Short n) idle
    → All (Short n) (erase_queue key idle)
unfolding erase_queue
erase_queue-Short n key [] h = tt
erase_queue-Short n key ((k, old) ∷ rest) h = elim (Bool-cases (key_equal k key)) [
  | inl e ↦ rw e h.1
  | inr e ↦ rw e (h.0, erase_queue-Short n key rest h.1)
]

store_queue-Short :
    (n : ℕ) (key : PoolKey) (queue : List IdleEntry) (idle : IdleClients)
    → length queue ≤ n
    → All (Short n) idle
    → All (Short n) (store_queue key queue idle)
unfolding store_queue
store_queue-Short n key [] idle short h = erase_queue-Short n key idle h
store_queue-Short n key (e ∷ queue) idle short h = set_queue-Short n key (e ∷ queue) idle short h

-- The pool keeps to a limit.
abbrev Limited : ℕ → Impl → Type 0
Limited n p = (p.max_idle_per_endpoint ≤ n) × All (Short n) p.idle_clients

acquire-Limited :
    (n : ℕ) (key : PoolKey) (probe : Probe) (p : Impl)
    → Limited n p
    → Limited n (acquire key probe p).1
acquire-Limited n key probe p (m, h) = by_case (acquire key probe p) (acquire_lem key probe p)
  where
    by_case :
        (r : ℕ × Impl)
        → Reuses key probe p (queue_of key p.idle_clients) r
          ⊎ Makes key probe p (queue_of key p.idle_clients) r
        → Limited n r.1
    by_case r (inl (dead, e, rest, split, bad, good, same)) =
        let long : length (queue_of key p.idle_clients) ≤ n =
          find_queue-Short n key p.idle_clients h in
        let short : length rest ≤ n =
          omega (arith, ap length split, length-append dead (e ∷ rest), long) in
        subst (λ r. Limited n r.1) (sym same)
          (m, store_queue-Short n key rest p.idle_clients short h)
    by_case r (inr (bad, same)) =
        subst (λ r. Limited n r.1) (sym same) (m, erased (is_empty (queue_of key p.idle_clients)))
      where
        erased :
            (b : Bool)
            → All (Short n) (if b then p.idle_clients else erase_queue key p.idle_clients)
        erased true = h
        erased false = erase_queue-Short n key p.idle_clients h

release-Limited :
    (n : ℕ) (key : PoolKey) (client : ℕ) (is_connected : Bool) (now : ℕ) (p : Impl)
    → Limited n p
    → Limited n (release key client is_connected now p)
unfolding release
release-Limited n key client false now p h = h
release-Limited n key client true now p (m, h) =
    by_room (leb p.max_idle_per_endpoint (length queue)) (λ e. ground arith)
  where
    queue : List IdleEntry
    queue = queue_of key p.idle_clients

    entry : IdleEntry
    entry = record { client = client; released_at = now }

    by_room :
        (full : Bool)
        → (full ≡ false → length queue < n)
        → Limited n (
            if full
            then record p {
              idle_clients = set_queue key queue p.idle_clients;
              closed = p.closed ++ (client ∷ []);
            }
            else record p { idle_clients = set_queue key (queue ++ (entry ∷ [])) p.idle_clients })
    by_room true room =
        (m, set_queue-Short n key queue p.idle_clients (find_queue-Short n key p.idle_clients h) h)
    by_room false room =
        let fits : length (queue ++ (entry ∷ [])) ≤ n =
          omega (arith, room refl, length-append queue (entry ∷ [])) in
        (m, set_queue-Short n key (queue ++ (entry ∷ [])) p.idle_clients fits h)

both_true : (a b : Bool) → (a && b) ≡ true → (a ≡ true) × (b ≡ true)
both_true a b h = ground arith

history-Limited :
    (n : ℕ) (calls : List Call) → limits_within n calls ≡ true → Limited n (history calls).pool
unfolding step flush set_max_idle_per_endpoint set_idle_timeout
history-Limited n [] h = (ground arith, tt)
history-Limited n (acquire_call key probe ∷ calls) h =
    acquire-Limited n key probe (history calls).pool (history-Limited n calls h)
history-Limited n (release_call key c is_connected now ∷ calls) h =
    by_held (ltb 0 (times c (history calls).held)) (history-Limited n calls h)
  where
    w : World
    w = history calls

    by_held :
        (b : Bool)
        → Limited n w.pool
        → Limited n (if b then released key c is_connected now w else w).pool
    by_held true ih = release-Limited n key c is_connected now w.pool ih
    by_held false ih = ih
history-Limited n (flush_call ∷ calls) h = ((history-Limited n calls h).0, tt)
history-Limited n (max_idle_call m ∷ calls) h =
    let (small, rest) = both_true (leb m n) (limits_within n calls) h in
    (ground arith, (history-Limited n calls rest).1)
history-Limited n (timeout_call t ∷ calls) h = history-Limited n calls h

-- After any calls, no key has more idle clients than the largest limit that was ever set; a limit
-- that is lowered later takes none away.
idle_clients_limited :
    (n : ℕ) (calls : List Call) (key : PoolKey)
    → limits_within n calls ≡ true
    → length (queue_of key (history calls).pool.idle_clients) ≤ n
idle_clients_limited n calls key h =
    find_queue-Short n key (history calls).pool.idle_clients (history-Limited n calls h).1
