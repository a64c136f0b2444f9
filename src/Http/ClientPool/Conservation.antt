-- ===== src/Http/ClientPool/Conservation.antt =====
-- The histories of a pool and of the callers that have its clients: where a client can be.
use libnei.Common.{
  ℕ, ◌+◌, ◌<◌, ◌≡◌, refl, ap, sym, ◌∙◌, Bool, true, false, List, [], ◌∷◌, ◌++◌, Option, none, some,
  arith, ltb, ltb→lt, leb, ◌==◌, if◌then◌else◌, length, count,
}
use libnei.Http.ClientPool.{
  PoolKey, IdleEntry, Impl, new_pool, find_queue, set_queue, optional, queue_of, Probe, pop_loop,
  is_empty, make_client, reuse, acquire, release, all_clients, flush, set_max_idle_per_endpoint,
  set_idle_timeout,
}
use libnei.Http.ClientPool.Counts.{
  times, queued, pooled, found_times, times-append, clients_of-append, pooled-set_queue,
  pooled-store_queue, pop_loop-queued,
}

-- A call of one of the operations. A caller releases what it has: a call with another client is no
-- step.
pub data Call : Type 0 where
  acquire_call : PoolKey → Probe → Call
  release_call : PoolKey → ℕ → Bool → ℕ → Call
  flush_call : Call
  max_idle_call : ℕ → Call
  timeout_call : ℕ → Call

-- The pool, the clients that callers have, and those that were not connected any more when they
-- were released.
pub record World : Type 0 where
  pub pool : Impl
  pub held : List ℕ
  pub dropped : List ℕ

abbrev remove_one : ℕ → List ℕ → List ℕ
remove_one c [] = []
remove_one c (x ∷ xs) = let rest = remove_one c xs in if x == c then xs else x ∷ rest

abbrev taken_by_caller : World → ℕ × Impl → World
taken_by_caller w (c, p) = record w { pool = p; held = c ∷ w.held }

-- A caller releases a client that it has.
pub released : PoolKey → ℕ → Bool → ℕ → World → World
unfolding release
released key x is_connected now w = record w {
  pool = release key x is_connected now w.pool;
  held = remove_one x w.held;
  dropped = if is_connected then w.dropped else x ∷ w.dropped;
}

unfoldable pub step : World → Call → World
unfolding acquire released flush set_max_idle_per_endpoint set_idle_timeout
step w (acquire_call key probe) = taken_by_caller w (acquire key probe w.pool)
step w (release_call key c is_connected now) =
    if ltb 0 (times c w.held) then released key c is_connected now w else w
step w flush_call = record w { pool = flush w.pool }
step w (max_idle_call n) = record w { pool = set_max_idle_per_endpoint n w.pool }
step w (timeout_call t) = record w { pool = set_idle_timeout t w.pool }

abbrev pub start : World
start = record { pool = new_pool; held = []; dropped = [] }

-- The last call stands first.
abbrev pub history : List Call → World
history [] = start
history (call ∷ calls) = step (history calls) call

abbrev created : ℕ → ℕ → ℕ
created c next = if ltb c next then 1 else 0

-- In the pool, or closed by it.
abbrev inside : ℕ → Impl → ℕ
inside c p = pooled c p.idle_clients + times c p.closed

abbrev same : ℕ → ℕ → ℕ
same x c = if x == c then 1 else 0

make_client-created :
    (c : ℕ) (p : Impl)
    → let (x, q) = make_client p in
      (inside c q ≡ inside c p) × (same x c + created c p.next_client ≡ created c q.next_client)
unfolding make_client
make_client-created c p = (refl, ground arith)

-- What Acquire returns was in the pool or is new, and what it closes was in the pool.
Moved : ℕ → Impl → ℕ × Impl → Type 0
Moved c p (x, q) =
    same x c + inside c q + created c p.next_client ≡ inside c p + created c q.next_client

make_client-Moved : (c : ℕ) (p : Impl) → Moved c p (make_client p)
unfolding Moved
make_client-Moved c p = let (kept, new) = make_client-created c p in omega (arith, kept, new)

reuse-Moved :
    (c : ℕ) (key : PoolKey) (p : Impl) (r : Option ℕ × List IdleEntry × List ℕ)
    → let (found, left, dead) = r in
      found_times c found + queued c left + times c dead ≡ queued c (queue_of key p.idle_clients)
      → Moved c p (reuse key p r)
unfolding Moved make_client
reuse-Moved c key p (none, left, dead) e =
    ground (arith, e, pooled-store_queue c key left p.idle_clients, times-append c p.closed dead)
reuse-Moved c key p (some x, left, dead) e =
    omega (arith, e, pooled-store_queue c key left p.idle_clients, times-append c p.closed dead)

acquire-Moved : (c : ℕ) (key : PoolKey) (probe : Probe) (p : Impl) → Moved c p (acquire key probe p)
unfolding acquire
acquire-Moved c key probe p = by_queue (find_queue key p.idle_clients) refl
  where
    by_queue :
        (o : Option (List IdleEntry))
        → queue_of key p.idle_clients ≡ optional o
        → Moved c p (elim o [
          | none ↦ make_client p
          | some queue ↦
              if is_empty queue
              then make_client p
              else reuse key p (pop_loop p.idle_timeout probe queue)
        ])
    by_queue none e = make_client-Moved c p
    by_queue (some []) e = make_client-Moved c p
    by_queue (some (x ∷ queue)) e =
        reuse-Moved c key p (pop_loop p.idle_timeout probe (x ∷ queue))
          (pop_loop-queued c p.idle_timeout probe (x ∷ queue) ∙ ap (queued c) (sym e))

-- A client that is released is put into the pool, or closed, or was not connected.
release-inside :
    (c : ℕ) (key : PoolKey) (x : ℕ) (is_connected : Bool) (now : ℕ) (p : Impl)
    → let q = release key x is_connected now p in
      (inside c q ≡ inside c p + (if is_connected then same x c else 0))
      × (q.next_client ≡ p.next_client)
unfolding release count
release-inside c key x false now p = (omega arith, refl)
release-inside c key x true now p =
    by_room (leb p.max_idle_per_endpoint (length (queue_of key p.idle_clients)))
  where
    queue : List IdleEntry
    queue = queue_of key p.idle_clients

    by_room :
        (full : Bool)
        → let q =
            if full
            then record p {
              idle_clients = set_queue key queue p.idle_clients;
              closed = p.closed ++ (x ∷ []);
            }
            else record p {
              idle_clients =
                  set_queue key
                    (queue ++ (record { client = x; released_at = now } ∷ []))
                    p.idle_clients;
            } in
          (inside c q ≡ inside c p + same x c) × (q.next_client ≡ p.next_client)
    by_room true = (
      omega (arith, pooled-set_queue c key queue p.idle_clients, times-append c p.closed (x ∷ [])),
      refl,
    )
    by_room false = (
      omega (
        arith,
        pooled-set_queue c key (queue ++ (record { client = x; released_at = now } ∷ []))
            p.idle_clients,
        clients_of-append c queue (record { client = x; released_at = now }),
      ),
      refl,
    )

times-remove_one :
    (c x : ℕ) (xs : List ℕ) → 0 < times x xs → times c (remove_one x xs) + same x c ≡ times c xs
unfolding count
times-remove_one c x [] h = absurd (omega arith)
times-remove_one c x (y ∷ xs) h = ground (arith, times-remove_one c x xs)

-- Every client that was made is in exactly one place, once.
Placed : ℕ → World → Type 0
Placed c w = inside c w.pool + times c w.held + times c w.dropped ≡ created c w.pool.next_client

acquired-Placed :
    (c : ℕ) (w : World) (r : ℕ × Impl)
    → Moved c w.pool r
    → Placed c w
    → Placed c (taken_by_caller w r)
unfolding Placed Moved count
acquired-Placed c w (x, q) m h = omega (arith, m, h)

released-Placed :
    (c : ℕ) (key : PoolKey) (x : ℕ) (is_connected : Bool) (now : ℕ) (w : World)
    → 0 < times x w.held
    → Placed c w
    → Placed c (released key x is_connected now w)
unfolding Placed released count
released-Placed c key x true now w held h =
    let (moved, kept) = release-inside c key x true now w.pool in
    rw kept (omega (arith, moved, times-remove_one c x w.held held))
released-Placed c key x false now w held h =
    let (moved, kept) = release-inside c key x false now w.pool in
    rw kept (omega (arith, moved, times-remove_one c x w.held held))

flush-Placed : (c : ℕ) (w : World) → Placed c w → Placed c (record w { pool = flush w.pool })
unfolding Placed flush all_clients count
flush-Placed c w h = omega (arith, times-append c w.pool.closed (all_clients w.pool.idle_clients))

step-Placed : (c : ℕ) (w : World) (call : Call) → Placed c w → Placed c (step w call)
unfolding step
step-Placed c w (acquire_call key probe) h =
    acquired-Placed c w (acquire key probe w.pool) (acquire-Moved c key probe w.pool) h
step-Placed c w (release_call key x is_connected now) h =
    by_held (ltb 0 (times x w.held)) (ltb→lt 0 (times x w.held))
  where
    by_held :
        (b : Bool)
        → (b ≡ true → 0 < times x w.held)
        → Placed c (if b then released key x is_connected now w else w)
    by_held true held = released-Placed c key x is_connected now w (held refl) h
    by_held false held = h
step-Placed c w flush_call h = flush-Placed c w h
step-Placed c w (max_idle_call n) h = unfold Placed set_max_idle_per_endpoint in h
step-Placed c w (timeout_call t) h = unfold Placed set_idle_timeout in h

-- After any calls, a client that was made is in exactly one place, once: with a caller, idle in the
-- pool, closed by the pool, or dropped because it was not connected when it was released. So no
-- client is given to two callers, none is closed while a caller has it, and none is lost.
pub in_one_place :
    (c : ℕ) (calls : List Call)
    → let w = history calls in
      pooled c w.pool.idle_clients + times c w.pool.closed + times c w.held + times c w.dropped
      ≡ (if ltb c w.pool.next_client then 1 else 0)
unfolding Placed count all_clients
in_one_place c [] = ground arith
in_one_place c (call ∷ calls) = step-Placed c (history calls) call (in_one_place c calls)
