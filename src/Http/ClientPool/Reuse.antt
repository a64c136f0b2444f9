-- ===== src/Http/ClientPool/Reuse.antt =====
-- What Acquire returns, and that the keys do not meet.
use mathlib.Core.List.{append-nil}
use libnei.Common.{
  ℕ, suc, ◌≡◌, refl, ap, sym, ◌∙◌, inl, inr, ◌⊎◌, Bool, true, false, List, [], ◌∷◌, ◌++◌, Option,
  none, some, arith, leb, if◌then◌else◌, length, All, Bool-cases,
}
use libnei.Http.ClientPool.{
  PoolKey, key_equal, IdleEntry, IdleClients, Impl, find_queue, set_queue, erase_queue, optional,
  queue_of, Probe, is_reusable, pop_loop, is_empty, store_queue, make_client, reuse, acquire,
  release, clients_of,
}

-- The entries that Acquire does not reuse.
abbrev pub Unusable : ℕ → Probe → IdleEntry → Type 0
Unusable t probe e = is_reusable t probe e ≡ false

-- The loop stops at the first entry that can be reused, or closes all.
abbrev Popped : ℕ → Probe → List IdleEntry → Option ℕ × List IdleEntry × List ℕ → Type 0
Popped t probe queue r =
    ((dead : List IdleEntry) × (e : IdleEntry) × (rest : List IdleEntry) × (queue
        ≡ dead ++ e ∷ rest)
      × All (Unusable t probe) dead
      × (is_reusable t probe e ≡ true)
      × (r ≡ (some e.client, rest, clients_of dead)))
    ⊎ (All (Unusable t probe) queue × (r ≡ (none, [], clients_of queue)))

pop_loop-Popped :
    (t : ℕ) (probe : Probe) (queue : List IdleEntry) → Popped t probe queue (pop_loop t probe queue)
unfolding pop_loop
pop_loop-Popped t probe [] = inr (tt, refl)
pop_loop-Popped t probe (x ∷ queue) =
    by_test (is_reusable t probe x) refl (pop_loop t probe queue) (pop_loop-Popped t probe queue)
  where
    by_test :
        (b : Bool)
        → is_reusable t probe x ≡ b
        → (r : Option ℕ × List IdleEntry × List ℕ) → Popped t probe queue r
        → Popped t probe (x ∷ queue) (
            let (found, left, dead) = r in
            if b then (some x.client, queue, []) else (found, left, x.client ∷ dead))
    by_test true k r ih = inl ([], x, queue, refl, tt, k, refl)
    by_test false k r (inl (dead, e, rest, split, bad, good, same)) = inl (
      x ∷ dead,
      e,
      rest,
      ap (λ q. x ∷ q) split,
      (k, bad),
      good,
      ap (λ r. let (found, left, dead) = r in (found, left, x.client ∷ dead)) same,
    )
    by_test false k r (inr (bad, same)) =
        inr ((k, bad), ap (λ r. let (found, left, dead) = r in (found, left, x.client ∷ dead)) same)

-- A call of Acquire that reuses a client of the key's queue, and one that makes a client.
abbrev pub Reuses : PoolKey → Probe → Impl → List IdleEntry → ℕ × Impl → Type 0
Reuses key probe p queue r =
    (dead : List IdleEntry) × (e : IdleEntry) × (rest : List IdleEntry) × (queue ≡ dead ++ e ∷ rest)
    × All (Unusable p.idle_timeout probe) dead
    × (is_reusable p.idle_timeout probe e ≡ true)
    × (r ≡ (
      e.client,
      record p {
        idle_clients = store_queue key rest p.idle_clients;
        closed = p.closed ++ clients_of dead;
      },
    ))

abbrev pub Makes : PoolKey → Probe → Impl → List IdleEntry → ℕ × Impl → Type 0
Makes key probe p queue r =
    All (Unusable p.idle_timeout probe) queue
    × (r ≡ (
      p.next_client,
      record p {
        idle_clients = if is_empty queue then p.idle_clients else erase_queue key p.idle_clients;
        closed = p.closed ++ clients_of queue;
        next_client = suc p.next_client;
      },
    ))

-- With no idle client at all.
make_client-Makes :
    (key : PoolKey) (probe : Probe) (p : Impl) → Makes key probe p [] (make_client p)
unfolding make_client
make_client-Makes key probe p = (
  tt,
  ap (λ l. (p.next_client, record p { closed = l; next_client = suc p.next_client }))
      (sym (append-nil p.closed)),
)

reuse-cases :
    (key : PoolKey) (probe : Probe) (p : Impl) (x : IdleEntry) (queue : List IdleEntry)
    (r : Option ℕ × List IdleEntry × List ℕ)
    → Popped p.idle_timeout probe (x ∷ queue) r
    → Reuses key probe p (x ∷ queue) (reuse key p r) ⊎ Makes key probe p (x ∷ queue) (reuse key p r)
unfolding make_client store_queue
reuse-cases key probe p x queue r (inl (dead, y, rest, split, bad, good, same)) =
    inl (dead, y, rest, split, bad, good, ap (reuse key p) same)
reuse-cases key probe p x queue r (inr (bad, same)) = inr (bad, ap (reuse key p) same)

-- Acquire gives the first client of the key's queue that is connected, not expired and alive, leaves
-- those behind it in the queue and closes those before it; if there is none, it closes all and makes
-- a client.
pub acquire_lem :
    (key : PoolKey) (probe : Probe) (p : Impl)
    → let queue = queue_of key p.idle_clients in
      Reuses key probe p queue (acquire key probe p) ⊎ Makes key probe p queue (acquire key probe p)
unfolding acquire
acquire_lem key probe p = by_queue (find_queue key p.idle_clients)
  where
    result : Option (List IdleEntry) → ℕ × Impl
    result o = elim o [
      | none ↦ make_client p
      | some queue ↦
          if is_empty queue
          then make_client p
          else reuse key p (pop_loop p.idle_timeout probe queue)
    ]

    by_queue :
        (o : Option (List IdleEntry))
        → Reuses key probe p (optional o) (result o) ⊎ Makes key probe p (optional o) (result o)
    by_queue none = inr (make_client-Makes key probe p)
    by_queue (some []) = inr (make_client-Makes key probe p)
    by_queue (some (x ∷ queue)) =
        reuse-cases key probe p x queue (pop_loop p.idle_timeout probe (x ∷ queue))
          (pop_loop-Popped p.idle_timeout probe (x ∷ queue))

-- The entry of a key is not the entry of another.
module _ (key other : PoolKey) (apart : key_equal key other ≡ false) where
  keys_apart : (k : PoolKey) → key_equal k key ≡ true → key_equal k other ≡ false
  unfolding key_equal
  keys_apart k e = ground (arith, apart)

  find_queue-set_queue :
      (queue : List IdleEntry) (idle : IdleClients)
      → find_queue other (set_queue key queue idle) ≡ find_queue other idle
  unfolding find_queue set_queue
  find_queue-set_queue queue [] = ap (λ b. if b then some queue else none) apart
  find_queue-set_queue queue ((k, old) ∷ rest) = elim (Bool-cases (key_equal k key)) [
    | inl e ↦ rw (e, keys_apart k e) refl
    | inr e ↦
        rw e (ap (λ o. if key_equal k other then some old else o) (find_queue-set_queue queue rest))
  ]

  find_queue-erase_queue :
      (idle : IdleClients) → find_queue other (erase_queue key idle) ≡ find_queue other idle
  unfolding find_queue erase_queue
  find_queue-erase_queue [] = refl
  find_queue-erase_queue ((k, old) ∷ rest) = elim (Bool-cases (key_equal k key)) [
    | inl e ↦ rw (e, keys_apart k e) refl
    | inr e ↦
        rw e (ap (λ o. if key_equal k other then some old else o) (find_queue-erase_queue rest))
  ]

  find_queue-store_queue :
      (queue : List IdleEntry) (idle : IdleClients)
      → find_queue other (store_queue key queue idle) ≡ find_queue other idle
  unfolding store_queue
  find_queue-store_queue [] idle = find_queue-erase_queue idle
  find_queue-store_queue (e ∷ queue) idle = find_queue-set_queue (e ∷ queue) idle

  acquire_elsewhere :
      (probe : Probe) (p : Impl)
      → find_queue other (acquire key probe p).1.idle_clients ≡ find_queue other p.idle_clients
  acquire_elsewhere probe p = by_case (acquire_lem key probe p)
    where
      by_case :
          Reuses key probe p (queue_of key p.idle_clients) (acquire key probe p)
            ⊎ Makes key probe p (queue_of key p.idle_clients) (acquire key probe p)
          → find_queue other (acquire key probe p).1.idle_clients ≡ find_queue other p.idle_clients
      by_case (inl (dead, e, rest, split, bad, good, same)) =
          ap (λ r. find_queue other r.1.idle_clients) same
          ∙ find_queue-store_queue rest p.idle_clients
      by_case (inr (bad, same)) =
          ap (λ r. find_queue other r.1.idle_clients) same
          ∙ erased (is_empty (queue_of key p.idle_clients))
        where
          erased :
              (b : Bool)
              → find_queue other (if b then p.idle_clients else erase_queue key p.idle_clients)
                ≡ find_queue other p.idle_clients
          erased true = refl
          erased false = find_queue-erase_queue p.idle_clients

  release_elsewhere :
      (client : ℕ) (is_connected : Bool) (now : ℕ) (p : Impl)
      → find_queue other (release key client is_connected now p).idle_clients
        ≡ find_queue other p.idle_clients
  unfolding release
  release_elsewhere client false now p = refl
  release_elsewhere client true now p =
      by_room (leb p.max_idle_per_endpoint (length (queue_of key p.idle_clients)))
    where
      by_room :
          (full : Bool)
          → find_queue other
              (if full
                then record p {
                  idle_clients = set_queue key (queue_of key p.idle_clients) p.idle_clients;
                  closed = p.closed ++ (client ∷ []);
                }
                else record p {
                  idle_clients =
                      set_queue key
                        (queue_of key p.idle_clients
                          ++ (record { client = client; released_at = now } ∷ []))
                        p.idle_clients;
                }).idle_clients
            ≡ find_queue other p.idle_clients
      by_room true = find_queue-set_queue (queue_of key p.idle_clients) p.idle_clients
      by_room false =
          find_queue-set_queue
            (queue_of key p.idle_clients ++ (record { client = client; released_at = now } ∷ []))
            p.idle_clients

-- A call of Acquire or Release with one key leaves the idle clients of every other key alone, so a
-- client that was released with a key, an endpoint and an SSLContext, is given out with that key only.
other_keys_kept :
    (key other : PoolKey) (probe : Probe) (client : ℕ) (is_connected : Bool) (now : ℕ) (p : Impl)
    → key_equal key other ≡ false
    → (queue_of other (acquire key probe p).1.idle_clients ≡ queue_of other p.idle_clients)
      × (queue_of other (release key client is_connected now p).idle_clients
          ≡ queue_of other p.idle_clients)
other_keys_kept key other probe client is_connected now p apart = (
  ap optional (acquire_elsewhere key other apart probe p),
  ap optional (release_elsewhere key other apart client is_connected now p),
)
