-- ===== src/Http/ClientPool.antt =====
-- HttpClientPool (src/neixx/net/http/http_client_pool.cpp). A client, an endpoint and an SSLContext
-- are known by numbers, and so is a time; a timeout that is negative does what 0 does. What a call
-- does under the lock is one step. `unordered_map` is the list of its entries, in any order.
pub mod Counts
pub mod Conservation
pub mod Reuse
pub mod Limits
use libnei.Common.{
  ℕ, suc, ◌+◌, ◌-◌, Bool, true, false, not, ◌&&◌, List, [], ◌∷◌, ◌++◌, map, Option, none, some, ltb,
  leb, ◌==◌, if◌then◌else◌, length,
}

pub record PoolKey : Type 0 where
  pub endpoint : ℕ
  pub ssl_ctx : ℕ

-- `operator==`
unfoldable pub key_equal : PoolKey → PoolKey → Bool
key_equal k o = k.endpoint == o.endpoint && k.ssl_ctx == o.ssl_ctx

pub record IdleEntry : Type 0 where
  pub client : ℕ
  pub released_at : ℕ

abbrev pub IdleClients : Type 0
IdleClients = List (PoolKey × List IdleEntry)

-- The pool; the clients that it has called Close on, in that order; and the number of the next
-- client that is made.
pub record Impl : Type 0 where
  pub idle_clients : IdleClients
  pub max_idle_per_endpoint : ℕ
  pub idle_timeout : ℕ
  pub closed : List ℕ
  pub next_client : ℕ

abbrev pub default_max_idle_per_endpoint : ℕ
default_max_idle_per_endpoint = 6

-- 30 seconds, in microseconds.
abbrev pub default_idle_timeout : ℕ
default_idle_timeout = 30_000_000

abbrev pub new_pool : Impl
new_pool = record {
  idle_clients = [];
  max_idle_per_endpoint = default_max_idle_per_endpoint;
  idle_timeout = default_idle_timeout;
  closed = [];
  next_client = 0;
}

-- The entry of a key: `find`, the assignment through `it->second`, and `erase`.
pub find_queue : PoolKey → IdleClients → Option (List IdleEntry)
unfolding key_equal
find_queue key [] = none
find_queue key ((k, queue) ∷ rest) = if key_equal k key then some queue else find_queue key rest

pub set_queue : PoolKey → List IdleEntry → IdleClients → IdleClients
unfolding key_equal
set_queue key queue [] = (key, queue) ∷ []
set_queue key queue ((k, old) ∷ rest) =
    if key_equal k key then (k, queue) ∷ rest else (k, old) ∷ set_queue key queue rest

pub erase_queue : PoolKey → IdleClients → IdleClients
unfolding key_equal
erase_queue key [] = []
erase_queue key ((k, old) ∷ rest) =
    if key_equal k key then rest else (k, old) ∷ erase_queue key rest

-- What a call of Acquire sees of each client when its turn comes: is_connected(), Peek(), and the
-- time then.
pub record Probe : Type 0 where
  pub is_connected : ℕ → Bool
  pub peek : ℕ → Bool
  pub now : ℕ → ℕ

pub is_expired : ℕ → Probe → IdleEntry → Bool
is_expired idle_timeout probe entry =
    ltb 0 idle_timeout && leb idle_timeout (probe.now entry.client - entry.released_at)

-- The test before an entry is reused.
pub is_reusable : ℕ → Probe → IdleEntry → Bool
unfolding is_expired
is_reusable idle_timeout probe entry =
    probe.is_connected entry.client
    && not (is_expired idle_timeout probe entry)
    && probe.peek entry.client

-- The loop of Acquire on the queue: the entry to reuse, if there is one, the queue that is left, and
-- the clients that are closed.
pub pop_loop : ℕ → Probe → List IdleEntry → Option ℕ × List IdleEntry × List ℕ
unfolding is_reusable
pop_loop idle_timeout probe [] = (none, [], [])
pop_loop idle_timeout probe (entry ∷ queue) =
    let (found, left, dead) = pop_loop idle_timeout probe queue in
    if is_reusable idle_timeout probe entry
    then (some entry.client, queue, [])
    else (found, left, entry.client ∷ dead)

abbrev is_empty : List IdleEntry → Bool
is_empty [] = true
is_empty (e ∷ es) = false

-- An empty queue is erased.
pub store_queue : PoolKey → List IdleEntry → IdleClients → IdleClients
unfolding set_queue erase_queue
store_queue key queue idle =
    if is_empty queue then erase_queue key idle else set_queue key queue idle

-- `new HttpClient()`
pub make_client : Impl → ℕ × Impl
make_client p = (p.next_client, record p { next_client = suc p.next_client })

-- The loop of Acquire where the key has a queue that is not empty.
abbrev pub reuse : PoolKey → Impl → Option ℕ × List IdleEntry × List ℕ → ℕ × Impl
reuse key p (found, left, dead) =
    let q = record p {
      idle_clients = store_queue key left p.idle_clients;
      closed = p.closed ++ dead;
    } in
    elim found [ none ↦ make_client q | some c ↦ (c, q) ]

unfoldable pub acquire : PoolKey → Probe → Impl → ℕ × Impl
unfolding find_queue pop_loop store_queue make_client
acquire key probe p = elim (find_queue key p.idle_clients) [
  | none ↦ make_client p
  | some queue ↦
      if is_empty queue then make_client p else reuse key p (pop_loop p.idle_timeout probe queue)
]

-- `idle_clients[key]`: a missing key gets an empty queue.
abbrev pub optional : Option (List IdleEntry) → List IdleEntry
optional none = []
optional (some queue) = queue

abbrev pub queue_of : PoolKey → IdleClients → List IdleEntry
queue_of key idle = optional (find_queue key idle)

-- Release of a client that is not null, which says whether it is connected, at a time.
unfoldable pub release : PoolKey → ℕ → Bool → ℕ → Impl → Impl
unfolding find_queue set_queue
release key client is_connected now p =
    let queue = queue_of key p.idle_clients in
    if not is_connected
    then p
    else if leb p.max_idle_per_endpoint (length queue)
    then record p {
      idle_clients = set_queue key queue p.idle_clients;
      closed = p.closed ++ (client ∷ []);
    }
    else record p {
      idle_clients =
          set_queue key (queue ++ (record { client = client; released_at = now } ∷ []))
            p.idle_clients;
    }

abbrev pub clients_of : List IdleEntry → List ℕ
clients_of [] = []
clients_of (e ∷ queue) = e.client ∷ clients_of queue

-- The two loops of Flush.
pub all_clients : IdleClients → List ℕ
all_clients [] = []
all_clients ((key, queue) ∷ rest) = clients_of queue ++ all_clients rest

pub flush : Impl → Impl
unfolding all_clients
flush p = record p { idle_clients = []; closed = p.closed ++ all_clients p.idle_clients }

pub set_max_idle_per_endpoint : ℕ → Impl → Impl
set_max_idle_per_endpoint max_count p = record p { max_idle_per_endpoint = max_count }

pub set_idle_timeout : ℕ → Impl → Impl
set_idle_timeout timeout p = record p { idle_timeout = timeout }
