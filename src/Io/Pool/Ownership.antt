-- ===== src/Io/Pool/Ownership.antt =====
-- Who owns a block: the pool's buckets, or one of the buffers in use.
use libnei.Common.{
  ℕ, ◌+◌, ◌-◌, ◌≤◌, ◌≡◌, ap, inl, inr, Bool, true, false, List, [], ◌∷◌, Option, none, some, arith,
  ltb, ◌==◌, if◌then◌else◌, count, max, length, drop, get_elem?, remove_at, count-remove_at,
  count-drop, Option-cases,
}
use libnei.Io.Pool.{
  Block, Bucket, IoBufferPool, PooledIoBuffer, new_pool, is_pooled_bucket, normalize_bucket_size,
  get_or_create_bucket, write_bucket, take_block, acquire_buffer, recycle_storage, release_buffer,
  set_bucket_limit_for_testing, purge_memory,
}
use libnei.Io.Pool.Buckets.{get_size, get-write, is_block, cached, cached-write, cached-cleared}

pub data PoolStep : Type 0 where
  acquire : ℕ → PoolStep
  -- The last reference to the buffer at a place of the list goes away.
  release : ℕ → PoolStep
  set_limit : ℕ → ℕ → PoolStep
  purge : PoolStep

-- The pool and the buffers in use.
pub record InUse : Type 0 where
  pub pool : IoBufferPool
  pub buffers : List PooledIoBuffer

abbrev pub nothing_in_use : InUse
nothing_in_use = record { pool = new_pool; buffers = [] }

unfoldable pub acquired : List PooledIoBuffer → PooledIoBuffer × IoBufferPool → InUse
acquired buffers (b, pool) = record { pool = pool; buffers = b ∷ buffers }

unfoldable pub released : ℕ → InUse → Option PooledIoBuffer → InUse
unfolding release_buffer
released n u none = u
released n u (some b) = record { pool = release_buffer u.pool b; buffers = remove_at n u.buffers }

unfoldable pub use_pool : PoolStep → InUse → InUse
unfolding acquire_buffer set_bucket_limit_for_testing acquired released
use_pool (acquire size) u = acquired u.buffers (acquire_buffer u.pool size)
use_pool (release n) u = released n u (get_elem? u.buffers n)
use_pool (set_limit bucket_size limit) u = record u {
  pool = set_bucket_limit_for_testing u.pool bucket_size limit;
}
use_pool purge u = record u { pool = purge_memory u.pool }

unfoldable pub used_pool : List PoolStep → InUse → InUse
unfolding use_pool
used_pool [] u = u
used_pool (s ∷ ss) u = used_pool ss (use_pool s u)

-- How often a block is in use.
abbrev has_block : ℕ → PooledIoBuffer → Bool
has_block id b = b.storage.id == id

abbrev pub held : ℕ → InUse → ℕ
held id u = cached id u.pool.buckets + count (has_block id) u.buffers

-- A block has one owner at most, and one that is not allocated yet has none.
abbrev pub IsOwned : ℕ → InUse → Type 0
IsOwned id u = held id u ≤ (if ltb id u.pool.next_id then 1 else 0)

abbrev pub bound : ℕ → IoBufferPool → ℕ
bound id pool = if ltb id pool.next_id then 1 else 0

abbrev one_if : Bool → ℕ
one_if b = if b then 1 else 0

take_block-IsOwned :
    (id n : ℕ) (pool : IoBufferPool) (blocks : List Block) (others : ℕ)
    → (get_or_create_bucket n pool.buckets).free_blocks ≡ blocks
    → cached id pool.buckets + others ≤ bound id pool
    → cached id (take_block n pool blocks).1.buckets
        + (one_if (is_block id (take_block n pool blocks).0) + others)
      ≤ bound id (take_block n pool blocks).1
unfolding take_block count
take_block-IsOwned id n pool [] others e h = ground arith
take_block-IsOwned id n pool (block ∷ blocks) others e h = omega (
  arith,
  h,
  ap (count (is_block id)) e,
  cached-write id n (record (get_or_create_bucket n pool.buckets) { free_blocks = blocks })
      pool.buckets,
)

-- `GetOrCreateBucket` adds an empty bucket at most.
created :
    (id n : ℕ) (bs : List Bucket)
    → cached id (write_bucket n (get_or_create_bucket n bs) bs) ≡ cached id bs
created id n bs = omega (arith, cached-write id n (get_or_create_bucket n bs) bs)

acquire-IsOwned : (id size : ℕ) (u : InUse) → IsOwned id u → IsOwned id (use_pool (acquire size) u)
unfolding use_pool acquired acquire_buffer count
acquire-IsOwned id size u h = by_class (is_pooled_bucket n)
  where
    n : ℕ
    n = normalize_bucket_size (max 1 size)

    bucket : Bucket
    bucket = get_or_create_bucket n u.pool.buckets

    pool : IoBufferPool
    pool = record (u.pool) { buckets = write_bucket n bucket u.pool.buckets }

    others : ℕ
    others = count (has_block id) u.buffers

    by_class :
        (pooled : Bool)
        → cached id
              (if pooled
                then take_block n pool bucket.free_blocks
                else take_block n u.pool []).1.buckets
            + (one_if (
                  is_block id
                    (if pooled
                      then take_block n pool bucket.free_blocks
                      else take_block n u.pool []).0)
                + others)
          ≤ bound id
              (if pooled then take_block n pool bucket.free_blocks else take_block n u.pool []).1
    by_class true =
        take_block-IsOwned id n pool bucket.free_blocks others
          (ap (λ b. b.free_blocks) (get-write n bucket u.pool.buckets (get_size n u.pool.buckets)))
          (omega (arith, h, created id n u.pool.buckets))
    by_class false = unfold take_block in ground (arith, h)

recycle-held :
    (id n : ℕ) (pool : IoBufferPool) (storage : Block)
    → cached id (recycle_storage pool n storage).buckets
      ≤ cached id pool.buckets + one_if (is_block id storage)
unfolding recycle_storage count
recycle-held id n pool storage =
    let bucket = get_or_create_bucket n pool.buckets in
    ground (
      arith,
      cached-write id n bucket pool.buckets,
      cached-write id n (record bucket { free_blocks = storage ∷ bucket.free_blocks }) pool.buckets,
    )

release-held :
    (id : ℕ) (pool : IoBufferPool) (b : PooledIoBuffer)
    → cached id (release_buffer pool b).buckets ≤ cached id pool.buckets + one_if (has_block id b)
unfolding release_buffer
release-held id pool b = ground (arith, recycle-held id b.capacity pool b.storage)

release-next_id :
    (pool : IoBufferPool) (b : PooledIoBuffer) → (release_buffer pool b).next_id ≡ pool.next_id
unfolding release_buffer recycle_storage
release-next_id pool b = ground arith

released-IsOwned :
    (id n : ℕ) (u : InUse) (b : PooledIoBuffer)
    → get_elem? u.buffers n ≡ some b
    → IsOwned id u
    → IsOwned id (released n u (some b))
unfolding released count
released-IsOwned id n u b e h = ground (
  arith,
  release-held id u.pool b,
  count-remove_at (has_block id) n u.buffers b e,
  release-next_id u.pool b,
)

use_pool-IsOwned : (id : ℕ) (s : PoolStep) (u : InUse) → IsOwned id u → IsOwned id (use_pool s u)
unfolding use_pool set_bucket_limit_for_testing
use_pool-IsOwned id (acquire size) u h = acquire-IsOwned id size u h
use_pool-IsOwned id (release n) u h = elim (Option-cases (get_elem? u.buffers n)) [
  | inl e ↦ rw e (unfold released in h)
  | inr (b, e) ↦ rw e (released-IsOwned id n u b e h)
]
use_pool-IsOwned id (set_limit n limit) u h =
    let bucket = get_or_create_bucket n u.pool.buckets in
    let kept = drop (length bucket.free_blocks - limit) bucket.free_blocks in
    omega (
      arith,
      h,
      cached-write id n (record bucket { max_cached_blocks = limit; free_blocks = kept })
          u.pool.buckets,
      count-drop (is_block id) (length bucket.free_blocks - limit) bucket.free_blocks,
    )
use_pool-IsOwned id purge u h = omega (arith, h, cached-cleared id u.pool.buckets)

-- However buffers are acquired and released, limits set and memory purged: no block has two owners,
-- be they buffers in use or the pool's buckets.
pub used_pool-IsOwned : (ss : List PoolStep) (id : ℕ) → IsOwned id (used_pool ss nothing_in_use)
unfolding used_pool cached count
used_pool-IsOwned ss id = from ss nothing_in_use (omega arith)
  where
    from : (ss : List PoolStep) (u : InUse) → IsOwned id u → IsOwned id (used_pool ss u)
    from [] u h = h
    from (s ∷ ss) u h = from ss (use_pool s u) (use_pool-IsOwned id s u h)
