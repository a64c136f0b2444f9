-- ===== src/Io/Pool/Reuse.antt =====
-- What AcquireBuffer gives after a buffer was released, and the room that a buffer has.
use libnei.Common.{
  ℕ, ◌≤◌, ◌<◌, ◌≡◌, refl, sym, ap, ◌∙◌, Bool, true, false, List, [], ◌∷◌, arith, leb, if◌then◌else◌,
  max, length,
}
use libnei.Io.Pool.{
  Block, IoBufferPool, PooledIoBuffer, is_pooled_bucket, normalize_bucket_size,
  get_or_create_bucket, write_bucket, take_block, acquire_buffer, recycle_storage, release_buffer,
}
use libnei.Io.Pool.Buckets.{get_size, get-write}
use libnei.Io.Pool.Ownership.{PoolStep, nothing_in_use, used_pool}
use libnei.Io.Pool.Sizes.{acquire-Fits, used_pool-Fits}

normalize-le : (size : ℕ) → size ≤ normalize_bucket_size (max 1 size)
unfolding normalize_bucket_size
normalize-le size = ground arith

capacity_lem :
    (pool : IoBufferPool) (size : ℕ)
    → (acquire_buffer pool size).0.capacity ≡ normalize_bucket_size (max 1 size)
unfolding acquire_buffer
capacity_lem pool size = refl

-- However the pool was used: a buffer that is acquired has room for the bytes that were asked for.
acquire_buffer_fits :
    (ss : List PoolStep) (size : ℕ)
    → size ≤ (acquire_buffer (used_pool ss nothing_in_use).pool size).0.storage.size
acquire_buffer_fits ss size =
    let pool = (used_pool ss nothing_in_use).pool in
    let (fits, buckets) = acquire-Fits size pool (used_pool-Fits ss).0 in
    omega (arith, fits, capacity_lem pool size, normalize-le size)

-- What `AcquireBuffer` gives from a bucket that has a block.
acquire_cached :
    (pool : IoBufferPool) (n : ℕ) (block : Block) (blocks : List Block)
    → normalize_bucket_size (max 1 n) ≡ n
    → is_pooled_bucket n ≡ true
    → (get_or_create_bucket n pool.buckets).free_blocks ≡ block ∷ blocks
    → (acquire_buffer pool n).0 ≡ record { capacity = n; storage = block; recycles = true }
unfolding acquire_buffer take_block
acquire_cached pool n block blocks normal pooled free =
    ap of_size normal
    ∙ ap of_class pooled
    ∙ ap (λ l. record { capacity = n; storage = (take_block n created l).0; recycles = true }) free
  where
    created : IoBufferPool
    created = record pool {
      buckets = write_bucket n (get_or_create_bucket n pool.buckets) pool.buckets;
    }

    of_class : Bool → PooledIoBuffer
    of_class pooled = record {
      capacity = n;
      storage =
          (if pooled
            then take_block n created (get_or_create_bucket n pool.buckets).free_blocks
            else take_block n pool []).0;
      recycles = pooled;
    }

    of_size : ℕ → PooledIoBuffer
    of_size m = record {
      capacity = m;
      storage =
          (if is_pooled_bucket m
            then take_block m
                (record pool {
                  buckets = write_bucket m (get_or_create_bucket m pool.buckets) pool.buckets;
                })
                (get_or_create_bucket m pool.buckets).free_blocks
            else take_block m pool []).0;
      recycles = is_pooled_bucket m;
    }

normalize_page : (n : ℕ) → is_pooled_bucket n ≡ true → normalize_bucket_size (max 1 n) ≡ n
unfolding normalize_bucket_size
normalize_page n h = ground arith

-- The bucket after its block came back.
recycled :
    (pool : IoBufferPool) (n : ℕ) (storage : Block)
    → is_pooled_bucket n ≡ true
    → length (get_or_create_bucket n pool.buckets).free_blocks
      < (get_or_create_bucket n pool.buckets).max_cached_blocks
    → (get_or_create_bucket n (recycle_storage pool n storage).buckets).free_blocks
      ≡ storage ∷ (get_or_create_bucket n pool.buckets).free_blocks
unfolding recycle_storage
recycled pool n storage pooled room =
    let bucket = get_or_create_bucket n pool.buckets in
    let has_room : leb bucket.max_cached_blocks (length bucket.free_blocks) ≡ false =
      ground arith in
    rw (pooled, has_room)
      (ap (λ b. b.free_blocks)
        (get-write n (record bucket { free_blocks = storage ∷ bucket.free_blocks }) pool.buckets
          (get_size n pool.buckets)))

-- A buffer of one of the two page sizes that is released while its bucket has room is the next one
-- that is acquired for its size.
acquire-release :
    (pool : IoBufferPool) (b : PooledIoBuffer)
    → is_pooled_bucket b.capacity ≡ true
    → b.recycles ≡ true
    → length (get_or_create_bucket b.capacity pool.buckets).free_blocks
      < (get_or_create_bucket b.capacity pool.buckets).max_cached_blocks
    → (acquire_buffer (release_buffer pool b) b.capacity).0 ≡ b
acquire-release pool b pooled recycles room =
    acquire_cached (release_buffer pool b) b.capacity b.storage
      (get_or_create_bucket b.capacity pool.buckets).free_blocks (normalize_page b.capacity pooled)
      pooled
      (ap (λ p. (get_or_create_bucket b.capacity p.buckets).free_blocks) (releases recycles)
        ∙ recycled pool b.capacity b.storage pooled room)
    ∙ ap (λ r. record b { recycles = r }) (sym recycles)
  where
    releases : b.recycles ≡ true → release_buffer pool b ≡ recycle_storage pool b.capacity b.storage
    releases e =
        unfold release_buffer in
        ap (λ (r : Bool). if r then recycle_storage pool b.capacity b.storage else pool) e
