-- ===== src/Io/Pool/Sizes.antt =====
-- The sizes of the pool's blocks, and how many of them a bucket keeps.
use mathlib.Core.Path.{subst}
use libnei.Common.{
  ℕ, ◌-◌, ◌≤◌, ◌≡◌, refl, sym, ◌∙◌, inl, inr, Bool, true, false, List, [], ◌∷◌, arith, leb,
  if◌then◌else◌, Bool-cases, Option-cases, All, max, length, drop, length-drop, get_elem?, All-drop,
  All-remove_at, All-get_elem?,
}
use libnei.Io.Pool.{
  Block, Bucket, IoBufferPool, PooledIoBuffer, is_pooled_bucket, normalize_bucket_size, new_bucket,
  get_or_create_bucket, write_bucket, take_block, acquire_buffer, recycle_storage, release_buffer,
  set_bucket_limit_for_testing, cleared,
}
use libnei.Io.Pool.Buckets.{All-get, All-write, get_size, get-write}
use libnei.Io.Pool.Ownership.{
  PoolStep, acquire, release, set_limit, purge, InUse, nothing_in_use, acquired, released, use_pool,
  used_pool,
}

-- The blocks of a bucket have its size, and are not more than its limit.
abbrev BucketFits : Bucket → Type 0
BucketFits b =
    All (λ block. block.size ≡ b.block_size) b.free_blocks
    × (length b.free_blocks ≤ b.max_cached_blocks)

abbrev BufferFits : PooledIoBuffer → Type 0
BufferFits b = b.storage.size ≡ b.capacity

abbrev pub Fits : InUse → Type 0
Fits u = All BucketFits u.pool.buckets × All BufferFits u.buffers

new_bucket-BucketFits : (n : ℕ) → BucketFits (new_bucket n)
new_bucket-BucketFits n = (tt, omega arith)

found-BucketFits :
    (n : ℕ) (bs : List Bucket) → All BucketFits bs → BucketFits (get_or_create_bucket n bs)
found-BucketFits n bs h = All-get BucketFits n bs (new_bucket-BucketFits n) h

-- The block that is taken has the size of the bucket, and the rest still fits.
take_block-BucketFits :
    (n : ℕ) (pool : IoBufferPool) (blocks : List Block)
    → All BucketFits pool.buckets
    → All (λ block. block.size ≡ n) blocks
    → length blocks ≤ (get_or_create_bucket n pool.buckets).max_cached_blocks
    → ((take_block n pool blocks).0.size ≡ n) × All BucketFits (take_block n pool blocks).1.buckets
unfolding take_block
take_block-BucketFits n pool [] h sizes short = (refl, h)
take_block-BucketFits n pool (block ∷ blocks) h sizes short = (
  sizes.0,
  All-write BucketFits n (record (get_or_create_bucket n pool.buckets) { free_blocks = blocks })
      pool.buckets
      (
        subst (λ size. All (λ block. block.size ≡ size) blocks) (sym (get_size n pool.buckets))
            sizes.1,
        omega (arith, short),
      )
      h,
)

pub acquire-Fits :
    (size : ℕ) (pool : IoBufferPool)
    → All BucketFits pool.buckets
    → BufferFits (acquire_buffer pool size).0 × All BucketFits (acquire_buffer pool size).1.buckets
unfolding acquire_buffer
acquire-Fits size pool h = by_class (is_pooled_bucket n)
  where
    n : ℕ
    n = normalize_bucket_size (max 1 size)

    bucket : Bucket
    bucket = get_or_create_bucket n pool.buckets

    created : IoBufferPool
    created = record pool { buckets = write_bucket n bucket pool.buckets }

    found : BucketFits bucket
    found = found-BucketFits n pool.buckets h

    by_class :
        (pooled : Bool)
        → ((if pooled then take_block n created bucket.free_blocks else take_block n pool []).0.size
            ≡ n)
          × All BucketFits
              (if pooled
                then take_block n created bucket.free_blocks
                else take_block n pool []).1.buckets
    by_class true =
        take_block-BucketFits n created bucket.free_blocks
          (All-write BucketFits n bucket pool.buckets found h)
          (subst (λ size. All (λ block. block.size ≡ size) bucket.free_blocks)
            (get_size n pool.buckets) found.0)
          (subst (λ b. length bucket.free_blocks ≤ b.max_cached_blocks)
            (sym (get-write n bucket pool.buckets (get_size n pool.buckets))) found.1)
    by_class false = take_block-BucketFits n pool [] h tt (omega arith)

kept-BucketFits :
    (n : ℕ) (bucket : Bucket) (storage : Block)
    → bucket.block_size ≡ n
    → storage.size ≡ n
    → BucketFits bucket
    → BucketFits (
        if leb bucket.max_cached_blocks (length bucket.free_blocks)
        then bucket
        else record bucket { free_blocks = storage ∷ bucket.free_blocks })
kept-BucketFits n bucket storage e s h =
    elim (Bool-cases (leb bucket.max_cached_blocks (length bucket.free_blocks))) [
      | inl full ↦ rw full h
      | inr room ↦ rw room ((s ∙ sym e, h.0), ground (arith, room))
    ]

recycle-Fits :
    (pool : IoBufferPool) (n : ℕ) (storage : Block)
    → storage.size ≡ n
    → All BucketFits pool.buckets
    → All BucketFits (recycle_storage pool n storage).buckets
unfolding recycle_storage
recycle-Fits pool n storage s h = by_class (is_pooled_bucket n)
  where
    bucket : Bucket
    bucket = get_or_create_bucket n pool.buckets

    kept : Bucket
    kept =
        if leb bucket.max_cached_blocks (length bucket.free_blocks)
        then bucket
        else record bucket { free_blocks = storage ∷ bucket.free_blocks }

    by_class :
        (pooled : Bool)
        → All BucketFits
            (if pooled
              then record pool { buckets = write_bucket n kept pool.buckets }
              else pool).buckets
    by_class true =
        All-write BucketFits n kept pool.buckets
          (kept-BucketFits n bucket storage (get_size n pool.buckets) s
            (found-BucketFits n pool.buckets h))
          h
    by_class false = h

release-Fits :
    (pool : IoBufferPool) (b : PooledIoBuffer)
    → BufferFits b
    → All BucketFits pool.buckets
    → All BucketFits (release_buffer pool b).buckets
unfolding release_buffer
release-Fits pool b fits h = by_flag b.recycles
  where
    by_flag :
        (r : Bool)
        → All BucketFits (if r then recycle_storage pool b.capacity b.storage else pool).buckets
    by_flag true = recycle-Fits pool b.capacity b.storage fits h
    by_flag false = h

cleared-Fits : (bs : List Bucket) → All BucketFits (cleared bs)
cleared-Fits [] = tt
cleared-Fits (b ∷ bs) = ((tt, omega arith), cleared-Fits bs)

set_limit-Fits :
    (pool : IoBufferPool) (n limit : ℕ)
    → All BucketFits pool.buckets
    → All BucketFits (set_bucket_limit_for_testing pool n limit).buckets
unfolding set_bucket_limit_for_testing
set_limit-Fits pool n limit h =
    let bucket = get_or_create_bucket n pool.buckets in
    let cut = length bucket.free_blocks - limit in
    let found : BucketFits bucket = found-BucketFits n pool.buckets h in
    All-write BucketFits n
      (record bucket { max_cached_blocks = limit; free_blocks = drop cut bucket.free_blocks })
      pool.buckets
      (
        All-drop (λ block. block.size ≡ bucket.block_size) cut bucket.free_blocks found.0,
        omega (arith, length-drop cut bucket.free_blocks),
      )
      h

use_pool-Fits : (s : PoolStep) (u : InUse) → Fits u → Fits (use_pool s u)
unfolding use_pool acquired
use_pool-Fits (acquire size) u h =
    let (fits, buckets) = acquire-Fits size u.pool h.0 in (buckets, (fits, h.1))
use_pool-Fits (release n) u h = elim (Option-cases (get_elem? u.buffers n)) [
  | inl e ↦ rw e (unfold released in h)
  | inr (b, e) ↦ rw e (
      unfold released in
      (
        release-Fits u.pool b (All-get_elem? BufferFits n u.buffers b e h.1) h.0,
        All-remove_at BufferFits n u.buffers h.1,
      ))
]
use_pool-Fits (set_limit n limit) u h = (set_limit-Fits u.pool n limit h.0, h.1)
use_pool-Fits purge u h = (cleared-Fits u.pool.buckets, h.1)

-- However the pool is used: the blocks that a bucket keeps have its size, and are not more than its
-- limit, and every buffer in use has as many bytes as its capacity says.
pub used_pool-Fits : (ss : List PoolStep) → Fits (used_pool ss nothing_in_use)
unfolding used_pool
used_pool-Fits ss = from ss nothing_in_use (tt, tt)
  where
    from : (ss : List PoolStep) (u : InUse) → Fits u → Fits (used_pool ss u)
    from [] u h = h
    from (s ∷ ss) u h = from ss (use_pool s u) (use_pool-Fits s u h)
