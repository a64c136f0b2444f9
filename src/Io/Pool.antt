-- ===== src/Io/Pool.antt =====
-- `IOBufferPool` and `PooledIOBuffer` (src/neixx/io/io_buffer.cpp). A method holds the lock while it
-- works on the buckets, so it is one step.
pub mod Buckets
pub mod Ownership
pub mod Sizes
pub mod Reuse
use libnei.Common.{
  ℕ, zero, suc, ◌+◌, ◌-◌, ◌*◌, Bool, true, false, ◌||◌, List, [], ◌∷◌, ◌++◌, Option, none, some,
  ltb, leb, ◌==◌, if◌then◌else◌, length, take, drop, max,
}

abbrev pub page_4k : ℕ
page_4k = 4 * 1024

abbrev page_64k : ℕ
page_64k = 64 * 1024

abbrev pub is_pooled_bucket : ℕ → Bool
is_pooled_bucket block_size = block_size == page_4k || block_size == page_64k

abbrev default_bucket_limit : ℕ → ℕ
default_bucket_limit block_size =
    if block_size == page_4k then 256 else if block_size == page_64k then 64 else 0

-- An allocation of `size` bytes, known by a number.
pub record Block : Type 0 where
  pub id : ℕ
  pub size : ℕ

-- `free_blocks` with its back at the head of the list.
pub record Bucket : Type 0 where
  pub block_size : ℕ
  pub max_cached_blocks : ℕ
  pub free_blocks : List Block

-- The pool, and the number of the next allocation.
pub record IoBufferPool : Type 0 where
  pub buckets : List Bucket
  pub next_id : ℕ

-- `recycle_func_` is set for the blocks of a bucket.
pub record PooledIoBuffer : Type 0 where
  pub capacity : ℕ
  pub storage : Block
  pub recycles : Bool

abbrev pub new_pool : IoBufferPool
new_pool = record { buckets = []; next_id = 0 }

pub normalize_bucket_size : ℕ → ℕ
normalize_bucket_size requested_size =
    if leb requested_size page_4k
    then page_4k
    else if leb requested_size page_64k
    then page_64k
    else requested_size

abbrev pub new_bucket : ℕ → Bucket
new_bucket block_size = record {
  block_size = block_size;
  max_cached_blocks = default_bucket_limit block_size;
  free_blocks = [];
}

-- `GetOrCreateBucket`: the bucket that the reference leads to, and the buckets after a write through
-- it.
unfoldable pub get_or_create_bucket : ℕ → List Bucket → Bucket
get_or_create_bucket block_size [] = new_bucket block_size
get_or_create_bucket block_size (b ∷ bs) =
    let rest = get_or_create_bucket block_size bs in if b.block_size == block_size then b else rest

pub write_bucket : ℕ → Bucket → List Bucket → List Bucket
write_bucket block_size c [] = c ∷ []
write_bucket block_size c (b ∷ bs) =
    let rest = write_bucket block_size c bs in
    if b.block_size == block_size then c ∷ bs else b ∷ rest

-- The block that is taken from a bucket, and the pool after that; else one that is allocated.
pub take_block : ℕ → IoBufferPool → List Block → Block × IoBufferPool
unfolding get_or_create_bucket write_bucket
take_block n pool [] =
    (record { id = pool.next_id; size = n }, record pool { next_id = pool.next_id + 1 })
take_block n pool (block ∷ blocks) = (
  block,
  record pool {
    buckets =
        write_bucket n (record (get_or_create_bucket n pool.buckets) { free_blocks = blocks })
          pool.buckets;
  },
)

-- `AcquireBuffer`, whose `GetOrCreateBucket` may add a bucket.
pub acquire_buffer : IoBufferPool → ℕ → PooledIoBuffer × IoBufferPool
unfolding normalize_bucket_size take_block get_or_create_bucket write_bucket
acquire_buffer pool size =
    let n = normalize_bucket_size (max 1 size) in
    let bucket = get_or_create_bucket n pool.buckets in
    let taken =
      if is_pooled_bucket n
      then take_block n (record pool { buckets = write_bucket n bucket pool.buckets })
          bucket.free_blocks
      else take_block n pool [] in
    (record { capacity = n; storage = taken.0; recycles = is_pooled_bucket n }, taken.1)

-- `RecycleStorage`; a block that is not kept is freed.
pub recycle_storage : IoBufferPool → ℕ → Block → IoBufferPool
unfolding get_or_create_bucket write_bucket
recycle_storage pool block_size storage =
    let bucket = get_or_create_bucket block_size pool.buckets in
    let kept =
      if leb bucket.max_cached_blocks (length bucket.free_blocks)
      then bucket
      else record bucket { free_blocks = storage ∷ bucket.free_blocks } in
    if is_pooled_bucket block_size
    then record pool { buckets = write_bucket block_size kept pool.buckets }
    else pool

-- The destructor of `PooledIOBuffer`.
pub release_buffer : IoBufferPool → PooledIoBuffer → IoBufferPool
unfolding recycle_storage
release_buffer pool b = if b.recycles then recycle_storage pool b.capacity b.storage else pool

pub set_bucket_limit_for_testing : IoBufferPool → ℕ → ℕ → IoBufferPool
unfolding get_or_create_bucket write_bucket
set_bucket_limit_for_testing pool bucket_size max_cached_blocks =
    let bucket = get_or_create_bucket bucket_size pool.buckets in
    record pool {
      buckets =
          write_bucket bucket_size
            (record bucket {
              max_cached_blocks = max_cached_blocks;
              free_blocks = drop (length bucket.free_blocks - max_cached_blocks) bucket.free_blocks;
            })
            pool.buckets;
    }

abbrev pub cleared : List Bucket → List Bucket
cleared [] = []
cleared (b ∷ bs) = record b { free_blocks = [] } ∷ cleared bs

abbrev pub purge_memory : IoBufferPool → IoBufferPool
purge_memory pool = record pool { buckets = cleared pool.buckets }
