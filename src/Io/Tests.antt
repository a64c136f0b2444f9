-- ===== src/Io/Tests.antt =====
-- Runs of the buffers on concrete sizes, and the theorems at concrete inputs.
use libnei.Common.{◌+◌, ◌-◌, ◌≡◌, min, refl, true, List, [], ◌∷◌, some, count}
use libnei.Io.Drainable.{new_drainable, drained, bytes_consumed, bytes_remaining, drained_lem}
use libnei.Io.Pool.{page_4k}
use libnei.Io.Pool.Buckets.{cached}
use libnei.Io.Pool.Ownership.{
  PoolStep, acquire, release, set_limit, nothing_in_use, used_pool, IsOwned, used_pool-IsOwned,
}
use libnei.Io.Pool.Sizes.{Fits, used_pool-Fits}

-- More is consumed than there is.
drained_lem_example :
    (bytes_consumed (drained (new_drainable (some 1_000) 10) (4 ∷ 9 ∷ [])) ≡ min 10 13)
    × (bytes_remaining (drained (new_drainable (some 1_000) 10) (4 ∷ 9 ∷ [])) ≡ 10 - 13)
    × ((drained (new_drainable (some 1_000) 10) (4 ∷ 9 ∷ [])).address ≡ some (1_000 + min 10 13))
drained_lem_example = drained_lem 1_000 10 (4 ∷ 9 ∷ [])

-- Two buffers, of which the first goes back and is handed out again.
abbrev uses : List PoolStep
uses = acquire 100 ∷ acquire 5_000 ∷ release 1 ∷ acquire 4_096 ∷ []

uses_buffers :
    (used_pool uses nothing_in_use).buffers
    ≡ record { capacity = 4_096; storage = record { id = 0; size = 4_096 }; recycles = true }
      ∷ record { capacity = 65_536; storage = record { id = 1; size = 65_536 }; recycles = true }
      ∷ []
unfolding used_pool
uses_buffers = refl

-- A buffer that is larger than a page is not kept.
large_is_freed :
    cached 0 (used_pool (acquire 70_000 ∷ release 0 ∷ []) nothing_in_use).pool.buckets ≡ 0
unfolding used_pool cached
large_is_freed = refl

limit_cuts :
    cached 0
      (used_pool (acquire 1 ∷ release 0 ∷ set_limit page_4k 0 ∷ []) nothing_in_use).pool.buckets
    ≡ 0
unfolding used_pool cached count
limit_cuts = refl

used_pool-IsOwned_example : IsOwned 0 (used_pool uses nothing_in_use)
used_pool-IsOwned_example = used_pool-IsOwned uses 0

used_pool-Fits_example : Fits (used_pool uses nothing_in_use)
used_pool-Fits_example = used_pool-Fits uses
