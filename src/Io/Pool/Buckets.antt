-- ===== src/Io/Pool/Buckets.antt =====
-- What a write to one bucket does to a predicate of all the buckets, and to a count over their blocks.
use libnei.Common.{
  ℕ, ◌+◌, ◌≡◌, refl, inl, inr, Bool, List, [], ◌∷◌, arith, ◌==◌, Bool-cases, All, count,
}
use libnei.Io.Pool.{Block, Bucket, new_bucket, get_or_create_bucket, write_bucket, cleared}

-- A predicate of the buckets that a new one satisfies.
module _ (P : Bucket → Type 0) where
  pub All-get :
      (n : ℕ) (bs : List Bucket) → P (new_bucket n) → All P bs → P (get_or_create_bucket n bs)
  unfolding get_or_create_bucket
  All-get n [] new h = new
  All-get n (b ∷ bs) new h = elim (Bool-cases (b.block_size == n)) [
    | inl e ↦ rw e h.0
    | inr e ↦ rw e (All-get n bs new h.1)
  ]

  pub All-write :
      (n : ℕ) (c : Bucket) (bs : List Bucket) → P c → All P bs → All P (write_bucket n c bs)
  unfolding write_bucket
  All-write n c [] now h = (now, tt)
  All-write n c (b ∷ bs) now h = elim (Bool-cases (b.block_size == n)) [
    | inl e ↦ rw e (now, h.1)
    | inr e ↦ rw e (h.0, All-write n c bs now h.1)
  ]

-- The bucket that is found is the one of its size.
pub get_size : (n : ℕ) (bs : List Bucket) → (get_or_create_bucket n bs).block_size ≡ n
unfolding get_or_create_bucket
get_size n [] = refl
get_size n (b ∷ bs) = ground (arith, get_size n bs)

-- A bucket that was written is the one that is found.
pub get-write :
    (n : ℕ) (c : Bucket) (bs : List Bucket)
    → c.block_size ≡ n
    → get_or_create_bucket n (write_bucket n c bs) ≡ c
unfolding get_or_create_bucket write_bucket
get-write n c [] e = ground arith
get-write n c (b ∷ bs) e = ground (arith, get-write n c bs e)

abbrev pub is_block : ℕ → Block → Bool
is_block id block = block.id == id

-- How often a block is in the buckets.
unfoldable pub cached : ℕ → List Bucket → ℕ
cached id [] = 0
cached id (b ∷ bs) = count (is_block id) b.free_blocks + cached id bs

pub cached-write :
    (id n : ℕ) (c : Bucket) (bs : List Bucket)
    → cached id (write_bucket n c bs) + count (is_block id) (get_or_create_bucket n bs).free_blocks
      ≡ cached id bs + count (is_block id) c.free_blocks
unfolding get_or_create_bucket write_bucket cached count
cached-write id n c [] = omega arith
cached-write id n c (b ∷ bs) = elim (Bool-cases (b.block_size == n)) [
  | inl e ↦ rw e (omega arith)
  | inr e ↦ rw e (omega (arith, cached-write id n c bs))
]

pub cached-cleared : (id : ℕ) (bs : List Bucket) → cached id (cleared bs) ≡ 0
unfolding cached count
cached-cleared id [] = refl
cached-cleared id (b ∷ bs) = omega (arith, cached-cleared id bs)
