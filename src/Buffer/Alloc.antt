-- ===== src/Buffer/Alloc.antt =====
-- The C library's allocator, which framework/buffer.cpp calls.
use frame_work.Prelude.{ℕ, ◌<◌, ◌≤◌, ◌≡◌, List, Option, none, some, length, take}

-- NULL is `none`; a block is the list of its bytes. `realloc` of NULL is given the empty list.
pub record Allocator : Type 0 where
  pub malloc : ℕ → Option (List ℕ)
  pub realloc : List ℕ → ℕ → Option (List ℕ)

-- realloc has no memory for some block.
abbrev pub Refused : Allocator → Type 0
Refused a = (old : List ℕ) × (n : ℕ) × (0 < n) × (a.realloc old n ≡ none)

-- What the C standard says of a call that succeeds: the block has the size that was asked for,
-- and realloc keeps the bytes up to the smaller of the two sizes.
pub record IsLawful (a : Allocator) : Type 0 where
  pub malloc_size : (n : ℕ) (m : List ℕ) → a.malloc n ≡ some m → length m ≡ n
  pub realloc_size : (old : List ℕ) (n : ℕ) (m : List ℕ) → a.realloc old n ≡ some m → length m ≡ n
  pub realloc_keeps :
      (old : List ℕ) (n : ℕ) (m : List ℕ) (k : ℕ)
      → a.realloc old n ≡ some m
      → k ≤ length old
      → k ≤ n
      → take k m ≡ take k old
