-- ===== src/Memory/Pool.antt =====
-- core/src/memory/memory_pool.cpp: `MemoryPool`. A pointer into the pool's memory is its distance from
-- the begin of it in bytes.
pub mod Shared
use dynaxis.Base.{
  ℕ, zero, suc, ◌+◌, ◌*◌, ◌%◌, Bool, true, false, not, ◌||◌, Option, none, some, List, [], ◌∷◌,
  if◌then◌else◌, ltb, leb, ◌==◌, length, u64,
}

-- `chunk` is the size of `memoryChunk_`, and the top of `free_list` its head. The product of the two
-- sizes wraps at 64 bits; where it does, the later blocks lie outside the memory, and the source has
-- no defined value for their addresses.
pub record MemoryPool : Type 0 where
  pub block_size : ℕ
  pub block_count : ℕ
  pub chunk : ℕ
  pub free_list : List ℕ

-- The loop that pushes the blocks: the last one is on top.
unfoldable pub blocks : ℕ → ℕ → List ℕ
blocks block_size zero = []
blocks block_size (suc i) = i * block_size ∷ blocks block_size i

unfoldable pub create : ℕ → ℕ → MemoryPool
create block_size block_count =
    if block_size == 0 || block_count == 0
    then record { block_size = block_size; block_count = 0; chunk = 0; free_list = [] }
    else record {
      block_size = block_size;
      block_count = block_count;
      chunk = u64 (block_size * block_count);
      free_list = blocks block_size block_count;
    }

unfoldable pub take_top : MemoryPool → List ℕ → Option ℕ × MemoryPool
take_top pool [] = (none, pool)
take_top pool (top ∷ rest) = (some top, record pool { free_list = rest })

unfoldable pub acquire : MemoryPool → Option ℕ × MemoryPool
acquire pool = take_top pool pool.free_list

-- `outside` is a pointer before the memory or behind it.
pub data Pointer : Type 0 where
  null outside : Pointer
  inside : ℕ → Pointer

unfoldable pub release_at : MemoryPool → ℕ → MemoryPool
release_at pool offset =
    if pool.chunk == 0 || (pool.block_size == 0 || pool.block_count == 0)
    then pool
    else if leb pool.chunk offset
    then pool
    else if not (offset % pool.block_size == 0)
    then pool
    else if leb pool.block_count (length pool.free_list)
    then pool
    else record pool { free_list = offset ∷ pool.free_list }

unfoldable pub release : MemoryPool → Pointer → MemoryPool
release pool Pointer.null = pool
release pool Pointer.outside = pool
release pool (Pointer.inside offset) = release_at pool offset
