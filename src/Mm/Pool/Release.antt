-- ===== src/Mm/Pool/Release.antt =====
-- Which header kfree of mm/pool.c reads.
use fynaos.Base.{ℕ, ◌+◌, ◌^◌, ◌<◌, ◌≡◌, refl, arith, true, false, ◌==◌, sub64, panicked}
use fynaos.Mm.Machine.{Machine, usable, load}
use fynaos.Mm.Pool.{kfree, is_block_used, block_data, block_size, pool_first, pool_next}

-- the pointer that `allocate` returns for the first block of a pool
abbrev pub first_data : ℕ → ℕ
first_data pool = block_data (pool_first pool)

header_read : (pool : ℕ) → pool + 48 < 2 ^ 64 → sub64 (first_data pool) block_size ≡ pool_next pool
header_read pool h = omega (arith, h)

not_null : (pool : ℕ) → pool + 48 < 2 ^ 64 → (first_data pool == 0) ≡ false
not_null pool h = ground (arith, h)

-- `sizeof(struct block)` is 32 and `data` is at offset 24, so for the first block of a pool kfree
-- takes the word at `pool->next` for its header. Where that is the last pool, kfree panics,
-- whatever the header of the block says.
pub kfree-panicked :
    (pool : ℕ) (s : Machine)
    → pool + 48 < 2 ^ 64
    → usable (pool_next pool) ≡ true
    → s.mem (pool_next pool) ≡ 0
    → kfree (first_data pool) s ≡ panicked
unfolding kfree is_block_used load
kfree-panicked pool s h readable last =
    rw (not_null pool h, header_read pool h, readable, last) refl
