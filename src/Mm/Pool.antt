-- ===== src/Mm/Pool.antt =====
-- mm/pool.c: kmalloc and kfree over pools of one page, each a doubly linked list of blocks.
-- Offsets are those of the structures: a pool is { len, usage, next, first }, a block is
-- { header, next, prev, data }; `sizeof(struct block)` is 32, with the padding after `data[1]`.
pub mod Interrupts
pub mod Release
pub mod Split
mod Tests
use fynaos.Base.{
  ℕ, zero, suc, ◌+◌, Bool, true, false, ◌&&◌, not, ltb, leb, ◌==◌, if◌then◌else◌, bit_and, bit_or,
  u64, sub64, not64, align_up, invalid_address, M, out_of_fuel, pure, panic, get, modify, ◌>>=◌,
  ◌>>◌, pos,
}
use fynaos.Mm.Frames.{alloc_frames}
use fynaos.Mm.Layout.{page_size}
use fynaos.Mm.Machine.{
  Machine, load, store, on_frames, phys_to_virt, zero_page, save_and_disable_interrupts,
  restore_interrupts,
}

abbrev pub block_used : ℕ
block_used = 0x8000000000000000

abbrev pub block_size : ℕ
block_size = 32

abbrev pub pool_size : ℕ
pool_size = 24

-- the addresses of the fields
abbrev pub block_next : ℕ → ℕ
block_next block = u64 (block + 8)

abbrev pub block_prev : ℕ → ℕ
block_prev block = u64 (block + 16)

abbrev pub block_data : ℕ → ℕ
block_data block = u64 (block + 24)

abbrev pub pool_usage : ℕ → ℕ
pool_usage pool = u64 (pool + 8)

abbrev pub pool_next : ℕ → ℕ
pool_next pool = u64 (pool + 16)

abbrev pub pool_first : ℕ → ℕ
pool_first pool = u64 (pool + 24)

unfoldable pub is_block_used : ℕ → Bool
is_block_used header = not (bit_and header block_used == 0)

unfoldable pub get_block_len : ℕ → ℕ
get_block_len header = bit_and header 0x7FFFFFFFFFFFFFFF

unfoldable pub divide : ℕ → ℕ → M Machine Bool
unfolding get_block_len load store
divide block data_len = do
  header ← load block
  if leb (get_block_len header) (u64 (data_len + block_size)) then pure false else do
    let block2 = u64 (block + data_len + block_size)
    next ← load (block_next block)
    store block2 (sub64 (get_block_len header) (u64 (data_len + block_size)))
    store block (u64 (data_len + block_size))
    store (block_next block) block2
    store (block_next block2) next
    store (block_prev block2) block
    if next == 0 then pure tt else store (block_prev next) block2
    pure true

unfoldable pub merge : ℕ → M Machine (Unit {0})
unfolding load store
merge first = do
  second ← load (block_next first)
  h ← load first
  h' ← load second
  store first (u64 (h + h'))
  next ← load (block_next second)
  store (block_next first) next
  after ← load (block_next second)
  if after == 0 then pure tt else store (block_prev after) first

-- The search of `allocate`; the result is 0 where the list ends. A page holds fewer than 512 blocks.
find_block : ℕ → ℕ → ℕ → M Machine ℕ
unfolding is_block_used get_block_len load
find_block fuel len zero = pure 0
find_block zero len (suc first) = λ _. out_of_fuel
find_block (suc fuel) len (suc first) = do
  header ← load (suc first)
  elim (not (is_block_used header) && leb (u64 (len + block_size)) (get_block_len header)) [
    | true ↦ pure (suc first)
    | false ↦ do next ← load (block_next (suc first)); find_block fuel len next
  ]

-- the rest of `allocate`, with the block that the search found
use_block : ℕ → ℕ → M Machine ℕ
unfolding divide is_block_used get_block_len load store
use_block len block = do
  header ← load block
  if is_block_used header then pure 0 else do
    if ltb len (sub64 (get_block_len header) block_size)
        then (do _ ← divide block len; pure tt)
        else pure tt
    h ← load block
    store block (bit_or h block_used)
    pure (block_data block)

abbrev pub pool_fuel : ℕ
pool_fuel = 512

unfoldable pub allocate : ℕ → ℕ → M Machine ℕ
unfolding find_block use_block
allocate first len = do
  block ← find_block pool_fuel (align_up len 16) first
  if block == 0 then pure 0 else use_block (align_up len 16) block

unfoldable pub kfree : ℕ → M Machine (Unit {0})
unfolding is_block_used merge load store
kfree addr = if addr == 0 then pure tt else do
  let block = sub64 addr block_size
  header ← load block
  if not (is_block_used header) then panic else do
    store block (bit_and header (not64 block_used))
    next ← load (block_next block)
    merge_next ← (if next == 0 then pure false else do h ← load next; pure (not (is_block_used h)))
    if merge_next then merge block else pure tt
    prev ← load (block_prev block)
    merge_prev ← (if prev == 0 then pure false else do h ← load prev; pure (not (is_block_used h)))
    if merge_prev then merge prev else pure tt

unfoldable pub init_single_pool : ℕ → ℕ → M Machine (Unit {0})
unfolding store
init_single_pool pool len = do
  store pool len
  store (pool_next pool) 0
  store (pool_usage pool) 0
  store (pool_first pool) (sub64 len pool_size)
  store (block_next (pool_first pool)) 0
  store (block_prev (pool_first pool)) 0

unfoldable pub extend_pool : M Machine Bool
unfolding init_single_pool phys_to_virt zero_page on_frames store
extend_pool = do
  page ← on_frames (alloc_frames (pos 0))
  if page == invalid_address then pure false else do
    zero_page page
    s ← get
    store (pool_next s.tail) (phys_to_virt page)
    init_single_pool (phys_to_virt page) page_size
    modify (λ s. record s { tail = phys_to_virt page })
    pure true

-- The loop of `kmalloc` over the pools; 0 is its `return NULL`. Each pool takes a frame, so there are
-- at most `count` of them.
kmalloc_loop : ℕ → ℕ → ℕ → M Machine (ℕ × Bool)
kmalloc_loop zero len pool = λ _. out_of_fuel
kmalloc_loop (suc fuel) len pool = do
  addr ← allocate (pool_first pool) len
  elim (addr == 0) [
    | false ↦ pure (addr, true)
    | true ↦ do
      next ← load (pool_next pool)
      extended ← (if next == 0 then extend_pool else pure true)
      elim extended [
        | false ↦ pure (0, false)
        | true ↦ do next' ← load (pool_next pool); kmalloc_loop fuel len next'
      ]
  ]

-- `return NULL` leaves at once: the saved flags are restored only behind the loop.
unfoldable pub kmalloc : ℕ → M Machine ℕ
unfolding kmalloc_loop allocate extend_pool load save_and_disable_interrupts restore_interrupts
kmalloc len = do
  flags ← save_and_disable_interrupts
  s ← get
  (addr, found) ← kmalloc_loop (s.frames.count + 2) len s.pools
  if found then (do restore_interrupts flags; pure addr) else pure addr

unfoldable pub init_pool : M Machine Bool
unfolding init_single_pool phys_to_virt zero_page on_frames
init_pool = do
  page ← on_frames (alloc_frames (pos 0))
  if page == invalid_address then pure false else do
    zero_page page
    modify (λ s. record s { pools = phys_to_virt page; tail = phys_to_virt page })
    init_single_pool (phys_to_virt page) page_size
    pure true
