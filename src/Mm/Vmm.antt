-- ===== src/Mm/Vmm.antt =====
-- mm/vmm.c: four levels of page tables in the direct map, and the address spaces made of them. A
-- `struct mm` holds the physical address of its top table.
pub mod Path
pub mod Mapping
mod Tests
use fynaos.Base.{
  ℕ, zero, suc, ◌+◌, ◌-◌, ◌*◌, ◌/◌, ◌%◌, ◌^◌, Bool, true, false, ◌&&◌, ◌||◌, not, ltb, leb, ◌==◌,
  if◌then◌else◌, bit_and, bit_or, u64, not64, invalid_address, Option, none, some, M, ok, pure, get,
  modify, ◌>>=◌, ◌>>◌, pos,
}
use fynaos.Mm.Frames.{alloc_frames, free_frame}
use fynaos.Mm.Layout.{page_mask}
use fynaos.Mm.Machine.{Machine, load, store, on_frames, phys_to_virt, zero_page}
use fynaos.Mm.Pool.{kmalloc, kfree}

abbrev pub page_present : ℕ
page_present = 1

-- PAGE_PRESENT | PAGE_WRITABLE | PAGE_USER
abbrev pub table_attr : ℕ
table_attr = 7

-- `~0xFFFULL`
abbrev pub entry_mask : ℕ
entry_mask = not64 0xFFF

unfoldable pub pml4_index : ℕ → ℕ
pml4_index addr = bit_and (addr / 2 ^ 39) 0x1FF

unfoldable pub pdpt_index : ℕ → ℕ
pdpt_index addr = bit_and (addr / 2 ^ 30) 0x1FF

unfoldable pub pd_index : ℕ → ℕ
pd_index addr = bit_and (addr / 2 ^ 21) 0x1FF

unfoldable pub pt_index : ℕ → ℕ
pt_index addr = bit_and (addr / 2 ^ 12) 0x1FF

unfoldable pub page_offset : ℕ → ℕ
page_offset addr = bit_and addr 0xFFF

-- the address of an entry of the table at a physical address
abbrev pub entry_at : ℕ → ℕ → ℕ
entry_at table index = u64 (phys_to_virt table + 8 * index)

abbrev pub is_present : ℕ → Bool
is_present entry = not (bit_and entry page_present == 0)

-- `if (!(p[i] & PAGE_PRESENT)) return INVALID_ADDRESS;` and the table that the entry names
unfoldable pub walk : ℕ → ℕ → M Machine (Option ℕ)
unfolding load phys_to_virt
walk table index = do
  entry ← load (entry_at table index)
  if is_present entry then pure (some (bit_and entry page_mask)) else pure none

-- a step of a lookup that ends early at an entry that is not present
unfoldable pub lookup : Option ℕ → (ℕ → M Machine ℕ) → M Machine ℕ
lookup none next = pure invalid_address
lookup (some table) next = next table

unfoldable pub virt_to_phys : ℕ → ℕ → M Machine ℕ
unfolding walk lookup load pml4_index pdpt_index pd_index pt_index page_offset
virt_to_phys mm virt = do
  pml4 ← load mm
  pdpt ← walk (bit_and pml4 page_mask) (pml4_index virt)
  lookup pdpt λ pdpt. do
    pd ← walk pdpt (pdpt_index virt)
    lookup pd λ pd. do
      pt ← walk pd (pd_index virt)
      lookup pt λ pt. do
        frame ← walk pt (pt_index virt)
        lookup frame λ frame. pure (u64 (frame + page_offset virt))

-- The table below an entry, made of a new frame where there is none. The frame is not tested.
unfoldable pub table_below : ℕ → ℕ → M Machine ℕ
unfolding load store on_frames zero_page phys_to_virt
table_below table index = do
  entry ← load (entry_at table index)
  if is_present entry then pure tt else do
    frame ← on_frames (alloc_frames (pos 0))
    store (entry_at table index) frame
    zero_page frame
    entry' ← load (entry_at table index)
    store (entry_at table index) (bit_or entry' table_attr)
  entry'' ← load (entry_at table index)
  pure (bit_and entry'' entry_mask)

unfoldable pub map_page : ℕ → ℕ → ℕ → ℕ → M Machine Bool
unfolding table_below load store pml4_index pdpt_index pd_index pt_index
map_page mm frame page attr = do
  pml4 ← load mm
  pdpt ← table_below pml4 (pml4_index page)
  pd ← table_below pdpt (pdpt_index page)
  pt ← table_below pd (pd_index page)
  entry ← load (entry_at pt (pt_index page))
  if is_present entry
      then pure false
      else do store (entry_at pt (pt_index page)) (bit_or frame attr); pure true

unfoldable pub unmap_page : ℕ → ℕ → M Machine ℕ
unfolding walk lookup load store pml4_index pdpt_index pd_index pt_index
unmap_page mm page = do
  pml4 ← load mm
  pdpt ← walk pml4 (pml4_index page)
  lookup pdpt λ pdpt. do
    pd ← walk pdpt (pdpt_index page)
    lookup pd λ pd. do
      pt ← walk pd (pd_index page)
      lookup pt λ pt. do
        phys ← walk pt (pt_index page)
        lookup phys λ phys. do store (entry_at pt (pt_index page)) 0; pure phys

-- the loop over the upper half, with `rounds` entries left, the last at 511
copy_entries : ℕ → ℕ → ℕ → M Machine (Unit {0})
copy_entries zero user kernel = pure tt
copy_entries (suc rounds) user kernel = do
  entry ← load (entry_at kernel (511 - rounds))
  store (entry_at user (511 - rounds)) entry
  copy_entries rounds user kernel

unfoldable pub map_kernel_for_user_mm : ℕ → M Machine (Unit {0})
unfolding copy_entries load store
map_kernel_for_user_mm mm = do
  user ← load mm
  s ← get
  kernel ← load s.kernel_mm
  copy_entries 256 user kernel

-- `sizeof(struct mm)` is 8; NULL is 0.
unfoldable pub create_mm : M Machine ℕ
unfolding on_frames zero_page store
create_mm = do
  pml4 ← on_frames (alloc_frames (pos 0))
  if pml4 == invalid_address then pure 0 else do
    mm ← kmalloc 8
    if mm == 0
        then (do on_frames (free_frame pml4); pure 0)
        else do zero_page pml4; store mm pml4; pure mm

unfoldable pub swap_mm : ℕ → M Machine (Unit {0})
unfolding load
swap_mm mm = do
  s ← get
  if mm == 0 || s.current_mm == mm then pure tt else do
    modify (λ s. record s { current_mm = mm })
    pml4 ← load mm
    modify (λ s. record s { cr3 = pml4 })

-- The loop of `free_page_table` over the entries; `below` frees what a present entry names.
free_entries : (ℕ → M Machine (Unit {0})) → ℕ → ℕ → M Machine (Unit {0})
free_entries below table zero = pure tt
free_entries below table (suc rounds) = do
  entry ← load (entry_at table (511 - rounds))
  if is_present entry then below (bit_and entry page_mask) else pure tt
  free_entries below table rounds

free_page_table : ℕ → ℕ → M Machine (Unit {0})
unfolding free_entries
free_page_table zero table = do
  free_entries (λ child. on_frames (free_frame child)) table 512
  on_frames (free_frame table)
free_page_table (suc level) table = do
  free_entries (free_page_table level) table 512
  on_frames (free_frame table)

unfoldable pub delete_mm : ℕ → M Machine (Unit {0})
unfolding free_page_table load on_frames
delete_mm mm = do pml4 ← load mm; free_page_table 3 pml4; kfree mm
