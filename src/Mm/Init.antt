-- ===== src/Mm/Init.antt =====
-- mm/mm.c, and init_frames of mm/pmm.c: the boot allocator, the frame table and the free lists are
-- set up from the memory map. The bounds of the kernel image come from the linker.
pub mod Limits
pub mod Opened
pub mod Plan
pub mod Protected
pub mod Ready
pub mod Supplied
pub mod Table
mod Tests
use fynaos.Base.{
  ℕ, zero, suc, ◌+◌, ◌*◌, ◌/◌, ◌^◌, Bool, true, false, ◌&&◌, not, leb, ltb, ◌==◌, if◌then◌else◌,
  u64, bit_and, none, negsuc, List, [], ◌∷◌, align_up, invalid_address, M, Result, ok, panicked,
  fault, out_of_fuel, pure, panic, get, put, modify, ◌>>=◌, ◌>>◌, update,
}
use fynaos.Mm.Boot.{BootMemory, init_boot_alloc, alloc_boot_memory, get_boot_memory_tail}
use fynaos.Mm.Frames.{
  Frame, Frames, frame_reserved, set_frame, unreserve_frame_region, init_buddy_allocator,
}
use fynaos.Mm.Layout.{page_mask, page_shift, page_size}

-- `struct multiboot2_mmap_entry`
pub record Entry : Type 0 where
  pub addr : ℕ
  pub len : ℕ
  pub type : ℕ
  pub reserved : ℕ

-- the globals of boot.c and of pmm.c
pub record Memory : Type 0 where
  pub boot : BootMemory
  pub frames : Frames

-- `kernel_image_phys_start()` and `kernel_image_phys_end()`
pub record Image : Type 0 where
  pub start : ℕ
  pub end : ℕ

unfoldable pub in_boot : {A : Type 0} → M BootMemory A → M Memory A
in_boot m s = elim (m s.boot) [
  | ok (a, t) ↦ ok (a, record s { boot = t })
  | panicked ↦ panicked
  | fault ↦ fault
  | out_of_fuel ↦ out_of_fuel
]

unfoldable pub in_frames : {A : Type 0} → M Frames A → M Memory A
in_frames m s = elim (m s.frames) [
  | ok (a, t) ↦ ok (a, record s { frames = t })
  | panicked ↦ panicked
  | fault ↦ fault
  | out_of_fuel ↦ out_of_fuel
]

abbrev pub reserved_frame : Frame
reserved_frame = record { next = none; flags = frame_reserved; order = negsuc 0 }

-- the loop of `init_frames` at index `i`, with `rounds` left
unfoldable pub reserve_loop : ℕ → ℕ → M Frames (Unit {0})
unfolding set_frame
reserve_loop zero i = pure tt
reserve_loop (suc rounds) i = do set_frame i reserved_frame; reserve_loop rounds (i + 1)

-- `sizeof(struct frame)` is 16.
unfoldable pub init_frames : ℕ → M Memory Bool
unfolding in_boot in_frames reserve_loop alloc_boot_memory
init_frames limit = do
  let count = limit / 2 ^ page_shift
  table ← in_boot (alloc_boot_memory (u64 (count * 16)) 16)
  modify (λ s. record s { frames = record s.frames { count = count } })
  in_frames (reserve_loop count 0)
  pure (not (table == 0))

-- `len`, `boot_begin` and `boot_limit` of the search for the largest region
pub record Largest : Type 0 where
  pub len : ℕ
  pub begin : ℕ
  pub limit : ℕ

unfoldable pub find_largest : Largest → List Entry → Largest
find_largest best [] = best
find_largest best (e ∷ entries) =
    find_largest
      (if ltb best.len e.len && e.type == 1
        then record { len = e.len; begin = e.addr; limit = u64 (e.addr + e.len) }
        else best)
      entries

unfoldable pub find_ram_limit : ℕ → List Entry → ℕ
find_ram_limit ram_limit [] = ram_limit
find_ram_limit ram_limit (e ∷ entries) =
    let limit = u64 (e.addr + e.len) in
    find_ram_limit (if ltb ram_limit limit && e.type == 1 then limit else ram_limit) entries

unfoldable pub unreserve_entries : List Entry → M Memory (Unit {0})
unfolding in_frames unreserve_frame_region
unreserve_entries [] = pure tt
unreserve_entries (e ∷ entries) = do
  if e.type == 1
      then in_frames
          (unreserve_frame_region (e.addr / 2 ^ page_shift) (u64 (e.addr + e.len) / 2 ^ page_shift))
      else pure tt
  unreserve_entries entries

-- the start of a region behind the kernel image and behind what the boot allocator handed out
unfoldable pub free_begin : Image → ℕ → ℕ → ℕ → ℕ → ℕ → ℕ
free_begin image boot_begin boot_limit tail begin limit =
    let behind_image =
      if leb begin image.start && leb image.end limit
      then align_up image.end page_size
      else begin in
    if leb behind_image boot_begin && leb boot_limit limit
    then align_up tail page_size
    else behind_image

unfoldable pub free_entries : Image → ℕ → ℕ → List Entry → M Memory (Unit {0})
unfolding in_boot get_boot_memory_tail
free_entries image boot_begin boot_limit [] = pure tt
free_entries image boot_begin boot_limit (e ∷ entries) = do
  if e.type == 1
      then (do
        let limit = u64 (e.addr + e.len)
        tail ← in_boot get_boot_memory_tail
        in_frames (
            init_buddy_allocator
              (free_begin image boot_begin boot_limit tail e.addr limit / 2 ^ page_shift)
              (limit / 2 ^ page_shift)))
      else pure tt
  free_entries image boot_begin boot_limit entries

-- `init_kernel_mm` does nothing.
unfoldable pub init_memory : Image → List Entry → M Memory (Unit {0})
unfolding in_boot init_boot_alloc
init_memory image entries = do
  let best =
      find_largest (record { len = 0; begin = invalid_address; limit = invalid_address }) entries
  let inside = leb best.begin image.start && leb image.end best.limit
  let boot_begin = if inside then align_up image.end page_size else best.begin
  let ram_limit = find_ram_limit 0 entries
  if best.len == 0 then panic else do
    in_boot (init_boot_alloc boot_begin best.limit)
    if ram_limit == 0 then panic else do
      _ ← init_frames (bit_and ram_limit page_mask)
      unreserve_entries entries
      free_entries image boot_begin best.limit entries
