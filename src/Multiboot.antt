-- ===== src/Multiboot.antt =====
-- The structures of include/multiboot2.h that the boot loader hands to the kernel.
use fynaos.Base.{ℕ, zero, suc, ◌+◌, ◌*◌, ◌/◌, ◌^◌, u8, u64, sub64, align_up}

-- `struct multiboot2_tag_framebuffer`, without the header of the tag
pub record FramebufferTag : Type 0 where
  pub addr : ℕ
  pub pitch : ℕ
  pub width : ℕ
  pub height : ℕ
  pub bpp : ℕ
  pub type : ℕ
  pub red_position : ℕ
  pub red_mask : ℕ
  pub green_position : ℕ
  pub green_mask : ℕ
  pub blue_position : ℕ
  pub blue_mask : ℕ

-- `MULTIBOOT2_LOADER_MAGIC`
abbrev pub loader_magic : ℕ
loader_magic = 0x36D76289

abbrev pub tag_end : ℕ
tag_end = 0

abbrev pub tag_memory_map : ℕ
tag_memory_map = 6

abbrev pub tag_framebuffer_information : ℕ
tag_framebuffer_information = 8

-- a number of `n` bytes in memory, the lowest first
unfoldable pub read_bytes : ℕ → (ℕ → ℕ) → ℕ → ℕ
read_bytes zero mem p = 0
read_bytes (suc n) mem p = u8 (mem p) + read_bytes n mem (p + 1) * 2 ^ 8

-- `MULTIBOOT2_FIRST_TAG`
abbrev pub first_tag : ℕ → ℕ
first_tag info = u64 (info + 8)

-- the `type` and the `size` of the header of a tag
abbrev pub tag_type : (ℕ → ℕ) → ℕ → ℕ
tag_type mem tag = read_bytes 4 mem tag

abbrev pub tag_size : (ℕ → ℕ) → ℕ → ℕ
tag_size mem tag = read_bytes 4 mem (tag + 4)

-- `MULTIBOOT2_NEXT_TAG`
unfoldable pub next_tag : (ℕ → ℕ) → ℕ → ℕ
next_tag mem tag = align_up (u64 (tag + tag_size mem tag)) 8

-- `MULTIBOOT2_MMAP_ENTRY_COUNT`, of the size and the entry size of the tag
unfoldable pub mmap_entry_count : ℕ → ℕ → ℕ
mmap_entry_count size entry_size = sub64 size 8 / entry_size

-- the fields of the framebuffer tag at their offsets
unfoldable pub framebuffer_tag : (ℕ → ℕ) → ℕ → FramebufferTag
unfolding read_bytes
framebuffer_tag mem tag = record {
  addr = read_bytes 8 mem (tag + 8);
  pitch = read_bytes 4 mem (tag + 16);
  width = read_bytes 4 mem (tag + 20);
  height = read_bytes 4 mem (tag + 24);
  bpp = read_bytes 1 mem (tag + 28);
  type = read_bytes 1 mem (tag + 29);
  red_position = read_bytes 1 mem (tag + 32);
  red_mask = read_bytes 1 mem (tag + 33);
  green_position = read_bytes 1 mem (tag + 34);
  green_mask = read_bytes 1 mem (tag + 35);
  blue_position = read_bytes 1 mem (tag + 36);
  blue_mask = read_bytes 1 mem (tag + 37);
}
