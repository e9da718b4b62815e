-- ===== src/Mm/Boot/Tests.antt =====
-- The theorems on mm/boot.c at one region.
use fynaos.Base.{
  ℕ, ◌+◌, ◌%◌, ◌^◌, ◌≤◌, ◌<◌, ◌≡◌, refl, arith, if◌then◌else◌, ltb, u64, ok, panicked,
}
use fynaos.Base.Word.{align_up32}
use fynaos.Mm.Boot.{BootMemory, alloc_boot_memory, take_aligned}
use fynaos.Mm.Boot.Bounds.{aligned, alloc_boot_memory-cases, alloc_boot_memory-bounds}
use fynaos.Mm.Layout.{kernel_direct_base}

abbrev region : BootMemory
region = record { begin = 0x1000; tail = 0x1234; limit = 0x10_0000 }

abbrev used : BootMemory
used = record { begin = 0x1000; tail = 0x2064; limit = 0x10_0000 }

alloc_boot_memory-cases_example : alloc_boot_memory 100 (2 ^ 12) region ≡ (
    if ltb (aligned 12 0x1234 + 100) 0x10_0000
    then ok (
      u64 (aligned 12 0x1234 + kernel_direct_base),
      record region { tail = aligned 12 0x1234 + 100 },
    )
    else panicked)
alloc_boot_memory-cases_example = alloc_boot_memory-cases 12 100 region (omega arith) (omega arith)

hands_out : alloc_boot_memory 100 (2 ^ 12) region ≡ ok (0xFFFF800000002000, used)
unfolding alloc_boot_memory take_aligned align_up32
hands_out = refl

alloc_boot_memory-bounds_example :
    (at : ℕ) × (0xFFFF800000002000 ≡ u64 (at + kernel_direct_base))
    × (at % 2 ^ 12 ≡ 0)
    × (0x1234 ≤ at)
    × (at + 100 ≡ 0x2064)
    × (0x2064 < 0x10_0000)
    × (used.limit ≡ region.limit)
    × (used.begin ≡ region.begin)
alloc_boot_memory-bounds_example =
    alloc_boot_memory-bounds 12 100 0xFFFF800000002000 region used (omega arith) (omega arith)
      hands_out
