-- ===== src/Mm/Boot.antt =====
-- mm/boot.c: the allocator of the boot phase, which only moves a tail up.
pub mod Bounds
mod Tests
use fynaos.Base.{ℕ, ◌+◌, M, panic, if◌then◌else◌, leb, u64, align_up32, ok, Result, ◌≡◌}
use fynaos.Mm.Layout.{kernel_direct_base}

-- `boot_begin`, `boot_tail` and `boot_limit`
pub record BootMemory : Type 0 where
  pub begin : ℕ
  pub tail : ℕ
  pub limit : ℕ

unfoldable pub init_boot_alloc : ℕ → ℕ → M BootMemory (Unit {0})
init_boot_alloc begin limit _ = ok (tt, record { begin = begin; tail = begin; limit = limit })

-- The length test after the tail is aligned, and the pointer into the direct map.
take_aligned : ℕ → ℕ → M BootMemory ℕ
take_aligned at len s =
    if leb s.limit (u64 (at + len))
    then panic s
    else ok (u64 (at + kernel_direct_base), record s { tail = u64 (at + len) })

unfoldable pub alloc_boot_memory : ℕ → ℕ → M BootMemory ℕ
unfolding take_aligned
alloc_boot_memory len align s = take_aligned (align_up32 s.tail align) len s

unfoldable pub get_boot_memory_tail : M BootMemory ℕ
get_boot_memory_tail s = ok (s.tail, s)
