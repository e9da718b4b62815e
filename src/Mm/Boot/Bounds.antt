-- ===== src/Mm/Boot/Bounds.antt =====
-- What alloc_boot_memory of mm/boot.c hands out, where the sums stay below 2^64.
use native.Mathlib.Nat.{mul-mod_left, lt-div-mul-add, div-mul-le_self}
use fynaos.Base.{
  ℕ, ◌+◌, ◌-◌, ◌*◌, ◌/◌, ◌%◌, ◌^◌, ◌≤◌, ◌<◌, ◌≡◌, arith, if◌then◌else◌, ltb, u64, ok, panicked,
}
use fynaos.Base.Bits.{align_up32_pow, pow-pos}
use fynaos.Mm.Layout.{kernel_direct_base}
use fynaos.Mm.Boot.{BootMemory, alloc_boot_memory, take_aligned}

-- the next multiple of `2^k`
abbrev pub aligned : ℕ → ℕ → ℕ
aligned k x = (x + (2 ^ k - 1)) / 2 ^ k * 2 ^ k

pub aligned_bounds :
    (k x : ℕ) → (x ≤ aligned k x) × (aligned k x < x + 2 ^ k) × (aligned k x % 2 ^ k ≡ 0)
aligned_bounds k x = (
  omega (arith, lt-div-mul-add {a = x + (2 ^ k - 1)} (pow-pos k), pow-pos k),
  omega (arith, div-mul-le_self (x + (2 ^ k - 1)) (2 ^ k), pow-pos k),
  mul-mod_left _ _,
)

take_aligned-cases :
    (at len : ℕ) (s : BootMemory)
    → at + len < 2 ^ 64
    → take_aligned at len s ≡ (
        if ltb (at + len) s.limit
        then ok (u64 (at + kernel_direct_base), record s { tail = at + len })
        else panicked)
unfolding take_aligned
take_aligned-cases at len s h = ground arith

-- An allocation at a power of two up to 2^31, where the sums do not pass 2^64, takes the next
-- aligned address and moves the tail behind it, and it panics exactly when that would reach the
-- limit.
pub alloc_boot_memory-cases :
    (k len : ℕ) (s : BootMemory)
    → k ≤ 31
    → s.tail + 2 ^ k + len ≤ 2 ^ 64
    → alloc_boot_memory len (2 ^ k) s ≡ (
        if ltb (aligned k s.tail + len) s.limit
        then ok (
          u64 (aligned k s.tail + kernel_direct_base),
          record s { tail = aligned k s.tail + len },
        )
        else panicked)
unfolding alloc_boot_memory
alloc_boot_memory-cases k len s hk h =
    rw (align_up32_pow k s.tail (omega arith) (omega arith))
      (take_aligned-cases (aligned k s.tail) len s (omega (arith, aligned_bounds k s.tail)))

-- A block that is handed out at a power of two up to 2^31, where the sums do not pass 2^64, starts
-- at an aligned address that was not handed out before, ends below the limit, and is wholly below
-- the new tail; the bounds of the region stay.
pub alloc_boot_memory-bounds :
    (k len addr : ℕ) (s s' : BootMemory)
    → k ≤ 31
    → s.tail + 2 ^ k + len ≤ 2 ^ 64
    → alloc_boot_memory len (2 ^ k) s ≡ ok (addr, s')
    → (at : ℕ) × (addr ≡ u64 (at + kernel_direct_base))
      × (at % 2 ^ k ≡ 0)
      × (s.tail ≤ at)
      × (at + len ≡ s'.tail)
      × (s'.tail < s'.limit)
      × (s'.limit ≡ s.limit)
      × (s'.begin ≡ s.begin)
alloc_boot_memory-bounds k len addr s s' hk h e = (
  aligned k s.tail,
  ground (arith, alloc_boot_memory-cases k len s hk h),
  (aligned_bounds k s.tail).2,
  (aligned_bounds k s.tail).0,
  ground (arith, alloc_boot_memory-cases k len s hk h),
  ground (arith, alloc_boot_memory-cases k len s hk h),
  ground (arith, alloc_boot_memory-cases k len s hk h),
  ground (arith, alloc_boot_memory-cases k len s hk h),
)
