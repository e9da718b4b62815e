-- ===== src/Mm/Machine.antt =====
-- The state that the pool and the virtual memory manager of mm/ share: memory as 64-bit words, the
-- frame allocator, the interrupt flag and the globals. A word is accessed at an aligned address from
-- KERNEL_DIRECT_BASE up; any other access is a `fault`. The frame table is not part of `mem`.
use fynaos.Base.{
  ℕ, ◌+◌, ◌%◌, ◌^◌, Bool, false, ◌&&◌, ltb, leb, ◌==◌, if◌then◌else◌, update, u64, M, ok, panicked,
  fault, out_of_fuel,
}
use fynaos.Mm.Frames.{Frames}
use fynaos.Mm.Layout.{kernel_direct_base, page_size}

pub record Machine : Type 0 where
  pub frames : Frames
  pub mem : ℕ → ℕ
  -- whether interrupts are on, and the page table register
  pub interrupts : Bool
  pub cr3 : ℕ
  -- `pools` and `tail` of pool.c, `current_mm` and the address of `kernel_mm` of vmm.c
  pub pools : ℕ
  pub tail : ℕ
  pub current_mm : ℕ
  pub kernel_mm : ℕ

abbrev pub usable : ℕ → Bool
usable a = leb kernel_direct_base a && ltb a (2 ^ 64) && a % 8 == 0

unfoldable pub load : ℕ → M Machine ℕ
load a s = if usable a then ok (s.mem a, s) else fault

unfoldable pub store : ℕ → ℕ → M Machine (Unit {0})
store a v s = if usable a then ok (tt, record s { mem = update s.mem a v }) else fault

-- a run of the frame allocator
unfoldable pub on_frames : {A : Type 0} → M Frames A → M Machine A
on_frames m s = elim (m s.frames) [
  | ok (a, t) ↦ ok (a, record s { frames = t })
  | panicked ↦ panicked
  | fault ↦ fault
  | out_of_fuel ↦ out_of_fuel
]

-- `phys_to_virt`
unfoldable pub phys_to_virt : ℕ → ℕ
phys_to_virt phys = u64 (phys + kernel_direct_base)

-- `zero_page`: `memset` of the page in the direct map
unfoldable pub zero_page : ℕ → M Machine (Unit {0})
unfolding phys_to_virt
zero_page a s =
    let from = phys_to_virt a in
    if usable from && leb (from + page_size) (2 ^ 64)
    then ok
        (tt, record s { mem = λ x. if leb from x && ltb x (from + page_size) then 0 else s.mem x })
    else fault

-- `save_and_disable_interrupts` and `restore_interrupts`
unfoldable pub save_and_disable_interrupts : M Machine Bool
save_and_disable_interrupts s = ok (s.interrupts, record s { interrupts = false })

unfoldable pub restore_interrupts : Bool → M Machine (Unit {0})
restore_interrupts flags s = ok (tt, record s { interrupts = flags })
