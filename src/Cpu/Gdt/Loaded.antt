-- ===== src/Cpu/Gdt/Loaded.antt =====
-- What init_gdt of cpu/gdt.c leaves in the tables and in the registers.
use fynaos.Base.{ℕ, ◌+◌, ◌*◌, ◌/◌, ◌%◌, ◌^◌, ◌<◌, ◌≡◌, ◌∙◌, refl, arith, bit_and, Returns, returns}
use fynaos.Base.Bits.{and_mask}
use fynaos.Cpu.Gdt.{
  Segments, Addresses, make_gdte, make_system_gdte_high, make_segment_selector, initial_gdt,
  init_gdt,
}
use fynaos.Cpu.Gdt.Descriptors.{IsSegment, make_gdte-IsSegment}

-- the descriptor that a selector names
abbrev pub selected : Segments → ℕ → ℕ
selected s selector = s.gdt (selector / 8)

pub record IsLoaded (addresses : Addresses) (t : Segments) : Type 0 where
  -- the segments of the kernel and of the user, the code as 64-bit code: all of the 4 GiB
  pub kernel_code : IsSegment (selected t t.code_segment) 0 0xFFFFFFFF 0x9A 0xA
  pub kernel_data : IsSegment (selected t t.data_segment) 0 0xFFFFFFFF 0x92 0xC
  pub user_code : IsSegment (t.gdt 3) 0 0xFFFFFFFF 0xFA 0xA
  pub user_data : IsSegment (t.gdt 4) 0 0xFFFFFFFF 0xF2 0xC
  -- the selectors are of this table and of ring 0, and the first entry is null
  pub code_ring : t.code_segment % 8 ≡ 0
  pub data_ring : t.data_segment % 8 ≡ 0
  pub task_ring : t.task % 8 ≡ 0
  pub null : t.gdt 0 ≡ 0
  -- the task state segment, of 104 bytes, whose descriptor takes two entries
  pub task : IsSegment (selected t t.task) (addresses.tss_addr % 2 ^ 32) 103 0x89 0
  pub task_high : t.gdt (t.task / 8 + 1) ≡ addresses.tss_addr / 2 ^ 32
  pub interrupt_stack : t.tss.ist1 ≡ addresses.ist1_addr + 4096
  -- the map of ports lies behind the segment: no port is open to the user
  pub no_ports : 103 < t.tss.iomap_base
  -- the register covers the seven entries
  pub table_base : t.gdtr.base ≡ addresses.gdt_addr
  pub table_limit : t.gdtr.limit + 1 ≡ 7 * 8

high-part : (addr : ℕ) → addr < 2 ^ 64 → make_system_gdte_high addr ≡ addr / 2 ^ 32
unfolding make_system_gdte_high
high-part addr h = omega (arith, h, and_mask 32 (addr / 2 ^ 32))

low-part : (addr : ℕ) → bit_and addr 0xFFFFFFFF ≡ addr % 2 ^ 32
low-part addr = omega (arith, and_mask 32 addr)

-- a descriptor over all of the 4 GiB: the granularity is pages
whole :
    (access flags : ℕ)
    → access < 2 ^ 8
    → flags < 2 ^ 4
    → flags / 8 ≡ 1
    → IsSegment (make_gdte 0 0xFFFFF access flags) 0 0xFFFFFFFF access flags
whole access flags ha hf pages =
    let d = make_gdte-IsSegment 0 0xFFFFF access flags (omega arith) (omega arith) ha hf in
    record {
      has_base = d.has_base;
      has_last = d.has_last ∙ rw pages refl;
      has_access = d.has_access;
      has_flags = d.has_flags;
    }

-- From the initial table, with addresses of 64 bits, init_gdt returns with the kernel's code and data
-- segments loaded by selectors of ring 0. Their descriptors, and those of the user, start at 0 and end
-- with the last byte of 4 GiB, since their granularity is pages, with the access bytes of code and data
-- of ring 0 and ring 3 and the flags of 64-bit code and of data; the first entry is null. The task
-- register is at the descriptor of the task state segment, which has its address and its size, the
-- interrupt stack is set to its end, no port is open, and the register of the table covers all seven
-- entries.
pub init_gdt-IsLoaded :
    (addresses : Addresses) (s : Segments)
    → ((i : ℕ) → s.gdt i ≡ initial_gdt i)
    → addresses.tss_addr < 2 ^ 64
    → addresses.ist1_addr + 4096 < 2 ^ 64
    → Returns (λ _. IsLoaded addresses) (init_gdt addresses s)
unfolding init_gdt make_segment_selector initial_gdt
init_gdt-IsLoaded addresses s initial tss stack = returns (record {
  kernel_code = rw (initial 1) (whole 0x9A 0xA (omega arith) (omega arith) refl);
  kernel_data = rw (initial 2) (whole 0x92 0xC (omega arith) (omega arith) refl);
  user_code = rw (initial 3) (whole 0xFA 0xA (omega arith) (omega arith) refl);
  user_data = rw (initial 4) (whole 0xF2 0xC (omega arith) (omega arith) refl);
  code_ring = refl;
  data_ring = refl;
  task_ring = refl;
  null = initial 0;
  task = rw (low-part addresses.tss_addr) (
      make_gdte-IsSegment (addresses.tss_addr % 2 ^ 32) 103 0x89 0 (omega arith) (omega arith)
        (omega arith) (omega arith));
  task_high = high-part addresses.tss_addr tss;
  interrupt_stack = omega (arith, stack);
  no_ports = omega arith;
  table_base = refl;
  table_limit = refl;
})
