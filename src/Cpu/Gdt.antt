-- ===== src/Cpu/Gdt.antt =====
-- cpu/gdt.c: the global descriptor table and the task state segment. The addresses of the tables and
-- of the stack come from the linker; what the inline assembly loads into the processor is state.
pub mod Descriptors
pub mod Loaded
mod Tests
use fynaos.Base.{
  ℕ, ◌+◌, Bool, true, false, u32, u64, ◌<<<◌, ◌>>>◌, bit_and, bit_or, update, ok, pure, get, modify,
  M, ◌>>◌, ◌>>=◌,
}

abbrev pub access_kernel_code : ℕ
access_kernel_code = 0x9A

abbrev pub access_kernel_data : ℕ
access_kernel_data = 0x92

abbrev pub access_user_code : ℕ
access_user_code = 0xFA

abbrev pub access_user_data : ℕ
access_user_data = 0xF2

abbrev pub access_tss : ℕ
access_tss = 0x89

abbrev pub flag_code : ℕ
flag_code = 0xA

abbrev pub flag_data : ℕ
flag_data = 0xC

-- `MAKE_GDTE`
unfoldable pub make_gdte : ℕ → ℕ → ℕ → ℕ → ℕ
make_gdte base limit access flags =
    bit_or
      (bit_or
        (bit_or
          (bit_or
            (bit_or (bit_or (u64 (bit_and limit 0xFFFF <<< 0)) (u64 (bit_and base 0xFFFF <<< 16)))
              (u64 (bit_and base 0xFF0000 <<< 16)))
            (u64 (bit_and access 0xFF <<< 40)))
          (u64 (bit_and limit 0xF0000 <<< 32)))
        (u64 (bit_and flags 0xF <<< 52)))
      (u64 (bit_and base 0xFF000000 <<< 32))

-- `MAKE_SYSTEM_GDTE_HIGH`
unfoldable pub make_system_gdte_high : ℕ → ℕ
make_system_gdte_high base = bit_and (base >>> 32) 0xFFFFFFFF

-- `MAKE_SEGMENT_SELECTOR`
unfoldable pub make_segment_selector : ℕ → ℕ → ℕ → ℕ
make_segment_selector index ti rpl =
    bit_or (bit_or (bit_and index 0x1FFF <<< 3) (bit_and ti 1 <<< 2)) (bit_and rpl 3)

-- `struct tss`, of 104 bytes
pub record Tss : Type 0 where
  pub reserved0 : ℕ
  pub rsp0 : ℕ
  pub rsp1 : ℕ
  pub rsp2 : ℕ
  pub reserved1 : ℕ
  pub ist1 : ℕ
  pub ist2 : ℕ
  pub ist3 : ℕ
  pub ist4 : ℕ
  pub ist5 : ℕ
  pub ist6 : ℕ
  pub ist7 : ℕ
  pub reserved2 : ℕ
  pub reserved3 : ℕ
  pub iomap_base : ℕ

abbrev pub zero_tss : Tss
zero_tss = record {
  reserved0 = 0;
  rsp0 = 0;
  rsp1 = 0;
  rsp2 = 0;
  reserved1 = 0;
  ist1 = 0;
  ist2 = 0;
  ist3 = 0;
  ist4 = 0;
  ist5 = 0;
  ist6 = 0;
  ist7 = 0;
  reserved2 = 0;
  reserved3 = 0;
  iomap_base = 0;
}

-- `struct gdtr`, and likewise the register of the interrupt table
pub record TableRegister : Type 0 where
  pub limit : ℕ
  pub base : ℕ

-- the tables, and the registers of the processor: the data segments are loaded together
pub record Segments : Type 0 where
  pub gdt : ℕ → ℕ
  pub tss : Tss
  pub gdtr : TableRegister
  pub code_segment : ℕ
  pub data_segment : ℕ
  pub task : ℕ

-- the addresses of `gdt`, `tss` and `ist1`
pub record Addresses : Type 0 where
  pub gdt_addr : ℕ
  pub tss_addr : ℕ
  pub ist1_addr : ℕ

-- the first five entries of `gdt`
unfoldable pub initial_gdt : ℕ → ℕ
unfolding make_gdte
initial_gdt =
    let null : ℕ → ℕ = λ _. 0 in
    let kernel_code = update null 1 (make_gdte 0 0xFFFFF access_kernel_code flag_code) in
    let kernel_data = update kernel_code 2 (make_gdte 0 0xFFFFF access_kernel_data flag_data) in
    let user_code = update kernel_data 3 (make_gdte 0 0xFFFFF access_user_code flag_code) in
    update user_code 4 (make_gdte 0 0xFFFFF access_user_data flag_data)

unfoldable pub init_gdt : Addresses → M Segments (Unit {0})
unfolding make_gdte make_system_gdte_high make_segment_selector
init_gdt addresses = do
  modify (λ s. record s { tss = zero_tss })
  modify (λ s. record s {
    tss = record s.tss { rsp0 = 0; ist1 = u64 (addresses.ist1_addr + 4096); iomap_base = 0xFFFF };
  })
  modify (λ s. record s {
    gdt = update s.gdt 5 (make_gdte (bit_and addresses.tss_addr 0xFFFFFFFF) 103 access_tss 0);
  })
  modify (λ s. record s { gdt = update s.gdt 6 (make_system_gdte_high addresses.tss_addr) })
  modify (λ s. record s { gdtr = record { limit = 55; base = addresses.gdt_addr } })
  modify (λ s. record s {
    data_segment = make_segment_selector 2 0 0;
    code_segment = make_segment_selector 1 0 0;
  })
  modify (λ s. record s { task = make_segment_selector 5 0 0 })

unfoldable pub set_rsp0 : ℕ → M Segments (Unit {0})
set_rsp0 rsp0 = modify (λ s. record s { tss = record s.tss { rsp0 = rsp0 } })
