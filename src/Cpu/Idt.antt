-- ===== src/Cpu/Idt.antt =====
-- cpu/idt.c: the interrupt descriptor table. An index behind the table is a `fault`.
use fynaos.Base.{
  ℕ, zero, suc, ◌+◌, ltb, if◌then◌else◌, u8, not32, ◌>>>◌, bit_and, update, M, ok, fault, pure,
  modify, ◌>>◌,
}
use fynaos.Cpu.Gdt.{make_segment_selector}

abbrev pub idt_count : ℕ
idt_count = 256

abbrev pub idt_attribute_present : ℕ
idt_attribute_present = 0x80

-- `struct idte`, of 16 bytes
pub record Idte : Type 0 where
  pub offset_low : ℕ
  pub selector : ℕ
  pub ist : ℕ
  pub attributes : ℕ
  pub offset_mid : ℕ
  pub offset_high : ℕ
  pub reserved : ℕ

-- `struct idtr`
pub record Idtr : Type 0 where
  pub limit : ℕ
  pub addr : ℕ

-- the table, the address that the linker gave it, and the register of the processor
pub record Gates : Type 0 where
  pub idt : ℕ → Idte
  pub idt_addr : ℕ
  pub idtr : Idtr

unfoldable pub set_idt_entry : ℕ → ℕ → ℕ → ℕ → M Gates (Unit {0})
unfolding make_segment_selector
set_idt_entry index isr_addr attributes ist s =
    if ltb index idt_count
    then ok (
      tt,
      record s {
        idt = update s.idt index (record {
          attributes = attributes;
          ist = ist;
          selector = make_segment_selector 1 0 0;
          offset_low = bit_and isr_addr 0xFFFF;
          offset_mid = bit_and (isr_addr >>> 16) 0xFFFF;
          offset_high = bit_and (isr_addr >>> 32) 0xFFFFFFFF;
          reserved = 0;
        });
      },
    )
    else fault

-- the loop of `init_idt` at index `i`, with `rounds` left
unfoldable pub clear_loop : ℕ → ℕ → M Gates (Unit {0})
clear_loop zero i = pure tt
clear_loop (suc rounds) i = do
  modify (λ s. record s {
    idt = update s.idt i (record (s.idt i) {
      attributes = u8 (bit_and (s.idt i).attributes (not32 idt_attribute_present));
    });
  })
  clear_loop rounds (i + 1)

unfoldable pub init_idt : M Gates (Unit {0})
init_idt = do
  clear_loop idt_count 0
  modify (λ s. record s { idtr = record { limit = 4095; addr = s.idt_addr } })
