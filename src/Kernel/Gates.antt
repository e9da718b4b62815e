-- ===== src/Kernel/Gates.antt =====
-- init_interrupt of kernel/interrupt.c: the table of the interrupt gates. The addresses of the
-- routines in `isr_table` come from the assembly.
pub mod Filled
mod Tests
use fynaos.Base.{ℕ, zero, suc, ◌+◌, bit_or, M, pure, ◌>>◌}
use fynaos.Cpu.Idt.{Gates, idt_count, idt_attribute_present, set_idt_entry, init_idt}

abbrev pub idt_attribute_privilege_kernelonly : ℕ
idt_attribute_privilege_kernelonly = 0

abbrev pub idt_attribute_type_interrupt_gate : ℕ
idt_attribute_type_interrupt_gate = 0x0E

abbrev pub cpu_exception_non_maskable_interrupt : ℕ
cpu_exception_non_maskable_interrupt = 2

abbrev pub cpu_exception_double_fault : ℕ
cpu_exception_double_fault = 8

abbrev pub cpu_exception_machine_check : ℕ
cpu_exception_machine_check = 18

-- `SET_IDTE`
abbrev pub set_idte : (ℕ → ℕ) → ℕ → ℕ → ℕ → M Gates (Unit {0})
set_idte isr_table i attr ist = set_idt_entry i (isr_table i) attr ist

-- the loop of `init_interrupt` at index `i`, with `rounds` left
unfoldable pub gate_loop : (ℕ → ℕ) → ℕ → ℕ → ℕ → M Gates (Unit {0})
unfolding set_idt_entry
gate_loop isr_table attr zero i = pure tt
gate_loop isr_table attr (suc rounds) i = do
  set_idte isr_table i attr 0
  gate_loop isr_table attr rounds (i + 1)

unfoldable pub init_interrupt : (ℕ → ℕ) → M Gates (Unit {0})
unfolding init_idt
init_interrupt isr_table = do
  init_idt
  let attr =
      bit_or (bit_or idt_attribute_present idt_attribute_privilege_kernelonly)
        idt_attribute_type_interrupt_gate
  gate_loop isr_table attr idt_count 0
  set_idte isr_table cpu_exception_non_maskable_interrupt attr 1
  set_idte isr_table cpu_exception_double_fault attr 1
  set_idte isr_table cpu_exception_machine_check attr 1
