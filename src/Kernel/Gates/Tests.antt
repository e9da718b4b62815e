-- ===== src/Kernel/Gates/Tests.antt =====
-- The theorem on the gates at routines of 16 bytes each.
use fynaos.Base.{ℕ, ◌+◌, ◌*◌, ◌<◌, ◌≡◌, arith, Returns}
use fynaos.Cpu.Idt.{Gates}
use fynaos.Kernel.Gates.{init_interrupt}
use fynaos.Kernel.Gates.Filled.{IsGate, stack_of, init_interrupt-IsGate}

abbrev isr_table : ℕ → ℕ
isr_table i = 0xFFFF800000100000 + i * 16

abbrev empty_gates : Gates
empty_gates = record {
  idt = λ _. record {
    offset_low = 0;
    selector = 0;
    ist = 0;
    attributes = 0;
    offset_mid = 0;
    offset_high = 0;
    reserved = 0;
  };
  idt_addr = 0xFFFF800000110000;
  idtr = record { limit = 0; addr = 0 };
}

init_interrupt-IsGate_example :
    Returns
      (λ _ t.
        ((i : ℕ) → i < 256 → IsGate (isr_table i) (stack_of i) (t.idt i))
        × (t.idtr.limit + 1 ≡ 256 * 16)
        × (t.idtr.addr ≡ 0xFFFF800000110000))
      (init_interrupt isr_table empty_gates)
init_interrupt-IsGate_example = init_interrupt-IsGate isr_table empty_gates λ i h. omega (arith, h)
