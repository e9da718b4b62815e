-- ===== src/Cpu.antt =====
-- The tables of the processor, of cpu/.
pub mod Gdt
pub mod Idt
