-- ===== src/Kernel.antt =====
-- The parts of kernel/.
pub mod Gates
pub mod Interrupt
pub mod Messages
