-- ===== src/Mm.antt =====
-- The memory managers of mm/.
pub mod Layout
pub mod Boot
pub mod Frames
pub mod Init
pub mod Machine
pub mod Pool
pub mod Vmm
