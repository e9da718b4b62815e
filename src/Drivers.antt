-- ===== src/Drivers.antt =====
-- The drivers of drivers/.
pub mod Fbcon
pub mod Framebuffer
pub mod Uart
