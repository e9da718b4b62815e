-- ===== src/Rtl.antt =====
-- The runtime library of rtl/.
pub mod Bytes
pub mod Number
pub mod Snprintf
