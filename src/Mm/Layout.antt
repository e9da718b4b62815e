-- ===== src/Mm/Layout.antt =====
-- The constants and macros of include/fynaos/mm.h.
use fynaos.Base.{ℕ, ◌-◌, not64}

abbrev pub kernel_direct_base : ℕ
kernel_direct_base = 0xFFFF800000000000

abbrev pub page_size : ℕ
page_size = 4096

abbrev pub page_shift : ℕ
page_shift = 12

abbrev pub page_mask : ℕ
page_mask = not64 (page_size - 1)
