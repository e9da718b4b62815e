-- ===== src/Cpu/Gdt/Tests.antt =====
-- The theorems on the descriptors at the addresses of a small image.
use fynaos.Base.{◌≡◌, refl, arith, Returns}
use fynaos.Cpu.Gdt.{Segments, Addresses, make_gdte, initial_gdt, init_gdt, zero_tss}
use fynaos.Cpu.Gdt.Descriptors.{
  segment_base, segment_limit, segment_access, segment_flags, make_gdte-fields,
}
use fynaos.Cpu.Gdt.Loaded.{IsLoaded, init_gdt-IsLoaded}

abbrev addresses : Addresses
addresses = record {
  gdt_addr = 0xFFFF800000101000;
  tss_addr = 0xFFFF800000102000;
  ist1_addr = 0xFFFF800000103000;
}

abbrev segments : Segments
segments = record {
  gdt = initial_gdt;
  tss = zero_tss;
  gdtr = record { limit = 0; base = 0 };
  code_segment = 0;
  data_segment = 0;
  task = 0;
}

make_gdte-fields_example :
    (segment_base (make_gdte 0x12345678 0xABCDE 0x89 0x5) ≡ 0x12345678)
    × (segment_limit (make_gdte 0x12345678 0xABCDE 0x89 0x5) ≡ 0xABCDE)
    × (segment_access (make_gdte 0x12345678 0xABCDE 0x89 0x5) ≡ 0x89)
    × (segment_flags (make_gdte 0x12345678 0xABCDE 0x89 0x5) ≡ 0x5)
make_gdte-fields_example =
    make_gdte-fields 0x12345678 0xABCDE 0x89 0x5 (omega arith) (omega arith) (omega arith)
      (omega arith)

init_gdt-IsLoaded_example : Returns (λ _. IsLoaded addresses) (init_gdt addresses segments)
init_gdt-IsLoaded_example =
    init_gdt-IsLoaded addresses segments (λ i. refl) (omega arith) (omega arith)
