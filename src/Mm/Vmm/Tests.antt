-- ===== src/Mm/Vmm/Tests.antt =====
-- The theorems on mm/vmm.c at one address space of four tables.
use fynaos.Base.{
  ℕ, ◌+◌, ◌*◌, ◌%◌, ◌^◌, ◌≡◌, refl, arith, ◌==◌, if◌then◌else◌, ok, update, none, negsuc, true,
  invalid_address,
}
use fynaos.Mm.Machine.{Machine, phys_to_virt}
use fynaos.Mm.Vmm.Path.{IsPath, leaf_at}
use fynaos.Mm.Vmm.Mapping.{
  IsApart, with_leaf, map_then_translate, map_then_unmap, virt_to_phys-map_page,
  unmap_page-map_page,
}

-- the tables lie at 0x1000 to 0x4000, and the `struct mm` at 0x5000
abbrev tables : Machine
tables = record {
  frames = record {
    frame = λ _. record { next = none; flags = 0; order = negsuc 0 };
    count = 0;
    free_region = λ _. none;
  };
  mem = λ a.
      if a == 0xFFFF800000005000
      then 0x1000
      else if a == 0xFFFF800000001000
      then 0x2007
      else if a == 0xFFFF800000002000
      then 0x3007
      else if a == 0xFFFF800000003000
      then 0x4007
      else 0;
  interrupts = true;
  cr3 = 0x1000;
  pools = 0;
  tail = 0;
  current_mm = 0;
  kernel_mm = 0;
}

abbrev mm : ℕ
mm = 0xFFFF800000005000

path : IsPath tables mm 1
unfolding phys_to_virt
path = record {
  pml4 = 0x1000;
  pdpt = 0x2000;
  pd = 0x3000;
  pt = 0x4000;
  readable = refl;
  top = refl;
  aligned = refl;
  to_pdpt = record { readable = refl; present = refl; names = refl };
  to_pd = record { readable = refl; present = refl; names = refl };
  to_pt = record { readable = refl; present = refl; names = refl };
  leaf = refl;
}

apart : IsApart path
unfolding path phys_to_virt
apart = record {
  from_mm = omega arith;
  from_pml4 = omega arith;
  from_pdpt = omega arith;
  from_pd = omega arith;
}

vacant : tables.mem (leaf_at path) ≡ 0
unfolding path phys_to_virt
vacant = refl

virt_to_phys-map_page_example :
    map_then_translate mm (0x77 * 2 ^ 12) 0x1234 3 0x1FF0 tables
    ≡ ok (0x77 * 2 ^ 12 + 0x1FF0 % 2 ^ 12, with_leaf path (0x77 * 2 ^ 12 + 3))
virt_to_phys-map_page_example =
    virt_to_phys-map_page path apart (rw vacant refl) 0x77 3 (omega arith) (omega arith) refl 0x1234
      0x1FF0 refl refl

unmap_page-map_page_example :
    map_then_unmap mm (0x77 * 2 ^ 12) 0x1234 3 0x1FF0 tables
    ≡ ok (
      (0x77 * 2 ^ 12, invalid_address),
      record tables {
        mem = update (update tables.mem (leaf_at path) (0x77 * 2 ^ 12 + 3)) (leaf_at path) 0;
      },
    )
unmap_page-map_page_example =
    unmap_page-map_page path apart (rw vacant refl) 0x77 3 (omega arith) (omega arith) refl 0x1234
      0x1FF0 refl refl
