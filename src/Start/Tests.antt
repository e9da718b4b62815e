-- ===== src/Start/Tests.antt =====
-- The theorems on the start at a boot loader that hands over a memory map tag and nothing else.
use fynaos.Base.{
  ℕ, ◌+◌, ◌≡◌, refl, arith, false, ◌==◌, if◌then◌else◌, inl, none, negsuc, List, [], ◌∷◌, ok,
  panicked, fault,
}
use fynaos.Base.Word.{align_up}
use fynaos.Multiboot.{FramebufferTag, loader_magic, read_bytes, next_tag}
use fynaos.Rtl.Bytes.{memcpy}
use fynaos.Cpu.Gdt.{zero_tss}
use fynaos.Drivers.Fbcon.{Console}
use fynaos.Start.{Platform, World, buffer_size, parse_multiboot_info, kmain}
use fynaos.Start.Parsed.{Tags, end, tag, found, with_tags, parse_multiboot_info-found}
use fynaos.Start.Refused.{kmain-panicked, kmain-fault}

abbrev no_display : FramebufferTag
no_display = record {
  addr = 0xFD000000;
  pitch = 64;
  width = 16;
  height = 8;
  bpp = 32;
  type = 1;
  red_position = 16;
  red_mask = 8;
  green_position = 8;
  green_mask = 8;
  blue_position = 0;
  blue_mask = 8;
}

abbrev console : Console
console = record {
  x = 0;
  y = 0;
  cx = 2;
  cy = 1;
  text_cx = 8;
  text_cy = 8;
  foreground = 0xFFFFFF;
  background = 0;
  screen = record { info = no_display; mem = λ _. 0 };
}

abbrev platform : Platform
platform = record {
  buffer = 0x10000;
  addresses = record { gdt_addr = 0x1000; tss_addr = 0x2000; ist1_addr = 0x3000 };
  isr_table = λ i. 0x4000 + i;
  image = record { start = 0x100000; end = 0x120000 };
  setting = record {
    status = λ _. 0x60;
    fuel = 1;
    font = λ _ _. 0;
    buffer = 0x6000;
    held = λ _. 0;
  };
}

-- The information lies at 0x8000: 24 bytes, with a tag of type 6 and size 8 and the end tag. The
-- buffer at 0x10000 has the same tag already.
abbrev loaded : ℕ → ℕ
loaded a =
    if a == 0x8000
    then 24
    else if a == 0x8008
    then 6
    else if a == 0x800C
    then 8
    else if a == 0x10008
    then 6
    else if a == 0x1000C
    then 8
    else 0

abbrev world : World
world = record {
  mem = loaded;
  mmap_info = 0;
  framebuffer_info = 0;
  log = record {
    uart = record { writes = []; polls = 0 };
    console = console;
    interrupts = false;
    in_panic = false;
    panic_use_fbcon = false;
  };
  segments = record {
    gdt = λ _. 0;
    tss = zero_tss;
    gdtr = record { limit = 0; base = 0 };
    code_segment = 0;
    data_segment = 0;
    task = 0;
  };
  gates = record {
    idt = λ _. record {
      offset_low = 0;
      selector = 0;
      ist = 0;
      attributes = 0;
      offset_mid = 0;
      offset_high = 0;
      reserved = 0;
    };
    idt_addr = 0x5000;
    idtr = record { limit = 0; addr = 0 };
  };
  memory = record {
    boot = record { begin = 0; tail = 0; limit = 0 };
    frames = record {
      frame = λ _. record { next = none; flags = 0; order = negsuc 0 };
      count = 0;
      free_region = λ _. none;
    };
  };
}

abbrev tags : List (ℕ × ℕ)
tags = (0x10008, 6) ∷ []

loaded_tags : Tags loaded (0x10000 + buffer_size) (0x10000 + 8) tags
unfolding read_bytes next_tag align_up
loaded_tags = tag (omega arith) refl refl (omega arith) (omega arith) (end (omega arith) refl)

copied_tags : Tags (memcpy 0x10000 0x8000 24 loaded) (0x10000 + buffer_size) (0x10000 + 8) tags
unfolding read_bytes next_tag align_up memcpy
copied_tags = tag (omega arith) refl refl (omega arith) (omega arith) (end (omega arith) refl)

parse_multiboot_info-found_example :
    parse_multiboot_info 0x10000 world ≡ ok (tt, with_tags world tags)
parse_multiboot_info-found_example =
    parse_multiboot_info-found 0x10000 world tags (omega arith) loaded_tags

kmain-panicked_example : kmain platform 0 0x8000 world ≡ panicked
kmain-panicked_example = kmain-panicked platform 0 0x8000 world (inl (λ e. omega (arith, e)))

kmain-fault_example : kmain platform loader_magic 0x8000 world ≡ fault
unfolding found read_bytes
kmain-fault_example =
    kmain-fault platform 0x8000 world tags (omega arith) (omega arith) copied_tags refl
