-- ===== src/Start.antt =====
-- init/main.c: the start of the kernel. The boot loader's information is bytes of memory; what comes
-- from the linker, from the assembly and from the devices is a parameter. The endless halt at the end
-- of kmain is the end of the run.
pub mod Parsed
pub mod Refused
mod Tests
use fynaos.Base.{
  ℕ, zero, suc, ◌+◌, ◌*◌, true, false, ◌==◌, leb, ltb, ◌&&◌, if◌then◌else◌, List, [], ◌∷◌, M, ok,
  panicked, fault, out_of_fuel, pure, panic, undefined, get, modify, ◌>>=◌, ◌>>◌,
}
use fynaos.Multiboot.{
  loader_magic, tag_end, tag_memory_map, tag_framebuffer_information, read_bytes, first_tag,
  tag_type, tag_size, next_tag, mmap_entry_count, framebuffer_tag,
}
use fynaos.Rtl.Bytes.{memcpy}
use fynaos.Cpu.Gdt.{Segments, Addresses, init_gdt}
use fynaos.Cpu.Idt.{Gates}
use fynaos.Drivers.Uart.{uart_init}
use fynaos.Drivers.Framebuffer.{framebuffer_init}
use fynaos.Drivers.Fbcon.{on_screen, fbcon_init}
use fynaos.Kernel.Gates.{init_interrupt}
use fynaos.Kernel.Messages.{Log, Setting, on_uart, on_console, codes, vkprintf}
use fynaos.Mm.Init.{Memory, Image, Entry, init_memory}

-- what main.c finds: `buffer` is the address of `multiboot_info_buffer`
pub record Platform : Type 0 where
  pub buffer : ℕ
  pub addresses : Addresses
  pub isr_table : ℕ → ℕ
  pub image : Image
  pub setting : Setting

-- the memory as bytes, `multiboot_mmap_info`, `multiboot_framebuffer_info`, and the other parts
pub record World : Type 0 where
  pub mem : ℕ → ℕ
  pub mmap_info : ℕ
  pub framebuffer_info : ℕ
  pub log : Log
  pub segments : Segments
  pub gates : Gates
  pub memory : Memory

unfoldable pub on_log : {A : Type 0} → M Log A → M World A
on_log m s = elim (m s.log) [
  | ok (a, t) ↦ ok (a, record s { log = t })
  | panicked ↦ panicked
  | fault ↦ fault
  | out_of_fuel ↦ out_of_fuel
]

unfoldable pub on_segments : {A : Type 0} → M Segments A → M World A
on_segments m s = elim (m s.segments) [
  | ok (a, t) ↦ ok (a, record s { segments = t })
  | panicked ↦ panicked
  | fault ↦ fault
  | out_of_fuel ↦ out_of_fuel
]

unfoldable pub on_gates : {A : Type 0} → M Gates A → M World A
on_gates m s = elim (m s.gates) [
  | ok (a, t) ↦ ok (a, record s { gates = t })
  | panicked ↦ panicked
  | fault ↦ fault
  | out_of_fuel ↦ out_of_fuel
]

unfoldable pub on_memory : {A : Type 0} → M Memory A → M World A
on_memory m s = elim (m s.memory) [
  | ok (a, t) ↦ ok (a, record s { memory = t })
  | panicked ↦ panicked
  | fault ↦ fault
  | out_of_fuel ↦ out_of_fuel
]

unfoldable pub validate_multiboot : ℕ → M World (Unit {0})
validate_multiboot magic = if magic == loader_magic then pure tt else panic

-- `sizeof(multiboot_info_buffer)`
abbrev pub buffer_size : ℕ
buffer_size = 16384

unfoldable pub copy_multiboot_info : ℕ → ℕ → M World (Unit {0})
copy_multiboot_info buffer info = do
  s ← get
  if leb buffer_size (read_bytes 4 s.mem info)
      then panic
      else modify (λ s. record s { mem = memcpy buffer info (read_bytes 4 s.mem info) s.mem })

-- The loop of `parse_multiboot_info` at the tag `i`, with `fuel` rounds left. What is read of a tag
-- lies in the buffer.
unfoldable pub parse_loop : ℕ → ℕ → ℕ → M World (Unit {0})
parse_loop buffer zero i = λ _. out_of_fuel
parse_loop buffer (suc fuel) i = do
  s ← get
  if leb buffer i && leb (i + 4) (buffer + buffer_size)
      then (elim (tag_type s.mem i == tag_end) [
        | true ↦ pure tt
        | false ↦ do
          if tag_type s.mem i == tag_memory_map
              then modify (λ s. record s { mmap_info = i })
              else if tag_type s.mem i == tag_framebuffer_information
              then modify (λ s. record s { framebuffer_info = i })
              else pure tt
          if leb (i + 8) (buffer + buffer_size)
              then parse_loop buffer fuel (next_tag s.mem i)
              else undefined
      ])
      else undefined

-- A tag that has a header takes 8 bytes, so there are fewer than 2048.
unfoldable pub parse_multiboot_info : ℕ → M World (Unit {0})
parse_multiboot_info buffer = parse_loop buffer 2048 (first_tag buffer)

-- the `count` entries of the memory map from `p` on
unfoldable pub read_entries : (ℕ → ℕ) → ℕ → ℕ → List Entry
read_entries mem zero p = []
read_entries mem (suc count) p =
    record {
      addr = read_bytes 8 mem p;
      len = read_bytes 8 mem (p + 8);
      type = read_bytes 4 mem (p + 16);
      reserved = read_bytes 4 mem (p + 20);
    }
    ∷ read_entries mem count (p + 24)

-- The tags are read through their pointers; NULL, and an entry size of 0, is a `fault`.
unfoldable pub init_display : M World (Unit {0})
init_display = do
  s ← get
  if s.framebuffer_info == 0 then undefined else do
    _ ←
        on_log
          (on_console (on_screen (framebuffer_init (framebuffer_tag s.mem s.framebuffer_info))))
    _ ← on_log (on_console (fbcon_init (framebuffer_tag s.mem s.framebuffer_info)))
    pure tt

unfoldable pub init_from_map : Image → M World (Unit {0})
init_from_map image = do
  s ← get
  if s.mmap_info == 0 then undefined else do
    let entry_size = read_bytes 4 s.mem (s.mmap_info + 8)
    if entry_size == 0 then undefined else do
      let count = mmap_entry_count (tag_size s.mem s.mmap_info) entry_size
      on_memory (init_memory image (read_entries s.mem count (s.mmap_info + 16)))

unfoldable pub kmain : Platform → ℕ → ℕ → M World (Unit {0})
kmain p magic info = do
  on_log (on_uart uart_init)
  validate_multiboot magic
  on_segments (init_gdt p.addresses)
  on_gates (init_interrupt p.isr_table)
  copy_multiboot_info p.buffer info
  parse_multiboot_info p.buffer
  init_display
  on_log (vkprintf p.setting (codes "FYNAOS is initializing..\n") [])
  init_from_map p.image
