-- ===== src/Start/Refused.antt =====
-- kmain of init/main.c where it does not start the kernel.
use fynaos.Base.{
  ℕ, ◌+◌, ◌≤◌, ◌<◌, ◌≡◌, ◌≢◌, ◌⊎◌, ◌∙◌, ◌^◌, refl, false, ◌==◌, List, [], M, ok, panicked, fault,
  inl, inr, ◌>>◌, le→leb, lt→leb, Bool-cases, ==→eq,
}
use fynaos.Multiboot.{loader_magic, read_bytes, tag_framebuffer_information}
use fynaos.Rtl.Bytes.{memcpy}
use fynaos.Cpu.Gdt.{Segments, init_gdt}
use fynaos.Cpu.Idt.{Gates}
use fynaos.Kernel.Gates.{init_interrupt}
use fynaos.Kernel.Gates.Filled.{init_interrupt-ends}
use fynaos.Kernel.Messages.{Log, on_uart, codes, vkprintf}
use fynaos.Drivers.Uart.{uart_init}
use fynaos.Start.{
  Platform, World, on_log, on_segments, on_gates, validate_multiboot, buffer_size,
  copy_multiboot_info, parse_multiboot_info, init_display, init_from_map, kmain,
}
use fynaos.Start.Parsed.{Tags, found, parse_multiboot_info-found}

on_log-ok :
    {A : Type 0} (m : M Log A) (s : World) {a : A} {t : Log}
    → m s.log ≡ ok (a, t)
    → on_log m s ≡ ok (a, record s { log = t })
unfolding on_log
on_log-ok m s e = rw (e, on_log) refl

on_segments-ok :
    {A : Type 0} (m : M Segments A) (s : World) {a : A} {t : Segments}
    → m s.segments ≡ ok (a, t)
    → on_segments m s ≡ ok (a, record s { segments = t })
unfolding on_segments
on_segments-ok m s e = rw (e, on_segments) refl

on_gates-ok :
    {A : Type 0} (m : M Gates A) (s : World) {a : A} {t : Gates}
    → m s.gates ≡ ok (a, t)
    → on_gates m s ≡ ok (a, record s { gates = t })
unfolding on_gates
on_gates-ok m s e = rw (e, on_gates) refl

uart_init-ends : (s : Log) → (t : Log) × (on_uart uart_init s ≡ ok (tt, t))
unfolding on_uart uart_init
uart_init-ends s = (_, refl)

init_gdt-ends :
    (p : Platform) (s : Segments) → (t : Segments) × (init_gdt p.addresses s ≡ ok (tt, t))
unfolding init_gdt
init_gdt-ends p s = (_, refl)

-- the rest of kmain behind the tables of the processor
abbrev rest_of : Platform → ℕ → M World (Unit {0})
rest_of p info = do
  copy_multiboot_info p.buffer info
  parse_multiboot_info p.buffer
  init_display
  on_log (vkprintf p.setting (codes "FYNAOS is initializing..\n") [])
  init_from_map p.image

-- With the magic number kmain comes to the boot loader's information, which is as it was.
kmain-rest_of :
    (p : Platform) (info : ℕ) (s : World)
    → (t : World) × (kmain p loader_magic info s ≡ rest_of p info t)
      × (t.mem ≡ s.mem)
      × (t.framebuffer_info ≡ s.framebuffer_info)
unfolding kmain validate_multiboot
kmain-rest_of p info s =
    let (log, run1) = uart_init-ends s.log in
    let (segments, run2) = init_gdt-ends p s.segments in
    let (idt, run3, _) = init_interrupt-ends p.isr_table s.gates in
    (
      record s {
        log = log;
        segments = segments;
        gates = record s.gates {
          idt = idt;
          idtr = record { limit = 4095; addr = s.gates.idt_addr };
        };
      },
      rw
          (
            on_log-ok (on_uart uart_init) s run1,
            on_segments-ok (init_gdt p.addresses) (record s { log = log }) run2,
            on_gates-ok (init_interrupt p.isr_table) (record s { log = log; segments = segments })
                run3,
          )
          refl,
      refl,
      refl,
    )

refused :
    (p : Platform) (magic info : ℕ) (s : World)
    → (magic == loader_magic) ≡ false
    → kmain p magic info s ≡ panicked
unfolding kmain validate_multiboot
refused p magic info s e =
    let (log, run) = uart_init-ends s.log in rw (on_log-ok (on_uart uart_init) s run, e) refl

copy-panicked :
    (p : Platform) (info : ℕ) (t : World)
    → buffer_size ≤ read_bytes 4 t.mem info
    → rest_of p info t ≡ panicked
unfolding copy_multiboot_info
copy-panicked p info t big = rw (le→leb buffer_size (read_bytes 4 t.mem info) big) refl

no_display :
    (p : Platform) (info : ℕ) (t : World) (tags : List (ℕ × ℕ))
    → read_bytes 4 t.mem info < buffer_size
    → p.buffer + buffer_size ≤ 2 ^ 64
    → Tags
        (memcpy p.buffer info (read_bytes 4 t.mem info) t.mem)
        (p.buffer + buffer_size)
        (p.buffer + 8)
        tags
    → found tag_framebuffer_information t.framebuffer_info tags ≡ 0
    → rest_of p info t ≡ fault
unfolding copy_multiboot_info init_display
no_display p info t tags fits small listed none =
    let copied = record t { mem = memcpy p.buffer info (read_bytes 4 t.mem info) t.mem } in
    rw
      (
        lt→leb buffer_size (read_bytes 4 t.mem info) fits,
        parse_multiboot_info-found p.buffer copied tags small listed,
        none,
      )
      refl

-- kmain panics where the magic number is not that of the boot loader, and where the information of the
-- boot loader does not fit the buffer of 16384 bytes.
pub kmain-panicked :
    (p : Platform) (magic info : ℕ) (s : World)
    → (magic ≢ loader_magic) ⊎ (buffer_size ≤ read_bytes 4 s.mem info)
    → kmain p magic info s ≡ panicked
kmain-panicked p magic info s reason = elim (Bool-cases (magic == loader_magic)) [
  | inr e ↦ refused p magic info s e
  | inl e ↦ rw (==→eq magic loader_magic e) (elim reason [
    | inl wrong ↦ absurd (wrong (==→eq magic loader_magic e))
    | inr big ↦
        let (t, run, same, _) = kmain-rest_of p info s in run ∙ copy-panicked p info t (rw same big)
  ])
]

-- A boot loader without a framebuffer tag: where its information fits the buffer and its tags are well
-- formed, and no framebuffer is known from before, kmain reads the tag through NULL, a fault.
pub kmain-fault :
    (p : Platform) (info : ℕ) (s : World) (tags : List (ℕ × ℕ))
    → read_bytes 4 s.mem info < buffer_size
    → p.buffer + buffer_size ≤ 2 ^ 64
    → Tags
        (memcpy p.buffer info (read_bytes 4 s.mem info) s.mem)
        (p.buffer + buffer_size)
        (p.buffer + 8)
        tags
    → found tag_framebuffer_information s.framebuffer_info tags ≡ 0
    → kmain p loader_magic info s ≡ fault
kmain-fault p info s tags fits small listed none =
    let (t, run, same, same_info) = kmain-rest_of p info s in
    run ∙ no_display p info t tags (rw same fits) small (rw same listed) (rw same_info none)
