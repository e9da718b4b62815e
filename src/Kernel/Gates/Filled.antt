-- ===== src/Kernel/Gates/Filled.antt =====
-- What init_interrupt of kernel/interrupt.c leaves in the table of gates.
use fynaos.Base.{
  ℕ, zero, suc, ◌+◌, ◌*◌, ◌/◌, ◌^◌, ◌≤◌, ◌<◌, ◌≡◌, ◌∙◌, refl, arith, false, ◌||◌, ◌==◌,
  if◌then◌else◌, bit_and, ◌>>>◌, ok, Returns, returns, update, Bool-cases, inl, inr, lt→ltb, ==→eq,
  sym, subst,
}
use fynaos.Base.Bits.{and_mask}
use fynaos.Cpu.Gdt.{make_segment_selector}
use fynaos.Cpu.Idt.{Gates, Idte, idt_count, set_idt_entry, clear_loop, init_idt}
use fynaos.Kernel.Gates.{gate_loop, init_interrupt}

-- the address that the processor reads from an entry
abbrev pub gate_address : Idte → ℕ
gate_address e = e.offset_low + e.offset_mid * 2 ^ 16 + e.offset_high * 2 ^ 32

-- A present interrupt gate of the kernel to the routine, on the given stack.
pub record IsGate (isr_addr ist : ℕ) (e : Idte) : Type 0 where
  pub address : gate_address e ≡ isr_addr
  pub stack : e.ist ≡ ist
  pub selector : e.selector ≡ 8
  pub attributes : e.attributes ≡ 0x8E
  pub reserved : e.reserved ≡ 0

-- the entry that set_idt_entry makes
abbrev pub entry : ℕ → ℕ → Idte
entry isr_addr ist = record {
  attributes = 0x8E;
  ist = ist;
  selector = 8;
  offset_low = bit_and isr_addr 0xFFFF;
  offset_mid = bit_and (isr_addr >>> 16) 0xFFFF;
  offset_high = bit_and (isr_addr >>> 32) 0xFFFFFFFF;
  reserved = 0;
}

entry-IsGate : (isr_addr ist : ℕ) → isr_addr < 2 ^ 64 → IsGate isr_addr ist (entry isr_addr ist)
entry-IsGate isr_addr ist h = record {
  address = omega (
    arith,
    h,
    and_mask 16 isr_addr,
    and_mask 16 (isr_addr / 2 ^ 16),
    and_mask 32 (isr_addr / 2 ^ 32),
  );
  stack = refl;
  selector = refl;
  attributes = refl;
  reserved = refl;
}

set_idt_entry-ok :
    (index isr_addr ist : ℕ) (s : Gates)
    → index < idt_count
    → set_idt_entry index isr_addr 0x8E ist s
      ≡ ok (tt, record s { idt = update s.idt index (entry isr_addr ist) })
unfolding set_idt_entry make_segment_selector
set_idt_entry-ok index isr_addr ist s h = rw (lt→ltb index idt_count h) refl

clear_loop-ends :
    (rounds i : ℕ) (s : Gates)
    → (idt : ℕ → Idte) × (clear_loop rounds i s ≡ ok (tt, record s { idt = idt }))
unfolding clear_loop
clear_loop-ends zero i s = (s.idt, refl)
clear_loop-ends (suc rounds) i s = clear_loop-ends rounds (i + 1) _

gate_loop-ends :
    (isr_table : ℕ → ℕ) (rounds i : ℕ) (s : Gates)
    → i + rounds ≤ idt_count
    → (idt : ℕ → Idte) × (gate_loop isr_table 0x8E rounds i s ≡ ok (tt, record s { idt = idt }))
      × ((j : ℕ) → i ≤ j → j < i + rounds → idt j ≡ entry (isr_table j) 0)
      × ((j : ℕ) → j < i → idt j ≡ s.idt j)
unfolding gate_loop
gate_loop-ends isr_table zero i s fits =
    (s.idt, refl, (λ j lo hi. absurd (omega (arith, lo, hi))), λ j h. refl)
gate_loop-ends isr_table (suc rounds) i s fits =
    let (idt, run, inside, before) =
      gate_loop-ends isr_table rounds (i + 1)
        (record s { idt = update s.idt i (entry (isr_table i) 0) }) (omega (arith, fits)) in
    rw (set_idt_entry-ok i (isr_table i) 0 s (omega (arith, fits))) (
      idt,
      run,
      (λ j lo hi. elim (Bool-cases (j == i)) [
        | inl e ↦
            let same : j ≡ i = ==→eq j i e in before j (omega (arith, same)) ∙ rw (e, same) refl
        | inr e ↦ inside j (ground (arith, e, lo)) (omega (arith, hi))
      ]),
      (λ j h.
          let other : (j == i) ≡ false = ground (arith, h) in
          before j (omega (arith, h)) ∙ rw other refl),
    )

-- the stack of a vector: the first interrupt stack for the three exceptions that must not fail
abbrev pub stack_of : ℕ → ℕ
stack_of i = if i == 2 || i == 8 || i == 18 then 1 else 0

-- the three entries that are set last
replaced :
    (isr_table : ℕ → ℕ) (idt : ℕ → Idte) (i : ℕ)
    → idt i ≡ entry (isr_table i) 0
    → update
        (update (update idt 2 (entry (isr_table 2) 1)) 8 (entry (isr_table 8) 1))
        18
        (entry (isr_table 18) 1)
        i
      ≡ entry (isr_table i) (stack_of i)
replaced isr_table idt i plain = elim (Bool-cases (i == 18)) [
  | inl e ↦ rw (==→eq i 18 e) refl
  | inr e ↦ elim (Bool-cases (i == 8)) [
    | inl e' ↦ rw (==→eq i 8 e') refl
    | inr e' ↦ elim (Bool-cases (i == 2)) [
      | inl e'' ↦ rw (==→eq i 2 e'') refl
      | inr e'' ↦ rw (e, e', e'') plain
    ]
  ]
]

-- The run, with the table that it leaves.
pub init_interrupt-ends :
    (isr_table : ℕ → ℕ) (s : Gates)
    → (idt : ℕ → Idte) × (init_interrupt isr_table s
        ≡ ok (tt, record s { idt = idt; idtr = record { limit = 4095; addr = s.idt_addr } }))
      × ((i : ℕ) → i < 256 → idt i ≡ entry (isr_table i) (stack_of i))
unfolding init_interrupt init_idt
init_interrupt-ends isr_table s =
    let (cleared, clears) = clear_loop-ends 256 0 s in
    let loaded : Gates = record s {
      idt = cleared;
      idtr = record { limit = 4095; addr = s.idt_addr };
    } in
    let (idt, run, inside, _) = gate_loop-ends isr_table 256 0 loaded (omega arith) in
    let first = record loaded { idt = update idt 2 (entry (isr_table 2) 1) } in
    let second = record first { idt = update first.idt 8 (entry (isr_table 8) 1) } in
    (
      update second.idt 18 (entry (isr_table 18) 1),
      rw
          (
            clears,
            run,
            set_idt_entry-ok 2 (isr_table 2) 1 (record loaded { idt = idt }) (omega arith),
            set_idt_entry-ok 8 (isr_table 8) 1 first (omega arith),
            set_idt_entry-ok 18 (isr_table 18) 1 second (omega arith),
          )
          refl,
      λ i h. replaced isr_table idt i (inside i (omega arith) h),
    )

-- With routines at addresses of 64 bits, init_interrupt returns: each of the 256 entries is a present
-- interrupt gate of the kernel to its routine, on the first interrupt stack for the non-maskable
-- interrupt, the double fault and the machine check, and without a stack of its own for all others;
-- the register of the processor covers exactly the table.
pub init_interrupt-IsGate :
    (isr_table : ℕ → ℕ) (s : Gates)
    → ((i : ℕ) → i < 256 → isr_table i < 2 ^ 64)
    → Returns
        (λ _ t.
          ((i : ℕ) → i < 256 → IsGate (isr_table i) (stack_of i) (t.idt i))
          × (t.idtr.limit + 1 ≡ 256 * 16)
          × (t.idtr.addr ≡ s.idt_addr))
        (init_interrupt isr_table s)
init_interrupt-IsGate isr_table s words =
    let (idt, run, entries) = init_interrupt-ends isr_table s in
    rw run (
      returns (
        (λ i h.
            subst (IsGate (isr_table i) (stack_of i)) (sym (entries i h))
              (entry-IsGate (isr_table i) (stack_of i) (words i h))),
        refl,
        refl,
      ))
