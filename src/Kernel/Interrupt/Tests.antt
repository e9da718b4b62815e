-- ===== src/Kernel/Interrupt/Tests.antt =====
-- The theorems on the handlers of interrupts at one pool, which lies at 0x1000 and has one free block
-- of 4072 bytes, and at lists with one handler or none.
use fynaos.Base.{
  ℕ, ◌≡◌, ◌≢◌, refl, arith, true, false, ap, ◌==◌, if◌then◌else◌, none, negsuc, pos, [], ◌∷◌, pure,
  Returns, returns,
}
use fynaos.Base.Run
use fynaos.Base.Word.{align_up}
use fynaos.Mm.Pool.{kmalloc}
use fynaos.Kernel.Interrupt.{Kernel, node_size, connect_interrupt, interrupt_service}
use fynaos.Kernel.Interrupt.Dispatch.{
  Listed, Leaves, end, entry, try_each, interrupt_service-try_each,
}
use fynaos.Kernel.Interrupt.Connected.{Connected}
use fynaos.Kernel.Interrupt.Listing.{IsFresh, connect_interrupt-Listed}

-- the node at 0x2000 is the only one of vector 33
abbrev kernel : Kernel
kernel = record {
  machine = record {
    frames = record {
      frame = λ _. record { next = none; flags = 0; order = negsuc 0 };
      count = 0;
      free_region = λ _. none;
    };
    mem = λ a.
        if a == 0xFFFF800000001000
        then 4096
        else if a == 0xFFFF800000001018
        then 4072
        else if a == 0xFFFF800000002000
        then 7
        else 0;
    interrupts = true;
    cr3 = 0;
    pools = 0xFFFF800000001000;
    tail = 0xFFFF800000001000;
    current_mm = 0;
    kernel_mm = 0;
  };
  handlers = λ k. if k == 33 then 0xFFFF800000002000 else 0;
}

one_listed : Listed kernel.machine.mem (kernel.handlers 33) (7 ∷ []) (0xFFFF800000002000 ∷ [])
one_listed = entry refl refl refl refl end

pure-Leaves : Leaves (0xFFFF800000002000 ∷ []) (λ _. pure (pos 0))
pure-Leaves handler s t answer run =
    let same : t ≡ s = Run.result_of {P = λ _ u. u ≡ s} (returns refl) run in
    (
      ap (λ (u : Kernel). u.machine.mem 0xFFFF800000002000) same,
      ap (λ (u : Kernel). u.machine.mem 0xFFFF800000002008) same,
      tt,
    )

interrupt_service-try_each_example :
    interrupt_service (λ _. pure (pos 0)) 1 33 kernel ≡ try_each (λ _. pure (pos 0)) (7 ∷ []) kernel
interrupt_service-try_each_example =
    interrupt_service-try_each (λ _. pure (pos 0)) 1 33 kernel (7 ∷ []) (0xFFFF800000002000 ∷ [])
      (omega arith) (omega arith) one_listed pure-Leaves (omega arith)

fresh :
    Returns
      (IsFresh (kernel.handlers 33) (7 ∷ []) (0xFFFF800000002000 ∷ []))
      (kmalloc node_size (record kernel.machine { interrupts = false }))
unfolding kmalloc align_up
fresh = returns (record {
  some = refl;
  here = refl;
  there = refl;
  listed = entry refl refl refl refl end;
  here_outside = (λ e. omega (arith, e), λ e. omega (arith, e), tt);
  there_outside = (λ e. omega (arith, e), λ e. omega (arith, e), tt);
})

connect_interrupt-Listed_example :
    Returns
      (λ answer t.
        (answer ≡ pos 0)
        × ((node : ℕ) × Listed t.machine.mem
              (t.handlers 33)
              (9 ∷ 7 ∷ [])
              (node ∷ 0xFFFF800000002000 ∷ []))
        × ((k : ℕ) → k ≢ 33 → t.handlers k ≡ kernel.handlers k)
        × (t.machine.interrupts ≡ true))
      (connect_interrupt 9 33 kernel)
connect_interrupt-Listed_example =
    connect_interrupt-Listed 9 33 kernel (7 ∷ []) (0xFFFF800000002000 ∷ []) (omega arith)
      (omega arith) fresh
