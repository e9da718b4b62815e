-- ===== src/Kernel/Interrupt/Connected.antt =====
-- connect_interrupt of kernel/interrupt.c: how it ends, and the list that it leaves.
use fynaos.Base.{
  ℕ, ◌≤◌, ◌<◌, ◌≡◌, ◌≢◌, refl, true, false, ◌==◌, ℤ, pos, M, Result, ok, panicked, fault,
  out_of_fuel, update, ◌⊎◌, negsuc,
}
use fynaos.Mm.Machine.{Machine, usable, store}
use fynaos.Mm.Pool.{kmalloc}
use fynaos.Kernel.Interrupt.{Kernel, on_machine, node_next, node_size}

-- what kmalloc answers to connect_interrupt, which has turned interrupts off
abbrev pub asked : Kernel → Result (ℕ × Machine)
asked s = kmalloc node_size (record s.machine { interrupts = false })

-- A node that cannot be put at the head of the list: a word of it is not in the direct map, or there is
-- no such list.
abbrev pub IsUnfit : ℕ → ℕ → Type 0
IsUnfit number node = (usable node ≡ false) ⊎ ((256 ≤ number) ⊎ (usable (node_next node) ≡ false))

-- How connect_interrupt ends from `s`. -22 is -EINVAL, and -12 is -ENOMEM.
pub data Connected (number : ℕ) (s : Kernel) : Result (ℤ × Kernel) → Type 0 where
  refused : number < 32 → Connected number s (ok (negsuc 21, s))
  full :
      {u : Machine} {t : Kernel}
      → 32 ≤ number
      → asked s ≡ ok (0, u)
      → t.machine.interrupts ≡ s.machine.interrupts
      → ((k : ℕ) → t.handlers k ≡ s.handlers k)
      → Connected number s (ok (negsuc 11, t))
  added :
      {node : ℕ} {u : Machine} {t : Kernel}
      → 32 ≤ number
      → number < 256
      → asked s ≡ ok (node, u)
      → (node == 0) ≡ false
      → t.machine.interrupts ≡ s.machine.interrupts
      → ((k : ℕ) → k ≢ number → t.handlers k ≡ s.handlers k)
      → t.handlers number ≡ node
      → Connected number s (ok (pos 0, t))
  unfit :
      {node : ℕ} {u : Machine}
      → 32 ≤ number
      → asked s ≡ ok (node, u)
      → IsUnfit number node
      → Connected number s fault
  stopped : 32 ≤ number → asked s ≡ panicked → Connected number s panicked
  broken : 32 ≤ number → asked s ≡ fault → Connected number s fault
  cut_off : 32 ≤ number → asked s ≡ out_of_fuel → Connected number s out_of_fuel

-- Linking a node changes the head of its own list alone, where it ends.
data Links (number node : ℕ) (handlers : ℕ → ℕ) : Result (Unit {0} × Kernel) → Type 0 where
  linked :
      {machine : Machine}
      → number < 256
      → Links number node handlers
          (ok (tt, record { machine = machine; handlers = update handlers number node }))
  unlinked : IsUnfit number node → Links number node handlers fault

pub on_machine-ok :
    {A : Type 0} (m : M Machine A) (s : Kernel) {a : A} {t : Machine}
    → m s.machine ≡ ok (a, t)
    → on_machine m s ≡ ok (a, record s { machine = t })
unfolding on_machine
on_machine-ok m s e = rw (e, on_machine) refl

pub store-there :
    (a v : ℕ) (s : Kernel)
    → usable a ≡ true
    → on_machine (store a v) s
      ≡ ok (tt, record s { machine = record s.machine { mem = update s.machine.mem a v } })
unfolding on_machine store
store-there a v s e = rw (e, on_machine) refl

-- the memory behind the first store
abbrev pub with_word : Kernel → ℕ → ℕ → Kernel
with_word s a v = record s { machine = record s.machine { mem = update s.machine.mem a v } }
