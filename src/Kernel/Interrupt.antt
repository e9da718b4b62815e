-- ===== src/Kernel/Interrupt.antt =====
-- connect_interrupt and interrupt_service of kernel/interrupt.c. A node of a list of handlers is two
-- words of memory, { handler, next }. What a handler does is a parameter: it may change any state.
-- interrupt_service ends by exit_interrupt_service, which is the end of the run here, or by a panic.
pub mod Connected
pub mod Dispatch
pub mod Listing
mod Tests
use fynaos.Base.{
  ℕ, zero, suc, ◌+◌, ltb, leb, ◌==◌, if◌then◌else◌, u64, ℤ, pos, negsuc, ◌==ℤ◌, update, M, ok,
  panicked, fault, out_of_fuel, pure, panic, get, ◌>>=◌, ◌>>◌, true, false,
}
use fynaos.Mm.Machine.{Machine, load, store, save_and_disable_interrupts, restore_interrupts}
use fynaos.Mm.Pool.{kmalloc}

-- the machine, and `interrupt_handlers`: the heads of the 256 lists
pub record Kernel : Type 0 where
  pub machine : Machine
  pub handlers : ℕ → ℕ

unfoldable pub on_machine : {A : Type 0} → M Machine A → M Kernel A
on_machine m s = elim (m s.machine) [
  | ok (a, t) ↦ ok (a, record s { machine = t })
  | panicked ↦ panicked
  | fault ↦ fault
  | out_of_fuel ↦ out_of_fuel
]

-- `interrupt_handlers[number]`
unfoldable pub handlers_at : ℕ → M Kernel ℕ
handlers_at number s = if ltb number 256 then ok (s.handlers number, s) else fault

unfoldable pub set_handlers : ℕ → ℕ → M Kernel (Unit {0})
set_handlers number node s =
    if ltb number 256 then ok (tt, record s { handlers = update s.handlers number node }) else fault

-- `sizeof(struct interrupt_handler_info)`
abbrev pub node_size : ℕ
node_size = 16

-- the address of `next`
abbrev pub node_next : ℕ → ℕ
node_next node = u64 (node + 8)

-- `-EINVAL` and `-ENOMEM`
abbrev pub invalid_argument : ℤ
invalid_argument = negsuc 21

abbrev pub no_memory : ℤ
no_memory = negsuc 11

-- the node at the head of its list
unfoldable pub link_node : ℕ → ℕ → ℕ → M Kernel (Unit {0})
unfolding on_machine handlers_at set_handlers
link_node handler number node = do
  on_machine (store node handler)
  head ← handlers_at number
  on_machine (store (node_next node) head)
  set_handlers number node

unfoldable pub connect_interrupt : ℕ → ℕ → M Kernel ℤ
unfolding on_machine link_node save_and_disable_interrupts restore_interrupts
connect_interrupt handler number = if ltb number 32 then pure invalid_argument else do
  flags ← on_machine save_and_disable_interrupts
  node ← on_machine (kmalloc node_size)
  if node == 0
      then (do on_machine (restore_interrupts flags); pure no_memory)
      else (do link_node handler number node; on_machine (restore_interrupts flags); pure (pos 0))

-- The walk over the handlers of the vector, with `fuel` nodes to go. A handler that returns 0 ends it.
serve : (ℕ → M Kernel ℤ) → ℕ → ℕ → M Kernel (Unit {0})
unfolding on_machine
serve call fuel zero = panic
serve call zero (suc head) = λ _. out_of_fuel
serve call (suc fuel) (suc head) = do
  handler ← on_machine (load (suc head))
  answer ← call handler
  elim (answer ==ℤ pos 0) [
    | true ↦ pure tt
    | false ↦ do next ← on_machine (load (node_next (suc head))); serve call fuel next
  ]

unfoldable pub interrupt_service : (ℕ → M Kernel ℤ) → ℕ → ℕ → M Kernel (Unit {0})
unfolding handlers_at serve
interrupt_service call fuel vector = do
  head ← handlers_at vector
  if ltb vector 32 then panic else serve call fuel head
