-- ===== src/Kernel/Interrupt/Dispatch.antt =====
-- interrupt_service of kernel/interrupt.c against trying a list of handlers in turn.
use fynaos.Base.{
  ℕ, zero, suc, ◌≤◌, ◌<◌, ◌≡◌, ◌∙◌, refl, arith, true, false, ℤ, pos, ◌==ℤ◌, List, [], ◌∷◌, length,
  M, ok, pure, panic, ◌>>=◌, Bool-cases, inl, inr, lt→ltb, le→ltb,
}
use fynaos.Base.Run.{and_then_agree}
use fynaos.Mm.Machine.{usable, load}
use fynaos.Kernel.Interrupt.{Kernel, on_machine, node_next, serve, interrupt_service}

-- The list from a node on: its handlers, and its nodes.
pub data Listed (mem : ℕ → ℕ) : ℕ → List ℕ → List ℕ → Type 0 where
  end : Listed mem 0 [] []
  entry :
      {a handler next : ℕ} {handlers nodes : List ℕ}
      → usable (suc a) ≡ true
      → usable (node_next (suc a)) ≡ true
      → mem (suc a) ≡ handler
      → mem (node_next (suc a)) ≡ next
      → Listed mem next handlers nodes
      → Listed mem (suc a) (handler ∷ handlers) (suc a ∷ nodes)

-- Two memories agree on the words of the nodes.
abbrev pub Agree : List ℕ → (ℕ → ℕ) → (ℕ → ℕ) → Type 0
Agree [] mem mem' = Unit
Agree (a ∷ nodes) mem mem' =
    (mem' a ≡ mem a) × (mem' (node_next a) ≡ mem (node_next a)) × Agree nodes mem mem'

pub Listed-kept :
    {mem mem' : ℕ → ℕ} {a : ℕ} {handlers nodes : List ℕ}
    → Listed mem a handlers nodes
    → Agree nodes mem mem'
    → Listed mem' a handlers nodes
Listed-kept end agree = end
Listed-kept (entry here there e e' rest) (same, same', agree) =
    entry here there (same ∙ e) (same' ∙ e') (Listed-kept rest agree)

-- A handler that returns leaves the nodes as they are.
abbrev pub Leaves : List ℕ → (ℕ → M Kernel ℤ) → Type 0
Leaves nodes call =
    (handler : ℕ) (s t : Kernel) (answer : ℤ)
    → call handler s ≡ ok (answer, t)
    → Agree nodes s.machine.mem t.machine.mem

-- The handlers in turn, until one returns 0.
pub try_each : (ℕ → M Kernel ℤ) → List ℕ → M Kernel (Unit {0})
try_each call [] = panic
try_each call (handler ∷ handlers) = do
  answer ← call handler
  elim (answer ==ℤ pos 0) [ true ↦ pure tt | false ↦ try_each call handlers ]

load-there :
    (a : ℕ) (s : Kernel) → usable a ≡ true → on_machine (load a) s ≡ ok (s.machine.mem a, s)
unfolding on_machine load
load-there a s e = rw (e, on_machine) refl

serve-try_each :
    (call : ℕ → M Kernel ℤ) (fuel : ℕ) (s : Kernel) {a : ℕ} {handlers nodes : List ℕ}
    → Listed s.machine.mem a handlers nodes
    → Leaves nodes call
    → length handlers ≤ fuel
    → serve call fuel a s ≡ try_each call handlers s
unfolding serve try_each
serve-try_each call zero s end leaves h = refl
serve-try_each call (suc fuel) s end leaves h = refl
serve-try_each call zero s (entry here there e e' rest) leaves h = absurd (omega arith)
serve-try_each call (suc fuel) s (entry {a} here there e e' rest) leaves h =
    rw (load-there (suc a) s here, e)
      (and_then_agree (call _ s) λ answer t run.
        let (same, same', agree) = leaves _ s t answer run in
        elim (Bool-cases (answer ==ℤ pos 0)) [
          | inl z ↦ rw (z, serve, try_each) refl
          | inr z ↦
              rw (z, serve, try_each, load-there (node_next (suc a)) t there, same' ∙ e')
                (serve-try_each call fuel t (Listed-kept rest agree)
                  (λ handler s t answer run. (leaves handler s t answer run).2) (omega (arith, h)))
        ])

-- For a vector from 32 up whose list of handlers is in memory, where a handler that returns leaves
-- the nodes of the list as they are and the fuel covers the list, interrupt_service calls the handlers
-- in the order of the list until one returns 0, and panics where none does.
pub interrupt_service-try_each :
    (call : ℕ → M Kernel ℤ) (fuel vector : ℕ) (s : Kernel) (handlers nodes : List ℕ)
    → 32 ≤ vector
    → vector < 256
    → Listed s.machine.mem (s.handlers vector) handlers nodes
    → Leaves nodes call
    → length handlers ≤ fuel
    → interrupt_service call fuel vector s ≡ try_each call handlers s
unfolding interrupt_service
interrupt_service-try_each call fuel vector s handlers nodes from below listed leaves h =
    rw (lt→ltb vector 256 below, le→ltb vector 32 from) (serve-try_each call fuel s listed leaves h)
