-- ===== src/Kernel/Interrupt/Listing.antt =====
-- connect_interrupt of kernel/interrupt.c puts the handler at the head of the list of its vector.
use fynaos.Base.{
  ℕ, zero, suc, ◌≤◌, ◌<◌, ◌≡◌, ◌≢◌, refl, arith, true, false, ◌==◌, pos, List, [], ◌∷◌, Returns,
  returns, update, lt→ltb, le→ltb, ne→==, eq→==,
}
use fynaos.Base.Run
use fynaos.Mm.Machine.{Machine, usable, save_and_disable_interrupts, restore_interrupts}
use fynaos.Mm.Pool.{kmalloc}
use fynaos.Kernel.Interrupt.{
  Kernel, on_machine, handlers_at, set_handlers, node_next, node_size, link_node, connect_interrupt,
}
use fynaos.Kernel.Interrupt.Dispatch.{Listed, entry, Listed-kept, Agree}
use fynaos.Kernel.Interrupt.Connected.{on_machine-ok, store-there, with_word}

-- The word at `a` is none of the words of the nodes.
abbrev pub Outside : ℕ → List ℕ → Type 0
Outside a [] = Unit
Outside a (n ∷ nodes) = (n ≢ a) × (node_next n ≢ a) × Outside a nodes

Agree-update :
    (nodes : List ℕ) (mem : ℕ → ℕ) (a v : ℕ) → Outside a nodes → Agree nodes mem (update mem a v)
Agree-update [] mem a v o = tt
Agree-update (n ∷ nodes) mem a v (here, there, o) =
    (rw (ne→== n a here) refl, rw (ne→== (node_next n) a there) refl, Agree-update nodes mem a v o)

-- A node that memory has room for, beside the list that is there.
pub record IsFresh (head : ℕ) (handlers nodes : List ℕ) (node : ℕ) (m : Machine) : Type 0 where
  pub some : (node == 0) ≡ false
  pub here : usable node ≡ true
  pub there : usable (node_next node) ≡ true
  pub listed : Listed m.mem head handlers nodes
  pub here_outside : Outside node nodes
  pub there_outside : Outside (node_next node) nodes

own_words : (node : ℕ) → usable node ≡ true → node ≢ node_next node
own_words node h e = ground (arith, h, e)

linked-Listed :
    (handler head node : ℕ) (handlers nodes : List ℕ) (m : Machine)
    → IsFresh head handlers nodes node m
    → Listed
        (update (update m.mem node handler) (node_next node) head)
        node
        (handler ∷ handlers)
        (node ∷ nodes)
linked-Listed handler head zero handlers nodes m f = absurd (let e = f.some in ground arith)
linked-Listed handler head (suc node) handlers nodes m f =
    entry f.here f.there
      (rw
        (
          ne→== (suc node) (node_next (suc node)) (own_words (suc node) f.here),
          eq→== (suc node) (suc node) refl,
        )
        refl)
      (rw (eq→== (node_next (suc node)) (node_next (suc node)) refl) refl)
      (Listed-kept
        (Listed-kept f.listed (Agree-update nodes m.mem (suc node) handler f.here_outside))
        (Agree-update nodes (update m.mem (suc node) handler) (node_next (suc node)) head
          f.there_outside))

-- For a vector from 32 below 256, where kmalloc gives memory for a node beside the list of the vector,
-- connect_interrupt returns 0: the list has the handler before those that it had, the heads of the
-- other lists are as before, and so is the interrupt flag.
pub connect_interrupt-Listed :
    (handler number : ℕ) (s : Kernel) (handlers nodes : List ℕ)
    → 32 ≤ number
    → number < 256
    → Returns
        (IsFresh (s.handlers number) handlers nodes)
        (kmalloc node_size (record s.machine { interrupts = false }))
    → Returns
        (λ answer t.
          (answer ≡ pos 0)
          × ((node : ℕ) × Listed t.machine.mem
                (t.handlers number)
                (handler ∷ handlers)
                (node ∷ nodes))
          × ((k : ℕ) → k ≢ number → t.handlers k ≡ s.handlers k)
          × (t.machine.interrupts ≡ s.machine.interrupts))
        (connect_interrupt handler number s)
unfolding connect_interrupt on_machine link_node handlers_at set_handlers
    save_and_disable_interrupts restore_interrupts
connect_interrupt-Listed handler number s handlers nodes from below fresh =
    let (node, m, run, f) = Run.outcome fresh in
    let behind : Kernel = record s { machine = m } in
    rw
      (
        le→ltb number 32 from,
        on_machine-ok (kmalloc node_size)
            (record s { machine = record s.machine { interrupts = false } }) run,
        f.some,
        store-there node handler behind f.here,
        lt→ltb number 256 below,
        store-there (node_next node) (s.handlers number) (with_word behind node handler) f.there,
        lt→ltb number 256 below,
      )
      (returns (
        refl,
        (
          node,
          rw (eq→== number number refl)
              (linked-Listed handler (s.handlers number) node handlers nodes m f),
        ),
        (λ k h. rw (ne→== k number h) refl),
        refl,
      ))
