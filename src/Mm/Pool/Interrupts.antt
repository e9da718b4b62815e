-- ===== src/Mm/Pool/Interrupts.antt =====
-- kmalloc of mm/pool.c and the interrupt flag.
use fynaos.Base.{
  ℕ, zero, suc, ◌+◌, ◌^◌, ◌≡◌, ◌⊎◌, subst, inl, inr, refl, Bool, true, false, not, ◌&&◌, ltb, leb,
  ◌==◌, if◌then◌else◌, bit_or, u64, sub64, align_up, M, Result, ok, panicked, fault, out_of_fuel,
  pure, ◌>>◌, Bool-cases, pos, invalid_address,
}
use fynaos.Base.Run.{and_then}
use fynaos.Mm.Frames.{Frames, alloc_frames}
use fynaos.Mm.Layout.{page_size}
use fynaos.Mm.Machine.{
  Machine, usable, load, store, on_frames, phys_to_virt, zero_page, save_and_disable_interrupts,
  restore_interrupts,
}
use fynaos.Mm.Pool.{
  block_size, pool_size, pool_fuel, block_used, block_next, block_prev, pool_next, pool_first,
  pool_usage, find_block, use_block, divide, allocate, init_single_pool, extend_pool, kmalloc_loop,
  kmalloc, is_block_used, get_block_len,
}

-- The run does not change the interrupt flag `b`, and `P` holds of its result.
pub data Quiet {A : Type 0} (b : Bool) (P : A → Type 0) : Result (A × Machine) → Type 0 where
  still : {a : A} {t : Machine} → P a → t.interrupts ≡ b → Quiet b P (ok (a, t))
  halted : Quiet b P panicked
  wild : Quiet b P fault
  unfinished : Quiet b P out_of_fuel

abbrev pub Calm : {A : Type 0} → (A → Type 0) → M Machine A → Type 0
Calm P m = (s : Machine) → Quiet s.interrupts P (m s)

-- nothing is asked of the result
abbrev Any : {A : Type 0} → A → Type 0
Any _ = Unit {0}

Quiet-then :
    {A B : Type 0} {b : Bool} {P : A → Type 0} {Q : B → Type 0} {r : Result (A × Machine)}
    {k : A → M Machine B}
    → Quiet b P r
    → ((a : A) → P a → Calm Q (k a))
    → Quiet b Q (and_then r k)
Quiet-then {Q} {k = k} (still {a} {t} p e) next = subst (λ c. Quiet c Q (k a t)) e (next a p t)
Quiet-then halted next = halted
Quiet-then wild next = wild
Quiet-then unfinished next = unfinished

Calm-if :
    {A : Type 0} {P : A → Type 0} (c : Bool) {m n : M Machine A}
    → Calm P m
    → Calm P n
    → Calm P (if c then m else n)
Calm-if true cm cn = cm
Calm-if false cm cn = cn

pure-Calm : {A : Type 0} (a : A) → Calm Any (pure a)
pure-Calm a s = still tt refl

load-Calm : (a : ℕ) → Calm Any (load a)
unfolding load
load-Calm a s = elim (Bool-cases (usable a)) [ inl e ↦ rw e (still tt refl) | inr e ↦ rw e wild ]

store-Calm : (a v : ℕ) → Calm Any (store a v)
unfolding store
store-Calm a v s = elim (Bool-cases (usable a)) [ inl e ↦ rw e (still tt refl) | inr e ↦ rw e wild ]

zero_page-Calm : (a : ℕ) → Calm Any (zero_page a)
unfolding zero_page
zero_page-Calm a s =
    elim (Bool-cases (usable (phys_to_virt a) && leb (phys_to_virt a + page_size) (2 ^ 64))) [
      | inl e ↦ rw e (still tt refl)
      | inr e ↦ rw e wild
    ]

on_frames-Calm : {A : Type 0} (m : M Frames A) → Calm Any (on_frames m)
unfolding on_frames
on_frames-Calm m s =
    elim (m s.frames)
      as (λ r. Quiet s.interrupts Any (elim r [
        | ok (a, t) ↦ ok (a, record s { frames = t })
        | panicked ↦ panicked
        | fault ↦ fault
        | out_of_fuel ↦ out_of_fuel
      ])) [
        | ok (a, t) ↦ still tt refl
        | panicked ↦ halted
        | fault ↦ wild
        | out_of_fuel ↦ unfinished
      ]

divide-Calm : (block data_len : ℕ) → Calm Any (divide block data_len)
unfolding divide
divide-Calm block data_len s = Quiet-then (load-Calm block s) λ header _ s.
    elim (Bool-cases (leb (get_block_len header) (u64 (data_len + block_size)))) [
      | inl e ↦ rw e (still tt refl)
      | inr e ↦ rw e (
          let size = u64 (data_len + block_size) in
          let block2 = u64 (block + data_len + block_size) in
          Quiet-then (load-Calm (block_next block) s) λ next _ s.
            Quiet-then (store-Calm block2 (sub64 (get_block_len header) size) s) λ _ _ s.
              Quiet-then (store-Calm block size s) λ _ _ s.
                Quiet-then (store-Calm (block_next block) block2 s) λ _ _ s.
                  Quiet-then (store-Calm (block_next block2) next s) λ _ _ s.
                    Quiet-then (store-Calm (block_prev block2) block s) λ _ _ s.
                      Quiet-then
                        (Calm-if (next == 0) (pure-Calm tt) (store-Calm (block_prev next) block2) s)
                        λ _ _ s. still tt refl)
    ]

find_block-Calm : (fuel len first : ℕ) → Calm Any (find_block fuel len first)
unfolding find_block
find_block-Calm zero len zero s = still tt refl
find_block-Calm (suc fuel) len zero s = still tt refl
find_block-Calm zero len (suc first) s = unfinished
find_block-Calm (suc fuel) len (suc first) s = Quiet-then (load-Calm (suc first) s) λ header _ s.
    elim (Bool-cases
      (not (is_block_used header) && leb (u64 (len + block_size)) (get_block_len header))) [
        | inl e ↦ rw (e, find_block) (still tt refl)
        | inr e ↦
            rw (e, find_block)
              (Quiet-then (load-Calm (block_next (suc first)) s)
                λ next _ s. find_block-Calm fuel len next s)
      ]

use_block-Calm : (len block : ℕ) → Calm Any (use_block len block)
unfolding use_block
use_block-Calm len block s = Quiet-then (load-Calm block s) λ header _ s.
    elim (Bool-cases (is_block_used header)) [
      | inl e ↦ rw e (still tt refl)
      | inr e ↦ rw e (
          Quiet-then
            (Calm-if (ltb len (sub64 (get_block_len header) block_size))
              (λ s. Quiet-then (divide-Calm block len s) λ _ _ s. still tt refl) (pure-Calm tt) s)
            λ _ _ s.
              Quiet-then (load-Calm block s) λ h _ s.
                Quiet-then (store-Calm block (bit_or h block_used) s) λ _ _ s. still tt refl)
    ]

allocate-Calm : (first len : ℕ) → Calm Any (allocate first len)
unfolding allocate
allocate-Calm first len s =
    Quiet-then (find_block-Calm pool_fuel (align_up len 16) first s)
      λ block _ s. Calm-if (block == 0) (pure-Calm 0) (use_block-Calm (align_up len 16) block) s

init_single_pool-Calm : (pool len : ℕ) → Calm Any (init_single_pool pool len)
unfolding init_single_pool
init_single_pool-Calm pool len s = Quiet-then (store-Calm pool len s) λ _ _ s.
    Quiet-then (store-Calm (pool_next pool) 0 s) λ _ _ s.
      Quiet-then (store-Calm (pool_usage pool) 0 s) λ _ _ s.
        Quiet-then (store-Calm (pool_first pool) (sub64 len pool_size) s) λ _ _ s.
          Quiet-then (store-Calm (block_next (pool_first pool)) 0 s)
            λ _ _ s. store-Calm (block_prev (pool_first pool)) 0 s

extend_pool-Calm : Calm Any extend_pool
unfolding extend_pool
extend_pool-Calm s = Quiet-then (on_frames-Calm (alloc_frames (pos 0)) s) λ page _ s.
    elim (Bool-cases (page == invalid_address)) [
      | inl e ↦ rw e (still tt refl)
      | inr e ↦ rw e (
          Quiet-then (zero_page-Calm page s) λ _ _ s.
            Quiet-then (store-Calm (pool_next s.tail) (phys_to_virt page) s) λ _ _ s.
              Quiet-then (init_single_pool-Calm (phys_to_virt page) page_size s)
                λ _ _ s. still tt refl)
    ]

-- The loop brings an address, or it fails with NULL.
abbrev IsAnswer : ℕ × Bool → Type 0
IsAnswer r = ((r.1 ≡ true) × ((r.0 == 0) ≡ false)) ⊎ ((r.1 ≡ false) × (r.0 ≡ 0))

kmalloc_loop-Calm : (fuel len pool : ℕ) → Calm IsAnswer (kmalloc_loop fuel len pool)
unfolding kmalloc_loop
kmalloc_loop-Calm zero len pool s = unfinished
kmalloc_loop-Calm (suc fuel) len pool s =
    Quiet-then (allocate-Calm (pool_first pool) len s) λ addr _ s. elim (Bool-cases (addr == 0)) [
      | inr e ↦ rw (e, kmalloc_loop) (still (inl (refl, e)) refl)
      | inl e ↦
          rw (e, kmalloc_loop)
            (Quiet-then (load-Calm (pool_next pool) s) λ next _ s.
              Quiet-then (Calm-if (next == 0) extend_pool-Calm (pure-Calm true) s) λ extended _ s.
                elim (Bool-cases extended) [
                  | inr e' ↦ rw e' (still (inr (refl, refl)) refl)
                  | inl e' ↦ rw e' (
                      Quiet-then (load-Calm (pool_next pool) s)
                        λ next' _ s. kmalloc_loop-Calm fuel len next' s)
                ])
    ]

-- How kmalloc ends from a state with the interrupt flag `b`: with an address and the flag as it was,
-- with NULL and interrupts off, or not.
pub data Answer (b : Bool) : Result (ℕ × Machine) → Type 0 where
  served :
      {addr : ℕ} {t : Machine} → (addr == 0) ≡ false → t.interrupts ≡ b → Answer b (ok (addr, t))
  denied : {addr : ℕ} {t : Machine} → addr ≡ 0 → t.interrupts ≡ false → Answer b (ok (addr, t))
  stopped : Answer b panicked
  broken : Answer b fault
  cut_off : Answer b out_of_fuel

answer :
    {b : Bool} {r : Result ((ℕ × Bool) × Machine)}
    → Quiet false IsAnswer r
    → Answer b (
        and_then r
          (λ (addr, found). if found then (restore_interrupts b >> pure addr) else pure addr))
unfolding restore_interrupts
answer (still (inl (e, e')) quiet) = rw e (served e' refl)
answer (still (inr (e, e')) quiet) = rw e (denied e' quiet)
answer halted = stopped
answer wild = broken
answer unfinished = cut_off

-- Where kmalloc returns an address, the interrupt flag is as it was before the call; where it returns
-- NULL, interrupts are off, whatever they were before.
pub kmalloc-Answer : (len : ℕ) (s : Machine) → Answer s.interrupts (kmalloc len s)
unfolding kmalloc save_and_disable_interrupts
kmalloc-Answer len s =
    answer (kmalloc_loop-Calm (s.frames.count + 2) len s.pools (record s { interrupts = false }))
