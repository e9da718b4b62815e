-- ===== src/Mm/Frames/Region.antt =====
-- init_buddy_allocator of mm/pmm.c: a region of pages becomes free blocks.
use native.Mathlib.Nat.{mod-eq_of_lt}
use fynaos.Base.{
  ℕ, zero, suc, ◌+◌, ◌-◌, ◌%◌, ◌^◌, ◌≤◌, ◌<◌, ◌≡◌, inl, inr, refl, sym, subst, ◌∙◌, ◌⊎◌, arith,
  some, List, ◌∷◌, pos, ok, update, ◌==◌, ==→eq, ltb→lt, ltb, leb, ◌&&◌, if◌then◌else◌, bit_and,
  contains, false, Returns, returns, Bool-cases,
}
use fynaos.Base.Run
use fynaos.Base.Bits.{pow-pos}
use fynaos.Mm.Frames.{Frames, max_order, init_buddy_allocator, buddy_loop, add_block, get_max_order}
use fynaos.Mm.Frames.Chain.{Chain, cons, IsFree, Chain-frame, contains_ne}
use fynaos.Mm.Frames.Coverage.{
  inside, coverage, covered-cons, covered-mem, inside_out, covered-le, coverage-update,
}
use fynaos.Mm.Frames.Orders.{get_max_order-IsLargest, get_max_order-inside}

-- 1 if page `i` lies in the region
unfoldable pub span : ℕ → ℕ → ℕ → ℕ
span begin limit i = if leb begin i && ltb i limit then 1 else 0

-- The first block of a region, and the rest.
span-split :
    (begin limit k i : ℕ)
    → begin + 2 ^ k ≤ limit
    → span begin limit i ≡ inside k begin i + span (begin + 2 ^ k) limit i
unfolding span inside
span-split begin limit k i h = ground (arith, pow-pos k)

-- The region is inside the table, its frames carry neither flag, and no free block covers it.
pub record IsFresh (s : Frames) (lists : ℕ → List ℕ) (begin limit : ℕ) : Type 0 where
  pub within : limit ≤ s.count
  pub unused : (i : ℕ) → begin ≤ i → i < limit → bit_and (s.frame i).flags 3 ≡ 0
  pub uncovered : (i : ℕ) → begin ≤ i → i < limit → coverage lists i ≡ 0

module _ {s : Frames} {lists : ℕ → List ℕ} (free : IsFree s lists) where
  abbrev added : ℕ → ℕ → Frames
  added begin order = record s {
    frame =
        update s.frame begin
          (record (s.frame begin) { order = pos order; next = s.free_region order });
    free_region = update s.free_region order (some begin);
  }

  add_block-added :
      (begin order : ℕ)
      → order ≤ max_order
      → begin < s.count
      → add_block begin order s ≡ ok (tt, added begin order)
  unfolding add_block
  add_block-added begin order h fits = ground arith

  module _ {begin limit order : ℕ} (fresh : IsFresh s lists begin limit) (small : order ≤ max_order)
      (aligned : begin % 2 ^ order ≡ 0) (fits : begin + 2 ^ order ≤ limit) where
    absent : (j : ℕ) → j ≤ max_order → contains begin (lists j) ≡ false
    absent j hj = elim (Bool-cases (contains begin (lists j))) [
      | inl m ↦ absurd (
          omega (
            arith,
            covered-mem j begin (lists j) begin m (omega arith) (omega (arith, pow-pos j)),
            covered-le j lists begin hj,
            fresh.uncovered begin (omega arith) (omega (arith, pow-pos order)),
          ))
      | inr m ↦ m
    ]

    kept-Chain : (j : ℕ) → j ≤ max_order → Chain (added begin order) j (s.free_region j) (lists j)
    kept-Chain j hj =
        Chain-frame (free.chain j hj) refl
          λ q m. ground (arith, contains_ne q begin (lists j), absent j hj)

    added-Chain :
        (j : ℕ)
        → j ≤ max_order
        → Chain
            (added begin order)
            j
            ((added begin order).free_region j)
            (update lists order (begin ∷ lists order) j)
    added-Chain j hj = elim (Bool-cases (j == order)) [
      | inl e ↦ rw e (
          subst (λ i. Chain (added begin order) i (some begin) (begin ∷ lists order))
            (sym (==→eq j order e))
            (cons
              (record {
                points = ground arith;
                order = ground arith;
                inside = omega (arith, fits, fresh.within);
                aligned = aligned;
                unused = ground (arith, fresh.unused begin, pow-pos order);
              })
              (absent order small) (kept-Chain order small)))
      | inr e ↦ rw e (kept-Chain j hj)
    ]

    added-coverage :
        (i : ℕ)
        → coverage (update lists order (begin ∷ lists order)) i
          ≡ coverage lists i + inside order begin i
    added-coverage i = omega (
      arith,
      coverage-update order (begin ∷ lists order) lists i small,
      covered-cons order begin (lists order) i,
    )

    added-IsFresh :
        IsFresh
          (added begin order)
          (update lists order (begin ∷ lists order))
          (begin + 2 ^ order)
          limit
    added-IsFresh = record {
      within = fresh.within;
      unused = λ i lo hi. ground (arith, fresh.unused i, pow-pos order);
      uncovered = λ i lo hi. omega (
        arith,
        added-coverage i,
        fresh.uncovered i (omega arith) hi,
        inside_out order begin i lo,
      );
    }

-- What a region adds to the free lists; frames outside it stay.
abbrev pub IsFreed : (ℕ → List ℕ) → Frames → ℕ → ℕ → Frames → Type 0
IsFreed lists s begin limit t =
    (after : ℕ → List ℕ) × IsFree t after
    × ((i : ℕ) → coverage after i ≡ coverage lists i + span begin limit i)
    × (t.count ≡ s.count)
    × ((q : ℕ) → (q < begin) ⊎ (limit ≤ q) → t.frame q ≡ s.frame q)

span_empty : (begin limit i : ℕ) → limit ≤ begin → span begin limit i ≡ 0
unfolding span
span_empty begin limit i h = ground arith

buddy_loop-IsFreed :
    (fuel : ℕ) {s : Frames} {lists : ℕ → List ℕ} (begin limit : ℕ)
    → IsFree s lists
    → IsFresh s lists begin limit
    → limit + 2 ^ 11 < 2 ^ 64
    → limit - begin < fuel
    → Returns (λ _. IsFreed lists s begin limit) (buddy_loop fuel begin limit s)
unfolding buddy_loop
buddy_loop-IsFreed zero begin limit free fresh small enough = absurd (omega arith)
buddy_loop-IsFreed (suc fuel) {s} {lists} begin limit free fresh small enough =
    elim (Bool-cases (ltb begin limit)) [
      | inr e ↦
          rw (e, buddy_loop)
            (returns (
              lists,
              free,
              λ i. omega (arith, span_empty begin limit i (ground arith)),
              refl,
              λ q out. refl,
            ))
      | inl e ↦
          rw (e, buddy_loop)
            (let lt = ltb→lt begin limit e in
              let order = get_max_order begin limit in
              let bound = (get_max_order-IsLargest begin limit (omega arith)).0 in
              let block = get_max_order-inside begin limit lt (omega arith) in
              rw
                (add_block-added free begin (get_max_order begin limit) bound
                  (omega (arith, lt, fresh.within)))
                (rw
                  (mod-eq_of_lt {n = begin + 2 ^ order} {m = 2 ^ 64}
                    (omega (arith, block.1, small)))
                  (Run.mono
                    (buddy_loop-IsFreed fuel (begin + 2 ^ order) limit
                      (record { chain = added-Chain free fresh bound block.0 block.1 })
                      (added-IsFresh free fresh bound block.0 block.1) small
                      (omega (arith, lt, enough, pow-pos order)))
                    λ _ t (after, free', same, size, kept). (
                      after,
                      free',
                      λ i. omega (
                        arith,
                        same i,
                        added-coverage free fresh bound block.0 block.1 i,
                        span-split begin limit order i block.1,
                      ),
                      size,
                      λ q out. kept q (omega (arith, out)) ∙ ground (arith, out, lt),
                    ))))
    ]

-- Fresh pages that are handed to the allocator, where the sums stay below 2^64, become free
-- blocks: the run ends well, the lists stay well formed, exactly the pages of the region are
-- covered once more, and no frame outside the region changes.
pub init_buddy_allocator-IsFreed :
    {s : Frames} {lists : ℕ → List ℕ} (begin limit : ℕ)
    → IsFree s lists
    → IsFresh s lists begin limit
    → limit + 2 ^ 11 < 2 ^ 64
    → Returns (λ _. IsFreed lists s begin limit) (init_buddy_allocator begin limit s)
unfolding init_buddy_allocator
init_buddy_allocator-IsFreed begin limit free fresh small =
    buddy_loop-IsFreed (suc (limit - begin)) begin limit free fresh small (omega arith)
