-- ===== src/Mm/Frames/Alloc.antt =====
-- alloc_frames of mm/pmm.c: the search for a free block, its division and its removal.
use native.Mathlib.Nat.{add-suc, add-zero}
use fynaos.Mm.Frames.Access.{free_head-ok}
use fynaos.Base.{
  ◌≢◌, contains, true, ◌∙◌, ℕ, zero, suc, ◌+◌, ◌-◌, ◌*◌, ◌%◌, ◌^◌, ◌≤◌, ◌<◌, ◌≡◌, ◌⊎◌, inl, inr,
  refl, sym, subst, ap, arith, none, some, List, [], pos, ok, update, ◌==◌, ==→eq, bit_and, u64,
  Returns, returns, Bool-cases, Option-cases, ◌>>◌, invalid_address,
}
use fynaos.Base.Run
use fynaos.Base.Bits.{pow-pos, or_one_flags}
use fynaos.Mm.Frames.{
  Frames, max_order, alloc_frames, find_order, divide_loop, take_block, add_flag, frame_allocated,
}
use fynaos.Mm.Frames.Chain.{Chain, IsFree, Chain-frame, Uncons, uncons, contains_ne, nil_of_none}
use fynaos.Mm.Frames.Coverage.{
  covered-mem, covered-le, inside, covered, coverage, Disjoint, covered-cons, coverage-update,
}
use fynaos.Mm.Frames.Divide.{other_order, divide_buddy-IsFree}

-- The run handed out the block of `2^order` frames at `addr`: it was free, it is marked, and the
-- pages of the free lists are those of before less the block.
pub record IsAllocation (s : Frames) (lists : ℕ → List ℕ) (order addr : ℕ) (t : Frames)
    : Type 0 where
  pub page : ℕ
  pub address : addr ≡ u64 (page * 2 ^ 12)
  pub aligned : page % 2 ^ order ≡ 0
  pub within : page + 2 ^ order ≤ s.count
  pub sized : (t.frame page).order ≡ pos order
  pub marked : bit_and (t.frame page).flags 3 ≡ frame_allocated
  pub after : ℕ → List ℕ
  pub free : IsFree t after
  pub conserved : (i : ℕ) → coverage lists i ≡ coverage after i + inside order page i
  pub same_count : t.count ≡ s.count
  pub untouched : (q : ℕ) → coverage lists q ≡ 0 → t.frame q ≡ s.frame q

module _ {s : Frames} {lists : ℕ → List ℕ} (free : IsFree s lists) (apart : Disjoint lists) where
  abbrev taken : ℕ → ℕ → Frames
  taken order p = record s {
    frame = update s.frame p (add_flag (s.frame p) frame_allocated);
    free_region = update s.free_region order (s.frame p).next;
  }

  take_block-taken :
      (order p : ℕ)
      → order ≤ max_order
      → s.free_region order ≡ some p
      → p < s.count
      → take_block order s ≡ ok (u64 (p * 2 ^ 12), taken order p)
  unfolding take_block
  take_block-taken order p h head fits = ground arith

  taken-Chain :
      (order p : ℕ)
      → order ≤ max_order
      → (u : Uncons s order p (lists order)) → (j : ℕ) → j ≤ max_order
      → Chain (taken order p) j ((taken order p).free_region j) (update lists order u.rest j)
  taken-Chain order p h u j hj = elim (Bool-cases (j == order)) [
    | inl e ↦ rw e (
        subst (λ i. Chain (taken order p) i (s.frame p).next u.rest) (sym (==→eq j order e))
          (Chain-frame u.chain refl λ q m. ground (arith, contains_ne q p u.rest, u.new)))
    | inr e ↦ rw e (
        Chain-frame (free.chain j hj) refl λ q m. ground (
          arith,
          contains_ne q p (lists j),
          other_order free apart order p p j h (rw u.split (ground arith)) (omega arith)
              (omega (arith, pow-pos order)) hj,
        ))
  ]

  uncovered_ne :
      (order p : ℕ)
      → order ≤ max_order
      → contains p (lists order) ≡ true
      → (q : ℕ) → coverage lists q ≡ 0
      → q ≢ p
  uncovered_ne order p h m q e same = omega (
    arith,
    covered-mem order p (lists order) q m (omega arith) (omega (arith, pow-pos order)),
    covered-le order lists q h,
    e,
  )

  take_block-IsAllocation :
      (order p : ℕ)
      → order ≤ max_order
      → s.free_region order ≡ some p
      → Returns (IsAllocation s lists order) (take_block order s)
  take_block-IsAllocation order p h head =
      let u = uncons p (free.chain order h) head in
      rw (take_block-taken order p h head (omega (arith, u.block.inside, pow-pos order))) (
        returns (record {
          page = p;
          address = refl;
          aligned = u.block.aligned;
          within = u.block.inside;
          sized = ground (arith, u.block.order);
          marked = ground (arith, or_one_flags (s.frame p).flags u.block.unused);
          after = update lists order u.rest;
          free = record { chain = taken-Chain order p h u };
          conserved = λ i. omega (
            arith,
            coverage-update order u.rest lists i h,
            covered-cons order p u.rest i,
            ap (λ xs. covered order xs i) u.split,
          );
          same_count = refl;
          untouched = λ q e. ground (arith, uncovered_ne order p h (rw u.split (ground arith)) q e);
        }))

-- What the division loop keeps: the pages that the lists cover and the size of the table.
abbrev IsDivided : Frames → (ℕ → List ℕ) → ℕ → Frames → Type 0
IsDivided s lists order t =
    (after : ℕ → List ℕ) × (p : ℕ) × IsFree t after
    × ((i : ℕ) → coverage after i ≡ coverage lists i)
    × (t.free_region order ≡ some p)
    × (t.count ≡ s.count)
    × ((q : ℕ) → coverage lists q ≡ 0 → t.frame q ≡ s.frame q)

divide_loop-IsDivided :
    (rounds : ℕ) {s : Frames} {lists : ℕ → List ℕ} (order p : ℕ)
    → IsFree s lists
    → Disjoint lists
    → order + rounds ≤ max_order
    → s.free_region (order + rounds) ≡ some p
    → Returns (λ _. IsDivided s lists order) (divide_loop rounds order s)
unfolding divide_loop
divide_loop-IsDivided zero {s} {lists} order p free apart h head = returns (
  lists,
  p,
  free,
  λ i. refl,
  subst (λ k. s.free_region k ≡ some p) (add-zero order) head,
  refl,
  λ q e. refl,
)
divide_loop-IsDivided (suc rounds) {s} {lists} order p free apart h head = rw add-suc (
    Run.bind
      (divide_buddy-IsFree (order + rounds) p free apart (omega arith)
        (subst (λ k. s.free_region k ≡ some p) (add-suc order rounds) head))
      λ _ t (after, free', same, head', size, kept).
        Run.mono
          (divide_loop-IsDivided rounds order p free' (λ i. omega (arith, same i, apart i))
            (omega arith) head')
          λ _ t' (after', q, free'', same', head'', size', kept'). (
            after',
            q,
            free'',
            λ i. omega (arith, same i, same' i),
            head'',
            omega (arith, size, size'),
            λ q e. kept' q (omega (arith, same q, e)) ∙ kept q e,
          ))

-- Where the search for an order stops: at a block, or at the last order.
abbrev IsFound : Frames → ℕ → ℕ → Frames → Type 0
IsFound s order c t =
    (t ≡ s)
    × (order ≤ c)
    × (c ≤ max_order)
    × ((c ≡ max_order) ⊎ ((p : ℕ) × (s.free_region c ≡ some p)))
    × ((j : ℕ) → order ≤ j → j < c → s.free_region j ≡ none)

find_order-IsFound :
    (s : Frames) (rounds order : ℕ)
    → order + rounds ≡ max_order
    → Returns (IsFound s order) (find_order rounds order s)
unfolding find_order
find_order-IsFound s zero order h =
    returns (refl, omega arith, omega arith, inl (omega arith), λ j p q. absurd (omega arith))
find_order-IsFound s (suc rounds) order h = elim (Option-cases (s.free_region order)) [
  | inl e ↦
      rw (free_head-ok order s (omega arith), e)
        (Run.mono (find_order-IsFound s rounds (order + 1) (omega arith))
          λ c t (same, lo, hi, stop, empty). (
            same,
            omega arith,
            hi,
            stop,
            λ j p q. elim (Bool-cases (j == order)) [
              | inl e' ↦ subst (λ k. s.free_region k ≡ none) (sym (==→eq j order e')) e
              | inr e' ↦ empty j (ground arith) q
            ],
          ))
  | inr (p, e) ↦
      rw (free_head-ok order s (omega arith), e)
        (returns (refl, omega arith, omega arith, inr (p, e), λ j p q. absurd (omega arith)))
]

-- The two outcomes: the lists of all orders from `order` up are empty and nothing changes, or a
-- block is handed out.
abbrev pub IsOutcome : Frames → (ℕ → List ℕ) → ℕ → ℕ → Frames → Type 0
IsOutcome s lists order addr t =
    ((addr ≡ invalid_address) × (t ≡ s) × ((j : ℕ) → order ≤ j → j ≤ max_order → lists j ≡ []))
    ⊎ IsAllocation s lists order addr t

-- Where the search found a block at order `c`, the rest of the run hands out a block of `order`.
divide_take :
    {s : Frames} {lists : ℕ → List ℕ} (order c p : ℕ)
    → IsFree s lists
    → Disjoint lists
    → order ≤ c
    → c ≤ max_order
    → s.free_region c ≡ some p
    → Returns (IsAllocation s lists order) ((divide_loop (c - order) order >> take_block order) s)
divide_take {s} {lists} order c p free apart lo hi head =
    Run.bind
      (divide_loop-IsDivided (c - order) order p free apart (omega arith)
        (subst (λ k. s.free_region k ≡ some p) (rejoin order c lo) head))
      λ _ t (after, q, free', same, head', size, kept).
        Run.mono
          (take_block-IsAllocation free' (λ i. omega (arith, same i, apart i)) order q (omega arith)
            head')
          λ addr t' a. record {
            page = a.page;
            address = a.address;
            aligned = a.aligned;
            within = omega (arith, a.within, size);
            marked = a.marked;
            after = a.after;
            free = a.free;
            sized = a.sized;
            conserved = λ i. omega (arith, same i, a.conserved i);
            same_count = omega (arith, a.same_count, size);
            untouched = λ q e. a.untouched q (omega (arith, same q, e)) ∙ kept q e;
          }
  where
    rejoin : (a b : ℕ) → a ≤ b → b ≡ a + (b - a)
    rejoin a b h = omega arith

-- On well-formed free lists without overlaps and for an order up to 11, `alloc_frames` ends with
-- no panic and no fault. It returns INVALID_ADDRESS and changes nothing, where all lists from
-- `order` up are empty, or it hands out a marked, aligned block of `2^order` frames inside the
-- table; the new free lists are well formed, and cover each page as often as before, less once on
-- the pages of the block.
pub alloc_frames-IsOutcome :
    {s : Frames} {lists : ℕ → List ℕ} (order : ℕ)
    → IsFree s lists
    → Disjoint lists
    → order ≤ max_order
    → Returns (IsOutcome s lists order) (alloc_frames (pos order) s)
unfolding alloc_frames
alloc_frames-IsOutcome {s} {lists} order free apart h =
    Run.bind (find_order-IsFound s (max_order - order) order (omega arith))
      λ c t (same, lo, hi, stop, empty). rw same (elim (Option-cases (s.free_region c)) [
        | inl e ↦
            rw (free_head-ok c s hi, e)
              (returns (
                inl (
                  refl,
                  refl,
                  λ j p q. nil_of_none (free.chain j q) (all_empty c stop e empty j p q),
                )))
        | inr (p, e) ↦
            rw (free_head-ok c s hi, e)
              (Run.mono (divide_take order c p free apart lo hi e) λ _ _ a. inr a)
      ])
  where
    all_empty :
        (c : ℕ)
        → (c ≡ max_order) ⊎ ((p : ℕ) × (s.free_region c ≡ some p))
        → s.free_region c ≡ none
        → ((j : ℕ) → order ≤ j → j < c → s.free_region j ≡ none)
        → (j : ℕ) → order ≤ j
        → j ≤ max_order
        → s.free_region j ≡ none
    all_empty c (inr (p, e)) e' empty j lo hi = cc
    all_empty c (inl top) e empty j lo hi = elim (Bool-cases (j == c)) [
      | inl e' ↦ subst (λ k. s.free_region k ≡ none) (sym (==→eq j c e')) e
      | inr e' ↦ empty j lo (ground arith)
    ]
