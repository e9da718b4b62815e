-- ===== src/Mm/Frames/Divide.antt =====
-- divide_buddy of mm/pmm.c: what the division of a block does to the free lists.
use native.Mathlib.Nat.{pow-suc, div-add-mod', mul-mod_left}
use fynaos.Base.{
  ◌%◌, ◌/◌, ap, sym, subst, ==→eq, contains, true, false, Bool-cases, inl, inr, ◌≢◌, ℕ, suc, ◌+◌,
  ◌*◌, ◌^◌, ◌≤◌, ◌<◌, ◌≡◌, refl, arith, Option, some, List, ◌∷◌, pos, ok, Returns, returns, update,
  ◌==◌,
}
use fynaos.Base.Bits.{pow-pos}
use fynaos.Mm.Frames.{Frame, Frames, max_order, divide_buddy}
use fynaos.Mm.Frames.Chain.{IsBlock, Chain, cons, IsFree, Chain-frame, uncons}
use fynaos.Mm.Frames.Coverage.{
  covered, coverage, Disjoint, inside-split, inside_self, covered-mem, covered-cons,
  coverage-update, covered-le, covered-add-le,
}

-- The second half of the block that is divided
multiple_mod : (c p m : ℕ) → p ≡ c * m → p % m ≡ 0
multiple_mod c p m e = rw e (mul-mod_left c m)

abbrev upper : Frames → ℕ → ℕ → Frame
upper s k p = record { next = s.free_region k; flags = (s.frame p).flags; order = pos k }

abbrev lower : Frames → ℕ → ℕ → Frame
lower s k p = record (s.frame p) { order = pos k; next = some (p + 2 ^ k) }

abbrev divided : Frames → ℕ → ℕ → Frames
divided s k p = record s {
  frame =
      update
        (update (update s.frame p (record (s.frame p) { order = pos k })) (p + 2 ^ k) (upper s k p))
        p (lower s k p);
  free_region = update (update s.free_region (suc k) (s.frame p).next) k (some p);
}

divide_buddy-divided :
    (s : Frames) (k p : ℕ)
    → suc k ≤ max_order
    → s.free_region (suc k) ≡ some p
    → p + 2 ^ k < s.count
    → divide_buddy (suc k) s ≡ ok (tt, divided s k p)
unfolding divide_buddy
divide_buddy-divided s k p hk head fits = ground (arith, pow-pos k)

aligned_halves : (k p : ℕ) → p % 2 ^ suc k ≡ 0 → (p % 2 ^ k ≡ 0) × ((p + 2 ^ k) % 2 ^ k ≡ 0)
aligned_halves k p h = (
  multiple_mod (c * 2) p (2 ^ k) halves,
  multiple_mod (c * 2 + 1) (p + 2 ^ k) (2 ^ k) (omega (arith, halves)),
)
  where
    c : ℕ
    c = p / 2 ^ suc k

    halves : p ≡ c * 2 * 2 ^ k
    halves =
        omega
          (arith, h, div-add-mod' p (2 ^ suc k), ap (λ (t : ℕ). p / 2 ^ suc k * t) (pow-suc 2 k))

module _ {s : Frames} {lists : ℕ → List ℕ} (free : IsFree s lists) (apart : Disjoint lists) where
  -- A page of a free block is the start of no block of another order.
  pub other_order :
      (k p q j : ℕ)
      → k ≤ max_order
      → contains p (lists k) ≡ true
      → p ≤ q
      → q < p + 2 ^ k
      → j ≤ max_order
      → j ≢ k
      → contains q (lists j) ≡ false
  other_order k p q j hk m lo hi hj ne = elim (Bool-cases (contains q (lists j))) [
    | inl e ↦ absurd (
        omega (
          arith,
          covered-mem j q (lists j) q e (omega arith) (omega (arith, pow-pos j)),
          covered-mem k p (lists k) q m lo hi,
          covered-add-le j k lists q hj hk ne,
          apart q,
        ))
    | inr e ↦ e
  ]

  -- nor of another block of its own order
  same_order :
      (k p q : ℕ) (rest : List ℕ)
      → k ≤ max_order
      → lists k ≡ p ∷ rest
      → p ≤ q
      → q < p + 2 ^ k
      → contains q rest ≡ false
  same_order k p q rest hk e lo hi = elim (Bool-cases (contains q rest)) [
    | inl m ↦ absurd (
        omega (
          arith,
          covered-mem k q rest q m (omega arith) (omega (arith, pow-pos k)),
          inside_self k p q lo hi,
          covered-le k lists q hk,
          covered-cons k p rest q,
          ap (λ xs. covered k xs q) e,
          apart q,
        ))
    | inr m ↦ m
  ]

-- the free lists after a division
abbrev split_lists : (ℕ → List ℕ) → ℕ → ℕ → List ℕ → ℕ → List ℕ
split_lists lists k p rest = update (update lists (suc k) rest) k (p ∷ (p + 2 ^ k) ∷ lists k)

split-coverage :
    (lists : ℕ → List ℕ) (k p : ℕ) (rest : List ℕ) (i : ℕ)
    → suc k ≤ max_order
    → lists (suc k) ≡ p ∷ rest
    → coverage (split_lists lists k p rest) i ≡ coverage lists i
split-coverage lists k p rest i hk e = ground (
  arith,
  coverage-update (suc k) rest lists i,
  coverage-update k (p ∷ (p + 2 ^ k) ∷ lists k) (update lists (suc k) rest) i,
  covered-cons (suc k) p rest i,
  covered-cons k p ((p + 2 ^ k) ∷ lists k) i,
  covered-cons k (p + 2 ^ k) (lists k) i,
  inside-split k p i,
  ap (λ xs. covered (suc k) xs i) e,
)

module _ {s : Frames} {lists : ℕ → List ℕ} (free : IsFree s lists) (apart : Disjoint lists) where
  -- what a division needs to know of the block that it divides
  record Divisible (k p : ℕ) (rest : List ℕ) : Type 0 where
    bounded : suc k ≤ max_order
    listed : lists (suc k) ≡ p ∷ rest
    block : IsBlock s (suc k) p (s.frame p).next
    new : contains p rest ≡ false
    chain : Chain s (suc k) (s.frame p).next rest

  module _ {k p : ℕ} {rest : List ℕ} (d : Divisible k p rest) where
    open d use {bounded, listed, block, new, chain}

    member : contains p (lists (suc k)) ≡ true
    member = rw listed (ground arith)

    absent :
        (q j : ℕ)
        → p ≤ q
        → q < p + 2 ^ suc k
        → j ≤ max_order
        → j ≢ suc k
        → contains q (lists j) ≡ false
    absent q j = other_order free apart (suc k) p q j bounded member

    untouched : (q : ℕ) → q ≢ p → q ≢ p + 2 ^ k → (divided s k p).frame q ≡ s.frame q
    untouched q ne ne' = ground arith

    -- a chain that holds neither half is the same afterwards
    untouched-Chain :
        {h : Option ℕ} {xs : List ℕ} (j : ℕ)
        → Chain s j h xs
        → contains p xs ≡ false
        → contains (p + 2 ^ k) xs ≡ false
        → Chain (divided s k p) j h xs
    untouched-Chain {xs} j c no_lower no_upper = Chain-frame c refl λ q m.
        untouched q (λ e. absurd_mem q p m no_lower e) (λ e. absurd_mem q (p + 2 ^ k) m no_upper e)
      where
        absurd_mem : (q r : ℕ) → contains q xs ≡ true → contains r xs ≡ false → q ≡ r → ⊥
        absurd_mem q r m n e = cc (ap (λ (t : ℕ). contains t xs) e)

    absent_upper : (j : ℕ) → j ≤ max_order → j ≢ suc k → contains (p + 2 ^ k) (lists j) ≡ false
    absent_upper j hj ne =
        absent (p + 2 ^ k) j (omega arith) (omega (arith, pow-suc 2 k, pow-pos k)) hj ne

    absent_lower : (j : ℕ) → j ≤ max_order → j ≢ suc k → contains p (lists j) ≡ false
    absent_lower j hj ne = absent p j (omega arith) (omega (arith, pow-pos (suc k))) hj ne

    -- the list of the smaller order
    halves-Chain : Chain (divided s k p) k (some p) (p ∷ (p + 2 ^ k) ∷ lists k)
    halves-Chain =
        let halves = aligned_halves k p block.aligned in
        let no_lower : contains p (lists k) ≡ false = absent_lower k (omega arith) (omega arith) in
        let no_upper : contains (p + 2 ^ k) (lists k) ≡ false =
          absent_upper k (omega arith) (omega arith) in
        cons
          (record {
            points = ground arith;
            order = ground arith;
            inside = omega (arith, block.inside, pow-suc 2 k);
            aligned = halves.0;
            unused = ground (arith, block.unused);
          })
          (ground (arith, pow-pos k))
          (cons
            (record {
              points = ground (arith, pow-pos k);
              order = ground (arith, pow-pos k);
              inside = omega (arith, block.inside, pow-suc 2 k);
              aligned = halves.1;
              unused = ground (arith, block.unused, pow-pos k);
            })
            no_upper (untouched-Chain k (free.chain k (omega arith)) no_lower no_upper))

    divided-Chain :
        (j : ℕ)
        → j ≤ max_order
        → Chain (divided s k p) j ((divided s k p).free_region j) (split_lists lists k p rest j)
    divided-Chain j hj = elim (Bool-cases (j == k)) [
      | inl e ↦ rw e (
          subst (λ i. Chain (divided s k p) i (some p) (p ∷ (p + 2 ^ k) ∷ lists k))
            (sym (==→eq j k e)) halves-Chain)
      | inr e ↦ rw e (elim (Bool-cases (j == suc k)) [
        | inl e' ↦ rw e' (
            subst (λ i. Chain (divided s k p) i (s.frame p).next rest) (sym (==→eq j (suc k) e'))
              (untouched-Chain (suc k) chain new (
                same_order free apart (suc k) p (p + 2 ^ k) rest bounded listed (omega arith)
                  (omega (arith, pow-suc 2 k, pow-pos k)))))
        | inr e' ↦ rw e' (
            untouched-Chain j (free.chain j hj) (absent_lower j hj (ground arith))
              (absent_upper j hj (ground arith)))
      ])
    ]

    -- The frames that change lie in the block.
    uncovered-untouched : (q : ℕ) → coverage lists q ≡ 0 → (divided s k p).frame q ≡ s.frame q
    uncovered-untouched q e =
        untouched q (outside p (omega arith) (omega (arith, pow-pos (suc k))))
          (outside (p + 2 ^ k) (omega arith) (omega (arith, pow-suc 2 k, pow-pos k)))
      where
        outside : (r : ℕ) → p ≤ r → r < p + 2 ^ suc k → q ≢ r
        outside r lo hi same = omega (
          arith,
          covered-mem (suc k) p (lists (suc k)) q member,
          covered-le (suc k) lists q bounded,
          e,
        )

-- Where the free lists are well formed without overlaps and the list of an order from 1 to 11 is
-- not empty, the division of its first block ends well: it keeps the lists well formed, the pages
-- that they cover and the frames that no block covers, and leaves the lower half at the head of
-- the next list.
pub divide_buddy-IsFree :
    {s : Frames} {lists : ℕ → List ℕ} (k p : ℕ)
    → IsFree s lists
    → Disjoint lists
    → suc k ≤ max_order
    → s.free_region (suc k) ≡ some p
    → Returns
        (λ _ t.
          (after : ℕ → List ℕ) × IsFree t after
          × ((i : ℕ) → coverage after i ≡ coverage lists i)
          × (t.free_region k ≡ some p)
          × (t.count ≡ s.count)
          × ((q : ℕ) → coverage lists q ≡ 0 → t.frame q ≡ s.frame q))
        (divide_buddy (suc k) s)
divide_buddy-IsFree {s} {lists} k p free apart hk head =
    let u = uncons p (free.chain (suc k) hk) head in
    let d : Divisible free apart k p u.rest = record {
      bounded = hk;
      listed = u.split;
      block = u.block;
      new = u.new;
      chain = u.chain;
    } in
    rw (divide_buddy-divided s k p hk head (omega (arith, u.block.inside, pow-suc 2 k, pow-pos k)))
      (returns (
        split_lists lists k p u.rest,
        record { chain = divided-Chain free apart d },
        λ i. split-coverage lists k p u.rest i hk u.split,
        ground arith,
        refl,
        uncovered-untouched free apart d,
      ))
