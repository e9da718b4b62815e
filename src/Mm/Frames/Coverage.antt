-- ===== src/Mm/Frames/Coverage.antt =====
-- How many free blocks cover a page: the view of the free lists of mm/pmm.c that forgets how the
-- pages are cut into blocks. Two blocks that share a page would cover it twice.
use native.Mathlib.Nat.{pow-suc}
use fynaos.Base.{
  ℕ, zero, suc, ◌+◌, ◌^◌, ◌≤◌, ◌<◌, ◌≡◌, ◌≢◌, refl, arith, List, [], ◌∷◌, contains, true, ltb, leb,
  ◌==◌, ◌&&◌, if◌then◌else◌, update, Bool-cases, inl, inr,
}
use fynaos.Mm.Frames.{max_order}

-- 1 if page `i` lies in the block of `2^k` pages from `p`
unfoldable pub inside : ℕ → ℕ → ℕ → ℕ
inside k p i = if leb p i && ltb i (p + 2 ^ k) then 1 else 0

unfoldable pub covered : ℕ → List ℕ → ℕ → ℕ
covered k [] i = 0
covered k (p ∷ xs) i = inside k p i + covered k xs i

-- the orders below `n`
unfoldable pub coverage_to : ℕ → (ℕ → List ℕ) → ℕ → ℕ
coverage_to zero lists i = 0
coverage_to (suc n) lists i = covered n (lists n) i + coverage_to n lists i

unfoldable pub coverage : (ℕ → List ℕ) → ℕ → ℕ
coverage lists i = coverage_to (suc max_order) lists i

-- No page is in two free blocks.
abbrev pub Disjoint : (ℕ → List ℕ) → Type 0
Disjoint lists = (i : ℕ) → coverage lists i ≤ 1

pub inside-split : (k p i : ℕ) → inside (suc k) p i ≡ inside k p i + inside k (p + 2 ^ k) i
unfolding inside
inside-split k p i = ground (arith, pow-suc 2 k)

pub inside_self : (k p i : ℕ) → p ≤ i → i < p + 2 ^ k → inside k p i ≡ 1
unfolding inside
inside_self k p i h h' = ground arith

pub inside_out : (k p i : ℕ) → p + 2 ^ k ≤ i → inside k p i ≡ 0
unfolding inside
inside_out k p i h = ground arith

pub inside_below : (k p i : ℕ) → i < p → inside k p i ≡ 0
unfolding inside
inside_below k p i h = ground arith

pub covered-cons :
    (k p : ℕ) (xs : List ℕ) (i : ℕ) → covered k (p ∷ xs) i ≡ inside k p i + covered k xs i
unfolding covered
covered-cons k p xs i = refl

pub covered-mem :
    (k p : ℕ) (xs : List ℕ) (i : ℕ)
    → contains p xs ≡ true
    → p ≤ i
    → i < p + 2 ^ k
    → 1 ≤ covered k xs i
unfolding covered
covered-mem k p [] i m h h' = cc
covered-mem k p (q ∷ xs) i m h h' = ground (arith, inside_self k p i, covered-mem k p xs i)

pub coverage_to-update_above :
    (n k : ℕ) (ys : List ℕ) (lists : ℕ → List ℕ) (i : ℕ)
    → n ≤ k
    → coverage_to n (update lists k ys) i ≡ coverage_to n lists i
unfolding coverage_to
coverage_to-update_above zero k ys lists i h = refl
coverage_to-update_above (suc n) k ys lists i h =
    ground (arith, coverage_to-update_above n k ys lists i)

pub coverage_to-update :
    (n k : ℕ) (ys : List ℕ) (lists : ℕ → List ℕ) (i : ℕ)
    → k < n
    → coverage_to n (update lists k ys) i + covered k (lists k) i
      ≡ coverage_to n lists i + covered k ys i
unfolding coverage_to
coverage_to-update zero k ys lists i h = absurd (omega arith)
coverage_to-update (suc n) k ys lists i h = elim (Bool-cases (n == k)) [
  | inl e ↦ ground (arith, coverage_to-update_above n k ys lists i)
  | inr e ↦ ground (arith, coverage_to-update n k ys lists i)
]

-- Giving the list of one order anew exchanges what it covers.
pub coverage-update :
    (k : ℕ) (ys : List ℕ) (lists : ℕ → List ℕ) (i : ℕ)
    → k ≤ max_order
    → coverage (update lists k ys) i + covered k (lists k) i ≡ coverage lists i + covered k ys i
unfolding coverage
coverage-update k ys lists i h = coverage_to-update 12 k ys lists i (omega arith)

covered-le_to :
    (n k : ℕ) (lists : ℕ → List ℕ) (i : ℕ) → k < n → covered k (lists k) i ≤ coverage_to n lists i
unfolding coverage_to
covered-le_to zero k lists i h = absurd (omega arith)
covered-le_to (suc n) k lists i h = elim (Bool-cases (n == k)) [
  | inl e ↦ ground arith
  | inr e ↦ ground (arith, covered-le_to n k lists i)
]

pub covered-le :
    (k : ℕ) (lists : ℕ → List ℕ) (i : ℕ) → k ≤ max_order → covered k (lists k) i ≤ coverage lists i
unfolding coverage
covered-le k lists i h = covered-le_to 12 k lists i (omega arith)

covered-add-le_to :
    (n j k : ℕ) (lists : ℕ → List ℕ) (i : ℕ)
    → j < n
    → k < n
    → j ≢ k
    → covered j (lists j) i + covered k (lists k) i ≤ coverage_to n lists i
unfolding coverage_to
covered-add-le_to zero j k lists i h h' ne = absurd (omega arith)
covered-add-le_to (suc n) j k lists i h h' ne = elim (Bool-cases (n == k)) [
  | inl e ↦ ground (arith, covered-le_to n j lists i)
  | inr e ↦ elim (Bool-cases (n == j)) [
    | inl e' ↦ ground (arith, covered-le_to n k lists i)
    | inr e' ↦ ground (arith, covered-add-le_to n j k lists i)
  ]
]

-- Two orders together cover no more than all.
pub covered-add-le :
    (j k : ℕ) (lists : ℕ → List ℕ) (i : ℕ)
    → j ≤ max_order
    → k ≤ max_order
    → j ≢ k
    → covered j (lists j) i + covered k (lists k) i ≤ coverage lists i
unfolding coverage
covered-add-le j k lists i h h' ne = covered-add-le_to 12 j k lists i (omega arith) (omega arith) ne
