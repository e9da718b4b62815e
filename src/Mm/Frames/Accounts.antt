-- ===== src/Mm/Frames/Accounts.antt =====
-- The whole account of the frames of mm/pmm.c: the free blocks and the blocks that are handed out.
use fynaos.Base.{
  ℕ, zero, suc, ◌+◌, ◌%◌, ◌^◌, ◌≤◌, ◌<◌, ◌≡◌, inl, inr, arith, List, [], ◌∷◌, pos, bit_and,
  contains, true, false, Bool-cases, ltb, leb, ◌&&◌,
}
use fynaos.Base.Bits.{pow-pos}
use fynaos.Mm.Frames.{Frames, max_order}
use fynaos.Mm.Frames.Chain.{IsFree}
use fynaos.Mm.Frames.Coverage.{inside, covered, coverage, coverage_to, covered-mem, covered-le}

-- `p` starts a block of `2^k` frames that was handed out: FRAME_ALLOCATED alone is set.
pub record IsHeld (s : Frames) (k p : ℕ) : Type 0 where
  pub order : (s.frame p).order ≡ pos k
  pub inside : p + 2 ^ k ≤ s.count
  pub aligned : p % 2 ^ k ≡ 0
  pub marked : bit_and (s.frame p).flags 3 ≡ 1

-- The free blocks `lists` and the handed out blocks `owned` share no page, and each frame that has
-- an order and no flag lies in one of them.
pub record IsAccounted (s : Frames) (lists owned : ℕ → List ℕ) : Type 0 where
  pub free : IsFree s lists
  pub held : (k p : ℕ) → k ≤ max_order → contains p (owned k) ≡ true → IsHeld s k p
  pub apart : (i : ℕ) → coverage lists i + coverage owned i ≤ 1
  pub known :
      (q k : ℕ)
      → q < s.count
      → (s.frame q).order ≡ pos k
      → bit_and (s.frame q).flags 3 ≡ 0
      → 1 ≤ coverage lists q + coverage owned q

-- the block of a list that covers a page
pub record Cover (lists : ℕ → List ℕ) (i : ℕ) : Type 0 where
  pub k : ℕ
  pub p : ℕ
  pub small : k ≤ max_order
  pub member : contains p (lists k) ≡ true
  pub from : p ≤ i
  pub to : i < p + 2 ^ k

covered-Cover :
    (k : ℕ) (xs : List ℕ) (i : ℕ)
    → 1 ≤ covered k xs i
    → (p : ℕ) × (contains p xs ≡ true) × (p ≤ i) × (i < p + 2 ^ k)
unfolding covered inside
covered-Cover k [] i h = absurd (omega arith)
covered-Cover k (x ∷ xs) i h = elim (Bool-cases (leb x i && ltb i (x + 2 ^ k))) [
  | inl e ↦ (x, ground arith, ground arith, ground arith)
  | inr e ↦ let (p, m, lo, hi) = covered-Cover k xs i (ground arith) in (p, ground arith, lo, hi)
]

coverage_to-Cover :
    (n : ℕ) (lists : ℕ → List ℕ) (i : ℕ)
    → n ≤ suc max_order
    → 1 ≤ coverage_to n lists i
    → Cover lists i
unfolding coverage_to
coverage_to-Cover zero lists i small h = absurd (omega arith)
coverage_to-Cover (suc n) lists i small h = elim (Bool-cases (leb 1 (covered n (lists n) i))) [
  | inl e ↦
      let (p, m, lo, hi) = covered-Cover n (lists n) i (ground arith) in
      record { k = n; p = p; small = omega arith; member = m; from = lo; to = hi }
  | inr e ↦ coverage_to-Cover n lists i (omega arith) (ground arith)
]

pub coverage-Cover : (lists : ℕ → List ℕ) (i : ℕ) → 1 ≤ coverage lists i → Cover lists i
unfolding coverage
coverage-Cover lists i h = coverage_to-Cover 12 lists i (omega arith) h

-- A member covers its own first page.
pub coverage-mem :
    (lists : ℕ → List ℕ) (k p i : ℕ)
    → k ≤ max_order
    → contains p (lists k) ≡ true
    → p ≤ i
    → i < p + 2 ^ k
    → 1 ≤ coverage lists i
coverage-mem lists k p i h m lo hi =
    omega (arith, covered-mem k p (lists k) i m lo hi, covered-le k lists i h)

pub not-mem_of_uncovered :
    (lists : ℕ → List ℕ) (k p : ℕ)
    → k ≤ max_order
    → coverage lists p ≡ 0
    → contains p (lists k) ≡ false
not-mem_of_uncovered lists k p h e = elim (Bool-cases (contains p (lists k))) [
  | inl m ↦
      absurd (omega (arith, coverage-mem lists k p p h m (omega arith) (omega (arith, pow-pos k))))
  | inr out ↦ out
]
