-- ===== src/Mm/Frames/Detached.antt =====
-- A block of mm/pmm.c that is in no list, as merge_buddy holds one, and where its buddy lies.
use fynaos.Base.{
  ℕ, ◌+◌, ◌%◌, ◌^◌, ◌≤◌, ◌<◌, ◌≡◌, inl, inr, sym, ◌∙◌, subst, ap, arith, List, pos, bit_and,
  contains, true, leb, leb→le, Bool-cases,
}
use fynaos.Base.Bits.{pow-pos}
use fynaos.Mm.Frames.{Frames, max_order}
use fynaos.Mm.Frames.Accounts.{IsHeld, Cover, coverage-Cover, coverage-mem}
use fynaos.Mm.Frames.Buddy.{IsPair, block_with_buddy}
use fynaos.Mm.Frames.Chain.{IsFree, IsBlock-of_mem}
use fynaos.Mm.Frames.Coverage.{inside, coverage, inside_self, inside_out, inside_below}
use fynaos.Mm.Frames.Remove.{pos-injective}

-- The account of the frames while the block of `2^o` frames at `f` is in no list.
pub record IsDetached (s : Frames) (lists owned : ℕ → List ℕ) (o f : ℕ) : Type 0 where
  pub free : IsFree s lists
  pub held : (k p : ℕ) → k ≤ max_order → contains p (owned k) ≡ true → IsHeld s k p
  pub apart : (i : ℕ) → coverage lists i + coverage owned i + inside o f i ≤ 1
  pub known :
      (q k : ℕ)
      → q < s.count
      → (s.frame q).order ≡ pos k
      → bit_and (s.frame q).flags 3 ≡ 0
      → 1 ≤ coverage lists q + coverage owned q + inside o f q
  pub order : (s.frame f).order ≡ pos o
  pub small : o ≤ max_order
  pub within : f + 2 ^ o ≤ s.count
  pub aligned : f % 2 ^ o ≡ 0
  pub unused : bit_and (s.frame f).flags 3 ≡ 0

module _ {s : Frames} {lists owned : ℕ → List ℕ} {o f : ℕ} (d : IsDetached s lists owned o f) where
  pub covers_self : inside o f f ≡ 1
  covers_self = inside_self o f f (omega arith) (omega (arith, pow-pos o))

  -- no block of the account covers the detached frame
  pub uncovered : (coverage lists f ≡ 0) × (coverage owned f ≡ 0)
  uncovered = omega (arith, covers_self, d.apart f)

  -- a block of the account that holds the buddy starts with it, or holds the detached frame too
  listed_block :
      (b : ℕ)
      → IsPair o f b
      → (s.frame b).order ≡ pos o
      → Cover lists b
      → contains b (lists o) ≡ true
  listed_block b pair order c =
      let block = IsBlock-of_mem c.p (d.free.chain c.k c.small) c.member in
      elim (block_with_buddy o f b c.k c.p pair block.aligned c.from c.to) [
        | inl same ↦
            let k_is : c.k ≡ o =
              pos-injective (sym block.order ∙ ap (λ q. (s.frame q).order) (sym same) ∙ order) in
            subst (λ k. contains b (lists k) ≡ true) k_is
              (subst (λ q. contains q (lists c.k) ≡ true) (sym same) c.member)
        | inr both ↦
            absurd (
              omega (arith, uncovered, coverage-mem lists c.k c.p f c.small c.member both.0 both.1))
      ]

  owned_block : (b : ℕ) → IsPair o f b → bit_and (s.frame b).flags 3 ≡ 0 → ¬ Cover owned b
  owned_block b pair unused c =
      let block = d.held c.k c.p c.small c.member in
      elim (block_with_buddy o f b c.k c.p pair block.aligned c.from c.to) [
        | inl same ↦ omega (arith, block.marked, ap (λ q. bit_and (s.frame q).flags 3) same, unused)
        | inr both ↦
            omega (arith, uncovered, coverage-mem owned c.k c.p f c.small c.member both.0 both.1)
      ]

  apart_buddy : (b : ℕ) → IsPair o f b → inside o f b ≡ 0
  apart_buddy b pair = elim pair.halves [
    | inl (low, high) ↦ inside_out o f b (omega (arith, low, high))
    | inr (high, low) ↦ inside_below o f b (omega (arith, low, high, pow-pos o))
  ]

  -- A buddy that passes the tests of the loop is in the free list of its order.
  pub buddy-mem :
      (b : ℕ)
      → IsPair o f b
      → b < s.count
      → (s.frame b).order ≡ pos o
      → bit_and (s.frame b).flags 3 ≡ 0
      → contains b (lists o) ≡ true
  buddy-mem b pair lt order unused = elim (Bool-cases (leb 1 (coverage lists b))) [
    | inl e ↦ listed_block b pair order (coverage-Cover lists b (leb→le _ _ e))
    | inr e ↦
        let free_of_it : coverage lists b ≡ 0 = ground arith in
        absurd (
          owned_block b pair unused (
            coverage-Cover owned b
              (omega (arith, d.known b o lt order unused, free_of_it, apart_buddy b pair))))
  ]
