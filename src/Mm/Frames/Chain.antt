-- ===== src/Mm/Frames/Chain.antt =====
-- The free lists of mm/pmm.c: what a chain of `next` pointers from `mm_free_region[order]` holds.
use fynaos.Base.{
  ap, ◌≢◌, ℕ, ◌+◌, ◌%◌, ◌^◌, ◌≤◌, ◌≡◌, refl, arith, Option, none, some, List, [], ◌∷◌, pos, bit_and,
  contains, true, false, Bool-cases, inl, inr, ◌==◌, ==→eq, subst, sym,
}
use fynaos.Mm.Frames.{Frames, max_order}

-- `p` is the first frame of a free block of `2^k` frames, and points to `next`.
pub record IsBlock (s : Frames) (k p : ℕ) (next : Option ℕ) : Type 0 where
  pub points : (s.frame p).next ≡ next
  pub order : (s.frame p).order ≡ pos k
  pub inside : p + 2 ^ k ≤ s.count
  pub aligned : p % 2 ^ k ≡ 0
  pub unused : bit_and (s.frame p).flags 3 ≡ 0

-- From `head` the pointers lead through the blocks `xs`, all different, to NULL.
pub data Chain (s : Frames) (k : ℕ) : Option ℕ → List ℕ → Type 0 where
  nil : Chain s k none []
  cons :
      {p : ℕ} {next : Option ℕ} {xs : List ℕ}
      → IsBlock s k p next
      → contains p xs ≡ false
      → Chain s k next xs
      → Chain s k (some p) (p ∷ xs)

-- `lists k` is the free list of order `k`.
pub record IsFree (s : Frames) (lists : ℕ → List ℕ) : Type 0 where
  pub chain : (k : ℕ) → k ≤ max_order → Chain s k (s.free_region k) (lists k)

-- A block depends on the frame and on the size of the table.
pub IsBlock-frame :
    {s t : Frames} {k p : ℕ} {next : Option ℕ}
    → IsBlock s k p next
    → s.count ≡ t.count
    → t.frame p ≡ s.frame p
    → IsBlock t k p next
IsBlock-frame b size e = ground arith

IsBlock-next :
    {s : Frames} {k p : ℕ} {next : Option ℕ} → IsBlock s k p next → IsBlock s k p (s.frame p).next
IsBlock-next {s} {k} {p} b = subst (λ n. IsBlock s k p n) (sym b.points) b

-- A chain is one of another state that has the same table size and the same frames in the chain.
pub Chain-frame :
    {s t : Frames} {k : ℕ} {h : Option ℕ} {xs : List ℕ}
    → Chain s k h xs
    → s.count ≡ t.count
    → ((p : ℕ) → contains p xs ≡ true → t.frame p ≡ s.frame p)
    → Chain t k h xs
Chain-frame nil size same = nil
Chain-frame {s} {t} {k} (cons {p} {next} {xs} b new c) size same =
    cons (IsBlock-frame b size (same p (ground arith))) new
      (Chain-frame c size (λ q m. same q (ground arith)))

pub record Uncons (s : Frames) (k p : ℕ) (xs : List ℕ) : Type 0 where
  pub rest : List ℕ
  pub split : xs ≡ p ∷ rest
  pub block : IsBlock s k p (s.frame p).next
  pub new : contains p rest ≡ false
  pub chain : Chain s k (s.frame p).next rest

module _ {s : Frames} {k : ℕ} where
  pub uncons : {h : Option ℕ} {xs : List ℕ} (p : ℕ) → Chain s k h xs → h ≡ some p → Uncons s k p xs
  uncons p nil e = cc
  uncons p (cons {p = q} {next} {xs} b new c) e =
      let same : q ≡ p = cc in
      subst (λ r. Uncons s k r (q ∷ xs)) same
        (record {
          rest = xs;
          split = refl;
          block = IsBlock-next b;
          new = new;
          chain = subst (λ n. Chain s k n xs) (sym b.points) c;
        })

  pub nil_of_none : {h : Option ℕ} {xs : List ℕ} → Chain s k h xs → h ≡ none → xs ≡ []
  nil_of_none nil e = refl
  nil_of_none (cons b new c) e = cc

  pub IsBlock-of_mem :
      {h : Option ℕ} {xs : List ℕ} (p : ℕ)
      → Chain s k h xs
      → contains p xs ≡ true
      → IsBlock s k p (s.frame p).next
  IsBlock-of_mem p nil m = cc
  IsBlock-of_mem p (cons {p = q} {next} {xs} b new c) m = elim (Bool-cases (p == q)) [
    | inl e ↦ subst (λ r. IsBlock s k r (s.frame r).next) (sym (==→eq p q e)) (IsBlock-next b)
    | inr e ↦ IsBlock-of_mem p c (ground arith)
  ]

-- What is in the list is not what is not in it.
pub contains_ne : (q p : ℕ) (xs : List ℕ) → contains q xs ≡ true → contains p xs ≡ false → q ≢ p
contains_ne q p xs m n e = cc (ap (λ (t : ℕ). contains t xs) e)
