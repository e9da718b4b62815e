-- ===== src/Mm/Frames/Distinct.antt =====
-- The length of a free list of mm/pmm.c: its members are distinct frames of the table, so it is at
-- most as long as the table. That bounds the walk of remove_frame_from_list.
use fynaos.Base.{
  ℕ, zero, suc, ◌≤◌, ◌<◌, ◌≡◌, inl, inr, arith, Option, List, [], ◌∷◌, contains, length, true,
  false, Bool-cases, ◌==◌, ==→eq, subst, if◌then◌else◌, refl,
}
use fynaos.Base.Bits.{pow-pos}
use fynaos.Mm.Frames.{Frames}
use fynaos.Mm.Frames.Chain.{Chain, nil, cons}

-- the list without the first `target`
unfoldable pub erase : ℕ → List ℕ → List ℕ
erase target [] = []
erase target (x ∷ xs) = if x == target then xs else x ∷ erase target xs

pub contains-erase :
    (q target : ℕ) (xs : List ℕ) → contains q xs ≡ false → contains q (erase target xs) ≡ false
unfolding erase
contains-erase q target [] h = refl
contains-erase q target (x ∷ xs) h = ground (arith, contains-erase q target xs)

abbrev IsDistinct : List ℕ → Type 0
IsDistinct [] = Unit
IsDistinct (x ∷ xs) = (contains x xs ≡ false) × IsDistinct xs

abbrev AllBelow : ℕ → List ℕ → Type 0
AllBelow n [] = Unit
AllBelow n (x ∷ xs) = (x < n) × AllBelow n xs

length-erase : (n : ℕ) (xs : List ℕ) → contains n xs ≡ true → length xs ≡ suc (length (erase n xs))
unfolding erase
length-erase n [] m = cc
length-erase n (x ∷ xs) m = ground (arith, length-erase n xs)

erase-IsDistinct : (n : ℕ) (xs : List ℕ) → IsDistinct xs → IsDistinct (erase n xs)
unfolding erase
erase-IsDistinct n [] d = d
erase-IsDistinct n (x ∷ xs) (new, d) = elim (Bool-cases (x == n)) [
  | inl e ↦ rw e d
  | inr e ↦ rw e (contains-erase x n xs new, erase-IsDistinct n xs d)
]

erase-AllBelow : (n m : ℕ) (xs : List ℕ) → AllBelow m xs → AllBelow m (erase n xs)
unfolding erase
erase-AllBelow n m [] d = d
erase-AllBelow n m (x ∷ xs) (lt, d) = elim (Bool-cases (x == n)) [
  | inl e ↦ rw e d
  | inr e ↦ rw e (lt, erase-AllBelow n m xs d)
]

erased : (n : ℕ) (xs : List ℕ) → IsDistinct xs → contains n (erase n xs) ≡ false
unfolding erase
erased n [] d = refl
erased n (x ∷ xs) (new, d) = elim (Bool-cases (x == n)) [
  | inl e ↦ rw e (subst (λ r. contains r xs ≡ false) (==→eq x n e) new)
  | inr e ↦ rw e (ground (arith, erased n xs d))
]

narrow : (n : ℕ) (xs : List ℕ) → AllBelow (suc n) xs → contains n xs ≡ false → AllBelow n xs
narrow n [] d out = d
narrow n (x ∷ xs) (lt, d) out = (ground arith, narrow n xs d (ground arith))

-- Distinct numbers below `n` are at most `n`.
length-le : (n : ℕ) (xs : List ℕ) → IsDistinct xs → AllBelow n xs → length xs ≤ n
length-le zero [] d b = omega arith
length-le zero (x ∷ xs) d b = omega (arith, b.0)
length-le (suc n) xs d b = elim (Bool-cases (contains n xs)) [
  | inl m ↦ omega (
    arith,
    length-erase n xs m,
    length-le n (erase n xs) (erase-IsDistinct n xs d)
        (narrow n (erase n xs) (erase-AllBelow n (suc n) xs b) (erased n xs d)),
  )
  | inr m ↦ omega (arith, length-le n xs d (narrow n xs b m))
]

module _ {s : Frames} {k : ℕ} where
  Chain-IsDistinct : {h : Option ℕ} {xs : List ℕ} → Chain s k h xs → IsDistinct xs
  Chain-IsDistinct nil = tt
  Chain-IsDistinct (cons b new c) = (new, Chain-IsDistinct c)

  Chain-AllBelow : {h : Option ℕ} {xs : List ℕ} → Chain s k h xs → AllBelow s.count xs
  Chain-AllBelow nil = tt
  Chain-AllBelow (cons b new c) = (omega (arith, b.inside, pow-pos k), Chain-AllBelow c)

  -- A free list has at most as many members as the table has frames.
  pub length-le-count : {h : Option ℕ} {xs : List ℕ} → Chain s k h xs → length xs ≤ s.count
  length-le-count {xs} c = length-le s.count xs (Chain-IsDistinct c) (Chain-AllBelow c)
