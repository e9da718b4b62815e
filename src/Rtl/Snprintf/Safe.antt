-- ===== src/Rtl/Snprintf/Safe.antt =====
-- What the parts of vsnprintf of rtl/snprintf.c leave alone: everything outside the buffer.
use fynaos.Base.{
  ℕ, ◌+◌, ◌^◌, ◌≤◌, ◌<◌, ◌≡◌, ◌⊎◌, refl, ◌∙◌, arith, ltb, leb, List, [], ◌∷◌, length, ok, update,
  Bool-cases, inl, inr, Returns, returns, M,
}
use fynaos.Base.Run
use fynaos.Base.Run.{Result, and_then}
use fynaos.Rtl.Number.{Out, Flags, write, advance, emit, print_number}
use fynaos.Rtl.Number.Layout.{put_list, printed}
use fynaos.Rtl.Number.Printed.{print_number-IsPrinted}
use fynaos.Rtl.Snprintf.{put_counted, put_text, put_literal}

-- the pointer of a buffer of some length
pub record IsValid (o : Out) : Type 0 where
  pub room : o.base < o.limit
  pub above : o.base ≤ o.at

-- A run keeps the buffer, moves the pointer up at most, and writes no byte outside the buffer.
pub record IsSafe (o t : Out) : Type 0 where
  pub same_base : t.base ≡ o.base
  pub same_limit : t.limit ≡ o.limit
  pub on : o.at ≤ t.at
  pub below : (i : ℕ) → i < o.base → t.bytes i ≡ o.bytes i
  pub behind : (i : ℕ) → o.limit ≤ i → t.bytes i ≡ o.bytes i

pub still-IsSafe : {o : Out} → IsSafe o o
still-IsSafe {o} = record {
  same_base = refl;
  same_limit = refl;
  on = omega arith;
  below = λ i h. refl;
  behind = λ i h. refl;
}

pub then-IsSafe : {o t u : Out} → IsSafe o t → IsSafe t u → IsSafe o u
then-IsSafe {o} {t} {u} a b = record {
  same_base = b.same_base ∙ a.same_base;
  same_limit = b.same_limit ∙ a.same_limit;
  on = omega (arith, a.on, b.on);
  below = λ i h. b.below i (omega (arith, a.same_base)) ∙ a.below i h;
  behind = λ i h. b.behind i (omega (arith, a.same_limit)) ∙ a.behind i h;
}

pub after-IsValid : {o t : Out} → IsValid o → IsSafe o t → IsValid t
after-IsValid v a = record {
  room = omega (arith, v.room, a.same_base, a.same_limit);
  above = omega (arith, v.above, a.on, a.same_base);
}

-- one run after another
pub seq :
    {A B : Type 0} {o : Out} {r : Result (A × Out)} {k : A → M Out B}
    → Returns (λ _. IsSafe o) r
    → ((a : A) (t : Out) → IsSafe o t → Returns (λ _. IsSafe t) (k a t))
    → Returns (λ _. IsSafe o) (and_then r k)
seq first next = Run.bind first λ a t safe. Run.mono (next a t safe) λ b u s. then-IsSafe safe s

pub write-run :
    (p c : ℕ) (o : Out)
    → o.base ≤ p
    → p < o.limit
    → write p c o ≡ ok (tt, record o { bytes = update o.bytes p c })
unfolding write
write-run p c o lo hi = ground arith

pub written-IsSafe :
    (p c : ℕ) {o : Out}
    → o.base ≤ p
    → p < o.limit
    → IsSafe o (record o { bytes = update o.bytes p c })
written-IsSafe p c lo hi = record {
  same_base = refl;
  same_limit = refl;
  on = omega arith;
  below = λ i h. ground arith;
  behind = λ i h. ground arith;
}

-- a byte in the buffer
pub write-IsSafe :
    (p c : ℕ) {o : Out} → o.base ≤ p → p < o.limit → Returns (λ _. IsSafe o) (write p c o)
write-IsSafe p c {o} lo hi = rw (write-run p c o lo hi) (returns (written-IsSafe p c lo hi))

pub advance-IsSafe : (n : ℕ) (o : Out) → Returns (λ _. IsSafe o) (advance n o)
unfolding advance
advance-IsSafe n o = returns (record {
  same_base = refl;
  same_limit = refl;
  on = omega arith;
  below = λ i h. refl;
  behind = λ i h. refl;
})

put_list-outside :
    (p : ℕ) (cs : List ℕ) (bytes : ℕ → ℕ) (i : ℕ)
    → (i < p) ⊎ (p + length cs ≤ i)
    → put_list p cs bytes i ≡ bytes i
unfolding put_list
put_list-outside p [] bytes i out = refl
put_list-outside p (c ∷ cs) bytes i out =
    put_list-outside (p + 1) cs (update bytes p c) i (omega (arith, out)) ∙ ground (arith, out)

printed-IsSafe : (cs : List ℕ) (o : Out) → o.base ≤ o.at → IsSafe o (printed cs o)
printed-IsSafe cs o above = record {
  same_base = refl;
  same_limit = refl;
  on = omega arith;
  below = λ i h. ground (arith, put_list-outside o.at cs o.bytes i (inl (omega arith)));
  behind = λ i h. elim (Bool-cases (leb (o.at + length cs + 1) o.limit)) [
    | inl e ↦ rw e (ground (arith, e, put_list-outside o.at cs o.bytes i (inr (ground (arith, e)))))
    | inr e ↦ rw e refl
  ];
}

pub print_number-IsSafe :
    (f : Flags) (width unumber snumber : ℕ) {o : Out}
    → width < 2 ^ 31
    → unumber < 2 ^ 64
    → snumber < 2 ^ 64
    → IsValid o
    → Returns (λ _. IsSafe o) (print_number f width unumber snumber o)
print_number-IsSafe f width unumber snumber {o} hw hu hs v =
    let (text, (value, short, run)) =
      print_number-IsPrinted f width unumber snumber o hw hu hs v.above in
    rw run (returns (printed-IsSafe _ o v.above))

pub put_counted-IsSafe : (c : ℕ) {o : Out} → IsValid o → Returns (λ _. IsSafe o) (put_counted c o)
unfolding put_counted
put_counted-IsSafe c {o} v = elim (Bool-cases (ltb (o.at + 1) o.limit)) [
  | inl e ↦ rw e (seq (write-IsSafe o.at c v.above (ground (arith, e))) λ _ t a. advance-IsSafe 1 t)
  | inr e ↦ rw e (advance-IsSafe 1 o)
]

pub put_text-IsSafe : (cs : List ℕ) {o : Out} → IsValid o → Returns (λ _. IsSafe o) (put_text cs o)
unfolding put_text
put_text-IsSafe [] v = returns still-IsSafe
put_text-IsSafe (c ∷ cs) v =
    Run.bind (put_counted-IsSafe c v)
      λ _ t a. Run.mono (put_text-IsSafe cs (after-IsValid v a)) λ _ u b. then-IsSafe a b

pub put_literal-IsSafe : (c : ℕ) {o : Out} → IsValid o → Returns (λ _. IsSafe o) (put_literal c o)
unfolding put_literal emit
put_literal-IsSafe c {o} v = elim (Bool-cases (ltb (o.at + 1) o.limit)) [
  | inl e ↦ rw e (seq (write-IsSafe o.at c v.above (ground (arith, e))) λ _ t a. advance-IsSafe 1 t)
  | inr e ↦ rw e (returns still-IsSafe)
]
