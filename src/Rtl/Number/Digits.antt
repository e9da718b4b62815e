-- ===== src/Rtl/Number/Digits.antt =====
-- The digits that print_number of rtl/snprintf.c puts into `tmp`.
use native.Mathlib.Nat.{mod-lt, mod-add-div', div-lt_iff_lt-mul, pow-suc, mul-le-mul_left}
use mathlib.Core.List.{reverse, reverse_aux, reverse-cons}
use fynaos.Base.{
  ℕ, zero, suc, ◌+◌, ◌-◌, ◌*◌, ◌/◌, ◌%◌, ◌^◌, ◌≤◌, ◌<◌, ◌≡◌, refl, sym, ap, ◌∙◌, arith, Bool, ltb,
  if◌then◌else◌, List, [], ◌∷◌, ◌++◌, length, ◌==◌, Bool-cases, inl, inr, ==→eq,
}
use fynaos.Rtl.Number.{digit, digits_loop, number_text}

-- the value of a digit of base 16 in either case
unfoldable pub digit_value : ℕ → ℕ
digit_value c = if ltb c b'A' then c - b'0' else if ltb c b'a' then c - b'A' + 10 else c - b'a' + 10

-- the number that the digits `cs` spell behind `acc`
unfoldable pub read_from : ℕ → ℕ → List ℕ → ℕ
read_from base acc [] = acc
read_from base acc (c ∷ cs) = read_from base (acc * base + digit_value c) cs

read_from-snoc :
    (base acc : ℕ) (cs : List ℕ) (c : ℕ)
    → read_from base acc (cs ++ (c ∷ [])) ≡ read_from base acc cs * base + digit_value c
unfolding read_from
read_from-snoc base acc [] c = refl
read_from-snoc base acc (x ∷ cs) c = read_from-snoc base (acc * base + digit_value x) cs c

digit-value : (lowercase : Bool) (d : ℕ) → d < 16 → digit_value (digit lowercase d) ≡ d
unfolding digit digit_value
digit-value lowercase d h = ground arith

fewer : (fuel base n : ℕ) → 2 ≤ base → n < 2 ^ suc fuel → n / base < 2 ^ fuel
fewer fuel base n h lt =
    (div-lt_iff_lt-mul (omega arith)).1
      (omega (arith, pow-suc 2 fuel, mul-le-mul_left (2 ^ fuel) h))

rejoin : (n base v w : ℕ) → v ≡ n / base → w ≡ n % base → v * base + w ≡ n
rejoin n base v w e e' = rw (e, e') (omega (arith, mod-add-div' n base))

digits_loop-reads :
    (fuel : ℕ) (lowercase : Bool) (base n : ℕ)
    → 2 ≤ base
    → base ≤ 16
    → n < 2 ^ fuel
    → read_from base 0 (reverse (digits_loop fuel lowercase base n)) ≡ n
unfolding digits_loop read_from
digits_loop-reads zero lowercase base n lo hi lt = omega arith
digits_loop-reads (suc fuel) lowercase base zero lo hi lt = refl
digits_loop-reads (suc fuel) lowercase base (suc n) lo hi lt =
    let rest = digits_loop fuel lowercase base (suc n / base) in
    let d = digit lowercase (suc n % base) in
    ap (λ cs. read_from base 0 cs) (reverse-cons d rest)
    ∙ read_from-snoc base 0 (reverse rest) d
    ∙ rejoin (suc n) base _ _
        (digits_loop-reads fuel lowercase base (suc n / base) lo hi (fewer fuel base (suc n) lo lt))
        (digit-value lowercase (suc n % base)
          (omega (arith, mod-lt (suc n) {m = base} (omega arith))))

length-digits_loop :
    (fuel : ℕ) (lowercase : Bool) (base n : ℕ) → length (digits_loop fuel lowercase base n) ≤ fuel
unfolding digits_loop
length-digits_loop zero lowercase base n = omega arith
length-digits_loop (suc fuel) lowercase base zero = omega arith
length-digits_loop (suc fuel) lowercase base (suc n) =
    omega (arith, length-digits_loop fuel lowercase base (suc n / base))

length-reverse_aux : (xs ys : List ℕ) → length (reverse_aux xs ys) ≡ length xs + length ys
length-reverse_aux [] ys = omega arith
length-reverse_aux (x ∷ xs) ys = omega (arith, length-reverse_aux xs (x ∷ ys))

zero_reads : (base : ℕ) → read_from base 0 (b'0' ∷ []) ≡ 0
unfolding read_from digit_value
zero_reads base = omega arith

-- In any base from 2 to 16 and in either case, the digits of a 64-bit number spell that number, and
-- there are at most 64 of them: they fit into `tmp`.
pub number_text-reads :
    (lowercase : Bool) (base n : ℕ)
    → 2 ≤ base
    → base ≤ 16
    → n < 2 ^ 64
    → (read_from base 0 (number_text lowercase base n) ≡ n)
      × (length (number_text lowercase base n) ≤ 64)
unfolding number_text
number_text-reads lowercase base n lo hi lt = elim (Bool-cases (n == 0)) [
  | inl e ↦ rw e (zero_reads base ∙ sym (==→eq n 0 e), omega arith)
  | inr e ↦ rw e (
    digits_loop-reads 64 lowercase base n lo hi lt,
    omega (
      arith,
      length-reverse_aux (digits_loop 64 lowercase base n) [],
      length-digits_loop 64 lowercase base n,
    ),
  )
]
