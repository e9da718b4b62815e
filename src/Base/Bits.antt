-- ===== src/Base/Bits.antt =====
-- The laws of `&`, `|` and `^` that the kernel's masks and flags need, at every width.
mod Step
pub mod Fields
use Step.{and_step, or_step, xor_step}
use Prim.Native.Nat.{
  ℕ, zero, suc, ◌+◌, ◌-◌, ◌*◌, ◌/◌, ◌%◌, ◌^◌, ◌≤◌, ◌<◌, bit_and, bit_or, bit_xor, differ,
}
use mathlib.Core.Path.{◌≡◌, ap, ap₂, sym, ◌∙◌, refl}
use native.Mathlib.Nat.{
  pow-suc, one-le-pow, pow-le-pow_right, mod-eq_of_lt, mod-lt, mul-one, div-add-mod',
  div-lt_iff_lt-mul,
}
use native.Mathlib.Numerals.{unary_clauses}
use native.Mathlib.Omega.{arith}
use fynaos.Base.Word.{align_up, align_up32, sub64, sub32, not32, not64, u64}

pub pow-pos : (k : ℕ) → 0 < 2 ^ k
pow-pos k = one-le-pow k 2 (omega arith)

pub pow-add : (d k : ℕ) → 2 ^ (d + k) ≡ 2 ^ d * 2 ^ k
pow-add d zero = simp unary_clauses (omega arith)
pow-add d (suc k) = simp unary_clauses (omega (arith, ap (λ (t : ℕ). t * 2) (pow-add d k)))

and-zero : (a : ℕ) → bit_and a 0 ≡ 0
and-zero a = go a a (omega arith)
  where
    go : (n a : ℕ) → a ≤ n → bit_and a 0 ≡ 0
    go n zero h = refl
    go zero (suc a) h = absurd (omega arith)
    go (suc n) (suc a) h = omega (arith, and_step (suc a) 0, go n (suc a / 2) (omega arith))

pub or-zero : (a : ℕ) → bit_or a 0 ≡ a
or-zero a = go a a (omega arith)
  where
    go : (n a : ℕ) → a ≤ n → bit_or a 0 ≡ a
    go n zero h = refl
    go zero (suc a) h = absurd (omega arith)
    go (suc n) (suc a) h = omega (arith, or_step (suc a) 0, go n (suc a / 2) (omega arith))

differ-zero : (x : ℕ) → differ x 0 ≡ x
differ-zero zero = refl
differ-zero (suc x) = refl

xor-zero : (a : ℕ) → bit_xor a 0 ≡ a
xor-zero a = go a a (omega arith)
  where
    go : (n a : ℕ) → a ≤ n → bit_xor a 0 ≡ a
    go n zero h = refl
    go zero (suc a) h = absurd (omega arith)
    go (suc n) (suc a) h =
        omega (arith, xor_step (suc a) 0, go n (suc a / 2) (omega arith), differ-zero (suc a % 2))

-- A product with a power of two, one factor of two taken out.
pub double : (q k : ℕ) → q * 2 ^ suc k ≡ 2 * (q * 2 ^ k)
double q k = omega (arith, ap (λ (t : ℕ). q * t) (pow-suc 2 k))

-- A mask of `k` ones keeps the low field of `k` bits.
and_low : (k q r : ℕ) → r < 2 ^ k → bit_and (q * 2 ^ k + r) (2 ^ k - 1) ≡ r
and_low zero q r h = omega (arith, and-zero (q * 1 + r))
and_low (suc k) q r h = ground (
  arith,
  and_step (q * 2 ^ suc k + r) (2 ^ suc k - 1),
  double q k,
  pow-suc 2 k,
  pow-pos k,
  and_low k q (r / 2) (omega (arith, pow-suc 2 k)),
)

pub and_mask : (k x : ℕ) → bit_and x (2 ^ k - 1) ≡ x % 2 ^ k
and_mask k x = ground (arith, pow-pos k, and_low k (x / 2 ^ k) (x % 2 ^ k))

-- Setting bits in a field that is clear puts them there.
pub or_low : (k q r : ℕ) → r < 2 ^ k → bit_or (q * 2 ^ k) r ≡ q * 2 ^ k + r
or_low zero q r h = omega (arith, ap (λ (t : ℕ). bit_or (q * 1) t) (zero_of r h), or-zero (q * 1))
  where
    zero_of : (r : ℕ) → r < 1 → r ≡ 0
    zero_of r h = omega arith
or_low (suc k) q r h = ground (
  arith,
  or_step (q * 2 ^ suc k) r,
  double q k,
  pow-suc 2 k,
  or_low k q (r / 2) (omega (arith, pow-suc 2 k)),
)

-- A mask of `d` ones above `k` zeros clears the low field.
and_high :
    (d k q r : ℕ)
    → q < 2 ^ d
    → r < 2 ^ k
    → bit_and (q * 2 ^ k + r) ((2 ^ d - 1) * 2 ^ k) ≡ q * 2 ^ k
and_high d zero q r hq h = ground (arith, and_mask d q, mod-eq_of_lt hq)
and_high d (suc k) q r hq h = ground (
  arith,
  and_step (q * 2 ^ suc k + r) ((2 ^ d - 1) * 2 ^ suc k),
  double q k,
  double (2 ^ d - 1) k,
  and_high d k q (r / 2) hq (omega (arith, pow-suc 2 k)),
)

-- Flipping bit `k` of a number that is clear below it.
pub xor_bit : (k q : ℕ) → bit_xor (q * 2 ^ k) (2 ^ k) ≡ bit_xor q 1 * 2 ^ k
xor_bit zero q = simp mul-one
xor_bit (suc k) q = ground (
  arith,
  xor_step (q * 2 ^ suc k) (2 ^ suc k),
  double q k,
  double 1 k,
  double (bit_xor q 1) k,
  pow-suc 2 k,
  xor_bit k q,
)

mul-pred : (t p : ℕ) → 0 < t → (t - 1) * p + p ≡ t * p
mul-pred zero p h = elim h [ ]
mul-pred (suc t) p h = omega (arith, ap (λ (s : ℕ). s * p) (sub_suc t))
  where
    sub_suc : (t : ℕ) → suc t - 1 ≡ t
    sub_suc t = omega arith

-- On 64-bit words, `x & ~(2^k - 1)` clears the low `k` bits.
pub and_not_mask :
    (k x : ℕ) → k ≤ 64 → x < 2 ^ 64 → bit_and x (not64 (2 ^ k - 1)) ≡ x / 2 ^ k * 2 ^ k
and_not_mask k x hk hx =
    ap₂ bit_and (sym (div-add-mod' x (2 ^ k))) mask
    ∙ and_high (64 - k) k (x / 2 ^ k) (x % 2 ^ k)
        ((div-lt_iff_lt-mul (pow-pos k)).1 (omega (arith, word))) (mod-lt x (pow-pos k))
  where
    word : 2 ^ 64 ≡ 2 ^ (64 - k) * 2 ^ k
    word = let e : 64 ≡ 64 - k + k = omega arith in ap (λ (t : ℕ). 2 ^ t) e ∙ pow-add (64 - k) k

    mask : not64 (2 ^ k - 1) ≡ (2 ^ (64 - k) - 1) * 2 ^ k
    mask = omega (arith, word, pow-pos k, mul-pred (2 ^ (64 - k)) (2 ^ k) (pow-pos (64 - k)))

xor_one_even : (q : ℕ) → bit_xor (q * 2) 1 ≡ q * 2 + 1
xor_one_even q = ground (arith, xor_step (q * 2) 1, xor-zero q)

xor_one_odd : (q : ℕ) → bit_xor (q * 2 + 1) 1 ≡ q * 2
xor_one_odd q = ground (arith, xor_step (q * 2 + 1) 1, xor-zero q)

-- Below bit `k` clear, `p ^ 2^k` is the other half of the pair of blocks.
pub xor_even : (k q : ℕ) → bit_xor (q * 2 * 2 ^ k) (2 ^ k) ≡ (q * 2 + 1) * 2 ^ k
xor_even k q = xor_bit k (q * 2) ∙ ap (λ (t : ℕ). t * 2 ^ k) (xor_one_even q)

pub xor_odd : (k q : ℕ) → bit_xor ((q * 2 + 1) * 2 ^ k) (2 ^ k) ≡ q * 2 * 2 ^ k
xor_odd k q = xor_bit k (q * 2 + 1) ∙ ap (λ (t : ℕ). t * 2 ^ k) (xor_one_odd q)

masked_sum :
    (k x m : ℕ)
    → m ≡ 2 ^ k - 1
    → k ≤ 64
    → x + 2 ^ k ≤ 2 ^ 64
    → bit_and (u64 (x + m)) (not64 m) ≡ (x + (2 ^ k - 1)) / 2 ^ k * 2 ^ k
masked_sum k x m e hk h = rw e (
    rw (mod-eq_of_lt {n = x + (2 ^ k - 1)} {m = 2 ^ 64} (omega (arith, pow-pos k)))
      (and_not_mask k (x + (2 ^ k - 1)) hk (omega (arith, pow-pos k))))

-- `ALIGN_UP` at a power of two, where it does not wrap: up to the next multiple.
pub align_up_pow :
    (k x : ℕ) → k ≤ 64 → x + 2 ^ k ≤ 2 ^ 64 → align_up x (2 ^ k) ≡ (x + (2 ^ k - 1)) / 2 ^ k * 2 ^ k
unfolding align_up
align_up_pow k x hk h = masked_sum k x (sub64 (2 ^ k) 1) (omega (arith, pow-pos k)) hk h

pub align_up32_pow :
    (k x : ℕ)
    → k ≤ 32
    → x + 2 ^ k ≤ 2 ^ 64
    → align_up32 x (2 ^ k) ≡ (x + (2 ^ k - 1)) / 2 ^ k * 2 ^ k
unfolding align_up32
align_up32_pow k x hk h =
    masked_sum k x (sub32 (2 ^ k) 1)
      (omega (arith, pow-pos k, pow-le-pow_right {n = 2} (omega arith) hk)) (omega arith) h

-- Setting and clearing the lowest of two flags.
pub or_one_flags : (a : ℕ) → bit_and a 3 ≡ 0 → bit_and (bit_or a 1) 3 ≡ 1
or_one_flags a h =
    omega (arith, and_mask 2 a, and_mask 2 (bit_or a 1), or_step a 1, or-zero (a / 2))

pub clear_one_flags : (a : ℕ) → bit_and a 3 ≡ 1 → bit_and (bit_and a (not32 1)) 3 ≡ 0
clear_one_flags a h = omega (
  arith,
  and_mask 2 a,
  and_mask 2 (bit_and a (not32 1)),
  and_step a (not32 1),
  and_mask 31 (a / 2),
)
