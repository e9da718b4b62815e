-- ===== src/Base/Bits/Fields.antt =====
-- Fields of bits in a word that is put together by `|`.
use native.Mathlib.Nat.{
  pow-suc, div-div-eq-div-mul, div-eq_of_lt, mod-eq_of_lt, mul-div_cancel, mul-lt-mul_of_pos_right,
  mul_assoc, mul-mod_left, div-one, mod-one, mul-one, pow-le-pow_right,
}
use fynaos.Base.Bits.Step.{or_step, and_step}
use fynaos.Base.Bits.{pow-add, pow-pos, double, and_mask}
use Prim.Native.Nat.{max, bit_or-bitwise}
use mathlib.Core.Path.{ap₂}
use fynaos.Base.{
  ℕ, zero, suc, ◌+◌, ◌-◌, ◌*◌, ◌/◌, ◌%◌, ◌^◌, ◌≤◌, ◌<◌, ◌≡◌, ◌⊎◌, inl, inr, ap, sym, ◌∙◌, arith,
  bit_or, bit_and,
}

-- Half the word has the rest of the bits.
half : (k a : ℕ) → a / 2 ^ suc k ≡ a / 2 / 2 ^ k
half k a =
    let e : 2 ^ suc k ≡ 2 * 2 ^ k = omega (arith, pow-suc 2 k) in
    ap (λ (t : ℕ). a / t) e ∙ sym (div-div-eq-div-mul a 2 (2 ^ k))

low : (k a : ℕ) → a % 2 ^ suc k ≡ a / 2 % 2 ^ k * 2 + a % 2
low k a = omega (
  arith,
  half k a,
  double (a / 2 / 2 ^ k) k,
  ap (λ (t : ℕ). t * 2 ^ suc k) (half k a),
  pow-pos k,
  pow-pos (suc k),
)

rest : (k a : ℕ) → a % 2 ^ suc k / 2 ≡ a / 2 % 2 ^ k
rest k a = omega (arith, low k a)

digit : (k a : ℕ) → a % 2 ^ suc k % 2 ≡ a % 2
digit k a = omega (arith, low k a)

or-half : (a b : ℕ) → bit_or a b / 2 ≡ bit_or (a / 2) (b / 2)
or-half a b = omega (arith, or_step a b)

pub or-div : (k a b : ℕ) → bit_or a b / 2 ^ k ≡ bit_or (a / 2 ^ k) (b / 2 ^ k)
or-div zero a b = simp div-one
or-div (suc k) a b =
    rw (half k a, half k b, half k (bit_or a b), or-half a b) (or-div k (a / 2) (b / 2))

pub or-mod : (k a b : ℕ) → bit_or a b % 2 ^ k ≡ bit_or (a % 2 ^ k) (b % 2 ^ k)
or-mod zero a b = simp mod-one
or-mod (suc k) a b = omega (
  arith,
  low k (bit_or a b),
  ap (λ (t : ℕ). t % 2 ^ k) (or-half a b),
  or-mod k (a / 2) (b / 2),
  or_step a b,
  or_step (a % 2 ^ suc k) (b % 2 ^ suc k),
  ap₂ bit_or (rest k a) (rest k b),
  ap₂ max (digit k a) (digit k b),
)

-- the field of `width` bits from bit `k` up
abbrev pub field : ℕ → ℕ → ℕ → ℕ
field width k a = a / 2 ^ k % 2 ^ width

pub field-or :
    (width k a b : ℕ) → field width k (bit_or a b) ≡ bit_or (field width k a) (field width k b)
field-or width k a b =
    ap (λ (t : ℕ). t % 2 ^ width) (or-div k a b) ∙ or-mod width (a / 2 ^ k) (b / 2 ^ k)

pub field-same : (width k v : ℕ) → v < 2 ^ width → field width k (v * 2 ^ k) ≡ v
field-same width k v h = rw (mul-div_cancel v (pow-pos k)) (mod-eq_of_lt h)

pub below_field : (width k j v : ℕ) → v < 2 ^ width → j + width ≤ k → v * 2 ^ j < 2 ^ k
below_field width k j v h below = omega (
  arith,
  mul-lt-mul_of_pos_right {k = 2 ^ j} h (pow-pos j),
  pow-add j width,
  pow-le-pow_right {n = 2} (omega arith) below,
)

split :
    (width k j v : ℕ) → k + width ≤ j → v * 2 ^ j ≡ v * 2 ^ (j - (k + width)) * 2 ^ width * 2 ^ k
split width k j v above =
    let e : j ≡ j - (k + width) + width + k = omega (arith, above) in
    ap (λ (t : ℕ). v * 2 ^ t) e
    ∙ rw (pow-add (j - (k + width) + width) k, pow-add (j - (k + width)) width)
        (sym (
          mul_assoc (v * 2 ^ (j - (k + width))) (2 ^ width) (2 ^ k)
          ∙ mul_assoc v (2 ^ (j - (k + width))) (2 ^ width * 2 ^ k)
          ∙ ap (λ (t : ℕ). v * t) (sym (mul_assoc (2 ^ (j - (k + width))) (2 ^ width) (2 ^ k)))))

-- A value of `width` bits that is put elsewhere leaves the field clear.
pub field-other :
    (width k j v : ℕ)
    → v < 2 ^ width
    → (j + width ≤ k) ⊎ (k + width ≤ j)
    → field width k (v * 2 ^ j) ≡ 0
field-other width k j v h (inl below) =
    ap (λ (t : ℕ). t % 2 ^ width) (div-eq_of_lt (below_field width k j v h below))
    ∙ mod-eq_of_lt (pow-pos width)
field-other width k j v h (inr above) =
    ap (λ (t : ℕ). t / 2 ^ k % 2 ^ width) (split width k j v above)
    ∙ ap (λ (t : ℕ). t % 2 ^ width)
        (mul-div_cancel (v * 2 ^ (j - (k + width)) * 2 ^ width) (pow-pos k))
    ∙ mul-mod_left (v * 2 ^ (j - (k + width))) (2 ^ width)

pub zero-or : (b : ℕ) → bit_or 0 b ≡ b
zero-or b = simp bit_or-bitwise

-- Bits above bit `k` are put on top of what lies below it.
pub or_high : (k r q : ℕ) → r < 2 ^ k → bit_or r (q * 2 ^ k) ≡ r + q * 2 ^ k
or_high zero r q h = omega (arith, ap (λ (t : ℕ). bit_or t (q * 1)) (zero_of r h), zero-or (q * 1))
  where
    zero_of : (r : ℕ) → r < 1 → r ≡ 0
    zero_of r h = omega arith
or_high (suc k) r q h = ground (
  arith,
  or_step r (q * 2 ^ suc k),
  double q k,
  pow-suc 2 k,
  or_high k (r / 2) q (omega (arith, pow-suc 2 k)),
)

-- A mask of `d` ones above `k` zeros keeps that field in its place.
pub and_field : (d k x : ℕ) → bit_and x ((2 ^ d - 1) * 2 ^ k) ≡ field d k x * 2 ^ k
and_field d zero x =
    let e : field d 0 x ≡ x % 2 ^ d = ap (λ (t : ℕ). t % 2 ^ d) (div-one x) in
    ap (λ (t : ℕ). bit_and x t) (mul-one (2 ^ d - 1))
    ∙ and_mask d x
    ∙ sym (mul-one (field d 0 x) ∙ e)
and_field d (suc k) x = ground (
  arith,
  and_step x ((2 ^ d - 1) * 2 ^ suc k),
  double (2 ^ d - 1) k,
  ap (λ (t : ℕ). t % 2 ^ d) (half k x),
  double (field d (suc k) x) k,
  double (field d k (x / 2)) k,
  and_field d k (x / 2),
  ap (λ (t : ℕ). t * 2 ^ k) (ap (λ (t : ℕ). t % 2 ^ d) (half k x)),
)
