-- ===== src/Mm/Frames/Buddy.antt =====
-- Which blocks hold a buddy: the geometry of aligned blocks of a power of two pages.
use native.Mathlib.Nat.{
  add-mul-mod_self_right, div-add-mod', mod-eq_of_lt, mul-mod_left, pow-suc, mul-le-mul_right,
}
use fynaos.Base.{
  ℕ, suc, ◌+◌, ◌-◌, ◌*◌, ◌/◌, ◌%◌, ◌^◌, ◌≤◌, ◌<◌, ◌≡◌, ◌⊎◌, inl, inr, refl, arith, bit_xor, ap, sym,
  ◌∙◌, ltb, if◌then◌else◌, leb, subst, ◌==◌, Bool-cases, leb→le,
}
use fynaos.Base.Bits.{pow-pos, pow-add, xor_even, xor_odd}

-- two multiples less than `m` apart
multiples_close : (m p b : ℕ) → p % m ≡ 0 → b % m ≡ 0 → p ≤ b → b < p + m → b ≡ p
multiples_close m p b hp hb lo hi =
    omega (arith, hb, offset, mod-eq_of_lt {n = b - p} {m = m} (omega arith))
  where
    offset : b % m ≡ (b - p) % m
    offset =
        let e : b ≡ b - p + p / m * m = omega (arith, div-add-mod' p m) in
        ap (λ (t : ℕ). t % m) e ∙ add-mul-mod_self_right (b - p) (p / m) m

-- A multiple of `2^o` is one of every smaller power.
multiple_down : (k o b : ℕ) → k ≤ o → b % 2 ^ o ≡ 0 → b % 2 ^ k ≡ 0
multiple_down k o b h e =
    ap (λ (t : ℕ). t % 2 ^ k) as_multiple ∙ mul-mod_left (b / 2 ^ o * 2 ^ (o - k)) (2 ^ k)
  where
    split : 2 ^ o ≡ 2 ^ (o - k) * 2 ^ k
    split = let same : o ≡ o - k + k = omega arith in ap (λ (t : ℕ). 2 ^ t) same ∙ pow-add (o - k) k

    as_multiple : b ≡ b / 2 ^ o * 2 ^ (o - k) * 2 ^ k
    as_multiple = omega (arith, e, div-add-mod' b (2 ^ o), ap (λ (t : ℕ). b / 2 ^ o * t) split)

-- a multiple below the end of a stride is at most its begin
stride : (m c x : ℕ) → x * m < c * m + m → x * m ≤ c * m
stride m c x h = elim (Bool-cases (leb x c)) [
  | inl e ↦ mul-le-mul_right m (leb→le x c e)
  | inr e ↦ let more : c + 1 ≤ x = ground arith in absurd (omega (arith, mul-le-mul_right m more))
]

-- `f` and its buddy `b` are the two halves, in some order, of the pair that starts at `low`.
pub record IsPair (o f b : ℕ) : Type 0 where
  pub low : ℕ
  pub aligned : low % 2 ^ suc o ≡ 0
  pub halves : ((f ≡ low) × (b ≡ low + 2 ^ o)) ⊎ ((f ≡ low + 2 ^ o) × (b ≡ low))
  pub is_low : low ≡ (if ltb b f then b else f)
  pub buddy_aligned : b % 2 ^ o ≡ 0

pair_aligned : (o c : ℕ) → c * 2 * 2 ^ o % 2 ^ suc o ≡ 0
pair_aligned o c =
    let e : c * 2 * 2 ^ o ≡ c * 2 ^ suc o = omega (arith, ap (λ (t : ℕ). c * t) (pow-suc 2 o)) in
    ap (λ (t : ℕ). t % 2 ^ suc o) e ∙ mul-mod_left c (2 ^ suc o)

even-IsPair : (o c : ℕ) → IsPair o (c * 2 * 2 ^ o) (bit_xor (c * 2 * 2 ^ o) (2 ^ o))
even-IsPair o c = rw (xor_even o c) (record {
  low = c * 2 * 2 ^ o;
  aligned = pair_aligned o c;
  halves = inl (refl, omega arith);
  is_low = ground (arith, pow-pos o);
  buddy_aligned = mul-mod_left (c * 2 + 1) (2 ^ o);
})

odd-IsPair : (o c : ℕ) → IsPair o ((c * 2 + 1) * 2 ^ o) (bit_xor ((c * 2 + 1) * 2 ^ o) (2 ^ o))
odd-IsPair o c = rw (xor_odd o c) (record {
  low = c * 2 * 2 ^ o;
  aligned = pair_aligned o c;
  halves = inr (omega arith, refl);
  is_low = ground (arith, pow-pos o);
  buddy_aligned = mul-mod_left (c * 2) (2 ^ o);
})

-- The buddy that `merge_buddy` computes of an aligned block.
pub buddy-IsPair : (o f : ℕ) → f % 2 ^ o ≡ 0 → IsPair o f (bit_xor f (2 ^ o))
buddy-IsPair o f h = elim (Bool-cases (f / 2 ^ o % 2 == 0)) [
  | inl e ↦
      let c = f / 2 ^ o / 2 in
      let q : f / 2 ^ o ≡ c * 2 = ground arith in
      subst (λ g. IsPair o g (bit_xor g (2 ^ o))) (sym (whole ∙ ap (λ (t : ℕ). t * 2 ^ o) q))
        (even-IsPair o c)
  | inr e ↦
      let c = f / 2 ^ o / 2 in
      let q : f / 2 ^ o ≡ c * 2 + 1 = ground arith in
      subst (λ g. IsPair o g (bit_xor g (2 ^ o))) (sym (whole ∙ ap (λ (t : ℕ). t * 2 ^ o) q))
        (odd-IsPair o c)
]
  where
    whole : f ≡ f / 2 ^ o * 2 ^ o
    whole = omega (arith, h, div-add-mod' f (2 ^ o))

next_multiple : (m p : ℕ) → p % m ≡ 0 → (p + m) % m ≡ 0
next_multiple m p h =
    let e : p + m ≡ p + 1 * m = omega arith in
    ap (λ (t : ℕ). t % m) e ∙ add-mul-mod_self_right p 1 m ∙ h

whole_multiple : (m p : ℕ) → p % m ≡ 0 → p ≡ p / m * m
whole_multiple m p h = omega (arith, h, div-add-mod' p m)

both_inside :
    (o f b k p : ℕ)
    → IsPair o f b
    → suc o ≤ k
    → p % 2 ^ k ≡ 0
    → p ≤ b
    → b < p + 2 ^ k
    → (p ≤ f) × (f < p + 2 ^ k)
both_inside o f b k p pair big hp lo hi = (
  omega (arith, first, pair.halves, pow-suc 2 o),
  omega (arith, last, pair.halves, pow-suc 2 o, pow-pos o),
)
  where
    m : ℕ
    m = 2 ^ suc o

    low_is : pair.low ≡ pair.low / m * m
    low_is = whole_multiple m pair.low pair.aligned

    p_is : p ≡ p / m * m
    p_is = whole_multiple m p (multiple_down (suc o) k p big hp)

    end_is : p + 2 ^ k ≡ (p + 2 ^ k) / m * m
    end_is =
        whole_multiple m (p + 2 ^ k)
          (multiple_down (suc o) k (p + 2 ^ k) big (next_multiple (2 ^ k) p hp))

    first : p ≤ pair.low
    first = omega (
      arith,
      p_is,
      low_is,
      stride m (pair.low / m) (p / m)
          (omega (arith, p_is, low_is, pair.halves, pow-suc 2 o, pow-pos o)),
    )

    last : pair.low + m ≤ p + 2 ^ k
    last = omega (
      arith,
      end_is,
      low_is,
      stride m ((p + 2 ^ k) / m) (pair.low / m + 1)
          (omega (arith, end_is, low_is, pair.halves, pow-pos o)),
    )

-- An aligned block that holds the buddy is the buddy's own, of an order up to `o`, or it holds both.
pub block_with_buddy :
    (o f b k p : ℕ)
    → IsPair o f b
    → p % 2 ^ k ≡ 0
    → p ≤ b
    → b < p + 2 ^ k
    → (b ≡ p) ⊎ ((p ≤ f) × (f < p + 2 ^ k))
block_with_buddy o f b k p pair hp lo hi = elim (Bool-cases (leb k o)) [
  | inl small ↦ inl (
      multiples_close (2 ^ k) p b hp (multiple_down k o b (leb→le k o small) pair.buddy_aligned) lo
        hi)
  | inr big ↦ inr (both_inside o f b k p pair (ground arith) hp lo hi)
]
