-- ===== src/Mm/Frames/Orders.antt =====
-- get_max_order of mm/pmm.c: the order of the next block of a region.
use native.Mathlib.Decide.{ℕ_discrete}
use native.Mathlib.Nat.{pow-le-pow_right}
use fynaos.Base.{
  ℕ, zero, suc, ◌+◌, ◌%◌, ◌^◌, ◌≤◌, ◌<◌, ◌≡◌, ◌⊎◌, inl, inr, refl, arith, true, false, Bool-cases,
  subst,
}
use fynaos.Base.Bits.{and_mask}
use fynaos.Mm.Frames.{order_fits, max_order_from, get_max_order}

-- A block of `2^order` frames from `begin` is aligned and ends before `limit`.
abbrev pub Fits : ℕ → ℕ → ℕ → Type 0
Fits order begin limit = (begin % 2 ^ order ≡ 0) × (begin + 2 ^ order < limit)

order_fits-Fits :
    (order begin limit : ℕ)
    → begin + 2 ^ order < 2 ^ 64
    → order_fits order begin limit ≡ true
    → Fits order begin limit
unfolding order_fits
order_fits-Fits order begin limit h e = ground (arith, and_mask order begin)

Fits-order_fits :
    (order begin limit : ℕ)
    → begin + 2 ^ order < 2 ^ 64
    → order_fits order begin limit ≡ false
    → ¬ Fits order begin limit
unfolding order_fits
Fits-order_fits order begin limit h e (p, q) = ground (arith, and_mask order begin)

-- the result `o` of the loop that starts at `top`
abbrev pub IsLargest : ℕ → ℕ → ℕ → ℕ → Type 0
IsLargest top begin limit o =
    (o ≤ top) × ((o ≡ 0) ⊎ Fits o begin limit) × ((j : ℕ) → o < j → j ≤ top → ¬ Fits j begin limit)

max_order_from-IsLargest :
    (top begin limit : ℕ)
    → begin + 2 ^ top < 2 ^ 64
    → IsLargest top begin limit (max_order_from top begin limit)
unfolding max_order_from
max_order_from-IsLargest zero begin limit h = (omega arith, inl refl, λ j p q. absurd (omega arith))
max_order_from-IsLargest (suc top) begin limit h =
    elim (Bool-cases (order_fits (suc top) begin limit)) [
      | inl e ↦ rw e (
        omega arith,
        inr (order_fits-Fits (suc top) begin limit h e),
        λ j p q. absurd (omega arith),
      )
      | inr e ↦
          let ih = max_order_from-IsLargest top begin limit (
            omega (
              arith,
              pow-le-pow_right {n = 2} (omega arith) {i = top} {j = suc top} (omega arith),
            )) in
          rw e (
            omega (arith, ih.0),
            ih.1,
            λ j p q fits. elim (ℕ_discrete j (suc top)) [
              | yes same ↦
                  Fits-order_fits (suc top) begin limit h e
                    (subst (λ i. Fits i begin limit) same fits)
              | no other ↦ ih.2 j p (omega arith) fits
            ],
          )
    ]

-- Where the sums stay below 2^64, the result is at most 11; it is 0, or the block is aligned and
-- ends before the limit; and no larger order up to 11 has such a block.
pub get_max_order-IsLargest :
    (begin limit : ℕ)
    → begin + 2 ^ 11 < 2 ^ 64
    → IsLargest 11 begin limit (get_max_order begin limit)
unfolding get_max_order
get_max_order-IsLargest begin limit h = max_order_from-IsLargest 11 begin limit h

-- In a region that is not empty, where the sums stay below 2^64, a block at `begin` of the chosen
-- order is aligned and stays inside the region.
pub get_max_order-inside :
    (begin limit : ℕ)
    → begin < limit
    → begin + 2 ^ 11 < 2 ^ 64
    → (begin % 2 ^ get_max_order begin limit ≡ 0) × (begin + 2 ^ get_max_order begin limit ≤ limit)
get_max_order-inside begin limit lt h =
    go (get_max_order begin limit) (get_max_order-IsLargest begin limit h).1
  where
    go : (o : ℕ) → (o ≡ 0) ⊎ Fits o begin limit → (begin % 2 ^ o ≡ 0) × (begin + 2 ^ o ≤ limit)
    go o (inl e) = rw e (omega arith)
    go o (inr (p, q)) = (p, omega arith)
