-- ===== src/Mm/Frames/Supply.antt =====
-- init_buddy_allocator of mm/pmm.c on the whole account of the frames.
use fynaos.Base.{
  ℕ, ◌+◌, ◌^◌, ◌≤◌, ◌<◌, ◌≡◌, ◌⊎◌, inl, inr, sym, ap, ◌∙◌, arith, List, pos, bit_and, contains,
  true, leb, ltb, Bool-cases, Returns,
}
use fynaos.Base.Run
use fynaos.Base.Bits.{pow-pos}
use fynaos.Mm.Frames.{Frames, max_order, init_buddy_allocator}
use fynaos.Mm.Frames.Accounts.{IsHeld, IsAccounted, coverage-mem}
use fynaos.Mm.Frames.Coverage.{coverage}
use fynaos.Mm.Frames.Region.{span, IsFresh, init_buddy_allocator-IsFreed}

-- A region of pages that belong to nobody: inside the table, without a flag, neither free nor
-- handed out.
pub record IsUnclaimed (s : Frames) (lists owned : ℕ → List ℕ) (begin limit : ℕ) : Type 0 where
  pub fresh : IsFresh s lists begin limit
  pub unowned : (i : ℕ) → begin ≤ i → i < limit → coverage owned i ≡ 0

-- The account with the pages of a region free.
abbrev pub IsSupplied : (ℕ → List ℕ) → (ℕ → List ℕ) → ℕ → ℕ → ℕ → Frames → Type 0
IsSupplied lists owned begin limit count t =
    (after : ℕ → List ℕ) × IsAccounted t after owned
    × ((i : ℕ) → coverage after i ≡ coverage lists i + span begin limit i)
    × (t.count ≡ count)

pub span_in : (begin limit i : ℕ) → begin ≤ i → i < limit → span begin limit i ≡ 1
unfolding span
span_in begin limit i lo hi = ground arith

pub span_out : (begin limit i : ℕ) → (i < begin) ⊎ (limit ≤ i) → span begin limit i ≡ 0
unfolding span
span_out begin limit i out = ground (arith, out)

-- a page is in the region or outside it
pub region-cases : (begin limit i : ℕ) → ((begin ≤ i) × (i < limit)) ⊎ ((i < begin) ⊎ (limit ≤ i))
region-cases begin limit i = elim (Bool-cases (leb begin i)) [
  | inl e ↦ elim (Bool-cases (ltb i limit)) [
    | inl e' ↦ inl (ground arith)
    | inr e' ↦ inr (inr (ground arith))
  ]
  | inr e ↦ inr (inl (ground arith))
]

module _ {s : Frames} {lists owned : ℕ → List ℕ} {begin limit : ℕ} (acc : IsAccounted s lists owned)
    (u : IsUnclaimed s lists owned begin limit) (t : Frames) (after : ℕ → List ℕ)
    (same : (i : ℕ) → coverage after i ≡ coverage lists i + span begin limit i)
    (size : t.count ≡ s.count)
    (kept : (q : ℕ) → (q < begin) ⊎ (limit ≤ q) → t.frame q ≡ s.frame q) where
  held_on : (k p : ℕ) → k ≤ max_order → contains p (owned k) ≡ true → IsHeld t k p
  held_on k p hk m =
      let b = acc.held k p hk m in
      let covers = coverage-mem owned k p p hk m (omega arith) (omega (arith, pow-pos k)) in
      let frame = kept p (outside covers) in
      record {
        order = ap (λ f. f.order) frame ∙ b.order;
        inside = omega (arith, b.inside, size);
        aligned = b.aligned;
        marked = ap (λ f. bit_and f.flags 3) frame ∙ b.marked;
      }
    where
      outside : 1 ≤ coverage owned p → (p < begin) ⊎ (limit ≤ p)
      outside covers = elim (region-cases begin limit p) [
        | inl (lo, hi) ↦ absurd (omega (arith, covers, u.unowned p lo hi))
        | inr out ↦ out
      ]

  apart_on : (i : ℕ) → coverage after i + coverage owned i ≤ 1
  apart_on i = elim (region-cases begin limit i) [
    | inl (lo, hi) ↦
        omega
          (arith, same i, span_in begin limit i lo hi, u.fresh.uncovered i lo hi, u.unowned i lo hi)
    | inr out ↦ omega (arith, same i, span_out begin limit i out, acc.apart i)
  ]

  known_on :
      (q k : ℕ)
      → q < t.count
      → (t.frame q).order ≡ pos k
      → bit_and (t.frame q).flags 3 ≡ 0
      → 1 ≤ coverage after q + coverage owned q
  known_on q k lt sized unused = elim (region-cases begin limit q) [
    | inl (lo, hi) ↦ omega (arith, same q, span_in begin limit q lo hi)
    | inr out ↦ omega (
      arith,
      same q,
      acc.known q k (omega (arith, lt, size)) (ap (λ f. f.order) (sym (kept q out)) ∙ sized)
          (ap (λ f. bit_and f.flags 3) (sym (kept q out)) ∙ unused),
    )
  ]

-- The account with the pages of a region free, and the frames outside it as they were.
pub init_buddy_allocator-ends :
    {s : Frames} {lists owned : ℕ → List ℕ} (begin limit : ℕ)
    → IsAccounted s lists owned
    → IsUnclaimed s lists owned begin limit
    → limit + 2 ^ 11 < 2 ^ 64
    → Returns
        (λ _ t.
          (after : ℕ → List ℕ) × IsAccounted t after owned
          × ((i : ℕ) → coverage after i ≡ coverage lists i + span begin limit i)
          × (t.count ≡ s.count)
          × ((q : ℕ) → (q < begin) ⊎ (limit ≤ q) → t.frame q ≡ s.frame q))
        (init_buddy_allocator begin limit s)
init_buddy_allocator-ends begin limit acc u small =
    Run.mono (init_buddy_allocator-IsFreed begin limit acc.free u.fresh small)
      λ _ t (after, free, same, size, kept). (
        after,
        record {
          free = free;
          held = held_on acc u t after same size kept;
          apart = apart_on acc u t after same size kept;
          known = known_on acc u t after same size kept;
        },
        same,
        size,
        kept,
      )

-- A region of unclaimed pages that is handed to the allocator, where the sums stay below 2^64,
-- becomes free: the run ends well, the frames stay accounted for, the handed out blocks stay, and
-- exactly the pages of the region are free once more.
pub init_buddy_allocator-IsSupplied :
    {s : Frames} {lists owned : ℕ → List ℕ} (begin limit : ℕ)
    → IsAccounted s lists owned
    → IsUnclaimed s lists owned begin limit
    → limit + 2 ^ 11 < 2 ^ 64
    → Returns (λ _. IsSupplied lists owned begin limit s.count) (init_buddy_allocator begin limit s)
init_buddy_allocator-IsSupplied begin limit acc u small =
    Run.mono (init_buddy_allocator-ends begin limit acc u small)
      λ _ t (after, acc', same, size, _). (after, acc', same, size)
