-- ===== src/Mm/Frames/Handout.antt =====
-- alloc_frames of mm/pmm.c on the whole account of the frames, and what follows for its client.
use fynaos.Base.{
  ℕ, ◌+◌, ◌*◌, ◌^◌, ◌≤◌, ◌≡◌, ◌⊎◌, inl, inr, sym, subst, ap, arith, List, [], ◌∷◌, pos, bit_and,
  contains, true, ◌==◌, ==→eq, leb, leb→le, ◌∙◌, update, u64, Bool-cases, Returns, invalid_address,
}
use fynaos.Base.Run
use fynaos.Base.Bits.{pow-pos}
use fynaos.Mm.Frames.{Frames, max_order, alloc_frames}
use fynaos.Mm.Frames.Accounts.{IsHeld, IsAccounted, coverage-mem}
use fynaos.Mm.Frames.Alloc.{IsAllocation, alloc_frames-IsOutcome}
use fynaos.Mm.Frames.Coverage.{inside, coverage, coverage-update, covered-cons}

-- the handed out blocks with one more
abbrev pub with_page : (ℕ → List ℕ) → ℕ → ℕ → ℕ → List ℕ
with_page owned order page = update owned order (page ∷ owned order)

module _ {s t : Frames} {lists owned : ℕ → List ℕ} {order addr : ℕ}
    (acc : IsAccounted s lists owned) (h : order ≤ max_order)
    (a : IsAllocation s lists order addr t) where
  owned_more :
      (i : ℕ) → coverage (with_page owned order a.page) i ≡ coverage owned i + inside order a.page i
  owned_more i = omega (
    arith,
    coverage-update order (a.page ∷ owned order) owned i h,
    covered-cons order a.page (owned order) i,
  )

  old_held : (k p : ℕ) → k ≤ max_order → contains p (owned k) ≡ true → IsHeld t k p
  old_held k p hk m =
      let b = acc.held k p hk m in
      let same = a.untouched p (
        omega (
          arith,
          acc.apart p,
          coverage-mem owned k p p hk m (omega arith) (omega (arith, pow-pos k)),
        )) in
      record {
        order = ap (λ f. f.order) same ∙ b.order;
        inside = omega (arith, b.inside, a.same_count);
        aligned = b.aligned;
        marked = ap (λ f. bit_and f.flags 3) same ∙ b.marked;
      }

  new_held : IsHeld t order a.page
  new_held = record {
    order = a.sized;
    inside = omega (arith, a.within, a.same_count);
    aligned = a.aligned;
    marked = a.marked;
  }

  all_held :
      (k p : ℕ) → k ≤ max_order → contains p (with_page owned order a.page k) ≡ true → IsHeld t k p
  all_held k p hk m = elim (Bool-cases (k == order)) [
    | inr e ↦ old_held k p hk (ground arith)
    | inl e ↦ elim (Bool-cases (p == a.page)) [
      | inl e' ↦
          subst (λ j. IsHeld t j p) (sym (==→eq k order e))
            (subst (λ q. IsHeld t order q) (sym (==→eq p a.page e')) new_held)
      | inr e' ↦
          old_held k p hk
            (subst (λ j. contains p (owned j) ≡ true) (sym (==→eq k order e)) (ground arith))
    ]
  ]

  pub allocation-IsAccounted : IsAccounted t a.after (with_page owned order a.page)
  allocation-IsAccounted = record {
    free = a.free;
    held = all_held;
    apart = λ i. omega (arith, owned_more i, a.conserved i, acc.apart i);
    known = λ q k lt sized unused. elim (Bool-cases (leb 1 (coverage lists q))) [
      | inl e ↦ omega (arith, leb→le 1 _ e, owned_more q, a.conserved q)
      | inr e ↦
          let empty : coverage lists q ≡ 0 = ground arith in
          let same = a.untouched q empty in
          omega (
            arith,
            owned_more q,
            empty,
            acc.known q k (omega (arith, lt, a.same_count)) (ap (λ f. f.order) (sym same) ∙ sized)
                (ap (λ f. bit_and f.flags 3) (sym same) ∙ unused),
          )
    ];
  }

-- What a client of `alloc_frames` sees.
abbrev pub IsHandout : Frames → (ℕ → List ℕ) → (ℕ → List ℕ) → ℕ → ℕ → Frames → Type 0
IsHandout s lists owned order addr t =
    ((addr ≡ invalid_address) × (t ≡ s) × ((j : ℕ) → order ≤ j → j ≤ max_order → lists j ≡ []))
    ⊎ ((page : ℕ) × (after : ℕ → List ℕ) × (addr ≡ u64 (page * 2 ^ 12))
        × IsAccounted t after (with_page owned order page)
        × ((i : ℕ) → coverage lists i ≡ coverage after i + inside order page i)
        × (t.count ≡ s.count))

-- Where the frames are accounted for and the order is at most 11, `alloc_frames` ends well. It
-- says INVALID_ADDRESS and changes nothing, where the lists from `order` up are empty, or the
-- frames are accounted for with the returned block as one that is handed out, and exactly its
-- pages are no longer free.
pub alloc_frames-IsHandout :
    {s : Frames} {lists owned : ℕ → List ℕ} (order : ℕ)
    → IsAccounted s lists owned
    → order ≤ max_order
    → Returns (IsHandout s lists owned order) (alloc_frames (pos order) s)
alloc_frames-IsHandout {lists} {owned} order acc h =
    Run.mono (alloc_frames-IsOutcome order acc.free (λ i. omega (arith, acc.apart i)) h)
      λ addr t outcome. elim outcome [
        | inl failed ↦ inl failed
        | inr a ↦
            inr (
              a.page,
              a.after,
              a.address,
              allocation-IsAccounted acc h a,
              a.conserved,
              a.same_count,
            )
      ]
