-- ===== src/Mm/Frames/Free.antt =====
-- free_frame of mm/pmm.c: a block that was handed out becomes free, merged with its free buddies.
use fynaos.Base.{
  ℕ, ◌+◌, ◌/◌, ◌^◌, ◌≤◌, ◌<◌, ◌≡◌, ◌≢◌, inl, inr, refl, sym, subst, ap, arith, some, List, ◌∷◌,
  contains, true, false, ◌==◌, ==→eq, update, Bool-cases, Returns, returns,
}
use fynaos.Base.Run
use fynaos.Base.Bits.{pow-pos, clear_one_flags}
use fynaos.Mm.Frames.{Frames, max_order, frame_allocated, clear_flag, merge_buddy, free_frame}
use fynaos.Mm.Frames.Access.{frame_at-ok, set_frame-ok, free_head-ok, set_free_head-ok, unsigned-ok}
use fynaos.Mm.Frames.Accounts.{IsHeld, IsAccounted, not-mem_of_uncovered}
use fynaos.Mm.Frames.Chain.{Chain, cons, Chain-frame, contains_ne}
use fynaos.Mm.Frames.Coverage.{inside, coverage, coverage-update, covered-cons, inside_self}
use fynaos.Mm.Frames.Detached.{IsDetached, uncovered}
use fynaos.Mm.Frames.Distinct.{erase, contains-erase}
use fynaos.Mm.Frames.Merge.{merge_loop-IsMerged}
use fynaos.Mm.Frames.Remove.{covered-erase}

-- `f` in front of its list
abbrev attached : Frames → ℕ → ℕ → Frames
attached s o f = record s {
  frame = update s.frame f (record (s.frame f) { next = s.free_region o });
  free_region = update s.free_region o (some f);
}

module _ {s : Frames} {lists owned : ℕ → List ℕ} {o f : ℕ} (d : IsDetached s lists owned o f) where
  with_block : ℕ → List ℕ
  with_block = update lists o (f ∷ lists o)

  absent : (j : ℕ) → j ≤ max_order → contains f (lists j) ≡ false
  absent j hj = not-mem_of_uncovered lists j f hj (uncovered d).0

  kept-Chain : (j : ℕ) → j ≤ max_order → Chain (attached s o f) j (s.free_region j) (lists j)
  kept-Chain j hj =
      Chain-frame (d.free.chain j hj) refl
        λ q m. ground (arith, contains_ne q f (lists j), absent j hj)

  attached-Chain :
      (j : ℕ)
      → j ≤ max_order
      → Chain (attached s o f) j ((attached s o f).free_region j) (with_block j)
  unfolding with_block
  attached-Chain j hj = elim (Bool-cases (j == o)) [
    | inl e ↦ rw e (
        subst (λ i. Chain (attached s o f) i (some f) (f ∷ lists o)) (sym (==→eq j o e))
          (cons
            (record {
              points = ground arith;
              order = ground (arith, d.order);
              inside = d.within;
              aligned = d.aligned;
              unused = ground (arith, d.unused);
            })
            (absent o d.small) (kept-Chain o d.small)))
    | inr e ↦ rw e (kept-Chain j hj)
  ]

  with_block-coverage : (i : ℕ) → coverage with_block i ≡ coverage lists i + inside o f i
  unfolding with_block
  with_block-coverage i =
      omega (arith, coverage-update o (f ∷ lists o) lists i d.small, covered-cons o f (lists o) i)

  attached-IsAccounted : IsAccounted (attached s o f) with_block owned
  attached-IsAccounted = record {
    free = record { chain = attached-Chain };
    held = λ k p hk m.
        let h = d.held k p hk m in
        record {
          order = ground (arith, h.order);
          inside = h.inside;
          aligned = h.aligned;
          marked = ground (arith, h.marked);
        };
    apart = λ i. omega (arith, with_block-coverage i, d.apart i);
    known = λ q k lt order unused. omega (
      arith,
      with_block-coverage q,
      d.known q k lt (ground (arith, order)) (ground (arith, unused)),
    );
  }

-- what a release keeps and adds
abbrev pub IsReleased : (ℕ → List ℕ) → (ℕ → List ℕ) → ℕ → ℕ → ℕ → Frames → Type 0
IsReleased lists owned k p count t =
    (after : ℕ → List ℕ) × IsAccounted t after owned
    × ((i : ℕ) → coverage after i ≡ coverage lists i + inside k p i)
    × (t.count ≡ count)

merge_buddy-IsReleased :
    {s : Frames} {lists owned : ℕ → List ℕ} {o f : ℕ}
    → IsDetached s lists owned o f
    → Returns (λ _. IsReleased lists owned o f s.count) (merge_buddy f s)
unfolding merge_buddy
merge_buddy-IsReleased {o} d =
    Run.bind (merge_loop-IsMerged 13 d (omega arith)) λ f' t (o', after, d', same, size).
      let lt : f' < t.count = omega (arith, d'.within, pow-pos o') in
      rw
        (
          frame_at-ok f' t lt,
          unsigned-ok _ o' t d'.order,
          free_head-ok o' t d'.small,
          set_frame-ok f' (record (t.frame f') { next = t.free_region o' }) t lt,
          set_free_head-ok o' (some f')
              (record t {
                frame = update t.frame f' (record (t.frame f') { next = t.free_region o' });
              })
              d'.small,
        )
        (returns (
          with_block d',
          attached-IsAccounted d',
          λ i. omega (arith, with_block-coverage d' i, same i),
          size,
        ))

contains-erase_of : (q p : ℕ) (xs : List ℕ) → contains q (erase p xs) ≡ true → contains q xs ≡ true
contains-erase_of q p xs m = elim (Bool-cases (contains q xs)) [
  | inl e ↦ e
  | inr out ↦ cc (contains-erase q p xs out)
]

-- the frame without FRAME_ALLOCATED
abbrev pub cleared : Frames → ℕ → Frames
cleared s p = record s { frame = update s.frame p (clear_flag (s.frame p) frame_allocated) }

-- the handed out blocks without one
unfoldable pub without_page : (ℕ → List ℕ) → ℕ → ℕ → ℕ → List ℕ
without_page owned k p = update owned k (erase p (owned k))

module _ {s : Frames} {lists owned : ℕ → List ℕ} (a : IsAccounted s lists owned) (k p : ℕ)
    (hk : k ≤ max_order) (m : contains p (owned k) ≡ true) where
  handed_back : (i : ℕ) → coverage (without_page owned k p) i + inside k p i ≡ coverage owned i
  unfolding without_page
  handed_back i =
      omega
        (arith, coverage-update k (erase p (owned k)) owned i hk, covered-erase k p (owned k) i m)

  h : IsHeld s k p
  h = a.held k p hk m

  covers_p : inside k p p ≡ 1
  covers_p = inside_self k p p (omega arith) (omega (arith, pow-pos k))

  p_uncovered : (coverage lists p ≡ 0) × (coverage (without_page owned k p) p ≡ 0)
  p_uncovered = omega (arith, handed_back p, a.apart p, covers_p)

  still_owned_of :
      (q j : ℕ) → contains q ((without_page owned k p) j) ≡ true → contains q (owned j) ≡ true
  unfolding without_page
  still_owned_of q j mq = elim (Bool-cases (j == k)) [
    | inl e ↦
        subst (λ i. contains q (owned i) ≡ true) (sym (==→eq j k e))
          (contains-erase_of q p (owned k) (ground arith))
    | inr e ↦ ground arith
  ]

  pub cleared-IsDetached : IsDetached (cleared s p) lists (without_page owned k p) k p
  cleared-IsDetached = record {
    free = record {
      chain = λ j hj. Chain-frame (a.free.chain j hj) refl λ q mq.
          ground
            (arith, contains_ne q p (lists j), not-mem_of_uncovered lists j p hj p_uncovered.0);
    };
    held = λ j q hj mq.
        let b = a.held j q hj (still_owned_of q j mq) in
        let other : q ≢ p =
          contains_ne q p ((without_page owned k p) j) mq
            (not-mem_of_uncovered (without_page owned k p) j p hj p_uncovered.1) in
        record {
          order = ground (arith, b.order);
          inside = b.inside;
          aligned = b.aligned;
          marked = ground (arith, b.marked);
        };
    apart = λ i. omega (arith, handed_back i, a.apart i);
    known = λ q j lt order unused. elim (Bool-cases (q == p)) [
      | inl e ↦ omega (arith, covers_p, ap (λ r. inside k p r) (==→eq q p e))
      | inr e ↦
          omega
            (arith, handed_back q, a.known q j lt (ground (arith, order)) (ground (arith, unused)))
    ];
    order = ground (arith, h.order);
    small = hk;
    within = h.inside;
    aligned = h.aligned;
    unused = ground (arith, clear_one_flags (s.frame p).flags h.marked);
  }

  -- Freeing a block of an order up to 11 that was handed out, by an address in its first page,
  -- ends well: no panic over the lists, no fault, and the merges come to an end. The frames stay
  -- accounted for, the block is no longer handed out, and exactly its pages are free once more.
  pub free_frame-IsReleased :
      (addr : ℕ)
      → addr / 2 ^ 12 ≡ p
      → Returns (λ _. IsReleased lists (without_page owned k p) k p s.count) (free_frame addr s)
  unfolding free_frame
  free_frame-IsReleased addr e =
      let lt : p < s.count = omega (arith, h.inside, pow-pos k) in
      rw (e, frame_at-ok p s lt, set_frame-ok p (clear_flag (s.frame p) frame_allocated) s lt)
        (merge_buddy-IsReleased cleared-IsDetached)
