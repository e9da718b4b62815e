-- ===== src/Mm/Frames/Merge.antt =====
-- The loop of merge_buddy of mm/pmm.c: a block that is in no list grows by its free buddies.
use fynaos.Base.{
  ℕ, zero, suc, Option, none, some, ◌+◌, ◌^◌, ◌≤◌, ◌<◌, ◌≡◌, ◌≢◌, inl, inr, refl, subst, ap, arith,
  List, pos, ◌==ℤ◌, ==ℤ→eq, bit_and, bit_xor, contains, true, ltb, ◌==◌, ==→eq, ◌&&◌, update,
  Bool-cases, Returns, returns, M,
}
use fynaos.Base.Run
use fynaos.Base.Bits.{pow-pos}
use fynaos.Mm.Frames.{Frames, max_order, merge_loop, merge_round, merge_with, join}
use fynaos.Mm.Frames.Access.{frame_at-ok, set_frame-ok, unsigned-ok}
use fynaos.Mm.Frames.Accounts.{IsHeld, not-mem_of_uncovered}
use fynaos.Mm.Frames.Buddy.{IsPair, buddy-IsPair}
use fynaos.Mm.Frames.Chain.{IsBlock, Chain-frame, IsBlock-of_mem, contains_ne}
use fynaos.Mm.Frames.Coverage.{inside, coverage, coverage-update, inside-split, inside_self}
use fynaos.Mm.Frames.Detached.{IsDetached, buddy-mem}
use fynaos.Mm.Frames.Distinct.{erase}
use fynaos.Mm.Frames.Remove.{IsRemoved, remove_frame_from_list-IsRemoved, covered-erase}
use native.Mathlib.Nat.{pow-suc}

-- the state after a round, from the state `t` without the buddy in its list
abbrev grown : Frames → ℕ → ℕ → Frames
grown t o low = record t {
  frame = update t.frame low (record (t.frame low) { order = pos (o + 1) });
}

abbrev without : (ℕ → List ℕ) → ℕ → ℕ → ℕ → List ℕ
without lists o b = update lists o (erase b (lists o))

module _ {s t : Frames} {lists owned : ℕ → List ℕ} {o f b : ℕ} (d : IsDetached s lists owned o f)
    (pair : IsPair o f b) (more : o < max_order) (m : contains b (lists o) ≡ true)
    (removed : IsRemoved s lists o b t) where
  buddy : IsBlock s o b (s.frame b).next
  buddy = IsBlock-of_mem b (d.free.chain o d.small) m

  fewer : (i : ℕ) → coverage (without lists o b) i + inside o b i ≡ coverage lists i
  fewer i = omega (
    arith,
    coverage-update o (erase b (lists o)) lists i d.small,
    covered-erase o b (lists o) i m,
  )

  joined : (i : ℕ) → inside (suc o) pair.low i ≡ inside o f i + inside o b i
  joined i = elim pair.halves [
    | inl (e, e') ↦
        omega
          (arith, inside-split o pair.low i, ap (λ q. inside o q i) e, ap (λ q. inside o q i) e')
    | inr (e, e') ↦
        omega
          (arith, inside-split o pair.low i, ap (λ q. inside o q i) e, ap (λ q. inside o q i) e')
  ]

  grown-apart :
      (i : ℕ) → coverage (without lists o b) i + coverage owned i + inside (suc o) pair.low i ≤ 1
  grown-apart i = omega (arith, d.apart i, fewer i, joined i)

  covers_low : inside (suc o) pair.low pair.low ≡ 1
  covers_low = inside_self (suc o) pair.low pair.low (omega arith) (omega (arith, pow-pos (suc o)))

  low_uncovered : (coverage (without lists o b) pair.low ≡ 0) × (coverage owned pair.low ≡ 0)
  low_uncovered = omega (arith, grown-apart pair.low, covers_low)

  low_unused : bit_and (s.frame pair.low).flags 3 ≡ 0
  low_unused = elim pair.halves [
    | inl (e, e') ↦ subst (λ q. bit_and (s.frame q).flags 3 ≡ 0) e d.unused
    | inr (e, e') ↦ subst (λ q. bit_and (s.frame q).flags 3 ≡ 0) e' buddy.unused
  ]

  grown-held :
      (k p : ℕ) → k ≤ max_order → contains p (owned k) ≡ true → IsHeld (grown t o pair.low) k p
  grown-held k p hk mp =
      let h = d.held k p hk mp in
      let other : p ≢ pair.low =
        contains_ne p pair.low (owned k) mp
          (not-mem_of_uncovered owned k pair.low hk low_uncovered.1) in
      record {
        order = ground (arith, h.order, removed.same_order p);
        inside = omega (arith, h.inside, removed.same_count);
        aligned = h.aligned;
        marked = ground (arith, h.marked, removed.same_flags p);
      }

  grown-known :
      (q k : ℕ)
      → q < t.count
      → ((grown t o pair.low).frame q).order ≡ pos k
      → bit_and ((grown t o pair.low).frame q).flags 3 ≡ 0
      → 1 ≤ coverage (without lists o b) q + coverage owned q + inside (suc o) pair.low q
  grown-known q k lt order unused = elim (Bool-cases (q == pair.low)) [
    | inl e ↦ omega (arith, covers_low, ap (λ r. inside (suc o) pair.low r) (==→eq q pair.low e))
    | inr e ↦ omega (
      arith,
      fewer q,
      joined q,
      d.known q k (omega (arith, lt, removed.same_count))
          (ground (arith, removed.same_order q, order))
          (ground (arith, removed.same_flags q, unused)),
    )
  ]

  grown-IsDetached : IsDetached (grown t o pair.low) (without lists o b) owned (suc o) pair.low
  grown-IsDetached = record {
    free = record {
      chain = λ j hj. Chain-frame (removed.free.chain j hj) refl λ q mq. ground (
        arith,
        contains_ne q pair.low (without lists o b j),
        not-mem_of_uncovered (without lists o b) j pair.low hj low_uncovered.0,
      );
    };
    held = grown-held;
    apart = grown-apart;
    known = grown-known;
    order = ground arith;
    small = more;
    within = omega (arith, d.within, buddy.inside, pair.halves, removed.same_count, pow-suc 2 o);
    aligned = pair.aligned;
    unused = ground (arith, low_unused, removed.same_flags pair.low);
  }

-- The result of a round: the loop goes on with a larger block, or it stops and nothing changed.
abbrev IsRound : Frames → (ℕ → List ℕ) → (ℕ → List ℕ) → ℕ → ℕ → Option ℕ → Frames → Type 0
IsRound s lists owned o f none t = t ≡ s
IsRound s lists owned o f (some low) t =
    (after : ℕ → List ℕ) × IsDetached t after owned (suc o) low
    × ((i : ℕ) → coverage after i + inside (suc o) low i ≡ coverage lists i + inside o f i)
    × (t.count ≡ s.count)

module _ {s : Frames} {lists owned : ℕ → List ℕ} {o f : ℕ} (d : IsDetached s lists owned o f) where
  join-IsRound :
      {b : ℕ}
      → IsPair o f b
      → o < max_order
      → contains b (lists o) ≡ true
      → Returns (IsRound s lists owned o f) (join o f b s)
  unfolding join
  join-IsRound {b} pair more m =
      Run.bind (remove_frame_from_list-IsRemoved d.free o b d.small m) λ _ t removed.
        let grows = grown-IsDetached d pair more m removed in
        let lt : pair.low < t.count = omega (arith, grows.within, pow-pos (suc o)) in
        rw
          (
            ← pair.is_low,
            frame_at-ok pair.low t lt,
            set_frame-ok pair.low (record (t.frame pair.low) { order = pos (o + 1) }) t lt,
          )
          (returns (
            without lists o b,
            grows,
            λ i. omega (arith, fewer d pair more m removed i, joined d pair more m removed i),
            removed.same_count,
          ))

  merge_round-IsRound : Returns (IsRound s lists owned o f) (merge_round f s)
  unfolding merge_round merge_with
  merge_round-IsRound =
      rw (frame_at-ok f s (omega (arith, d.within, pow-pos o)), unsigned-ok _ o s d.order)
        (elim (Bool-cases (ltb o max_order && ltb (bit_xor f (2 ^ o)) s.count)) [
          | inr e ↦ rw e (returns refl)
          | inl e ↦ rw e (
              tested (bit_xor f (2 ^ o)) (buddy-IsPair o f d.aligned) (ground arith) (ground arith))
        ])
    where
      tested :
          (b : ℕ)
          → IsPair o f b
          → o < max_order
          → b < s.count
          → Returns (IsRound s lists owned o f) (merge_with o f b s)
      tested b pair more lt =
          rw (frame_at-ok b s lt)
            (elim (Bool-cases ((s.frame b).order ==ℤ pos o && bit_and (s.frame b).flags 3 == 0)) [
              | inr e ↦ rw e (returns refl)
              | inl e ↦ rw e (
                  join-IsRound pair more
                    (buddy-mem d b pair lt (==ℤ→eq _ _ (ground arith)) (ground arith)))
            ])

-- What the loop keeps: the account with some detached block, and the pages that are free or in it.
abbrev pub IsMerged : (ℕ → List ℕ) → (ℕ → List ℕ) → ℕ → ℕ → ℕ → ℕ → Frames → Type 0
IsMerged lists owned o f count f' t =
    (o' : ℕ) × (after : ℕ → List ℕ) × IsDetached t after owned o' f'
    × ((i : ℕ) → coverage after i + inside o' f' i ≡ coverage lists i + inside o f i)
    × (t.count ≡ count)

-- From a block of order `o` that is in no list, the loop of merge_buddy ends well where its rounds
-- exceed 11 less `o`. Some block is in no list at the end, the rest is still accounted for, and the
-- free pages and those of the block together are those of before.
pub merge_loop-IsMerged :
    (fuel : ℕ) {s : Frames} {lists owned : ℕ → List ℕ} {o f : ℕ}
    → IsDetached s lists owned o f
    → max_order < o + fuel
    → Returns (IsMerged lists owned o f s.count) (merge_loop fuel f s)
unfolding merge_loop
merge_loop-IsMerged zero d enough = absurd (omega (arith, d.small))
merge_loop-IsMerged (suc fuel) {s} {lists} {owned} {o} {f} d enough =
    Run.bind (merge_round-IsRound d) λ result t.
      elim result
        as (λ r.
          IsRound s lists owned o f r t
          → Returns (IsMerged lists owned o f s.count) (
              (elim r as (λ _. M Frames ℕ) [ none ↦ Run.pure f | some low ↦ merge_loop fuel low ])
                t)) [
                  | none ↦ λ same. rw same (returns (o, lists, d, λ i. refl, refl))
                  | some low ↦ λ (after, d', same, size).
                      Run.mono (merge_loop-IsMerged fuel d' (omega arith))
                        λ f' t' (o', after', d'', same', size'). (
                          o',
                          after',
                          d'',
                          λ i. omega (arith, same i, same' i),
                          omega (arith, size, size'),
                        )
                ]
