-- ===== src/Mm/Frames/Remove.antt =====
-- remove_frame_from_list of mm/pmm.c: a block leaves the middle of its free list.
use fynaos.Base.{
  ℕ, zero, suc, ◌+◌, ◌≤◌, ◌<◌, ◌≡◌, ◌≢◌, inl, inr, refl, sym, ◌⊎◌, subst, ◌∙◌, ap, arith, Option,
  none, some, List, [], ◌∷◌, pos, ok, update, ◌==◌, ==→eq, if◌then◌else◌, contains, length, true,
  false, Returns, returns, Bool-cases,
}
use fynaos.Base.Bits.{pow-pos}
use fynaos.Mm.Frames.Access.{frame_at-ok, free_head-ok, set_free_head-ok, set_frame-ok, unsigned-ok}
use fynaos.Mm.Frames.{Frames, max_order, remove_frame_from_list, find_prev, set_link}
use fynaos.Mm.Frames.Chain.{
  IsBlock, Chain, nil, cons, IsFree, IsBlock-frame, Chain-frame, IsBlock-of_mem, contains_ne,
}
use fynaos.Mm.Frames.Distinct.{erase, contains-erase, length-le-count}
use fynaos.Mm.Frames.Coverage.{inside, covered}

-- the member before `target`, `before` if it is the first
pred : Option ℕ → List ℕ → ℕ → Option ℕ
pred before [] target = none
pred before (x ∷ xs) target = if x == target then before else pred (some x) xs target

pub covered-erase :
    (k target : ℕ) (xs : List ℕ) (i : ℕ)
    → contains target xs ≡ true
    → covered k (erase target xs) i + inside k target i ≡ covered k xs i
unfolding erase covered
covered-erase k target [] i m = cc
covered-erase k target (x ∷ xs) i m = ground (arith, covered-erase k target xs i)

-- The walk stops at `target`, and brings back the frame before it.
find_prev-pred :
    {s : Frames} {k : ℕ} (target : ℕ) {h : Option ℕ} {xs : List ℕ} (fuel : ℕ) (before : Option ℕ)
    → Chain s k h xs
    → contains target xs ≡ true
    → length xs ≤ fuel
    → find_prev target fuel before h s ≡ ok (pred before xs target, s)
unfolding find_prev pred
find_prev-pred {s} {k} target fuel before nil m enough = cc
find_prev-pred {s} {k} target zero before (cons b new c) m enough = absurd (omega arith)
find_prev-pred {s} {k} target (suc fuel) before (cons {p} {xs} b new c) m enough =
    elim (Bool-cases (p == target)) [
      | inl e ↦ rw (e, find_prev)
      | inr e ↦
          rw (e, find_prev)
            (rw (frame_at-ok p s (omega (arith, b.inside, pow-pos k)), b.points)
              (find_prev-pred target fuel (some p) c (ground arith) (omega arith)))
    ]

-- The frame before `target` in a list that starts at `x`.
pred-mem :
    (x target : ℕ) (xs : List ℕ)
    → contains target xs ≡ true
    → (p : ℕ) × (pred (some x) xs target ≡ some p) × (contains p (x ∷ xs) ≡ true)
unfolding pred
pred-mem x target [] m = cc
pred-mem x target (y ∷ ys) m = elim (Bool-cases (y == target)) [
  | inl e ↦ rw e (x, refl, ground arith)
  | inr e ↦
      rw e
        (let (p, found, inside) = pred-mem y target ys (ground arith) in (p, found, ground arith))
]

-- `prev->next = next`
abbrev linked : Frames → ℕ → Option ℕ → Frames
linked s p next = record s { frame = update s.frame p (record (s.frame p) { next = next }) }

IsBlock-linked :
    {s : Frames} {k x : ℕ} {h : Option ℕ} (next : Option ℕ)
    → IsBlock s k x h
    → IsBlock (linked s x next) k x next
IsBlock-linked next b = ground arith

-- a chain without the frame that is written
Chain-linked :
    {s : Frames} {k : ℕ} {h : Option ℕ} {xs : List ℕ} (p : ℕ) (next : Option ℕ)
    → Chain s k h xs
    → contains p xs ≡ false
    → Chain (linked s p next) k h xs
Chain-linked {xs} p next c out = Chain-frame c refl λ q m. ground (arith, contains_ne q p xs)

pub pos-injective : {a b : ℕ} → pos a ≡ pos b → a ≡ b
pos-injective e = ground arith

-- With `x` in front of the list that holds `target`, the write leads round it.
linked-Chain :
    {s : Frames} {k : ℕ} (target p : ℕ) {x : ℕ} {h : Option ℕ} {xs : List ℕ}
    → IsBlock s k x h
    → contains x xs ≡ false
    → Chain s k h xs
    → contains target xs ≡ true
    → pred (some x) xs target ≡ some p
    → Chain (linked s p (s.frame target).next) k (some x) (x ∷ erase target xs)
unfolding pred erase
linked-Chain target p bx newx nil m e = cc
linked-Chain {s} {k} target p {x} bx newx (cons {p = y} {next} {xs = ys} b new c) m e =
    elim (Bool-cases (y == target)) [
      | inl hit ↦ rw hit (
          let here : x ≡ p = ground arith in
          let after : (s.frame target).next ≡ next =
            ap (λ t. (s.frame t).next) (sym (==→eq y target hit)) ∙ b.points in
          subst (λ r. Chain (linked s r (s.frame target).next) k (some x) (x ∷ ys)) here
            (subst (λ n. Chain (linked s x n) k (some x) (x ∷ ys)) (sym after)
              (cons (IsBlock-linked next bx) (ground arith)
                (Chain-linked x next c (ground arith)))))
      | inr miss ↦ rw miss (
          let (r, found, inside) = pred-mem y target ys (ground arith) in
          let same : r ≡ p = ground arith in
          let other : x ≢ p = ground (arith, contains_ne p x (y ∷ ys)) in
          cons (IsBlock-frame bx refl (ground arith)) (ground (arith, contains-erase x target ys))
            (linked-Chain target p b new c (ground arith) (ground arith)))
    ]

-- The two ways to unlink: the head of the list moves on, or the member before points past.
Unlink : Frames → ℕ → ℕ → Option ℕ → List ℕ → Type 0
Unlink s k target h xs =
    ((pred none xs target ≡ none) × Chain s k (s.frame target).next (erase target xs))
    ⊎ ((p : ℕ) × (pred none xs target ≡ some p)
        × (contains p xs ≡ true)
        × Chain (linked s p (s.frame target).next) k h (erase target xs))

Unlink-cases :
    {s : Frames} {k : ℕ} (target : ℕ) {h : Option ℕ} {xs : List ℕ}
    → Chain s k h xs
    → contains target xs ≡ true
    → Unlink s k target h xs
unfolding Unlink pred erase
Unlink-cases target nil m = cc
Unlink-cases {s} {k} target (cons {p} {next} {xs} b new c) m = elim (Bool-cases (p == target)) [
  | inl e ↦ rw e (
      let after : (s.frame target).next ≡ next =
        ap (λ t. (s.frame t).next) (sym (==→eq p target e)) ∙ b.points in
      inl (refl, subst (λ n. Chain s k n xs) (sym after) c))
  | inr e ↦ rw e (
      let m' : contains target xs ≡ true = ground arith in
      let (r, found, inside) = pred-mem p target xs m' in
      inr (r, found, inside, linked-Chain target r b new c m' found))
]

-- What the removal leaves: the lists without the block, and all but `next` of each frame.
pub record IsRemoved (s : Frames) (lists : ℕ → List ℕ) (k target : ℕ) (t : Frames) : Type 0 where
  pub free : IsFree t (update lists k (erase target (lists k)))
  pub same_count : t.count ≡ s.count
  pub same_order : (q : ℕ) → (t.frame q).order ≡ (s.frame q).order
  pub same_flags : (q : ℕ) → (t.frame q).flags ≡ (s.frame q).flags
  pub untouched : (q : ℕ) → contains q (lists k) ≡ false → t.frame q ≡ s.frame q

module _ {s : Frames} {lists : ℕ → List ℕ} (free : IsFree s lists) (k target : ℕ)
    (h : k ≤ max_order) (m : contains target (lists k) ≡ true) where
  -- members of lists of different orders differ, since a frame has one order
  other_list :
      (p j : ℕ) → contains p (lists k) ≡ true → j ≤ max_order → j ≢ k → contains p (lists j) ≡ false
  other_list p j mk hj ne = elim (Bool-cases (contains p (lists j))) [
    | inl mj ↦ absurd (
        ne (
          pos-injective (
            sym (IsBlock-of_mem p (free.chain j hj) mj).order
            ∙ (IsBlock-of_mem p (free.chain k h) mk).order)))
    | inr out ↦ out
  ]

  member_lt : (p : ℕ) → contains p (lists k) ≡ true → p < s.count
  member_lt p mp = omega (arith, (IsBlock-of_mem p (free.chain k h) mp).inside, pow-pos k)

  remove-run :
      remove_frame_from_list target s
      ≡ set_link (pred none (lists k) target) k (s.frame target).next s
  unfolding remove_frame_from_list
  remove-run =
      let b = IsBlock-of_mem target (free.chain k h) m in
      rw (
        frame_at-ok target s (omega (arith, b.inside, pow-pos k)),
        unsigned-ok _ k s b.order,
        free_head-ok k s h,
        find_prev-pred target s.count none (free.chain k h) m (length-le-count (free.chain k h)),
      )

  unlinked_head : Frames
  unlinked_head = record s { free_region = update s.free_region k (s.frame target).next }

  head-IsRemoved :
      Chain s k (s.frame target).next (erase target (lists k))
      → IsRemoved s lists k target unlinked_head
  unfolding unlinked_head
  head-IsRemoved c = record {
    free = record {
      chain = λ j hj. elim (Bool-cases (j == k)) [
        | inl e ↦ rw e (
            subst (λ i. Chain unlinked_head i (s.frame target).next (erase target (lists k)))
              (sym (==→eq j k e)) (Chain-frame c refl λ q m'. refl))
        | inr e ↦ rw e (Chain-frame (free.chain j hj) refl λ q m'. refl)
      ];
    };
    same_count = refl;
    same_order = λ q. refl;
    same_flags = λ q. refl;
    untouched = λ q out. refl;
  }

  linked-IsRemoved :
      (p : ℕ)
      → contains p (lists k) ≡ true
      → Chain (linked s p (s.frame target).next) k (s.free_region k) (erase target (lists k))
      → IsRemoved s lists k target (linked s p (s.frame target).next)
  linked-IsRemoved p mp c = record {
    free = record {
      chain = λ j hj. elim (Bool-cases (j == k)) [
        | inl e ↦ rw e (
            subst
              (λ i.
                Chain (linked s p (s.frame target).next) i (s.free_region i)
                  (erase target (lists k)))
              (sym (==→eq j k e)) c)
        | inr e ↦ rw e (
            Chain-linked p (s.frame target).next (free.chain j hj)
              (other_list p j mp hj (ground arith)))
      ];
    };
    same_count = refl;
    same_order = λ q. ground arith;
    same_flags = λ q. ground arith;
    untouched = λ q out. ground (arith, contains_ne p q (lists k));
  }

  -- On well-formed free lists a block that is in its list, of an order up to 11, is taken out of
  -- it: the run ends well, the lists without the block are well formed, and no frame changes but
  -- the `next` of a frame in that list.
  pub remove_frame_from_list-IsRemoved :
      Returns (λ _. IsRemoved s lists k target) (remove_frame_from_list target s)
  unfolding Unlink unlinked_head set_link
  remove_frame_from_list-IsRemoved = rw remove-run (elim (Unlink-cases target (free.chain k h) m) [
    | inl (e, c) ↦ rw (e, set_free_head-ok k (s.frame target).next s h) (returns (head-IsRemoved c))
    | inr (p, e, mp, c) ↦
        rw
          (
            e,
            frame_at-ok p s (member_lt p mp),
            set_frame-ok p (record (s.frame p) { next = (s.frame target).next }) s (member_lt p mp),
          )
          (returns (linked-IsRemoved p mp c))
  ])
