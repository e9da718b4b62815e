-- ===== src/Mm/Frames/Tests.antt =====
-- The theorems on mm/pmm.c at tables of a few frames.
use fynaos.Base.{
  ℕ, ◌≡◌, refl, sym, subst, arith, none, some, List, [], ◌∷◌, pos, negsuc, contains, true, ◌==◌,
  ==→eq, if◌then◌else◌, Bool-cases, inl, inr, Returns, Result, ok,
}
use fynaos.Mm.Frames.{
  Frame, Frames, alloc_frames, free_frame, merge_buddy, init_buddy_allocator,
  remove_frame_from_list, divide_buddy, merge_loop, get_max_order,
}
use fynaos.Mm.Frames.Accounts.{IsHeld, IsAccounted}
use fynaos.Mm.Frames.Alloc.{IsOutcome, alloc_frames-IsOutcome}
use fynaos.Mm.Frames.Chain.{Chain, nil, cons, IsFree}
use fynaos.Mm.Frames.Coverage.{coverage, coverage_to, covered, inside, Disjoint}
use fynaos.Mm.Frames.Free.{
  IsReleased, cleared, without_page, cleared-IsDetached, free_frame-IsReleased,
}
use fynaos.Mm.Frames.Handout.{IsHandout, with_page, alloc_frames-IsHandout}
use fynaos.Mm.Frames.Merge.{IsMerged, merge_loop-IsMerged}
use fynaos.Mm.Frames.Orders.{IsLargest, get_max_order-IsLargest}
use fynaos.Mm.Frames.Reach.{started, allocated, released, IsServed, Reachable-IsServed}
use fynaos.Mm.Frames.Supply.{IsUnclaimed, IsSupplied, init_buddy_allocator-IsSupplied}
use fynaos.Mm.Frames.Region.{IsFresh}
use fynaos.Mm.Frames.Remove.{IsRemoved, remove_frame_from_list-IsRemoved}

abbrev no_block : Frame
no_block = record { next = none; flags = 0; order = negsuc 0 }

abbrev no_list : ℕ → List ℕ
no_list _ = []

-- four frames, all in one free block
abbrev whole : Frames
whole = record {
  frame = λ i. if i == 0 then record { next = none; flags = 0; order = pos 2 } else no_block;
  count = 4;
  free_region = λ k. if k == 2 then some 0 else none;
}

abbrev whole_lists : ℕ → List ℕ
whole_lists k = if k == 2 then 0 ∷ [] else []

whole-Chain : Chain whole 2 (some 0) (0 ∷ [])
whole-Chain =
    cons
      (record { points = refl; order = refl; inside = omega arith; aligned = refl; unused = refl })
      refl nil

whole-IsFree : IsFree whole whole_lists
whole-IsFree = record {
  chain = λ k hk. elim (Bool-cases (k == 2)) [
    | inl e ↦ rw e (subst (λ j. Chain whole j (some 0) (0 ∷ [])) (sym (==→eq k 2 e)) whole-Chain)
    | inr e ↦ rw e nil
  ];
}

whole-Disjoint : Disjoint whole_lists
unfolding coverage coverage_to covered inside
whole-Disjoint i = ground arith

whole-IsAccounted : IsAccounted whole whole_lists no_list
unfolding coverage coverage_to covered inside
whole-IsAccounted = record {
  free = whole-IsFree;
  held = λ k p hk m. cc;
  apart = λ i. ground arith;
  known = λ q k lt order unused. ground arith;
}

alloc_frames-IsHandout_example :
    Returns (IsHandout whole whole_lists no_list 0) (alloc_frames (pos 0) whole)
alloc_frames-IsHandout_example = alloc_frames-IsHandout 0 whole-IsAccounted (omega arith)

alloc_frames-IsOutcome_example :
    Returns (IsOutcome whole whole_lists 1) (alloc_frames (pos 1) whole)
alloc_frames-IsOutcome_example = alloc_frames-IsOutcome 1 whole-IsFree whole-Disjoint (omega arith)

-- frame 0 is handed out, frame 1 is free, and so are frames 2 and 3 in one block
abbrev split : Frames
split = record {
  frame = λ i.
      if i == 0
      then record { next = none; flags = 1; order = pos 0 }
      else if i == 1
      then record { next = none; flags = 0; order = pos 0 }
      else if i == 2
      then record { next = none; flags = 0; order = pos 1 }
      else no_block;
  count = 4;
  free_region = λ k. if k == 0 then some 1 else if k == 1 then some 2 else none;
}

abbrev split_lists : ℕ → List ℕ
split_lists k = if k == 0 then 1 ∷ [] else if k == 1 then 2 ∷ [] else []

abbrev split_owned : ℕ → List ℕ
split_owned k = if k == 0 then 0 ∷ [] else []

small-Chain : Chain split 0 (some 1) (1 ∷ [])
small-Chain =
    cons
      (record { points = refl; order = refl; inside = omega arith; aligned = refl; unused = refl })
      refl nil

pair-Chain : Chain split 1 (some 2) (2 ∷ [])
pair-Chain =
    cons
      (record { points = refl; order = refl; inside = omega arith; aligned = refl; unused = refl })
      refl nil

split-IsFree : IsFree split split_lists
split-IsFree = record {
  chain = λ k hk. elim (Bool-cases (k == 0)) [
    | inl e ↦ rw e (subst (λ j. Chain split j (some 1) (1 ∷ [])) (sym (==→eq k 0 e)) small-Chain)
    | inr e ↦ rw e (elim (Bool-cases (k == 1)) [
      | inl e' ↦
          rw e' (subst (λ j. Chain split j (some 2) (2 ∷ [])) (sym (==→eq k 1 e')) pair-Chain)
      | inr e' ↦ rw e' nil
    ])
  ];
}

split-held : (k p : ℕ) → contains p (split_owned k) ≡ true → (k ≡ 0) × (p ≡ 0)
split-held k p m = ground arith

split-IsAccounted : IsAccounted split split_lists split_owned
unfolding coverage coverage_to covered inside
split-IsAccounted = record {
  free = split-IsFree;
  held = λ k p hk m.
      let (e, e') = split-held k p m in
      subst (λ j. IsHeld split j p) (sym e)
        (subst (λ q. IsHeld split 0 q) (sym e')
          (record { order = refl; inside = omega arith; aligned = refl; marked = refl }));
  apart = λ i. ground arith;
  known = λ q k lt order unused. ground arith;
}

free_frame-IsReleased_example :
    Returns (λ _. IsReleased split_lists (without_page split_owned 0 0) 0 0 4) (free_frame 0 split)
free_frame-IsReleased_example =
    free_frame-IsReleased split-IsAccounted 0 0 (omega arith) refl 0 refl

merge_loop-IsMerged_example :
    Returns
      (IsMerged split_lists (without_page split_owned 0 0) 0 0 4)
      (merge_loop 13 0 (cleared split 0))
merge_loop-IsMerged_example =
    merge_loop-IsMerged 13 (cleared-IsDetached split-IsAccounted 0 0 (omega arith) refl)
      (omega arith)

remove_frame_from_list-IsRemoved_example :
    Returns (λ _. IsRemoved split split_lists 0 1) (remove_frame_from_list 1 split)
remove_frame_from_list-IsRemoved_example =
    remove_frame_from_list-IsRemoved split-IsFree 0 1 (omega arith) refl

-- frames of which nothing is known yet
abbrev fresh : Frames
fresh = record { frame = λ _. no_block; count = 8; free_region = λ _. none }

fresh-IsFree : IsFree fresh no_list
fresh-IsFree = record { chain = λ k hk. nil }

fresh-IsFresh : IsFresh fresh no_list 1 8
unfolding coverage coverage_to covered
fresh-IsFresh = record {
  within = omega arith;
  unused = λ i lo hi. refl;
  uncovered = λ i lo hi. refl;
}

get_max_order-IsLargest_example : IsLargest 11 4 16 (get_max_order 4 16)
get_max_order-IsLargest_example = get_max_order-IsLargest 4 16 (omega arith)

fresh-IsAccounted : IsAccounted fresh no_list no_list
unfolding coverage coverage_to covered
fresh-IsAccounted = record {
  free = fresh-IsFree;
  held = λ k p hk m. cc;
  apart = λ i. omega arith;
  known = λ q k lt order unused. cc;
}

fresh-IsUnclaimed : IsUnclaimed fresh no_list no_list 1 8
unfolding coverage coverage_to covered
fresh-IsUnclaimed = record { fresh = fresh-IsFresh; unowned = λ i lo hi. refl }

init_buddy_allocator-IsSupplied_example :
    Returns (λ _. IsSupplied no_list no_list 1 8 8) (init_buddy_allocator 1 8 fresh)
init_buddy_allocator-IsSupplied_example =
    init_buddy_allocator-IsSupplied 1 8 fresh-IsAccounted fresh-IsUnclaimed (omega arith)

-- the state after a run that ends well
state_after : {A : Type 0} → Result (A × Frames) → Frames
state_after (ok (a, t)) = t
state_after _ = whole

-- `whole` after an allocation of a page, and after its release
taken_one : Frames
unfolding state_after alloc_frames
taken_one = state_after (alloc_frames (pos 0) whole)

given_back : Frames
unfolding state_after taken_one free_frame merge_buddy
given_back = state_after (free_frame 0 taken_one)

takes_one : alloc_frames (pos 0) whole ≡ ok (0, taken_one)
unfolding taken_one divide_buddy
takes_one = refl

gives_back : free_frame 0 taken_one ≡ ok (tt, given_back)
unfolding given_back divide_buddy
gives_back = refl

Reachable-IsServed_example : IsServed given_back (without_page (with_page no_list 0 0) 0 0)
Reachable-IsServed_example = Reachable-IsServed whole-IsAccounted (omega arith) (
    released 0 0 (allocated 0 0 started (omega arith) takes_one (omega arith)) (omega arith) refl
      gives_back)
