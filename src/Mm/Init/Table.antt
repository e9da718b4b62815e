-- ===== src/Mm/Init/Table.antt =====
-- init_frames of mm/pmm.c: the frame table before any page is given to the allocator.
use fynaos.Base.{
  ℕ, M, zero, suc, ◌+◌, ◌*◌, ◌/◌, ◌^◌, ◌≤◌, ◌<◌, ◌≡◌, refl, ap, sym, subst, ◌∙◌, arith, ◌==◌, u64,
  none, negsuc, pos, List, [], ok, update, Returns, returns, Bool-cases, inl, inr,
}
use fynaos.Base.Run
use fynaos.Mm.Boot.{BootMemory, alloc_boot_memory}
use fynaos.Mm.Boot.Bounds.{aligned, alloc_boot_memory-cases}
use fynaos.Mm.Frames.{Frames}
use fynaos.Mm.Frames.Access.{set_frame-ok}
use fynaos.Mm.Frames.Accounts.{IsAccounted}
use fynaos.Mm.Frames.Chain.{Chain, nil}
use fynaos.Mm.Frames.Coverage.{coverage, coverage_to, covered}
use fynaos.Mm.Layout.{kernel_direct_base}
use fynaos.Mm.Init.{Memory, in_boot, in_frames, reserved_frame, reserve_loop, init_frames}

abbrev pub nothing : ℕ → List ℕ
nothing _ = []

-- `t` is `s` with the frames from `i` up to `limit` reserved.
pub record IsReserved (s : Frames) (i limit : ℕ) (t : Frames) : Type 0 where
  pub same_count : t.count ≡ s.count
  pub same_lists : (k : ℕ) → t.free_region k ≡ s.free_region k
  pub reserved : (j : ℕ) → i ≤ j → j < limit → t.frame j ≡ reserved_frame
  pub before : (j : ℕ) → j < i → t.frame j ≡ s.frame j

reserve_loop-IsReserved :
    (rounds i : ℕ) (s : Frames)
    → i + rounds ≤ s.count
    → Returns (λ _. IsReserved s i (i + rounds)) (reserve_loop rounds i s)
unfolding reserve_loop
reserve_loop-IsReserved zero i s fits = returns (record {
  same_count = refl;
  same_lists = λ k. refl;
  reserved = λ j lo hi. absurd (omega arith);
  before = λ j h. refl;
})
reserve_loop-IsReserved (suc rounds) i s fits = rw (set_frame-ok i reserved_frame s (omega arith)) (
    Run.mono
      (reserve_loop-IsReserved rounds (i + 1) (record s { frame = update s.frame i reserved_frame })
        (omega arith))
      λ _ t r. record {
        same_count = r.same_count;
        same_lists = r.same_lists;
        reserved = λ j lo hi. elim (Bool-cases (j == i)) [
          | inl e ↦ r.before j (ground (arith, e)) ∙ ground (arith, e)
          | inr e ↦ r.reserved j (ground (arith, e)) (omega arith)
        ];
        before = λ j h. r.before j (omega arith) ∙ ground arith;
      })

-- With empty lists and reserved frames nothing is free and nothing is handed out.
pub nothing-IsAccounted :
    {s t : Frames} {limit : ℕ}
    → ((k : ℕ) → s.free_region k ≡ none)
    → IsReserved s 0 limit t
    → t.count ≤ limit
    → IsAccounted t nothing nothing
unfolding coverage coverage_to covered
nothing-IsAccounted {s} {t} empty r all = record {
  free = record {
    chain = λ k hk. subst (λ h. Chain t k h []) (sym (r.same_lists k ∙ empty k)) nil;
  };
  held = λ k p hk m. cc;
  apart = λ i. omega arith;
  known = λ q k lt sized unused.
      let e : negsuc 0 ≡ pos k =
        sym (ap (λ f. f.order) (r.reserved q (omega arith) (omega arith))) ∙ sized in
      cc;
}

small_product : (n : ℕ) → n * 16 < 2 ^ 64 → u64 (n * 16) ≡ n * 16
small_product n h = omega (arith, h)

-- the room for the table
table_room :
    (len : ℕ) (b : BootMemory)
    → aligned 4 b.tail + len < b.limit
    → b.tail + 16 + len ≤ 2 ^ 64
    → alloc_boot_memory len 16 b
      ≡ ok (u64 (aligned 4 b.tail + kernel_direct_base), record b { tail = aligned 4 b.tail + len })
table_room len b room small =
    alloc_boot_memory-cases 4 len b (omega arith) (omega (arith, small)) ∙ ground (arith, room)

pub in_boot-ok :
    {A : Type 0} (m : M BootMemory A) (s : Memory) {a : A} {b : BootMemory}
    → m s.boot ≡ ok (a, b)
    → in_boot m s ≡ ok (a, record s { boot = b })
unfolding in_boot
in_boot-ok m s e = rw (e, in_boot) refl

pub in_frames-ok :
    {A : Type 0} (m : M Frames A) (s : Memory) {a : A} {t : Frames}
    → m s.frames ≡ ok (a, t)
    → in_frames m s ≡ ok (a, record s { frames = t })
unfolding in_frames
in_frames-ok m s e = rw (e, in_frames) refl

-- What init_frames leaves for `count` frames.
abbrev pub IsInitialised : ℕ → Memory → Memory → Type 0
IsInitialised count s t =
    (t.frames.count ≡ count)
    × ((j : ℕ) → j < count → t.frames.frame j ≡ reserved_frame)
    × IsAccounted t.frames nothing nothing
    × (t.boot.tail ≡ aligned 4 s.boot.tail + count * 16)
    × (t.boot.limit ≡ s.boot.limit)

-- Where the free lists are empty, the boot allocator has room for the table and the sums stay below
-- 2^64, init_frames returns: there is a frame for each page below the limit, every frame is reserved,
-- the frames are accounted for with none free and none handed out, and the tail of the boot allocator
-- moves on by 16 bytes for each frame from the next multiple of 16.
pub init_frames-IsInitialised :
    (limit : ℕ) (s : Memory)
    → ((k : ℕ) → s.frames.free_region k ≡ none)
    → aligned 4 s.boot.tail + limit / 2 ^ 12 * 16 < s.boot.limit
    → s.boot.tail + 16 + limit / 2 ^ 12 * 16 ≤ 2 ^ 64
    → Returns (λ _ t. IsInitialised (limit / 2 ^ 12) s t) (init_frames limit s)
unfolding init_frames
init_frames-IsInitialised limit s empty room small =
    let count = limit / 2 ^ 12 in
    let (_, t, run, r) =
      Run.outcome
        (reserve_loop-IsReserved count 0 (record s.frames { count = count }) (omega arith)) in
    rw
      (
        small_product count (omega (arith, small)),
        in_boot-ok (alloc_boot_memory (count * 16) 16) s
            (table_room (count * 16) s.boot room small),
        in_frames-ok (reserve_loop count 0)
            (record {
              boot = record s.boot { tail = aligned 4 s.boot.tail + count * 16 };
              frames = record s.frames { count = count };
            })
            run,
      )
      (returns (
        r.same_count,
        (λ j h. r.reserved j (omega arith) (omega (arith, h))),
        nothing-IsAccounted empty r (omega (arith, r.same_count)),
        refl,
        refl,
      ))
