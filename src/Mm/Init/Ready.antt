-- ===== src/Mm/Init/Ready.antt =====
-- init_memory of mm/mm.c as a whole, from the memory map to the free lists.
use fynaos.Base.{
  ℕ, ◌+◌, ◌*◌, ◌/◌, ◌^◌, ◌≤◌, ◌<◌, ◌≡◌, refl, ap, sym, subst, ◌∙◌, arith, ◌==◌, if◌then◌else◌, leb,
  ◌&&◌, false, inl, inr, none, Option, negsuc, pos, List, [], Returns, bit_and, align_up,
  invalid_address, ◌>>◌,
}
use fynaos.Base.Run
use fynaos.Mm.Boot.Bounds.{aligned, aligned_bounds}
use fynaos.Mm.Frames.{Frame, Frames}
use fynaos.Mm.Frames.Accounts.{IsAccounted}
use fynaos.Mm.Frames.Chain.{Chain, nil}
use fynaos.Mm.Frames.Coverage.{coverage}
use fynaos.Mm.Init.{
  Entry, Memory, Image, Largest, reserved_frame, find_largest, find_ram_limit, init_frames,
  unreserve_entries, free_entries, init_memory,
}
use fynaos.Mm.Init.Limits.{
  AreUnwrapped, find_ram_limit-bounds, find_ram_limit-AreSound, free_begin-AreInside, masked_pages,
}
use fynaos.Mm.Init.Opened.{claimed, IsEither, IsOpened, unreserve_entries-IsOpened}
use fynaos.Mm.Init.Supplied.{given, nothing_covers, free_entries-given}
use fynaos.Mm.Init.Table.{nothing, IsInitialised, init_frames-IsInitialised}
use fynaos.Mm.Layout.{page_mask, page_size}

-- the largest usable region, where the boot allocator works
abbrev pub largest : List Entry → Largest
largest entries =
    find_largest (record { len = 0; begin = invalid_address; limit = invalid_address }) entries

-- where the boot allocator starts: behind the kernel image, if the image lies in that region
abbrev pub boot_start : Image → List Entry → ℕ
boot_start image entries =
    if leb (largest entries).begin image.start && leb image.end (largest entries).limit
    then align_up image.end page_size
    else (largest entries).begin

abbrev pub pages : List Entry → ℕ
pages entries = find_ram_limit 0 entries / 2 ^ 12

-- the tail of the boot allocator behind the frame table
abbrev pub table_end : Image → List Entry → ℕ
table_end image entries = aligned 4 (boot_start image entries) + pages entries * 16

-- A memory map that a machine can have: usable memory that does not wrap, no page in two usable
-- regions, and room for the frame table in the largest region.
pub record IsUsable (image : Image) (entries : List Entry) : Type 0 where
  pub some_region : ((largest entries).len == 0) ≡ false
  pub some_ram : (find_ram_limit 0 entries == 0) ≡ false
  pub unwrapped : AreUnwrapped entries
  pub once : (i : ℕ) → claimed entries i ≤ 1
  pub room : table_end image entries < (largest entries).limit
  pub low : boot_start image entries + pages entries * 16 + 2 ^ 13 ≤ 2 ^ 64
  pub ordered : image.start ≤ image.end
  pub image_low : image.end + 2 ^ 12 ≤ 2 ^ 64

-- All frames are accounted for, none is handed out, and the free ones are the given ones.
abbrev pub IsReady : Image → List Entry → Memory → Type 0
IsReady image entries t =
    (lists : ℕ → List ℕ) × IsAccounted t.frames lists nothing
    × ((i : ℕ)
        → coverage lists i
          ≡ given image (boot_start image entries) (largest entries).limit (table_end image entries)
              entries i)
    × (t.frames.count ≡ pages entries)
    × (t.boot.tail ≡ table_end image entries)

-- an empty list is empty in every table
empty-Chain : {s t : Frames} {k : ℕ} {h : Option ℕ} → Chain s k h [] → Chain t k h []
empty-Chain nil = nil

either-orderless : {f : Frame} {k : ℕ} → IsEither f → f.order ≡ pos k → ⊥
either-orderless {f} {k} (inl e) sized =
    let wrong : negsuc 0 ≡ pos k = sym (ap (λ f. f.order) e) ∙ sized in cc
either-orderless {f} {k} (inr e) sized =
    let wrong : negsuc 0 ≡ pos k = sym (ap (λ f. f.order) e) ∙ sized in cc

-- Opening frames leaves the account as it was, with nothing free.
opened-IsAccounted :
    {entries : List Entry} {s t : Frames}
    → IsAccounted s nothing nothing
    → IsOpened entries s t
    → IsAccounted t nothing nothing
opened-IsAccounted {entries} {s} {t} acc o = record {
  free = record {
    chain = λ k hk.
        subst (λ h. Chain t k h []) (sym (o.same_lists k)) (empty-Chain (acc.free.chain k hk));
  };
  held = λ k p hk m. cc;
  apart = acc.apart;
  known = λ q k lt sized unused.
      absurd (either-orderless (o.either q (omega (arith, lt, o.same_count))) sized);
}

module _ (image : Image) (entries : List Entry) (u : IsUsable image entries) where
  ram_small : find_ram_limit 0 entries < 2 ^ 64
  ram_small = (find_ram_limit-bounds entries 0 (omega arith)).1

  start_le : boot_start image entries ≤ aligned 4 (boot_start image entries)
  start_le = (aligned_bounds 4 (boot_start image entries)).0

  end_low : table_end image entries + 2 ^ 12 ≤ 2 ^ 64
  end_low = omega (arith, u.low, (aligned_bounds 4 (boot_start image entries)).1)

  init_frames-ready :
      (s : Memory)
      → ((k : ℕ) → s.frames.free_region k ≡ none)
      → s.boot.tail ≡ boot_start image entries
      → s.boot.limit ≡ (largest entries).limit
      → Returns
          (λ _ t. IsInitialised (pages entries) s t)
          (init_frames (bit_and (find_ram_limit 0 entries) page_mask) s)
  init_frames-ready s empty tail limit =
      let e = masked_pages (find_ram_limit 0 entries) ram_small in
      Run.mono
        (init_frames-IsInitialised (bit_and (find_ram_limit 0 entries) page_mask) s empty
          (rw (e, tail, limit) u.room) (rw (e, tail) (omega (arith, u.low))))
        λ _ t i. subst (λ c. IsInitialised c s t) e i

  -- the rest of init_memory behind the frame table
  unreserve_entries-IsReady :
      (s : Memory)
      → s.boot.tail ≡ table_end image entries
      → s.frames.count ≡ pages entries
      → ((j : ℕ) → j < pages entries → s.frames.frame j ≡ reserved_frame)
      → IsAccounted s.frames nothing nothing
      → Returns
          (λ _. IsReady image entries)
          ((do
            unreserve_entries entries
            free_entries image (boot_start image entries) (largest entries).limit entries)
            s)
  unreserve_entries-IsReady s tail count reserved acc =
      let sound =
        find_ram_limit-AreSound entries 0 s.frames.count (omega arith) u.unwrapped
          (omega (arith, count)) in
      Run.bind
        (unreserve_entries-IsOpened entries s sound
          (λ i h. inl (reserved i (omega (arith, h, count)))))
        λ _ t (boot, o).
          let at : t.boot.tail ≡ table_end image entries = ap (λ b. b.tail) boot ∙ tail in
          Run.mono
            (free_entries-given image (boot_start image entries) (largest entries).limit entries t
              (free_begin-AreInside image (boot_start image entries) (largest entries).limit
                t.boot.tail t.frames.count entries u.ordered u.image_low
                (omega (arith, at, start_le)) (omega (arith, at, end_low)) (rw o.same_count sound))
              (opened-IsAccounted acc o) o.opened (λ i. omega (arith, u.once i, nothing_covers i)))
            λ _ t' (lists, acc', cover, size, kept). (
              lists,
              acc',
              (λ i. omega (
                arith,
                cover i,
                nothing_covers i,
                ap (λ x. given image (boot_start image entries) (largest entries).limit x entries i)
                    at,
              )),
              size ∙ o.same_count ∙ count,
              ap (λ b. b.tail) kept ∙ at,
            )

-- On a memory map that a machine can have and from empty free lists, init_memory returns: there is a
-- frame for each page below the limit that it finds, all frames are accounted for and none is handed
-- out, a page is free exactly as often as init_memory gives it, and the boot allocator stands behind
-- the frame table.
pub init_memory-IsReady :
    (image : Image) (entries : List Entry) (s : Memory)
    → IsUsable image entries
    → ((k : ℕ) → s.frames.free_region k ≡ none)
    → Returns (λ _. IsReady image entries) (init_memory image entries s)
unfolding init_memory
init_memory-IsReady image entries s u empty =
    rw (u.some_region, u.some_ram)
      (Run.bind
        (init_frames-ready image entries u
          (record s {
            boot = record {
              begin = boot_start image entries;
              tail = boot_start image entries;
              limit = (largest entries).limit;
            };
          })
          empty refl refl)
        λ _ t (count, reserved, acc, tail, limit).
          unreserve_entries-IsReady image entries u t tail count reserved acc)
