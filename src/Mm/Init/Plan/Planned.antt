-- ===== src/Mm/Init/Plan/Planned.antt =====
-- init_memory of mm/mm.c comes to what the memory map says should be free.
use fynaos.Base.{
  ℕ, ◌+◌, ◌*◌, ◌/◌, ◌^◌, ◌≤◌, ◌<◌, ◌≡◌, refl, ap, ◌∙◌, arith, ◌==◌, u64, Bool-cases, inl, inr, none,
  List, [], ◌∷◌, Returns, invalid_address,
}
use fynaos.Base.Run
use fynaos.Mm.Boot.Bounds.{aligned_bounds}
use fynaos.Mm.Frames.Accounts.{IsAccounted}
use fynaos.Mm.Frames.Coverage.{coverage}
use fynaos.Mm.Init.{Entry, Image, Memory, find_ram_limit, init_memory}
use fynaos.Mm.Init.Limits.{AreUnwrapped}
use fynaos.Mm.Init.Opened.{claimed}
use fynaos.Mm.Init.Plan.{
  AreUpTo, IsLongest, highest, boot_from, table_to, free_in, region_of, find_largest-longest,
  find_ram_limit-highest,
}
use fynaos.Mm.Init.Plan.Given.{
  longest-AreUpTo, longest-highest, longest-some, longest-unwrapped, up-page, free_begin-free_from,
}
use fynaos.Mm.Init.Ready.{IsUsable, init_memory-IsReady, largest, boot_start, table_end}
use fynaos.Mm.Init.Supplied.{given}
use fynaos.Mm.Init.Table.{nothing}

-- A memory map that a machine can have, of which `best` is the longest usable region: no usable region
-- wraps, no page is in two of them, and the longest has room for the frame table.
pub record IsFit (image : Image) (best : Entry) (entries : List Entry) : Type 0 where
  pub longest : IsLongest best entries
  pub unwrapped : AreUnwrapped entries
  pub once : (i : ℕ) → claimed entries i ≤ 1
  pub room : table_to image best entries < best.addr + best.len
  pub low : boot_from image best + highest entries / 2 ^ 12 * 16 + 2 ^ 13 ≤ 2 ^ 64
  pub ordered : image.start ≤ image.end
  pub image_low : image.end + 2 ^ 12 ≤ 2 ^ 64

-- All frames are accounted for, none is handed out, and the free ones are those that the map says.
abbrev pub IsPlanned : Image → Entry → List Entry → Memory → Type 0
IsPlanned image best entries t =
    (lists : ℕ → List ℕ) × IsAccounted t.frames lists nothing
    × ((i : ℕ) → coverage lists i ≡ free_in image best entries entries i)
    × (t.frames.count ≡ highest entries / 2 ^ 12)
    × (t.boot.tail ≡ table_to image best entries)

module _ (image : Image) (best : Entry) (entries : List Entry) (f : IsFit image best entries) where
  best_end : u64 (best.addr + best.len) ≡ best.addr + best.len
  best_end = omega (arith, longest-unwrapped f.longest f.unwrapped)

  largest-best : largest entries ≡ region_of best
  largest-best =
      find_largest-longest f.longest
        (record { len = 0; begin = invalid_address; limit = invalid_address })
        (omega (arith, longest-some f.longest))

  ram-highest : find_ram_limit 0 entries ≡ highest entries
  ram-highest = find_ram_limit-highest entries 0 f.unwrapped ∙ ground arith

  start-from : boot_start image entries ≡ boot_from image best
  start-from = rw (largest-best, best_end, up-page image.end f.image_low) refl

  end-to : table_end image entries ≡ table_to image best entries
  end-to = rw (start-from, ram-highest) refl

  fit-IsUsable : IsUsable image entries
  fit-IsUsable = record {
    some_region = rw largest-best (ground (arith, longest-some f.longest));
    some_ram = rw ram-highest (ground (arith, longest-highest f.longest, longest-some f.longest));
    unwrapped = f.unwrapped;
    once = f.once;
    room = rw (end-to, largest-best, best_end) f.room;
    low = rw (start-from, ram-highest) f.low;
    ordered = f.ordered;
    image_low = f.image_low;
  }

  end_low : table_to image best entries + 2 ^ 12 ≤ 2 ^ 64
  end_low = omega (arith, f.low, (aligned_bounds 4 (boot_from image best)).1)

  given-free_in :
      (rest : List Entry) (i : ℕ)
      → AreUpTo best.len rest
      → AreUnwrapped rest
      → given image
          (boot_from image best)
          (best.addr + best.len)
          (table_to image best entries)
          rest
          i
        ≡ free_in image best entries rest i
  given-free_in [] i short unwrapped = refl
  given-free_in (e ∷ rest) i (here, short) (whole, unwrapped) = elim (Bool-cases (e.type == 1)) [
    | inr u ↦ rw u (omega (arith, given-free_in rest i short unwrapped))
    | inl u ↦
        let end : u64 (e.addr + e.len) ≡ e.addr + e.len = omega (arith, whole u) in
        let from =
          free_begin-free_from image best e (table_to image best entries) f.ordered f.image_low
            end_low (here u) in
        rw (u, end, from) (omega (arith, given-free_in rest i short unwrapped))
  ]

  given-planned :
      (i : ℕ)
      → given image
          (boot_start image entries)
          (largest entries).limit
          (table_end image entries)
          entries
          i
        ≡ free_in image best entries entries i
  given-planned i =
      rw (end-to, start-from, largest-best, best_end)
        (given-free_in entries i (longest-AreUpTo f.longest) f.unwrapped)

-- On a memory map that a machine can have (no usable region wraps, no page is in two of them, and the
-- first of the longest ones has room for the frame table) and from empty free lists, init_memory
-- returns: there is a frame for each page below the highest end of a usable region, the free lists are
-- well formed and nothing is handed out. The free pages are those of the usable regions from their
-- start on; of a region that holds the kernel image, those behind the image; and of the region that
-- holds the boot memory, those behind the frame table, which has 16 bytes for each frame and starts
-- with the longest region, or behind the image where that region holds it. The boot allocator stands
-- behind the frame table.
pub init_memory-IsPlanned :
    (image : Image) (best : Entry) (entries : List Entry) (s : Memory)
    → IsFit image best entries
    → ((k : ℕ) → s.frames.free_region k ≡ none)
    → Returns (λ _. IsPlanned image best entries) (init_memory image entries s)
init_memory-IsPlanned image best entries s f empty =
    Run.mono (init_memory-IsReady image entries s (fit-IsUsable image best entries f) empty)
      λ _ t (lists, acc, free, count, tail). (
        lists,
        acc,
        (λ i. free i ∙ given-planned image best entries f i),
        count ∙ ap (λ r. r / 2 ^ 12) (ram-highest image best entries f),
        tail ∙ end-to image best entries f,
      )
