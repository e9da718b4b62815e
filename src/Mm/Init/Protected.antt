-- ===== src/Mm/Init/Protected.antt =====
-- What init_memory of mm/mm.c keeps from the allocator: the kernel image and the frame table.
use fynaos.Base.{
  ℕ, ◌+◌, ◌*◌, ◌/◌, ◌^◌, ◌≤◌, ◌<◌, ◌≡◌, ◌⊎◌, refl, ap, ◌∙◌, arith, ◌==◌, leb, ◌&&◌, true, inl, inr,
  none, List, [], ◌∷◌, Returns, align_up, u64, Bool-cases,
}
use fynaos.Base.Run
use fynaos.Base.Bits.{align_up_pow}
use fynaos.Mm.Boot.Bounds.{aligned_bounds}
use fynaos.Mm.Frames.Accounts.{IsAccounted}
use fynaos.Mm.Frames.Coverage.{coverage}
use fynaos.Mm.Frames.Region.{span}
use fynaos.Mm.Frames.Supply.{span_out}
use fynaos.Mm.Init.{Entry, Memory, Image, free_begin, init_memory}
use fynaos.Mm.Init.Limits.{free_begin-ge}
use fynaos.Mm.Init.Opened.{first_page, last_page}
use fynaos.Mm.Init.Ready.{largest, boot_start, table_end, IsUsable, init_memory-IsReady}
use fynaos.Mm.Init.Supplied.{free_page, given}
use fynaos.Mm.Init.Table.{nothing}
use fynaos.Mm.Layout.{page_size}

-- A region holds the addresses from `begin` to `limit`, or ends before their first page, or starts
-- behind them.
abbrev pub IsWhole : ℕ → ℕ → Entry → Type 0
IsWhole begin limit e =
    ((e.addr ≤ begin) × (limit ≤ u64 (e.addr + e.len)))
    ⊎ ((last_page e ≤ begin / 2 ^ 12) ⊎ (limit ≤ first_page e * 2 ^ 12))

abbrev pub AreWhole : ℕ → ℕ → List Entry → Type 0
AreWhole begin limit [] = Unit
AreWhole begin limit (e ∷ entries) =
    ((e.type == 1) ≡ true → IsWhole begin limit e) × AreWhole begin limit entries

-- where the region holds the image and the boot memory, the part behind the boot memory is given
free_begin-tail :
    (image : Image) (boot_limit tail begin limit : ℕ)
    → image.start ≤ image.end
    → image.end + 2 ^ 12 ≤ 2 ^ 64
    → begin ≤ image.start
    → image.end ≤ boot_limit
    → boot_limit ≤ limit
    → free_begin image (align_up image.end page_size) boot_limit tail begin limit
      ≡ align_up tail page_size
unfolding free_begin
free_begin-tail image boot_limit tail begin limit ordered low from inside to =
    ground (arith, from, inside, to)

-- a page that starts before an address lies before the next page from it
before_page : (i x : ℕ) → x + 2 ^ 12 ≤ 2 ^ 64 → i * 2 ^ 12 < x → i < align_up x page_size / 2 ^ 12
before_page i x room h = omega (arith, align_up_pow 12 x (omega arith) room, h)

module _ (image : Image) (boot_limit tail : ℕ) (ordered : image.start ≤ image.end)
    (low : image.end + 2 ^ 12 ≤ 2 ^ 64) (inside : image.end ≤ boot_limit)
    (later : align_up image.end page_size ≤ tail) (room : tail + 2 ^ 12 ≤ 2 ^ 64)
    (fits : tail < boot_limit) (i : ℕ) (lo : image.start / 2 ^ 12 ≤ i)
    (hi : i * 2 ^ 12 < tail) where
  span-kept :
      (e : Entry)
      → IsWhole image.start boot_limit e
      → span (free_page image (align_up image.end page_size) boot_limit tail e) (last_page e) i ≡ 0
  span-kept e (inl (from, to)) = span_out _ _ i (
      inl (
        omega (
          arith,
          before_page i tail room hi,
          free_begin-tail image boot_limit tail e.addr (u64 (e.addr + e.len)) ordered low from
              inside to,
        )))
  span-kept e (inr (inl before)) = span_out _ _ i (inr (omega (arith, before, lo)))
  span-kept e (inr (inr behind)) = span_out _ _ i (
      inl (
        omega (
          arith,
          behind,
          hi,
          fits,
          free_begin-ge image (align_up image.end page_size) boot_limit tail e.addr
              (u64 (e.addr + e.len)) ordered low later room,
        )))

  given-kept :
      (entries : List Entry)
      → AreWhole image.start boot_limit entries
      → given image (align_up image.end page_size) boot_limit tail entries i ≡ 0
  given-kept [] whole = refl
  given-kept (e ∷ entries) (here, whole) = elim (Bool-cases (e.type == 1)) [
    | inl u ↦ rw u (omega (arith, span-kept e (here u), given-kept entries whole))
    | inr u ↦ rw u (omega (arith, given-kept entries whole))
  ]

-- The pages from the kernel image up to the end of the frame table are not free.
abbrev pub IsProtected : Image → List Entry → Memory → Type 0
IsProtected image entries t =
    (lists : ℕ → List ℕ) × IsAccounted t.frames lists nothing
    × ((i : ℕ)
        → image.start / 2 ^ 12 ≤ i
        → i * 2 ^ 12 < table_end image entries
        → coverage lists i ≡ 0)

-- On a memory map that a machine can have, where the kernel image lies in the largest usable region
-- and every usable region holds the addresses from the image to the end of the largest region or
-- shares no page with them, and from empty free lists, init_memory returns and leaves free lists in
-- which no page is free that holds a part of the kernel image or of the frame table.
pub init_memory-IsProtected :
    (image : Image) (entries : List Entry) (s : Memory)
    → IsUsable image entries
    → ((k : ℕ) → s.frames.free_region k ≡ none)
    → (leb (largest entries).begin image.start && leb image.end (largest entries).limit) ≡ true
    → AreWhole image.start (largest entries).limit entries
    → Returns (λ _. IsProtected image entries) (init_memory image entries s)
init_memory-IsProtected image entries s u empty inside whole =
    Run.mono (init_memory-IsReady image entries s u empty)
      λ _ t (lists, acc, free, _, _). (lists, acc, (λ i lo hi. free i ∙ kept i lo hi))
  where
    limit : ℕ
    limit = (largest entries).limit

    start : boot_start image entries ≡ align_up image.end page_size
    start = rw inside refl

    kept :
        (i : ℕ)
        → image.start / 2 ^ 12 ≤ i
        → i * 2 ^ 12 < table_end image entries
        → given image (boot_start image entries) limit (table_end image entries) entries i ≡ 0
    kept i lo hi =
        ap (λ b. given image b limit (table_end image entries) entries i) start
        ∙ given-kept image limit (table_end image entries) u.ordered u.image_low
            (ground (arith, inside))
            (omega (arith, start, (aligned_bounds 4 (boot_start image entries)).0))
            (omega (arith, u.low, (aligned_bounds 4 (boot_start image entries)).1)) u.room i lo hi
            entries whole
