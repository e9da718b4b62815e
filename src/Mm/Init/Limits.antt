-- ===== src/Mm/Init/Limits.antt =====
-- The limits that init_memory of mm/mm.c reads from the memory map: the end of the usable memory and
-- the start of what it gives of a region.
use fynaos.Base.{
  ℕ, ◌+◌, ◌/◌, ◌^◌, ◌≤◌, ◌<◌, ◌≡◌, arith, ◌==◌, if◌then◌else◌, u64, align_up, ltb, ◌&&◌, true, List,
  [], ◌∷◌, bit_and,
}
use fynaos.Base.Bits.{align_up_pow, and_not_mask}
use fynaos.Mm.Init.{Entry, Image, find_ram_limit, free_begin}
use fynaos.Mm.Init.Opened.{AreSound}
use fynaos.Mm.Init.Supplied.{AreInside}
use fynaos.Mm.Layout.{page_mask, page_size}

-- No usable region wraps around the end of the address space.
abbrev pub AreUnwrapped : List Entry → Type 0
AreUnwrapped [] = Unit
AreUnwrapped (e ∷ entries) = ((e.type == 1) ≡ true → e.addr + e.len < 2 ^ 64) × AreUnwrapped entries

abbrev higher : ℕ → Entry → ℕ
higher ram e = if ltb ram (u64 (e.addr + e.len)) && e.type == 1 then u64 (e.addr + e.len) else ram

pub find_ram_limit-bounds :
    (entries : List Entry) (ram : ℕ)
    → ram < 2 ^ 64
    → (ram ≤ find_ram_limit ram entries) × (find_ram_limit ram entries < 2 ^ 64)
unfolding find_ram_limit
find_ram_limit-bounds [] ram h = (omega arith, h)
find_ram_limit-bounds (e ∷ entries) ram h =
    let (up, small) = find_ram_limit-bounds entries (higher ram e) (ground (arith, h)) in
    (omega (arith, up, next_ge), small)
  where
    next_ge : ram ≤ higher ram e
    next_ge = ground arith

-- The regions of a map that does not wrap end below the limit that is found.
pub find_ram_limit-AreSound :
    (entries : List Entry) (ram count : ℕ)
    → ram < 2 ^ 64
    → AreUnwrapped entries
    → find_ram_limit ram entries / 2 ^ 12 ≤ count
    → AreSound count entries
unfolding find_ram_limit
find_ram_limit-AreSound [] ram count h unwrapped top = tt
find_ram_limit-AreSound (e ∷ entries) ram count h (here, unwrapped) top = (
  (λ u.
      let up = (find_ram_limit-bounds entries (higher ram e) next_small).0 in
      (omega (arith, here u), omega (arith, top, up, reaches u))),
  find_ram_limit-AreSound entries (higher ram e) count next_small unwrapped top,
)
  where
    next_small : higher ram e < 2 ^ 64
    next_small = ground (arith, h)

    reaches : (e.type == 1) ≡ true → u64 (e.addr + e.len) ≤ higher ram e
    reaches u = ground (arith, u)

-- The pages below a limit are those below the limit without its low bits.
pub masked_pages : (ram : ℕ) → ram < 2 ^ 64 → bit_and ram page_mask / 2 ^ 12 ≡ ram / 2 ^ 12
masked_pages ram h = omega (arith, and_not_mask 12 ram (omega arith) h)

page_up : (x : ℕ) → x + 2 ^ 12 ≤ 2 ^ 64 → x ≤ align_up x page_size
page_up x h = omega (arith, align_up_pow 12 x (omega arith) h)

-- What is given of a region starts in the region.
pub free_begin-ge :
    (image : Image) (boot_begin boot_limit tail begin limit : ℕ)
    → image.start ≤ image.end
    → image.end + 2 ^ 12 ≤ 2 ^ 64
    → boot_begin ≤ tail
    → tail + 2 ^ 12 ≤ 2 ^ 64
    → begin ≤ free_begin image boot_begin boot_limit tail begin limit
unfolding free_begin
free_begin-ge image boot_begin boot_limit tail begin limit ordered low later room =
    ground (arith, ordered, later, page_up image.end low, page_up tail room)

pub free_begin-AreInside :
    (image : Image) (boot_begin boot_limit tail count : ℕ) (entries : List Entry)
    → image.start ≤ image.end
    → image.end + 2 ^ 12 ≤ 2 ^ 64
    → boot_begin ≤ tail
    → tail + 2 ^ 12 ≤ 2 ^ 64
    → AreSound count entries
    → AreInside image boot_begin boot_limit tail count entries
free_begin-AreInside image boot_begin boot_limit tail count [] ordered low later room sound = tt
free_begin-AreInside image boot_begin boot_limit tail count (e ∷ entries) ordered low later room
      (here, sound) =
    (
      (λ u. (
        omega (
          arith,
          free_begin-ge image boot_begin boot_limit tail e.addr (u64 (e.addr + e.len)) ordered low
              later room,
        ),
        (here u).1,
      )),
      free_begin-AreInside image boot_begin boot_limit tail count entries ordered low later room
          sound,
    )
