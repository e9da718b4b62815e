-- ===== src/Mm/Init/Plan.antt =====
-- What init_memory of mm/mm.c should make of a memory map, in addresses that do not wrap and without
-- its loops, and that those loops come to the same.
pub mod Given
pub mod Planned
use fynaos.Base.{
  ℕ, ◌+◌, ◌*◌, ◌/◌, ◌^◌, ◌≤◌, ◌<◌, ◌≡◌, refl, ap, ◌∙◌, arith, ◌==◌, if◌then◌else◌, u64, leb, ltb,
  ◌&&◌, true, false, Bool, Bool-cases, inl, inr, ◌⊎◌, List, [], ◌∷◌,
}
use fynaos.Mm.Boot.Bounds.{aligned}
use fynaos.Mm.Frames.Region.{span}
use fynaos.Mm.Init.{Entry, Image, Largest, find_largest, find_ram_limit}
use fynaos.Mm.Init.Limits.{AreUnwrapped}

-- No usable region is longer than `len`.
abbrev pub AreUpTo : ℕ → List Entry → Type 0
AreUpTo len [] = Unit
AreUpTo len (e ∷ entries) = ((e.type == 1) ≡ true → e.len ≤ len) × AreUpTo len entries

-- `best` is the first of the longest usable regions of a memory map.
pub data IsLongest (best : Entry) : List Entry → Type 0 where
  first :
      {entries : List Entry}
      → (best.type == 1) ≡ true
      → 1 ≤ best.len
      → AreUpTo best.len entries
      → IsLongest best (best ∷ entries)
  later :
      {e : Entry} {entries : List Entry}
      → ((e.type == 1) ≡ true → e.len < best.len)
      → IsLongest best entries
      → IsLongest best (e ∷ entries)

abbrev pub larger : ℕ → ℕ → ℕ
larger a b = if ltb a b then b else a

-- where the usable memory ends
abbrev pub highest : List Entry → ℕ
highest [] = 0
highest (e ∷ entries) = larger (highest entries) (if e.type == 1 then e.addr + e.len else 0)

-- whether a region holds the addresses from `from` to `to`
abbrev pub holds : Entry → ℕ → ℕ → Bool
holds e from to = leb e.addr from && leb to (e.addr + e.len)

-- the first page from an address on
abbrev pub page_from : ℕ → ℕ
page_from x = (x + 0xFFF) / 2 ^ 12

-- The boot memory starts with the longest region, or in it behind the kernel image.
abbrev pub boot_from : Image → Entry → ℕ
boot_from image best =
    if holds best image.start image.end then page_from image.end * 2 ^ 12 else best.addr

-- The frame table, of 16 bytes for each page, is all that it holds.
abbrev pub table_to : Image → Entry → List Entry → ℕ
table_to image best entries = aligned 4 (boot_from image best) + highest entries / 2 ^ 12 * 16

-- The first page of a region that is to be free: the first behind the frame table in the region of the
-- boot memory, the first behind the kernel image in another region that holds it.
abbrev pub free_from : Image → Entry → List Entry → Entry → ℕ
free_from image best entries e =
    if holds e (boot_from image best) (best.addr + best.len)
    then page_from (table_to image best entries)
    else if holds e image.start image.end
    then page_from image.end
    else e.addr / 2 ^ 12

-- how many of the usable regions `rest` have a page among their free ones
abbrev pub free_in : Image → Entry → List Entry → List Entry → ℕ → ℕ
free_in image best entries [] i = 0
free_in image best entries (e ∷ rest) i =
    (if e.type == 1 then span (free_from image best entries e) ((e.addr + e.len) / 2 ^ 12) i else 0)
    + free_in image best entries rest i

-- The search of init_memory keeps what it has found from regions that are not longer.
find_largest-kept :
    (entries : List Entry) (found : Largest)
    → AreUpTo found.len entries
    → find_largest found entries ≡ found
unfolding find_largest
find_largest-kept [] found short = refl
find_largest-kept (e ∷ entries) found (here, short) = elim (Bool-cases (e.type == 1)) [
  | inl u ↦
      let not_longer : ltb found.len e.len ≡ false = ground (arith, here u) in
      rw not_longer (find_largest-kept entries found short)
  | inr u ↦
      let other : (ltb found.len e.len && e.type == 1) ≡ false = ground (arith, u) in
      rw other (find_largest-kept entries found short)
]

abbrev pub region_of : Entry → Largest
region_of e = record { len = e.len; begin = e.addr; limit = u64 (e.addr + e.len) }

pub find_largest-longest :
    {best : Entry} {entries : List Entry}
    → IsLongest best entries
    → (found : Largest) → found.len < best.len
    → find_largest found entries ≡ region_of best
unfolding find_largest
find_largest-longest {best} (first usable some short) found shorter =
    let longer : ltb found.len best.len ≡ true = ground (arith, shorter) in
    rw (longer, usable) (find_largest-kept _ (region_of best) short)
find_largest-longest {best} (later {e} {entries} less longest) found shorter =
    find_largest-longest longest (if ltb found.len e.len && e.type == 1 then region_of e else found)
      (still (Bool-cases (e.type == 1)))
  where
    still :
        ((e.type == 1) ≡ true) ⊎ ((e.type == 1) ≡ false)
        → (if ltb found.len e.len && e.type == 1 then region_of e else found).len < best.len
    still (inl u) = elim (Bool-cases (ltb found.len e.len)) [
      | inl l ↦ rw (l, u) (less u)
      | inr l ↦ rw l shorter
    ]
    still (inr u) = elim (Bool-cases (ltb found.len e.len)) [
      | inl l ↦ rw (l, u) shorter
      | inr l ↦ rw l shorter
    ]

larger_again : (ram end top : ℕ) → larger (larger ram end) top ≡ larger ram (larger top end)
larger_again ram end top = ground arith

larger_zero : (top : ℕ) → larger top 0 ≡ top
larger_zero top = ground arith

next_limit :
    (ram : ℕ) (e : Entry)
    → ((e.type == 1) ≡ true → e.addr + e.len < 2 ^ 64)
    → (if ltb ram (u64 (e.addr + e.len)) && e.type == 1 then u64 (e.addr + e.len) else ram)
      ≡ larger ram (if e.type == 1 then e.addr + e.len else 0)
next_limit ram e here = elim (Bool-cases (e.type == 1)) [
  | inl u ↦
      let small : u64 (e.addr + e.len) ≡ e.addr + e.len = omega (arith, here u) in
      rw (u, small) (ground arith)
  | inr u ↦ rw u (ground arith)
]

pub find_ram_limit-highest :
    (entries : List Entry) (ram : ℕ)
    → AreUnwrapped entries
    → find_ram_limit ram entries ≡ larger ram (highest entries)
unfolding find_ram_limit
find_ram_limit-highest [] ram unwrapped = ground arith
find_ram_limit-highest (e ∷ entries) ram (here, unwrapped) =
    ap (λ r. find_ram_limit r entries) (next_limit ram e here)
    ∙ find_ram_limit-highest entries (larger ram end) unwrapped
    ∙ larger_again ram end (highest entries)
  where
    end : ℕ
    end = if e.type == 1 then e.addr + e.len else 0
