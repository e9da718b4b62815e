-- ===== src/Mm/Init/Plan/Given.antt =====
-- Where init_memory of mm/mm.c starts to give a region is where the memory map says it is free from.
use fynaos.Base.{
  ℕ, ◌+◌, ◌*◌, ◌/◌, ◌^◌, ◌≤◌, ◌<◌, ◌≡◌, arith, if◌then◌else◌, leb, ◌&&◌, List, align_up,
}
use fynaos.Base.Bits.{align_up_pow}
use fynaos.Mm.Init.{Entry, Image, free_begin}
use fynaos.Mm.Init.Limits.{AreUnwrapped}
use fynaos.Mm.Init.Plan.{AreUpTo, IsLongest, first, later, highest, holds, page_from, boot_from}
use fynaos.Mm.Layout.{page_size}

pub longest-AreUpTo :
    {best : Entry} {entries : List Entry} → IsLongest best entries → AreUpTo best.len entries
longest-AreUpTo (first usable some short) = ((λ u. omega arith), short)
longest-AreUpTo (later less longest) = ((λ u. omega (arith, less u)), longest-AreUpTo longest)

pub longest-highest :
    {best : Entry} {entries : List Entry}
    → IsLongest best entries
    → best.addr + best.len ≤ highest entries
longest-highest {best} (first {entries} usable some short) = rw usable (ground arith)
longest-highest {best} (later {e} {entries} less longest) = ground (arith, longest-highest longest)

pub longest-some : {best : Entry} {entries : List Entry} → IsLongest best entries → 1 ≤ best.len
longest-some (first usable some short) = some
longest-some (later less longest) = longest-some longest

pub longest-unwrapped :
    {best : Entry} {entries : List Entry}
    → IsLongest best entries
    → AreUnwrapped entries
    → best.addr + best.len < 2 ^ 64
longest-unwrapped (first usable some short) (here, unwrapped) = here usable
longest-unwrapped (later less longest) (here, unwrapped) = longest-unwrapped longest unwrapped

pub up-page : (x : ℕ) → x + 2 ^ 12 ≤ 2 ^ 64 → align_up x page_size ≡ page_from x * 2 ^ 12
up-page x h = align_up_pow 12 x (omega arith) h

-- where the boot memory starts, as a number
abbrev boot_at : ℕ → ℕ → ℕ → ℕ → ℕ → ℕ
boot_at addr len start end p = if leb addr start && leb end (addr + len) then p * 2 ^ 12 else addr

-- A region that is not longer than the longest holds the boot memory only where its part behind the
-- image does.
same_choice :
    (addr len start end p best_addr best_len t : ℕ)
    → start ≤ end
    → end ≤ p * 2 ^ 12
    → len ≤ best_len
    → (if leb (boot_at addr len start end p) (boot_at best_addr best_len start end p)
            && leb (best_addr + best_len) (addr + len)
          then t * 2 ^ 12
          else boot_at addr len start end p)
        / 2 ^ 12
      ≡ (if leb addr (boot_at best_addr best_len start end p)
            && leb (best_addr + best_len) (addr + len)
          then t
          else if leb addr start && leb end (addr + len)
          then p
          else addr / 2 ^ 12)
same_choice addr len start end p best_addr best_len t ordered up short =
    ground (arith, ordered, up, short)

-- A region that is not longer than the longest is free from where the map says.
pub free_begin-free_from :
    (image : Image) (best e : Entry) (tail : ℕ)
    → image.start ≤ image.end
    → image.end + 2 ^ 12 ≤ 2 ^ 64
    → tail + 2 ^ 12 ≤ 2 ^ 64
    → e.len ≤ best.len
    → free_begin image (boot_from image best) (best.addr + best.len) tail e.addr (e.addr + e.len)
        / 2 ^ 12
      ≡ (if holds e (boot_from image best) (best.addr + best.len)
          then page_from tail
          else if holds e image.start image.end
          then page_from image.end
          else e.addr / 2 ^ 12)
unfolding free_begin
free_begin-free_from image best e tail ordered low room short =
    rw (up-page image.end low, up-page tail room)
      (same_choice e.addr e.len image.start image.end (page_from image.end) best.addr best.len
        (page_from tail) ordered (omega arith) short)
