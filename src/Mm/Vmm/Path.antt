-- ===== src/Mm/Vmm/Path.antt =====
-- The way of the lookups of mm/vmm.c through tables that are there, down to the last entry.
use fynaos.Base.{
  ℕ, ◌+◌, ◌*◌, ◌/◌, ◌%◌, ◌^◌, arith, ◌≡◌, refl, true, false, if◌then◌else◌, bit_and, u64,
  invalid_address, some, none, ok, update, Bool-cases, inl, inr, bit_or,
}
use fynaos.Base.Bits.{and_mask}
use fynaos.Mm.Layout.{page_mask}
use fynaos.Mm.Machine.{Machine, usable, load, store}
use fynaos.Mm.Vmm.{
  entry_at, is_present, walk, lookup, table_below, virt_to_phys, map_page, unmap_page, pml4_index,
  pdpt_index, pd_index, pt_index, page_offset,
}

-- The entry at `a` can be read, and names the table `table`.
pub record IsEntry (s : Machine) (a table : ℕ) : Type 0 where
  pub readable : usable a ≡ true
  pub present : is_present (s.mem a) ≡ true
  pub names : bit_and (s.mem a) page_mask ≡ table

-- the entry that the processor reads for a page number in a table of level `level`, from 0 for the
-- lowest: each level takes nine bits
abbrev pub index : ℕ → ℕ → ℕ
index level page = page / 2 ^ (9 * level) % 2 ^ 9

-- The three upper tables on the way to page number `page` are there.
pub record IsPath (s : Machine) (mm page : ℕ) : Type 0 where
  pub pml4 : ℕ
  pub pdpt : ℕ
  pub pd : ℕ
  pub pt : ℕ
  pub readable : usable mm ≡ true
  pub top : s.mem mm ≡ pml4
  pub aligned : bit_and pml4 page_mask ≡ pml4
  pub to_pdpt : IsEntry s (entry_at pml4 (index 3 page)) pdpt
  pub to_pd : IsEntry s (entry_at pdpt (index 2 page)) pd
  pub to_pt : IsEntry s (entry_at pd (index 1 page)) pt
  pub leaf : usable (entry_at pt (index 0 page)) ≡ true

-- the address of the last entry
abbrev pub leaf_at : {s : Machine} {mm page : ℕ} → IsPath s mm page → ℕ
leaf_at {page = page} path = entry_at path.pt (index 0 page)

-- The code takes the same entries, for each address of the page.
pml4_index-page : (virt page : ℕ) → virt / 2 ^ 12 ≡ page → pml4_index virt ≡ index 3 page
unfolding pml4_index
pml4_index-page virt page on = omega (arith, on, and_mask 9 (virt / 2 ^ 39))

pdpt_index-page : (virt page : ℕ) → virt / 2 ^ 12 ≡ page → pdpt_index virt ≡ index 2 page
unfolding pdpt_index
pdpt_index-page virt page on = omega (arith, on, and_mask 9 (virt / 2 ^ 30))

pd_index-page : (virt page : ℕ) → virt / 2 ^ 12 ≡ page → pd_index virt ≡ index 1 page
unfolding pd_index
pd_index-page virt page on = omega (arith, on, and_mask 9 (virt / 2 ^ 21))

pt_index-page : (virt page : ℕ) → virt / 2 ^ 12 ≡ page → pt_index virt ≡ index 0 page
unfolding pt_index
pt_index-page virt page on = omega (arith, on, and_mask 9 (virt / 2 ^ 12))

load-run : (a : ℕ) (s : Machine) → usable a ≡ true → load a s ≡ ok (s.mem a, s)
unfolding load
load-run a s e = rw e refl

store-run :
    (a v : ℕ) (s : Machine)
    → usable a ≡ true
    → store a v s ≡ ok (tt, record s { mem = update s.mem a v })
unfolding store
store-run a v s e = rw e refl

walk-entry :
    (table index : ℕ) {s : Machine} {next : ℕ}
    → IsEntry s (entry_at table index) next
    → walk table index s ≡ ok (some next, s)
unfolding walk
walk-entry table index {s} entry =
    rw (load-run (entry_at table index) s entry.readable, entry.present, entry.names) refl

walk-leaf :
    (table index : ℕ) (s : Machine)
    → usable (entry_at table index) ≡ true
    → walk table index s
      ≡ ok (
        if is_present (s.mem (entry_at table index))
            then some (bit_and (s.mem (entry_at table index)) page_mask)
            else none,
        s,
      )
unfolding walk
walk-leaf table index s e =
    rw (load-run (entry_at table index) s e)
      (elim (Bool-cases (is_present (s.mem (entry_at table index)))) [
        | inl e' ↦ rw e' refl
        | inr e' ↦ rw e' refl
      ])

table_below-entry :
    (table index : ℕ) {s : Machine} {next : ℕ}
    → IsEntry s (entry_at table index) next
    → table_below table index s ≡ ok (next, s)
unfolding table_below
table_below-entry table index {s} entry =
    rw (load-run (entry_at table index) s entry.readable, entry.present)
      (rw (load-run (entry_at table index) s entry.readable, entry.names) refl)

-- the translation that the last entry `e` gives
abbrev pub translated : ℕ → ℕ → ℕ
translated e virt =
    if is_present e then u64 (bit_and e page_mask + page_offset virt) else invalid_address

module _ {s : Machine} {mm page : ℕ} (path : IsPath s mm page) (virt : ℕ)
    (on : virt / 2 ^ 12 ≡ page) where
  pub virt_to_phys-path : virt_to_phys mm virt s ≡ ok (translated (s.mem (leaf_at path)) virt, s)
  unfolding virt_to_phys lookup
  virt_to_phys-path =
      rw
        (
          pml4_index-page virt page on,
          pdpt_index-page virt page on,
          pd_index-page virt page on,
          pt_index-page virt page on,
          load-run mm s path.readable,
          path.top,
          path.aligned,
          walk-entry path.pml4 (index 3 page) path.to_pdpt,
          walk-entry path.pdpt (index 2 page) path.to_pd,
          walk-entry path.pd (index 1 page) path.to_pt,
          walk-leaf path.pt (index 0 page) s path.leaf,
        )
        (elim (Bool-cases (is_present (s.mem (leaf_at path)))) [
          | inl e ↦ rw e refl
          | inr e ↦ rw e refl
        ])

  -- `map_page` fills the last entry, unless it is present.
  pub map_page-path :
      (frame attr : ℕ)
      → map_page mm frame virt attr s ≡ (
          if is_present (s.mem (leaf_at path))
          then ok (false, s)
          else ok (true, record s { mem = update s.mem (leaf_at path) (bit_or frame attr) }))
  unfolding map_page
  map_page-path frame attr =
      rw
        (
          pml4_index-page virt page on,
          pdpt_index-page virt page on,
          pd_index-page virt page on,
          pt_index-page virt page on,
          load-run mm s path.readable,
          path.top,
          table_below-entry path.pml4 (index 3 page) path.to_pdpt,
          table_below-entry path.pdpt (index 2 page) path.to_pd,
          table_below-entry path.pd (index 1 page) path.to_pt,
          load-run (leaf_at path) s path.leaf,
        )
        (elim (Bool-cases (is_present (s.mem (leaf_at path)))) [
          | inl e ↦ rw e refl
          | inr e ↦ rw (e, store-run (leaf_at path) (bit_or frame attr) s path.leaf) refl
        ])

  -- `unmap_page` clears the last entry where it is present.
  pub unmap_page-path : unmap_page mm virt s ≡ (
      if is_present (s.mem (leaf_at path))
      then ok (
        bit_and (s.mem (leaf_at path)) page_mask,
        record s { mem = update s.mem (leaf_at path) 0 },
      )
      else ok (invalid_address, s))
  unfolding unmap_page lookup
  unmap_page-path =
      rw
        (
          pml4_index-page virt page on,
          pdpt_index-page virt page on,
          pd_index-page virt page on,
          pt_index-page virt page on,
          load-run mm s path.readable,
          path.top,
          walk-entry path.pml4 (index 3 page) path.to_pdpt,
          walk-entry path.pdpt (index 2 page) path.to_pd,
          walk-entry path.pd (index 1 page) path.to_pt,
          walk-leaf path.pt (index 0 page) s path.leaf,
        )
        (elim (Bool-cases (is_present (s.mem (leaf_at path)))) [
          | inl e ↦ rw (e, store-run (leaf_at path) 0 s path.leaf) refl
          | inr e ↦ rw e refl
        ])
