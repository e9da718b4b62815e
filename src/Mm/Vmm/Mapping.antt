-- ===== src/Mm/Vmm/Mapping.antt =====
-- map_page, unmap_page and virt_to_phys of mm/vmm.c one after another, for a page whose tables are
-- there.
use fynaos.Base.{
  ℕ, M, ◌+◌, ◌*◌, ◌/◌, ◌%◌, ◌^◌, ◌<◌, ◌≡◌, ◌≢◌, refl, ap, ◌∙◌, arith, true, false, if◌then◌else◌,
  bit_and, bit_or, pure, invalid_address, ok, update, ◌>>=◌,
}
use fynaos.Base.Bits.{or_low, and_mask, and_not_mask}
use fynaos.Mm.Layout.{page_mask}
use fynaos.Mm.Machine.{Machine}
use fynaos.Mm.Vmm.{entry_at, is_present, virt_to_phys, map_page, unmap_page, page_offset}
use fynaos.Mm.Vmm.Path.{
  IsEntry, IsPath, index, leaf_at, translated, virt_to_phys-path, map_page-path, unmap_page-path,
}

-- The last entry is none of the words that the way to it reads.
pub record IsApart {s : Machine} {mm page : ℕ} (path : IsPath s mm page) : Type 0 where
  pub from_mm : mm ≢ leaf_at path
  pub from_pml4 : entry_at path.pml4 (index 3 page) ≢ leaf_at path
  pub from_pdpt : entry_at path.pdpt (index 2 page) ≢ leaf_at path
  pub from_pd : entry_at path.pd (index 1 page) ≢ leaf_at path

abbrev pub with_leaf : {s : Machine} {mm page : ℕ} → IsPath s mm page → ℕ → Machine
with_leaf {s} path e = record s { mem = update s.mem (leaf_at path) e }

update_other : (f : ℕ → ℕ) (a b v : ℕ) → b ≢ a → update f a v b ≡ f b
update_other f a b v h = ground (arith, h)

IsEntry-kept :
    {s : Machine} {a b table : ℕ} (v : ℕ)
    → IsEntry s a table
    → a ≢ b
    → IsEntry (record s { mem = update s.mem b v }) a table
IsEntry-kept {s} {a} {b} v entry other = record {
  readable = entry.readable;
  present = ap (λ e. is_present e) (update_other s.mem b a v other) ∙ entry.present;
  names = ap (λ e. bit_and e page_mask) (update_other s.mem b a v other) ∙ entry.names;
}

-- The way does not change with the last entry.
path_kept :
    {s : Machine} {mm page : ℕ} (path : IsPath s mm page)
    → IsApart path
    → (e : ℕ) → IsPath (with_leaf path e) mm page
path_kept {s} {mm} path apart e = record {
  pml4 = path.pml4;
  pdpt = path.pdpt;
  pd = path.pd;
  pt = path.pt;
  readable = path.readable;
  top = update_other s.mem (leaf_at path) mm e apart.from_mm ∙ path.top;
  aligned = path.aligned;
  to_pdpt = IsEntry-kept e path.to_pdpt apart.from_pml4;
  to_pd = IsEntry-kept e path.to_pd apart.from_pdpt;
  to_pt = IsEntry-kept e path.to_pt apart.from_pd;
  leaf = path.leaf;
}

-- A page number and attributes with PAGE_PRESENT, as an entry.
entry_is : (q attr : ℕ) → attr < 2 ^ 12 → bit_or (q * 2 ^ 12) attr ≡ q * 2 ^ 12 + attr
entry_is q attr h = or_low 12 q attr h

entry-present : (q attr : ℕ) → attr % 2 ≡ 1 → is_present (q * 2 ^ 12 + attr) ≡ true
entry-present q attr odd = ground (arith, and_mask 1 (q * 2 ^ 12 + attr))

entry-names :
    (q attr : ℕ) → q < 2 ^ 52 → attr < 2 ^ 12 → bit_and (q * 2 ^ 12 + attr) page_mask ≡ q * 2 ^ 12
entry-names q attr h h' =
    omega (arith, and_not_mask 12 (q * 2 ^ 12 + attr) (omega arith) (omega arith))

offset_is : (virt : ℕ) → page_offset virt ≡ virt % 2 ^ 12
unfolding page_offset
offset_is virt = and_mask 12 virt

entry-translated :
    (q attr virt : ℕ)
    → q < 2 ^ 52
    → attr < 2 ^ 12
    → attr % 2 ≡ 1
    → translated (q * 2 ^ 12 + attr) virt ≡ q * 2 ^ 12 + virt % 2 ^ 12
entry-translated q attr virt h h' odd =
    rw (entry-present q attr odd, entry-names q attr h h', offset_is virt) (omega (arith, h))

read_back : (f : ℕ → ℕ) (a v : ℕ) → update f a v a ≡ v
read_back f a v = ground arith

-- The new way is apart from the last entry as well.
apart_kept :
    {s : Machine} {mm page : ℕ} (path : IsPath s mm page) (apart : IsApart path) (e : ℕ)
    → IsApart (path_kept path apart e)
unfolding path_kept
apart_kept path apart e = record {
  from_mm = apart.from_mm;
  from_pml4 = apart.from_pml4;
  from_pdpt = apart.from_pdpt;
  from_pd = apart.from_pd;
}

-- The translation by the last entry that was just written.
translate_written :
    {s : Machine} {mm page : ℕ} (path : IsPath s mm page)
    → IsApart path
    → (e virt : ℕ) → virt / 2 ^ 12 ≡ page
    → virt_to_phys mm virt (with_leaf path e) ≡ ok (translated e virt, with_leaf path e)
unfolding path_kept
translate_written {s} path apart e virt on =
    virt_to_phys-path (path_kept path apart e) virt on
    ∙ ap (λ v. ok (translated v virt, with_leaf path e)) (read_back s.mem (leaf_at path) e)

unmap_written :
    {s : Machine} {mm page : ℕ} (path : IsPath s mm page)
    → IsApart path
    → (e virt : ℕ) → virt / 2 ^ 12 ≡ page
    → unmap_page mm virt (with_leaf path e) ≡ (
        if is_present e
        then ok (
          bit_and e page_mask,
          record s { mem = update (update s.mem (leaf_at path) e) (leaf_at path) 0 },
        )
        else ok (invalid_address, with_leaf path e))
unfolding path_kept
unmap_written {s} path apart e virt on =
    unmap_page-path (path_kept path apart e) virt on
    ∙ ap
        (λ v.
          if is_present v
          then ok (
            bit_and v page_mask,
            record s { mem = update (update s.mem (leaf_at path) e) (leaf_at path) 0 },
          )
          else ok (invalid_address, with_leaf path e))
        (read_back s.mem (leaf_at path) e)

translate_cleared :
    {s : Machine} {mm page : ℕ} (path : IsPath s mm page)
    → IsApart path
    → (e virt : ℕ) → virt / 2 ^ 12 ≡ page
    → virt_to_phys mm virt
        (record s { mem = update (update s.mem (leaf_at path) e) (leaf_at path) 0 })
      ≡ ok (
        invalid_address,
        record s { mem = update (update s.mem (leaf_at path) e) (leaf_at path) 0 },
      )
unfolding path_kept
translate_cleared path apart e virt on =
    translate_written (path_kept path apart e) (apart_kept path apart e) 0 virt on

-- `map_page` of the page of `virt`, and what `virt_to_phys` then says of `addr`
abbrev pub map_then_translate : ℕ → ℕ → ℕ → ℕ → ℕ → M Machine ℕ
map_then_translate mm frame virt attr addr = do
  _ ← map_page mm frame virt attr
  virt_to_phys mm addr

-- `map_page` of the page of `virt`, then `unmap_page` by `addr`: its result, and what
-- `virt_to_phys` says of `addr` afterwards
abbrev pub map_then_unmap : ℕ → ℕ → ℕ → ℕ → ℕ → M Machine (ℕ × ℕ)
map_then_unmap mm frame virt attr addr = do
  _ ← map_page mm frame virt attr
  phys ← unmap_page mm addr
  after ← virt_to_phys mm addr
  pure (phys, after)

module _ {s : Machine} {mm page : ℕ} (path : IsPath s mm page) (apart : IsApart path)
    (vacant : is_present (s.mem (leaf_at path)) ≡ false) (q attr : ℕ) (small : q < 2 ^ 52)
    (low : attr < 2 ^ 12) (odd : attr % 2 ≡ 1) (virt addr : ℕ) (on : virt / 2 ^ 12 ≡ page)
    (beside : addr / 2 ^ 12 ≡ page) where
  mapped : map_page mm (q * 2 ^ 12) virt attr s ≡ ok (true, with_leaf path (q * 2 ^ 12 + attr))
  mapped = rw (map_page-path path virt on (q * 2 ^ 12) attr, vacant, entry_is q attr low) refl

  -- Where the tables of a page are there, on the way that the processor takes (nine bits of the page
  -- number for each level), the page is not mapped and its last entry is none of the words that the
  -- lookup reads before it, `map_page` of any address of the page to a frame below 2^64, with
  -- attributes below 2^12, PAGE_PRESENT among them, writes that last entry alone, and `virt_to_phys`
  -- then translates every address of the page to its offset in the frame.
  pub virt_to_phys-map_page :
      map_then_translate mm (q * 2 ^ 12) virt attr addr s
      ≡ ok (q * 2 ^ 12 + addr % 2 ^ 12, with_leaf path (q * 2 ^ 12 + attr))
  virt_to_phys-map_page = rw mapped (
      rw
        (
          translate_written path apart (q * 2 ^ 12 + attr) addr beside,
          entry-translated q attr addr small low odd,
        )
        refl)

  -- Under the same conditions unmapping by any address of the page gives the frame back that was
  -- mapped, and that address is without translation as before.
  pub unmap_page-map_page :
      map_then_unmap mm (q * 2 ^ 12) virt attr addr s
      ≡ ok (
        (q * 2 ^ 12, invalid_address),
        record s {
          mem = update (update s.mem (leaf_at path) (q * 2 ^ 12 + attr)) (leaf_at path) 0;
        },
      )
  unmap_page-map_page = rw mapped (
      rw
        (
          unmap_written path apart (q * 2 ^ 12 + attr) addr beside,
          entry-present q attr odd,
          entry-names q attr small low,
          translate_cleared path apart (q * 2 ^ 12 + attr) addr beside,
        )
        refl)
