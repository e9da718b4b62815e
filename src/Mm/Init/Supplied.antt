-- ===== src/Mm/Init/Supplied.antt =====
-- The loop of mm/mm.c that gives the usable regions to the frame allocator, and init_memory as a whole.
use fynaos.Base.{
  ℕ, ◌+◌, ◌/◌, ◌^◌, ◌≤◌, ◌<◌, ◌≡◌, ◌⊎◌, inl, inr, refl, ap, ◌∙◌, arith, ◌==◌, if◌then◌else◌, u64,
  true, Bool-cases, List, [], ◌∷◌, Returns, returns, bit_and,
}
use fynaos.Base.Run
use fynaos.Mm.Frames.{init_buddy_allocator}
use fynaos.Mm.Frames.Accounts.{IsAccounted}
use fynaos.Mm.Frames.Coverage.{coverage, coverage_to, covered}
use fynaos.Mm.Frames.Region.{span}
use fynaos.Mm.Frames.Supply.{region-cases, span_in, init_buddy_allocator-ends}
use fynaos.Mm.Init.{Entry, Memory, Image, free_begin, free_entries}
use fynaos.Mm.Init.Table.{in_frames-ok, nothing}
use fynaos.Mm.Init.Opened.{first_page, last_page, claimed, open_frame}

-- the first page of a region that is given to the allocator
abbrev pub free_page : Image → ℕ → ℕ → ℕ → Entry → ℕ
free_page image boot_begin boot_limit tail e =
    free_begin image boot_begin boot_limit tail e.addr (u64 (e.addr + e.len)) / 2 ^ 12

-- how often a page is in what is given to the allocator
abbrev pub given : Image → ℕ → ℕ → ℕ → List Entry → ℕ → ℕ
given image boot_begin boot_limit tail [] i = 0
given image boot_begin boot_limit tail (e ∷ entries) i =
    (if e.type == 1 then span (free_page image boot_begin boot_limit tail e) (last_page e) i else 0)
    + given image boot_begin boot_limit tail entries i

-- What is given of a region starts within it, and ends in the table.
abbrev pub AreInside : Image → ℕ → ℕ → ℕ → ℕ → List Entry → Type 0
AreInside image boot_begin boot_limit tail count [] = Unit
AreInside image boot_begin boot_limit tail count (e ∷ entries) =
    ((e.type == 1) ≡ true
      → (first_page e ≤ free_page image boot_begin boot_limit tail e) × (last_page e ≤ count))
    × AreInside image boot_begin boot_limit tail count entries

pub nothing_covers : (i : ℕ) → coverage nothing i ≡ 0
unfolding coverage coverage_to covered
nothing_covers i = refl

span_later : (first begin limit i : ℕ) → first ≤ begin → span begin limit i ≤ span first limit i
unfolding span
span_later first begin limit i h = ground (arith, h)

-- a page that a span does not count is outside it
alone : (first limit i : ℕ) → span first limit i ≡ 0 → (i < first) ⊎ (limit ≤ i)
alone first limit i z = elim (region-cases first limit i) [
  | inl (lo, hi) ↦ absurd (omega (arith, z, span_in first limit i lo hi))
  | inr out ↦ out
]

still_out :
    (first begin limit i : ℕ)
    → first ≤ begin
    → (i < first) ⊎ (limit ≤ i)
    → (i < begin) ⊎ (limit ≤ i)
still_out first begin limit i lo (inl h) = inl (omega (arith, lo, h))
still_out first begin limit i lo (inr h) = inr h

module _ (image : Image) (boot_begin boot_limit : ℕ) where
  pub free_entries-given :
      (entries : List Entry) (s : Memory) {lists : ℕ → List ℕ}
      → AreInside image boot_begin boot_limit s.boot.tail s.frames.count entries
      → IsAccounted s.frames lists nothing
      → ((i : ℕ) → 1 ≤ claimed entries i → s.frames.frame i ≡ open_frame)
      → ((i : ℕ) → coverage lists i + claimed entries i ≤ 1)
      → Returns
          (λ _ t.
            (after : ℕ → List ℕ) × IsAccounted t.frames after nothing
            × ((i : ℕ)
                → coverage after i
                  ≡ coverage lists i + given image boot_begin boot_limit s.boot.tail entries i)
            × (t.frames.count ≡ s.frames.count)
            × (t.boot ≡ s.boot))
          (free_entries image boot_begin boot_limit entries s)
  unfolding free_entries
  free_entries-given [] s {lists} inside acc opened once =
      returns (lists, acc, (λ i. omega arith), refl, refl)
  free_entries-given (e ∷ entries) s {lists} (here, inside) acc opened once =
      elim (Bool-cases (e.type == 1)) [
        | inr u ↦ rw u (
            Run.mono
              (free_entries-given entries s inside acc (λ i h. opened i (rw u (omega (arith, h))))
                (λ i. omega (arith, rw u at once i)))
              λ _ t (after, acc', cover, size, boot).
                (after, acc', (λ i. omega (arith, cover i)), size, boot))
        | inl u ↦
            let begin = free_page image boot_begin boot_limit s.boot.tail e in
            let limit = last_page e in
            let lo : first_page e ≤ begin = (here u).0 in
            let (_, t, run, (after, acc', cover, size, kept)) = Run.outcome (
              init_buddy_allocator-ends begin limit acc
                (record {
                  fresh = record {
                    within = (here u).1;
                    unused = λ i b l.
                        ap (λ f. bit_and f.flags 3)
                          (opened i (
                            rw u (
                              omega
                                (arith, span_in (first_page e) limit i (omega (arith, lo, b)) l))));
                    uncovered = λ i b l. omega (
                      arith,
                      rw u at once i,
                      span_in (first_page e) limit i (omega (arith, lo, b)) l,
                    );
                  };
                  unowned = λ i b l. nothing_covers i;
                })
                (omega arith)) in
            rw (u, in_frames-ok (init_buddy_allocator begin limit) s run)
              (Run.mono
                (free_entries-given entries (record s { frames = t }) {lists = after}
                  (rw size inside) acc'
                  (λ i h.
                    kept i (
                      still_out (first_page e) begin limit i lo
                        (alone (first_page e) limit i (omega (arith, h, rw u at once i))))
                    ∙ opened i (rw u (omega (arith, h))))
                  (λ i.
                    omega
                      (arith, cover i, rw u at once i, span_later (first_page e) begin limit i lo)))
                λ _ t' (after', acc'', cover', size', boot).
                  (after', acc'', (λ i. omega (arith, cover i, cover' i)), size' ∙ size, boot))
      ]
