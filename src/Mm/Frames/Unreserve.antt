-- ===== src/Mm/Frames/Unreserve.antt =====
-- unreserve_frame_region of mm/pmm.c on the whole account of the frames.
mod Tests
use fynaos.Base.{
  ℕ, zero, suc, ◌+◌, ◌-◌, ◌^◌, ◌≤◌, ◌<◌, ◌≡◌, ◌⊎◌, inl, inr, refl, sym, subst, ap, ◌∙◌, arith, List,
  pos, negsuc, bit_and, contains, true, ◌==◌, ==→eq, update, not32, if◌then◌else◌, Bool-cases,
  Returns, returns,
}
use fynaos.Base.Run
use fynaos.Base.Bits.{pow-pos}
use fynaos.Mm.Frames.{
  Frame, Frames, max_order, frame_reserved, clear_flag, unreserve_frame_region, unreserve_loop,
  frame_at, set_frame,
}
use fynaos.Mm.Frames.Access.{frame_at-ok, set_frame-ok}
use fynaos.Mm.Frames.Accounts.{IsHeld, IsAccounted, coverage-mem}
use fynaos.Mm.Frames.Chain.{Chain, Chain-frame}
use fynaos.Mm.Frames.Coverage.{coverage}
use fynaos.Mm.Frames.Supply.{IsUnclaimed, region-cases}

-- The region as init_frames leaves it: reserved frames without an order that no block covers.
pub record IsBlank (s : Frames) (lists owned : ℕ → List ℕ) (begin limit : ℕ) : Type 0 where
  pub within : limit ≤ s.count
  pub reserved : (i : ℕ) → begin ≤ i → i < limit → (s.frame i).flags ≡ frame_reserved
  pub orderless : (i : ℕ) → begin ≤ i → i < limit → (s.frame i).order ≡ negsuc 0
  pub uncovered : (i : ℕ) → begin ≤ i → i < limit → coverage lists i ≡ 0
  pub unowned : (i : ℕ) → begin ≤ i → i < limit → coverage owned i ≡ 0

-- `t` is `s` with FRAME_RESERVED cleared from `begin` up to `limit`.
pub record IsCleared (s : Frames) (begin limit : ℕ) (t : Frames) : Type 0 where
  pub same_count : t.count ≡ s.count
  pub same_lists : (k : ℕ) → t.free_region k ≡ s.free_region k
  pub cleared : (i : ℕ) → begin ≤ i → i < limit → t.frame i ≡ clear_flag (s.frame i) frame_reserved
  pub kept : (i : ℕ) → (i < begin) ⊎ (limit ≤ i) → t.frame i ≡ s.frame i

unreserve_loop-IsCleared :
    (rounds begin : ℕ) (s : Frames)
    → begin + rounds ≤ s.count
    → Returns (λ _. IsCleared s begin (begin + rounds)) (unreserve_loop rounds begin s)
unfolding unreserve_loop
unreserve_loop-IsCleared zero begin s fits = returns (record {
  same_count = refl;
  same_lists = λ k. refl;
  cleared = λ i lo hi. absurd (omega arith);
  kept = λ i out. refl;
})
unreserve_loop-IsCleared (suc rounds) begin s fits =
    rw
      (
        frame_at-ok begin s (omega arith),
        set_frame-ok begin (clear_flag (s.frame begin) frame_reserved) s (omega arith),
      )
      (Run.mono
        (unreserve_loop-IsCleared rounds (begin + 1)
          (record s { frame = update s.frame begin (clear_flag (s.frame begin) frame_reserved) })
          (omega arith))
        λ _ t r. record {
          same_count = r.same_count;
          same_lists = r.same_lists;
          cleared = λ i lo hi. elim (Bool-cases (i == begin)) [
            | inl e ↦ r.kept i (inl (ground (arith, e))) ∙ first i (==→eq i begin e)
            | inr e ↦
                r.cleared i (ground (arith, e)) (omega arith)
                ∙ ap (λ f. clear_flag f frame_reserved) (ground (arith, e))
          ];
          kept = λ i out. r.kept i (omega (arith, out)) ∙ ground (arith, out);
        })
  where
    first :
        (i : ℕ)
        → i ≡ begin
        → update s.frame begin (clear_flag (s.frame begin) frame_reserved) i
          ≡ clear_flag (s.frame i) frame_reserved
    first i e = rw e (ground arith)

pub unreserve_frame_region-IsCleared :
    (begin limit : ℕ) (s : Frames)
    → begin ≤ limit
    → limit ≤ s.count
    → Returns (λ _. IsCleared s begin limit) (unreserve_frame_region begin limit s)
unfolding unreserve_frame_region
unreserve_frame_region-IsCleared begin limit s le within =
    Run.mono (unreserve_loop-IsCleared (limit - begin) begin s (omega (arith, within, le)))
      λ _ t r. subst (λ l. IsCleared s begin l t) (rejoin begin limit le) r
  where
    rejoin : (b l : ℕ) → b ≤ l → b + (l - b) ≡ l
    rejoin b l h = omega arith

module _ {s : Frames} {lists owned : ℕ → List ℕ} {begin limit : ℕ} (acc : IsAccounted s lists owned)
    (blank : IsBlank s lists owned begin limit) (t : Frames) (c : IsCleared s begin limit t) where
  -- a page that some block covers is outside the region
  outside : (i : ℕ) → 1 ≤ coverage lists i + coverage owned i → (i < begin) ⊎ (limit ≤ i)
  outside i covers = elim (region-cases begin limit i) [
    | inl (lo, hi) ↦ absurd (omega (arith, covers, blank.uncovered i lo hi, blank.unowned i lo hi))
    | inr out ↦ out
  ]

  Chain-on : (k : ℕ) → k ≤ max_order → Chain t k (t.free_region k) (lists k)
  Chain-on k hk =
      subst (λ h. Chain t k h (lists k)) (sym (c.same_lists k))
        (Chain-frame (acc.free.chain k hk) (sym c.same_count) λ p m. c.kept p (
          outside p (
            omega (arith, coverage-mem lists k p p hk m (omega arith) (omega (arith, pow-pos k))))))

  held_on : (k p : ℕ) → k ≤ max_order → contains p (owned k) ≡ true → IsHeld t k p
  held_on k p hk m =
      let b = acc.held k p hk m in
      let frame = c.kept p (
        outside p (
          omega (arith, coverage-mem owned k p p hk m (omega arith) (omega (arith, pow-pos k))))) in
      record {
        order = ap (λ f. f.order) frame ∙ b.order;
        inside = omega (arith, b.inside, c.same_count);
        aligned = b.aligned;
        marked = ap (λ f. bit_and f.flags 3) frame ∙ b.marked;
      }

  known_on :
      (q k : ℕ)
      → q < t.count
      → (t.frame q).order ≡ pos k
      → bit_and (t.frame q).flags 3 ≡ 0
      → 1 ≤ coverage lists q + coverage owned q
  known_on q k lt sized unused = elim (region-cases begin limit q) [
    | inl (lo, hi) ↦
        let e : negsuc 0 ≡ pos k =
          sym (blank.orderless q lo hi) ∙ sym (ap (λ f. f.order) (c.cleared q lo hi)) ∙ sized in
        cc
    | inr out ↦
        acc.known q k (omega (arith, lt, c.same_count))
          (ap (λ f. f.order) (sym (c.kept q out)) ∙ sized)
          (ap (λ f. bit_and f.flags 3) (sym (c.kept q out)) ∙ unused)
  ]

  cleared-IsUnclaimed : IsUnclaimed t lists owned begin limit
  cleared-IsUnclaimed = record {
    fresh = record {
      within = omega (arith, blank.within, c.same_count);
      unused = λ i lo hi.
          ap (λ f. bit_and f.flags 3) (c.cleared i lo hi)
          ∙ ap (λ (n : ℕ). bit_and (bit_and n (not32 frame_reserved)) 3) (blank.reserved i lo hi);
      uncovered = blank.uncovered;
    };
    unowned = blank.unowned;
  }

-- Unreserving a region of the table, whose frames are reserved and without an order and which no
-- block covers, ends well: the frames stay accounted for as before, and the region is one that may be
-- handed to the allocator.
pub unreserve_frame_region-IsUnclaimed :
    {s : Frames} {lists owned : ℕ → List ℕ} (begin limit : ℕ)
    → begin ≤ limit
    → IsAccounted s lists owned
    → IsBlank s lists owned begin limit
    → Returns
        (λ _ t.
          IsAccounted t lists owned × IsUnclaimed t lists owned begin limit × (t.count ≡ s.count))
        (unreserve_frame_region begin limit s)
unreserve_frame_region-IsUnclaimed {s} begin limit le acc blank =
    Run.mono (unreserve_frame_region-IsCleared begin limit s le blank.within) λ _ t c. (
      record {
        free = record { chain = Chain-on acc blank t c };
        held = held_on acc blank t c;
        apart = acc.apart;
        known = known_on acc blank t c;
      },
      cleared-IsUnclaimed acc blank t c,
      c.same_count,
    )
