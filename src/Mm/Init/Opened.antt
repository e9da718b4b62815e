-- ===== src/Mm/Init/Opened.antt =====
-- The loop of mm/mm.c that unreserves the usable regions of the memory map.
use fynaos.Base.{
  ℕ, ◌+◌, ◌/◌, ◌^◌, ◌≤◌, ◌<◌, ◌≡◌, ◌⊎◌, inl, inr, refl, ap, sym, subst, ◌∙◌, arith, ◌==◌,
  if◌then◌else◌, u64, true, Bool-cases, none, negsuc, List, [], ◌∷◌, Returns, returns,
}
use fynaos.Base.Run
use fynaos.Mm.Frames.{Frame, Frames, frame_reserved, clear_flag, unreserve_frame_region}
use fynaos.Mm.Frames.Region.{span}
use fynaos.Mm.Frames.Supply.{region-cases, span_out}
use fynaos.Mm.Frames.Unreserve.{IsCleared, unreserve_frame_region-IsCleared}
use fynaos.Mm.Init.{Entry, Memory, reserved_frame, unreserve_entries}
use fynaos.Mm.Init.Table.{in_frames-ok}

-- the pages of a region of the memory map
abbrev pub first_page : Entry → ℕ
first_page e = e.addr / 2 ^ 12

abbrev pub last_page : Entry → ℕ
last_page e = u64 (e.addr + e.len) / 2 ^ 12

-- how often a page lies in a usable region
abbrev pub claimed : List Entry → ℕ → ℕ
claimed [] i = 0
claimed (e ∷ entries) i =
    (if e.type == 1 then span (first_page e) (last_page e) i else 0) + claimed entries i

-- The usable regions lie in the table, and none of them wraps.
abbrev pub AreSound : ℕ → List Entry → Type 0
AreSound count [] = Unit
AreSound count (e ∷ entries) =
    ((e.type == 1) ≡ true → (first_page e ≤ last_page e) × (last_page e ≤ count))
    × AreSound count entries

-- a frame without a flag and without an order
abbrev pub open_frame : Frame
open_frame = record { next = none; flags = 0; order = negsuc 0 }

clear-reserved : clear_flag reserved_frame frame_reserved ≡ open_frame
clear-reserved = refl

clear-open : clear_flag open_frame frame_reserved ≡ open_frame
clear-open = refl

-- A frame is reserved, or it has been opened.
abbrev pub IsEither : Frame → Type 0
IsEither f = (f ≡ reserved_frame) ⊎ (f ≡ open_frame)

cleared-open : {f : Frame} → IsEither f → clear_flag f frame_reserved ≡ open_frame
cleared-open (inl e) = ap (λ f. clear_flag f frame_reserved) e ∙ clear-reserved
cleared-open (inr e) = ap (λ f. clear_flag f frame_reserved) e ∙ clear-open

-- `t` is `s` with the frames of the usable regions open.
pub record IsOpened (entries : List Entry) (s t : Frames) : Type 0 where
  pub same_count : t.count ≡ s.count
  pub same_lists : (k : ℕ) → t.free_region k ≡ s.free_region k
  pub opened : (i : ℕ) → 1 ≤ claimed entries i → t.frame i ≡ open_frame
  pub either : (i : ℕ) → i < s.count → IsEither (t.frame i)
  pub kept : (i : ℕ) → (s.frame i ≡ open_frame) → t.frame i ≡ open_frame

pub unreserve_entries-IsOpened :
    (entries : List Entry) (s : Memory)
    → AreSound s.frames.count entries
    → ((i : ℕ) → i < s.frames.count → IsEither (s.frames.frame i))
    → Returns
        (λ _ t. (t.boot ≡ s.boot) × IsOpened entries s.frames t.frames)
        (unreserve_entries entries s)
unfolding unreserve_entries
unreserve_entries-IsOpened [] s sound either = returns (
  refl,
  record {
    same_count = refl;
    same_lists = λ k. refl;
    opened = λ i h. absurd (omega arith);
    either = either;
    kept = λ i e. e;
  },
)
unreserve_entries-IsOpened (e ∷ entries) s (here, sound) either = elim (Bool-cases (e.type == 1)) [
  | inr u ↦ rw u (
      Run.mono (unreserve_entries-IsOpened entries s sound either) λ _ t (boot, o). (
        boot,
        record {
          same_count = o.same_count;
          same_lists = o.same_lists;
          opened = λ i h. o.opened i (omega (arith, rw u at h));
          either = o.either;
          kept = o.kept;
        },
      ))
  | inl u ↦
      let (_, t, run, c) = Run.outcome (
        unreserve_frame_region-IsCleared (first_page e) (last_page e) s.frames (here u).0
          (here u).1) in
      rw (u, in_frames-ok (unreserve_frame_region (first_page e) (last_page e)) s run)
        (Run.mono
          (unreserve_entries-IsOpened entries (record s { frames = t }) (rw c.same_count sound)
            (either_on t c))
          λ _ t' (boot, o). (
            boot,
            record {
              same_count = o.same_count ∙ c.same_count;
              same_lists = λ k. o.same_lists k ∙ c.same_lists k;
              opened = λ i h. elim (region-cases (first_page e) (last_page e) i) [
                | inl (lo, hi) ↦
                    o.kept i
                      (c.cleared i lo hi ∙ cleared-open (either i (omega (arith, hi, (here u).1))))
                | inr out ↦
                    o.opened i
                      (omega (arith, rw u at h, span_out (first_page e) (last_page e) i out))
              ];
              either = λ i h. o.either i (omega (arith, h, c.same_count));
              kept = λ i before. o.kept i (still_open t c i before);
            },
          ))
]
  where
    either_on :
        (t : Frames)
        → IsCleared s.frames (first_page e) (last_page e) t
        → (i : ℕ) → i < t.count
        → IsEither (t.frame i)
    either_on t c i h = elim (region-cases (first_page e) (last_page e) i) [
      | inl (lo, hi) ↦
          inr (c.cleared i lo hi ∙ cleared-open (either i (omega (arith, h, c.same_count))))
      | inr out ↦ subst IsEither (sym (c.kept i out)) (either i (omega (arith, h, c.same_count)))
    ]

    still_open :
        (t : Frames)
        → IsCleared s.frames (first_page e) (last_page e) t
        → (i : ℕ) → s.frames.frame i ≡ open_frame
        → t.frame i ≡ open_frame
    still_open t c i before = elim (region-cases (first_page e) (last_page e) i) [
      | inl (lo, hi) ↦ c.cleared i lo hi ∙ cleared-open (inr before)
      | inr out ↦ c.kept i out ∙ before
    ]
