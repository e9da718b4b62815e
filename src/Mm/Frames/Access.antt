-- ===== src/Mm/Frames/Access.antt =====
-- The accesses of mm/pmm.c that stay inside the tables.
use fynaos.Base.{ℕ, ◌≤◌, ◌<◌, ◌≡◌, arith, Option, ok, ℤ, pos, update}
use fynaos.Mm.Frames.{
  Frame, Frames, max_order, frame_at, set_frame, free_head, set_free_head, unsigned,
}

pub frame_at-ok : (i : ℕ) (s : Frames) → i < s.count → frame_at i s ≡ ok (s.frame i, s)
unfolding frame_at
frame_at-ok i s h = ground arith

pub set_frame-ok :
    (i : ℕ) (f : Frame) (s : Frames)
    → i < s.count
    → set_frame i f s ≡ ok (tt, record s { frame = update s.frame i f })
unfolding set_frame
set_frame-ok i f s h = ground arith

pub free_head-ok :
    (order : ℕ) (s : Frames) → order ≤ max_order → free_head order s ≡ ok (s.free_region order, s)
unfolding free_head
free_head-ok order s h = ground arith

pub set_free_head-ok :
    (order : ℕ) (head : Option ℕ) (s : Frames)
    → order ≤ max_order
    → set_free_head order head s
      ≡ ok (tt, record s { free_region = update s.free_region order head })
unfolding set_free_head
set_free_head-ok order head s h = ground arith

pub unsigned-ok : (order : ℤ) (n : ℕ) (s : Frames) → order ≡ pos n → unsigned order s ≡ ok (n, s)
unfolding unsigned
unsigned-ok (pos m) n s e = cc
unsigned-ok _ n s e = cc
