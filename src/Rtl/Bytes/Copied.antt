-- ===== src/Rtl/Bytes/Copied.antt =====
-- What memset and memcpy of rtl/string.c leave at each address.
use fynaos.Base.{
  ℕ, zero, suc, ◌+◌, ◌-◌, ◌≤◌, ◌≡◌, ◌⊎◌, ap, arith, ◌&&◌, leb, ltb, if◌then◌else◌, update, u8, ◌∙◌,
}
use fynaos.Rtl.Bytes.{memset, set_loop, memcpy, copy_loop}

set_loop-filled :
    (len d val : ℕ) (bytes : ℕ → ℕ) (i : ℕ)
    → set_loop len d val bytes i ≡ (if leb d i && ltb i (d + len) then u8 val else bytes i)
unfolding set_loop
set_loop-filled zero d val bytes i = ground arith
set_loop-filled (suc len) d val bytes i =
    set_loop-filled len (d + 1) val (update bytes d (u8 val)) i ∙ ground arith

-- After memset the `len` bytes from `dst` hold the low byte of `val`, and all others are as before.
pub memset-filled :
    (dst val len : ℕ) (bytes : ℕ → ℕ) (i : ℕ)
    → memset dst val len bytes i ≡ (if leb dst i && ltb i (dst + len) then u8 val else bytes i)
unfolding memset
memset-filled dst val len bytes i = set_loop-filled len dst val bytes i

-- From index `k` on. A source that starts at the destination or above is read ahead of the writes.
copy_loop-copied :
    (rounds k dst src : ℕ) (bytes : ℕ → ℕ) (i : ℕ)
    → (dst ≤ src) ⊎ (src + k + rounds ≤ dst)
    → copy_loop rounds k dst src bytes i
      ≡ (if leb (dst + k) i && ltb i (dst + k + rounds) then bytes (src + (i - dst)) else bytes i)
unfolding copy_loop
copy_loop-copied zero k dst src bytes i apart = ground arith
copy_loop-copied (suc rounds) k dst src bytes i apart =
    copy_loop-copied rounds (k + 1) dst src (update bytes (dst + k) (bytes (src + k))) i
      (omega (arith, apart))
    ∙ ground (arith, apart, place)
  where
    place : i ≡ dst + k → bytes (src + k) ≡ bytes (src + (i - dst))
    place e = ap (λ (j : ℕ). bytes (src + j)) (omega (arith, e))

-- Where the regions are apart, or the source does not start below the destination, memcpy moves each
-- byte of the source to its place and leaves all other bytes.
pub memcpy-copied :
    (dst src c : ℕ) (bytes : ℕ → ℕ) (i : ℕ)
    → (dst ≤ src) ⊎ (src + c ≤ dst)
    → memcpy dst src c bytes i
      ≡ (if leb dst i && ltb i (dst + c) then bytes (src + (i - dst)) else bytes i)
unfolding memcpy
memcpy-copied dst src c bytes i apart =
    copy_loop-copied c 0 dst src bytes i (omega (arith, apart)) ∙ ground arith
