-- ===== src/Rtl/Bytes.antt =====
-- memset and memcpy of rtl/string.c over bytes by address.
pub mod Copied
use fynaos.Base.{ℕ, zero, suc, ◌+◌, u8, update}

-- `while (len--) *d++ = (uint8_t)val;`
set_loop : ℕ → ℕ → ℕ → (ℕ → ℕ) → ℕ → ℕ
set_loop zero d val bytes = bytes
set_loop (suc len) d val bytes = set_loop len (d + 1) val (update bytes d (u8 val))

unfoldable pub memset : ℕ → ℕ → ℕ → (ℕ → ℕ) → ℕ → ℕ
unfolding set_loop
memset dst val len bytes = set_loop len dst val bytes

-- the loop of `memcpy` at index `i`, with `rounds` left
copy_loop : ℕ → ℕ → ℕ → ℕ → (ℕ → ℕ) → ℕ → ℕ
copy_loop zero i dst src bytes = bytes
copy_loop (suc rounds) i dst src bytes =
    copy_loop rounds (i + 1) dst src (update bytes (dst + i) (bytes (src + i)))

unfoldable pub memcpy : ℕ → ℕ → ℕ → (ℕ → ℕ) → ℕ → ℕ
unfolding copy_loop
memcpy dst src c bytes = copy_loop c 0 dst src bytes
