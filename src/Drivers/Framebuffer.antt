-- ===== src/Drivers/Framebuffer.antt =====
-- drivers/framebuffer.c, and the colour macros of its header. The memory of the screen is words of 32
-- bits by address. An access outside the `height` lines of `pitch` bytes from `addr`, or at an address
-- that a `uint32_t *` may not have, is a `fault`; so is a shift by 32 or more.
pub mod Addresses
pub mod Colors
pub mod Scroll
mod Tests
use fynaos.Base.{
  ℕ, zero, suc, ◌+◌, ◌*◌, ◌%◌, Bool, ◌&&◌, leb, ltb, ◌==◌, if◌then◌else◌, u8, u32, u64, ◌<<<◌,
  ◌>>>◌, bit_and, bit_or, ℤ, pos, negsuc, M, ok, fault, pure, get, ◌>>=◌, ◌>>◌, update,
}
use fynaos.Multiboot.{FramebufferTag}

-- `framebuffer_info` and the memory it names
pub record Screen : Type 0 where
  pub info : FramebufferTag
  pub mem : ℕ → ℕ

-- `FRAMEBUFFER_RGB` and its parts
unfoldable pub framebuffer_rgb : ℕ → ℕ → ℕ → ℕ
framebuffer_rgb red green blue = bit_or (bit_or (u8 red <<< 16) (u8 green <<< 8)) (u8 blue)

unfoldable pub rgb_red : ℕ → ℕ
rgb_red color = u8 (bit_and (color >>> 16) 0xFF)

unfoldable pub rgb_green : ℕ → ℕ
rgb_green color = u8 (bit_and (color >>> 8) 0xFF)

unfoldable pub rgb_blue : ℕ → ℕ
rgb_blue color = u8 (bit_and color 0xFF)

-- `-ENOSYS`
abbrev pub not_supported : ℤ
not_supported = negsuc 37

unfoldable pub framebuffer_init : FramebufferTag → M Screen ℤ
framebuffer_init info s =
    if info.type == 1 then ok (pos 0, record s { info = info }) else ok (not_supported, s)

unfoldable pub pixel : FramebufferTag → ℕ → ℕ → ℕ
pixel info x y = u64 (info.addr + u32 (y * info.pitch) + u32 (x * 4))

abbrev pub visible : FramebufferTag → ℕ → Bool
visible info a = leb info.addr a && leb (a + 4) (info.addr + info.height * info.pitch) && a % 4 == 0

unfoldable pub load_pixel : ℕ → M Screen ℕ
load_pixel a s = if visible s.info a then ok (s.mem a, s) else fault

unfoldable pub store_pixel : ℕ → ℕ → M Screen (Unit {0})
store_pixel a v s = if visible s.info a then ok (tt, record s { mem = update s.mem a v }) else fault

-- `(uint32_t)value << position`
unfoldable pub shift_channel : ℕ → ℕ → M Screen ℕ
shift_channel value position s = if ltb position 32 then ok (u32 (value <<< position), s) else fault

unfoldable pub framebuffer_write : ℕ → ℕ → ℕ → M Screen (Unit {0})
unfolding rgb_red rgb_green rgb_blue pixel store_pixel shift_channel
framebuffer_write color x y = do
  s ← get
  red ← shift_channel (rgb_red color) s.info.red_position
  green ← shift_channel (rgb_green color) s.info.green_position
  blue ← shift_channel (rgb_blue color) s.info.blue_position
  store_pixel (pixel s.info x y) (bit_or (bit_or red green) blue)

-- `(word >> position) & 0xFF` as a `uint8_t`
unfoldable pub channel : ℕ → ℕ → M Screen ℕ
channel word position s =
    if ltb position 32 then ok (u8 (bit_and (word >>> position) 0xFF), s) else fault

unfoldable pub framebuffer_read : ℕ → ℕ → M Screen ℕ
unfolding framebuffer_rgb pixel load_pixel channel
framebuffer_read x y = do
  s ← get
  word ← load_pixel (pixel s.info x y)
  red ← channel word s.info.red_position
  green ← channel word s.info.green_position
  blue ← channel word s.info.blue_position
  pure (framebuffer_rgb red green blue)

-- the body of the inner loop
unfoldable pub scroll_pixel : ℕ → ℕ → ℕ → ℕ → M Screen (Unit {0})
unfolding pixel load_pixel store_pixel framebuffer_write
scroll_pixel scale empty_fill y x = do
  s ← get
  if leb s.info.height (u32 (y + scale)) then framebuffer_write empty_fill x y else do
    word ← load_pixel (pixel s.info x (u32 (y + scale)))
    store_pixel (pixel s.info x y) word

-- the loop over `x`, with `rounds` left
scroll_columns : ℕ → ℕ → ℕ → ℕ → ℕ → M Screen (Unit {0})
unfolding scroll_pixel
scroll_columns scale empty_fill y zero x = pure tt
scroll_columns scale empty_fill y (suc rounds) x = do
  scroll_pixel scale empty_fill y x
  scroll_columns scale empty_fill y rounds (x + 1)

-- the loop over `y`, with `rounds` left
scroll_rows : ℕ → ℕ → ℕ → ℕ → M Screen (Unit {0})
unfolding scroll_columns
scroll_rows scale empty_fill zero y = pure tt
scroll_rows scale empty_fill (suc rounds) y = do
  s ← get
  scroll_columns scale empty_fill y s.info.width 0
  scroll_rows scale empty_fill rounds (y + 1)

unfoldable pub framebuffer_scroll_up : ℕ → ℕ → M Screen (Unit {0})
unfolding scroll_rows
framebuffer_scroll_up scale empty_fill = do s ← get; scroll_rows scale empty_fill s.info.height 0
