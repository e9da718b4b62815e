-- ===== src/Drivers/Framebuffer/Tests.antt =====
-- The theorems on the framebuffer at a screen of two lines of three pixels.
use fynaos.Base.{ℕ, ◌%◌, ◌^◌, ◌<◌, ◌≡◌, ◌≢◌, refl, arith, inr, Returns, ◌>>◌}
use fynaos.Multiboot.{FramebufferTag}
use fynaos.Drivers.Framebuffer.{
  Screen, pixel, framebuffer_write, framebuffer_read, framebuffer_scroll_up,
}
use fynaos.Drivers.Framebuffer.Addresses.{IsFlat}
use fynaos.Drivers.Framebuffer.Colors.{HasChannels, framebuffer_read-framebuffer_write}
use fynaos.Drivers.Framebuffer.Scroll.{shown, moved, framebuffer_scroll_up-moved}

abbrev tag : FramebufferTag
tag = record {
  addr = 0xFD000000;
  pitch = 16;
  width = 3;
  height = 2;
  bpp = 32;
  type = 1;
  red_position = 16;
  red_mask = 8;
  green_position = 8;
  green_mask = 8;
  blue_position = 0;
  blue_mask = 8;
}

abbrev screen : Screen
screen = record { info = tag; mem = λ a. a }

tag-IsFlat : IsFlat tag
tag-IsFlat = record {
  line_fits = omega arith;
  line_words = refl;
  start_words = refl;
  size_fits = omega arith;
  end_fits = omega arith;
}

tag-HasChannels : HasChannels tag
tag-HasChannels = record {
  red_fits = omega arith;
  green_fits = omega arith;
  blue_fits = omega arith;
  red_green = inr (omega arith);
  red_blue = inr (omega arith);
  green_blue = inr (omega arith);
}

framebuffer_read-framebuffer_write_example :
    Returns
      (λ c t.
        (c ≡ 0xFF123456 % 2 ^ 24) × (t.info ≡ tag) × ((a : ℕ) → a ≢ pixel tag 2 1 → t.mem a ≡ a))
      ((framebuffer_write 0xFF123456 2 1 >> framebuffer_read 2 1) screen)
framebuffer_read-framebuffer_write_example =
    framebuffer_read-framebuffer_write screen 0xFF123456 2 1 tag-IsFlat tag-HasChannels
      (omega arith) (omega arith)

framebuffer_scroll_up-moved_example :
    Returns
      (λ _ t.
        (t.info ≡ tag)
        × ((x y : ℕ) → x < 3 → y < 2 → shown t x y ≡ moved screen 1 0x112233 x y)
        × ((a : ℕ) → ((x y : ℕ) → x < 3 → y < 2 → a ≢ pixel tag x y) → t.mem a ≡ a))
      (framebuffer_scroll_up 1 0x112233 screen)
framebuffer_scroll_up-moved_example =
    framebuffer_scroll_up-moved 1 0x112233 screen tag-IsFlat tag-HasChannels (omega arith)
