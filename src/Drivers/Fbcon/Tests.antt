-- ===== src/Drivers/Fbcon/Tests.antt =====
-- The theorem on fbcon_write at a page of two columns and one line.
use fynaos.Base.{ℕ, ◌+◌, ◌≡◌, refl, arith, inr, List, [], ◌∷◌, ok, pos}
use fynaos.Multiboot.{FramebufferTag}
use fynaos.Drivers.Fbcon.{Console, Font, fbcon_write}
use fynaos.Drivers.Fbcon.Cursor.{page_of, IsFitted, at, On}
use fynaos.Drivers.Fbcon.Grid.{Grid, empty, type_text, expand}
use fynaos.Drivers.Fbcon.Typed.{fbcon_write-typed}

abbrev tag : FramebufferTag
tag = record {
  addr = 0xFD000000;
  pitch = 64;
  width = 16;
  height = 8;
  bpp = 32;
  type = 1;
  red_position = 16;
  red_mask = 8;
  green_position = 8;
  green_mask = 8;
  blue_position = 0;
  blue_mask = 8;
}

abbrev console : Console
console = record {
  x = 0;
  y = 0;
  cx = 2;
  cy = 1;
  text_cx = 8;
  text_cy = 8;
  foreground = 0xFFFFFF;
  background = 0;
  screen = record { info = tag; mem = λ _. 0 };
}

abbrev font : Font
font ch row = ch + row

abbrev blank : Grid
blank = record { cell = λ i j. empty 0; x = 0; y = 0 }

-- `A`, a tab, a newline and `B`
abbrev text : List ℕ
text = 65 ∷ 9 ∷ 10 ∷ 66 ∷ []

console-IsFitted : IsFitted console
console-IsFitted = record {
  char_width = refl;
  char_height = refl;
  columns_fit = omega arith;
  lines_fill = refl;
  narrow = omega arith;
  low = omega arith;
  flat = record {
    line_fits = omega arith;
    line_words = refl;
    start_words = refl;
    size_fits = omega arith;
    end_fits = omega arith;
  };
  channels = record {
    red_fits = omega arith;
    green_fits = omega arith;
    blue_fits = omega arith;
    red_green = inr (omega arith);
    red_blue = inr (omega arith);
    green_blue = inr (omega arith);
  };
}

fbcon_write-typed_example :
    (mem : ℕ → ℕ) × (fbcon_write font text console
      ≡ ok (
        pos 0,
        at console
            (type_text (page_of console) (expand text) blank).x
            (type_text (page_of console) (expand text) blank).y
            mem,
      ))
    × On font console (type_text (page_of console) (expand text) blank) mem
fbcon_write-typed_example =
    fbcon_write-typed font console text blank console-IsFitted
      (omega arith, (omega arith, (omega arith, (omega arith, tt)))) refl refl (omega arith)
      (omega arith) λ i j row col hi hj hr hc. refl
