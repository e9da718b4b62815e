-- ===== src/Kernel/Messages/Tests.antt =====
-- The theorems on messages at a page of two columns and one line, and at a serial device that is ready
-- from the third poll on.
use fynaos.Base.{
  ℕ, ◌+◌, ◌≤◌, ◌≡◌, ◌==◌, refl, arith, true, false, if◌then◌else◌, inr, List, [], ◌∷◌, ◌++◌,
  Returns,
}
use fynaos.Multiboot.{FramebufferTag}
use fynaos.Rtl.Snprintf.Literal.{IsLiteral}
use fynaos.Drivers.Uart.Sent.{IsReady, sent}
use fynaos.Drivers.Fbcon.{Console}
use fynaos.Drivers.Fbcon.Cursor.{page_of, IsFitted}
use fynaos.Drivers.Fbcon.Grid.{Grid, empty, IsAscii}
use fynaos.Kernel.Messages.{Log, Setting, vkprintf, vpanic}
use fynaos.Kernel.Messages.Shown.{IsShowing, typed, vkprintf-shown}
use fynaos.Kernel.Messages.Panics.{reported, after_report, vpanic-reported}

abbrev tag : FramebufferTag
tag = record {
  addr = 0xFD000000;
  pitch = 64;
  width = 16;
  height = 8;
  bpp = 32;
  type = 1;
  red_position = 16;
  red_mask = 8;
  green_position = 8;
  green_mask = 8;
  blue_position = 0;
  blue_mask = 8;
}

abbrev console : Console
console = record {
  x = 0;
  y = 0;
  cx = 2;
  cy = 1;
  text_cx = 8;
  text_cy = 8;
  foreground = 0xFFFFFF;
  background = 0;
  screen = record { info = tag; mem = λ _. 0 };
}

abbrev blank : Grid
blank = record { cell = λ i j. empty 0; x = 0; y = 0 }

console-IsFitted : IsFitted console
console-IsFitted = record {
  char_width = refl;
  char_height = refl;
  columns_fit = omega arith;
  lines_fill = refl;
  narrow = omega arith;
  low = omega arith;
  flat = record {
    line_fits = omega arith;
    line_words = refl;
    start_words = refl;
    size_fits = omega arith;
    end_fits = omega arith;
  };
  channels = record {
    red_fits = omega arith;
    green_fits = omega arith;
    blue_fits = omega arith;
    red_green = inr (omega arith);
    red_blue = inr (omega arith);
    green_blue = inr (omega arith);
  };
}

abbrev setting : Setting
setting = record {
  status = λ n. if n == 0 then 0 else if n == 1 then 1 else 0x60;
  fuel = 0;
  font = λ ch row. ch + row;
  buffer = 0xFFFF800000004000;
  held = λ _. 0;
}

abbrev log : Log
log = record {
  uart = record { writes = []; polls = 0 };
  console = console;
  interrupts = true;
  in_panic = false;
  panic_use_fbcon = true;
}

-- `hi` and a newline
abbrev message : List ℕ
message = 104 ∷ 105 ∷ 10 ∷ []

setting-IsReady : (n : ℕ) → (k : ℕ) × IsReady setting.status (n + k)
setting-IsReady n = (2, rw (not_first, not_second) refl)
  where
    not_first : (n + 2 == 0) ≡ false
    not_first = ground arith

    not_second : (n + 2 == 1) ≡ false
    not_second = ground arith

message-IsLiteral : IsLiteral message
message-IsLiteral = ground arith

message-IsAscii : IsAscii message
message-IsAscii = ground arith

console-IsShowing : IsShowing setting console blank
console-IsShowing = record {
  fitted = console-IsFitted;
  same_x = refl;
  same_y = refl;
  on_page = omega arith;
  on_line = omega arith;
  cells = λ i j row col hi hj hr hc. refl;
}

vkprintf-shown_example :
    (enough : ℕ) × ((fuel : ℕ)
      → enough ≤ fuel
      → Returns
          (λ _ t.
            (t.uart.writes ≡ [] ++ sent message)
            × IsShowing setting t.console (typed console message blank))
          (vkprintf (record setting { fuel = fuel }) message [] log))
vkprintf-shown_example =
    vkprintf-shown setting message [] log blank message-IsLiteral message-IsAscii (omega arith)
      setting-IsReady console-IsShowing

vpanic-reported_example :
    (enough : ℕ) × ((fuel : ℕ)
      → enough ≤ fuel
      → Returns
          (λ _ t.
            (t.interrupts ≡ false)
            × (t.in_panic ≡ true)
            × (t.uart.writes ≡ after_report [] message)
            × IsShowing setting t.console (reported (page_of console) message blank))
          (vpanic (record setting { fuel = fuel }) message [] log))
vpanic-reported_example =
    vpanic-reported setting message [] log blank message-IsLiteral message-IsAscii (omega arith)
      setting-IsReady console-IsShowing
