-- ===== src/Drivers/Fbcon.antt =====
-- drivers/fbcon.c: the text console on the screen. The font is a parameter, a table of 128 characters
-- of 8 rows; the text is the bytes before its NUL.
pub mod Cursor
pub mod Glyphs
pub mod Grid
pub mod Typed
mod Tests
use fynaos.Base.{
  ℕ, zero, suc, ◌+◌, ◌*◌, ◌/◌, Bool, true, false, not, leb, ◌==◌, if◌then◌else◌, u8, u32, sub32,
  ◌<<<◌, bit_and, ℤ, pos, List, [], ◌∷◌, M, ok, panicked, fault, out_of_fuel, pure, undefined, get,
  modify, ◌>>=◌, ◌>>◌,
}
use fynaos.Multiboot.{FramebufferTag}
use fynaos.Drivers.Framebuffer.{
  Screen, framebuffer_rgb, framebuffer_write, framebuffer_scroll_up, not_supported,
}

-- the globals of fbcon.c, and the screen
pub record Console : Type 0 where
  pub x : ℕ
  pub y : ℕ
  pub cx : ℕ
  pub cy : ℕ
  pub text_cx : ℕ
  pub text_cy : ℕ
  pub foreground : ℕ
  pub background : ℕ
  pub screen : Screen

abbrev pub Font : Type 0
Font = ℕ → ℕ → ℕ

unfoldable pub on_screen : {A : Type 0} → M Screen A → M Console A
on_screen m c = elim (m c.screen) [
  | ok (a, t) ↦ ok (a, record c { screen = t })
  | panicked ↦ panicked
  | fault ↦ fault
  | out_of_fuel ↦ out_of_fuel
]

-- the body of the loops of `fbcon_draw_ch`
unfoldable pub draw_dot : Font → ℕ → ℕ → ℕ → ℕ → ℕ → M Console (Unit {0})
unfolding on_screen framebuffer_write
draw_dot font ch x y row col = do
  c ← get
  on_screen (framebuffer_write c.background (u32 (x + col)) (u32 (y + row)))
  if leb 128 (u8 ch) then undefined else do
    if not (bit_and (font (u8 ch) row) (1 <<< col) == 0)
        then on_screen (framebuffer_write c.foreground (u32 (x + col)) (u32 (y + row)))
        else pure tt

-- the loop over `col`, with `rounds` left
draw_columns : Font → ℕ → ℕ → ℕ → ℕ → ℕ → ℕ → M Console (Unit {0})
unfolding draw_dot
draw_columns font ch x y row zero col = pure tt
draw_columns font ch x y row (suc rounds) col = do
  draw_dot font ch x y row col
  draw_columns font ch x y row rounds (col + 1)

-- the loop over `row`, with `rounds` left
draw_rows : Font → ℕ → ℕ → ℕ → ℕ → ℕ → M Console (Unit {0})
unfolding draw_columns
draw_rows font ch x y zero row = pure tt
draw_rows font ch x y (suc rounds) row = do
  draw_columns font ch x y row 8 0
  draw_rows font ch x y rounds (row + 1)

unfoldable pub fbcon_draw_ch : Font → ℕ → ℕ → ℕ → M Console (Unit {0})
unfolding draw_rows
fbcon_draw_ch font ch x y = draw_rows font ch x y 8 0

unfoldable pub fbcon_scroll_up : M Console (Unit {0})
unfolding on_screen framebuffer_scroll_up
fbcon_scroll_up = do c ← get; on_screen (framebuffer_scroll_up c.text_cy c.background)

abbrev pub new_line : ℕ
new_line = 10

abbrev pub tab : ℕ
tab = 9

abbrev pub spaces : List ℕ
spaces = 32 ∷ 32 ∷ 32 ∷ 32 ∷ []

-- the tests behind the `switch`
unfoldable pub wrap : M Console (Unit {0})
unfolding fbcon_scroll_up
wrap = do
  c ← get
  if leb c.cx c.x then modify (λ c. record c { x = 0; y = u32 (c.y + 1) }) else pure tt
  c ← get
  if leb c.cy c.y then (do fbcon_scroll_up; modify (λ c. record c { y = sub32 c.y 1 })) else pure tt

-- `fbcon_write` calls itself for a tab, with spaces alone: `depth` bounds the calls in one another.
write_text : Font → ℕ → List ℕ → M Console (Unit {0})
unfolding fbcon_draw_ch wrap
write_text font zero text = λ _. out_of_fuel
write_text font (suc depth) [] = pure tt
write_text font (suc depth) (ch ∷ text) = do
  elim (ch == new_line) [
    | true ↦ modify (λ c. record c { x = 0; y = u32 (c.y + 1) })
    | false ↦ elim (ch == tab) [
      | true ↦ write_text font depth spaces
      | false ↦ do
        c ← get
        fbcon_draw_ch font ch (u32 (c.x * c.text_cx)) (u32 (c.y * c.text_cy))
        modify (λ c. record c { x = u32 (c.x + 1) })
    ]
  ]
  wrap
  write_text font (suc depth) text

unfoldable pub fbcon_write : Font → List ℕ → M Console ℤ
unfolding write_text
fbcon_write font text = do write_text font 2 text; pure (pos 0)

unfoldable pub fbcon_init : FramebufferTag → M Console ℤ
fbcon_init fb c =
    if fb.type == 1
    then ok (
      pos 0,
      record c { x = 0; y = 0; text_cx = 8; text_cy = 8; cx = fb.width / 8; cy = fb.height / 8 },
    )
    else ok (not_supported, c)

unfoldable pub fbcon_set_color : ℕ → ℕ → ℕ → ℕ → ℕ → ℕ → M Console (Unit {0})
unfolding framebuffer_rgb
fbcon_set_color fg_r fg_g fg_b bg_r bg_g bg_b c = ok (
  tt,
  record c {
    foreground = framebuffer_rgb fg_r fg_g fg_b;
    background = framebuffer_rgb bg_r bg_g bg_b;
  },
)
