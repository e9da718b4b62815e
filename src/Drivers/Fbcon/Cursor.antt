-- ===== src/Drivers/Fbcon/Cursor.antt =====
-- The scroll of drivers/fbcon.c, and the tests behind the `switch` of fbcon_write.
use fynaos.Base.{
  ℕ, ◌+◌, ◌*◌, ◌-◌, ◌^◌, ◌≤◌, ◌<◌, ◌≡◌, ◌≢◌, refl, ap, ◌∙◌, arith, leb, ◌==◌, u32, sub32, Result,
  ok, Bool-cases, inl, inr, ==→eq, lt→leb, lt→ltb, le→ltb,
}
use fynaos.Drivers.Framebuffer.{pixel, framebuffer_scroll_up}
use fynaos.Drivers.Framebuffer.Addresses.{IsFlat}
use fynaos.Drivers.Framebuffer.Colors.{HasChannels, encode}
use fynaos.Drivers.Framebuffer.Scroll.{with_mem, moved, framebuffer_scroll_up-ends}
use fynaos.Drivers.Fbcon.{Console, Font, fbcon_scroll_up, wrap}
use fynaos.Drivers.Fbcon.Glyphs.{on_screen-ok}
use fynaos.Drivers.Fbcon.Grid.{Page, Cell, cell_color, Grid, scrolled, settle}

abbrev pub page_of : Console → Page
page_of c = record { cx = c.cx; cy = c.cy; foreground = c.foreground; background = c.background }

-- The console has characters of 8 by 8 dots on a screen that its lines fill.
pub record IsFitted (c : Console) : Type 0 where
  pub char_width : c.text_cx ≡ 8
  pub char_height : c.text_cy ≡ 8
  pub columns_fit : c.cx * 8 ≤ c.screen.info.width
  pub lines_fill : c.cy * 8 ≡ c.screen.info.height
  pub narrow : c.screen.info.width ≤ 2 ^ 32
  pub low : c.screen.info.height + 8 ≤ 2 ^ 32
  pub flat : IsFlat c.screen.info
  pub channels : HasChannels c.screen.info

-- the console with the cursor at (x, y) and other memory
abbrev pub at : Console → ℕ → ℕ → (ℕ → ℕ) → Console
at c x y mem = record c { x = x; y = y; screen = with_mem c.screen mem }

-- Memory `mem` of the screen of `c` shows the cells.
abbrev pub Shows : Font → Console → (ℕ → ℕ) → (ℕ → ℕ → Cell) → Type 0
Shows font c mem cell =
    (i j row col : ℕ)
    → i < c.cx
    → j < c.cy
    → row < 8
    → col < 8
    → mem (pixel c.screen.info (i * 8 + col) (j * 8 + row))
      ≡ encode c.screen.info (cell_color font (cell i j) row col)

-- Nothing outside the pixels of the screen changes.
abbrev pub Keeps : Console → (ℕ → ℕ) → Type 0
Keeps c mem =
    (a : ℕ)
    → ((x y : ℕ) → x < c.screen.info.width → y < c.screen.info.height → a ≢ pixel c.screen.info x y)
    → mem a ≡ c.screen.mem a

-- The cursor of the grid is on the page, and memory `mem` shows its cells.
abbrev pub On : Font → Console → Grid → (ℕ → ℕ) → Type 0
On font c g mem = (g.x < c.cx) × (g.y < c.cy) × Shows font c mem g.cell × Keeps c mem

-- The run ends with the console as the grid says.
abbrev pub Ends : Font → Console → Grid → Result (Unit {0} × Console) → Type 0
Ends font c g r = (mem : ℕ → ℕ) × (r ≡ ok (tt, at c g.x g.y mem)) × On font c g mem

module _ (font : Font) (c : Console) (fitted : IsFitted c) (cell : ℕ → ℕ → Cell) where
  moved_cell :
      (mem : ℕ → ℕ)
      → Shows font c mem cell
      → (i j row col : ℕ) → i < c.cx
      → j < c.cy
      → row < 8
      → col < 8
      → moved (with_mem c.screen mem) 8 c.background (i * 8 + col) (j * 8 + row)
        ≡ encode c.screen.info (cell_color font (scrolled (page_of c) cell i j) row col)
  moved_cell mem shows i j row col hi hj hr hc = elim (Bool-cases (j + 1 == c.cy)) [
    | inl e ↦
        let last : j + 1 ≡ c.cy = ==→eq (j + 1) c.cy e in
        let behind : c.screen.info.height ≤ j * 8 + row + 8 =
          omega (arith, last, fitted.lines_fill) in
        rw (e, le→ltb (j * 8 + row + 8) c.screen.info.height behind) refl
    | inr e ↦
        let next : j + 1 < c.cy = ground (arith, e, hj) in
        let inside : j * 8 + row + 8 < c.screen.info.height =
          omega (arith, next, hr, fitted.lines_fill) in
        let place : j * 8 + row + 8 ≡ (j + 1) * 8 + row = omega arith in
        rw (e, lt→ltb (j * 8 + row + 8) c.screen.info.height inside, place)
          (shows i (j + 1) row col hi next hr hc)
  ]

  -- The scroll of a page that the cursor has left.
  scroll-Shows :
      (x y : ℕ) (mem : ℕ → ℕ)
      → Shows font c mem cell
      → Keeps c mem
      → (mem' : ℕ → ℕ) × (fbcon_scroll_up (at c x y mem) ≡ ok (tt, at c x y mem'))
        × Shows font c mem' (scrolled (page_of c) cell)
        × Keeps c mem'
  unfolding fbcon_scroll_up
  scroll-Shows x y mem shows keeps =
      let (mem', run, picture, outside) =
        framebuffer_scroll_up-ends c.text_cy c.background (with_mem c.screen mem) fitted.flat
          fitted.channels (rw fitted.char_height fitted.low) in
      (
        mem',
        on_screen-ok (framebuffer_scroll_up c.text_cy c.background) (at c x y mem) run,
        (λ i j row col hi hj hr hc.
            picture (i * 8 + col) (j * 8 + row) (omega (arith, hi, hc, fitted.columns_fit))
              (omega (arith, hj, hr, fitted.lines_fill))
            ∙ rw fitted.char_height (moved_cell mem shows i j row col hi hj hr hc)),
        (λ a far. outside a far ∙ keeps a far),
      )

  pub lines_small : (y : ℕ) → y ≤ c.cy → y + 1 < 2 ^ 32
  lines_small y h = omega (arith, h, fitted.low, fitted.lines_fill)

  -- the second test behind the `switch`
  settle_line :
      (x y : ℕ) (mem : ℕ → ℕ)
      → x < c.cx
      → y ≤ c.cy
      → 0 < c.cy
      → Shows font c mem cell
      → Keeps c mem
      → Ends font c
          (settle (page_of c) (record { cell = cell; x = x; y = y }))
          (wrap (at c x y mem))
  unfolding wrap
  settle_line x y mem hx hy lines shows keeps = elim (Bool-cases (leb c.cy y)) [
    | inl e ↦
        let last : y ≡ c.cy = ground (arith, e, hy) in
        let up : sub32 y 1 ≡ y - 1 = omega (arith, last, lines, lines_small y hy) in
        let (mem', run, shows', keeps') = scroll-Shows x y mem shows keeps in
        rw (lt→leb c.cx x hx, e, run)
          (
            mem',
            ap (λ (t : ℕ). ok (tt, at c x t mem')) up,
            (hx, omega (arith, last, lines), shows', keeps'),
          )
    | inr e ↦ rw (lt→leb c.cx x hx, e) (mem, refl, (hx, ground (arith, e), shows, keeps))
  ]

  -- Both tests: the cursor comes back to the page.
  pub wrap-Ends :
      (x y : ℕ) (mem : ℕ → ℕ)
      → x ≤ c.cx
      → y ≤ c.cy
      → (x ≡ c.cx → y < c.cy)
      → 0 < c.cx
      → 0 < c.cy
      → Shows font c mem cell
      → Keeps c mem
      → Ends font c
          (settle (page_of c) (record { cell = cell; x = x; y = y }))
          (wrap (at c x y mem))
  unfolding wrap
  wrap-Ends x y mem hx hy turn columns lines shows keeps = elim (Bool-cases (leb c.cx x)) [
    | inl e ↦
        let below : y < c.cy = turn (ground (arith, e, hx)) in
        let step : u32 (y + 1) ≡ y + 1 = omega (arith, lines_small y hy) in
        let next = settle_line 0 (y + 1) mem columns (omega (arith, below)) lines shows keeps in
        rw (e, step) (rw (lt→leb c.cx 0 columns) at next)
    | inr e ↦ settle_line x y mem (ground (arith, e)) hy lines shows keeps
  ]
