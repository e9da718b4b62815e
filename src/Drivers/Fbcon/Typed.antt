-- ===== src/Drivers/Fbcon/Typed.antt =====
-- fbcon_write of drivers/fbcon.c types its text on the page of Fbcon/Grid.
use mathlib.Core.Path.{ap₂}
use fynaos.Base.{
  ℕ, suc, ◌+◌, ◌*◌, ◌-◌, ◌<◌, ◌≡◌, ◌≢◌, refl, ◌∙◌, arith, true, false, ◌&&◌, ◌==◌, if◌then◌else◌,
  u8, u32, List, [], ◌∷◌, pos, ok, Bool-cases, inl, inr, lt→leb, ne→==,
}
use fynaos.Drivers.Framebuffer.{pixel}
use fynaos.Drivers.Framebuffer.Colors.{encode}
use fynaos.Drivers.Fbcon.{
  Console, Font, new_line, tab, spaces, fbcon_draw_ch, wrap, write_text, fbcon_write,
}
use fynaos.Drivers.Fbcon.Cursor.{
  page_of, IsFitted, at, Shows, Keeps, On, Ends, lines_small, wrap-Ends,
}
use fynaos.Drivers.Fbcon.Glyphs.{covered, dot, fbcon_draw_ch-Draws}
use fynaos.Drivers.Fbcon.Grid.{
  glyph, cell_color, Grid, settle, put_char, type_text, expand, IsAscii, IsPlain,
}

-- the dots of a cell are those of the character that is drawn there, and of no other
cell_covered :
    (x y i j row col : ℕ)
    → row < 8
    → col < 8
    → covered (x * 8) (y * 8) 8 0 (i * 8 + col) (j * 8 + row) ≡ (i == x && j == y)
cell_covered x y i j row col hr hc = ground arith

not_tab : (ch : ℕ) → (ch == tab) ≡ false → ch ≢ tab
not_tab ch e = ground (arith, e)

tab_only : (ch : ℕ) → (ch == tab) ≡ true → (ch == new_line) ≡ false
tab_only ch e = ground (arith, e)

module _ (font : Font) (c : Console) (fitted : IsFitted c) where
  -- A character that is drawn fills the cell of the cursor.
  draw-Shows :
      (ch : ℕ) (g : Grid) (mem : ℕ → ℕ)
      → ch < 128
      → On font c g mem
      → (mem' : ℕ → ℕ) × (fbcon_draw_ch font ch
            (u32 (g.x * c.text_cx))
            (u32 (g.y * c.text_cy))
            (at c g.x g.y mem)
          ≡ ok (tt, at c g.x g.y mem'))
        × Shows font c mem'
            (λ i j. if i == g.x && j == g.y then glyph ch c.foreground c.background else g.cell i j)
        × Keeps c mem'
  draw-Shows ch g mem known (hx, hy, shows, keeps) =
      let byte : u8 ch ≡ ch = omega (arith, known) in
      let across : u32 (g.x * c.text_cx) ≡ g.x * 8 =
        rw fitted.char_width (omega (arith, hx, fitted.columns_fit, fitted.narrow)) in
      let down : u32 (g.y * c.text_cy) ≡ g.y * 8 =
        rw fitted.char_height (omega (arith, hy, fitted.lines_fill, fitted.low)) in
      let (mem', run, m) =
        fbcon_draw_ch-Draws font (at c g.x g.y mem) fitted.flat fitted.channels fitted.narrow
          (omega (arith, fitted.low)) ch (rw byte known) (g.x * 8) (g.y * 8)
          (omega (arith, hx, fitted.columns_fit)) (omega (arith, hy, fitted.lines_fill)) in
      (
        mem',
        ap₂ (λ (i j : ℕ). fbcon_draw_ch font ch i j (at c g.x g.y mem)) across down ∙ run,
        (λ i j row col hi hj hr hc.
            m.picture (i * 8 + col) (j * 8 + row) (omega (arith, hi, hc, fitted.columns_fit))
              (omega (arith, hj, hr, fitted.lines_fill))
            ∙ rw (cell_covered g.x g.y i j row col hr hc) (here i j row col hi hj hr hc)),
        (λ a far. m.outside a far ∙ keeps a far),
      )
    where
      here :
          (i j row col : ℕ)
          → i < c.cx
          → j < c.cy
          → row < 8
          → col < 8
          → (if i == g.x && j == g.y
              then encode c.screen.info (
                  dot font c.foreground c.background ch
                    (j * 8 + row - g.y * 8)
                    (i * 8 + col - g.x * 8))
              else mem (pixel c.screen.info (i * 8 + col) (j * 8 + row)))
            ≡ encode c.screen.info (
                cell_color font
                  (if i == g.x && j == g.y then glyph ch c.foreground c.background else g.cell i j)
                  row
                  col)
      here i j row col hi hj hr hc = elim (Bool-cases (i == g.x && j == g.y)) [
        | inl e ↦
            let dx : i * 8 + col - g.x * 8 ≡ col = ground (arith, e) in
            let dy : j * 8 + row - g.y * 8 ≡ row = ground (arith, e) in rw (e, dx, dy) refl
        | inr e ↦ rw e (shows i j row col hi hj hr hc)
      ]

  module _ (columns : 0 < c.cx) (lines : 0 < c.cy) where
    -- One character that is not a tab, with the tests behind the `switch`.
    char-Ends :
        (depth ch : ℕ) (text : List ℕ) (g : Grid) (mem : ℕ → ℕ)
        → ch < 128
        → ch ≢ tab
        → On font c g mem
        → (mem' : ℕ → ℕ) × (write_text font (suc depth) (ch ∷ text) (at c g.x g.y mem)
            ≡ write_text font (suc depth) text (
                at c
                  (settle (page_of c) (put_char (page_of c) ch g)).x
                  (settle (page_of c) (put_char (page_of c) ch g)).y
                  mem'))
          × On font c (settle (page_of c) (put_char (page_of c) ch g)) mem'
    unfolding write_text
    char-Ends depth ch text g mem known plain (hx, hy, shows, keeps) =
        elim (Bool-cases (ch == new_line)) [
          | inl e ↦
              let step : u32 (g.y + 1) ≡ g.y + 1 =
                omega (arith, lines_small font c fitted g.cell g.y (omega (arith, hy))) in
              let (mem', run, on) =
                wrap-Ends font c fitted g.cell 0 (g.y + 1) mem (omega arith) (omega (arith, hy))
                  (λ z. omega (arith, z, columns)) columns lines shows keeps in
              rw (e, step, run) (mem', refl, on)
          | inr e ↦
              let step : u32 (g.x + 1) ≡ g.x + 1 =
                omega (arith, hx, fitted.columns_fit, fitted.narrow) in
              let (drawn, run, shows', keeps') = draw-Shows ch g mem known (hx, hy, shows, keeps) in
              let (mem', wrapped, on) =
                wrap-Ends font c fitted
                  (λ i j.
                    if i == g.x && j == g.y then glyph ch c.foreground c.background else g.cell i j)
                  (g.x + 1) g.y drawn (omega (arith, hx)) (omega (arith, hy)) (λ _. hy) columns
                  lines shows' keeps' in
              rw (e, ne→== ch tab plain, run, step, wrapped) (mem', refl, on)
        ]

    plain-Ends :
        (depth : ℕ) (text : List ℕ) (g : Grid) (mem : ℕ → ℕ)
        → IsPlain text
        → On font c g mem
        → Ends font c
            (type_text (page_of c) text g)
            (write_text font (suc depth) text (at c g.x g.y mem))
    unfolding write_text type_text
    plain-Ends depth [] g mem p on = (mem, refl, on)
    plain-Ends depth (ch ∷ text) g mem (known, plain, p) on =
        let (mem', run, on') = char-Ends depth ch text g mem known plain on in
        rw run (plain-Ends depth text (settle (page_of c) (put_char (page_of c) ch g)) mem' p on')

    -- A cursor on the page stays where it is.
    wrap-still :
        (g : Grid) (mem : ℕ → ℕ) → On font c g mem → Ends font c g (wrap (at c g.x g.y mem))
    wrap-still g mem (hx, hy, shows, keeps) =
        let ends =
          wrap-Ends font c fitted g.cell g.x g.y mem (omega (arith, hx)) (omega (arith, hy))
            (λ _. hy) columns lines shows keeps in
        rw (lt→leb c.cx g.x hx, lt→leb c.cy g.y hy) at ends

    spaces-IsPlain : IsPlain spaces
    spaces-IsPlain = ground arith

    text-Ends :
        (text : List ℕ) (g : Grid) (mem : ℕ → ℕ)
        → IsAscii text
        → On font c g mem
        → Ends font c
            (type_text (page_of c) (expand text) g)
            (write_text font 2 text (at c g.x g.y mem))
    unfolding expand type_text write_text
    text-Ends [] g mem p on = (mem, refl, on)
    text-Ends (ch ∷ text) g mem (known, p) on = elim (Bool-cases (ch == tab)) [
      | inl e ↦
          let typed = type_text (page_of c) spaces g in
          let (mem', run, on') = plain-Ends 0 spaces g mem spaces-IsPlain on in
          let (mem'', still, on'') = wrap-still typed mem' on' in
          let other : (ch == new_line) ≡ false = tab_only ch e in
          rw (other, e, run, still) (text-Ends text typed mem'' p on'')
      | inr e ↦
          let (mem', run, on') = char-Ends 1 ch text g mem known (not_tab ch e) on in
          rw (e, run) (text-Ends text (settle (page_of c) (put_char (page_of c) ch g)) mem' p on')
    ]

-- On a screen that the lines of the page fill, with the cursor on the page and the screen showing the
-- cells of `g`, fbcon_write of characters below 128 returns 0 with the cursor on the page, and the
-- screen shows what the text gives when it is typed on `g`: a character fills the cell of the cursor
-- and moves it on, a newline or a full line leads to the next line, the page scrolls at its end, and
-- a tab is four spaces; memory outside the pixels of the screen is as before.
pub fbcon_write-typed :
    (font : Font) (c : Console) (text : List ℕ) (g : Grid)
    → IsFitted c
    → IsAscii text
    → c.x ≡ g.x
    → c.y ≡ g.y
    → c.x < c.cx
    → c.y < c.cy
    → Shows font c c.screen.mem g.cell
    → (mem : ℕ → ℕ) × (fbcon_write font text c
        ≡ ok (
          pos 0,
          at c
              (type_text (page_of c) (expand text) g).x
              (type_text (page_of c) (expand text) g).y
              mem,
        ))
      × On font c (type_text (page_of c) (expand text) g) mem
unfolding fbcon_write
fbcon_write-typed font c text g fitted ascii ex ey hx hy shows =
    let (mem, run, on) =
      text-Ends font c fitted (omega (arith, hx)) (omega (arith, hy)) text g c.screen.mem ascii
        (omega (arith, ex, hx), omega (arith, ey, hy), shows, λ a far. refl) in
    rw (ex, ey, run) (mem, refl, on)
