-- ===== src/Drivers/Fbcon/Glyphs.antt =====
-- fbcon_draw_ch of drivers/fbcon.c: the places of a character and what they show.
use fynaos.Base.{
  ℕ, zero, suc, ◌+◌, ◌-◌, ◌^◌, ◌≤◌, ◌<◌, ◌≡◌, ◌≢◌, refl, ◌∙◌, subst, arith, Bool, true, false, ◌&&◌,
  not, ltb, leb, ◌==◌, if◌then◌else◌, u8, u32, ◌<<<◌, bit_and, update, Result, ok, Bool-cases, inl,
  inr, eq→==, ne→==, M, lt→leb,
}
use fynaos.Drivers.Framebuffer.{Screen, pixel, framebuffer_write}
use fynaos.Drivers.Framebuffer.Addresses.{IsFlat, pixel-apart}
use fynaos.Drivers.Framebuffer.Colors.{HasChannels, encode, framebuffer_write-ok}
use fynaos.Drivers.Framebuffer.Scroll.{shown, with_mem, earlier}
use fynaos.Drivers.Fbcon.{
  Console, Font, on_screen, draw_dot, draw_columns, draw_rows, fbcon_draw_ch,
}

-- the colour of a dot of a character
abbrev pub dot : Font → ℕ → ℕ → ℕ → ℕ → ℕ → ℕ
dot font foreground background ch row col =
    if not (bit_and (font (u8 ch) row) (1 <<< col) == 0) then foreground else background

abbrev pub drawn : Console → (ℕ → ℕ) → Console
drawn c mem = record c { screen = with_mem c.screen mem }

-- The place (px, py) belongs to the dots before (row, col) of a character at (x, y).
abbrev pub covered : ℕ → ℕ → ℕ → ℕ → ℕ → ℕ → Bool
covered x y row col px py =
    leb x px && ltb px (x + 8) && leb y py && earlier (px - x) (py - y) col row

-- `mem` is the memory of the console with the dots before (row, col) drawn.
pub record IsDrawn (font : Font) (c : Console) (ch x y row col : ℕ) (mem : ℕ → ℕ) : Type 0 where
  pub picture :
      (px py : ℕ)
      → px < c.screen.info.width
      → py < c.screen.info.height
      → mem (pixel c.screen.info px py) ≡ (
          if covered x y row col px py
          then encode c.screen.info (dot font c.foreground c.background ch (py - y) (px - x))
          else shown c.screen px py)
  pub outside :
      (a : ℕ)
      → ((px py : ℕ)
          → px < c.screen.info.width
          → py < c.screen.info.height
          → a ≢ pixel c.screen.info px py)
      → mem a ≡ c.screen.mem a

this_covered : (x y row col : ℕ) → col < 8 → covered x y row (col + 1) (x + col) (y + row) ≡ true
this_covered x y row col h = ground arith

next_covered :
    (x y row col px py : ℕ)
    → (px ≡ x + col → py ≢ y + row)
    → covered x y row (col + 1) px py ≡ covered x y row col px py
next_covered x y row col px py h = ground arith

next_row : (x y row px py : ℕ) → covered x y row 8 px py ≡ covered x y (row + 1) 0 px py
next_row x y row px py = ground arith

none_covered : (x y px py : ℕ) → covered x y 0 0 px py ≡ false
none_covered x y px py = ground arith

-- a run on the screen that ends well
pub on_screen-ok :
    {A : Type 0} (m : M Screen A) (c : Console) {a : A} {t : Screen}
    → m c.screen ≡ ok (a, t)
    → on_screen m c ≡ ok (a, record c { screen = t })
unfolding on_screen
on_screen-ok m c e = rw (e, on_screen) refl

-- the outcome of a run that draws
abbrev Draws :
    (font : Font) (c : Console) (ch x y row col : ℕ) → Result (Unit {0} × Console) → Type 0
Draws font c ch x y row col r =
    (mem : ℕ → ℕ) × (r ≡ ok (tt, drawn c mem)) × IsDrawn font c ch x y row col mem

module _ (font : Font) (c : Console) (flat : IsFlat c.screen.info)
    (channels : HasChannels c.screen.info) (narrow : c.screen.info.width ≤ 2 ^ 32)
    (low : c.screen.info.height ≤ 2 ^ 32) (ch : ℕ) (known : u8 ch < 128) (x y : ℕ)
    (x_fits : x + 8 ≤ c.screen.info.width) (y_fits : y + 8 ≤ c.screen.info.height) where
  -- One write at a place of the screen.
  write-ok :
      (color px py : ℕ) (mem : ℕ → ℕ)
      → px < c.screen.info.width
      → py < c.screen.info.height
      → on_screen (framebuffer_write color (u32 px) (u32 py)) (drawn c mem)
        ≡ ok (tt, drawn c (update mem (pixel c.screen.info px py) (encode c.screen.info color)))
  write-ok color px py mem hx hy =
      let ex : u32 px ≡ px = omega (arith, hx, narrow) in
      let ey : u32 py ≡ py = omega (arith, hy, low) in
      rw (ex, ey)
        (on_screen-ok (framebuffer_write color px py) (drawn c mem)
          (framebuffer_write-ok (with_mem c.screen mem) flat channels color px py hx hy))

  -- What a dot that is drawn leaves, from the word it stores and what it keeps.
  IsDrawn-step :
      (row col : ℕ) (mem mem' : ℕ → ℕ)
      → row < 8
      → col < 8
      → mem' (pixel c.screen.info (x + col) (y + row))
        ≡ encode c.screen.info (dot font c.foreground c.background ch row col)
      → ((a : ℕ) → a ≢ pixel c.screen.info (x + col) (y + row) → mem' a ≡ mem a)
      → IsDrawn font c ch x y row col mem
      → IsDrawn font c ch x y row (col + 1) mem'
  IsDrawn-step row col mem mem' hr hc here there m = record {
    picture = λ px py hx hy. elim (Bool-cases (px == x + col && py == y + row)) [
      | inl e ↦
          let ex : px ≡ x + col = ground (arith, e) in
          let ey : py ≡ y + row = ground (arith, e) in
          let dx : x + col - x ≡ col = omega arith in
          let dy : y + row - y ≡ row = omega arith in
          rw (ex, ey, this_covered x y row col hc, dx, dy) here
      | inr e ↦
          let apart : px ≡ x + col → py ≢ y + row = λ ex ey. ground (arith, e, ex, ey) in
          rw (next_covered x y row col px py apart) (
            there (pixel c.screen.info px py) (λ p.
              let (ex, ey) =
                pixel-apart c.screen.info flat px py (x + col) (y + row) hx hy
                  (omega (arith, hc, x_fits)) (omega (arith, hr, y_fits)) p in
              apart ex ey)
            ∙ m.picture px py hx hy)
    ];
    outside = λ a far.
        there a (far (x + col) (y + row) (omega (arith, hc, x_fits)) (omega (arith, hr, y_fits)))
        ∙ m.outside a far;
  }

  draw_dot-Draws :
      (row col : ℕ) (mem : ℕ → ℕ)
      → row < 8
      → col < 8
      → IsDrawn font c ch x y row col mem
      → Draws font c ch x y row (col + 1) (draw_dot font ch x y row col (drawn c mem))
  unfolding draw_dot
  draw_dot-Draws row col mem hr hc m =
      let place = pixel c.screen.info (x + col) (y + row) in
      let hx : x + col < c.screen.info.width = omega (arith, hc, x_fits) in
      let hy : y + row < c.screen.info.height = omega (arith, hr, y_fits) in
      let under = update mem place (encode c.screen.info c.background) in
      let over = update under place (encode c.screen.info c.foreground) in
      elim (Bool-cases (not (bit_and (font (u8 ch) row) (1 <<< col) == 0))) [
        | inl e ↦
            rw
              (
                write-ok c.background (x + col) (y + row) mem hx hy,
                lt→leb 128 (u8 ch) known,
                e,
                write-ok c.foreground (x + col) (y + row) under hx hy,
              )
              (
                over,
                refl,
                IsDrawn-step row col mem over hr hc (rw (e, eq→== place place refl) refl)
                    (λ a h. rw (ne→== a place h) refl) m,
              )
        | inr e ↦
            rw (write-ok c.background (x + col) (y + row) mem hx hy, lt→leb 128 (u8 ch) known, e)
              (
                under,
                refl,
                IsDrawn-step row col mem under hr hc (rw (e, eq→== place place refl) refl)
                    (λ a h. rw (ne→== a place h) refl) m,
              )
      ]

  draw_columns-Draws :
      (rounds row col : ℕ) (mem : ℕ → ℕ)
      → col + rounds ≡ 8
      → row < 8
      → IsDrawn font c ch x y row col mem
      → Draws font c ch x y row 8 (draw_columns font ch x y row rounds col (drawn c mem))
  unfolding draw_columns
  draw_columns-Draws zero row col mem e hr m =
      let e' : col ≡ 8 = omega (arith, e) in
      (mem, refl, subst (λ t. IsDrawn font c ch x y row t mem) e' m)
  draw_columns-Draws (suc rounds) row col mem e hr m =
      let (mem', run, m') = draw_dot-Draws row col mem hr (omega (arith, e)) m in
      rw run (draw_columns-Draws rounds row (col + 1) mem' (omega (arith, e)) hr m')

  IsDrawn-row :
      (row : ℕ) (mem : ℕ → ℕ)
      → IsDrawn font c ch x y row 8 mem
      → IsDrawn font c ch x y (row + 1) 0 mem
  IsDrawn-row row mem m = record {
    picture = λ px py hx hy. rw (← next_row x y row px py) (m.picture px py hx hy);
    outside = m.outside;
  }

  draw_rows-Draws :
      (rounds row : ℕ) (mem : ℕ → ℕ)
      → row + rounds ≡ 8
      → IsDrawn font c ch x y row 0 mem
      → Draws font c ch x y 8 0 (draw_rows font ch x y rounds row (drawn c mem))
  unfolding draw_rows
  draw_rows-Draws zero row mem e m =
      let e' : row ≡ 8 = omega (arith, e) in
      (mem, refl, subst (λ t. IsDrawn font c ch x y t 0 mem) e' m)
  draw_rows-Draws (suc rounds) row mem e m =
      let (mem', run, m') = draw_columns-Draws 8 row 0 mem refl (omega (arith, e)) m in
      rw run (draw_rows-Draws rounds (row + 1) mem' (omega (arith, e)) (IsDrawn-row row mem' m'))

  pub fbcon_draw_ch-Draws :
      (mem : ℕ → ℕ) × (fbcon_draw_ch font ch x y c ≡ ok (tt, drawn c mem))
      × IsDrawn font c ch x y 8 0 mem
  unfolding fbcon_draw_ch
  fbcon_draw_ch-Draws = draw_rows-Draws 8 0 c.screen.mem refl (record {
    picture = λ px py hx hy. rw (none_covered x y px py) refl;
    outside = λ a far. refl;
  })
