-- ===== src/Drivers/Fbcon/Grid.antt =====
-- What the console of drivers/fbcon.c shows, as a page of characters: the abstract view of it.
use fynaos.Base.{ℕ, ◌+◌, ◌-◌, ◌<◌, ◌≢◌, ◌&&◌, leb, ◌==◌, if◌then◌else◌, List, [], ◌∷◌}
use fynaos.Drivers.Fbcon.{Font, new_line, tab}
use fynaos.Drivers.Fbcon.Glyphs.{dot}

-- the size of the page, and the colours to type in
pub record Page : Type 0 where
  pub cx : ℕ
  pub cy : ℕ
  pub foreground : ℕ
  pub background : ℕ

-- a cell that scrolling cleared, or a character with its colours
pub data Cell : Type 0 where
  empty : ℕ → Cell
  glyph : ℕ → ℕ → ℕ → Cell

-- the colour that a cell has at a dot
abbrev pub cell_color : Font → Cell → ℕ → ℕ → ℕ
cell_color font (empty background) row col = background
cell_color font (glyph ch foreground background) row col = dot font foreground background ch row col

-- the cells, by column and line, and the cursor
pub record Grid : Type 0 where
  pub cell : ℕ → ℕ → Cell
  pub x : ℕ
  pub y : ℕ

-- The lines move up, and the last one is cleared.
abbrev pub scrolled : Page → (ℕ → ℕ → Cell) → ℕ → ℕ → Cell
scrolled page cell i j = if j + 1 == page.cy then empty page.background else cell i (j + 1)

-- The cursor behind the last column goes to the next line, and behind the last line the page scrolls.
abbrev pub settle : Page → Grid → Grid
settle page g =
    let line = if leb page.cx g.x then record g { x = 0; y = g.y + 1 } else g in
    if leb page.cy line.y
    then record line { cell = scrolled page line.cell; y = line.y - 1 }
    else line

abbrev pub put_char : Page → ℕ → Grid → Grid
put_char page ch g = if ch == new_line then record g { x = 0; y = g.y + 1 } else record g {
  cell =
      λ i j. if i == g.x && j == g.y then glyph ch page.foreground page.background else g.cell i j;
  x = g.x + 1;
}

unfoldable pub type_text : Page → List ℕ → Grid → Grid
type_text page [] g = g
type_text page (ch ∷ text) g = type_text page text (settle page (put_char page ch g))

-- A tab is four spaces.
unfoldable pub expand : List ℕ → List ℕ
expand [] = []
expand (ch ∷ text) =
    let rest = expand text in if ch == tab then 32 ∷ 32 ∷ 32 ∷ 32 ∷ rest else ch ∷ rest

-- the characters that the font has
abbrev pub IsAscii : List ℕ → Type 0
IsAscii [] = Unit
IsAscii (ch ∷ text) = (ch < 128) × IsAscii text

-- characters, and no tab
abbrev pub IsPlain : List ℕ → Type 0
IsPlain [] = Unit
IsPlain (ch ∷ text) = (ch < 128) × (ch ≢ tab) × IsPlain text
