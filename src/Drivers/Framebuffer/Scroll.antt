-- ===== src/Drivers/Framebuffer/Scroll.antt =====
-- framebuffer_scroll_up of drivers/framebuffer.c against the picture it is to leave.
use fynaos.Base.{
  ℕ, zero, suc, ◌+◌, ◌^◌, ◌≤◌, ◌<◌, ◌≡◌, ◌≢◌, refl, ◌∙◌, subst, arith, Bool, true, false, ◌&&◌,
  ◌||◌, ltb, ◌==◌, if◌then◌else◌, u32, update, Result, ==→eq, Returns, returns, Bool-cases, inl,
  inr, ok, eq→==, ne→==, lt→leb, le→leb,
}
use mathlib.Core.Path.{ap₂}
use fynaos.Drivers.Framebuffer.{
  Screen, pixel, load_pixel, store_pixel, scroll_pixel, scroll_columns, scroll_rows,
  framebuffer_scroll_up,
}
use fynaos.Drivers.Framebuffer.Addresses.{IsFlat, pixel-visible, pixel-apart}
use fynaos.Drivers.Framebuffer.Colors.{HasChannels, encode, framebuffer_write-ok}

-- the word that the screen shows at a place
abbrev pub shown : Screen → ℕ → ℕ → ℕ
shown s x y = s.mem (pixel s.info x y)

-- The picture moved up by `scale` lines, with the lines at the bottom filled.
abbrev pub moved : Screen → ℕ → ℕ → ℕ → ℕ → ℕ
moved s scale fill x y =
    if ltb (y + scale) s.info.height then shown s x (y + scale) else encode s.info fill

-- the places before (x', y') in the order of the two loops
abbrev pub earlier : ℕ → ℕ → ℕ → ℕ → Bool
earlier x y x' y' = ltb y y' || y == y' && ltb x x'

-- the screen with other memory
abbrev pub with_mem : Screen → (ℕ → ℕ) → Screen
with_mem s mem = record s { mem = mem }

-- `mem` is the memory of `s` with the places before (x', y') moved.
pub record IsMoved (scale fill : ℕ) (s : Screen) (x' y' : ℕ) (mem : ℕ → ℕ) : Type 0 where
  pub picture :
      (x y : ℕ)
      → x < s.info.width
      → y < s.info.height
      → mem (pixel s.info x y) ≡ (if earlier x y x' y' then moved s scale fill x y else shown s x y)
  pub outside :
      (a : ℕ)
      → ((x y : ℕ) → x < s.info.width → y < s.info.height → a ≢ pixel s.info x y)
      → mem a ≡ s.mem a

this_earlier : (x y : ℕ) → earlier x y (x + 1) y ≡ true
this_earlier x y = ground arith

next_earlier : (x y x' y' : ℕ) → (x' ≡ x → y' ≢ y) → earlier x' y' (x + 1) y ≡ earlier x' y' x y
next_earlier x y x' y' h = ground arith

below_not_earlier : (x y scale : ℕ) → earlier x (y + scale) x y ≡ false
below_not_earlier x y scale = ground arith

next_line : (x y x' y' : ℕ) → x' < x → earlier x' y' x y ≡ earlier x' y' 0 (y + 1)
next_line x y x' y' h = ground arith

-- the outcome of a run that leaves the description of the screen
abbrev Ends : (scale fill : ℕ) (s : Screen) (x y : ℕ) → Result (Unit {0} × Screen) → Type 0
Ends scale fill s x y r =
    (mem : ℕ → ℕ) × (r ≡ ok (tt, with_mem s mem)) × IsMoved scale fill s x y mem

module _ (scale fill : ℕ) (s : Screen) (flat : IsFlat s.info) (channels : HasChannels s.info)
    (small : s.info.height + scale ≤ 2 ^ 32) where
  -- The body of the loops stores the moved word.
  scroll_pixel-ok :
      (x y : ℕ) (mem : ℕ → ℕ)
      → x < s.info.width
      → y < s.info.height
      → IsMoved scale fill s x y mem
      → scroll_pixel scale fill y x (with_mem s mem)
        ≡ ok (tt, with_mem s (update mem (pixel s.info x y) (moved s scale fill x y)))
  unfolding scroll_pixel load_pixel store_pixel
  scroll_pixel-ok x y mem hx hy m =
      let wide : u32 (y + scale) ≡ y + scale = omega (arith, small) in
      elim (Bool-cases (ltb (y + scale) s.info.height)) [
        | inl e ↦
            let below : y + scale < s.info.height = ground (arith, e) in
            rw
              (
                wide,
                lt→leb s.info.height (y + scale) below,
                pixel-visible s.info flat x (y + scale) hx below,
                pixel-visible s.info flat x y hx hy,
                m.picture x (y + scale) hx below,
                below_not_earlier x y scale,
                e,
              )
              refl
        | inr e ↦
            let above : s.info.height ≤ y + scale = ground (arith, e) in
            rw
              (
                wide,
                le→leb s.info.height (y + scale) above,
                framebuffer_write-ok (with_mem s mem) flat channels fill x y hx hy,
                e,
              )
              refl
      ]

  IsMoved-step :
      (x y : ℕ) (mem : ℕ → ℕ)
      → x < s.info.width
      → y < s.info.height
      → IsMoved scale fill s x y mem
      → IsMoved scale fill s (x + 1) y (update mem (pixel s.info x y) (moved s scale fill x y))
  IsMoved-step x y mem hx hy m = record {
    picture = λ x' y' hx' hy'. elim (Bool-cases (pixel s.info x' y' == pixel s.info x y)) [
      | inl e ↦
          let (ex, ey) =
            pixel-apart s.info flat x' y' x y hx' hy' hx hy
              (==→eq (pixel s.info x' y') (pixel s.info x y) e) in
          rw (e, ex, ey, this_earlier x y) refl
      | inr e ↦
          rw
            (
              e,
              next_earlier x y x' y' λ ex ey. absurd (
                  let same : (pixel s.info x' y' == pixel s.info x y) ≡ true =
                    eq→== (pixel s.info x' y') (pixel s.info x y) (ap₂ (pixel s.info) ex ey) in
                  cc),
            )
            (m.picture x' y' hx' hy')
    ];
    outside = λ a far. rw (ne→== a (pixel s.info x y) (far x y hx hy)) (m.outside a far);
  }

  scroll_columns-Ends :
      (rounds x y : ℕ) (mem : ℕ → ℕ)
      → x + rounds ≡ s.info.width
      → y < s.info.height
      → IsMoved scale fill s x y mem
      → Ends scale fill s s.info.width y (scroll_columns scale fill y rounds x (with_mem s mem))
  unfolding scroll_columns
  scroll_columns-Ends zero x y mem e hy m =
      let e' : x ≡ s.info.width = omega (arith, e) in
      (mem, refl, subst (λ t. IsMoved scale fill s t y mem) e' m)
  scroll_columns-Ends (suc rounds) x y mem e hy m =
      rw (scroll_pixel-ok x y mem (omega (arith, e)) hy m) (
        scroll_columns-Ends rounds (x + 1) y _ (omega (arith, e)) hy
          (IsMoved-step x y mem (omega (arith, e)) hy m))

  IsMoved-line :
      (y : ℕ) (mem : ℕ → ℕ)
      → IsMoved scale fill s s.info.width y mem
      → IsMoved scale fill s 0 (y + 1) mem
  IsMoved-line y mem m = record {
    picture = λ x' y' hx' hy'. rw (← next_line s.info.width y x' y' hx') (m.picture x' y' hx' hy');
    outside = m.outside;
  }

  scroll_rows-Ends :
      (rounds y : ℕ) (mem : ℕ → ℕ)
      → y + rounds ≡ s.info.height
      → IsMoved scale fill s 0 y mem
      → Ends scale fill s 0 s.info.height (scroll_rows scale fill rounds y (with_mem s mem))
  unfolding scroll_rows
  scroll_rows-Ends zero y mem e m =
      let e' : y ≡ s.info.height = omega (arith, e) in
      (mem, refl, subst (λ t. IsMoved scale fill s 0 t mem) e' m)
  scroll_rows-Ends (suc rounds) y mem e m =
      let (mem', run, m') =
        scroll_columns-Ends s.info.width 0 y mem (omega arith) (omega (arith, e)) m in
      rw run (scroll_rows-Ends rounds (y + 1) mem' (omega (arith, e)) (IsMoved-line y mem' m'))

-- The run with the memory that it leaves.
pub framebuffer_scroll_up-ends :
    (scale fill : ℕ) (s : Screen)
    → IsFlat s.info
    → HasChannels s.info
    → s.info.height + scale ≤ 2 ^ 32
    → (mem : ℕ → ℕ) × (framebuffer_scroll_up scale fill s ≡ ok (tt, with_mem s mem))
      × ((x y : ℕ)
          → x < s.info.width
          → y < s.info.height
          → mem (pixel s.info x y) ≡ moved s scale fill x y)
      × ((a : ℕ)
          → ((x y : ℕ) → x < s.info.width → y < s.info.height → a ≢ pixel s.info x y)
          → mem a ≡ s.mem a)
unfolding framebuffer_scroll_up
framebuffer_scroll_up-ends scale fill s flat channels small =
    let start : IsMoved scale fill s 0 0 s.mem = record {
      picture = λ x y hx hy. rw (none_earlier x y) refl;
      outside = λ a far. refl;
    } in
    let (mem, run, m) =
      scroll_rows-Ends scale fill s flat channels small s.info.height 0 s.mem (omega arith) start in
    (
      mem,
      run,
      (λ x y hx hy. m.picture x y hx hy ∙ rw (all_earlier x y s.info.height hy) refl),
      m.outside,
    )
  where
    none_earlier : (x y : ℕ) → earlier x y 0 0 ≡ false
    none_earlier x y = ground arith

    all_earlier : (x y height : ℕ) → y < height → earlier x y 0 height ≡ true
    all_earlier x y height h = ground arith

-- Where the screen is flat, its channels are apart and no line number wraps, framebuffer_scroll_up
-- returns: each place of the screen shows what stood `scale` lines below it, or the fill colour where
-- that is behind the last line; the description of the screen and all memory outside its pixels are
-- as before.
pub framebuffer_scroll_up-moved :
    (scale fill : ℕ) (s : Screen)
    → IsFlat s.info
    → HasChannels s.info
    → s.info.height + scale ≤ 2 ^ 32
    → Returns
        (λ _ t.
          (t.info ≡ s.info)
          × ((x y : ℕ)
              → x < s.info.width
              → y < s.info.height
              → shown t x y ≡ moved s scale fill x y)
          × ((a : ℕ)
              → ((x y : ℕ) → x < s.info.width → y < s.info.height → a ≢ pixel s.info x y)
              → t.mem a ≡ s.mem a))
        (framebuffer_scroll_up scale fill s)
framebuffer_scroll_up-moved scale fill s flat channels small =
    let (mem, run, picture, outside) =
      framebuffer_scroll_up-ends scale fill s flat channels small in
    rw run (returns (refl, picture, outside))
