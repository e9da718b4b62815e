-- ===== src/Drivers/Framebuffer/Addresses.antt =====
-- The addresses of the pixels of drivers/framebuffer.c.
use native.Mathlib.Nat.{mul-le-mul_right}
use fynaos.Base.{ℕ, zero, suc, ◌+◌, ◌*◌, ◌%◌, ◌^◌, ◌≤◌, ◌<◌, ◌≡◌, ap, arith, true}
use fynaos.Multiboot.{FramebufferTag}
use fynaos.Drivers.Framebuffer.{pixel, visible}

-- A screen whose lines fit their pitch, at an aligned address, within 32 bits from its start and
-- below 2^64.
pub record IsFlat (info : FramebufferTag) : Type 0 where
  pub line_fits : info.width * 4 ≤ info.pitch
  pub line_words : info.pitch % 4 ≡ 0
  pub start_words : info.addr % 4 ≡ 0
  pub size_fits : info.height * info.pitch ≤ 2 ^ 32
  pub end_fits : info.addr + info.height * info.pitch ≤ 2 ^ 64

-- A line lies before the end of the screen.
line_inside : (y height pitch : ℕ) → y < height → y * pitch + pitch ≤ height * pitch
line_inside y height pitch h = omega (arith, mul-le-mul_right {m = suc y} {n = height} pitch h)

multiple : (y pitch : ℕ) → pitch % 4 ≡ 0 → (y * pitch) % 4 ≡ 0
multiple zero pitch h = omega arith
multiple (suc y) pitch h = omega (arith, multiple y pitch h, h)

-- A place determines its line.
same_line :
    (pitch x y x' y' : ℕ)
    → x * 4 + 4 ≤ pitch
    → x' * 4 + 4 ≤ pitch
    → y * pitch + x * 4 ≡ y' * pitch + x' * 4
    → y ≡ y'
same_line pitch x y x' y' hx hx' e = ground (arith, line_inside y y' pitch, line_inside y' y pitch)

module _ (info : FramebufferTag) (flat : IsFlat info) where
  -- No sum wraps at a pixel of the screen.
  pub pixel-place :
      (x y : ℕ)
      → x < info.width
      → y < info.height
      → pixel info x y ≡ info.addr + y * info.pitch + x * 4
  unfolding pixel
  pixel-place x y hx hy = omega (
    arith,
    line_inside y info.height info.pitch hy,
    flat.line_fits,
    flat.size_fits,
    flat.end_fits,
  )

  pub pixel-visible :
      (x y : ℕ) → x < info.width → y < info.height → visible info (pixel info x y) ≡ true
  pixel-visible x y hx hy = ground (
    arith,
    pixel-place x y hx hy,
    line_inside y info.height info.pitch hy,
    multiple y info.pitch flat.line_words,
    flat.line_fits,
    flat.start_words,
  )

  -- Different pixels have different addresses.
  pub pixel-apart :
      (x y x' y' : ℕ)
      → x < info.width
      → y < info.height
      → x' < info.width
      → y' < info.height
      → pixel info x y ≡ pixel info x' y'
      → (x ≡ x') × (y ≡ y')
  pixel-apart x y x' y' hx hy hx' hy' e =
      let line : y ≡ y' =
        same_line info.pitch x y x' y' (omega (arith, flat.line_fits))
          (omega (arith, flat.line_fits))
          (omega (arith, e, pixel-place x y hx hy, pixel-place x' y' hx' hy')) in
      (
        omega (
          arith,
          e,
          pixel-place x y hx hy,
          pixel-place x' y' hx' hy',
          ap (λ (t : ℕ). t * info.pitch) line,
        ),
        line,
      )
