-- ===== src/Drivers/Framebuffer/Colors.antt =====
-- framebuffer_write and framebuffer_read of drivers/framebuffer.c: what a pixel shows.
use native.Mathlib.Nat.{mod-lt, mod-eq_of_lt}
use fynaos.Base.{
  ℕ, ◌+◌, ◌*◌, ◌/◌, ◌%◌, ◌^◌, ◌≤◌, ◌<◌, ◌≡◌, ◌≢◌, ◌⊎◌, inl, inr, ap, ◌∙◌, arith, bit_or, ok,
  Returns, returns, update, ◌>>◌, refl, eq→==, lt→ltb, ne→==,
}
use fynaos.Base.Bits.{pow-pos, or-zero, and_mask, or_low}
use fynaos.Base.Bits.Fields.{below_field, field, field-or, field-same, field-other, zero-or}
use fynaos.Multiboot.{FramebufferTag}
use fynaos.Drivers.Framebuffer.{
  Screen, pixel, load_pixel, store_pixel, shift_channel, channel, framebuffer_rgb, rgb_red,
  rgb_green, rgb_blue, framebuffer_write, framebuffer_read,
}
use fynaos.Drivers.Framebuffer.Addresses.{IsFlat, pixel-visible}

-- Two channels of 8 bits that have no bit in common.
abbrev pub Apart : ℕ → ℕ → Type 0
Apart p q = (p + 8 ≤ q) ⊎ (q + 8 ≤ p)

-- The channels lie within a word of 32 bits, each apart from the others.
pub record HasChannels (info : FramebufferTag) : Type 0 where
  pub red_fits : info.red_position + 8 ≤ 32
  pub green_fits : info.green_position + 8 ≤ 32
  pub blue_fits : info.blue_position + 8 ≤ 32
  pub red_green : Apart info.red_position info.green_position
  pub red_blue : Apart info.red_position info.blue_position
  pub green_blue : Apart info.green_position info.blue_position

-- the word that shows the colour
abbrev pub encode : FramebufferTag → ℕ → ℕ
encode info color =
    bit_or
      (bit_or (field 8 16 color * 2 ^ info.red_position)
        (field 8 8 color * 2 ^ info.green_position))
      (field 8 0 color * 2 ^ info.blue_position)

red-field : (color : ℕ) → rgb_red color ≡ field 8 16 color
unfolding rgb_red
red-field color = omega (arith, and_mask 8 (color / 2 ^ 16))

green-field : (color : ℕ) → rgb_green color ≡ field 8 8 color
unfolding rgb_green
green-field color = omega (arith, and_mask 8 (color / 2 ^ 8))

blue-field : (color : ℕ) → rgb_blue color ≡ field 8 0 color
unfolding rgb_blue
blue-field color = omega (arith, and_mask 8 color)

-- A byte that is shifted within a word does not wrap.
shift_channel-ok :
    (v p : ℕ) (s : Screen) → v < 2 ^ 8 → p + 8 ≤ 32 → shift_channel v p s ≡ ok (v * 2 ^ p, s)
unfolding shift_channel
shift_channel-ok v p s hv hp =
    rw (lt→ltb p 32 (omega (arith, hp)))
      (ap (λ (t : ℕ). ok (t, s)) (mod-eq_of_lt (below_field 8 32 p v hv hp)))

-- A field of a word comes out of its channel.
channel-ok : (word p : ℕ) (s : Screen) → p + 8 ≤ 32 → channel word p s ≡ ok (field 8 p word, s)
unfolding channel
channel-ok word p s hp =
    rw (lt→ltb p 32 (omega (arith, hp)), and_mask 8 (word / 2 ^ p))
      (ap (λ (t : ℕ). ok (t, s)) (mod-eq_of_lt (mod-lt (word / 2 ^ p) (pow-pos 8))))

rgb_parts :
    (red green blue : ℕ)
    → red < 2 ^ 8
    → green < 2 ^ 8
    → blue < 2 ^ 8
    → framebuffer_rgb red green blue ≡ red * 2 ^ 16 + green * 2 ^ 8 + blue
unfolding framebuffer_rgb
rgb_parts red green blue hr hg hb =
    rw
      (
        mod-eq_of_lt hr,
        mod-eq_of_lt hg,
        mod-eq_of_lt hb,
        or_low 16 red (green * 2 ^ 8) (omega (arith, hg)),
      )
      (let e : red * 2 ^ 16 + green * 2 ^ 8 ≡ (red * 2 ^ 8 + green) * 2 ^ 8 = omega arith in
        rw e (or_low 8 (red * 2 ^ 8 + green) blue hb))

-- the colour that three bytes make
rgb-sum :
    (color : ℕ)
    → framebuffer_rgb (field 8 16 color) (field 8 8 color) (field 8 0 color) ≡ color % 2 ^ 24
rgb-sum color = omega (
  arith,
  rgb_parts (field 8 16 color) (field 8 8 color) (field 8 0 color) (mod-lt _ (pow-pos 8))
      (mod-lt _ (pow-pos 8)) (mod-lt _ (pow-pos 8)),
)

module _ (s : Screen) (flat : IsFlat s.info) (channels : HasChannels s.info) where
  pub framebuffer_write-ok :
      (color x y : ℕ)
      → x < s.info.width
      → y < s.info.height
      → framebuffer_write color x y s
        ≡ ok (tt, record s { mem = update s.mem (pixel s.info x y) (encode s.info color) })
  unfolding framebuffer_write store_pixel
  framebuffer_write-ok color x y hx hy =
      rw
        (
          red-field color,
          green-field color,
          blue-field color,
          shift_channel-ok (field 8 16 color) s.info.red_position s (mod-lt _ (pow-pos 8))
              channels.red_fits,
          shift_channel-ok (field 8 8 color) s.info.green_position s (mod-lt _ (pow-pos 8))
              channels.green_fits,
          shift_channel-ok (field 8 0 color) s.info.blue_position s (mod-lt _ (pow-pos 8))
              channels.blue_fits,
          pixel-visible s.info flat x y hx hy,
        )
        refl

other_way : {p q : ℕ} → Apart p q → Apart q p
other_way (inl h) = inr h
other_way (inr h) = inl h

-- The field at `k` of three bytes put at `i`, `j` and `l`.
field-three :
    (k i j l u v w : ℕ)
    → field 8 k (bit_or (bit_or (u * 2 ^ i) (v * 2 ^ j)) (w * 2 ^ l))
      ≡ bit_or (bit_or (field 8 k (u * 2 ^ i)) (field 8 k (v * 2 ^ j))) (field 8 k (w * 2 ^ l))
field-three k i j l u v w =
    field-or 8 k (bit_or (u * 2 ^ i) (v * 2 ^ j)) (w * 2 ^ l)
    ∙ ap (λ (t : ℕ). bit_or t (field 8 k (w * 2 ^ l))) (field-or 8 k (u * 2 ^ i) (v * 2 ^ j))

-- The word that shows a colour holds each of its bytes in the byte's channel.
module _ (info : FramebufferTag) (c : HasChannels info) (color : ℕ) where
  byte : (k : ℕ) → field 8 k color < 2 ^ 8
  byte k = mod-lt (color / 2 ^ k) (pow-pos 8)

  away : (k p q : ℕ) → Apart p q → field 8 q (field 8 k color * 2 ^ p) ≡ 0
  away k p q h = field-other 8 q p (field 8 k color) (byte k) h

  decode_red : field 8 info.red_position (encode info color) ≡ field 8 16 color
  decode_red =
      field-three info.red_position info.red_position info.green_position info.blue_position _ _ _
      ∙ rw
          (
            field-same 8 info.red_position (field 8 16 color) (byte 16),
            away 8 info.green_position info.red_position (other_way c.red_green),
            away 0 info.blue_position info.red_position (other_way c.red_blue),
          )
          (or-zero _ ∙ or-zero _)

  decode_green : field 8 info.green_position (encode info color) ≡ field 8 8 color
  decode_green =
      field-three info.green_position info.red_position info.green_position info.blue_position _ _ _
      ∙ rw
          (
            away 16 info.red_position info.green_position c.red_green,
            field-same 8 info.green_position (field 8 8 color) (byte 8),
            away 0 info.blue_position info.green_position (other_way c.green_blue),
          )
          (or-zero _ ∙ zero-or _)

  decode_blue : field 8 info.blue_position (encode info color) ≡ field 8 0 color
  decode_blue =
      field-three info.blue_position info.red_position info.green_position info.blue_position _ _ _
      ∙ rw
          (
            away 16 info.red_position info.blue_position c.red_blue,
            away 8 info.green_position info.blue_position c.green_blue,
            field-same 8 info.blue_position (field 8 0 color) (byte 0),
          )
          (zero-or _)

-- Where the screen is flat and its channels are apart, a colour that is written to a pixel of the
-- screen is read back, without the bits from 24 up; the description of the screen and every word but
-- that of the pixel are as before, and neither run faults.
pub framebuffer_read-framebuffer_write :
    (s : Screen) (color x y : ℕ)
    → IsFlat s.info
    → HasChannels s.info
    → x < s.info.width
    → y < s.info.height
    → Returns
        (λ c t.
          (c ≡ color % 2 ^ 24)
          × (t.info ≡ s.info)
          × ((a : ℕ) → a ≢ pixel s.info x y → t.mem a ≡ s.mem a))
        ((framebuffer_write color x y >> framebuffer_read x y) s)
unfolding framebuffer_read load_pixel
framebuffer_read-framebuffer_write s color x y flat c hx hy =
    rw
      (
        framebuffer_write-ok s flat c color x y hx hy,
        pixel-visible s.info flat x y hx hy,
        eq→== (pixel s.info x y) (pixel s.info x y) refl,
        channel-ok (encode s.info color) s.info.red_position _ c.red_fits,
        channel-ok (encode s.info color) s.info.green_position _ c.green_fits,
        channel-ok (encode s.info color) s.info.blue_position _ c.blue_fits,
        decode_red s.info c color,
        decode_green s.info c color,
        decode_blue s.info c color,
      )
      (returns (rgb-sum color, refl, λ a h. rw (ne→== a (pixel s.info x y) h) refl))
