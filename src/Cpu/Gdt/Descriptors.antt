-- ===== src/Cpu/Gdt/Descriptors.antt =====
-- The descriptors of cpu/gdt.c as the processor reads them.
use fynaos.Base.{
  ℕ, ◌+◌, ◌*◌, ◌/◌, ◌%◌, ◌^◌, ◌<◌, ◌≡◌, refl, arith, u64, bit_and, bit_or, ◌<<<◌, ◌==◌,
  if◌then◌else◌,
}
use fynaos.Base.Bits.Fields.{field, and_field, or_high}
use fynaos.Cpu.Gdt.{make_gdte}

-- the fields of a descriptor of a segment, where the processor looks for them
abbrev pub segment_base : ℕ → ℕ
segment_base d = field 16 16 d + field 8 32 d * 2 ^ 16 + field 8 56 d * 2 ^ 24

abbrev pub segment_limit : ℕ → ℕ
segment_limit d = field 16 0 d + field 4 48 d * 2 ^ 16

abbrev pub segment_access : ℕ → ℕ
segment_access d = field 8 40 d

abbrev pub segment_flags : ℕ → ℕ
segment_flags d = field 4 52 d

-- the last byte of a segment: bit 55 makes the limit a number of pages
abbrev pub segment_last : ℕ → ℕ
segment_last d = if field 1 55 d == 1 then segment_limit d * 2 ^ 12 + 0xFFF else segment_limit d

limit_low : (limit : ℕ) → u64 (bit_and limit 0xFFFF <<< 0) ≡ limit % 2 ^ 16
limit_low limit = omega (arith, and_field 16 0 limit)

base_low : (base : ℕ) → u64 (bit_and base 0xFFFF <<< 16) ≡ base % 2 ^ 16 * 2 ^ 16
base_low base = omega (arith, and_field 16 0 base)

base_middle : (base : ℕ) → u64 (bit_and base 0xFF0000 <<< 16) ≡ base / 2 ^ 16 % 2 ^ 8 * 2 ^ 32
base_middle base = omega (arith, and_field 8 16 base)

access_part : (access : ℕ) → u64 (bit_and access 0xFF <<< 40) ≡ access % 2 ^ 8 * 2 ^ 40
access_part access = omega (arith, and_field 8 0 access)

limit_high : (limit : ℕ) → u64 (bit_and limit 0xF0000 <<< 32) ≡ limit / 2 ^ 16 % 2 ^ 4 * 2 ^ 48
limit_high limit = omega (arith, and_field 4 16 limit)

flags_part : (flags : ℕ) → u64 (bit_and flags 0xF <<< 52) ≡ flags % 2 ^ 4 * 2 ^ 52
flags_part flags = omega (arith, and_field 4 0 flags)

base_high : (base : ℕ) → u64 (bit_and base 0xFF000000 <<< 32) ≡ base / 2 ^ 24 % 2 ^ 8 * 2 ^ 56
base_high base = omega (arith, and_field 8 24 base)

parts_sum :
    (a b c d e f g : ℕ)
    → a < 2 ^ 16
    → b < 2 ^ 16
    → c < 2 ^ 8
    → d < 2 ^ 8
    → e < 2 ^ 4
    → f < 2 ^ 4
    → bit_or
        (bit_or
          (bit_or (bit_or (bit_or (bit_or a (b * 2 ^ 16)) (c * 2 ^ 32)) (d * 2 ^ 40)) (e * 2 ^ 48))
          (f * 2 ^ 52))
        (g * 2 ^ 56)
      ≡ a + b * 2 ^ 16 + c * 2 ^ 32 + d * 2 ^ 40 + e * 2 ^ 48 + f * 2 ^ 52 + g * 2 ^ 56
parts_sum a b c d e f g ha hb hc hd he hf =
    let s1 = a + b * 2 ^ 16 in
    let s2 = s1 + c * 2 ^ 32 in
    let s3 = s2 + d * 2 ^ 40 in
    let s4 = s3 + e * 2 ^ 48 in
    let s5 = s4 + f * 2 ^ 52 in
    rw
      (
        or_high 16 a b ha,
        or_high 32 s1 c (omega arith),
        or_high 40 s2 d (omega arith),
        or_high 48 s3 e (omega arith),
        or_high 52 s4 f (omega arith),
      )
      (or_high 56 s5 g (omega arith))

-- The parts of a descriptor do not overlap, so that `|` adds them.
gdte_sum :
    (base limit access flags : ℕ)
    → make_gdte base limit access flags
      ≡ limit % 2 ^ 16
        + base % 2 ^ 16 * 2 ^ 16
        + base / 2 ^ 16 % 2 ^ 8 * 2 ^ 32
        + access % 2 ^ 8 * 2 ^ 40
        + limit / 2 ^ 16 % 2 ^ 4 * 2 ^ 48
        + flags % 2 ^ 4 * 2 ^ 52
        + base / 2 ^ 24 % 2 ^ 8 * 2 ^ 56
unfolding make_gdte
gdte_sum base limit access flags =
    rw
      (
        limit_low limit,
        base_low base,
        base_middle base,
        access_part access,
        limit_high limit,
        flags_part flags,
        base_high base,
      )
      (parts_sum (limit % 2 ^ 16) (base % 2 ^ 16) (base / 2 ^ 16 % 2 ^ 8) (access % 2 ^ 8)
        (limit / 2 ^ 16 % 2 ^ 4) (flags % 2 ^ 4) (base / 2 ^ 24 % 2 ^ 8) (omega arith) (omega arith)
        (omega arith) (omega arith) (omega arith) (omega arith))

-- The processor reads from a descriptor of MAKE_GDTE the base, the limit, the access byte and the
-- flags that it was made of, where these fit the 32, 20, 8 and 4 bits that they have.
pub make_gdte-fields :
    (base limit access flags : ℕ)
    → base < 2 ^ 32
    → limit < 2 ^ 20
    → access < 2 ^ 8
    → flags < 2 ^ 4
    → (segment_base (make_gdte base limit access flags) ≡ base)
      × (segment_limit (make_gdte base limit access flags) ≡ limit)
      × (segment_access (make_gdte base limit access flags) ≡ access)
      × (segment_flags (make_gdte base limit access flags) ≡ flags)
make_gdte-fields base limit access flags hb hl ha hf =
    rw (gdte_sum base limit access flags) (omega arith, omega arith, omega arith, omega arith)

-- A descriptor, field by field.
pub record IsSegment (d base last access flags : ℕ) : Type 0 where
  pub has_base : segment_base d ≡ base
  pub has_last : segment_last d ≡ last
  pub has_access : segment_access d ≡ access
  pub has_flags : segment_flags d ≡ flags

pub make_gdte-IsSegment :
    (base limit access flags : ℕ)
    → base < 2 ^ 32
    → limit < 2 ^ 20
    → access < 2 ^ 8
    → flags < 2 ^ 4
    → IsSegment
        (make_gdte base limit access flags)
        base
        (if flags / 8 == 1 then limit * 2 ^ 12 + 0xFFF else limit)
        access
        flags
make_gdte-IsSegment base limit access flags hb hl ha hf =
    let (b, l, a, f) = make_gdte-fields base limit access flags hb hl ha hf in
    let top : field 1 55 (make_gdte base limit access flags) ≡ flags / 8 = omega (arith, f, hf) in
    record { has_base = b; has_last = rw (l, top) refl; has_access = a; has_flags = f }
