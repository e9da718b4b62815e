-- ===== src/Rtl/Number/Printed.antt =====
-- print_number of rtl/snprintf.c as a whole: its number, its text and its place in the buffer.
use fynaos.Base.{
  ℕ, ◌+◌, ◌-◌, ◌^◌, ◌≤◌, ◌<◌, ◌≡◌, refl, ap, ◌∙◌, arith, Bool, ◌&&◌, leb, if◌then◌else◌, List,
  length, ok, u64, not64, Bool-cases, inl, inr,
}
use fynaos.Rtl.Number.{Out, Flags, print_number, print_text, number_text, base_of}
use fynaos.Rtl.Number.Digits.{read_from, number_text-reads}
use fynaos.Rtl.Number.Layout.{layout, padding, text_total, printed, print_text-printed}

-- whether the 64-bit pattern is printed with a '-'
abbrev pub is_negative : Flags → ℕ → Bool
is_negative f snumber = f.sign && leb (2 ^ 63) snumber

-- the absolute value of the number to print
abbrev pub magnitude : Flags → ℕ → ℕ → ℕ
magnitude f unumber snumber =
    if f.sign then if leb (2 ^ 63) snumber then 2 ^ 64 - snumber else snumber else unumber

base_of-bounds : (f : Flags) → (2 ≤ base_of f) × (base_of f ≤ 16)
unfolding base_of
base_of-bounds f = ground arith

magnitude-small :
    (f : Flags) (unumber snumber : ℕ)
    → unumber < 2 ^ 64
    → snumber < 2 ^ 64
    → magnitude f unumber snumber < 2 ^ 64
magnitude-small f unumber snumber h h' = ground arith

-- `~(uint64_t)snumber + 1` is the absolute value of a negative number.
negated : (n : ℕ) → 2 ^ 63 ≤ n → n < 2 ^ 64 → u64 (not64 n + 1) ≡ 2 ^ 64 - n
negated n h h' = omega arith

magnitude-is :
    (f : Flags) (unumber snumber : ℕ)
    → snumber < 2 ^ 64
    → (if f.sign
        then if leb (2 ^ 63) snumber then u64 (not64 snumber + 1) else snumber
        else unumber)
      ≡ magnitude f unumber snumber
magnitude-is f unumber snumber h = elim (Bool-cases (leb (2 ^ 63) snumber)) [
  | inl e ↦ rw (negated snumber (ground (arith, e)) h, e) refl
  | inr e ↦ rw e refl
]

print_number-text :
    (f : Flags) (width unumber snumber : ℕ) (o : Out)
    → snumber < 2 ^ 64
    → print_number f width unumber snumber o
      ≡ print_text f width
          (is_negative f snumber)
          (number_text f.lowercase (base_of f) (magnitude f unumber snumber))
          o
unfolding print_number
print_number-text f width unumber snumber o h =
    ap (λ n. print_text f width (is_negative f snumber) (number_text f.lowercase (base_of f) n) o)
      (magnitude-is f unumber snumber h)

-- The text of print_number: the digits `text` spell the absolute value of the number in the base of
-- the flags, and the field around them goes to the buffer.
abbrev pub IsPrinted : Flags → ℕ → ℕ → ℕ → Out → List ℕ → Type 0
IsPrinted f width unumber snumber o text =
    (read_from (base_of f) 0 text ≡ magnitude f unumber snumber)
    × (length text ≤ 64)
    × (print_number f width unumber snumber o
        ≡ ok (
          tt,
          printed
              (layout f (is_negative f snumber) text
                (padding (text_total (is_negative f snumber) text) width))
              o,
        ))

-- With a width below 2^31, 64-bit numbers and a pointer that is not below the buffer, print_number
-- returns. Some text of at most 64 digits spells the absolute value in the chosen base; the text
-- with its sign and its padding and a NUL are in the buffer where they fit, otherwise no byte
-- changes; the pointer moves on by the length of the field either way.
pub print_number-IsPrinted :
    (f : Flags) (width unumber snumber : ℕ) (o : Out)
    → width < 2 ^ 31
    → unumber < 2 ^ 64
    → snumber < 2 ^ 64
    → o.base ≤ o.at
    → (text : List ℕ) × IsPrinted f width unumber snumber o text
print_number-IsPrinted f width unumber snumber o hw hu hs above =
    let text = number_text f.lowercase (base_of f) (magnitude f unumber snumber) in
    let bounds = base_of-bounds f in
    let (value, short) =
      number_text-reads f.lowercase (base_of f) (magnitude f unumber snumber) bounds.0 bounds.1
        (magnitude-small f unumber snumber hu hs) in
    (
      text,
      (
        value,
        short,
        print_number-text f width unumber snumber o hs
            ∙ print_text-printed f width (is_negative f snumber) text o above hw
                (omega (arith, short)),
      ),
    )
