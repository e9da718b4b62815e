-- ===== src/Rtl/Snprintf/Tests.antt =====
-- Runs of vsnprintf at small inputs, and the theorems on rtl/ at one input each.
use Prim.Native.Char.{code}
use Prim.Native.String.{String}
use fynaos.Base.{ℕ, ◌+◌, zero, suc, ◌^◌, ◌-◌, ◌≡◌, refl, List, [], ◌∷◌, Result, ok}
use fynaos.Base.{
  Returns, inl, ◌⊎◌, ◌≤◌, ◌<◌, arith, true, length, leb, ltb, ◌&&◌, if◌then◌else◌, u8,
}
use fynaos.Rtl.Bytes.{memset, memcpy}
use fynaos.Rtl.Bytes.Copied.{memset-filled, memcpy-copied}
use fynaos.Rtl.Number.{Out, number_text, print_text}
use fynaos.Rtl.Number.Digits.{read_from, number_text-reads}
use fynaos.Rtl.Number.Layout.{layout, padding, printed, print_text-printed}
use fynaos.Rtl.Number.Printed.{IsPrinted, print_number-IsPrinted}
use fynaos.Rtl.Snprintf.{
  word, text, len_default, vsnprintf, no_flags, parse_flags, parse_width, parse_len,
}
use fynaos.Rtl.Snprintf.Conversions.{word_fit}
use fynaos.Rtl.Snprintf.Contained.{
  Spec, Typed, done, literal, specified, IsEnded, vsnprintf-IsContained,
}

abbrev codes : String → List ℕ
codes String.[] = []
codes (String.◌∷◌ c s) = code c ∷ codes s

abbrev blank : ℕ → ℕ
blank _ = 0

take_from : ℕ → ℕ → (ℕ → ℕ) → List ℕ
take_from zero p bytes = []
take_from (suc n) p bytes = bytes p ∷ take_from n (p + 1) bytes

output : Result (ℕ × Out) → ℕ × List ℕ
output (ok (n, o)) = (n, take_from n o.base o.bytes)
output _ = (999, [])

hex_padded :
    output (
      vsnprintf 100 64
        (codes "a=%04x %d|%-5u|%s")
        (word 0xbeef ∷ word (2 ^ 32 - 5) ∷ word 42 ∷ text (codes "ok") ∷ [])
        blank)
    ≡ (18, codes "a=beef -5|42   |ok")
unfolding output take_from vsnprintf
hex_padded = refl

-- `%u` of an int with the top bit set prints the sign-extended number.
wide_unsigned :
    output (vsnprintf 100 64 (codes "%u") (word 0xffff_ffff ∷ []) blank)
    ≡ (20, codes "18446744073709551615")
unfolding output take_from vsnprintf
wide_unsigned = refl

-- the specification of "%04x!"
hex_spec : Spec (codes "04x!")
unfolding parse_flags parse_width parse_len
hex_spec = record {
  flags = record no_flags { zeropad = true };
  after_flags = codes "4x!";
  width = 4;
  after_width = codes "x!";
  letter = b'x';
  rest = codes "!";
  len = len_default;
  has_flags = refl;
  has_width = refl;
  has_len = refl;
  bounded = omega arith;
}

hex-Typed : Typed (codes "%04x!") (word 0xbeef ∷ [])
unfolding hex_spec
hex-Typed = specified refl hex_spec word_fit λ rest left. literal refl done

vsnprintf-IsContained_example :
    Returns
      (λ _ t.
        ((i : ℕ) → (i < 100) ⊎ (100 + 4 ≤ i) → t.bytes i ≡ 0)
        × (t.base ≡ 100)
        × (t.limit ≡ 100 + 4)
        × IsEnded t)
      (vsnprintf 100 4 (codes "%04x!") (word 0xbeef ∷ []) blank)
vsnprintf-IsContained_example =
    vsnprintf-IsContained 100 4 blank (omega arith) (omega arith) hex-Typed

abbrev buffer : Out
buffer = record { bytes = blank; base = 100; limit = 164; at = 100 }

print_number-IsPrinted_example :
    (digits : List ℕ) × IsPrinted (record no_flags { sign = true }) 6 0 (2 ^ 64 - 42) buffer digits
print_number-IsPrinted_example =
    print_number-IsPrinted (record no_flags { sign = true }) 6 0 (2 ^ 64 - 42) buffer (omega arith)
      (omega arith) (omega arith) (omega arith)

print_text-printed_example :
    print_text no_flags 6 true (codes "42") buffer
    ≡ ok (tt, printed (layout no_flags true (codes "42") (padding 3 6)) buffer)
print_text-printed_example =
    print_text-printed no_flags 6 true (codes "42") buffer (omega arith) (omega arith) (omega arith)

number_text-reads_example :
    (read_from 16 0 (number_text true 16 0xbeef) ≡ 0xbeef)
    × (length (number_text true 16 0xbeef) ≤ 64)
number_text-reads_example =
    number_text-reads true 16 0xbeef (omega arith) (omega arith) (omega arith)

memset-filled_example :
    memset 8 0x1ff 2 blank 9 ≡ (if leb 8 9 && ltb 9 (8 + 2) then u8 0x1ff else 0)
memset-filled_example = memset-filled 8 0x1ff 2 blank 9

memcpy-copied_example :
    memcpy 8 12 4 (λ a. a) 9 ≡ (if leb 8 9 && ltb 9 (8 + 4) then 12 + (9 - 8) else 9)
memcpy-copied_example = memcpy-copied 8 12 4 (λ a. a) 9 (inl (omega arith))
