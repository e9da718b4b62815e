-- ===== src/Rtl/Number.antt =====
-- print_number of rtl/snprintf.c. The output is an object of bytes from `base` to `limit`, in which
-- `at` is the buffer pointer; `at` may pass `limit`, and a write outside the object is a `fault`.
pub mod Digits
pub mod Layout
pub mod Printed
use fynaos.Base.{
  ℕ, zero, suc, ◌+◌, ◌-◌, ◌*◌, ◌/◌, ◌%◌, ◌^◌, Bool, true, false, ◌&&◌, not, ltb, leb, ◌==◌,
  if◌then◌else◌, update, u32, u64, not64, sub32, List, [], ◌∷◌, length, M, ok, fault, out_of_fuel,
  pure, get, modify, ◌>>=◌, ◌>>◌,
}
use mathlib.Core.List.{reverse}

pub record Out : Type 0 where
  pub bytes : ℕ → ℕ
  pub base : ℕ
  pub limit : ℕ
  pub at : ℕ

-- ZEROPAD, LEFTALIGN, SIGN, LOWERCASE, HEX, OCTA and BIN
pub record Flags : Type 0 where
  pub zeropad : Bool
  pub leftalign : Bool
  pub sign : Bool
  pub lowercase : Bool
  pub hex : Bool
  pub octa : Bool
  pub bin : Bool

-- `*p = c`
unfoldable pub write : ℕ → ℕ → M Out (Unit {0})
write p c o =
    if leb o.base p && ltb p o.limit
    then ok (tt, record o { bytes = update o.bytes p c })
    else fault

-- `buffer += n`
unfoldable pub advance : ℕ → M Out (Unit {0})
advance n o = ok (tt, record o { at = o.at + n })

-- `*buffer++ = c`
unfoldable pub emit : ℕ → M Out (Unit {0})
unfolding write advance
emit c = do o ← get; write o.at c; advance 1

-- `while (tmplen--) *buffer++ = *tmphead++;`
pub emit_all : List ℕ → M Out (Unit {0})
unfolding emit
emit_all [] = pure tt
emit_all (c ∷ cs) = do emit c; emit_all cs

-- `while (pad--) *buffer++ = fill;`
pub emit_fill : ℕ → ℕ → M Out (Unit {0})
unfolding emit
emit_fill zero fill = pure tt
emit_fill (suc pad) fill = do emit fill; emit_fill pad fill

unfoldable pub base_of : Flags → ℕ
base_of f = if f.hex then 16 else if f.octa then 8 else if f.bin then 2 else 10

-- `digits[d]`
unfoldable pub digit : Bool → ℕ → ℕ
digit lowercase d =
    if ltb d 10 then b'0' + d else if lowercase then b'a' + (d - 10) else b'A' + (d - 10)

-- The loop `while (unumber)`, lowest digit first. A 64-bit number has at most 64 digits.
digits_loop : ℕ → Bool → ℕ → ℕ → List ℕ
digits_loop zero lowercase base n = []
digits_loop (suc fuel) lowercase base zero = []
digits_loop (suc fuel) lowercase base (suc n) =
    digit lowercase (suc n % base) ∷ digits_loop fuel lowercase base (suc n / base)

-- `tmp` after the reversal
unfoldable pub number_text : Bool → ℕ → ℕ → List ℕ
unfolding digits_loop digit
number_text lowercase base n =
    if n == 0 then b'0' ∷ [] else reverse (digits_loop 64 lowercase base n)

-- the sign, the digits and the padding in their order
unfoldable pub print_padded : Flags → Bool → List ℕ → ℕ → M Out (Unit {0})
unfolding emit emit_all emit_fill
print_padded f negative text pad =
    if f.leftalign
    then (do (if negative then emit b'-' else pure tt); emit_all text; emit_fill pad b' ')
    else if not f.zeropad
    then (do emit_fill pad b' '; (if negative then emit b'-' else pure tt); emit_all text)
    else (do (if negative then emit b'-' else pure tt); emit_fill pad b'0'; emit_all text)

-- the part behind the conversion: `pad`, `total` and the test of the room
unfoldable pub print_text : Flags → ℕ → Bool → List ℕ → M Out (Unit {0})
unfolding print_padded advance write
print_text f width negative text = do
  let total = u32 (length text + (if negative then 1 else 0))
  let pad = if ltb total width then width - total else 0
  o ← get
  if ltb o.at o.limit && leb (u32 (pad + total + 1)) (o.limit - o.at)
      then print_padded f negative text pad
      else advance (u32 (pad + length text + (if negative then 1 else 0)))
  o' ← get
  if ltb o'.at o'.limit then write o'.at 0 else pure tt

-- `snumber` is the 64-bit pattern of a signed number.
unfoldable pub print_number : Flags → ℕ → ℕ → ℕ → M Out (Unit {0})
unfolding print_text number_text base_of
print_number f width unumber snumber =
    let negative = f.sign && leb (2 ^ 63) snumber in
    let n =
      if f.sign
      then if leb (2 ^ 63) snumber then u64 (not64 snumber + 1) else snumber
      else unumber in
    print_text f width negative (number_text f.lowercase (base_of f) n)
