-- ===== src/Rtl/Snprintf.antt =====
-- vsnprintf of rtl/snprintf.c. The format is the bytes before its NUL; the arguments are a list, in
-- which a number is a 64-bit slot. An argument that is missing or of the other kind is a `fault`, and
-- so is a read behind the NUL of the format.
pub mod Contained
pub mod Literal
pub mod Conversions
pub mod Safe
mod Tests
use fynaos.Base.{
  ℕ, zero, suc, ◌+◌, ◌-◌, ◌*◌, ◌^◌, Bool, true, false, ◌&&◌, ◌||◌, not, ltb, leb, ◌==◌,
  if◌then◌else◌, u8, u32, u64, List, [], ◌∷◌, length, M, ok, fault, out_of_fuel, pure, undefined,
  get, Result, sub64, ◌>>=◌, ◌>>◌,
}
use fynaos.Rtl.Number.{Out, Flags, write, advance, emit, print_number}

pub data Arg : Type 0 where
  word : ℕ → Arg
  text : List ℕ → Arg

-- LEN_HH, LEN_H, LEN_DEFAULT, LEN_L and LEN_LL
pub data Len : Type 0 where
  len_hh len_h len_default len_l len_ll : Len

abbrev pub no_flags : Flags
no_flags = record {
  zeropad = false;
  leftalign = false;
  sign = false;
  lowercase = false;
  hex = false;
  octa = false;
  bin = false;
}

-- `for (;; format++) switch (*format)`
unfoldable pub parse_flags : Flags → List ℕ → Flags × List ℕ
parse_flags f [] = (f, [])
parse_flags f (c ∷ cs) = elim (c == b'0') [
  | true ↦ parse_flags (record f { zeropad = true }) cs
  | false ↦ elim (c == b'-') [
    | true ↦ parse_flags (record f { leftalign = true }) cs
    | false ↦ (f, c ∷ cs)
  ]
]

unfoldable pub parse_width : ℕ → List ℕ → ℕ × List ℕ
parse_width width [] = (width, [])
parse_width width (c ∷ cs) = elim (leb b'0' c && leb c b'9') [
  | true ↦ parse_width (u32 (width * 10 + (c - b'0'))) cs
  | false ↦ (width, c ∷ cs)
]

-- the second letter of a length, `one` where it is missing
second : ℕ → Len → Len → List ℕ → Len × List ℕ
second letter one two [] = (one, [])
second letter one two (c ∷ cs) = if c == letter then (two, cs) else (one, c ∷ cs)

unfoldable pub parse_len : List ℕ → Len × List ℕ
unfolding second
parse_len [] = (len_default, [])
parse_len (c ∷ cs) =
    if c == b'l'
    then second b'l' len_l len_ll cs
    else if c == b'h'
    then second b'h' len_h len_hh cs
    else (len_default, c ∷ cs)

-- An `int` as the 64-bit pattern that a cast to a 64-bit type gives.
unfoldable pub extend_int : ℕ → ℕ
extend_int x = if ltb (u32 x) (2 ^ 31) then u32 x else u32 x + (2 ^ 64 - 2 ^ 32)

-- `va_arg(args, int)` or `va_arg(args, long long)` by the length
unfoldable pub number_of : Len → ℕ → ℕ
unfolding extend_int
number_of len_hh x = extend_int x
number_of len_h x = extend_int x
number_of len_default x = extend_int x
number_of len_l x = u64 x
number_of len_ll x = u64 x

unfoldable pub word_arg : List Arg → M Out (ℕ × List Arg)
word_arg [] = undefined
word_arg (word x ∷ args) = pure (x, args)
word_arg (text t ∷ args) = undefined

unfoldable pub text_arg : List Arg → M Out (List ℕ × List Arg)
text_arg [] = undefined
text_arg (word x ∷ args) = undefined
text_arg (text t ∷ args) = pure (t, args)

-- `if (buffer + 1 < limit) *buffer = c; buffer++;`
unfoldable pub put_counted : ℕ → M Out (Unit {0})
unfolding write advance
put_counted c = do o ← get; if ltb (o.at + 1) o.limit then write o.at c else pure tt; advance 1

unfoldable pub put_text : List ℕ → M Out (Unit {0})
unfolding put_counted
put_text [] = pure tt
put_text (c ∷ cs) = do put_counted c; put_text cs

-- the cases `u`, `x`, `X`, `o` and `b`
unfoldable pub print_unsigned : Flags → ℕ → Len → List Arg → M Out (List Arg)
unfolding word_arg number_of print_number
print_unsigned f width len args = do
  (x, rest) ← word_arg args
  print_number f width (number_of len x) 0
  pure rest

unfoldable pub print_signed : Flags → ℕ → Len → List Arg → M Out (List Arg)
unfolding word_arg number_of print_number
print_signed f width len args = do
  (x, rest) ← word_arg args
  print_number (record f { sign = true }) width 0 (number_of len x)
  pure rest

-- Without room the argument is not taken.
unfoldable pub print_char : List Arg → M Out (List Arg)
unfolding word_arg emit advance
print_char args = do
  o ← get
  if ltb (o.at + 1) o.limit
      then (do (x, rest) ← word_arg args; emit (u8 x); pure rest)
      else (do advance 1; pure args)

unfoldable pub print_string : List Arg → M Out (List Arg)
unfolding text_arg put_text
print_string args = do (t, rest) ← text_arg args; put_text t; pure rest

unfoldable pub print_pointer : Flags → ℕ → List Arg → M Out (List Arg)
unfolding word_arg write advance print_number
print_pointer f width args = do
  o ← get
  if ltb (o.at + 2) o.limit then (do write o.at b'0'; write (o.at + 1) b'x'; advance 2) else pure tt
  (x, rest) ← word_arg args
  print_number (record f { hex = true }) width (u64 x) 0
  pure rest

-- the `default` case
unfoldable pub print_unknown : ℕ → List Arg → M Out (List Arg)
unfolding write advance
print_unknown c args = do
  o ← get
  if ltb (o.at + 3) o.limit then (do write o.at b'%'; write (o.at + 1) c) else pure tt
  advance 2
  pure args

-- `switch (*format)` behind the length
unfoldable pub convert : ℕ → Flags → ℕ → Len → List Arg → M Out (List Arg)
unfolding print_string print_char print_signed print_unsigned print_pointer print_unknown
    put_counted
convert c f width len args =
    if c == b's'
    then print_string args
    else if c == b'c'
    then print_char args
    else if c == b'd'
    then print_signed f width len args
    else if c == b'u'
    then print_unsigned f width len args
    else if c == b'x'
    then print_unsigned (record f { lowercase = true; hex = true }) width len args
    else if c == b'X'
    then print_unsigned (record f { hex = true }) width len args
    else if c == b'o'
    then print_unsigned (record f { octa = true }) width len args
    else if c == b'b'
    then print_unsigned (record f { bin = true }) width len args
    else if c == b'p'
    then print_pointer f width args
    else if c == b'%'
    then (do put_counted b'%'; pure args)
    else print_unknown c args

-- The conversion at the head of the rest. At the NUL the `default` case runs, and the loop then goes
-- on behind the NUL.
unfoldable pub convert_head : Flags → ℕ → Len → List ℕ → List Arg → M Out (List ℕ × List Arg)
unfolding convert
convert_head f width len [] args = undefined
convert_head f width len (c ∷ cs) args = do rest ← convert c f width len args; pure (cs, rest)

-- a specification behind its '%': the rest of the format and of the arguments
unfoldable pub directive : List ℕ → List Arg → M Out (List ℕ × List Arg)
unfolding parse_flags parse_width parse_len convert_head
directive format args =
    let (f, after_flags) = parse_flags no_flags format in
    let (width, after_width) = parse_width 0 after_flags in
    let (len, after_len) = parse_len after_width in convert_head f width len after_len args

-- `if (buffer + 1 < limit) *buffer++ = *format;`
unfoldable pub put_literal : ℕ → M Out (Unit {0})
unfolding emit
put_literal c = do o ← get; if ltb (o.at + 1) o.limit then emit c else pure tt

-- The loop over the format; each round takes a byte of it, so its length bounds the rounds.
pub format_loop : ℕ → List ℕ → List Arg → M Out (Unit {0})
format_loop fuel [] args = pure tt
format_loop zero (c ∷ cs) args = λ _. out_of_fuel
format_loop (suc fuel) (c ∷ cs) args = elim (c == b'%') [
  | true ↦ do (format, rest) ← directive cs args; format_loop fuel format rest
  | false ↦ do put_literal c; format_loop fuel cs args
]

-- the terminator, and the result
unfoldable pub finish : M Out ℕ
unfolding write
finish = do
  o ← get
  if ltb o.at o.limit then write o.at 0 else write (sub64 o.limit 1) 0
  pure (o.at - o.base)

-- `vsnprintf(buffer, length, format, args)` over the bytes of memory.
unfoldable pub vsnprintf : ℕ → ℕ → List ℕ → List Arg → (ℕ → ℕ) → Result (ℕ × Out)
unfolding format_loop finish directive put_literal
vsnprintf buffer size format args bytes =
    (format_loop (length format) format args >>= λ _. finish)
      (record { bytes = bytes; base = buffer; limit = buffer + size; at = buffer })
