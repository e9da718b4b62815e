-- ===== src/Rtl/Snprintf/Conversions.antt =====
-- The conversions of vsnprintf of rtl/snprintf.c: the argument that each takes, and its output.
use fynaos.Base.{
  ℕ, ◌+◌, ◌^◌, ◌≤◌, ◌<◌, arith, true, ◌||◌, ltb, if◌then◌else◌, List, ◌∷◌, u8, u64, Bool-cases, inl,
  inr, Returns, returns, ◌==◌, M, pure, ◌>>◌,
}
use fynaos.Base.Run
use fynaos.Rtl.Number.{Out, Flags, write, advance, emit, print_number}
use fynaos.Rtl.Snprintf.{
  Arg, word, text, Len, len_hh, len_h, len_default, len_l, len_ll, extend_int, number_of, convert,
  print_unsigned, print_signed, print_char, print_string, print_pointer, print_unknown, word_arg,
  text_arg,
}
use fynaos.Rtl.Snprintf.Safe.{
  IsValid, IsSafe, then-IsSafe, after-IsValid, seq, write-IsSafe, advance-IsSafe,
  print_number-IsSafe, put_counted-IsSafe, put_text-IsSafe,
}

-- the argument that a conversion reads
pub data Kind : Type 0 where
  takes_text takes_char takes_word takes_none : Kind

abbrev pub kind : ℕ → Kind
kind c =
    if c == b's'
    then takes_text
    else if c == b'c'
    then takes_char
    else if c == b'd' || c == b'u' || c == b'x' || c == b'X' || c == b'o' || c == b'b' || c == b'p'
    then takes_word
    else takes_none

-- The arguments start with one of the kind.
pub data IsFit : Kind → List Arg → Type 0 where
  text_fit : {t : List ℕ} {r : List Arg} → IsFit takes_text (text t ∷ r)
  char_fit : {x : ℕ} {r : List Arg} → IsFit takes_char (word x ∷ r)
  word_fit : {x : ℕ} {r : List Arg} → IsFit takes_word (word x ∷ r)
  none_fit : {r : List Arg} → IsFit takes_none r

-- What is left of the arguments: `%c` takes its own only where there is room.
pub data IsRest : Kind → List Arg → List Arg → Type 0 where
  text_taken : {t : List ℕ} {r : List Arg} → IsRest takes_text (text t ∷ r) r
  char_taken : {x : ℕ} {r : List Arg} → IsRest takes_char (word x ∷ r) r
  char_kept : {r : List Arg} → IsRest takes_char r r
  word_taken : {x : ℕ} {r : List Arg} → IsRest takes_word (word x ∷ r) r
  none_taken : {r : List Arg} → IsRest takes_none r r

-- a run that takes an argument of the kind and stays in the buffer
abbrev pub Taken : Kind → Out → List Arg → Run.Result (List Arg × Out) → Type 0
Taken k o args r = Returns (λ rest t. IsSafe o t × IsRest k args rest) r

extend_int-small : (x : ℕ) → extend_int x < 2 ^ 64
unfolding extend_int
extend_int-small x = ground arith

number_of-small : (len : Len) (x : ℕ) → number_of len x < 2 ^ 64
unfolding number_of
number_of-small len_hh x = extend_int-small x
number_of-small len_h x = extend_int-small x
number_of-small len_default x = extend_int-small x
number_of-small len_l x = omega arith
number_of-small len_ll x = omega arith

-- a run that ends with the rest of the arguments
module _ {o : Out} {k : Kind} {args rest : List Arg} (left : IsRest k args rest) where
  left_over :
      {r : Run.Result (Unit {0} × Out)}
      → Returns (λ _. IsSafe o) r
      → Taken k o args (Run.and_then r (λ _. pure rest))
  left_over done = Run.bind done λ _ t safe. returns (safe, left)

-- a run that stays in the buffer, and one that takes the argument
onward :
    {o : Out} {k : Kind} {args : List Arg} {r : Run.Result (Unit {0} × Out)} {m : M Out (List Arg)}
    → Returns (λ _. IsSafe o) r
    → ((t : Out) → IsSafe o t → Taken k t args (m t))
    → Taken k o args (Run.and_then r (λ _. m))
onward first next =
    Run.bind first λ _ t a. Run.mono (next t a) λ rest u (b, left). (then-IsSafe a b, left)

-- two bytes at the pointer
write_two-IsSafe :
    (c d : ℕ) {o : Out}
    → IsValid o
    → o.at + 2 ≤ o.limit
    → Returns (λ _. IsSafe o) ((write o.at c >> write (o.at + 1) d) o)
write_two-IsSafe c d {o} v room = seq (write-IsSafe o.at c v.above (omega arith)) λ _ t a.
    write-IsSafe (o.at + 1) d (omega (arith, v.above, a.same_base))
      (omega (arith, room, a.same_limit))

print_unsigned-Taken :
    (f : Flags) (width : ℕ) (len : Len) {args : List Arg} {o : Out}
    → width < 2 ^ 31
    → IsValid o
    → IsFit takes_word args
    → Taken takes_word o args (print_unsigned f width len args o)
unfolding print_unsigned word_arg
print_unsigned-Taken f width len hw v (word_fit {x} {r}) =
    left_over word_taken
      (print_number-IsSafe f width (number_of len x) 0 hw (number_of-small len x) (omega arith) v)

print_signed-Taken :
    (f : Flags) (width : ℕ) (len : Len) {args : List Arg} {o : Out}
    → width < 2 ^ 31
    → IsValid o
    → IsFit takes_word args
    → Taken takes_word o args (print_signed f width len args o)
unfolding print_signed word_arg
print_signed-Taken f width len hw v (word_fit {x} {r}) = left_over word_taken (
    print_number-IsSafe (record f { sign = true }) width 0 (number_of len x) hw (omega arith)
      (number_of-small len x) v)

print_string-Taken :
    {args : List Arg} {o : Out}
    → IsValid o
    → IsFit takes_text args
    → Taken takes_text o args (print_string args o)
unfolding print_string text_arg
print_string-Taken v (text_fit {t}) = left_over text_taken (put_text-IsSafe t v)

print_char-Taken :
    {args : List Arg} {o : Out}
    → IsValid o
    → IsFit takes_char args
    → Taken takes_char o args (print_char args o)
unfolding print_char word_arg emit
print_char-Taken {o} v (char_fit {x} {r}) = elim (Bool-cases (ltb (o.at + 1) o.limit)) [
  | inl e ↦ rw e (
      left_over char_taken
        (seq (write-IsSafe o.at (u8 x) v.above (ground (arith, e))) λ _ t a. advance-IsSafe 1 t))
  | inr e ↦ rw e (left_over char_kept (advance-IsSafe 1 o))
]

print_unknown-Taken :
    (c : ℕ) {args : List Arg} {o : Out}
    → IsValid o
    → Taken takes_none o args (print_unknown c args o)
unfolding print_unknown
print_unknown-Taken c {args} {o} v = elim (Bool-cases (ltb (o.at + 3) o.limit)) [
  | inl e ↦ rw e (
      onward (write_two-IsSafe b'%' c v (ground (arith, e)))
        λ t a. left_over none_taken (advance-IsSafe 2 t))
  | inr e ↦ rw e (left_over none_taken (advance-IsSafe 2 o))
]

print_pointer-Taken :
    (f : Flags) (width : ℕ) {args : List Arg} {o : Out}
    → width < 2 ^ 31
    → IsValid o
    → IsFit takes_word args
    → Taken takes_word o args (print_pointer f width args o)
unfolding print_pointer word_arg
print_pointer-Taken f width {o = o} hw v (word_fit {x} {r}) =
    elim (Bool-cases (ltb (o.at + 2) o.limit)) [
      | inl e ↦ rw e (
          onward (prefix (ground (arith, e)))
            λ t a. left_over word_taken (number (after-IsValid v a)))
      | inr e ↦ rw e (left_over word_taken (number v))
    ]
  where
    prefix :
        o.at + 2 ≤ o.limit
        → Returns (λ _. IsSafe o) ((write o.at b'0' >> (write (o.at + 1) b'x' >> advance 2)) o)
    prefix room = seq (write-IsSafe o.at b'0' v.above (omega arith)) λ _ t a.
        seq
          (write-IsSafe (o.at + 1) b'x' (omega (arith, v.above, a.same_base))
            (omega (arith, room, a.same_limit)))
          λ _ u b. advance-IsSafe 2 u

    number :
        {t : Out}
        → IsValid t
        → Returns (λ _. IsSafe t) (print_number (record f { hex = true }) width (u64 x) 0 t)
    number w =
        print_number-IsSafe (record f { hex = true }) width (u64 x) 0 hw (omega arith) (omega arith)
          w

-- Every conversion returns, stays in the buffer and takes what its letter says.
pub convert-Taken :
    (c : ℕ) (f : Flags) (width : ℕ) (len : Len) {args : List Arg} {o : Out}
    → width < 2 ^ 31
    → IsValid o
    → IsFit (kind c) args
    → Taken (kind c) o args (convert c f width len args o)
unfolding convert
convert-Taken c f width len hw v = elim (Bool-cases (c == b's')) [
  | inl e ↦ rw e (λ fit. print_string-Taken v fit)
  | inr e ↦ rw e (elim (Bool-cases (c == b'c')) [
    | inl e ↦ rw e (λ fit. print_char-Taken v fit)
    | inr e ↦ rw e (elim (Bool-cases (c == b'd')) [
      | inl e ↦ rw e (λ fit. print_signed-Taken f width len hw v fit)
      | inr e ↦ rw e (elim (Bool-cases (c == b'u')) [
        | inl e ↦ rw e (λ fit. print_unsigned-Taken f width len hw v fit)
        | inr e ↦ rw e (elim (Bool-cases (c == b'x')) [
          | inl e ↦ rw e (λ fit.
              print_unsigned-Taken (record f { lowercase = true; hex = true }) width len hw v fit)
          | inr e ↦ rw e (elim (Bool-cases (c == b'X')) [
            | inl e ↦
                rw e (λ fit. print_unsigned-Taken (record f { hex = true }) width len hw v fit)
            | inr e ↦ rw e (elim (Bool-cases (c == b'o')) [
              | inl e ↦
                  rw e (λ fit. print_unsigned-Taken (record f { octa = true }) width len hw v fit)
              | inr e ↦ rw e (elim (Bool-cases (c == b'b')) [
                | inl e ↦
                    rw e (λ fit. print_unsigned-Taken (record f { bin = true }) width len hw v fit)
                | inr e ↦ rw e (elim (Bool-cases (c == b'p')) [
                  | inl e ↦ rw e (λ fit. print_pointer-Taken f width hw v fit)
                  | inr e ↦ rw e (elim (Bool-cases (c == b'%')) [
                    | inl e ↦ rw e (λ fit. left_over none_taken (put_counted-IsSafe b'%' v))
                    | inr e ↦ rw e (λ fit. print_unknown-Taken c v)
                  ])
                ])
              ])
            ])
          ])
        ])
      ])
    ])
  ])
]
