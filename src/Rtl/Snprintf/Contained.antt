-- ===== src/Rtl/Snprintf/Contained.antt =====
-- vsnprintf of rtl/snprintf.c as a whole: its loop over the format, and the NUL at the end.
use fynaos.Base.{
  ℕ, zero, suc, ◌+◌, ◌-◌, ◌*◌, ◌^◌, ◌≤◌, ◌<◌, ◌≡◌, ◌⊎◌, refl, ap, arith, true, false, ◌&&◌, ltb,
  leb, List, [], ◌∷◌, length, ok, u32, sub64, Bool-cases, inl, inr, Returns, returns, ◌==◌, ◌>>=◌,
}
use fynaos.Base.Run
use fynaos.Rtl.Number.{Out, Flags, write}
use fynaos.Rtl.Snprintf.{
  Arg, Len, len_h, len_hh, len_l, len_ll, no_flags, parse_flags, parse_width, parse_len, second,
  convert_head, directive, format_loop, finish, vsnprintf,
}
use fynaos.Rtl.Snprintf.Conversions.{kind, IsFit, IsRest, convert-Taken}
use fynaos.Rtl.Snprintf.Safe.{
  IsValid, IsSafe, still-IsSafe, then-IsSafe, after-IsValid, put_literal-IsSafe, write-run,
  written-IsSafe,
}

-- the parts of a conversion specification, from behind its '%' to the rest of the format
pub record Spec (format : List ℕ) : Type 0 where
  pub flags : Flags
  pub after_flags : List ℕ
  pub width : ℕ
  pub after_width : List ℕ
  pub len : Len
  pub letter : ℕ
  pub rest : List ℕ
  pub has_flags : parse_flags no_flags format ≡ (flags, after_flags)
  pub has_width : parse_width 0 after_flags ≡ (width, after_width)
  pub has_len : parse_len after_width ≡ (len, letter ∷ rest)
  pub bounded : width < 2 ^ 31

-- The arguments are those that the format names: each specification is whole, its width is below
-- 2^31, and an argument of its kind is there, whatever was taken before.
pub data Typed : List ℕ → List Arg → Type 0 where
  done : {args : List Arg} → Typed [] args
  literal :
      {c : ℕ} {format : List ℕ} {args : List Arg}
      → (c == b'%') ≡ false
      → Typed format args
      → Typed (c ∷ format) args
  specified :
      {c : ℕ} {format : List ℕ} {args : List Arg}
      → (c == b'%') ≡ true
      → (spec : Spec format) → IsFit (kind spec.letter) args
      → ((rest : List Arg) → IsRest (kind spec.letter) args rest → Typed spec.rest rest)
      → Typed (c ∷ format) args

length-parse_flags : (f : Flags) (format : List ℕ) → length (parse_flags f format).1 ≤ length format
unfolding parse_flags
length-parse_flags f [] = omega arith
length-parse_flags f (c ∷ cs) = elim (Bool-cases (c == b'0')) [
  | inl e ↦ rw (e, parse_flags) (omega (arith, length-parse_flags (record f { zeropad = true }) cs))
  | inr e ↦
      rw (e, parse_flags)
        (elim (Bool-cases (c == b'-')) [
          | inl e' ↦ rw e' (omega (arith, length-parse_flags (record f { leftalign = true }) cs))
          | inr e' ↦ rw e' (omega arith)
        ])
]

length-parse_width : (w : ℕ) (format : List ℕ) → length (parse_width w format).1 ≤ length format
unfolding parse_width
length-parse_width w [] = omega arith
length-parse_width w (c ∷ cs) = elim (Bool-cases (leb b'0' c && leb c b'9')) [
  | inl e ↦ rw (e, parse_width) (omega (arith, length-parse_width (u32 (w * 10 + (c - b'0'))) cs))
  | inr e ↦ rw (e, parse_width) (omega arith)
]

length-second :
    (c : ℕ) (one two : Len) (format : List ℕ) → length (second c one two format).1 ≤ length format
unfolding second
length-second c one two [] = omega arith
length-second c one two (d ∷ cs) = elim (Bool-cases (d == c)) [
  | inl e ↦ rw e (omega arith)
  | inr e ↦ rw e (omega arith)
]

length-parse_len : (format : List ℕ) → length (parse_len format).1 ≤ length format
unfolding parse_len
length-parse_len [] = omega arith
length-parse_len (c ∷ cs) = elim (Bool-cases (c == b'l')) [
  | inl e ↦ rw e (omega (arith, length-second b'l' len_l len_ll cs))
  | inr e ↦ rw e (elim (Bool-cases (c == b'h')) [
    | inl e' ↦ rw e' (omega (arith, length-second b'h' len_h len_hh cs))
    | inr e' ↦ rw e' (omega arith)
  ])
]

length-rest : {format : List ℕ} (spec : Spec format) → length spec.rest < length format
length-rest {format} spec = omega (
  arith,
  length-parse_flags no_flags format,
  ap (λ p. length p.1) spec.has_flags,
  length-parse_width 0 spec.after_flags,
  ap (λ p. length p.1) spec.has_width,
  length-parse_len spec.after_width,
  ap (λ p. length p.1) spec.has_len,
)

directive-Taken :
    {format : List ℕ} {args : List Arg} {o : Out} (spec : Spec format)
    → IsValid o
    → IsFit (kind spec.letter) args
    → Returns
        (λ r t. IsSafe o t × (r.0 ≡ spec.rest) × IsRest (kind spec.letter) args r.1)
        (directive format args o)
unfolding directive convert_head
directive-Taken spec v fit =
    rw (spec.has_flags, spec.has_width, spec.has_len)
      (Run.bind (convert-Taken spec.letter spec.flags spec.width spec.len spec.bounded v fit)
        λ rest t (safe, left). returns (safe, refl, left))

format_loop-IsSafe :
    (fuel : ℕ) {format : List ℕ} {args : List Arg} {o : Out}
    → Typed format args
    → length format ≤ fuel
    → IsValid o
    → Returns (λ _. IsSafe o) (format_loop fuel format args o)
unfolding format_loop
format_loop-IsSafe fuel done enough v = returns still-IsSafe
format_loop-IsSafe zero (literal e typed) enough v = absurd (omega arith)
format_loop-IsSafe zero (specified e spec fit typed) enough v = absurd (omega arith)
format_loop-IsSafe (suc fuel) (literal {c} e typed) enough v =
    rw (e, format_loop)
      (Run.bind (put_literal-IsSafe c v) λ _ t a.
        Run.mono (format_loop-IsSafe fuel typed (omega arith) (after-IsValid v a))
          λ _ u b. then-IsSafe a b)
format_loop-IsSafe (suc fuel) (specified {c} {format} {args} e spec fit typed) enough v =
    rw (e, format_loop)
      (Run.bind (directive-Taken spec v fit) λ r t (a, same, left). rw same (
        Run.mono
          (format_loop-IsSafe fuel (typed r.1 left) (omega (arith, length-rest spec))
            (after-IsValid v a))
          λ _ u b. then-IsSafe a b))

-- There is a NUL in the buffer.
abbrev pub IsEnded : Out → Type 0
IsEnded t = (p : ℕ) × (t.base ≤ p) × (p < t.limit) × (t.bytes p ≡ 0)

finish-IsEnded :
    {o : Out} → IsValid o → o.limit ≤ 2 ^ 64 → Returns (λ _ t. IsSafe o t × IsEnded t) (finish o)
unfolding finish
finish-IsEnded {o} v size = elim (Bool-cases (ltb o.at o.limit)) [
  | inl e ↦ rw e (ended o.at v.above (ground (arith, e)))
  | inr e ↦
      rw e (ended (sub64 o.limit 1) (omega (arith, last, v.room)) (omega (arith, last, v.room)))
]
  where
    last : sub64 o.limit 1 ≡ o.limit - 1
    last = omega (arith, v.room)

    ended :
        (p : ℕ)
        → o.base ≤ p
        → p < o.limit
        → Returns (λ _ t. IsSafe o t × IsEnded t) ((write p 0 >>= λ _ t. ok (o.at - o.base, t)) o)
    ended p lo hi =
        rw (write-run p 0 o lo hi) (returns (written-IsSafe p 0 lo hi, (p, lo, hi, ground arith)))

-- vsnprintf with a buffer of at least one byte, which ends at 2^64 at most, and arguments that the
-- format names, with widths below 2^31, returns: it meets no fault and its loops end. No byte
-- outside the buffer changes, and a NUL stands in the buffer.
pub vsnprintf-IsContained :
    (buffer size : ℕ) {format : List ℕ} {args : List Arg} (bytes : ℕ → ℕ)
    → 1 ≤ size
    → buffer + size ≤ 2 ^ 64
    → Typed format args
    → Returns
        (λ _ t.
          ((i : ℕ) → (i < buffer) ⊎ (buffer + size ≤ i) → t.bytes i ≡ bytes i)
          × (t.base ≡ buffer)
          × (t.limit ≡ buffer + size)
          × IsEnded t)
        (vsnprintf buffer size format args bytes)
unfolding vsnprintf
vsnprintf-IsContained buffer size {format} {args} bytes some_room small typed =
    Run.bind
      (format_loop-IsSafe (length format) typed (omega arith)
        (record { room = omega arith; above = omega arith }))
      λ _ t a.
        Run.mono
          (finish-IsEnded (after-IsValid (record { room = omega arith; above = omega arith }) a)
            (omega (arith, a.same_limit)))
          λ n u (b, ended).
            let all = then-IsSafe a b in
            (
              λ i out. elim out [ inl h ↦ all.below i h | inr h ↦ all.behind i h ],
              all.same_base,
              all.same_limit,
              ended,
            )
