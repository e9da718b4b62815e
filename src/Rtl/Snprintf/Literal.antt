-- ===== src/Rtl/Snprintf/Literal.antt =====
-- vsnprintf of rtl/snprintf.c on a format without conversions that fits the buffer.
use fynaos.Base.{
  ℕ, zero, suc, ◌+◌, ◌-◌, ◌≤◌, ◌<◌, ◌≡◌, ◌≢◌, ◌∙◌, refl, sym, ap, arith, true, false, ltb, leb,
  ◌==◌, List, [], ◌∷◌, length, ok, update, lt→ltb, le→leb, ne→==, eq→==,
}
use fynaos.Rtl.Number.{Out, write, emit}
use fynaos.Rtl.Snprintf.{Arg, put_literal, format_loop, finish, vsnprintf}

-- no '%', and no NUL
abbrev pub IsLiteral : List ℕ → Type 0
IsLiteral [] = Unit
IsLiteral (c ∷ cs) = (c ≢ 37) × (c ≢ 0) × IsLiteral cs

-- The text stands in memory from `p` on.
abbrev pub Holds : (ℕ → ℕ) → ℕ → List ℕ → Type 0
Holds bytes p [] = Unit
Holds bytes p (c ∷ cs) = (bytes p ≡ c) × Holds bytes (p + 1) cs

put_literal-ok :
    (c : ℕ) (o : Out)
    → o.base ≤ o.at
    → o.at + 1 < o.limit
    → put_literal c o ≡ ok (tt, record o { bytes = update o.bytes o.at c; at = o.at + 1 })
unfolding put_literal write emit
put_literal-ok c o lo hi =
    rw (lt→ltb (o.at + 1) o.limit hi, le→leb o.base o.at lo, lt→ltb o.at o.limit (omega arith)) refl

format_loop-Holds :
    (fuel : ℕ) (text : List ℕ) (args : List Arg) (o : Out)
    → IsLiteral text
    → length text ≤ fuel
    → o.base ≤ o.at
    → o.at + length text < o.limit
    → (bytes : ℕ → ℕ) × (format_loop fuel text args o
        ≡ ok (tt, record o { bytes = bytes; at = o.at + length text }))
      × Holds bytes o.at text
      × ((q : ℕ) → q < o.at → bytes q ≡ o.bytes q)
unfolding format_loop
format_loop-Holds fuel [] args o p h lo hi =
    let e : o.at + 0 ≡ o.at = omega arith in
    (o.bytes, ap (λ t. ok (tt, record o { at = t })) (sym e), tt, λ q h. refl)
format_loop-Holds zero (c ∷ cs) args o p h lo hi = absurd (omega arith)
format_loop-Holds (suc fuel) (c ∷ cs) args o (percent, nul, p) h lo hi =
    let next : Out = record o { bytes = update o.bytes o.at c; at = o.at + 1 } in
    let (bytes, run, holds, below) =
      format_loop-Holds fuel cs args next p (omega arith) (omega arith) (omega arith) in
    let e : o.at + 1 + length cs ≡ o.at + suc (length cs) = omega arith in
    rw (ne→== c 37 percent, format_loop, put_literal-ok c o lo (omega arith))
      (
        bytes,
        run ∙ ap (λ t. ok (tt, record o { bytes = bytes; at = t })) e,
        (below o.at (omega arith) ∙ rw (eq→== o.at o.at refl) refl, holds),
        λ q h.
            let other : (q == o.at) ≡ false = ground arith in below q (omega arith) ∙ rw other refl,
      )

-- A byte behind the text does not touch it.
Holds-update :
    (bytes : ℕ → ℕ) (p at v : ℕ) (text : List ℕ)
    → p + length text ≤ at
    → Holds bytes p text
    → Holds (update bytes at v) p text
Holds-update bytes p at v [] h holds = tt
Holds-update bytes p at v (c ∷ cs) h (e, holds) =
    let other : (p == at) ≡ false = ground arith in
    (rw other e, Holds-update bytes (p + 1) at v cs (omega arith) holds)

-- The run on a format without conversions.
pub vsnprintf-literal :
    (buffer size : ℕ) (text : List ℕ) (args : List Arg) (held : ℕ → ℕ)
    → IsLiteral text
    → length text < size
    → (o : Out) × (vsnprintf buffer size text args held ≡ ok (length text, o))
      × Holds o.bytes buffer text
      × (o.bytes (buffer + length text) ≡ 0)
unfolding vsnprintf finish write
vsnprintf-literal buffer size text args held p room =
    let (bytes, run, holds, _) =
      format_loop-Holds (length text) text args
        (record { bytes = held; base = buffer; limit = buffer + size; at = buffer }) p (omega arith)
        (omega arith) (omega arith) in
    let inside : ltb (buffer + length text) (buffer + size) ≡ true =
      lt→ltb (buffer + length text) (buffer + size) (omega arith) in
    let above : leb buffer (buffer + length text) ≡ true =
      le→leb buffer (buffer + length text) (omega arith) in
    let count : buffer + length text - buffer ≡ length text = omega arith in
    let out : Out = record {
      bytes = update bytes (buffer + length text) 0;
      base = buffer;
      limit = buffer + size;
      at = buffer + length text;
    } in
    (
      out,
      rw (run, inside, above, inside, count) refl,
      Holds-update bytes buffer (buffer + length text) 0 text (omega arith) holds,
      rw (eq→== (buffer + length text) (buffer + length text) refl) refl,
    )
