-- ===== src/Rtl/Number/Layout.antt =====
-- What print_number of rtl/snprintf.c writes, and how far it moves the buffer pointer.
use native.Mathlib.Nat.{mod-eq_of_lt}
use fynaos.Base.{
  ℕ, zero, suc, ◌+◌, ◌-◌, ◌^◌, ◌≤◌, ◌<◌, ◌≡◌, refl, arith, Bool, true, false, ltb, leb,
  if◌then◌else◌, update, u32, ok, List, [], ◌∷◌, ◌++◌, ◌&&◌, length, length-append, Bool-cases, inl,
  inr, ap, ◌∙◌, ◌>>◌, ◌>>=◌, get, M, pure, sym,
}
use fynaos.Base.Run.{and_then, and_then_assoc, and_then_congr}
use fynaos.Rtl.Number.{
  Out, Flags, write, advance, emit, emit_all, emit_fill, print_padded, print_text,
}

-- memory with the bytes `cs` from `p` on
unfoldable pub put_list : ℕ → List ℕ → (ℕ → ℕ) → ℕ → ℕ
put_list p [] bytes = bytes
put_list p (c ∷ cs) bytes = put_list (p + 1) cs (update bytes p c)

unfoldable pub replicate : ℕ → ℕ → List ℕ
replicate zero c = []
replicate (suc n) c = c ∷ replicate n c

-- the sign, the digits and the padding in a row
unfoldable pub layout : Flags → Bool → List ℕ → ℕ → List ℕ
layout f negative text pad =
    let minus = if negative then b'-' ∷ [] else [] in
    if f.leftalign
    then minus ++ (text ++ replicate pad b' ')
    else if f.zeropad
    then minus ++ (replicate pad b'0' ++ text)
    else replicate pad b' ' ++ (minus ++ text)

-- the output with `cs` behind what was there
abbrev pub written : Out → List ℕ → Out
written o cs = record o { bytes = put_list o.at cs o.bytes; at = o.at + length cs }

-- there is room for `n` bytes more
abbrev pub HasRoom : Out → ℕ → Type 0
HasRoom o n = (o.base ≤ o.at) × (o.at + n ≤ o.limit)

add_zero_sym : (n : ℕ) → n ≡ n + 0
add_zero_sym n = omega arith

shift : (n m : ℕ) → n + 1 + m ≡ n + suc m
shift n m = omega arith

emit-written :
    (c : ℕ) (o : Out)
    → HasRoom o 1
    → emit c o ≡ ok (tt, record o { bytes = update o.bytes o.at c; at = o.at + 1 })
unfolding emit
emit-written c o room = ground arith

emit_all-written :
    (cs : List ℕ) (o : Out) → HasRoom o (length cs) → emit_all cs o ≡ ok (tt, written o cs)
unfolding emit_all put_list
emit_all-written [] o room = ap (λ (n : ℕ). ok (tt, record o { at = n })) (add_zero_sym o.at)
emit_all-written (c ∷ cs) o room = rw (emit-written c o (omega (arith, room))) (
    emit_all-written cs (record o { bytes = update o.bytes o.at c; at = o.at + 1 })
      (omega (arith, room))
    ∙ ap
        (λ (n : ℕ).
          ok (tt, record o { bytes = put_list (o.at + 1) cs (update o.bytes o.at c); at = n }))
        (shift o.at (length cs)))

emit_all-append :
    (cs ds : List ℕ) (o : Out) → (emit_all cs >> emit_all ds) o ≡ emit_all (cs ++ ds) o
unfolding emit_all
emit_all-append [] ds o = refl
emit_all-append (c ∷ cs) ds o =
    and_then_assoc (emit c o) (λ _. emit_all cs) (λ _. emit_all ds)
    ∙ and_then_congr (emit c o) (λ _ o'. emit_all-append cs ds o')

emit_fill-replicate : (n c : ℕ) (o : Out) → emit_fill n c o ≡ emit_all (replicate n c) o
unfolding emit_all emit_fill replicate
emit_fill-replicate zero c o = refl
emit_fill-replicate (suc n) c o = and_then_congr (emit c o) (λ _ o'. emit_fill-replicate n c o')

-- A row of digits and padding, in either order.
text_fill :
    (text : List ℕ) (n c : ℕ) (o : Out)
    → (emit_all text >> emit_fill n c) o ≡ emit_all (text ++ replicate n c) o
text_fill text n c o =
    and_then_congr (emit_all text o) (λ _ o'. emit_fill-replicate n c o')
    ∙ emit_all-append text (replicate n c) o

fill_then :
    (n c : ℕ) (text : List ℕ) (o : Out)
    → (emit_fill n c >> emit_all text) o ≡ emit_all (replicate n c ++ text) o
fill_then n c text o =
    ap (λ r. and_then r (λ _. emit_all text)) (emit_fill-replicate n c o)
    ∙ emit_all-append (replicate n c) text o

emit_all-cons : (c : ℕ) (cs : List ℕ) (o : Out) → emit_all (c ∷ cs) o ≡ (emit c >> emit_all cs) o
unfolding emit_all
emit_all-cons c cs o = refl

-- the sign in front of a run
signed : Bool → List ℕ → List ℕ
signed true cs = b'-' ∷ cs
signed false cs = cs

sign_then :
    (negative : Bool) (cs : List ℕ) (o : Out)
    → ((if negative then emit b'-' else pure tt) >> emit_all cs) o ≡ emit_all (signed negative cs) o
unfolding signed
sign_then true cs o = sym (emit_all-cons b'-' cs o)
sign_then false cs o = refl

sign_run :
    (negative : Bool) (m : M Out (Unit {0})) (cs : List ℕ) (o : Out)
    → ((o' : Out) → m o' ≡ emit_all cs o')
    → ((if negative then emit b'-' else pure tt) >> m) o ≡ emit_all (signed negative cs) o
sign_run negative m cs o e =
    and_then_congr ((if negative then emit b'-' else pure tt) o) (λ _ o'. e o')
    ∙ sign_then negative cs o

layout-signed :
    (f : Flags) (negative : Bool) (text : List ℕ) (pad : ℕ)
    → layout f negative text pad ≡ (
        if f.leftalign
        then signed negative (text ++ replicate pad b' ')
        else if f.zeropad
        then signed negative (replicate pad b'0' ++ text)
        else replicate pad b' ' ++ signed negative text)
unfolding layout signed
layout-signed f true text pad = refl
layout-signed f false text pad = refl

print_padded-layout :
    (f : Flags) (negative : Bool) (text : List ℕ) (pad : ℕ) (o : Out)
    → print_padded f negative text pad o ≡ emit_all (layout f negative text pad) o
unfolding print_padded
print_padded-layout f negative text pad o =
    rw (layout-signed f negative text pad) (elim (Bool-cases f.leftalign) [
      | inl l ↦
          rw l
            (sign_run negative (emit_all text >> emit_fill pad b' ') _ o (text_fill text pad b' '))
      | inr l ↦ rw l (elim (Bool-cases f.zeropad) [
        | inl z ↦
            rw z (
              sign_run negative (emit_fill pad b'0' >> emit_all text) _ o (fill_then pad b'0' text))
        | inr z ↦ rw z (
            and_then_congr (emit_fill pad b' ' o) (λ _ o'. sign_then negative text o')
            ∙ fill_then pad b' ' (signed negative text) o)
      ])
    ])

-- the width of the digits and of the sign
abbrev pub text_total : Bool → List ℕ → ℕ
text_total negative text = length text + (if negative then 1 else 0)

-- the padding that fills the field
abbrev pub padding : ℕ → ℕ → ℕ
padding total width = if ltb total width then width - total else 0

length-replicate : (n c : ℕ) → length (replicate n c) ≡ n
unfolding replicate
length-replicate zero c = refl
length-replicate (suc n) c = omega (arith, length-replicate n c)

pub length-layout :
    (f : Flags) (negative : Bool) (text : List ℕ) (pad : ℕ)
    → length (layout f negative text pad) ≡ pad + text_total negative text
unfolding layout
length-layout f negative text pad =
    elim negative as (λ (b : Bool). length (layout f b text pad) ≡ pad + text_total b text) [
      | true ↦ grind (arith, length-append, length-replicate)
      | false ↦ grind (arith, length-append, length-replicate)
    ]

-- The output behind a conversion: the text with a NUL behind it where both fit, else the old bytes;
-- the pointer moves on by the length of the text in both cases.
abbrev pub printed : List ℕ → Out → Out
printed cs o = record o {
  bytes =
      if leb (o.at + length cs + 1) o.limit
      then update (put_list o.at cs o.bytes) (o.at + length cs) 0
      else o.bytes;
  at = o.at + length cs;
}

print_padded-written :
    (f : Flags) (negative : Bool) (text : List ℕ) (pad : ℕ) (o : Out)
    → HasRoom o (pad + text_total negative text)
    → print_padded f negative text pad o ≡ ok (tt, written o (layout f negative text pad))
print_padded-written f negative text pad o room =
    print_padded-layout f negative text pad o
    ∙ emit_all-written (layout f negative text pad) o
        (omega (arith, room, length-layout f negative text pad))

total_small :
    (negative : Bool) (text : List ℕ) → length text < 2 ^ 31 - 2 → text_total negative text < 2 ^ 31
total_small negative text h = ground arith

padding_small :
    (total width : ℕ) → total < 2 ^ 31 → width < 2 ^ 31 → padding total width + total < 2 ^ 31
padding_small total width h h' = ground arith

u32_small : (n : ℕ) → n < 2 ^ 32 → u32 n ≡ n
u32_small n h = mod-eq_of_lt h

regroup : (pad n sign : ℕ) → pad + n + sign ≡ pad + (n + sign)
regroup pad n sign = omega arith

-- the NUL at the end of print_text
abbrev terminate : M Out (Unit {0})
terminate = do o' ← get; if ltb o'.at o'.limit then write o'.at 0 else pure tt

terminate-room :
    (cs : List ℕ) (o : Out)
    → o.base ≤ o.at
    → o.at + length cs + 1 ≤ o.limit
    → terminate (written o cs) ≡ ok (tt, printed cs o)
unfolding write
terminate-room cs o above room = ground arith

no_room :
    (cs : List ℕ) (n : ℕ) (o : Out)
    → length cs ≡ n
    → o.limit < o.at + n + 1
    → terminate (record o { at = o.at + n }) ≡ ok (tt, printed cs o)
no_room cs n o e room = rw (← e) (ground arith)

-- For a width below 2^31, a text shorter than 2^31 - 2 and a pointer that is not below the
-- buffer, print_text returns: the padded text and a NUL are written where they fit, otherwise no
-- byte changes, and the pointer moves on by the length of the padded text either way.
pub print_text-printed :
    (f : Flags) (width : ℕ) (negative : Bool) (text : List ℕ) (o : Out)
    → o.base ≤ o.at
    → width < 2 ^ 31
    → length text < 2 ^ 31 - 2
    → print_text f width negative text o
      ≡ ok (tt, printed (layout f negative text (padding (text_total negative text) width)) o)
unfolding print_text write advance
print_text-printed f width negative text o above hw ht =
    let total = text_total negative text in
    let pad = padding total width in
    let small = padding_small total width (omega (arith, total_small negative text ht)) hw in
    rw
      (
        u32_small total (omega (arith, total_small negative text ht)),
        u32_small (pad + total + 1) (omega (arith, small)),
        regroup pad (length text) (if negative then 1 else 0),
        u32_small (pad + total) (omega (arith, small)),
      )
      (elim (Bool-cases (ltb o.at o.limit && leb (pad + total + 1) (o.limit - o.at))) [
        | inl e ↦ rw e (
            ap (λ r. and_then r (λ _. terminate))
              (print_padded-written f negative text pad o (above, (ground (arith, e))))
            ∙ terminate-room (layout f negative text pad) o above
                (ground (arith, e, length-layout f negative text pad)))
        | inr e ↦ rw e (
            no_room (layout f negative text pad) (pad + total) o (length-layout f negative text pad)
              (ground (arith, e)))
      ])
