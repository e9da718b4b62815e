-- ===== src/Drivers/Uart/Sent.antt =====
-- uart_write_str of drivers/uart.c sends its text, where the device gets ready again and again.
use fynaos.Base.{
  ℕ, zero, suc, ◌+◌, ◌≤◌, ◌<◌, ◌≡◌, ◌∙◌, refl, sym, subst, ap, arith, if◌then◌else◌, false, ◌==◌,
  u8, bit_and, List, [], ◌∷◌, ◌++◌, map, ok, Returns, returns, Bool-cases, inl, inr,
}
use fynaos.Drivers.Uart.{Uart, com_port, uart_wait, uart_write, uart_write_str, outb, inb}

-- The n-th status says that a byte may be sent.
abbrev pub IsReady : (ℕ → ℕ) → ℕ → Type 0
IsReady status n = (bit_and (u8 (status n)) 0x20 == 0) ≡ false

-- what a text puts on the port
abbrev pub sent : List ℕ → List (ℕ × ℕ)
sent text = map (λ ch. (com_port, u8 ch)) text

-- how often the status has been read when the wait is over, at most `k` rounds after the first
polls_after : (ℕ → ℕ) → ℕ → ℕ → ℕ
polls_after status zero n = n + 1
polls_after status (suc k) n =
    let rest = polls_after status k (n + 1) in
    if bit_and (u8 (status n)) 0x20 == 0 then rest else n + 1

-- A wait of more rounds than the device takes ends, having written nothing.
uart_wait-ends :
    (status : ℕ → ℕ) (k fuel : ℕ) (s : Uart)
    → IsReady status (s.polls + k)
    → k < fuel
    → uart_wait status fuel s ≡ ok (tt, record s { polls = polls_after status k s.polls })
unfolding uart_wait inb polls_after
uart_wait-ends status k zero s ready h = absurd (omega arith)
uart_wait-ends status zero (suc fuel) s ready h =
    let here : IsReady status s.polls =
      let e : s.polls + 0 ≡ s.polls = omega arith in subst (IsReady status) e ready in
    rw here refl
uart_wait-ends status (suc k) (suc fuel) s ready h =
    elim (Bool-cases (bit_and (u8 (status s.polls)) 0x20 == 0)) [
      | inr e ↦ rw e refl
      | inl e ↦
          let later : IsReady status (s.polls + 1 + k) =
            let e' : s.polls + suc k ≡ s.polls + 1 + k = omega arith in
            subst (IsReady status) e' ready in
          rw e (
            uart_wait-ends status k fuel (record s { polls = s.polls + 1 }) later
              (omega (arith, h)))
    ]

pub uart_write-ends :
    (status : ℕ → ℕ) (ch : ℕ) (s : Uart)
    → ((n : ℕ) → (k : ℕ) × IsReady status (n + k))
    → (enough : ℕ) × (n : ℕ) × ((fuel : ℕ)
        → enough ≤ fuel
        → uart_write status fuel ch s
          ≡ ok (tt, record { writes = s.writes ++ sent (ch ∷ []); polls = n }))
unfolding uart_write outb
uart_write-ends status ch s ready =
    let (k, soon) = ready s.polls in
    (
      suc k,
      polls_after status k s.polls,
      λ fuel h. rw (uart_wait-ends status k fuel s soon (omega (arith, h))) refl,
    )

append_assoc : (xs ys zs : List (ℕ × ℕ)) → xs ++ ys ++ zs ≡ xs ++ (ys ++ zs)
append_assoc [] ys zs = refl
append_assoc (x ∷ xs) ys zs = ap (λ t. x ∷ t) (append_assoc xs ys zs)

append_nil : (xs : List (ℕ × ℕ)) → xs ++ [] ≡ xs
append_nil [] = refl
append_nil (x ∷ xs) = ap (λ t. x ∷ t) (append_nil xs)

-- The run for each fuel from some fuel on: its end does not depend on the fuel.
pub uart_write_str-ends :
    (status : ℕ → ℕ) (text : List ℕ) (s : Uart)
    → ((n : ℕ) → (k : ℕ) × IsReady status (n + k))
    → (enough : ℕ) × (n : ℕ) × ((fuel : ℕ)
        → enough ≤ fuel
        → uart_write_str status fuel text s
          ≡ ok (tt, record { writes = s.writes ++ sent text; polls = n }))
unfolding uart_write_str uart_write outb
uart_write_str-ends status [] s ready = (
  0,
  s.polls,
  λ fuel h. ap (λ w. ok (tt, record { writes = w; polls = s.polls })) (sym (append_nil s.writes)),
)
uart_write_str-ends status (ch ∷ text) s ready =
    let (k, soon) = ready s.polls in
    let next : Uart = record {
      writes = s.writes ++ (com_port, u8 ch) ∷ [];
      polls = polls_after status k s.polls;
    } in
    let (enough, n, rest) = uart_write_str-ends status text next ready in
    (
      suc k + enough,
      n,
      λ fuel h. rw (uart_wait-ends status k fuel s soon (omega (arith, h))) (
          rest fuel (omega (arith, h))
          ∙ ap (λ w. ok (tt, record { writes = w; polls = n }))
              (append_assoc s.writes ((com_port, u8 ch) ∷ []) (sent text))),
    )

-- Where after every time the device gets ready to send, however late, there is fuel from which on
-- uart_write_str returns for every fuel, having written the bytes of the text to the port, each one
-- once and in their order, and nothing else.
pub uart_write_str-sent :
    (status : ℕ → ℕ) (text : List ℕ) (s : Uart)
    → ((n : ℕ) → (k : ℕ) × IsReady status (n + k))
    → (enough : ℕ) × ((fuel : ℕ)
        → enough ≤ fuel
        → Returns (λ _ t. t.writes ≡ s.writes ++ sent text) (uart_write_str status fuel text s))
uart_write_str-sent status text s ready =
    let (enough, n, run) = uart_write_str-ends status text s ready in
    (enough, λ fuel h. rw (run fuel h) (returns refl))
