-- ===== src/Kernel/Messages/Panics.antt =====
-- vpanic of kernel/panic.c: the report of a panic, and of a panic within it.
use fynaos.Base.{
  ℕ, ◌+◌, ◌≤◌, ◌<◌, ◌≡◌, ◌∙◌, refl, ap, arith, true, false, ◌&&◌, not, if◌then◌else◌, List, [], ◌∷◌,
  ◌++◌, ◌>>=◌, pure, length, Returns, returns, Bool-cases, inl, inr, subst,
}
use fynaos.Base.Run
use fynaos.Rtl.Snprintf.{Arg}
use fynaos.Rtl.Snprintf.Literal.{IsLiteral}
use fynaos.Drivers.Uart.{Uart, uart_write, uart_write_str}
use fynaos.Drivers.Uart.Sent.{IsReady, sent, uart_write-ends, uart_write_str-ends}
use fynaos.Drivers.Fbcon.{fbcon_write}
use fynaos.Drivers.Fbcon.Cursor.{page_of}
use fynaos.Drivers.Fbcon.Grid.{Page, Grid, type_text, expand, IsAscii}
use fynaos.Kernel.Messages.{Log, Setting, on_console, codes, report, disable_interrupts, vpanic}
use fynaos.Kernel.Messages.Shown.{
  IsShowing, typed, format_text-literal, on_uart-ok, fbcon_write-IsShowing,
}

abbrev pub heading : List ℕ
heading = codes "kernel panic: "

-- the three texts of a report on the grid
abbrev pub reported : Page → List ℕ → Grid → Grid
reported page text g =
    type_text page (expand (10 ∷ []))
      (type_text page (expand text) (type_text page (expand heading) g))

-- the serial port behind the report
abbrev pub after_report : List (ℕ × ℕ) → List ℕ → List (ℕ × ℕ)
after_report writes text = writes ++ sent heading ++ sent text ++ sent (10 ∷ [])

heading-IsAscii : IsAscii heading
unfolding codes
heading-IsAscii = ground arith

module _ (e : Setting) (text : List ℕ) (args : List Arg) where
  console_report :
      (s : Log) (g : Grid)
      → IsAscii text
      → IsShowing e s.console g
      → Returns
          (λ _ t.
            (t.uart ≡ s.uart)
            × (t.interrupts ≡ s.interrupts)
            × (t.in_panic ≡ s.in_panic)
            × IsShowing e t.console (reported (page_of s.console) text g))
          ((do
            _ ← on_console (fbcon_write e.font heading)
            _ ← on_console (fbcon_write e.font text)
            _ ← on_console (fbcon_write e.font (10 ∷ []))
            pure tt)
            s)
  console_report s g ascii showing =
      let (c1, run1, shows1, page1) = fbcon_write-IsShowing e s heading g showing heading-IsAscii in
      let s1 = record s { console = c1 } in
      let (c2, run2, shows2, page2) =
        fbcon_write-IsShowing e s1 text (typed s.console heading g) shows1 ascii in
      let s2 = record s { console = c2 } in
      let (c3, run3, shows3, _) =
        fbcon_write-IsShowing e s2 (10 ∷ []) (typed c1 text (typed s.console heading g)) shows2
          (omega arith, tt) in
      let middle =
        subst
          (λ p.
            IsShowing e c3
              (type_text p (expand (10 ∷ [])) (typed c1 text (typed s.console heading g))))
          (page2 ∙ page1) shows3 in
      rw (run1, run2, run3)
        (returns (
          refl,
          refl,
          refl,
          subst
              (λ p. IsShowing e c3 (
                type_text (page_of s.console) (expand (10 ∷ []))
                  (type_text p (expand text) (typed s.console heading g))))
              page1 middle,
        ))

  report-IsShowing :
      (s : Log) (g : Grid)
      → IsLiteral text
      → IsAscii text
      → length text < 1024
      → ((n : ℕ) → (k : ℕ) × IsReady e.status (n + k))
      → IsShowing e s.console g
      → (enough : ℕ) × ((fuel : ℕ)
          → enough ≤ fuel
          → Returns
              (λ _ t.
                (t.uart.writes ≡ after_report s.uart.writes text)
                × (t.in_panic ≡ s.in_panic)
                × IsShowing e t.console
                    (if s.panic_use_fbcon then reported (page_of s.console) text g else g))
              (report (record e { fuel = fuel }) text args s))
  unfolding report
  report-IsShowing s g literal ascii short ready showing =
      let (enough1, n1, run1) = uart_write_str-ends e.status heading s.uart ready in
      let u1 : Uart = record { writes = s.uart.writes ++ sent heading; polls = n1 } in
      let (enough2, n2, run2) = uart_write_str-ends e.status text u1 ready in
      let u2 : Uart = record { writes = u1.writes ++ sent text; polls = n2 } in
      let (enough3, n3, run3) = uart_write-ends e.status 10 u2 ready in
      let u3 : Uart = record { writes = u2.writes ++ sent (10 ∷ []); polls = n3 } in
      (
        enough1 + enough2 + enough3,
        λ fuel h.
            rw
              (
                format_text-literal (record e { fuel = fuel }) text args s literal short,
                on_uart-ok (uart_write_str e.status fuel heading) s (run1 fuel (omega (arith, h))),
                on_uart-ok (uart_write_str e.status fuel text) (record s { uart = u1 })
                    (run2 fuel (omega (arith, h))),
                on_uart-ok (uart_write e.status fuel 10) (record s { uart = u2 })
                    (run3 fuel (omega (arith, h))),
              )
              (elim (Bool-cases s.panic_use_fbcon) [
                | inr z ↦ rw z (returns (refl, refl, showing))
                | inl z ↦ rw z (
                    Run.mono
                      (console_report (record s { uart = u3; panic_use_fbcon = true }) g ascii
                        showing)
                      λ _ t (same_uart, _, same_panic, shows).
                        (ap (λ (u : Uart). u.writes) same_uart, same_panic, shows))
              ]),
      )

-- For a message of characters below 128 without '%' that is shorter than the buffer, where the serial
-- device gets ready again and again and the console shows a grid on a screen that it fills, there is
-- fuel from which on vpanic comes to its halt for every fuel, with interrupts off and in_panic set.
-- A first panic has written the heading, the message and a newline to the serial port, and has typed
-- them on the console if that is in use for panics; a panic within a panic has written only its notice
-- to the serial port, and has left the console alone.
pub vpanic-reported :
    (e : Setting) (text : List ℕ) (args : List Arg) (s : Log) (g : Grid)
    → IsLiteral text
    → IsAscii text
    → length text < 1024
    → ((n : ℕ) → (k : ℕ) × IsReady e.status (n + k))
    → IsShowing e s.console g
    → (enough : ℕ) × ((fuel : ℕ)
        → enough ≤ fuel
        → Returns
            (λ _ t.
              (t.interrupts ≡ false)
              × (t.in_panic ≡ true)
              × (t.uart.writes ≡ (
                  if s.in_panic
                  then s.uart.writes ++ sent (codes "*** Double panic detected\n")
                  else after_report s.uart.writes text))
              × IsShowing e t.console (
                  if not s.in_panic && s.panic_use_fbcon
                  then reported (page_of s.console) text g
                  else g))
            (vpanic (record e { fuel = fuel }) text args s))
unfolding vpanic disable_interrupts
vpanic-reported e text args s g literal ascii short ready showing = elim (Bool-cases s.in_panic) [
  | inl z ↦
      let (enough, n, run) =
        uart_write_str-ends e.status (codes "*** Double panic detected\n") s.uart ready in
      (
        enough,
        λ fuel h.
            rw
              (
                z,
                on_uart-ok (uart_write_str e.status fuel (codes "*** Double panic detected\n"))
                    (record s { interrupts = false; in_panic = true }) (run fuel h),
              )
              (returns (refl, refl, refl, showing)),
      )
  | inr z ↦
      let calm = record s { interrupts = false; in_panic = true } in
      let (enough, run) = report-IsShowing e text args calm g literal ascii short ready showing in
      (
        enough,
        λ fuel h. rw z (
            Run.bind (run fuel h)
              λ _ t (writes, panic, shows). returns (refl, panic, writes, shows)),
      )
]
