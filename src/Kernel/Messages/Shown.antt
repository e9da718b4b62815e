-- ===== src/Kernel/Messages/Shown.antt =====
-- vkprintf of kernel/kprintf.c: a message without conversions on the serial port and on the console.
use fynaos.Base.{
  ℕ, zero, suc, ◌+◌, ◌≤◌, ◌<◌, ◌≡◌, ◌∙◌, refl, sym, ap, arith, List, [], ◌∷◌, ◌++◌, length, some, M,
  ok, pos, Returns, returns, ne→==,
}
use fynaos.Rtl.Snprintf.{Arg}
use fynaos.Rtl.Snprintf.Literal.{IsLiteral, Holds, vsnprintf-literal}
use fynaos.Drivers.Uart.{Uart, uart_write_str}
use fynaos.Drivers.Uart.Sent.{IsReady, sent, uart_write_str-ends}
use fynaos.Drivers.Fbcon.{Console, fbcon_write}
use fynaos.Drivers.Fbcon.Cursor.{page_of, IsFitted, at, Shows}
use fynaos.Drivers.Fbcon.Grid.{Grid, type_text, expand, IsAscii}
use fynaos.Drivers.Fbcon.Typed.{fbcon_write-typed}
use fynaos.Kernel.Messages.{Log, Setting, on_uart, on_console, c_string, format_text, vkprintf}

-- The text that stands in the buffer is read from it.
c_string-Holds :
    (room p : ℕ) (text : List ℕ) (bytes : ℕ → ℕ)
    → IsLiteral text
    → Holds bytes p text
    → bytes (p + length text) ≡ 0
    → length text < room
    → c_string room p bytes ≡ some text
unfolding c_string
c_string-Holds zero p text bytes l holds end h = absurd (omega arith)
c_string-Holds (suc room) p [] bytes l holds end h =
    let e : p + 0 ≡ p = omega arith in
    let here : bytes p ≡ 0 = ap bytes (sym e) ∙ end in rw here refl
c_string-Holds (suc room) p (c ∷ cs) bytes (_, nul, l) (e, holds) end h =
    let last : p + 1 + length cs ≡ p + suc (length cs) = omega arith in
    rw
      (
        e,
        ne→== c 0 nul,
        c_string-Holds room (p + 1) cs bytes l holds (ap bytes last ∙ end) (omega (arith, h)),
      )
      (ap (λ t. some (t ∷ cs)) e)

pub format_text-literal :
    (e : Setting) (text : List ℕ) (args : List Arg) (s : Log)
    → IsLiteral text
    → length text < 1024
    → format_text e text args s ≡ ok (text, s)
unfolding format_text
format_text-literal e text args s l h =
    let (o, run, holds, end) = vsnprintf-literal e.buffer 1024 text args e.held l h in
    rw (run, format_text, c_string-Holds 1024 e.buffer text o.bytes l holds end h, format_text) refl

pub on_uart-ok :
    {A : Type 0} (m : M Uart A) (s : Log) {a : A} {t : Uart}
    → m s.uart ≡ ok (a, t)
    → on_uart m s ≡ ok (a, record s { uart = t })
unfolding on_uart
on_uart-ok m s e = rw (e, on_uart) refl

pub on_console-ok :
    {A : Type 0} (m : M Console A) (s : Log) {a : A} {t : Console}
    → m s.console ≡ ok (a, t)
    → on_console m s ≡ ok (a, record s { console = t })
unfolding on_console
on_console-ok m s e = rw (e, on_console) refl

-- The cursor and the cells of the grid are what the console has.
pub record IsShowing (e : Setting) (c : Console) (g : Grid) : Type 0 where
  pub fitted : IsFitted c
  pub same_x : c.x ≡ g.x
  pub same_y : c.y ≡ g.y
  pub on_page : c.x < c.cx
  pub on_line : c.y < c.cy
  pub cells : Shows e.font c c.screen.mem g.cell

-- what a text makes of the grid
abbrev pub typed : Console → List ℕ → Grid → Grid
typed c text g = type_text (page_of c) (expand text) g

pub fbcon_write-IsShowing :
    (e : Setting) (s : Log) (text : List ℕ) (g : Grid)
    → IsShowing e s.console g
    → IsAscii text
    → (c : Console) × (on_console (fbcon_write e.font text) s
        ≡ ok (pos 0, record s { console = c }))
      × IsShowing e c (typed s.console text g)
      × (page_of c ≡ page_of s.console)
fbcon_write-IsShowing e s text g h ascii =
    let (mem, run, (hx, hy, shows, _)) =
      fbcon_write-typed e.font s.console text g h.fitted ascii h.same_x h.same_y h.on_page h.on_line
        h.cells in
    let after = typed s.console text g in
    (
      at s.console after.x after.y mem,
      on_console-ok (fbcon_write e.font text) s run,
      record {
        fitted = record {
          char_width = h.fitted.char_width;
          char_height = h.fitted.char_height;
          columns_fit = h.fitted.columns_fit;
          lines_fill = h.fitted.lines_fill;
          narrow = h.fitted.narrow;
          low = h.fitted.low;
          flat = h.fitted.flat;
          channels = h.fitted.channels;
        };
        same_x = refl;
        same_y = refl;
        on_page = hx;
        on_line = hy;
        cells = shows;
      },
      refl,
    )

-- For a message of characters below 128 without '%' that is shorter than the buffer of 1024 bytes,
-- where the serial device gets ready again and again and the console shows a grid on a screen that it
-- fills, there is fuel from which on vkprintf returns for every fuel: the serial port has got exactly
-- the bytes of the message, and the console shows the grid with the message typed on it.
pub vkprintf-shown :
    (e : Setting) (text : List ℕ) (args : List Arg) (s : Log) (g : Grid)
    → IsLiteral text
    → IsAscii text
    → length text < 1024
    → ((n : ℕ) → (k : ℕ) × IsReady e.status (n + k))
    → IsShowing e s.console g
    → (enough : ℕ) × ((fuel : ℕ)
        → enough ≤ fuel
        → Returns
            (λ _ t.
              (t.uart.writes ≡ s.uart.writes ++ sent text)
              × IsShowing e t.console (typed s.console text g))
            (vkprintf (record e { fuel = fuel }) text args s))
unfolding vkprintf
vkprintf-shown e text args s g literal ascii short ready showing =
    let (enough, n, run) = uart_write_str-ends e.status text s.uart ready in
    (
      enough,
      λ fuel h.
          let sent_state : Log = record s {
            uart = record { writes = s.uart.writes ++ sent text; polls = n };
          } in
          let (c, typing, shows, _) = fbcon_write-IsShowing e sent_state text g showing ascii in
          rw
            (
              format_text-literal (record e { fuel = fuel }) text args s literal short,
              on_uart-ok (uart_write_str e.status fuel text) s (run fuel h),
              typing,
            )
            (returns (refl, shows)),
    )
