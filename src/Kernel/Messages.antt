-- ===== src/Kernel/Messages.antt =====
-- kernel/kprintf.c and kernel/panic.c: messages on the serial port and on the console. The device, the
-- font and the buffer with what it held are parameters; so is the fuel of a busy wait. The endless
-- halt of a panic is the end of the run.
pub mod Panics
pub mod Shown
mod Tests
use fynaos.Base.{
  ℕ, zero, suc, ◌+◌, Bool, true, false, ◌==◌, if◌then◌else◌, List, [], ◌∷◌, Option, none, some, M,
  Result, ok, panicked, fault, out_of_fuel, pure, undefined, get, modify, ◌>>=◌, ◌>>◌,
}
use Prim.Native.Char.{code}
use Prim.Native.String.{String}
use fynaos.Rtl.Number.{Out}
use fynaos.Rtl.Snprintf.{Arg, vsnprintf}
use fynaos.Drivers.Uart.{Uart, uart_write, uart_write_str}
use fynaos.Drivers.Fbcon.{Console, Font, fbcon_write}

-- the devices, the interrupt flag, `in_panic` and `panic_use_fbcon`
pub record Log : Type 0 where
  pub uart : Uart
  pub console : Console
  pub interrupts : Bool
  pub in_panic : Bool
  pub panic_use_fbcon : Bool

-- what the messages depend on: `buffer` is its address, and `held` the memory before the call
pub record Setting : Type 0 where
  pub status : ℕ → ℕ
  pub fuel : ℕ
  pub font : Font
  pub buffer : ℕ
  pub held : ℕ → ℕ

unfoldable pub on_uart : {A : Type 0} → M Uart A → M Log A
on_uart m s = elim (m s.uart) [
  | ok (a, t) ↦ ok (a, record s { uart = t })
  | panicked ↦ panicked
  | fault ↦ fault
  | out_of_fuel ↦ out_of_fuel
]

unfoldable pub on_console : {A : Type 0} → M Console A → M Log A
on_console m s = elim (m s.console) [
  | ok (a, t) ↦ ok (a, record s { console = t })
  | panicked ↦ panicked
  | fault ↦ fault
  | out_of_fuel ↦ out_of_fuel
]

-- a literal of the source
unfoldable pub codes : String → List ℕ
codes String.[] = []
codes (String.◌∷◌ c s) = code c ∷ codes s

-- the bytes from `p` to the NUL, in an object of `room` bytes more
unfoldable pub c_string : ℕ → ℕ → (ℕ → ℕ) → Option (List ℕ)
c_string zero p bytes = none
c_string (suc room) p bytes =
    let rest = c_string room (p + 1) bytes in
    if bytes p == 0 then some [] else elim rest [ none ↦ none | some text ↦ some (bytes p ∷ text) ]

-- `vsnprintf(buffer, sizeof(buffer), format, args)`, and the text that the buffer then has
unfoldable pub format_text : Setting → List ℕ → List Arg → M Log (List ℕ)
unfolding vsnprintf c_string
format_text e format args s = elim (vsnprintf e.buffer 1024 format args e.held) [
  | ok (n, o) ↦ elim (c_string 1024 e.buffer o.bytes) [ some text ↦ ok (text, s) | none ↦ fault ]
  | panicked ↦ panicked
  | fault ↦ fault
  | out_of_fuel ↦ out_of_fuel
]

unfoldable pub vkprintf : Setting → List ℕ → List Arg → M Log (Unit {0})
vkprintf e format args = do
  text ← format_text e format args
  on_uart (uart_write_str e.status e.fuel text)
  _ ← on_console (fbcon_write e.font text)
  pure tt

-- `disable_interrupts`
unfoldable pub disable_interrupts : M Log (Unit {0})
disable_interrupts = modify (λ s. record s { interrupts = false })

-- the report of a panic
unfoldable pub report : Setting → List ℕ → List Arg → M Log (Unit {0})
report e format args = do
  text ← format_text e format args
  on_uart (uart_write_str e.status e.fuel (codes "kernel panic: "))
  on_uart (uart_write_str e.status e.fuel text)
  on_uart (uart_write e.status e.fuel 10)
  s ← get
  if s.panic_use_fbcon
      then (do
        _ ← on_console (fbcon_write e.font (codes "kernel panic: "))
        _ ← on_console (fbcon_write e.font text)
        _ ← on_console (fbcon_write e.font (10 ∷ []))
        pure tt)
      else pure tt

-- `halt_cpu_forever` disables interrupts once more.
unfoldable pub vpanic : Setting → List ℕ → List Arg → M Log (Unit {0})
unfolding disable_interrupts
vpanic e format args = do
  disable_interrupts
  s ← get
  if s.in_panic
      then on_uart (uart_write_str e.status e.fuel (codes "*** Double panic detected\n"))
      else (do modify (λ s. record s { in_panic = true }); report e format args)
  disable_interrupts

unfoldable pub panic_use_console : M Log (Unit {0})
panic_use_console = modify (λ s. record s { panic_use_fbcon = true })
