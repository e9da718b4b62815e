-- ===== src/Drivers/Uart.antt =====
-- drivers/uart.c, and the port access of include/fynaos/cpu.h that it needs. What the device answers
-- when its status is read for the n-th time is a parameter. `fuel` bounds the rounds of a busy wait.
pub mod Sent
mod Tests
use fynaos.Base.{
  ℕ, zero, suc, ◌+◌, ◌==◌, if◌then◌else◌, u8, bit_and, List, [], ◌∷◌, ◌++◌, M, ok, out_of_fuel,
  pure, ◌>>=◌, ◌>>◌,
}

-- the bytes written to ports, in order, and how often the status was read
pub record Uart : Type 0 where
  pub writes : List (ℕ × ℕ)
  pub polls : ℕ

-- `COM`, which is COM3
abbrev pub com_port : ℕ
com_port = 0x3E8

unfoldable pub outb : ℕ → ℕ → M Uart (Unit {0})
outb port val s = ok (tt, record s { writes = s.writes ++ (port, val) ∷ [] })

-- `inb(COM + 5)`
unfoldable pub inb : (ℕ → ℕ) → M Uart ℕ
inb status s = ok (u8 (status s.polls), record s { polls = s.polls + 1 })

unfoldable pub uart_init : M Uart (Unit {0})
unfolding outb
uart_init = do
  outb (com_port + 1) 0x00
  outb (com_port + 3) 0x80
  outb (com_port + 0) 0x01
  outb (com_port + 1) 0x00
  outb (com_port + 3) 0x03
  outb (com_port + 2) 0xC7
  outb (com_port + 4) 0x0B

-- the loop of `uart_write`
uart_wait : (ℕ → ℕ) → ℕ → M Uart (Unit {0})
unfolding inb
uart_wait status zero = λ _. out_of_fuel
uart_wait status (suc fuel) = do
  answer ← inb status
  let rest = uart_wait status fuel
  if bit_and answer 0x20 == 0 then rest else pure tt

unfoldable pub uart_write : (ℕ → ℕ) → ℕ → ℕ → M Uart (Unit {0})
unfolding uart_wait outb
uart_write status fuel ch = do uart_wait status fuel; outb com_port (u8 ch)

unfoldable pub uart_write_str : (ℕ → ℕ) → ℕ → List ℕ → M Uart (Unit {0})
unfolding uart_write
uart_write_str status fuel [] = pure tt
uart_write_str status fuel (ch ∷ s) = do uart_write status fuel ch; uart_write_str status fuel s
