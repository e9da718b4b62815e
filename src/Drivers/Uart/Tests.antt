-- ===== src/Drivers/Uart/Tests.antt =====
-- The theorem on uart_write_str at a device that is ready from the third poll on.
use fynaos.Base.{ℕ, ◌+◌, ◌≤◌, ◌==◌, ◌≡◌, refl, arith, false, if◌then◌else◌, [], ◌∷◌, ◌++◌, Returns}
use fynaos.Drivers.Uart.{Uart, uart_write_str}
use fynaos.Drivers.Uart.Sent.{IsReady, sent, uart_write_str-sent}

abbrev status : ℕ → ℕ
status n = if n == 0 then 0 else if n == 1 then 1 else 0x60

abbrev idle : Uart
idle = record { writes = []; polls = 0 }

status-IsReady : (n : ℕ) → (k : ℕ) × IsReady status (n + k)
status-IsReady n = (2, rw (not_first, not_second) refl)
  where
    not_first : (n + 2 == 0) ≡ false
    not_first = ground arith

    not_second : (n + 2 == 1) ≡ false
    not_second = ground arith

uart_write_str-sent_example :
    (enough : ℕ) × ((fuel : ℕ)
      → enough ≤ fuel
      → Returns
          (λ _ t. t.writes ≡ [] ++ sent (72 ∷ 105 ∷ []))
          (uart_write_str status fuel (72 ∷ 105 ∷ []) idle))
uart_write_str-sent_example = uart_write_str-sent status (72 ∷ 105 ∷ []) idle status-IsReady
