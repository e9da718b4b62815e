-- ===== src/Base/Int.antt =====
-- Signed numbers, for C's `int` fields and `int64_t` arguments.
use Prim.Native.Nat.{ℕ}
use mathlib.Core.Bool.{Bool, true, false}
use mathlib.Core.Option.{Option, none, some}
use mathlib.Core.Path.{◌≡◌, ap}
use fynaos.Base.Tests.{◌==◌, ==→eq}

-- `negsuc n` is -(n + 1).
pub data ℤ : Type 0 where
  pos : ℕ → ℤ
  negsuc : ℕ → ℤ

infix 50 ◌==ℤ◌
abbrev pub ◌==ℤ◌ : ℤ → ℤ → Bool
pos a ==ℤ pos b = a == b
negsuc a ==ℤ negsuc b = a == b
_ ==ℤ _ = false

-- The number, where it is not negative.
abbrev pub nat? : ℤ → Option ℕ
nat? (pos n) = some n
nat? (negsuc n) = none

pub ==ℤ→eq : (a b : ℤ) → (a ==ℤ b) ≡ true → a ≡ b
==ℤ→eq (pos m) (pos n) e = ap pos (==→eq m n e)
==ℤ→eq (negsuc m) (negsuc n) e = ap negsuc (==→eq m n e)
==ℤ→eq (pos m) (negsuc n) e = cc
==ℤ→eq (negsuc m) (pos n) e = cc
