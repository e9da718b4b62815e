-- ===== src/Base/Word.antt =====
-- Machine words as natural numbers: the casts of include/fynaos/types.h and its alignment macros.
use Prim.Native.Nat.{ℕ, ◌+◌, ◌-◌, ◌*◌, ◌/◌, ◌%◌, ◌^◌, bit_and}

abbrev pub u8 : ℕ → ℕ
u8 n = n % 2 ^ 8

abbrev pub u16 : ℕ → ℕ
u16 n = n % 2 ^ 16

abbrev pub u32 : ℕ → ℕ
u32 n = n % 2 ^ 32

abbrev pub u64 : ℕ → ℕ
u64 n = n % 2 ^ 64

-- `~x` of a 64-bit and of a 32-bit word
abbrev pub not64 : ℕ → ℕ
not64 x = 2 ^ 64 - 1 - x

abbrev pub not32 : ℕ → ℕ
not32 x = 2 ^ 32 - 1 - x

-- `a - b` of two 64-bit words
abbrev pub sub64 : ℕ → ℕ → ℕ
sub64 a b = (a + 2 ^ 64 - b) % 2 ^ 64

abbrev pub sub32 : ℕ → ℕ → ℕ
sub32 a b = (a + 2 ^ 32 - b) % 2 ^ 32

infixl 75 ◌<<<◌ ◌>>>◌
abbrev pub ◌<<<◌ : ℕ → ℕ → ℕ
x <<< k = x * 2 ^ k

abbrev pub ◌>>>◌ : ℕ → ℕ → ℕ
x >>> k = x / 2 ^ k

-- `(uintptr_t)-1`
abbrev pub invalid_address : ℕ
invalid_address = 2 ^ 64 - 1

-- `ALIGN_UP` at a 64-bit `align`
unfoldable pub align_up : ℕ → ℕ → ℕ
align_up addr align = bit_and (u64 (addr + sub64 align 1)) (not64 (sub64 align 1))

-- `ALIGN_UP` at an `unsigned int`: `ALIGN - 1` wraps at 32 bits before the cast
unfoldable pub align_up32 : ℕ → ℕ → ℕ
align_up32 addr align = bit_and (u64 (addr + sub32 align 1)) (not64 (sub32 align 1))

unfoldable pub align_down : ℕ → ℕ → ℕ
align_down addr align = bit_and addr (not64 (sub64 align 1))
