-- ===== src/Base/Word.antt =====
-- The fixed-width integers of C++. A `uint64_t` is a number below 2 ^ 64, and a signed integer is
-- its bit pattern.
use Prim.Native.Nat.{ℕ, ◌+◌, ◌-◌, ◌/◌, ◌%◌, ◌^◌}
use mathlib.Core.Bool.{Bool, not}
use riscv_simulator_pipeline.Base.Tests.{ltb, if◌then◌else◌}
use riscv_simulator_pipeline.Base.Int.{ℤ, pos, negsuc}

-- x >> k
abbrev pub shr : ℕ → ℕ → ℕ
shr x k = x / 2 ^ k

-- x & (2 ^ k - 1), which is also the cast to an unsigned type of k bits
abbrev pub low_bits : ℕ → ℕ → ℕ
low_bits x k = x % 2 ^ k

abbrev pub u64 : ℕ → ℕ
u64 x = x % 2 ^ 64

abbrev pub u32 : ℕ → ℕ
u32 x = x % 2 ^ 32

-- The unsigned sum and difference of 64 bits.
abbrev pub add64 : ℕ → ℕ → ℕ
add64 a b = (a + b) % 2 ^ 64

abbrev pub sub64 : ℕ → ℕ → ℕ
sub64 a b = (a + 2 ^ 64 - b) % 2 ^ 64

-- The casts int8_t, int16_t and int32_t, followed by the cast to uint64_t.
abbrev pub sext8 : ℕ → ℕ
sext8 x = if ltb (x % 2 ^ 8) (2 ^ 7) then x % 2 ^ 8 else x % 2 ^ 8 + (2 ^ 64 - 2 ^ 8)

abbrev pub sext16 : ℕ → ℕ
sext16 x = if ltb (x % 2 ^ 16) (2 ^ 15) then x % 2 ^ 16 else x % 2 ^ 16 + (2 ^ 64 - 2 ^ 16)

abbrev pub sext32 : ℕ → ℕ
sext32 x = if ltb (x % 2 ^ 32) (2 ^ 31) then x % 2 ^ 32 else x % 2 ^ 32 + (2 ^ 64 - 2 ^ 32)

-- The number that a pattern stands for as an int64_t or, cut to 32 bits, as an int32_t.
abbrev pub int64 : ℕ → ℤ
int64 x = if ltb x (2 ^ 63) then pos x else negsuc (2 ^ 64 - 1 - x)

abbrev pub int32 : ℕ → ℤ
int32 x = if ltb (x % 2 ^ 32) (2 ^ 31) then pos (x % 2 ^ 32) else negsuc (2 ^ 32 - 1 - x % 2 ^ 32)

-- The cast of an integer to uint64_t, modulo 2 ^ 64.
abbrev pub of_int : ℤ → ℕ
of_int (pos n) = n % 2 ^ 64
of_int (negsuc n) = 2 ^ 64 - 1 - n % 2 ^ 64

-- Whether an integer is outside the range of int64_t or int32_t.
abbrev pub overflows64 : ℤ → Bool
overflows64 (pos n) = not (ltb n (2 ^ 63))
overflows64 (negsuc n) = not (ltb n (2 ^ 63))

abbrev pub overflows32 : ℤ → Bool
overflows32 (pos n) = not (ltb n (2 ^ 31))
overflows32 (negsuc n) = not (ltb n (2 ^ 31))
