-- ===== src/Alu.antt =====
-- include/vm/alu.h and src/vm/alu.cpp: the integer operations of the ALU. A signed sum, difference
-- or product wraps, as the compilers that build the simulator make it; a division that the hardware
-- traps is a fault.
use riscv_simulator_pipeline.Base.{ℕ, ◌+◌, ◌-◌, ◌*◌, ◌/◌, ◌%◌, ◌^◌, bit_and, bit_or, bit_xor}
use riscv_simulator_pipeline.Base.{Bool, true, false, ◌&&◌, ◌||◌, ltb, ◌==◌, if◌then◌else◌}
use riscv_simulator_pipeline.Base.{low_bits, u64, u32, add64, sub64, sext32, int64, int32, of_int}
use riscv_simulator_pipeline.Base.{overflows64, overflows32, Result, ok, err, undefined}
use riscv_simulator_pipeline.Base.Int.{pos, ◌+ℤ◌, ◌-ℤ◌, ◌*ℤ◌, ltb_ℤ, div_ℤ, mod_ℤ, shr_ℤ}

-- `k_float` stands for the floating-point operations, by their place among them.
pub data AluOp : Type 0 where
  k_none k_add k_addw k_sub k_subw : AluOp
  k_mul k_mulh k_mulhsu k_mulhu k_mulw : AluOp
  k_div k_divw k_divu k_divuw k_rem k_remw k_remu k_remuw : AluOp
  k_and k_or k_xor : AluOp
  k_sll k_sllw k_srl k_srlw k_sra k_sraw k_slt k_sltu : AluOp
  k_float : ℕ → AluOp

abbrev pub int64_min : ℕ
int64_min = 2 ^ 63

abbrev pub minus_one : ℕ
minus_one = 2 ^ 64 - 1

abbrev pub of_bool : Bool → ℕ
of_bool true = 1
of_bool false = 0

-- `execute`: the result and the overflow flag.
unfoldable pub execute : AluOp → ℕ → ℕ → Result (ℕ × Bool)
execute k_add a b = ok (add64 a b, overflows64 (int64 a +ℤ int64 b))
execute k_addw a b = ok (sext32 (a + b), overflows32 (int32 a +ℤ int32 b))
execute k_sub a b = ok (sub64 a b, overflows64 (int64 a -ℤ int64 b))
execute k_subw a b = ok (sext32 (sub64 a b), overflows32 (int32 a -ℤ int32 b))
execute k_mul a b = ok (u64 (a * b), overflows64 (int64 a *ℤ int64 b))
execute k_mulh a b = ok (of_int (shr_ℤ (int64 a *ℤ int64 b) 64), false)
execute k_mulhsu a b = ok (of_int (shr_ℤ (int64 a *ℤ pos b) 64), false)
execute k_mulhu a b = ok (u64 (a * b / 2 ^ 64), false)
execute k_mulw a b =
    let result = int32 a *ℤ int32 b in ok (sext32 (of_int result), overflows32 result)
execute k_div a b =
    if b == 0
    then ok (0, false)
    else if a == int64_min && b == minus_one
    then ok (2 ^ 63 - 1, true)
    else ok (of_int (div_ℤ (int64 a) (int64 b)), false)
execute k_divw a b =
    if u32 b == 0
    then ok (0, false)
    else if u32 a == 2 ^ 31 && u32 b == 2 ^ 32 - 1
    then ok (sext32 (2 ^ 31), true)
    else ok (of_int (div_ℤ (int32 a) (int32 b)), false)
execute k_divu a b = if b == 0 then ok (0, false) else ok (a / b, false)
execute k_divuw a b =
    if b == 0
    then ok (0, false)
    else if u32 b == 0
    then err undefined
    else ok (u32 a / u32 b, false)
execute k_rem a b =
    if b == 0
    then ok (0, false)
    else if a == int64_min && b == minus_one
    then err undefined
    else ok (of_int (mod_ℤ (int64 a) (int64 b)), false)
execute k_remw a b =
    if b == 0
    then ok (0, false)
    else if u32 b == 0 || (u32 a == 2 ^ 31 && u32 b == 2 ^ 32 - 1)
    then err undefined
    else ok (of_int (mod_ℤ (int32 a) (int32 b)), false)
execute k_remu a b = if b == 0 then ok (0, false) else ok (a % b, false)
execute k_remuw a b =
    if b == 0
    then ok (0, false)
    else if u32 b == 0
    then err undefined
    else ok (u32 a % u32 b, false)
execute k_and a b = ok (bit_and a b, false)
execute k_or a b = ok (bit_or a b, false)
execute k_xor a b = ok (bit_xor a b, false)
execute k_sll a b = ok (u64 (a * 2 ^ low_bits b 6), false)
execute k_sllw a b = ok (sext32 (u32 a * 2 ^ low_bits b 5), false)
execute k_srl a b = ok (a / 2 ^ low_bits b 6, false)
execute k_srlw a b = ok (sext32 (u32 a / 2 ^ low_bits b 5), false)
execute k_sra a b = ok (of_int (shr_ℤ (int64 a) (low_bits b 6)), false)
execute k_sraw a b = ok (of_int (shr_ℤ (int32 a) (low_bits b 5)), false)
execute k_slt a b = ok (of_bool (ltb_ℤ (int64 a) (int64 b)), false)
execute k_sltu a b = ok (of_bool (ltb a b), false)
execute k_none a b = ok (0, false)
execute (k_float _) a b = ok (0, false)
