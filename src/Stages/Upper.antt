-- ===== src/Stages/Upper.antt =====
-- The immediate of lui and auipc.
use riscv_simulator_pipeline.Base.{
  ℕ, ◌+◌, ◌-◌, ◌*◌, ◌/◌, ◌%◌, ◌^◌, ◌<◌, ◌≡◌, ◌∙◌, ◌↔◌, false, ◌&&◌, bit_and, bit_or, arith,
}
use riscv_simulator_pipeline.Base.{ltb, ◌==◌, if◌then◌else◌, sext32}
use riscv_simulator_pipeline.Base.Bits.{bit_and_shifted, bit_and_step, bit_or_fields}
use riscv_simulator_pipeline.Stages.{upper_immediate}

-- The mask 0xa0000000 on the three highest of 32 bits.
mask_high : (u : ℕ) → u < 8 → (bit_and u 5 == 0) ≡ (ltb u 4 && u % 2 == 0)
mask_high u h = ground (arith, bit_and_step u 5, bit_and_step (u / 2) 2, bit_and_step (u / 2 / 2) 1)

mask_zero :
    (immediate : ℕ)
    → immediate < 2 ^ 20
    → (bit_and (immediate * 2 ^ 12) 0xa0000000 == 0)
      ≡ (ltb immediate (2 ^ 19) && immediate / 2 ^ 17 % 2 == 0)
mask_zero immediate h =
    ground (
      arith,
      bit_and_shifted 29 (immediate * 2 ^ 12) 5,
      mask_high (immediate / 2 ^ 17) (omega arith),
    )

fill_high :
    (immediate : ℕ)
    → immediate < 2 ^ 20
    → bit_or (immediate * 2 ^ 12) 0xffffffff00000000 ≡ immediate * 2 ^ 12 + (2 ^ 64 - 2 ^ 32)
fill_high immediate h = bit_or_fields 32 0xffffffff (immediate * 2 ^ 12) (omega arith) ∙ omega arith

-- What Execute_Stage makes of the 20 bits of an instruction.
upper_immediate_lem :
    (immediate : ℕ)
    → immediate < 2 ^ 20
    → upper_immediate immediate ≡ (
        if ltb immediate (2 ^ 19) && immediate / 2 ^ 17 % 2 == 0
        then immediate * 2 ^ 12
        else immediate * 2 ^ 12 + (2 ^ 64 - 2 ^ 32))
unfolding upper_immediate
upper_immediate_lem immediate h = ground (arith, mask_zero immediate h, fill_high immediate h)

-- The 20 bits of lui and auipc are extended as the instruction set says, by their highest bit,
-- exactly if the bit 17 is clear or the highest bit is set: the mask of the execute stage tests
-- both.
pub upper_immediate_exact :
    (immediate : ℕ)
    → immediate < 2 ^ 20
    → (upper_immediate immediate ≡ sext32 (immediate * 2 ^ 12))
      ↔ ((ltb immediate (2 ^ 19) && immediate / 2 ^ 17 % 2 == 1) ≡ false)
upper_immediate_exact immediate h = ground (arith, upper_immediate_lem immediate h)
