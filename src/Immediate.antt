-- ===== src/Immediate.antt =====
-- src/vm/vm_base.cpp: `sign_extend` and ImmGenerator, the immediate that an instruction word holds.
-- An `int32_t` is its bit pattern.
pub mod Laws
use riscv_simulator_pipeline.Base.{ℕ, ◌+◌, ◌-◌, ◌*◌, ◌%◌, ◌^◌, bit_or, bit_xor, bit_and}
use riscv_simulator_pipeline.Base.{List, [], ◌∷◌, switch, ◌==◌, if◌then◌else◌, shr, low_bits, u32}
use riscv_simulator_pipeline.ControlUnit.{opcode_of}

-- (value ^ mask) - mask, where mask is the bit `bits - 1`
unfoldable pub sign_extend : ℕ → ℕ → ℕ
sign_extend value bits = let mask = 2 ^ (bits - 1) in (bit_xor value mask + 2 ^ 32 - mask) % 2 ^ 32

unfoldable pub i_imm : ℕ → ℕ
unfolding sign_extend
i_imm instruction = sign_extend (low_bits (shr instruction 20) 12) 12

unfoldable pub s_imm : ℕ → ℕ
unfolding sign_extend
s_imm instruction =
    sign_extend (bit_or (low_bits (shr instruction 7) 5) (low_bits (shr instruction 25) 7 * 2 ^ 5))
      12

unfoldable pub b_imm : ℕ → ℕ
unfolding sign_extend
b_imm instruction =
    let imm =
      bit_or
        (bit_or (bit_or (low_bits (shr instruction 8) 4) (low_bits (shr instruction 25) 6 * 2 ^ 4))
          (low_bits (shr instruction 7) 1 * 2 ^ 10))
        (low_bits (shr instruction 31) 1 * 2 ^ 11) in
    sign_extend (u32 (imm * 2)) 13

unfoldable pub u_imm : ℕ → ℕ
u_imm instruction = shr (bit_and instruction 0xfffff000) 12

unfoldable pub j_imm : ℕ → ℕ
unfolding sign_extend
j_imm instruction =
    let imm =
      bit_or
        (bit_or
          (bit_or (low_bits (shr instruction 21) 10) (low_bits (shr instruction 20) 1 * 2 ^ 10))
          (low_bits (shr instruction 12) 8 * 2 ^ 11))
        (low_bits (shr instruction 31) 1 * 2 ^ 19) in
    sign_extend (u32 (imm * 2)) 21

unfoldable pub imm_generator : ℕ → ℕ
imm_generator instruction =
    switch (opcode_of instruction)
      ((0b0010011, i_imm instruction)
        ∷ (0b0000011, i_imm instruction)
        ∷ (0b1100111, i_imm instruction)
        ∷ (0b0001111, i_imm instruction)
        ∷ (0b0000111, i_imm instruction)
        ∷ (0b0100011, s_imm instruction)
        ∷ (0b0100111, s_imm instruction)
        ∷ (0b1100011, b_imm instruction)
        ∷ (0b0110111, u_imm instruction)
        ∷ (0b0010111, u_imm instruction)
        ∷ (0b1101111, j_imm instruction)
        ∷ (0b0110011, 0)
        ∷ (0b1010011, 0)
        ∷ [])
      0
