-- ===== src/Encode/Branch.antt =====
-- The round trip of the format B: branches.
use riscv_simulator_pipeline.Base.{ℕ, ◌+◌, ◌*◌, ◌/◌, ◌%◌, ◌^◌, ◌<◌, ◌≡◌, ◌∙◌, arith}
use riscv_simulator_pipeline.Base.{u32, shr, low_bits}
use riscv_simulator_pipeline.Base.Bits.{bit_or_append, bit_or_shifted}
use riscv_simulator_pipeline.ControlUnit.{opcode_of, funct3_of}
use riscv_simulator_pipeline.Immediate.{b_imm}
use riscv_simulator_pipeline.Immediate.Laws.{widen, b_field, b_imm_lem}
use riscv_simulator_pipeline.Encode.{Encoding, IcUnit, generate_b_type}
use riscv_simulator_pipeline.Encode.Laws.{IsEncoding, IsUnit, FitsSigned, word, word-fields}

-- The pieces of a branch offset.
abbrev b_high : ℕ → ℕ
b_high imm = imm / 2 ^ 12 % 2 * 2 ^ 6 + imm / 2 ^ 5 % 2 ^ 6

abbrev b_low : ℕ → ℕ
b_low imm = imm / 2 % 2 ^ 4 * 2 + imm / 2 ^ 11 % 2

widen_13 :
    (imm : ℕ)
    → FitsSigned imm 13
    → imm % 2 ≡ 0
    → widen
        ((imm / 2 ^ 12 % 2 * 2 ^ 11
            + (imm / 2 ^ 11 % 2 * 2 ^ 10 + (imm / 2 ^ 5 % 2 ^ 6 * 2 ^ 4 + imm / 2 % 2 ^ 4)))
          * 2)
        13
      ≡ imm
widen_13 imm fits even = ground (arith, fits)

b_offset :
    (w imm rs2 : ℕ)
    → rs2 < 2 ^ 5
    → w / 2 ^ 20 ≡ b_high imm * 2 ^ 5 + rs2
    → w / 2 ^ 7 % 2 ^ 5 ≡ b_low imm
    → FitsSigned imm 13
    → imm % 2 ≡ 0
    → widen (b_field w * 2) 13 ≡ imm
b_offset w imm rs2 small upper lower fits even =
    let bit12 : w / 2 ^ 31 % 2 ≡ imm / 2 ^ 12 % 2 = omega arith in
    let bits10_5 : w / 2 ^ 25 % 2 ^ 6 ≡ imm / 2 ^ 5 % 2 ^ 6 = omega arith in
    let bit11 : w / 2 ^ 7 % 2 ≡ imm / 2 ^ 11 % 2 = omega arith in
    let bits4_1 : w / 2 ^ 8 % 2 ^ 4 ≡ imm / 2 % 2 ^ 4 = omega arith in
    rw (bit12, bits10_5, bit11, bits4_1) (widen_13 imm fits even)

module _ (e : Encoding) (block : IcUnit) (fields : IsEncoding e) (registers : IsUnit block) where
  b_sum :
      generate_b_type e block
      ≡ word (b_high block.imm * 2 ^ 5 + block.rs2) block.rs1 e.funct3 (b_low block.imm) e.opcode
  unfolding generate_b_type
  b_sum =
      let imm12 : u32 (block.imm / 2 ^ 12 % 2 * 2 ^ 31) ≡ block.imm / 2 ^ 12 % 2 * 2 ^ 31 =
        omega arith in
      let imm10_5 : u32 (block.imm / 2 ^ 5 % 2 ^ 6 * 2 ^ 25) ≡ block.imm / 2 ^ 5 % 2 ^ 6 * 2 ^ 25 =
        omega arith in
      let rs2 : u32 (block.rs2 * 2 ^ 20) ≡ block.rs2 * 2 ^ 20 = omega (arith, registers.rs2_5) in
      let rs1 : u32 (block.rs1 * 2 ^ 15) ≡ block.rs1 * 2 ^ 15 = omega (arith, registers.rs1_5) in
      let funct3 : u32 (e.funct3 * 2 ^ 12) ≡ e.funct3 * 2 ^ 12 = omega (arith, fields.funct3_3) in
      let imm4_1 : u32 (block.imm / 2 % 2 ^ 4 * 2 ^ 8) ≡ block.imm / 2 % 2 ^ 4 * 2 ^ 8 =
        omega arith in
      let imm11 : u32 (block.imm / 2 ^ 11 % 2 * 2 ^ 7) ≡ block.imm / 2 ^ 11 % 2 * 2 ^ 7 =
        omega arith in
      let q = b_high block.imm * 2 ^ 5 + block.rs2 in
      rw
        (
          imm12,
          imm10_5,
          rs2,
          rs1,
          funct3,
          imm4_1,
          imm11,
          bit_or_append 6 25 (block.imm / 2 ^ 12 % 2) (block.imm / 2 ^ 5 % 2 ^ 6) (omega arith),
          bit_or_append 5 20 (b_high block.imm) block.rs2 registers.rs2_5,
          bit_or_append 5 15 q block.rs1 registers.rs1_5,
          bit_or_append 3 12 (q * 2 ^ 5 + block.rs1) e.funct3 fields.funct3_3,
          bit_or_append 4 8 ((q * 2 ^ 5 + block.rs1) * 2 ^ 3 + e.funct3) (block.imm / 2 % 2 ^ 4)
              (omega arith),
          bit_or_append 1 7
              (((q * 2 ^ 5 + block.rs1) * 2 ^ 3 + e.funct3) * 2 ^ 4 + block.imm / 2 % 2 ^ 4)
              (block.imm / 2 ^ 11 % 2) (omega arith),
        )
        (bit_or_shifted 7
            ((((q * 2 ^ 5 + block.rs1) * 2 ^ 3 + e.funct3) * 2 ^ 4 + block.imm / 2 % 2 ^ 4) * 2
              + block.imm / 2 ^ 11 % 2)
            e.opcode fields.opcode_7
          ∙ omega arith)

  -- For an encoding of the format's widths and registers among the 32: a branch that the code
  -- generator makes decodes to the opcode, the function code and the registers that it was made
  -- from, and the immediate generator gives back its offset, if that is even and a signed number
  -- of 13 bits.
  pub b_round_trip :
      FitsSigned block.imm 13
      → block.imm % 2 ≡ 0
      → let w = generate_b_type e block in
        (opcode_of w ≡ e.opcode)
        × (funct3_of w ≡ e.funct3)
        × (low_bits (shr w 15) 5 ≡ block.rs1)
        × (low_bits (shr w 20) 5 ≡ block.rs2)
        × (b_imm w ≡ block.imm)
  b_round_trip fits even =
      let q = b_high block.imm * 2 ^ 5 + block.rs2 in
      let parts =
        word-fields q block.rs1 e.funct3 (b_low block.imm) e.opcode registers.rs1_5 fields.funct3_3
          (omega arith) fields.opcode_7 in
      rw (b_sum, b_imm_lem)
        (
          parts.0,
          parts.2,
          parts.3,
          rw parts.4 (omega (arith, registers.rs2_5)),
          b_offset _ block.imm block.rs2 registers.rs2_5 parts.4 parts.1 fits even,
        )
