-- ===== src/Encode/Laws.antt =====
-- The decoder takes the fields and the immediate of a word back out that the code generator put in.
use riscv_simulator_pipeline.Base.{
  ℕ, ◌+◌, ◌-◌, ◌*◌, ◌/◌, ◌%◌, ◌^◌, ◌<◌, ◌≤◌, ◌≡◌, ◌⊎◌, bit_or, arith,
}
use riscv_simulator_pipeline.Base.{u32, shr, low_bits}
use riscv_simulator_pipeline.Base.Bits.{bit_or_append, bit_or_shifted}
use riscv_simulator_pipeline.ControlUnit.{opcode_of, funct3_of, funct7_of}
use riscv_simulator_pipeline.Immediate.{i_imm, s_imm}
use riscv_simulator_pipeline.Immediate.Laws.{widen, i_imm_lem, s_imm_lem}
use riscv_simulator_pipeline.Encode.{
  Encoding, IcUnit, generate_r_type, generate_i1_type, generate_s_type,
}

-- The fields of an encoding have the widths of the formats.
pub record IsEncoding (e : Encoding) : Type 0 where
  pub opcode_7 : e.opcode < 2 ^ 7
  pub funct3_3 : e.funct3 < 2 ^ 3
  pub funct7_7 : e.funct7 < 2 ^ 7
  pub funct6_6 : e.funct6 < 2 ^ 6

-- The registers of a unit are among the 32.
pub record IsUnit (block : IcUnit) : Type 0 where
  pub rd_5 : block.rd < 2 ^ 5
  pub rs1_5 : block.rs1 < 2 ^ 5
  pub rs2_5 : block.rs2 < 2 ^ 5

-- A pattern of 32 bits is a signed number of `bits` bits.
abbrev pub FitsSigned : ℕ → ℕ → Type 0
FitsSigned imm bits = (imm < 2 ^ (bits - 1)) ⊎ ((2 ^ 32 - 2 ^ (bits - 1) ≤ imm) × (imm < 2 ^ 32))

-- The word whose fields from the highest are `q`, from the bit 20 on, `rs1`, `funct3`, `rd` and
-- `opcode`.
abbrev pub word : ℕ → ℕ → ℕ → ℕ → ℕ → ℕ
word q rs1 funct3 rd opcode = (((q * 2 ^ 5 + rs1) * 2 ^ 3 + funct3) * 2 ^ 5 + rd) * 2 ^ 7 + opcode

module _ (q rs1 funct3 rd opcode : ℕ) (h1 : rs1 < 2 ^ 5) (h2 : funct3 < 2 ^ 3) (h3 : rd < 2 ^ 5)
    (h4 : opcode < 2 ^ 7) where
  pub bit_or_fields_below :
      bit_or
        (bit_or
          (bit_or (bit_or (q * 2 ^ 20) (u32 (rs1 * 2 ^ 15))) (u32 (funct3 * 2 ^ 12)))
          (u32 (rd * 2 ^ 7)))
        opcode
      ≡ word q rs1 funct3 rd opcode
  bit_or_fields_below =
      let e1 : u32 (rs1 * 2 ^ 15) ≡ rs1 * 2 ^ 15 = omega arith in
      let e2 : u32 (funct3 * 2 ^ 12) ≡ funct3 * 2 ^ 12 = omega arith in
      let e3 : u32 (rd * 2 ^ 7) ≡ rd * 2 ^ 7 = omega arith in
      rw
        (
          e1,
          e2,
          e3,
          bit_or_append 5 15 q rs1 h1,
          bit_or_append 3 12 (q * 2 ^ 5 + rs1) funct3 h2,
          bit_or_append 5 7 ((q * 2 ^ 5 + rs1) * 2 ^ 3 + funct3) rd h3,
        )
        (bit_or_shifted 7 (((q * 2 ^ 5 + rs1) * 2 ^ 3 + funct3) * 2 ^ 5 + rd) opcode h4)

  pub word-fields :
      (opcode_of (word q rs1 funct3 rd opcode) ≡ opcode)
      × (word q rs1 funct3 rd opcode / 2 ^ 7 % 2 ^ 5 ≡ rd)
      × (funct3_of (word q rs1 funct3 rd opcode) ≡ funct3)
      × (word q rs1 funct3 rd opcode / 2 ^ 15 % 2 ^ 5 ≡ rs1)
      × (word q rs1 funct3 rd opcode / 2 ^ 20 ≡ q)
  word-fields = (omega arith, omega arith, omega arith, omega arith, omega arith)

-- The fields above the bit 20.
upper_fields :
    (w high rs2 : ℕ)
    → w / 2 ^ 20 ≡ high * 2 ^ 5 + rs2
    → rs2 < 2 ^ 5
    → high < 2 ^ 7
    → (w / 2 ^ 20 % 2 ^ 5 ≡ rs2) × (w / 2 ^ 25 % 2 ^ 7 ≡ high)
upper_fields w high rs2 h h1 h2 = (omega arith, omega arith)

widen_s : (imm : ℕ) → FitsSigned imm 12 → widen (imm / 2 ^ 5 % 2 ^ 7 * 2 ^ 5 + imm % 2 ^ 5) 12 ≡ imm
widen_s imm fits = ground (arith, fits)

widen_12 : (imm : ℕ) → FitsSigned imm 12 → widen (imm % 2 ^ 12 % 2 ^ 12) 12 ≡ imm
widen_12 imm fits = ground (arith, fits)

module _ (e : Encoding) (block : IcUnit) (fields : IsEncoding e) (registers : IsUnit block) where
  i1_sum : generate_i1_type e block ≡ word (block.imm % 2 ^ 12) block.rs1 e.funct3 block.rd e.opcode
  unfolding generate_i1_type
  i1_sum =
      let imm : u32 (block.imm * 2 ^ 20) ≡ block.imm % 2 ^ 12 * 2 ^ 20 = omega arith in
      rw imm (
        bit_or_fields_below (block.imm % 2 ^ 12) block.rs1 e.funct3 block.rd e.opcode
          registers.rs1_5 fields.funct3_3 registers.rd_5 fields.opcode_7)

  -- For an encoding of the format's widths and registers among the 32: a word of the I format
  -- that the code generator makes decodes to the opcode, the function code and the registers that
  -- it was made from, and to the immediate, if that is a signed number of 12 bits.
  pub i1_round_trip :
      FitsSigned block.imm 12
      → let w = generate_i1_type e block in
        (opcode_of w ≡ e.opcode)
        × (low_bits (shr w 7) 5 ≡ block.rd)
        × (funct3_of w ≡ e.funct3)
        × (low_bits (shr w 15) 5 ≡ block.rs1)
        × (i_imm w ≡ block.imm)
  i1_round_trip fits =
      let parts =
        word-fields (block.imm % 2 ^ 12) block.rs1 e.funct3 block.rd e.opcode registers.rs1_5
          fields.funct3_3 registers.rd_5 fields.opcode_7 in
      rw (i1_sum, i_imm_lem)
        (parts.0, parts.1, parts.2, parts.3, rw parts.4 (widen_12 block.imm fits))

module _ (e : Encoding) (block : IcUnit) (fields : IsEncoding e) (registers : IsUnit block) where
  s_sum :
      generate_s_type e block
      ≡ word
          (block.imm / 2 ^ 5 % 2 ^ 7 * 2 ^ 5 + block.rs2)
          block.rs1
          e.funct3
          (block.imm % 2 ^ 5)
          e.opcode
  unfolding generate_s_type
  s_sum =
      let high : u32 (block.imm / 2 ^ 5 % 2 ^ 7 * 2 ^ 25) ≡ block.imm / 2 ^ 5 % 2 ^ 7 * 2 ^ 25 =
        omega arith in
      let rs2 : u32 (block.rs2 * 2 ^ 20) ≡ block.rs2 * 2 ^ 20 = omega (arith, registers.rs2_5) in
      rw (high, rs2, bit_or_append 5 20 (block.imm / 2 ^ 5 % 2 ^ 7) block.rs2 registers.rs2_5)
        (bit_or_fields_below (block.imm / 2 ^ 5 % 2 ^ 7 * 2 ^ 5 + block.rs2) block.rs1 e.funct3
          (block.imm % 2 ^ 5) e.opcode registers.rs1_5 fields.funct3_3 (omega arith)
          fields.opcode_7)

  -- For an encoding of the format's widths and registers among the 32: a word of the S format
  -- that the code generator makes decodes to the opcode, the function code and the two registers
  -- that it was made from, and to the immediate, if that is a signed number of 12 bits.
  pub s_round_trip :
      FitsSigned block.imm 12
      → let w = generate_s_type e block in
        (opcode_of w ≡ e.opcode)
        × (funct3_of w ≡ e.funct3)
        × (low_bits (shr w 15) 5 ≡ block.rs1)
        × (low_bits (shr w 20) 5 ≡ block.rs2)
        × (s_imm w ≡ block.imm)
  s_round_trip fits =
      let parts =
        word-fields (block.imm / 2 ^ 5 % 2 ^ 7 * 2 ^ 5 + block.rs2) block.rs1 e.funct3
          (block.imm % 2 ^ 5) e.opcode registers.rs1_5 fields.funct3_3 (omega arith)
          fields.opcode_7 in
      let upper = upper_fields _ _ _ parts.4 registers.rs2_5 (omega arith) in
      rw (s_sum, s_imm_lem)
        (parts.0, parts.2, parts.3, upper.0, rw (upper.1, parts.1) (widen_s block.imm fits))

module _ (e : Encoding) (block : IcUnit) (fields : IsEncoding e) (registers : IsUnit block) where
  r_sum :
      generate_r_type e block
      ≡ word (e.funct7 * 2 ^ 5 + block.rs2) block.rs1 e.funct3 block.rd e.opcode
  unfolding generate_r_type
  r_sum =
      let high : u32 (e.funct7 * 2 ^ 25) ≡ e.funct7 * 2 ^ 25 = omega (arith, fields.funct7_7) in
      let rs2 : u32 (block.rs2 * 2 ^ 20) ≡ block.rs2 * 2 ^ 20 = omega (arith, registers.rs2_5) in
      rw (high, rs2, bit_or_append 5 20 e.funct7 block.rs2 registers.rs2_5)
        (bit_or_fields_below (e.funct7 * 2 ^ 5 + block.rs2) block.rs1 e.funct3 block.rd e.opcode
          registers.rs1_5 fields.funct3_3 registers.rd_5 fields.opcode_7)

  -- For an encoding of the format's widths and registers among the 32: a word of the R format
  -- that the code generator makes decodes to the three codes and the three registers that it was
  -- made from.
  pub r_round_trip :
      let w = generate_r_type e block in
      (opcode_of w ≡ e.opcode)
      × (low_bits (shr w 7) 5 ≡ block.rd)
      × (funct3_of w ≡ e.funct3)
      × (low_bits (shr w 15) 5 ≡ block.rs1)
      × (low_bits (shr w 20) 5 ≡ block.rs2)
      × (funct7_of w ≡ e.funct7)
  r_round_trip =
      let parts =
        word-fields (e.funct7 * 2 ^ 5 + block.rs2) block.rs1 e.funct3 block.rd e.opcode
          registers.rs1_5 fields.funct3_3 registers.rd_5 fields.opcode_7 in
      let upper = upper_fields _ _ _ parts.4 registers.rs2_5 fields.funct7_7 in
      rw r_sum (parts.0, parts.1, parts.2, parts.3, upper.0, upper.1)
