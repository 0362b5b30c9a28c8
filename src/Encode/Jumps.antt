-- ===== src/Encode/Jumps.antt =====
-- The round trip of the formats U and J: upper immediates and jumps.
use riscv_simulator_pipeline.Base.{ℕ, ◌+◌, ◌*◌, ◌/◌, ◌%◌, ◌^◌, ◌<◌, ◌≡◌, ◌∙◌, bit_and, arith}
use riscv_simulator_pipeline.Base.{u32, shr, low_bits}
use riscv_simulator_pipeline.Base.Bits.{
  bit_or_append, bit_or_shifted, bit_and_shifted, bit_and_ones,
}
use riscv_simulator_pipeline.ControlUnit.{opcode_of}
use riscv_simulator_pipeline.Immediate.{u_imm, j_imm}
use riscv_simulator_pipeline.Immediate.Laws.{widen, j_field, u_imm_lem, j_imm_lem}
use riscv_simulator_pipeline.Encode.{Encoding, IcUnit, generate_u_type, generate_j_type}
use riscv_simulator_pipeline.Encode.Laws.{IsEncoding, IsUnit, FitsSigned}

-- The masks of the pieces of a jump offset.
j_mask20 : (imm : ℕ) → u32 (bit_and imm 0x100000 * 2 ^ 11) ≡ imm / 2 ^ 20 % 2 * 2 ^ 31
j_mask20 imm = rw (bit_and_shifted 20 imm 1, bit_and_ones 1 (imm / 2 ^ 20)) (omega arith)

j_mask10_1 : (imm : ℕ) → u32 (bit_and imm 0x7fe * 2 ^ 20) ≡ imm / 2 % 2 ^ 10 * 2 ^ 21
j_mask10_1 imm = rw (bit_and_shifted 1 imm 0x3ff, bit_and_ones 10 (imm / 2)) (omega arith)

j_mask11 : (imm : ℕ) → u32 (bit_and imm 0x800 * 2 ^ 9) ≡ imm / 2 ^ 11 % 2 * 2 ^ 20
j_mask11 imm = rw (bit_and_shifted 11 imm 1, bit_and_ones 1 (imm / 2 ^ 11)) (omega arith)

j_mask19_12 : (imm : ℕ) → bit_and imm 0xff000 ≡ imm / 2 ^ 12 % 2 ^ 8 * 2 ^ 12
j_mask19_12 imm = rw (bit_and_shifted 12 imm 0xff, bit_and_ones 8 (imm / 2 ^ 12)) (omega arith)

widen_21 :
    (imm : ℕ)
    → FitsSigned imm 21
    → imm % 2 ≡ 0
    → widen
        ((imm / 2 ^ 20 % 2 * 2 ^ 19
            + (imm / 2 ^ 12 % 2 ^ 8 * 2 ^ 11 + (imm / 2 ^ 11 % 2 * 2 ^ 10 + imm / 2 % 2 ^ 10)))
          * 2)
        21
      ≡ imm
widen_21 imm fits even = ground (arith, fits)

j_offset :
    (imm rd opcode : ℕ)
    → rd < 2 ^ 5
    → opcode < 2 ^ 7
    → FitsSigned imm 21
    → imm % 2 ≡ 0
    → let w =
        ((((imm / 2 ^ 20 % 2 * 2 ^ 10 + imm / 2 % 2 ^ 10) * 2 + imm / 2 ^ 11 % 2) * 2 ^ 8
                + imm / 2 ^ 12 % 2 ^ 8)
              * 2 ^ 5
            + rd)
          * 2 ^ 7
        + opcode in
      widen (j_field w * 2) 21 ≡ imm
j_offset imm rd opcode h1 h2 fits even =
    let w =
      ((((imm / 2 ^ 20 % 2 * 2 ^ 10 + imm / 2 % 2 ^ 10) * 2 + imm / 2 ^ 11 % 2) * 2 ^ 8
              + imm / 2 ^ 12 % 2 ^ 8)
            * 2 ^ 5
          + rd)
        * 2 ^ 7
      + opcode in
    let bit20 : w / 2 ^ 31 % 2 ≡ imm / 2 ^ 20 % 2 = omega arith in
    let bits19_12 : w / 2 ^ 12 % 2 ^ 8 ≡ imm / 2 ^ 12 % 2 ^ 8 = omega arith in
    let bit11 : w / 2 ^ 20 % 2 ≡ imm / 2 ^ 11 % 2 = omega arith in
    let bits10_1 : w / 2 ^ 21 % 2 ^ 10 ≡ imm / 2 % 2 ^ 10 = omega arith in
    rw (bit20, bits19_12, bit11, bits10_1) (widen_21 imm fits even)

module _ (e : Encoding) (block : IcUnit) (fields : IsEncoding e) (registers : IsUnit block) where
  u_sum : generate_u_type e block ≡ (block.imm % 2 ^ 20 * 2 ^ 5 + block.rd) * 2 ^ 7 + e.opcode
  unfolding generate_u_type
  u_sum =
      let imm : u32 (block.imm % 2 ^ 20 * 2 ^ 12) ≡ block.imm % 2 ^ 20 * 2 ^ 12 = omega arith in
      let rd : u32 (block.rd * 2 ^ 7) ≡ block.rd * 2 ^ 7 = omega (arith, registers.rd_5) in
      rw (imm, rd, bit_or_append 5 7 (block.imm % 2 ^ 20) block.rd registers.rd_5)
        (bit_or_shifted 7 (block.imm % 2 ^ 20 * 2 ^ 5 + block.rd) e.opcode fields.opcode_7)

  -- For an encoding of the format's widths and registers among the 32: a word of the U format
  -- that the code generator makes decodes to the opcode and the register that it was made from,
  -- and to the lowest 20 bits of the immediate.
  pub u_round_trip :
      let w = generate_u_type e block in
      (opcode_of w ≡ e.opcode) × (low_bits (shr w 7) 5 ≡ block.rd) × (u_imm w ≡ block.imm % 2 ^ 20)
  u_round_trip =
      let below : (block.imm % 2 ^ 20 * 2 ^ 5 + block.rd) * 2 ^ 7 + e.opcode < 2 ^ 32 =
        omega (arith, registers.rd_5, fields.opcode_7) in
      rw u_sum (
        omega (arith, fields.opcode_7),
        omega (arith, registers.rd_5, fields.opcode_7),
        u_imm_lem _ below ∙ omega (arith, registers.rd_5, fields.opcode_7),
      )

  -- The word of a jump by its fields.
  j_sum :
      generate_j_type e block
      ≡ ((((block.imm / 2 ^ 20 % 2 * 2 ^ 10 + block.imm / 2 % 2 ^ 10) * 2 + block.imm / 2 ^ 11 % 2)
                  * 2 ^ 8
                + block.imm / 2 ^ 12 % 2 ^ 8)
              * 2 ^ 5
            + block.rd)
          * 2 ^ 7
        + e.opcode
  unfolding generate_j_type
  j_sum =
      let i20 = block.imm / 2 ^ 20 % 2 in
      let i10_1 = block.imm / 2 % 2 ^ 10 in
      let i11 = block.imm / 2 ^ 11 % 2 in
      let i19_12 = block.imm / 2 ^ 12 % 2 ^ 8 in
      let rd : u32 (block.rd * 2 ^ 7) ≡ block.rd * 2 ^ 7 = omega (arith, registers.rd_5) in
      rw
        (
          j_mask20 block.imm,
          j_mask10_1 block.imm,
          j_mask11 block.imm,
          j_mask19_12 block.imm,
          rd,
          bit_or_append 10 21 i20 i10_1 (omega arith),
          bit_or_append 1 20 (i20 * 2 ^ 10 + i10_1) i11 (omega arith),
          bit_or_append 8 12 ((i20 * 2 ^ 10 + i10_1) * 2 + i11) i19_12 (omega arith),
          bit_or_append 5 7 (((i20 * 2 ^ 10 + i10_1) * 2 + i11) * 2 ^ 8 + i19_12) block.rd
              registers.rd_5,
        )
        (bit_or_shifted 7 ((((i20 * 2 ^ 10 + i10_1) * 2 + i11) * 2 ^ 8 + i19_12) * 2 ^ 5 + block.rd)
          e.opcode fields.opcode_7)

  -- For an encoding of the format's widths and registers among the 32: a jump that the code
  -- generator makes decodes to the opcode and the register that it was made from, and the
  -- immediate generator gives back its offset, if that is even and a signed number of 21 bits.
  pub j_round_trip :
      FitsSigned block.imm 21
      → block.imm % 2 ≡ 0
      → let w = generate_j_type e block in
        (opcode_of w ≡ e.opcode) × (low_bits (shr w 7) 5 ≡ block.rd) × (j_imm w ≡ block.imm)
  j_round_trip fits even =
      rw (j_sum, j_imm_lem)
        (
          omega (arith, fields.opcode_7),
          omega (arith, registers.rd_5, fields.opcode_7),
          j_offset block.imm block.rd e.opcode registers.rd_5 fields.opcode_7 fits even,
        )
