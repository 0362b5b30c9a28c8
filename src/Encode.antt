-- ===== src/Encode.antt =====
-- src/assembler/code_generator.cpp: the words of the integer formats. The registers of an ICUnit and
-- its immediate are numbers here, as extractRegisterIndex and std::stoi read them from its strings;
-- an immediate, `int` or `uint32_t`, is its pattern of 32 bits. An encoding is the entry of its
-- format's map, which holds fields of the format's widths.
pub mod Laws
pub mod Branch
pub mod Jumps
mod Tests
use riscv_simulator_pipeline.Base.{ℕ, ◌*◌, ◌^◌, bit_and, bit_or, u32, shr, low_bits}

-- instruction_set::RTypeInstructionEncoding and the encodings of the other formats
pub record Encoding : Type 0 where
  pub opcode : ℕ
  pub funct3 : ℕ
  pub funct7 : ℕ
  pub funct6 : ℕ

pub record IcUnit : Type 0 where
  pub rd : ℕ
  pub rs1 : ℕ
  pub rs2 : ℕ
  pub imm : ℕ

-- value << k, of a uint32_t
abbrev pub shl : ℕ → ℕ → ℕ
shl value k = u32 (value * 2 ^ k)

unfoldable pub generate_r_type : Encoding → IcUnit → ℕ
generate_r_type e block =
    let c1 = shl e.funct7 25 in
    let c2 = bit_or c1 (shl block.rs2 20) in
    let c3 = bit_or c2 (shl block.rs1 15) in
    let c4 = bit_or c3 (shl e.funct3 12) in
    let c5 = bit_or c4 (shl block.rd 7) in bit_or c5 e.opcode

unfoldable pub generate_i1_type : Encoding → IcUnit → ℕ
generate_i1_type e block =
    let c1 = shl block.imm 20 in
    let c2 = bit_or c1 (shl block.rs1 15) in
    let c3 = bit_or c2 (shl e.funct3 12) in
    let c4 = bit_or c3 (shl block.rd 7) in bit_or c4 e.opcode

unfoldable pub generate_i2_type : Encoding → IcUnit → ℕ
generate_i2_type e block =
    let c1 = shl e.funct6 26 in
    let c2 = bit_or c1 (shl block.imm 20) in
    let c3 = bit_or c2 (shl block.rs1 15) in
    let c4 = bit_or c3 (shl e.funct3 12) in
    let c5 = bit_or c4 (shl block.rd 7) in bit_or c5 e.opcode

unfoldable pub generate_s_type : Encoding → IcUnit → ℕ
generate_s_type e block =
    let imm_lo = low_bits block.imm 5 in
    let imm_hi = low_bits (shr block.imm 5) 7 in
    let c1 = shl imm_hi 25 in
    let c2 = bit_or c1 (shl block.rs2 20) in
    let c3 = bit_or c2 (shl block.rs1 15) in
    let c4 = bit_or c3 (shl e.funct3 12) in let c5 = bit_or c4 (shl imm_lo 7) in bit_or c5 e.opcode

unfoldable pub generate_b_type : Encoding → IcUnit → ℕ
generate_b_type e block =
    let imm12 = low_bits (shr block.imm 12) 1 in
    let imm10_5 = low_bits (shr block.imm 5) 6 in
    let imm4_1 = low_bits (shr block.imm 1) 4 in
    let imm11 = low_bits (shr block.imm 11) 1 in
    let c1 = shl imm12 31 in
    let c2 = bit_or c1 (shl imm10_5 25) in
    let c3 = bit_or c2 (shl block.rs2 20) in
    let c4 = bit_or c3 (shl block.rs1 15) in
    let c5 = bit_or c4 (shl e.funct3 12) in
    let c6 = bit_or c5 (shl imm4_1 8) in let c7 = bit_or c6 (shl imm11 7) in bit_or c7 e.opcode

unfoldable pub generate_u_type : Encoding → IcUnit → ℕ
generate_u_type e block =
    let imm = low_bits block.imm 20 in
    let c1 = shl imm 12 in let c2 = bit_or c1 (shl block.rd 7) in bit_or c2 e.opcode

unfoldable pub generate_j_type : Encoding → IcUnit → ℕ
generate_j_type e block =
    let c1 = shl (bit_and block.imm 0x100000) 11 in
    let c2 = bit_or c1 (shl (bit_and block.imm 0x7fe) 20) in
    let c3 = bit_or c2 (shl (bit_and block.imm 0x800) 9) in
    let c4 = bit_or c3 (bit_and block.imm 0xff000) in
    let c5 = bit_or c4 (shl block.rd 7) in bit_or c5 e.opcode
