-- ===== src/Encode/Tests.antt =====
-- Round trips at concrete words.
use riscv_simulator_pipeline.Base.{ℕ, ◌%◌, ◌^◌, ◌≡◌, refl, inl, inr, arith, low_bits, shr}
use riscv_simulator_pipeline.ControlUnit.{opcode_of, funct3_of, funct7_of}
use riscv_simulator_pipeline.Immediate.{i_imm, s_imm, b_imm, u_imm, j_imm}
use riscv_simulator_pipeline.Encode.{
  Encoding, IcUnit, generate_r_type, generate_i1_type, generate_s_type, generate_b_type,
  generate_u_type, generate_j_type,
}
use riscv_simulator_pipeline.Encode.Laws.{IsUnit, i1_round_trip, s_round_trip, r_round_trip}
use riscv_simulator_pipeline.Encode.Branch.{b_round_trip}
use riscv_simulator_pipeline.Encode.Jumps.{u_round_trip, j_round_trip}

-- An encoding without further codes, and the one of sub.
abbrev plain : ℕ → ℕ → Encoding
plain opcode funct3 = record { opcode = opcode; funct3 = funct3; funct7 = 0; funct6 = 0 }

abbrev sub : Encoding
sub = record { opcode = 0b0110011; funct3 = 0; funct7 = 0b0100000; funct6 = 0 }

-- x5, x6, x7 and an offset
abbrev unit : ℕ → IcUnit
unit imm = record { rd = 5; rs1 = 6; rs2 = 7; imm = imm }

unit-IsUnit : (imm : ℕ) → IsUnit (unit imm)
unit-IsUnit imm = ground arith

-- addi x5, x6, -3
i1_round_trip_example :
    (opcode_of (generate_i1_type (plain 0b0010011 0) (unit 0xfffffffd)) ≡ 0b0010011)
    × (low_bits (shr (generate_i1_type (plain 0b0010011 0) (unit 0xfffffffd)) 7) 5 ≡ 5)
    × (funct3_of (generate_i1_type (plain 0b0010011 0) (unit 0xfffffffd)) ≡ 0)
    × (low_bits (shr (generate_i1_type (plain 0b0010011 0) (unit 0xfffffffd)) 15) 5 ≡ 6)
    × (i_imm (generate_i1_type (plain 0b0010011 0) (unit 0xfffffffd)) ≡ 0xfffffffd)
i1_round_trip_example =
    i1_round_trip (plain 0b0010011 0) (unit 0xfffffffd) (ground arith) (unit-IsUnit 0xfffffffd)
      (inr (omega arith, omega arith))

-- sd x7, -3(x6)
s_round_trip_example :
    (opcode_of (generate_s_type (plain 0b0100011 3) (unit 0xfffffffd)) ≡ 0b0100011)
    × (funct3_of (generate_s_type (plain 0b0100011 3) (unit 0xfffffffd)) ≡ 3)
    × (low_bits (shr (generate_s_type (plain 0b0100011 3) (unit 0xfffffffd)) 15) 5 ≡ 6)
    × (low_bits (shr (generate_s_type (plain 0b0100011 3) (unit 0xfffffffd)) 20) 5 ≡ 7)
    × (s_imm (generate_s_type (plain 0b0100011 3) (unit 0xfffffffd)) ≡ 0xfffffffd)
s_round_trip_example =
    s_round_trip (plain 0b0100011 3) (unit 0xfffffffd) (ground arith) (unit-IsUnit 0xfffffffd)
      (inr (omega arith, omega arith))

r_round_trip_example :
    (opcode_of (generate_r_type sub (unit 0)) ≡ 0b0110011)
    × (low_bits (shr (generate_r_type sub (unit 0)) 7) 5 ≡ 5)
    × (funct3_of (generate_r_type sub (unit 0)) ≡ 0)
    × (low_bits (shr (generate_r_type sub (unit 0)) 15) 5 ≡ 6)
    × (low_bits (shr (generate_r_type sub (unit 0)) 20) 5 ≡ 7)
    × (funct7_of (generate_r_type sub (unit 0)) ≡ 0b0100000)
r_round_trip_example = r_round_trip sub (unit 0) (ground arith) (unit-IsUnit 0)

-- bne x6, x7, -8
b_round_trip_example :
    (opcode_of (generate_b_type (plain 0b1100011 1) (unit 0xfffffff8)) ≡ 0b1100011)
    × (funct3_of (generate_b_type (plain 0b1100011 1) (unit 0xfffffff8)) ≡ 1)
    × (low_bits (shr (generate_b_type (plain 0b1100011 1) (unit 0xfffffff8)) 15) 5 ≡ 6)
    × (low_bits (shr (generate_b_type (plain 0b1100011 1) (unit 0xfffffff8)) 20) 5 ≡ 7)
    × (b_imm (generate_b_type (plain 0b1100011 1) (unit 0xfffffff8)) ≡ 0xfffffff8)
b_round_trip_example =
    b_round_trip (plain 0b1100011 1) (unit 0xfffffff8) (ground arith) (unit-IsUnit 0xfffffff8)
      (inr (omega arith, omega arith)) refl

-- lui x5, 0x12345
u_round_trip_example :
    (opcode_of (generate_u_type (plain 0b0110111 0) (unit 0x12345)) ≡ 0b0110111)
    × (low_bits (shr (generate_u_type (plain 0b0110111 0) (unit 0x12345)) 7) 5 ≡ 5)
    × (u_imm (generate_u_type (plain 0b0110111 0) (unit 0x12345)) ≡ 0x12345 % 2 ^ 20)
u_round_trip_example =
    u_round_trip (plain 0b0110111 0) (unit 0x12345) (ground arith) (unit-IsUnit 0x12345)

-- jal x5, 2052
j_round_trip_example :
    (opcode_of (generate_j_type (plain 0b1101111 0) (unit 2052)) ≡ 0b1101111)
    × (low_bits (shr (generate_j_type (plain 0b1101111 0) (unit 2052)) 7) 5 ≡ 5)
    × (j_imm (generate_j_type (plain 0b1101111 0) (unit 2052)) ≡ 2052)
j_round_trip_example =
    j_round_trip (plain 0b1101111 0) (unit 2052) (ground arith) (unit-IsUnit 2052)
      (inl (omega arith)) refl
