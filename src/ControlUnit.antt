-- ===== src/ControlUnit.antt =====
-- include/vm/rv5s/rv5s_control_unit.h and src/vm/rv5s/rv5s_control_unit.cpp: the signals that an
-- instruction word sets.
pub mod Laws
mod Tests
use riscv_simulator_pipeline.Base.{ℕ, Bool, true, false, ◌||◌, List, [], ◌∷◌, Option, none, some}
use riscv_simulator_pipeline.Base.{◌==◌, if◌then◌else◌, switch, shr, low_bits}
use riscv_simulator_pipeline.Alu.{AluOp, k_none, k_add, k_addw, k_sub, k_subw, k_mul, k_mulh}
use riscv_simulator_pipeline.Alu.{k_mulhsu, k_mulhu, k_mulw, k_div, k_divw, k_divu, k_divuw, k_rem}
use riscv_simulator_pipeline.Alu.{k_remw, k_remu, k_remuw, k_and, k_or, k_xor, k_sll, k_sllw, k_srl}
use riscv_simulator_pipeline.Alu.{k_srlw, k_sra, k_sraw, k_slt, k_sltu}
use riscv_simulator_pipeline.PipelineRegisters.{
  ControlSignals, default_signals, MemReadOp, mem_read_none, mem_read_byte, mem_read_half,
  mem_read_word, mem_read_double, mem_read_byte_unsigned, mem_read_half_unsigned,
  mem_read_word_unsigned, MemWriteOp, mem_write_none, mem_write_byte, mem_write_half,
  mem_write_word, mem_write_double, wb_from_alu, wb_from_mem, wb_from_pc_inc, alu_src_a_zero,
  alu_src_a_pc, alu_src_a_rs1, BranchOp, b_none, beq, bne, blt, bge, bltu, bgeu, jal, jalr,
}

unfoldable pub is_floating_point_opcode : ℕ → Bool
is_floating_point_opcode opcode =
    switch opcode
      ((0b0000111, true)
        ∷ (0b0100111, true)
        ∷ (0b1010011, true)
        ∷ (0b1000011, true)
        ∷ (0b1000111, true)
        ∷ (0b1001011, true)
        ∷ (0b1001111, true)
        ∷ [])
      false

-- CreateNOP()
abbrev pub create_nop : ControlSignals
create_nop = record default_signals { is_nop = true }

-- `signals` before the first switch: not a no-op, and the first operand is rs1.
abbrev initial : ControlSignals
initial = record default_signals { is_nop = false; alu_src_a = alu_src_a_rs1 }

-- The first switch on the opcode; `none` is its `default`, an unknown opcode.
unfoldable pub opcode_signals : ℕ → Option ControlSignals
opcode_signals opcode =
    switch opcode
      ((0b0110011, some (record initial { reg_write = true; wb_src = wb_from_alu }))
        ∷ (
          0b0000011,
          some (record initial {
            alu_src_b = true;
            wb_src = wb_from_mem;
            reg_write = true;
            mem_read = true;
          }),
        )
        ∷ (0b0100011, some (record initial { alu_src_b = true; mem_write = true }))
        ∷ (0b1100011, some (record initial { branch = true }))
        ∷ (
          0b0010011,
          some (record initial { alu_src_b = true; reg_write = true; wb_src = wb_from_alu }),
        )
        ∷ (
          0b0110111,
          some (record initial {
            alu_src_b = true;
            reg_write = true;
            wb_src = wb_from_alu;
            alu_src_a = alu_src_a_zero;
          }),
        )
        ∷ (
          0b0010111,
          some (record initial {
            alu_src_b = true;
            reg_write = true;
            wb_src = wb_from_alu;
            alu_src_a = alu_src_a_pc;
          }),
        )
        ∷ (
          0b1101111,
          some (record initial {
            reg_write = true;
            branch = true;
            wb_src = wb_from_pc_inc;
            alu_src_a = alu_src_a_pc;
            alu_src_b = true;
          }),
        )
        ∷ (
          0b1100111,
          some (record initial {
            alu_src_b = true;
            reg_write = true;
            branch = true;
            wb_src = wb_from_pc_inc;
          }),
        )
        ∷ (0b0000001, some (record initial { reg_write = true; wb_src = wb_from_alu }))
        ∷ [])
      none

-- The operation of an R-type word; a function code without a case leaves `kNone`.
unfoldable pub r_type_op : ℕ → ℕ → AluOp
r_type_op funct3 funct7 =
    switch funct3
      ((0b000, switch funct7 ((0, k_add) ∷ (0b0100000, k_sub) ∷ (0b0000001, k_mul) ∷ []) k_none)
        ∷ (0b001, switch funct7 ((0, k_sll) ∷ (0b0000001, k_mulh) ∷ []) k_none)
        ∷ (0b010, switch funct7 ((0, k_slt) ∷ (0b0000001, k_mulhsu) ∷ []) k_none)
        ∷ (0b011, switch funct7 ((0, k_sltu) ∷ (0b0000001, k_mulhu) ∷ []) k_none)
        ∷ (0b100, switch funct7 ((0, k_xor) ∷ (0b0000001, k_div) ∷ []) k_none)
        ∷ (0b101, switch funct7 ((0, k_srl) ∷ (0b0100000, k_sra) ∷ (0b0000001, k_divu) ∷ []) k_none)
        ∷ (0b110, switch funct7 ((0, k_or) ∷ (0b0000001, k_rem) ∷ []) k_none)
        ∷ (0b111, switch funct7 ((0, k_and) ∷ (0b0000001, k_remu) ∷ []) k_none)
        ∷ [])
      k_none

unfoldable pub i_type_op : ℕ → ℕ → AluOp
i_type_op funct3 funct7 =
    switch funct3
      ((0b000, k_add)
        ∷ (0b001, k_sll)
        ∷ (0b010, k_slt)
        ∷ (0b011, k_sltu)
        ∷ (0b100, k_xor)
        ∷ (0b101, switch funct7 ((0, k_srl) ∷ (0b0100000, k_sra) ∷ []) k_none)
        ∷ (0b110, k_or)
        ∷ (0b111, k_and)
        ∷ [])
      k_none

unfoldable pub b_type_op : ℕ → AluOp × BranchOp
b_type_op funct3 =
    switch funct3
      ((0b000, (k_sub, beq))
        ∷ (0b001, (k_sub, bne))
        ∷ (0b100, (k_slt, blt))
        ∷ (0b101, (k_slt, bge))
        ∷ (0b110, (k_sltu, bltu))
        ∷ (0b111, (k_sltu, bgeu))
        ∷ [])
      (k_none, b_none)

unfoldable pub load_op : ℕ → MemReadOp
load_op funct3 =
    switch funct3
      ((0b000, mem_read_byte)
        ∷ (0b001, mem_read_half)
        ∷ (0b010, mem_read_word)
        ∷ (0b011, mem_read_double)
        ∷ (0b100, mem_read_byte_unsigned)
        ∷ (0b101, mem_read_half_unsigned)
        ∷ (0b110, mem_read_word_unsigned)
        ∷ [])
      mem_read_none

unfoldable pub store_op : ℕ → MemWriteOp
store_op funct3 =
    switch funct3
      ((0b000, mem_write_byte)
        ∷ (0b001, mem_write_half)
        ∷ (0b010, mem_write_word)
        ∷ (0b011, mem_write_double)
        ∷ [])
      mem_write_none

-- The words of 32 bits: opcodes 0b0011011 and 0b0111011, which the first switch does not know.
unfoldable pub i_word_op : ℕ → ℕ → AluOp
i_word_op funct3 funct7 =
    switch funct3
      ((0b000, k_addw)
        ∷ (0b001, k_sllw)
        ∷ (0b101, switch funct7 ((0, k_srlw) ∷ (0b0100000, k_sraw) ∷ []) k_none)
        ∷ [])
      k_none

unfoldable pub r_word_op : ℕ → ℕ → AluOp
r_word_op funct3 funct7 =
    switch funct3
      ((0b000, switch funct7 ((0, k_addw) ∷ (0b0100000, k_subw) ∷ (0b0000001, k_mulw) ∷ []) k_none)
        ∷ (0b001, k_sllw)
        ∷ (0b100, switch funct7 ((0b0000001, k_divw) ∷ []) k_none)
        ∷ (
          0b101,
          switch funct7 ((0, k_srlw) ∷ (0b0100000, k_sraw) ∷ (0b0000001, k_divuw) ∷ []) k_none,
        )
        ∷ (0b110, switch funct7 ((0b0000001, k_remw) ∷ []) k_none)
        ∷ (0b111, switch funct7 ((0b0000001, k_remuw) ∷ []) k_none)
        ∷ [])
      k_none

-- The second switch on the opcode: which of the operations it sets.
unfoldable pub operation_signals : ℕ → ℕ → ℕ → ControlSignals → ControlSignals
operation_signals opcode funct3 funct7 s =
    switch opcode
      ((0b0110011, record s { alu_op = r_type_op funct3 funct7 })
        ∷ (0b0010011, record s { alu_op = i_type_op funct3 funct7 })
        ∷ (0b1100011, record s { alu_op = (b_type_op funct3).0; branch_op = (b_type_op funct3).1 })
        ∷ (0b0000011, record s { alu_op = k_add; mem_read_op = load_op funct3 })
        ∷ (0b0100011, record s { alu_op = k_add; mem_write_op = store_op funct3 })
        ∷ (0b1100111, record s { alu_op = k_add; branch_op = jalr })
        ∷ (0b1101111, record s { alu_op = k_add; branch_op = jal })
        ∷ (0b0110111, record s { alu_op = k_add })
        ∷ (0b0010111, record s { alu_op = k_add })
        ∷ (0b0000000, record s { alu_op = k_none })
        ∷ (0b1110011, s)
        ∷ (0b0011011, record s { alu_op = i_word_op funct3 funct7 })
        ∷ (0b0111011, record s { alu_op = r_word_op funct3 funct7 })
        ∷ [])
      (record s { alu_op = k_none })

abbrev pub opcode_of : ℕ → ℕ
opcode_of instruction = low_bits instruction 7

abbrev pub funct3_of : ℕ → ℕ
funct3_of instruction = low_bits (shr instruction 12) 3

abbrev pub funct7_of : ℕ → ℕ
funct7_of instruction = low_bits (shr instruction 25) 7

-- The signals of the words that do nothing: 0, addi x0, x0, 0 and add x0, x0, x0.
unfoldable pub nop_signals : ℕ → Option ControlSignals
nop_signals instruction =
    switch instruction
      ((0, some default_signals)
        ∷ (0x00000013, some (record default_signals { alu_op = k_add; alu_src_b = true }))
        ∷ (0x00000033, some (record default_signals { alu_op = k_add }))
        ∷ [])
      none

-- The part of getControlSignals past the test for floating-point opcodes.
unfoldable pub integer_signals : ℕ → ControlSignals
integer_signals instruction = elim (opcode_signals (opcode_of instruction)) [
  | none ↦ create_nop
  | some s ↦
      operation_signals (opcode_of instruction) (funct3_of instruction) (funct7_of instruction) s
]

unfoldable pub get_control_signals : ℕ → ControlSignals
get_control_signals instruction = elim (nop_signals instruction) [
  | some s ↦ s
  | none ↦
      if is_floating_point_opcode (opcode_of instruction)
      then create_nop
      else integer_signals instruction
]
