-- ===== src/Stages.antt =====
-- The stage functions that the pipelined machines share word for word, and the parts of those that
-- differ (src/vm/rv5s/rv5s_stall_vm.cpp, rv5s_vm.cpp, rv5s_ex_vm.cpp, rv5s_id_vm.cpp). A stage maps
-- the register before it and the stale contents of the register behind it to new contents.
pub mod Laws
pub mod Branch
pub mod Upper
mod Tests
use riscv_simulator_pipeline.Base.{ℕ, ◌+◌, ◌*◌, ◌-◌, ◌%◌, ◌^◌, bit_and, bit_or, ◌||◌}
use riscv_simulator_pipeline.Base.{Bool, true, false, not, ◌&&◌, Option, none, some}
use riscv_simulator_pipeline.Base.{ltb, leb, ◌==◌, if◌then◌else◌, shr, low_bits, u64, add64}
use riscv_simulator_pipeline.Base.{sext8, sext16, sext32, Result, ok, err, ◌>>=◌}
use riscv_simulator_pipeline.Memory.{
  Memory, read_byte, read_half_word, read_word, read_double_word, write_byte, write_half_word,
  write_word, write_double_word,
}
use riscv_simulator_pipeline.Registers.{RegisterFile, read_gpr, write_gpr}
use riscv_simulator_pipeline.Alu.{execute}
use riscv_simulator_pipeline.Immediate.{imm_generator}
use riscv_simulator_pipeline.ControlUnit.{opcode_of, funct3_of, get_control_signals}
use riscv_simulator_pipeline.Hazard.{is_jal}
use riscv_simulator_pipeline.PipelineRegisters.{
  ControlSignals, IfIdReg, IdExReg, ExMemReg, MemWbReg, if_id_bubble, id_ex_bubble, ex_mem_bubble,
  mem_wb_bubble, MemReadOp, mem_read_none, mem_read_byte, mem_read_half, mem_read_word,
  mem_read_double, mem_read_byte_unsigned, mem_read_half_unsigned, mem_read_word_unsigned,
  MemWriteOp, mem_write_none, mem_write_byte, mem_write_half, mem_write_word, mem_write_double,
  WriteBackSrc, wb_none, wb_from_alu, wb_from_mem, wb_from_pc_inc, AluSrcA, alu_src_a_rs1,
  alu_src_a_zero, alu_src_a_pc, BranchOp, b_none, beq, bne, blt, bge, bltu, bgeu, jal, jalr,
}

-- registers_.ReadGpr and WriteGpr at an index of five bits, where they do not throw.
unfoldable pub gpr : RegisterFile → ℕ → ℕ
gpr r reg = elim (read_gpr r reg) [ ok value ↦ value | err _ ↦ 0 ]

unfoldable pub set_gpr : RegisterFile → ℕ → ℕ → RegisterFile
set_gpr r reg value = elim (write_gpr r reg value) [ ok r' ↦ r' | err _ ↦ r ]

-- What WriteBack_Stage writes, and getWriteBackData forwards; `none` is the source `WB_NONE`.
unfoldable pub source_data : WriteBackSrc → MemWbReg → Option ℕ
source_data wb_from_alu m = some m.alu_result
source_data wb_from_mem m = some m.memory_data
source_data wb_from_pc_inc m = some m.pc_inc
source_data wb_none m = none

-- The register write of WriteBack_Stage.
unfoldable pub write_register : MemWbReg → RegisterFile → RegisterFile
write_register m r = elim (source_data m.control.wb_src m) [
  | some value ↦ set_gpr r m.rd_index value
  | none ↦ r
]

-- The effect of WriteBack_Stage on the registers.
unfoldable pub write_back : MemWbReg → RegisterFile → RegisterFile
write_back m r =
    if not m.is_valid
    then r
    else if m.control.is_syscall || m.control.is_csr
    then r
    else if m.control.reg_write && not (m.rd_index == 0)
    then write_register m r
    else r

-- The load switch of Memory_Stage; `memory_result` stays 0 on `MEM_READ_NONE`.
unfoldable pub load : MemReadOp → Memory → ℕ → Result ℕ
load mem_read_byte m address = do value ← read_byte m address; ok (sext8 value)
load mem_read_half m address = do value ← read_half_word m address; ok (sext16 value)
load mem_read_word m address = do value ← read_word m address; ok (sext32 value)
load mem_read_double m address = read_double_word m address
load mem_read_byte_unsigned m address = do value ← read_byte m address; ok (low_bits value 8)
load mem_read_half_unsigned m address = do value ← read_half_word m address; ok (low_bits value 16)
load mem_read_word_unsigned m address = do value ← read_word m address; ok (low_bits value 32)
load mem_read_none m address = ok 0

-- The store switch of Memory_Stage.
unfoldable pub store : MemWriteOp → Memory → ℕ → ℕ → Result Memory
store mem_write_byte m address value = write_byte m address (low_bits value 8)
store mem_write_half m address value = write_half_word m address (low_bits value 16)
store mem_write_word m address value = write_word m address (low_bits value 32)
store mem_write_double m address value = write_double_word m address (low_bits value 64)
store mem_write_none m address value = ok m

-- The access of Memory_Stage: `memory_result` and the memory after it.
unfoldable pub access : ControlSignals → Memory → ℕ → ℕ → Result (ℕ × Memory)
access control m address value =
    if control.mem_read
    then (load control.mem_read_op m address >>= λ result. ok (result, m))
    else if control.mem_write
    then (store control.mem_write_op m address value >>= λ m'. ok (0, m'))
    else ok (0, m)

-- The register that Memory_Stage leaves behind an access.
unfoldable pub transfer : ExMemReg → MemWbReg → ℕ → MemWbReg
transfer x next memory_result =
    let moved = record next {
      is_valid = x.is_valid;
      control = x.control;
      pc_inc = x.pc_inc;
      rd_index = x.rd_index;
    } in
    if x.control.mem_read
    then record moved { memory_data = memory_result }
    else record moved { alu_result = x.alu_result }

unfoldable pub memory_stage : ExMemReg → MemWbReg → Memory → Result (MemWbReg × Memory)
memory_stage x next m =
    if not x.is_valid
    then ok (mem_wb_bubble, m)
    else if x.control.is_nop || x.control.is_syscall || x.control.is_csr
    then ok (record next { is_valid = x.is_valid; control = x.control }, m)
    else do
      (memory_result, m') ← access x.control m x.alu_result x.store_data
      ok (transfer x next memory_result, m')

-- The first operand of the ALU, where `rs1` is the value read or forwarded.
unfoldable pub first_operand : AluSrcA → IdExReg → ℕ → ℕ
first_operand alu_src_a_pc d rs1 = d.pc
first_operand alu_src_a_zero d rs1 = 0
first_operand alu_src_a_rs1 d rs1 = rs1

-- The immediate of lui and auipc, shifted and extended.
unfoldable pub upper_immediate : ℕ → ℕ
upper_immediate immediate =
    let value = u64 (sext32 immediate * 2 ^ 12) in
    if bit_and value 0xa0000000 == 0 then value else bit_or value 0xffffffff00000000

-- The second operand of an instruction whose first is the program counter or zero.
unfoldable pub upper_operand : IdExReg → ℕ
upper_operand d =
    if not (is_jal d.control.branch_op) then upper_immediate d.immediate else sext32 d.immediate

-- The second operand of the ALU, where `rs2` is the value read or forwarded.
unfoldable pub second_operand : AluSrcA → IdExReg → ℕ → ℕ
second_operand alu_src_a_rs1 d rs2 = if d.control.alu_src_b then sext32 d.immediate else rs2
second_operand alu_src_a_zero d rs2 = upper_operand d
second_operand alu_src_a_pc d rs2 = upper_operand d

-- The branch switch on the result of the ALU.
unfoldable pub outcome : BranchOp → ℕ → Bool
outcome jal result = true
outcome jalr result = true
outcome beq result = result == 0
outcome bne result = not (result == 0)
outcome blt result = result == 1
outcome bge result = result == 0
outcome bltu result = result == 1
outcome bgeu result = result == 0
outcome b_none result = false

-- Decode_Stage past the tests for an empty register and up to the hazards.
unfoldable pub decode : IfIdReg → IdExReg → RegisterFile → IdExReg
decode f next r =
    let instruction = f.instruction in
    let control = get_control_signals instruction in
    let opcode = opcode_of instruction in
    let started = record next { pc = f.pc; pc_inc = f.pc_inc; is_valid = f.is_valid } in
    if control.is_nop
    then record started { control = control }
    else if opcode == 0b1110011 && funct3_of instruction == 0b000
    then record started { control = record control { is_syscall = true } }
    else if opcode == 0b1110011
    then record started { control = record control { is_csr = true } }
    else let upper = opcode == 0b0110111 || opcode == 0b0010111 in
      let two = opcode == 0b0110011 || opcode == 0b0100011 || opcode == 0b1100011 in
      let rs1 = if upper then 0 else low_bits (shr instruction 15) 5 in
      let rs2 = if two then low_bits (shr instruction 20) 5 else 0 in
      record started {
        rd_index = low_bits (shr instruction 7) 5;
        immediate = imm_generator instruction;
        control = control;
        rs1_index = rs1;
        rs1_data = if upper then 0 else gpr r rs1;
        rs2_index = rs2;
        rs2_data = if two then gpr r rs2 else 0;
      }

-- Fetch_Stage of RV5SVM and RV5SStallVM past the flush: the new register and program counter.
unfoldable pub fetch : IfIdReg → ℕ → ℕ → Memory → IfIdReg × ℕ
fetch next pc program_size m =
    if leb program_size pc then (if_id_bubble, pc) else elim (read_word m pc) [
      | ok instruction ↦ (
        record next { instruction = instruction; pc = pc; pc_inc = add64 pc 4; is_valid = true },
        add64 pc 4,
      )
      | err _ ↦ (record if_id_bubble { pc = pc; pc_inc = add64 pc 4 }, add64 pc 4)
    ]
