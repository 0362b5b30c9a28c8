-- ===== src/Hazard.antt =====
-- include/vm/rv5s/rv5s_hazard_unit.h and src/vm/rv5s/rv5s_hazard_unit.cpp: when the instruction in
-- the decode stage has to wait.
use riscv_simulator_pipeline.Base.{ℕ, Bool, true, false, not, ◌&&◌, ◌||◌, ◌==◌, if◌then◌else◌}
use riscv_simulator_pipeline.PipelineRegisters.{
  ControlSignals, IdExReg, ExMemReg, AluSrcA, alu_src_a_rs1, WriteBackSrc, wb_from_alu, BranchOp,
  jal, jalr,
}

abbrev pub is_rs1 : AluSrcA → Bool
is_rs1 alu_src_a_rs1 = true
is_rs1 _ = false

abbrev pub is_from_alu : WriteBackSrc → Bool
is_from_alu wb_from_alu = true
is_from_alu _ = false

abbrev pub is_jal : BranchOp → Bool
is_jal jal = true
is_jal _ = false

abbrev pub is_jalr : BranchOp → Bool
is_jalr jalr = true
is_jalr _ = false

-- `rs2_reqd`, which both detectors compute alike
unfoldable pub rs2_reqd : ControlSignals → Bool
rs2_reqd signals =
    if not signals.alu_src_b && signals.reg_write && is_from_alu signals.wb_src
    then true
    else if signals.mem_write
    then true
    else signals.branch && not (is_jal signals.branch_op) && not (is_jalr signals.branch_op)

-- The registers that the instruction reads include `rd`, and it is not x0.
unfoldable pub reads_register : Bool → Bool → ℕ → ℕ → ℕ → Bool
reads_register rs1 rs2 rs1_index rs2_index rd =
    not (rd == 0) && (rs1 && rd == rs1_index || rs2 && rd == rs2_index)

unfoldable pub detect_data_hazard : ControlSignals → ℕ → ℕ → IdExReg → ExMemReg → Bool
unfolding rs2_reqd reads_register
detect_data_hazard signals rs1_index rs2_index id_ex ex_mem =
    let rs1 = is_rs1 signals.alu_src_a in
    let rs2 = rs2_reqd signals in
    if id_ex.control.reg_write && reads_register rs1 rs2 rs1_index rs2_index id_ex.rd_index
    then true
    else ex_mem.control.reg_write && reads_register rs1 rs2 rs1_index rs2_index ex_mem.rd_index

unfoldable pub detect_load_use_hazard : ControlSignals → ℕ → ℕ → IdExReg → Bool
unfolding rs2_reqd reads_register
detect_load_use_hazard signals rs1_index rs2_index id_ex =
    if not id_ex.control.mem_read
    then false
    else let rs1 = is_rs1 signals.alu_src_a || is_jalr signals.branch_op in
      reads_register rs1 (rs2_reqd signals) rs1_index rs2_index id_ex.rd_index

unfoldable pub detect_control_hazard : ControlSignals → Bool
detect_control_hazard signals = signals.branch

unfoldable pub detect_hazard : ControlSignals → ℕ → ℕ → IdExReg → ExMemReg → Bool
unfolding detect_control_hazard detect_data_hazard
detect_hazard signals rs1_index rs2_index id_ex ex_mem =
    detect_control_hazard signals || detect_data_hazard signals rs1_index rs2_index id_ex ex_mem
