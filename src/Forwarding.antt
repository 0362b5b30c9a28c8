-- ===== src/Forwarding.antt =====
-- include/vm/rv5s/rv5s_forwarding_unit.h and src/vm/rv5s/rv5s_forwarding_unit.cpp: where an operand
-- in the execute stage comes from.
pub mod Laws
mod Tests
use riscv_simulator_pipeline.Base.{
  ℕ, Bool, true, false, ◌&&◌, Option, none, some, ◌==◌, if◌then◌else◌,
}
use riscv_simulator_pipeline.Stages.{source_data}
use riscv_simulator_pipeline.PipelineRegisters.{ExMemReg, MemWbReg}

pub data ForwardSrc : Type 0 where
  from_reg from_ex_mem from_mem_wb : ForwardSrc

unfoldable pub get_alu_src_a : ℕ → ExMemReg → MemWbReg → ForwardSrc
get_alu_src_a id_rs1_index ex_mem mem_wb =
    if id_rs1_index == 0
    then from_reg
    else if ex_mem.control.reg_write && ex_mem.rd_index == id_rs1_index
    then from_ex_mem
    else if mem_wb.control.reg_write && mem_wb.rd_index == id_rs1_index
    then from_mem_wb
    else from_reg

unfoldable pub get_alu_src_b : ℕ → ExMemReg → MemWbReg → ForwardSrc
get_alu_src_b id_rs2_index ex_mem mem_wb =
    if id_rs2_index == 0
    then from_reg
    else if ex_mem.control.reg_write && ex_mem.rd_index == id_rs2_index
    then from_ex_mem
    else if mem_wb.control.reg_write && mem_wb.rd_index == id_rs2_index
    then from_mem_wb
    else from_reg

-- getWriteBackData, 0 for the source `WB_NONE`
unfoldable pub get_write_back_data : MemWbReg → ℕ
get_write_back_data mem_wb = elim (source_data mem_wb.control.wb_src mem_wb) [
  | some value ↦ value
  | none ↦ 0
]

-- The operand that a source selects.
unfoldable pub forwarded : ForwardSrc → ℕ → ExMemReg → MemWbReg → ℕ
forwarded from_reg read ex_mem mem_wb = read
forwarded from_ex_mem read ex_mem mem_wb = ex_mem.alu_result
forwarded from_mem_wb read ex_mem mem_wb = get_write_back_data mem_wb
