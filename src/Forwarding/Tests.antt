-- ===== src/Forwarding/Tests.antt =====
-- The forwarding unit between two additions and an instruction that reads the register of both.
use riscv_simulator_pipeline.Base.{◌≡◌, refl, true, false, arith}
use riscv_simulator_pipeline.Registers.{reset}
use riscv_simulator_pipeline.Registers.Laws.{reset-IsRegisterFile}
use riscv_simulator_pipeline.Stages.{gpr, write_back, transfer}
use riscv_simulator_pipeline.PipelineRegisters.{
  ControlSignals, default_signals, ExMemReg, MemWbReg, mem_wb_bubble, wb_from_alu,
}
use riscv_simulator_pipeline.Forwarding.{get_alu_src_a, get_alu_src_b, forwarded}
use riscv_simulator_pipeline.Forwarding.Laws.{HasSource, forwarded_operand}

abbrev addition : ControlSignals
addition = record default_signals { is_nop = false; reg_write = true; wb_src = wb_from_alu }

abbrev near : ExMemReg
near = record {
  is_valid = true;
  control = addition;
  pc_inc = 8;
  alu_result = 12;
  store_data = 0;
  rd_index = 5;
}

abbrev far : MemWbReg
far = record {
  is_valid = true;
  control = addition;
  pc_inc = 4;
  memory_data = 0;
  alu_result = 11;
  rd_index = 5;
}

addition-HasSource : HasSource true addition 5
addition-HasSource = ground arith

forwarded_operand_example :
    (forwarded (get_alu_src_a 5 near far) (gpr reset 5) near far
      ≡ gpr (write_back (transfer near mem_wb_bubble 0) (write_back far reset)) 5)
    × (forwarded (get_alu_src_b 5 near far) (gpr reset 5) near far
        ≡ gpr (write_back (transfer near mem_wb_bubble 0) (write_back far reset)) 5)
forwarded_operand_example =
    forwarded_operand near mem_wb_bubble far 0 reset 5 addition-HasSource addition-HasSource
      reset-IsRegisterFile (omega arith) refl
