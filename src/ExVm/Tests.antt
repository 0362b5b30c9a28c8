-- ===== src/ExVm/Tests.antt =====
-- RV5SEXVM on concrete branches.
use riscv_simulator_pipeline.Base.{◌≡◌, refl, true, false, [], ◌∷◌, Ensures}
use riscv_simulator_pipeline.ControlUnit.{
  get_control_signals, nop_signals, integer_signals, opcode_signals, operation_signals, b_type_op,
  is_floating_point_opcode,
}
use riscv_simulator_pipeline.Immediate.{imm_generator}
use riscv_simulator_pipeline.Registers
use riscv_simulator_pipeline.PipelineRegisters.{
  IfIdReg, if_id_bubble, id_ex_bubble, ex_mem_bubble, mem_wb_bubble,
}
use riscv_simulator_pipeline.Predictor.Dynamic2Bit.{State, dynamic_2bit, two_taken}
use riscv_simulator_pipeline.Stages.{decode}
use riscv_simulator_pipeline.StallVm.{or_else}
use riscv_simulator_pipeline.StallVm.Sequential.{next_pc}
use riscv_simulator_pipeline.ExVm.{Executed, execute_stage, predict}
use riscv_simulator_pipeline.ExVm.Laws.{prediction_recovers}

-- bne x0, x0, 8 at 16, predicted as taken
abbrev branch : IfIdReg
branch = record if_id_bubble { is_valid = true; instruction = 0x00001463; pc = 16; pc_inc = 20 }

abbrev taken : State
taken = record { bht = (16, two_taken) ∷ []; no_mispredictions = 0 }

branch-is_nop : (get_control_signals 0x00001463).is_nop ≡ false
unfolding get_control_signals nop_signals integer_signals opcode_signals operation_signals b_type_op
    is_floating_point_opcode
branch-is_nop = refl

prediction_recovers_example :
    Ensures
      (λ (e : Executed State).
        or_else e.target (
          or_else
            (predict dynamic_2bit (decode branch id_ex_bubble Registers.reset) taken).target
            20)
        ≡ next_pc
            (get_control_signals 0x00001463)
            16
            (imm_generator 0x00001463)
            e.register.alu_result)
      (execute_stage dynamic_2bit true
        (predict dynamic_2bit (decode branch id_ex_bubble Registers.reset) taken).register
        ex_mem_bubble
        mem_wb_bubble
        ex_mem_bubble
        taken)
prediction_recovers_example =
    prediction_recovers dynamic_2bit taken taken true branch id_ex_bubble Registers.reset
      ex_mem_bubble ex_mem_bubble mem_wb_bubble refl refl branch-is_nop
