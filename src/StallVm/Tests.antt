-- ===== src/StallVm/Tests.antt =====
-- RV5SStallVM on a program of three instructions, in the middle of the pipeline.
use riscv_simulator_pipeline.Base.{ℕ, Bool, ◌==◌, ◌≡◌, refl, true, false, [], ◌∷◌, arith, ◌+◌}
use riscv_simulator_pipeline.Base.{replicate, if◌then◌else◌, ◌>>=◌, Ensures}
use riscv_simulator_pipeline.Alu.{execute}
use riscv_simulator_pipeline.Memory.{
  Memory, read_word, in_range, read_generic, read, is_block_present, byte_in, find_block,
  get_block_index, get_block_offset,
}
use riscv_simulator_pipeline.Registers.{RegisterFile, read_gpr, write_gpr}
use riscv_simulator_pipeline.ControlUnit.{
  get_control_signals, nop_signals, integer_signals, opcode_signals, operation_signals, i_type_op,
  r_type_op, is_floating_point_opcode,
}
use riscv_simulator_pipeline.ControlUnit.Laws.{get_control_signals-IsDecoded}
use riscv_simulator_pipeline.Immediate.{imm_generator, i_imm, sign_extend}
use riscv_simulator_pipeline.Hazard.{detect_data_hazard}
use riscv_simulator_pipeline.Stages.{
  decode, fetch, write_back, write_register, source_data, gpr, set_gpr, memory_stage, access,
  transfer, first_operand, second_operand, outcome,
}
use riscv_simulator_pipeline.VmBase.{running, is_program_end}
use riscv_simulator_pipeline.PipelineRegisters.{
  IfIdReg, if_id_bubble, id_ex_bubble, ex_mem_bubble, mem_wb_bubble,
}
use riscv_simulator_pipeline.StallVm.{
  step, StallVm, cycle, execute_stage, decode_stage, fetch_stage, must_stall, redirect,
}
use riscv_simulator_pipeline.StallVm.Sequential.{drain, exec_instruction, issues, flushes}
use riscv_simulator_pipeline.StallVm.Invariant.{
  IsPipeline, default-IsDecoded, decode-control, cycle-IsPipeline,
}
use riscv_simulator_pipeline.StallVm.Refinement.{cycle_refines}
use riscv_simulator_pipeline.StallVm.Run.{reset, run}
use riscv_simulator_pipeline.StallVm.Run.Laws.{
  IsStepped, IsEndedRun, reset-IsPipeline, step-IsPipeline, run-IsEnded,
}
use riscv_simulator_pipeline.StallVm.Run.Ends.{IsEmptying, HasStopped, run_empties}
use riscv_simulator_pipeline.StallVm.Progress.{three_stalls, no_third_stall}
use riscv_simulator_pipeline.StallVm.Trace.{cycles, issued, exec_all, cycles_refine}

-- addi x1, x0, 5; addi x2, x0, 7; add x3, x1, x2
abbrev five : ℕ
five = 0x00500093

abbrev seven : ℕ
seven = 0x00700113

abbrev sum : ℕ
sum = 0x002081b3

abbrev program : Memory
program = record {
  blocks =
      (0, 0x93 ∷ 0x00 ∷ 0x50 ∷ 0x00 ∷ 0x13 ∷ 0x01 ∷ 0x70 ∷ 0x00 ∷ [])
      ∷ (1, 0xb3 ∷ 0x81 ∷ 0x20 ∷ 0x00 ∷ 0 ∷ 0 ∷ 0 ∷ 0 ∷ [])
      ∷ [];
  block_size = 8;
  memory_size = 64;
}

abbrev registers : RegisterFile
registers = record { gpr = replicate 32 0 }

-- `seven` is in front of the decode stage, `five` in front of the execute stage.
abbrev fetched : ℕ → ℕ → IfIdReg
fetched w pc = record if_id_bubble { is_valid = true; instruction = w; pc = pc; pc_inc = pc + 4 }

abbrev start : StallVm
start = record {
  base = record {
    program_counter = 8;
    program_size = 12;
    cycle_s = 2;
    instructions_retired = 0;
    stall_cycles = 0;
    branch_mispredictions = 0;
    stop_requested = false;
    breakpoints = [];
    output_status = running;
    memory = program;
    registers = registers;
  };
  stall_request = false;
  flush_pipeline = false;
  if_id = fetched seven 4;
  id_ex = decode (fetched five 0) id_ex_bubble registers;
  ex_mem = ex_mem_bubble;
  mem_wb = mem_wb_bubble;
  next_if_id = fetched seven 4;
  next_id_ex = decode (fetched five 0) id_ex_bubble registers;
  next_ex_mem = ex_mem_bubble;
  next_mem_wb = mem_wb_bubble;
}

start-IsPipeline : IsPipeline start
start-IsPipeline = record {
  id_ex_decoded =
      rw (decode-control (fetched five 0) id_ex_bubble registers)
        (get_control_signals-IsDecoded five);
  ex_mem_decoded = default-IsDecoded;
  mem_wb_decoded = default-IsDecoded;
  fetched_inc = λ v. refl;
  fetched_next = λ v. refl;
  fits = omega arith;
  bounded = omega arith;
}

cycle_refines_example :
    (cycle start >>= drain)
    ≡ (if issues start then (drain start >>= exec_instruction seven) else drain start)
cycle_refines_example = cycle_refines start start-IsPipeline

cycles_refine_example : (cycles 9 start >>= drain) ≡ (drain start >>= exec_all (issued 9 start))
cycles_refine_example = cycles_refine 9 start start-IsPipeline

cycle-IsPipeline_example : Ensures IsPipeline (cycle start)
cycle-IsPipeline_example = cycle-IsPipeline start start-IsPipeline

no_third_stall_example : Ensures (λ b. b ≡ false) (three_stalls start)
no_third_stall_example = no_third_stall start

step-IsPipeline_example :
    Ensures
      (λ s'. IsPipeline s' × IsStepped (is_program_end start.output_status) start s')
      (step start)
step-IsPipeline_example = step-IsPipeline start start-IsPipeline

reset-IsPipeline_example : IsPipeline (reset start)
reset-IsPipeline_example = reset-IsPipeline start (omega arith) (omega arith)

-- The main thread asks for a stop in front of the turn number 4.
abbrev stop_at_four : ℕ → Bool
stop_at_four turn = turn == 4

run-IsEnded_example : Ensures (IsEndedRun stop_at_four 10) (run stop_at_four 10 start)
run-IsEnded_example = run-IsEnded stop_at_four 10 start

-- Everything is fetched, and one instruction is left in front of the memory stage.
abbrev last_one : StallVm
last_one = record start {
  base = record (start.base) { program_counter = 12 };
  if_id = if_id_bubble;
  id_ex = id_ex_bubble;
  ex_mem = record ex_mem_bubble {
    is_valid = true;
    control = get_control_signals seven;
    alu_result = 7;
    rd_index = 2;
  };
}

last_one-IsEmptying : IsEmptying last_one
last_one-IsEmptying = record { fetched = refl; none_decoded = refl; none_executed = refl }

run_empties_example : Ensures HasStopped (run stop_at_four 3 last_one)
run_empties_example = run_empties stop_at_four 0 last_one last_one-IsEmptying

decode-control_example :
    (decode (fetched sum 8) id_ex_bubble registers).control ≡ get_control_signals sum
decode-control_example = decode-control (fetched sum 8) id_ex_bubble registers

-- The second instruction is issued at once, the sum after it waits for two cycles.
issued-start : issued 9 start ≡ seven ∷ sum ∷ []
unfolding issued issues flushes cycle execute_stage decode_stage fetch_stage must_stall redirect
    decode fetch write_back write_register source_data gpr set_gpr read_gpr write_gpr memory_stage
    access transfer first_operand second_operand outcome detect_data_hazard execute
    get_control_signals nop_signals integer_signals opcode_signals operation_signals i_type_op
    r_type_op is_floating_point_opcode imm_generator i_imm sign_extend read_word in_range
    read_generic read is_block_present byte_in find_block get_block_index get_block_offset
issued-start = refl
