-- ===== src/StallVm.antt =====
-- include/vm/rv5s/rv5s_stall_vm.h and src/vm/rv5s/rv5s_stall_vm.cpp: the five-stage machine that
-- stalls on data hazards and resolves branches in the execute stage.
pub mod Sequential
pub mod Invariant
pub mod Frame
pub mod Execute
pub mod Issue
pub mod Drain
pub mod Refinement
pub mod Run
pub mod Progress
pub mod Trace
mod Tests
use riscv_simulator_pipeline.Base.{ℕ, zero, suc, Bool, true, false, not, ◌&&◌, ◌||◌}
use riscv_simulator_pipeline.Base.{Option, none, some, ltb, leb, ◌==◌, if◌then◌else◌, sext32, add64}
use riscv_simulator_pipeline.Base.{Result, ok, err, ◌>>=◌}
use riscv_simulator_pipeline.Alu.{execute}
use riscv_simulator_pipeline.Memory
use riscv_simulator_pipeline.Memory.{Memory}
use riscv_simulator_pipeline.Registers
use riscv_simulator_pipeline.Registers.{RegisterFile}
use riscv_simulator_pipeline.Hazard.{detect_data_hazard, is_jal, is_jalr}
use riscv_simulator_pipeline.Stages.{
  write_back, memory_stage, first_operand, second_operand, outcome, decode, fetch,
}
use riscv_simulator_pipeline.VmBase.{
  VmBase, Status, running, step_completed, program_end, breakpoint_hit, is_program_end, incr,
  incr_if, check_breakpoint,
}
use riscv_simulator_pipeline.PipelineRegisters.{
  ControlSignals, IfIdReg, IdExReg, ExMemReg, MemWbReg, if_id_bubble, id_ex_bubble, ex_mem_bubble,
  mem_wb_bubble,
}

pub record StallVm : Type 0 where
  pub base : VmBase
  pub open base use *
  pub stall_request : Bool
  pub flush_pipeline : Bool
  pub if_id : IfIdReg
  pub id_ex : IdExReg
  pub ex_mem : ExMemReg
  pub mem_wb : MemWbReg
  pub next_if_id : IfIdReg
  pub next_id_ex : IdExReg
  pub next_ex_mem : ExMemReg
  pub next_mem_wb : MemWbReg

-- The branch of Execute_Stage: the target of a jump or a taken branch.
unfoldable pub redirect : IdExReg → ℕ → Option ℕ
redirect d result =
    let op = d.control.branch_op in
    if is_jal op || is_jalr op
    then some result
    else if d.control.branch && outcome op result
    then some (add64 d.pc (sext32 d.immediate))
    else none

-- Execute_Stage: the register behind it, and the new program counter if the pipeline is flushed.
unfoldable pub execute_stage : IdExReg → ExMemReg → Result (ExMemReg × Option ℕ)
execute_stage d next =
    if not d.is_valid
    then ok (ex_mem_bubble, none)
    else if d.control.is_nop
    then ok (record next { control = d.control; is_valid = d.is_valid }, none)
    else do
      (result, overflow) ←
          execute d.control.alu_op (first_operand d.control.alu_src_a d d.rs1_data)
            (second_operand d.control.alu_src_a d d.rs2_data)
      ok (
        record next {
          control = d.control;
          is_valid = d.is_valid;
          pc_inc = d.pc_inc;
          alu_result = result;
          store_data = d.rs2_data;
          rd_index = d.rd_index;
        },
        redirect d result,
      )

-- The hazard test of Decode_Stage, on what it has just decoded. A no-op returns before the test.
unfoldable pub must_stall : IdExReg → IdExReg → ExMemReg → Bool
must_stall decoded id_ex ex_mem =
    let c = decoded.control in
    not (c.is_nop || c.is_syscall || c.is_csr)
    && detect_data_hazard c decoded.rs1_index decoded.rs2_index id_ex ex_mem

-- Decode_Stage: the register behind it, and whether it requests a stall.
unfoldable pub decode_stage :
    Bool → IfIdReg → IdExReg → ExMemReg → IdExReg → RegisterFile → IdExReg × Bool
decode_stage flush if_id id_ex ex_mem next r =
    if flush || not if_id.is_valid
    then (id_ex_bubble, false)
    else let decoded = decode if_id next r in
      if must_stall decoded id_ex ex_mem then (id_ex_bubble, true) else (decoded, false)

-- Fetch_Stage, skipped on a stall: the register behind it and the program counter.
unfoldable pub fetch_stage : Bool → Bool → IfIdReg → ℕ → ℕ → Memory → IfIdReg × ℕ
fetch_stage stall flush next pc program_size m =
    if stall then (next, pc) else if flush then (if_id_bubble, pc) else fetch next pc program_size m

abbrev pub is_some {ℓ} : {A : Type ℓ} → Option A → Bool
is_some none = false
is_some (some a) = true

abbrev pub or_else : Option ℕ → ℕ → ℕ
or_else none pc = pc
or_else (some target) pc = target

-- A cycle of Step, with the stages run from the last to the first.
unfoldable pub cycle : StallVm → Result StallVm
cycle s = do
  let registers = write_back s.mem_wb s.registers
  (mem_wb, memory) ← memory_stage s.ex_mem s.next_mem_wb s.memory
  (ex_mem, target) ← execute_stage s.id_ex s.next_ex_mem
  let flush = is_some target
  let (id_ex, stall) = decode_stage flush s.if_id s.id_ex s.ex_mem s.next_id_ex registers
  let pc = or_else target s.program_counter
  let (next_if_id, pc') = fetch_stage stall flush s.next_if_id pc s.program_size memory
  ok (record s {
    base = record (s.base) {
      program_counter = pc';
      cycle_s = incr s.cycle_s;
      instructions_retired = incr_if s.mem_wb.is_valid s.instructions_retired;
      stall_cycles = incr_if stall s.stall_cycles;
      memory = memory;
      registers = registers;
    };
    stall_request = stall;
    flush_pipeline = flush;
    if_id = if stall then s.if_id else next_if_id;
    id_ex = id_ex;
    ex_mem = ex_mem;
    mem_wb = mem_wb;
    next_if_id = next_if_id;
    next_id_ex = id_ex;
    next_ex_mem = ex_mem;
    next_mem_wb = mem_wb;
  })

-- Whether everything is fetched and the pipeline is empty.
unfoldable pub is_done : StallVm → Bool
is_done s =
    leb s.program_size s.program_counter
    && (not s.if_id.is_valid
        && not s.id_ex.is_valid
        && not s.ex_mem.is_valid
        && not s.mem_wb.is_valid)

-- The end of Step: stop, or report the step.
unfoldable pub finish : StallVm → StallVm
finish s =
    if is_done s
    then record s { base = record (s.base) { stop_requested = true; output_status = program_end } }
    else record s { base = record (s.base) { output_status = step_completed } }

unfoldable pub step : StallVm → Result StallVm
step s = if is_program_end s.output_status then ok s else (cycle s >>= λ s'. ok (finish s'))
