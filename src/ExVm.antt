-- ===== src/ExVm.antt =====
-- include/vm/rv5s/rv5s_ex_vm.h and src/vm/rv5s/rv5s_ex_vm.cpp: the five-stage machine that forwards
-- results and predicts branches, which the execute stage resolves. Its branch predictor is any object
-- of the interface.
pub mod Laws
mod Tests
use riscv_simulator_pipeline.Base.{ℕ, Bool, true, false, not, ◌&&◌, ◌||◌, Option, none, some}
use riscv_simulator_pipeline.Base.{leb, if◌then◌else◌, sext32, add64, Result, ok, ◌>>=◌}
use riscv_simulator_pipeline.Alu.{execute}
use riscv_simulator_pipeline.Memory.{Memory}
use riscv_simulator_pipeline.Registers.{RegisterFile}
use riscv_simulator_pipeline.Hazard.{detect_data_hazard, detect_load_use_hazard, is_jal, is_jalr}
use riscv_simulator_pipeline.Forwarding.{get_alu_src_a, get_alu_src_b, forwarded}
use riscv_simulator_pipeline.Predictor.{BranchPredictor, differs}
use riscv_simulator_pipeline.Stages.{
  write_back, memory_stage, first_operand, second_operand, outcome, decode, fetch,
}
use riscv_simulator_pipeline.VmBase.{
  VmBase, Status, step_completed, program_end, is_program_end, incr, incr_if,
}
use riscv_simulator_pipeline.StallVm.{is_some, or_else, fetch_stage}
use riscv_simulator_pipeline.PipelineRegisters.{
  IfIdReg, IdExReg, ExMemReg, MemWbReg, if_id_bubble, id_ex_bubble, ex_mem_bubble,
}

-- RV5SEXVM, where `predictor` is the state of `branch_predictor_`
pub record ExVm (S : Type 0) : Type 0 where
  pub base : VmBase
  pub open base use *
  pub predictor : S
  pub stall_request : Bool
  pub flush_pipeline : Bool
  pub forwarding_enabled : Bool
  pub if_id : IfIdReg
  pub id_ex : IdExReg
  pub ex_mem : ExMemReg
  pub mem_wb : MemWbReg
  pub next_if_id : IfIdReg
  pub next_id_ex : IdExReg
  pub next_ex_mem : ExMemReg
  pub next_mem_wb : MemWbReg

-- data_alu_a and data_alu_b of Execute_Stage
unfoldable pub operand_values : Bool → IdExReg → ExMemReg → MemWbReg → ℕ × ℕ
operand_values forwarding d x w =
    if forwarding
    then (
      forwarded (get_alu_src_a d.rs1_index x w) d.rs1_data x w,
      forwarded (get_alu_src_b d.rs2_index x w) d.rs2_data x w,
    )
    else (d.rs1_data, d.rs2_data)

-- `actual_outcome`
unfoldable pub actual_outcome : IdExReg → ℕ → Bool
actual_outcome d result =
    let op = d.control.branch_op in
    if is_jal op || is_jalr op then true else d.control.branch && outcome op result

-- `target_address`, for a branch that is taken
unfoldable pub target_address : IdExReg → ℕ → ℕ
target_address d result =
    let op = d.control.branch_op in
    if is_jal op || is_jalr op then result else add64 d.pc (sext32 d.immediate)

-- Whether `branch_mispredictions_` counts the branch.
unfoldable pub is_mispredicted : IdExReg → ℕ → Bool
is_mispredicted d result =
    d.control.branch
    && (not (is_jalr d.control.branch_op) && differs d.predicted_outcome (actual_outcome d result))

-- The end of Execute_Stage: the new program counter if the pipeline is flushed.
unfoldable pub resolve : IdExReg → ℕ → Option ℕ
resolve d result =
    if not d.control.branch
    then none
    else if is_jalr d.control.branch_op
    then some (target_address d result)
    else if differs d.predicted_outcome (actual_outcome d result)
    then some (if actual_outcome d result then target_address d result else d.pc_inc)
    else none

-- What Execute_Stage leaves: the register behind it, the new program counter if it flushes, the
-- predictor and whether there was a misprediction.
pub record Executed (S : Type 0) : Type 0 where
  pub register : ExMemReg
  pub target : Option ℕ
  pub predictor : S
  pub mispredicted : Bool

-- The hazard test of Decode_Stage. A no-op returns before it.
unfoldable pub must_stall : Bool → IdExReg → IdExReg → ExMemReg → Bool
must_stall forwarding decoded id_ex ex_mem =
    let c = decoded.control in
    not (c.is_nop || c.is_syscall || c.is_csr)
    && (if forwarding
        then detect_load_use_hazard c decoded.rs1_index decoded.rs2_index id_ex
        else detect_data_hazard c decoded.rs1_index decoded.rs2_index id_ex ex_mem)

-- What Decode_Stage leaves: the register behind it, whether it stalls, whether it flushes what is
-- fetched, and the new program counter if it predicts a branch as taken.
pub record Decoded : Type 0 where
  pub register : IdExReg
  pub stall : Bool
  pub flush : Bool
  pub target : Option ℕ

module _ {S : Type 0} (p : BranchPredictor S) where
  unfoldable pub execute_stage :
      Bool → IdExReg → ExMemReg → MemWbReg → ExMemReg → S → Result (Executed S)
  execute_stage forwarding d x w next predictor =
      if not d.is_valid
      then ok (record {
        register = ex_mem_bubble;
        target = none;
        predictor = predictor;
        mispredicted = false;
      })
      else if d.control.is_nop || (d.control.is_csr || d.control.is_syscall)
      then ok (record {
        register = record next { control = d.control; is_valid = d.is_valid };
        target = none;
        predictor = predictor;
        mispredicted = false;
      })
      else let values = operand_values forwarding d x w in
        (execute d.control.alu_op (first_operand d.control.alu_src_a d values.0)
            (second_operand d.control.alu_src_a d values.1)
          >>= λ q. ok (record {
            register = record next {
              control = d.control;
              is_valid = d.is_valid;
              pc_inc = d.pc_inc;
              alu_result = q.0;
              store_data = values.1;
              rd_index = d.rd_index;
            };
            target = resolve d q.0;
            predictor =
                if d.control.branch
                then p.update_state predictor d.pc d.predicted_outcome (actual_outcome d q.0)
                else predictor;
            mispredicted = is_mispredicted d q.0;
          }))

  -- The resolution of control hazards in Decode_Stage, on what it has just decoded.
  unfoldable pub predict : IdExReg → S → Decoded
  predict decoded predictor =
      let c = decoded.control in
      let target = add64 decoded.pc (sext32 decoded.immediate) in
      if c.is_nop || (c.is_syscall || c.is_csr)
      then record { register = decoded; stall = false; flush = false; target = none }
      else if is_jal c.branch_op || is_jalr c.branch_op
      then record {
        register = record decoded { predicted_outcome = true };
        stall = false;
        flush = true;
        target = if is_jal c.branch_op then some target else none;
      }
      else if c.branch
      then record {
        register = record decoded { predicted_outcome = p.get_prediction predictor decoded.pc };
        stall = false;
        flush = p.get_prediction predictor decoded.pc;
        target = if p.get_prediction predictor decoded.pc then some target else none;
      }
      else record { register = decoded; stall = false; flush = false; target = none }

  unfoldable pub decode_stage :
      Bool → Bool → IfIdReg → IdExReg → ExMemReg → IdExReg → RegisterFile → S → Decoded
  decode_stage forwarding flush if_id id_ex ex_mem next r predictor =
      if flush || not if_id.is_valid
      then record { register = id_ex_bubble; stall = false; flush = false; target = none }
      else let decoded = decode if_id next r in
        if must_stall forwarding decoded id_ex ex_mem
        then record { register = id_ex_bubble; stall = true; flush = false; target = none }
        else predict decoded predictor

  -- A cycle of Step. A flush is counted as a stall by Fetch_Stage, and by Decode_Stage where it drops
  -- an instruction.
  unfoldable pub cycle : ExVm S → Result (ExVm S)
  cycle s = do
    let registers = write_back s.mem_wb s.registers
    (mem_wb, memory) ← memory_stage s.ex_mem s.next_mem_wb s.memory
    executed ←
        execute_stage s.forwarding_enabled s.id_ex s.ex_mem s.mem_wb s.next_ex_mem s.predictor
    let flushed = is_some executed.target
    let decoded =
        decode_stage s.forwarding_enabled flushed s.if_id s.id_ex s.ex_mem s.next_id_ex registers
          executed.predictor
    let flush = flushed || decoded.flush
    let pc = or_else decoded.target (or_else executed.target s.program_counter)
    let (next_if_id, pc') = fetch_stage decoded.stall flush s.next_if_id pc s.program_size memory
    let dropped = incr_if (flushed && s.if_id.is_valid) s.stall_cycles
    let refetched = incr_if (not decoded.stall && flush) dropped
    ok (record s {
      base = record (s.base) {
        program_counter = pc';
        cycle_s = incr s.cycle_s;
        instructions_retired = incr_if s.mem_wb.is_valid s.instructions_retired;
        stall_cycles = incr_if decoded.stall refetched;
        branch_mispredictions = incr_if executed.mispredicted s.branch_mispredictions;
        memory = memory;
        registers = registers;
      };
      predictor = executed.predictor;
      stall_request = decoded.stall;
      flush_pipeline = flush;
      if_id = if decoded.stall then s.if_id else next_if_id;
      id_ex = decoded.register;
      ex_mem = executed.register;
      mem_wb = mem_wb;
      next_if_id = next_if_id;
      next_id_ex = decoded.register;
      next_ex_mem = executed.register;
      next_mem_wb = mem_wb;
    })

  -- Whether everything is fetched and the pipeline is empty.
  unfoldable pub is_done : ExVm S → Bool
  is_done s =
      leb s.program_size s.program_counter
      && (not s.if_id.is_valid
          && (not s.id_ex.is_valid && (not s.ex_mem.is_valid && not s.mem_wb.is_valid)))

  unfoldable pub finish : ExVm S → ExVm S
  finish s =
      if is_done s
      then record s {
        base = record (s.base) { stop_requested = true; output_status = program_end };
      }
      else record s { base = record (s.base) { output_status = step_completed } }

  unfoldable pub step : ExVm S → Result (ExVm S)
  step s = if is_program_end s.output_status then ok s else (cycle s >>= λ s'. ok (finish s'))
