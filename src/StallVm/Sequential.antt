-- ===== src/StallVm/Sequential.antt =====
-- The machine without a pipeline, which executes one instruction at a time, and what remains of a
-- pipeline's state once its instructions in flight are completed in order.
use riscv_simulator_pipeline.Base.{ℕ, Bool, false, not, ◌&&◌, ◌||◌, Option}
use riscv_simulator_pipeline.Base.{◌==◌, if◌then◌else◌, shr, low_bits, sext32, add64}
use riscv_simulator_pipeline.Base.{Result, ok, err, ◌>>=◌}
use riscv_simulator_pipeline.Alu.{execute}
use riscv_simulator_pipeline.Memory.{Memory}
use riscv_simulator_pipeline.Registers.{RegisterFile}
use riscv_simulator_pipeline.Immediate.{imm_generator}
use riscv_simulator_pipeline.ControlUnit.{opcode_of, get_control_signals}
use riscv_simulator_pipeline.ControlUnit.Laws.{reads_two}
use riscv_simulator_pipeline.Hazard.{is_jal, is_jalr}
use riscv_simulator_pipeline.Stages.{
  gpr, set_gpr, write_back, memory_stage, access, upper_immediate, outcome, decode,
}
use riscv_simulator_pipeline.StallVm.{StallVm, execute_stage, or_else, is_some, must_stall}
use riscv_simulator_pipeline.PipelineRegisters.{
  ControlSignals, IdExReg, ExMemReg, MemWbReg, mem_wb_bubble, ex_mem_bubble, AluSrcA, alu_src_a_rs1,
  alu_src_a_zero, alu_src_a_pc, WriteBackSrc, wb_none, wb_from_alu, wb_from_mem, wb_from_pc_inc,
}

-- The state that a program sees.
pub record Arch : Type 0 where
  pub pc : ℕ
  pub registers : RegisterFile
  pub memory : Memory

-- The operands of an instruction at `pc` whose registers hold `v1` and `v2`.
unfoldable pub operands : AluSrcA → ControlSignals → ℕ → ℕ → ℕ → ℕ → ℕ × ℕ
operands alu_src_a_rs1 c pc immediate v1 v2 = (v1, if c.alu_src_b then sext32 immediate else v2)
operands alu_src_a_zero c pc immediate v1 v2 = (0, upper_immediate immediate)
operands alu_src_a_pc c pc immediate v1 v2 =
    (pc, if is_jal c.branch_op then sext32 immediate else upper_immediate immediate)

-- Where the program goes on.
unfoldable pub next_pc : ControlSignals → ℕ → ℕ → ℕ → ℕ
next_pc c pc immediate result =
    if is_jal c.branch_op || is_jalr c.branch_op
    then result
    else if c.branch && outcome c.branch_op result
    then add64 pc (sext32 immediate)
    else add64 pc 4

-- What goes into the destination register.
unfoldable pub written : WriteBackSrc → ℕ → ℕ → ℕ → RegisterFile → ℕ → RegisterFile
written wb_none result loaded pc r rd = r
written wb_from_alu result loaded pc r rd = set_gpr r rd result
written wb_from_mem result loaded pc r rd = set_gpr r rd loaded
written wb_from_pc_inc result loaded pc r rd = set_gpr r rd (add64 pc 4)

-- One instruction, from the fetched word to its last effect.
unfoldable pub exec_instruction : ℕ → Arch → Result Arch
exec_instruction w a =
    let c = get_control_signals w in
    let immediate = imm_generator w in
    let rd = low_bits (shr w 7) 5 in
    let v1 = gpr a.registers (low_bits (shr w 15) 5) in
    let v2 = if reads_two (opcode_of w) then gpr a.registers (low_bits (shr w 20) 5) else 0 in
    let operand = operands c.alu_src_a c a.pc immediate v1 v2 in
    if c.is_nop then ok (record a { pc = add64 a.pc 4 }) else do
      (result, _) ← execute c.alu_op operand.0 operand.1
      (loaded, memory) ← access c a.memory result v2
      ok (record {
        pc = next_pc c a.pc immediate result;
        registers =
            if c.reg_write && not (rd == 0)
            then written c.wb_src result loaded a.pc a.registers rd
            else a.registers;
        memory = memory;
      })

-- What an instruction in front of the memory stage still does, over the contents `next` behind it.
unfoldable pub retire_over :
    MemWbReg → ExMemReg → RegisterFile → Memory → Result (RegisterFile × Memory)
retire_over next x r m = do (w, m') ← memory_stage x next m; ok (write_back w r, m')

abbrev pub retire : ExMemReg → RegisterFile → Memory → Result (RegisterFile × Memory)
retire = retire_over mem_wb_bubble

-- What an instruction in front of the execute stage still does, with the target that it jumps to.
unfoldable pub complete_over :
    ExMemReg → IdExReg → RegisterFile → Memory → Result (RegisterFile × Memory × Option ℕ)
complete_over next d r m = do
  (x, target) ← execute_stage d next
  (r', m') ← retire x r m
  ok (r', m', target)

abbrev pub complete : IdExReg → RegisterFile → Memory → Result (RegisterFile × Memory × Option ℕ)
complete = complete_over ex_mem_bubble

-- The address of the next instruction that has not reached the execute stage.
abbrev pub pending_pc : StallVm → ℕ
pending_pc s = if s.if_id.is_valid then s.if_id.pc else s.program_counter

-- The state that the program sees once the instructions past the decode stage are completed.
unfoldable pub drain : StallVm → Result Arch
drain s = do
  (r1, m1) ← retire s.ex_mem (write_back s.mem_wb s.registers) s.memory
  (r2, m2, target) ← complete s.id_ex r1 m1
  ok (record { pc = or_else target (pending_pc s); registers = r2; memory = m2 })

-- Whether the instruction in front of the execute stage flushes the pipeline.
unfoldable pub flushes : IdExReg → Bool
flushes d = elim (execute_stage d ex_mem_bubble) [ ok (x, target) ↦ is_some target | err _ ↦ false ]

-- Whether a cycle takes an instruction out of the decode stage: one is there, nothing behind it
-- flushes it, and no hazard holds it back.
unfoldable pub issues : StallVm → Bool
issues s =
    not (flushes s.id_ex)
    && (s.if_id.is_valid
        && not (
            must_stall (decode s.if_id s.next_id_ex (write_back s.mem_wb s.registers)) s.id_ex
              s.ex_mem))
