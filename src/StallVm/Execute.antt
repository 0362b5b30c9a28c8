-- ===== src/StallVm/Execute.antt =====
-- From the execute stage on: an instruction whose register holds what the decode stage left is
-- completed as the sequential machine executes it.
use riscv_simulator_pipeline.Base.{ℕ, ◌≡◌, refl, ap, ◌∙◌, Bool, true, false, not, ◌&&◌}
use riscv_simulator_pipeline.Base.{◌==◌, if◌then◌else◌, Result, ok, err, ◌>>=◌, Option}
use riscv_simulator_pipeline.Base.{arith, add64}
use mathlib.Core.Path.{ap₂}
use riscv_simulator_pipeline.Alu.{execute}
use riscv_simulator_pipeline.Memory.{Memory}
use riscv_simulator_pipeline.Registers.{RegisterFile}
use riscv_simulator_pipeline.Hazard.{is_jal}
use riscv_simulator_pipeline.ControlUnit.Laws.{is_from_mem}
use riscv_simulator_pipeline.Stages.{
  source_data, write_register, write_back, memory_stage, access, transfer, first_operand,
  second_operand, upper_operand,
}
use riscv_simulator_pipeline.StallVm.{execute_stage, redirect, or_else}
use riscv_simulator_pipeline.StallVm.Frame.{executed}
use riscv_simulator_pipeline.StallVm.Sequential.{
  Arch, operands, next_pc, written, retire_over, retire, complete_over, complete,
}
use riscv_simulator_pipeline.PipelineRegisters.{
  ControlSignals, IdExReg, ExMemReg, MemWbReg, mem_wb_bubble, AluSrcA, alu_src_a_rs1,
  alu_src_a_zero, alu_src_a_pc,
}

-- The state that completed instructions leave, where the program goes on at `pc` unless they jump.
abbrev pub settled : ℕ → RegisterFile × Memory × Option ℕ → Result Arch
settled pc p = ok (record { pc = or_else p.2 pc; registers = p.0; memory = p.1 })

module _ (c : ControlSignals) (pc immediate rd v1 v2 : ℕ) (d : IdExReg) where
  -- The decode stage has left these values for the execute stage.
  pub record Holds : Type 0 where
    pub valid : d.is_valid ≡ true
    pub signals : d.control ≡ c
    pub at_pc : d.pc ≡ pc
    pub after_pc : d.pc_inc ≡ add64 pc 4
    pub with_immediate : d.immediate ≡ immediate
    pub with_rd : d.rd_index ≡ rd
    pub with_rs1 : c.alu_src_a ≡ alu_src_a_rs1 → d.rs1_data ≡ v1
    pub with_rs2 : d.rs2_data ≡ v2

  operands_lem :
      (src : AluSrcA)
      → Holds
      → (src ≡ alu_src_a_rs1 → d.rs1_data ≡ v1)
      → (src ≡ alu_src_a_zero → is_jal c.branch_op ≡ false)
      → (first_operand src d d.rs1_data ≡ (operands src c pc immediate v1 v2).0)
        × (second_operand src d d.rs2_data ≡ (operands src c pc immediate v1 v2).1)
  unfolding first_operand second_operand upper_operand operands
  operands_lem alu_src_a_rs1 h e k = (e refl, ground arith)
  operands_lem alu_src_a_zero h e k = (refl, ground (arith, k refl))
  operands_lem alu_src_a_pc h e k = ground arith

  redirect_lem :
      (result : ℕ)
      → Holds
      → or_else (redirect d result) (add64 pc 4) ≡ next_pc c pc immediate result
  unfolding redirect next_pc
  redirect_lem result h = ground arith

  written_lem :
      (result loaded : ℕ) (r : RegisterFile)
      → Holds
      → c.is_csr ≡ false
      → c.is_syscall ≡ false
      → is_from_mem c.wb_src ≡ c.mem_read
      → write_back (transfer (executed d result) mem_wb_bubble loaded) r
        ≡ (if c.reg_write && not (rd == 0) then written c.wb_src result loaded pc r rd else r)
  unfolding write_back write_register source_data transfer written
  written_lem result loaded r h csr syscall loads = ground arith

  -- The last effects of the instruction in the sequential machine.
  abbrev pub effects : RegisterFile → ℕ → ℕ × Memory → Result Arch
  effects r result p = ok (record {
    pc = next_pc c pc immediate result;
    registers = if c.reg_write && not (rd == 0) then written c.wb_src result p.0 pc r rd else r;
    memory = p.1;
  })

  abbrev then_write : RegisterFile → MemWbReg × Memory → Result (RegisterFile × Memory)
  then_write r w = ok (write_back w.0 r, w.1)

  -- After the execute stage: the access, the write-back and the next program counter.
  settle :
      (r : RegisterFile) (result : ℕ) (a : Result (ℕ × Memory))
      → Holds
      → c.is_csr ≡ false
      → c.is_syscall ≡ false
      → is_from_mem c.wb_src ≡ c.mem_read
      → (a
          >>= (λ p. ok (transfer (executed d result) mem_wb_bubble p.0, p.1))
          >>= then_write r
          >>= (λ q. ok (q.0, q.1, redirect d result))
          >>= settled (add64 pc 4))
        ≡ (a >>= effects r result)
  settle r result (err e) h csr syscall loads = refl
  settle r result (ok (loaded, m')) h csr syscall loads =
      rw (written_lem result loaded r h csr syscall loads, redirect_lem result h)

  -- The memory stage reaches the access.
  retire-executed :
      (r : RegisterFile) (m : Memory) (result : ℕ)
      → Holds
      → c.is_nop ≡ false
      → c.is_csr ≡ false
      → c.is_syscall ≡ false
      → retire (executed d result) r m ≡ (
          access d.control m result d.rs2_data
          >>= (λ p. ok (transfer (executed d result) mem_wb_bubble p.0, p.1))
          >>= then_write r)
  unfolding retire_over memory_stage
  retire-executed r m result h nop csr syscall = simp (
    ap (λ (t : ControlSignals). t.is_nop) h.signals ∙ nop,
    ap (λ (t : ControlSignals). t.is_csr) h.signals ∙ csr,
    ap (λ (t : ControlSignals). t.is_syscall) h.signals ∙ syscall,
  )

  finish_executed :
      (r : RegisterFile) (m : Memory) (e : Result (ℕ × Bool))
      → Holds
      → c.is_nop ≡ false
      → c.is_csr ≡ false
      → c.is_syscall ≡ false
      → is_from_mem c.wb_src ≡ c.mem_read
      → (e
          >>= (λ q. ok (executed d q.0, redirect d q.0))
          >>= (λ (x : ExMemReg × Option ℕ). retire x.0 r m >>= λ q. ok (q.0, q.1, x.1))
          >>= settled (add64 pc 4))
        ≡ (e >>= λ q. access c m q.0 v2 >>= effects r q.0)
  finish_executed r m (err e) h nop csr syscall loads = refl
  finish_executed r m (ok (result, overflow)) h nop csr syscall loads =
      rw (retire-executed r m result h nop csr syscall) (
        settle r result (access d.control m result d.rs2_data) h csr syscall loads
        ∙ ap₂ (λ (s : ControlSignals) (v : ℕ). access s m result v >>= effects r result) h.signals
            h.with_rs2)

  -- What the decode stage has left is completed by one instruction of the sequential machine.
  pub complete_holds :
      (r : RegisterFile) (m : Memory)
      → Holds
      → c.is_nop ≡ false
      → c.is_csr ≡ false
      → c.is_syscall ≡ false
      → is_from_mem c.wb_src ≡ c.mem_read
      → (c.alu_src_a ≡ alu_src_a_zero → is_jal c.branch_op ≡ false)
      → (complete d r m >>= settled (add64 pc 4)) ≡ (
          execute c.alu_op
            (operands c.alu_src_a c pc immediate v1 v2).0
            (operands c.alu_src_a c pc immediate v1 v2).1
          >>= λ q. access c m q.0 v2 >>= effects r q.0)
  unfolding complete_over execute_stage
  complete_holds r m h nop csr syscall loads zero =
      simp (h.valid, ap (λ (t : ControlSignals). t.is_nop) h.signals ∙ nop)
        (finish_executed r m _ h nop csr syscall loads
          ∙ ap (λ e. e >>= λ q. access c m q.0 v2 >>= effects r q.0) same_result)
    where
      same_operands :
          (first_operand d.control.alu_src_a d d.rs1_data
            ≡ (operands c.alu_src_a c pc immediate v1 v2).0)
          × (second_operand d.control.alu_src_a d d.rs2_data
              ≡ (operands c.alu_src_a c pc immediate v1 v2).1)
      same_operands =
          simp (ap (λ (t : ControlSignals). t.alu_src_a) h.signals)
            (operands_lem c.alu_src_a h h.with_rs1 zero)

      same_result :
          execute d.control.alu_op
            (first_operand d.control.alu_src_a d d.rs1_data)
            (second_operand d.control.alu_src_a d d.rs2_data)
          ≡ execute c.alu_op
              (operands c.alu_src_a c pc immediate v1 v2).0
              (operands c.alu_src_a c pc immediate v1 v2).1
      same_result =
          cc (ap (λ (t : ControlSignals). t.alu_op) h.signals, same_operands.0, same_operands.1)
