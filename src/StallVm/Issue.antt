-- ===== src/StallVm/Issue.antt =====
-- An instruction that leaves the decode stage, completed, is an instruction of the sequential
-- machine.
use riscv_simulator_pipeline.Base.{ℕ, ◌≡◌, refl, sym, true, false}
use riscv_simulator_pipeline.Base.{if◌then◌else◌, ok, ◌>>=◌, none}
use riscv_simulator_pipeline.Base.{arith, Bool-cases, inl, inr, add64, shr}
use riscv_simulator_pipeline.Base.{low_bits}
use riscv_simulator_pipeline.Memory.{Memory}
use riscv_simulator_pipeline.Registers.{RegisterFile}
use riscv_simulator_pipeline.Immediate.{imm_generator}
use riscv_simulator_pipeline.Hazard.{rs2_reqd, detect_data_hazard}
use riscv_simulator_pipeline.ControlUnit.{opcode_of, get_control_signals}
use riscv_simulator_pipeline.ControlUnit.Laws.{
  IsIdle, IsActive, reads_two, is_upper, get_control_signals-cases, reads_two-rs2_reqd,
  zero_operand-not_jal,
}
use riscv_simulator_pipeline.Stages.{gpr, write_back, memory_stage, decode}
use riscv_simulator_pipeline.Stages.Laws.{writes}
use riscv_simulator_pipeline.StallVm.{execute_stage, must_stall}
use riscv_simulator_pipeline.StallVm.Sequential.{
  Arch, exec_instruction, retire_over, complete_over, complete,
}
use riscv_simulator_pipeline.PipelineRegisters.{
  ControlSignals, IfIdReg, IdExReg, ExMemReg, alu_src_a_rs1,
}
use riscv_simulator_pipeline.StallVm.Execute.{settled, Holds, complete_holds}

-- A no-op goes through the stages and changes nothing.
complete_idle :
    (d : IdExReg) (r : RegisterFile) (m : Memory)
    → d.is_valid ≡ true
    → IsIdle d.control
    → complete d r m ≡ ok (r, m, none)
unfolding complete_over execute_stage retire_over memory_stage write_back
complete_idle d r m v h = simp (v, h.nop, h.idle_csr, h.idle_syscall, h.no_write)

module _ (f : IfIdReg) (next : IdExReg) (r0 : RegisterFile) (valid : f.is_valid ≡ true)
    (after : f.pc_inc ≡ add64 f.pc 4) where
  decode_idle :
      IsIdle (get_control_signals f.instruction)
      → ((decode f next r0).is_valid ≡ true)
        × ((decode f next r0).control ≡ get_control_signals f.instruction)
  unfolding decode
  decode_idle h = simp h.nop (valid, refl)

  -- The last branch of the decode stage.
  abbrev decoded : IdExReg
  decoded =
      let w = f.instruction in
      let rs1 = if is_upper (opcode_of w) then 0 else low_bits (shr w 15) 5 in
      let rs2 = if reads_two (opcode_of w) then low_bits (shr w 20) 5 else 0 in
      record {
        is_valid = f.is_valid;
        control = get_control_signals w;
        pc = f.pc;
        pc_inc = f.pc_inc;
        rs1_data = if is_upper (opcode_of w) then 0 else gpr r0 rs1;
        rs2_data = if reads_two (opcode_of w) then gpr r0 rs2 else 0;
        immediate = imm_generator w;
        rs1_index = rs1;
        rs2_index = rs2;
        rd_index = low_bits (shr w 7) 5;
        predicted_outcome = next.predicted_outcome;
      }

  decode_active :
      IsActive (opcode_of f.instruction) (get_control_signals f.instruction)
      → decode f next r0 ≡ decoded
  unfolding decode
  decode_active h = simp (h.not_nop, h.not_system)

  module _ (r : RegisterFile)
      (active : IsActive (opcode_of f.instruction) (get_control_signals f.instruction))
      (same1 : (get_control_signals f.instruction).alu_src_a ≡ alu_src_a_rs1
        → gpr r (low_bits (shr f.instruction 15) 5) ≡ gpr r0 (low_bits (shr f.instruction 15) 5))
      (same2 : reads_two (opcode_of f.instruction) ≡ true
        → gpr r (low_bits (shr f.instruction 20) 5)
          ≡ gpr r0 (low_bits (shr f.instruction 20) 5)) where
    decoded-Holds :
        Holds
          (get_control_signals f.instruction)
          f.pc
          (imm_generator f.instruction)
          (low_bits (shr f.instruction 7) 5)
          (gpr r (low_bits (shr f.instruction 15) 5))
          (if reads_two (opcode_of f.instruction)
            then gpr r (low_bits (shr f.instruction 20) 5)
            else 0)
          decoded
    decoded-Holds = record {
      valid = valid;
      signals = refl;
      at_pc = refl;
      after_pc = after;
      with_immediate = refl;
      with_rd = refl;
      with_rs1 = λ e. simp (active.no_upper e) (sym (same1 e));
      with_rs2 = elim (Bool-cases (reads_two (opcode_of f.instruction))) [
        | inl e ↦ simp e (sym (same2 e))
        | inr e ↦ simp e
      ];
    }

    complete_decoded :
        (m : Memory)
        → (complete (decode f next r0) r m >>= settled (add64 f.pc 4))
          ≡ exec_instruction f.instruction (record { pc = f.pc; registers = r; memory = m })
    unfolding exec_instruction
    complete_decoded m = rw (decode_active active) (
        simp active.not_nop (
          complete_holds _ _ _ _ _ _ _ r m decoded-Holds active.not_nop active.not_csr
            active.not_syscall active.loads (zero_operand-not_jal f.instruction)))

module _ (c : ControlSignals) (i1 i2 : ℕ) (d : IdExReg) (x : ExMemReg)
    (clear : detect_data_hazard c i1 i2 d x ≡ false) where
  clear_rs1 :
      c.alu_src_a ≡ alu_src_a_rs1
      → (writes d.control d.rd_index i1 ≡ false) × (writes x.control x.rd_index i1 ≡ false)
  unfolding detect_data_hazard
  clear_rs1 e = ground arith

  clear_rs2 :
      rs2_reqd c ≡ true
      → (writes d.control d.rd_index i2 ≡ false) × (writes x.control x.rd_index i2 ≡ false)
  unfolding detect_data_hazard
  clear_rs2 e = ground arith

exec_idle :
    (w : ℕ) (a : Arch)
    → IsIdle (get_control_signals w)
    → exec_instruction w a ≡ ok (record a { pc = add64 a.pc 4 })
unfolding exec_instruction
exec_idle w a h = simp h.nop

module _ (f : IfIdReg) (next : IdExReg) (r0 : RegisterFile) (d : IdExReg) (x : ExMemReg)
    (valid : f.is_valid ≡ true) (after : f.pc_inc ≡ add64 f.pc 4)
    (active : IsActive (opcode_of f.instruction) (get_control_signals f.instruction))
    (clear : must_stall (decode f next r0) d x ≡ false) where
  abbrev word : ℕ
  word = f.instruction

  no_hazard :
      detect_data_hazard
        (get_control_signals word)
        (decoded f next r0 valid after).rs1_index
        (decoded f next r0 valid after).rs2_index
        d
        x
      ≡ false
  unfolding must_stall
  no_hazard =
      simp (active.not_nop, active.not_csr, active.not_syscall) at
        (rw (decode_active f next r0 valid after active) at clear)

  no_hazard_rs1 :
      (get_control_signals word).alu_src_a ≡ alu_src_a_rs1
      → (writes d.control d.rd_index (low_bits (shr word 15) 5) ≡ false)
        × (writes x.control x.rd_index (low_bits (shr word 15) 5) ≡ false)
  no_hazard_rs1 e = simp (active.no_upper e) at (clear_rs1 _ _ _ d x no_hazard e)

  no_hazard_rs2 :
      reads_two (opcode_of word) ≡ true
      → (writes d.control d.rd_index (low_bits (shr word 20) 5) ≡ false)
        × (writes x.control x.rd_index (low_bits (shr word 20) 5) ≡ false)
  no_hazard_rs2 e = simp e at (clear_rs2 _ _ _ d x no_hazard (reads_two-rs2_reqd word active e))

-- An instruction that the hazard unit lets pass is completed by one instruction of the sequential
-- machine, whatever the instructions in front of it write into the registers that it does not read.
pub complete-decode :
    (f : IfIdReg) (next : IdExReg) (r0 r : RegisterFile) (m : Memory) (d : IdExReg) (x : ExMemReg)
    → f.is_valid ≡ true
    → f.pc_inc ≡ add64 f.pc 4
    → must_stall (decode f next r0) d x ≡ false
    → ((i : ℕ)
        → writes d.control d.rd_index i ≡ false
        → writes x.control x.rd_index i ≡ false
        → gpr r i ≡ gpr r0 i)
    → (complete (decode f next r0) r m >>= settled (add64 f.pc 4))
      ≡ exec_instruction f.instruction (record { pc = f.pc; registers = r; memory = m })
complete-decode f next r0 r m d x valid after clear same =
    elim (get_control_signals-cases f.instruction) [
      | inl idle ↦ rw (
        complete_idle (decode f next r0) r m (decode_idle f next r0 valid after idle).0
            (rw (decode_idle f next r0 valid after idle).1 idle),
        exec_idle f.instruction _ idle,
      )
      | inr active ↦
          complete_decoded f next r0 valid after r active
            (λ e. let (p, q) = no_hazard_rs1 f next r0 d x valid after active clear e in same _ p q)
            (λ e. let (p, q) = no_hazard_rs2 f next r0 d x valid after active clear e in same _ p q)
            m
    ]
