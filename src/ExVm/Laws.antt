-- ===== src/ExVm/Laws.antt =====
-- What the execute stage resolves, against what the decode stage predicted.
use riscv_simulator_pipeline.Base.{ℕ, ◌≡◌, refl, sym, ap, ◌∙◌, Bool, true, false, ◌||◌, arith}
use riscv_simulator_pipeline.Base.{
  sext32, add64, Result, ok, err, Ensures, returns, faults, Ensures-bind, Bool-cases, inl, inr,
}
use mathlib.Core.Path.{ap₂}
use riscv_simulator_pipeline.Alu.{execute, k_add}
use riscv_simulator_pipeline.Registers.{RegisterFile}
use riscv_simulator_pipeline.Immediate.{imm_generator}
use riscv_simulator_pipeline.Hazard.{is_jal, is_jalr}
use riscv_simulator_pipeline.ControlUnit.{
  opcode_of, get_control_signals, nop_signals, integer_signals, opcode_signals, operation_signals,
  b_type_op, is_floating_point_opcode,
}
use riscv_simulator_pipeline.ControlUnit.Laws.{IsActive, get_control_signals-cases}
use riscv_simulator_pipeline.Predictor.{BranchPredictor}
use riscv_simulator_pipeline.Stages.{first_operand, second_operand, upper_operand, decode}
use riscv_simulator_pipeline.StallVm.{or_else}
use riscv_simulator_pipeline.StallVm.Sequential.{next_pc}
use riscv_simulator_pipeline.ExVm.{
  actual_outcome, target_address, resolve, Executed, execute_stage, predict,
}
use riscv_simulator_pipeline.PipelineRegisters.{
  ControlSignals, IfIdReg, IdExReg, ExMemReg, MemWbReg, alu_src_a_pc,
}

-- Jumps are branches, and a jal adds its offset to the program counter.
pub record IsBranching (c : ControlSignals) : Type 0 where
  pub jumps_branch : (is_jal c.branch_op || is_jalr c.branch_op) ≡ true → c.branch ≡ true
  pub jal_adds : is_jal c.branch_op ≡ true → c.alu_op ≡ k_add
  pub jal_from_pc : is_jal c.branch_op ≡ true → c.alu_src_a ≡ alu_src_a_pc

get_control_signals-IsBranching : (w : ℕ) → IsBranching (get_control_signals w)
unfolding get_control_signals nop_signals integer_signals opcode_signals operation_signals b_type_op
    is_floating_point_opcode
get_control_signals-IsBranching w = ground arith

module _ {S : Type 0} (p : BranchPredictor S) (decoded : IdExReg) (predictor : S) (result : ℕ)
    (active : (decoded.control.is_nop || (decoded.control.is_syscall || decoded.control.is_csr))
      ≡ false)
    (branching : IsBranching decoded.control) (after : decoded.pc_inc ≡ add64 decoded.pc 4)
    (jal : is_jal decoded.control.branch_op ≡ true
      → result ≡ add64 decoded.pc (sext32 decoded.immediate)) where
  resolved :
      let d = predict p decoded predictor in
      or_else (resolve d.register result) (or_else d.target decoded.pc_inc)
      ≡ next_pc decoded.control decoded.pc decoded.immediate result
  unfolding predict resolve actual_outcome target_address next_pc
  resolved = ground arith

-- What decoding an instruction that is no no-op leaves.
decode_fields :
    (f : IfIdReg) (next : IdExReg) (r : RegisterFile)
    → IsActive (opcode_of f.instruction) (get_control_signals f.instruction)
    → let d = decode f next r in
      (d.is_valid ≡ f.is_valid)
      × (d.control ≡ get_control_signals f.instruction)
      × (d.pc ≡ f.pc)
      × (d.pc_inc ≡ f.pc_inc)
      × (d.immediate ≡ imm_generator f.instruction)
unfolding decode
decode_fields f next r active =
    simp (active.not_nop, active.not_system) (refl, refl, refl, refl, refl)

-- A prediction changes the predicted outcome and nothing else.
predict_fields :
    {S : Type 0} (p : BranchPredictor S) (decoded : IdExReg) (predictor : S)
    → let d = (predict p decoded predictor).register in
      (d.is_valid ≡ decoded.is_valid)
      × (d.control ≡ decoded.control)
      × (d.pc ≡ decoded.pc)
      × (d.immediate ≡ decoded.immediate)
unfolding predict
predict_fields p decoded predictor = ground arith

-- The result of a jal is its target.
jal_result :
    (d : IdExReg) (v1 v2 : ℕ)
    → IsBranching d.control
    → Ensures
        (λ (q : ℕ × Bool).
          is_jal d.control.branch_op ≡ true → q.0 ≡ add64 d.pc (sext32 d.immediate))
        (execute d.control.alu_op
          (first_operand d.control.alu_src_a d v1)
          (second_operand d.control.alu_src_a d v2))
unfolding execute first_operand second_operand upper_operand
jal_result d v1 v2 branching = elim (Bool-cases (is_jal d.control.branch_op)) [
  | inl j ↦ simp (branching.jal_adds j, branching.jal_from_pc j, j) (returns (λ h. refl))
  | inr n ↦ other _ n
]
  where
    other :
        (e : Result (ℕ × Bool))
        → is_jal d.control.branch_op ≡ false
        → Ensures
            (λ (q : ℕ × Bool).
              is_jal d.control.branch_op ≡ true → q.0 ≡ add64 d.pc (sext32 d.immediate))
            e
    other (ok q) n = returns (λ h. ground (arith, h, n))
    other (err e) n = faults

module _ {S : Type 0} (p : BranchPredictor S) (predictor later : S) (forwarding : Bool)
    (f : IfIdReg) (next : IdExReg) (r : RegisterFile) (x next_x : ExMemReg) (w : MemWbReg) where
  -- Whatever a branch predictor answers, and whether operands are forwarded or not: once the
  -- execute stage of RV5SEXVM has resolved a valid instruction that is no no-op and lies four
  -- bytes before its incremented program counter, the program counter, set by the prediction of
  -- the decode stage and then by the resolution, is where the machine without a pipeline goes on
  -- after that instruction on the same result.
  pub prediction_recovers :
      f.is_valid ≡ true
      → f.pc_inc ≡ add64 f.pc 4
      → (get_control_signals f.instruction).is_nop ≡ false
      → Ensures
          (λ (e : Executed S).
            or_else e.target (or_else (predict p (decode f next r) predictor).target f.pc_inc)
            ≡ next_pc
                (get_control_signals f.instruction)
                f.pc
                (imm_generator f.instruction)
                e.register.alu_result)
          (execute_stage p forwarding
            (predict p (decode f next r) predictor).register
            x
            w
            next_x
            later)
  unfolding execute_stage
  prediction_recovers valid after nop = elim (get_control_signals-cases f.instruction) [
    | inl idle ↦ absurd (ground (arith, idle.nop, nop))
    | inr active ↦
        let fields = decode_fields f next r active in
        let kept = predict_fields p (decode f next r) predictor in
        let control = kept.1 ∙ fields.1 in
        let branching : IsBranching (predict p (decode f next r) predictor).register.control =
          rw control (get_control_signals-IsBranching f.instruction) in
        let idle : (let c = (predict p (decode f next r) predictor).register.control in
              c.is_nop || (c.is_csr || c.is_syscall))
            ≡ false =
          rw control (ground (arith, active.not_nop, active.not_csr, active.not_syscall)) in
        let passed : (let c = (decode f next r).control in c.is_nop || (c.is_syscall || c.is_csr))
            ≡ false =
          rw fields.1 (ground (arith, active.not_nop, active.not_csr, active.not_syscall)) in
        simp (kept.0 ∙ fields.0 ∙ valid, idle)
          (Ensures-bind (jal_result (predict p (decode f next r) predictor).register _ _ branching)
            (λ q jal. returns (
              cc (
                resolved p (decode f next r) predictor q.0 passed
                    (rw fields.1 (get_control_signals-IsBranching f.instruction))
                    (fields.3 ∙ after ∙ sym (ap (λ (pc : ℕ). add64 pc 4) fields.2))
                    (λ h.
                      jal (ap (λ (c : ControlSignals). is_jal c.branch_op) kept.1 ∙ h)
                      ∙ ap₂ (λ (pc imm : ℕ). add64 pc (sext32 imm)) kept.2 kept.3),
                fields.1,
                fields.2,
                fields.3,
                fields.4,
              ))))
  ]
