-- ===== src/Stages/Branch.antt =====
-- The branch instructions: the operation that the control unit sets and the switch of Execute_Stage
-- on its result, against the comparison that each instruction stands for.
use riscv_simulator_pipeline.Base.{ℕ, ◌<◌, ◌^◌, ◌≡◌, Bool, false, not, [], ◌∷◌, arith}
use riscv_simulator_pipeline.Base.{ltb, ◌==◌, switch, int64, ok, ◌>>=◌, sub64}
use riscv_simulator_pipeline.Base.Int.{ltb_ℤ}
use riscv_simulator_pipeline.Alu.{execute}
use riscv_simulator_pipeline.ControlUnit.{
  opcode_of, funct3_of, get_control_signals, nop_signals, integer_signals, opcode_signals,
  operation_signals, b_type_op, is_floating_point_opcode,
}
use riscv_simulator_pipeline.Stages.{outcome}

-- beq, bne, blt, bge, bltu and bgeu, by their function code; no other code branches.
abbrev pub compares : ℕ → ℕ → ℕ → Bool
compares funct3 a b =
    switch funct3
      ((0b000, a == b)
        ∷ (0b001, not (a == b))
        ∷ (0b100, ltb_ℤ (int64 a) (int64 b))
        ∷ (0b101, not (ltb_ℤ (int64 a) (int64 b)))
        ∷ (0b110, ltb a b)
        ∷ (0b111, not (ltb a b))
        ∷ [])
      false

-- The operations of a branch instruction.
branch_signals :
    (w : ℕ)
    → opcode_of w ≡ 0b1100011
    → let c = get_control_signals w in
      (c.alu_op ≡ (b_type_op (funct3_of w)).0) × (c.branch_op ≡ (b_type_op (funct3_of w)).1)
unfolding get_control_signals nop_signals integer_signals opcode_signals operation_signals
    is_floating_point_opcode
branch_signals w h = ground arith

sub64_zero : (a b : ℕ) → a < 2 ^ 64 → b < 2 ^ 64 → (sub64 a b == 0) ≡ (a == b)
sub64_zero a b h k = ground arith

b_type_compares :
    (funct3 a b : ℕ)
    → a < 2 ^ 64
    → b < 2 ^ 64
    → (execute (b_type_op funct3).0 a b >>= λ q. ok (outcome (b_type_op funct3).1 q.0))
      ≡ ok (compares funct3 a b)
unfolding b_type_op execute outcome
b_type_compares funct3 a b h k = ground (arith, sub64_zero a b h k)

-- For a word with the opcode of a branch and operands of 64 bits, the operation that the control
-- unit sets and the branch switch of the execute stage on its result take the branch exactly if
-- the comparison that the function code stands for holds of the operands: equal, different, less
-- or not less, as signed or as unsigned numbers.
pub branch_taken :
    (w a b : ℕ)
    → opcode_of w ≡ 0b1100011
    → a < 2 ^ 64
    → b < 2 ^ 64
    → let c = get_control_signals w in
      (execute c.alu_op a b >>= λ q. ok (outcome c.branch_op q.0)) ≡ ok (compares (funct3_of w) a b)
branch_taken w a b branch h k =
    rw ((branch_signals w branch).0, (branch_signals w branch).1)
      (b_type_compares (funct3_of w) a b h k)
