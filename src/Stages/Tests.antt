-- ===== src/Stages/Tests.antt =====
-- The shared stages on concrete words.
use riscv_simulator_pipeline.Base.{
  ◌≡◌, ◌↔◌, ◌*◌, ◌/◌, ◌%◌, ◌^◌, false, ◌&&◌, ◌==◌, ltb, sext32, refl, ok, ◌>>=◌, arith,
}
use riscv_simulator_pipeline.Stages.Upper.{upper_immediate_exact}
use riscv_simulator_pipeline.Alu.{execute}
use riscv_simulator_pipeline.ControlUnit.{get_control_signals}
use riscv_simulator_pipeline.Stages.{outcome, upper_immediate}
use riscv_simulator_pipeline.Stages.Branch.{compares, branch_taken}

-- blt x1, x2, 8 on -1 and 1
branch_taken_example :
    (execute (get_control_signals 0x0020c463).alu_op 0xffffffffffffffff 1 >>= λ q.
    ok (outcome (get_control_signals 0x0020c463).branch_op q.0))
    ≡ ok (compares 4 0xffffffffffffffff 1)
branch_taken_example = branch_taken 0x0020c463 0xffffffffffffffff 1 refl (omega arith) (omega arith)

-- lui x1, 0x20000, whose immediate is positive and has the bit 17 set
upper_immediate_exact_example :
    (upper_immediate 0x20000 ≡ sext32 (0x20000 * 2 ^ 12))
    ↔ ((ltb 0x20000 (2 ^ 19) && 0x20000 / 2 ^ 17 % 2 == 1) ≡ false)
upper_immediate_exact_example = upper_immediate_exact 0x20000 (omega arith)
