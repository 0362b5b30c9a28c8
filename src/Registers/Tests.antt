-- ===== src/Registers/Tests.antt =====
-- The registers on concrete values.
use riscv_simulator_pipeline.Base.{ℕ, ◌≡◌, ◌<◌, ◌==◌, if◌then◌else◌, ok, err, out_of_range, arith}
use riscv_simulator_pipeline.Registers.{RegisterFile, reset, read_gpr, write_gpr}
use riscv_simulator_pipeline.Registers.Laws.{
  IsRegisterFile, reset-IsRegisterFile, read_gpr-write_gpr, gpr_out_of_range,
}

read_gpr-write_gpr_example :
    (r : RegisterFile) × (write_gpr reset 5 77 ≡ ok r)
    × IsRegisterFile r
    × ((i : ℕ)
        → i < 32
        → read_gpr r i ≡ (if i == 0 then ok 0 else if i == 5 then ok 77 else read_gpr reset i))
read_gpr-write_gpr_example = read_gpr-write_gpr reset 5 77 reset-IsRegisterFile (omega arith)

gpr_out_of_range_example :
    (read_gpr reset 32 ≡ err out_of_range) × (write_gpr reset 32 1 ≡ err out_of_range)
gpr_out_of_range_example = gpr_out_of_range reset 32 1 (omega arith)
