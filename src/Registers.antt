-- ===== src/Registers.antt =====
-- include/vm/registers.h and src/vm/registers.cpp: the general-purpose registers. The
-- floating-point registers and the CSRs are read by no pipelined machine.
pub mod Laws
mod Tests
use riscv_simulator_pipeline.Base.{ℕ, List, set, get_or, replicate, leb, ◌==◌, if◌then◌else◌}
use riscv_simulator_pipeline.Base.{Result, ok, err, out_of_range}

abbrev pub num_gpr : ℕ
num_gpr = 32

-- gpr_
pub record RegisterFile : Type 0 where
  pub gpr : List ℕ

unfoldable pub reset : RegisterFile
reset = record { gpr = replicate num_gpr 0 }

unfoldable pub read_gpr : RegisterFile → ℕ → Result ℕ
read_gpr r reg =
    if leb num_gpr reg then err out_of_range else if reg == 0 then ok 0 else ok (get_or r.gpr reg 0)

unfoldable pub write_gpr : RegisterFile → ℕ → ℕ → Result RegisterFile
write_gpr r reg value =
    if leb num_gpr reg
    then err out_of_range
    else if reg == 0
    then ok r
    else ok (record { gpr = set r.gpr reg value })
