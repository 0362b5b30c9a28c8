-- ===== src/Registers/Laws.antt =====
-- The laws of RegisterFile::ReadGpr and WriteGpr.
use riscv_simulator_pipeline.Base.{ℕ, ◌<◌, ◌≤◌, ◌≡◌, set, length}
use riscv_simulator_pipeline.Base.{◌==◌, if◌then◌else◌, ok, err, out_of_range, arith}
use riscv_simulator_pipeline.Base.{length-set, get_or-set_self, get_or-set_ne}
use riscv_simulator_pipeline.Base.{length-replicate}
use riscv_simulator_pipeline.Registers.{RegisterFile, num_gpr, reset, read_gpr, write_gpr}

abbrev pub IsRegisterFile : RegisterFile → Type 0
IsRegisterFile r = length r.gpr ≡ num_gpr

-- After a reset there are 32 registers and each one reads as 0.
pub reset-IsRegisterFile : IsRegisterFile reset
unfolding reset
reset-IsRegisterFile = length-replicate {A = ℕ} num_gpr 0

module _ (r : RegisterFile) (reg value : ℕ) (valid : IsRegisterFile r) (small : reg < 32) where
  -- A write to one of the 32 registers keeps their number, is what that register then reads as
  -- unless it is x0, which reads as 0, and leaves what every other register reads as.
  pub read_gpr-write_gpr :
      (r' : RegisterFile) × (write_gpr r reg value ≡ ok r')
      × IsRegisterFile r'
      × ((i : ℕ)
          → i < 32
          → read_gpr r' i ≡ (if i == 0 then ok 0 else if i == reg then ok value else read_gpr r i))
  unfolding read_gpr write_gpr
  read_gpr-write_gpr = (r', ground arith, ground (arith, length-set r.gpr reg value), reads)
    where
      r' : RegisterFile
      r' = if reg == 0 then r else record { gpr = set r.gpr reg value }

      reads :
          (i : ℕ)
          → i < 32
          → read_gpr r' i ≡ (if i == 0 then ok 0 else if i == reg then ok value else read_gpr r i)
      reads i below =
          ground (arith, get_or-set_self r.gpr reg value 0, get_or-set_ne r.gpr reg i value 0)

-- ReadGpr and WriteGpr refuse an index past the registers.
pub gpr_out_of_range :
    (r : RegisterFile) (reg value : ℕ)
    → 32 ≤ reg
    → (read_gpr r reg ≡ err out_of_range) × (write_gpr r reg value ≡ err out_of_range)
unfolding read_gpr write_gpr
gpr_out_of_range r reg value h = ground arith
