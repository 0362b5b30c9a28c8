-- ===== src/VmBase.antt =====
-- include/vm/vm_base.h and src/vm/vm_base.cpp: the state that every machine has. The floating-point
-- figures `cpi_` and `ipc_`, the input queue and the files that a dump writes are left out.
use riscv_simulator_pipeline.Base.{ℕ, ◌+◌, ◌%◌, ◌^◌, Bool, true, false, List, [], ◌∷◌}
use riscv_simulator_pipeline.Base.{◌==◌, if◌then◌else◌, ◌||◌}
use riscv_simulator_pipeline.Memory.{Memory}
use riscv_simulator_pipeline.Registers.{RegisterFile}

-- `output_status_`: what LoadProgram and the pipelined machines assign to it, and what main.cpp does
-- for its commands. The texts of RVSSVM are left out.
pub data Status : Type 0 where
  initial program_loaded running step_completed breakpoint_hit program_end : Status
  parse_success parse_error stopped reset_done exited : Status

pub record VmBase : Type 0 where
  pub program_counter : ℕ
  pub program_size : ℕ
  pub cycle_s : ℕ
  pub instructions_retired : ℕ
  pub stall_cycles : ℕ
  pub branch_mispredictions : ℕ
  pub stop_requested : Bool
  pub breakpoints : List ℕ
  pub output_status : Status
  pub memory : Memory
  pub registers : RegisterFile

abbrev pub is_program_end : Status → Bool
is_program_end program_end = true
is_program_end _ = false

-- An `unsigned int` counter goes up by one, modulo 2 ^ 32.
abbrev pub incr : ℕ → ℕ
incr n = (n + 1) % 2 ^ 32

-- A counter that goes up if a test holds.
abbrev pub incr_if : Bool → ℕ → ℕ
incr_if b n = if b then incr n else n

unfoldable pub check_breakpoint : List ℕ → ℕ → Bool
check_breakpoint [] address = false
check_breakpoint (b ∷ breakpoints) address = b == address || check_breakpoint breakpoints address
