-- ===== src/StallVm/Run.antt =====
-- RV5SStallVM::Reset, Run and DebugRun. The loops run on fuel, one unit for each turn; `none` is a
-- loop that has not stopped when the fuel is used up.
pub mod Laws
pub mod Ends
use riscv_simulator_pipeline.Base.{
  ℕ, zero, suc, Bool, true, false, Option, none, some, if◌then◌else◌, ◌+◌, ◌||◌,
}
use riscv_simulator_pipeline.Base.{Result, ok, err, ◌>>=◌}
use riscv_simulator_pipeline.Memory
use riscv_simulator_pipeline.Registers
use riscv_simulator_pipeline.VmBase.{VmBase, Status, running, breakpoint_hit, check_breakpoint}
use riscv_simulator_pipeline.StallVm.{StallVm, cycle, step}
use riscv_simulator_pipeline.PipelineRegisters.{
  if_id_bubble, id_ex_bubble, ex_mem_bubble, mem_wb_bubble,
}

-- Reset keeps the breakpoints, the status and a stop request.
unfoldable pub reset : StallVm → StallVm
reset s = record s {
  base = record (s.base) {
    program_counter = 0;
    instructions_retired = 0;
    cycle_s = 0;
    stall_cycles = 0;
    branch_mispredictions = 0;
    registers = Registers.reset;
    memory = Memory.reset s.memory;
    program_size = 0;
  };
  stall_request = false;
  flush_pipeline = false;
  if_id = if_id_bubble;
  id_ex = id_ex_bubble;
  ex_mem = ex_mem_bubble;
  mem_wb = mem_wb_bubble;
  next_if_id = if_id_bubble;
  next_id_ex = id_ex_bubble;
  next_ex_mem = ex_mem_bubble;
  next_mem_wb = mem_wb_bubble;
}

-- RequestStop and ClearStop
abbrev pub set_stop : Bool → StallVm → StallVm
set_stop b s = record s { base = record (s.base) { stop_requested = b } }

abbrev pub set_status : Status → StallVm → StallVm
set_status status s = record s { base = record (s.base) { output_status = status } }

-- `stop_requested_` is atomic, and the main thread sets it while a run goes on (RequestStop for the
-- commands STOP and EXIT, and before the next command that runs the machine). A step never reads it,
-- so a request counts from the next turn of the loop on: `asked` tells in front of which turns there
-- is a new one. What else the main thread may write during a run (RESET, the status, registers and
-- breakpoints) is left out.
module _ (asked : ℕ → Bool) where
  -- The loop of Run, from turn number `turn` on.
  unfoldable pub run_loop : ℕ → ℕ → StallVm → Result (Option StallVm)
  run_loop zero turn s = ok none
  run_loop (suc fuel) turn s =
      if asked turn || s.stop_requested
      then ok (some (set_stop false s))
      else (step s >>= run_loop fuel (turn + 1))

  unfoldable pub run : ℕ → StallVm → Result (Option StallVm)
  run fuel s = run_loop fuel 0 (set_status running (set_stop false s))

  -- The loop of DebugRun.
  unfoldable pub debug_loop : ℕ → ℕ → StallVm → Result (Option StallVm)
  debug_loop zero turn s = ok none
  debug_loop (suc fuel) turn s =
      if asked turn || s.stop_requested
      then ok (some (set_stop false s))
      else if check_breakpoint s.breakpoints s.program_counter
      then ok (some (set_status breakpoint_hit s))
      else (step s >>= debug_loop fuel (turn + 1))

  unfoldable pub debug_run : ℕ → StallVm → Result (Option StallVm)
  debug_run fuel s = debug_loop fuel 0 (set_status running (set_stop false s))
