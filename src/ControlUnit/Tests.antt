-- ===== src/ControlUnit/Tests.antt =====
-- The control unit on concrete words.
use riscv_simulator_pipeline.ControlUnit.{get_control_signals}
use riscv_simulator_pipeline.ControlUnit.Laws.{IsDecoded, get_control_signals-IsDecoded}

-- add x3, x1, x2
get_control_signals-IsDecoded_example : IsDecoded (get_control_signals 0x002081b3)
get_control_signals-IsDecoded_example = get_control_signals-IsDecoded 0x002081b3
