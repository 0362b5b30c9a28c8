-- ===== src/Predictor/Dynamic1Bit.antt =====
-- dynamic_1bit_predictor.h and .cpp: the outcome of each branch when it was last resolved.
use riscv_simulator_pipeline.Base.{ℕ, Bool, false, none, some}
use riscv_simulator_pipeline.VmBase.{incr_if}
use riscv_simulator_pipeline.Predictor.{Table, find, assign, differs, BranchPredictor}

pub record State : Type 0 where
  pub bht : Table Bool
  pub no_mispredictions : ℕ

unfoldable pub get_prediction : State → ℕ → Bool
get_prediction s pc = elim (find s.bht pc) [ none ↦ false | some taken ↦ taken ]

unfoldable pub update_state : State → ℕ → Bool → Bool → State
update_state s pc predicted_outcome actual_outcome = record {
  bht = assign s.bht pc actual_outcome;
  no_mispredictions = incr_if (differs predicted_outcome actual_outcome) s.no_mispredictions;
}

abbrev pub dynamic_1bit : BranchPredictor State
dynamic_1bit = record {
  get_prediction = get_prediction;
  update_state = update_state;
  get_mispredictions = λ s. s.no_mispredictions;
}
