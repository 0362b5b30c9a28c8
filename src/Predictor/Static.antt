-- ===== src/Predictor/Static.antt =====
-- static_predictors.h: StaticTakenPredictor and StaticNotTakenPredictor, whose state is
-- no_mispredictions_.
use riscv_simulator_pipeline.Base.{ℕ, Bool, true, false}
use riscv_simulator_pipeline.VmBase.{incr_if}
use riscv_simulator_pipeline.Predictor.{differs, BranchPredictor}

unfoldable pub taken_prediction : ℕ → ℕ → Bool
taken_prediction s pc = false

unfoldable pub not_taken_prediction : ℕ → ℕ → Bool
not_taken_prediction s pc = true

unfoldable pub update_state : ℕ → ℕ → Bool → Bool → ℕ
update_state s pc predicted_outcome actual_outcome =
    incr_if (differs predicted_outcome actual_outcome) s

abbrev pub static_taken : BranchPredictor ℕ
static_taken = record {
  get_prediction = taken_prediction;
  update_state = update_state;
  get_mispredictions = λ s. s;
}

abbrev pub static_not_taken : BranchPredictor ℕ
static_not_taken = record {
  get_prediction = not_taken_prediction;
  update_state = update_state;
  get_mispredictions = λ s. s;
}
