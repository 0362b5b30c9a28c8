-- ===== src/Predictor/Dynamic2Bit.antt =====
-- dynamic_2bit_predictor.h and .cpp: a counter of two bits for each branch.
use riscv_simulator_pipeline.Base.{ℕ, Bool, true, false, Option, none, some}
use riscv_simulator_pipeline.VmBase.{incr_if}
use riscv_simulator_pipeline.Predictor.{Table, find, assign, differs, BranchPredictor}

pub data Counter : Type 0 where
  two_not_taken one_not_taken one_taken two_taken : Counter

pub record State : Type 0 where
  pub bht : Table Counter
  pub no_mispredictions : ℕ

unfoldable pub predicts : Counter → Bool
predicts two_taken = true
predicts one_taken = true
predicts one_not_taken = false
predicts two_not_taken = false

unfoldable pub get_prediction : State → ℕ → Bool
get_prediction s pc = elim (find s.bht pc) [ none ↦ false | some counter ↦ predicts counter ]

-- The entry of a `bht_[pc]`, which is two_not_taken, the value 0, where there was none.
abbrev pub entry : Option Counter → Counter
entry none = two_not_taken
entry (some counter) = counter

unfoldable pub current : State → ℕ → Counter
current s pc = entry (find s.bht pc)

-- The two switches on the outcome of the branch.
unfoldable pub next : Counter → Bool → Counter
next two_not_taken true = one_not_taken
next one_not_taken true = one_taken
next one_taken true = two_taken
next two_taken true = two_taken
next two_taken false = one_taken
next one_taken false = one_not_taken
next one_not_taken false = two_not_taken
next two_not_taken false = two_not_taken

unfoldable pub update_state : State → ℕ → Bool → Bool → State
update_state s pc predicted_outcome actual_outcome = record {
  bht = assign s.bht pc (next (current s pc) actual_outcome);
  no_mispredictions = incr_if (differs predicted_outcome actual_outcome) s.no_mispredictions;
}

abbrev pub dynamic_2bit : BranchPredictor State
dynamic_2bit = record {
  get_prediction = get_prediction;
  update_state = update_state;
  get_mispredictions = λ s. s.no_mispredictions;
}
