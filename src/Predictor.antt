-- ===== src/Predictor.antt =====
-- include/vm/rv5s/branch_prediction and src/vm/rv5s/branch_prediction: the branch predictors, behind
-- the interface IBranchPredictor.
pub mod Dynamic1Bit
pub mod Dynamic2Bit
pub mod Static
pub mod Laws
mod Tests
use riscv_simulator_pipeline.Base.{
  ℕ, Bool, true, false, not, ◌||◌, List, [], ◌∷◌, Option, none, some,
}
use riscv_simulator_pipeline.Base.{◌==◌, if◌then◌else◌}

-- std::map<uint64_t, A>, by its entries
abbrev pub Table {ℓ} : Type ℓ → Type ℓ
Table A = List (ℕ × A)

-- bht_.find(pc)
unfoldable pub find {ℓ} : {A : Type ℓ} → Table A → ℕ → Option A
find [] pc = none
find ((k, a) ∷ entries) pc = if k == pc then some a else find entries pc

-- bht_[pc] = value
unfoldable pub assign {ℓ} : {A : Type ℓ} → Table A → ℕ → A → Table A
assign [] pc value = (pc, value) ∷ []
assign ((k, a) ∷ entries) pc value =
    if k == pc then (k, value) ∷ entries else (k, a) ∷ assign entries pc value

abbrev pub differs : Bool → Bool → Bool
differs true outcome = not outcome
differs false outcome = outcome

-- IBranchPredictor, with the state of the object that implements it
pub record BranchPredictor (S : Type 0) : Type 0 where
  pub get_prediction : S → ℕ → Bool
  pub update_state : S → ℕ → Bool → Bool → S
  pub get_mispredictions : S → ℕ

-- The branches that a machine resolves one by one: each is predicted, then its outcome reported.
unfoldable pub resolve_all : {S : Type 0} → BranchPredictor S → List (ℕ × Bool) → S → S
resolve_all p [] s = s
resolve_all p ((pc, outcome) ∷ branches) s =
    resolve_all p branches (p.update_state s pc (p.get_prediction s pc) outcome)
