-- ===== src/Predictor/Laws.antt =====
-- The branch predictors against what a history of outcomes makes them predict.
use riscv_simulator_pipeline.Base.{ℕ, ◌+◌, ◌-◌, ◌≡◌, refl, ap, ◌∙◌}
use riscv_simulator_pipeline.Base.{Bool, true, false, [], ◌∷◌, Option, none, some}
use riscv_simulator_pipeline.Base.{◌==◌, leb, if◌then◌else◌, arith, ==_iff}
use riscv_simulator_pipeline.Predictor.{Table, find, assign}
use riscv_simulator_pipeline.Predictor.Dynamic1Bit
use riscv_simulator_pipeline.Predictor.Dynamic2Bit
use riscv_simulator_pipeline.Predictor.Dynamic2Bit.{
  Counter, two_not_taken, one_not_taken, one_taken, two_taken, predicts, entry, current, next,
}

pub find-assign {ℓ} :
    {A : Type ℓ} (t : Table A) (pc : ℕ) (value : A) (i : ℕ)
    → find (assign t pc value) i ≡ (if i == pc then some value else find t i)
unfolding find assign
find-assign [] pc value i = ground arith
find-assign ((k, a) ∷ t) pc value i = ground (arith, find-assign t pc value i)

-- After a branch is resolved, the 1-bit predictor predicts its outcome for its address, and for
-- every other address what it predicted before.
update_1bit :
    (s : Dynamic1Bit.State) (pc : ℕ) (predicted actual : Bool) (i : ℕ)
    → Dynamic1Bit.get_prediction (Dynamic1Bit.update_state s pc predicted actual) i
      ≡ (if i == pc then actual else Dynamic1Bit.get_prediction s i)
unfolding Dynamic1Bit.get_prediction Dynamic1Bit.update_state
update_1bit s pc predicted actual i = ground (arith, find-assign s.bht pc actual i)

-- A state of the 2-bit predictor as the value of its counter.
abbrev pub value : Counter → ℕ
value two_not_taken = 0
value one_not_taken = 1
value one_taken = 2
value two_taken = 3

-- The counter that saturates at 0 and 3.
abbrev pub saturate : ℕ → Bool → ℕ
saturate n true = if leb 3 n then 3 else n + 1
saturate n false = n - 1

prediction_lem :
    (s : Dynamic2Bit.State) (i : ℕ) → Dynamic2Bit.get_prediction s i ≡ predicts (current s i)
unfolding Dynamic2Bit.get_prediction current predicts
prediction_lem s i = go (find s.bht i)
  where
    go :
        (o : Option Counter)
        → (let b : Bool = elim o [ none ↦ false | some counter ↦ predicts counter ] in b)
          ≡ predicts (entry o)
    go none = refl
    go (some counter) = refl

current-update_state :
    (s : Dynamic2Bit.State) (pc : ℕ) (predicted actual : Bool) (i : ℕ)
    → current (Dynamic2Bit.update_state s pc predicted actual) i
      ≡ (if i == pc then next (current s pc) actual else current s i)
unfolding Dynamic2Bit.update_state current
current-update_state s pc predicted actual i =
    ap entry (find-assign s.bht pc (next (current s pc) actual) i) ∙ go (i == pc)
  where
    go :
        (same : Bool)
        → entry (if same then some (next (current s pc) actual) else find s.bht i)
          ≡ (if same then next (current s pc) actual else current s i)
    go true = refl
    go false = refl

value-next : (c : Counter) (actual : Bool) → value (next c actual) ≡ saturate (value c) actual
unfolding next
value-next c actual = ground arith

predicts_lem : (c : Counter) → predicts c ≡ leb 2 (value c)
unfolding predicts
predicts_lem c = ground arith

predicts-next_twice :
    (c : Counter) (actual : Bool) → predicts (next (next c actual) actual) ≡ actual
unfolding predicts next
predicts-next_twice c actual = ground arith

-- The 2-bit predictor keeps a counter for each address that saturates at 0 and 3: a resolved
-- branch moves the counter of its address up if it was taken and down if not, and no other
-- counter; the prediction is whether the counter is 2 at least.
pub update_2bit :
    (s : Dynamic2Bit.State) (pc : ℕ) (predicted actual : Bool) (i : ℕ)
    → let s' = Dynamic2Bit.update_state s pc predicted actual in
      (value (current s' i)
        ≡ (if i == pc then saturate (value (current s pc)) actual else value (current s i)))
      × (Dynamic2Bit.get_prediction s' i ≡ leb 2 (value (current s' i)))
update_2bit s pc predicted actual i = (
  rw (current-update_state s pc predicted actual i, ← value-next (current s pc) actual)
      (value-if (i == pc) (next (current s pc) actual) (current s i)),
  prediction_lem _ i ∙ predicts_lem _,
)
  where
    value-if :
        (b : Bool) (c d : Counter) → value (if b then c else d) ≡ (if b then value c else value d)
    value-if true c d = refl
    value-if false c d = refl

-- After two outcomes in a row that agree, the 2-bit predictor predicts that outcome, whatever it
-- had counted before.
pub settles_2bit :
    (s : Dynamic2Bit.State) (pc : ℕ) (p q outcome : Bool)
    → Dynamic2Bit.get_prediction
        (Dynamic2Bit.update_state (Dynamic2Bit.update_state s pc p outcome) pc q outcome)
        pc
      ≡ outcome
settles_2bit s pc p q outcome =
    rw
      (
        prediction_lem,
        current-update_state (Dynamic2Bit.update_state s pc p outcome) pc q outcome pc,
        current-update_state s pc p outcome pc,
        (==_iff pc pc).1 refl,
      )
      (predicts-next_twice (current s pc) outcome)
