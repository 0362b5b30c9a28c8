-- ===== src/Predictor/Tests.antt =====
-- The predictors on concrete histories.
use riscv_simulator_pipeline.Base.{◌≡◌, true, false, [], ◌∷◌, ◌==◌, leb, if◌then◌else◌}
use riscv_simulator_pipeline.Predictor.Dynamic1Bit
use riscv_simulator_pipeline.Predictor.Dynamic2Bit
use riscv_simulator_pipeline.Predictor.Dynamic2Bit.{current, one_taken, two_taken}
use riscv_simulator_pipeline.Predictor.Laws.{value, saturate, update_2bit, settles_2bit}

abbrev one : Dynamic1Bit.State
one = record { bht = (8, true) ∷ (16, false) ∷ []; no_mispredictions = 3 }

abbrev two : Dynamic2Bit.State
two = record { bht = (8, two_taken) ∷ (16, one_taken) ∷ []; no_mispredictions = 3 }

update_2bit_example :
    (value (current (Dynamic2Bit.update_state two 16 true false) 16)
      ≡ (if 16 == 16 then saturate (value (current two 16)) false else value (current two 16)))
    × (Dynamic2Bit.get_prediction (Dynamic2Bit.update_state two 16 true false) 16
        ≡ leb 2 (value (current (Dynamic2Bit.update_state two 16 true false) 16)))
update_2bit_example = update_2bit two 16 true false 16

settles_2bit_example :
    Dynamic2Bit.get_prediction
      (Dynamic2Bit.update_state (Dynamic2Bit.update_state two 8 true false) 8 true false)
      8
    ≡ false
settles_2bit_example = settles_2bit two 8 true true false
