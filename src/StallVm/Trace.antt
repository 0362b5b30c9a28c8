-- ===== src/StallVm/Trace.antt =====
-- Many cycles of RV5SStallVM.
use riscv_simulator_pipeline.Base.{
  ℕ, zero, suc, ◌≡◌, refl, ap, ◌∙◌, Bool, true, false, List, [], ◌∷◌,
}
use riscv_simulator_pipeline.Base.{if◌then◌else◌, Result, ok, err, ◌>>=◌, bind_assoc, bind_congr_of}
use riscv_simulator_pipeline.StallVm.{StallVm, cycle}
use riscv_simulator_pipeline.StallVm.Sequential.{Arch, exec_instruction, drain, issues}
use riscv_simulator_pipeline.StallVm.Invariant.{IsPipeline, cycle-IsPipeline}
use riscv_simulator_pipeline.StallVm.Refinement.{cycle_refines}

unfoldable pub cycles : ℕ → StallVm → Result StallVm
cycles zero s = ok s
cycles (suc n) s = cycle s >>= cycles n

-- A list that the state determines, empty after a fault.
abbrev on_success : (StallVm → List ℕ) → Result StallVm → List ℕ
on_success f (ok s) = f s
on_success f (err e) = []

-- The instructions that the next `n` cycles issue, up to a fault.
unfoldable pub issued : ℕ → StallVm → List ℕ
issued zero s = []
issued (suc n) s =
    let rest = on_success (issued n) (cycle s) in
    if issues s then s.if_id.instruction ∷ rest else rest

-- The sequential machine on a list of instructions.
unfoldable pub exec_all : List ℕ → Arch → Result Arch
exec_all [] a = ok a
exec_all (w ∷ ws) a = exec_instruction w a >>= exec_all ws

-- One cycle, and what the machine does after it.
after_cycle :
    (b : Bool) (w : ℕ) (a : Result Arch) (c : Result StallVm) (rest : StallVm → List ℕ)
    → (c >>= drain) ≡ (if b then (a >>= exec_instruction w) else a)
    → (c >>= λ s. drain s >>= exec_all (rest s))
      ≡ (a >>= exec_all (if b then w ∷ on_success rest c else on_success rest c))
unfolding exec_all
after_cycle true w a (ok s) rest h = rw h (bind_assoc a (exec_instruction w) (exec_all (rest s)))
after_cycle true w a (err e) rest h =
    ap (λ (r : Result Arch). r >>= exec_all []) h ∙ bind_assoc a (exec_instruction w) (exec_all [])
after_cycle false w a (ok s) rest h = rw h refl
after_cycle false w a (err e) rest h = ap (λ (r : Result Arch). r >>= exec_all []) h

bind_ok : (a : Result Arch) → a ≡ (a >>= exec_all [])
unfolding exec_all
bind_ok (ok a) = refl
bind_ok (err e) = refl

-- From a state that satisfies the invariant, after any number of cycles, with the instructions in
-- flight completed, RV5SStallVM is where the machine without a pipeline is after the instructions
-- that these cycles issued, in their order.
pub cycles_refine :
    (n : ℕ) (s : StallVm)
    → IsPipeline s
    → (cycles n s >>= drain) ≡ (drain s >>= exec_all (issued n s))
unfolding cycles issued
cycles_refine zero s inv = bind_ok (drain s)
cycles_refine (suc n) s inv =
    bind_assoc (cycle s) (cycles n) drain
    ∙ bind_congr_of _ _ (cycle-IsPipeline s inv) (λ s' inv'. cycles_refine n s' inv')
    ∙ after_cycle (issues s) s.if_id.instruction (drain s) (cycle s) (issued n)
        (cycle_refines s inv)
