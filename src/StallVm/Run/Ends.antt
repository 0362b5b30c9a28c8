-- ===== src/StallVm/Run/Ends.antt =====
-- Run stops: a pipeline with nothing to fetch and nothing in front of the execute stage empties.
use riscv_simulator_pipeline.Base.{ℕ, suc, Bool, ◌+◌, ◌>>=◌, ◌≡◌, refl, true, false, Option, arith}
use riscv_simulator_pipeline.Base.{leb, Result, ok, err, Ensures, returns, faults}
use riscv_simulator_pipeline.Base.{Ensures-bind, Bool-cases, inl, inr, ◌⊎◌, ◌∙◌}
use riscv_simulator_pipeline.Memory.{Memory}
use riscv_simulator_pipeline.Stages.{memory_stage, fetch}
use riscv_simulator_pipeline.VmBase.{running, is_program_end}
use riscv_simulator_pipeline.StallVm.{
  StallVm, execute_stage, decode_stage, fetch_stage, cycle, is_some, is_done, finish, step,
}
use riscv_simulator_pipeline.StallVm.Run.{run_loop, run, set_stop, set_status}
use riscv_simulator_pipeline.PipelineRegisters.{ExMemReg, MemWbReg}

-- Nothing is left to fetch, to decode or to execute.
pub record IsEmptying (s : StallVm) : Type 0 where
  pub fetched : leb s.program_size s.program_counter ≡ true
  pub none_decoded : s.if_id.is_valid ≡ false
  pub none_executed : s.id_ex.is_valid ≡ false

memory_stage_empty :
    (x : ExMemReg) (next : MemWbReg) (m : Memory)
    → Ensures
        (λ (w : MemWbReg × Memory). x.is_valid ≡ false → w.0.is_valid ≡ false)
        (memory_stage x next m)
unfolding memory_stage
memory_stage_empty x next m = elim (Bool-cases x.is_valid) [
  | inl v ↦ never _ v
  | inr i ↦ simp i (returns (λ h. refl))
]
  where
    never :
        (r : Result (MemWbReg × Memory))
        → x.is_valid ≡ true
        → Ensures (λ (w : MemWbReg × Memory). x.is_valid ≡ false → w.0.is_valid ≡ false) r
    never (ok w) v = returns (λ h. ground (arith, h, v))
    never (err e) v = faults

cycle_empties :
    (s : StallVm)
    → IsEmptying s
    → Ensures
        (λ s'.
          IsEmptying s'
          × (s'.ex_mem.is_valid ≡ false)
          × (s.ex_mem.is_valid ≡ false → s'.mem_wb.is_valid ≡ false)
          × (s'.stop_requested ≡ s.stop_requested))
        (cycle s)
unfolding cycle execute_stage decode_stage fetch_stage fetch
cycle_empties s h =
    simp (h.fetched, h.none_decoded, h.none_executed)
      (Ensures-bind (memory_stage_empty s.ex_mem s.next_mem_wb s.memory) (λ p e.
        returns (
          record { fetched = h.fetched; none_decoded = refl; none_executed = refl },
          refl,
          e,
          refl,
        )))

-- The run has stopped.
abbrev pub HasStopped : Option StallVm → Type 0
HasStopped o = is_some o ≡ true

-- A state that is not done goes on, and is the same but for its status.
finish_goes_on : (s : StallVm) → is_done s ≡ false → (finish s).stop_requested ≡ s.stop_requested
unfolding finish
finish_goes_on s h = simp h refl

finish_goes_on_status :
    (s : StallVm) → is_done s ≡ false → is_program_end (finish s).output_status ≡ false
unfolding finish
finish_goes_on_status s h = simp h refl

finish_stops : (s : StallVm) → is_done s ≡ true → (finish s).stop_requested ≡ true
unfolding finish
finish_stops s h = simp h refl

finish-IsEmptying : (s : StallVm) → IsEmptying s → IsEmptying (finish s)
unfolding finish
finish-IsEmptying s h = ground (arith, h.fetched, h.none_decoded, h.none_executed)

finish_ex_mem : (s : StallVm) → (finish s).ex_mem.is_valid ≡ s.ex_mem.is_valid
unfolding finish
finish_ex_mem s = ground arith

empty_is_done :
    (s : StallVm)
    → IsEmptying s
    → s.ex_mem.is_valid ≡ false
    → s.mem_wb.is_valid ≡ false
    → is_done s ≡ true
unfolding is_done
empty_is_done s h e m = simp (h.fetched, h.none_decoded, h.none_executed, e, m) refl

-- A state that stops the loop, or one turn before that.
abbrev StopsSoon : StallVm → Type 0
StopsSoon x =
    (x.stop_requested ≡ true)
    ⊎ (IsEmptying x
        × (x.ex_mem.is_valid ≡ false)
        × (x.stop_requested ≡ false)
        × (is_program_end x.output_status ≡ false))

finish-StopsSoon :
    (s : StallVm)
    → IsEmptying s
    → s.ex_mem.is_valid ≡ false
    → s.stop_requested ≡ false
    → StopsSoon (finish s)
finish-StopsSoon s h e stop = elim (Bool-cases (is_done s)) [
  | inl d ↦ inl (finish_stops s d)
  | inr g ↦ inr (
    finish-IsEmptying s h,
    finish_ex_mem s ∙ e,
    finish_goes_on s g ∙ stop,
    finish_goes_on_status s g,
  )
]

module _ (asked : ℕ → Bool) where
  run_loop_stopped :
      (more turn : ℕ) (s : StallVm)
      → s.stop_requested ≡ true
      → Ensures HasStopped (run_loop asked (suc more) turn s)
  unfolding run_loop
  run_loop_stopped more turn s h = elim (Bool-cases (asked turn)) [
    | inl now ↦ simp now (returns refl)
    | inr quiet ↦ simp (quiet, h) (returns refl)
  ]

  -- A request in front of a turn only stops the run sooner.
  run_loop_goes :
      (more turn : ℕ) (s : StallVm)
      → s.stop_requested ≡ false
      → Ensures HasStopped (step s >>= run_loop asked more (turn + 1))
      → Ensures HasStopped (run_loop asked (suc more) turn s)
  unfolding run_loop
  run_loop_goes more turn s stop h = elim (Bool-cases (asked turn)) [
    | inl now ↦ simp now (returns refl)
    | inr quiet ↦ simp (quiet, stop) h
  ]

  run_loop_last :
      (more turn : ℕ) (s : StallVm)
      → IsEmptying s
      → s.ex_mem.is_valid ≡ false
      → s.stop_requested ≡ false
      → is_program_end s.output_status ≡ false
      → Ensures HasStopped (run_loop asked (suc (suc more)) turn s)
  unfolding step
  run_loop_last more turn s h e stop going = run_loop_goes (suc more) turn s stop (
      simp going (
        Ensures-bind
          (Ensures-bind (cycle_empties s h)
            (λ s' k. returns (finish_stops s' (empty_is_done s' k.0 k.1 (k.2 e)))))
          (λ x st. run_loop_stopped more (turn + 1) x st)))

  run_loop-StopsSoon :
      (more turn : ℕ) (x : StallVm)
      → StopsSoon x
      → Ensures HasStopped (run_loop asked (suc (suc more)) turn x)
  run_loop-StopsSoon more turn x (inl st) = run_loop_stopped (suc more) turn x st
  run_loop-StopsSoon more turn x (inr w) = run_loop_last more turn x w.0 w.1 w.2 w.3

  run_loop_empties :
      (more turn : ℕ) (s : StallVm)
      → IsEmptying s
      → s.stop_requested ≡ false
      → is_program_end s.output_status ≡ false
      → Ensures HasStopped (run_loop asked (suc (suc (suc more))) turn s)
  unfolding step
  run_loop_empties more turn s h stop going = run_loop_goes (suc (suc more)) turn s stop (
      simp going (
        Ensures-bind
          (Ensures-bind (cycle_empties s h)
            (λ s' k. returns (finish-StopsSoon s' k.0 k.1 (k.3 ∙ stop))))
          (λ x n. run_loop-StopsSoon more (turn + 1) x n)))

  -- Once everything is fetched and no instruction is left in front of the decode and the execute
  -- stage, Run stops within three turns of its loop, whatever the memory and the write-back stage
  -- hold and whatever stops are requested, unless an access of the memory faults.
  pub run_empties :
      (more : ℕ) (s : StallVm)
      → IsEmptying s
      → Ensures HasStopped (run asked (suc (suc (suc more))) s)
  unfolding run
  run_empties more s h =
      run_loop_empties more 0 (set_status running (set_stop false s))
        (record {
          fetched = h.fetched;
          none_decoded = h.none_decoded;
          none_executed = h.none_executed;
        })
        refl refl
