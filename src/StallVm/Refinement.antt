-- ===== src/StallVm/Refinement.antt =====
-- Each cycle of the pipeline completes to at most one instruction of the sequential machine.
use riscv_simulator_pipeline.Base.{ℕ, ◌≡◌, sym, ap, ◌∙◌, Bool, true, false}
use riscv_simulator_pipeline.Base.{Option, none, some, if◌then◌else◌, Result, ◌>>=◌}
use riscv_simulator_pipeline.Base.{bind_assoc, Bool-cases, inl, inr, bind_congr_of, Ensures-both}
use riscv_simulator_pipeline.Memory.{Memory}
use riscv_simulator_pipeline.Registers.{RegisterFile}
use riscv_simulator_pipeline.Stages.{gpr, decode, fetch}
use riscv_simulator_pipeline.Stages.Laws.{writes, fetch_pc}
use riscv_simulator_pipeline.StallVm.{
  StallVm, decode_stage, fetch_stage, is_some, cycle, must_stall,
}
use riscv_simulator_pipeline.StallVm.Execute.{settled}
use riscv_simulator_pipeline.StallVm.Issue.{complete-decode}
use riscv_simulator_pipeline.StallVm.Invariant.{IsPipeline}
use riscv_simulator_pipeline.StallVm.Frame.{Keeps, retire-Keeps, complete-Keeps}
use riscv_simulator_pipeline.StallVm.Sequential.{
  Arch, retire, complete_over, complete, drain, exec_instruction, pending_pc, flushes, issues,
}
use riscv_simulator_pipeline.StallVm.Drain.{
  after_write_back, decoded_now, resumes, drain-cycle_lem, drain_lem, retire_over-eq-retire,
  complete_over-eq-complete, complete-flushes, complete-bubble,
}

module _ (s : StallVm) (inv : IsPipeline s) (m1 : Memory)
    (same_size : m1.memory_size ≡ s.memory.memory_size) (r : RegisterFile) (m : Memory) where
  abbrev Ends : Option ℕ → Type 0
  Ends target = (complete (decoded_now s target).0 r m >>= settled (resumes s target m1)) ≡ (
      if issues s
      then (settled (pending_pc s) (r, m, target) >>= exec_instruction s.if_id.instruction)
      else settled (pending_pc s) (r, m, target))

  -- A taken branch empties the stages before it.
  Ends-flushed : (target : ℕ) → flushes s.id_ex ≡ true → Ends (some target)
  unfolding decode_stage fetch_stage issues
  Ends-flushed target e = simp (e, complete-bubble r m)

  refetched :
      let (f, pc) = fetch s.next_if_id s.program_counter s.program_size m1 in
      (if f.is_valid then f.pc else pc) ≡ s.program_counter
  refetched =
      fetch_pc s.next_if_id s.program_counter s.program_size m1 (rw same_size inv.fits)
        (rw same_size inv.bounded)

  -- Nothing to decode: the fetch goes on.
  Ends-empty : flushes s.id_ex ≡ false → s.if_id.is_valid ≡ false → Ends none
  unfolding decode_stage fetch_stage issues
  Ends-empty e v =
      simp (e, v, complete-bubble r m) (ap (λ (pc : ℕ). settled pc (r, m, none)) refetched)

  -- A hazard: the instruction waits.
  Ends-stalled :
      flushes s.id_ex ≡ false
      → s.if_id.is_valid ≡ true
      → must_stall (decode s.if_id s.next_id_ex (after_write_back s)) s.id_ex s.ex_mem ≡ true
      → Ends none
  unfolding decode_stage fetch_stage issues
  Ends-stalled e v h = simp (e, v, h, complete-bubble r m)

  -- The instruction leaves the decode stage.
  Ends-issued :
      flushes s.id_ex ≡ false
      → s.if_id.is_valid ≡ true
      → must_stall (decode s.if_id s.next_id_ex (after_write_back s)) s.id_ex s.ex_mem ≡ false
      → ((i : ℕ)
          → writes s.id_ex.control s.id_ex.rd_index i ≡ false
          → writes s.ex_mem.control s.ex_mem.rd_index i ≡ false
          → gpr r i ≡ gpr (after_write_back s) i)
      → Ends none
  unfolding decode_stage fetch_stage issues
  Ends-issued e v h same =
      simp (e, v, h)
        (ap
            (λ (pc : ℕ).
              complete (decode s.if_id s.next_id_ex (after_write_back s)) r m >>= settled pc)
            (refetched ∙ inv.fetched_next v ∙ inv.fetched_inc v)
          ∙ complete-decode s.if_id s.next_id_ex (after_write_back s) r m s.id_ex s.ex_mem v
              (inv.fetched_inc v) h same)

  ends :
      (target : Option ℕ)
      → is_some target ≡ flushes s.id_ex
      → ((i : ℕ)
          → writes s.id_ex.control s.id_ex.rd_index i ≡ false
          → writes s.ex_mem.control s.ex_mem.rd_index i ≡ false
          → gpr r i ≡ gpr (after_write_back s) i)
      → Ends target
  ends (some target) e same = Ends-flushed target (sym e)
  ends none e same = elim (Bool-cases s.if_id.is_valid) [
    | inl v ↦
        elim (Bool-cases
          (must_stall (decode s.if_id s.next_id_ex (after_write_back s)) s.id_ex s.ex_mem)) [
            | inl h ↦ Ends-stalled (sym e) v h
            | inr h ↦ Ends-issued (sym e) v h same
          ]
    | inr v ↦ Ends-empty (sym e) v
  ]

module _ (s : StallVm) (inv : IsPipeline s) where
  -- What the sequential machine does with the state that the instructions in flight leave.
  abbrev goes_on : Bool → RegisterFile × Memory × Option ℕ → Result Arch
  goes_on issued q =
      if issued
      then (settled (pending_pc s) q >>= exec_instruction s.if_id.instruction)
      else settled (pending_pc s) q

  then_ends :
      (p : RegisterFile × Memory)
      → Keeps s.ex_mem.control s.ex_mem.rd_index (after_write_back s) s.memory p.0 p.1
      → (complete_over s.next_ex_mem s.id_ex p.0 p.1 >>= λ q.
          complete (decoded_now s q.2).0 q.0 q.1 >>= settled (resumes s q.2 p.1))
        ≡ (complete s.id_ex p.0 p.1 >>= goes_on (issues s))
  then_ends p kept = rw (complete_over-eq-complete s.next_ex_mem s.id_ex p.0 p.1) (
      bind_congr_of _ _
        (Ensures-both (complete s.id_ex p.0 p.1) (complete-Keeps s.id_ex p.0 p.1 inv.id_ex_decoded)
          (complete-flushes s.id_ex p.0 p.1))
        (λ q k.
          ends s inv p.1 kept.same_size q.0 q.1 q.2 k.1
            (λ i d x. k.0.same_gpr i d ∙ kept.same_gpr i x)))

  collect :
      (issued : Bool)
      → (retire s.ex_mem (after_write_back s) s.memory >>= λ p.
          complete s.id_ex p.0 p.1 >>= goes_on issued)
        ≡ (if issued then (drain s >>= exec_instruction s.if_id.instruction) else drain s)
  collect true = simp (drain_lem s, bind_assoc)
  collect false = sym (drain_lem s)

  -- From a state that satisfies the invariant, a cycle of RV5SStallVM with its instructions in
  -- flight completed in order is one instruction of the machine without a pipeline if the cycle
  -- takes one out of the decode stage, and no change of registers, memory and program counter if
  -- it does not; the two fault alike.
  pub cycle_refines :
      (cycle s >>= drain)
      ≡ (if issues s then (drain s >>= exec_instruction s.if_id.instruction) else drain s)
  cycle_refines =
      drain-cycle_lem s
      ∙ rw
          (retire_over-eq-retire s.next_mem_wb s.ex_mem (after_write_back s) s.memory
            inv.ex_mem_decoded)
          (bind_congr_of _ _
            (retire-Keeps s.ex_mem (after_write_back s) s.memory inv.ex_mem_decoded) then_ends)
      ∙ collect (issues s)
