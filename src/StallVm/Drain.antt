-- ===== src/StallVm/Drain.antt =====
-- A cycle with its instructions in flight completed, as those instructions in their order.
use riscv_simulator_pipeline.Base.{ℕ, ◌≡◌, refl, ap, Bool, false}
use riscv_simulator_pipeline.Base.{Option, none, if◌then◌else◌, Result, ok, err, ◌>>=◌}
use riscv_simulator_pipeline.Base.{
  bind_assoc, arith, Bool-cases, inl, inr, Ensures, returns, faults,
}
use riscv_simulator_pipeline.Memory.{Memory}
use riscv_simulator_pipeline.Registers.{RegisterFile}
use riscv_simulator_pipeline.ControlUnit.Laws.{IsDecoded}
use riscv_simulator_pipeline.Stages.{write_back, memory_stage, access, transfer}
use riscv_simulator_pipeline.Stages.Laws.{write_back-transfer}
use riscv_simulator_pipeline.StallVm.{
  StallVm, execute_stage, decode_stage, fetch_stage, is_some, or_else, cycle,
}
use riscv_simulator_pipeline.StallVm.Execute.{settled}
use riscv_simulator_pipeline.StallVm.Sequential.{
  retire_over, retire, complete_over, complete, drain, pending_pc, flushes,
}
use riscv_simulator_pipeline.PipelineRegisters.{
  IfIdReg, ExMemReg, IdExReg, MemWbReg, mem_wb_bubble, ex_mem_bubble, id_ex_bubble,
}

abbrev then_write : RegisterFile → MemWbReg × Memory → Result (RegisterFile × Memory)
then_write r p = ok (write_back p.0 r, p.1)

transfer-retire :
    (x : ExMemReg) (next : MemWbReg) (r : RegisterFile) (a : Result (ℕ × Memory))
    → IsDecoded x.control
    → (a >>= (λ p. ok (transfer x next p.0, p.1)) >>= then_write r)
      ≡ (a >>= (λ p. ok (transfer x mem_wb_bubble p.0, p.1)) >>= then_write r)
transfer-retire x next r (ok (result, m)) d =
    ap (λ t. ok (t, m)) (write_back-transfer x next mem_wb_bubble result r d)
transfer-retire x next r (err e) d = refl

-- What the memory stage has left behind it does not change how an instruction retires.
pub retire_over-eq-retire :
    (next : MemWbReg) (x : ExMemReg) (r : RegisterFile) (m : Memory)
    → IsDecoded x.control
    → retire_over next x r m ≡ retire x r m
unfolding retire_over memory_stage write_back
retire_over-eq-retire next x r m d = elim (Bool-cases x.is_valid) [
  | inl v ↦ elim (Bool-cases x.control.is_nop) [
    | inl n ↦ ground arith
    | inr n ↦
        simp (v, n, d.never_csr, d.never_syscall)
          (transfer-retire x next r (access x.control m x.alu_result x.store_data) d)
  ]
  | inr i ↦ ground arith
]

-- The same of the execute stage.
pub complete_over-eq-complete :
    (next : ExMemReg) (d : IdExReg) (r : RegisterFile) (m : Memory)
    → complete_over next d r m ≡ complete d r m
unfolding complete_over execute_stage retire_over memory_stage
complete_over-eq-complete next d r m = elim (Bool-cases d.is_valid) [
  | inl v ↦ elim (Bool-cases d.control.is_nop) [ inl n ↦ simp (v, n) | inr n ↦ simp (v, n) ]
  | inr i ↦ simp i
]

-- The step from the execute stage of an instruction to its end, and then `k`.
abbrev onwards :
    {A : Type 0}
    → IdExReg
    → RegisterFile × Memory
    → (RegisterFile × Memory × Option ℕ → Result A)
    → Result A
onwards d p k = complete d p.0 p.1 >>= k

module _ (s : StallVm) where
  abbrev pub after_write_back : RegisterFile
  after_write_back = write_back s.mem_wb s.registers

  -- The decode and the fetch stage of a cycle whose execute stage found `target`.
  abbrev pub decoded_now : Option ℕ → IdExReg × Bool
  decoded_now target =
      decode_stage (is_some target) s.if_id s.id_ex s.ex_mem s.next_id_ex after_write_back

  abbrev pub fetched_now : Option ℕ → Memory → IfIdReg × ℕ
  fetched_now target m =
      fetch_stage (decoded_now target).1 (is_some target) s.next_if_id
        (or_else target s.program_counter) s.program_size m

  -- The address at which the program goes on after the cycle.
  abbrev pub resumes : Option ℕ → Memory → ℕ
  resumes target m =
      let stall = (decoded_now target).1 in
      let (next, pc) = fetched_now target m in
      let waiting = if stall then s.if_id else next in if waiting.is_valid then waiting.pc else pc

  -- A cycle, drained: the instructions in flight end in order, and then the one just decoded.
  pub drain-cycle_lem : (cycle s >>= drain) ≡ (
      retire_over s.next_mem_wb s.ex_mem after_write_back s.memory >>= λ p.
      complete_over s.next_ex_mem s.id_ex p.0 p.1 >>= λ q.
      complete (decoded_now q.2).0 q.0 q.1 >>= settled (resumes q.2 p.1))
  unfolding cycle drain retire_over complete_over
  drain-cycle_lem = simp bind_assoc

  pub drain_lem : drain s ≡ (
      retire s.ex_mem after_write_back s.memory >>= λ p.
      complete s.id_ex p.0 p.1 >>= settled (pending_pc s))
  unfolding drain
  drain_lem = refl

tagged :
    (target : Option ℕ) (a : Result (RegisterFile × Memory))
    → Ensures
        (λ (q : RegisterFile × Memory × Option ℕ). is_some q.2 ≡ is_some target)
        (a >>= λ q. ok (q.0, q.1, target))
tagged target (ok (r, m)) = returns refl
tagged target (err e) = faults

-- What an instruction that ends leaves: a target exactly if it flushes.
pub complete-flushes :
    (d : IdExReg) (r : RegisterFile) (m : Memory)
    → Ensures (λ (q : RegisterFile × Memory × Option ℕ). is_some q.2 ≡ flushes d) (complete d r m)
unfolding complete_over flushes
complete-flushes d r m = go (execute_stage d ex_mem_bubble)
  where
    go :
        (e : Result (ExMemReg × Option ℕ))
        → Ensures
            (λ (q : RegisterFile × Memory × Option ℕ).
              is_some q.2 ≡ elim e [ ok (x, target) ↦ is_some target | err _ ↦ false ])
            (e >>= λ x. retire x.0 r m >>= λ q. ok (q.0, q.1, x.1))
    go (ok (x, target)) = tagged target (retire x r m)
    go (err _) = faults

pub complete-bubble : (r : RegisterFile) (m : Memory) → complete id_ex_bubble r m ≡ ok (r, m, none)
unfolding complete_over execute_stage retire_over memory_stage write_back
complete-bubble r m = refl
