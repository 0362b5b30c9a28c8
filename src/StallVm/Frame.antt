-- ===== src/StallVm/Frame.antt =====
-- What the instructions in flight leave alone: every register that they do not write, and the size
-- of the memory.
use riscv_simulator_pipeline.Base.{ℕ, ◌≡◌, refl, Bool, true, false}
use riscv_simulator_pipeline.Base.{Result, ok, err, ◌>>=◌, Option, none}
use riscv_simulator_pipeline.Base.{
  arith, Bool-cases, inl, inr, Ensures, returns, faults, Ensures-bind,
}
use riscv_simulator_pipeline.Memory.{Memory}
use riscv_simulator_pipeline.Registers.{RegisterFile}
use riscv_simulator_pipeline.ControlUnit.Laws.{IsDecoded}
use riscv_simulator_pipeline.Stages.{gpr, write_back, memory_stage, transfer}
use riscv_simulator_pipeline.Stages.Laws.{writes, gpr-write_back, access-memory_size}
use riscv_simulator_pipeline.StallVm.{execute_stage, redirect}
use riscv_simulator_pipeline.StallVm.Sequential.{retire_over, retire, complete_over, complete}
use riscv_simulator_pipeline.PipelineRegisters.{
  ControlSignals, IdExReg, ExMemReg, MemWbReg, mem_wb_bubble, ex_mem_bubble,
}

-- The registers and the memory after an instruction with these signals.
pub record Keeps (c : ControlSignals) (rd : ℕ) (r : RegisterFile) (m : Memory) (r' : RegisterFile)
    (m' : Memory) : Type 0 where
  pub same_size : m'.memory_size ≡ m.memory_size
  pub same_gpr : (i : ℕ) → writes c rd i ≡ false → gpr r' i ≡ gpr r i

abbrev KeepsBoth : ControlSignals → ℕ → RegisterFile → Memory → RegisterFile × Memory → Type 0
KeepsBoth c rd r m p = Keeps c rd r m p.0 p.1

write_back-Keeps :
    (w : MemWbReg) (r : RegisterFile) (m m' : Memory)
    → m'.memory_size ≡ m.memory_size
    → Keeps w.control w.rd_index r m (write_back w r) m'
write_back-Keeps w r m m' e = record { same_size = e; same_gpr = gpr-write_back w r }

idle-Keeps :
    (c : ControlSignals) (rd : ℕ) (w : MemWbReg) (r : RegisterFile) (m : Memory)
    → w.control.reg_write ≡ false
    → Keeps c rd r m (write_back w r) m
idle-Keeps c rd w r m h = record {
  same_size = refl;
  same_gpr = λ i _. gpr-write_back w r i (ground arith);
}

transfer-Keeps :
    (x : ExMemReg) (r : RegisterFile) (m : Memory) (a : Result (ℕ × Memory))
    → Ensures (λ (p : ℕ × Memory). p.1.memory_size ≡ m.memory_size) a
    → Ensures (KeepsBoth x.control x.rd_index r m) (
        a >>= (λ p. ok (transfer x mem_wb_bubble p.0, p.1)) >>= λ (w : MemWbReg × Memory).
        ok (write_back w.0 r, w.1))
unfolding transfer
transfer-Keeps x r m (ok (result, m')) (returns e) = returns (record {
  same_size = e;
  same_gpr = λ i h. gpr-write_back (transfer x mem_wb_bubble result) r i (ground arith);
})
transfer-Keeps x r m (err e) faults = faults

pub retire-Keeps :
    (x : ExMemReg) (r : RegisterFile) (m : Memory)
    → IsDecoded x.control
    → Ensures (KeepsBoth x.control x.rd_index r m) (retire x r m)
unfolding retire_over memory_stage
retire-Keeps x r m d = elim (Bool-cases x.is_valid) [
  | inl v ↦ elim (Bool-cases x.control.is_nop) [
    | inl n ↦ simp (v, n) (returns (idle-Keeps x.control x.rd_index _ r m (ground arith)))
    | inr n ↦
        simp (v, n, d.never_csr, d.never_syscall)
          (transfer-Keeps x r m _ (access-memory_size x.control m x.alu_result x.store_data))
  ]
  | inr i ↦ simp i (returns (idle-Keeps x.control x.rd_index _ r m refl))
]

-- The register in front of the memory stage after an instruction that is not a no-op.
abbrev pub executed : IdExReg → ℕ → ExMemReg
executed d result = record {
  is_valid = true;
  control = d.control;
  pc_inc = d.pc_inc;
  alu_result = result;
  store_data = d.rs2_data;
  rd_index = d.rd_index;
}

retire_with-Keeps :
    (c : ControlSignals) (rd : ℕ) (r : RegisterFile) (m : Memory) (target : Option ℕ)
    (a : Result (RegisterFile × Memory))
    → Ensures (KeepsBoth c rd r m) a
    → Ensures
        (λ (p : RegisterFile × Memory × Option ℕ). Keeps c rd r m p.0 p.1)
        (a >>= λ q. ok (q.0, q.1, target))
retire_with-Keeps c rd r m target a h = Ensures-bind h (λ q k. returns k)

-- An instruction that writes no register keeps them all, whatever it is compared with.
silent-Keeps :
    (x : ExMemReg) (c : ControlSignals) (rd : ℕ) (r : RegisterFile) (m : Memory)
    → IsDecoded x.control
    → x.control.reg_write ≡ false
    → Ensures
        (λ (p : RegisterFile × Memory × Option ℕ). Keeps c rd r m p.0 p.1)
        (retire x r m >>= λ q. ok (q.0, q.1, none))
silent-Keeps x c rd r m h e = Ensures-bind (retire-Keeps x r m h) (λ q k.
    returns (record { same_size = k.same_size; same_gpr = λ i _. k.same_gpr i (ground arith) }))

executed-Keeps :
    (d : IdExReg) (r : RegisterFile) (m : Memory) (e : Result (ℕ × Bool))
    → IsDecoded d.control
    → Ensures
        (λ (p : RegisterFile × Memory × Option ℕ). Keeps d.control d.rd_index r m p.0 p.1)
        (e >>= (λ q. ok (executed d q.0, redirect d q.0)) >>= λ (x : ExMemReg × Option ℕ).
          retire x.0 r m >>= λ q. ok (q.0, q.1, x.1))
executed-Keeps d r m (ok (result, overflow)) h =
    retire_with-Keeps d.control d.rd_index r m _ _ (retire-Keeps (executed d result) r m h)
executed-Keeps d r m (err e) h = faults

pub complete-Keeps :
    (d : IdExReg) (r : RegisterFile) (m : Memory)
    → IsDecoded d.control
    → Ensures
        (λ (p : RegisterFile × Memory × Option ℕ). Keeps d.control d.rd_index r m p.0 p.1)
        (complete d r m)
unfolding complete_over execute_stage
complete-Keeps d r m h = elim (Bool-cases d.is_valid) [
  | inl v ↦ elim (Bool-cases d.control.is_nop) [
    | inl n ↦ simp (v, n) (silent-Keeps _ d.control d.rd_index r m h (ground arith))
    | inr n ↦ simp (v, n) (executed-Keeps d r m _ h)
  ]
  | inr i ↦ simp i (silent-Keeps ex_mem_bubble d.control d.rd_index r m (ground arith) refl)
]
