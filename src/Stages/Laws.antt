-- ===== src/Stages/Laws.antt =====
-- Laws of the shared stages: which registers they leave alone, and that the stale contents of the
-- register behind a stage do not matter.
use riscv_simulator_pipeline.Base.{
  ℕ, ◌<◌, ◌≡◌, refl, ◌≢◌, Bool, true, false, not, ◌&&◌, ◌+◌, ◌≤◌, ◌^◌,
}
use riscv_simulator_pipeline.Base.{Option, none, some, ◌==◌, leb, if◌then◌else◌, arith}
use riscv_simulator_pipeline.Base.{Result, ok, err, ◌>>=◌, get_or-set_ne, Bool-cases, inl, inr}
use riscv_simulator_pipeline.Base.{Ensures, returns, faults, Ensures-bind}
use riscv_simulator_pipeline.Memory.{Memory}
use riscv_simulator_pipeline.Memory.Wide.{read_word_total}
use riscv_simulator_pipeline.Memory.Laws.{
  write_byte-memory_size, write_half_word-memory_size, write_word-memory_size,
  write_double_word-memory_size,
}
use riscv_simulator_pipeline.Registers.{RegisterFile, read_gpr, write_gpr}
use riscv_simulator_pipeline.ControlUnit.Laws.{IsDecoded}
use riscv_simulator_pipeline.Stages.{
  gpr, set_gpr, source_data, write_register, write_back, load, store, access, transfer, fetch,
}
use riscv_simulator_pipeline.PipelineRegisters.{
  ControlSignals, IfIdReg, MemWbReg, ExMemReg, MemWriteOp, mem_write_none, mem_write_byte,
  mem_write_half, mem_write_word, mem_write_double,
}

-- The instruction writes the register `i`, which is not x0.
abbrev pub writes : ControlSignals → ℕ → ℕ → Bool
writes c rd i = c.reg_write && (not (rd == 0) && rd == i)

gpr-set_gpr_ne :
    (r : RegisterFile) (reg value i : ℕ) → reg ≢ i → gpr (set_gpr r reg value) i ≡ gpr r i
unfolding gpr set_gpr read_gpr write_gpr
gpr-set_gpr_ne r reg value i h = ground (arith, get_or-set_ne r.gpr reg i value 0)

gpr-write_register_ne :
    (m : MemWbReg) (r : RegisterFile) (i : ℕ)
    → m.rd_index ≢ i
    → gpr (write_register m r) i ≡ gpr r i
unfolding write_register
gpr-write_register_ne m r i h = go (source_data m.control.wb_src m)
  where
    go :
        (o : Option ℕ)
        → gpr (elim o [ some value ↦ set_gpr r m.rd_index value | none ↦ r ]) i ≡ gpr r i
    go none = refl
    go (some value) = gpr-set_gpr_ne r m.rd_index value i h

-- The write-back stage changes no register but the one that the instruction writes.
pub gpr-write_back :
    (m : MemWbReg) (r : RegisterFile) (i : ℕ)
    → writes m.control m.rd_index i ≡ false
    → gpr (write_back m r) i ≡ gpr r i
unfolding write_back
gpr-write_back m r i h = ground (arith, gpr-write_register_ne m r i)

-- What an instruction writes back does not depend on the stale contents that the memory stage
-- leaves in its register.
pub write_back-transfer :
    (x : ExMemReg) (next next' : MemWbReg) (memory_result : ℕ) (r : RegisterFile)
    → IsDecoded x.control
    → write_back (transfer x next memory_result) r ≡ write_back (transfer x next' memory_result) r
unfolding write_back write_register source_data transfer
write_back-transfer x next next' memory_result r d = ground arith

-- No access changes the size of the memory.
pub store-memory_size :
    (op : MemWriteOp) (m : Memory) (address value : ℕ)
    → Ensures (λ m'. m'.memory_size ≡ m.memory_size) (store op m address value)
unfolding store
store-memory_size mem_write_byte m address value = write_byte-memory_size m address _
store-memory_size mem_write_half m address value = write_half_word-memory_size m address _
store-memory_size mem_write_word m address value = write_word-memory_size m address _
store-memory_size mem_write_double m address value = write_double_word-memory_size m address _
store-memory_size mem_write_none m address value = returns refl

load-Ensures :
    (r : Result ℕ) (m : Memory)
    → Ensures (λ (p : ℕ × Memory). p.1.memory_size ≡ m.memory_size) (r >>= λ v. ok (v, m))
load-Ensures (ok v) m = returns refl
load-Ensures (err e) m = faults

pub access-memory_size :
    (c : ControlSignals) (m : Memory) (address value : ℕ)
    → Ensures (λ (p : ℕ × Memory). p.1.memory_size ≡ m.memory_size) (access c m address value)
unfolding access
access-memory_size c m address value = go c.mem_read c.mem_write
  where
    go :
        (reads stores : Bool)
        → Ensures
            (λ (p : ℕ × Memory). p.1.memory_size ≡ m.memory_size)
            (if reads
              then (load c.mem_read_op m address >>= λ result. ok (result, m))
              else if stores
              then (store c.mem_write_op m address value >>= λ m'. ok (0, m'))
              else ok (0, m))
    go true stores = load-Ensures (load c.mem_read_op m address) m
    go false true =
        Ensures-bind (store-memory_size c.mem_write_op m address value) (λ m' h. returns h)
    go false false = returns refl

-- Where the program fits the memory, a fetch leaves the address that it was asked for: in the new
-- register, or in the program counter if nothing was fetched.
pub fetch_pc :
    (next : IfIdReg) (pc program_size : ℕ) (m : Memory)
    → program_size + 3 ≤ m.memory_size
    → m.memory_size < 2 ^ 64
    → let (f, pc') = fetch next pc program_size m in (if f.is_valid then f.pc else pc') ≡ pc
unfolding fetch
fetch_pc next pc program_size m fits bounded = elim (Bool-cases (leb program_size pc)) [
  | inl e ↦ simp e
  | inr e ↦ let (word, read) = read_word_total m pc (ground arith) bounded in simp (e, read)
]
