-- ===== src/StallVm/Invariant.antt =====
-- What holds of every state of RV5SStallVM between two cycles, and that a cycle keeps it.
use riscv_simulator_pipeline.Base.{ℕ, ◌+◌, ◌≤◌, ◌<◌, ◌^◌, ◌≡◌, refl, ap, Bool, true, false, not}
use riscv_simulator_pipeline.Base.{◌||◌, if◌then◌else◌, leb, Option, none, some, add64}
use riscv_simulator_pipeline.Base.{Result, ok, err, ◌>>=◌, arith, Bool-cases, inl, inr}
use riscv_simulator_pipeline.Base.{Ensures, returns, faults, Ensures-bind}
use riscv_simulator_pipeline.Memory.{Memory, read_word}
use riscv_simulator_pipeline.Registers.{RegisterFile}
use riscv_simulator_pipeline.ControlUnit.{get_control_signals}
use riscv_simulator_pipeline.ControlUnit.Laws.{
  IsDecoded, get_control_signals-cases, get_control_signals-IsDecoded,
}
use riscv_simulator_pipeline.Stages.{memory_stage, access, transfer, decode, fetch, write_back}
use riscv_simulator_pipeline.Stages.Laws.{access-memory_size}
use riscv_simulator_pipeline.StallVm.{
  StallVm, execute_stage, redirect, decode_stage, fetch_stage, cycle, is_some, or_else, must_stall,
}
use riscv_simulator_pipeline.PipelineRegisters.{
  mem_wb_bubble, default_signals, IfIdReg, IdExReg, ExMemReg, MemWbReg, if_id_bubble, id_ex_bubble,
}

-- The signals in the registers come from the control unit; an instruction waiting for the decode
-- stage is the one before the program counter; the program lies in the memory.
pub record IsPipeline (s : StallVm) : Type 0 where
  pub id_ex_decoded : IsDecoded s.id_ex.control
  pub ex_mem_decoded : IsDecoded s.ex_mem.control
  pub mem_wb_decoded : IsDecoded s.mem_wb.control
  pub fetched_inc : s.if_id.is_valid ≡ true → s.if_id.pc_inc ≡ add64 s.if_id.pc 4
  pub fetched_next : s.if_id.is_valid ≡ true → s.program_counter ≡ s.if_id.pc_inc
  pub fits : s.program_size + 3 ≤ s.memory.memory_size
  pub bounded : s.memory.memory_size < 2 ^ 64

pub default-IsDecoded : IsDecoded default_signals
default-IsDecoded = ground arith

-- The decode stage passes on the signals of the control unit unchanged, for every word: its
-- branches for ecall and the CSR instructions are never taken.
pub decode-control :
    (f : IfIdReg) (next : IdExReg) (r : RegisterFile)
    → (decode f next r).control ≡ get_control_signals f.instruction
unfolding decode
decode-control f next r = elim (get_control_signals-cases f.instruction) [
  | inl idle ↦ simp idle.nop
  | inr active ↦ simp (active.not_nop, active.not_system)
]

decode_stage-IsDecoded :
    (flush : Bool) (f : IfIdReg) (d : IdExReg) (x : ExMemReg) (next : IdExReg) (r : RegisterFile)
    → IsDecoded (decode_stage flush f d x next r).0.control
unfolding decode_stage
decode_stage-IsDecoded flush f d x next r =
    go (flush || not f.is_valid) (must_stall (decode f next r) d x)
  where
    go :
        (empty stall : Bool)
        → let p : IdExReg × Bool =
            if empty
            then (id_ex_bubble, false)
            else if stall
            then (id_ex_bubble, true)
            else (decode f next r, false) in
          IsDecoded p.0.control
    go true stall = default-IsDecoded
    go false true = default-IsDecoded
    go false false = rw (decode-control f next r) (get_control_signals-IsDecoded f.instruction)

execute_stage-IsDecoded :
    (d : IdExReg) (next : ExMemReg)
    → IsDecoded d.control
    → Ensures (λ (x : ExMemReg × Option ℕ). IsDecoded x.0.control) (execute_stage d next)
unfolding execute_stage
execute_stage-IsDecoded d next h = elim (Bool-cases d.is_valid) [
  | inl v ↦ elim (Bool-cases d.control.is_nop) [
    | inl n ↦ simp (v, n) (returns h)
    | inr n ↦ simp (v, n) (go _)
  ]
  | inr v ↦ simp v (returns default-IsDecoded)
]
  where
    go :
        (e : Result (ℕ × Bool))
        → Ensures
            (λ (x : ExMemReg × Option ℕ). IsDecoded x.0.control)
            (e >>= λ q. ok (
              record {
                is_valid = true;
                control = d.control;
                pc_inc = d.pc_inc;
                alu_result = q.0;
                store_data = d.rs2_data;
                rd_index = d.rd_index;
              },
              redirect d q.0,
            ))
    go (ok q) = returns h
    go (err e) = faults

transfer-control :
    (x : ExMemReg) (next : MemWbReg) (result : ℕ) → (transfer x next result).control ≡ x.control
unfolding transfer
transfer-control x next result = ground arith

memory_stage-IsDecoded :
    (x : ExMemReg) (next : MemWbReg) (m : Memory)
    → IsDecoded x.control
    → Ensures
        (λ (w : MemWbReg × Memory). IsDecoded w.0.control × (w.1.memory_size ≡ m.memory_size))
        (memory_stage x next m)
unfolding memory_stage
memory_stage-IsDecoded x next m h =
    go x.is_valid (x.control.is_nop || x.control.is_syscall || x.control.is_csr)
  where
    go :
        (valid idle : Bool)
        → Ensures
            (λ (w : MemWbReg × Memory). IsDecoded w.0.control × (w.1.memory_size ≡ m.memory_size))
            (if not valid
              then ok (mem_wb_bubble, m)
              else if idle
              then ok (record next { is_valid = x.is_valid; control = x.control }, m)
              else (access x.control m x.alu_result x.store_data >>= λ p.
                  ok (transfer x next p.0, p.1)))
    go false idle = returns (default-IsDecoded, refl)
    go true true = returns (h, refl)
    go true false =
        Ensures-bind (access-memory_size x.control m x.alu_result x.store_data)
          (λ p e. returns (rw (transfer-control x next p.0) h, e))

-- What was fetched stands one instruction before the program counter.
fetch-next :
    (next : IfIdReg) (pc program_size : ℕ) (m : Memory)
    → let (f, pc') = fetch next pc program_size m in
      f.is_valid ≡ true → (f.pc_inc ≡ add64 f.pc 4) × (pc' ≡ f.pc_inc)
unfolding fetch
fetch-next next pc program_size m = go (leb program_size pc) (read_word m pc)
  where
    go :
        (past : Bool) (word : Result ℕ)
        → let p : IfIdReg × ℕ = if past then (if_id_bubble, pc) else elim word [
          | ok instruction ↦ (
            record next {
              instruction = instruction;
              pc = pc;
              pc_inc = add64 pc 4;
              is_valid = true;
            },
            add64 pc 4,
          )
          | err _ ↦ (record if_id_bubble { pc = pc; pc_inc = add64 pc 4 }, add64 pc 4)
        ] in
          p.0.is_valid ≡ true → (p.0.pc_inc ≡ add64 p.0.pc 4) × (p.1 ≡ p.0.pc_inc)
    go true word h = ground (arith, h)
    go false (ok w) h = (refl, refl)
    go false (err e) h = ground (arith, h)

-- No stall is requested where the pipeline is flushed.
decode_stage-flushed :
    (f : IfIdReg) (d : IdExReg) (x : ExMemReg) (next : IdExReg) (r : RegisterFile)
    → decode_stage true f d x next r ≡ (id_ex_bubble, false)
unfolding decode_stage
decode_stage-flushed f d x next r = refl

-- An instruction is fetched right behind the program counter.
IsFetched : IfIdReg → ℕ → Type 0
IsFetched f pc = f.is_valid ≡ true → (f.pc_inc ≡ add64 f.pc 4) × (pc ≡ f.pc_inc)

fetch_stage-IsFetched :
    (flush : Bool) (next : IfIdReg) (pc program_size : ℕ) (m : Memory)
    → IsFetched
        (fetch_stage false flush next pc program_size m).0
        (fetch_stage false flush next pc program_size m).1
unfolding fetch_stage IsFetched
fetch_stage-IsFetched true next pc program_size m h = ground (arith, h)
fetch_stage-IsFetched false next pc program_size m h = fetch-next next pc program_size m h

-- The register in front of the decode stage and the program counter after a cycle.
fronts-IsFetched :
    (stall : Bool) (target : Option ℕ) (f next : IfIdReg) (pc program_size : ℕ) (m : Memory)
    → IsFetched f pc
    → (stall ≡ true → target ≡ none)
    → let (fetched, pc') =
        fetch_stage stall (is_some target) next (or_else target pc) program_size m in
      IsFetched (if stall then f else fetched) pc'
unfolding fetch_stage
fronts-IsFetched true none f next pc program_size m h stalled = h
fronts-IsFetched true (some t) f next pc program_size m h stalled = ground (arith, stalled refl)
fronts-IsFetched false target f next pc program_size m h stalled =
    fetch_stage-IsFetched (is_some target) next (or_else target pc) program_size m

-- A stall is requested only where the pipeline is not flushed.
stalls-not_flushed :
    (target : Option ℕ) (f : IfIdReg) (d : IdExReg) (x : ExMemReg) (next : IdExReg)
    (r : RegisterFile)
    → (decode_stage (is_some target) f d x next r).1 ≡ true
    → target ≡ none
stalls-not_flushed none f d x next r h = refl
stalls-not_flushed (some t) f d x next r h =
    ground (arith, h, ap (λ (p : IdExReg × Bool). p.1) (decode_stage-flushed f d x next r))

-- A cycle keeps the invariant: signals in the registers that the control unit can set, a fetched
-- instruction right before the program counter, a program inside the memory.
pub cycle-IsPipeline : (s : StallVm) → IsPipeline s → Ensures IsPipeline (cycle s)
unfolding cycle IsFetched
cycle-IsPipeline s h =
    Ensures-bind (memory_stage-IsDecoded s.ex_mem s.next_mem_wb s.memory h.ex_mem_decoded) (λ p m.
      Ensures-bind (execute_stage-IsDecoded s.id_ex s.next_ex_mem h.id_ex_decoded) (λ q e.
        let flush = is_some q.1 in
        let fronts =
          fronts-IsFetched (decode_stage flush s.if_id s.id_ex s.ex_mem s.next_id_ex registers).1
            q.1 s.if_id s.next_if_id s.program_counter s.program_size p.1
            (λ v. (h.fetched_inc v, h.fetched_next v))
            (stalls-not_flushed q.1 s.if_id s.id_ex s.ex_mem s.next_id_ex registers) in
        returns (record {
          id_ex_decoded =
              decode_stage-IsDecoded flush s.if_id s.id_ex s.ex_mem s.next_id_ex registers;
          ex_mem_decoded = e;
          mem_wb_decoded = m.0;
          fetched_inc = λ v. (fronts v).0;
          fetched_next = λ v. (fronts v).1;
          fits = rw m.1 h.fits;
          bounded = rw m.1 h.bounded;
        })))
  where
    registers : RegisterFile
    registers = write_back s.mem_wb s.registers
