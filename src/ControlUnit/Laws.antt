-- ===== src/ControlUnit/Laws.antt =====
-- What every set of control signals satisfies, from RV5SControlUnit::getControlSignals.
use riscv_simulator_pipeline.Base.{ℕ, ◌≡◌, refl, Bool, true, false, ◌&&◌, ◌||◌, Option, none}
use riscv_simulator_pipeline.Base.{some, ◌==◌, if◌then◌else◌, arith, ◌⊎◌, inl, inr}
use riscv_simulator_pipeline.PipelineRegisters.{
  ControlSignals, alu_src_a_rs1, alu_src_a_zero, WriteBackSrc, wb_none, wb_from_mem,
}
use riscv_simulator_pipeline.Hazard.{is_jal, rs2_reqd}
use riscv_simulator_pipeline.ControlUnit.{
  opcode_of, funct3_of, funct7_of, nop_signals, opcode_signals, operation_signals, integer_signals,
  get_control_signals, create_nop, is_floating_point_opcode, b_type_op,
}

abbrev pub is_from_mem : WriteBackSrc → Bool
is_from_mem wb_from_mem = true
is_from_mem _ = false

abbrev pub is_upper : ℕ → Bool
is_upper opcode = opcode == 0b0110111 || opcode == 0b0010111

abbrev pub reads_two : ℕ → Bool
reads_two opcode = opcode == 0b0110011 || opcode == 0b0100011 || opcode == 0b1100011

-- The signals of a no-op, which change nothing but the program counter.
pub record IsIdle (c : ControlSignals) : Type 0 where
  pub nop : c.is_nop ≡ true
  pub idle_csr : c.is_csr ≡ false
  pub idle_syscall : c.is_syscall ≡ false
  pub no_write : c.reg_write ≡ false
  pub no_load : c.mem_read ≡ false
  pub no_store : c.mem_write ≡ false
  pub no_branch : c.branch ≡ false
  pub no_source : c.wb_src ≡ wb_none

-- The signals of any other instruction.
pub record IsActive (opcode : ℕ) (c : ControlSignals) : Type 0 where
  pub not_nop : c.is_nop ≡ false
  pub not_csr : c.is_csr ≡ false
  pub not_syscall : c.is_syscall ≡ false
  pub not_system : (opcode == 0b1110011) ≡ false
  pub loads : is_from_mem c.wb_src ≡ c.mem_read
  pub no_upper : c.alu_src_a ≡ alu_src_a_rs1 → is_upper opcode ≡ false

opcode_signals-IsActive :
    (opcode : ℕ) (c : ControlSignals) → opcode_signals opcode ≡ some c → IsActive opcode c
unfolding opcode_signals
opcode_signals-IsActive opcode c h = ground arith

module _ (opcode funct3 funct7 : ℕ) (s : ControlSignals) where
  -- The second switch sets operations and nothing else.
  operation_signals_frame :
      let c = operation_signals opcode funct3 funct7 s in
      (c.is_nop ≡ s.is_nop)
      × (c.is_csr ≡ s.is_csr)
      × (c.is_syscall ≡ s.is_syscall)
      × (c.reg_write ≡ s.reg_write)
      × (c.mem_read ≡ s.mem_read)
      × (c.mem_write ≡ s.mem_write)
      × (c.branch ≡ s.branch)
      × (c.wb_src ≡ s.wb_src)
      × (c.alu_src_a ≡ s.alu_src_a)
      × (c.alu_src_b ≡ s.alu_src_b)
  unfolding operation_signals
  operation_signals_frame = ground arith

  operation_signals-IsActive :
      IsActive opcode s → IsActive opcode (operation_signals opcode funct3 funct7 s)
  operation_signals-IsActive h = ground (arith, operation_signals_frame)

integer_signals-cases :
    (w : ℕ) → IsIdle (integer_signals w) ⊎ IsActive (opcode_of w) (integer_signals w)
unfolding integer_signals
integer_signals-cases w = go (opcode_signals (opcode_of w)) refl
  where
    go :
        (o : Option ControlSignals)
        → opcode_signals (opcode_of w) ≡ o
        → let c : ControlSignals = elim o [
          | none ↦ create_nop
          | some s ↦ operation_signals (opcode_of w) (funct3_of w) (funct7_of w) s
        ] in
          IsIdle c ⊎ IsActive (opcode_of w) c
    go none e = inl (ground arith)
    go (some s) e =
        inr (operation_signals-IsActive _ _ _ s (opcode_signals-IsActive (opcode_of w) s e))

nop_signals-IsIdle : (w : ℕ) (c : ControlSignals) → nop_signals w ≡ some c → IsIdle c
unfolding nop_signals
nop_signals-IsIdle w c h = ground arith

-- A word sets either the signals of a no-op or those of an instruction.
pub get_control_signals-cases :
    (w : ℕ) → IsIdle (get_control_signals w) ⊎ IsActive (opcode_of w) (get_control_signals w)
unfolding get_control_signals
get_control_signals-cases w = go (nop_signals w) refl
  where
    go :
        (o : Option ControlSignals)
        → nop_signals w ≡ o
        → let c : ControlSignals = elim o [
          | some s ↦ s
          | none ↦ if is_floating_point_opcode (opcode_of w) then create_nop else integer_signals w
        ] in
          IsIdle c ⊎ IsActive (opcode_of w) c
    go (some s) e = inl (nop_signals-IsIdle w s e)
    go none e =
        elim (is_floating_point_opcode (opcode_of w))
          as (λ b.
            IsIdle (if b then create_nop else integer_signals w)
            ⊎ IsActive (opcode_of w) (if b then create_nop else integer_signals w)) [
              | true ↦ inl (ground arith)
              | false ↦ integer_signals-cases w
            ]

-- An instruction that reads two registers needs the second, and only such a one does unless its
-- second register is x0.
pub reads_two-rs2_reqd :
    (w : ℕ)
    → IsActive (opcode_of w) (get_control_signals w)
    → reads_two (opcode_of w) ≡ true
    → rs2_reqd (get_control_signals w) ≡ true
unfolding get_control_signals integer_signals opcode_signals operation_signals rs2_reqd nop_signals
    b_type_op
reads_two-rs2_reqd w h two = ground (arith)

-- What holds of the signals in any register of the pipeline.
pub record IsDecoded (c : ControlSignals) : Type 0 where
  pub never_csr : c.is_csr ≡ false
  pub never_syscall : c.is_syscall ≡ false
  pub from_load : is_from_mem c.wb_src ≡ c.mem_read
  pub idle_write : (c.is_nop && c.reg_write) ≡ false

-- Whatever the word, the control unit sets no CSR and no system-call signal, sources the
-- write-back from the memory exactly if it reads the memory, and lets no no-op write a register.
pub get_control_signals-IsDecoded : (w : ℕ) → IsDecoded (get_control_signals w)
get_control_signals-IsDecoded w = elim (get_control_signals-cases w) [
  | inl idle ↦ ground arith
  | inr active ↦ ground arith
]

-- No instruction that takes zero for its first operand is a jump.
pub zero_operand-not_jal :
    (w : ℕ)
    → (get_control_signals w).alu_src_a ≡ alu_src_a_zero
    → is_jal (get_control_signals w).branch_op ≡ false
unfolding get_control_signals integer_signals opcode_signals operation_signals nop_signals b_type_op
zero_operand-not_jal w h = ground arith
