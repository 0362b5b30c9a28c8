-- ===== src/Forwarding/Laws.antt =====
-- Forwarding gives the operand that the instruction would read after those in front of it.
use riscv_simulator_pipeline.Base.{ℕ, ◌<◌, ◌≡◌, refl, Bool, true, false, not, ◌&&◌, ◌||◌, arith}
use riscv_simulator_pipeline.Base.{◌==◌, leb, if◌then◌else◌}
use riscv_simulator_pipeline.Base.{length-set, get_or-set_self, get_or-set_ne}
use riscv_simulator_pipeline.Registers.{RegisterFile, read_gpr, write_gpr}
use riscv_simulator_pipeline.Registers.Laws.{IsRegisterFile}
use riscv_simulator_pipeline.Hazard.{is_from_alu}
use riscv_simulator_pipeline.Stages.{
  gpr, set_gpr, source_data, write_register, write_back, transfer,
}
use riscv_simulator_pipeline.PipelineRegisters.{
  ControlSignals, ExMemReg, MemWbReg, WriteBackSrc, wb_none,
}
use riscv_simulator_pipeline.Forwarding.{
  get_alu_src_a, get_alu_src_b, get_write_back_data, forwarded,
}

abbrev pub is_none : WriteBackSrc → Bool
is_none wb_none = true
is_none _ = false

zero_reads : (r : RegisterFile) → gpr r 0 ≡ 0
unfolding gpr read_gpr
zero_reads r = refl

gpr-set_gpr :
    (r : RegisterFile) (reg value i : ℕ)
    → IsRegisterFile r
    → reg < 32
    → gpr (set_gpr r reg value) i
      ≡ (if leb 32 i then 0 else if i == 0 then 0 else if i == reg then value else gpr r i)
unfolding gpr set_gpr read_gpr write_gpr
gpr-set_gpr r reg value i valid below =
    ground (arith, get_or-set_self r.gpr reg value 0, get_or-set_ne r.gpr reg i value 0)

-- A register of the pipeline whose instruction, if it writes a register, is there and has a source
-- for it.
pub record HasSource (valid : Bool) (c : ControlSignals) (rd : ℕ) : Type 0 where
  pub sourced : c.reg_write ≡ true → is_none c.wb_src ≡ false
  pub present : c.reg_write ≡ true → valid ≡ true
  pub no_syscall : c.is_syscall ≡ false
  pub no_csr : c.is_csr ≡ false
  pub small : rd < 32

write_register_lem :
    (m : MemWbReg) (r : RegisterFile)
    → is_none m.control.wb_src ≡ false
    → write_register m r ≡ set_gpr r m.rd_index (get_write_back_data m)
unfolding write_register get_write_back_data source_data
write_register_lem m r h = ground arith

write_back_lem :
    (m : MemWbReg) (r : RegisterFile)
    → HasSource m.is_valid m.control m.rd_index
    → write_back m r ≡ (
        if m.control.reg_write && not (m.rd_index == 0)
        then set_gpr r m.rd_index (get_write_back_data m)
        else r)
unfolding write_back
write_back_lem m r h = ground (arith, write_register_lem m r)

-- What the register `i` holds after an instruction is written back.
gpr-write_back_lem :
    (m : MemWbReg) (r : RegisterFile) (i : ℕ)
    → HasSource m.is_valid m.control m.rd_index
    → IsRegisterFile r
    → i < 32
    → gpr (write_back m r) i ≡ (
        if i == 0
        then 0
        else if m.control.reg_write && m.rd_index == i
        then get_write_back_data m
        else gpr r i)
gpr-write_back_lem m r i h valid small =
    rw (write_back_lem m r h) (
      ground
        (arith, zero_reads r, gpr-set_gpr r m.rd_index (get_write_back_data m) i valid h.small))

write_back-IsRegisterFile :
    (m : MemWbReg) (r : RegisterFile)
    → HasSource m.is_valid m.control m.rd_index
    → IsRegisterFile r
    → IsRegisterFile (write_back m r)
unfolding set_gpr write_gpr
write_back-IsRegisterFile m r h valid =
    rw (write_back_lem m r h) (ground (arith, length-set r.gpr m.rd_index (get_write_back_data m)))

-- The result of an instruction in the memory stage can be forwarded to the register `rs`: it does
-- not write that register, or writes it from the ALU.
abbrev pub forwards : ExMemReg → ℕ → Bool
forwards x rs =
    not (x.control.reg_write && x.rd_index == rs)
    || is_from_alu x.control.wb_src && not x.control.mem_read

transferred :
    (x : ExMemReg) (next : MemWbReg) (result : ℕ)
    → HasSource x.is_valid x.control x.rd_index
    → let w = transfer x next result in HasSource w.is_valid w.control w.rd_index
unfolding transfer
transferred x next result h = ground arith

write_back_data-transfer :
    (x : ExMemReg) (next : MemWbReg) (result : ℕ)
    → is_from_alu x.control.wb_src ≡ true
    → x.control.mem_read ≡ false
    → get_write_back_data (transfer x next result) ≡ x.alu_result
unfolding transfer get_write_back_data source_data
write_back_data-transfer x next result h k = ground arith

transfer_fields :
    (x : ExMemReg) (next : MemWbReg) (result : ℕ)
    → let w = transfer x next result in (w.control ≡ x.control) × (w.rd_index ≡ x.rd_index)
unfolding transfer
transfer_fields x next result = ground arith

gpr-write_back-transfer :
    (x : ExMemReg) (next : MemWbReg) (result : ℕ) (r : RegisterFile) (i : ℕ)
    → HasSource x.is_valid x.control x.rd_index
    → IsRegisterFile r
    → i < 32
    → gpr (write_back (transfer x next result) r) i ≡ (
        if i == 0
        then 0
        else if x.control.reg_write && x.rd_index == i
        then get_write_back_data (transfer x next result)
        else gpr r i)
gpr-write_back-transfer x next result r i h valid small = ground (
  arith,
  transfer_fields x next result,
  gpr-write_back_lem (transfer x next result) r i (transferred x next result h) valid small,
)

-- For an instruction that has read a register before the two in front of it wrote theirs, the
-- sources that getAluSrcA and getAluSrcB choose give the value that the register holds once both
-- have written, where the nearer one does not write it or writes it from the ALU and is no load,
-- and both registers have a source for what they write.
pub forwarded_operand :
    (x : ExMemReg) (next w : MemWbReg) (result : ℕ) (r : RegisterFile) (rs : ℕ)
    → HasSource x.is_valid x.control x.rd_index
    → HasSource w.is_valid w.control w.rd_index
    → IsRegisterFile r
    → rs < 32
    → forwards x rs ≡ true
    → (forwarded (get_alu_src_a rs x w) (gpr r rs) x w
        ≡ gpr (write_back (transfer x next result) (write_back w r)) rs)
      × (forwarded (get_alu_src_b rs x w) (gpr r rs) x w
          ≡ gpr (write_back (transfer x next result) (write_back w r)) rs)
unfolding get_alu_src_a get_alu_src_b forwarded
forwarded_operand x next w result r rs hx hw valid small h = ground (
  arith,
  zero_reads r,
  gpr-write_back-transfer x next result (write_back w r) rs hx
      (write_back-IsRegisterFile w r hw valid) small,
  gpr-write_back_lem w r rs hw valid small,
  write_back_data-transfer x next result,
)
