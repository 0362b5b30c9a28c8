-- ===== src/PipelineRegisters.antt =====
-- include/vm/rv5s/pipeline_registers.h: the control signals and the registers between the stages.
use riscv_simulator_pipeline.Base.{ℕ, Bool, true, false}
use riscv_simulator_pipeline.Alu.{AluOp, k_none}

pub data MemReadOp : Type 0 where
  mem_read_none mem_read_byte mem_read_half mem_read_word mem_read_double : MemReadOp
  mem_read_byte_unsigned mem_read_half_unsigned mem_read_word_unsigned : MemReadOp

pub data MemWriteOp : Type 0 where
  mem_write_none mem_write_byte mem_write_half mem_write_word mem_write_double : MemWriteOp

pub data WriteBackSrc : Type 0 where
  wb_none wb_from_alu wb_from_mem wb_from_pc_inc : WriteBackSrc

pub data AluSrcA : Type 0 where
  alu_src_a_rs1 alu_src_a_zero alu_src_a_pc : AluSrcA

pub data BranchOp : Type 0 where
  b_none beq bne blt bge bltu bgeu jal jalr : BranchOp

pub record ControlSignals : Type 0 where
  pub alu_op : AluOp
  pub alu_src_b : Bool
  pub alu_src_a : AluSrcA
  pub mem_read : Bool
  pub mem_write : Bool
  pub mem_read_op : MemReadOp
  pub mem_write_op : MemWriteOp
  pub branch : Bool
  pub branch_op : BranchOp
  pub reg_write : Bool
  pub mem_to_reg : Bool
  pub wb_src : WriteBackSrc
  pub is_csr : Bool
  pub is_syscall : Bool
  pub is_nop : Bool

-- The signals as constructed. The source leaves `alu_src_a` uninitialised; nothing reads it before
-- it is set, since a bubble and a no-op leave each stage earlier.
abbrev pub default_signals : ControlSignals
default_signals = record {
  alu_op = k_none;
  alu_src_b = false;
  alu_src_a = alu_src_a_rs1;
  mem_read = false;
  mem_write = false;
  mem_read_op = mem_read_none;
  mem_write_op = mem_write_none;
  branch = false;
  branch_op = b_none;
  reg_write = false;
  mem_to_reg = false;
  wb_src = wb_none;
  is_csr = false;
  is_syscall = false;
  is_nop = true;
}

pub record IfIdReg : Type 0 where
  pub is_valid : Bool
  pub instruction : ℕ
  pub pc : ℕ
  pub pc_inc : ℕ
  pub predicted_outcome : Bool
  pub predicted_target : ℕ

-- `immediate` is the bit pattern of an `int32_t`.
pub record IdExReg : Type 0 where
  pub is_valid : Bool
  pub control : ControlSignals
  pub pc : ℕ
  pub pc_inc : ℕ
  pub rs1_data : ℕ
  pub rs2_data : ℕ
  pub immediate : ℕ
  pub rs1_index : ℕ
  pub rs2_index : ℕ
  pub rd_index : ℕ
  pub predicted_outcome : Bool

pub record ExMemReg : Type 0 where
  pub is_valid : Bool
  pub control : ControlSignals
  pub pc_inc : ℕ
  pub alu_result : ℕ
  pub store_data : ℕ
  pub rd_index : ℕ

pub record MemWbReg : Type 0 where
  pub is_valid : Bool
  pub control : ControlSignals
  pub pc_inc : ℕ
  pub memory_data : ℕ
  pub alu_result : ℕ
  pub rd_index : ℕ

-- CreateBubble<RegType>() for each register
abbrev pub if_id_bubble : IfIdReg
if_id_bubble = record {
  is_valid = false;
  instruction = 0;
  pc = 0;
  pc_inc = 0;
  predicted_outcome = false;
  predicted_target = 0;
}

abbrev pub id_ex_bubble : IdExReg
id_ex_bubble = record {
  is_valid = false;
  control = default_signals;
  pc = 0;
  pc_inc = 0;
  rs1_data = 0;
  rs2_data = 0;
  immediate = 0;
  rs1_index = 0;
  rs2_index = 0;
  rd_index = 0;
  predicted_outcome = false;
}

abbrev pub ex_mem_bubble : ExMemReg
ex_mem_bubble = record {
  is_valid = false;
  control = default_signals;
  pc_inc = 0;
  alu_result = 0;
  store_data = 0;
  rd_index = 0;
}

abbrev pub mem_wb_bubble : MemWbReg
mem_wb_bubble = record {
  is_valid = false;
  control = default_signals;
  pc_inc = 0;
  memory_data = 0;
  alu_result = 0;
  rd_index = 0;
}
