-- ===== src/StallVm/Progress.antt =====
-- RV5SStallVM makes progress: a data hazard holds an instruction back for two cycles at most, and a
-- pipeline with nothing to fetch empties.
use riscv_simulator_pipeline.Base.{ℕ, ◌≡◌, refl, Bool, true, false, not, ◌&&◌, ◌||◌, arith}
use riscv_simulator_pipeline.Base.{Option, none, if◌then◌else◌, Result, ok, err, ◌>>=◌}
use riscv_simulator_pipeline.Base.{
  Ensures, returns, faults, Ensures-bind, Ensures-ok, known, anything, ap,
}
use riscv_simulator_pipeline.Hazard.{detect_data_hazard}
use riscv_simulator_pipeline.StallVm.{
  is_some, redirect, StallVm, execute_stage, decode_stage, must_stall, cycle,
}
use riscv_simulator_pipeline.PipelineRegisters.{
  IfIdReg, IdExReg, ExMemReg, id_ex_bubble, ex_mem_bubble,
}
use riscv_simulator_pipeline.Alu.{execute}
use riscv_simulator_pipeline.Stages.{
  first_operand, second_operand, decode, memory_stage, write_back,
}
use riscv_simulator_pipeline.Registers.{RegisterFile}

-- No register is about to be written by the instruction in the execute or the memory stage.
must_stall-bubbles :
    (decoded d : IdExReg) (x : ExMemReg)
    → d.control.reg_write ≡ false
    → x.control.reg_write ≡ false
    → must_stall decoded d x ≡ false
unfolding must_stall detect_data_hazard
must_stall-bubbles decoded d x h k = ground arith

execute_stage-reg_write :
    (d : IdExReg) (next : ExMemReg)
    → d.control.reg_write ≡ false
    → Ensures (λ (q : ExMemReg × Option ℕ). q.0.control.reg_write ≡ false) (execute_stage d next)
unfolding execute_stage
execute_stage-reg_write d next h = go d.is_valid d.control.is_nop (
    execute d.control.alu_op (first_operand d.control.alu_src_a d d.rs1_data)
      (second_operand d.control.alu_src_a d d.rs2_data))
  where
    go :
        (valid nop : Bool) (result : Result (ℕ × Bool))
        → Ensures
            (λ (q : ExMemReg × Option ℕ). q.0.control.reg_write ≡ false)
            (if not valid
              then ok (ex_mem_bubble, none)
              else if nop
              then ok (record next { control = d.control; is_valid = d.is_valid }, none)
              else (result >>= λ p. ok (
                record next {
                  control = d.control;
                  is_valid = d.is_valid;
                  pc_inc = d.pc_inc;
                  alu_result = p.0;
                  store_data = d.rs2_data;
                  rd_index = d.rd_index;
                },
                redirect d p.0,
              )))
    go false nop result = returns refl
    go true true result = returns h
    go true false (ok p) = returns h
    go true false (err e) = faults

-- A cycle that stalls leaves no instruction in front of the execute stage.
decode_stage-stalls :
    (flush : Bool) (f : IfIdReg) (d : IdExReg) (x : ExMemReg) (next : IdExReg) (r : RegisterFile)
    → let (id_ex, stall) = decode_stage flush f d x next r in stall ≡ true → id_ex ≡ id_ex_bubble
unfolding decode_stage
decode_stage-stalls flush f d x next r =
    go (flush || not f.is_valid) (must_stall (decode f next r) d x)
  where
    go :
        (empty stall : Bool)
        → let p : IdExReg × Bool =
            if empty
            then (id_ex_bubble, false)
            else if stall
            then (id_ex_bubble, true)
            else (decode f next r, false) in
          p.1 ≡ true → p.0 ≡ id_ex_bubble
    go true stall h = refl
    go false true h = refl
    go false false h = ground (arith, h)

cycle-stalls :
    (s : StallVm) → Ensures (λ s'. s'.stall_request ≡ true → s'.id_ex ≡ id_ex_bubble) (cycle s)
unfolding cycle
cycle-stalls s = Ensures-bind (anything (memory_stage s.ex_mem s.next_mem_wb s.memory)) (λ p _.
    Ensures-bind (anything (execute_stage s.id_ex s.next_ex_mem)) (λ q _. returns (
      decode_stage-stalls (is_some q.1) s.if_id s.id_ex s.ex_mem s.next_id_ex
        (write_back s.mem_wb s.registers))))

cycle-reg_write :
    (s : StallVm)
    → s.id_ex.control.reg_write ≡ false
    → Ensures (λ s'. s'.ex_mem.control.reg_write ≡ false) (cycle s)
unfolding cycle
cycle-reg_write s h =
    Ensures-bind (anything (memory_stage s.ex_mem s.next_mem_wb s.memory))
      (λ p _. Ensures-bind (execute_stage-reg_write s.id_ex s.next_ex_mem h) (λ q e. returns e))

decode_stage-goes_on :
    (flush : Bool) (f : IfIdReg) (d : IdExReg) (x : ExMemReg) (next : IdExReg) (r : RegisterFile)
    → d.control.reg_write ≡ false
    → x.control.reg_write ≡ false
    → (decode_stage flush f d x next r).1 ≡ false
unfolding decode_stage
decode_stage-goes_on flush f d x next r h k =
    rw (must_stall-bubbles (decode f next r) d x h k) (go (flush || not f.is_valid))
  where
    go :
        (empty : Bool)
        → let p : IdExReg × Bool =
            if empty then (id_ex_bubble, false) else (decode f next r, false) in
          p.1 ≡ false
    go true = refl
    go false = refl

cycle-goes_on :
    (s : StallVm)
    → s.id_ex.control.reg_write ≡ false
    → s.ex_mem.control.reg_write ≡ false
    → Ensures (λ s'. s'.stall_request ≡ false) (cycle s)
unfolding cycle
cycle-goes_on s h k = Ensures-bind (anything (memory_stage s.ex_mem s.next_mem_wb s.memory)) (λ p _.
    Ensures-bind (anything (execute_stage s.id_ex s.next_ex_mem)) (λ q _. returns (
      decode_stage-goes_on (is_some q.1) s.if_id s.id_ex s.ex_mem s.next_id_ex
        (write_back s.mem_wb s.registers) h k)))

third_goes_on :
    (s s1 s2 s3 : StallVm)
    → cycle s ≡ ok s1
    → cycle s1 ≡ ok s2
    → cycle s2 ≡ ok s3
    → s1.stall_request ≡ true
    → s2.stall_request ≡ true
    → s3.stall_request ≡ false
third_goes_on s s1 s2 s3 e1 e2 e3 h1 h2 =
    Ensures-ok _ (cycle-goes_on s2 (bubble (empty s1 s2 e2 h2)) forwarded) e3
  where
    empty : (t t' : StallVm) → cycle t ≡ ok t' → t'.stall_request ≡ true → t'.id_ex ≡ id_ex_bubble
    empty t t' e =
        Ensures-ok (λ (u : StallVm). u.stall_request ≡ true → u.id_ex ≡ id_ex_bubble)
          (cycle-stalls t) e

    bubble : {d : IdExReg} → d ≡ id_ex_bubble → d.control.reg_write ≡ false
    bubble e = ap (λ (d : IdExReg). d.control.reg_write) e

    forwarded : s2.ex_mem.control.reg_write ≡ false
    forwarded =
        Ensures-ok (λ (u : StallVm). u.ex_mem.control.reg_write ≡ false)
          (cycle-reg_write s1 (bubble (empty s s1 e1 h1))) e2

-- Whether each of the next three cycles requests a stall.
unfoldable pub three_stalls : StallVm → Result Bool
three_stalls s = do
  s1 ← cycle s
  s2 ← cycle s1
  s3 ← cycle s2
  ok (s1.stall_request && (s2.stall_request && s3.stall_request))

-- Three cycles in a row never all request a stall, from any state: a data hazard holds an
-- instruction back for two cycles at most.
pub no_third_stall : (s : StallVm) → Ensures (λ b. b ≡ false) (three_stalls s)
unfolding three_stalls
no_third_stall s = Ensures-bind (known (cycle s)) (λ s1 e1.
    Ensures-bind (known (cycle s1)) (λ s2 e2.
      Ensures-bind (known (cycle s2))
        (λ s3 e3. returns (not_all _ _ _ (third_goes_on s s1 s2 s3 e1 e2 e3)))))
  where
    not_all : (a b c : Bool) → (a ≡ true → b ≡ true → c ≡ false) → (a && (b && c)) ≡ false
    not_all a b c h = ground arith
