-- ===== src/StallVm/Run/Laws.antt =====
-- What Step, Run and Reset of RV5SStallVM keep, and where Run stops.
use mathlib.Core.Path.{subst}
use riscv_simulator_pipeline.Base.{◌==◌, ==_iff, sym}
use riscv_simulator_pipeline.Base.{◌+◌, ◌%◌, ◌⊎◌, leb, not, ◌&&◌, ◌||◌}
use riscv_simulator_pipeline.Base.{ℕ, zero, suc, ◌≤◌, ◌<◌, ◌^◌, ◌≡◌, refl, ◌∙◌, arith}
use riscv_simulator_pipeline.Base.{Bool, true, false, Option, none, some, if◌then◌else◌}
use riscv_simulator_pipeline.Base.{ok, ◌>>=◌, Ensures, returns, Ensures-bind, Ensures-both}
use riscv_simulator_pipeline.Base.{Bool-cases, inl, inr, anything}
use riscv_simulator_pipeline.Memory
use riscv_simulator_pipeline.VmBase.{step_completed, program_end, is_program_end}
use riscv_simulator_pipeline.Stages.{memory_stage}
use riscv_simulator_pipeline.StallVm.{execute_stage, StallVm, cycle, is_done, finish, step}
use riscv_simulator_pipeline.StallVm.Run.{reset, run_loop, run}
use riscv_simulator_pipeline.StallVm.Invariant.{IsPipeline, default-IsDecoded, cycle-IsPipeline}

-- A reset machine satisfies the invariant, whatever it held before, if its memory has three bytes
-- and a size of 64 bits.
pub reset-IsPipeline :
    (s : StallVm) → 3 ≤ s.memory.memory_size → s.memory.memory_size < 2 ^ 64 → IsPipeline (reset s)
unfolding reset Memory.reset
reset-IsPipeline s h bounded = record {
  id_ex_decoded = default-IsDecoded;
  ex_mem_decoded = default-IsDecoded;
  mem_wb_decoded = default-IsDecoded;
  fetched_inc = λ v. ground (arith, v);
  fetched_next = λ v. ground (arith, v);
  fits = h;
  bounded = bounded;
}

finish-IsPipeline : (s : StallVm) → IsPipeline s → IsPipeline (finish s)
unfolding finish
finish-IsPipeline s h = go (is_done s)
  where
    go :
        (done : Bool)
        → IsPipeline (
            if done
            then record s {
              base = record (s.base) { stop_requested = true; output_status = program_end };
            }
            else record s { base = record (s.base) { output_status = step_completed } })
    go true = record {
      id_ex_decoded = h.id_ex_decoded;
      ex_mem_decoded = h.ex_mem_decoded;
      mem_wb_decoded = h.mem_wb_decoded;
      fetched_inc = h.fetched_inc;
      fetched_next = h.fetched_next;
      fits = h.fits;
      bounded = h.bounded;
    }
    go false = record {
      id_ex_decoded = h.id_ex_decoded;
      ex_mem_decoded = h.ex_mem_decoded;
      mem_wb_decoded = h.mem_wb_decoded;
      fetched_inc = h.fetched_inc;
      fetched_next = h.fetched_next;
      fits = h.fits;
      bounded = h.bounded;
    }

-- Everything is fetched and no register holds an instruction.
abbrev is_drained : StallVm → Bool
is_drained s =
    leb s.program_size s.program_counter
    && not (s.if_id.is_valid || s.id_ex.is_valid || s.ex_mem.is_valid || s.mem_wb.is_valid)

-- What a step leaves: nothing changes after the end of the program, and before it one cycle is
-- counted, and the end is reported and a stop requested exactly if the machine is drained.
abbrev pub IsStepped : Bool → StallVm → StallVm → Type 0
IsStepped true s s' = s' ≡ s
IsStepped false s s' =
    (s'.cycle_s ≡ (s.cycle_s + 1) % 2 ^ 32)
    × (s'.output_status ≡ (if is_drained s' then program_end else step_completed))
    × (s'.stop_requested ≡ (s.stop_requested || is_drained s'))

cycle_counts :
    (s : StallVm)
    → Ensures
        (λ s'. (s'.cycle_s ≡ (s.cycle_s + 1) % 2 ^ 32) × (s'.stop_requested ≡ s.stop_requested))
        (cycle s)
unfolding cycle
cycle_counts s = Ensures-bind (anything (memory_stage s.ex_mem s.next_mem_wb s.memory)) (λ p _.
    Ensures-bind (anything (execute_stage s.id_ex s.next_ex_mem)) (λ q _. returns (refl, refl)))

finish-IsStepped :
    (s m : StallVm)
    → m.cycle_s ≡ (s.cycle_s + 1) % 2 ^ 32
    → m.stop_requested ≡ s.stop_requested
    → IsStepped false s (finish m)
unfolding finish is_done
finish-IsStepped s m counted stop = elim (Bool-cases (is_done m)) [
  | inl done ↦ simp done (counted, ground (arith, done), ground (arith, done, stop))
  | inr goes ↦ simp goes (counted, ground (arith, goes), ground (arith, goes, stop))
]

-- A step keeps the invariant; after the end of the program it changes nothing; before it, a step
-- that does not fault counts one cycle, and if then everything is fetched and no pipeline
-- register holds an instruction, it sets the status VM_PROGRAM_END and requests a stop, and
-- otherwise it sets VM_STEP_COMPLETED and leaves the stop request as it was.
pub step-IsPipeline :
    (s : StallVm)
    → IsPipeline s
    → Ensures (λ s'. IsPipeline s' × IsStepped (is_program_end s.output_status) s s') (step s)
unfolding step
step-IsPipeline s h = go (is_program_end s.output_status)
  where
    go :
        (ended : Bool)
        → Ensures
            (λ s'. IsPipeline s' × IsStepped ended s s')
            (if ended then ok s else (cycle s >>= λ s'. ok (finish s')))
    go true = returns (h, refl)
    go false =
        Ensures-bind (Ensures-both (cycle s) (cycle-IsPipeline s h) (cycle_counts s))
          (λ m k. returns (finish-IsPipeline m k.0, finish-IsStepped s m k.1.0 k.1.1))

-- The program has ended, and the pipeline is empty.
abbrev pub IsEnded : StallVm → Type 0
IsEnded s = (is_program_end s.output_status ≡ true) × (is_drained s ≡ true)

-- A stop is requested only at the end of the program.
StopsAtEnd : StallVm → Type 0
StopsAtEnd s = s.stop_requested ≡ true → IsEnded s

finish-StopsAtEnd : (s : StallVm) → s.stop_requested ≡ false → StopsAtEnd (finish s)
unfolding finish StopsAtEnd is_done
finish-StopsAtEnd s h = ground arith

step-StopsAtEnd : (s : StallVm) → s.stop_requested ≡ false → Ensures StopsAtEnd (step s)
unfolding step StopsAtEnd
step-StopsAtEnd s h = go (is_program_end s.output_status)
  where
    go :
        (ended : Bool)
        → Ensures StopsAtEnd (if ended then ok s else (cycle s >>= λ s'. ok (finish s')))
    go true = returns (λ stop. ground (arith, stop, h))
    go false = Ensures-bind (cycle_counts s) (λ s' e. returns (finish-StopsAtEnd s' (e.1 ∙ h)))

module _ (asked : ℕ → Bool) where
  -- No stop is requested in front of the turns below `n`.
  abbrev IsQuiet : ℕ → Type 0
  IsQuiet n = (t : ℕ) → t < n → asked t ≡ false

  IsQuiet-suc : (n : ℕ) → IsQuiet n → asked n ≡ false → IsQuiet (n + 1)
  IsQuiet-suc n quiet now t h = elim (Bool-cases (t == n)) [
    | inl same ↦ subst (λ m. asked m ≡ false) (sym ((==_iff t n).0 same)) now
    | inr other ↦ quiet t (ground (arith, other, h))
  ]

  -- A run of so many turns: it goes on without a request, or has ended, or was stopped.
  abbrev pub IsEndedRun : ℕ → Option StallVm → Type 0
  IsEndedRun turns none = IsQuiet turns
  IsEndedRun turns (some s) = IsEnded s ⊎ ((t : ℕ) × (t < turns) × (asked t ≡ true))

  run_loop-IsEnded :
      (turns fuel turn : ℕ) (s : StallVm)
      → turn + fuel ≡ turns
      → IsQuiet turn
      → StopsAtEnd s
      → Ensures (IsEndedRun turns) (run_loop asked fuel turn s)
  unfolding run_loop StopsAtEnd is_done
  run_loop-IsEnded turns zero turn s k quiet h = returns (λ t less. quiet t (omega (arith, k)))
  run_loop-IsEnded turns (suc fuel) turn s k quiet h = elim (Bool-cases (asked turn)) [
    | inl now ↦ simp now (returns (inr (turn, omega (arith, k), now)))
    | inr later ↦ elim (Bool-cases s.stop_requested) [
      | inl e ↦ simp (later, e) (returns (inl (h e)))
      | inr e ↦
          simp (later, e)
            (Ensures-bind (step-StopsAtEnd s e) (λ s' h'.
              run_loop-IsEnded turns fuel (turn + 1) s' (omega (arith, k))
                (IsQuiet-suc turn quiet later) h'))
    ]
  ]

  -- Where Run stops, the status is VM_PROGRAM_END, everything is fetched and the pipeline is
  -- empty, or the main thread has requested a stop in front of one of the turns of the loop; and
  -- while Run goes on without a fault, no stop has been requested in front of any turn so far.
  pub run-IsEnded : (fuel : ℕ) (s : StallVm) → Ensures (IsEndedRun fuel) (run asked fuel s)
  unfolding run StopsAtEnd
  run-IsEnded fuel s =
      run_loop-IsEnded fuel fuel 0 _ (omega arith) (λ t h. absurd (omega (arith, h)))
        (λ stop. ground (arith, stop))
