-- ===== src/Lib.antt =====
-- The pipelined RISC-V simulator: its integer machine with five stages, and the scripts of its
-- documentation.
--
-- The simulator executes 64-bit integer RISC-V programs on one of several machines. Each machine
-- derives from VmBase (src/vm/vm_base.cpp), which holds the program counter, the registers
-- (src/vm/registers.cpp), the memory (src/vm/main_memory.cpp) and the ALU (src/vm/alu.cpp). A
-- pipelined machine (src/vm/rv5s) has four pipeline registers between its stages; in a cycle it runs
-- the stages from the last to the first, each from the contents of the register in front of it to
-- the next contents of the register behind it, and then moves the next contents in. The decode stage
-- asks the control unit (rv5s_control_unit.cpp) for the signals of a word and the hazard unit
-- (rv5s_hazard_unit.cpp) whether to wait; the execute stage redirects the program counter and
-- flushes what was fetched behind a taken branch.
--
-- Which file models what:
--   Base                shared: numbers of fixed width, tests, lists, results with faults, bits
--   Alu                 Alu::execute, as execute, for the integer operations
--   Registers           RegisterFile: ReadGpr, WriteGpr, Reset
--   Memory              Memory and MemoryController: Read, Write, ReadGeneric, WriteGeneric, and the
--                       accesses of each width
--   PipelineRegisters   include/vm/rv5s/pipeline_registers.h
--   ControlUnit         RV5SControlUnit::getControlSignals
--   Immediate           VmBase::ImmGenerator
--   Hazard              RV5SHazardUnit
--   Forwarding          RV5SForwardingUnit, and the operands that RV5SEXVM takes from it
--   Predictor           IBranchPredictor and the predictors that implement it
--   Encode              src/assembler/code_generator.cpp: generateRTypeMachineCode and the functions
--                       of the formats I, S, B, U and J
--   VmBase              the state of VmBase
--   Stages              the stages that the machines share: WriteBack_Stage, Memory_Stage, the
--                       operands of Execute_Stage, Decode_Stage up to the hazards, Fetch_Stage
--   StallVm             RV5SStallVM: Execute_Stage, Decode_Stage, Fetch_Stage and Step
--   StallVm/Run         RV5SStallVM: Reset, Run and DebugRun
--   ExVm                RV5SEXVM: Execute_Stage, Decode_Stage and Step, over any branch predictor
--   StallVm/Sequential  the specification: a machine without a pipeline that executes one instruction
--                       at a time, and what remains of a pipeline's state once its instructions in
--                       flight are completed in order
--
-- The documentation of the simulator (docs/html) is searched and folded by JavaScript that doxygen
-- puts beside its pages. The panel SearchBox (search/search.js) chooses a results page by the
-- section and the first character of the word and hands the word over in the URL. The page lists its
-- part of the index (search/all_b.js and its like) by createResults; SearchResults, on the page,
-- shows the rows that match and moves the focus by keys. menu.js writes the menu of menudata.js,
-- dynsections.js folds sections and directories.
--
--   Docs/Text, Docs/Escape, Docs/Dom   what the scripts use of the language and of a document
--   Docs/Search/Ids     search/search.js: convertToId
--   Docs/Search/Box     SearchBox; its children hold Search, the keys, the selection and the events
--   Docs/Search/Create  createResults, setKeyActions, setClassAttr
--   Docs/Search/Results SearchResults.Search; its children FindChildElement (Walk, FirstPlaces), the
--                       keys and Toggle (Nav, with proofs in Ancestors, Neighbours, Target, Changed,
--                       Toggled)
--   Docs/Search/Sections, Docs/Search/Entry, Docs/Search/Index
--                       search/searchdata.js, and four pages of the index, entry by entry,
--                       each in a module that joins those of its parts
--   Docs/Search/HandOver
--                       from the panel to the results page
--   Docs/Menu           menu.js and menudata.js
--   Docs/DynSections    dynsections.js
--
-- How the code is modelled. A uint64_t is a natural number, and each operation on it writes out its
-- wrap-around; a signed integer is its bit pattern, read as an integer where the code divides,
-- compares or shifts it. A stage is a function from the registers in front of it, and the stale
-- contents of the one behind it, to new contents; the exceptions of the memory and the divisions
-- that C++ leaves undefined are faults. The map of blocks of the memory is an association list.
-- The loops of Run and DebugRun stop at the end of a program or when the main thread requests it,
-- and programs need not end, so they take fuel, one unit for each turn, and give none when it is
-- used up. In front of which turns a stop is requested is a parameter (src/main.cpp, the commands
-- STOP and EXIT); what else the main thread may write during a run is not modelled. The test
-- programs fix a block size of a few bytes.
--
-- A JavaScript string is its list of code units; the case mapping past ASCII is a parameter. A
-- document is a tree of elements, and the elements that a script looks up by fixed ids are fields of
-- its state. The geometry of the page and the numbers of timers are parameters; what a script asks
-- of the browser is a list of requests. An access that throws gives none. The walk of
-- FindChildElement has one unit of fuel for each element below the row and NavNext one for each
-- element of the page, which are enough, and so are the digits of a number for its printing.
--
-- Not modelled: floating point, whose values come from the host; system calls and CSRs, which the
-- control unit turns into no-ops; the figures cpi_ and ipc_, the dumps and all other output; the
-- other machines, the rest of the assembler and the command line; jQuery and the SmartMenus plugin,
-- which are third-party, and the pages of the index beyond the four.
pub mod Base
pub mod Alu
pub mod PipelineRegisters
pub mod ControlUnit
pub mod Immediate
pub mod Hazard
pub mod Stages
pub mod VmBase
pub mod StallVm
pub mod ExVm
pub mod Memory
pub mod Registers
pub mod Predictor
pub mod Encode
pub mod Docs
pub mod Forwarding
