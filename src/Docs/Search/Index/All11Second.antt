-- ===== src/Docs/Search/Index/All11Second.antt =====
-- docs/html/search/all_11.js: the second part of a page of the search index.
use riscv_simulator_pipeline.Base.{List, [], ◌∷◌}
use riscv_simulator_pipeline.Docs.Search.Entry.{SearchEntry, symbol, hit, single}

abbrev pub all_11_second : List SearchEntry
all_11_second =
    single "registers_2ecpp_974" "registers.cpp" "../registers_8cpp.html" 1 ""
    ∷ single "registers_2ecpp_2eo_2ed_975" "registers.cpp.o.d" "../registers_8cpp_8o_8d.html" 1 ""
    ∷ single "registers_2eh_976" "registers.h" "../registers_8h.html" 1 ""
    ∷ single "registers_5f_977" "registers_" "../classVmBase.html#a3edc0e9c3765ae9720874b361c58e947"
        1 "VmBase"
    ∷ single "registers_5fdump_5ffile_5fpath_978" "registers_dump_file_path"
        "../namespaceglobals.html#a71fe4e87fbec0b990ffe7bc7e592d0d1" 1 "globals"
    ∷ single "registertype_979" "RegisterType"
        "../classRegisterFile.html#ad20885f84b337c67fd63b230e11ba230" 1 "RegisterFile"
    ∷ symbol "regs_5fi_980" "REGS_I" (
        hit "../namespacegenerate__single__tests__hazards.html#a6b9575c8c73264c29ae77b05d1753d0c" 1
          "generate_single_tests_hazards.REGS_I()"
        ∷ hit
            "../namespacegenerate__single__tests__without__hazards.html#ab8f04167bdeb84a5d0c69f1bba89c08b"
            1 "generate_single_tests_without_hazards.REGS_I()"
        ∷ [])
    ∷ symbol "regs_5fl_5frd_981" "REGS_L_RD" (
        hit "../namespacegenerate__single__tests__hazards.html#a5ed85d7f0eebb593146e5e9e5f76ce28" 1
          "generate_single_tests_hazards.REGS_L_RD()"
        ∷ hit
            "../namespacegenerate__single__tests__without__hazards.html#a758e13856c006706c0c422e81de08859"
            1 "generate_single_tests_without_hazards.REGS_L_RD()"
        ∷ [])
    ∷ symbol "regs_5fr_982" "REGS_R" (
        hit
          "../namespacegenerate__single__tests__without__hazards.html#ad065168e9602aedcab262b95070a346a"
          1 "generate_single_tests_without_hazards.REGS_R()"
        ∷ hit "../namespacegenerate__single__tests__hazards.html#a410c6da6e58fccfc5d387990bdf53362"
            1 "generate_single_tests_hazards.REGS_R()"
        ∷ [])
    ∷ symbol "regs_5fs_5frs2_983" "REGS_S_RS2" (
        hit
          "../namespacegenerate__single__tests__without__hazards.html#aa3b38e3e59e6f0dd7576cea97286acdc"
          1 "generate_single_tests_without_hazards.REGS_S_RS2()"
        ∷ hit "../namespacegenerate__single__tests__hazards.html#ad4892ba8ed8795ff31491e4f86ea5df8"
            1 "generate_single_tests_hazards.REGS_S_RS2()"
        ∷ [])
    ∷ single "remove_5fbreakpoint_984" "REMOVE_BREAKPOINT"
        "../namespacecommand__handler.html#a49f72bb84305031f68e77b48be812681a1af1483e77cfe2abd58e8eb639768b15"
        1 "command_handler"
    ∷ single "removebreakpoint_985" "RemoveBreakpoint"
        "../classVmBase.html#aecc5b0b4fdfa89cfae4c71aff1275210" 1 "VmBase"
    ∷ single "replacement_5fpolicy_986" "replacement_policy"
        "../structcache_1_1CacheConfig.html#aafa5f02b7fd2dc75743b42c2a8e22e35" 1
        "cache::CacheConfig"
    ∷ single "replacementpolicy_987" "ReplacementPolicy"
        "../namespacecache.html#afdbade0aa5657d2124a87a5dbc578c8c" 1 "cache"
    ∷ single "requeststop_988" "RequestStop" "../classVmBase.html#adb9835e856c3ce41f0e326794526db78"
        1 "VmBase"
    ∷ symbol "reset_989" "Reset" (
        hit "../classMemory.html#af8c16d327e0d504003af4d0798d8abd8" 1 "Memory::Reset()"
        ∷ hit "../classControlUnit.html#a9fedc1442f71ebdb9b19ff4d5a7d9210" 1 "ControlUnit::Reset()"
        ∷ [])
    ∷ single "reset_990" "reset" "../classBranchTargetBuffer.html#ab2e53c159bffdb6c9ff99cf7c3ad348e"
        1 "BranchTargetBuffer"
    ∷ symbol "reset_991" "Reset" (
        hit "../classMemoryController.html#af0d58cab4e7fcda0a1c767c68e383826" 1
          "MemoryController::Reset()"
        ∷ hit "../classVmBase.html#ae8262f906074f8e778665b73841b0352" 1 "VmBase::Reset()"
        ∷ hit "../classRVSSVM.html#aa75bbde8be42c275f928681e372d6c7c" 1 "RVSSVM::Reset()"
        ∷ hit "../classRV5SVM.html#a654893f3844e6002704db2e5dc36ea35" 1 "RV5SVM::Reset()"
        ∷ hit "../classRV5SStallVM.html#a1c53afc98b74ea81995c4ea20720f260" 1 "RV5SStallVM::Reset()"
        ∷ hit "../classRegisterFile.html#a70bbec9de8daf3195bc7d1fc827c113c" 1
            "RegisterFile::Reset()"
        ∷ hit "../classRV5SIDVM.html#aa88761c4629d640fc18f1098fd53e524" 1 "RV5SIDVM::Reset()"
        ∷ hit "../classRV5SEXVM.html#a371fd6d67468a73d9c17e9ba95fed7f8" 1 "RV5SEXVM::Reset()"
        ∷ [])
    ∷ single "reset_992" "RESET"
        "../namespacecommand__handler.html#a49f72bb84305031f68e77b48be812681ab5859d8721cfdc0312b2838b9c985bc1"
        1 "command_handler"
    ∷ single "return_5faddress_5f_993" "return_address_"
        "../classRVSSVM.html#a22bbb0ff1567f0a6483f74f4327b606a" 1 "RVSSVM"
    ∷ single "risc_2dv_20simulator_994" "RISC-V simulator" "../md_README.html" 1 ""
    ∷ single "rm_995" "RM"
        "../tokens_8h.html#aa520fbf142ba1e7e659590c07da31921a2622e9b348f05f74e3e4bb9b7d213dc8" 1
        "tokens.h"
    ∷ single "rm_996" "rm" "../structICUnit.html#a1862ec48ba599365d6f38c5e0f69f84c" 1 "ICUnit"
    ∷ single "rmm_997" "RMM"
        "../rounding__modes_8h.html#a5959c934b204c7bcb6766cfaea8ae101a595b30b7583a6cd50bdc591e4420034b"
        1 "rounding_modes.h"
    ∷ single "rne_998" "RNE"
        "../rounding__modes_8h.html#a5959c934b204c7bcb6766cfaea8ae101abbbffe540e9df36d8c8f847b529e3282"
        1 "rounding_modes.h"
    ∷ single "rounding_5fmodes_2eh_999" "rounding_modes.h" "../rounding__modes_8h.html" 1 ""
    ∷ single "roundingmode_1000" "RoundingMode"
        "../rounding__modes_8h.html#a5959c934b204c7bcb6766cfaea8ae101" 1 "rounding_modes.h"
    ∷ single "roundingmodeencoding_1001" "roundingModeEncoding"
        "../rounding__modes_8h.html#a0f5fc322fb6db7cb06e5a912be28bf20" 1 "rounding_modes.h"
    ∷ single "rparen_1002" "RPAREN"
        "../tokens_8h.html#aa520fbf142ba1e7e659590c07da31921afccedc90f87593a3b31536bd658808b1" 1
        "tokens.h"
    ∷ single "rs1_1003" "rs1" "../structICUnit.html#a5cc64dcce86bb9c70403503ddd1e6978" 1 "ICUnit"
    ∷ single "rs1_5fdata_1004" "rs1_data"
        "../structID__EX__Reg.html#a4ee6a122cb28d657eabe08a662f52874" 1 "ID_EX_Reg"
    ∷ single "rs1_5findex_1005" "rs1_index"
        "../structID__EX__Reg.html#a7845e1a6dee3cec7a41a8e62c7d1712d" 1 "ID_EX_Reg"
    ∷ single "rs2_1006" "rs2" "../structICUnit.html#a65f2bf2a14c45bb210439ed02862232c" 1 "ICUnit"
    ∷ single "rs2_5fdata_1007" "rs2_data"
        "../structID__EX__Reg.html#a57ad92a728fab23a9abf0d862304311c" 1 "ID_EX_Reg"
    ∷ single "rs2_5findex_1008" "rs2_index"
        "../structID__EX__Reg.html#aa0b1e2138ec1f1b2121b238cf7517e03" 1 "ID_EX_Reg"
    ∷ single "rs3_1009" "rs3" "../structICUnit.html#a4fa54a29e2374eeb6204d4d36c3a198d" 1 "ICUnit"
    ∷ symbol "rtypeinstructionencoding_1010" "RTypeInstructionEncoding" (
        hit "../structinstruction__set_1_1RTypeInstructionEncoding.html" 1
          "instruction_set::RTypeInstructionEncoding"
        ∷ hit
            "../structinstruction__set_1_1RTypeInstructionEncoding.html#abf2db83d5b0e5422b5cb6532075b900e"
            1 "instruction_set::RTypeInstructionEncoding::RTypeInstructionEncoding()"
        ∷ [])
    ∷ single "rtz_1011" "RTZ"
        "../rounding__modes_8h.html#a5959c934b204c7bcb6766cfaea8ae101a529a841dde2e78d144c1814e3fc5ac60"
        1 "rounding_modes.h"
    ∷ single "run_1012" "RUN"
        "../namespacecommand__handler.html#a49f72bb84305031f68e77b48be812681a855520d2a5b0b1a64b939e7e30889e2a"
        1 "command_handler"
    ∷ symbol "run_1013" "Run" (
        hit "../classRV5SIDVM.html#a128e9c5a72433af14ba636eb6b05542d" 1 "RV5SIDVM::Run()"
        ∷ hit "../classVmBase.html#ab99aff7b91e22e2b041d310791ae0281" 1 "VmBase::Run()"
        ∷ hit "../classRVSSVM.html#a0aa85843a97344299380afebc83d2a5e" 1 "RVSSVM::Run()"
        ∷ hit "../classRV5SStallVM.html#af02371ce78f42f6a71f4e4921cbad739" 1 "RV5SStallVM::Run()"
        ∷ hit "../classRV5SVM.html#a1710e4750daf34a8af45479f37cc44c5" 1 "RV5SVM::Run()"
        ∷ hit "../classRV5SEXVM.html#ab0e2202522e52ba2ae77b982464f9c0d" 1 "RV5SEXVM::Run()"
        ∷ [])
    ∷ []
