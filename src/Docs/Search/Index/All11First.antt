-- ===== src/Docs/Search/Index/All11First.antt =====
-- docs/html/search/all_11.js: the first part of a page of the search index.
use riscv_simulator_pipeline.Base.{List, [], ◌∷◌}
use riscv_simulator_pipeline.Docs.Search.Entry.{SearchEntry, symbol, hit, single}

abbrev pub all_11_first : List SearchEntry
all_11_first =
    symbol "r_5ftype_5farith_934" "R_TYPE_ARITH" (
      hit "../namespacegenerate__single__tests__hazards.html#a18ff195ab4a786ec9316fba9be91ae36" 1
        "generate_single_tests_hazards.R_TYPE_ARITH()"
      ∷ hit
          "../namespacegenerate__single__tests__without__hazards.html#a70360eb738f2d804b28f06fdce6c214c"
          1 "generate_single_tests_without_hazards.R_TYPE_ARITH()"
      ∷ [])
    ∷ single "r_5ftype_5finstruction_5fencoding_5fmap_935" "R_type_instruction_encoding_map"
        "../namespaceinstruction__set.html#a859191af4ff841c4c7486a6a19c7fa7a" 1 "instruction_set"
    ∷ single "random_936" "Random"
        "../namespacecache.html#afdbade0aa5657d2124a87a5dbc578c8ca64663f4646781c9c0110838b905daa23"
        1 "cache"
    ∷ single "rd_937" "rd" "../structICUnit.html#aa9aa05995849c6ac8cbe1d127d1f922e" 1 "ICUnit"
    ∷ symbol "rd_5findex_938" "rd_index" (
        hit "../structMEM__WB__Reg.html#a394d34eccd838735fd854f63d303fcb5" 1
          "MEM_WB_Reg::rd_index()"
        ∷ hit "../structEX__MEM__Reg.html#ae660834510eab427f2b030a1f18282a2" 1
            "EX_MEM_Reg::rd_index()"
        ∷ hit "../structID__EX__Reg.html#a021511b482aa1137508fa481538684a4" 1
            "ID_EX_Reg::rd_index()"
        ∷ [])
    ∷ single "rdn_939" "RDN"
        "../rounding__modes_8h.html#a5959c934b204c7bcb6766cfaea8ae101a099ecf1e2eedcbbb36750f8ad7fc7f81"
        1 "rounding_modes.h"
    ∷ symbol "read_940" "read" (
        hit "../classNullMMIODevice.html#aa4b093620ac33855095b696eb0ae20fc" 1
          "NullMMIODevice::read()"
        ∷ hit "../classMMIODevice.html#a6f9adf6e93f19bbfa338e7949a9883e3" 1 "MMIODevice::read()"
        ∷ [])
    ∷ single "read_941" "Read" "../classMemory.html#a0592958b79513334df0e9f232e5a163c" 1 "Memory"
    ∷ symbol "readbyte_942" "ReadByte" (
        hit "../classMemoryController.html#ac0a504cb9ae8065ebc91cbce203dacf0" 1
          "MemoryController::ReadByte()"
        ∷ hit "../classMemory.html#aa53fe987c4303016ac2a91b32d65b309" 1 "Memory::ReadByte()"
        ∷ [])
    ∷ single "readbyte_5fd_943" "ReadByte_d"
        "../classMemoryController.html#a9bc41afd8457514ffdb4f06c3e5bab6c" 1 "MemoryController"
    ∷ single "readcsr_944" "ReadCsr" "../classRegisterFile.html#a864f6e3b6ccc65796223c13c390a8d60" 1
        "RegisterFile"
    ∷ single "readdouble_945" "ReadDouble" "../classMemory.html#ab7acb8461bac56c3eb1c3be43ef3feff" 1
        "Memory"
    ∷ symbol "readdoubleword_946" "ReadDoubleWord" (
        hit "../classMemory.html#ae1900b5cdf0c66884cb93429c64811d6" 1 "Memory::ReadDoubleWord()"
        ∷ hit "../classMemoryController.html#a56739a684cfb225821f97705375d0f5e" 1
            "MemoryController::ReadDoubleWord(uint64_t address)"
        ∷ [])
    ∷ single "readdoubleword_5fd_947" "ReadDoubleWord_d"
        "../classMemoryController.html#a7f1b15814070d3769efde5ec9fe40972" 1 "MemoryController"
    ∷ single "readfloat_948" "ReadFloat" "../classMemory.html#a82b7d51b7b49f9cc0d50d813e9b77e60" 1
        "Memory"
    ∷ single "readfpr_949" "ReadFpr" "../classRegisterFile.html#ab208db6a17dac266e798394febce6c0b" 1
        "RegisterFile"
    ∷ single "readgpr_950" "ReadGpr" "../classRegisterFile.html#a6704c638818fdc97fc5d432687c94459" 1
        "RegisterFile"
    ∷ symbol "readhalfword_951" "ReadHalfWord" (
        hit "../classMemory.html#aa7701c410bbb32090b6910212c8a586a" 1 "Memory::ReadHalfWord()"
        ∷ hit "../classMemoryController.html#a62594f53e0fccbe647db3fdf5a0027dc" 1
            "MemoryController::ReadHalfWord(uint64_t address)"
        ∷ [])
    ∷ single "readhalfword_5fd_952" "ReadHalfWord_d"
        "../classMemoryController.html#a747ccbf63b9f3226640de97e5db19375" 1 "MemoryController"
    ∷ single "readme_2emd_953" "README.md" "../README_8md.html" 1 ""
    ∷ symbol "readword_954" "ReadWord" (
        hit "../classMemory.html#a3bc0c3ed25c705a2d3013b1c56e3693d" 1 "Memory::ReadWord()"
        ∷ hit "../classMemoryController.html#addf77851cb24edf69828e751a22d6850" 1
            "MemoryController::ReadWord(uint64_t address)"
        ∷ [])
    ∷ single "readword_5fd_955" "ReadWord_d"
        "../classMemoryController.html#af45e6466c0f0b0d24132e4395427a5f5" 1 "MemoryController"
    ∷ symbol "redo_956" "Redo" (
        hit "../classRV5SStallVM.html#a6242c6d64bb59a85369f616682df8822" 1 "RV5SStallVM::Redo()"
        ∷ hit "../classRV5SIDVM.html#abce4983f6331f36cb18ac68f99e9490c" 1 "RV5SIDVM::Redo()"
        ∷ hit "../classRV5SEXVM.html#a6e35660fbe404ff256e60e68fc46d7a3" 1 "RV5SEXVM::Redo()"
        ∷ hit "../classRV5SVM.html#ab2dae5a89f3e454fc740feee8fae5d0f" 1 "RV5SVM::Redo()"
        ∷ hit "../classRVSSVM.html#a9cb130b8c84159be82027d49ce3e4279" 1 "RVSSVM::Redo()"
        ∷ hit "../classVmBase.html#ab323c0d074c2ceb9885746d1073ed505" 1 "VmBase::Redo()"
        ∷ [])
    ∷ single "redo_957" "REDO"
        "../namespacecommand__handler.html#a49f72bb84305031f68e77b48be812681ac07bf946a7da4553f9f2776656e0d60f"
        1 "command_handler"
    ∷ single "redo_5fstack_5f_958" "redo_stack_"
        "../classRVSSVM.html#ab108a22ac8ca3f2634b8cd2322736f1d" 1 "RVSSVM"
    ∷ single "reg_5f1_959" "REG_1"
        "../namespacegenerate__double__dep__tests.html#a4476aff95fc34d1bba01b6c856510205" 1
        "generate_double_dep_tests"
    ∷ single "reg_5f2_960" "REG_2"
        "../namespacegenerate__double__dep__tests.html#a250d75a638f45678a1cb6c83d4997737" 1
        "generate_double_dep_tests"
    ∷ single "reg_5faddr_5flabel_961" "REG_ADDR_LABEL"
        "../namespacegenerate__control__data__tests.html#aeec0a720d0cf24d660fb52d25e642543" 1
        "generate_control_data_tests"
    ∷ symbol "reg_5falias_5fto_5fname_962" "reg_alias_to_name" (
        hit "../registers_8cpp.html#af4ede5aac2f7597ad13f0a67cb8b13b5" 1
          "reg_alias_to_name():&#160;registers.cpp"
        ∷ hit "../registers_8h.html#af4ede5aac2f7597ad13f0a67cb8b13b5" 1
            "reg_alias_to_name():&#160;registers.cpp"
        ∷ [])
    ∷ single "reg_5fcopy_5f10_963" "REG_COPY_10"
        "../namespacegenerate__control__data__tests.html#ac625fba97fdc64aad1cb4475719aec27" 1
        "generate_control_data_tests"
    ∷ single "reg_5findex_964" "reg_index"
        "../structRegisterChange.html#afb16485a17aff6acb690782da5dcb713" 1 "RegisterChange"
    ∷ single "reg_5ftype_965" "reg_type"
        "../structRegisterChange.html#ac04acbfc8d09357500d12c1d9acc7f8c" 1 "RegisterChange"
    ∷ single "reg_5fval_5f10_966" "REG_VAL_10"
        "../namespacegenerate__control__data__tests.html#a2cfe4290156261f8d0283a9a32ec809e" 1
        "generate_control_data_tests"
    ∷ single "reg_5fval_5f20_967" "REG_VAL_20"
        "../namespacegenerate__control__data__tests.html#a4d72bf37421177367cad3045bb151b2c" 1
        "generate_control_data_tests"
    ∷ single "reg_5fwrite_968" "reg_write"
        "../structControlSignals.html#a14b69522f3037ec4de79c39425e9814f" 1 "ControlSignals"
    ∷ single "reg_5fwrite_5f_969" "reg_write_"
        "../classControlUnit.html#a5b002e22ea0e96d2d2ce24daf74a1e8b" 1 "ControlUnit"
    ∷ single "register_970" "REGISTER"
        "../namespacecommand__handler.html#a44c251e1711cea6749a00f36fcb08cf4ad17455cfcb88a53f1603fb817e09c2d6"
        1 "command_handler"
    ∷ single "register_5fchanges_971" "register_changes"
        "../structStepDelta.html#a3e41fab118a0d4425af18a7dac832086" 1 "StepDelta"
    ∷ single "registerchange_972" "RegisterChange" "../structRegisterChange.html" 1 ""
    ∷ symbol "registerfile_973" "RegisterFile" (
        hit "../classRegisterFile.html#a9513989ee395d14943de66f99ec8014a" 1
          "RegisterFile::RegisterFile()"
        ∷ hit "../classRegisterFile.html" 1 "RegisterFile"
        ∷ [])
    ∷ []
