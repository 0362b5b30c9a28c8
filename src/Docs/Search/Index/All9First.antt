-- ===== src/Docs/Search/Index/All9First.antt =====
-- docs/html/search/all_9.js: the first part of a page of the search index.
use riscv_simulator_pipeline.Base.{List, [], ◌∷◌}
use riscv_simulator_pipeline.Docs.Search.Entry.{SearchEntry, symbol, hit, single}

abbrev pub all_9_first : List SearchEntry
all_9_first =
    single "i1_5ftype_5finstruction_5fencoding_5fmap_445" "I1_type_instruction_encoding_map"
      "../namespaceinstruction__set.html#ad362b1b3167d50a18c67c280b54012b3" 1 "instruction_set"
    ∷ symbol "i1typeinstructionencoding_446" "I1TypeInstructionEncoding" (
        hit
          "../structinstruction__set_1_1I1TypeInstructionEncoding.html#a7f66a058923d214fbd7a6c2d2fef4dfb"
          1 "instruction_set::I1TypeInstructionEncoding::I1TypeInstructionEncoding()"
        ∷ hit "../structinstruction__set_1_1I1TypeInstructionEncoding.html" 1
            "instruction_set::I1TypeInstructionEncoding"
        ∷ [])
    ∷ single "i2_5ftype_5finstruction_5fencoding_5fmap_447" "I2_type_instruction_encoding_map"
        "../namespaceinstruction__set.html#a51290da536b0f0b8fad0e76c5d63300c" 1 "instruction_set"
    ∷ symbol "i2typeinstructionencoding_448" "I2TypeInstructionEncoding" (
        hit
          "../structinstruction__set_1_1I2TypeInstructionEncoding.html#a92358a53cd1c0f302bf3aa013caa0e16"
          1 "instruction_set::I2TypeInstructionEncoding::I2TypeInstructionEncoding()"
        ∷ hit "../structinstruction__set_1_1I2TypeInstructionEncoding.html" 1
            "instruction_set::I2TypeInstructionEncoding"
        ∷ [])
    ∷ single "i3_5ftype_5finstruction_5fencoding_5fmap_449" "I3_type_instruction_encoding_map"
        "../namespaceinstruction__set.html#a1e1482a4d9c3475f9750286a89db56ac" 1 "instruction_set"
    ∷ symbol "i3typeinstructionencoding_450" "I3TypeInstructionEncoding" (
        hit
          "../structinstruction__set_1_1I3TypeInstructionEncoding.html#a0861c0732d16aed1b4c583a195ad2edc"
          1 "instruction_set::I3TypeInstructionEncoding::I3TypeInstructionEncoding()"
        ∷ hit "../structinstruction__set_1_1I3TypeInstructionEncoding.html" 1
            "instruction_set::I3TypeInstructionEncoding"
        ∷ [])
    ∷ single "i_5fbranch_5fpredictor_2eh_451" "i_branch_predictor.h"
        "../i__branch__predictor_8h.html" 1 ""
    ∷ single "i_5fm_5fformats_2ecpp_452" "i_m_formats.cpp" "../i__m__formats_8cpp.html" 1 ""
    ∷ single "i_5fm_5fformats_2ecpp_2eo_2ed_453" "i_m_formats.cpp.o.d"
        "../i__m__formats_8cpp_8o_8d.html" 1 ""
    ∷ symbol "i_5ftype_5farith_454" "I_TYPE_ARITH" (
        hit
          "../namespacegenerate__single__tests__without__hazards.html#aaf91274f56e9adea597dcf479862de01"
          1 "generate_single_tests_without_hazards.I_TYPE_ARITH()"
        ∷ hit "../namespacegenerate__single__tests__hazards.html#a956ab545d1a9b79214302bc936537796"
            1 "generate_single_tests_hazards.I_TYPE_ARITH()"
        ∷ [])
    ∷ symbol "i_5ftype_5fshift_455" "I_TYPE_SHIFT" (
        hit
          "../namespacegenerate__single__tests__without__hazards.html#a0ffab74348cd66c888156919744bd394"
          1 "generate_single_tests_without_hazards.I_TYPE_SHIFT()"
        ∷ hit "../namespacegenerate__single__tests__hazards.html#a5874a44956fb54a49cca5505dfe57eae"
            1 "generate_single_tests_hazards.I_TYPE_SHIFT()"
        ∷ [])
    ∷ single "ibranchpredictor_456" "IBranchPredictor" "../classIBranchPredictor.html" 1 ""
    ∷ symbol "icunit_457" "ICUnit" (
        hit "../structICUnit.html#a4d709ebd2a3d1a0611f26b2ae8f7aae7" 1 "ICUnit::ICUnit()"
        ∷ hit "../structICUnit.html" 1 "ICUnit"
        ∷ [])
    ∷ single "id_5fex_5freg_458" "ID_EX_Reg" "../structID__EX__Reg.html" 1 ""
    ∷ single "ideal_459" "IDEAL"
        "../namespacevm__config.html#ae02d0ff961bd83eec6c16e4d96793f25a07df98da6e2b219bc61e36237a2bf2ff"
        1 "vm_config"
    ∷ single "identifier_460" "IDENTIFIER"
        "../tokens_8h.html#aa520fbf142ba1e7e659590c07da31921a6fcc416051346daca31c571646af127a" 1
        "tokens.h"
    ∷ single "if_5fid_5freg_461" "IF_ID_Reg" "../structIF__ID__Reg.html" 1 ""
    ∷ single "imm_462" "imm" "../structICUnit.html#af49f5da98a756c635f14a0201dee9076" 1 "ICUnit"
    ∷ single "immediate_463" "immediate"
        "../structID__EX__Reg.html#a11cffb5521de2cf74ef7b58db731a59b" 1 "ID_EX_Reg"
    ∷ single "immediate_5fout_5fof_5frange_464" "IMMEDIATE_OUT_OF_RANGE"
        "../namespaceerrors.html#a08d49fe09bd28d4b06dc27d2a5e3e2aea1a90c26e5e0d02b67ccd5eeb0437752a"
        1 "errors"
    ∷ symbol "immediateoutofrangeerror_465" "ImmediateOutOfRangeError" (
        hit "../structerrors_1_1ImmediateOutOfRangeError.html" 1 "errors::ImmediateOutOfRangeError"
        ∷ hit "../structerrors_1_1ImmediateOutOfRangeError.html#aac7879e5e7c1b6c819704f6d77c34cae" 1
            "errors::ImmediateOutOfRangeError::ImmediateOutOfRangeError()"
        ∷ [])
    ∷ symbol "immediates_466" "IMMEDIATES" (
        hit "../namespacegenerate__single__tests__hazards.html#a698d4d0aad1c54e61b51ec01afdd35ef" 1
          "generate_single_tests_hazards.IMMEDIATES()"
        ∷ hit
            "../namespacegenerate__single__tests__without__hazards.html#af3b77a4037476aa92045e97755c5c41b"
            1 "generate_single_tests_without_hazards.IMMEDIATES()"
        ∷ [])
    ∷ single "immgenerator_467" "ImmGenerator"
        "../classVmBase.html#a9199d1c306e603e506cf57f274b9e184" 1 "VmBase"
    ∷ single "info_5farch_468" "info_arch"
        "../CMakeCXXCompilerId_8cpp.html#a59647e99d304ed33b15cb284c27ed391" 1
        "CMakeCXXCompilerId.cpp"
    ∷ single "info_5fcompiler_469" "info_compiler"
        "../CMakeCXXCompilerId_8cpp.html#a4b0efeb7a5d59313986b3a0390f050f6" 1
        "CMakeCXXCompilerId.cpp"
    ∷ single "info_5flanguage_5fextensions_5fdefault_470" "info_language_extensions_default"
        "../CMakeCXXCompilerId_8cpp.html#a0f46a8a39e09d9b803c4766904fd7e99" 1
        "CMakeCXXCompilerId.cpp"
    ∷ single "info_5flanguage_5fstandard_5fdefault_471" "info_language_standard_default"
        "../CMakeCXXCompilerId_8cpp.html#a4607cccf070750927b458473ca82c090" 1
        "CMakeCXXCompilerId.cpp"
    ∷ single "info_5fplatform_472" "info_platform"
        "../CMakeCXXCompilerId_8cpp.html#a2321403dee54ee23f0c2fa849c60f7d4" 1
        "CMakeCXXCompilerId.cpp"
    ∷ single "initglobals_473" "initGlobals"
        "../namespaceglobals.html#aa11e5b4f00b5bec36fe4cf155707e56b" 1 "globals"
    ∷ symbol "initializevm_474" "initializeVm" (
        hit "../main__cli_8cpp.html#a4b36b440869119fbbfdf921519d415b7" 1
          "initializeVm():&#160;main_cli.cpp"
        ∷ hit "../main_8cpp.html#a4b36b440869119fbbfdf921519d415b7" 1
            "initializeVm():&#160;main.cpp"
        ∷ [])
    ∷ single "input_5fcv_5f_475" "input_cv_" "../classVmBase.html#a3f3f7acd3cdc0f509085049ae541f5e1"
        1 "VmBase"
    ∷ single "input_5fmutex_5f_476" "input_mutex_"
        "../classVmBase.html#adf47d6d0cc8d768751cac1c2d6f11dd9" 1 "VmBase"
    ∷ single "input_5fqueue_5f_477" "input_queue_"
        "../classVmBase.html#a413f7f50a3817358470807a248d1d804" 1 "VmBase"
    ∷ single "instr_478" "instr"
        "../structinstruction__set_1_1InstructionEncoding.html#a289257809bcb95430bb4d238a2978514" 1
        "instruction_set::InstructionEncoding"
    ∷ []
