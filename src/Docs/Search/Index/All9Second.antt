-- ===== src/Docs/Search/Index/All9Second.antt =====
-- docs/html/search/all_9.js: the second part of a page of the search index.
use riscv_simulator_pipeline.Base.{List, [], ◌∷◌}
use riscv_simulator_pipeline.Docs.Search.Entry.{SearchEntry, symbol, hit, single}

abbrev pub all_9_second : List SearchEntry
all_9_second =
    symbol "instruction_479" "Instruction" (
      hit "../namespaceinstruction__set.html#ab8754e798b5117896d42d78c0a67d980" 1
        "instruction_set::Instruction()"
      ∷ hit
          "../namespacecache.html#ae31cc2b6d2558063b5cbcf25e728033bac742c5a36b6307267bb709355feb2c41"
          1 "cache::Instruction()"
      ∷ [])
    ∷ single "instruction_480" "instruction"
        "../structIF__ID__Reg.html#a9d3ab1eec8dc5d4053281faef960b71c" 1 "IF_ID_Reg"
    ∷ single "instruction_5fexecution_5flimit_481" "instruction_execution_limit"
        "../structvm__config_1_1VmConfig.html#ac0d144a1121e7463a694c58a6c2d12ca" 1
        "vm_config::VmConfig"
    ∷ single "instruction_5findex_482" "instruction_index"
        "../structICUnit.html#a081ce1e12c3d898aae2c2e42c75a8254" 1 "ICUnit"
    ∷ single "instruction_5fnumber_5fdisassembly_5fmapping_483"
        "instruction_number_disassembly_mapping"
        "../structAssembledProgram.html#aea01dd49d19c5c2a4f1d3581514d57e7" 1 "AssembledProgram"
    ∷ single "instruction_5fnumber_5fline_5fnumber_5fmapping_484"
        "instruction_number_line_number_mapping"
        "../structAssembledProgram.html#ade3312b57abb948a18eee54e64cb4203" 1 "AssembledProgram"
    ∷ single "instruction_5fset_485" "instruction_set" "../namespaceinstruction__set.html" 1 ""
    ∷ single "instruction_5fstring_5fmap_486" "instruction_string_map"
        "../namespaceinstruction__set.html#a255c46d8c499cf217f68aee308a3bb04" 1 "instruction_set"
    ∷ single "instruction_5fsyntax_5fmap_487" "instruction_syntax_map"
        "../namespaceinstruction__set.html#a5e20a1ab57999f19806854d6ccceeedb" 1 "instruction_set"
    ∷ single "instruction_5ftype_488" "instruction_type" "../namespaceinstruction__type.html" 1 ""
    ∷ symbol "instructionencoding_489" "InstructionEncoding" (
        hit "../structinstruction__set_1_1InstructionEncoding.html" 1
          "instruction_set::InstructionEncoding"
        ∷ hit
            "../structinstruction__set_1_1InstructionEncoding.html#a44768e6a880a6e3000d8a015cea0fada"
            1 "instruction_set::InstructionEncoding::InstructionEncoding()"
        ∷ [])
    ∷ single "instructions_2ecpp_490" "instructions.cpp" "../instructions_8cpp.html" 1 ""
    ∷ single "instructions_2ecpp_2eo_2ed_491" "instructions.cpp.o.d"
        "../instructions_8cpp_8o_8d.html" 1 ""
    ∷ single "instructions_2eh_492" "instructions.h" "../instructions_8h.html" 1 ""
    ∷ single "instructions_5fretired_5f_493" "instructions_retired_"
        "../classVmBase.html#a7c2b1c72a3420353a658128abfbb5a68" 1 "VmBase"
    ∷ single "integer_494" "INTEGER"
        "../classRegisterFile.html#ad20885f84b337c67fd63b230e11ba230a5d5cd46919fa987731fb2edefe0f2a0c"
        1 "RegisterFile"
    ∷ single "intermediate_5fcode_495" "intermediate_code"
        "../structAssembledProgram.html#a74bda4728c9cf522dfffb108f9f4af2f" 1 "AssembledProgram"
    ∷ symbol "invalid_496" "INVALID" (
        hit
          "../namespacecommand__handler.html#a49f72bb84305031f68e77b48be812681accc0377a8afbf50e7094f5c23a8af223"
          1 "command_handler::INVALID()"
        ∷ hit "../tokens_8h.html#aa520fbf142ba1e7e659590c07da31921accc0377a8afbf50e7094f5c23a8af223"
            1 "INVALID():&#160;tokens.h"
        ∷ hit
            "../namespaceinstruction__set.html#ab8754e798b5117896d42d78c0a67d980a0011dcdf9617dd34fb50717f35c61abd"
            1 "instruction_set::INVALID()"
        ∷ hit
            "../classRegisterFile.html#ad20885f84b337c67fd63b230e11ba230accc0377a8afbf50e7094f5c23a8af223"
            1 "RegisterFile::INVALID()"
        ∷ [])
    ∷ single "invalid_497" "Invalid"
        "../namespacecache.html#a528c5a7abaa3626760c8a7d9fde3504aa4bbb8f967da6d1a610596d7257179c2b"
        1 "cache"
    ∷ single "invalid_5fdirective_498" "INVALID_DIRECTIVE"
        "../namespaceerrors.html#a08d49fe09bd28d4b06dc27d2a5e3e2aeac9a9219dfe74bd3ad1c359a2f1082822"
        1 "errors"
    ∷ single "invalid_5fimmediate_499" "INVALID_IMMEDIATE"
        "../namespaceerrors.html#a08d49fe09bd28d4b06dc27d2a5e3e2aeae1b0ba36bd640cb2081a4b665a8765bf"
        1 "errors"
    ∷ single "invalid_5finstruction_500" "INVALID_INSTRUCTION"
        "../namespaceerrors.html#a08d49fe09bd28d4b06dc27d2a5e3e2aea2e28fa293e2ca8aca645d85ad05096c3"
        1 "errors"
    ∷ single "invalid_5flabel_501" "INVALID_LABEL"
        "../namespaceerrors.html#a08d49fe09bd28d4b06dc27d2a5e3e2aeab3d145c731fec2adf80f7632dd981b47"
        1 "errors"
    ∷ single "invalid_5flabel_5fref_502" "INVALID_LABEL_REF"
        "../namespaceerrors.html#a08d49fe09bd28d4b06dc27d2a5e3e2aeac4b6dda0a90cf1815860d0860989623d"
        1 "errors"
    ∷ single "invalid_5foperand_503" "INVALID_OPERAND"
        "../namespaceerrors.html#a08d49fe09bd28d4b06dc27d2a5e3e2aea6bf179afa8f7fba18cf39bc0ca6fe043"
        1 "errors"
    ∷ single "invalid_5fregister_504" "INVALID_REGISTER"
        "../namespaceerrors.html#a08d49fe09bd28d4b06dc27d2a5e3e2aea7277cc675779f41d6cd80f43a8ec702f"
        1 "errors"
    ∷ single "invalid_5fsyntax_505" "INVALID_SYNTAX"
        "../namespaceerrors.html#a08d49fe09bd28d4b06dc27d2a5e3e2aea3fba68b9108afef4ec5c2eb304dd63ff"
        1 "errors"
    ∷ single "invalid_5ftoken_506" "INVALID_TOKEN"
        "../namespaceerrors.html#a08d49fe09bd28d4b06dc27d2a5e3e2aea506556a229186f5b45f364032625ff5b"
        1 "errors"
    ∷ symbol "invalidlabelreferror_507" "InvalidLabelRefError" (
        hit "../structerrors_1_1InvalidLabelRefError.html" 1 "errors::InvalidLabelRefError"
        ∷ hit "../structerrors_1_1InvalidLabelRefError.html#a36496c8b6282dead983d9944a9c22f84" 1
            "errors::InvalidLabelRefError::InvalidLabelRefError()"
        ∷ [])
    ∷ symbol "invalidregistererror_508" "InvalidRegisterError" (
        hit "../structerrors_1_1InvalidRegisterError.html" 1 "errors::InvalidRegisterError"
        ∷ hit "../structerrors_1_1InvalidRegisterError.html#a68e3f93c7dc5d12afd4e76edbcf7f65f" 1
            "errors::InvalidRegisterError::InvalidRegisterError()"
        ∷ [])
    ∷ single "invokation_5fpath_509" "invokation_path"
        "../namespaceglobals.html#a9e8f7ae299f4cca0042e23cc974dfbc7" 1 "globals"
    ∷ single "ipc_5f_510" "ipc_" "../classVmBase.html#aaf1754c3ace71973679ec2f9a212d737" 1 "VmBase"
    ∷ single "is_5fcsr_511" "is_csr"
        "../structControlSignals.html#a6243d63c2b9cfed5030f3a878c70ed42" 1 "ControlSignals"
    ∷ single "is_5fnop_512" "is_nop"
        "../structControlSignals.html#a06113cede5539e42cb4eedad8717027c" 1 "ControlSignals"
    ∷ single "is_5fsyscall_513" "is_syscall"
        "../structControlSignals.html#a35248b0a7bca4492ca15dfcb787bf94f" 1 "ControlSignals"
    ∷ symbol "is_5fvalid_514" "is_valid" (
        hit "../structIF__ID__Reg.html#a844d44726470d37f71c521ddba59819d" 1 "IF_ID_Reg::is_valid()"
        ∷ hit "../structID__EX__Reg.html#a8e75b5e2be4c6d4ff3cede949c1d5c04" 1
            "ID_EX_Reg::is_valid()"
        ∷ hit "../structEX__MEM__Reg.html#aec70dc4c4cf32d40f0f9f712eb5f00fb" 1
            "EX_MEM_Reg::is_valid()"
        ∷ hit "../structMEM__WB__Reg.html#a46d45cc67c26c090c816b32e833d93b0" 1
            "MEM_WB_Reg::is_valid()"
        ∷ [])
    ∷ []
