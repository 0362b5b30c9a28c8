-- ===== src/Docs/Search/Index/All11Third.antt =====
-- docs/html/search/all_11.js: the third part of a page of the search index.
use riscv_simulator_pipeline.Base.{List, [], ◌∷◌}
use riscv_simulator_pipeline.Docs.Search.Entry.{SearchEntry, symbol, hit, single}

abbrev pub all_11_third : List SearchEntry
all_11_third =
    single "run_5fdir_5fbase_1014" "RUN_DIR_BASE"
      "../namespacetest__runner.html#a47d5fab22dd475d59680fe8b9a3182c2" 1 "test_runner"
    ∷ single "run_5fstep_5fdelay_1015" "run_step_delay"
        "../structvm__config_1_1VmConfig.html#a9438d71dc02eca394d21d60da75d50f9" 1
        "vm_config::VmConfig"
    ∷ single "runtime_5finstruction_5fencoding_5farray_1016" "runtime_instruction_encoding_array"
        "../namespaceinstruction__set.html#a2882fafaa56627a16bb483cbe2fc2c2b" 1 "instruction_set"
    ∷ single "rup_1017" "RUP"
        "../rounding__modes_8h.html#a5959c934b204c7bcb6766cfaea8ae101a5ba30c5a3edeca6b0b2fd1050ecf3370"
        1 "rounding_modes.h"
    ∷ single "rv5s_5fcontrol_5funit_2ecpp_1018" "rv5s_control_unit.cpp"
        "../rv5s__control__unit_8cpp.html" 1 ""
    ∷ single "rv5s_5fcontrol_5funit_2ecpp_2eo_2ed_1019" "rv5s_control_unit.cpp.o.d"
        "../rv5s__control__unit_8cpp_8o_8d.html" 1 ""
    ∷ single "rv5s_5fcontrol_5funit_2eh_1020" "rv5s_control_unit.h" "../rv5s__control__unit_8h.html"
        1 ""
    ∷ single "rv5s_5fex_5fvm_2ecpp_1021" "rv5s_ex_vm.cpp" "../rv5s__ex__vm_8cpp.html" 1 ""
    ∷ single "rv5s_5fex_5fvm_2ecpp_2eo_2ed_1022" "rv5s_ex_vm.cpp.o.d"
        "../rv5s__ex__vm_8cpp_8o_8d.html" 1 ""
    ∷ single "rv5s_5fex_5fvm_2eh_1023" "rv5s_ex_vm.h" "../rv5s__ex__vm_8h.html" 1 ""
    ∷ single "rv5s_5fforwarding_5funit_2ecpp_1024" "rv5s_forwarding_unit.cpp"
        "../rv5s__forwarding__unit_8cpp.html" 1 ""
    ∷ single "rv5s_5fforwarding_5funit_2ecpp_2eo_2ed_1025" "rv5s_forwarding_unit.cpp.o.d"
        "../rv5s__forwarding__unit_8cpp_8o_8d.html" 1 ""
    ∷ single "rv5s_5fforwarding_5funit_2eh_1026" "rv5s_forwarding_unit.h"
        "../rv5s__forwarding__unit_8h.html" 1 ""
    ∷ single "rv5s_5fhazard_5funit_2ecpp_1027" "rv5s_hazard_unit.cpp"
        "../rv5s__hazard__unit_8cpp.html" 1 ""
    ∷ single "rv5s_5fhazard_5funit_2ecpp_2eo_2ed_1028" "rv5s_hazard_unit.cpp.o.d"
        "../rv5s__hazard__unit_8cpp_8o_8d.html" 1 ""
    ∷ single "rv5s_5fhazard_5funit_2eh_1029" "rv5s_hazard_unit.h" "../rv5s__hazard__unit_8h.html" 1
        ""
    ∷ single "rv5s_5fid_5fvm_2ecpp_1030" "rv5s_id_vm.cpp" "../rv5s__id__vm_8cpp.html" 1 ""
    ∷ single "rv5s_5fid_5fvm_2ecpp_2eo_2ed_1031" "rv5s_id_vm.cpp.o.d"
        "../rv5s__id__vm_8cpp_8o_8d.html" 1 ""
    ∷ single "rv5s_5fid_5fvm_2eh_1032" "rv5s_id_vm.h" "../rv5s__id__vm_8h.html" 1 ""
    ∷ single "rv5s_5fstall_5fvm_2ecpp_1033" "rv5s_stall_vm.cpp" "../rv5s__stall__vm_8cpp.html" 1 ""
    ∷ single "rv5s_5fstall_5fvm_2ecpp_2eo_2ed_1034" "rv5s_stall_vm.cpp.o.d"
        "../rv5s__stall__vm_8cpp_8o_8d.html" 1 ""
    ∷ single "rv5s_5fstall_5fvm_2eh_1035" "rv5s_stall_vm.h" "../rv5s__stall__vm_8h.html" 1 ""
    ∷ single "rv5s_5fvm_2ecpp_1036" "rv5s_vm.cpp" "../rv5s__vm_8cpp.html" 1 ""
    ∷ single "rv5s_5fvm_2ecpp_2eo_2ed_1037" "rv5s_vm.cpp.o.d" "../rv5s__vm_8cpp_8o_8d.html" 1 ""
    ∷ single "rv5s_5fvm_2eh_1038" "rv5s_vm.h" "../rv5s__vm_8h.html" 1 ""
    ∷ symbol "rv5scontrolunit_1039" "RV5SControlUnit" (
        hit "../classRV5SControlUnit.html" 1 "RV5SControlUnit"
        ∷ hit "../classRV5SControlUnit.html#acbf6b666797e935c825b5dec2ad8a32b" 1
            "RV5SControlUnit::RV5SControlUnit()"
        ∷ [])
    ∷ symbol "rv5sexvm_1040" "RV5SEXVM" (
        hit "../classRV5SEXVM.html" 1 "RV5SEXVM"
        ∷ hit "../classRV5SEXVM.html#a5c91a360d7c1885819ad737ea0f1a5e0" 1 "RV5SEXVM::RV5SEXVM()"
        ∷ [])
    ∷ symbol "rv5sforwardingunit_1041" "RV5SForwardingUnit" (
        hit "../classRV5SForwardingUnit.html#ac85019a08725e2678131b419862fd002" 1
          "RV5SForwardingUnit::RV5SForwardingUnit()"
        ∷ hit "../classRV5SForwardingUnit.html" 1 "RV5SForwardingUnit"
        ∷ [])
    ∷ symbol "rv5shazardunit_1042" "RV5SHazardUnit" (
        hit "../classRV5SHazardUnit.html" 1 "RV5SHazardUnit"
        ∷ hit "../classRV5SHazardUnit.html#a7db424404ee2e3835c0049a0c3fd6a0e" 1
            "RV5SHazardUnit::RV5SHazardUnit()"
        ∷ [])
    ∷ symbol "rv5sidvm_1043" "RV5SIDVM" (
        hit "../classRV5SIDVM.html" 1 "RV5SIDVM"
        ∷ hit "../classRV5SIDVM.html#a0b99e5d36fa2c19ee6cd37de1bd70e24" 1 "RV5SIDVM::RV5SIDVM()"
        ∷ [])
    ∷ symbol "rv5sstallvm_1044" "RV5SStallVM" (
        hit "../classRV5SStallVM.html" 1 "RV5SStallVM"
        ∷ hit "../classRV5SStallVM.html#a7c339661a87089ba57126b5d1a7cb070" 1
            "RV5SStallVM::RV5SStallVM()"
        ∷ [])
    ∷ symbol "rv5svm_1045" "RV5SVM" (
        hit "../classRV5SVM.html" 1 "RV5SVM"
        ∷ hit "../classRV5SVM.html#ae2105264405492b76f4f65b8fe25a82e" 1 "RV5SVM::RV5SVM()"
        ∷ [])
    ∷ single "rvss_5fcontrol_5funit_2ecpp_1046" "rvss_control_unit.cpp"
        "../rvss__control__unit_8cpp.html" 1 ""
    ∷ single "rvss_5fcontrol_5funit_2ecpp_2eo_2ed_1047" "rvss_control_unit.cpp.o.d"
        "../rvss__control__unit_8cpp_8o_8d.html" 1 ""
    ∷ single "rvss_5fcontrol_5funit_2eh_1048" "rvss_control_unit.h" "../rvss__control__unit_8h.html"
        1 ""
    ∷ single "rvss_5fvm_2ecpp_1049" "rvss_vm.cpp" "../rvss__vm_8cpp.html" 1 ""
    ∷ single "rvss_5fvm_2ecpp_2eo_2ed_1050" "rvss_vm.cpp.o.d" "../rvss__vm_8cpp_8o_8d.html" 1 ""
    ∷ single "rvss_5fvm_2eh_1051" "rvss_vm.h" "../rvss__vm_8h.html" 1 ""
    ∷ single "rvsscontrolunit_1052" "RVSSControlUnit" "../classRVSSControlUnit.html" 1 ""
    ∷ symbol "rvssvm_1053" "RVSSVM" (
        hit "../classRVSSVM.html#ad4b0364a0d279a0bbdca93f71bb9cfef" 1 "RVSSVM::RVSSVM()"
        ∷ hit "../classRVSSVM.html" 1 "RVSSVM"
        ∷ [])
    ∷ []
