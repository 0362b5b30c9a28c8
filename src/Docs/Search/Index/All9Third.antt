-- ===== src/Docs/Search/Index/All9Third.antt =====
-- docs/html/search/all_9.js: the third part of a page of the search index.
use riscv_simulator_pipeline.Base.{List, [], ◌∷◌}
use riscv_simulator_pipeline.Docs.Search.Entry.{SearchEntry, symbol, hit, single}

abbrev pub all_9_third : List SearchEntry
all_9_third =
    single "isdata_515" "isData" "../structSymbolData.html#a492cfec3ac0ddfa948d5697d461b2d7b" 1
      "SymbolData"
    ∷ single "isdinstruction_516" "isDInstruction"
        "../namespaceinstruction__set.html#a5303fb0dd8dd34c268231c47f85a02fc" 1 "instruction_set"
    ∷ single "isfinstruction_517" "isFInstruction"
        "../namespaceinstruction__set.html#aa2718ca4cc03370f5c3d248ed59028b6" 1 "instruction_set"
    ∷ single "isfloatingpointopcode_518" "isFloatingPointOpcode"
        "../rv5s__control__unit_8cpp.html#a70ebe7df0c576bca9324a85eafd640d1" 1
        "rv5s_control_unit.cpp"
    ∷ symbol "isready_519" "isReady" (
        hit "../classNullMMIODevice.html#a8729e229bae85836add7a151cc3f1968" 1
          "NullMMIODevice::isReady()"
        ∷ hit "../classMMIODevice.html#a8ac879e79e627377225ba4deadff8cf2" 1 "MMIODevice::isReady()"
        ∷ [])
    ∷ single "isstoprequested_520" "IsStopRequested"
        "../classVmBase.html#a49e7906bf19ce3fd22cf5f941ed13fab" 1 "VmBase"
    ∷ single "isvalidbaseextensioninstruction_521" "isValidBaseExtensionInstruction"
        "../namespaceinstruction__set.html#a3e26615428ea0891ded649073e440d88" 1 "instruction_set"
    ∷ single "isvalidbtypeinstruction_522" "isValidBTypeInstruction"
        "../namespaceinstruction__set.html#a9f7fd6439b8f1fdf3fa6c4b846161a60" 1 "instruction_set"
    ∷ symbol "isvalidcsr_523" "IsValidCsr" (
        hit "../registers_8h.html#aca47a0deb2cf271388bcba061c11ba94" 1
          "IsValidCsr(const std::string &amp;reg):&#160;registers.cpp"
        ∷ hit "../registers_8cpp.html#aca47a0deb2cf271388bcba061c11ba94" 1
            "IsValidCsr(const std::string &amp;reg):&#160;registers.cpp"
        ∷ [])
    ∷ single "isvalidcsrinstruction_524" "isValidCSRInstruction"
        "../namespaceinstruction__set.html#a200e08acd1cac12dc89b25fba97fa6ac" 1 "instruction_set"
    ∷ single "isvalidcsritypeinstruction_525" "isValidCSRITypeInstruction"
        "../namespaceinstruction__set.html#ac19e70a283ee2e1b15125faad66ba23e" 1 "instruction_set"
    ∷ single "isvalidcsrrtypeinstruction_526" "isValidCSRRTypeInstruction"
        "../namespaceinstruction__set.html#a390f2245d92958d7d6e67df52fdeab34" 1 "instruction_set"
    ∷ single "isvaliddextensioninstruction_527" "isValidDExtensionInstruction"
        "../namespaceinstruction__set.html#a5f75bd1bb73cd69424ee50160488cb79" 1 "instruction_set"
    ∷ single "isvalidfditypeinstruction_528" "isValidFDITypeInstruction"
        "../namespaceinstruction__set.html#afafd6b6e78053bc61fb215a4e3134ca3" 1 "instruction_set"
    ∷ single "isvalidfdr1typeinstruction_529" "isValidFDR1TypeInstruction"
        "../namespaceinstruction__set.html#a41eeac0550849ef37fa33ff84cf76a2f" 1 "instruction_set"
    ∷ single "isvalidfdr2typeinstruction_530" "isValidFDR2TypeInstruction"
        "../namespaceinstruction__set.html#a708f1663efb124992763e7df4a28345e" 1 "instruction_set"
    ∷ single "isvalidfdr3typeinstruction_531" "isValidFDR3TypeInstruction"
        "../namespaceinstruction__set.html#ab0c4f49b586d5b40444c37be298aad10" 1 "instruction_set"
    ∷ single "isvalidfdr4typeinstruction_532" "isValidFDR4TypeInstruction"
        "../namespaceinstruction__set.html#a431026007ab52b5f443f62b0282a5632" 1 "instruction_set"
    ∷ single "isvalidfdrtypeinstruction_533" "isValidFDRTypeInstruction"
        "../namespaceinstruction__set.html#a1dd7f86382bd6577c7b880367f5912fa" 1 "instruction_set"
    ∷ single "isvalidfdstypeinstruction_534" "isValidFDSTypeInstruction"
        "../namespaceinstruction__set.html#aab688f810da37e8780510aab2f2232a0" 1 "instruction_set"
    ∷ single "isvalidfextensioninstruction_535" "isValidFExtensionInstruction"
        "../namespaceinstruction__set.html#ac62387417c2482375edb488f4e563337" 1 "instruction_set"
    ∷ symbol "isvalidfloatingpointregister_536" "IsValidFloatingPointRegister" (
        hit "../registers_8h.html#aa1a257a2fc15d22847dad688c8b3bedd" 1
          "IsValidFloatingPointRegister(const std::string &amp;reg):&#160;registers.cpp"
        ∷ hit "../registers_8cpp.html#aa1a257a2fc15d22847dad688c8b3bedd" 1
            "IsValidFloatingPointRegister(const std::string &amp;reg):&#160;registers.cpp"
        ∷ [])
    ∷ symbol "isvalidgeneralpurposeregister_537" "IsValidGeneralPurposeRegister" (
        hit "../registers_8h.html#ac5db3171f17fd09e341027d11d438649" 1
          "IsValidGeneralPurposeRegister(const std::string &amp;reg):&#160;registers.cpp"
        ∷ hit "../registers_8cpp.html#ac5db3171f17fd09e341027d11d438649" 1
            "IsValidGeneralPurposeRegister(const std::string &amp;reg):&#160;registers.cpp"
        ∷ [])
    ∷ single "isvalidi1typeinstruction_538" "isValidI1TypeInstruction"
        "../namespaceinstruction__set.html#a2686c6cb47421100c0845826a00d6686" 1 "instruction_set"
    ∷ single "isvalidi2typeinstruction_539" "isValidI2TypeInstruction"
        "../namespaceinstruction__set.html#a1157d60c5ad00551432b62c74dce93ce" 1 "instruction_set"
    ∷ single "isvalidi3typeinstruction_540" "isValidI3TypeInstruction"
        "../namespaceinstruction__set.html#ab009114befd859670c1b6a60a4d4a675" 1 "instruction_set"
    ∷ single "isvalidinstruction_541" "isValidInstruction"
        "../namespaceinstruction__set.html#a684c8ea1bb0cd5f2fcdb698286ce49bd" 1 "instruction_set"
    ∷ single "isvaliditypeinstruction_542" "isValidITypeInstruction"
        "../namespaceinstruction__set.html#ac10fca95259b7db81e9d64605dd6d7fd" 1 "instruction_set"
    ∷ single "isvalidjtypeinstruction_543" "isValidJTypeInstruction"
        "../namespaceinstruction__set.html#a40834369e5972193df7c74fa8d3cd7c4" 1 "instruction_set"
    ∷ single "isvalidmextensioninstruction_544" "isValidMExtensionInstruction"
        "../namespaceinstruction__set.html#a3e6f000a9cc56a65caac4033c362717d" 1 "instruction_set"
    ∷ single "isvalidpseudoinstruction_545" "isValidPseudoInstruction"
        "../namespaceinstruction__set.html#adf2c87a1fa7b27e0012e3eaf1f575538" 1 "instruction_set"
    ∷ single "isvalidroundingmode_546" "isValidRoundingMode"
        "../rounding__modes_8h.html#aa3da17e665094fd5998a93e445d00574" 1 "rounding_modes.h"
    ∷ single "isvalidrtypeinstruction_547" "isValidRTypeInstruction"
        "../namespaceinstruction__set.html#a2dbf58ce982702b5ebd65bedbad55f1a" 1 "instruction_set"
    ∷ single "isvalidstypeinstruction_548" "isValidSTypeInstruction"
        "../namespaceinstruction__set.html#a402f2c32c5f3981e732c5a7bada97398" 1 "instruction_set"
    ∷ single "isvalidutypeinstruction_549" "isValidUTypeInstruction"
        "../namespaceinstruction__set.html#a72120155b1b49e86de5a21a140757e0c" 1 "instruction_set"
    ∷ []
