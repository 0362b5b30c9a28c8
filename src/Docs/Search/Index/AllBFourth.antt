-- ===== src/Docs/Search/Index/AllBFourth.antt =====
-- docs/html/search/all_b.js: the fourth part of a page of the search index.
use riscv_simulator_pipeline.Base.{List, [], ◌∷◌}
use riscv_simulator_pipeline.Docs.Search.Entry.{SearchEntry, single}

abbrev pub all_b_fourth : List SearchEntry
all_b_fourth =
    single "kremu_707" "kremu"
      "../namespaceinstruction__set.html#ab8754e798b5117896d42d78c0a67d980a1f8e7a90d28efd99fe32c3defd84cf48"
      1 "instruction_set"
    ∷ single "kremuw_708" "kRemuw"
        "../namespacealu.html#a168383e119a615fcfa97506988a23985ac4c5e088c1e06b9f2d33eb0cddcacb38" 1
        "alu"
    ∷ single "kremuw_709" "kremuw"
        "../namespaceinstruction__set.html#ab8754e798b5117896d42d78c0a67d980ad6bb3be2197973350e01161f3ba45434"
        1 "instruction_set"
    ∷ single "kremw_710" "kRemw"
        "../namespacealu.html#a168383e119a615fcfa97506988a23985a604f0e074a5c731cc24cfceecc9041a7" 1
        "alu"
    ∷ single "kremw_711" "kremw"
        "../namespaceinstruction__set.html#ab8754e798b5117896d42d78c0a67d980a7d399412da559a8b4856520f973302bf"
        1 "instruction_set"
    ∷ single "kret_712" "kret"
        "../namespaceinstruction__set.html#ab8754e798b5117896d42d78c0a67d980a80a07f5b606bbaada72c66264a5975c8"
        1 "instruction_set"
    ∷ single "krtype_713" "kRtype"
        "../namespaceinstruction__set.html#ab8754e798b5117896d42d78c0a67d980ac9324857055d881d311d4db5425c2f5e"
        1 "instruction_set"
    ∷ single "ksb_714" "ksb"
        "../namespaceinstruction__set.html#ab8754e798b5117896d42d78c0a67d980a5e41b4d0cc520b5862c3e56361b4931e"
        1 "instruction_set"
    ∷ single "ksd_715" "ksd"
        "../namespaceinstruction__set.html#ab8754e798b5117896d42d78c0a67d980adbf30f970e8a51154664d0b82b9fe97a"
        1 "instruction_set"
    ∷ single "kseqz_716" "kseqz"
        "../namespaceinstruction__set.html#ab8754e798b5117896d42d78c0a67d980aadc7062325030007e0fc3b38575114b0"
        1 "instruction_set"
    ∷ single "ksextw_717" "ksextw"
        "../namespaceinstruction__set.html#ab8754e798b5117896d42d78c0a67d980a8e1bac446149dbea3ca82f49c11c2786"
        1 "instruction_set"
    ∷ single "ksgtz_718" "ksgtz"
        "../namespaceinstruction__set.html#ab8754e798b5117896d42d78c0a67d980afaf9855c9c70a3e945b712d6d5ae4892"
        1 "instruction_set"
    ∷ single "ksh_719" "ksh"
        "../namespaceinstruction__set.html#ab8754e798b5117896d42d78c0a67d980a1348b458efe72d142bf10319789aae07"
        1 "instruction_set"
    ∷ single "ksll_720" "ksll"
        "../namespaceinstruction__set.html#ab8754e798b5117896d42d78c0a67d980ad4ccbfce3b074e56364aa8c1a00523a0"
        1 "instruction_set"
    ∷ single "ksll_721" "kSll"
        "../namespacealu.html#a168383e119a615fcfa97506988a23985a31b2dcb97466607a23d8c7c9d318a345" 1
        "alu"
    ∷ single "kslli_722" "kslli"
        "../namespaceinstruction__set.html#ab8754e798b5117896d42d78c0a67d980a32657cbfaab74e8d8c5ff58cb22e4e96"
        1 "instruction_set"
    ∷ single "kslliw_723" "kslliw"
        "../namespaceinstruction__set.html#ab8754e798b5117896d42d78c0a67d980ae86c1cd33f01aeef4bc7ed248998f374"
        1 "instruction_set"
    ∷ single "ksllw_724" "ksllw"
        "../namespaceinstruction__set.html#ab8754e798b5117896d42d78c0a67d980a06544675b45a6af0af02134928d72025"
        1 "instruction_set"
    ∷ single "ksllw_725" "kSllw"
        "../namespacealu.html#a168383e119a615fcfa97506988a23985ab64399991ffdcb426ce1cc67d65d1632" 1
        "alu"
    ∷ single "kslt_726" "kSlt"
        "../namespacealu.html#a168383e119a615fcfa97506988a23985a2da53de8e3b9cac5a896c0ad31431b74" 1
        "alu"
    ∷ single "kslt_727" "kslt"
        "../namespaceinstruction__set.html#ab8754e798b5117896d42d78c0a67d980ac181debd6036554a0cab6b8166daca27"
        1 "instruction_set"
    ∷ single "kslti_728" "kslti"
        "../namespaceinstruction__set.html#ab8754e798b5117896d42d78c0a67d980a475efdbdaab15dd303f73220d4e86ba9"
        1 "instruction_set"
    ∷ single "ksltiu_729" "ksltiu"
        "../namespaceinstruction__set.html#ab8754e798b5117896d42d78c0a67d980a08e7326bdad567235eb20abaf834e56d"
        1 "instruction_set"
    ∷ single "ksltu_730" "kSltu"
        "../namespacealu.html#a168383e119a615fcfa97506988a23985a7114d2dd322d0c6fa4dfd7fdd8410633" 1
        "alu"
    ∷ single "ksltu_731" "ksltu"
        "../namespaceinstruction__set.html#ab8754e798b5117896d42d78c0a67d980a91411c836e5bcea565532386876d50ba"
        1 "instruction_set"
    ∷ single "ksltz_732" "ksltz"
        "../namespaceinstruction__set.html#ab8754e798b5117896d42d78c0a67d980a650211f099ccb232c20f3c804585d095"
        1 "instruction_set"
    ∷ single "ksnez_733" "ksnez"
        "../namespaceinstruction__set.html#ab8754e798b5117896d42d78c0a67d980adf6100e931c9297ae1f077cb344572a1"
        1 "instruction_set"
    ∷ single "ksra_734" "ksra"
        "../namespaceinstruction__set.html#ab8754e798b5117896d42d78c0a67d980ae676ed16d4fdfa03e4d41cf6859c79e4"
        1 "instruction_set"
    ∷ single "ksra_735" "kSra"
        "../namespacealu.html#a168383e119a615fcfa97506988a23985a6d7ccf5f1a560a20b7721f479d85fced" 1
        "alu"
    ∷ single "ksrai_736" "ksrai"
        "../namespaceinstruction__set.html#ab8754e798b5117896d42d78c0a67d980a67fde271abfcf549014a7d8f01098738"
        1 "instruction_set"
    ∷ single "ksraiw_737" "ksraiw"
        "../namespaceinstruction__set.html#ab8754e798b5117896d42d78c0a67d980a63f50b08fb105193c7a2d1361a6837be"
        1 "instruction_set"
    ∷ single "ksraw_738" "ksraw"
        "../namespaceinstruction__set.html#ab8754e798b5117896d42d78c0a67d980a9553aaca416113c4c9c00e970a8cf6d7"
        1 "instruction_set"
    ∷ single "ksraw_739" "kSraw"
        "../namespacealu.html#a168383e119a615fcfa97506988a23985a0b5f4ddc9dad7457b794921959e6fd81" 1
        "alu"
    ∷ single "ksrl_740" "kSrl"
        "../namespacealu.html#a168383e119a615fcfa97506988a23985a946650cdc67e9fee1826aec76398702e" 1
        "alu"
    ∷ single "ksrl_741" "ksrl"
        "../namespaceinstruction__set.html#ab8754e798b5117896d42d78c0a67d980a357a0b1dcebc27c1c56740ae03d468eb"
        1 "instruction_set"
    ∷ single "ksrli_742" "ksrli"
        "../namespaceinstruction__set.html#ab8754e798b5117896d42d78c0a67d980a4d35627f6baeef7720b365595fb69ef4"
        1 "instruction_set"
    ∷ single "ksrliw_743" "ksrliw"
        "../namespaceinstruction__set.html#ab8754e798b5117896d42d78c0a67d980ab65f9c187165c8d913971e382b9cadf0"
        1 "instruction_set"
    ∷ single "ksrlw_744" "kSrlw"
        "../namespacealu.html#a168383e119a615fcfa97506988a23985a8fbc3cd28d2db1ff376c4a9c84f65ccc" 1
        "alu"
    ∷ single "ksrlw_745" "ksrlw"
        "../namespaceinstruction__set.html#ab8754e798b5117896d42d78c0a67d980a01ba80b7c5495187208e934353126074"
        1 "instruction_set"
    ∷ single "kstype_746" "kStype"
        "../namespaceinstruction__set.html#ab8754e798b5117896d42d78c0a67d980a7284ec4873dcea6be5634f00dedd8a52"
        1 "instruction_set"
    ∷ single "ksub_747" "ksub"
        "../namespaceinstruction__set.html#ab8754e798b5117896d42d78c0a67d980a5b786add7d030a9aed2977c105ca3118"
        1 "instruction_set"
    ∷ single "ksub_748" "kSub"
        "../namespacealu.html#a168383e119a615fcfa97506988a23985af66ca3c8e49231635fce6e56fadbc791" 1
        "alu"
    ∷ single "ksubw_749" "kSubw"
        "../namespacealu.html#a168383e119a615fcfa97506988a23985a05f1f16b27cc2bded8034f1a173b4f2b" 1
        "alu"
    ∷ single "ksubw_750" "ksubw"
        "../namespaceinstruction__set.html#ab8754e798b5117896d42d78c0a67d980a37638b0a0b0e0236bb6a9004987f95e7"
        1 "instruction_set"
    ∷ single "ksw_751" "ksw"
        "../namespaceinstruction__set.html#ab8754e798b5117896d42d78c0a67d980a880d60c4e270cf58189ca502ece5dcfa"
        1 "instruction_set"
    ∷ single "ktail_752" "ktail"
        "../namespaceinstruction__set.html#ab8754e798b5117896d42d78c0a67d980ab5edaf5243975a3df8b899f7d4897c93"
        1 "instruction_set"
    ∷ single "ktestmemdumpsize_753" "kTestMemDumpSize"
        "../classVmBase.html#aab035cb6550a9ee6c69ca80c472737b6" 1 "VmBase"
    ∷ single "kxor_754" "kXor"
        "../namespacealu.html#a168383e119a615fcfa97506988a23985ac045af4c7aaf252049c84e9c06019d6e" 1
        "alu"
    ∷ single "kxor_755" "kxor"
        "../namespaceinstruction__set.html#ab8754e798b5117896d42d78c0a67d980ae374b3602c959c58697207d2277e0d61"
        1 "instruction_set"
    ∷ single "kxori_756" "kxori"
        "../namespaceinstruction__set.html#ab8754e798b5117896d42d78c0a67d980aded185724bfff21a7eda68db23ddc795"
        1 "instruction_set"
    ∷ []
