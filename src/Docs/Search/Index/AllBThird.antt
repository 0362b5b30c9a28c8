-- ===== src/Docs/Search/Index/AllBThird.antt =====
-- docs/html/search/all_b.js: the third part of a page of the search index.
use riscv_simulator_pipeline.Base.{List, [], ◌∷◌}
use riscv_simulator_pipeline.Docs.Search.Entry.{SearchEntry, single}

abbrev pub all_b_third : List SearchEntry
all_b_third =
    single "kfsgnj_5fd_657" "kfsgnj_d"
      "../namespaceinstruction__set.html#ab8754e798b5117896d42d78c0a67d980abbc08b821cef8b2f6dce1ed8479a7517"
      1 "instruction_set"
    ∷ single "kfsgnj_5fs_658" "kfsgnj_s"
        "../namespaceinstruction__set.html#ab8754e798b5117896d42d78c0a67d980aa009019344f69e8eb95cf2cb50fb8b3b"
        1 "instruction_set"
    ∷ single "kfsgnjn_5fd_659" "kfsgnjn_d"
        "../namespaceinstruction__set.html#ab8754e798b5117896d42d78c0a67d980ad5a5c1dedc393bc231799149ce58174b"
        1 "instruction_set"
    ∷ single "kfsgnjn_5fs_660" "kfsgnjn_s"
        "../namespaceinstruction__set.html#ab8754e798b5117896d42d78c0a67d980ab2abe8c50bf5582a8b9b8444dab4e7cf"
        1 "instruction_set"
    ∷ single "kfsgnjx_5fd_661" "kfsgnjx_d"
        "../namespaceinstruction__set.html#ab8754e798b5117896d42d78c0a67d980acff099ea5d004532a1a3f59727916eee"
        1 "instruction_set"
    ∷ single "kfsgnjx_5fs_662" "kfsgnjx_s"
        "../namespaceinstruction__set.html#ab8754e798b5117896d42d78c0a67d980a703734fde79f1e76c5a216f0bc23963d"
        1 "instruction_set"
    ∷ single "kfsqrt_5fd_663" "kfsqrt_d"
        "../namespaceinstruction__set.html#ab8754e798b5117896d42d78c0a67d980a89361c5c4ca40a504430666e6999b503"
        1 "instruction_set"
    ∷ single "kfsqrt_5fs_664" "kfsqrt_s"
        "../namespaceinstruction__set.html#ab8754e798b5117896d42d78c0a67d980a3601bb8337d446a44041eaba83dd1ac5"
        1 "instruction_set"
    ∷ single "kfsub_5fd_665" "kfsub_d"
        "../namespaceinstruction__set.html#ab8754e798b5117896d42d78c0a67d980af83822029bc56b076da866827039ac84"
        1 "instruction_set"
    ∷ single "kfsub_5fs_666" "kfsub_s"
        "../namespaceinstruction__set.html#ab8754e798b5117896d42d78c0a67d980a25c0c697d468474153dc75c926828134"
        1 "instruction_set"
    ∷ single "kfsw_667" "kfsw"
        "../namespaceinstruction__set.html#ab8754e798b5117896d42d78c0a67d980a84792e98e98619ea87756bfbd0f67c77"
        1 "instruction_set"
    ∷ single "kitype_668" "kItype"
        "../namespaceinstruction__set.html#ab8754e798b5117896d42d78c0a67d980aa914aafea39c6cfc12479e2ba50fad99"
        1 "instruction_set"
    ∷ single "kj_669" "kj"
        "../namespaceinstruction__set.html#ab8754e798b5117896d42d78c0a67d980a765761e20777fa9112a9d26604910737"
        1 "instruction_set"
    ∷ single "kjal_670" "kjal"
        "../namespaceinstruction__set.html#ab8754e798b5117896d42d78c0a67d980a57d72eeebdbd7fc5b902ce57cbbcb7e1"
        1 "instruction_set"
    ∷ single "kjalr_671" "kjalr"
        "../namespaceinstruction__set.html#ab8754e798b5117896d42d78c0a67d980a8eee36ca620ee3fe4f282f3dd95bdbc8"
        1 "instruction_set"
    ∷ single "kjr_672" "kjr"
        "../namespaceinstruction__set.html#ab8754e798b5117896d42d78c0a67d980ab260327c5f283bb851227b8f2e0803f6"
        1 "instruction_set"
    ∷ single "kjtype_673" "kJtype"
        "../namespaceinstruction__set.html#ab8754e798b5117896d42d78c0a67d980a06bb27cce21a93d282cbfdac2a04d41a"
        1 "instruction_set"
    ∷ single "kla_674" "kla"
        "../namespaceinstruction__set.html#ab8754e798b5117896d42d78c0a67d980aef01abaad85a5f1460f89cbf6b15c890"
        1 "instruction_set"
    ∷ single "klb_675" "klb"
        "../namespaceinstruction__set.html#ab8754e798b5117896d42d78c0a67d980af6b6404ace3b4c57d755ec88aa635fea"
        1 "instruction_set"
    ∷ single "klbu_676" "klbu"
        "../namespaceinstruction__set.html#ab8754e798b5117896d42d78c0a67d980a8cc103c645169444fb92f1498ddb40bd"
        1 "instruction_set"
    ∷ single "kld_677" "kld"
        "../namespaceinstruction__set.html#ab8754e798b5117896d42d78c0a67d980a59ef541f710be4e720d504715e1a6831"
        1 "instruction_set"
    ∷ single "klh_678" "klh"
        "../namespaceinstruction__set.html#ab8754e798b5117896d42d78c0a67d980a99b7b94ee44a515881afb97b90dfba18"
        1 "instruction_set"
    ∷ single "klhu_679" "klhu"
        "../namespaceinstruction__set.html#ab8754e798b5117896d42d78c0a67d980af75a319cf81a7045437e0aec0a9fda90"
        1 "instruction_set"
    ∷ single "kli_680" "kli"
        "../namespaceinstruction__set.html#ab8754e798b5117896d42d78c0a67d980a546a14bc4215d0f9ee91be2ac4d7d0e7"
        1 "instruction_set"
    ∷ single "kloadtype_681" "kLoadType"
        "../namespaceinstruction__set.html#ab8754e798b5117896d42d78c0a67d980ac4c891124005659ba531b4aaf98552ac"
        1 "instruction_set"
    ∷ single "klui_682" "klui"
        "../namespaceinstruction__set.html#ab8754e798b5117896d42d78c0a67d980a4491c1a9fe5d7619c6445662dd2fa216"
        1 "instruction_set"
    ∷ single "klw_683" "klw"
        "../namespaceinstruction__set.html#ab8754e798b5117896d42d78c0a67d980ae7eedadc76e2f3ffb84e41928fa9b526"
        1 "instruction_set"
    ∷ single "klwu_684" "klwu"
        "../namespaceinstruction__set.html#ab8754e798b5117896d42d78c0a67d980aab20867cd821fb0480f777f4b1c23ce2"
        1 "instruction_set"
    ∷ single "kmul_685" "kMul"
        "../namespacealu.html#a168383e119a615fcfa97506988a23985a622e5142de51765da329dba31d104724" 1
        "alu"
    ∷ single "kmul_686" "kmul"
        "../namespaceinstruction__set.html#ab8754e798b5117896d42d78c0a67d980a65f607351a37184e8da30f45e7b13737"
        1 "instruction_set"
    ∷ single "kmulh_687" "kmulh"
        "../namespaceinstruction__set.html#ab8754e798b5117896d42d78c0a67d980aace183690ee69c878353be9114940f8a"
        1 "instruction_set"
    ∷ single "kmulh_688" "kMulh"
        "../namespacealu.html#a168383e119a615fcfa97506988a23985a5d7bd99c5826f29e34f02402beb6f960" 1
        "alu"
    ∷ single "kmulhsu_689" "kmulhsu"
        "../namespaceinstruction__set.html#ab8754e798b5117896d42d78c0a67d980a8feaa3b2f5daa3741892b5a66d21ffc1"
        1 "instruction_set"
    ∷ single "kmulhsu_690" "kMulhsu"
        "../namespacealu.html#a168383e119a615fcfa97506988a23985a0d06601dce8967314cc1aa0e8b2226fc" 1
        "alu"
    ∷ single "kmulhu_691" "kMulhu"
        "../namespacealu.html#a168383e119a615fcfa97506988a23985a57fefefa33d3579acd21fe9f12519a8c" 1
        "alu"
    ∷ single "kmulhu_692" "kmulhu"
        "../namespaceinstruction__set.html#ab8754e798b5117896d42d78c0a67d980a0170ffe440f8e6d1483f740c2ab67d89"
        1 "instruction_set"
    ∷ single "kmulw_693" "kmulw"
        "../namespaceinstruction__set.html#ab8754e798b5117896d42d78c0a67d980a4d68368826e85b515c3ec3eed74e20a2"
        1 "instruction_set"
    ∷ single "kmulw_694" "kMulw"
        "../namespacealu.html#a168383e119a615fcfa97506988a23985ade1206f006af1123de14b808ed906d8b" 1
        "alu"
    ∷ single "kmv_695" "kmv"
        "../namespaceinstruction__set.html#ab8754e798b5117896d42d78c0a67d980a5df51242f6bc4063a984be6f7d15daa6"
        1 "instruction_set"
    ∷ single "kneg_696" "kneg"
        "../namespaceinstruction__set.html#ab8754e798b5117896d42d78c0a67d980ae8c99623cbb9b2a1ec04e8ffe226b06e"
        1 "instruction_set"
    ∷ single "knegw_697" "knegw"
        "../namespaceinstruction__set.html#ab8754e798b5117896d42d78c0a67d980a8eac4963607421fffaa2c65a08aa0962"
        1 "instruction_set"
    ∷ single "knone_698" "kNone"
        "../namespacealu.html#a168383e119a615fcfa97506988a23985a35c3ace1970663a16e5c65baa5941b13" 1
        "alu"
    ∷ single "knop_699" "knop"
        "../namespaceinstruction__set.html#ab8754e798b5117896d42d78c0a67d980a23264b7f3feb968197677caa62f75100"
        1 "instruction_set"
    ∷ single "knot_700" "knot"
        "../namespaceinstruction__set.html#ab8754e798b5117896d42d78c0a67d980a0100666efbb48827f7013eb96ca05c21"
        1 "instruction_set"
    ∷ single "kor_701" "kor"
        "../namespaceinstruction__set.html#ab8754e798b5117896d42d78c0a67d980a524f20086b2a5232211d49da424eb021"
        1 "instruction_set"
    ∷ single "kor_702" "kOr"
        "../namespacealu.html#a168383e119a615fcfa97506988a23985a5b7e85783b7acdff953371531833aac4" 1
        "alu"
    ∷ single "kori_703" "kori"
        "../namespaceinstruction__set.html#ab8754e798b5117896d42d78c0a67d980a5e20bcc67d5cbb2f3ee96e8b8d6c7ab0"
        1 "instruction_set"
    ∷ single "krem_704" "kRem"
        "../namespacealu.html#a168383e119a615fcfa97506988a23985ad2d8f8a76441cf7839e3b6c354fa3618" 1
        "alu"
    ∷ single "krem_705" "krem"
        "../namespaceinstruction__set.html#ab8754e798b5117896d42d78c0a67d980a83458c730e1c94d8752e63f4a3dc38b7"
        1 "instruction_set"
    ∷ single "kremu_706" "kRemu"
        "../namespacealu.html#a168383e119a615fcfa97506988a23985ae414eacac092904aeb4235f9eeeadb21" 1
        "alu"
    ∷ []
