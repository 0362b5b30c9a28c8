-- ===== src/Docs/Search/Index/AllBSecond.antt =====
-- docs/html/search/all_b.js: the second part of a page of the search index.
use riscv_simulator_pipeline.Base.{List, [], ◌∷◌}
use riscv_simulator_pipeline.Docs.Search.Entry.{SearchEntry, single}

abbrev pub all_b_second : List SearchEntry
all_b_second =
    single "kfcvt_5fd_5fw_607" "kfcvt_d_w"
      "../namespaceinstruction__set.html#ab8754e798b5117896d42d78c0a67d980a87bd5b88768ee44fd99d9f2c5e7fd94f"
      1 "instruction_set"
    ∷ single "kfcvt_5fd_5fwu_608" "kfcvt_d_wu"
        "../namespaceinstruction__set.html#ab8754e798b5117896d42d78c0a67d980a98dcc5e1455841e572fb1079a54d5a61"
        1 "instruction_set"
    ∷ single "kfcvt_5fl_5fd_609" "kfcvt_l_d"
        "../namespaceinstruction__set.html#ab8754e798b5117896d42d78c0a67d980a3c2b5e8d160f07d8b6f3394a088c7bf3"
        1 "instruction_set"
    ∷ single "kfcvt_5fl_5fs_610" "kfcvt_l_s"
        "../namespaceinstruction__set.html#ab8754e798b5117896d42d78c0a67d980aa65c440ac352be01340864ca1713f1ab"
        1 "instruction_set"
    ∷ single "kfcvt_5flu_5fd_611" "kfcvt_lu_d"
        "../namespaceinstruction__set.html#ab8754e798b5117896d42d78c0a67d980a18fd8de44f3b4c9a44a197f1ea993a20"
        1 "instruction_set"
    ∷ single "kfcvt_5flu_5fs_612" "kfcvt_lu_s"
        "../namespaceinstruction__set.html#ab8754e798b5117896d42d78c0a67d980a849988087b8cb1a3d4c1ae7bb4d49e98"
        1 "instruction_set"
    ∷ single "kfcvt_5fs_5fd_613" "kfcvt_s_d"
        "../namespaceinstruction__set.html#ab8754e798b5117896d42d78c0a67d980aca8a3af361f64e60190091defa0a4836"
        1 "instruction_set"
    ∷ single "kfcvt_5fs_5fl_614" "kfcvt_s_l"
        "../namespaceinstruction__set.html#ab8754e798b5117896d42d78c0a67d980a5885ebaaafc652ab0c43279acc4a1fe9"
        1 "instruction_set"
    ∷ single "kfcvt_5fs_5flu_615" "kfcvt_s_lu"
        "../namespaceinstruction__set.html#ab8754e798b5117896d42d78c0a67d980a5aea15caabd07f7c5a09f1b3c1f8e4ab"
        1 "instruction_set"
    ∷ single "kfcvt_5fs_5fw_616" "kfcvt_s_w"
        "../namespaceinstruction__set.html#ab8754e798b5117896d42d78c0a67d980af605280c1d298f11de4841caa2c20b0b"
        1 "instruction_set"
    ∷ single "kfcvt_5fs_5fwu_617" "kfcvt_s_wu"
        "../namespaceinstruction__set.html#ab8754e798b5117896d42d78c0a67d980a501693061db0541fc0882735ed692b02"
        1 "instruction_set"
    ∷ single "kfcvt_5fw_5fd_618" "kfcvt_w_d"
        "../namespaceinstruction__set.html#ab8754e798b5117896d42d78c0a67d980a76cbbcfebf0038d5617ea4204b1d684d"
        1 "instruction_set"
    ∷ single "kfcvt_5fw_5fs_619" "kfcvt_w_s"
        "../namespaceinstruction__set.html#ab8754e798b5117896d42d78c0a67d980ace3c37faf4b8f6d3886b7da6e6e77ee6"
        1 "instruction_set"
    ∷ single "kfcvt_5fwu_5fd_620" "kfcvt_wu_d"
        "../namespaceinstruction__set.html#ab8754e798b5117896d42d78c0a67d980a7b5086fc790258b02cfd3492491f58e1"
        1 "instruction_set"
    ∷ single "kfcvt_5fwu_5fs_621" "kfcvt_wu_s"
        "../namespaceinstruction__set.html#ab8754e798b5117896d42d78c0a67d980a57ea70e648a0a3531b86eee06c38047c"
        1 "instruction_set"
    ∷ single "kfdiv_5fd_622" "kfdiv_d"
        "../namespaceinstruction__set.html#ab8754e798b5117896d42d78c0a67d980a433de101a440ce47bbc289edaec29003"
        1 "instruction_set"
    ∷ single "kfdiv_5fs_623" "kfdiv_s"
        "../namespaceinstruction__set.html#ab8754e798b5117896d42d78c0a67d980a19d7ba44dfbb7f72501ce9479ac23483"
        1 "instruction_set"
    ∷ single "kfence_624" "kfence"
        "../namespaceinstruction__set.html#ab8754e798b5117896d42d78c0a67d980afaeb45b865b99383810352358edf0ef5"
        1 "instruction_set"
    ∷ single "kfence_5fi_625" "kfence_i"
        "../namespaceinstruction__set.html#ab8754e798b5117896d42d78c0a67d980a1496e1da4b6a76118a754641e73f497e"
        1 "instruction_set"
    ∷ single "kfeq_5fd_626" "kfeq_d"
        "../namespaceinstruction__set.html#ab8754e798b5117896d42d78c0a67d980af9fbe55d80cb4859238942c0b44b6ccc"
        1 "instruction_set"
    ∷ single "kfeq_5fs_627" "kfeq_s"
        "../namespaceinstruction__set.html#ab8754e798b5117896d42d78c0a67d980af6536ad6e1a0736aa75a9b9225add24e"
        1 "instruction_set"
    ∷ single "kfld_628" "kfld"
        "../namespaceinstruction__set.html#ab8754e798b5117896d42d78c0a67d980a86a651dcb3ed470573d737203c0a3287"
        1 "instruction_set"
    ∷ single "kfle_5fd_629" "kfle_d"
        "../namespaceinstruction__set.html#ab8754e798b5117896d42d78c0a67d980a9001fb231f4bd87c814cd63c1cf96391"
        1 "instruction_set"
    ∷ single "kfle_5fs_630" "kfle_s"
        "../namespaceinstruction__set.html#ab8754e798b5117896d42d78c0a67d980a5ce3a12adae3a40b9e2305aed36dc8e8"
        1 "instruction_set"
    ∷ single "kflt_5fd_631" "kflt_d"
        "../namespaceinstruction__set.html#ab8754e798b5117896d42d78c0a67d980a317bbbee328e04787b5fa70557fb62bc"
        1 "instruction_set"
    ∷ single "kflt_5fs_632" "kflt_s"
        "../namespaceinstruction__set.html#ab8754e798b5117896d42d78c0a67d980ab962794bb8fac3d310037a5f9f9f130e"
        1 "instruction_set"
    ∷ single "kflw_633" "kflw"
        "../namespaceinstruction__set.html#ab8754e798b5117896d42d78c0a67d980a62cd50bf9d3f0a947fd3321676496db1"
        1 "instruction_set"
    ∷ single "kfmadd_5fd_634" "kfmadd_d"
        "../namespaceinstruction__set.html#ab8754e798b5117896d42d78c0a67d980af7274ea3ef69220b143dcdb58c3e1d89"
        1 "instruction_set"
    ∷ single "kfmadd_5fs_635" "kfmadd_s"
        "../namespaceinstruction__set.html#ab8754e798b5117896d42d78c0a67d980aeac58195154575342ad3aec9f19961ef"
        1 "instruction_set"
    ∷ single "kfmadd_5fs_636" "kFmadd_s"
        "../namespacealu.html#a168383e119a615fcfa97506988a23985aba88cf4ea33e830c82290b53346cf700" 1
        "alu"
    ∷ single "kfmax_5fd_637" "kfmax_d"
        "../namespaceinstruction__set.html#ab8754e798b5117896d42d78c0a67d980a44e1cf13abaf758d222072d6eb01bfe1"
        1 "instruction_set"
    ∷ single "kfmax_5fs_638" "kfmax_s"
        "../namespaceinstruction__set.html#ab8754e798b5117896d42d78c0a67d980a6dac7f0f8f805504007a5cbde662af6b"
        1 "instruction_set"
    ∷ single "kfmin_5fd_639" "kfmin_d"
        "../namespaceinstruction__set.html#ab8754e798b5117896d42d78c0a67d980a350de79566143c2e6755e651eabc9e30"
        1 "instruction_set"
    ∷ single "kfmin_5fs_640" "kfmin_s"
        "../namespaceinstruction__set.html#ab8754e798b5117896d42d78c0a67d980a920160cbe868e9b4d8410be76f6f8f0e"
        1 "instruction_set"
    ∷ single "kfmsub_5fd_641" "kfmsub_d"
        "../namespaceinstruction__set.html#ab8754e798b5117896d42d78c0a67d980aeae1f37b662f71886d174d1e98e3e300"
        1 "instruction_set"
    ∷ single "kfmsub_5fs_642" "kfmsub_s"
        "../namespaceinstruction__set.html#ab8754e798b5117896d42d78c0a67d980a3169694b712a063b3d79d8d4543d5288"
        1 "instruction_set"
    ∷ single "kfmsub_5fs_643" "kFmsub_s"
        "../namespacealu.html#a168383e119a615fcfa97506988a23985a4e806301e4079ae09e8cee2adb484304" 1
        "alu"
    ∷ single "kfmul_5fd_644" "kfmul_d"
        "../namespaceinstruction__set.html#ab8754e798b5117896d42d78c0a67d980acb0138a88ec7c686d96eadf4bba6211b"
        1 "instruction_set"
    ∷ single "kfmul_5fs_645" "kfmul_s"
        "../namespaceinstruction__set.html#ab8754e798b5117896d42d78c0a67d980a6c75dd99091e2c9b9b73148f2b3f32bc"
        1 "instruction_set"
    ∷ single "kfmv_5fd_5fx_646" "kfmv_d_x"
        "../namespaceinstruction__set.html#ab8754e798b5117896d42d78c0a67d980aec779415c395302a71a8105fdcbd8ce6"
        1 "instruction_set"
    ∷ single "kfmv_5fw_5fx_647" "kfmv_w_x"
        "../namespaceinstruction__set.html#ab8754e798b5117896d42d78c0a67d980a2a4f01c97cb26d21543e35e3263a9d9a"
        1 "instruction_set"
    ∷ single "kfmv_5fx_5fd_648" "kfmv_x_d"
        "../namespaceinstruction__set.html#ab8754e798b5117896d42d78c0a67d980ac2c4d0c2acaad3bf220ed40314019c91"
        1 "instruction_set"
    ∷ single "kfmv_5fx_5fw_649" "kfmv_x_w"
        "../namespaceinstruction__set.html#ab8754e798b5117896d42d78c0a67d980a1139eab3f706f5f74cf4f18e2df89bc6"
        1 "instruction_set"
    ∷ single "kfnmadd_5fd_650" "kfnmadd_d"
        "../namespaceinstruction__set.html#ab8754e798b5117896d42d78c0a67d980a4991a811fd6d5fc57f32d8c1de1e981b"
        1 "instruction_set"
    ∷ single "kfnmadd_5fs_651" "kfnmadd_s"
        "../namespaceinstruction__set.html#ab8754e798b5117896d42d78c0a67d980a36574fa6e9cbd4bc6bab665ada6edbf2"
        1 "instruction_set"
    ∷ single "kfnmadd_5fs_652" "kFnmadd_s"
        "../namespacealu.html#a168383e119a615fcfa97506988a23985a61fc9a2486a3f32a5edd84e103a0d3b2" 1
        "alu"
    ∷ single "kfnmsub_5fd_653" "kfnmsub_d"
        "../namespaceinstruction__set.html#ab8754e798b5117896d42d78c0a67d980a61010ea282058714c255d3365e1d4556"
        1 "instruction_set"
    ∷ single "kfnmsub_5fs_654" "kfnmsub_s"
        "../namespaceinstruction__set.html#ab8754e798b5117896d42d78c0a67d980abb6b7e784a56c2d3377ef78e364d71e0"
        1 "instruction_set"
    ∷ single "kfnmsub_5fs_655" "kFnmsub_s"
        "../namespacealu.html#a168383e119a615fcfa97506988a23985a4b5adb79a5478a8a1aa1b598bfdda8eb" 1
        "alu"
    ∷ single "kfsd_656" "kfsd"
        "../namespaceinstruction__set.html#ab8754e798b5117896d42d78c0a67d980aac0a41021edabcacf6d6991ee7e53b48"
        1 "instruction_set"
    ∷ []
