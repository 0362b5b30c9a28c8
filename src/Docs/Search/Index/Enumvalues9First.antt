-- ===== src/Docs/Search/Index/Enumvalues9First.antt =====
-- docs/html/search/enumvalues_9.js: the first part of a page of the search index.
use riscv_simulator_pipeline.Base.{List, [], ◌∷◌}
use riscv_simulator_pipeline.Docs.Search.Entry.{SearchEntry, single}

abbrev pub enumvalues_9_first : List SearchEntry
enumvalues_9_first =
    single "kadd_2254" "kadd"
      "../namespaceinstruction__set.html#ab8754e798b5117896d42d78c0a67d980ac438479d1cfd3633860f11c0f4303115"
      1 "instruction_set"
    ∷ single "kadd_2255" "kAdd"
        "../namespacealu.html#a168383e119a615fcfa97506988a23985aa9130c0c8cfb5cbb3b70c98f89d3d96c" 1
        "alu"
    ∷ single "kaddi_2256" "kaddi"
        "../namespaceinstruction__set.html#ab8754e798b5117896d42d78c0a67d980a6ac6b80ae93058357c7830519ec3ceaa"
        1 "instruction_set"
    ∷ single "kaddiw_2257" "kaddiw"
        "../namespaceinstruction__set.html#ab8754e798b5117896d42d78c0a67d980a9cde7663ed1249cce6d1e0afbe369de0"
        1 "instruction_set"
    ∷ single "kaddw_2258" "kAddw"
        "../namespacealu.html#a168383e119a615fcfa97506988a23985a5814d472434d44f9306c1933e39dc593" 1
        "alu"
    ∷ single "kaddw_2259" "kaddw"
        "../namespaceinstruction__set.html#ab8754e798b5117896d42d78c0a67d980a44592b4f64c6cd57399bfb5c0261c666"
        1 "instruction_set"
    ∷ single "kand_2260" "kAnd"
        "../namespacealu.html#a168383e119a615fcfa97506988a23985a5c61096a81b3e5cbbde4f43b14c8f0d9" 1
        "alu"
    ∷ single "kand_2261" "kand"
        "../namespaceinstruction__set.html#ab8754e798b5117896d42d78c0a67d980a4552bc22d9b6788fbe32abcf431dc9f9"
        1 "instruction_set"
    ∷ single "kandi_2262" "kandi"
        "../namespaceinstruction__set.html#ab8754e798b5117896d42d78c0a67d980a670686b8964454b801b320f16a91ee99"
        1 "instruction_set"
    ∷ single "kauipc_2263" "kauipc"
        "../namespaceinstruction__set.html#ab8754e798b5117896d42d78c0a67d980a77b4cbfe1f27d26152e6425cb065c173"
        1 "instruction_set"
    ∷ single "kbeq_2264" "kbeq"
        "../namespaceinstruction__set.html#ab8754e798b5117896d42d78c0a67d980ac048b512e0f924a4c3ace218c5a3e27b"
        1 "instruction_set"
    ∷ single "kbeqz_2265" "kbeqz"
        "../namespaceinstruction__set.html#ab8754e798b5117896d42d78c0a67d980a35999b804497bbfe22deb5b935865647"
        1 "instruction_set"
    ∷ single "kbge_2266" "kbge"
        "../namespaceinstruction__set.html#ab8754e798b5117896d42d78c0a67d980acbddca10947a185290ff79190dcfcd25"
        1 "instruction_set"
    ∷ single "kbgeu_2267" "kbgeu"
        "../namespaceinstruction__set.html#ab8754e798b5117896d42d78c0a67d980a53dfe2f693012ace73cf256b50a1923e"
        1 "instruction_set"
    ∷ single "kbgez_2268" "kbgez"
        "../namespaceinstruction__set.html#ab8754e798b5117896d42d78c0a67d980ac63bfca7bc62e56e68ce3e7adcdcfe8f"
        1 "instruction_set"
    ∷ single "kbgt_2269" "kbgt"
        "../namespaceinstruction__set.html#ab8754e798b5117896d42d78c0a67d980a90b0e92f5c3e33ca804e78e3e8eb5f21"
        1 "instruction_set"
    ∷ single "kbgtu_2270" "kbgtu"
        "../namespaceinstruction__set.html#ab8754e798b5117896d42d78c0a67d980af9bcb0b1c1a8e0b673bba58a11672adc"
        1 "instruction_set"
    ∷ single "kbgtz_2271" "kbgtz"
        "../namespaceinstruction__set.html#ab8754e798b5117896d42d78c0a67d980adc2d56f53116d35de6d6481a07c0773e"
        1 "instruction_set"
    ∷ single "kble_2272" "kble"
        "../namespaceinstruction__set.html#ab8754e798b5117896d42d78c0a67d980a6634405cf1cfd5d987bc491bf0c54b89"
        1 "instruction_set"
    ∷ single "kbleu_2273" "kbleu"
        "../namespaceinstruction__set.html#ab8754e798b5117896d42d78c0a67d980aff14808e94d03bf9ac79a2e94b1d1377"
        1 "instruction_set"
    ∷ single "kblez_2274" "kblez"
        "../namespaceinstruction__set.html#ab8754e798b5117896d42d78c0a67d980a0992ea456fc73f71ffd10d6b0b7997b6"
        1 "instruction_set"
    ∷ single "kblt_2275" "kblt"
        "../namespaceinstruction__set.html#ab8754e798b5117896d42d78c0a67d980a43e53aeddfa15f33728b61d381c42ad6"
        1 "instruction_set"
    ∷ single "kbltu_2276" "kbltu"
        "../namespaceinstruction__set.html#ab8754e798b5117896d42d78c0a67d980a3102a9776633f8b3670720982de9f37e"
        1 "instruction_set"
    ∷ single "kbltz_2277" "kbltz"
        "../namespaceinstruction__set.html#ab8754e798b5117896d42d78c0a67d980a0d49f189a1985fabc6f5d1985dd4f0ce"
        1 "instruction_set"
    ∷ single "kbne_2278" "kbne"
        "../namespaceinstruction__set.html#ab8754e798b5117896d42d78c0a67d980aa5e9cc9322b759b0374d8dd36f27041a"
        1 "instruction_set"
    ∷ single "kbnez_2279" "kbnez"
        "../namespaceinstruction__set.html#ab8754e798b5117896d42d78c0a67d980a0f002116a36e16a468ca2456f16b6571"
        1 "instruction_set"
    ∷ single "kbtype_2280" "kBtype"
        "../namespaceinstruction__set.html#ab8754e798b5117896d42d78c0a67d980aebebf9621888579629cc0e7e9783c187"
        1 "instruction_set"
    ∷ single "kcall_2281" "kcall"
        "../namespaceinstruction__set.html#ab8754e798b5117896d42d78c0a67d980a3d3bab67ed920f16c643455886916299"
        1 "instruction_set"
    ∷ single "kcsrrc_2282" "kcsrrc"
        "../namespaceinstruction__set.html#ab8754e798b5117896d42d78c0a67d980a74970a380d6e0580c995f5b576c7c6df"
        1 "instruction_set"
    ∷ single "kcsrrci_2283" "kcsrrci"
        "../namespaceinstruction__set.html#ab8754e798b5117896d42d78c0a67d980a5202c5af3b441759358f0cfbdb0db5a1"
        1 "instruction_set"
    ∷ single "kcsrrs_2284" "kcsrrs"
        "../namespaceinstruction__set.html#ab8754e798b5117896d42d78c0a67d980af6d42226b73e98d032b77c095ba56f12"
        1 "instruction_set"
    ∷ single "kcsrrsi_2285" "kcsrrsi"
        "../namespaceinstruction__set.html#ab8754e798b5117896d42d78c0a67d980a295629c46e8bde46d1f8997a1f7c33e3"
        1 "instruction_set"
    ∷ single "kcsrrw_2286" "kcsrrw"
        "../namespaceinstruction__set.html#ab8754e798b5117896d42d78c0a67d980af608d8c6965a4e7d1a3e2f8a500f737f"
        1 "instruction_set"
    ∷ single "kcsrrwi_2287" "kcsrrwi"
        "../namespaceinstruction__set.html#ab8754e798b5117896d42d78c0a67d980a4200803ca310ef52a61879b08c700e21"
        1 "instruction_set"
    ∷ single "kcsrtype_2288" "kCsrType"
        "../namespaceinstruction__set.html#ab8754e798b5117896d42d78c0a67d980ae7bf121a6fa636cedc89ab18f0ed06ba"
        1 "instruction_set"
    ∷ single "kdiv_2289" "kDiv"
        "../namespacealu.html#a168383e119a615fcfa97506988a23985a62ff1bc26aac2154f97b79366b7a8de4" 1
        "alu"
    ∷ single "kdiv_2290" "kdiv"
        "../namespaceinstruction__set.html#ab8754e798b5117896d42d78c0a67d980a3eacd7c6931f7cd897d9b7f6532e5c8c"
        1 "instruction_set"
    ∷ single "kdivu_2291" "kDivu"
        "../namespacealu.html#a168383e119a615fcfa97506988a23985aa1613f20d7277b56317b97526f5ddd59" 1
        "alu"
    ∷ single "kdivu_2292" "kdivu"
        "../namespaceinstruction__set.html#ab8754e798b5117896d42d78c0a67d980af128a77af616c79cd4c23a8adc67ee17"
        1 "instruction_set"
    ∷ single "kdivuw_2293" "kDivuw"
        "../namespacealu.html#a168383e119a615fcfa97506988a23985a632d0ecd17465c4b5c5735599856805e" 1
        "alu"
    ∷ single "kdivuw_2294" "kdivuw"
        "../namespaceinstruction__set.html#ab8754e798b5117896d42d78c0a67d980ab63dc37f11dc73aa42c9dca21c71c1bf"
        1 "instruction_set"
    ∷ single "kdivw_2295" "kDivw"
        "../namespacealu.html#a168383e119a615fcfa97506988a23985a6ad359e329ccf0d3fa3c9bef43a3cb43" 1
        "alu"
    ∷ single "kdivw_2296" "kdivw"
        "../namespaceinstruction__set.html#ab8754e798b5117896d42d78c0a67d980a08ef400e411a76dd4c5f1272e4263df7"
        1 "instruction_set"
    ∷ single "kecall_2297" "kecall"
        "../namespaceinstruction__set.html#ab8754e798b5117896d42d78c0a67d980ae6c81577a797484ad005e91795dbf453"
        1 "instruction_set"
    ∷ single "kfadd_5fd_2298" "kfadd_d"
        "../namespaceinstruction__set.html#ab8754e798b5117896d42d78c0a67d980a2a89603709dc7ab8f730653a143d1786"
        1 "instruction_set"
    ∷ single "kfadd_5fs_2299" "kfadd_s"
        "../namespaceinstruction__set.html#ab8754e798b5117896d42d78c0a67d980acc8359d6902d9adb49e22414e8b10f67"
        1 "instruction_set"
    ∷ single "kfclass_5fd_2300" "kfclass_d"
        "../namespaceinstruction__set.html#ab8754e798b5117896d42d78c0a67d980a69b62889cebe1b19b09371ad2aaf13e4"
        1 "instruction_set"
    ∷ single "kfclass_5fs_2301" "kfclass_s"
        "../namespaceinstruction__set.html#ab8754e798b5117896d42d78c0a67d980a236c732a8002e85e305572f07c88b6c5"
        1 "instruction_set"
    ∷ single "kfcvt_5fd_5fl_2302" "kfcvt_d_l"
        "../namespaceinstruction__set.html#ab8754e798b5117896d42d78c0a67d980ac27d90e2ca1294bad8af40f2e5b7f9c4"
        1 "instruction_set"
    ∷ single "kfcvt_5fd_5flu_2303" "kfcvt_d_lu"
        "../namespaceinstruction__set.html#ab8754e798b5117896d42d78c0a67d980a37365a18b94a0d0512f71287cf163b99"
        1 "instruction_set"
    ∷ []
