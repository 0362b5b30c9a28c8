-- ===== src/Docs/Menu/Data.antt =====
-- docs/html/menudata.js: the menu of the documentation.
use riscv_simulator_pipeline.Docs.Menu.Tree.{Menu, leaf, branch, Items, nil, ◌▸◌}

abbrev namespaces_menu : Menu
namespaces_menu = branch "Namespaces" "namespaces.html" (
    leaf "Namespace List" "namespaces.html"
    ▸ branch "Namespace Members" "namespacemembers.html" (
        branch "All" "namespacemembers.html" (
          leaf "a" "namespacemembers.html#index_a"
          ▸ leaf "b" "namespacemembers_b.html#index_b"
          ▸ leaf "c" "namespacemembers_c.html#index_c"
          ▸ leaf "d" "namespacemembers_d.html#index_d"
          ▸ leaf "e" "namespacemembers_e.html#index_e"
          ▸ leaf "f" "namespacemembers_f.html#index_f"
          ▸ leaf "g" "namespacemembers_g.html#index_g"
          ▸ leaf "h" "namespacemembers_h.html#index_h"
          ▸ leaf "i" "namespacemembers_i.html#index_i"
          ▸ leaf "j" "namespacemembers_j.html#index_j"
          ▸ leaf "k" "namespacemembers_k.html#index_k"
          ▸ leaf "l" "namespacemembers_l.html#index_l"
          ▸ leaf "m" "namespacemembers_m.html#index_m"
          ▸ leaf "n" "namespacemembers_n.html#index_n"
          ▸ leaf "o" "namespacemembers_o.html#index_o"
          ▸ leaf "p" "namespacemembers_p.html#index_p"
          ▸ leaf "r" "namespacemembers_r.html#index_r"
          ▸ leaf "s" "namespacemembers_s.html#index_s"
          ▸ leaf "t" "namespacemembers_t.html#index_t"
          ▸ leaf "u" "namespacemembers_u.html#index_u"
          ▸ leaf "v" "namespacemembers_v.html#index_v"
          ▸ leaf "w" "namespacemembers_w.html#index_w"
          ▸ nil)
        ▸ branch "Functions" "namespacemembers_func.html" (
            leaf "c" "namespacemembers_func.html#index_c"
            ▸ leaf "e" "namespacemembers_func.html#index_e"
            ▸ leaf "f" "namespacemembers_func.html#index_f"
            ▸ leaf "g" "namespacemembers_func.html#index_g"
            ▸ leaf "i" "namespacemembers_func.html#index_i"
            ▸ leaf "m" "namespacemembers_func.html#index_m"
            ▸ leaf "o" "namespacemembers_func.html#index_o"
            ▸ leaf "p" "namespacemembers_func.html#index_p"
            ▸ leaf "t" "namespacemembers_func.html#index_t"
            ▸ nil)
        ▸ branch "Variables" "namespacemembers_vars.html" (
            leaf "a" "namespacemembers_vars.html#index_a"
            ▸ leaf "b" "namespacemembers_vars.html#index_b"
            ▸ leaf "c" "namespacemembers_vars.html#index_c"
            ▸ leaf "d" "namespacemembers_vars.html#index_d"
            ▸ leaf "e" "namespacemembers_vars.html#index_e"
            ▸ leaf "f" "namespacemembers_vars.html#index_f"
            ▸ leaf "h" "namespacemembers_vars.html#index_h"
            ▸ leaf "i" "namespacemembers_vars.html#index_i"
            ▸ leaf "j" "namespacemembers_vars.html#index_j"
            ▸ leaf "l" "namespacemembers_vars.html#index_l"
            ▸ leaf "m" "namespacemembers_vars.html#index_m"
            ▸ leaf "n" "namespacemembers_vars.html#index_n"
            ▸ leaf "o" "namespacemembers_vars.html#index_o"
            ▸ leaf "p" "namespacemembers_vars.html#index_p"
            ▸ leaf "r" "namespacemembers_vars.html#index_r"
            ▸ leaf "s" "namespacemembers_vars.html#index_s"
            ▸ leaf "t" "namespacemembers_vars.html#index_t"
            ▸ leaf "u" "namespacemembers_vars.html#index_u"
            ▸ leaf "v" "namespacemembers_vars.html#index_v"
            ▸ nil)
        ▸ leaf "Enumerations" "namespacemembers_enum.html"
        ▸ branch "Enumerator" "namespacemembers_eval.html" (
            leaf "a" "namespacemembers_eval.html#index_a"
            ▸ leaf "b" "namespacemembers_eval.html#index_b"
            ▸ leaf "c" "namespacemembers_eval.html#index_c"
            ▸ leaf "i" "namespacemembers_eval.html#index_i"
            ▸ leaf "j" "namespacemembers_eval.html#index_j"
            ▸ leaf "k" "namespacemembers_eval.html#index_k"
            ▸ leaf "m" "namespacemembers_eval.html#index_m"
            ▸ leaf "w" "namespacemembers_eval.html#index_w"
            ▸ nil)
        ▸ nil)
    ▸ nil)

abbrev classes_menu : Menu
classes_menu = branch "Classes" "annotated.html" (
    leaf "Class List" "annotated.html"
    ▸ leaf "Class Index" "classes.html"
    ▸ leaf "Class Hierarchy" "inherits.html"
    ▸ branch "Class Members" "functions.html" (
        branch "All" "functions.html" (
          leaf "a" "functions.html#index_a"
          ▸ leaf "b" "functions_b.html#index_b"
          ▸ leaf "c" "functions_c.html#index_c"
          ▸ leaf "d" "functions_d.html#index_d"
          ▸ leaf "e" "functions_e.html#index_e"
          ▸ leaf "f" "functions_f.html#index_f"
          ▸ leaf "g" "functions_g.html#index_g"
          ▸ leaf "h" "functions_h.html#index_h"
          ▸ leaf "i" "functions_i.html#index_i"
          ▸ leaf "j" "functions_j.html#index_j"
          ▸ leaf "k" "functions_k.html#index_k"
          ▸ leaf "l" "functions_l.html#index_l"
          ▸ leaf "m" "functions_m.html#index_m"
          ▸ leaf "n" "functions_n.html#index_n"
          ▸ leaf "o" "functions_o.html#index_o"
          ▸ leaf "p" "functions_p.html#index_p"
          ▸ leaf "r" "functions_r.html#index_r"
          ▸ leaf "s" "functions_s.html#index_s"
          ▸ leaf "t" "functions_t.html#index_t"
          ▸ leaf "u" "functions_u.html#index_u"
          ▸ leaf "v" "functions_v.html#index_v"
          ▸ leaf "w" "functions_w.html#index_w"
          ▸ leaf "z" "functions_z.html#index_z"
          ▸ leaf "~" "functions_~.html#index__7E"
          ▸ nil)
        ▸ branch "Functions" "functions_func.html" (
            leaf "a" "functions_func.html#index_a"
            ▸ leaf "b" "functions_func_b.html#index_b"
            ▸ leaf "c" "functions_func_c.html#index_c"
            ▸ leaf "d" "functions_func_d.html#index_d"
            ▸ leaf "e" "functions_func_e.html#index_e"
            ▸ leaf "f" "functions_func_f.html#index_f"
            ▸ leaf "g" "functions_func_g.html#index_g"
            ▸ leaf "h" "functions_func_h.html#index_h"
            ▸ leaf "i" "functions_func_i.html#index_i"
            ▸ leaf "j" "functions_func_j.html#index_j"
            ▸ leaf "l" "functions_func_l.html#index_l"
            ▸ leaf "m" "functions_func_m.html#index_m"
            ▸ leaf "n" "functions_func_n.html#index_n"
            ▸ leaf "p" "functions_func_p.html#index_p"
            ▸ leaf "r" "functions_func_r.html#index_r"
            ▸ leaf "s" "functions_func_s.html#index_s"
            ▸ leaf "t" "functions_func_t.html#index_t"
            ▸ leaf "u" "functions_func_u.html#index_u"
            ▸ leaf "v" "functions_func_v.html#index_v"
            ▸ leaf "w" "functions_func_w.html#index_w"
            ▸ leaf "~" "functions_func_~.html#index__7E"
            ▸ nil)
        ▸ branch "Variables" "functions_vars.html" (
            leaf "a" "functions_vars.html#index_a"
            ▸ leaf "b" "functions_vars_b.html#index_b"
            ▸ leaf "c" "functions_vars_c.html#index_c"
            ▸ leaf "d" "functions_vars_d.html#index_d"
            ▸ leaf "e" "functions_vars_e.html#index_e"
            ▸ leaf "f" "functions_vars_f.html#index_f"
            ▸ leaf "h" "functions_vars_h.html#index_h"
            ▸ leaf "i" "functions_vars_i.html#index_i"
            ▸ leaf "k" "functions_vars_k.html#index_k"
            ▸ leaf "l" "functions_vars_l.html#index_l"
            ▸ leaf "m" "functions_vars_m.html#index_m"
            ▸ leaf "n" "functions_vars_n.html#index_n"
            ▸ leaf "o" "functions_vars_o.html#index_o"
            ▸ leaf "p" "functions_vars_p.html#index_p"
            ▸ leaf "r" "functions_vars_r.html#index_r"
            ▸ leaf "s" "functions_vars_s.html#index_s"
            ▸ leaf "t" "functions_vars_t.html#index_t"
            ▸ leaf "u" "functions_vars_u.html#index_u"
            ▸ leaf "v" "functions_vars_v.html#index_v"
            ▸ leaf "w" "functions_vars_w.html#index_w"
            ▸ leaf "z" "functions_vars_z.html#index_z"
            ▸ nil)
        ▸ leaf "Enumerations" "functions_enum.html"
        ▸ leaf "Related Functions" "functions_rela.html"
        ▸ nil)
    ▸ nil)

abbrev files_menu : Menu
files_menu = branch "Files" "files.html" (
    leaf "File List" "files.html"
    ▸ branch "File Members" "globals.html" (
        branch "All" "globals.html" (
          leaf "_" "globals.html#index__5F"
          ▸ leaf "a" "globals.html#index_a"
          ▸ leaf "c" "globals.html#index_c"
          ▸ leaf "d" "globals.html#index_d"
          ▸ leaf "f" "globals.html#index_f"
          ▸ leaf "g" "globals.html#index_g"
          ▸ leaf "h" "globals.html#index_h"
          ▸ leaf "i" "globals.html#index_i"
          ▸ leaf "l" "globals.html#index_l"
          ▸ leaf "m" "globals.html#index_m"
          ▸ leaf "o" "globals.html#index_o"
          ▸ leaf "p" "globals.html#index_p"
          ▸ leaf "r" "globals.html#index_r"
          ▸ leaf "s" "globals.html#index_s"
          ▸ leaf "t" "globals.html#index_t"
          ▸ leaf "v" "globals.html#index_v"
          ▸ leaf "w" "globals.html#index_w"
          ▸ nil)
        ▸ branch "Functions" "globals_func.html" (
            leaf "a" "globals_func.html#index_a"
            ▸ leaf "c" "globals_func.html#index_c"
            ▸ leaf "d" "globals_func.html#index_d"
            ▸ leaf "g" "globals_func.html#index_g"
            ▸ leaf "i" "globals_func.html#index_i"
            ▸ leaf "l" "globals_func.html#index_l"
            ▸ leaf "m" "globals_func.html#index_m"
            ▸ leaf "o" "globals_func.html#index_o"
            ▸ leaf "p" "globals_func.html#index_p"
            ▸ leaf "s" "globals_func.html#index_s"
            ▸ leaf "t" "globals_func.html#index_t"
            ▸ leaf "w" "globals_func.html#index_w"
            ▸ nil)
        ▸ leaf "Variables" "globals_vars.html"
        ▸ leaf "Enumerations" "globals_enum.html"
        ▸ leaf "Enumerator" "globals_eval.html"
        ▸ leaf "Macros" "globals_defs.html"
        ▸ nil)
    ▸ nil)

abbrev pub menudata : Items
menudata =
    leaf "Main Page" "index.html"
    ▸ leaf "Related Pages" "pages.html"
    ▸ namespaces_menu
    ▸ classes_menu
    ▸ files_menu
    ▸ nil
