-- ===== src/Docs/Search/Sections.antt =====
-- docs/html/search/searchdata.js: the sections of the search index.
use Prim.Native.String.{String}
use riscv_simulator_pipeline.Base.{List, [], ◌∷◌}

-- The characters with which the names of each section begin.
abbrev pub index_sections_with_content : List String
index_sections_with_content =
    "_abcdefghijklmnoprstuvwz~" ∷ "abcdefijlmnprstuv" ∷ "acegitv" ∷ "abcdefgilmprstuv"
    ∷ "abcdefghijlmnoprstuvw~" ∷ "abcdefhijklmnoprstuvwz" ∷ "abcdefimrstvw"
    ∷ "abcdefgijklmnoprstuvw" ∷ "o" ∷ "_acdfhps" ∷ "cr" ∷ []

abbrev pub index_section_names : List String
index_section_names =
    "all" ∷ "classes" ∷ "namespaces" ∷ "files" ∷ "functions" ∷ "variables" ∷ "enums" ∷ "enumvalues"
    ∷ "related" ∷ "defines" ∷ "pages" ∷ []

abbrev pub index_section_labels : List String
index_section_labels =
    "All" ∷ "Classes" ∷ "Namespaces" ∷ "Files" ∷ "Functions" ∷ "Variables" ∷ "Enumerations"
    ∷ "Enumerator" ∷ "Friends" ∷ "Macros" ∷ "Pages" ∷ []
