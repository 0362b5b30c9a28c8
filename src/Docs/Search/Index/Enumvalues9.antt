-- ===== src/Docs/Search/Index/Enumvalues9.antt =====
-- docs/html/search/enumvalues_9.js: a page of the search index.
use mathlib.Core.List.{◌++◌}
use riscv_simulator_pipeline.Base.{List}
use riscv_simulator_pipeline.Docs.Search.Entry.{SearchEntry}
use riscv_simulator_pipeline.Docs.Search.Index.Enumvalues9First.{enumvalues_9_first}
use riscv_simulator_pipeline.Docs.Search.Index.Enumvalues9Second.{enumvalues_9_second}
use riscv_simulator_pipeline.Docs.Search.Index.Enumvalues9Third.{enumvalues_9_third}
use riscv_simulator_pipeline.Docs.Search.Index.Enumvalues9Fourth.{enumvalues_9_fourth}

abbrev pub enumvalues_9 : List SearchEntry
enumvalues_9 =
    enumvalues_9_first ++ (enumvalues_9_second ++ (enumvalues_9_third ++ enumvalues_9_fourth))
