-- ===== src/Docs/Search/Index/All11.antt =====
-- docs/html/search/all_11.js: a page of the search index.
use mathlib.Core.List.{◌++◌}
use riscv_simulator_pipeline.Base.{List}
use riscv_simulator_pipeline.Docs.Search.Entry.{SearchEntry}
use riscv_simulator_pipeline.Docs.Search.Index.All11First.{all_11_first}
use riscv_simulator_pipeline.Docs.Search.Index.All11Second.{all_11_second}
use riscv_simulator_pipeline.Docs.Search.Index.All11Third.{all_11_third}

abbrev pub all_11 : List SearchEntry
all_11 = all_11_first ++ (all_11_second ++ all_11_third)
