-- ===== src/Docs/Search/Index/All9.antt =====
-- docs/html/search/all_9.js: a page of the search index.
use mathlib.Core.List.{◌++◌}
use riscv_simulator_pipeline.Base.{List}
use riscv_simulator_pipeline.Docs.Search.Entry.{SearchEntry}
use riscv_simulator_pipeline.Docs.Search.Index.All9First.{all_9_first}
use riscv_simulator_pipeline.Docs.Search.Index.All9Second.{all_9_second}
use riscv_simulator_pipeline.Docs.Search.Index.All9Third.{all_9_third}

abbrev pub all_9 : List SearchEntry
all_9 = all_9_first ++ (all_9_second ++ all_9_third)
