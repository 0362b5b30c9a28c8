-- ===== src/Docs/Search/Index/AllB.antt =====
-- docs/html/search/all_b.js: a page of the search index.
use mathlib.Core.List.{◌++◌}
use riscv_simulator_pipeline.Base.{List}
use riscv_simulator_pipeline.Docs.Search.Entry.{SearchEntry}
use riscv_simulator_pipeline.Docs.Search.Index.AllBFirst.{all_b_first}
use riscv_simulator_pipeline.Docs.Search.Index.AllBSecond.{all_b_second}
use riscv_simulator_pipeline.Docs.Search.Index.AllBThird.{all_b_third}
use riscv_simulator_pipeline.Docs.Search.Index.AllBFourth.{all_b_fourth}

abbrev pub all_b : List SearchEntry
all_b = all_b_first ++ (all_b_second ++ (all_b_third ++ all_b_fourth))
