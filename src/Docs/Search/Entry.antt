-- ===== src/Docs/Search/Entry.antt =====
-- The shape of the search index: `searchData` in the files of docs/html/search.
use Prim.Native.String.{String}
use riscv_simulator_pipeline.Base.{ℕ, List, [], ◌∷◌}

-- A place where a symbol is documented: its URL, whether it opens in the parent window, its scope.
pub data SearchHit : Type 0 where
  hit : String → ℕ → String → SearchHit

-- The id of a row, the name that it shows, and the places.
pub data SearchEntry : Type 0 where
  symbol : String → String → List SearchHit → SearchEntry

abbrev pub name_of : SearchEntry → String
name_of (symbol id name hits) = name

-- An entry with one place.
abbrev pub single : String → String → String → ℕ → String → SearchEntry
single id name url in_parent scope = symbol id name (hit url in_parent scope ∷ [])
